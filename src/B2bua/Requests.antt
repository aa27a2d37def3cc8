-- ===== src/B2bua/Requests.antt =====
-- The requests that the B2BUA makes for its two legs. Random identifiers are arguments.
use xylitol.Base.{
  ℕ, suc, ◌+◌, ◌-◌, ◌^◌, ◌||◌, not, Bool, List, [], ◌∷◌, ◌++◌, Option, none, some, if◌then◌else◌,
  ltb, Bytes, codes, equal, ℤ, pos, negsuc, neg, Result, ok, err, panic, at_least,
}
use xylitol.Text.{to_lower, to_upper, before, fields, atoi, atoi_value, itoa, cut}
use xylitol.Dict.{Dict, insert}
use xylitol.Sip.Message.{SipRequest, SipResponse, get_header, get_response_header, clone}
use xylitol.Sip.Uri.{SipUri, parse_sip_uri, print_uri, get_sip_uri_header}
use xylitol.Sip.Fields.{get_tag}

-- The headers that the B2BUA makes itself.
unfoldable pub is_own_header : Bytes → Bool
unfolding to_lower equal
is_own_header key =
    let k = to_lower key in
    equal k (codes "from")
    || equal k (codes "to")
    || equal k (codes "call-id")
    || equal k (codes "cseq")
    || equal k (codes "via")
    || equal k (codes "contact")
    || equal k (codes "record-route")
    || equal k (codes "route")

unfoldable pub copy_other_headers : Dict Bytes → Dict Bytes
unfolding is_own_header insert
copy_other_headers [] = []
copy_other_headers ((k, v) ∷ headers) =
    let rest = copy_other_headers headers in if is_own_header k then rest else insert k v rest

unfoldable pub via_value : Bytes → Bytes → Bytes → Bytes
unfolding to_upper
via_value proto listen_addr branch =
    codes "SIP/2.0/" ++ (to_upper proto ++ (b' ' ∷ (listen_addr ++ (codes ";branch=" ++ branch))))

unfoldable pub with_tag : Bytes → Bytes → Bytes
with_tag value tag = value ++ (codes ";tag=" ++ tag)

-- `<sip:…>`
abbrev pub sip_address : Bytes → Bytes
sip_address address = codes "<sip:" ++ (address ++ b'>' ∷ [])

-- A transport, as far as the headers name it, and what is drawn at random.
pub record Leg : Type 0 where
  pub proto : Bytes
  pub listen_addr : Bytes
  pub branch : Bytes
  pub call_id : Bytes
  pub tag : Bytes

-- `createVirtualUACInvite`: nil where the target cannot be parsed.
unfoldable pub create_virtual_uac_invite : Leg → SipRequest → Bytes → Option SipRequest
unfolding copy_other_headers via_value with_tag parse_sip_uri get_header before insert
create_virtual_uac_invite leg uas_req target = elim (parse_sip_uri target) [
  | ok to ↦ some (record {
    method = codes "INVITE";
    uri = target;
    proto = uas_req.proto;
    headers = insert (codes "Max-Forwards") (codes "69") (
        insert (codes "Via") (via_value leg.proto leg.listen_addr leg.branch) (
          insert (codes "Contact") (sip_address leg.listen_addr) (
            insert (codes "CSeq") (codes "1 INVITE") (
              insert (codes "To") (sip_address (to.user ++ (b'@' ∷ to.host))) (
                insert (codes "From")
                  (with_tag (before (codes ";tag=") (get_header (codes "From") uas_req)) leg.tag)
                  (insert (codes "Call-ID") leg.call_id (copy_other_headers uas_req.headers)))))));
    authorization = [];
    body = uas_req.body;
  })
  | _ ↦ none
]

-- `n + 1` and `n + 10` of an `int`.
unfoldable pub plus : ℕ → ℤ → ℤ
plus k (pos n) = if ltb (n + k) (2 ^ 63) then pos (n + k) else neg (2 ^ 64 - (n + k))
plus k (negsuc n) = if ltb n k then pos (k - suc n) else negsuc (n - k)

-- The CSeq of the retry: `cseq+1` and the same method, or unchanged where it has another form.
retry_cseq : List Bytes → Bytes → Bytes
unfolding atoi itoa plus
retry_cseq (number ∷ method ∷ []) cseq = elim (atoi number) [
  | none ↦ cseq
  | some n ↦ itoa (plus 1 n) ++ (b' ' ∷ method)
]
retry_cseq _ cseq = cseq

-- The INVITE that is sent again after a 422 response with a Min-SE.
unfoldable pub retry_request : Leg → ℤ → SipRequest → SipRequest
unfolding clone insert itoa get_header fields retry_cseq via_value
retry_request leg min_se original =
    let req = clone original in
    let timed = record req {
      headers = insert (codes "Session-Expires") (itoa min_se) req.headers;
    } in
    let cseq = get_header (codes "CSeq") timed in
    let numbered = insert (codes "CSeq") (retry_cseq (fields cseq) cseq) timed.headers in
    record timed {
      headers = insert (codes "Via") (via_value leg.proto leg.listen_addr leg.branch) numbered;
    }

-- `strings.Replace(cseq, "INVITE", "ACK", 1)`
ack_cseq : Bytes → Bytes
unfolding cut
ack_cseq cseq = elim (cut (codes "INVITE") cseq) [
  | none ↦ cseq
  | some (front, rest) ↦ front ++ (codes "ACK" ++ rest)
]

-- The headers of a request that the B2BUA makes within a dialog.
dialog_headers : Leg → Bytes → Bytes → Bytes → Bytes → Dict Bytes
unfolding via_value
dialog_headers leg from to call_id cseq =
    (codes "Via", via_value leg.proto leg.listen_addr leg.branch)
    ∷ (codes "From", from)
    ∷ (codes "To", to)
    ∷ (codes "Call-ID", call_id)
    ∷ (codes "CSeq", cseq)
    ∷ (codes "Max-Forwards", codes "70")
    ∷ []

dialog_request : Bytes → SipUri → Dict Bytes → SipRequest
unfolding print_uri
dialog_request method contact headers = record {
  method = method;
  uri = print_uri contact;
  proto = codes "SIP/2.0";
  headers = headers;
  authorization = [];
  body = [];
}

-- `createVirtualUACAck`, on the INVITE of the leg and its 2xx response.
unfoldable pub create_virtual_uac_ack : Leg → SipRequest → SipResponse → Option SipRequest
unfolding dialog_request dialog_headers with_tag get_header get_response_header get_tag ack_cseq
    parse_sip_uri
create_virtual_uac_ack leg invite res =
    if not (at_least 200 res.status_code) || at_least 300 res.status_code
    then none
    else elim (parse_sip_uri (get_response_header (codes "Contact") res)) [
      | ok contact ↦ some (
          dialog_request (codes "ACK") contact (
            dialog_headers leg
              (with_tag (get_header (codes "From") invite)
                (get_tag (get_response_header (codes "From") res)))
              (with_tag (get_header (codes "To") invite)
                (get_tag (get_response_header (codes "To") res)))
              (get_response_header (codes "Call-ID") res)
              (ack_cseq (get_response_header (codes "CSeq") res))))
      | _ ↦ none
    ]

-- `strconv.Atoi(strings.Fields(cseqStr)[0])`, the error ignored. A CSeq without any word panics.
first_number : List Bytes → Result ℤ
unfolding atoi_value
first_number [] = panic
first_number (word ∷ words) = ok (atoi_value word)

bye_cseq : ℤ → Bytes
unfolding itoa plus
bye_cseq n = itoa (plus 10 n) ++ codes " BYE"

-- `createByeRequestForUACLeg`, on the INVITE of the leg and its last response; `ok none` is nil.
unfoldable pub create_bye_for_uac_leg :
    Leg → SipRequest → Option SipResponse → Result (Option SipRequest)
unfolding dialog_request dialog_headers with_tag get_header get_response_header get_tag first_number
    fields bye_cseq parse_sip_uri
create_bye_for_uac_leg leg invite none = ok none
create_bye_for_uac_leg leg invite (some res) =
    elim (parse_sip_uri (get_response_header (codes "Contact") res)) [
      | ok contact ↦ elim (first_number (fields (get_header (codes "CSeq") invite))) [
        | ok n ↦ ok (
            some (
              dialog_request (codes "BYE") contact (
                dialog_headers leg
                  (with_tag (get_header (codes "From") invite)
                    (get_tag (get_response_header (codes "From") res)))
                  (with_tag (get_header (codes "To") invite)
                    (get_tag (get_response_header (codes "To") res)))
                  (get_response_header (codes "Call-ID") res) (bye_cseq n))))
        | err e ↦ err e
        | panic ↦ panic
      ]
      | _ ↦ ok none
    ]

-- `createByeRequestForUASLeg`: From and To change places.
unfoldable pub create_bye_for_uas_leg :
    Leg → SipRequest → Option SipResponse → Result (Option SipRequest)
unfolding dialog_request dialog_headers with_tag get_header get_response_header get_tag first_number
    fields bye_cseq get_sip_uri_header
create_bye_for_uas_leg leg invite none = ok none
create_bye_for_uas_leg leg invite (some res) = elim (get_sip_uri_header (codes "Contact") invite) [
  | ok contact ↦ elim (first_number (fields (get_header (codes "CSeq") invite))) [
    | ok n ↦ ok (
        some (
          dialog_request (codes "BYE") contact (
            dialog_headers leg
              (with_tag (get_header (codes "To") invite)
                (get_tag (get_response_header (codes "To") res)))
              (with_tag (get_header (codes "From") invite)
                (get_tag (get_response_header (codes "From") res)))
              (get_response_header (codes "Call-ID") res) (bye_cseq n))))
    | err e ↦ err e
    | panic ↦ panic
  ]
  | _ ↦ ok none
]

-- `createForwardedRequest`: a copy with the Call-ID of the other dialog.
unfoldable pub create_forwarded_request : SipRequest → Bytes → SipRequest
unfolding clone insert before
create_forwarded_request req dialog_id =
    let copy = clone req in
    record copy { headers = insert (codes "Call-ID") (before (b':' ∷ []) dialog_id) copy.headers }

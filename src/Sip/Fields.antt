-- ===== src/Sip/Fields.antt =====
-- Header values with a structure of their own: `SessionExpires`, `MinSE`, `Expires`, `GetTag` and
-- the Digest parameters.
use xylitol.Base.{
  ℕ, Bool, List, [], ◌∷◌, Option, none, some, ◌==◌, if◌then◌else◌, Bytes, codes, is_nil, equal, ℤ,
  pos, negsuc, Result, ok, err, bad_delta_seconds, bad_min_se,
}
use xylitol.Text.{
  Parts, all_parts, to_lower, trim, trim_space, strip_prefix, contains, split, cut, atoi,
}
use xylitol.Dict.{Dict, insert}
use xylitol.Sip.Message.{SipRequest, SipResponse, get_header, get_response_header}

pub record SessionExpires : Type 0 where
  pub delta : ℤ
  pub refresher : Bytes

-- One parameter of Session-Expires, on the refresher found so far; the last one counts.
refresher_param : Bytes → Bytes → Bytes
unfolding cut to_lower trim_space equal
refresher_param param refresher = elim (cut (b'=' ∷ []) param) [
  | none ↦ refresher
  | some (key, val) ↦
      if equal (to_lower (trim_space key)) (codes "refresher")
      then to_lower (trim_space val)
      else refresher
]

refresher_of : List Bytes → Bytes → Bytes
unfolding refresher_param
refresher_of [] refresher = refresher
refresher_of (p ∷ ps) refresher = refresher_of ps (refresher_param p refresher)

session_expires_of : Parts → Result SessionExpires
unfolding atoi trim_space refresher_of
session_expires_of (part, params) = elim (atoi (trim_space part)) [
  | none ↦ err bad_delta_seconds
  | some delta ↦ ok (record { delta = delta; refresher = refresher_of params [] })
]

unfoldable pub parse_session_expires : Bytes → Result SessionExpires
unfolding session_expires_of split
parse_session_expires value = session_expires_of (split b';' value)

-- `SessionExpires()` on the values of Session-Expires and of its compact form `x`; `ok none` where
-- neither is there.
optional_session_expires : Bytes → Bytes → Result (Option SessionExpires)
unfolding parse_session_expires
optional_session_expires value compact =
    let header = if is_nil value then compact else value in
    if is_nil header then ok none else elim (parse_session_expires header) [
      | ok se ↦ ok (some se)
      | err e ↦ err e
      | Result.panic ↦ Result.panic
    ]

unfoldable pub session_expires : SipRequest → Result (Option SessionExpires)
unfolding optional_session_expires get_header
session_expires r =
    optional_session_expires (get_header (codes "Session-Expires") r) (get_header (codes "x") r)

unfoldable pub response_session_expires : SipResponse → Result (Option SessionExpires)
unfolding optional_session_expires get_response_header
response_session_expires r =
    optional_session_expires (get_response_header (codes "Session-Expires") r)
      (get_response_header (codes "x") r)

-- -1 where there is no Min-SE.
min_se_of : Bytes → Result ℤ
unfolding atoi trim_space
min_se_of value =
    if is_nil value
    then ok (negsuc 0)
    else elim (atoi (trim_space value)) [ none ↦ err bad_min_se | some n ↦ ok n ]

unfoldable pub min_se : SipRequest → Result ℤ
unfolding min_se_of get_header
min_se r = min_se_of (get_header (codes "Min-SE") r)

unfoldable pub response_min_se : SipResponse → Result ℤ
unfolding min_se_of get_response_header
response_min_se r = min_se_of (get_response_header (codes "Min-SE") r)

-- The loop over the parts of Contact: the first `expires=` that holds a number.
contact_expires : List Bytes → Option ℤ
unfolding strip_prefix atoi
contact_expires [] = none
contact_expires (p ∷ ps) = elim (strip_prefix (codes "expires=") p) [
  | none ↦ contact_expires ps
  | some value ↦ elim (atoi value) [ none ↦ contact_expires ps | some n ↦ some n ]
]

-- From the Expires header, 3600 where it is missing or no number.
header_expires : Bytes → ℤ
unfolding atoi
header_expires value =
    if is_nil value then pos 3600 else elim (atoi value) [ none ↦ pos 3600 | some n ↦ n ]

unfoldable pub expires : SipRequest → ℤ
unfolding contact_expires header_expires contains split get_header
expires r =
    let contact = get_header (codes "Contact") r in
    let from_contact =
      if contains (codes "expires=") contact
      then contact_expires (all_parts (split b';' contact))
      else none in
    elim from_contact [ some n ↦ n | none ↦ header_expires (get_header (codes "Expires") r) ]

-- The loop of `GetTag`.
tag_of : List Bytes → Bytes
unfolding strip_prefix trim_space
tag_of [] = []
tag_of (p ∷ ps) = elim (strip_prefix (codes "tag=") (trim_space p)) [
  | none ↦ tag_of ps
  | some tag ↦ tag
]

unfoldable pub get_tag : Bytes → Bytes
unfolding tag_of split
get_tag value = tag_of (all_parts (split b';' value))

abbrev is_quote : ℕ → Bool
is_quote c = c == b'"'

-- The loop of `parseAuthHeader`; a part with no `=` is passed over.
auth_params : List Bytes → Dict Bytes → Dict Bytes
unfolding cut trim trim_space insert
auth_params [] result = result
auth_params (p ∷ ps) result = auth_params ps (elim (cut (b'=' ∷ []) (trim_space p)) [
  | none ↦ result
  | some (key, val) ↦ insert (trim_space key) (trim is_quote (trim_space val)) result
])

unfoldable pub parse_auth_header : Bytes → Dict Bytes
unfolding auth_params strip_prefix split
parse_auth_header value = elim (strip_prefix (codes "Digest ") value) [
  | none ↦ []
  | some rest ↦ auth_params (all_parts (split b',' rest)) []
]

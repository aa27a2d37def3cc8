-- ===== src/Guidance/Answer.antt =====
-- The answer to the call, and the BYE that ends it.
use xylitol.Base.{
  ℕ, Bool, true, false, [], Option, some, if◌then◌else◌, Bytes, codes, is_nil, ◌==◌, equal,
  equal_refl, ℤ, pos, ok, >>=-eq-ok, ◌≡◌, ◌≢◌, ◌⊎◌, refl, sym, ap, subst, ◌∙◌, arith, inl, inr,
  Bool-cases, Option-cases,
}
use xylitol.Dict.{Dict, lookup, insert, get, lookup-insert}
use xylitol.Text.{to_upper}
use xylitol.Sip.Message.{SipRequest, SipResponse}
use xylitol.Sip.Fields.{get_tag}
use xylitol.Sip.Build.{build_response}
use xylitol.Sip.Uri.{parse_sip_uri}
use xylitol.Transport.Tcp.{new_tcp_transport}
use xylitol.Transport.{Transport, tcp, get_proto, transport_for}
use xylitol.Server.State.{Transaction, SipServer}
use xylitol.Guidance.{
  App, Media, start_call, with_answer, by_media, keep_tag, answer_of, require_target, run,
  bye_request, bye_over, next_cseq, send_bye,
}

-- What holds of the state and the response behind `Run` where the call is answered.
pub record IsOffered (m : Media) (a : App) (res : SipResponse) : Type 0 where
  pub has_target : is_nil a.remote_target ≡ false
  pub has_codec : m.registers_codec ≡ true
  pub took_offer : m.accepts_offer ≡ true
  pub took_answer : m.accepts_answer ≡ true
  pub sends_answer : m.answer ≡ some res.body
  pub is_sdp : lookup (codes "Content-Type") res.headers ≡ some (codes "application/sdp")
  pub keeps_tag : a.remote_tag ≡ get_tag (get (codes "To") res.headers)

lookup-if :
    (b : Bool) (k : Bytes) (m m' : Dict Bytes) (v : Option Bytes)
    → lookup k m ≡ v
    → lookup k m' ≡ v
    → lookup k (if b then m else m') ≡ v
lookup-if true k m m' v h h' = h
lookup-if false k m m' v h h' = h'

typed :
    (m : Dict Bytes)
    → lookup (codes "Content-Type") (insert (codes "Content-Type") (codes "application/sdp") m)
      ≡ some (codes "application/sdp")
typed m =
    rw
      (
        lookup-insert (codes "Content-Type") (codes "Content-Type") (codes "application/sdp") m,
        equal_refl (codes "Content-Type"),
      )
      refl

to_elsewhere : equal (codes "To") (codes "Content-Type") ≡ false
unfolding equal
to_elsewhere = refl

typed_under_to :
    (to : Bytes) (m : Dict Bytes)
    → lookup (codes "Content-Type") (insert (codes "To") to m) ≡ lookup (codes "Content-Type") m
typed_under_to to m = rw (lookup-insert (codes "To") (codes "Content-Type") to m, to_elsewhere) refl

with_answer_body : (tag sdp : Bytes) (res : SipResponse) → (with_answer tag sdp res).body ≡ sdp
unfolding with_answer
with_answer_body tag sdp res = refl

with_answer_type :
    (tag sdp : Bytes) (res : SipResponse)
    → lookup (codes "Content-Type") (with_answer tag sdp res).headers
      ≡ some (codes "application/sdp")
unfolding with_answer
with_answer_type tag sdp res =
    lookup-if _ _ _ _ _ (typed_under_to _ _ ∙ typed res.headers) (typed res.headers)

-- What `by_media` chooses.
by_media-cases {ℓ} :
    {A : Type ℓ} (m : Media) (failed refused : A) (answered : Bytes → A)
    → (by_media m failed refused answered ≡ failed)
      ⊎ ((by_media m failed refused answered ≡ refused)
          ⊎ ((sdp : Bytes) × (m.answer ≡ some sdp)
              × (m.registers_codec ≡ true)
              × (m.accepts_offer ≡ true)
              × (m.accepts_answer ≡ true)
              × (by_media m failed refused answered ≡ answered sdp)))
unfolding by_media
by_media-cases m failed refused answered = elim (Option-cases m.answer) [
  | inl e ↦ ground arith
  | inr (sdp, e) ↦ ground arith
]

build_response-status :
    (code_ : ℤ) (reason : Bytes) (req : SipRequest) (extra : Dict Bytes)
    → (build_response code_ reason req extra).status_code ≡ code_
unfolding build_response
build_response-status code_ reason req extra = refl

-- Another status is not 200.
not_ok :
    (n : ℕ) (reason : Bytes) (req : SipRequest)
    → (n == 200) ≡ false
    → (build_response (pos n) reason req []).status_code ≢ pos 200
not_ok n reason req other h =
    let same : pos n ≡ pos 200 = sym (build_response-status (pos n) reason req []) ∙ h in
    ground arith

answered-IsOffered :
    (m : Media) (tag sdp : Bytes) (a : App) (res : SipResponse)
    → is_nil a.remote_target ≡ false
    → m.registers_codec ≡ true
    → m.accepts_offer ≡ true
    → m.accepts_answer ≡ true
    → m.answer ≡ some sdp
    → IsOffered m (keep_tag a (with_answer tag sdp res)).0 (keep_tag a (with_answer tag sdp res)).1
unfolding keep_tag
answered-IsOffered m tag sdp a res target codec offer answer given = record {
  has_target = target;
  has_codec = codec;
  took_offer = offer;
  took_answer = answer;
  sends_answer = given ∙ ap some (sym (with_answer_body tag sdp res));
  is_sdp = with_answer_type tag sdp res;
  keeps_tag = refl;
}

answer_of-IsOffered :
    (a : App) (tag : Bytes) (m : Media) (failed refused res : SipResponse)
    → failed.status_code ≢ pos 200
    → refused.status_code ≢ pos 200
    → is_nil a.remote_target ≡ false
    → (answer_of a tag m failed refused res).1.status_code ≡ pos 200
    → IsOffered m (answer_of a tag m failed refused res).0 (answer_of a tag m failed refused res).1
unfolding answer_of
answer_of-IsOffered a tag m failed refused res nf nr target h =
    elim (by_media-cases m (a, failed) (a, refused) (λ sdp. keep_tag a (with_answer tag sdp res))) [
      | inl e ↦ absurd (nf (ap (λ x. x.1.status_code) (sym e) ∙ h))
      | inr (inl e) ↦ absurd (nr (ap (λ x. x.1.status_code) (sym e) ∙ h))
      | inr (inr (sdp, given, codec, offer, answer, e)) ↦
          subst (λ x. IsOffered m x.0 x.1) (sym e)
            (answered-IsOffered m tag sdp a res target codec offer answer given)
    ]

refused_target :
    (a : App) (bad : SipResponse) (r : App × SipResponse)
    → is_nil a.remote_target ≡ true
    → require_target a bad r ≡ (a, bad)
unfolding require_target
refused_target a bad r e = rw (e) refl

passed_target :
    (a : App) (bad : SipResponse) (r : App × SipResponse)
    → is_nil a.remote_target ≡ false
    → require_target a bad r ≡ r
unfolding require_target
passed_target a bad r e = rw (e) refl

require_target-IsOffered :
    (a : App) (m : Media) (bad : SipResponse) (r : App × SipResponse)
    → bad.status_code ≢ pos 200
    → (is_nil a.remote_target ≡ false → r.1.status_code ≡ pos 200 → IsOffered m r.0 r.1)
    → (require_target a bad r).1.status_code ≡ pos 200
    → IsOffered m (require_target a bad r).0 (require_target a bad r).1
unfolding require_target
require_target-IsOffered a m bad r nb next h = elim (Bool-cases (is_nil a.remote_target)) [
  | inl e ↦ absurd (nb (ap (λ x. x.1.status_code) (sym (refused_target a bad r e)) ∙ h))
  | inr e ↦
      subst (λ x. IsOffered m x.0 x.1) (sym (passed_target a bad r e))
        (next e (ap (λ x. x.1.status_code) (sym (passed_target a bad r e)) ∙ h))
]

-- Where the response that `Run` gives to the INVITE is a 200, the Contact named a target, the codec
-- was registered, the offer and the answer were accepted, the body is that answer with the type
-- application/sdp, and the tag of the To is kept for the BYE.
pub run-IsOffered :
    (req : SipRequest) (tag : Bytes) (m : Media)
    → (run req tag m).1.status_code ≡ pos 200
    → IsOffered m (run req tag m).0 (run req tag m).1
unfolding run
run-IsOffered req tag m h =
    require_target-IsOffered (start_call req) m
      (build_response (pos 400) (codes "Bad Request") req [])
      (answer_of (start_call req) tag m
        (build_response (pos 500) (codes "Server Internal Error") req [])
        (build_response (pos 488) (codes "Not Acceptable Here") req [])
        (build_response (pos 200) (codes "OK") req []))
      (not_ok 400 (codes "Bad Request") req refl)
      (answer_of-IsOffered (start_call req) tag m
        (build_response (pos 500) (codes "Server Internal Error") req [])
        (build_response (pos 488) (codes "Not Acceptable Here") req [])
        (build_response (pos 200) (codes "OK") req [])
        (not_ok 500 (codes "Server Internal Error") req refl)
        (not_ok 488 (codes "Not Acceptable Here") req refl))
      h

no_tcp :
    (resolve : Bytes → Bytes → Option Bytes) (host port address : Bytes) (transport : Transport)
    → transport_for resolve host port (get_proto (tcp (new_tcp_transport address))) ≢ ok transport
unfolding transport_for get_proto to_upper equal
no_tcp resolve host port address transport h = cc

-- A call that came over TCP is never ended by a BYE: whatever the target of the caller is,
-- `sendBye` starts no transaction.
pub send_bye-tcp :
    (resolve : Bytes → Bytes → Option Bytes) (req : SipRequest) (address branch : Bytes) (a : App)
    (s : SipServer) (started : Transport × (Transaction × SipServer))
    → (send_bye resolve req (get_proto (tcp (new_tcp_transport address))) branch a s).1 ≢ ok started
unfolding send_bye
send_bye-tcp resolve req address branch a s started h =
    let (dest, _, h') = >>=-eq-ok (parse_sip_uri a.remote_target) _ h in
    let (transport, e, _) =
      >>=-eq-ok
        (transport_for resolve dest.host dest.port (get_proto (tcp (new_tcp_transport address))))
        (λ transport.
          bye_over
            (bye_request req (get_proto (tcp (new_tcp_transport address))) s.listen_addr branch
              (next_cseq a))
            transport s)
        h' in
    no_tcp resolve dest.host dest.port address transport e

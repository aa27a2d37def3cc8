-- ===== src/Server/Registrar/Others.antt =====
-- A REGISTER changes the contacts of its own user only.
use xylitol.Base.{
  ℕ, ◌&&◌, Bool, false, List, [], ◌∷◌, if◌then◌else◌, Bytes, codes, equal, is_nil, ℤ, Result, ok,
  err, panic, ◌>>=◌, >>=-eq-ok, ◌≡◌, refl, ◌∙◌, arith, inl, inr, Bool-cases, Option-cases,
}
use xylitol.Text.{split, all_parts}
use xylitol.Dict.{lookup, get, lookup-insert, lookup-delete}
use xylitol.Sip.Message.{SipRequest, SipResponse, get_header}
use xylitol.Sip.Fields.{expires}
use xylitol.Server.Clock.{add, seconds}
use xylitol.Server.Contacts.{
  Registration, Registrations, contacts_or_nil, put_contact, add_or_update_contact, drop_contact,
  remove_contact, contact_uri_of, update_contact, update_contacts, is_zero,
}
use xylitol.Server.Contacts.Bindings.{lookup-store_contacts}
use xylitol.Server.Nonces.{validate_nonce}
use xylitol.Server.Registrar.{
  Services, Draw, Registrar, update_registration, unauthorized, credentials, digest_matches, accept,
  handle_register, create_ok_response,
}

-- The contacts of a user.
abbrev pub contacts : Bytes → Registrations → List Registration
contacts user registrations = contacts_or_nil (lookup user registrations)

add_or_update_contact-other :
    (now : ℕ) (u uri : Bytes) (e : ℤ) (r : Registrations) (user : Bytes)
    → equal u user ≡ false
    → contacts user (add_or_update_contact now u uri e r) ≡ contacts user r
unfolding add_or_update_contact
add_or_update_contact-other now u uri e r user other = ground (
  arith,
  lookup-insert u user (put_contact uri (add now (seconds e)) (contacts_or_nil (lookup u r))) r,
)

remove_contact-other :
    (u uri : Bytes) (r : Registrations) (user : Bytes)
    → equal u user ≡ false
    → contacts user (remove_contact u uri r) ≡ contacts user r
unfolding remove_contact
remove_contact-other u uri r user other = elim (Option-cases (lookup u r)) [
  | inl missing ↦ ground arith
  | inr (regs, there) ↦ ground (arith, lookup-store_contacts u (drop_contact uri regs) r user)
]

update_contact-other :
    (now : ℕ) (u : Bytes) (e : ℤ) (uri : Bytes) (r : Registrations) (user : Bytes)
    → equal u user ≡ false
    → contacts user (update_contact now u e uri r) ≡ contacts user r
unfolding update_contact
update_contact-other now u e uri r user other = ground (
  arith,
  add_or_update_contact-other now u uri e r user other,
  remove_contact-other u uri r user other,
)

update_contacts-other :
    (now : ℕ) (u : Bytes) (e : ℤ) (cs : List Bytes) (r : Registrations) {r' : Registrations}
    (user : Bytes)
    → equal u user ≡ false
    → update_contacts now u e cs r ≡ ok r'
    → contacts user r' ≡ contacts user r
unfolding update_contacts
update_contacts-other now u e [] r user other h = ground arith
update_contacts-other now u e (single ∷ cs) r user other h =
    let (uri, found, rest) =
      >>=-eq-ok (contact_uri_of single)
        (λ x. update_contacts now u e cs (update_contact now u e x r)) h in
    update_contacts-other now u e cs (update_contact now u e uri r) user other rest
    ∙ update_contact-other now u e uri r user other

-- The user name among the Digest parameters.
abbrev pub digest_user : SipRequest → Bytes
digest_user req = get (codes "username") req.authorization

stored-other :
    (r : Registrar) {r' : Registrar} (m : Result Registrations) (user : Bytes)
    → ((registrations : Registrations)
        → m ≡ ok registrations
        → contacts user registrations ≡ contacts user r.registrations)
    → (m >>= λ registrations. ok (record r { registrations = registrations })) ≡ ok r'
    → contacts user r'.registrations ≡ contacts user r.registrations
stored-other r (ok registrations) user keep h = ground (arith, keep registrations refl)
stored-other r (err e) user keep h = cc
stored-other r panic user keep h = cc

if_false : (b : Bool) (x y : Result Registrar) → b ≡ false → y ≡ (if b then x else y)
if_false b x y h = ground arith

update_registration-other :
    (now : ℕ) (req : SipRequest) (r : Registrar) {r' : Registrar} (user : Bytes)
    → equal (digest_user req) user ≡ false
    → update_registration now req r ≡ ok r'
    → contacts user r'.registrations ≡ contacts user r.registrations
unfolding update_registration
update_registration-other now req r {r'} user other h =
    let contact = get_header (codes "Contact") req in
    let cs = all_parts (split b',' contact) in
    let all = equal contact (codes "*") && is_zero (expires req) in
    elim (Bool-cases all) [
      | inl e ↦ ground (arith, lookup-delete (digest_user req) user r.registrations)
      | inr e ↦
          stored-other r (update_contacts now (digest_user req) (expires req) cs r.registrations)
            user
            (λ registrations.
              update_contacts-other now (digest_user req) (expires req) cs r.registrations user
                other)
            (if_false all _ _ e ∙ h)
    ]

accept-other :
    (draw : Draw) (req : SipRequest) (r : Registrar) {r' : Registrar} {res : SipResponse}
    (user : Bytes)
    → equal (digest_user req) user ≡ false
    → accept draw req r ≡ ok (r', res)
    → contacts user r'.registrations ≡ contacts user r.registrations
unfolding accept
accept-other draw req r user other h =
    let (r'', updated, same) =
      >>=-eq-ok (update_registration draw.now req r) (λ x. ok (x, create_ok_response draw req)) h in
    ground (arith, update_registration-other draw.now req r user other updated)

-- A REGISTER leaves the contacts of every user but the one among its Digest parameters.
pub handle_register-other :
    (services : Services) (draw : Draw) (req : SipRequest) (r : Registrar) {r' : Registrar}
    {res : SipResponse} (user : Bytes)
    → equal (digest_user req) user ≡ false
    → handle_register services draw req r ≡ ok (r', res)
    → contacts user r'.registrations ≡ contacts user r.registrations
unfolding handle_register unauthorized
handle_register-other services draw req r {r'} {res} user other h =
    elim (Bool-cases (is_nil req.authorization)) [
      | inl bare ↦ ground arith
      | inr given ↦ elim (Option-cases (credentials req.authorization)) [
        | inl missing ↦ ground arith
        | inr (c, complete) ↦
            let checked = validate_nonce draw.now c.nonce r.nonces in
            let s : Registrar = record r { nonces = checked.1 } in
            elim (Bool-cases (checked.0 && digest_matches services req c)) [
              | inl passed ↦
                  let accepted : accept draw req s ≡ ok (r', res) = ground arith in
                  accept-other draw req s user other accepted
              | inr failed ↦ ground arith
            ]
      ]
    ]

-- ===== src/Server/Contacts/Bindings.antt =====
-- The registrations as what they promise: for each user and contact URI at most one expiration.
use xylitol.Base.{
  ℕ, ◌&&◌, ◌||◌, Bool, false, List, [], ◌∷◌, Option, none, some, if◌then◌else◌, Bytes, equal,
  equal_iff, inl, inr, Option-cases, ℤ, at_least, Result, ok, ◌>>=◌, >>=-eq-ok, ◌≡◌, refl, arith,
}
use xylitol.Dict.{lookup, lookup-insert, lookup-delete}
use xylitol.Server.Clock.{add, seconds}
use xylitol.Server.Contacts.{
  Registration, Registrations, contacts_or_nil, put_contact, add_or_update_contact, drop_contact,
  store_contacts, remove_contact, contact_uri_of, update_contact, update_contacts,
}

abbrev pub expiry_of : Bytes → List Registration → Option ℕ
expiry_of uri [] = none
expiry_of uri (reg ∷ regs) =
    if equal reg.contact_uri uri then some reg.expires_at else expiry_of uri regs

-- When the contact `uri` of `username` expires, if it is bound.
abbrev pub binding : Bytes → Bytes → Registrations → Option ℕ
binding username uri registrations = expiry_of uri (contacts_or_nil (lookup username registrations))

expiry_of-put_contact :
    (uri c : Bytes) (t : ℕ) (regs : List Registration)
    → expiry_of c (put_contact uri t regs) ≡ (if equal uri c then some t else expiry_of c regs)
unfolding put_contact
expiry_of-put_contact uri c t [] = refl
expiry_of-put_contact uri c t (reg ∷ regs) = ground (
  arith,
  equal_iff reg.contact_uri uri,
  equal_iff reg.contact_uri c,
  equal_iff uri c,
  expiry_of-put_contact uri c t regs,
)

expiry_of-drop_contact :
    (uri c : Bytes) (regs : List Registration)
    → expiry_of c (drop_contact uri regs) ≡ (if equal uri c then none else expiry_of c regs)
unfolding drop_contact
expiry_of-drop_contact uri c [] = ground arith
expiry_of-drop_contact uri c (reg ∷ regs) = ground (
  arith,
  equal_iff reg.contact_uri uri,
  equal_iff reg.contact_uri c,
  equal_iff uri c,
  expiry_of-drop_contact uri c regs,
)

binding-add_or_update_contact :
    (now : ℕ) (u uri : Bytes) (e : ℤ) (r : Registrations) (user c : Bytes)
    → binding user c (add_or_update_contact now u uri e r)
      ≡ (if equal u user && equal uri c then some (add now (seconds e)) else binding user c r)
unfolding add_or_update_contact
binding-add_or_update_contact now u uri e r user c = ground (
  arith,
  equal_iff u user,
  lookup-insert u user (put_contact uri (add now (seconds e)) (contacts_or_nil (lookup u r))) r,
  expiry_of-put_contact uri c (add now (seconds e)) (contacts_or_nil (lookup u r)),
)

pub lookup-store_contacts :
    (u : Bytes) (regs : List Registration) (r : Registrations) (user : Bytes)
    → contacts_or_nil (lookup user (store_contacts u regs r))
      ≡ (if equal u user then regs else contacts_or_nil (lookup user r))
unfolding store_contacts
lookup-store_contacts u [] r user = ground (arith, lookup-delete u user r)
lookup-store_contacts u (reg ∷ regs) r user = ground (arith, lookup-insert u user (reg ∷ regs) r)

binding-remove_contact :
    (u uri : Bytes) (r : Registrations) (user c : Bytes)
    → binding user c (remove_contact u uri r)
      ≡ (if equal u user && equal uri c then none else binding user c r)
unfolding remove_contact
binding-remove_contact u uri r user c = elim (Option-cases (lookup u r)) [
  | inl missing ↦ ground (arith, equal_iff u user)
  | inr (regs, there) ↦ ground (
    arith,
    equal_iff u user,
    lookup-store_contacts u (drop_contact uri regs) r user,
    expiry_of-drop_contact uri c regs,
  )
]

-- What one contact of a REGISTER binds its URI to.
abbrev pub bound_to : ℕ → ℤ → Option ℕ
bound_to now e = if at_least 1 e then some (add now (seconds e)) else none

binding-update_contact :
    (now : ℕ) (u : Bytes) (e : ℤ) (uri : Bytes) (r : Registrations) (user c : Bytes)
    → binding user c (update_contact now u e uri r)
      ≡ (if equal u user && equal uri c then bound_to now e else binding user c r)
unfolding update_contact
binding-update_contact now u e uri r user c = ground (
  arith,
  binding-add_or_update_contact now u uri e r user c,
  binding-remove_contact u uri r user c,
)

-- The URIs of the contacts of a REGISTER.
abbrev pub uris_of : List Bytes → Result (List Bytes)
uris_of [] = ok []
uris_of (single ∷ contacts) =
    contact_uri_of single >>= λ uri. uris_of contacts >>= λ uris. ok (uri ∷ uris)

abbrev pub is_among : Bytes → List Bytes → Bool
is_among c [] = false
is_among c (uri ∷ uris) = equal uri c || is_among c uris

-- A REGISTER with these contacts binds each of their URIs for the user, to the end of the
-- expiration
-- if that is above 0 and to nothing if it is not, and leaves every other binding, of this user and
-- of all others, as it was.
pub update_contacts_bindings :
    (now : ℕ) (u : Bytes) (e : ℤ) (contacts : List Bytes) (r : Registrations) {r' : Registrations}
    → update_contacts now u e contacts r ≡ ok r'
    → (uris : List Bytes) × (uris_of contacts ≡ ok uris)
      × ((user c : Bytes)
          → binding user c r'
            ≡ (if equal u user && is_among c uris then bound_to now e else binding user c r))
unfolding update_contacts
update_contacts_bindings now u e [] r h = ([], refl, λ user c. ground arith)
update_contacts_bindings now u e (single ∷ contacts) r {r'} h =
    let (uri, found, rest) =
      >>=-eq-ok (contact_uri_of single)
        (λ x. update_contacts now u e contacts (update_contact now u e x r)) h in
    let (uris, others, ih) =
      update_contacts_bindings now u e contacts (update_contact now u e uri r) rest in
    (
      uri ∷ uris,
      ground arith,
      λ user c. ground (arith, ih user c, binding-update_contact now u e uri r user c),
    )

-- ===== src/Server/Contacts.antt =====
-- The contacts of a user, and the Contact header of a REGISTER.
pub mod Bindings
use xylitol.Base.{
  ℕ, suc, ◌+◌, ◌-◌, Bool, true, false, List, [], ◌∷◌, ◌++◌, Option, none, some, ltb, if◌then◌else◌,
  Bytes, codes, equal, is_nil, take, drop, ℤ, pos, at_least, Result, ok, err, panic, ◌>>=◌,
}
use xylitol.Text.{trim_space, index, split, all_parts}
use xylitol.Dict.{Dict, lookup, insert, delete}
use xylitol.Server.Clock.{add, seconds}

pub record Registration : Type 0 where
  pub contact_uri : Bytes
  pub expires_at : ℕ

-- `map[string][]Registration`, by user name.
abbrev pub Registrations : Type 0
Registrations = Dict (List Registration)

abbrev pub contacts_or_nil : Option (List Registration) → List Registration
contacts_or_nil none = []
contacts_or_nil (some regs) = regs

-- The loop of `addOrUpdateContact`: the first entry with the URI is updated, or one is appended.
unfoldable pub put_contact : Bytes → ℕ → List Registration → List Registration
unfolding equal
put_contact uri expires_at [] = record { contact_uri = uri; expires_at = expires_at } ∷ []
put_contact uri expires_at (reg ∷ regs) =
    if equal reg.contact_uri uri
    then record reg { expires_at = expires_at } ∷ regs
    else reg ∷ put_contact uri expires_at regs

unfoldable pub add_or_update_contact : ℕ → Bytes → Bytes → ℤ → Registrations → Registrations
unfolding put_contact lookup insert add seconds
add_or_update_contact now username uri expires registrations =
    insert username
      (put_contact uri (add now (seconds expires))
        (contacts_or_nil (lookup username registrations)))
      registrations

-- The loop of `removeContact`.
unfoldable pub drop_contact : Bytes → List Registration → List Registration
unfolding equal
drop_contact uri [] = []
drop_contact uri (reg ∷ regs) =
    let rest = drop_contact uri regs in if equal reg.contact_uri uri then rest else reg ∷ rest

-- A user without contacts has no entry.
unfoldable pub store_contacts : Bytes → List Registration → Registrations → Registrations
unfolding insert delete
store_contacts username regs registrations =
    if is_nil regs then delete username registrations else insert username regs registrations

unfoldable pub remove_contact : Bytes → Bytes → Registrations → Registrations
unfolding drop_contact store_contacts lookup
remove_contact username uri registrations = elim (lookup username registrations) [
  | none ↦ registrations
  | some regs ↦ store_contacts username (drop_contact uri regs) registrations
]

-- `trimmedContact[start+1 : end]`: a slice whose end stands before its start panics.
slice_angles : Bytes → Option ℕ → Option ℕ → Result Bytes
slice_angles contact (some start) (some end) =
    if ltb end (suc start) then panic else ok (drop (suc start) (take end contact))
slice_angles contact _ _ = ok contact

-- The URI in the first angle brackets, or the whole contact.
unfoldable pub contact_uri_of : Bytes → Result Bytes
unfolding slice_angles index trim_space
contact_uri_of single =
    let contact = trim_space single in
    slice_angles contact (index (b'<' ∷ []) contact) (index (b'>' ∷ []) contact)

-- One contact of a REGISTER: an expiration above 0 binds it, any other unbinds it.
unfoldable pub update_contact : ℕ → Bytes → ℤ → Bytes → Registrations → Registrations
unfolding add_or_update_contact remove_contact
update_contact now username expires uri registrations =
    if at_least 1 expires
    then add_or_update_contact now username uri expires registrations
    else remove_contact username uri registrations

unfoldable pub update_contacts : ℕ → Bytes → ℤ → List Bytes → Registrations → Result Registrations
unfolding contact_uri_of update_contact
update_contacts now username expires [] registrations = ok registrations
update_contacts now username expires (single ∷ contacts) registrations =
    contact_uri_of single >>= λ uri.
    update_contacts now username expires contacts
      (update_contact now username expires uri registrations)

abbrev pub is_zero : ℤ → Bool
is_zero (pos n) = ltb n 1
is_zero z = false

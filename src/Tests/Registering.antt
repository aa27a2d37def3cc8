-- ===== src/Tests/Registering.antt =====
-- A REGISTER with a right digest, and the same one once more.
use xylitol.Base.{◌&&◌, List, [], ◌∷◌, if◌then◌else◌, Bytes, codes, equal, pos, ok, ◌≡◌, ◌⊎◌, refl}
use xylitol.Sip.Message.{SipRequest}
use xylitol.Server.Contacts.{update_contacts}
use xylitol.Server.Contacts.Bindings.{
  uris_of, binding, is_among, bound_to, update_contacts_bindings,
}
use xylitol.Server.Nonces.{validate_nonce}
use xylitol.Server.Registrar.{
  Services, found, Draw, Registrar, Credentials, credentials, unauthorized, create_ok_response,
  handle_register, accept, digest_matches,
}
use xylitol.Server.Registrar.Auth.{
  IsAuthenticated, registrations_need_credentials, idle, nonce_counts_once,
}

-- One user with the hash `p`; the digest function does nothing.
abbrev pub services : Services
services = record {
  md5hash = λ text. text;
  get_user_by_username = λ name. found (record { id = 1; username = name; password = codes "p" });
}

abbrev pub draw : Draw
draw = record { now = 500; date = codes "today"; nonce = codes "n" }

abbrev given : Credentials
given = record {
  username = codes "a";
  nonce = codes "n1";
  uri = codes "sip:h";
  response = codes "p:n1:REGISTER:sip:h";
}

abbrev register : SipRequest
register = record {
  method = codes "REGISTER";
  uri = codes "sip:h";
  proto = codes "SIP/2.0";
  headers = (codes "Contact", codes "<sip:a@x>") ∷ (codes "Expires", codes "60") ∷ [];
  authorization =
      (codes "username", given.username)
      ∷ (codes "nonce", given.nonce)
      ∷ (codes "uri", given.uri)
      ∷ (codes "response", given.response)
      ∷ [];
  body = [];
}

abbrev pub registrar : Registrar
registrar = record { realm = codes "h"; registrations = []; nonces = (codes "n1", 1000) ∷ [] }

abbrev pub registered : Registrar
registered = record {
  realm = codes "h";
  registrations =
      (codes "a", record { contact_uri = codes "sip:a@x"; expires_at = 60_000_000_500 } ∷ []) ∷ [];
  nonces = [];
}

accepted :
    handle_register services draw register registrar
    ≡ ok (registered, create_ok_response draw register)
unfolding handle_register credentials accept validate_nonce digest_matches
accepted = refl

registrations_need_credentials_example :
    (registered.registrations ≡ []) ⊎ IsAuthenticated services 500 register registrar.nonces
registrations_need_credentials_example =
    registrations_need_credentials services draw register registrar accepted

nonce_counts_once_example :
    handle_register services draw register registered ≡ ok (unauthorized draw register registered)
unfolding credentials equal
nonce_counts_once_example =
    nonce_counts_once services draw draw register register registrar given given refl refl (λ h. cc)
      accepted idle refl refl refl

update_contacts_bindings_example :
    (uris : List Bytes) × (uris_of (codes "<sip:a@x>" ∷ []) ≡ ok uris)
    × ((user c : Bytes)
        → binding user c registered.registrations ≡ (
            if equal (codes "a") user && is_among c uris
            then bound_to 500 (pos 60)
            else binding user c []))
unfolding update_contacts
update_contacts_bindings_example =
    update_contacts_bindings 500 (codes "a") (pos 60) (codes "<sip:a@x>" ∷ []) [] refl

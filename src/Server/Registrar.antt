-- ===== src/Server/Registrar.antt =====
-- REGISTER: `handleRegister`, `updateRegistration`, and the digest of digest.go.
pub mod Auth
pub mod Others
use xylitol.Base.{
  ℕ, ◌&&◌, Bool, true, false, List, [], ◌∷◌, ◌++◌, Option, none, some, if◌then◌else◌, Bytes, codes,
  equal, is_nil, ℤ, pos, Result, ok, err, panic, ◌>>=◌, ltb,
}
use xylitol.Text.{split, all_parts, itoa}
use xylitol.Dict.{Dict, lookup, get, delete}
use xylitol.Sip.Message.{SipRequest, SipResponse, get_header}
use xylitol.Sip.Fields.{expires}
use xylitol.Sip.Build.{build_response}
use xylitol.Server.Nonces.{Nonces, generate_nonce, validate_nonce}
use xylitol.Server.Contacts.{Registrations, update_contacts, is_zero}

-- `storage.User`; the password is the hash HA1.
pub record User : Type 0 where
  pub id : ℕ
  pub username : Bytes
  pub password : Bytes

-- What `GetUserByUsername` returns: an error, nil, or the user.
pub data Found : Type 0 where
  query_failed not_found : Found
  found : User → Found

-- What the registrar calls: the MD5 sum in hexadecimal, and the table of users.
pub record Services : Type 0 where
  pub md5hash : Bytes → Bytes
  pub get_user_by_username : Bytes → Found

-- What a handler draws from outside: the time, its printed form, and a random nonce.
pub record Draw : Type 0 where
  pub now : ℕ
  pub date : Bytes
  pub nonce : Bytes

pub record Registrar : Type 0 where
  pub realm : Bytes
  pub registrations : Registrations
  pub nonces : Nonces

unfoldable pub calculate_response : Services → Bytes → Bytes → Bytes → Bytes → Bytes
calculate_response services ha1 method digest_uri nonce =
    services.md5hash
      (ha1 ++ (b':' ∷ (nonce ++ (b':' ∷ services.md5hash (method ++ (b':' ∷ digest_uri))))))

unfoldable pub update_registration : ℕ → SipRequest → Registrar → Result Registrar
unfolding get get_header expires equal delete update_contacts split
update_registration now req r =
    let username = get (codes "username") req.authorization in
    let contact = get_header (codes "Contact") req in
    if equal contact (codes "*") && is_zero (expires req)
    then ok (record r { registrations = delete username r.registrations })
    else update_contacts now username (expires req) (all_parts (split b',' contact)) r.registrations
      >>= λ registrations. ok (record r { registrations = registrations })

unfoldable pub create_ok_response : Draw → SipRequest → SipResponse
unfolding get_header expires itoa build_response
create_ok_response draw req = build_response (pos 200) (codes "OK") req (
    (codes "Contact", get_header (codes "Contact") req ++ (codes ";expires=" ++ itoa (expires req)))
    ∷ (codes "Date", draw.date)
    ∷ [])

challenge_value : Bytes → Bytes → Bytes
challenge_value realm nonce =
    codes "Digest realm=\""
    ++ (realm ++ (codes "\", nonce=\"" ++ (nonce ++ codes "\", algorithm=MD5, qop=\"auth\"")))

-- `createUnauthorizedResponse`, which issues a nonce.
unfoldable pub unauthorized : Draw → SipRequest → Registrar → Registrar × SipResponse
unfolding generate_nonce build_response challenge_value
unauthorized draw req r = (
  record r { nonces = generate_nonce draw.now draw.nonce r.nonces },
  build_response (pos 401) (codes "Unauthorized") req
      ((codes "WWW-Authenticate", challenge_value r.realm draw.nonce) ∷ []),
)

pub record Credentials : Type 0 where
  pub username : Bytes
  pub nonce : Bytes
  pub uri : Bytes
  pub response : Bytes

-- All four Digest parameters.
unfoldable pub credentials : Dict Bytes → Option Credentials
unfolding lookup
credentials auth = elim (lookup (codes "username") auth) [
  | none ↦ none
  | some username ↦ elim (lookup (codes "nonce") auth) [
    | none ↦ none
    | some nonce ↦ elim (lookup (codes "uri") auth) [
      | none ↦ none
      | some uri ↦ elim (lookup (codes "response") auth) [
        | none ↦ none
        | some response ↦
            some (record { username = username; nonce = nonce; uri = uri; response = response })
      ]
    ]
  ]
]

-- Whether the user is known and the digest is the one expected; a failure of the table counts as an
-- unknown user.
unfoldable pub digest_matches : Services → SipRequest → Credentials → Bool
unfolding calculate_response equal
digest_matches services req c = elim (services.get_user_by_username c.username) [
  | found user ↦
      equal c.response (calculate_response services user.password req.method c.uri c.nonce)
  | _ ↦ false
]

unfoldable pub accept : Draw → SipRequest → Registrar → Result (Registrar × SipResponse)
unfolding update_registration create_ok_response
accept draw req r =
    update_registration draw.now req r >>= λ r'. ok (r', create_ok_response draw req)

unfoldable pub handle_register :
    Services → Draw → SipRequest → Registrar → Result (Registrar × SipResponse)
handle_register services draw req r =
    if is_nil req.authorization
    then ok (unauthorized draw req r)
    else elim (credentials req.authorization) [
      | none ↦ ok (
        r,
        build_response (pos 400) (codes "Bad Request") req
            ((codes "Warning", codes "Missing digest parameters") ∷ []),
      )
      | some c ↦
          let (fresh, nonces) = validate_nonce draw.now c.nonce r.nonces in
          let r' = record r { nonces = nonces } in
          if fresh && digest_matches services req c
          then accept draw req r'
          else ok (unauthorized draw req r')
    ]

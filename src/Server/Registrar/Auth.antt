-- ===== src/Server/Registrar/Auth.antt =====
-- Who may change the registrations, and how often a nonce counts.
use xylitol.Base.{
  leb, ℕ, ◌+◌, ◌*◌, ◌&&◌, true, false, none, some, if◌then◌else◌, Bytes, equal, equal_iff,
  equal_refl, is_nil, inl, inr, Option-cases, Bool-cases, ok, >>=-eq-ok, ◌≡◌, ◌≢◌, ◌⊎◌, ◌∙◌, ap,
  arith,
}
use xylitol.Dict.{lookup, lookup-insert, lookup-delete}
use xylitol.Sip.Message.{SipRequest, SipResponse}
use xylitol.Server.Clock.{second}
use xylitol.Server.Nonces.{Nonces, generate_nonce, validate_nonce}
use xylitol.Server.Registrar.{
  Services, Draw, Registrar, update_registration, unauthorized, Credentials, credentials,
  digest_matches, accept, handle_register, create_ok_response,
}

-- A nonce counts exactly where it was issued and has not expired; and it is spent then, as it is
-- where it has expired, while the others keep their expirations.
pub validate_nonce_lem :
    (now : ℕ) (nonce : Bytes) (nonces : Nonces)
    → ((validate_nonce now nonce nonces).0
        ≡ elim (lookup nonce nonces) [ none ↦ false | some expiry ↦ leb now expiry ])
      × ((k : Bytes)
          → lookup k (validate_nonce now nonce nonces).1
            ≡ (if equal nonce k then none else lookup k nonces))
unfolding validate_nonce
validate_nonce_lem now nonce nonces = elim (Option-cases (lookup nonce nonces)) [
  | inl missing ↦ rw missing (ground arith, λ k. ground (arith, equal_iff nonce k))
  | inr (e, there) ↦ rw there (ground arith, λ k. ground (arith, lookup-delete nonce k nonces))
]

-- The nonce was issued and has not expired, and the digest is that of a known user.
pub record IsAuthenticated (services : Services) (now : ℕ) (req : SipRequest) (nonces : Nonces)
    : Type 0 where
  pub given : Credentials
  pub complete : credentials req.authorization ≡ some given
  pub fresh : (validate_nonce now given.nonce nonces).0 ≡ true
  pub matches : digest_matches services req given ≡ true

update_registration_nonces :
    (now : ℕ) (req : SipRequest) (r : Registrar) {r' : Registrar}
    → update_registration now req r ≡ ok r'
    → r'.nonces ≡ r.nonces
unfolding update_registration
update_registration_nonces now req r h = ground arith

accept_nonces :
    (draw : Draw) (req : SipRequest) (r : Registrar) {r' : Registrar} {res : SipResponse}
    → accept draw req r ≡ ok (r', res)
    → r'.nonces ≡ r.nonces
unfolding accept
accept_nonces draw req r h =
    let (r'', updated, same) =
      >>=-eq-ok (update_registration draw.now req r) (λ x. ok (x, create_ok_response draw req)) h in
    ground (arith, update_registration_nonces draw.now req r updated)

-- A REGISTER changes the registrations only with all four Digest parameters, an issued nonce that
-- has not expired, and the digest that a known user's password hash gives.
pub registrations_need_credentials :
    (services : Services) (draw : Draw) (req : SipRequest) (r : Registrar) {r' : Registrar}
    {res : SipResponse}
    → handle_register services draw req r ≡ ok (r', res)
    → (r'.registrations ≡ r.registrations) ⊎ IsAuthenticated services draw.now req r.nonces
unfolding handle_register unauthorized
registrations_need_credentials services draw req r h =
    elim (Option-cases (credentials req.authorization)) [
      | inl missing ↦ inl (ground arith)
      | inr (c, given) ↦ elim (Bool-cases (validate_nonce draw.now c.nonce r.nonces).0) [
        | inr stale ↦ inl (ground arith)
        | inl fresh ↦ elim (Bool-cases (digest_matches services req c)) [
          | inr wrong ↦ inl (ground arith)
          | inl right ↦ inr (record { given = c; complete = given; fresh = fresh; matches = right })
        ]
      ]
    ]

-- The nonce `n` is not among those issued.
abbrev pub IsSpent : Bytes → Registrar → Type 0
IsSpent n r = lookup n r.nonces ≡ none

validate_nonce_spends :
    (now : ℕ) (nonce : Bytes) (nonces : Nonces)
    → lookup nonce (validate_nonce now nonce nonces).1 ≡ none
validate_nonce_spends now nonce nonces =
    ground (arith, (validate_nonce_lem now nonce nonces).1 nonce, equal_refl nonce)

generate_nonce_other :
    (now : ℕ) (fresh n : Bytes) (nonces : Nonces)
    → fresh ≢ n
    → lookup n (generate_nonce now fresh nonces) ≡ lookup n nonces
unfolding generate_nonce
generate_nonce_other now fresh n nonces other =
    ground (arith, lookup-insert fresh n (now + 300 * second) nonces, equal_iff fresh n)

unauthorized-IsSpent :
    (draw : Draw) (req : SipRequest) (r : Registrar) (n : Bytes)
    → draw.nonce ≢ n
    → IsSpent n r
    → IsSpent n (unauthorized draw req r).0
unfolding unauthorized
unauthorized-IsSpent draw req r n other spent =
    generate_nonce_other draw.now draw.nonce n r.nonces other ∙ spent

-- A REGISTER with all four Digest parameters spends its nonce, whatever the outcome, unless the
-- nonce drawn for the answer is the same one.
pub handle_register_spends :
    (services : Services) (draw : Draw) (req : SipRequest) (r : Registrar) (c : Credentials)
    {r' : Registrar} {res : SipResponse}
    → is_nil req.authorization ≡ false
    → credentials req.authorization ≡ some c
    → draw.nonce ≢ c.nonce
    → handle_register services draw req r ≡ ok (r', res)
    → IsSpent c.nonce r'
unfolding handle_register
handle_register_spends services draw req r c {r'} {res} given complete other h =
    let checked = validate_nonce draw.now c.nonce r.nonces in
    let s : Registrar = record r { nonces = checked.1 } in
    let spent : IsSpent c.nonce s = validate_nonce_spends draw.now c.nonce r.nonces in
    elim (Bool-cases (checked.0 && digest_matches services req c)) [
      | inl passed ↦
          let accepted : accept draw req s ≡ ok (r', res) = ground arith in
          ap (lookup c.nonce) (accept_nonces draw req s accepted) ∙ spent
      | inr failed ↦ ground (arith, unauthorized-IsSpent draw req s c.nonce other spent)
    ]

validate_nonce_keeps_spent :
    (now : ℕ) (nonce n : Bytes) (nonces : Nonces)
    → lookup n nonces ≡ none
    → lookup n (validate_nonce now nonce nonces).1 ≡ none
validate_nonce_keeps_spent now nonce n nonces spent =
    ground (arith, (validate_nonce_lem now nonce nonces).1 n)

pub handle_register_keeps_IsSpent :
    (services : Services) (draw : Draw) (req : SipRequest) (r : Registrar) (n : Bytes)
    {r' : Registrar} {res : SipResponse}
    → draw.nonce ≢ n
    → IsSpent n r
    → handle_register services draw req r ≡ ok (r', res)
    → IsSpent n r'
unfolding handle_register
handle_register_keeps_IsSpent services draw req r n {r'} {res} other spent h =
    elim (Option-cases (credentials req.authorization)) [
      | inl missing ↦ ground (arith, unauthorized-IsSpent draw req r n other spent)
      | inr (c, complete) ↦
          let checked = validate_nonce draw.now c.nonce r.nonces in
          let s : Registrar = record r { nonces = checked.1 } in
          let spent' : IsSpent n s = validate_nonce_keeps_spent draw.now c.nonce n r.nonces spent in
          elim (Bool-cases (checked.0 && digest_matches services req c)) [
            | inl passed ↦ ground (
              arith,
              accept_nonces draw req s {r' = r'} {res = res},
              unauthorized-IsSpent draw req r n other spent,
            )
            | inr failed ↦ ground (
              arith,
              unauthorized-IsSpent draw req r n other spent,
              unauthorized-IsSpent draw req s n other spent',
            )
          ]
    ]

-- The registrar answers REGISTERs one after the other, and never draws the nonce `n` again.
pub data Serves (services : Services) (n : Bytes) : Registrar → Registrar → Type 0 where
  idle : {r : Registrar} → Serves services n r r
  serve :
      {r r' r'' : Registrar} (draw : Draw) (req : SipRequest) (res : SipResponse)
      → draw.nonce ≢ n
      → handle_register services draw req r ≡ ok (r', res)
      → Serves services n r' r''
      → Serves services n r r''

Serves-IsSpent :
    (services : Services) (n : Bytes) {r r' : Registrar}
    → Serves services n r r'
    → IsSpent n r
    → IsSpent n r'
Serves-IsSpent services n idle spent = spent
Serves-IsSpent services n (serve {r = r} draw req res other h later) spent =
    Serves-IsSpent services n later
      (handle_register_keeps_IsSpent services draw req r n other spent h)

spent_refused :
    (services : Services) (draw : Draw) (req : SipRequest) (r : Registrar) (c : Credentials)
    → is_nil req.authorization ≡ false
    → credentials req.authorization ≡ some c
    → IsSpent c.nonce r
    → handle_register services draw req r ≡ ok (unauthorized draw req r)
unfolding handle_register validate_nonce
spent_refused services draw req r c given complete spent = ground arith

-- A nonce counts once: after a REGISTER with all four Digest parameters and any further REGISTERs,
-- in which its nonce is not drawn again, every REGISTER with that nonce is answered by a challenge
-- and leaves the registrations.
pub nonce_counts_once :
    (services : Services) (draw draw' : Draw) (req req' : SipRequest) (r : Registrar)
    (c c' : Credentials) {r' r'' : Registrar} {res : SipResponse}
    → is_nil req.authorization ≡ false
    → credentials req.authorization ≡ some c
    → draw.nonce ≢ c.nonce
    → handle_register services draw req r ≡ ok (r', res)
    → Serves services c.nonce r' r''
    → is_nil req'.authorization ≡ false
    → credentials req'.authorization ≡ some c'
    → c'.nonce ≡ c.nonce
    → handle_register services draw' req' r'' ≡ ok (unauthorized draw' req' r'')
nonce_counts_once services draw draw' req req' r c c' {r'} {r''} given complete other h serves
      given' complete' same =
    let spent = handle_register_spends services draw req r c given complete other h in
    let spent' = Serves-IsSpent services c.nonce serves spent in
    spent_refused services draw' req' r'' c' given' complete'
      (ap (λ n. lookup n r''.nonces) same ∙ spent')

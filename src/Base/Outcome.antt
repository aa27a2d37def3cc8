-- ===== src/Base/Outcome.antt =====
-- The outcome of a Go function: a value, an error (one constructor for each `fmt.Errorf`), or a
-- run-time panic, which ends the process.
use mathlib.Core.Path.{◌≡◌, refl}
use mathlib.Core.Logic.{◌⊎◌, inl, inr}

pub data Error : Type 0 where
  missing_scheme missing_host header_not_found malformed_sent_by no_via : Error
  invalid_request_line missing_method content_length_too_large : Error
  invalid_response_line invalid_status_code bad_delta_seconds bad_min_se : Error
  missing_branch transaction_terminated : Error
  could_not_open could_not_connect could_not_create_tables : Error
  could_not_prepare could_not_execute no_insert_id : Error
  could_not_query could_not_scan rows_failed could_not_marshal could_not_unmarshal : Error
  protocol_not_supported could_not_resolve short_write write_failed bad_pattern bad_template : Error
  could_not_listen : Error

pub data Result {ℓ} (A : Type ℓ) : Type ℓ where
  panic : Result A
  err : Error → Result A
  ok : A → Result A

-- The rest of a function behind a call that may return an error.
infixl 5 ◌>>=◌
abbrev pub ◌>>=◌ {ℓ κ} :
    {Value : Type ℓ} {Next : Type κ} → Result Value → (Value → Result Next) → Result Next
panic >>= next = panic
err reason >>= next = err reason
ok value >>= next = next value

pub >>=-eq-ok {ℓ κ} :
    {Value : Type ℓ} {Next : Type κ} (outcome : Result Value) (next : Value → Result Next)
    {last : Next}
    → (outcome >>= next) ≡ ok last
    → (value : Value) × (outcome ≡ ok value) × (next value ≡ ok last)
>>=-eq-ok panic next returned = cc
>>=-eq-ok (err reason) next returned = cc
>>=-eq-ok (ok value) next returned = (value, refl, returned)

pub Result-cases {ℓ} :
    {A : Type ℓ} (m : Result A)
    → ((a : A) × (m ≡ ok a)) ⊎ (((e : Error) × (m ≡ err e)) ⊎ (m ≡ panic))
Result-cases (ok a) = inl (a, refl)
Result-cases (err e) = inr (inl (e, refl))
Result-cases panic = inr (inr refl)

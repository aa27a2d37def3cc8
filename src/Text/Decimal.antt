-- ===== src/Text/Decimal.antt =====
-- Printed numbers are read back.
use xylitol.Base.{
  ℕ, zero, suc, ◌+◌, ◌-◌, ◌*◌, ◌/◌, ◌%◌, ◌<◌, true, false, [], ◌∷◌, some, All, is_nil, ◌==◌, ==_iff,
  ltb, Bytes, ℤ, pos, negsuc, ◌≡◌, refl, ◌∙◌, arith, inl, inr, Bool-cases,
}
use xylitol.Text.Case.{is_space}
use xylitol.Text.Search.{trim_left, trim_right, trim, trim_space}
use xylitol.Text.Number.{
  is_digit, digits_from, number, atoi, digits_onto, digits_of, itoa, int_limit,
}

digit_back : (d : ℕ) → b'0' + d - b'0' ≡ d
digit_back d = omega arith

digit-is_digit : (d : ℕ) → d < 10 → is_digit (b'0' + d) ≡ true
digit-is_digit d h = ground arith

digits_from-digit :
    (acc d : ℕ) (rest : Bytes)
    → d < 10
    → digits_from acc ((b'0' + d) ∷ rest) ≡ digits_from (acc * 10 + d) rest
unfolding digits_from
digits_from-digit acc d rest h = rw (digit-is_digit d h, digit_back d)

digits_onto_small :
    (fuel n : ℕ) (rest : Bytes)
    → ltb n 10 ≡ true
    → digits_onto (suc fuel) n rest ≡ (b'0' + n) ∷ rest
unfolding digits_onto
digits_onto_small fuel n rest h = ground arith

digits_onto_large :
    (fuel n : ℕ) (rest : Bytes)
    → ltb n 10 ≡ false
    → digits_onto (suc fuel) n rest ≡ digits_onto fuel (n / 10) ((b'0' + n % 10) ∷ rest)
unfolding digits_onto
digits_onto_large fuel n rest h = ground arith

digits_from-digits_onto :
    (fuel n : ℕ) (rest : Bytes)
    → n < fuel
    → digits_from 0 (digits_onto fuel n rest) ≡ digits_from n rest
digits_from-digits_onto zero n rest h = elim h [ ]
digits_from-digits_onto (suc fuel) n rest h = elim (Bool-cases (ltb n 10)) [
  | inl small ↦
      let value : 0 * 10 + n ≡ n = omega arith in
      rw (digits_onto_small fuel n rest small)
        (digits_from-digit 0 n rest (ground arith) ∙ rw value)
  | inr large ↦
      let value : n / 10 * 10 + n % 10 ≡ n = omega arith in
      let smaller : n / 10 < fuel = ground arith in
      rw (digits_onto_large fuel n rest large) (
        digits_from-digits_onto fuel (n / 10) ((b'0' + n % 10) ∷ rest) smaller
        ∙ digits_from-digit (n / 10) (n % 10) rest (omega arith)
        ∙ rw value)
]

-- A printed number begins with a digit.
abbrev StartsWithDigit : Bytes → Type 0
StartsWithDigit [] = ⊥
StartsWithDigit (c ∷ s) = is_digit c ≡ true

digits_onto-StartsWithDigit :
    (fuel n : ℕ) (rest : Bytes) → n < fuel → StartsWithDigit (digits_onto fuel n rest)
digits_onto-StartsWithDigit zero n rest h = elim h [ ]
digits_onto-StartsWithDigit (suc fuel) n rest h = elim (Bool-cases (ltb n 10)) [
  | inl small ↦ rw (digits_onto_small fuel n rest small) (ground arith)
  | inr large ↦
      rw (digits_onto_large fuel n rest large)
        (digits_onto-StartsWithDigit fuel (n / 10) ((b'0' + n % 10) ∷ rest) (ground arith))
]

starts_nonempty : (s : Bytes) → StartsWithDigit s → is_nil s ≡ false
starts_nonempty [] h = absurd h
starts_nonempty (c ∷ s) h = refl

-- `number` and `atoi` on a text that begins with a digit.
number_of : (s : Bytes) (n : ℕ) → StartsWithDigit s → digits_from 0 s ≡ some n → number s ≡ some n
unfolding number
number_of [] n start h = absurd start
number_of (c ∷ s) n start h = h

atoi_of :
    (s : Bytes) (n : ℕ)
    → StartsWithDigit s
    → number s ≡ some n
    → n < int_limit
    → atoi s ≡ some (pos n)
unfolding atoi
atoi_of [] n start h lt = absurd start
atoi_of (c ∷ s) n start h lt = ground arith

digits_of-StartsWithDigit : (n : ℕ) → StartsWithDigit (digits_of n)
unfolding digits_of
digits_of-StartsWithDigit n = digits_onto-StartsWithDigit (suc n) n [] (omega arith)

pub number-digits_of : (n : ℕ) → number (digits_of n) ≡ some n
number-digits_of n = number_of (digits_of n) n (digits_of-StartsWithDigit n) (
    unfold digits_of in
    digits_from-digits_onto (suc n) n [] (omega arith) ∙ unfold digits_from in refl)

digits_onto-AllDigits :
    (fuel n : ℕ) (rest : Bytes)
    → All (λ c. is_digit c ≡ true) rest
    → All (λ c. is_digit c ≡ true) (digits_onto fuel n rest)
digits_onto-AllDigits zero n rest h = unfold digits_onto in h
digits_onto-AllDigits (suc fuel) n rest h = elim (Bool-cases (ltb n 10)) [
  | inl small ↦ rw (digits_onto_small fuel n rest small) (digit-is_digit n (ground arith), h)
  | inr large ↦ rw (digits_onto_large fuel n rest large) (
      digits_onto-AllDigits fuel (n / 10) ((b'0' + n % 10) ∷ rest)
        (digit-is_digit (n % 10) (omega arith), h))
]

-- A printed number is not empty and has digits only.
pub digits_of-AllDigits :
    (n : ℕ) → All (λ c. is_digit c ≡ true) (digits_of n) × (is_nil (digits_of n) ≡ false)
unfolding digits_of
digits_of-AllDigits n = (
  digits_onto-AllDigits (suc n) n [] tt,
  starts_nonempty (digits_onto (suc n) n [])
      (digits_onto-StartsWithDigit (suc n) n [] (omega arith)),
)

no_return : (s : Bytes) → All (λ c. is_digit c ≡ true) s → All (λ c. (c == b'\r') ≡ false) s
no_return [] h = tt
no_return (c ∷ s) h = (ground arith, no_return s h.1)

digit-is_space : (c : ℕ) → is_digit c ≡ true → is_space c ≡ false
unfolding is_space
digit-is_space c h = ground arith

blank : is_space b' ' ≡ true
unfolding is_space
blank = refl

trim_right-digits : (s : Bytes) → All (λ c. is_digit c ≡ true) s → trim_right is_space s ≡ s
unfolding trim_right
trim_right-digits [] h = refl
trim_right-digits (c ∷ s) h = rw (trim_right, digit-is_space c h.0, trim_right-digits s h.1) refl

trim_left-digits :
    (s : Bytes)
    → All (λ c. is_digit c ≡ true) s
    → is_nil s ≡ false
    → trim_left is_space (b' ' ∷ s) ≡ s
unfolding trim_left
trim_left-digits [] h e = absurd (ground arith)
trim_left-digits (c ∷ s) h e = rw (trim_left, blank, digit-is_space c h.0) refl

-- A number is read without the blank in front of it.
pub trim_space-digits_of : (n : ℕ) → trim_space (b' ' ∷ digits_of n) ≡ digits_of n
unfolding trim_space trim
trim_space-digits_of n =
    let (digits, nonempty) = digits_of-AllDigits n in
    rw (trim_left-digits (digits_of n) digits nonempty, trim_right-digits (digits_of n) digits) refl

pub digits_of-Lacks_return : (n : ℕ) → All (λ c. (c == b'\r') ≡ false) (digits_of n)
digits_of-Lacks_return n = no_return (digits_of n) (digits_of-AllDigits n).0

no_other :
    (x : ℕ) (s : Bytes)
    → is_digit x ≡ false
    → All (λ c. is_digit c ≡ true) s
    → All (λ c. (c == x) ≡ false) s
no_other x [] h all = tt
no_other x (c ∷ s) h all = (ground (arith, ==_iff c x, all.0, h), no_other x s h all.1)

-- A printed number holds digits and the sign only.
pub itoa-Lacks :
    (x : ℕ) (z : ℤ)
    → is_digit x ≡ false
    → (b'-' == x) ≡ false
    → All (λ c. (c == x) ≡ false) (itoa z)
unfolding itoa
itoa-Lacks x (pos n) h sign = no_other x (digits_of n) h (digits_of-AllDigits n).0
itoa-Lacks x (negsuc n) h sign =
    (sign, no_other x (digits_of (suc n)) h (digits_of-AllDigits (suc n)).0)

-- The range of an `int`.
abbrev pub IsInt : ℤ → Type 0
IsInt (pos n) = n < int_limit
IsInt (negsuc n) = n < int_limit

-- What `strconv.Itoa` and `%d` print, `strconv.Atoi` reads back, for every `int`.
pub atoi-itoa : (z : ℤ) → IsInt z → atoi (itoa z) ≡ some z
unfolding itoa
atoi-itoa (pos n) h = atoi_of (digits_of n) n (digits_of-StartsWithDigit n) (number-digits_of n) h
atoi-itoa (negsuc n) h = unfold atoi in rw (number-digits_of (suc n)) (ground arith)

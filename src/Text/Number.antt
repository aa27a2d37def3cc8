-- ===== src/Text/Number.antt =====
-- `strconv.Atoi` and the decimal form that `Itoa` and `%d` print. An `int` has 64 bits.
use xylitol.Base.{
  ℕ, zero, suc, ◌+◌, ◌-◌, ◌*◌, ◌/◌, ◌%◌, ◌^◌, Bool, true, false, ◌&&◌, [], ◌∷◌, Option, none, some,
  ltb, leb, ◌==◌, if◌then◌else◌, Bytes, ℤ, pos, negsuc, neg,
}

abbrev pub is_digit : ℕ → Bool
is_digit c = leb b'0' c && leb c b'9'

-- The value of decimal digits behind a value `acc` already read.
unfoldable pub digits_from : ℕ → Bytes → Option ℕ
digits_from acc [] = some acc
digits_from acc (c ∷ s) =
    let rest = digits_from (acc * 10 + (c - b'0')) s in if is_digit c then rest else none

-- One digit at least.
unfoldable pub number : Bytes → Option ℕ
unfolding digits_from
number [] = none
number (c ∷ s) = digits_from 0 (c ∷ s)

abbrev pub int_limit : ℕ
int_limit = 2 ^ 63

abbrev positive : Option ℕ → Option ℤ
positive none = none
positive (some n) = if ltb n int_limit then some (pos n) else none

abbrev negative : Option ℕ → Option ℤ
negative none = none
negative (some n) = if leb n int_limit then some (neg n) else none

-- `none` is the error of `strconv.Atoi`: not a number, or out of the range of an `int`.
unfoldable pub atoi : Bytes → Option ℤ
unfolding number
atoi [] = none
atoi (c ∷ s) =
    if c == b'-'
    then negative (number s)
    else if c == b'+'
    then positive (number s)
    else positive (number (c ∷ s))

abbrev nearest : Option ℕ → ℕ → ℕ
nearest none limit = 0
nearest (some n) limit = if ltb n limit then n else limit

-- The value that `strconv.Atoi` returns beside its error, if any: 0 for what is no number, and the
-- nearest `int` for a number out of range.
unfoldable pub atoi_value : Bytes → ℤ
unfolding number
atoi_value [] = pos 0
atoi_value (c ∷ s) =
    if c == b'-'
    then neg (nearest (number s) int_limit)
    else if c == b'+'
    then pos (nearest (number s) (int_limit - 1))
    else pos (nearest (number (c ∷ s)) (int_limit - 1))

-- The digits of `n` in front of `rest`; the fuel bounds their number.
unfoldable pub digits_onto : ℕ → ℕ → Bytes → Bytes
digits_onto zero n rest = rest
digits_onto (suc fuel) n rest = elim (ltb n 10) [
  | true ↦ (b'0' + n) ∷ rest
  | false ↦ digits_onto fuel (n / 10) ((b'0' + n % 10) ∷ rest)
]

unfoldable pub digits_of : ℕ → Bytes
unfolding digits_onto
digits_of n = digits_onto (suc n) n []

unfoldable pub itoa : ℤ → Bytes
unfolding digits_of
itoa (pos n) = digits_of n
itoa (negsuc n) = b'-' ∷ digits_of (suc n)

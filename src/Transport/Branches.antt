-- ===== src/Transport/Branches.antt =====
-- Random branches are distinct where the random bytes are, and have the form that the server wants.
use xylitol.Base.{
  ◌++◌, ℕ, ◌*◌, ◌/◌, ◌%◌, ◌<◌, true, [], ◌∷◌, Bytes, length, drop, All, ◌≡◌, ◌↔◌, refl, ap, arith,
}
use xylitol.Text.{has_prefix}
use xylitol.Transport.{Random, hex_digit, hex, magic_cookie, generate_branch_id}

abbrev pub IsByte : ℕ → Type 0
IsByte b = b < 256

hex_digit-injective : (a b : ℕ) → a < 16 → b < 16 → hex_digit a ≡ hex_digit b → a ≡ b
unfolding hex_digit
hex_digit-injective a b ha hb h = ground arith

head_eq : (x y : ℕ) (a b : Bytes) → (x ∷ a) ≡ (y ∷ b) → (x ≡ y) × (a ≡ b)
head_eq x y a b h = (cc, cc)

hex-injective : (a b : Bytes) → All IsByte a → All IsByte b → hex a ≡ hex b → a ≡ b
unfolding hex
hex-injective [] [] ha hb h = refl
hex-injective [] (y ∷ b) ha hb h = cc
hex-injective (x ∷ a) [] ha hb h = cc
hex-injective (x ∷ a) (y ∷ b) ha hb h =
    let (high, rest) =
      head_eq (hex_digit (x / 16)) (hex_digit (y / 16)) (hex_digit (x % 16) ∷ hex a)
        (hex_digit (y % 16) ∷ hex b) h in
    let (low, tail) = head_eq (hex_digit (x % 16)) (hex_digit (y % 16)) (hex a) (hex b) rest in
    let (hx, ha') = ha in
    let (hy, hb') = hb in
    let q : x / 16 ≡ y / 16 =
      hex_digit-injective (x / 16) (y / 16) (omega arith) (omega arith) high in
    let r : x % 16 ≡ y % 16 =
      hex_digit-injective (x % 16) (y % 16) (omega arith) (omega arith) low in
    let same : x ≡ y = omega arith in rw (same, hex-injective a b ha' hb' tail)

length-hex : (a : Bytes) → length (hex a) ≡ 2 * length a
unfolding hex
length-hex [] = refl
length-hex (x ∷ a) = omega (arith, length-hex a)

-- A generated branch begins with the magic cookie, which the server asks for, has 16 digits behind
-- it, and is equal to another generated one exactly where the random bytes are equal.
pub generate_branch_id_lem :
    (random random' : Random)
    → length (random 8) ≡ 8
    → All IsByte (random 8)
    → All IsByte (random' 8)
    → (has_prefix magic_cookie (generate_branch_id random) ≡ true)
      × (length (generate_branch_id random) ≡ 23)
      × (generate_branch_id random ≡ generate_branch_id random' ↔ random 8 ≡ random' 8)
unfolding generate_branch_id has_prefix
generate_branch_id_lem random random' eight bytes bytes' = (
  refl,
  omega (arith, length-hex (random 8), eight),
  (
    λ h. hex-injective (random 8) (random' 8) bytes bytes' (ap (drop 7) h),
    λ h. ap (λ b. magic_cookie ++ hex b) h,
  ),
)

-- ===== src/Text/Search.antt =====
-- `HasPrefix`, `TrimPrefix`, `Index`, `Contains`, `Trim` and `TrimSpace`.
use xylitol.Base.{
  ℕ, suc, Bool, true, false, [], ◌∷◌, Option, none, some, ◌==◌, if◌then◌else◌, Bytes, is_nil, ◌&&◌,
}
use xylitol.Text.Case.{is_space}

-- What stands behind the prefix `p`.
unfoldable pub strip_prefix : Bytes → Bytes → Option Bytes
strip_prefix [] s = some s
strip_prefix (x ∷ p) [] = none
strip_prefix (x ∷ p) (c ∷ s) = if x == c then strip_prefix p s else none

unfoldable pub has_prefix : Bytes → Bytes → Bool
unfolding strip_prefix
has_prefix p s = elim (strip_prefix p s) [ none ↦ false | some _ ↦ true ]

unfoldable pub trim_prefix : Bytes → Bytes → Bytes
unfolding strip_prefix
trim_prefix p s = elim (strip_prefix p s) [ none ↦ s | some rest ↦ rest ]

abbrev next_index : Option ℕ → Option ℕ
next_index none = none
next_index (some n) = some (suc n)

-- `strings.Index(s, p)`, where `none` is -1.
unfoldable pub index : Bytes → Bytes → Option ℕ
unfolding has_prefix
index p [] = if is_nil p then some 0 else none
index p (c ∷ s) = elim (has_prefix p (c ∷ s)) [ true ↦ some 0 | false ↦ next_index (index p s) ]

unfoldable pub contains : Bytes → Bytes → Bool
unfolding index
contains p s = elim (index p s) [ none ↦ false | some _ ↦ true ]

unfoldable pub trim_left : (ℕ → Bool) → Bytes → Bytes
trim_left p [] = []
trim_left p (c ∷ s) = elim (p c) [ true ↦ trim_left p s | false ↦ c ∷ s ]

unfoldable pub trim_right : (ℕ → Bool) → Bytes → Bytes
trim_right p [] = []
trim_right p (c ∷ s) = let rest = trim_right p s in if p c && is_nil rest then [] else c ∷ rest

-- `strings.Trim`, the cutset as a test.
unfoldable pub trim : (ℕ → Bool) → Bytes → Bytes
unfolding trim_left trim_right
trim p s = trim_right p (trim_left p s)

unfoldable pub trim_space : Bytes → Bytes
unfolding trim is_space
trim_space = trim is_space

-- ===== src/Text/Laws.antt =====
-- Splitting loses nothing: the parts joined by the separator give the text again.
use xylitol.Base.{
  ℕ, true, false, List, [], ◌∷◌, ◌++◌, none, some, ◌==◌, ==_iff, Bytes, All, ◌≡◌, refl, ap, ◌∙◌,
  arith, inl, inr, Bool-cases, Option-cases,
}
use xylitol.Text.Search.{strip_prefix}
use xylitol.Text.Split.{Parts, all_parts, new_part, add_byte, split_where, split, cut}

-- `strings.Join` with a separator of one byte.
abbrev pub join : ℕ → List Bytes → Bytes
join sep [] = []
join sep (p ∷ []) = p
join sep (p ∷ q ∷ ps) = p ++ (sep ∷ join sep (q ∷ ps))

abbrev pub Lacks : ℕ → Bytes → Type 0
Lacks sep s = All (λ c. (c == sep) ≡ false) s

pub join-add_byte :
    (sep c : ℕ) (p : Parts) → join sep (all_parts (add_byte c p)) ≡ c ∷ join sep (all_parts p)
join-add_byte sep c (part, []) = refl
join-add_byte sep c (part, q ∷ parts) = refl

pub join-new_part :
    (sep : ℕ) (p : Parts) → join sep (all_parts (new_part p)) ≡ sep ∷ join sep (all_parts p)
join-new_part sep (part, parts) = refl

Lacks-add_byte :
    (sep c : ℕ) (p : Parts)
    → (c == sep) ≡ false
    → All (Lacks sep) (all_parts p)
    → All (Lacks sep) (all_parts (add_byte c p))
Lacks-add_byte sep c (part, parts) h all = ((h, all.0), all.1)

pub split-sep :
    (sep c : ℕ) (s : Bytes) → (c == sep) ≡ true → split sep (c ∷ s) ≡ new_part (split sep s)
unfolding split split_where
split-sep sep c s h = rw h

pub split-other :
    (sep c : ℕ) (s : Bytes) → (c == sep) ≡ false → split sep (c ∷ s) ≡ add_byte c (split sep s)
unfolding split split_where
split-other sep c s h = rw h

-- The parts joined by the separator are the text.
pub join-split : (sep : ℕ) (s : Bytes) → join sep (all_parts (split sep s)) ≡ s
join-split sep [] = unfold split split_where in refl
join-split sep (c ∷ s) = elim (Bool-cases (c == sep)) [
  | inl here ↦ rw (split-sep sep c s here, join-new_part, join-split sep s, (==_iff c sep).0 here)
  | inr there ↦ rw (split-other sep c s there, join-add_byte, join-split sep s)
]

-- No part holds the separator.
pub split-Lacks : (sep : ℕ) (s : Bytes) → All (Lacks sep) (all_parts (split sep s))
split-Lacks sep [] = unfold split split_where in (tt, tt)
split-Lacks sep (c ∷ s) = elim (Bool-cases (c == sep)) [
  | inl here ↦ rw (split-sep sep c s here) (tt, split-Lacks sep s)
  | inr there ↦
      rw (split-other sep c s there) (Lacks-add_byte sep c (split sep s) there (split-Lacks sep s))
]

-- `strings.Split` by one byte cuts at every separator and loses nothing: the parts joined by the
-- separator are the text, and no part holds the separator.
pub split_lem :
    (sep : ℕ) (s : Bytes)
    → (join sep (all_parts (split sep s)) ≡ s) × All (Lacks sep) (all_parts (split sep s))
split_lem sep s = (join-split sep s, split-Lacks sep s)

-- A text without the separator in front of it is a part of its own.
pub split-append :
    (sep : ℕ) (a b : Bytes)
    → Lacks sep a
    → split sep (a ++ (sep ∷ b)) ≡ (a, all_parts (split sep b))
split-append sep [] b h = split-sep sep sep b ((==_iff sep sep).1 refl)
split-append sep (c ∷ a) b h =
    split-other sep c (a ++ (sep ∷ b)) h.0 ∙ rw (split-append sep a b h.1)

pub split_lacking : (sep : ℕ) (s : Bytes) → Lacks sep s → split sep s ≡ (s, [])
split_lacking sep [] h = unfold split split_where in refl
split_lacking sep (c ∷ s) h = split-other sep c s h.0 ∙ rw (split_lacking sep s h.1)

pub strip_prefix_lem : (p s : Bytes) {rest : Bytes} → strip_prefix p s ≡ some rest → s ≡ p ++ rest
unfolding strip_prefix
strip_prefix_lem [] s h = ground arith
strip_prefix_lem (x ∷ p) [] h = cc
strip_prefix_lem (x ∷ p) (c ∷ s) {rest} h = elim (Bool-cases (x == c)) [
  | inl same ↦ rw ((==_iff x c).0 same) (ap (◌∷◌ c) (strip_prefix_lem p s (rw same at h)))
  | inr other ↦ absurd (cc (rw other at h))
]

pub strip_prefix-append : (p s : Bytes) → strip_prefix p (p ++ s) ≡ some s
unfolding strip_prefix
strip_prefix-append [] s = refl
strip_prefix-append (x ∷ p) s = rw ((==_iff x x).1 refl) (strip_prefix-append p s)

-- `strings.SplitN` with the limit 2 loses nothing: the two parts with the separator between them
-- are
-- the text.
pub cut_lem : (sep s : Bytes) {a b : Bytes} → cut sep s ≡ some (a, b) → s ≡ a ++ (sep ++ b)
unfolding cut
cut_lem sep [] h = absurd (cc)
cut_lem sep (c ∷ s) {a} {b} h = elim (Option-cases (strip_prefix sep (c ∷ s))) [
  | inr (rest, here) ↦ ground (arith, strip_prefix_lem sep (c ∷ s) here)
  | inl later ↦ elim (Option-cases (cut sep s)) [
    | inl missing ↦ absurd (ground arith)
    | inr ((front, back), found) ↦ ground (arith, cut_lem sep s found)
  ]
]

-- What `add_byte` does for each byte of a text.
abbrev pub add_bytes : Bytes → Parts → Parts
add_bytes a (part, parts) = (a ++ part, parts)

-- `strings.SplitN(s, sep, 2)` by one byte cuts at the first separator.
pub cut-append :
    (sep : ℕ) (a b : Bytes) → Lacks sep a → cut (sep ∷ []) (a ++ (sep ∷ b)) ≡ some (a, b)
unfolding cut strip_prefix
cut-append sep [] b h = ground (arith, ==_iff sep sep)
cut-append sep (c ∷ a) b h = ground (arith, h.0, ==_iff sep c, ==_iff c sep, cut-append sep a b h.1)

pub cut_lacking : (sep : ℕ) (s : Bytes) → Lacks sep s → cut (sep ∷ []) s ≡ none
unfolding cut strip_prefix
cut_lacking sep [] h = refl
cut_lacking sep (c ∷ s) h = ground (arith, h.0, ==_iff sep c, ==_iff c sep, cut_lacking sep s h.1)

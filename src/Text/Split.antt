-- ===== src/Text/Split.antt =====
-- `Split`, `SplitN` with a limit of 2, and `Fields`. A split has one part at least, so it is its
-- first part (`parts[0]`) and the others (`parts[1:]`).
use xylitol.Base.{
  ℕ, Bool, true, false, List, [], ◌∷◌, Option, none, some, ◌==◌, if◌then◌else◌, Bytes, is_nil,
}
use xylitol.Text.Case.{is_space}
use xylitol.Text.Search.{strip_prefix, has_prefix}

abbrev pub Parts : Type 0
Parts = Bytes × List Bytes

-- All parts, as the slice that Go returns.
abbrev pub all_parts : Parts → List Bytes
all_parts (part, parts) = part ∷ parts

abbrev pub new_part : Parts → Parts
new_part (part, parts) = ([], part ∷ parts)

abbrev pub add_byte : ℕ → Parts → Parts
add_byte c (part, parts) = (c ∷ part, parts)

unfoldable pub split_where : (ℕ → Bool) → Bytes → Parts
split_where p [] = ([], [])
split_where p (c ∷ s) = let rest = split_where p s in if p c then new_part rest else add_byte c rest

-- `strings.Split(s, sep)` for a separator of one byte.
unfoldable pub split : ℕ → Bytes → Parts
unfolding split_where
split sep = split_where (λ c. c == sep)

-- `strings.Split(s, "\r\n")`; the flag says that `c` is the second byte of a separator.
unfoldable pub split_lines_from : Bool → Bytes → Parts
unfolding has_prefix
split_lines_from skip [] = ([], [])
split_lines_from true (c ∷ s) = split_lines_from false s
split_lines_from false (c ∷ s) = elim (has_prefix (b'\r' ∷ b'\n' ∷ []) (c ∷ s)) [
  | true ↦ new_part (split_lines_from true s)
  | false ↦ add_byte c (split_lines_from false s)
]

unfoldable pub split_lines : Bytes → Parts
unfolding split_lines_from
split_lines = split_lines_from false

abbrev add_byte_cut : ℕ → Option (Bytes × Bytes) → Option (Bytes × Bytes)
add_byte_cut c none = none
add_byte_cut c (some (s, t)) = some (c ∷ s, t)

-- `strings.SplitN(s, sep, 2)` where it has two parts: what stands before and behind the first
-- separator.
unfoldable pub cut : Bytes → Bytes → Option (Bytes × Bytes)
unfolding strip_prefix
cut sep [] = none
cut sep (c ∷ s) = elim (strip_prefix sep (c ∷ s)) [
  | some rest ↦ some ([], rest)
  | none ↦ add_byte_cut c (cut sep s)
]

-- `strings.Split(s, sep)[0]`
unfoldable pub before : Bytes → Bytes → Bytes
unfolding cut
before sep s = elim (cut sep s) [ none ↦ s | some (part, _) ↦ part ]

unfoldable pub nonempty : List Bytes → List Bytes
nonempty [] = []
nonempty (w ∷ ws) = if is_nil w then nonempty ws else w ∷ nonempty ws

unfoldable pub fields : Bytes → List Bytes
unfolding split_where is_space nonempty
fields s = nonempty (all_parts (split_where is_space s))

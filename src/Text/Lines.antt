-- ===== src/Text/Lines.antt =====
-- Lines with CR LF in front of each but the first.
use xylitol.Base.{
  ℕ, suc, ◌+◌, false, List, [], ◌∷◌, ◌++◌, some, ◌==◌, ==_iff, Bytes, length, length-append,
  append_assoc, append-nil, is_nil, All, ◌≡◌, refl, ap, ◌∙◌, arith,
}
use xylitol.Text.Search.{has_prefix, strip_prefix, index}
use xylitol.Text.Split.{all_parts, split_lines_from, split_lines}
use xylitol.Text.Laws.{Lacks, add_bytes}

-- The further lines, and what stands behind them.
abbrev pub lines_then : List Bytes → Bytes → Bytes
lines_then [] rest = rest
lines_then (line ∷ lines) rest = b'\r' ∷ b'\n' ∷ (line ++ lines_then lines rest)

pub lines_then-append :
    (lines : List Bytes) (rest : Bytes) → lines_then lines rest ≡ lines_then lines [] ++ rest
lines_then-append [] rest = refl
lines_then-append (line ∷ lines) rest =
    rw (append_assoc line (lines_then lines []) rest, lines_then-append lines rest) refl

-- A line that may stand in a message.
abbrev pub IsOneLine : Bytes → Type 0
IsOneLine line = Lacks b'\r' line × (is_nil line ≡ false)

other_byte : (c : ℕ) → (c == b'\r') ≡ false → (b'\r' == c) ≡ false
other_byte c h = ground (arith, ==_iff b'\r' c, ==_iff c b'\r', h)

no_prefix : (c : ℕ) (p s : Bytes) → (c == b'\r') ≡ false → has_prefix (b'\r' ∷ p) (c ∷ s) ≡ false
unfolding has_prefix strip_prefix
no_prefix c p s h = ground (arith, ==_iff b'\r' c, ==_iff c b'\r', h)

split_lines_from-append :
    (a s : Bytes)
    → Lacks b'\r' a
    → split_lines_from false (a ++ s) ≡ add_bytes a (split_lines_from false s)
unfolding split_lines_from
split_lines_from-append [] s h = refl
split_lines_from-append (c ∷ a) s h =
    rw (split_lines_from, no_prefix c (b'\n' ∷ []) (a ++ s) h.0, split_lines_from-append a s h.1)
      refl

split_lines_from-lines :
    (line : Bytes) (lines : List Bytes)
    → Lacks b'\r' line
    → All IsOneLine lines
    → split_lines_from false (line ++ lines_then lines []) ≡ (line, lines)
unfolding split_lines_from has_prefix strip_prefix
split_lines_from-lines line [] h all = rw (split_lines_from-append line [] h, append-nil) refl
split_lines_from-lines line (next ∷ lines) h all =
    rw
      (
        split_lines_from-append line (lines_then (next ∷ lines) []) h,
        split_lines_from-lines next lines all.0.0 all.1,
        append-nil,
      )
      refl

pub split_lines-lines :
    (line : Bytes) (lines : List Bytes)
    → Lacks b'\r' line
    → All IsOneLine lines
    → split_lines (line ++ lines_then lines []) ≡ (line, lines)
unfolding split_lines
split_lines-lines line lines h all = split_lines_from-lines line lines h all

abbrev pub empty_line : Bytes
empty_line = b'\r' ∷ b'\n' ∷ b'\r' ∷ b'\n' ∷ []

index-append :
    (a s : Bytes) (n : ℕ)
    → Lacks b'\r' a
    → index empty_line s ≡ some n
    → index empty_line (a ++ s) ≡ some (length a + n)
unfolding index
index-append [] s n h e = e ∙ ap some (omega arith)
index-append (c ∷ a) s n h e =
    rw (index, no_prefix c (b'\n' ∷ b'\r' ∷ b'\n' ∷ []) (a ++ s) h.0, index-append a s n h.1 e)
      (ap some (omega arith))

index_found : (body : Bytes) → index empty_line (empty_line ++ body) ≡ some 0
unfolding index has_prefix strip_prefix
index_found body = refl

index-other :
    (c : ℕ) (s : Bytes) (n : ℕ)
    → has_prefix empty_line (c ∷ s) ≡ false
    → index empty_line s ≡ some n
    → index empty_line (c ∷ s) ≡ some (suc n)
unfolding index
index-other c s n h e = rw (index, h, e) refl

no_empty_line :
    (c : ℕ) (s : Bytes)
    → (c == b'\r') ≡ false
    → has_prefix empty_line (b'\r' ∷ b'\n' ∷ c ∷ s) ≡ false
unfolding has_prefix strip_prefix
no_empty_line c s h = ground (arith, other_byte c h)

-- A CR LF in front of a line is not the end of the headers.
index-next :
    (line s : Bytes) (n : ℕ)
    → IsOneLine line
    → index empty_line (line ++ s) ≡ some n
    → index empty_line (b'\r' ∷ b'\n' ∷ (line ++ s)) ≡ some (suc (suc n))
index-next [] s n h e = absurd (ground arith)
index-next (c ∷ line) s n h e =
    index-other b'\r' _ (suc n) (no_empty_line c (line ++ s) h.0.0)
      (index-other b'\n' _ n (no_prefix b'\n' (b'\n' ∷ b'\r' ∷ b'\n' ∷ []) _ refl) e)

pub index-lines :
    (line : Bytes) (lines : List Bytes) (body : Bytes)
    → Lacks b'\r' line
    → All IsOneLine lines
    → index empty_line (line ++ lines_then lines (empty_line ++ body))
      ≡ some (length (line ++ lines_then lines []))
index-lines line [] body h all =
    index-append line (empty_line ++ body) 0 h (index_found body)
    ∙ ap some (omega (arith, length-append line []))
index-lines line (next ∷ lines) body h all =
    index-append line _ _ h (
      index-next next (lines_then lines (empty_line ++ body)) _ all.0
        (index-lines next lines body all.0.0 all.1))
    ∙ ap some (omega (arith, length-append line (lines_then (next ∷ lines) [])))

split_lines_from-body :
    (line : Bytes) (lines : List Bytes) (body : Bytes)
    → Lacks b'\r' line
    → All IsOneLine lines
    → split_lines_from false (line ++ lines_then lines (empty_line ++ body))
      ≡ (line, lines ++ ([] ∷ all_parts (split_lines_from false body)))
unfolding split_lines_from has_prefix strip_prefix
split_lines_from-body line [] body h all =
    rw (split_lines_from-append line (empty_line ++ body) h, append-nil) refl
split_lines_from-body line (next ∷ lines) body h all =
    rw
      (
        split_lines_from-append line (lines_then (next ∷ lines) (empty_line ++ body)) h,
        split_lines_from-body next lines body all.0.0 all.1,
        append-nil,
      )
      refl

-- The lines of a whole message: behind its headers one that is empty, and those of its body.
pub split_lines-body :
    (line : Bytes) (lines : List Bytes) (body : Bytes)
    → Lacks b'\r' line
    → All IsOneLine lines
    → split_lines (line ++ lines_then lines (empty_line ++ body))
      ≡ (line, lines ++ ([] ∷ all_parts (split_lines body)))
unfolding split_lines
split_lines-body line lines body h all = split_lines_from-body line lines body h all

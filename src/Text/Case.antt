-- ===== src/Text/Case.antt =====
-- `unicode.IsSpace`, `strings.ToLower`, `strings.ToUpper` and `strings.Title`.
use xylitol.Base.{
  ℕ, ◌+◌, ◌-◌, Bool, true, not, ◌&&◌, ◌||◌, [], ◌∷◌, map, leb, ◌==◌, if◌then◌else◌, Bytes,
}

-- Tab, newline, vertical tab, form feed, carriage return and blank.
unfoldable pub is_space : ℕ → Bool
is_space c = c == b' ' || (leb 9 c && leb c 13)

unfoldable pub is_lower : ℕ → Bool
is_lower c = leb b'a' c && leb c b'z'

unfoldable pub is_upper : ℕ → Bool
is_upper c = leb b'A' c && leb c b'Z'

unfoldable pub upper : ℕ → ℕ
unfolding is_lower
upper c = if is_lower c then c - 32 else c

unfoldable pub lower : ℕ → ℕ
unfolding is_upper
lower c = if is_upper c then c + 32 else c

unfoldable pub to_lower : Bytes → Bytes
unfolding lower
to_lower = map lower

unfoldable pub to_upper : Bytes → Bytes
unfolding upper
to_upper = map upper

-- Between words: in ASCII all but letters, digits and the underscore.
is_separator : ℕ → Bool
unfolding is_lower is_upper
is_separator c =
    leb c 127 && not (is_lower c || is_upper c || (leb b'0' c && leb c b'9') || c == b'_')

title_from : Bool → Bytes → Bytes
unfolding upper is_separator
title_from start [] = []
title_from start (c ∷ s) = (if start then upper c else c) ∷ title_from (is_separator c) s

-- The first letter of each word goes to upper case.
unfoldable pub title : Bytes → Bytes
unfolding title_from
title = title_from true

-- ===== src/Server/Stream.antt =====
-- The length of a body on a TCP stream: `parseContentLength`, and the buffer of `handleConnection`.
use xylitol.Base.{
  ◌||◌, List, [], ◌∷◌, Option, none, some, if◌then◌else◌, Bytes, codes, ℕ, ℤ, pos, negsuc, Result,
  ok, panic,
}
use xylitol.Text.{to_lower, trim_space, has_prefix, split_lines, all_parts, cut, atoi}

-- The number behind the colon of a Content-Length line, in its long or its compact form.
length_of_line : Bytes → Option ℤ
unfolding to_lower has_prefix cut atoi trim_space
length_of_line line =
    if has_prefix (codes "content-length:") (to_lower line)
      || has_prefix (codes "l:") (to_lower line)
    then elim (cut (b':' ∷ []) line) [ none ↦ none | some (_, value) ↦ atoi (trim_space value) ]
    else none

first_length : List Bytes → ℤ
unfolding length_of_line
first_length [] = pos 0
first_length (line ∷ lines) = elim (length_of_line line) [ none ↦ first_length lines | some n ↦ n ]

unfoldable pub parse_content_length : Bytes → ℤ
unfolding first_length split_lines
parse_content_length headers = first_length (all_parts (split_lines headers))

-- `make([]byte, contentLength)`: a negative length panics.
unfoldable pub body_buffer : Bytes → Result ℕ
unfolding parse_content_length
body_buffer headers = elim (parse_content_length headers) [ pos n ↦ ok n | negsuc n ↦ panic ]

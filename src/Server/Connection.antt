-- ===== src/Server/Connection.antt =====
-- `handleConnection`: the messages on a TCP stream, whose bytes up to its end are given. How they
-- arrive in segments does not matter to `ReadString` and `ReadFull`, which wait for them. The end of
-- the context is not modelled.
pub mod Framing
pub mod Enough
use xylitol.Base.{
  leb, ◌^◌, if◌then◌else◌, ℕ, zero, suc, Bool, true, false, List, [], ◌∷◌, ◌++◌, Option, none, some,
  Bytes, codes, equal, length, take, drop, ltb, ◌==◌, ℤ, pos, negsuc,
}
use xylitol.Server.Stream.{parse_content_length}

-- A line with the lines behind it.
abbrev pub prepend : Bytes → Option (Bytes × Bytes) → Option (Bytes × Bytes)
prepend line none = none
prepend line (some (headers, rest)) = some (line ++ headers, rest)

-- The inner loop: the lines up to the one that is empty, and what follows; `line` is the part of
-- the
-- current line that was read. `none` is the end of the stream within them.
unfoldable pub read_headers : Bytes → Bytes → Option (Bytes × Bytes)
unfolding equal
read_headers line [] = none
read_headers line (c ∷ s) = elim (c == b'\n') [
  | true ↦ elim (equal (line ++ (c ∷ [])) (codes "\r\n")) [
    | true ↦ some (line ++ (c ∷ []), s)
    | false ↦ prepend (line ++ (c ∷ [])) (read_headers [] s)
  ]
  | false ↦ read_headers (line ++ (c ∷ [])) s
]

-- How the loop ends: at the end of the stream, or with a panic on a negative length.
pub data StreamEnd : Type 0 where
  end_of_stream length_panics : StreamEnd

abbrev pub dispatched : Bytes → List Bytes × StreamEnd → List Bytes × StreamEnd
dispatched message (messages, end) = (message ∷ messages, end)

-- `make` panics for a slice of this many bytes on a 64-bit machine, and no stream holds as many.
abbrev max_alloc : ℕ
max_alloc = 2 ^ 48

-- The body by its length, and what the loop makes of the stream behind it.
unfoldable pub with_length :
    (Bytes → List Bytes × StreamEnd) → Bytes → Bytes → ℤ → List Bytes × StreamEnd
with_length next headers rest (negsuc n) = ([], length_panics)
with_length next headers rest (pos n) = elim (ltb (length rest) n) [
  | true ↦ if leb max_alloc n then ([], length_panics) else ([], end_of_stream)
  | false ↦ dispatched (headers ++ take n rest) (next (drop n rest))
]

unfoldable pub after_headers :
    (Bytes → List Bytes × StreamEnd) → Option (Bytes × Bytes) → List Bytes × StreamEnd
unfolding with_length parse_content_length
after_headers next none = ([], end_of_stream)
after_headers next (some (headers, rest)) =
    with_length next headers rest (parse_content_length headers)

-- The outer loop, one message for a unit of fuel.
unfoldable pub read_messages : ℕ → Bytes → List Bytes × StreamEnd
unfolding after_headers read_headers
read_messages zero s = ([], end_of_stream)
read_messages (suc fuel) s = after_headers (read_messages fuel) (read_headers [] s)

-- The messages of a stream: each takes a byte at least.
unfoldable pub handle_connection : Bytes → List Bytes × StreamEnd
unfolding read_messages
handle_connection s = read_messages (suc (length s)) s

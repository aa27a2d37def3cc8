-- ===== src/Server/Connection/Framing.antt =====
-- Messages written one after the other on a TCP stream come out as they were.
use xylitol.Base.{
  ℕ, zero, suc, ◌<◌, ◌≤◌, true, false, List, [], ◌∷◌, ◌++◌, Option, some, Bytes, codes, equal,
  length, length-append, take-append, drop-append, append_assoc, ltb, pos, All, ◌≡◌, refl, ◌∙◌, ap,
  arith,
}
use xylitol.Text.{Lacks}
use xylitol.Server.Stream.{parse_content_length}
use xylitol.Server.Connection.{
  prepend, read_headers, StreamEnd, end_of_stream, dispatched, read_messages, after_headers,
  with_length, handle_connection,
}

-- Header lines, each with its `\n`, and the empty line.
abbrev pub head_text : List Bytes → Bytes
head_text [] = codes "\r\n"
head_text (line ∷ lines) = line ++ (b'\n' ∷ head_text lines)

-- No `\n` inside, and not the empty line.
abbrev pub IsLine : Bytes → Type 0
IsLine line = Lacks b'\n' line × (equal (line ++ (b'\n' ∷ [])) (codes "\r\n") ≡ false)

pub record Framed : Type 0 where
  pub lines : List Bytes
  pub body : Bytes

abbrev pub text : Framed → Bytes
text m = head_text m.lines ++ m.body

-- The headers tell the length of the body.
abbrev pub IsFramed : Framed → Type 0
IsFramed m = All IsLine m.lines × (parse_content_length (head_text m.lines) ≡ pos (length m.body))

abbrev pub texts : List Framed → List Bytes
texts [] = []
texts (m ∷ messages) = text m ∷ texts messages

abbrev pub written : List Framed → Bytes
written [] = []
written (m ∷ messages) = text m ++ written messages

-- Behind the `\n` of a line.
abbrev end_line : Bytes → Bytes → Option (Bytes × Bytes)
end_line line s = elim (equal line (codes "\r\n")) [
  | true ↦ some (line, s)
  | false ↦ prepend line (read_headers [] s)
]

read_headers-line :
    (before line s : Bytes)
    → Lacks b'\n' line
    → read_headers before (line ++ (b'\n' ∷ s)) ≡ end_line (before ++ (line ++ (b'\n' ∷ []))) s
unfolding read_headers
read_headers-line before [] s lacks = refl
read_headers-line before (c ∷ line) s lacks =
    rw (read_headers, lacks.0)
      (read_headers-line (before ++ (c ∷ [])) line s lacks.1
        ∙ ap (λ t. end_line t s) (append_assoc before (c ∷ []) (line ++ (b'\n' ∷ []))))

read_headers-head_text :
    (lines : List Bytes) (s : Bytes)
    → All IsLine lines
    → read_headers [] (head_text lines ++ s) ≡ some (head_text lines, s)
unfolding read_headers equal
read_headers-head_text [] s h = refl
read_headers-head_text (line ∷ lines) s h =
    rw
      (
        append_assoc line (b'\n' ∷ head_text lines) s,
        read_headers-line [] line (head_text lines ++ s) h.0.0,
        end_line,
        h.0.1,
        read_headers-head_text lines s h.1,
        append_assoc line (b'\n' ∷ []) (head_text lines),
      )
      refl

fits : (a b : Bytes) → ltb (length (a ++ b)) (length a) ≡ false
fits a b = ground (arith, length-append a b)

with_length-append :
    (next : Bytes → List Bytes × StreamEnd) (headers body rest : Bytes)
    → with_length next headers (body ++ rest) (pos (length body))
      ≡ dispatched (headers ++ body) (next rest)
unfolding with_length
with_length-append next headers body rest =
    rw (with_length, fits body rest, take-append body rest, drop-append body rest) refl

head_text-length : (lines : List Bytes) → 1 ≤ length (head_text lines)
head_text-length [] = ground arith
head_text-length (line ∷ lines) =
    omega (arith, length-append line (b'\n' ∷ head_text lines), head_text-length lines)

read_messages-written :
    (messages : List Framed) (fuel : ℕ)
    → All IsFramed messages
    → length (written messages) < fuel
    → read_messages fuel (written messages) ≡ (texts messages, end_of_stream)
unfolding read_messages read_headers after_headers
read_messages-written messages zero h enough = absurd (omega (arith, enough))
read_messages-written [] (suc fuel) h enough = refl
read_messages-written (m ∷ messages) (suc fuel) h enough =
    let shorter : length (written messages) < fuel = omega (
      arith,
      length-append (text m) (written messages),
      length-append (head_text m.lines) m.body,
      head_text-length m.lines,
      enough,
    ) in
    rw
      (
        append_assoc (head_text m.lines) m.body (written messages),
        read_headers-head_text m.lines (m.body ++ written messages) h.0.0,
        h.0.1,
        with_length-append (read_messages fuel) (head_text m.lines) m.body (written messages),
        read_messages-written messages fuel h.1 shorter,
      )
      refl

-- Messages whose header lines hold no newline and tell the length of their body, written one after
-- the other on a TCP connection that is then closed, are dispatched one by one, each as it was
-- written, and nothing else is.
pub handle_connection-written :
    (messages : List Framed)
    → All IsFramed messages
    → handle_connection (written messages) ≡ (texts messages, end_of_stream)
unfolding handle_connection
handle_connection-written messages h =
    read_messages-written messages (suc (length (written messages))) h (omega arith)

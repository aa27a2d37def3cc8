-- ===== src/Server/Connection/Enough.antt =====
-- The fuel of `handle_connection` is enough.
use xylitol.Base.{
  ℕ, zero, suc, ◌<◌, ◌≤◌, List, [], ◌∷◌, ◌++◌, Option, none, some, Bytes, codes, equal, length,
  drop, length-drop, ltb, ◌==◌, ℤ, pos, negsuc, ◌≡◌, refl, arith, inl, inr, Bool-cases,
  Option-cases,
}
use xylitol.Server.Stream.{parse_content_length}
use xylitol.Server.Connection.{
  prepend, read_headers, StreamEnd, read_messages, after_headers, with_length,
}

prepend-some :
    (line : Bytes) (r : Option (Bytes × Bytes)) (headers rest : Bytes)
    → prepend line r ≡ some (headers, rest)
    → (tail : Bytes) × (r ≡ some (tail, rest))
prepend-some line none headers rest h = cc
prepend-some line (some (tail, rest')) headers rest h = (tail, cc)

-- The headers take a byte at least.
read_headers-shortens :
    (line s headers rest : Bytes)
    → read_headers line s ≡ some (headers, rest)
    → length rest < length s
unfolding read_headers
read_headers-shortens line [] headers rest h = cc
read_headers-shortens line (c ∷ s) headers rest h = elim (Bool-cases (c == b'\n')) [
  | inl e ↦ elim (Bool-cases (equal (line ++ (c ∷ [])) (codes "\r\n"))) [
    | inl f ↦ ground arith
    | inr f ↦
        let (tail, there) =
          prepend-some (line ++ (c ∷ [])) (read_headers [] s) headers rest (ground arith) in
        omega (arith, read_headers-shortens [] s tail rest there)
  ]
  | inr e ↦ omega (arith, read_headers-shortens (line ++ (c ∷ [])) s headers rest (ground arith))
]

-- The body and the rest of the stream by two loops that agree on every shorter stream.
with_length-agree :
    (next next' : Bytes → List Bytes × StreamEnd) (headers rest : Bytes) (n : ℤ)
    → ((s : Bytes) → length s ≤ length rest → next s ≡ next' s)
    → with_length next headers rest n ≡ with_length next' headers rest n
unfolding with_length
with_length-agree next next' headers rest (negsuc n) agree = refl
with_length-agree next next' headers rest (pos n) agree = elim (Bool-cases (ltb (length rest) n)) [
  | inl e ↦ rw (with_length, e) refl
  | inr e ↦ rw (with_length, e, agree (drop n rest) (omega (arith, length-drop n rest))) refl
]

-- With more fuel than the stream has bytes, the loop dispatches what `handle_connection`
-- dispatches: the fuel never ends it.
same_for_enough :
    (fuel more : ℕ) (s : Bytes)
    → length s < fuel
    → length s < more
    → read_messages fuel s ≡ read_messages more s
unfolding read_messages after_headers
same_for_enough zero more s h k = absurd (omega (arith, h))
same_for_enough (suc fuel) zero s h k = absurd (omega (arith, k))
same_for_enough (suc fuel) (suc more) s h k = elim (Option-cases (read_headers [] s)) [
  | inl e ↦ rw (e) refl
  | inr ((headers, rest), e) ↦ rw (e) (
      let shorter = read_headers-shortens [] s headers rest e in
      with_length-agree (read_messages fuel) (read_messages more) headers rest
        (parse_content_length headers)
        (λ t fits.
          same_for_enough fuel more t (omega (arith, shorter, fits, h))
            (omega (arith, shorter, fits, k))))
]

-- ===== src/Sip/Via/Values.antt =====
-- Lists of Via values: splitting outside quotes, and the first value of a response.
use xylitol.Base.{
  ℕ, Bool, true, false, not, ◌&&◌, [], ◌∷◌, ◌++◌, ◌==◌, Bytes, codes, is_nil, Bool-cases, inl, inr,
  ◌≡◌, ◌⊎◌, err, no_via, Result, refl, ap, ◌∙◌, arith,
}
use xylitol.Text.{
  all_parts, new_part, add_byte, split, trim_space, join, join-add_byte, join-new_part, Lacks,
  split-sep, split-other, cut-append, cut_lacking, add_bytes,
}
use xylitol.Dict.{Dict, insert, delete}
use xylitol.Sip.Message.{SipResponse, get_response_header}
use xylitol.Sip.Via.{
  split_outside_quotes, split_by_comma_outside_quotes, Via, parse_via, first_via, without_first_via,
  response_top_via, pop_via,
}

module _ (q : Bool) (c : ℕ) (s : Bytes) where
  split_outside_quotes-quote :
      (c == b'"') ≡ true
      → split_outside_quotes q (c ∷ s) ≡ add_byte c (split_outside_quotes (not q) s)
  unfolding split_outside_quotes
  split_outside_quotes-quote h = rw h

  split_outside_quotes-comma :
      (c == b'"') ≡ false
      → (c == b',' && not q) ≡ true
      → split_outside_quotes q (c ∷ s) ≡ new_part (split_outside_quotes q s)
  unfolding split_outside_quotes
  split_outside_quotes-comma h k = rw (h, k)

  split_outside_quotes-plain :
      (c == b'"') ≡ false
      → (c == b',' && not q) ≡ false
      → split_outside_quotes q (c ∷ s) ≡ add_byte c (split_outside_quotes q s)
  unfolding split_outside_quotes
  split_outside_quotes-plain h k = rw (h, k)

join-split_outside_quotes :
    (q : Bool) (s : Bytes) → join b',' (all_parts (split_outside_quotes q s)) ≡ s
join-split_outside_quotes q [] = unfold split_outside_quotes in refl
join-split_outside_quotes q (c ∷ s) = elim (Bool-cases (c == b'"')) [
  | inl quote ↦
      rw
        (split_outside_quotes-quote q c s quote, join-add_byte, join-split_outside_quotes (not q) s)
  | inr plain ↦ elim (Bool-cases (c == b',' && not q)) [
    | inl comma ↦
        let here : c ≡ b',' = ground arith in
        rw (
          split_outside_quotes-comma q c s plain comma,
          join-new_part,
          join-split_outside_quotes q s,
          here,
        )
    | inr other ↦
        rw (
          split_outside_quotes-plain q c s plain other,
          join-add_byte,
          join-split_outside_quotes q s,
        )
  ]
]

split_outside_quotes-split :
    (s : Bytes) → Lacks b'"' s → split_outside_quotes false s ≡ split b',' s
split_outside_quotes-split [] h = unfold split_outside_quotes split in refl
split_outside_quotes-split (c ∷ s) h = elim (Bool-cases (c == b',')) [
  | inl comma ↦ rw (
    split_outside_quotes-comma false c s h.0 (ground arith),
    split-sep b',' c s comma,
    split_outside_quotes-split s h.1,
  )
  | inr other ↦ rw (
    split_outside_quotes-plain false c s h.0 (ground arith),
    split-other b',' c s other,
    split_outside_quotes-split s h.1,
  )
]

-- Within quotes nothing is split.
split_outside_quotes-quoted :
    (v rest : Bytes)
    → Lacks b'"' v
    → split_outside_quotes true (v ++ (b'"' ∷ rest))
      ≡ add_bytes v (add_byte b'"' (split_outside_quotes false rest))
split_outside_quotes-quoted [] rest h = split_outside_quotes-quote true b'"' rest refl
split_outside_quotes-quoted (c ∷ v) rest h =
    split_outside_quotes-plain true c (v ++ (b'"' ∷ rest)) h.0 (ground arith)
    ∙ rw (split_outside_quotes-quoted v rest h.1)

-- Splitting at the commas outside quotes loses nothing, and keeps a quoted text in one part,
-- whatever commas it holds.
pub split_by_comma_outside_quotes_lem :
    (s v rest : Bytes)
    → Lacks b'"' v
    → (join b',' (all_parts (split_by_comma_outside_quotes s)) ≡ s)
      × (split_by_comma_outside_quotes (b'"' ∷ (v ++ (b'"' ∷ rest)))
          ≡ add_byte b'"' (add_bytes v (add_byte b'"' (split_by_comma_outside_quotes rest))))
unfolding split_by_comma_outside_quotes
split_by_comma_outside_quotes_lem s v rest h = (
  join-split_outside_quotes false s,
  split_outside_quotes-quote false b'"' (v ++ (b'"' ∷ rest)) refl
      ∙ rw (split_outside_quotes-quoted v rest h),
)

is_nil-append : (a : Bytes) (c : ℕ) (b : Bytes) → is_nil (a ++ (c ∷ b)) ≡ false
is_nil-append [] c b = refl
is_nil-append (x ∷ a) c b = refl

module _ (a b : Bytes) (m : Dict Bytes) (h : Lacks b',' a) where
  first_via-append : first_via (a ++ (b',' ∷ b)) ≡ parse_via (trim_space a)
  unfolding first_via
  first_via-append = rw (is_nil-append a b',' b, cut-append b',' a b h)

  without_first_via-append :
      without_first_via (a ++ (b',' ∷ b)) m ≡ insert (codes "Via") (trim_space b) m
  unfolding without_first_via
  without_first_via-append = rw (is_nil-append a b',' b, cut-append b',' a b h)

module _ (v : Bytes) (m : Dict Bytes) (h : Lacks b',' v) (e : is_nil v ≡ false) where
  first_via_only : first_via v ≡ parse_via v
  unfolding first_via
  first_via_only = ground (arith, cut_lacking b',' v h)

  without_first_via_only : without_first_via v m ≡ delete (codes "Via") m
  unfolding without_first_via
  without_first_via_only = ground (arith, cut_lacking b',' v h)

-- The text has no comma, or a first one.
comma_cases :
    (v : Bytes) → Lacks b',' v ⊎ ((a : Bytes) × (b : Bytes) × Lacks b',' a × (v ≡ a ++ (b',' ∷ b)))
comma_cases [] = inl tt
comma_cases (c ∷ v) = elim (Bool-cases (c == b',')) [
  | inl here ↦ let is_comma : c ≡ b',' = ground arith in inr ([], v, tt, ap (λ x. x ∷ v) is_comma)
  | inr other ↦ elim (comma_cases v) [
    | inl lacks ↦ inl (other, lacks)
    | inr (a, b, lacks, e) ↦ inr (c ∷ a, b, (other, lacks), ap (λ x. c ∷ x) e)
  ]
]

-- What `TopVia` returns and what `PopVia` leaves, by the Via header of the response.
pub data ViaSpec (r : SipResponse) : Result Via → SipResponse → Type 0 where
  no_value : get_response_header (codes "Via") r ≡ [] → ViaSpec r (err no_via) r
  one_value :
      (v : Bytes)
      → get_response_header (codes "Via") r ≡ v
      → Lacks b',' v
      → is_nil v ≡ false
      → ViaSpec r (parse_via v) (record r { headers = delete (codes "Via") r.headers })
  more_values :
      (a b : Bytes)
      → get_response_header (codes "Via") r ≡ a ++ (b',' ∷ b)
      → Lacks b',' a
      → ViaSpec r
          (parse_via (trim_space a))
          (record r { headers = insert (codes "Via") (trim_space b) r.headers })

via_cases :
    (r : SipResponse) (v : Bytes)
    → get_response_header (codes "Via") r ≡ v
    → ViaSpec r (first_via v) (record r { headers = without_first_via v r.headers })
via_cases r [] e = unfold first_via without_first_via in no_value e
via_cases r (c ∷ v) e = elim (comma_cases (c ∷ v)) [
  | inl lacks ↦
      rw
        (
          first_via_only (c ∷ v) r.headers lacks refl,
          without_first_via_only (c ∷ v) r.headers lacks refl,
        )
        (one_value (c ∷ v) e lacks refl)
  | inr (a, b, lacks, split_here) ↦
      rw
        (
          split_here,
          first_via-append a b r.headers lacks,
          without_first_via-append a b r.headers lacks,
        )
        (more_values a b (e ∙ split_here) lacks)
]

-- For every response: without a Via header `TopVia` fails and `PopVia` leaves the response; without
-- a comma in it, `TopVia` parses the whole header and `PopVia` deletes it; and else `TopVia` parses
-- what stands before the first comma, in quotes or not, and `PopVia` leaves what stands behind it.
pub top_via-pop_via : (r : SipResponse) → ViaSpec r (response_top_via r) (pop_via r)
unfolding response_top_via pop_via
top_via-pop_via r = via_cases r (get_response_header (codes "Via") r) refl

-- ===== src/Guidance/Session/Byes.antt =====
-- How often a guidance call is ended, and when its `Run` returns.
use xylitol.Base.{
  ℕ, zero, suc, ◌+◌, ◌%◌, ◌^◌, ◌<◌, ◌&&◌, ◌||◌, Bool, true, false, List, [], ◌∷◌, length,
  if◌then◌else◌, ◌==◌, ◌≡◌, refl, ap, subst, ◌∙◌, arith,
}
use xylitol.Guidance.{App, next_cseq}
use xylitol.Guidance.Session.{
  fresh, connecting, connected, disconnected, failed, closed, Session, answered,
  on_connection_state_change, finish_stream, is_finished, SessionEvent, state_changed, invite_ended,
  stream_ended, session_step, session_steps,
}

-- The numbers of `n` BYEs behind the number `c`, the last one first.
abbrev pub numbers : ℕ → ℕ → List ℕ
numbers c zero = []
numbers c (suc n) = (c + suc n) % 2 ^ 32 ∷ numbers c n

abbrev pub is_connected : SessionEvent → Bool
is_connected (state_changed connected) = true
is_connected _ = false

abbrev pub is_end : SessionEvent → Bool
is_end (state_changed failed) = true
is_end (state_changed closed) = true
is_end _ = false

abbrev pub is_invite_ended : SessionEvent → Bool
is_invite_ended invite_ended = true
is_invite_ended _ = false

abbrev pub count : (SessionEvent → Bool) → List SessionEvent → ℕ
count test [] = 0
count test (e ∷ es) = (if test e then 1 else 0) + count test es

abbrev pub any : (SessionEvent → Bool) → List SessionEvent → Bool
any test [] = false
any test (e ∷ es) = test e || any test es

-- The session behind `n` BYEs and with `m` streams begun in all, on the number `c` of the INVITE.
record IsCounted (c m : ℕ) (s : Session) : Type 0 where
  sum : length s.byes + s.streams ≡ m
  numbered : s.byes ≡ numbers c (length s.byes)
  current : s.app.cseq ≡ (c + length s.byes) % 2 ^ 32

finish_stream-IsCounted :
    (c m : ℕ) (s : Session)
    → (s.streams == 0) ≡ false
    → IsCounted c m s
    → IsCounted c m (finish_stream s)
unfolding finish_stream next_cseq
finish_stream-IsCounted c m s runs h =
    let next : (s.app.cseq + 1) % 2 ^ 32 ≡ (c + suc (length s.byes)) % 2 ^ 32 =
      omega (arith, h.current) in
    record {
      sum = ground (arith, h.sum, runs);
      numbered =
          ap (λ l. (s.app.cseq + 1) % 2 ^ 32 ∷ l) h.numbered
          ∙ ap (λ n. n ∷ numbers c (length s.byes)) next;
      current = next;
    }

zero-IsCounted : (c m : ℕ) (s : Session) → IsCounted c m s → IsCounted c (m + 0) s
zero-IsCounted c m s h = record {
  sum = omega (arith, h.sum);
  numbered = h.numbered;
  current = h.current;
}

end-IsCounted :
    (c m : ℕ) (s : Session) (idle : Bool)
    → (s.streams == 0) ≡ idle
    → IsCounted c m s
    → IsCounted c (m + 0) (if idle then s else finish_stream s)
end-IsCounted c m s true e h = zero-IsCounted c m s h
end-IsCounted c m s false e h =
    zero-IsCounted c m (finish_stream s) (finish_stream-IsCounted c m s e h)

step-IsCounted :
    (e : SessionEvent) (c m : ℕ) (s : Session)
    → IsCounted c m s
    → IsCounted c (m + (if is_connected e then 1 else 0)) (session_step e s)
unfolding session_step on_connection_state_change
step-IsCounted (state_changed connected) c m s h = record {
  sum = omega (arith, h.sum);
  numbered = h.numbered;
  current = h.current;
}
step-IsCounted (state_changed failed) c m s h = ground (arith, h)
step-IsCounted (state_changed closed) c m s h = ground (arith, h)
step-IsCounted (state_changed fresh) c m s h = ground (arith, h)
step-IsCounted (state_changed connecting) c m s h = ground (arith, h)
step-IsCounted (state_changed disconnected) c m s h = ground (arith, h)
step-IsCounted invite_ended c m s h = record {
  sum = omega (arith, h.sum);
  numbered = h.numbered;
  current = h.current;
}
step-IsCounted stream_ended c m s h = end-IsCounted c m s (s.streams == 0) refl h

steps-IsCounted :
    (es : List SessionEvent) (c m : ℕ) (s : Session)
    → IsCounted c m s
    → IsCounted c (m + count is_connected es) (session_steps es s)
unfolding session_steps
steps-IsCounted [] c m s h = zero-IsCounted c m s h
steps-IsCounted (e ∷ es) c m s h =
    let one = if is_connected e then 1 else 0 in
    let same : m + one + count is_connected es ≡ m + (one + count is_connected es) = omega arith in
    subst (λ n. IsCounted c n (session_steps es (session_step e s))) same
      (steps-IsCounted es c (m + one) (session_step e s) (step-IsCounted e c m s h))

step-done : (e : SessionEvent) (s : Session) → (session_step e s).done ≡ s.done || is_end e
unfolding session_step on_connection_state_change finish_stream
step-done e s = ground arith

step-invite_done :
    (e : SessionEvent) (s : Session)
    → (session_step e s).invite_done ≡ s.invite_done || is_invite_ended e
unfolding session_step on_connection_state_change finish_stream
step-invite_done e s = ground arith

steps-done :
    (es : List SessionEvent) (s : Session)
    → ((session_steps es s).done ≡ s.done || any is_end es)
      × ((session_steps es s).invite_done ≡ s.invite_done || any is_invite_ended es)
unfolding session_steps
steps-done [] s = ground arith
steps-done (e ∷ es) s =
    ground (arith, steps-done es (session_step e s), step-done e s, step-invite_done e s)

answered-IsCounted : (a : App) → a.cseq < 2 ^ 32 → IsCounted a.cseq 0 (answered a)
unfolding answered
answered-IsCounted a h = record { sum = refl; numbered = refl; current = omega (arith, h) }

-- After any events of an answered call, whose CSeq is a 32-bit number: there is a stream, running or
-- ended, for each time that the connection was made, and a BYE was tried for each that has ended, so
-- that a call that is connected again is ended again; the BYEs have the numbers behind that of the
-- INVITE, one after the other and modulo 2 ^ 32; and `Run` has returned exactly where the transaction
-- of the INVITE is done and the connection has failed or was closed.
pub session_steps_byes :
    (a : App) (es : List SessionEvent)
    → a.cseq < 2 ^ 32
    → let s = session_steps es (answered a) in
      (length s.byes + s.streams ≡ count is_connected es)
      × (s.byes ≡ numbers a.cseq (length s.byes))
      × (is_finished s ≡ any is_invite_ended es && any is_end es)
unfolding is_finished answered
session_steps_byes a es h =
    let counted = steps-IsCounted es a.cseq 0 (answered a) (answered-IsCounted a h) in
    let (done, invite_done) = steps-done es (answered a) in
    (omega (arith, counted.sum), counted.numbered, ground (arith, done, invite_done))

-- ===== src/B2bua/Life/End.antt =====
-- The end of a call.
use xylitol.Base.{
  true, false, List, [], ◌∷◌, none, some, Bytes, equal, equal_refl, is_nil, ok, panic, Result,
  ◌>>=◌, ◌≡◌, ◌≢◌, arith, if◌then◌else◌, ◌||◌,
}
use xylitol.Dict.{lookup, insert, delete, lookup-insert, lookup-delete}
use xylitol.B2bua.Life.{
  mediating, returned, Call, CallEvent, established, mediated, cleaned_up, woken, cleanup, step,
  steps, establish_dialogs,
}

-- `cleanup` was called while the goroutine of `Run` had not returned.
abbrev pub IsCleanedUp : Call → Type 0
IsCleanedUp c = (c.done ≡ true) × (c.phase ≢ returned)

abbrev pub PanicsOr : (Call → Type 0) → Result Call → Type 0
PanicsOr P (ok c) = P c
PanicsOr P panic = Unit
PanicsOr P (Result.err e) = ⊥

step_cleaned : (e : CallEvent) (c : Call) → IsCleanedUp c → PanicsOr IsCleanedUp (step e c)
unfolding step
step_cleaned e c h = ground arith

PanicsOr-bind :
    (P : Call → Type 0) (m : Result Call) (f : Call → Result Call)
    → PanicsOr P m
    → ((c : Call) → P c → PanicsOr P (f c))
    → PanicsOr P (m >>= f)
PanicsOr-bind P (ok c) f h k = k c h
PanicsOr-bind P panic f h k = tt
PanicsOr-bind P (Result.err e) f h k = absurd h

-- Once `cleanup` has run in a call whose `Run` has not returned, as after every BYE, CANCEL and
-- Disconnect, `Run` never returns: whatever events follow, the process has panicked or the
-- goroutine
-- is still there, since the deferred `close(b.done)` would close a closed channel.
pub cleaned_call_never_returns :
    (es : List CallEvent) (c : Call) → IsCleanedUp c → PanicsOr IsCleanedUp (steps es c)
unfolding steps
cleaned_call_never_returns [] c h = h
cleaned_call_never_returns (e ∷ es) c h =
    PanicsOr-bind IsCleanedUp (step e c) (λ c'. steps es c') (step_cleaned e c h)
      (λ c' h'. cleaned_call_never_returns es c' h')

-- A call that is answered by 2xx and ended by BYE, and a call that is cancelled before its end,
-- both
-- end in a panic as soon as the goroutine of `Run` goes on.
pub ended_call_panics :
    (uas_id uac_id : Bytes) (c : Call)
    → c.phase ≡ mediating
    → c.done ≡ false
    → (steps (established uas_id uac_id ∷ cleaned_up ∷ woken ∷ []) c ≡ panic)
      × (steps (cleaned_up ∷ mediated ∷ []) c ≡ panic)
unfolding steps step
ended_call_panics uas_id uac_id c phase open_ = ground arith

-- A 2xx response makes both dialogs lead to the call, and `cleanup` takes away these two, that are
-- not empty, and the entry of the transaction, and nothing else.
pub cleanup-establish_dialogs :
    (uas_id uac_id : Bytes) (c : Call)
    → is_nil uas_id ≡ false
    → is_nil uac_id ≡ false
    → let e = establish_dialogs uas_id uac_id c in
      (lookup uas_id e.dialogs ≡ some c.self)
      × (lookup uac_id e.dialogs ≡ some c.self)
      × ((k : Bytes)
          → lookup k (cleanup e).dialogs
            ≡ (if equal uas_id k || equal uac_id k then none else lookup k c.dialogs))
      × ((k : Bytes)
          → lookup k (cleanup e).b2bua_by_tx
            ≡ (if equal c.uas_tx_id k then none else lookup k c.b2bua_by_tx))
unfolding establish_dialogs cleanup
cleanup-establish_dialogs uas_id uac_id c u v =
    let first = insert uas_id c.self c.dialogs in
    let both = insert uac_id c.self first in
    (
      ground (
        arith,
        lookup-insert uac_id uas_id c.self first,
        equal_refl uas_id,
        lookup-insert uas_id uas_id c.self c.dialogs,
      ),
      ground (arith, lookup-insert uac_id uac_id c.self first, equal_refl uac_id),
      λ k. ground (
        arith,
        lookup-delete uac_id k (delete uas_id both),
        lookup-delete uas_id k both,
        lookup-insert uac_id k c.self first,
        lookup-insert uas_id k c.self c.dialogs,
      ),
      λ k. lookup-delete c.uas_tx_id k c.b2bua_by_tx,
    )

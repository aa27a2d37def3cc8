-- ===== src/B2bua/Ending/Disconnected.antt =====
-- What `Disconnect` leaves.
use xylitol.Base.{
  false, [], ◌∷◌, Option, none, some, Bytes, Result, ok, err, panic, >>=-eq-ok, ◌≡◌, ◌≢◌, sym, inl,
  inr, Result-cases, ◌>>=◌, codes, is_nil, arith, refl, ap, subst, ◌∙◌, equal, equal_refl,
}
use xylitol.Dict.{lookup, lookup-insert}
use xylitol.Sip.Message.{SipRequest, SipResponse}
use xylitol.Server.State.{Transaction, non_invite_client, id, add, SipServer}
use xylitol.Tx.NonInviteClient.{NonInviteClientTx, new_non_invite_client_tx}
use xylitol.Server.Serve.{client_tx_of, new_client_tx}
use xylitol.B2bua.Requests.{Leg, create_bye_for_uac_leg, create_bye_for_uas_leg}
use xylitol.B2bua.Life.{Call, cleanup}
use xylitol.B2bua.Ending.{
  start_bye, started, disconnect_leg, callee_leg, caller_leg, LegState, Disconnection, disconnect,
}

-- A started transaction is found under its branch.
abbrev pub IsStored : Option Transaction → SipServer → Type 0
IsStored none s = Unit
IsStored (some t) s = lookup (id t) s.transactions ≡ some t

-- Not under this branch.
abbrev pub IsNot : Bytes → Option Transaction → Type 0
IsNot key none = Unit
IsNot key (some t) = equal (id t) key ≡ false

abbrev pub AreDistinct : Option Transaction → Option Transaction → Type 0
AreDistinct none t = Unit
AreDistinct (some t) t' = IsNot (id t) t'

-- From `s` to `s'` the transaction `t`, if any, was stored, and every other one stays.
record Stores (t : Option Transaction) (s s' : SipServer) : Type 0 where
  stored : IsStored t s'
  keeps : (key : Bytes) → IsNot key t → lookup key s'.transactions ≡ lookup key s.transactions

Stores-none : (s : SipServer) → Stores none s s
Stores-none s = record { stored = tt; keeps = λ key other. refl }

Stores-added :
    (t : Transaction) (s : SipServer)
    → Stores (some t) s (record s { transactions = add t s.transactions })
unfolding add
Stores-added t s = record {
  stored = rw (lookup-insert (id t) (id t) t s.transactions, equal_refl (id t)) refl;
  keeps = λ key other. rw (lookup-insert (id t) key t s.transactions, other) refl;
}

abbrev stored_outcome : Result (Transaction × SipServer) → Result (Option Transaction × SipServer)
stored_outcome (ok (t, s)) = ok (some t, s)
stored_outcome (err reason) = err reason
stored_outcome panic = panic

same_outcome :
    (s s' s'' : SipServer) (t t' : Option Transaction)
    → ◌≡◌ {A = Result (Option Transaction × SipServer)} (ok (t', s'')) (ok (t, s'))
    → Stores t' s s''
    → Stores t s s'
same_outcome s s' s'' t t' h stores =
    let same : ◌≡◌ {A = Option Transaction × SipServer} (t', s'') (t, s') = cc in
    subst (λ x. Stores x.0 s x.1) same stores

new_client_tx-Stores :
    (req : SipRequest) (proto : Bytes) (t : Transaction) (s s' : SipServer)
    → new_client_tx req proto s ≡ ok (t, s')
    → Stores (some t) s s'
unfolding new_client_tx
new_client_tx-Stores req proto t s s' h =
    let (t0, _, e) = >>=-eq-ok (client_tx_of req proto) _ h in
    same_outcome s s' _ (some t) (some t0) (ap stored_outcome e) (Stores-added t0 s)

started-Stores :
    (s s' : SipServer) (outcome : Result (Transaction × SipServer)) (t : Option Transaction)
    → ((t' : Transaction) (s'' : SipServer) → outcome ≡ ok (t', s'') → Stores (some t') s s'')
    → started s outcome ≡ ok (t, s')
    → Stores t s s'
unfolding started
started-Stores s s' (ok (t', s'')) t stores h =
    same_outcome s s' s'' t (some t') h (stores t' s'' refl)
started-Stores s s' (err reason) t stores h = same_outcome s s' s t none h (Stores-none s)
started-Stores s s' panic t stores h = cc

start_bye-Stores :
    (proto : Bytes) (s s' : SipServer) (bye : Option SipRequest) (t : Option Transaction)
    → start_bye proto s bye ≡ ok (t, s')
    → Stores t s s'
unfolding start_bye
start_bye-Stores proto s s' none t h = same_outcome s s' s t none h (Stores-none s)
start_bye-Stores proto s s' (some bye) t h =
    started-Stores s s' (new_client_tx bye proto s) t
      (λ t' s'' e. new_client_tx-Stores bye proto t' s s'' e) h

disconnect_leg-Stores :
    (dialog_id proto : Bytes) (bye : Result (Option SipRequest)) (s s' : SipServer)
    (t : Option Transaction)
    → disconnect_leg dialog_id proto bye s ≡ ok (t, s')
    → Stores t s s'
unfolding disconnect_leg
disconnect_leg-Stores [] proto bye s s' t h = same_outcome s s' s t none h (Stores-none s)
disconnect_leg-Stores (c ∷ dialog_id) proto bye s s' t h =
    let (made, _, e) = >>=-eq-ok bye (start_bye proto s) h in start_bye-Stores proto s s' made t e

-- Both BYEs are stored, the first one unless the second has its branch.
kept :
    (s s' s'' : SipServer) (t t' : Option Transaction)
    → Stores t s s'
    → Stores t' s' s''
    → AreDistinct t t'
    → IsStored t s'' × IsStored t' s''
kept s s' s'' none t' first second other = (tt, second.stored)
kept s s' s'' (some t) t' first second other =
    (second.keeps (id t) other ∙ first.stored, second.stored)

callee_leg-Stores :
    (uac : Option LegState) (call : Call) (s s' : SipServer) (t : Option Transaction)
    → callee_leg uac call s ≡ ok (t, s')
    → Stores t s s'
unfolding callee_leg
callee_leg-Stores none call s s' t h = same_outcome s s' s t none h (Stores-none s)
callee_leg-Stores (some u) call s s' t h =
    disconnect_leg-Stores call.uac_dialog_id u.leg.proto
      (create_bye_for_uac_leg u.leg u.invite u.last_response) s s' t h

-- What becomes of the BYE of a leg, `made` being what the builder returned: none without a dialog,
-- where the builder makes none or where no transaction can be made for it; else the transaction of
-- that BYE, whose goroutine sends it.
pub data ByeSpec (dialog_id proto : Bytes) (made : Result (Option SipRequest))
    : Option Transaction → Type 0 where
  no_dialog : dialog_id ≡ [] → ByeSpec dialog_id proto made none
  not_made : is_nil dialog_id ≡ false → made ≡ ok none → ByeSpec dialog_id proto made none
  no_transaction :
      (bye : SipRequest)
      → is_nil dialog_id ≡ false
      → made ≡ ok (some bye)
      → ((tx : NonInviteClientTx) → new_non_invite_client_tx bye proto ≢ ok tx)
      → ByeSpec dialog_id proto made none
  sends :
      (bye : SipRequest) (tx : NonInviteClientTx)
      → is_nil dialog_id ≡ false
      → made ≡ ok (some bye)
      → bye.method ≡ codes "BYE"
      → new_non_invite_client_tx bye proto ≡ ok tx
      → ByeSpec dialog_id proto made (some (non_invite_client tx))

-- Every request that the builder makes is a BYE.
abbrev MakesByes : Result (Option SipRequest) → Type 0
MakesByes made = (bye : SipRequest) → made ≡ ok (some bye) → bye.method ≡ codes "BYE"

MakesByes-uac :
    (leg : Leg) (invite : SipRequest) (last : Option SipResponse)
    → MakesByes (create_bye_for_uac_leg leg invite last)
unfolding create_bye_for_uac_leg
MakesByes-uac leg invite last bye h = ground arith

MakesByes-uas :
    (leg : Leg) (invite : SipRequest) (last : Option SipResponse)
    → MakesByes (create_bye_for_uas_leg leg invite last)
unfolding create_bye_for_uas_leg
MakesByes-uas leg invite last bye h = ground arith

client_tx_of-bye :
    (bye : SipRequest) (proto : Bytes)
    → bye.method ≡ codes "BYE"
    → client_tx_of bye proto
      ≡ (new_non_invite_client_tx bye proto >>= (λ t. ok (non_invite_client t)))
unfolding client_tx_of equal
client_tx_of-bye bye proto h = rw (client_tx_of, h) refl

same_bye :
    {dialog_id proto : Bytes} {made : Result (Option SipRequest)} (t t' : Option Transaction)
    (s s' : SipServer)
    → ◌≡◌ {A = Result (Option Transaction × SipServer)} (ok (t', s')) (ok (t, s))
    → ByeSpec dialog_id proto made t'
    → ByeSpec dialog_id proto made t
same_bye {dialog_id} {proto} {made} t t' s s' h spec =
    let same : t' ≡ t = cc in subst (ByeSpec dialog_id proto made) same spec

started_bye :
    (dialog_id proto : Bytes) (made : Result (Option SipRequest)) (bye : SipRequest)
    (s s' : SipServer) (t : Option Transaction)
    → is_nil dialog_id ≡ false
    → made ≡ ok (some bye)
    → bye.method ≡ codes "BYE"
    → started s (new_client_tx bye proto s) ≡ ok (t, s')
    → ByeSpec dialog_id proto made t
unfolding new_client_tx started
started_bye dialog_id proto made bye s s' t there is_made is_bye h =
    let which = client_tx_of-bye bye proto is_bye in
    elim (Result-cases (new_non_invite_client_tx bye proto)) [
      | inl (tx, e) ↦
          let ran : client_tx_of bye proto ≡ ok (non_invite_client tx) = which ∙ rw e refl in
          same_bye t (some (non_invite_client tx)) s' _
            (sym (
                ap
                  (λ r.
                    started s (r >>= λ x. ok (x, record s { transactions = add x s.transactions })))
                  ran)
              ∙ h)
            (sends bye tx there is_made is_bye e)
      | inr (inl (reason, e)) ↦
          let ran : client_tx_of bye proto ≡ err reason = which ∙ rw e refl in
          same_bye t none s' s
            (sym (
                ap
                  (λ r.
                    started s (r >>= λ x. ok (x, record s { transactions = add x s.transactions })))
                  ran)
              ∙ h)
            (no_transaction bye there is_made (λ tx k. cc))
      | inr (inr e) ↦ let ran : client_tx_of bye proto ≡ panic = which ∙ rw e refl in absurd (cc)
    ]

disconnect_leg-ByeSpec :
    (dialog_id proto : Bytes) (made : Result (Option SipRequest)) (s s' : SipServer)
    (t : Option Transaction)
    → MakesByes made
    → disconnect_leg dialog_id proto made s ≡ ok (t, s')
    → ByeSpec dialog_id proto made t
unfolding disconnect_leg start_bye
disconnect_leg-ByeSpec [] proto made s s' t byes h = same_bye t none s' s h (no_dialog refl)
disconnect_leg-ByeSpec (c ∷ d) proto (ok none) s s' t byes h =
    same_bye t none s' s h (not_made refl refl)
disconnect_leg-ByeSpec (c ∷ d) proto (ok (some bye)) s s' t byes h =
    started_bye (c ∷ d) proto (ok (some bye)) bye s s' t refl refl (byes bye refl) h
disconnect_leg-ByeSpec (c ∷ d) proto (err reason) s s' t byes h = cc
disconnect_leg-ByeSpec (c ∷ d) proto panic s s' t byes h = cc

-- The BYE of the callee's leg, and of the caller's.
abbrev pub CalleeSpec : Option LegState → Call → Option Transaction → Type 0
CalleeSpec none call t = t ≡ none
CalleeSpec (some u) call t =
    ByeSpec call.uac_dialog_id u.leg.proto (create_bye_for_uac_leg u.leg u.invite u.last_response) t

abbrev pub CallerSpec : LegState → Call → Option Transaction → Type 0
CallerSpec u call t =
    ByeSpec call.uas_dialog_id u.leg.proto (create_bye_for_uas_leg u.leg u.invite u.last_response) t

callee_leg-CalleeSpec :
    (uac : Option LegState) (call : Call) (s s' : SipServer) (t : Option Transaction)
    → callee_leg uac call s ≡ ok (t, s')
    → CalleeSpec uac call t
unfolding callee_leg
callee_leg-CalleeSpec none call s s' t h = cc
callee_leg-CalleeSpec (some u) call s s' t h =
    disconnect_leg-ByeSpec call.uac_dialog_id u.leg.proto _ s s' t
      (MakesByes-uac u.leg u.invite u.last_response) h

-- Where `Disconnect` runs through, the call is cleaned up. On each leg that has a dialog, and for
-- which a BYE can be made from the INVITE and its last response, there is then the client
-- transaction of that BYE; where no BYE or no transaction can be made, or without a dialog, there is
-- none. Each of the two transactions is found under its branch in the transaction manager, provided
-- that the branches of two BYEs differ. It is the goroutine of the transaction that sends the BYE.
pub disconnect_lem :
    (uac : Option LegState) (uas : LegState) (call : Call) (s : SipServer) (d : Disconnection)
    → disconnect uac uas call s ≡ ok d
    → AreDistinct d.to_callee d.to_caller
    → (d.call ≡ cleanup call)
      × CalleeSpec uac call d.to_callee
      × CallerSpec uas call d.to_caller
      × IsStored d.to_callee d.server
      × IsStored d.to_caller d.server
unfolding disconnect caller_leg
disconnect_lem uac uas call s d h distinct =
    let (first, e, h1) = >>=-eq-ok (callee_leg uac call s) _ h in
    let (second, f, h2) = >>=-eq-ok (caller_leg uas call first.1) _ h1 in
    let both =
      kept s first.1 second.1 first.0 second.0 (callee_leg-Stores uac call s first.1 first.0 e) (
        disconnect_leg-Stores call.uas_dialog_id uas.leg.proto
          (create_bye_for_uas_leg uas.leg uas.invite uas.last_response) first.1 second.1 second.0
          f) in
    let to_callee = callee_leg-CalleeSpec uac call s first.1 first.0 e in
    let to_caller =
      disconnect_leg-ByeSpec call.uas_dialog_id uas.leg.proto _ first.1 second.1 second.0
        (MakesByes-uas uas.leg uas.invite uas.last_response) f in
    let same : record {
      to_callee = first.0;
      to_caller = second.0;
      server = second.1;
      call = cleanup call;
    }
        ≡ d =
      cc in
    subst
      (λ x.
        AreDistinct x.to_callee x.to_caller
        → (x.call ≡ cleanup call)
          × CalleeSpec uac call x.to_callee
          × CallerSpec uas call x.to_caller
          × IsStored x.to_callee x.server
          × IsStored x.to_caller x.server)
      same (λ other. let stored = both other in (refl, to_callee, to_caller, stored.0, stored.1))
      distinct

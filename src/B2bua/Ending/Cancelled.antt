-- ===== src/B2bua/Ending/Cancelled.antt =====
-- What `Cancel` does.
use xylitol.Base.{
  Bool, false, none, some, if◌then◌else◌, codes, pos, [], ◌≡◌, refl, inl, inr, Bool-cases,
}
use xylitol.Sip.Message.{SipRequest}
use xylitol.Sip.Build.{build_response, create_cancel_request}
use xylitol.Tx.InviteClient.{InviteClientTx}
use xylitol.Server.State.{Transaction}
use xylitol.Server.Serve.Answers.{IsFresh, IsReplied, reply-IsReplied}
use xylitol.B2bua.Life.{Call, cleanup}
use xylitol.B2bua.Ending.{cancel_leg, request_terminated, cancel}

-- Where the mutex of the callee's transaction is not lost and the caller's transaction is open with
-- no response in it, `Cancel` writes the CANCEL of the callee's INVITE exactly where the callee's
-- transaction is not done, puts the 487 to the INVITE into the channel of the caller's transaction,
-- and cleans up.
pub cancel_lem :
    (pick : Bool) (invite : SipRequest) (uas : Transaction) (uac : InviteClientTx) (call : Call)
    → uac.stuck ≡ false
    → IsFresh uas
    → (let ended = cancel pick invite uas (some uac) call in
        (ended.to_callee
          ≡ (if uac.done then none else some (create_cancel_request uac.original_request)))
        × IsReplied (build_response (pos 487) (codes "Request Terminated") invite []) ended.served
        × (ended.call ≡ cleanup call))
unfolding cancel cancel_leg request_terminated
cancel_lem pick invite uas uac call open_ fresh = elim (Bool-cases uac.done) [
  | inl e ↦ rw (cancel, cancel_leg, e) (refl, reply-IsReplied pick _ uas fresh, refl)
  | inr e ↦ rw (cancel, cancel_leg, e, open_) (refl, reply-IsReplied pick _ uas fresh, refl)
]

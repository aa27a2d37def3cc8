-- ===== src/B2bua/Mediate/Branches.antt =====
-- What the B2BUA makes of each response of the callee.
use xylitol.Base.{ℕ, suc, true, false, [], codes, pos, at_least, ok, ◌≡◌, ◌≢◌}
use xylitol.Sip.Message.{SipRequest, SipResponse}
use xylitol.Sip.Fields.{response_min_se}
use xylitol.Sip.Build.{build_response}
use xylitol.Tx.InviteClient.{InviteClientTx, new_invite_client_tx}
use xylitol.B2bua.Requests.{Leg, retry_request}
use xylitol.B2bua.Mediate.{
  Mediation, retries, gives_up, relays, rejects, establishes, timed_response, response_dialog_id,
  is_success,
}

-- The answer to the caller has the status and the reason of the callee's response, and no body.
pub record IsAnswer (res answer : SipResponse) : Type 0 where
  pub same_status : answer.status_code ≡ res.status_code
  pub same_reason : answer.reason ≡ res.reason
  pub no_body : answer.body ≡ []

-- The response asks for no longer session interval: it is no 422, or has no Min-SE above 0.
abbrev pub AsksNoRetry : SipResponse → Type 0
AsksNoRetry res = (n : ℕ) → res.status_code ≡ pos 422 → response_min_se res ≢ ok (pos (suc n))

pub data MediationSpec (leg : Leg) (req : SipRequest) (tx : InviteClientTx) (res : SipResponse)
    : Mediation → Type 0 where
  retried :
      (n : ℕ) (tx' : InviteClientTx)
      → res.status_code ≡ pos 422
      → response_min_se res ≡ ok (pos (suc n))
      → new_invite_client_tx (retry_request leg (pos (suc n)) tx.original_request) tx.proto ≡ ok tx'
      → MediationSpec leg req tx res (retries tx')
  not_retried :
      (n : ℕ)
      → res.status_code ≡ pos 422
      → response_min_se res ≡ ok (pos (suc n))
      → ((tx' : InviteClientTx)
          → new_invite_client_tx (retry_request leg (pos (suc n)) tx.original_request) tx.proto
            ≢ ok tx')
      → MediationSpec leg req tx res
          (gives_up (build_response (pos 500) (codes "Server Internal Error") req []))
  relayed :
      (answer : SipResponse)
      → AsksNoRetry res
      → at_least 200 res.status_code ≡ false
      → IsAnswer res answer
      → MediationSpec leg req tx res (relays answer)
  rejected :
      (answer : SipResponse)
      → AsksNoRetry res
      → at_least 300 res.status_code ≡ true
      → IsAnswer res answer
      → MediationSpec leg req tx res (rejects answer)
  established :
      (answer : SipResponse)
      → AsksNoRetry res
      → is_success res ≡ true
      → IsAnswer res answer
      → MediationSpec leg req tx res (
          establishes answer
            (response_dialog_id answer)
            (response_dialog_id (timed_response req res)))

-- ===== src/Tests/Servers.antt =====
-- The server transactions at concrete inputs.
use xylitol.Base.{pos, List, [], ◌∷◌, none, some, true, false, if◌then◌else◌, inl, ◌≡◌, refl, codes}
use xylitol.Sip.Build.{build_response}
use xylitol.Tx.Common.{is_reliable, armed, response}
use xylitol.Tx.InviteServer
use xylitol.Tx.NonInviteServer
use xylitol.Tests.Data.{invite_server, request_server, answered_server, invite, ack, answer, busy}

abbrev events : List InviteServer.Event
events = InviteServer.response_taken true ∷ InviteServer.received true ack ∷ []

invite_server-IsValid : InviteServer.Diagram.IsValid invite_server
invite_server-IsValid = record {
  ends = λ h. absurd (cc);
  ended = λ h. absurd (cc);
  answered = λ h. absurd (cc);
  loops = λ h. refl;
}

response_written_example :
    let t = InviteServer.run_response true invite_server in
    (t.sent ≡ response busy ∷ [])
    × (t.last_response ≡ some busy)
    × (t.responses ≡ none)
    × (t.state ≡ InviteServer.completed)
    × (t.done ≡ false)
    × (t.timer_h ≡ armed 32000)
    × (t.timer_g ≡ (if is_reliable (codes "UDP") then invite_server.timer_g else armed 500))
    × (t.lost_timers_h ≡ 0)
    × (t.lost_timers_g ≡ 0)
unfolding is_reliable
response_written_example =
    InviteServer.Respond.response_written busy invite_server (refl, refl, λ h. cc) refl refl

failed_write_never_ends_example :
    let t = InviteServer.steps events (InviteServer.run_response false invite_server) in
    (t.state ≡ InviteServer.proceeding) × (t.done ≡ false) × (t.sent ≡ [])
failed_write_never_ends_example =
    InviteServer.Respond.failed_write_never_ends busy invite_server events (refl, refl, λ h. cc)
      refl refl

abbrev late_events : List NonInviteServer.Event
late_events = NonInviteServer.responded true busy ∷ NonInviteServer.response_taken true ∷ []

steps_keep_final_example :
    NonInviteServer.Respond.IsOver (NonInviteServer.steps late_events answered_server)
    × ((NonInviteServer.steps late_events answered_server).last_response ≡ some answer)
    × NonInviteServer.Respond.Resends
        (some answer)
        answered_server.sent
        (NonInviteServer.steps late_events answered_server).sent
steps_keep_final_example =
    NonInviteServer.Respond.steps_keep_final late_events answered_server (inl (refl, refl))

abbrev new_invite_server : InviteServer.InviteServerTx
new_invite_server = record invite_server {
  responses = none;
  requests = some invite;
  sent = response (build_response (pos 100) (codes "Trying") invite []) ∷ [];
}

abbrev new_request_server : NonInviteServer.NonInviteServerTx
new_request_server = record request_server { responses = none; requests = some invite }

-- ===== src/Tests/Clients.antt =====
-- The client transactions at concrete inputs.
use xylitol.Base.{◌*◌, ◌^◌, ◌≤◌, ◌<◌, ◌↔◌, List, [], ◌∷◌, true, false, length, inl, inr, ◌≡◌, refl}
use xylitol.Tx.Common.{is_reliable, armed}
use xylitol.Tx.InviteClient
use xylitol.Tx.NonInviteClient
use xylitol.Tests.Data.{invite_client, request_client, answer, busy}

abbrev answered_client : InviteClient.InviteClientTx
answered_client = record invite_client { state = InviteClient.terminated }

abbrev rejected_client : InviteClient.InviteClientTx
rejected_client = record invite_client { state = InviteClient.completed }

abbrev events : List InviteClient.Event
events = InviteClient.received true busy ∷ InviteClient.timer_b_fires ∷ []

failed_ack_never_ends_example :
    ((InviteClient.steps events (InviteClient.receive_response false busy invite_client)).state
      ≡ InviteClient.completed)
    × ((InviteClient.steps events (InviteClient.receive_response false busy invite_client)).done
        ≡ false)
failed_ack_never_ends_example =
    InviteClient.Failure.failed_ack_never_ends busy invite_client events refl refl (inr (inl refl))
      refl

success_leaves_done_open_example :
    ((InviteClient.steps events (InviteClient.receive_response true answer invite_client)).state
      ≡ InviteClient.terminated)
    × ((InviteClient.steps events (InviteClient.receive_response true answer invite_client)).done
        ≡ false)
success_leaves_done_open_example =
    InviteClient.Finish.success_leaves_done_open true answer invite_client events refl refl
      (inl refl) refl

invite_schedule_example :
    let t =
      InviteClient.steps
        (InviteClient.Schedule.retransmissions 6)
        (InviteClient.run true invite_client) in
    ((InviteClient.run true invite_client).timer_b ≡ armed 32000)
    × (t.state ≡ InviteClient.calling)
    × (length t.sent ≡ 7)
    × (t.timer_a ≡ armed (500 * 2 ^ 6))
    × (InviteClient.Schedule.elapsed 500 6 < 32000 ↔ 6 ≤ 6)
unfolding is_reliable
invite_schedule_example = InviteClient.Schedule.invite_schedule 6 invite_client refl refl refl refl

abbrev completed_client : NonInviteClient.NonInviteClientTx
completed_client = record request_client { state = NonInviteClient.completed }

request_schedule_example :
    let t =
      NonInviteClient.steps
        (NonInviteClient.Schedule.retransmissions 3)
        (NonInviteClient.run true request_client) in
    ((NonInviteClient.run true request_client).timer_f ≡ armed 32000)
    × (t.state ≡ NonInviteClient.trying)
    × (length t.sent ≡ 4)
    × (t.timer_e ≡ armed (NonInviteClient.Schedule.interval 3))
    × (NonInviteClient.Schedule.elapsed 3 < 32000 ↔ 3 ≤ 10)
unfolding is_reliable
request_schedule_example =
    NonInviteClient.Schedule.request_schedule 3 request_client refl refl refl refl

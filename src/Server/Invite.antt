-- ===== src/Server/Invite.antt =====
-- `handleInvite`: what becomes of an INVITE.
pub mod Bridge
pub mod Shrinks
use xylitol.Base.{
  ℕ, not, Bool, true, false, List, [], ◌∷◌, Option, none, some, if◌then◌else◌, Bytes, codes, equal,
  is_nil, ltb, pos, ℤ, Result, ok, err, panic,
}
use xylitol.Dict.{Dict, lookup, insert, delete}
use xylitol.Sip.Message.{SipRequest, SipResponse, get_header}
use xylitol.Sip.Uri.{SipUri, get_sip_uri_header}
use xylitol.Sip.Fields.{get_tag}
use xylitol.Sip.Build.{build_response}
use xylitol.Server.Contacts.{Registration, Registrations, contacts_or_nil}
use xylitol.Server.Registrar.{Registrar}
use xylitol.Server.State.{SipServer}
use xylitol.Server.Dispatch.{request_dialog_id}

pub data InviteAction : Type 0 where
  to_dialog : ℕ → InviteAction  -- a re-INVITE, given to its B2BUA
  responded : SipResponse → InviteAction
  guidance : Bytes → InviteAction  -- the guidance application, with an audio file
  bridged : Bytes → InviteAction  -- a B2BUA to this contact

-- The registrations that have not expired.
unfoldable pub active : ℕ → List Registration → List Registration
active now [] = []
active now (reg ∷ regs) =
    let rest = active now regs in if ltb now reg.expires_at then reg ∷ rest else rest

-- Expired contacts are dropped from the map when the user is called.
unfoldable pub prune : ℕ → Bytes → Registrations → Registrations
unfolding active lookup insert delete
prune now user registrations = elim (lookup user registrations) [
  | none ↦ registrations
  | some regs ↦
      if is_nil (active now regs)
      then delete user registrations
      else insert user (active now regs) registrations
]

-- The active contacts of a user.
unfoldable pub targets : ℕ → Bytes → Registrations → List Registration
unfolding active lookup
targets now user registrations = active now (contacts_or_nil (lookup user registrations))

first_target : SipRequest → List Registration → InviteAction
unfolding build_response
first_target req [] = responded (build_response (pos 480) (codes "Temporarily Unavailable") req [])
first_target req (reg ∷ regs) = bridged reg.contact_uri

-- A user of this realm.
unfoldable pub call_user : ℕ → SipRequest → Bytes → SipServer → SipServer × InviteAction
unfolding prune targets first_target
call_user now req user s = (
  record s {
    registrar = record s.registrar { registrations = prune now user s.registrar.registrations };
  },
  first_target req (targets now user s.registrar.registrations),
)

unfoldable pub initial_invite : ℕ → SipRequest → SipUri → SipServer → SipServer × InviteAction
unfolding call_user lookup equal build_response
initial_invite now req to s = elim (lookup to.user s.guidance_settings) [
  | some audio_file ↦ (s, guidance audio_file)
  | none ↦
      if not (equal to.host s.registrar.realm)
      then (s, responded (build_response (pos 404) (codes "Not Found") req []))
      else call_user now req to.user s
]

re_invite : SipRequest → SipServer → InviteAction
unfolding lookup request_dialog_id build_response
re_invite req s = elim (lookup (request_dialog_id req) s.dialogs) [
  | some b ↦ to_dialog b
  | none ↦ responded (build_response (pos 481) (codes "Call/Transaction Does Not Exist") req [])
]

unfoldable pub handle_invite : ℕ → SipRequest → SipServer → SipServer × InviteAction
unfolding re_invite initial_invite get_tag get_header get_sip_uri_header build_response
handle_invite now req s =
    if not (is_nil (get_tag (get_header (codes "To") req)))
    then (s, re_invite req s)
    else elim (get_sip_uri_header (codes "To") req) [
      | ok to ↦ initial_invite now req to s
      | _ ↦ (
        s,
        responded (
            build_response (pos 400) (codes "Bad Request") req
              ((codes "Warning", codes "Malformed To header") ∷ [])),
      )
    ]

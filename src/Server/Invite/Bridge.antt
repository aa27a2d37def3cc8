-- ===== src/Server/Invite/Bridge.antt =====
-- Whom `handleInvite` calls, and what it drops.
use xylitol.Base.{
  ℕ, ◌<◌, true, List, [], ◌∷◌, ◌++◌, ◌≤◌, none, ltb, Bytes, codes, equal_iff, equal_refl, is_nil,
  All, ok, ◌≡◌, ◌≢◌, refl, sym, ap, ◌∙◌, arith, inl, inr, Bool-cases, Option-cases, Result-cases,
}
use xylitol.Dict.{lookup, lookup-insert, lookup-delete}
use xylitol.Sip.Message.{SipRequest, get_header}
use xylitol.Sip.Uri.{SipUri, get_sip_uri_header}
use xylitol.Sip.Fields.{get_tag}
use xylitol.Server.Contacts.{contacts_or_nil, Registration, Registrations}
use xylitol.Server.State.{SipServer}
use xylitol.Server.Invite.{
  bridged, active, prune, targets, first_target, re_invite, call_user, initial_invite,
  handle_invite,
}

-- The first contact of the list that has not expired, with this address.
pub record FirstActive (now : ℕ) (regs : List Registration) (contact : Bytes) : Type 0 where
  pub expired : List Registration
  pub reg : Registration
  pub others : List Registration
  pub is_split : regs ≡ expired ++ reg ∷ others
  pub all_expired : All (λ r. r.expires_at ≤ now) expired
  pub is_active : now < reg.expires_at
  pub is_contact : reg.contact_uri ≡ contact

active-first :
    (now : ℕ) (regs : List Registration) (req : SipRequest) (contact : Bytes)
    → first_target req (active now regs) ≡ bridged contact
    → FirstActive now regs contact
unfolding active first_target
active-first now [] req contact h = cc
active-first now (reg ∷ regs) req contact h = elim (Bool-cases (ltb now reg.expires_at)) [
  | inl e ↦ record {
    expired = [];
    reg = reg;
    others = regs;
    is_split = refl;
    all_expired = tt;
    is_active = ground arith;
    is_contact = ground arith;
  }
  | inr e ↦
      let rest = active-first now regs req contact (ground arith) in
      record {
        expired = reg ∷ rest.expired;
        reg = rest.reg;
        others = rest.others;
        is_split = ap (λ l. reg ∷ l) rest.is_split;
        all_expired = (ground arith, rest.all_expired);
        is_active = rest.is_active;
        is_contact = rest.is_contact;
      }
]

is_nil→[] : (regs : List Registration) → is_nil regs ≡ true → regs ≡ []
is_nil→[] [] h = refl
is_nil→[] (x ∷ regs) h = cc

pub prune-active :
    (now : ℕ) (user : Bytes) (registrations : Registrations)
    → contacts_or_nil (lookup user (prune now user registrations)) ≡ targets now user registrations
unfolding prune targets
prune-active now user registrations = elim (Option-cases (lookup user registrations)) [
  | inl e ↦ ground arith
  | inr (regs, e) ↦ ground (
    arith,
    equal_refl user,
    is_nil→[] (active now regs),
    lookup-delete user user registrations,
    lookup-insert user user (active now regs) registrations,
  )
]

pub prune-other :
    (now : ℕ) (user other : Bytes) (registrations : Registrations)
    → user ≢ other
    → lookup other (prune now user registrations) ≡ lookup other registrations
unfolding prune
prune-other now user other registrations h = elim (Option-cases (lookup user registrations)) [
  | inl e ↦ ground arith
  | inr (regs, e) ↦ ground (
    arith,
    equal_iff user other,
    lookup-delete user other registrations,
    lookup-insert user other (active now regs) registrations,
  )
]

-- What holds where `handle_invite` sets up a call to `contact`: the To header names a user of the
-- realm, who is no guidance user, and has `contact` as the first contact that has not expired.
pub record Callee (now : ℕ) (req : SipRequest) (s s' : SipServer) (contact : Bytes) : Type 0 where
  pub to : SipUri
  pub is_to : get_sip_uri_header (codes "To") req ≡ ok to
  pub no_tag : get_tag (get_header (codes "To") req) ≡ []
  pub no_guidance : lookup to.user s.guidance_settings ≡ none
  pub is_local : to.host ≡ s.registrar.realm
  pub first : FirstActive now (contacts_or_nil (lookup to.user s.registrar.registrations)) contact
  pub pruned :
      contacts_or_nil (lookup to.user s'.registrar.registrations)
      ≡ targets now to.user s.registrar.registrations

is_nil-bytes : (b : Bytes) → is_nil b ≡ true → b ≡ []
is_nil-bytes [] h = refl
is_nil-bytes (x ∷ b) h = cc

initial_invite-bridged :
    (now : ℕ) (req : SipRequest) (to : SipUri) (s s' : SipServer) (contact : Bytes)
    → get_sip_uri_header (codes "To") req ≡ ok to
    → get_tag (get_header (codes "To") req) ≡ []
    → initial_invite now req to s ≡ (s', bridged contact)
    → Callee now req s s' contact
unfolding initial_invite call_user targets
initial_invite-bridged now req to s s' contact e t h =
    let target : first_target req (targets now to.user s.registrar.registrations)
        ≡ bridged contact =
      ground arith in
    let kept : prune now to.user s.registrar.registrations ≡ s'.registrar.registrations =
      ground arith in
    record {
      to = to;
      is_to = e;
      no_tag = t;
      no_guidance = ground arith;
      is_local = ground (arith, equal_iff to.host s.registrar.realm);
      first =
          active-first now (contacts_or_nil (lookup to.user s.registrar.registrations)) req contact
            target;
      pruned =
          ap (λ r. contacts_or_nil (lookup to.user r)) (sym kept)
          ∙ prune-active now to.user s.registrar.registrations;
    }

re_invite-bridged :
    (req : SipRequest) (s : SipServer) (contact : Bytes) → re_invite req s ≢ bridged contact
unfolding re_invite
re_invite-bridged req s contact h = ground arith

-- A call goes only to a user of the server's realm, without a guidance setting, on an INVITE
-- outside
-- any dialog, and to the first of the user's contacts that has not expired; what the server keeps
-- of
-- the user's contacts are then those that have not expired.
pub handle_invite-bridged :
    (now : ℕ) (req : SipRequest) (s s' : SipServer) (contact : Bytes)
    → handle_invite now req s ≡ (s', bridged contact)
    → Callee now req s s' contact
unfolding handle_invite
handle_invite-bridged now req s s' contact h =
    elim (Bool-cases (is_nil (get_tag (get_header (codes "To") req)))) [
      | inl t ↦ elim (Result-cases (get_sip_uri_header (codes "To") req)) [
        | inl (to, e) ↦
            initial_invite-bridged now req to s s' contact e
              (is_nil-bytes (get_tag (get_header (codes "To") req)) t) (ground arith)
        | inr (inl (_, e)) ↦ ground arith
        | inr (inr e) ↦ ground arith
      ]
      | inr t ↦ ground (arith, re_invite-bridged req s contact)
    ]

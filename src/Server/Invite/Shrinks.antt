-- ===== src/Server/Invite/Shrinks.antt =====
-- What `handleInvite` leaves of the registrations and of the transactions.
use mathlib.Core.List.{Sublist}
use mathlib.Core.List.Sublist
use xylitol.Base.{
  ℕ, not, Bool, true, false, List, [], ◌∷◌, ltb, if◌then◌else◌, Bytes, codes, equal, equal_iff,
  is_nil, ◌≡◌, refl, sym, subst, inl, inr, Bool-cases, Option-cases, Result-cases,
}
use xylitol.Dict.{lookup}
use xylitol.Sip.Message.{SipRequest, get_header}
use xylitol.Sip.Uri.{SipUri, get_sip_uri_header}
use xylitol.Sip.Fields.{get_tag}
use xylitol.Server.Contacts.{contacts_or_nil, Registration, Registrations}
use xylitol.Server.State.{SipServer}
use xylitol.Server.Invite.{
  InviteAction, active, prune, targets, call_user, initial_invite, handle_invite,
}
use xylitol.Server.Invite.Bridge.{prune-active, prune-other}

if-Sublist :
    (b : Bool) (reg : Registration) (rest regs : List Registration)
    → Sublist rest regs
    → Sublist (if b then reg ∷ rest else rest) (reg ∷ regs)
if-Sublist true reg rest regs h = Sublist.cons-cons reg h
if-Sublist false reg rest regs h = Sublist.cons reg h

active-Sublist : (now : ℕ) (regs : List Registration) → Sublist (active now regs) regs
unfolding active
active-Sublist now [] = Sublist.refl []
active-Sublist now (reg ∷ regs) =
    if-Sublist (ltb now reg.expires_at) reg (active now regs) regs (active-Sublist now regs)

-- No user has a binding in `after` that was not there before.
abbrev pub Shrinks : Registrations → Registrations → Type 0
Shrinks before after =
    (user : Bytes)
    → Sublist (contacts_or_nil (lookup user after)) (contacts_or_nil (lookup user before))

pub Shrinks-refl : (registrations : Registrations) → Shrinks registrations registrations
Shrinks-refl registrations user = Sublist.refl (contacts_or_nil (lookup user registrations))

prune-Shrinks :
    (now : ℕ) (user : Bytes) (registrations : Registrations)
    → Shrinks registrations (prune now user registrations)
unfolding targets
prune-Shrinks now user registrations other = elim (Bool-cases (equal user other)) [
  | inl same ↦
      let e : user ≡ other = (equal_iff user other).0 same in
      subst
        (λ o.
          Sublist (contacts_or_nil (lookup o (prune now user registrations)))
            (contacts_or_nil (lookup o registrations)))
        e
        (subst (λ l. Sublist l (contacts_or_nil (lookup user registrations)))
          (sym (prune-active now user registrations))
          (active-Sublist now (contacts_or_nil (lookup user registrations))))
  | inr different ↦
      subst (λ o. Sublist (contacts_or_nil o) (contacts_or_nil (lookup other registrations)))
        (sym (
          prune-other now user other registrations
            (λ e. cc (different, (equal_iff user other).1 e))))
        (Sublist.refl (contacts_or_nil (lookup other registrations)))
]

-- `s'` has the transactions and the nonces of `s`, and no binding that `s` has not.
pub record Keeps (s s' : SipServer) : Type 0 where
  pub same_transactions : s'.transactions ≡ s.transactions
  pub same_nonces : s'.registrar.nonces ≡ s.registrar.nonces
  pub shrinks : Shrinks s.registrar.registrations s'.registrar.registrations

Keeps-refl : (s : SipServer) → Keeps s s
Keeps-refl s = record {
  same_transactions = refl;
  same_nonces = refl;
  shrinks = Shrinks-refl s.registrar.registrations;
}

if-Keeps :
    (s : SipServer) (b : Bool) (x y : SipServer × InviteAction)
    → Keeps s x.0
    → Keeps s y.0
    → Keeps s (if b then x else y).0
if-Keeps s true x y hx hy = hx
if-Keeps s false x y hx hy = hy

call_user-Keeps :
    (now : ℕ) (req : SipRequest) (user : Bytes) (s : SipServer)
    → Keeps s (call_user now req user s).0
unfolding call_user
call_user-Keeps now req user s = record {
  same_transactions = refl;
  same_nonces = refl;
  shrinks = prune-Shrinks now user s.registrar.registrations;
}

initial_invite-Keeps :
    (now : ℕ) (req : SipRequest) (to : SipUri) (s : SipServer)
    → Keeps s (initial_invite now req to s).0
unfolding initial_invite
initial_invite-Keeps now req to s = elim (Option-cases (lookup to.user s.guidance_settings)) [
  | inl e ↦
      rw (e, initial_invite)
        (if-Keeps s (not (equal to.host s.registrar.realm)) _ _ (Keeps-refl s)
          (call_user-Keeps now req to.user s))
  | inr (file, e) ↦ rw (e, initial_invite) (Keeps-refl s)
]

pub handle_invite-Keeps :
    (now : ℕ) (req : SipRequest) (s : SipServer) → Keeps s (handle_invite now req s).0
unfolding handle_invite
handle_invite-Keeps now req s = elim (Bool-cases (is_nil (get_tag (get_header (codes "To") req)))) [
  | inl t ↦ elim (Result-cases (get_sip_uri_header (codes "To") req)) [
    | inl (to, e) ↦ rw (t, e, handle_invite) (initial_invite-Keeps now req to s)
    | inr (inl (_, e)) ↦ rw (t, e, handle_invite) (Keeps-refl s)
    | inr (inr e) ↦ rw (t, e, handle_invite) (Keeps-refl s)
  ]
  | inr t ↦ rw (t, handle_invite) (Keeps-refl s)
]

-- ===== src/Server/Calls/Listing.antt =====
-- Each call is listed once, and found by its Call-ID.
use xylitol.Base.{
  ℕ, true, false, [], ◌∷◌, ◌++◌, Option, none, some, Bytes, equal, equal_iff, equal_refl, is_nil,
  All, ◌≡◌, refl, ap, arith, inl, inr, Bool-cases, Option-cases, append-nil,
}
use xylitol.Dict.{Dict, lookup, insert, insert-append, lookup-insert}
use xylitol.Sip.Message.{SipRequest}
use xylitol.Server.Calls.{
  CallView, session_info, listed, get_active_sessions, has_call_id, find_call,
}

get_active_sessions-append :
    (now : ℕ) (calls : ℕ → CallView) (xs ys : Dict ℕ)
    → get_active_sessions now calls (xs ++ ys)
      ≡ get_active_sessions now calls xs ++ get_active_sessions now calls ys
unfolding get_active_sessions
get_active_sessions-append now calls [] ys = refl
get_active_sessions-append now calls ((k, b) ∷ xs) ys =
    elim (Option-cases (listed now k (calls b))) [
      | inl e ↦ rw (e, get_active_sessions-append now calls xs ys)
      | inr (info, e) ↦ rw (e, get_active_sessions-append now calls xs ys)
    ]

equal-false_sym : (a b : Bytes) → equal a b ≡ false → equal b a ≡ false
equal-false_sym a b h = ground (arith, equal_iff a b, equal_iff b a)

listed_under_uas :
    (now : ℕ) (key : Bytes) (req : SipRequest) (call : CallView)
    → is_nil key ≡ false
    → call.uas_dialog_id ≡ key
    → call.original_request ≡ some req
    → listed now key call ≡ some (session_info now req call)
unfolding listed
listed_under_uas now key req call given uas r = rw (r, uas, given, equal_refl key)

not_listed_elsewhere :
    (now : ℕ) (key : Bytes) (call : CallView)
    → equal key call.uas_dialog_id ≡ false
    → listed now key call ≡ none
unfolding listed
not_listed_elsewhere now key call h = ground arith

-- A call whose two dialogs are new is listed exactly once, after the calls that were there, with
-- the
-- headers of its INVITE.
pub established_call_listed_once :
    (now : ℕ) (calls : ℕ → CallView) (uas_id uac_id : Bytes) (b : ℕ) (req : SipRequest)
    (dialogs : Dict ℕ)
    → lookup uas_id dialogs ≡ none
    → lookup uac_id dialogs ≡ none
    → equal uas_id uac_id ≡ false
    → is_nil uas_id ≡ false
    → (calls b).uas_dialog_id ≡ uas_id
    → (calls b).original_request ≡ some req
    → get_active_sessions now calls (insert uac_id b (insert uas_id b dialogs))
      ≡ get_active_sessions now calls dialogs ++ session_info now req (calls b) ∷ []
unfolding get_active_sessions
established_call_listed_once now calls uas_id uac_id b req dialogs h k other given uas r =
    let later : lookup uac_id (insert uas_id b dialogs) ≡ none =
      ground (arith, lookup-insert uas_id uac_id b dialogs) in
    let first : listed now uas_id (calls b) ≡ some (session_info now req (calls b)) =
      listed_under_uas now uas_id req (calls b) given uas r in
    let second : listed now uac_id (calls b) ≡ none =
      not_listed_elsewhere now uac_id (calls b) (rw uas (equal-false_sym uas_id uac_id other)) in
    rw (
      insert-append uac_id b (insert uas_id b dialogs) later,
      insert-append uas_id b dialogs h,
      get_active_sessions-append,
      get_active_sessions-append,
      first,
      second,
      append-nil,
    )

-- What `DisconnectSession` finds: a call of the server with this Call-ID, or, where it finds none,
-- no call of the server has it.
abbrev pub FoundCall : Bytes → (ℕ → CallView) → Dict ℕ → Option ℕ → Type 0
FoundCall call_id calls dialogs none =
    All (λ entry. has_call_id call_id (calls entry.1).original_request ≡ false) dialogs
FoundCall call_id calls dialogs (some b) =
    (key : Bytes) × (before : Dict ℕ) × (after : Dict ℕ) × (dialogs ≡ before ++ (key, b) ∷ after)
    × (has_call_id call_id (calls b).original_request ≡ true)

FoundCall-cons :
    (call_id : Bytes) (calls : ℕ → CallView) (entry : Bytes × ℕ) (dialogs : Dict ℕ) (o : Option ℕ)
    → has_call_id call_id (calls entry.1).original_request ≡ false
    → FoundCall call_id calls dialogs o
    → FoundCall call_id calls (entry ∷ dialogs) o
FoundCall-cons call_id calls entry dialogs none h found = (h, found)
FoundCall-cons call_id calls entry dialogs (some b) h (key, before, after, e, has) =
    (key, entry ∷ before, after, ap (λ d. entry ∷ d) e, has)

-- `DisconnectSession` picks a call of the server with the Call-ID, and finds none only where no
-- call
-- of the server has it.
pub find_call_lem :
    (call_id : Bytes) (calls : ℕ → CallView) (dialogs : Dict ℕ)
    → FoundCall call_id calls dialogs (find_call call_id calls dialogs)
unfolding find_call
find_call_lem call_id calls [] = tt
find_call_lem call_id calls ((key, b) ∷ dialogs) =
    elim (Bool-cases (has_call_id call_id (calls b).original_request)) [
      | inl e ↦ rw (e, find_call) (key, [], dialogs, refl, e)
      | inr e ↦
          rw (e, find_call)
            (FoundCall-cons call_id calls (key, b) dialogs (find_call call_id calls dialogs) e
              (find_call_lem call_id calls dialogs))
    ]

-- ===== src/Server/Dispatch/Sound.antt =====
-- The transactions of the manager: each valid, and under its own branch.
use xylitol.Base.{
  ap, true, false, none, equal, if◌then◌else◌, Bool, Option, some, Bytes, equal_iff, ◌≡◌, sym,
  subst, ◌∙◌, inl, inr, arith, Bool-cases,
}
use xylitol.Dict.{lookup, insert, delete, lookup-insert, lookup-delete}
use xylitol.Server.State.{Transaction, Transactions, SipServer}
use xylitol.Server.Dispatch.Valid.{IsEntry}

inserted-same :
    (tx t : Transaction) (o : Option Transaction) (same : Bool)
    → same ≡ true
    → (if same then some tx else o) ≡ some t
    → tx ≡ t
inserted-same tx t o same h there = ground arith

inserted-other :
    (tx t : Transaction) (o : Option Transaction) (same : Bool)
    → same ≡ false
    → (if same then some tx else o) ≡ some t
    → o ≡ some t
inserted-other tx t o same h there = ground arith

deleted-other :
    (t : Transaction) (o : Option Transaction) (same : Bool)
    → (if same then none else o) ≡ some t
    → o ≡ some t
deleted-other t o same there = ground arith

-- Every transaction is stored under its own branch, and is valid.
pub record IsSound (d : Transactions) : Type 0 where
  pub entry : (key : Bytes) (tx : Transaction) → lookup key d ≡ some tx → IsEntry key tx

IsEntry-insert :
    (key : Bytes) (tx : Transaction) (d : Transactions)
    → IsEntry key tx
    → IsSound d
    → (k : Bytes) (t : Transaction) → lookup k (insert key tx d) ≡ some t
    → IsEntry k t
IsEntry-insert key tx d e h k t there = elim (Bool-cases (equal key k)) [
  | inl same ↦
      let is_tx : tx ≡ t =
        inserted-same tx t (lookup k d) (equal key k) same
          (sym (lookup-insert key k tx d) ∙ there) in
      subst (IsEntry k) is_tx (subst (λ x. IsEntry x tx) ((equal_iff key k).0 same) e)
  | inr other ↦ h.entry k t (
      inserted-other tx t (lookup k d) (equal key k) other (sym (lookup-insert key k tx d) ∙ there))
]

pub IsSound-insert :
    (key : Bytes) (tx : Transaction) (d : Transactions)
    → IsEntry key tx
    → IsSound d
    → IsSound (insert key tx d)
IsSound-insert key tx d e h = record { entry = λ k t there. IsEntry-insert key tx d e h k t there }

pub IsSound-delete : (key : Bytes) (d : Transactions) → IsSound d → IsSound (delete key d)
IsSound-delete key d h = record {
  entry = λ k t there.
      h.entry k t
        (deleted-other t (lookup k d) (equal key k) (sym (lookup-delete key k d) ∙ there));
}

-- The transactions of `s` are sound, and it is `s0` but for them; `s0` stands for the server
-- before a step.
pub record Follows (s0 s : SipServer) : Type 0 where
  pub sound : IsSound s.transactions
  pub only : s ≡ record s0 { transactions = s.transactions }

pub Follows-insert :
    {s0 : SipServer} (key : Bytes) (tx : Transaction) (s : SipServer)
    → IsEntry key tx
    → Follows s0 s
    → Follows s0 (record s { transactions = insert key tx s.transactions })
Follows-insert key tx s e h = record {
  sound = IsSound-insert key tx s.transactions e h.sound;
  only =
      ap {A = SipServer} {B = SipServer}
        (λ x. record x { transactions = insert key tx s.transactions }) h.only;
}

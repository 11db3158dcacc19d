-- ===== src/State/Transition/Apply.antt =====
-- `Apply`: which transactions it runs, and what it leaves of one that it refuses.
use dogesyncer.Prelude.{
  ℕ, ◌+◌, ◌^◌, ◌<◌, ◌≡◌, ◌↔◌, refl, sym, ap, ◌∙◌, Bool, true, false, ◌⊎◌, inl, inr,
}
use dogesyncer.Runtime.{ExecutionResult}
use dogesyncer.State.Txn.{Txn, snapshot, get_state_object, get_balance}
use dogesyncer.State.Txn.Accounts.{get_nonce}
use dogesyncer.State.Call.Snapshots.{Grows-same, revert-taken}
use dogesyncer.State.Transition.{
  Message, Transition, Outcome, done, refused, ApplicationError, execute, undo, apply,
  apply_message,
}
use dogesyncer.State.Transition.Admission.{IsAdmissible, IsRefused, decide}

abbrev pub is_done : {A : Type 0} → Outcome A → Bool
is_done (done a) = true
is_done (refused x) = false

abbrev pub with_snapshot : Transition → Transition
with_snapshot t = record t { state = (snapshot t.state).1 }

module _ (msg : Message) (t : Transition) where
  pub is_done-undo :
      (id : ℕ) (r : Outcome ExecutionResult × Transition) → is_done (undo id r).0 ≡ is_done r.0
  unfolding undo
  is_done-undo id (done a, u) = refl
  is_done-undo id (refused x, u) = refl

  is_done-execute : (gas : ℕ) (u : Transition) → is_done (execute msg gas u).0 ≡ true
  unfolding execute
  is_done-execute gas u = refl

  -- The snapshot changes nothing that the checks read.
  IsAdmissible-snapshot : IsAdmissible msg (with_snapshot t) ↔ IsAdmissible msg t
  unfolding snapshot get_nonce get_balance get_state_object
  IsAdmissible-snapshot = (
    λ a. record {
      room = a.room;
      next = a.next;
      affordable = a.affordable;
      fits = a.fits;
      covered = a.covered;
    },
    λ a. record {
      room = a.room;
      next = a.next;
      affordable = a.affordable;
      fits = a.fits;
      covered = a.covered;
    },
  )

-- What a transaction that is refused leaves. Its gas may have been taken from the pool.
pub record IsUndone (msg : Message) (t u : Transition) : Type 0 where
  pub tree : u.state.tree ≡ t.state.tree
  pub receipts : u.receipts ≡ t.receipts
  pub total_gas : u.total_gas ≡ t.total_gas
  pub setting : u.setting ≡ t.setting
  pub gas_pool : (u.gas_pool ≡ t.gas_pool) ⊎ (u.gas_pool + msg.gas ≡ t.gas_pool)

module _ (msg : Message) (g : msg.gas < 2 ^ 64) (t : Transition) where
  -- Apply runs exactly the transactions that have a block gas of at least 21000 and of at least their
  -- gas, the next nonce of the sender, a balance for their gas at their price together with their
  -- value, and gas for the intrinsic cost, for transactions whose gas is a uint64.
  pub apply_message-IsAdmissible : is_done (apply_message msg t).0 ≡ true ↔ IsAdmissible msg t
  unfolding apply_message
  apply_message-IsAdmissible =
      let r = apply msg (with_snapshot t) in
      let same = is_done-undo msg t (snapshot t.state).0 r in
      elim (decide msg g (with_snapshot t)) [
        | inl charged ↦ (
          λ _. (IsAdmissible-snapshot msg t).0 charged.admissible,
          λ _. same ∙ ap (λ x. is_done x.0) charged.runs ∙ is_done-execute msg t _ _,
        )
        | inr (not_admissible, refusal) ↦ (
          λ ran. absurd (refused_done (sym (ap is_done refusal.says) ∙ sym same ∙ ran)),
          λ a. absurd (not_admissible ((IsAdmissible-snapshot msg t).1 a)),
        )
      ]
    where
      refused_done : false ≡ true → ⊥
      refused_done h = cc

  undo-IsUndone :
      (r : Outcome ExecutionResult × Transition)
      → IsRefused msg (with_snapshot t) r
      → IsUndone msg t (undo (snapshot t.state).0 r).1
  unfolding undo
  undo-IsUndone (done a, u) f = absurd (ap_done f.says)
    where
      ap_done : {x : ApplicationError} → done a ≡ refused x → ⊥
      ap_done h = cc
  undo-IsUndone (refused x, u) f = record {
    tree =
        ap (λ (v : Txn). v.tree)
          (revert-taken t.state u.state (Grows-same (snapshot t.state).1 u.state f.snapshots));
    receipts = f.receipts;
    total_gas = f.total_gas;
    setting = f.setting;
    gas_pool = f.gas_pool;
  }

  -- Where Apply refuses a transaction, whose gas is a uint64, the accounts, the refund and the logs are
  -- those from before it, with the receipts, the total gas and the settings, and the gas pool is as
  -- before or lacks the gas of the transaction.
  pub apply_message-IsUndone :
      is_done (apply_message msg t).0 ≡ false → IsUndone msg t (apply_message msg t).1
  unfolding apply_message
  apply_message-IsUndone bad =
      let r = apply msg (with_snapshot t) in
      let same = is_done-undo msg t (snapshot t.state).0 r in
      elim (decide msg g (with_snapshot t)) [
        | inl charged ↦
            let ran = same ∙ ap (λ x. is_done x.0) charged.runs ∙ is_done-execute msg t _ _ in cc
        | inr (not_admissible, refusal) ↦ undo-IsUndone r refusal
      ]

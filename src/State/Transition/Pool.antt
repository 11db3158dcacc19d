-- ===== src/State/Transition/Pool.antt =====
-- The gas of a transaction: what `Apply` takes from the pool of the block.
use dogesyncer.Prelude.{
  ℕ, ◌+◌, ◌-◌, ◌*◌, ◌%◌, ◌^◌, ◌≤◌, ◌<◌, ◌≡◌, refl, sym, ap, ◌∙◌, true, Option, none, some, inl, inr,
  arith, subst,
}
use dogesyncer.Runtime.{
  ExecutionResult, TxContext, update_gas_used, new_contract, new_contract_creation,
  new_contract_call,
}
use dogesyncer.State.Gas.Refund.{update_gas_used-conserves}
use dogesyncer.State.Txn.{Txn, snapshot, get_refund}
use dogesyncer.State.Txn.Accounts.{get_nonce, get_code, incr_nonce}
use dogesyncer.State.Call.{Setting, host, create2, call2}
use dogesyncer.State.Call.Gas.{AllSound, apply_call-gas_le, apply_create-gas_le, host-Frugal}
use dogesyncer.State.Transition.{
  Message, Transition, Outcome, done, refused, run_message, execute, settle_fees, add_gas_pool,
  undo, apply, apply_message,
}
use dogesyncer.State.Transition.Admission.{intrinsic_gas, decide}
use dogesyncer.State.Transition.Apply.{is_done, is_done-undo, with_snapshot}

-- What a transaction that is run takes from the pool.
pub record IsMetered (msg : Message) (t : Transition) (r : Outcome ExecutionResult × Transition)
    : Type 0 where
  pub result : ExecutionResult
  pub says : r.0 ≡ done result
  pub gas_pool : r.1.gas_pool + result.gas_used ≡ t.gas_pool
  pub at_most : result.gas_used ≤ msg.gas
  pub at_least : intrinsic_gas msg t ≤ 2 * result.gas_used
  pub receipts : r.1.receipts ≡ t.receipts
  pub total_gas : r.1.total_gas ≡ t.total_gas
  pub setting : r.1.setting ≡ t.setting

module _ (s : Setting) (sound : AllSound s.runtimes) (fork : s.config.eip150 ≡ true) where
  run_message-gas_le :
      (ctx : TxContext) (msg : Message) (gas : ℕ) (to : Option ℕ) (t : Txn)
      → gas < 2 ^ 64
      → (run_message s ctx msg gas to t).0.gas_left ≤ gas
  unfolding run_message create2 call2 new_contract_creation new_contract_call new_contract
  run_message-gas_le ctx msg gas none t g =
      apply_create-gas_le s sound fork (host s ctx) (host-Frugal s sound fork ctx)
        (new_contract_creation 1 msg.from msg.from
          (s.create_address msg.from (get_nonce s.committed t msg.from)) (some msg.value) gas
          msg.input)
        g t
  run_message-gas_le ctx msg gas (some to) t g =
      let counted = incr_nonce s.committed msg.from t in
      apply_call-gas_le s sound fork (host s ctx) (host-Frugal s sound fork ctx)
        (new_contract_call 1 msg.from msg.from to (some msg.value) gas
          (get_code s.committed counted to) msg.input)
        g counted

module _ (msg : Message) (t : Transition) (sound : AllSound t.setting.runtimes)
    (fork : t.setting.config.eip150 ≡ true) (g : msg.gas < 2 ^ 64)
    (bound : t.gas_pool < 2 ^ 64) where
  execute-IsMetered :
      (paid : Txn)
      → intrinsic_gas msg t ≤ msg.gas
      → msg.gas ≤ t.gas_pool
      → IsMetered msg t (
          execute msg
            (msg.gas - intrinsic_gas msg t)
            (record t { state = paid; gas_pool = t.gas_pool - msg.gas }))
  unfolding execute settle_fees add_gas_pool
  execute-IsMetered paid covered fits =
      let gas = msg.gas - intrinsic_gas msg t in
      let ctx = record t.ctx { gas_price = msg.gas_price % 2 ^ 256; origin = msg.from } in
      let ran = run_message t.setting ctx msg gas msg.to paid in
      let le = run_message-gas_le t.setting sound fork ctx msg gas msg.to paid (omega arith) in
      let (sum, more, half) =
        update_gas_used-conserves ran.0 msg.gas (get_refund ran.1) (omega arith) g in
      record {
        result = update_gas_used ran.0 msg.gas (get_refund ran.1);
        says = refl;
        gas_pool = omega arith;
        at_most = omega arith;
        at_least = omega arith;
        receipts = refl;
        total_gas = refl;
        setting = refl;
      }

  undo-IsMetered :
      (id : ℕ) (r : Outcome ExecutionResult × Transition)
      → IsMetered msg t r
      → IsMetered msg t (undo id r)
  unfolding undo
  undo-IsMetered id (done a, u) m = m
  undo-IsMetered id (refused x, u) m = absurd (clash m.says)
    where
      clash : {a : ExecutionResult} → refused x ≡ done a → ⊥
      clash h = cc

  -- From EIP-150 on, with sound runtimes and with gas and a pool that are uint64, a transaction that
  -- Apply runs takes from the pool the gas that its result says it used, which is at most its gas and
  -- at least half of its intrinsic cost, and leaves the receipts, the total gas and the settings.
  pub apply_message-IsMetered :
      is_done (apply_message msg t).0 ≡ true → IsMetered msg t (apply_message msg t)
  unfolding apply_message
  apply_message-IsMetered ran =
      let r = apply msg (with_snapshot t) in
      let same = is_done-undo msg t (snapshot t.state).0 r in
      elim (decide msg g (with_snapshot t)) [
        | inl charged ↦ undo-IsMetered (snapshot t.state).0 r (
            subst (IsMetered msg t) (sym charged.runs)
              (execute-IsMetered charged.paid charged.admissible.covered charged.admissible.fits))
        | inr (not_admissible, refusal) ↦ let bad = same ∙ ap is_done refusal.says in cc
      ]

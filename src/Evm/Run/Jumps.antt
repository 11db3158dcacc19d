-- ===== src/Evm/Run/Jumps.antt =====
-- Jumps: at every point of a run the jump destinations that the machine accepts are those of the
-- code that it was started with.
use dogesyncer.Prelude.{
  ℕ, ◌^◌, ◌<◌, ◌≡◌, ◌↔◌, refl, Bool, true, false, Option, none, some, arith, get_or, ◌∙◌,
}
use dogesyncer.Runtime.{CallType, Contract}
use dogesyncer.Evm.State.{State, Env, Act, halt, set_world, add_gas}
use dogesyncer.Evm.State.Keeps.{Keeps, Passive, keeps_rules, Keeps-get2, Keeps-exit}
use dogesyncer.Evm.Bitmap.Jumpdest.{IsJumpdest, set_code_iff}
use dogesyncer.Evm.Ops.Passive.{
  Keeps-pop_topics, Keeps-pop_salt, Keeps-peek_at, Keeps-build_call_contract, Keeps-charge_create,
}
use dogesyncer.Evm.Ops.Storage.{set_storage, store_word, op_sstore, op_self_destruct}
use dogesyncer.Evm.Ops.Flow.{write_log, op_log, valid_jumpdest}
use dogesyncer.Evm.Ops.Create.{make_create, run_create, op_create}
use dogesyncer.Evm.Ops.Call.{Built, callx, make_call, finish_call, run_call, op_call}
use dogesyncer.Evm.Dispatch.{Handler, dispatch}
use dogesyncer.Evm.Dispatch.All.{All-find}
use dogesyncer.Evm.Dispatch.Keeps.{Kept-dispatch_table}
use dogesyncer.Evm.Run.{attempt, advance, run_handler, step, start}

record SameCode {W : Type 0} (s : State W) (early : Bool) (t : State W) : Type 0 where
  code : t.code ≡ s.code
  bitmap : t.bitmap ≡ s.bitmap

SameCode-rfl :
    {W : Type 0} {b : Bool} (s t : State W) → t.code ≡ s.code → t.bitmap ≡ s.bitmap → SameCode s b t
SameCode-rfl s t h k = record { code = h; bitmap = k }

SameCode-Passive : {W : Type 0} → Passive (SameCode {W = W})
SameCode-Passive = record {
  rfl = λ s. SameCode-rfl s _ refl refl;
  trans = λ s t u b h k. SameCode-rfl s u (k.code ∙ h.code) (k.bitmap ∙ h.bitmap);
  on_exit = λ x s. SameCode-rfl s _ refl refl;
  on_halt = λ s. SameCode-rfl s _ refl refl;
  on_stack = λ v s. SameCode-rfl s _ refl refl;
  on_gas = λ c s _. SameCode-rfl s _ refl refl;
  on_ip = λ i s. SameCode-rfl s _ refl refl;
  on_return_data = λ v s. SameCode-rfl s _ refl refl;
  on_ret = λ v s. SameCode-rfl s _ refl refl;
  on_last_gas_cost = λ c s. SameCode-rfl s _ refl refl;
  on_memory = λ m c s. SameCode-rfl s _ refl refl;
}

module _ {W : Type 0} (e : Env W) where
  world_kept : (w : W) → Keeps SameCode (set_world w)
  unfolding set_world
  world_kept w = record { at = λ s. SameCode-rfl s _ refl refl }

  add_gas_kept : (n : ℕ) → Keeps SameCode (add_gas {W = W} n)
  unfolding add_gas
  add_gas_kept n = record { at = λ s. SameCode-rfl s _ refl refl }

  set_storage_kept : (k v : ℕ) → Keeps SameCode (set_storage e k v)
  unfolding set_storage
  set_storage_kept k v = record { at = λ s. SameCode-rfl s _ refl refl }

  callx_kept : (c : Contract) → Keeps SameCode (callx e c)
  unfolding callx
  callx_kept c = record { at = λ s. SameCode-rfl s _ refl refl }

  ruleset open_rules = (
    keeps_rules, SameCode-Passive, world_kept, add_gas_kept, set_storage_kept, callx_kept,
    Keeps-get2, Keeps-pop_topics, Keeps-pop_salt, Keeps-peek_at, Keeps-build_call_contract,
    Keeps-charge_create,
  )

  sstore_kept : Keeps SameCode (op_sstore e)
  unfolding op_sstore store_word
  sstore_kept = search open_rules depth 12

  self_destruct_kept : Keeps SameCode (op_self_destruct e)
  unfolding op_self_destruct
  self_destruct_kept = search open_rules depth 12

  log_kept : (n : ℕ) → Keeps SameCode (op_log e n)
  unfolding op_log write_log
  log_kept n = search open_rules depth 14

  make_create_kept : (typ : CallType) (c : Contract) → Keeps SameCode (make_create e typ c)
  unfolding make_create
  make_create_kept typ c = search open_rules depth 12

  create_kept : (typ : CallType) → Keeps SameCode (op_create e typ)
  unfolding op_create run_create
  create_kept typ = search (open_rules, make_create_kept) depth 16

  finish_call_kept : (b : Built) → Keeps SameCode (finish_call e b)
  unfolding finish_call make_call
  finish_call_kept b = search open_rules depth 12

  run_call_kept : (typ : CallType) → Keeps SameCode (run_call e typ)
  unfolding run_call
  run_call_kept typ = search (open_rules, finish_call_kept) depth 12

  call_kept : (typ : CallType) → Keeps SameCode (op_call e typ)
  unfolding op_call
  call_kept typ = search (open_rules, run_call_kept) depth 12

  dispatch_kept : (op : ℕ) (h : Handler W) → dispatch e op ≡ some h → Keeps SameCode h.inst
  unfolding dispatch
  dispatch_kept op h =
      All-find (λ k. Keeps SameCode k.inst) op h
        (Kept-dispatch_table SameCode-Passive e log_kept sstore_kept self_destruct_kept create_kept
          (λ typ _. call_kept typ))

  attempt_kept : (m : Act W Unit) → Keeps SameCode m → Keeps SameCode (attempt m)
  unfolding attempt
  attempt_kept m k = record { at = λ s. SameCode-rfl s _ (k.at s).code (k.at s).bitmap }

  advance_kept : Keeps SameCode (advance {W = W})
  unfolding advance
  advance_kept = record { at = λ s. SameCode-rfl s _ refl refl }

  run_handler_kept : (h : Handler W) → Keeps SameCode h.inst → Keeps SameCode (run_handler (some h))
  unfolding run_handler
  run_handler_kept h k = search (keeps_rules, SameCode-Passive, attempt_kept, advance_kept) depth 8

  handler_kept :
      (op : ℕ) (o : Option (Handler W)) → dispatch e op ≡ o → Keeps SameCode (run_handler o)
  handler_kept op none h = unfold run_handler in Keeps-exit SameCode-Passive _
  handler_kept op (some k) h = run_handler_kept k (dispatch_kept op k h)

  step_kept : (s : State W) → SameCode s false (step e s).1
  unfolding step halt
  step_kept s =
      let k = (handler_kept (get_or s.code s.ip 0) _ refl).at s in
      record { code = ground (arith, k.code); bitmap = ground (arith, k.bitmap) }

-- The states that a run goes through, one round of the loop after another.
pub data Reach {W : Type 0} (e : Env W) (s : State W) : State W → Type 0 where
  here : Reach e s s
  round : {t : State W} → Reach e s t → t.stop ≡ false → Reach e s (step e t).1

module _ {W : Type 0} (e : Env W) where
  Reach-SameCode : {s t : State W} → Reach e s t → SameCode s false t
  Reach-SameCode {s} here = SameCode-rfl s s refl refl
  Reach-SameCode {s} (round {t = t} r h) =
      SameCode-Passive.trans s t _ false (Reach-SameCode r) (step_kept e t)

  -- At every point of a run of `EVM.Run` the machine takes a word for a jump destination exactly
  -- if it is below 2^62 and the place of a JUMPDEST instruction of the contract's code, so never
  -- for a byte of the data of a PUSH.
  pub valid_jumpdest_iff :
      (w : W) (cap dest : ℕ) (s : State W)
      → Reach e (start e.msg w cap) s
      → (valid_jumpdest dest s ≡ true) ↔ ((dest < 2 ^ 62) × IsJumpdest e.msg.code dest)
  unfolding start valid_jumpdest
  valid_jumpdest_iff w cap dest s r =
      let k = Reach-SameCode r in
      rw (k.code, k.bitmap)
        (
          (λ v. (ground arith, (set_code_iff e.msg.code dest).0 (ground arith))),
          λ d. ground (arith, (set_code_iff e.msg.code dest).1 d.1, d.1.inside),
        )

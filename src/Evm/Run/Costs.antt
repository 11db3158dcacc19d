-- ===== src/Evm/Run/Costs.antt =====
-- Gas: the instructions without a fixed fee, and both create instructions, cost gas or end the run.
use dogesyncer.Prelude.{
  ℕ, ◌^◌, ◌<◌, ◌≡◌, refl, Bool, true, false, List, arith, leb, if◌then◌else◌, ◌⊎◌, inl, inr,
}
use dogesyncer.Runtime.{CallType, Contract, StorageStatus, unchanged, Error}
use dogesyncer.Evm.State.{
  State, Env, Act, Outcome, next, returned, panicked, continue, ◌>>=◌, push, add_gas,
  set_return_data, gets, pure, done, consume_gas, exit, halt,
}
use dogesyncer.Evm.State.Keeps.{
  Keeps, Passive, is_early, keeps_rules, Keeps-pop, Keeps-get2, Keeps-extend_memory, Keeps-bind,
  Keeps-if,
}
use dogesyncer.Evm.Ops.Passive.{
  Keeps-pop_salt, Keeps-peek_at, Keeps-copy_to_memory, Keeps-build_call_contract,
  Keeps-charge_create,
}
use dogesyncer.Evm.Ops.Call.{callx, finish_call, build_call_contract, run_call, op_call}
use dogesyncer.Evm.Ops.Create.{charge_create, make_create, run_create, op_create, create_gas}
use dogesyncer.Evm.Ops.Context.{op_balance, op_ext_code_size, op_ext_code_hash}
use dogesyncer.Evm.Ops.Data.{op_ext_code_copy}
use dogesyncer.Evm.Ops.Storage.{op_sload, store_cost, store_word, op_sstore, op_self_destruct}
use dogesyncer.Evm.Ops.Flow.{op_stop, op_halt}
use dogesyncer.Evm.Run.Spends.{Spend, Spend-Passive, Spend-set_world, Spend-set_storage}
use dogesyncer.Evm.Run.Calls.{
  Frugal, Costs, Pays, Refunds, paid_call, Pays-build_call_contract, Refunds-finish_call,
}

module _ {W A B : Type 0} where
  costs_first :
      (r : Outcome A) (f : A → Act W B) (s t : State W)
      → s.gas < 2 ^ 64
      → (r ≡ panicked) ⊎ (t.stop ≡ true) ⊎ (t.gas < s.gas)
      → Spend s (is_early r) t
      → ((a : A) → Keeps Spend (f a))
      → ((continue r f t).0 ≡ panicked)
        ⊎ ((continue r f t).1.stop ≡ true)
        ⊎ ((continue r f t).1.gas < s.gas)
  costs_first (next a) f s t g (inl x) h k = cc
  costs_first (next a) f s t g (inr (inl x)) h k = inr (inl (((k a).at t).stops x))
  costs_first (next a) f s t g (inr (inr x)) h k =
      inr (inr (omega (arith, ((k a).at t).le (omega arith))))
  costs_first returned f s t g c h k = inr (inl (h.ends refl))
  costs_first panicked f s t g c h k = inl refl

  Costs-continue :
      (r : Outcome A) (f : A → Act W B) (s t : State W)
      → s.gas < 2 ^ 64
      → Spend s (is_early r) t
      → ((a : A) → Costs (f a))
      → ((continue r f t).0 ≡ panicked)
        ⊎ ((continue r f t).1.stop ≡ true)
        ⊎ ((continue r f t).1.gas < s.gas)
  Costs-continue (next a) f s t g h k = ground (arith, h.le g, (k a).at t)
  Costs-continue returned f s t g h k = inr (inl (h.ends refl))
  Costs-continue panicked f s t g h k = inl refl

  pub Costs-first :
      (m : Act W A) (f : A → Act W B)
      → Costs m
      → Keeps Spend m
      → ((a : A) → Keeps Spend (f a))
      → Costs (m >>= f)
  unfolding ◌>>=◌
  Costs-first m f c km k = record {
    at = λ s g. costs_first (m s).0 f s (m s).1 g (c.at s g) (km.at s) k;
  }

  pub Costs-then :
      (m : Act W A) (f : A → Act W B) → Keeps Spend m → ((a : A) → Costs (f a)) → Costs (m >>= f)
  unfolding ◌>>=◌
  Costs-then m f km k = record { at = λ s g. Costs-continue (m s).0 f s (m s).1 g (km.at s) k }

module _ {W : Type 0} where
  pub Costs-consume_gas : (c : ℕ) → 0 < c → Costs {W = W} (consume_gas c)
  unfolding consume_gas
  Costs-consume_gas c h = record { at = λ s g. ground arith }

  pub Costs-halt : Costs {W = W} halt
  unfolding halt
  Costs-halt = record { at = λ s g. inr (inl refl) }

  pub Costs-exit : {A : Type 0} (x : Error) → Costs {W = W} (exit {A = A} x)
  unfolding exit
  Costs-exit x = record { at = λ s g. inr (inl refl) }

  pub Costs-if :
      {A : Type 0} (b : Bool) (m n : Act W A) → Costs m → Costs n → Costs (if b then m else n)
  Costs-if true m n km kn = km
  Costs-if false m n km kn = kn

  pub Costs-op_stop : Costs {W = W} op_stop
  unfolding op_stop
  Costs-op_stop = Costs-halt

pub pos_if : (b : Bool) (m n : ℕ) → 0 < m → 0 < n → 0 < (if b then m else n)
pos_if true m n h k = h
pos_if false m n h k = k

pub num_pos : (n : ℕ) → leb 1 n ≡ true → 0 < n
num_pos n h = ground arith

pub ruleset costs_rules = (
  Costs-then, Costs-first, Costs-consume_gas, Costs-halt, Costs-exit, Costs-if, pos_if, num_pos,
  keeps_rules, Spend-Passive,
)

module _ {W : Type 0} (e : Env W) where
  store_cost_pos : (x : StorageStatus) → 0 < store_cost e x
  unfolding store_cost
  store_cost_pos unchanged = ground arith
  store_cost_pos _ = ground arith

  pub Costs-op_sload : Costs (op_sload e)
  unfolding op_sload
  Costs-op_sload = Costs-then _ _ (search (keeps_rules, Spend-Passive)) λ loc.
      Costs-first _ _ (Costs-consume_gas _ (ground arith)) (search (keeps_rules, Spend-Passive))
        λ _. search (keeps_rules, Spend-Passive)

  pub Costs-op_balance : Costs (op_balance e)
  unfolding op_balance
  Costs-op_balance = search costs_rules depth 9

  pub Costs-op_ext_code_size : Costs (op_ext_code_size e)
  unfolding op_ext_code_size
  Costs-op_ext_code_size = search costs_rules depth 9

  pub Costs-op_ext_code_hash : Costs (op_ext_code_hash e)
  unfolding op_ext_code_hash
  Costs-op_ext_code_hash = search costs_rules depth 9

  pub Costs-op_ext_code_copy : Costs (op_ext_code_copy e)
  unfolding op_ext_code_copy
  Costs-op_ext_code_copy = search (costs_rules, Keeps-extend_memory, Keeps-copy_to_memory) depth 14

  Costs-store_word : Costs (store_word e)
  unfolding store_word
  Costs-store_word = search (costs_rules, store_cost_pos, Spend-set_storage) depth 9

  pub Costs-op_sstore : Costs (op_sstore e)
  unfolding op_sstore
  Costs-op_sstore = search (costs_rules, Costs-store_word) depth 9

  pub Costs-op_self_destruct : Costs (op_self_destruct e)
  unfolding op_self_destruct
  Costs-op_self_destruct = search (costs_rules, Spend-set_world) depth 10

  pub Costs-op_halt : (revert : Bool) → Costs (op_halt e revert)
  unfolding op_halt
  Costs-op_halt revert = search (costs_rules, Keeps-get2) depth 12

-- The calls, where the fork of EIP-150 is active and the host frugal.
module _ {W : Type 0} (e : Env W) (fork : e.config.eip150 ≡ true) (frugal : Frugal e.host) where
  run_call_paid :
      (typ : CallType)
      → Keeps Spend (build_call_contract e typ >>= finish_call e)
        × (0 < 1 → Costs (build_call_contract e typ >>= finish_call e))
  run_call_paid typ =
      paid_call 1 (λ b. b.contract.gas) (build_call_contract e typ) (finish_call e)
        (Keeps-build_call_contract Spend-Passive e typ) (Pays-build_call_contract e fork typ)
        (Refunds-finish_call e frugal)

  Spend-build : (typ : CallType) → Keeps Spend (build_call_contract e typ >>= finish_call e)
  Spend-build typ = (run_call_paid typ).0

  Costs-build : (typ : CallType) → Costs (build_call_contract e typ >>= finish_call e)
  Costs-build typ = (run_call_paid typ).1 (omega arith)

  Spend-run_call : (typ : CallType) → Keeps Spend (run_call e typ)
  unfolding run_call
  Spend-run_call typ = search (keeps_rules, Spend-Passive, Spend-build)

  Costs-run_call : (typ : CallType) → Costs (run_call e typ)
  unfolding run_call
  Costs-run_call typ = search (costs_rules, Costs-build)

  pub Spend-op_call : (typ : CallType) → Keeps Spend (op_call e typ)
  unfolding op_call
  Spend-op_call typ = search (keeps_rules, Spend-Passive, Keeps-peek_at, Spend-run_call) depth 8

  pub Costs-op_call : (typ : CallType) → Costs (op_call e typ)
  unfolding op_call
  Costs-op_call typ = search (costs_rules, Keeps-peek_at, Costs-run_call) depth 8

-- A creation gives the gas that it takes to the contract, and has a fixed fee besides.
module _ {W : Type 0} (e : Env W) (frugal : Frugal e.host) where
  Refunds-make_create : (typ : CallType) (c : Contract) → Refunds c.gas (make_create e typ c)
  unfolding make_create callx push done add_gas set_return_data ◌>>=◌
  Refunds-make_create typ c = record {
    le = λ s g. ground (arith, frugal.callx_le s.world c g);
    stops = λ s h. ground arith;
    goes_on = λ s. ground arith;
  }

  Pays-charge_create :
      (typ : CallType) (value n salt : ℕ) (input : List ℕ)
      → Pays 0 (λ c. c.gas) (charge_create e typ value n salt input)
  unfolding charge_create create_gas ◌>>=◌ gets consume_gas pure done
  Pays-charge_create typ value n salt input = record { at = λ s c g h. ground arith }

  Spend-create :
      (typ : CallType) (value n salt : ℕ) (input : List ℕ)
      → Keeps Spend (charge_create e typ value n salt input >>= make_create e typ)
  Spend-create typ value n salt input =
      (paid_call 0 (λ c. c.gas) (charge_create e typ value n salt input) (make_create e typ)
        (Keeps-charge_create Spend-Passive e typ value n salt input)
        (Pays-charge_create typ value n salt input) (Refunds-make_create typ)).0

  Spend-run_create : (typ : CallType) → Keeps Spend (run_create e typ)
  unfolding run_create
  Spend-run_create typ =
      search (keeps_rules, Spend-Passive, Keeps-pop_salt, Keeps-get2, Spend-create) depth 14

  pub Spend-op_create : (typ : CallType) → Keeps Spend (op_create e typ)
  unfolding op_create
  Spend-op_create typ = search (keeps_rules, Spend-Passive, Spend-run_create)

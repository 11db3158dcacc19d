-- ===== src/Evm/Run/Spends.antt =====
-- Gas, a uint64: no instruction gives back more than it has taken, where `Callx` does not.
-- `Spend` is kept by the passive instructions; this file adds the instructions that change the
-- host's state and those that call it.
use dogesyncer.Prelude.{ℕ, ◌^◌, ◌≤◌, ◌<◌, ◌≡◌, refl, Bool, true, false, arith}
use dogesyncer.Evm.State.{State, Env, set_world}
use dogesyncer.Evm.State.Keeps.{Keeps, Passive, keeps_rules, Keeps-get2}
use dogesyncer.Evm.Ops.Passive.{Keeps-pop_topics}
use dogesyncer.Evm.Ops.Storage.{set_storage, store_word, op_sstore, op_self_destruct}
use dogesyncer.Evm.Ops.Flow.{write_log, op_log}

pub record Spend {W : Type 0} (s : State W) (early : Bool) (t : State W) : Type 0 where
  pub le : s.gas < 2 ^ 64 → t.gas ≤ s.gas
  pub stops : s.stop ≡ true → t.stop ≡ true
  pub ends : early ≡ true → t.stop ≡ true

-- A change that leaves the gas and the stop flag alone.
Spend-same : {W : Type 0} (s t : State W) → t.gas ≡ s.gas → t.stop ≡ s.stop → Spend s false t
Spend-same s t g h = ground arith

pub Spend-Passive : {W : Type 0} → Passive (Spend {W = W})
Spend-Passive = record {
  rfl = λ s. Spend-same s s refl refl;
  trans = λ s t u b h k. record {
    le = λ g. omega (arith, h.le g, k.le (omega (arith, h.le g)));
    stops = λ x. k.stops (h.stops x);
    ends = k.ends;
  };
  on_exit = λ x s. record { le = λ g. omega arith; stops = λ h. refl; ends = λ h. refl };
  on_halt = λ s. record { le = λ g. omega arith; stops = λ h. refl; ends = λ h. refl };
  on_stack = λ v s. Spend-same s _ refl refl;
  on_gas = λ c s h. record { le = λ g. omega arith; stops = λ x. x; ends = λ x. cc };
  on_ip = λ i s. Spend-same s _ refl refl;
  on_return_data = λ v s. Spend-same s _ refl refl;
  on_ret = λ v s. Spend-same s _ refl refl;
  on_last_gas_cost = λ c s. Spend-same s _ refl refl;
  on_memory = λ m c s. Spend-same s _ refl refl;
}

module _ {W : Type 0} where
  pub Spend-set_world : (w : W) → Keeps Spend (set_world w)
  unfolding set_world
  Spend-set_world w = record { at = λ s. Spend-same s _ refl refl }

module _ {W : Type 0} (e : Env W) where
  pub Spend-set_storage : (k v : ℕ) → Keeps Spend (set_storage e k v)
  unfolding set_storage
  Spend-set_storage k v = record { at = λ s. Spend-same s _ refl refl }

  pub Spend-store_word : Keeps Spend (store_word e)
  unfolding store_word
  Spend-store_word = search (keeps_rules, Spend-Passive, Spend-set_storage) depth 9

  pub Spend-op_sstore : Keeps Spend (op_sstore e)
  unfolding op_sstore
  Spend-op_sstore = search (keeps_rules, Spend-Passive, Spend-store_word) depth 9

  pub Spend-op_self_destruct : Keeps Spend (op_self_destruct e)
  unfolding op_self_destruct
  Spend-op_self_destruct = search (keeps_rules, Spend-Passive, Spend-set_world) depth 10

  Spend-write_log : (n : ℕ) → Keeps Spend (write_log e n)
  unfolding write_log
  Spend-write_log n =
      search (keeps_rules, Spend-Passive, Spend-set_world, Keeps-pop_topics, Keeps-get2) depth 12

  pub Spend-op_log : (n : ℕ) → Keeps Spend (op_log e n)
  unfolding op_log
  Spend-op_log n = search (keeps_rules, Spend-Passive, Spend-write_log) depth 8

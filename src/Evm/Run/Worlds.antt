-- ===== src/Evm/Run/Worlds.antt =====
-- What a run does to the host's state: a relation that every instruction keeps is kept by the run.
use dogesyncer.Prelude.{ℕ, zero, suc, ◌≡◌, refl, Option, none, some, List, arith, get_or, subst}
use dogesyncer.Runtime.{CallType, Contract, ExecutionResult, Host}
use dogesyncer.Chain.Forks.{ForksInTime}
use dogesyncer.Evm.State.{State, Env, Act, ◌>>=◌, ◌>>◌, gets, halt, add_gas, set_world}
use dogesyncer.Evm.State.Keeps.{Rel, Keeps, Passive, keeps_rules, Keeps-exit, Keeps-get2}
use dogesyncer.Evm.Ops.Passive.{
  Keeps-pop_topics, Keeps-pop_salt, Keeps-peek_at, Keeps-build_call_contract, Keeps-charge_create,
}
use dogesyncer.Evm.Ops.Storage.{set_storage, store_word, op_sstore, op_self_destruct}
use dogesyncer.Evm.Ops.Flow.{write_log, op_log}
use dogesyncer.Evm.Ops.Create.{make_create, run_create, op_create}
use dogesyncer.Evm.Ops.Call.{Built, callx, make_call, finish_call, run_call, op_call}
use dogesyncer.Evm.Dispatch.{Handler, dispatch}
use dogesyncer.Evm.Dispatch.All.{All-find}
use dogesyncer.Evm.Dispatch.Keeps.{Kept-dispatch_table}
use dogesyncer.Evm.Run.{
  attempt, advance, run_handler, step, Ended, run, start, result, map_result, evm_run,
}

pub record IsPreorder {W : Type 0} (R : W → W → Type 0) : Type 0 where
  pub rfl : (w : W) → R w w
  pub trans : (u v w : W) → R u v → R v w → R u w

-- The relation of the states of the machine that relates their hosts' states.
abbrev pub World : {W : Type 0} → (W → W → Type 0) → Rel W
World R s early t = R s.world t.world

pub World-Passive : {W : Type 0} {R : W → W → Type 0} → IsPreorder R → Passive (World R)
World-Passive p = record {
  rfl = λ s. p.rfl s.world;
  trans = λ s t u b. p.trans s.world t.world u.world;
  on_exit = λ x s. p.rfl s.world;
  on_halt = λ s. p.rfl s.world;
  on_stack = λ v s. p.rfl s.world;
  on_gas = λ c s _. p.rfl s.world;
  on_ip = λ i s. p.rfl s.world;
  on_return_data = λ v s. p.rfl s.world;
  on_ret = λ v s. p.rfl s.world;
  on_last_gas_cost = λ c s. p.rfl s.world;
  on_memory = λ m c s. p.rfl s.world;
}

module _ {W : Type 0} {R : W → W → Type 0} (p : IsPreorder R) where
  World-attempt : (m : Act W Unit) → Keeps (World R) m → Keeps (World R) (attempt m)
  unfolding attempt
  World-attempt m k = record { at = λ s. k.at s }

  World-advance : Keeps (World R) (advance {W = W})
  unfolding advance
  World-advance = record { at = λ s. p.rfl s.world }

  World-run_handler :
      (h : Handler W) → Keeps (World R) h.inst → Keeps (World R) (run_handler (some h))
  unfolding run_handler
  World-run_handler h k =
      search (keeps_rules, World-Passive p, World-attempt, World-advance) depth 8

  pub World-add_gas : (n : ℕ) → Keeps (World R) (add_gas n)
  unfolding add_gas
  World-add_gas n = record { at = λ s. p.rfl s.world }

  module _ (e : Env W)
      (kept : (op : ℕ) (h : Handler W) → dispatch e op ≡ some h → Keeps (World R) h.inst) where
    World-handler :
        (op : ℕ) (o : Option (Handler W)) → dispatch e op ≡ o → Keeps (World R) (run_handler o)
    World-handler op none h = unfold run_handler in Keeps-exit (World-Passive p) _
    World-handler op (some k) h = World-run_handler k (kept op k h)

    World-step : (s : State W) → R s.world (step e s).1.world
    unfolding step halt
    World-step s = ground (arith, (World-handler (get_or s.code s.ip 0) _ refl).at s, p.rfl s.world)

    World-run :
        (fuel : ℕ) (s : State W) (r : Ended W) → run fuel e s ≡ some r → R s.world r.final.world
    unfolding run
    World-run zero s r h = ground (arith, p.rfl s.world)
    World-run (suc fuel) s r h = ground (
      arith,
      p.rfl s.world,
      World-step s,
      World-run fuel (step e s).1 r,
      p.trans s.world (step e s).1.world r.final.world,
    )

    -- What every handler keeps of the host's state, `EVM.Run` keeps.
    pub evm_run-world :
        (fuel : ℕ) (w w' : W) (cap : ℕ) (r : ExecutionResult)
        → evm_run fuel e w cap ≡ some (r, w')
        → R w w'
    unfolding evm_run start result
    evm_run-world fuel w w' cap r h = ended_same (run fuel e (start e.msg w cap)) refl h
      where
        ended_same :
            (o : Option (Ended W))
            → run fuel e (start e.msg w cap) ≡ o
            → map_result o ≡ some (r, w')
            → R w w'
        ended_same none p k = cc
        ended_same (some x) p k =
            subst (R w) (some_world k) (World-run fuel (start e.msg w cap) x p)
          where
            some_world : some (result x) ≡ some (r, w') → x.final.world ≡ w'
            some_world k = ground arith

-- A host each of whose operations keeps a relation of its states.
pub record Steady {W : Type 0} (h : Host W) (R : W → W → Type 0) : Type 0 where
  pub order : IsPreorder R
  pub set_storage_kept : (w : W) (a k v : ℕ) (f : ForksInTime) → R w (h.set_storage w a k v f).1
  pub selfdestruct_kept : (w : W) (a b : ℕ) → R w (h.selfdestruct w a b)
  pub emit_log_kept : (w : W) (a : ℕ) (topics bytes : List ℕ) → R w (h.emit_log w a topics bytes)
  pub callx_kept : (w : W) (c : Contract) → R w (h.callx w c).1

module _ {W : Type 0} {R : W → W → Type 0} (e : Env W) (q : Steady e.host R) where
  -- A change of the host's state that is computed from the machine's.
  World-change :
      (f : State W → W) (m : Act W Unit)
      → ((s : State W) → R s.world (f s))
      → Keeps (World R) m
      → Keeps (World R) (gets f >>= λ w. set_world w >> m)
  unfolding ◌>>=◌ gets set_world
  World-change f m h k = record { at = λ s. q.order.trans s.world (f s) _ (h s) (k.at _) }

  World-set_storage : (k v : ℕ) → Keeps (World R) (set_storage e k v)
  unfolding set_storage
  World-set_storage k v = record { at = λ s. q.set_storage_kept s.world e.msg.address k v e.config }

  World-store_word : Keeps (World R) (store_word e)
  unfolding store_word
  World-store_word = search (keeps_rules, World-Passive q.order, World-set_storage) depth 9

  World-op_sstore : Keeps (World R) (op_sstore e)
  unfolding op_sstore
  World-op_sstore = search (keeps_rules, World-Passive q.order, World-store_word) depth 9

  World-op_self_destruct : Keeps (World R) (op_self_destruct e)
  unfolding op_self_destruct
  World-op_self_destruct =
      search
        (
          keeps_rules,
          World-Passive q.order,
          World-change,
          λ (a : ℕ) (s : State W). q.selfdestruct_kept s.world e.msg.address a,
        )
        depth 10

  World-callx : (c : Contract) → Keeps (World R) (callx e c)
  unfolding callx
  World-callx c = record { at = λ s. q.callx_kept s.world c }

  World-finish_call : (b : Built) → Keeps (World R) (finish_call e b)
  unfolding finish_call make_call
  World-finish_call b =
      search (keeps_rules, World-Passive q.order, World-add_gas, q.order, World-callx) depth 10

  World-write_log : (n : ℕ) → Keeps (World R) (write_log e n)
  unfolding write_log
  World-write_log n =
      search
        (
          keeps_rules,
          World-Passive q.order,
          World-change,
          Keeps-pop_topics,
          Keeps-get2,
          λ (topics bytes : List ℕ) (s : State W).
              q.emit_log_kept s.world e.msg.address topics bytes,
        )
        depth 12

  World-op_log : (n : ℕ) → Keeps (World R) (op_log e n)
  unfolding op_log
  World-op_log n = search (keeps_rules, World-Passive q.order, World-write_log) depth 8

  World-run_call : (typ : CallType) → Keeps (World R) (run_call e typ)
  unfolding run_call
  World-run_call typ =
      search (keeps_rules, World-Passive q.order, Keeps-build_call_contract, World-finish_call)
        depth 8

  World-op_call : (typ : CallType) → Keeps (World R) (op_call e typ)
  unfolding op_call
  World-op_call typ =
      search (keeps_rules, World-Passive q.order, Keeps-peek_at, World-run_call) depth 8

  World-make_create : (typ : CallType) (c : Contract) → Keeps (World R) (make_create e typ c)
  unfolding make_create
  World-make_create typ c =
      search (keeps_rules, World-Passive q.order, World-add_gas, q.order, World-callx) depth 10

  World-run_create : (typ : CallType) → Keeps (World R) (run_create e typ)
  unfolding run_create
  World-run_create typ =
      search
        (
          keeps_rules,
          World-Passive q.order,
          Keeps-pop_salt,
          Keeps-get2,
          Keeps-charge_create,
          World-make_create,
        )
        depth 14

  World-op_create : (typ : CallType) → Keeps (World R) (op_create e typ)
  unfolding op_create
  World-op_create typ = search (keeps_rules, World-Passive q.order, World-run_create)

  World-dispatch : (op : ℕ) (h : Handler W) → dispatch e op ≡ some h → Keeps (World R) h.inst
  unfolding dispatch
  World-dispatch op h =
      All-find (λ k. Keeps (World R) k.inst) op h
        (Kept-dispatch_table (World-Passive q.order) e World-op_log World-op_sstore
          World-op_self_destruct World-op_create (λ typ _. World-op_call typ))

  -- What every operation of the host keeps of its state, a run of `EVM.Run` that ends keeps.
  pub evm_run-steady :
      (fuel : ℕ) (w w' : W) (cap : ℕ) (r : ExecutionResult)
      → evm_run fuel e w cap ≡ some (r, w')
      → R w w'
  evm_run-steady = evm_run-world q.order e World-dispatch

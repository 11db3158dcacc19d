-- ===== src/Evm/Run/Nested.antt =====
-- What a run reads of `Callx`: its answers to contracts that are one deeper than the one that runs.
use dogesyncer.Prelude.{
  ℕ, zero, suc, ◌+◌, ◌≡◌, refl, ap, ◌∙◌, fun_ext, true, false, Option, some, List, [], ◌∷◌, not,
  ◌==◌, ◌&&◌, ◌++◌, leb, length, get_or, if◌then◌else◌,
}
use dogesyncer.Runtime.{
  CallType, call, call_code, delegate_call, static_call, create, create2, Contract, ExecutionResult,
  write_protection, has_panicked,
}
use dogesyncer.Evm.State.{
  State, Env, Act, next, returned, panicked, ◌>>=◌, exit, halt, set_return_data,
}
use dogesyncer.Evm.State.Memory.{extend_memory, get2, resize, expand, grow}
use dogesyncer.Evm.State.Yields.{
  Yields, Yields-bind, Yields-gets, Yields-pure, if-same, bind-same, bind-same_left, bind-same_all,
}
use dogesyncer.Evm.Ops.Flow.{op_halt, peek_at}
use dogesyncer.Evm.Ops.Create.{
  op_create, run_create, make_create, charge_create, short_of, new_address, create_gas, is_create2,
  created,
}
use dogesyncer.Evm.Ops.Call.{
  Built, op_call, run_call, finish_call, make_call, callx, build_call_contract, build_with,
  charge_call, call_contract, call_cost, cannot_pay, forwarded_gas, is_delegate, is_static, is_call,
}
use dogesyncer.Evm.Dispatch.{find, register, dispatch, calls, dispatch_table}
use dogesyncer.Evm.Run.{ended, crashed, run_handler, step, run, start, map_result, evm_run}
use dogesyncer.Evm.Dispatch.Callx.{
  env_with, arithmetic-same, logic-same, ranges-same, memory_and_storage-same, context-same,
  copies_and_jumps-same,
}

-- The contracts that an instruction builds are one deeper than the one that runs.
abbrev pub IsDeeper : {W : Type 0} → Env W → Contract → Type 0
IsDeeper e c = c.depth ≡ e.msg.depth + 1

module _ {W : Type 0} (e : Env W) where
  Yields-charge_call :
      (typ : CallType) (initial addr : ℕ) (value : Option ℕ) (args : List ℕ) (o n : ℕ)
      → Yields (λ b. IsDeeper e b.contract) (charge_call e typ initial addr value args o n)
  unfolding charge_call call_contract
  Yields-charge_call typ initial addr value args o n = Yields-bind _ _ λ cost.
      Yields-bind _ _
        λ gas. Yields-bind _ _ λ _. Yields-gets _ _ λ s. Yields-bind _ _ λ bad. Yields-pure _ refl

  Yields-build_call_contract :
      (typ : CallType) → Yields (λ b. IsDeeper e b.contract) (build_call_contract e typ)
  unfolding build_call_contract build_with
  Yields-build_call_contract typ = search (Yields-bind, Yields-charge_call) depth 20

  Yields-charge_create :
      (typ : CallType) (value size salt : ℕ) (input : List ℕ)
      → Yields (IsDeeper e) (charge_create e typ value size salt input)
  unfolding charge_create
  Yields-charge_create typ value size salt input =
      Yields-bind _ _
        λ _. Yields-bind _ _ λ gas. Yields-bind _ _ λ _. Yields-bind _ _ λ a. Yields-pure _ refl

module _ {W : Type 0} (e : Env W) (f : W → Contract → ExecutionResult × W)
    (agree : (w : W) (c : Contract) → IsDeeper e c → f w c ≡ e.host.callx w c) where
  callx-same : (c : Contract) → IsDeeper e c → callx (env_with e f) c ≡ callx e c
  unfolding callx
  callx-same c d = fun_ext (λ (s : State W).
      ap (λ r. (if has_panicked r.0 then panicked else next r.0, record s { world = r.1 }))
        (agree s.world c d))

  make_call-same : (b : Built) → IsDeeper e b.contract → make_call (env_with e f) b ≡ make_call e b
  unfolding make_call
  make_call-same b d = bind-same_left _ (callx-same b.contract d)

  finish_call-same :
      (b : Built) → IsDeeper e b.contract → finish_call (env_with e f) b ≡ finish_call e b
  unfolding finish_call
  finish_call-same b d = if-same b.bad _ (make_call-same b d)

  make_create-same :
      (typ : CallType) (c : Contract)
      → IsDeeper e c
      → make_create (env_with e f) typ c ≡ make_create e typ c
  unfolding make_create created
  make_create-same typ c d = bind-same_left _ (callx-same c d)

  build-same : (typ : CallType) → build_call_contract (env_with e f) typ ≡ build_call_contract e typ
  unfolding build_call_contract build_with charge_call call_cost forwarded_gas call_contract
      cannot_pay get2 extend_memory expand grow resize
  build-same typ = refl

  run_call-same : (typ : CallType) → run_call (env_with e f) typ ≡ run_call e typ
  unfolding run_call
  run_call-same typ = if-same (is_delegate typ && not e.config.homestead) _ (
      if-same (is_static typ && not e.config.byzantium) _ (
        bind-same_left _ (build-same typ)
        ∙ bind-same _ _ _ finish_call-same (build_call_contract e typ)
            (Yields-build_call_contract e typ)))

  op_call-same : (typ : CallType) → op_call (env_with e f) typ ≡ op_call e typ
  unfolding op_call
  op_call-same typ =
      ap
        (λ (m : Act W Unit). set_return_data [] >>= λ _.
          if is_call typ && e.msg.static
          then (do val ← peek_at 3; (if val == 0 then m else exit write_protection))
          else m)
        (run_call-same typ)

  charge_create-same :
      (typ : CallType) (value size salt : ℕ) (input : List ℕ)
      → charge_create (env_with e f) typ value size salt input
        ≡ charge_create e typ value size salt input
  unfolding charge_create create_gas new_address
  charge_create-same typ value size salt input = refl

  created-same :
      (typ : CallType) (value size salt : ℕ) (input : List ℕ)
      → (charge_create (env_with e f) typ value size salt input >>= make_create (env_with e f) typ)
        ≡ (charge_create e typ value size salt input >>= make_create e typ)
  created-same typ value size salt input =
      bind-same_left _ (charge_create-same typ value size salt input)
      ∙ bind-same _ _ _ (make_create-same typ) (charge_create e typ value size salt input)
          (Yields-charge_create e typ value size salt input)

  run_create-same : (typ : CallType) → run_create (env_with e f) typ ≡ run_create e typ
  unfolding run_create short_of get2 extend_memory expand grow resize
  run_create-same typ = bind-same_all _ λ _. bind-same_all _ λ value. bind-same_all _ λ offset.
      bind-same_all _ λ size. bind-same_all _ λ salt. bind-same_all _ λ input.
        bind-same_all _
          λ _. bind-same_all _ λ bad. if-same bad _ (created-same typ value size salt input)

  op_create-same : (typ : CallType) → op_create (env_with e f) typ ≡ op_create e typ
  unfolding op_create
  op_create-same typ =
      if-same e.msg.static _
        (if-same (is_create2 typ && not e.config.constantinople) _ (run_create-same typ))

  calls-same : calls (env_with e f) ≡ calls e
  unfolding calls op_halt get2 extend_memory expand grow resize
  calls-same = λ i.
      register 0xf0 (op_create-same create i) 3 32000
      ∷ register 0xf5 (op_create-same create2 i) 4 32000
      ∷ register 0xf1 (op_call-same call i) 7 0
      ∷ register 0xf2 (op_call-same call_code i) 7 0
      ∷ register 0xf4 (op_call-same delegate_call i) 6 0
      ∷ register 0xfa (op_call-same static_call i) 6 0
      ∷ register 0xfd (op_halt e true) 2 0
      ∷ register 0xf3 (op_halt e false) 2 0
      ∷ []

  dispatch_table-same : dispatch_table (env_with e f) ≡ dispatch_table e
  unfolding dispatch_table
  dispatch_table-same = λ i.
      arithmetic-same e f i
      ++ (ranges-same e f i
          ++ (logic-same e f i
              ++ (calls-same i
                  ++ (memory_and_storage-same e f i
                      ++ (context-same e f i ++ copies_and_jumps-same e f i)))))

  step-same : (s : State W) → step (env_with e f) s ≡ step e s
  unfolding step dispatch
  step-same s =
      ap
        (λ table.
          if leb (length s.code) s.ip
          then halt s
          else run_handler (find (get_or s.code s.ip 0) table) s)
        dispatch_table-same

  run-same : (fuel : ℕ) (s : State W) → run fuel (env_with e f) s ≡ run fuel e s
  unfolding run
  run-same zero s = refl
  run-same (suc fuel) s = λ i. elim s.stop [
    | true ↦ some (ended s)
    | false ↦ elim (step-same s i).0 [
      | panicked ↦ some (crashed (step-same s i).1)
      | next _ ↦ run-same fuel (step-same s i).1 i
      | returned ↦ run-same fuel (step-same s i).1 i
    ]
  ]

  -- A run depends on `Callx` only by its answers to contracts that are one deeper than the one that
  -- runs.
  pub evm_run-nested :
      (fuel : ℕ) (w : W) (cap : ℕ) → evm_run fuel (env_with e f) w cap ≡ evm_run fuel e w cap
  unfolding evm_run
  evm_run-nested fuel w cap = ap map_result (run-same fuel (start e.msg w cap))

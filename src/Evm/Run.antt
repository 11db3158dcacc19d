-- ===== src/Evm/Run.antt =====
-- state/runtime/evm/state.go: the loop of `Run`, and evm.go: `EVM.Run`. The loop takes fuel: a round
-- for each instruction. `none` means that the fuel ran out. A panic of an instruction ends the run
-- with the error of `formatPanicDesc` and no return value. The tracing of the loop is left out.
pub mod Spends
pub mod Forward
pub mod Total
pub mod Calls
pub mod Costs
pub mod Worlds
pub mod Static
pub mod Nested
pub mod Jumps
use dogesyncer.Prelude.{
  ℕ, zero, suc, Bool, true, false, Option, none, some, List, [], ◌∷◌, ◌+◌, ◌%◌, ◌^◌, ltb, leb, ◌&&◌,
  not, if◌then◌else◌, length, get_or,
}
use dogesyncer.Runtime.{
  Error, stack_overflow, stack_underflow, op_code_not_found, evm_panic, Contract, ExecutionResult,
  is_reverted,
}
use dogesyncer.Evm.State.{
  State, Env, Act, Outcome, next, returned, panicked, ◌>>=◌, ◌>>◌, done, gets, exit, halt,
  consume_gas,
}
use dogesyncer.Evm.Bitmap.{set_code}
use dogesyncer.Evm.Dispatch.{Handler, dispatch}

abbrev pub stack_size : ℕ
stack_size = 1024

-- An instruction that has returned early leaves the loop to go on.
settle : Outcome (Unit {0}) → Outcome (Unit {0})
settle (next _) = next tt
settle returned = next tt
settle panicked = panicked

-- What `Run` returns, and the state that it leaves.
pub record Ended (W : Type 0) : Type 0 where
  pub ret : List ℕ
  pub err : Option Error
  pub final : State W

gas_after : Option Error → ℕ → ℕ
gas_after none gas = gas
gas_after (some x) gas = if is_reverted x then gas else 0

module _ {W : Type 0} where
  unfoldable pub attempt : Act W Unit → Act W Unit
  unfolding settle
  attempt m s = let (r, s') = m s in (settle r, s')

  advance : Act W Unit
  advance s = (next tt, record s { ip = (s.ip + 1) % 2 ^ 64 })

  -- From the check of the depth of the stack to the end of the round.
  unfoldable pub run_handler : Option (Handler W) → Act W Unit
  unfolding attempt advance
  run_handler none = exit op_code_not_found
  run_handler (some h) = do
    depth ← gets (λ s. length s.stack)
    (if ltb depth h.stack then exit stack_underflow else consume_gas h.gas)
    attempt h.inst
    depth' ← gets (λ s. length s.stack)
    (if ltb stack_size depth' then exit stack_overflow else advance)

  unfoldable pub step : Env W → Act W Unit
  unfolding run_handler
  step e s =
      if leb (length s.code) s.ip then halt s else run_handler (dispatch e (get_or s.code s.ip 0)) s

  abbrev pub ended : State W → Ended W
  ended s = record { ret = s.ret; err = s.err; final = s }

  abbrev pub crashed : State W → Ended W
  crashed s = record { ret = []; err = some evm_panic; final = s }

  unfoldable pub run : ℕ → Env W → State W → Option (Ended W)
  run zero e s = if s.stop then some (ended s) else none
  run (suc fuel) e s = elim s.stop [
    | true ↦ some (ended s)
    | false ↦ elim (step e s).0 [
      | panicked ↦ some (crashed (step e s).1)
      | next _ ↦ run fuel e (step e s).1
      | returned ↦ run fuel e (step e s).1
    ]
  ]

  -- The state in which `EVM.Run` starts: a pooled one, reset, whose memory has some capacity.
  unfoldable pub start : Contract → W → ℕ → State W
  start c w cap = record {
    ip = 0;
    code = c.code;
    memory = [];
    mem_cap = cap;
    last_gas_cost = 0;
    stack = [];
    err = none;
    stop = false;
    gas = c.gas;
    bitmap = set_code c.code;
    return_data = [];
    ret = [];
    world = w;
  }

  unfoldable pub result : Ended W → ExecutionResult × W
  unfolding gas_after
  result r = (
    record {
      return_value = r.ret;
      gas_left = gas_after r.err r.final.gas;
      gas_used = 0;
      err = r.err;
    },
    r.final.world,
  )

  abbrev pub map_result : Option (Ended W) → Option (ExecutionResult × W)
  map_result none = none
  map_result (some r) = some (result r)

  -- `EVM.Run`
  unfoldable pub evm_run : ℕ → Env W → W → ℕ → Option (ExecutionResult × W)
  unfolding run start result
  evm_run fuel e w cap = map_result (run fuel e (start e.msg w cap))

-- ===== src/Evm/Tests.antt =====
-- Runs of the machine on small contracts, and the machine's theorems on them.
use dogesyncer.Prelude.{
  ℕ, true, false, none, some, List, [], ◌∷◌, ◌+◌, ◌%◌, ◌^◌, ◌≤◌, ◌<◌, ◌≡◌, ◌↔◌, refl, arith, ◌∙◌,
}
use dogesyncer.Runtime.{ExecutionResult, write_protection, call}
use dogesyncer.Evm.State.{State, ◌>>=◌, gets, consume_gas, pure, push, pop, set_ip, halt, exit}
use dogesyncer.Evm.Word.{exp, tt256}
use dogesyncer.Evm.Word.Exp.{exp-pow}
use dogesyncer.Evm.Bitmap.Jumpdest.{IsJumpdest}
use dogesyncer.Evm.Ops.Call.{charge_call, forwarded_gas, call_cost}
use dogesyncer.Evm.Run.{evm_run, start, step}
use dogesyncer.Evm.Run.Calls.{Frugal}
use dogesyncer.Evm.Run.Total.{evm_run_total}
use dogesyncer.Evm.Run.Static.{Quiet, evm_run-static}
use dogesyncer.Evm.Ops.Flow.{valid_jumpdest, op_push}
use dogesyncer.Evm.Ops.Storage.{op_sstore, store_word, set_storage, store_cost}
use dogesyncer.Evm.Dispatch.{dispatch}
use dogesyncer.Evm.Run.Jumps.{here, round, valid_jumpdest_iff}
use dogesyncer.Evm.Run.Forward.{charge_call_paid}
use dogesyncer.Evm.Example.{counting_host, env_of}

-- PUSH1 2, PUSH1 3, EXP, PUSH1 0, MSTORE, PUSH1 32, PUSH1 0, RETURN
abbrev exp_code : List ℕ
exp_code = 0x60 ∷ 2 ∷ 0x60 ∷ 3 ∷ 0x0a ∷ 0x60 ∷ 0 ∷ 0x52 ∷ 0x60 ∷ 32 ∷ 0x60 ∷ 0 ∷ 0xf3 ∷ []

-- PUSH1 1, PUSH1 2, SSTORE
abbrev store_code : List ℕ
store_code = 0x60 ∷ 1 ∷ 0x60 ∷ 2 ∷ 0x55 ∷ []

-- PUSH1 0x5b, JUMPDEST
abbrev jump_code : List ℕ
jump_code = 0x60 ∷ 0x5b ∷ 0x5b ∷ []

counting_host-Frugal : Frugal counting_host
counting_host-Frugal = record { callx_le = λ w c g. omega arith }

-- As many writes in the one world as in the other.
abbrev SameCount : ℕ → ℕ → Type 0
SameCount v w = v ≡ w

counting_host-Quiet : Quiet counting_host SameCount
counting_host-Quiet = record {
  same_refl = λ w. refl;
  same_trans = λ u v w p q. p ∙ q;
  callx_same = λ w c s n t. refl;
}

evm_run_total_example :
    (r : ExecutionResult) × (w' : ℕ) × (evm_run 1001 (env_of exp_code 1000 false) 0 0
      ≡ some (r, w'))
    × (r.gas_left ≤ 1000)
evm_run_total_example =
    evm_run_total (env_of exp_code 1000 false) refl counting_host-Frugal 0 0 (omega arith)

-- A static contract that stores a word loses its gas and changes nothing.
evm_run-static_example : SameCount 3 3
unfolding evm_run step dispatch ◌>>=◌ gets consume_gas op_push push set_ip op_sstore store_word pop
    set_storage store_cost halt exit
evm_run-static_example =
    evm_run-static (env_of store_code 1000 true) counting_host-Quiet refl 10 3 3 0
      (record { return_value = []; gas_left = 0; gas_used = 0; err = some write_protection }) refl

-- The same contract stores the word where it is not static.
store_run :
    evm_run 10 (env_of store_code 100000 false) 3 0
    ≡ some (record { return_value = []; gas_left = 79994; gas_used = 0; err = none }, 4)
unfolding evm_run step dispatch ◌>>=◌ gets consume_gas op_push push set_ip op_sstore store_word pop
    set_storage store_cost halt
store_run = refl

-- The state after PUSH1.
abbrev pushed : State ℕ
pushed = (step (env_of jump_code 1000 false) (start (env_of jump_code 1000 false).msg 0 0)).1

valid_jumpdest_iff_example :
    (valid_jumpdest 2 pushed ≡ true) ↔ ((2 < 2 ^ 62) × IsJumpdest jump_code 2)
unfolding start
valid_jumpdest_iff_example =
    valid_jumpdest_iff (env_of jump_code 1000 false) 0 0 2 pushed (round here refl)

-- A machine with gas for a call.
abbrev calling : State ℕ
calling = start (env_of [] 100000 false).msg 0 0

charge_call_paid_example :
    (charge_call (env_of [] 100000 false) call 50000 77 (some 3) [] 0 0 calling).1.gas + 52300
    < 100000
unfolding start charge_call ◌>>=◌ gets forwarded_gas pure consume_gas call_cost
charge_call_paid_example =
    charge_call_paid (env_of [] 100000 false) call 50000 77 (some 3) [] 0 0 calling
      (record {
        contract = record {
          code = [];
          typ = call;
          code_address = 77;
          address = 77;
          origin = 7;
          caller = 16;
          depth = 2;
          value = some 3;
          input = [];
          gas = 52300;
          static = false;
        };
        offset = 0;
        size = 0;
        bad = false;
      })
      refl (omega arith) refl

-- EXP wraps around at 2^256.
exp-pow_example : exp 3 200 ≡ 3 ^ 200 % tt256
exp-pow_example = exp-pow 3 200

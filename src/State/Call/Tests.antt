-- ===== src/State/Call/Tests.antt =====
-- The theorems on calls, at a call of a contract that writes its storage and fails.
use dogesyncer.Prelude.{refl, ◌≡◌, ◌≤◌, some, true, false, arith}
use dogesyncer.Runtime.{call, static_call, failed, is_creation}
use dogesyncer.Evm.State.{exit}
use dogesyncer.Evm.Run.{evm_run, step}
use dogesyncer.Evm.Dispatch.{dispatch}
use dogesyncer.Evm.Engine.{evm}
use dogesyncer.State.Precompiled.{precompiled}
use dogesyncer.State.Txn.{sub_balance, balance_of}
use dogesyncer.State.Txn.Transfer.{transfer}
use dogesyncer.State.Example.{setting, setting-AllSound, no_change, block, call_of}
use dogesyncer.State.Call.{callx_at, host, host_with}
use dogesyncer.State.Call.Gas.{callx-gas_le}
use dogesyncer.State.Call.Atomic.{Undone, callx-Undone}
use dogesyncer.State.Call.Levels.{callx_at-levels}
use dogesyncer.State.Call.Static.{Same, callx-static}

failing : failed ((host setting block).callx no_change (call_of call (some 5) false)).0 ≡ true
unfolding host failed transfer sub_balance balance_of evm evm_run step dispatch exit precompiled
failing = refl

callx-Undone_example :
    Undone setting
      (host_with setting block (callx_at setting block 1024))
      (call_of call (some 5) false)
      no_change
      ((host setting block).callx no_change (call_of call (some 5) false))
callx-Undone_example =
    callx-Undone setting setting-AllSound block no_change (call_of call (some 5) false) failing

callx_at-levels_example :
    callx_at setting block 1100 no_change (call_of call (some 5) false)
    ≡ callx_at setting block 1025 no_change (call_of call (some 5) false)
callx_at-levels_example =
    callx_at-levels setting setting-AllSound block 1025 1100 no_change (call_of call (some 5) false)
      (omega arith) (omega arith)

no_creation : is_creation static_call ≡ false
unfolding is_creation
no_creation = refl

callx-static_example :
    Same setting.committed no_change
      ((host setting block).callx no_change (call_of static_call (some 0) true)).1
callx-static_example =
    callx-static setting setting-AllSound block no_change (call_of static_call (some 0) true) refl
      no_creation (λ h. cc)

callx-gas_le_example :
    ((host setting block).callx no_change (call_of call (some 5) false)).0.gas_left ≤ 50000
callx-gas_le_example =
    callx-gas_le setting setting-AllSound refl block no_change (call_of call (some 5) false)
      (omega arith)

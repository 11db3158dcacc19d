-- ===== src/State/Transition.antt =====
-- state/executor.go: `Transition`, the state that the transactions of a block change one after the
-- other, and `Apply`, which runs one of them. A step that can fail yields a result or an error, and
-- the transition that it leaves in either case. The logging and the hook behind `Apply` are left out.
pub mod Admission
pub mod Apply
pub mod Pool
pub mod Block
mod Tests
use dogesyncer.Prelude.{
  ℕ, Bool, true, false, Option, none, some, List, ◌+◌, ◌-◌, ◌*◌, ◌%◌, ◌^◌, ltb, if◌then◌else◌,
}
use dogesyncer.Runtime.{TxContext, ExecutionResult, update_gas_used, is_some}
use dogesyncer.State.Gas.{GasMessage, tx_gas, transaction_gas_cost}
use dogesyncer.State.Txn.{Txn, Log, snapshot, get_refund, add_balance, sub_balance, get_balance}
use dogesyncer.State.Txn.Accounts.{get_nonce, incr_nonce}
use dogesyncer.State.Call.{Setting, revert, create2, call2}

-- types/transaction.go: the fields of a transaction that its run depends on
pub record Message : Type 0 where
  pub nonce : ℕ
  pub gas_price : ℕ
  pub gas : ℕ
  pub to : Option ℕ
  pub value : ℕ
  pub input : List ℕ
  pub from : ℕ

-- The errors of a transaction. The two on the nonce hold the nonce that is wanted.
pub data Cause : Type 0 where
  all_gas_used block_limit_reached not_enough_funds_for_gas intrinsic_gas_overflow : Cause
  not_enough_intrinsic_gas not_enough_funds invalid_sender execution_stop : Cause
  bridge_failure : Cause
  nonce_too_low nonce_too_high : ℕ → Cause

-- `TransitionApplicationError` and the errors that are one
pub record ApplicationError : Type 0 where
  pub cause : Cause
  pub is_recoverable : Bool

-- `status` is that of a receipt from Byzantium on, `root` that of one before.
pub record Receipt : Type 0 where
  pub cumulative_gas_used : ℕ
  pub gas_used : ℕ
  pub tx_hash : ℕ
  pub status : Option Bool
  pub root : Option ℕ
  pub contract_address : Option ℕ
  pub logs : List Log

pub record Transition : Type 0 where
  pub setting : Setting
  pub state : Txn
  pub ctx : TxContext
  pub gas_pool : ℕ
  pub receipts : List Receipt
  pub total_gas : ℕ

pub data Outcome {ℓ} (A : Type ℓ) : Type ℓ where
  done : A → Outcome A
  refused : ApplicationError → Outcome A

abbrev pub Act : Type 0 → Type 0
Act A = Transition → Outcome A × Transition

abbrev pub refuse : {A : Type 0} → Cause → Bool → Act A
refuse x recoverable t = (refused (record { cause = x; is_recoverable = recoverable }), t)

abbrev pub yield : {A : Type 0} → A → Act A
yield a t = (done a, t)

abbrev pub resume : {A B : Type 0} → Outcome A → (A → Act B) → Transition → Outcome B × Transition
resume (done a) f t = f a t
resume (refused x) f t = (refused x, t)

infixl 5 ◌>>=◌ ◌>>◌
abbrev pub ◌>>=◌ : {A B : Type 0} → Act A → (A → Act B) → Act B
(m >>= f) t = resume (m t).0 f (m t).1

abbrev pub ◌>>◌ : {A B : Type 0} → Act A → Act B → Act B
m >> n = m >>= λ _. n

abbrev pub refuse_if : (Transition → Bool) → Cause → Bool → Act (Unit {0})
refuse_if p x recoverable t = if p t then refuse x recoverable t else yield tt t

unfoldable pub nonce_check : Message → Act (Unit {0})
nonce_check msg t =
    let nonce = get_nonce t.setting.committed t.state msg.from in
    if ltb msg.nonce nonce
    then refuse (nonce_too_low nonce) false t
    else if ltb nonce msg.nonce
    then refuse (nonce_too_high nonce) false t
    else yield tt t

abbrev pub paid_from : Transition → Option Txn → Outcome (Unit {0}) × Transition
paid_from t none = refuse not_enough_funds_for_gas true t
paid_from t (some u) = yield tt (record t { state = u })

unfoldable pub sub_gas_limit_price : Message → Act (Unit {0})
sub_gas_limit_price msg t =
    paid_from t (sub_balance t.setting.committed msg.from (msg.gas_price * msg.gas) t.state)

unfoldable pub sub_gas_pool : ℕ → Act (Unit {0})
sub_gas_pool amount t =
    if ltb t.gas_pool amount
    then refuse block_limit_reached true t
    else yield tt (record t { gas_pool = t.gas_pool - amount })

-- The pool is a uint64.
unfoldable pub add_gas_pool : ℕ → Transition → Transition
add_gas_pool amount t = record t { gas_pool = (t.gas_pool + amount) % 2 ^ 64 }

abbrev pub cost_or_refuse : Option ℕ → Act ℕ
cost_or_refuse none = refuse intrinsic_gas_overflow false
cost_or_refuse (some cost) = yield cost

abbrev pub is_contract_creation : Option ℕ → Bool
is_contract_creation none = true
is_contract_creation (some to) = false

abbrev pub gas_message : Message → GasMessage
gas_message msg = record { is_contract_creation = is_contract_creation msg.to; input = msg.input }

-- `TransactionGasCost` with the forks of the block
unfoldable pub intrinsic_cost : Message → Act ℕ
intrinsic_cost msg t =
    cost_or_refuse
      (transaction_gas_cost (gas_message msg) t.setting.config.homestead t.setting.config.istanbul)
      t

-- `Create2`, or the counting of the nonce and `Call2`
unfoldable pub run_message :
    Setting → TxContext → Message → ℕ → Option ℕ → Txn → ExecutionResult × Txn
run_message s ctx msg gas_left none state =
    create2 s ctx msg.from msg.input (some msg.value) gas_left state
run_message s ctx msg gas_left (some to) state =
    call2 s ctx msg.from to msg.input (some msg.value) gas_left
      (incr_nonce s.committed msg.from state)

-- The payments behind a run: to the sender for the gas that is left, to the coinbase for the rest.
unfoldable pub settle_fees : Message → ExecutionResult → Transition → Transition
settle_fees msg r t =
    let c = t.setting.committed in
    let back = add_balance c msg.from (r.gas_left * msg.gas_price) t.state in
    add_gas_pool r.gas_left
      (record t { state = add_balance c t.ctx.coinbase (r.gas_used * msg.gas_price) back })

-- `apply` behind its checks
unfoldable pub execute : Message → ℕ → Act ExecutionResult
execute msg gas_left t =
    let ctx = record t.ctx { gas_price = msg.gas_price % 2 ^ 256; origin = msg.from } in
    let (r, state) = run_message t.setting ctx msg gas_left msg.to t.state in
    let result = update_gas_used r msg.gas (get_refund state) in
    (done result, settle_fees msg result (record t { ctx = ctx; state = state }))

-- `apply` from the check of the gas on
unfoldable pub admit : Message → ℕ → Act ExecutionResult
admit msg gas_left = do
  refuse_if (λ t. ltb msg.gas gas_left) not_enough_intrinsic_gas false
  refuse_if (λ t. ltb (get_balance t.setting.committed t.state msg.from) msg.value) not_enough_funds
      true
  execute msg gas_left

-- `apply`, whose subtraction of the cost is on uint64
unfoldable pub apply : Message → Act ExecutionResult
apply msg = do
  refuse_if (λ t. ltb t.gas_pool tx_gas) all_gas_used true
  nonce_check msg
  sub_gas_limit_price msg
  sub_gas_pool msg.gas
  cost ← intrinsic_cost msg
  admit msg ((msg.gas + 2 ^ 64 - cost) % 2 ^ 64)

-- `Apply`: an error takes back what was done to the state.
unfoldable pub undo : {A : Type 0} → ℕ → Outcome A × Transition → Outcome A × Transition
undo id (done r, t) = (done r, t)
undo id (refused x, t) = (refused x, record t { state = revert id t.state })

unfoldable pub apply_message : Message → Act ExecutionResult
apply_message msg t =
    let (id, taken) = snapshot t.state in undo id (apply msg (record t { state = taken }))

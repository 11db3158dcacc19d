-- ===== src/Runtime.antt =====
-- state/runtime/runtime.go: contracts, results and the host that the machine calls.
-- An address is a number below 2^160, a hash one below 2^256 and a byte one below 256. `Host` is
-- the Go interface of that name: `W` is the host's state, a method that changes it returns the
-- new one. The hashing and address functions of the crypto packages stand beside its methods.
use dogesyncer.Prelude.{
  ℕ, Bool, true, false, Option, none, some, List, ◌-◌, ◌+◌, ◌/◌, ◌%◌, ◌^◌, ltb, if◌then◌else◌,
}
use dogesyncer.Chain.Forks.{ForksInTime}

-- The errors of runtime.go and of evm/state.go; `evm_panic` is the one that `Run` builds when it
-- recovers, `not_found` that of a transition without a runtime. Two are the model's own: `unfinished`, for
-- a run or a call that it has no fuel for, and `runtime_panic`, for a runtime that panics and does not
-- recover.
pub data Error : Type 0 where
  out_of_gas stack_overflow stack_underflow not_enough_funds insufficient_balance : Error
  max_code_size_exceeded contract_address_collision depth_exceeded execution_reverted : Error
  code_store_out_of_gas gas_uint_overflow write_protection invalid_jump : Error
  op_code_not_found return_data_out_of_bounds evm_panic not_found unfinished runtime_panic : Error

pub data CallType : Type 0 where
  call call_code delegate_call static_call create create2 : CallType

pub data StorageStatus : Type 0 where
  unchanged modified modified_again added deleted : StorageStatus

-- The number, the timestamp and the gas limit are int64 in the source; they are taken as not negative.
pub record TxContext : Type 0 where
  pub gas_price : ℕ
  pub origin : ℕ
  pub coinbase : ℕ
  pub number : ℕ
  pub timestamp : ℕ
  pub gas_limit : ℕ
  pub chain_id : ℕ
  pub difficulty : ℕ

-- `contract.Type == runtime.Create`
unfoldable pub is_creation : CallType → Bool
is_creation CallType.create = true
is_creation _ = false

-- The instance being called. A nil `Value` is `none`.
pub record Contract : Type 0 where
  pub code : List ℕ
  pub typ : CallType
  pub code_address : ℕ
  pub address : ℕ
  pub origin : ℕ
  pub caller : ℕ
  pub depth : ℕ
  pub value : Option ℕ
  pub input : List ℕ
  pub gas : ℕ
  pub static : Bool

pub record ExecutionResult : Type 0 where
  pub return_value : List ℕ
  pub gas_left : ℕ
  pub gas_used : ℕ
  pub err : Option Error

abbrev pub is_some {ℓ} : {A : Type ℓ} → Option A → Bool
is_some none = false
is_some (some a) = true

abbrev pub is_reverted : Error → Bool
is_reverted Error.execution_reverted = true
is_reverted _ = false

abbrev pub is_code_store_out_of_gas : Error → Bool
is_code_store_out_of_gas Error.code_store_out_of_gas = true
is_code_store_out_of_gas _ = false

abbrev pub is_runtime_panic : Error → Bool
is_runtime_panic Error.runtime_panic = true
is_runtime_panic _ = false

abbrev err_is : (Error → Bool) → Option Error → Bool
err_is p none = false
err_is p (some x) = p x

unfoldable pub succeeded : ExecutionResult → Bool
succeeded r = elim r.err [ none ↦ true | some _ ↦ false ]

unfoldable pub failed : ExecutionResult → Bool
failed r = elim r.err [ none ↦ false | some _ ↦ true ]

unfoldable pub reverted : ExecutionResult → Bool
reverted r = err_is is_reverted r.err

-- Whether the runtime has panicked, where the source returns no result.
unfoldable pub has_panicked : ExecutionResult → Bool
has_panicked r = err_is is_runtime_panic r.err

-- `errors.Is(r.Err, ErrCodeStoreOutOfGas)`
unfoldable pub ran_out_storing : ExecutionResult → Bool
ran_out_storing r = err_is is_code_store_out_of_gas r.err

-- The subtractions are on uint64.
unfoldable pub update_gas_used : ExecutionResult → ℕ → ℕ → ExecutionResult
update_gas_used r gas_limit refund =
    let used = (gas_limit + 2 ^ 64 - r.gas_left) % 2 ^ 64 in
    let back = if ltb (used / 2) refund then used / 2 else refund in
    record r { gas_left = (r.gas_left + back) % 2 ^ 64; gas_used = used - back }

unfoldable pub new_contract : ℕ → ℕ → ℕ → ℕ → Option ℕ → ℕ → List ℕ → Contract
new_contract depth origin from to value gas code = record {
  code = code;
  typ = CallType.call;
  code_address = to;
  address = to;
  origin = origin;
  caller = from;
  depth = depth;
  value = value;
  input = List.[];
  gas = gas;
  static = false;
}

unfoldable pub new_contract_creation : ℕ → ℕ → ℕ → ℕ → Option ℕ → ℕ → List ℕ → Contract
unfolding new_contract
new_contract_creation depth origin from to value gas code =
    new_contract depth origin from to value gas code

unfoldable pub new_contract_call : ℕ → ℕ → ℕ → ℕ → Option ℕ → ℕ → List ℕ → List ℕ → Contract
unfolding new_contract
new_contract_call depth origin from to value gas code input =
    record (new_contract depth origin from to value gas code) { input = input }

pub record Host (W : Type 0) : Type 0 where
  pub account_exists : W → ℕ → Bool
  pub get_storage : W → ℕ → ℕ → ℕ
  pub set_storage : W → ℕ → ℕ → ℕ → ForksInTime → StorageStatus × W
  pub get_balance : W → ℕ → ℕ
  pub get_code_size : W → ℕ → ℕ
  pub get_code_hash : W → ℕ → ℕ
  pub get_code : W → ℕ → List ℕ
  pub selfdestruct : W → ℕ → ℕ → W
  pub tx_context : TxContext
  pub block_hash : W → ℕ → ℕ
  pub emit_log : W → ℕ → List ℕ → List ℕ → W
  pub callx : W → Contract → ExecutionResult × W
  pub empty : W → ℕ → Bool
  pub get_nonce : W → ℕ → ℕ
  pub keccak256 : List ℕ → ℕ
  pub create_address : ℕ → ℕ → ℕ
  pub create_address2 : ℕ → ℕ → List ℕ → ℕ

-- The Go interface `Runtime`
pub record Runtime (W : Type 0) : Type 0 where
  pub can_run : Contract → ForksInTime → Bool
  pub run : Host W → Contract → ForksInTime → W → ExecutionResult × W

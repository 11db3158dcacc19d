-- ===== src/State/Gas.antt =====
-- state/executor.go: `TransactionGasCost`, what a transaction pays before it runs. The arithmetic is
-- on uint64, written out.
pub mod Bounds
pub mod Refund
use dogesyncer.Prelude.{
  ℕ, zero, suc, Bool, true, false, Option, none, some, List, [], ◌∷◌, ◌+◌, ◌-◌, ◌*◌, ◌/◌, ◌%◌, ◌^◌,
  ltb, ◌==◌, ◌&&◌, if◌then◌else◌, length,
}

abbrev pub tx_gas : ℕ
tx_gas = 21000

abbrev pub tx_gas_contract_creation : ℕ
tx_gas_contract_creation = 53000

-- The fields of a transaction that its cost depends on: a creation has no receiver.
pub record GasMessage : Type 0 where
  pub is_contract_creation : Bool
  pub input : List ℕ

-- The loop over the payload
unfoldable pub count_zeros : List ℕ → ℕ
count_zeros [] = 0
count_zeros (b ∷ bs) = (if b == 0 then 1 else 0) + count_zeros bs

unfoldable pub base_cost : Bool → Bool → ℕ
base_cost creation homestead = if creation && homestead then tx_gas_contract_creation else tx_gas

abbrev pub non_zero_cost : Bool → ℕ
non_zero_cost true = 16
non_zero_cost false = 68

-- One of the two additions: `none` is `ErrIntrinsicGasOverflow`.
unfoldable pub charge : ℕ → ℕ → ℕ → Option ℕ
charge cost price count =
    if ltb ((2 ^ 64 - 1 - cost) / price) count
    then none
    else some ((cost + count * price % 2 ^ 64) % 2 ^ 64)

unfoldable pub charge_zeros : ℕ → Option ℕ → Option ℕ
charge_zeros zero_count none = none
charge_zeros zero_count (some cost) = charge cost 4 zero_count

unfoldable pub transaction_gas_cost : GasMessage → Bool → Bool → Option ℕ
unfolding count_zeros base_cost charge charge_zeros
transaction_gas_cost msg is_homestead is_istanbul =
    let cost = base_cost msg.is_contract_creation is_homestead in
    let payload = msg.input in
    let zero_count = count_zeros payload in
    let other_count = length payload - zero_count in
    if length payload == 0
    then some cost
    else charge_zeros zero_count (charge cost (non_zero_cost is_istanbul) other_count)

-- ===== src/State/Gas/Bounds.antt =====
-- `TransactionGasCost`, against the sum over the bytes of the payload.
use dogesyncer.Prelude.{
  ℕ, suc, Bool, true, false, Option, none, some, List, [], ◌∷◌, ◌+◌, ◌-◌, ◌*◌, ◌^◌, leb, ◌==◌, ◌&&◌,
  ◌≤◌, ◌<◌, ◌≡◌, ap, ◌∙◌, if◌then◌else◌, length, arith, Bool-cases, inl, inr,
}
use dogesyncer.State.Gas.{
  GasMessage, count_zeros, base_cost, non_zero_cost, charge, charge_zeros, transaction_gas_cost,
}

-- What the bytes of the payload cost, one by one.
payload_cost : ℕ → List ℕ → ℕ
payload_cost price [] = 0
payload_cost price (b ∷ bs) = (if b == 0 then 4 else price) + payload_cost price bs

-- The sum that is to be paid, as a number without a bound.
unfoldable pub full_cost : GasMessage → Bool → Bool → ℕ
unfolding payload_cost
full_cost msg is_homestead is_istanbul =
    (if msg.is_contract_creation && is_homestead then 53000 else 21000)
    + payload_cost (if is_istanbul then 16 else 68) msg.input

abbrev pub if_fits : ℕ → Option ℕ
if_fits n = if leb (2 ^ 64) n then none else some n

zeros_le : (bs : List ℕ) → count_zeros bs ≤ length bs
unfolding count_zeros
zeros_le [] = omega arith
zeros_le (b ∷ bs) = let ih = zeros_le bs in ground arith

payload-counts :
    (price : ℕ) (bs : List ℕ)
    → payload_cost price bs ≡ (length bs - count_zeros bs) * price + count_zeros bs * 4
unfolding payload_cost count_zeros
payload-counts price [] = omega arith
payload-counts price (b ∷ bs) =
    let ih = payload-counts price bs in
    let few = zeros_le bs in
    let rest = length bs - count_zeros bs in
    elim (Bool-cases (b == 0)) [
      | inl z ↦ rw z (
          let e : suc (length bs) - (1 + count_zeros bs) ≡ rest = omega arith in rw e (omega arith))
      | inr nz ↦ rw nz (
          let e : suc (length bs) - (0 + count_zeros bs) ≡ suc rest = omega arith in
          rw e (omega arith))
    ]

charge-fits_4 : (cost count : ℕ) → cost < 2 ^ 64 → charge cost 4 count ≡ if_fits (cost + count * 4)
unfolding charge
charge-fits_4 cost count lt = ground arith

charge-fits :
    (is_istanbul : Bool) (cost count : ℕ)
    → cost < 2 ^ 64
    → charge cost (non_zero_cost is_istanbul) count
      ≡ if_fits (cost + count * (if is_istanbul then 16 else 68))
unfolding charge
charge-fits true cost count lt = ground arith
charge-fits false cost count lt = ground arith

charge_zeros-fits :
    (cost zero_count : ℕ) → charge_zeros zero_count (if_fits cost) ≡ if_fits (cost + zero_count * 4)
unfolding charge_zeros charge
charge_zeros-fits cost zero_count = ground arith

base_lt : (creation homestead : Bool) → base_cost creation homestead < 2 ^ 64
unfolding base_cost
base_lt creation homestead = ground arith

charges-fit :
    (input : List ℕ) (is_istanbul : Bool) (cost : ℕ)
    → cost < 2 ^ 64
    → charge_zeros
        (count_zeros input)
        (charge cost (non_zero_cost is_istanbul) (length input - count_zeros input))
      ≡ if_fits (cost + payload_cost (if is_istanbul then 16 else 68) input)
charges-fit input is_istanbul cost lt =
    let price = if is_istanbul then 16 else 68 in
    let zero_count = count_zeros input in
    let other_count = length input - zero_count in
    ap (charge_zeros zero_count) (charge-fits is_istanbul cost other_count lt)
    ∙ charge_zeros-fits (cost + other_count * price) zero_count
    ∙ ap if_fits (let counts = payload-counts price input in omega arith)

fits_lt : (n : ℕ) → n < 2 ^ 64 → some n ≡ if_fits n
fits_lt n h = ground arith

exact_on :
    (input : List ℕ) (is_istanbul : Bool) (cost : ℕ)
    → cost < 2 ^ 64
    → (if length input == 0
        then some cost
        else charge_zeros
            (count_zeros input)
            (charge cost (non_zero_cost is_istanbul) (length input - count_zeros input)))
      ≡ if_fits (cost + payload_cost (if is_istanbul then 16 else 68) input)
unfolding payload_cost
exact_on [] is_istanbul cost lt = fits_lt cost lt ∙ ap if_fits (omega arith)
exact_on (b ∷ bs) is_istanbul cost lt =
    let some_byte : (length (b ∷ bs) == 0) ≡ false = ground arith in
    rw some_byte (charges-fit (b ∷ bs) is_istanbul cost lt)

-- For every message and on every fork, TransactionGasCost is the base cost and the cost of each
-- byte of the payload, where this sum is below 2^64, and is an overflow error elsewhere.
pub transaction_gas_cost-exact :
    (msg : GasMessage) (is_homestead is_istanbul : Bool)
    → transaction_gas_cost msg is_homestead is_istanbul
      ≡ if_fits (full_cost msg is_homestead is_istanbul)
unfolding transaction_gas_cost full_cost base_cost
transaction_gas_cost-exact msg is_homestead is_istanbul =
    exact_on msg.input is_istanbul (base_cost msg.is_contract_creation is_homestead)
      (base_lt msg.is_contract_creation is_homestead)

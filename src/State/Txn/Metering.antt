-- ===== src/State/Txn/Metering.antt =====
-- state/txn.go and state/runtime/evm/instructions.go: what a sequence of writes to one slot costs, the
-- gas of `opSStore` less the refunds of `SetStorage`, where gas is metered net (EIP-1283, EIP-2200).
use dogesyncer.Prelude.{
  ℕ, suc, Bool, true, List, [], ◌∷◌, ◌+◌, ◌-◌, ◌*◌, ◌^◌, ◌≤◌, ◌<◌, ◌≡◌, arith, ◌==◌, not, ◌&&◌,
  ◌||◌, if◌then◌else◌, length,
}
use dogesyncer.Chain.Forks.{ForksInTime}
use dogesyncer.Evm.State.{Env}
use dogesyncer.Evm.Ops.Storage.{store_cost}
use dogesyncer.State.Txn.Status.{net_status, write_status, storage_effect}

-- Gas is metered net from Istanbul on, and in Constantinople without Petersburg.
abbrev pub is_net : ForksInTime → Bool
is_net config = config.istanbul || (config.constantinople && not config.petersburg)

-- What each write costs at least.
unfoldable pub base : Bool → ℕ
base istanbul = if istanbul then 800 else 200

-- What a slot that held the first word at the start and holds the second now has cost in the end,
-- with 15000 added, so that it is no negative number.
unfoldable pub price : Bool → ℕ → ℕ → ℕ
unfolding base
price istanbul original value =
    if original == value
    then 15000
    else if original == 0
    then 15000 + (20000 - base istanbul)
    else (if value == 0 then 0 else 15000) + (5000 - base istanbul)

-- A slot that has been cleared has brought a refund that a later write can take back.
credit : ℕ → ℕ → ℕ
credit original value = if original == 0 then 0 else if value == 0 then 15000 else 0

-- The gas, the word at the end and the refund of a sequence of writes.
pub record Bill : Type 0 where
  pub gas : ℕ
  pub held : ℕ
  pub refund : ℕ

module _ {W : Type 0} (e : Env W) where
  unfoldable pub write_all : ℕ → ℕ → ℕ → List ℕ → Bill
  write_all original current refund [] = record { gas = 0; held = current; refund = refund }
  write_all original current refund (v ∷ vs) =
      let (status, refund') = storage_effect e.config original current v refund in
      let rest = write_all original v refund' vs in
      record { gas = store_cost e status + rest.gas; held = rest.held; refund = rest.refund }

  write_price :
      (original current value refund : ℕ)
      → is_net e.config ≡ true
      → credit original current ≤ refund
      → refund + 40000 < 2 ^ 64
      → (store_cost e (storage_effect e.config original current value refund).0
            + refund
            + price e.config.istanbul original current
          ≡ base e.config.istanbul
            + (storage_effect e.config original current value refund).1
            + price e.config.istanbul original value)
        × (credit original value ≤ (storage_effect e.config original current value refund).1)
        × ((storage_effect e.config original current value refund).1 ≤ refund + 40000)
  unfolding base price credit storage_effect write_status net_status store_cost
  write_price original current value refund net c h = (ground arith, ground arith, ground arith)

  write_all-from :
      (original current refund : ℕ) (vs : List ℕ)
      → is_net e.config ≡ true
      → credit original current ≤ refund
      → refund + 40000 * suc (length vs) < 2 ^ 64
      → (write_all original current refund vs).gas
          + refund
          + price e.config.istanbul original current
        ≡ base e.config.istanbul * length vs
          + (write_all original current refund vs).refund
          + price e.config.istanbul original (write_all original current refund vs).held
  unfolding write_all
  write_all-from original current refund [] net c h = omega arith
  write_all-from original current refund (v ∷ vs) net c h =
      let (paid, owed, bound) = write_price original current v refund net c (omega arith) in
      let ih =
        write_all-from original v (storage_effect e.config original current v refund).1 vs net owed
          (omega arith) in
      omega arith

  price_same : (istanbul : Bool) (original : ℕ) → price istanbul original original ≡ 15000
  unfolding price
  price_same istanbul original = ground arith

  credit_same : (original n : ℕ) → credit original original ≤ n
  unfolding credit
  credit_same original n = ground arith

  -- Where gas is metered net, the writes to a slot that holds its original word cost together, the
  -- refunds deducted, a base for each write and the price of the change from the original word to
  -- the last one, whatever the words in between. The refund at the start and 40000 for each write
  -- and one more are below 2^64.
  pub write_all-price :
      (original refund : ℕ) (vs : List ℕ)
      → is_net e.config ≡ true
      → refund + 40000 * suc (length vs) < 2 ^ 64
      → (write_all original original refund vs).gas + refund + 15000
        ≡ base e.config.istanbul * length vs
          + (write_all original original refund vs).refund
          + price e.config.istanbul original (write_all original original refund vs).held
  write_all-price original refund vs net h = omega (
    arith,
    write_all-from original original refund vs net (credit_same original refund) h,
    price_same e.config.istanbul original,
  )

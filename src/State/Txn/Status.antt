-- ===== src/State/Txn/Status.antt =====
-- state/txn.go: the status that `SetStorage` returns, and what it does to the refund.
use dogesyncer.Prelude.{ℕ, Bool, ◌==◌, ◌&&◌, ◌||◌, not, if◌then◌else◌}
use dogesyncer.Chain.Forks.{ForksInTime}
use dogesyncer.Runtime.{StorageStatus, unchanged, modified, modified_again, added, deleted}
use dogesyncer.State.Txn.{add_refund, sub_refund}

-- `SetStorage` behind the write: the status, and the refund that it leaves.
unfoldable pub legacy_status : ℕ → ℕ → ℕ → StorageStatus × ℕ
unfolding add_refund
legacy_status old value refund =
    if old == 0
    then (added, refund)
    else if value == 0
    then (deleted, add_refund 15000 refund)
    else (modified, refund)

unfoldable pub first_status : ℕ → ℕ → ℕ → StorageStatus × ℕ
unfolding add_refund
first_status original value refund =
    if original == 0
    then (added, refund)
    else if value == 0
    then (deleted, add_refund 15000 refund)
    else (modified, refund)

unfoldable pub clear_refund : ℕ → ℕ → ℕ → ℕ → ℕ
unfolding add_refund sub_refund
clear_refund original current value refund =
    if original == 0
    then refund
    else if current == 0
    then sub_refund 15000 refund
    else if value == 0
    then add_refund 15000 refund
    else refund

unfoldable pub reset_refund : Bool → ℕ → ℕ → ℕ → ℕ
unfolding add_refund
reset_refund istanbul original value refund =
    if original == value
    then add_refund
        (if original == 0
          then (if istanbul then 19200 else 19800)
          else (if istanbul then 4200 else 4800))
        refund
    else refund

unfoldable pub net_status : Bool → ℕ → ℕ → ℕ → ℕ → StorageStatus × ℕ
unfolding first_status clear_refund reset_refund
net_status istanbul original current value refund =
    if original == current then first_status original value refund else (
      modified_again,
      reset_refund istanbul original value (clear_refund original current value refund),
    )

unfoldable pub write_status : ForksInTime → ℕ → ℕ → ℕ → ℕ → StorageStatus × ℕ
unfolding legacy_status net_status
write_status config original current value refund =
    if not config.istanbul && (config.petersburg || not config.constantinople)
    then legacy_status current value refund
    else net_status config.istanbul original current value refund

-- The status that `SetStorage` returns, and the refund that it leaves.
unfoldable pub storage_effect : ForksInTime → ℕ → ℕ → ℕ → ℕ → StorageStatus × ℕ
unfolding write_status
storage_effect config original current value refund =
    if current == value
    then (unchanged, refund)
    else write_status config original current value refund

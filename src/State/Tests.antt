-- ===== src/State/Tests.antt =====
-- The theorems on the gas of transactions, at concrete transactions.
use dogesyncer.Evm.Example.{all_forks, env_of}
use dogesyncer.State.Txn.{
  Committed, Txn, get_balance, balance_of, sub_balance, add_balance, upsert_account, with_balance,
}
use dogesyncer.State.Txn.Slots.{get_state, set_storage}
use dogesyncer.State.Txn.Storage.{get_state-set_storage}
use dogesyncer.State.Txn.Metering.{write_all, base, price, write_all-price}
use dogesyncer.State.Txn.Transfer.{transfer, transfer-balances}
use dogesyncer.Prelude.{
  ◌==◌, ◌&&◌, if◌then◌else◌, ◌-◌, length, ℕ, some, refl, List, true, false, none, [], ◌∷◌, ◌+◌, ◌*◌,
  ◌≤◌, ◌≡◌, arith,
}
use dogesyncer.Runtime.{ExecutionResult, update_gas_used}
use dogesyncer.State.Gas.{GasMessage, transaction_gas_cost}
use dogesyncer.State.Gas.Bounds.{if_fits, full_cost, transaction_gas_cost-exact}
use dogesyncer.State.Gas.Refund.{update_gas_used-conserves}

abbrev small_call : GasMessage
small_call = record { is_contract_creation = false; input = 0 ∷ 7 ∷ 0 ∷ [] }

transaction_gas_cost-exact_example :
    transaction_gas_cost small_call true true ≡ if_fits (full_cost small_call true true)
transaction_gas_cost-exact_example = transaction_gas_cost-exact small_call true true

-- 70000 of 100000 are left, and the refund asks for more than half of what was used.
abbrev finished : ExecutionResult
finished = record { return_value = []; gas_left = 70000; gas_used = 0; err = none }

update_gas_used-conserves_example :
    ((update_gas_used finished 100000 24000).gas_left
        + (update_gas_used finished 100000 24000).gas_used
      ≡ 100000)
    × (70000 ≤ (update_gas_used finished 100000 24000).gas_left)
    × (100000 ≤ 70000 + 2 * (update_gas_used finished 100000 24000).gas_used)
update_gas_used-conserves_example =
    update_gas_used-conserves finished 100000 24000 (omega arith) (omega arith)

-- Every account exists, with a balance of 100 and the word 4 in each slot.
abbrev pub committed : Committed
committed = record {
  account_at = λ a. some (record { nonce = 1; balance = 100; code_hash = 0; trie = λ k. some 4 });
  code_of = λ h. [];
  hashit = λ k. k;
  keccak256 = λ bs. 0;
}

abbrev pub fresh : Txn
fresh = record { snapshots = []; tree = record { objects = λ a. none; refund = none; logs = none } }

get_state-set_storage_example :
    get_state committed (set_storage committed fresh 7 2 9 all_forks).1 7 3
    ≡ (if 7 == 7 && 3 == 2 then 9 else get_state committed fresh 7 3)
get_state-set_storage_example = get_state-set_storage committed fresh 7 2 9 all_forks 7 3

-- The word 4 is cleared, written anew and put back.
abbrev words : List ℕ
words = 0 ∷ 6 ∷ 4 ∷ []

write_all-price_example :
    (write_all (env_of [] 0 false) 4 4 0 words).gas + 0 + 15000
    ≡ base true * length words
      + (write_all (env_of [] 0 false) 4 4 0 words).refund
      + price true 4 (write_all (env_of [] 0 false) 4 4 0 words).held
write_all-price_example = write_all-price (env_of [] 0 false) 4 0 words refl (omega arith)

abbrev moved : Txn
moved = add_balance committed 8 30 (upsert_account committed 7 (with_balance (λ b. b - 30)) fresh)

transfer-balances_example :
    get_balance committed moved 8 + (if 8 == 7 then 30 else 0)
    ≡ get_balance committed fresh 8 + (if 8 == 8 then 30 else 0)
unfolding transfer sub_balance get_balance balance_of
transfer-balances_example = transfer-balances committed fresh moved 7 8 30 refl 8

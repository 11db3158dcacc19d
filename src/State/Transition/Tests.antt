-- ===== src/State/Transition/Tests.antt =====
-- The theorems on transactions, at a transfer and at one whose nonce is wrong.
use dogesyncer.Prelude.{
  ℕ, refl, ◌≡◌, ◌↔◌, Bool, none, some, true, false, arith, List, [], ◌∷◌, length,
}
use dogesyncer.State.Example.{setting, setting-AllSound, no_change, block}
use dogesyncer.State.Transition.{
  Message, Transition, apply_message, undo, apply, nonce_check, sub_gas_limit_price, sub_gas_pool,
  intrinsic_cost, admit, execute, settle_fees, add_gas_pool,
}
use dogesyncer.State.Gas.{transaction_gas_cost}
use dogesyncer.State.Txn.{snapshot, get_state_object, sub_balance, balance_of}
use dogesyncer.State.Txn.Accounts.{get_nonce}
use dogesyncer.State.Transition.Admission.{IsAdmissible}
use dogesyncer.State.Transition.Apply.{
  is_done, IsUndone, apply_message-IsAdmissible, apply_message-IsUndone,
}
use dogesyncer.State.Transition.Pool.{IsMetered, apply_message-IsMetered}
use dogesyncer.State.Transition.Block.{Outside, process_block, sender_of, other}
use dogesyncer.State.Transition.Block.Books.{nil, cons}
use dogesyncer.State.Transition.Block.Total.{IsBalanced, process_block-IsBalanced}

-- Account 7 sends 5 to account 20, with the nonce given.
abbrev transfer_with : ℕ → Message
transfer_with nonce = record {
  nonce = nonce;
  gas_price = 3;
  gas = 30000;
  to = some 20;
  value = 5;
  input = [];
  from = 7;
}

abbrev started : Transition
started = record {
  setting = setting;
  state = no_change;
  ctx = block;
  gas_pool = 8000000;
  receipts = [];
  total_gas = 0;
}

apply_message-IsAdmissible_example :
    is_done (apply_message (transfer_with 4) started).0 ≡ true
    ↔ IsAdmissible (transfer_with 4) started
apply_message-IsAdmissible_example =
    apply_message-IsAdmissible (transfer_with 4) (omega arith) started

refused_at_first : is_done (apply_message (transfer_with 9) started).0 ≡ false
unfolding apply_message undo apply nonce_check get_nonce get_state_object snapshot
refused_at_first = refl

apply_message-IsUndone_example :
    IsUndone (transfer_with 9) started (apply_message (transfer_with 9) started).1
apply_message-IsUndone_example =
    apply_message-IsUndone (transfer_with 9) (omega arith) started refused_at_first

admitted : is_done (apply_message (transfer_with 4) started).0 ≡ true
unfolding apply_message undo apply nonce_check get_nonce get_state_object snapshot
    sub_gas_limit_price sub_balance balance_of sub_gas_pool intrinsic_cost transaction_gas_cost
    admit execute
admitted = refl

apply_message-IsMetered_example :
    IsMetered (transfer_with 4) started (apply_message (transfer_with 4) started)
apply_message-IsMetered_example =
    apply_message-IsMetered (transfer_with 4) started setting-AllSound refl (omega arith)
      (omega arith) admitted

abbrev outside : Outside
outside = record {
  sender = λ msg. none;
  tx_hash = λ msg. msg.nonce;
  bridge_event = λ log. other;
  commit = λ below deletes t. (below, 0);
}

abbrev messages : List (Bool × Message)
messages = (false, transfer_with 4) ∷ []

processed : is_done (process_block outside setting block messages).0 ≡ true
unfolding process_block sender_of apply_message undo apply nonce_check get_nonce get_state_object
    snapshot sub_gas_limit_price sub_balance balance_of sub_gas_pool intrinsic_cost
    transaction_gas_cost admit execute settle_fees add_gas_pool
processed = refl

process_block-IsBalanced_example :
    IsBalanced block.gas_limit (length messages) (process_block outside setting block messages).1
process_block-IsBalanced_example =
    process_block-IsBalanced setting setting-AllSound refl outside block (omega arith) messages
      (cons (omega arith) nil) processed

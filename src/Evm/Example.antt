-- ===== src/Evm/Example.antt =====
-- A host with a numeric world, for the tests of the machine: the number of writes so far.
use dogesyncer.Prelude.{ℕ, Bool, true, false, none, some, List, [], ◌∷◌, ◌+◌, length}
use dogesyncer.Chain.Forks.{ForksInTime}
use dogesyncer.Runtime.{Host, Contract, added, call}
use dogesyncer.Evm.State.{Env}

abbrev pub all_forks : ForksInTime
all_forks = record {
  homestead = true;
  byzantium = true;
  constantinople = true;
  petersburg = true;
  istanbul = true;
  eip150 = true;
  eip158 = true;
  eip155 = true;
  preportland = true;
  portland = true;
  detroit = true;
}

abbrev pub counting_host : Host ℕ
counting_host = record {
  account_exists = λ w a. true;
  get_storage = λ w a k. 0;
  set_storage = λ w a k v f. (added, w + 1);
  get_balance = λ w a. 1000;
  get_code_size = λ w a. 0;
  get_code_hash = λ w a. 0;
  get_code = λ w a. [];
  selfdestruct = λ w a b. w + 1;
  tx_context = record {
    gas_price = 1;
    origin = 7;
    coinbase = 9;
    number = 300;
    timestamp = 1000;
    gas_limit = 8000000;
    chain_id = 2000;
    difficulty = 1;
  };
  block_hash = λ w n. n + 1;
  emit_log = λ w a t d. w + 1;
  callx =
      λ w c. (record { return_value = 5 ∷ 6 ∷ []; gas_left = c.gas; gas_used = 0; err = none }, w);
  empty = λ w a. false;
  get_nonce = λ w a. 0;
  keccak256 = λ bs. length bs;
  create_address = λ a n. a + n;
  create_address2 = λ a s c. a + s;
}

abbrev pub contract_of : List ℕ → ℕ → Bool → Contract
contract_of code gas static = record {
  code = code;
  typ = call;
  code_address = 16;
  address = 16;
  origin = 7;
  caller = 7;
  depth = 1;
  value = some 0;
  input = 1 ∷ 2 ∷ 3 ∷ [];
  gas = gas;
  static = static;
}

abbrev pub env_of : List ℕ → ℕ → Bool → Env ℕ
env_of code gas static = record {
  host = counting_host;
  msg = contract_of code gas static;
  config = all_forks;
  grow_cap = λ cap n. n;
}

-- PUSH1 2, PUSH1 3, EXP, PUSH1 0, MSTORE, PUSH1 32, PUSH1 0, RETURN
abbrev pub exp_code : List ℕ
exp_code = 0x60 ∷ 2 ∷ 0x60 ∷ 3 ∷ 0x0a ∷ 0x60 ∷ 0 ∷ 0x52 ∷ 0x60 ∷ 32 ∷ 0x60 ∷ 0 ∷ 0xf3 ∷ []

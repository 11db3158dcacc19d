-- ===== src/State/Example.antt =====
-- A setting for the tests of transactions: every account has a balance, and account 16 has code.
use dogesyncer.Prelude.{
  ℕ, Bool, Option, none, some, List, [], ◌∷◌, ◌+◌, ◌==◌, if◌then◌else◌, length,
}
use dogesyncer.Runtime.{TxContext, Contract, CallType}
use dogesyncer.Evm.Example.{all_forks, counting_host}
use dogesyncer.Evm.Engine.{evm}
use dogesyncer.Evm.Engine.Sound.{evm-IsSound}
use dogesyncer.State.Precompiled.{Library, precompiled}
use dogesyncer.State.Precompiled.Sound.{precompiled-IsSound}
use dogesyncer.State.Txn.{Committed, Txn}
use dogesyncer.State.Call.{Setting}
use dogesyncer.State.Call.Gas.{AllSound, nil, cons}

-- An invalid instruction, behind the transfer that a call starts with
abbrev pub failing_code : List ℕ
failing_code = 0xfe ∷ []

-- The hash of a code is its length here, and account 16 has the code with the hash 1.
abbrev pub chain : Committed
chain = record {
  account_at = λ a. some (record {
    nonce = 4;
    balance = 1000000;
    code_hash = if a == 16 then 1 else 0;
    trie = λ k. none;
  });
  code_of = λ h. if h == 1 then failing_code else [];
  hashit = λ k. k;
  keccak256 = λ bs. length bs;
}

-- Hashes and curves that return nothing.
abbrev pub packages : Library
packages = record { run = λ addr input. ([], none) }

abbrev pub setting : Setting
setting = record {
  committed = chain;
  config = all_forks;
  runtimes = precompiled packages ∷ evm (λ cap n. n) 0 ∷ [];
  get_hash = λ n. n;
  create_address = λ a n. a + n + 100;
  create_address2 = λ a s code. a + s + 100;
}

abbrev pub setting-AllSound : AllSound setting.runtimes
setting-AllSound = cons (precompiled-IsSound packages) (cons (evm-IsSound (λ cap n. n) 0) nil)

abbrev pub no_change : Txn
no_change = record {
  snapshots = [];
  tree = record { objects = λ a. none; refund = none; logs = none };
}

abbrev pub block : TxContext
block = counting_host.tx_context

-- A call of account 16 by account 7.
abbrev pub call_of : CallType → Option ℕ → Bool → Contract
call_of typ value static = record {
  code = failing_code;
  typ = typ;
  code_address = 16;
  address = 16;
  origin = 7;
  caller = 7;
  depth = 1;
  value = value;
  input = [];
  gas = 50000;
  static = static;
}

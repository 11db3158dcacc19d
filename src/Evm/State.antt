-- ===== src/Evm/State.antt =====
-- state/runtime/evm/state.go: the state of one run of the machine, and its elementary actions.
-- An instruction of the source returns early after `exit` and panics on a nil pointer or a slice
-- out of range; `Act` is a state monad with these two outcomes. The stack is a list, its top first,
-- so that `sp` is its length. Memory is a list of bytes with the capacity of the Go slice beside it;
-- the bytes between length and capacity are zero, since `reset` clears what a run has written. The
-- scratch buffer `tmp` and the logger are left out. `ip` is an int in two's complement.
pub mod Bytes
pub mod Memory
pub mod Keeps
pub mod Yields
use dogesyncer.Prelude.{
  ℕ, suc, Bool, true, false, Option, none, some, List, [], ◌∷◌, ◌++◌, ◌+◌, ◌-◌, ◌*◌, ◌/◌, ◌%◌, ◌^◌,
  ltb, leb, ◌==◌, ◌&&◌, ◌||◌, not, if◌then◌else◌, length, take, drop, replicate,
}
use dogesyncer.Chain.Forks.{ForksInTime}
use dogesyncer.Runtime.{Error, out_of_gas, gas_uint_overflow, Host, Contract}

pub record State (W : Type 0) : Type 0 where
  pub ip : ℕ
  pub code : List ℕ
  pub memory : List ℕ
  pub mem_cap : ℕ
  pub last_gas_cost : ℕ
  pub stack : List ℕ
  pub err : Option Error
  pub stop : Bool
  pub gas : ℕ
  pub bitmap : List ℕ
  pub return_data : List ℕ
  pub ret : List ℕ
  pub world : W

-- What a run does not change: `host`, `msg` and `config`. `grow_cap` is the capacity that the Go
-- runtime gives a slice of the first capacity that must hold the second number of bytes.
pub record Env (W : Type 0) : Type 0 where
  pub host : Host W
  pub msg : Contract
  pub config : ForksInTime
  pub grow_cap : ℕ → ℕ → ℕ

-- `next`: the instruction goes on. `returned`: it has returned. `panicked`: it has panicked.
pub data Outcome (A : Type 0) : Type 0 where
  next : A → Outcome A
  returned : Outcome A
  panicked : Outcome A

abbrev pub Act : Type 0 → Type 0 → Type 0
Act W A = State W → Outcome A × State W

abbrev pub continue : {W A B : Type 0} → Outcome A → (A → Act W B) → Act W B
continue (next a) f s = f a s
continue returned f s = (returned, s)
continue panicked f s = (panicked, s)

infixl 5 ◌>>=◌ ◌>>◌
unfoldable pub ◌>>=◌ : {W A B : Type 0} → Act W A → (A → Act W B) → Act W B
◌>>=◌ m f s = let (outcome, t) = m s in continue outcome f t

abbrev pub ◌>>◌ : {W B : Type 0} → Act W (Unit {0}) → Act W B → Act W B
m >> n = m >>= λ _. n

module _ {W : Type 0} where
  module _ {A : Type 0} where
    unfoldable pub pure : A → Act W A
    pure a s = (next a, s)

    unfoldable pub gets : (State W → A) → Act W A
    gets f s = (next (f s), s)

    unfoldable pub panic : Act W A
    panic s = (panicked, s)

    -- `c.exit(err)` and the `return` that follows it
    unfoldable pub exit : Error → Act W A
    exit x s = (returned, record s { stop = true; err = some x })

  unfoldable pub done : Act W Unit
  done s = (next tt, s)

  unfoldable pub halt : Act W Unit
  halt s = (next tt, record s { stop = true })

  unfoldable pub push : ℕ → Act W Unit
  push v s = (next tt, record s { stack = v ∷ s.stack })

  unfoldable pub pop_from : List ℕ → Act W ℕ
  pop_from [] s = (panicked, s)
  pop_from (v ∷ rest) s = (next v, record s { stack = rest })

  -- `pop` returns nil on the empty stack, and every caller uses its result at once
  unfoldable pub pop : Act W ℕ
  unfolding pop_from
  pop s = pop_from s.stack s

  top_from : List ℕ → Act W ℕ
  top_from [] s = (panicked, s)
  top_from (v ∷ rest) s = (next v, s)

  unfoldable pub top : Act W ℕ
  unfolding top_from
  top s = top_from s.stack s

  set_top_in : ℕ → List ℕ → Act W Unit
  set_top_in v [] s = (panicked, s)
  set_top_in v (_ ∷ rest) s = (next tt, record s { stack = v ∷ rest })

  -- a write through the pointer that `top` returned
  unfoldable pub set_top : ℕ → Act W Unit
  unfolding set_top_in
  set_top v s = set_top_in v s.stack s

  unfoldable pub consume_gas : ℕ → Act W Unit
  consume_gas cost s =
      if ltb s.gas cost
      then (returned, record s { stop = true; err = some out_of_gas })
      else (next tt, record s { gas = s.gas - cost })

  -- `c.gas += gas`
  unfoldable pub add_gas : ℕ → Act W Unit
  add_gas amount s = (next tt, record s { gas = (s.gas + amount) % 2 ^ 64 })

  unfoldable pub set_ip : ℕ → Act W Unit
  set_ip ip s = (next tt, record s { ip = ip })

  unfoldable pub set_return_data : List ℕ → Act W Unit
  set_return_data bytes s = (next tt, record s { return_data = bytes })

  unfoldable pub set_ret : List ℕ → Act W Unit
  set_ret bytes s = (next tt, record s { ret = bytes })

  unfoldable pub set_world : W → Act W Unit
  set_world w s = (next tt, record s { world = w })

  unfoldable pub stack_at_least : ℕ → Act W Bool
  stack_at_least n s = (next (leb n (length s.stack)), s)

abbrev pub is_uint64 : ℕ → Bool
is_uint64 n = ltb n (2 ^ 64)

-- The values that big.Int and the byte arrays of types/ read: the low 64, 160 and 256 bits.
abbrev pub to_uint64 : ℕ → ℕ
to_uint64 n = n % 2 ^ 64

abbrev pub to_address : ℕ → ℕ
to_address n = n % 2 ^ 160

abbrev pub to_hash : ℕ → ℕ
to_hash n = n % 2 ^ 256

-- ===== src/Evm/State/Memory.antt =====
-- state/runtime/evm/state.go: `extendMemory`, `extendByteSlice` and `get2`, and the writes to memory.
use dogesyncer.Prelude.{
  ℕ, List, [], ◌++◌, ◌+◌, ◌-◌, ◌*◌, ◌/◌, ◌%◌, ◌^◌, ltb, leb, ◌==◌, ◌&&◌, ◌||◌, if◌then◌else◌,
  length, replicate,
}
use dogesyncer.Runtime.{gas_uint_overflow}
use dogesyncer.Evm.State.{
  Env, Act, next, ◌>>=◌, ◌>>◌, pure, done, gets, exit, panic, consume_gas, is_uint64,
}
use dogesyncer.Evm.State.Bytes.{slice, splice}

-- The fee for `w` words, in uint64 arithmetic.
unfoldable pub word_fee : ℕ → ℕ
word_fee w = (3 * w + w * w % 2 ^ 64 / 512) % 2 ^ 64

module _ {W : Type 0} where
  unfoldable pub set_last_gas_cost : ℕ → Act W Unit
  set_last_gas_cost cost s = (next tt, record s { last_gas_cost = cost })

  -- `c.memory = extendByteSlice(c.memory, n)`
  unfoldable pub resize : Env W → ℕ → Act W Unit
  resize e n s = (
    next tt,
    record s {
      memory = s.memory ++ replicate (n - length s.memory) 0;
      mem_cap = if ltb s.mem_cap n then e.grow_cap s.mem_cap n else s.mem_cap;
    },
  )

  -- The part of `extendMemory` for a new end beyond the memory. Both numbers are uint64.
  unfoldable pub expand : Env W → ℕ → ℕ → Act W Unit
  expand e new_size last = do
    let w = (new_size + 31) / 32
    let new_cost = word_fee w
    set_last_gas_cost new_cost
    consume_gas ((new_cost + 2 ^ 64 - last) % 2 ^ 64)
    resize e (w * 32)

  unfoldable pub grow : Env W → ℕ → Act W Unit
  grow e new_size = do
    len ← gets (λ s. length s.memory)
    last ← gets (λ s. s.last_gas_cost)
    if ltb len new_size then expand e new_size last else done

  unfoldable pub extend_memory : Env W → ℕ → ℕ → Act W Unit
  extend_memory e offset size =
      if is_uint64 offset && is_uint64 size
      then (if size == 0
          then done
          else if ltb 0xffffffffe0 offset || ltb 0xffffffffe0 size
          then exit gas_uint_overflow
          else grow e (offset + size))
      else exit gas_uint_overflow

  -- `get2` is called with an empty target only.
  unfoldable pub get2 : Env W → ℕ → ℕ → Act W (List ℕ)
  get2 e offset size =
      if size == 0
      then pure []
      else (do extend_memory e offset size; gets (λ s. slice offset size s.memory))

  -- `copy(c.memory[o:], bytes)`, which panics where `o` is beyond the length
  unfoldable pub write_memory : ℕ → List ℕ → Act W Unit
  write_memory o bytes s =
      if leb o (length s.memory)
      then (next tt, record s { memory = splice o bytes s.memory })
      else panic s

  -- `copy(c.memory[o:o+size], bytes)`, which panics where the slice ends beyond the capacity
  unfoldable pub write_slice : ℕ → ℕ → List ℕ → Act W Unit
  write_slice o size bytes s =
      if leb (o + size) s.mem_cap
      then (next tt, record s { memory = splice o (slice 0 size bytes) s.memory })
      else panic s

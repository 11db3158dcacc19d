-- ===== src/Evm/Ops/Flow.antt =====
-- state/runtime/evm/instructions.go: the stack, jump, log and halting instructions.
use dogesyncer.Prelude.{
  ℕ, zero, suc, Bool, false, Option, none, some, List, [], ◌∷◌, ◌++◌, ◌+◌, ◌-◌, ◌*◌, ◌%◌, ◌^◌, ltb,
  leb, ◌==◌, ◌&&◌, not, if◌then◌else◌, length, drop, replicate, get_elem?, set,
}
use dogesyncer.Runtime.{
  write_protection, stack_underflow, op_code_not_found, invalid_jump, execution_reverted,
}
use dogesyncer.Evm.State.{
  State, Env, Act, next, ◌>>=◌, ◌>>◌, pure, done, gets, exit, panic, halt, pop, push, consume_gas,
  set_ip, set_ret, set_world, stack_at_least, to_uint64, to_hash,
}
use dogesyncer.Evm.State.Bytes.{from_bytes, slice}
use dogesyncer.Evm.State.Memory.{get2}
use dogesyncer.Evm.Bitmap.{is_set}

-- The top of a stack and the item `n` below it, swapped.
unfoldable pub exchange : ℕ → List ℕ → List ℕ
exchange n [] = []
exchange n (a ∷ rest) = elim (get_elem? rest (n - 1)) [
  | none ↦ a ∷ rest
  | some b ↦ b ∷ set rest (n - 1) a
]

module _ {W : Type 0} where
  unfoldable pub op_pop : Act W Unit
  op_pop = do v ← pop; done

  -- `validJumpdest`: `BitLen() >= 63` is `2^62 ≤ dest`
  unfoldable pub valid_jumpdest : ℕ → State W → Bool
  valid_jumpdest dest s =
      if leb (2 ^ 62) dest
      then false
      else if leb (length s.code) dest
      then false
      else is_set s.bitmap dest

  -- `c.ip = int(dest.Uint64() - 1)`; the loop of `Run` adds the one again
  unfoldable pub jump_to : ℕ → Act W Unit
  jump_to dest = do
    valid ← gets (valid_jumpdest dest)
    if valid then set_ip ((dest + 2 ^ 64 - 1) % 2 ^ 64) else exit invalid_jump

  unfoldable pub op_jump : Act W Unit
  op_jump = do dest ← pop; jump_to dest

  unfoldable pub op_jumpi : Act W Unit
  op_jumpi = do dest ← pop; cond ← pop; (if cond == 0 then done else jump_to dest)

  unfoldable pub op_jump_dest : Act W Unit
  op_jump_dest = done

  -- The bytes behind the instruction; where the code ends too early, `n` zeros follow them.
  unfoldable pub push_bytes : ℕ → State W → List ℕ
  push_bytes n s =
      if ltb (length s.code) (s.ip + 1 + n)
      then drop (s.ip + 1) s.code ++ replicate n 0
      else slice (s.ip + 1) n s.code

  unfoldable pub op_push : ℕ → Act W Unit
  op_push n = do
    bytes ← gets (push_bytes n)
    ip ← gets (λ s. s.ip)
    push (from_bytes bytes)
    set_ip (ip + n)

  -- `c.stack[c.sp-n]`
  unfoldable pub peeked : Option ℕ → Act W ℕ
  peeked none = panic
  peeked (some v) = pure v

  unfoldable pub peek_at : ℕ → Act W ℕ
  peek_at n = do found ← gets (λ s. get_elem? s.stack (n - 1)); peeked found

  unfoldable pub op_dup : ℕ → Act W Unit
  op_dup n = do
    enough ← stack_at_least n
    if enough then (do v ← peek_at n; push v) else exit stack_underflow

  unfoldable pub swap : ℕ → Act W Unit
  unfolding exchange
  swap n s = (next tt, record s { stack = exchange n s.stack })

  unfoldable pub op_swap : ℕ → Act W Unit
  op_swap n = do enough ← stack_at_least (n + 1); if enough then swap n else exit stack_underflow

  unfoldable pub op_stop : Act W Unit
  op_stop = halt

  unfoldable pub pop_topics : ℕ → Act W (List ℕ)
  pop_topics zero = pure []
  pop_topics (suc n) = do topic ← pop; topics ← pop_topics n; pure (to_hash topic ∷ topics)

module _ {W : Type 0} (e : Env W) where
  unfoldable pub write_log : ℕ → Act W Unit
  write_log size = do
    m_start ← pop
    m_size ← pop
    topics ← pop_topics size
    bytes ← get2 e m_start m_size
    w ← gets (λ s. e.host.emit_log s.world e.msg.address topics bytes)
    set_world w
    consume_gas (size * 375)
    consume_gas (to_uint64 m_size * 8 % 2 ^ 64)

  -- `size` is the number of topics: the factory's argument less one
  unfoldable pub op_log : ℕ → Act W Unit
  op_log size = if e.msg.static then exit write_protection else (do
    enough ← stack_at_least (2 + size)
    if enough then write_log size else exit stack_underflow)

  -- `opHalt(REVERT)` and `opHalt(RETURN)`
  unfoldable pub op_halt : Bool → Act W Unit
  op_halt revert = if revert && not e.config.byzantium then exit op_code_not_found else (do
    offset ← pop
    size ← pop
    set_ret []
    bytes ← get2 e offset size
    set_ret bytes
    if revert then exit execution_reverted else halt)

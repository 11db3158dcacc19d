-- ===== src/Evm/Ops/Data.antt =====
-- state/runtime/evm/instructions.go: memory, hashing and the copies of code and data.
use dogesyncer.Prelude.{ℕ, List, [], ◌∷◌, ◌+◌, ◌*◌, ◌/◌, ◌%◌, ◌^◌, ltb, ◌==◌, if◌then◌else◌, length}
use dogesyncer.Runtime.{op_code_not_found, gas_uint_overflow, return_data_out_of_bounds}
use dogesyncer.Evm.State.{
  Env, Act, ◌>>=◌, ◌>>◌, done, gets, panic, exit, pop, top, set_top, push, consume_gas, is_uint64,
  to_uint64, to_address,
}
use dogesyncer.Evm.State.Bytes.{from_bytes, to_bytes, set_bytes, slice}
use dogesyncer.Evm.State.Memory.{extend_memory, get2, write_memory}

-- `((size + 31) / 32) * fee` on uint64
abbrev pub words_fee : ℕ → ℕ → ℕ
words_fee size fee = (to_uint64 size + 31) % 2 ^ 64 / 32 * fee % 2 ^ 64

module _ {W : Type 0} (e : Env W) where
  unfoldable pub op_mload : Act W Unit
  op_mload = do offset ← pop; bytes ← get2 e offset 32; push (from_bytes bytes)

  -- The write of a value with more than 32 bytes runs out of the slice.
  unfoldable pub write_word : ℕ → ℕ → Act W Unit
  write_word offset val = if ltb val (2 ^ 256) then write_memory offset (to_bytes 32 val) else panic

  unfoldable pub op_mstore : Act W Unit
  op_mstore = do offset ← pop; val ← pop; extend_memory e offset 32; write_word offset val

  unfoldable pub op_mstore8 : Act W Unit
  op_mstore8 = do
    offset ← pop
    val ← pop
    extend_memory e offset 1
    write_memory offset (val % 256 ∷ [])

  unfoldable pub op_sha3 : Act W Unit
  op_sha3 = do
    offset ← pop
    size ← pop
    bytes ← get2 e offset size
    consume_gas (words_fee size 6)
    push (e.host.keccak256 bytes)

  unfoldable pub op_call_data_load : Act W Unit
  op_call_data_load = do offset ← top; set_top (from_bytes (set_bytes e.msg.input 32 offset))

  -- `if size != 0 { c.setBytes(c.memory[memOffset:], data, size, dataOffset) }`
  unfoldable pub copy_to_memory : ℕ → ℕ → ℕ → List ℕ → Act W Unit
  copy_to_memory mem_offset data_offset size bytes =
      if to_uint64 size == 0
      then done
      else write_memory (to_uint64 mem_offset) (set_bytes bytes (to_uint64 size) data_offset)

  unfoldable pub op_call_data_copy : Act W Unit
  op_call_data_copy = do
    mem_offset ← pop
    data_offset ← pop
    size ← pop
    extend_memory e mem_offset size
    consume_gas (words_fee size 3)
    copy_to_memory mem_offset data_offset size e.msg.input

  unfoldable pub op_code_copy : Act W Unit
  op_code_copy = do
    mem_offset ← pop
    data_offset ← pop
    size ← pop
    extend_memory e mem_offset size
    consume_gas (words_fee size 3)
    code ← gets (λ s. s.code)
    copy_to_memory mem_offset data_offset size code

  unfoldable pub op_ext_code_copy : Act W Unit
  op_ext_code_copy = do
    address ← pop
    mem_offset ← pop
    code_offset ← pop
    size ← pop
    extend_memory e mem_offset size
    consume_gas (words_fee size 3)
    consume_gas (if e.config.eip150 then 700 else 20)
    code ← gets (λ s. e.host.get_code s.world (to_address address))
    copy_to_memory mem_offset code_offset size code

  -- The part of `opReturnDataCopy` below its check that the data offset is a uint64.
  unfoldable pub copy_return_data : ℕ → ℕ → ℕ → Act W Unit
  copy_return_data mem_offset data_offset size = do
    consume_gas (words_fee size 3)
    bytes ← gets (λ s. s.return_data)
    (if is_uint64 (data_offset + size)
        then if ltb (length bytes) (data_offset + size)
          then exit return_data_out_of_bounds
          else write_memory (to_uint64 mem_offset) (slice data_offset size bytes)
        else exit return_data_out_of_bounds)

  unfoldable pub take_return_data : Act W Unit
  take_return_data = do
    mem_offset ← pop
    data_offset ← pop
    size ← pop
    extend_memory e mem_offset size
    (if is_uint64 data_offset
        then copy_return_data mem_offset data_offset size
        else exit gas_uint_overflow)

  unfoldable pub op_return_data_copy : Act W Unit
  op_return_data_copy = if e.config.byzantium then take_return_data else exit op_code_not_found

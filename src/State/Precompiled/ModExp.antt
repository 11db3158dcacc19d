-- ===== src/State/Precompiled/ModExp.antt =====
-- state/runtime/precompiled/modexp.go: the power of big numbers, and what it costs. `run` takes its three
-- sizes as an `int`: one of 2^63 and more is negative there, and cutting a buffer to it panics. That the
-- memory suffices for a smaller size is assumed.
use dogesyncer.Prelude.{
  ℕ, ◌+◌, ◌-◌, ◌*◌, ◌/◌, ◌%◌, ◌^◌, Option, none, some, List, [], ◌++◌, take, drop, replicate,
  length, ltb, leb, ◌==◌, ◌&&◌, ◌||◌, if◌then◌else◌,
}
use dogesyncer.Evm.State.Bytes.{from_bytes, to_bytes}
use dogesyncer.Evm.Word.{bit_len}

-- `get`: the first bytes, with zeros for those that are not there, and the bytes behind them
unfoldable pub get : List ℕ → ℕ → List ℕ × List ℕ
get input size = (take size input ++ replicate (size - length input) 0, drop size input)

-- `getUint64`: the last 8 of 32 bytes
unfoldable pub get_uint64 : List ℕ → ℕ × List ℕ
unfolding get
get_uint64 input = let (word, rest) = get input 32 in (from_bytes (drop 24 word), rest)

unfoldable pub adjusted_exponent_length : ℕ → ℕ → ℕ
adjusted_exponent_length exp_len head =
    let bit_length = if head == 0 then 0 else bit_len head - 1 in
    if leb exp_len 32 then bit_length else (exp_len - 32) * 8 + bit_length

-- `subMul`, whose difference is not negative where it is called
unfoldable pub sub_mul : ℕ → ℕ → ℕ → ℕ → ℕ
sub_mul x a b c = x * b - c + x * x / a

unfoldable pub mult_complexity : ℕ → ℕ
unfolding sub_mul
mult_complexity x =
    if leb x 64 then x * x else if leb x 1024 then sub_mul x 4 96 3072 else sub_mul x 16 480 199680

-- The first bytes of the exponent, as a number.
unfoldable pub exponent_head : List ℕ → ℕ → ℕ → ℕ
unfolding get
exponent_head input base_len exp_len =
    let start = base_len % 2 ^ 64 in
    let size = if ltb exp_len 32 then exp_len else 32 in
    if ltb start (length input) then from_bytes (get (drop start input) size).0 else 0

-- `gas` on the three sizes and the bytes behind them
unfoldable pub mod_exp_price : ℕ → ℕ → ℕ → List ℕ → ℕ
unfolding adjusted_exponent_length mult_complexity exponent_head
mod_exp_price base_len exp_len mod_len input =
    let complexity = mult_complexity (if leb base_len mod_len then mod_len else base_len) in
    let adjusted = adjusted_exponent_length exp_len (exponent_head input base_len exp_len) in
    let cost = complexity * (if leb 1 adjusted then adjusted else 1) / 20 in
    if leb (2 ^ 64) cost then 2 ^ 64 - 1 else cost

unfoldable pub mod_exp_gas : List ℕ → ℕ
unfolding mod_exp_price get
mod_exp_gas input =
    let (base, tail) = get input 32 in
    let (exponent, tail') = get tail 32 in
    let (modulus, rest) = get tail' 32 in
    mod_exp_price (from_bytes base) (from_bytes exponent) (from_bytes modulus) (drop 96 input)

-- `none` where a size is negative as an `int`, and `get` panics.
unfoldable pub mod_exp_values : ℕ → ℕ → ℕ → List ℕ → Option (List ℕ)
unfolding get
mod_exp_values base_len exponent_len modulus_len input =
    if leb (2 ^ 63) base_len || leb (2 ^ 63) exponent_len || leb (2 ^ 63) modulus_len
    then none
    else let (base, tail) = get input base_len in
      let (exponent, tail') = get tail exponent_len in
      let modulus = from_bytes (get tail' modulus_len).0 in
      if modulus == 0
      then some (replicate modulus_len 0)
      else some (to_bytes modulus_len (from_bytes base ^ from_bytes exponent % modulus))

unfoldable pub mod_exp_run : List ℕ → Option (List ℕ)
unfolding get_uint64 mod_exp_values
mod_exp_run input =
    let (base_len, tail) = get_uint64 input in
    let (exponent_len, tail') = get_uint64 tail in
    let (modulus_len, rest) = get_uint64 tail' in
    if base_len == 0 && modulus_len == 0
    then some []
    else mod_exp_values base_len exponent_len modulus_len rest

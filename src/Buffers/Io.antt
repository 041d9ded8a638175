-- ===== src/Buffers/Io.antt =====
-- HIOBuffer of src/hiobuffer.h and .cpp. An int is kept as its
-- two's complement, a number below 2 ^ 32.
pub mod Laws
use huicpp.Base.{
  Bool, ℕ, ◌+◌, ◌-◌, ◌%◌, ◌^◌, List, [], ◌∷◌, ◌++◌, length, replicate, take, if◌then◌else◌, ltb,
  Option, none, some, get_elem?, true, false,
}
use huicpp.Base.Options.{◌>>=◌, return}
use huicpp.Buffers.Memory.{write_at}

-- a < b as signed ints.
unfoldable pub int_lt : ℕ → ℕ → Bool
int_lt a b = ltb ((a + 2 ^ 31) % 2 ^ 32) ((b + 2 ^ 31) % 2 ^ 32)

unfoldable pub int_sub : ℕ → ℕ → ℕ
int_sub a b = (a + (2 ^ 32 - b % 2 ^ 32)) % 2 ^ 32

pub record IoBuffer : Type 0 where
  pub avalable_length : ℕ
  pub buffer : List ℕ
  pub size : ℕ
  pub pos : ℕ

-- `memory` is what malloc gives.
unfoldable pub construct_io : ℕ → List ℕ → IoBuffer
construct_io size memory = record { avalable_length = size; buffer = memory; size = size; pos = 0 }

unfoldable pub set_pos : ℕ → IoBuffer → IoBuffer
unfolding int_sub
set_pos new_pos b = record b {
  avalable_length = int_sub b.avalable_length new_pos;
  pos = (b.pos + new_pos) % 2 ^ 32;
}

unfoldable pub reset_buffer : IoBuffer → IoBuffer
reset_buffer b = record b { buffer = replicate b.size 0; avalable_length = b.size; pos = 0 }

-- `none`: a write outside of the memory.
unfoldable pub append_str : List ℕ → IoBuffer → Option IoBuffer
unfolding int_lt int_sub ◌>>=◌
append_str str b = if int_lt b.avalable_length ((length str + b.pos) % 2 ^ 32) then some b else (do
  buffer' ← write_at b.pos str b.buffer
  return (record b {
    buffer = buffer';
    avalable_length = int_sub b.avalable_length (length str);
    pos = (b.pos + length str) % 2 ^ 32;
  }))

-- PopData and DataLength.
unfoldable pub pop_bytes : IoBuffer → List ℕ
pop_bytes b = take b.pos b.buffer

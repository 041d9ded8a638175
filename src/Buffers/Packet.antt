-- ===== src/Buffers/Packet.antt =====
-- HOutputPacketBuffer and HIOOutputBuffer of src/houtputpacketbuffer.h and .cpp.
pub mod Laws
use huicpp.Base.{
  ℕ, suc, ◌+◌, ◌-◌, ◌*◌, ◌/◌, ◌%◌, ◌^◌, List, [], ◌∷◌, ◌++◌, length, take, replicate, Bool, true,
  false, if◌then◌else◌, leb, Option, none, some, set,
}
use huicpp.Base.Options.{◌>>=◌, return}
use huicpp.Buffers.Memory.{write_at, read_at}

-- `m_length` is the length of `buf`.
pub record PacketBuffer : Type 0 where
  pub buf : List ℕ
  pub current_pos : ℕ

unfoldable pub construct : ℕ → PacketBuffer
construct length = record { buf = replicate length 0; current_pos = 0 }

-- The code does not test whether the data fit; `none` is a write outside of the buffer.
unfoldable pub enqueue : List ℕ → PacketBuffer → Option PacketBuffer
unfolding ◌>>=◌
enqueue bytes b = do
  buf' ← write_at b.current_pos bytes b.buf
  return (record { buf = buf'; current_pos = (b.current_pos + length bytes) % 2 ^ 32 })

-- The bytes of `htonl(word)` in memory: network byte order.
unfoldable pub word_bytes : ℕ → List ℕ
word_bytes w = (w / 2 ^ 24 % 256) ∷ (w / 2 ^ 16 % 256) ∷ (w / 2 ^ 8 % 256) ∷ (w % 256) ∷ []

-- `ntohl` of four bytes of memory.
unfoldable pub word_of : List ℕ → Option ℕ
word_of (a ∷ b ∷ c ∷ d ∷ []) = some (a * 2 ^ 24 + b * 2 ^ 16 + c * 2 ^ 8 + d)
word_of _ = none

unfoldable pub enqueue_word : ℕ → PacketBuffer → Option PacketBuffer
enqueue_word word b = enqueue (word_bytes word) b

unfoldable pub extract_word : ℕ → PacketBuffer → Option ℕ
unfolding ◌>>=◌
extract_word position b = do bytes ← read_at position 4 b.buf; word_of bytes

unfoldable pub insert_word : ℕ → ℕ → PacketBuffer → Option PacketBuffer
unfolding ◌>>=◌
insert_word word to_position b = do
  buf' ← write_at to_position (word_bytes word) b.buf
  return (record b { buf = buf' })

unfoldable pub reset : PacketBuffer → PacketBuffer
reset b = record b { current_pos = 0 }

-- Data() up to DataLength().
unfoldable pub data_of : PacketBuffer → List ℕ
data_of b = take b.current_pos b.buf

abbrev pub io_count : ℕ
io_count = 10

-- A region that is not owned: its bytes stand for its pointer and length.
pub record IoOutputBuffer : Type 0 where
  pub header : PacketBuffer
  pub index : ℕ
  pub vec : List (List ℕ)

unfoldable pub reset_io : IoOutputBuffer → IoOutputBuffer
unfolding reset
reset_io o = record { header = reset o.header; index = 1; vec = replicate io_count [] }

unfoldable pub add_io : List ℕ → IoOutputBuffer → Bool × IoOutputBuffer
add_io region o =
    if leb io_count o.index
    then (false, o)
    else (true, record o { vec = set o.vec o.index region; index = suc o.index })

unfoldable pub concat : List (List ℕ) → List ℕ
concat [] = []
concat (x ∷ xs) = x ++ concat xs

-- What WriteV is given, and the buffer; `sock.WriteV` is a call of the system.
unfoldable pub write_io : IoOutputBuffer → List ℕ × IoOutputBuffer
unfolding data_of concat
write_io o =
    let o' = record o { vec = set o.vec 0 (data_of o.header) } in
    (concat (take o'.index o'.vec), o')

unfoldable pub sum_lengths : List (List ℕ) → ℕ
sum_lengths [] = 0
sum_lengths (x ∷ xs) = length x + sum_lengths xs

-- The sum is taken modulo 2 ^ 32.
unfoldable pub get_data_length : IoOutputBuffer → ℕ
unfolding sum_lengths
get_data_length o = sum_lengths (take o.index o.vec) % 2 ^ 32

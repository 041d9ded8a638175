-- ===== src/Buffers/Io/Laws.antt =====
-- When Append of HIOBuffer appends, and that it stays inside of its memory.
use huicpp.Base.{
  ℕ, ◌+◌, ◌%◌, ◌^◌, ◌≤◌, ◌<◌, ◌≡◌, refl, ◌∙◌, arith, List, ◌++◌, length, length-replicate, some,
  true, false,
}
use huicpp.Base.Options.{◌>>=◌}
use huicpp.Buffers.Memory.{write_at-Written}
use huicpp.Buffers.Io.{
  IoBuffer, int_lt, int_sub, construct_io, set_pos, reset_buffer, append_str, pop_bytes,
}

-- The sizes add up, and stay below half of what an int holds.
pub record IsIoBuffer (b : IoBuffer) : Type 0 where
  pub whole : length b.buffer ≡ b.size
  pub sum : b.pos + b.avalable_length ≡ b.size
  pub small : b.size < 2 ^ 30

-- The constructor, Reset and a SetPos within the memory keep the sizes.
sizes_lem :
    (b : IoBuffer) (n size : ℕ) (memory : List ℕ)
    → IsIoBuffer b
    → length memory ≡ size
    → size < 2 ^ 30
    → IsIoBuffer (construct_io size memory)
      × IsIoBuffer (reset_buffer b)
      × (n ≤ b.avalable_length → IsIoBuffer (set_pos n b) × ((set_pos n b).pos ≡ b.pos + n))
unfolding construct_io reset_buffer set_pos int_sub
sizes_lem b n size memory v e h = (
  record { whole = e; sum = omega arith; small = h },
  record { whole = length-replicate b.size 0; sum = omega arith; small = v.small },
  λ k. (
    record { whole = v.whole; sum = omega (arith, v.sum, v.small, k); small = v.small },
    omega (arith, v.sum, v.small, k),
  ),
)

-- Append of fewer than 2 ^ 30 bytes to a buffer of fewer than 2 ^ 30 puts the bytes behind the data when
-- there is room for them and for as many bytes as there already are; otherwise it does nothing, also where
-- the bytes would fit.
pub append_str_refines :
    (b : IoBuffer) (str : List ℕ)
    → IsIoBuffer b
    → length str < 2 ^ 30
    → (length str + b.pos + b.pos ≤ b.size
        → (b' : IoBuffer) × (append_str str b ≡ some b')
          × (pop_bytes b' ≡ pop_bytes b ++ str)
          × IsIoBuffer b')
      × (b.size < length str + b.pos + b.pos → append_str str b ≡ some b)
unfolding append_str int_lt int_sub pop_bytes ◌>>=◌
append_str_refines b str v l = (
  λ h.
      let (m, e, w) = write_at-Written b.pos str b.buffer (omega (arith, h, v.whole)) in
      let f : int_lt b.avalable_length ((length str + b.pos) % 2 ^ 32) ≡ false =
        ground (arith, h, v.sum, v.small, l) in
      let p : (b.pos + length str) % 2 ^ 32 ≡ b.pos + length str = omega (arith, h, v.small) in
      (
        record b {
          buffer = m;
          avalable_length = int_sub b.avalable_length (length str);
          pos = (b.pos + length str) % 2 ^ 32;
        },
        rw (f, e) refl,
        rw p w.upto,
        record {
          whole = w.same_length ∙ v.whole;
          sum = omega (arith, h, v.sum, v.small, l);
          small = v.small;
        },
      ),
  λ h.
      let t : int_lt b.avalable_length ((length str + b.pos) % 2 ^ 32) ≡ true =
        ground (arith, h, v.sum, v.small, l) in
      rw t refl,
)

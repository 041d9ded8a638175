-- ===== src/Buffers/Packet/Laws.antt =====
-- What is in a packet buffer after each operation, and what an io vector writes.
use huicpp.Base.{
  ℕ, zero, suc, ◌+◌, ◌%◌, ◌^◌, ◌≤◌, ◌<◌, ◌≡◌, refl, ap, ◌∙◌, arith, List, [], ◌∷◌, ◌++◌, length,
  take, drop, true, length-append, false, leb, none, some, set, length-set,
}
use huicpp.Base.Options.{◌>>=◌}
use huicpp.Buffers.Memory.{write_at, Written, write_at-Written, write_beyond}
use huicpp.Buffers.Packet.{
  PacketBuffer, enqueue, word_bytes, word_of, enqueue_word, extract_word, insert_word, data_of,
  io_count, IoOutputBuffer, add_io, concat, write_io, sum_lengths, get_data_length,
}

pub record IsPacket (b : PacketBuffer) : Type 0 where
  pub pos_in : b.current_pos ≤ length b.buf
  pub small : length b.buf < 2 ^ 32

enqueue-Written :
    (bytes : List ℕ) (b : PacketBuffer) {mem' : List ℕ}
    → IsPacket b
    → b.current_pos + length bytes ≤ length b.buf
    → write_at b.current_pos bytes b.buf ≡ some mem'
    → Written b.current_pos bytes b.buf mem'
    → (enqueue bytes b ≡ some (record { buf = mem'; current_pos = b.current_pos + length bytes }))
unfolding enqueue ◌>>=◌
enqueue-Written bytes b v h e w =
    let n : (b.current_pos + length bytes) % 2 ^ 32 ≡ b.current_pos + length bytes =
      omega (arith, v.small) in
    rw (e, n) refl

-- Enqueue puts the bytes behind the data if they fit into the buffer. It makes no test: bytes that do
-- not fit are written outside of it.
pub enqueue_refines :
    (b : PacketBuffer) (bytes : List ℕ)
    → IsPacket b
    → (b.current_pos + length bytes ≤ length b.buf
        → (b' : PacketBuffer) × (enqueue bytes b ≡ some b')
          × (data_of b' ≡ data_of b ++ bytes)
          × (length b'.buf ≡ length b.buf)
          × IsPacket b')
      × (length b.buf < b.current_pos + length bytes → enqueue bytes b ≡ none)
unfolding data_of
enqueue_refines b bytes v = (
  λ h.
      let (mem', e, w) = write_at-Written b.current_pos bytes b.buf h in
      (
        record { buf = mem'; current_pos = b.current_pos + length bytes },
        enqueue-Written bytes b v h e w,
        w.upto,
        w.same_length,
        record {
          pos_in = omega (arith, h, w.same_length);
          small = omega (arith, v.small, w.same_length);
        },
      ),
  λ h. unfold enqueue ◌>>=◌ in rw (write_beyond b.current_pos bytes b.buf h) refl,
)

word_of-word_bytes : (w : ℕ) → w < 2 ^ 32 → word_of (word_bytes w) ≡ some w
unfolding word_of word_bytes
word_of-word_bytes w h = ap some (omega (arith, h))

length-word_bytes : (w : ℕ) → length (word_bytes w) ≡ 4
unfolding word_bytes
length-word_bytes w = refl

-- A word that is inserted, or enqueued, is extracted from the place where it was put; an insertion
-- leaves the bytes before it and behind it alone.
pub word_round_trip :
    (b : PacketBuffer) (w p : ℕ)
    → IsPacket b
    → w < 2 ^ 32
    → (p + 4 ≤ length b.buf
        → (b' : PacketBuffer) × (insert_word w p b ≡ some b')
          × (extract_word p b' ≡ some w)
          × (take p b'.buf ≡ take p b.buf)
          × (drop (p + 4) b'.buf ≡ drop (p + 4) b.buf)
          × (b'.current_pos ≡ b.current_pos))
      × (b.current_pos + 4 ≤ length b.buf
          → (b' : PacketBuffer) × (enqueue_word w b ≡ some b')
            × (extract_word b.current_pos b' ≡ some w)
            × (b'.current_pos ≡ b.current_pos + 4))
unfolding enqueue_word extract_word insert_word word_bytes ◌>>=◌
word_round_trip b w p v hw = (
  λ h.
      let (mem', e, r) = write_at-Written p (word_bytes w) b.buf h in
      (
        record b { buf = mem' },
        rw e refl,
        rw r.there (word_of-word_bytes w hw),
        r.before,
        r.after,
        refl,
      ),
  λ h.
      let (mem', e, r) = write_at-Written b.current_pos (word_bytes w) b.buf h in
      (
        record { buf = mem'; current_pos = b.current_pos + 4 },
        enqueue-Written (word_bytes w) b v h e r,
        rw r.there (word_of-word_bytes w hw),
        refl,
      ),
)

-- The regions that have been added; the first entry is the header's.
pub record IsIo (o : IoOutputBuffer) (regions : List (List ℕ)) : Type 0 where
  pub size : length o.vec ≡ io_count
  pub indexed : o.index ≡ suc (length regions)
  pub room : o.index ≤ io_count
  pub first : List ℕ
  pub entries : take o.index o.vec ≡ first ∷ regions

take-set :
    {A : Type 0} (xs : List A) (i : ℕ) (v : A)
    → i < length xs
    → take (suc i) (set xs i v) ≡ take i xs ++ (v ∷ [])
take-set [] i v h = absurd (omega arith)
take-set (x ∷ xs) zero v h = refl
take-set (x ∷ xs) (suc i) v h = ap (λ l. x ∷ l) (take-set xs i v (omega arith))

-- AddIo keeps up to nine regions, in their order, and refuses any other without a change.
pub add_io_refines :
    (o : IoOutputBuffer) (regions : List (List ℕ)) (region : List ℕ)
    → IsIo o regions
    → (length regions < 9
        → ((add_io region o).0 ≡ true) × IsIo (add_io region o).1 (regions ++ (region ∷ [])))
      × (length regions ≡ 9 → add_io region o ≡ (false, o))
unfolding add_io
add_io_refines o regions region v = (
  λ h.
      let b : leb io_count o.index ≡ false = ground (arith, v.indexed, h) in
      rw b (
        refl,
        record {
          size = length-set o.vec o.index region ∙ v.size;
          indexed = omega (arith, v.indexed, length-append regions (region ∷ []));
          room = omega (arith, v.indexed, h);
          first = v.first;
          entries =
              take-set o.vec o.index region (omega (arith, v.indexed, v.size, h))
              ∙ ap (λ l. l ++ (region ∷ [])) v.entries;
        },
      ),
  λ h. let b : leb io_count o.index ≡ true = ground (arith, v.indexed, h) in rw b refl,
)

unfoldable rest : List (List ℕ) → List (List ℕ)
rest [] = []
rest (x ∷ xs) = xs

take-set_first :
    (i : ℕ) (xs : List (List ℕ)) {f : List ℕ} {rs : List (List ℕ)} (v : List ℕ)
    → take i xs ≡ f ∷ rs
    → take i (set xs 0 v) ≡ v ∷ rs
unfolding rest
take-set_first zero xs v e = absurd (omega (arith, ap length e))
take-set_first (suc i) [] v e = absurd (omega (arith, ap length e))
take-set_first (suc i) (x ∷ xs) v e = ap (λ l. v ∷ rest l) e

-- WriteIo hands over the data of the header and then the regions in their order, and GetDataLength
-- afterwards counts all of it, modulo 2 ^ 32; before, it leaves out the header.
pub write_io_refines :
    (o : IoOutputBuffer) (regions : List (List ℕ))
    → IsIo o regions
    → ((write_io o).0 ≡ data_of o.header ++ concat regions)
      × (get_data_length (write_io o).1
          ≡ (length (data_of o.header) + sum_lengths regions) % 2 ^ 32)
      × IsIo (write_io o).1 regions
unfolding write_io get_data_length concat sum_lengths data_of
write_io_refines o regions v =
    let d = data_of o.header in
    let e : take o.index (set o.vec 0 d) ≡ d ∷ regions = take-set_first o.index o.vec d v.entries in
    (
      unfold concat in ap concat e,
      ap (λ l. sum_lengths l % 2 ^ 32) e,
      record {
        size = length-set o.vec 0 d ∙ v.size;
        indexed = v.indexed;
        room = v.room;
        first = d;
        entries = e;
      },
    )

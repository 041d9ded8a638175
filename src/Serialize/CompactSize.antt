-- ===== src/Serialize/CompactSize.antt =====
-- src/hserialize.h, GetSizeOfCompactSize, WriteCompactSize and ReadCompactSize.
use huicpp.Base.{
  ℕ, ◌+◌, ◌^◌, ◌<◌, ◌≡◌, refl, arith, List, [], ◌++◌, length, Bool-cases, inl, inr, ltb, leb, ◌==◌,
  if◌then◌else◌, append-nil, true, ltb→lt,
}
use huicpp.Serialize.Stream.{
  OStream, IStream, Delivers, Reader, Reads, Writes, Reads-bind, Reads-return, Writes-seq, ◌>>=◌,
  return,
}
use huicpp.Serialize.Bytes.{object_bytes, write_data, read_data, write_data-Writes, read_data-Reads}

-- The number of bytes of a compact size: the four classes of the source's comment.
unfoldable pub get_size_of_compact_size : ℕ → ℕ
get_size_of_compact_size n =
    if ltb n 253
    then 1
    else if leb n 0xffff
    then 1 + 2
    else if leb n 0xffff_ffff
    then 1 + 4
    else 1 + 8

-- The bytes themselves, by class.
unfoldable pub compact_size_bytes : ℕ → List ℕ
compact_size_bytes n =
    if ltb n 253
    then object_bytes 1 n
    else if leb n 0xffff
    then object_bytes 1 253 ++ object_bytes 2 n
    else if leb n 0xffff_ffff
    then object_bytes 1 254 ++ object_bytes 4 n
    else object_bytes 1 255 ++ object_bytes 8 n

pub length-compact_size_bytes : (n : ℕ) → length (compact_size_bytes n) ≡ get_size_of_compact_size n
unfolding compact_size_bytes get_size_of_compact_size object_bytes
length-compact_size_bytes n = ground arith

module _ {S : Type 0} (os : OStream S) where
  unfoldable pub write_compact_size : S → ℕ → S
  write_compact_size s n =
      if ltb n 253
      then write_data os 1 s n
      else if leb n 0xffff
      then write_data os 2 (write_data os 1 s 253) n
      else if leb n 0xffff_ffff
      then write_data os 4 (write_data os 1 s 254) n
      else write_data os 8 (write_data os 1 s 255) n

  tagged :
      (t w n : ℕ)
      → Writes os
          (λ s. write_data os w (write_data os 1 s t) n)
          (object_bytes 1 t ++ object_bytes w n)
  tagged t w n = Writes-seq (write_data-Writes os 1 t) (write_data-Writes os w n)

  pub write_compact_size-Writes :
      (n : ℕ) → Writes os (λ s. write_compact_size s n) (compact_size_bytes n)
  unfolding write_compact_size compact_size_bytes
  write_compact_size-Writes n = elim (Bool-cases (ltb n 253)) [
    | inl a ↦ rw a (write_data-Writes os 1 n)
    | inr a ↦ rw a (elim (Bool-cases (leb n 0xffff)) [
      | inl b ↦ rw b (tagged 253 2 n)
      | inr b ↦ rw b (elim (Bool-cases (leb n 0xffff_ffff)) [
        | inl c ↦ rw c (tagged 254 4 n)
        | inr c ↦ rw c (tagged 255 8 n)
      ])
    ])
  ]

module _ {S : Type 0} (is : IStream S) where
  -- What follows the first byte.
  read_size_of : ℕ → Reader S ℕ
  read_size_of ch =
      if ltb ch 253
      then return ch
      else if ch == 253
      then read_data is 2
      else if ch == 254
      then read_data is 4
      else read_data is 8

  unfoldable pub read_compact_size : Reader S ℕ
  unfolding read_size_of
  read_compact_size = do ch ← read_data is 1; read_size_of ch

  module _ {At : S → List ℕ → Type 0} (d : Delivers is At) where
    untagged :
        (t w n : ℕ)
        → t < 256
        → n < 256 ^ w
        → read_size_of t ≡ read_data is w
        → Reads At read_compact_size (object_bytes 1 t ++ object_bytes w n) n
    unfolding read_compact_size
    untagged t w n ht hn e =
        Reads-bind read_size_of (read_data-Reads is d 1 t (omega arith))
          (rw e (read_data-Reads is d w n hn))

    small : (n : ℕ) → ltb n 253 ≡ true → Reads At read_compact_size (object_bytes 1 n ++ []) n
    unfolding read_compact_size read_size_of
    small n a =
        Reads-bind read_size_of (read_data-Reads is d 1 n (omega (arith, ltb→lt)))
          (rw (read_size_of, a) (Reads-return n))

    -- Any size of 64 bits is read back.
    pub read_compact_size-Reads :
        (n : ℕ) → n < 2 ^ 64 → Reads At read_compact_size (compact_size_bytes n) n
    unfolding compact_size_bytes
    read_compact_size-Reads n h = elim (Bool-cases (ltb n 253)) [
      | inl a ↦ rw a (rw append-nil at (small n a))
      | inr a ↦ rw a (elim (Bool-cases (leb n 0xffff)) [
        | inl b ↦ rw b (untagged 253 2 n (omega arith) (ground arith) (unfold read_size_of in refl))
        | inr b ↦ rw b (elim (Bool-cases (leb n 0xffff_ffff)) [
          | inl c ↦
              rw c (untagged 254 4 n (omega arith) (ground arith) (unfold read_size_of in refl))
          | inr c ↦
              rw c (untagged 255 8 n (omega arith) (omega arith) (unfold read_size_of in refl))
        ])
      ])
    ]

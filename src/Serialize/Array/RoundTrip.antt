-- ===== src/Serialize/Array/RoundTrip.antt =====
-- std::basic_string, CFlatData and std::vector of a fundamental type: what is written is read back.
use huicpp.Base.{
  ℕ, zero, suc, ◌+◌, ◌-◌, ◌*◌, ◌/◌, ◌%◌, ◌^◌, ◌<◌, ◌≡◌, sym, ◌∙◌, ap, arith, List, [], ◌∷◌, ◌++◌,
  length, take, drop, All, length-append, append-nil, append_assoc, min, some, ltb, ◌==◌,
  if◌then◌else◌, take-append-drop, length-take, length-drop, Bool-cases, inl, inr, true, false,
}
use huicpp.Serialize.Stream.{
  OStream, IStream, Delivers, Reads, Reads-bind, Reads-return, Reads-cast, Writes, Writes-one,
  Writes-seq, return,
}
use huicpp.Serialize.CompactSize.{
  compact_size_bytes, length-compact_size_bytes, write_compact_size-Writes, read_compact_size-Reads,
}
use huicpp.Serialize.Codec.{Correct}
use huicpp.Serialize.Array.{
  array_bytes, array_values, length-array_bytes, array_bytes-append, array_values-array_bytes,
  counted_array, size_of_array, serialize_array, read_block, unserialize_string, read_blocks,
  unserialize_fundamentals, basic_string, vector_fundamental,
}

module _ {S : Type 0} (os : OStream S) (w : ℕ) where
  serialize_array-Writes :
      (xs : List ℕ) → Writes os (λ s. serialize_array os w s xs) (counted_array w xs)
  unfolding serialize_array counted_array array_bytes
  serialize_array-Writes [] = rw append-nil (write_compact_size-Writes os 0)
  serialize_array-Writes (x ∷ xs) =
      let n = length (x ∷ xs) in
      elim (Bool-cases (n == 0)) [
        | inl e ↦ absurd (ground arith)
        | inr e ↦
            rw e (Writes-seq (write_compact_size-Writes os n) (Writes-one (array_bytes w (x ∷ xs))))
      ]

size_of_array-length :
    (w : ℕ) (xs : List ℕ) → size_of_array w xs ≡ length (counted_array w xs) % 2 ^ 64
unfolding size_of_array counted_array
size_of_array-length w xs = omega (
  arith,
  length-append (compact_size_bytes (length xs)) (array_bytes w xs),
  length-compact_size_bytes (length xs),
  length-array_bytes w xs,
)

-- The values of an array that a string or vector of `w`-byte objects can hold, and its reader count.
abbrev pub Holds : ℕ → List ℕ → Type 0
Holds w xs = All (λ v. v < 256 ^ w) xs × (length xs < 2 ^ 32)

All-take : (w n : ℕ) (xs : List ℕ) → All (λ v. v < 256 ^ w) xs → All (λ v. v < 256 ^ w) (take n xs)
All-take w zero xs h = tt
All-take w (suc n) [] h = tt
All-take w (suc n) (x ∷ xs) (hx, hxs) = (hx, All-take w n xs hxs)

All-drop : (w n : ℕ) (xs : List ℕ) → All (λ v. v < 256 ^ w) xs → All (λ v. v < 256 ^ w) (drop n xs)
All-drop w zero xs h = h
All-drop w (suc n) [] h = tt
All-drop w (suc n) (x ∷ xs) (hx, hxs) = All-drop w n xs hxs

module _ {T : Type 0} (is : IStream T) {At : T → List ℕ → Type 0} (del : Delivers is At)
    (w : ℕ) where
  read_block-Reads :
      (xs : List ℕ) (n : ℕ)
      → All (λ v. v < 256 ^ w) xs
      → n ≡ length xs
      → Reads At (read_block is w n) (array_bytes w xs) xs
  unfolding read_block
  read_block-Reads xs n h e = record { run = go }
    where
      go :
          (t : T) (rest : List ℕ)
          → At t (array_bytes w xs ++ rest)
          → (t' : T) × (read_block is w n t ≡ some (xs, t')) × At t' rest
      go t rest at' =
          let bs = array_bytes w xs in
          let (e₁, at'') = del.read_bytes t bs rest at' in
          let e₂ : length bs ≡ n * w = rw e (length-array_bytes w xs) in
          let e₃ : (is.read t (n * w)).0 ≡ bs = rw e₂ at e₁ in
          let e₄ : array_values w n bs ≡ xs = rw e (array_values-array_bytes w xs h) in
          let t' = (is.read t (n * w)).1 in
          (t', ap (λ l. some (l, t')) (ap (array_values w n) e₃ ∙ e₄), rw e₂ at at'')

  string_body :
      (xs : List ℕ) (n : ℕ)
      → All (λ v. v < 256 ^ w) xs
      → n ≡ length xs
      → Reads At (if n == 0 then return [] else read_block is w n) (array_bytes w xs) xs
  unfolding array_bytes
  string_body [] n h e = rw e (Reads-return [])
  string_body (x ∷ xs) n h e = elim (Bool-cases (n == 0)) [
    | inl z ↦ absurd (ground arith)
    | inr z ↦ rw z (read_block-Reads (x ∷ xs) n h e)
  ]

  unserialize_string-Reads :
      (xs : List ℕ) → Holds w xs → Reads At (unserialize_string is w) (counted_array w xs) xs
  unfolding unserialize_string counted_array
  unserialize_string-Reads xs (h, fits) =
      Reads-bind _ (read_compact_size-Reads is del (length xs) (omega arith))
        (string_body xs (length xs % 2 ^ 32) h (omega arith))

  -- The rounds of the loop, from `v` and what is left.
  read_blocks-Reads :
      (fuel i n : ℕ) (v xs : List ℕ)
      → All (λ v. v < 256 ^ w) xs
      → i + length xs ≡ n
      → n < 2 ^ 32
      → length xs < fuel
      → Reads At (read_blocks is w fuel n i v) (array_bytes w xs) (v ++ xs)
  unfolding read_blocks
  read_blocks-Reads zero i n v xs h e hn hf = absurd (omega arith)
  read_blocks-Reads (suc fuel) i n v [] h e hn hf =
      let c : ltb i n ≡ false = ground arith in
      rw (c, append-nil) (unfold array_bytes in Reads-return v)
  read_blocks-Reads (suc fuel) i n v (x ∷ xs) h e hn hf =
      let l = x ∷ xs in
      let blk = min (n - i) (1 + 4999999 / w) in
      let c : ltb i n ≡ true = ground arith in
      let len : blk ≡ length (take blk l) = omega (arith, length-take blk l) in
      let i' : (i + blk) % 2 ^ 32 ≡ i + blk = omega arith in
      let bytes : array_bytes w (take blk l) ++ array_bytes w (drop blk l) ≡ array_bytes w l =
        sym (array_bytes-append w (take blk l) (drop blk l))
        ∙ ap (array_bytes w) (take-append-drop blk l) in
      let values : (v ++ take blk l) ++ drop blk l ≡ v ++ l =
        append_assoc v (take blk l) (drop blk l) ∙ ap (λ y. v ++ y) (take-append-drop blk l) in
      let left : length l ≡ blk + length (drop blk l) = omega (arith, length-drop blk l) in
      rw (c, i')
        (Reads-cast bytes values (
          Reads-bind (λ y. read_blocks is w fuel n (i + blk) (v ++ y))
            (read_block-Reads (take blk l) blk (All-take w blk l h) len)
            (read_blocks-Reads fuel (i + blk) n (v ++ take blk l) (drop blk l) (All-drop w blk l h)
              (omega arith) hn (omega arith))))

  unserialize_fundamentals-Reads :
      (xs : List ℕ) → Holds w xs → Reads At (unserialize_fundamentals is w) (counted_array w xs) xs
  unfolding unserialize_fundamentals counted_array
  unserialize_fundamentals-Reads xs (h, fits) =
      let n = length xs % 2 ^ 32 in
      Reads-bind _ (read_compact_size-Reads is del (length xs) (omega arith))
        (read_blocks-Reads (suc n) 0 n [] xs h (omega arith) (omega arith) (omega arith))

module _ {S T : Type 0} (os : OStream S) (is : IStream T) {At : T → List ℕ → Type 0}
    (del : Delivers is At) (w : ℕ) where
  -- A string of fewer than 2 ^ 32 characters: its size is that of the bytes that are written, and
  -- those are read back as the string.
  pub basic_string-Correct : Correct os At (basic_string os is w) (Holds w) (counted_array w)
  unfolding basic_string
  basic_string-Correct = record {
    sizes = λ xs h. size_of_array-length w xs;
    writes = λ xs h. serialize_array-Writes os w xs;
    reads = unserialize_string-Reads is del w;
  }

  -- A vector of fewer than 2 ^ 32 values: its size is that of the bytes that are written, and those
  -- are read back as the vector, however many blocks it takes.
  pub vector_fundamental-Correct :
      Correct os At (vector_fundamental os is w) (Holds w) (counted_array w)
  unfolding vector_fundamental
  vector_fundamental-Correct = record {
    sizes = λ xs h. size_of_array-length w xs;
    writes = λ xs h. serialize_array-Writes os w xs;
    reads = unserialize_fundamentals-Reads is del w;
  }

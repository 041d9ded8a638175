-- ===== src/Serialize/Containers/Loops.antt =====
-- The loops of the containers over an element type whose own templates are correct.
use huicpp.Base.{
  ℕ, ◌+◌, ◌%◌, ◌^◌, ◌<◌, ◌≡◌, refl, arith, List, [], ◌∷◌, ◌++◌, length, All, length-append,
  append-nil, append_assoc,
}
use huicpp.Serialize.Stream.{
  OStream, Reads, Reads-bind, Reads-return, Reads-cast, Writes, Writes-seq, Writes-skip,
}
use huicpp.Serialize.CompactSize.{
  get_size_of_compact_size, compact_size_bytes, length-compact_size_bytes,
  write_compact_size-Writes,
}
use huicpp.Serialize.Codec.{Codec, Correct}
use huicpp.Serialize.Containers.{sum_sizes, serialize_each, read_each, size_of_each, write_counted}

-- The encodings one after the other, and behind the count.
abbrev pub all_bytes : {A : Type 0} → (A → List ℕ) → List A → List ℕ
all_bytes encode [] = []
all_bytes encode (x ∷ xs) = encode x ++ all_bytes encode xs

unfoldable pub counted_bytes : {A : Type 0} → (A → List ℕ) → List A → List ℕ
counted_bytes encode xs = compact_size_bytes (length xs) ++ all_bytes encode xs

pub all_bytes-append :
    {A : Type 0} (encode : A → List ℕ) (xs ys : List A)
    → all_bytes encode (xs ++ ys) ≡ all_bytes encode xs ++ all_bytes encode ys
all_bytes-append encode [] ys = refl
all_bytes-append encode (x ∷ xs) ys = rw (all_bytes-append encode xs ys, append_assoc)

module _ {S T A : Type 0} {os : OStream S} {At : T → List ℕ → Type 0} (c : Codec S T A)
    {Fits : A → Type 0} {encode : A → List ℕ} (p : Correct os At c Fits encode) where
  sum_sizes-length :
      (n : ℕ) (xs : List A)
      → n < 2 ^ 64
      → All Fits xs
      → sum_sizes c n xs ≡ (n + length (all_bytes encode xs)) % 2 ^ 64
  unfolding sum_sizes
  sum_sizes-length n [] hn h = omega arith
  sum_sizes-length n (x ∷ xs) hn (hx, hxs) = omega (
    arith,
    p.sizes x hx,
    length-append (encode x) (all_bytes encode xs),
    sum_sizes-length ((n + c.get_serialize_size x) % 2 ^ 64) xs (omega arith) hxs,
  )

  serialize_each-Writes :
      (xs : List A) → All Fits xs → Writes os (λ s. serialize_each c s xs) (all_bytes encode xs)
  unfolding serialize_each
  serialize_each-Writes [] h = Writes-skip
  serialize_each-Writes (x ∷ xs) (hx, hxs) =
      Writes-seq (p.writes x hx) (serialize_each-Writes xs hxs)

  pub size_of_each-length :
      (xs : List A) → All Fits xs → size_of_each c xs ≡ length (counted_bytes encode xs) % 2 ^ 64
  unfolding size_of_each counted_bytes
  size_of_each-length xs h = omega (
    arith,
    sum_sizes-length (get_size_of_compact_size (length xs)) xs (small (length xs)) h,
    length-append (compact_size_bytes (length xs)) (all_bytes encode xs),
    length-compact_size_bytes (length xs),
  )
    where
      small : (n : ℕ) → get_size_of_compact_size n < 2 ^ 64
      small n = unfold get_size_of_compact_size in ground arith

  pub write_counted-Writes :
      (xs : List A)
      → All Fits xs
      → Writes os (λ s. write_counted c os s xs) (counted_bytes encode xs)
  unfolding write_counted counted_bytes
  write_counted-Writes xs h =
      Writes-seq (write_compact_size-Writes os (length xs)) (serialize_each-Writes xs h)

  pub read_each-Reads :
      (v xs : List A)
      → All Fits xs
      → Reads At (read_each c (length xs) v) (all_bytes encode xs) (v ++ xs)
  unfolding read_each
  read_each-Reads v [] h = rw append-nil (Reads-return v)
  read_each-Reads v (x ∷ xs) (hx, hxs) = Reads-cast refl (append_assoc v (x ∷ []) xs) (
      Reads-bind (λ y. read_each c (length xs) (v ++ (y ∷ []))) (p.reads x hx)
        (read_each-Reads (v ++ (x ∷ [])) xs hxs))

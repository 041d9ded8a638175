-- ===== src/Serialize/Array.antt =====
-- src/hserialize.h: std::basic_string, CFlatData, and std::vector of a fundamental type, whose
-- objects lie in memory one after the other and go to the stream in one write.
pub mod RoundTrip
use huicpp.Base.{
  ℕ, zero, suc, ◌+◌, ◌-◌, ◌*◌, ◌/◌, ◌%◌, ◌^◌, ◌<◌, ◌≤◌, ◌≡◌, refl, sym, ◌∙◌, ap, ap₂, arith, List,
  [], ◌∷◌, ◌++◌, length, take, drop, All, length-append, take-append, drop-append, append-nil,
  append_assoc, min, Option, none, some, ltb, ◌==◌, if◌then◌else◌, take-append-drop, length-take,
  length-drop, Bool-cases, inl, inr, ltb→lt,
}
use huicpp.Serialize.Stream.{
  OStream, IStream, Delivers, Reader, Reads, Reads-bind, Reads-return, Writes, Writes-one,
  Writes-seq, ◌>>=◌, return, stuck,
}
use huicpp.Serialize.Bytes.{
  object_bytes, object_value, length-object_bytes, object_value-object_bytes,
}
use huicpp.Serialize.CompactSize.{
  get_size_of_compact_size, write_compact_size, read_compact_size, compact_size_bytes,
  length-compact_size_bytes, write_compact_size-Writes, read_compact_size-Reads,
}
use huicpp.Serialize.Codec.{Codec, Correct, add_size}

-- The memory of an array of `w`-byte objects, and the first `n` objects in some memory.
unfoldable pub array_bytes : ℕ → List ℕ → List ℕ
array_bytes w [] = []
array_bytes w (x ∷ xs) = object_bytes w x ++ array_bytes w xs

unfoldable pub array_values : ℕ → ℕ → List ℕ → List ℕ
array_values w zero bs = []
array_values w (suc n) bs = object_value (take w bs) ∷ array_values w n (drop w bs)

pub length-array_bytes : (w : ℕ) (xs : List ℕ) → length (array_bytes w xs) ≡ length xs * w
unfolding array_bytes
length-array_bytes w [] = omega arith
length-array_bytes w (x ∷ xs) = omega (
  arith,
  length-append (object_bytes w x) (array_bytes w xs),
  length-object_bytes w x,
  length-array_bytes w xs,
)

pub array_bytes-append :
    (w : ℕ) (xs ys : List ℕ) → array_bytes w (xs ++ ys) ≡ array_bytes w xs ++ array_bytes w ys
unfolding array_bytes
array_bytes-append w [] ys = refl
array_bytes-append w (x ∷ xs) ys = rw (array_bytes-append w xs ys, append_assoc)

take_object : (w x : ℕ) (bs : List ℕ) → take w (object_bytes w x ++ bs) ≡ object_bytes w x
take_object w x bs =
    ap (λ n. take n (object_bytes w x ++ bs)) (sym (length-object_bytes w x))
    ∙ take-append (object_bytes w x) bs

drop_object : (w x : ℕ) (bs : List ℕ) → drop w (object_bytes w x ++ bs) ≡ bs
drop_object w x bs =
    ap (λ n. drop n (object_bytes w x ++ bs)) (sym (length-object_bytes w x))
    ∙ drop-append (object_bytes w x) bs

pub array_values-array_bytes :
    (w : ℕ) (xs : List ℕ)
    → All (λ v. v < 256 ^ w) xs
    → array_values w (length xs) (array_bytes w xs) ≡ xs
unfolding array_values array_bytes
array_values-array_bytes w [] h = refl
array_values-array_bytes w (x ∷ xs) (hx, hxs) = rw (
  take_object w x (array_bytes w xs),
  drop_object w x (array_bytes w xs),
  object_value-object_bytes w x hx,
  array_values-array_bytes w xs hxs,
)

-- What a string and a vector write: the count, and the objects if there are any.
unfoldable pub counted_array : ℕ → List ℕ → List ℕ
counted_array w xs = compact_size_bytes (length xs) ++ array_bytes w xs

unfoldable pub size_of_array : ℕ → List ℕ → ℕ
size_of_array w xs = add_size (get_size_of_compact_size (length xs)) (length xs * w % 2 ^ 64)

module _ {S : Type 0} (os : OStream S) where
  unfoldable pub serialize_array : ℕ → S → List ℕ → S
  serialize_array w s xs =
      let s' = write_compact_size os s (length xs) in
      if length xs == 0 then s' else os.write s' (array_bytes w xs)

module _ {T : Type 0} (is : IStream T) where
  -- `is.read((char*)&v[i], n * sizeof(T))`
  unfoldable pub read_block : ℕ → ℕ → Reader T (List ℕ)
  read_block w n t = let (bs, t') = is.read t (n * w) in some (array_values w n bs, t')

  -- The count goes into an unsigned int.
  unfoldable pub unserialize_string : ℕ → Reader T (List ℕ)
  unfolding read_block
  unserialize_string w = do
    n ← read_compact_size is
    let n_size = n % 2 ^ 32
    if n_size == 0 then return [] else read_block w n_size

  -- The loop of Unserialize_impl: at most so many objects at a time.
  unfoldable pub read_blocks : ℕ → ℕ → ℕ → ℕ → List ℕ → Reader T (List ℕ)
  unfolding read_block
  read_blocks w zero n_size i v = stuck
  read_blocks w (suc fuel) n_size i v =
      let blk = min (n_size - i) (1 + 4999999 / w) in
      let more =
        (read_block w blk >>= λ xs. read_blocks w fuel n_size ((i + blk) % 2 ^ 32) (v ++ xs)) in
      if ltb i n_size then more else return v

  -- Each round reads an object at least, so one more round than there are objects is enough.
  unfoldable pub unserialize_fundamentals : ℕ → Reader T (List ℕ)
  unfolding read_blocks
  unserialize_fundamentals w = do
    n ← read_compact_size is
    let n_size = n % 2 ^ 32
    read_blocks w (suc n_size) n_size 0 []

module _ {S T : Type 0} (os : OStream S) (is : IStream T) where
  -- std::basic_string of `w`-byte characters.
  unfoldable pub basic_string : ℕ → Codec S T (List ℕ)
  basic_string w = record {
    get_serialize_size = size_of_array w;
    serialize = serialize_array os w;
    unserialize = unserialize_string is w;
  }

  -- std::vector of a fundamental type of `w` bytes.
  unfoldable pub vector_fundamental : ℕ → Codec S T (List ℕ)
  vector_fundamental w = record {
    get_serialize_size = size_of_array w;
    serialize = serialize_array os w;
    unserialize = unserialize_fundamentals is w;
  }

  -- CFlatData over an object of `n` bytes.
  unfoldable pub flat_data : ℕ → Codec S T (List ℕ)
  flat_data n = record {
    get_serialize_size = λ bs. n;
    serialize = os.write;
    unserialize = λ t. some (is.read t n);
  }

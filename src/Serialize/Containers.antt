-- ===== src/Serialize/Containers.antt =====
-- src/hserialize.h: std::vector of a class, std::map and std::set.
pub mod Loops
pub mod RoundTrip
use huicpp.Base.{
  ℕ, zero, suc, ◌+◌, ◌-◌, ◌/◌, ◌%◌, ◌^◌, List, [], ◌∷◌, ◌++◌, length, take, ltb, if◌then◌else◌, max,
  Bool, true, false,
}
use huicpp.Serialize.Stream.{OStream, IStream, Reader, ◌>>=◌, return, stuck}
use huicpp.Serialize.CompactSize.{get_size_of_compact_size, write_compact_size, read_compact_size}
use huicpp.Serialize.Codec.{Codec, add_size, pair}

module _ {S T A : Type 0} (c : Codec S T A) where
  -- The loops over the elements.
  unfoldable pub sum_sizes : ℕ → List A → ℕ
  sum_sizes n [] = n
  sum_sizes n (x ∷ xs) = sum_sizes (add_size n (c.get_serialize_size x)) xs

  unfoldable pub serialize_each : S → List A → S
  serialize_each s [] = s
  serialize_each s (x ∷ xs) = serialize_each (c.serialize s x) xs

  unfoldable pub read_each : ℕ → List A → Reader T (List A)
  read_each zero v = return v
  read_each (suc k) v = c.unserialize >>= λ x. read_each k (v ++ (x ∷ []))

  -- Unserialize_impl for a class of `size_t` bytes: the vector grows to `n_mid` elements, and those
  -- from `i` on are read.
  unfoldable pub read_chunks : ℕ → ℕ → ℕ → ℕ → ℕ → List A → Reader T (List A)
  unfolding read_each
  read_chunks size zero n_size i n_mid v = stuck
  read_chunks size (suc fuel) n_size i n_mid v =
      let next = (n_mid + 5000000 / size) % 2 ^ 32 in
      let mid = if ltb n_size next then n_size else next in
      let more =
        (read_each (mid - i) (take mid v) >>= λ v'.
        read_chunks size fuel n_size (max i mid) mid v') in
      if ltb n_mid n_size then more else return v

  unfoldable pub size_of_each : List A → ℕ
  unfolding sum_sizes
  size_of_each xs = sum_sizes (get_size_of_compact_size (length xs)) xs

  unfoldable pub write_counted : OStream S → S → List A → S
  unfolding serialize_each
  write_counted os s xs = serialize_each (write_compact_size os s (length xs)) xs

  -- std::vector of a class.
  unfoldable pub vector_class : OStream S → IStream T → ℕ → Codec S T (List A)
  unfolding size_of_each write_counted read_chunks
  vector_class os is size = record {
    get_serialize_size = size_of_each;
    serialize = write_counted os;
    unserialize = (do
      n ← read_compact_size is
      let n_size = n % 2 ^ 32
      read_chunks size (suc n_size) n_size 0 0 []);
  }

-- A tree container by its elements in order: `less` compares them, and an element that is
-- equivalent to one that is there is not inserted.
unfoldable pub tree_insert : {A : Type 0} → (A → A → Bool) → A → List A → List A
tree_insert less x [] = x ∷ []
tree_insert less x (y ∷ ys) =
    if less x y then x ∷ y ∷ ys else if less y x then y ∷ tree_insert less x ys else y ∷ ys

module _ {S T A : Type 0} (c : Codec S T A) (less : A → A → Bool) where
  unfoldable pub insert_each : ℕ → List A → Reader T (List A)
  unfolding tree_insert
  insert_each zero m = return m
  insert_each (suc k) m = c.unserialize >>= λ x. insert_each k (tree_insert less x m)

  -- std::set; its iteration order is the order of the list.
  unfoldable pub set_of : OStream S → IStream T → Codec S T (List A)
  unfolding size_of_each write_counted insert_each
  set_of os is = record {
    get_serialize_size = size_of_each c;
    serialize = write_counted c os;
    unserialize = (do n ← read_compact_size is; insert_each (n % 2 ^ 32) []);
  }

-- std::map: pairs that are ordered by their keys.
unfoldable pub map_of :
    {S T K V : Type 0}
    → Codec S T K
    → Codec S T V
    → (K → K → Bool)
    → OStream S
    → IStream T
    → Codec S T (List (K × V))
unfolding set_of
map_of k v less os is = set_of (pair k v) (λ p q. less p.0 q.0) os is

-- ===== src/Serialize/Containers/RoundTrip.antt =====
-- std::vector of a class, std::map and std::set: what is written is read back.
use huicpp.Base.{
  ℕ, zero, suc, ◌+◌, ◌-◌, ◌/◌, ◌%◌, ◌^◌, ◌<◌, ◌≤◌, ◌≡◌, refl, sym, ◌∙◌, ap, arith, List, [], ◌∷◌,
  ◌++◌, length, take, drop, All, length-append, append-nil, append_assoc, ltb, if◌then◌else◌, max,
  Bool, true, false, take-append-drop, length-take, length-drop, take-all, none,
}
use huicpp.Serialize.Stream.{
  OStream, IStream, Delivers, Reads, Reads-bind, Reads-return, Reads-cast,
}
use huicpp.Serialize.CompactSize.{read_compact_size-Reads}
use huicpp.Serialize.Codec.{Codec, Correct, pair, pair-Correct}
use huicpp.Serialize.Containers.{
  read_each, read_chunks, vector_class, tree_insert, insert_each, set_of, map_of,
}
use huicpp.Serialize.Containers.Loops.{
  all_bytes, all_bytes-append, counted_bytes, size_of_each-length, write_counted-Writes,
  read_each-Reads,
}

All-take : {A : Type 0} (P : A → Type 0) (n : ℕ) (xs : List A) → All P xs → All P (take n xs)
All-take P zero xs h = tt
All-take P (suc n) [] h = tt
All-take P (suc n) (x ∷ xs) (hx, hxs) = (hx, All-take P n xs hxs)

All-drop : {A : Type 0} (P : A → Type 0) (n : ℕ) (xs : List A) → All P xs → All P (drop n xs)
All-drop P zero xs h = h
All-drop P (suc n) [] h = tt
All-drop P (suc n) (x ∷ xs) (hx, hxs) = All-drop P n xs hxs

-- In strictly increasing order, as the elements of a tree container are.
abbrev pub Precedes : {A : Type 0} → (A → A → Bool) → A → A → Type 0
Precedes less x y = (less x y ≡ true) × (less y x ≡ false)

abbrev pub IsOrdered : {A : Type 0} → (A → A → Bool) → List A → Type 0
IsOrdered less [] = Unit {0}
IsOrdered less (x ∷ xs) = All (λ y. Precedes less x y) xs × IsOrdered less xs

-- An element behind all the others goes to the end.
tree_insert_last :
    {A : Type 0} (less : A → A → Bool) (x : A) (ys zs : List A)
    → IsOrdered less (ys ++ (x ∷ zs))
    → tree_insert less x ys ≡ ys ++ (x ∷ [])
unfolding tree_insert
tree_insert_last less x [] zs h = refl
tree_insert_last {A} less x (y ∷ ys) zs (h, hs) =
    let p = before ys h in rw (p.1, p.0, tree_insert_last less x ys zs hs)
  where
    before : {y : A} (l : List A) → All (λ w. Precedes less y w) (l ++ (x ∷ zs)) → Precedes less y x
    before [] h = h.0
    before (w ∷ l) h = before l h.1

-- Where a round of the vector's loop ends.
round_end : ℕ → ℕ → ℕ → ℕ
round_end size n i = let next = (i + 5000000 / size) % 2 ^ 32 in if ltb n next then n else next

round_end_bounds :
    (size n i : ℕ)
    → 0 < size
    → size ≤ 5000000
    → i < n
    → n + 5000000 < 2 ^ 32
    → (i < round_end size n i) × (round_end size n i ≤ n)
unfolding round_end
round_end_bounds size n i hs hs' hi hn = ground arith

module _ {S T A : Type 0} {os : OStream S} {At : T → List ℕ → Type 0} (c : Codec S T A)
    {Fits : A → Type 0} {encode : A → List ℕ} (p : Correct os At c Fits encode) where
  counted :
      (k : ℕ) (v xs : List A)
      → k ≡ length xs
      → All Fits xs
      → Reads At (read_each c k v) (all_bytes encode xs) (v ++ xs)
  counted k v xs e h = rw e (read_each-Reads c p v xs h)

  -- The rounds of the loop, from the `i` elements of `v` and what is left.
  read_chunks-Reads :
      (size fuel i n : ℕ) (v xs : List A)
      → 0 < size
      → size ≤ 5000000
      → All Fits xs
      → i ≡ length v
      → i + length xs ≡ n
      → n + 5000000 < 2 ^ 32
      → length xs < fuel
      → Reads At (read_chunks c size fuel n i i v) (all_bytes encode xs) (v ++ xs)
  unfolding read_chunks round_end
  read_chunks-Reads size zero i n v xs hs hs' h hv e hn hf = absurd (omega arith)
  read_chunks-Reads size (suc fuel) i n v [] hs hs' h hv e hn hf =
      let b : ltb i n ≡ false = ground arith in rw (b, append-nil) (Reads-return v)
  read_chunks-Reads size (suc fuel) i n v (x ∷ xs) hs hs' h hv e hn hf =
      let l = x ∷ xs in
      let mid = round_end size n i in
      let (lo, hi) = round_end_bounds size n i hs hs' (omega arith) hn in
      let b : ltb i n ≡ true = ground arith in
      let k : mid - i ≡ length (take (mid - i) l) = omega (arith, length-take (mid - i) l) in
      let i' : max i mid ≡ mid = omega arith in
      let same : take mid v ≡ v = take-all mid v (omega arith) in
      let left : length l ≡ (mid - i) + length (drop (mid - i) l) =
        omega (arith, length-drop (mid - i) l) in
      let grown : mid ≡ length (v ++ take (mid - i) l) =
        omega (arith, length-append v (take (mid - i) l)) in
      let bytes : all_bytes encode (take (mid - i) l) ++ all_bytes encode (drop (mid - i) l)
          ≡ all_bytes encode l =
        sym (all_bytes-append encode (take (mid - i) l) (drop (mid - i) l))
        ∙ ap (all_bytes encode) (take-append-drop (mid - i) l) in
      let values : (v ++ take (mid - i) l) ++ drop (mid - i) l ≡ v ++ l =
        append_assoc v (take (mid - i) l) (drop (mid - i) l)
        ∙ ap (λ y. v ++ y) (take-append-drop (mid - i) l) in
      let first : Reads At (read_each c (mid - i) (take mid v))
          (all_bytes encode (take (mid - i) l)) (v ++ take (mid - i) l) =
        rw same (counted (mid - i) v (take (mid - i) l) k (All-take Fits (mid - i) l h)) in
      let rest : Reads At (read_chunks c size fuel n (max i mid) mid (v ++ take (mid - i) l))
          (all_bytes encode (drop (mid - i) l)) ((v ++ take (mid - i) l) ++ drop (mid - i) l) =
        rw i' (
          read_chunks-Reads size fuel mid n (v ++ take (mid - i) l) (drop (mid - i) l) hs hs'
            (All-drop Fits (mid - i) l h) grown (omega arith) hn (omega arith)) in
      rw b (
        Reads-cast bytes values
          (Reads-bind (λ y. read_chunks c size fuel n (max i mid) mid y) first rest))

  insert_each-Reads :
      (less : A → A → Bool) (m xs : List A)
      → All Fits xs
      → IsOrdered less (m ++ xs)
      → Reads At (insert_each c less (length xs) m) (all_bytes encode xs) (m ++ xs)
  unfolding insert_each
  insert_each-Reads less m [] h o = rw append-nil (Reads-return m)
  insert_each-Reads less m (x ∷ xs) (hx, hxs) o = Reads-cast refl (append_assoc m (x ∷ []) xs) (
      Reads-bind (λ y. insert_each c less (length xs) (tree_insert less y m)) (p.reads x hx)
        (rw (tree_insert_last less x m xs o)
          (insert_each-Reads less (m ++ (x ∷ [])) xs hxs (rw append_assoc o))))

  inserted :
      (less : A → A → Bool) (k : ℕ) (xs : List A)
      → k ≡ length xs
      → All Fits xs
      → IsOrdered less xs
      → Reads At (insert_each c less k []) (all_bytes encode xs) xs
  inserted less k xs e h o = rw e (insert_each-Reads less [] xs h o)

  -- Where the templates of the element are correct, so are those of a vector of a class of at most
  -- 5,000,000 bytes, of fewer than 2 ^ 32 - 5,000,000 elements: the size, what is written, and what
  -- is read back.
  pub vector_class-Correct :
      (is : IStream T) (size : ℕ)
      → Delivers is At
      → 0 < size
      → size ≤ 5000000
      → Correct os At
          (vector_class c os is size)
          (λ xs. All Fits xs × (length xs + 5000000 < 2 ^ 32))
          (counted_bytes encode)
  unfolding vector_class counted_bytes
  vector_class-Correct is size del hs hs' = record {
    sizes = λ xs h. size_of_each-length c p xs h.0;
    writes = λ xs h. write_counted-Writes c p xs h.0;
    reads = λ xs h.
        let n = length xs % 2 ^ 32 in
        Reads-bind _ (read_compact_size-Reads is del (length xs) (omega arith)) (
          read_chunks-Reads size (suc n) 0 n [] xs hs hs' h.0 refl (omega arith) (omega arith)
            (omega arith));
  }

  -- Where the templates of the element are correct, so are those of a set of fewer than 2 ^ 32
  -- elements, in order: the size, what is written, and what is read back.
  pub set_of-Correct :
      (is : IStream T) (less : A → A → Bool)
      → Delivers is At
      → Correct os At
          (set_of c less os is)
          (λ xs. All Fits xs × IsOrdered less xs × (length xs < 2 ^ 32))
          (counted_bytes encode)
  unfolding set_of counted_bytes
  set_of-Correct is less del = record {
    sizes = λ xs h. size_of_each-length c p xs h.0;
    writes = λ xs h. write_counted-Writes c p xs h.0;
    reads = λ xs h.
        Reads-bind _ (read_compact_size-Reads is del (length xs) (omega arith))
          (inserted less (length xs % 2 ^ 32) xs (omega arith) h.0 h.1);
  }

module _ {S T K V : Type 0} {os : OStream S} {At : T → List ℕ → Type 0} (k : Codec S T K)
    (v : Codec S T V) {FitsK : K → Type 0} {FitsV : V → Type 0} {ek : K → List ℕ}
    {ev : V → List ℕ} where
  -- Where the templates of the key and of the value are correct, so are those of a map of fewer than
  -- 2 ^ 32 pairs, in the order of their keys: the size, what is written, and what is read back.
  pub map_of-Correct :
      (is : IStream T) (less : K → K → Bool)
      → Delivers is At
      → Correct os At k FitsK ek
      → Correct os At v FitsV ev
      → Correct os At
          (map_of k v less os is)
          (λ m.
            All (λ e. FitsK e.0 × FitsV e.1) m
            × IsOrdered (λ p q. less p.0 q.0) m
            × (length m < 2 ^ 32))
          (counted_bytes (λ e. ek e.0 ++ ev e.1))
  unfolding map_of
  map_of-Correct is less del p q =
      set_of-Correct (pair k v) (pair-Correct p q) is (λ a b. less a.0 b.0) del

-- With a class of more than 5,000,000 bytes `n_mid` does not grow: unless no element is asked for,
-- the loop does not end within any number of rounds, whatever the stream holds.
pub read_chunks_large :
    {S T A : Type 0} (c : Codec S T A) (size fuel n : ℕ) (t : T)
    → 5000000 < size
    → 0 < n
    → read_chunks c size fuel n 0 0 [] t ≡ none
unfolding read_chunks read_each
read_chunks_large c size zero n t hs hn = refl
read_chunks_large c size (suc fuel) n t hs hn =
    let zero_step : 5000000 / size ≡ 0 = grind arith in
    ground (arith, zero_step, read_chunks_large c size fuel n t hs hn)

-- ===== src/Db/Multi.antt =====
-- MultiExec and MultiInsert: what they make of a list of statements and of the rows of a table.
use huicpp.Base.{
  zero, get_elem?, ltb, leb, ℕ, suc, ◌≤◌, ◌<◌, ◌≡◌, refl, ap, ◌∙◌, arith, List, [], ◌∷◌, ◌++◌,
  length, Bool, true, false, Bool-cases, inl, inr, if◌then◌else◌, ◌==◌, Option, none, some,
  append_assoc, length-append,
}
use huicpp.Base.Options.{◌>>=◌}
use huicpp.Str.{Str}
use huicpp.Db.{
  Code, is_ok_code, Row, DbRes, get_value_at, get_value_by_name, column_of, Connection, insert_rows,
  multi_insert, max_multi_insert_count,
}

-- What the source relies on in a driver with transactions: `now` is what its connection sees, `saved`
-- what a roll-back gives back. A statement that `Stays` in the transaction, unlike a COMMIT of its own,
-- leaves what is saved.
pub record IsTransactional {S D : Type 0} (c : Connection S) (saved now : S → D)
    (Stays : Str → Type 0) : Type 0 where
  pub begins :
      (s : S)
      → is_ok_code (c.begin_transaction s).0 ≡ true
      → saved (c.begin_transaction s).1 ≡ now s
  pub executes : (sql : Str) (s : S) → Stays sql → saved (c.execute sql s).1 ≡ saved s
  pub rolls_back : (s : S) → now (c.roll_back s).1 ≡ saved s

module _ {S : Type 0} (c : Connection S) where
  -- The state after the statements, if each of them succeeds.
  unfoldable pub run_each : List Str → S → Option S
  unfolding is_ok_code
  run_each [] s = some s
  run_each (sql ∷ sqlss) s =
      let rest = run_each sqlss (c.execute sql s).1 in
      if is_ok_code (c.execute sql s).0 then rest else none

-- The pieces, one after the other.
unfoldable pub joined : List (List Row) → List Row
joined [] = []
joined (x ∷ xs) = x ++ joined xs

-- Each piece has as many rows as one statement may have, but the last, which has no more and is not
-- empty.
unfoldable pub Pieces : List (List Row) → Type 0
Pieces [] = Unit
Pieces (x ∷ []) = (0 < length x) × (length x ≤ max_multi_insert_count)
Pieces (x ∷ y ∷ xs) = (length x ≡ max_multi_insert_count) × Pieces (y ∷ xs)

short :
    (n : ℕ)
    → (n == max_multi_insert_count) ≡ false
    → n ≤ max_multi_insert_count
    → n < max_multi_insert_count
short n e h = ground arith

full_piece :
    (x : List Row) (xs : List (List Row))
    → length x ≡ max_multi_insert_count
    → Pieces xs
    → Pieces (x ∷ xs)
unfolding Pieces
full_piece x [] e h = (omega (arith, e), omega (arith, e))
full_piece x (y ∷ xs) e h = (e, h)

module _ {S : Type 0} where
  one_piece :
      (o : Option (Code × S))
      → o ≡ (o >>= λ x. if is_ok_code x.0 then some (Code.ok, x.1) else some (x.0, x.1))
  unfolding ◌>>=◌ is_ok_code
  one_piece none = refl
  one_piece (some (Code.ok, s)) = refl
  one_piece (some (Code.invl_para, s)) = refl
  one_piece (some (Code.src_err, s)) = refl
  one_piece (some (Code.dep_error, s)) = refl
  one_piece (some (Code.err_status, s)) = refl

  then_same :
      (o : Option (Code × S)) (f g : S → Option (Code × S))
      → ((s : S) → f s ≡ g s)
      → (o >>= λ x. if is_ok_code x.0 then f x.1 else some (x.0, x.1))
        ≡ (o >>= λ x. if is_ok_code x.0 then g x.1 else some (x.0, x.1))
  unfolding ◌>>=◌
  then_same none f g h = refl
  then_same (some (r, s)) f g h = ap (λ x. if is_ok_code r then x else some (r, s)) (h s)

module _ {S : Type 0} (impl : List Row → S → Option (Code × S)) where
  -- One statement for each piece, up to the first that fails.
  unfoldable pub insert_pieces : List (List Row) → S → Option (Code × S)
  unfolding is_ok_code ◌>>=◌
  insert_pieces [] s = some (Code.ok, s)
  insert_pieces (x ∷ xs) s = do
    (ret, s') ← impl x s
    let rest = insert_pieces xs s'
    if is_ok_code ret then rest else some (ret, s')

  pub record Inserts (o : S → Option (Code × S)) (rows : List Row) : Type 0 where
    pub pieces : List (List Row)
    pub all_rows : joined pieces ≡ rows
    pub sizes : Pieces pieces
    pub same : (s : S) → o s ≡ insert_pieces pieces s

  insert_rows-Inserts :
      (src item : List Row)
      → length item < max_multi_insert_count
      → Inserts (λ s. insert_rows impl src item s) (item ++ src)
  unfolding insert_rows insert_pieces joined Pieces ◌>>=◌
  insert_rows-Inserts [] [] h = record {
    pieces = [];
    all_rows = refl;
    sizes = tt;
    same = λ s. refl;
  }
  insert_rows-Inserts [] (r ∷ item) h = record {
    pieces = (r ∷ item) ∷ [];
    all_rows = refl;
    sizes = (omega arith, omega arith);
    same = λ s. one_piece (impl (r ∷ item) s);
  }
  insert_rows-Inserts (row ∷ src) item h =
      elim (Bool-cases (length (item ++ (row ∷ [])) == max_multi_insert_count)) [
        | inl y ↦
            (let rest = insert_rows-Inserts src [] (omega arith) in
              record {
                pieces = (item ++ (row ∷ [])) ∷ rest.pieces;
                all_rows =
                    ap (λ r. (item ++ (row ∷ [])) ++ r) rest.all_rows
                    ∙ append_assoc item (row ∷ []) src;
                sizes = full_piece (item ++ (row ∷ [])) rest.pieces (ground (arith, y)) rest.sizes;
                same = λ s. rw y (then_same (impl (item ++ (row ∷ [])) s) _ _ rest.same);
              })
        | inr n ↦
            (let l = length-append item (row ∷ []) in
              let rest =
                insert_rows-Inserts src (item ++ (row ∷ []))
                  (short (length (item ++ (row ∷ []))) n (omega (arith, l, h))) in
              record {
                pieces = rest.pieces;
                all_rows = rest.all_rows ∙ append_assoc item (row ∷ []) src;
                sizes = rest.sizes;
                same = λ s. rw n (rest.same s);
              })
      ]

  -- MultiInsert gives all the rows, in their order, to multi_insert_impl: 256 at a time and what is
  -- left over at the end, never none, and nothing more after a statement that fails.
  pub multi_insert_lem :
      (rows : List Row)
      → (pieces : List (List Row)) × (joined pieces ≡ rows)
        × Pieces pieces
        × ((s : S) → multi_insert impl rows s ≡ insert_pieces pieces s)
  unfolding multi_insert
  multi_insert_lem rows =
      let i = insert_rows-Inserts rows [] (omega arith) in (i.pieces, i.all_rows, i.sizes, i.same)

below : {A : Type 0} (l : List A) (i : ℕ) (a : A) → get_elem? l i ≡ some a → ltb i (length l) ≡ true
below [] i a e = absurd (ground (arith, e))
below (x ∷ l) zero a e = ground arith
below (x ∷ l) (suc i) a e = ground (arith, below l i a e)

above : {A : Type 0} (l : List A) (i : ℕ) → leb (length l) i ≡ true → get_elem? l i ≡ none
above [] i e = refl
above (x ∷ l) zero e = absurd (ground (arith, e))
above (x ∷ l) (suc i) e = above l i (ground (arith, e))

in_row : (r : Row) (j : ℕ) → (if leb (length r) j then get_elem? r j else none) ≡ none
in_row r j = elim (Bool-cases (leb (length r) j)) [ inl y ↦ rw y (above r j y) | inr n ↦ rw n refl ]

-- GetValue of a row and a column never gives a value: the test of the row's length is the wrong way
-- round, so that it throws where the row has the column, and reads behind the row where it has not.
-- GetValue of a column's name gives the value in the first column of that name.
pub get_value_lem :
    (res : DbRes) (key : Str) (i j : ℕ) (r : Row)
    → get_elem? res.rows i ≡ some r
    → column_of key res.header ≡ some j
    → (get_value_at res i j ≡ none) × (get_value_by_name res key i ≡ get_elem? r j)
unfolding get_value_at get_value_by_name
get_value_lem res key i j r e c =
    let b = below res.rows i r e in
    (
      rw (b, e) (unfold ◌>>=◌ in either (ltb j (length res.header))),
      rw (b, c, e) (unfold ◌>>=◌ in refl),
    )
  where
    either :
        (t : Bool) → (if t then (if leb (length r) j then get_elem? r j else none) else none) ≡ none
    either true = in_row r j
    either false = refl

-- ===== src/Db/Config.antt =====
-- DbConnConfig of db/dbconnconfig: the connections of each database by its name. The file and its JSON
-- are read by others; an object of "dbs" is what it has under the three names. `C` is a connection.
use huicpp.Base.{
  ℕ, zero, suc, ◌+◌, ◌*◌, ◌<◌, ◌≡◌, ◌≤◌, max, refl, ◌∙◌, arith, List, [], ◌∷◌, ◌++◌, length,
  length-append, get_elem?, true, Bool-cases, inl, inr, if◌then◌else◌, ltb, Option, none, some,
}
use huicpp.Str.{Str}
use huicpp.Str.Equal.{same_str, same_str_eq, not_same}
use huicpp.Db.{Code, is_ok_code}

pub record DbItem : Type 0 where
  pub dbtype : Option Str
  pub dbname : Option Str
  pub dbpath : Option Str

-- "SQLITE".
abbrev pub sqlite_type : Str
sqlite_type = 83 ∷ 81 ∷ 76 ∷ 73 ∷ 84 ∷ 69 ∷ []

at_least : (n : ℕ) → (if ltb n 1 then 1 else n) ≡ max 1 n
at_least n = ground arith

get_elem?_below :
    {C : Type 0} (l : List C) (i : ℕ) → i < length l → (p : C) × (get_elem? l i ≡ some p)
get_elem?_below [] i h = absurd (omega arith)
get_elem?_below (x ∷ l) zero h = (x, refl)
get_elem?_below (x ∷ l) (suc i) h = get_elem?_below l i (omega arith)

get_elem?_above : {C : Type 0} (l : List C) (i : ℕ) → length l ≤ i → get_elem? l i ≡ none
get_elem?_above [] i h = refl
get_elem?_above (x ∷ l) zero h = absurd (omega arith)
get_elem?_above (x ∷ l) (suc i) h = get_elem?_above l i (omega arith)

-- Whether an object, or how many of them, have the name.
unfoldable pub has_name : Str → DbItem → ℕ
has_name name item = elim item.dbname [ none ↦ 0 | some n ↦ if same_str n name then 1 else 0 ]

unfoldable pub named : Str → List DbItem → ℕ
unfolding has_name
named name [] = 0
named name (item ∷ items) = has_name name item + named name items

module _ {C : Type 0} where
  unfoldable pub add_conn : Str → C → List (Str × List C) → List (Str × List C)
  unfolding same_str
  add_conn name p [] = (name, p ∷ []) ∷ []
  add_conn name p ((n, conns) ∷ m) =
      if same_str n name then (n, conns ++ (p ∷ [])) ∷ m else (n, conns) ∷ add_conn name p m

  -- What `find` gives.
  unfoldable pub find_conns : Str → List (Str × List C) → Option (List C)
  unfolding same_str
  find_conns name [] = none
  find_conns name ((n, conns) ∷ m) = if same_str n name then some conns else find_conns name m

  -- `none` is an exception.
  unfoldable pub get_conn : Str → ℕ → List (Str × List C) → Option C
  get_conn name i m = elim (find_conns name m) [
    | none ↦ none
    | some conns ↦ if ltb i (length conns) then get_elem? conns i else none
  ]

  module _ {S : Type 0} (connect : Str → S → Code × C × S) where
    -- The inner loop of InitFromConfigFile: `left` connections.
    unfoldable pub add_conns :
        ℕ → Str → Str → List (Str × List C) → S → Code × List (Str × List C) × S
    unfolding is_ok_code
    add_conns zero name path m s = (Code.ok, m, s)
    add_conns (suc left) name path m s =
        let (ret, p, s') = connect path s in
        let rest = add_conns left name path (add_conn name p m) s' in
        if is_ok_code ret then rest else (ret, m, s')

    -- One object of the array.
    unfoldable pub init_item : ℕ → DbItem → List (Str × List C) → S → Code × List (Str × List C) × S
    init_item count item m s = elim item.dbtype [
      | none ↦ (Code.invl_para, m, s)
      | some type ↦ elim item.dbname [
        | none ↦ (Code.invl_para, m, s)
        | some name ↦
            if same_str type sqlite_type
            then elim item.dbpath [
              | none ↦ (Code.invl_para, m, s)
              | some path ↦ add_conns count name path m s
            ]
            else (Code.invl_para, m, s)
      ]
    ]

    unfoldable pub init_items :
        ℕ → List DbItem → List (Str × List C) → S → Code × List (Str × List C) × S
    unfolding is_ok_code init_item
    init_items count [] m s = (Code.ok, m, s)
    init_items count (item ∷ items) m s =
        let (ret, m', s') = init_item count item m s in
        let rest = init_items count items m' s' in if is_ok_code ret then rest else (ret, m', s')

    -- InitFromConfigFile, after the file has been read.
    unfoldable pub init_from_config :
        List DbItem → ℕ → List (Str × List C) → S → Code × List (Str × List C) × S
    unfolding init_items
    init_from_config items conn_count m s =
        init_items (if ltb conn_count 1 then 1 else conn_count) items m s

  -- The connections of a name, none if it is not there.
  unfoldable pub conns_of : Str → List (Str × List C) → List C
  unfolding find_conns
  conns_of name m = elim (find_conns name m) [ none ↦ [] | some conns ↦ conns ]

  get_conn_lem :
      (name : Str) (i : ℕ) (m : List (Str × List C))
      → get_conn name i m ≡ get_elem? (conns_of name m) i
  unfolding get_conn conns_of
  get_conn_lem name i m = at_name (find_conns name m)
    where
      at_place :
          (i : ℕ) (conns : List C)
          → (if ltb i (length conns) then get_elem? conns i else none) ≡ get_elem? conns i
      at_place i [] = ground arith
      at_place zero (p ∷ ps) = ground arith
      at_place (suc i) (p ∷ ps) = ground (arith, at_place i ps)

      at_name :
          (o : Option (List C))
          → elim o as (λ _. Option C) [
            | none ↦ none
            | some conns ↦ if ltb i (length conns) then get_elem? conns i else none
          ]
            ≡ get_elem? (elim o as (λ _. List C) [ none ↦ [] | some conns ↦ conns ]) i
      at_name none = refl
      at_name (some conns) = at_place i conns

  conns_of_cons :
      (name k : Str) (conns : List C) (m : List (Str × List C))
      → conns_of name ((k, conns) ∷ m) ≡ (if same_str k name then conns else conns_of name m)
  unfolding conns_of
  conns_of_cons name k conns m = elim (Bool-cases (same_str k name)) [
    | inl y ↦ rw (conns_of, find_conns, y) refl
    | inr n ↦ rw (conns_of, find_conns, n) refl
  ]

  no_conns :
      (name : Str) (m : List (Str × List C)) (n : ℕ) → m ≡ [] → length (conns_of name m) + n ≡ n
  unfolding conns_of
  no_conns name m n e = rw e (omega arith)

  length-add_conn :
      (name n : Str) (p : C) (m : List (Str × List C))
      → length (conns_of name (add_conn n p m))
        ≡ length (conns_of name m) + (if same_str n name then 1 else 0)
  unfolding add_conn
  length-add_conn name n p [] =
      rw (conns_of_cons name n (p ∷ []) []) (unfold conns_of in ground arith)
  length-add_conn name n p ((k, conns) ∷ m) = elim (Bool-cases (same_str k n)) [
    | inl y ↦
        rw
          (
            y,
            conns_of_cons name k (conns ++ (p ∷ [])) m,
            conns_of_cons name k conns m,
            same_str_eq k n y,
          )
          (ground (arith, length-append conns (p ∷ [])))
    | inr f ↦ elim (Bool-cases (same_str k name)) [
      | inl y ↦
          rw
            (
              f,
              conns_of_cons name k conns (add_conn n p m),
              conns_of_cons name k conns m,
              y,
              not_same k n name f y,
            )
            (omega arith)
      | inr g ↦
          rw (f, conns_of_cons name k conns (add_conn n p m), conns_of_cons name k conns m, g)
            (length-add_conn name n p m)
    ]
  ]

  module _ {S : Type 0} (connect : Str → S → Code × C × S) (name : Str) where
    length-add_conns :
        (left : ℕ) (n path : Str) (m : List (Str × List C)) (s : S)
        → is_ok_code (add_conns connect left n path m s).0 ≡ true
        → length (conns_of name (add_conns connect left n path m s).1)
          ≡ length (conns_of name m) + left * (if same_str n name then 1 else 0)
    unfolding add_conns
    length-add_conns zero n path m s h = omega arith
    length-add_conns (suc left) n path m s h = elim (Bool-cases (is_ok_code (connect path s).0)) [
      | inl y ↦
          (let e =
              length-add_conns left n path (add_conn n (connect path s).1 m) (connect path s).2
                (rw y at h) in
            rw y (grind (arith, e, length-add_conn name n (connect path s).1 m)))
      | inr f ↦ absurd (ground (arith, f, rw f at h))
    ]

    length-init_item :
        (count : ℕ) (item : DbItem) (m : List (Str × List C)) (s : S)
        → is_ok_code (init_item connect count item m s).0 ≡ true
        → length (conns_of name (init_item connect count item m s).1)
          ≡ length (conns_of name m) + count * has_name name item
    unfolding init_item has_name is_ok_code
    length-init_item count item m s h = by_fields item.dbtype item.dbname item.dbpath h
      where
        by_fields :
            (t n p : Option Str)
            → is_ok_code
                (init_item connect count (record { dbtype = t; dbname = n; dbpath = p }) m s).0
              ≡ true
            → length (
                conns_of name
                  (init_item connect count (record { dbtype = t; dbname = n; dbpath = p }) m s).1)
              ≡ length (conns_of name m)
                + count * has_name name (record { dbtype = t; dbname = n; dbpath = p })
        by_fields none n p h = absurd (ground (arith, h))
        by_fields (some t) none p h = absurd (ground (arith, h))
        by_fields (some t) (some n) none h = absurd (ground (arith, h))
        by_fields (some t) (some n) (some p) h = elim (Bool-cases (same_str t sqlite_type)) [
          | inl y ↦ rw y (length-add_conns count n p m s (rw y at h))
          | inr f ↦ absurd (ground (arith, rw f at h))
        ]

    length-init_items :
        (count : ℕ) (items : List DbItem) (m : List (Str × List C)) (s : S)
        → is_ok_code (init_items connect count items m s).0 ≡ true
        → length (conns_of name (init_items connect count items m s).1)
          ≡ length (conns_of name m) + count * named name items
    unfolding init_items named
    length-init_items count [] m s h = omega arith
    length-init_items count (item ∷ items) m s h =
        elim (Bool-cases (is_ok_code (init_item connect count item m s).0)) [
          | inl y ↦
              (let e =
                  length-init_items count items (init_item connect count item m s).1
                    (init_item connect count item m s).2 (rw y at h) in
                rw y (grind (arith, e, length-init_item count item m s y)))
          | inr f ↦ absurd (ground (arith, f, rw f at h))
        ]

    -- When InitFromConfigFile returns OK, each name has a connection for every object with this name,
    -- times the number of connections that was asked for, but one at least; GetConn gives a connection
    -- for the indices below that, and throws for the others.
    pub init_from_config_lem :
        (items : List DbItem) (conn_count : ℕ) (s : S) (i : ℕ)
        → is_ok_code (init_from_config connect items conn_count [] s).0 ≡ true
        → (i < max 1 conn_count * named name items
            → (p : C) × (get_conn name i (init_from_config connect items conn_count [] s).1
                ≡ some p))
          × (max 1 conn_count * named name items ≤ i
              → get_conn name i (init_from_config connect items conn_count [] s).1 ≡ none)
    unfolding init_from_config
    init_from_config_lem items conn_count s i h =
        let conns = conns_of name (init_from_config connect items conn_count [] s).1 in
        let l : length conns ≡ max 1 conn_count * named name items = rw (← at_least conn_count) (
          length-init_items (if ltb conn_count 1 then 1 else conn_count) items [] s h
          ∙ no_conns name [] _ refl) in
        (
          λ k.
              (let (p, e) = get_elem?_below conns i (omega (arith, l, k)) in
                (p, get_conn_lem name i _ ∙ e)),
          λ k. get_conn_lem name i _ ∙ get_elem?_above conns i (omega (arith, l, k)),
        )

-- ===== src/Db/Sqlite.antt =====
-- sqlite_drive of db/sqlitedrive and HSqliteConnection of db/hsqliteconnection. The functions of SQLite
-- are parameters; a handle that was not opened is `none`.
use huicpp.Base.{
  ℕ, zero, suc, ◌<◌, ◌≡◌, ◌≢◌, refl, arith, List, [], ◌∷◌, ◌++◌, length, true, false, Bool-cases,
  inl, inr, if◌then◌else◌, ◌==◌, Option, none, some, append_assoc, append-nil,
}
use huicpp.Base.Options.{◌>>=◌}
use huicpp.Str.{Str}
use huicpp.Db.{Code, is_ok_code, Row, DbRes, Connection, exec_each, multi_exec}

-- A state of the library with a statement that is prepared. The results are its codes: 0 is SQLITE_OK,
-- 100 is SQLITE_ROW. The text of a column is `none` for NULL.
pub record Sqlite (S : Type 0) : Type 0 where
  pub prepare : Str → S → ℕ × S
  pub next_step : S → ℕ × S
  pub finalize : S → S
  pub exec : Str → S → ℕ × S
  pub column_name : S → ℕ → Str
  pub column_text : S → ℕ → Option Str
  pub column_count : S → ℕ

-- The header of a result: none without a row.
unfoldable pub header_of : Row → Row → List Row → Row
header_of [] names [] = []
header_of [] names (r ∷ rs) = names
header_of (h ∷ hs) names rs = h ∷ hs

header_of_end : (header names : Row) → header_of header names [] ≡ header
unfolding header_of
header_of_end [] names = refl
header_of_end (h ∷ hs) names = refl

header_of_self : (names : Row) (rows : List Row) → header_of names names rows ≡ names
unfolding header_of
header_of_self [] [] = refl
header_of_self [] (r ∷ rs) = refl
header_of_self (h ∷ hs) rows = refl

not_row : (n : ℕ) → n ≢ 100 → (n == 100) ≡ false
not_row n h = elim (Bool-cases (n == 100)) [ inl y ↦ absurd (h (ground (arith, y))) | inr e ↦ e ]

module _ {S : Type 0} (lib : Sqlite S) where
  -- sqlite_drive::Execute.
  unfoldable pub drive_execute : Str → Option S → Code × Option S
  drive_execute sql none = (Code.src_err, none)
  drive_execute sql (some s) =
      let (ret, s1) = lib.prepare sql s in
      if ret == 0
      then (let (stepped, s2) = lib.next_step s1 in
          (if stepped == 0 then Code.ok else Code.dep_error, some (lib.finalize s2)))
      else (Code.invl_para, some s1)

  unfoldable pub execute_unsafe : Str → Option S → Code × Option S
  execute_unsafe cmd none = (Code.src_err, none)
  execute_unsafe cmd (some s) =
      let (ret, s1) = lib.exec cmd s in (if ret == 0 then Code.ok else Code.invl_para, some s1)

  -- The names of the columns from `i` on: `left` of them.
  unfoldable pub column_names : ℕ → ℕ → S → Row
  column_names zero i s = []
  column_names (suc left) i s = lib.column_name s i ∷ column_names left (suc i) s

  -- `none`: a null pointer is made a string.
  unfoldable pub column_texts : ℕ → ℕ → S → Option Row
  unfolding ◌>>=◌
  column_texts zero i s = some []
  column_texts (suc left) i s = do
    t ← lib.column_text s i
    ts ← column_texts left (suc i) s
    some (t ∷ ts)

  unfoldable pub fill_header : Row → S → Row
  unfolding column_names
  fill_header [] s = column_names (lib.column_count s) 0 s
  fill_header (h ∷ hs) s = h ∷ hs

  -- The loop of GetResult; also `none` after more than `fuel` rows.
  unfoldable pub fetch : ℕ → Row → List Row → S → Option (DbRes × S)
  unfolding fill_header column_texts ◌>>=◌
  fetch zero header rows s = none
  fetch (suc fuel) header rows s =
      let (ret, s1) = lib.next_step s in
      let next = (do
        row ← column_texts (lib.column_count s1) 0 s1
        fetch fuel (fill_header header s1) (rows ++ (row ∷ [])) s1) in
      if ret == 100 then next else some (record { header = header; rows = rows }, s1)

  -- GetResult: the code, what `res` is afterwards, and the handle.
  unfoldable pub get_result : ℕ → Str → DbRes → Option S → Option (Code × DbRes × Option S)
  unfolding fetch ◌>>=◌
  get_result fuel sql res none = some (Code.src_err, res, none)
  get_result fuel sql res (some s) =
      let (ret, s1) = lib.prepare sql s in
      if ret == 0
      then (do (found, s2) ← fetch fuel [] [] s1; some (Code.ok, found, some (lib.finalize s2)))
      else some (Code.invl_para, record { header = []; rows = [] }, some s1)

  -- HSqliteConnection.
  abbrev pub sqlite_connection : Connection (Option S)
  sqlite_connection = record {
    execute = drive_execute;
    begin_transaction = execute_unsafe (66 ∷ 69 ∷ 71 ∷ 73 ∷ 78 ∷ 59 ∷ []);
    commit_transaction = execute_unsafe (67 ∷ 79 ∷ 77 ∷ 77 ∷ 73 ∷ 84 ∷ 59 ∷ []);
    roll_back = execute_unsafe (82 ∷ 79 ∷ 76 ∷ 76 ∷ 66 ∷ 65 ∷ 67 ∷ 75 ∷ 59 ∷ []);
  }

  -- Execute refuses a statement that SQLite has run.
  drive_execute_fails :
      ((s : S) → (lib.next_step s).0 ≢ 0)
      → (sql : Str) (s : Option S) → is_ok_code (drive_execute sql s).0 ≡ false
  unfolding drive_execute is_ok_code
  drive_execute_fails never sql none = refl
  drive_execute_fails never sql (some s) = elim (Bool-cases ((lib.prepare sql s).0 == 0)) [
    | inl y ↦ elim (Bool-cases ((lib.next_step (lib.prepare sql s).1).0 == 0)) [
      | inl z ↦ absurd (never (lib.prepare sql s).1 (ground (arith, z)))
      | inr n ↦ rw (y, n) refl
    ]
    | inr n ↦ rw n refl
  ]

  -- sqlite3_step never returns SQLITE_OK, which Execute wants. So MultiExec of one statement or more
  -- never commits: once the transaction has begun, it runs the first statement, rolls back and returns
  -- an error.
  pub multi_exec_never_commits :
      ((s : S) → (lib.next_step s).0 ≢ 0)
      → (sql : Str) (sqlss : List Str) (s : Option S)
      → is_ok_code (sqlite_connection.begin_transaction s).0 ≡ true
      → multi_exec sqlite_connection (sql ∷ sqlss) s ≡ (
        Code.dep_error,
        (sqlite_connection.roll_back
            (drive_execute sql (sqlite_connection.begin_transaction s).1).1).1,
      )
  unfolding multi_exec exec_each
  multi_exec_never_commits never sql sqlss s y =
      rw (y, drive_execute_fails never sql (sqlite_connection.begin_transaction s).1) refl

  -- What the steps of a statement give: the rows, each with a text in every column, and then the end.
  abbrev pub Yields : Row → List Row → S → Type 0
  Yields names [] s = (lib.next_step s).0 ≢ 100
  Yields names (r ∷ rs) s =
      ((lib.next_step s).0 ≡ 100)
      × (column_names (lib.column_count (lib.next_step s).1) 0 (lib.next_step s).1 ≡ names)
      × (column_texts (lib.column_count (lib.next_step s).1) 0 (lib.next_step s).1 ≡ some r)
      × Yields names rs (lib.next_step s).1

  header_of_filled :
      (header names : Row) (r : Row) (rest : List Row) (s : S)
      → column_names (lib.column_count s) 0 s ≡ names
      → header_of (fill_header header s) names rest ≡ header_of header names (r ∷ rest)
  unfolding fill_header header_of
  header_of_filled [] names r rest s e = rw e (header_of_self names rest)
  header_of_filled (h ∷ hs) names r rest s e = refl

  fetch_lem :
      (fuel : ℕ) (header names : Row) (rows rest : List Row) (s : S)
      → Yields names rest s
      → length rest < fuel
      → (t : S) × (fetch fuel header rows s
          ≡ some (record { header = header_of header names rest; rows = rows ++ rest }, t))
  unfolding fetch
  fetch_lem zero header names rows rest s h k = absurd (omega arith)
  fetch_lem (suc fuel) header names rows [] s h k = (
    (lib.next_step s).1,
    rw (not_row (lib.next_step s).0 h, header_of_end header names, append-nil rows) refl,
  )
  fetch_lem (suc fuel) header names rows (r ∷ rest) s (y, n, t, more) k =
      let s1 = (lib.next_step s).1 in
      let (u, e) =
        fetch_lem fuel (fill_header header s1) names (rows ++ (r ∷ [])) rest s1 more
          (omega arith) in
      let b : ((lib.next_step s).0 == 100) ≡ true = ground (arith, y) in
      (
        u,
        rw (b, t)
            (unfold ◌>>=◌ in
              rw (e, header_of_filled header names r rest s1 n, append_assoc rows (r ∷ []) rest)
                refl),
      )

  -- GetResult of a statement that SQLite prepares and that yields rows without a NULL: it returns
  -- these rows in their order, and the names of the columns, unless there is no row. More rounds than
  -- there are rows are enough.
  pub get_result_lem :
      (fuel : ℕ) (sql : Str) (names : Row) (rows : List Row) (res : DbRes) (s : S)
      → (lib.prepare sql s).0 ≡ 0
      → Yields names rows (lib.prepare sql s).1
      → length rows < fuel
      → (t : S) × (get_result fuel sql res (some s)
          ≡ some (Code.ok, record { header = header_of [] names rows; rows = rows }, some t))
  unfolding get_result
  get_result_lem fuel sql names rows res s y h k =
      let (t, e) = fetch_lem fuel [] names [] rows (lib.prepare sql s).1 h k in
      let b : ((lib.prepare sql s).0 == 0) ≡ true = ground (arith, y) in
      (lib.finalize t, rw b (unfold ◌>>=◌ in rw e refl))

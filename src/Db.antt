-- ===== src/Db.antt =====
-- The connections of db: HDBRes (hdbres), dbconnectionbase, and the text of an INSERT. What a database
-- driver does is a parameter: its calls change a state `S`.
pub mod Multi
pub mod Sqlite
pub mod Config
mod Tests
use huicpp.Base.{
  ℕ, suc, ◌+◌, ◌-◌, List, [], ◌∷◌, ◌++◌, length, take, get_elem?, Bool, true, false, not, ◌&&◌,
  if◌then◌else◌, ltb, leb, ◌==◌, Option, none, some,
}
use huicpp.Base.Options.{◌>>=◌}
use huicpp.Str.{Str, is_empty, plus}
use huicpp.Str.Equal.{same_str}

-- The codes that the calls return.
pub data Code : Type 0 where
  ok : Code
  invl_para : Code
  src_err : Code
  dep_error : Code
  err_status : Code

unfoldable pub is_ok_code : Code → Bool
is_ok_code Code.ok = true
is_ok_code _ = false

abbrev pub Row : Type 0
Row = List Str

-- HDBRes.
pub record DbRes : Type 0 where
  pub header : Row
  pub rows : List Row

-- `std::find` among the names of the columns, as a distance from the first.
unfoldable pub column_of : Str → Row → Option ℕ
unfolding same_str plus
column_of key [] = none
column_of key (h ∷ hs) =
    let rest = column_of key hs in if same_str h key then some 0 else plus 1 rest

-- GetValue of a name and a row. `none` is an exception, or an access outside of the row.
unfoldable pub get_value_by_name : DbRes → Str → ℕ → Option Str
unfolding column_of ◌>>=◌
get_value_by_name res key i =
    if ltb i (length res.rows)
    then (do j ← column_of key res.header; r ← get_elem? res.rows i; get_elem? r j)
    else none

-- GetValue of a row and a column, with the test of the row's length as it stands.
unfoldable pub get_value_at : DbRes → ℕ → ℕ → Option Str
unfolding ◌>>=◌
get_value_at res i j =
    if ltb i (length res.rows)
    then (if ltb j (length res.header)
        then (do r ← get_elem? res.rows i; if leb (length r) j then get_elem? r j else none)
        else none)
    else none

-- The virtual functions that a driver implements.
pub record Connection (S : Type 0) : Type 0 where
  pub execute : Str → S → Code × S
  pub begin_transaction : S → Code × S
  pub commit_transaction : S → Code × S
  pub roll_back : S → Code × S

module _ {S : Type 0} (c : Connection S) where
  -- The loop of MultiExec and the commit after it.
  unfoldable pub exec_each : List Str → S → Code × S
  unfolding is_ok_code
  exec_each [] s = c.commit_transaction s
  exec_each (sql ∷ sqlss) s =
      let (ret, s') = c.execute sql s in
      let rest = exec_each sqlss s' in
      if is_ok_code ret then rest else (Code.dep_error, (c.roll_back s').1)

  unfoldable pub multi_exec : List Str → S → Code × S
  unfolding is_ok_code exec_each
  multi_exec sqlss s =
      let (ret, s') = c.begin_transaction s in
      if is_ok_code ret then exec_each sqlss s' else (ret, s')

-- Most rows in one statement.
abbrev pub max_multi_insert_count : ℕ
max_multi_insert_count = 256

module _ {S : Type 0} (impl : List Row → S → Option (Code × S)) where
  -- The loop of MultiInsert, with the rows in `item_data`, and the statement after it. `impl` is
  -- multi_insert_impl, which is virtual.
  unfoldable pub insert_rows : List Row → List Row → S → Option (Code × S)
  unfolding is_ok_code ◌>>=◌
  insert_rows [] [] s = some (Code.ok, s)
  insert_rows [] (r ∷ item_data) s = impl (r ∷ item_data) s
  insert_rows (row ∷ src_data) item_data s =
      let full = (do
        (ret, s') ← impl (item_data ++ (row ∷ [])) s
        let rest = insert_rows src_data [] s'
        if is_ok_code ret then rest else some (ret, s')) in
      let more = insert_rows src_data (item_data ++ (row ∷ [])) s in
      if length (item_data ++ (row ∷ [])) == max_multi_insert_count then full else more

  unfoldable pub multi_insert : List Row → S → Option (Code × S)
  unfolding insert_rows
  multi_insert rows s = insert_rows rows [] s

-- A string without its last character, `s.substr(0, s.length() - 1)`, for one that has a character.
unfoldable pub without_last : Str → Str
without_last s = take (length s - 1) s

unfoldable pub each_field : (Str → Str) → Row → Str
each_field f [] = []
each_field f (x ∷ xs) = f x ++ each_field f xs

-- "( a,b,": the names of the columns; "( 'x','y',": the values of a row.
unfoldable pub fields_text : (Str → Str) → Row → Str
unfolding each_field without_last
fields_text f xs = without_last (40 ∷ 32 ∷ each_field f xs) ++ (41 ∷ [])

abbrev pub name_text : Str → Str
name_text x = x ++ (44 ∷ [])

abbrev pub value_text : Str → Str
value_text x = 39 ∷ x ++ (39 ∷ 44 ∷ [])

unfoldable pub rows_text : List Row → Str
unfolding fields_text
rows_text [] = []
rows_text (r ∷ rs) = fields_text value_text r ++ (44 ∷ rows_text rs)

-- "INSERT INTO `%s` %s VALUES %s".
unfoldable pub insert_text : Str → Row → List Row → Str
unfolding fields_text rows_text without_last
insert_text table header rows =
    (73 ∷ 78 ∷ 83 ∷ 69 ∷ 82 ∷ 84 ∷ 32 ∷ 73 ∷ 78 ∷ 84 ∷ 79 ∷ 32 ∷ 96 ∷ [])
    ++ table
    ++ (96 ∷ 32 ∷ fields_text name_text header)
    ++ (32 ∷ 86 ∷ 65 ∷ 76 ∷ 85 ∷ 69 ∷ 83 ∷ 32 ∷ [])
    ++ without_last (32 ∷ rows_text rows)

-- The buffer of HStr::Format, into which vsprintf writes.
abbrev pub string_len : ℕ
string_len = 2048

-- `none`: the statement does not fit into the buffer.
unfoldable pub multi_insert_impl :
    {S : Type 0} → Connection S → Str → Row → List Row → S → Option (Code × S)
unfolding is_empty insert_text
multi_insert_impl c table header rows s =
    if is_empty table
    then some (Code.invl_para, s)
    else (if ltb (length (insert_text table header rows)) string_len
        then some (c.execute (insert_text table header rows) s)
        else none)

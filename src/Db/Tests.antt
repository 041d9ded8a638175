-- ===== src/Db/Tests.antt =====
-- Concrete connections, and the theorems at concrete inputs.
use huicpp.Base.{
  ℕ, suc, ◌+◌, ◌≤◌, ◌<◌, ◌≡◌, ◌≢◌, max, ◌*◌, refl, arith, List, [], ◌∷◌, length, true, false,
  if◌then◌else◌, ◌==◌, Option, none, some,
}
use huicpp.Base.Options.{◌>>=◌}
use huicpp.Str.{Str}
use huicpp.Str.Equal.{same_str}
use huicpp.Db.{
  Code, is_ok_code, Row, DbRes, Connection, multi_exec, multi_insert, insert_text, fields_text,
  rows_text, each_field, without_last,
}
use huicpp.Db.Multi.{IsTransactional, run_each, joined, Pieces, insert_pieces, multi_insert_lem}
use huicpp.Db.Sqlite.{
  Sqlite, drive_execute, execute_unsafe, sqlite_connection, column_names, column_texts, get_result,
  header_of, multi_exec_never_commits, get_result_lem,
}
use huicpp.Db.Config.{
  DbItem, sqlite_type, get_conn, init_from_config, init_items, init_item, add_conns, add_conn,
  named, init_from_config_lem,
}

-- A table of texts, and the copy of it that a transaction goes back to. An empty statement fails, and one
-- that begins with "c" commits.
abbrev Table : Type 0
Table = List Str × List Str

abbrev table_execute : Str → Table → Code × Table
table_execute [] (now, saved) = (Code.invl_para, (now, saved))
table_execute (c ∷ s) (now, saved) =
    if c == 99 then (Code.ok, (now, now)) else (Code.ok, ((c ∷ s) ∷ now, saved))

-- No commit.
abbrev Stays : Str → Type 0
Stays [] = Unit
Stays (c ∷ s) = (c == 99) ≡ false

abbrev table_connection : Connection Table
table_connection = record {
  execute = table_execute;
  begin_transaction = λ s. (Code.ok, (s.0, s.0));
  commit_transaction = λ s. (Code.ok, s);
  roll_back = λ s. (Code.ok, (s.1, s.1));
}

execute_keeps : (sql : Str) (s : Table) → Stays sql → (table_execute sql s).1.1 ≡ s.1
execute_keeps [] (now, saved) h = refl
execute_keeps (c ∷ s) (now, saved) h = rw h refl

abbrev table-IsTransactional : IsTransactional table_connection (λ s. s.1) (λ s. s.0) Stays
table-IsTransactional = record {
  begins = λ s h. refl;
  executes = execute_keeps;
  rolls_back = λ s. refl;
}

abbrev statements : List Str
statements = (1 ∷ []) ∷ [] ∷ []

abbrev table : Table
table = ((7 ∷ []) ∷ [], [])

second_fails : run_each table_connection statements (table.0, table.0) ≡ none
unfolding run_each is_ok_code
second_fails = refl

-- Counts the rows.
abbrev count_rows : List Row → ℕ → Option (Code × ℕ)
count_rows rows n = some (Code.ok, n + length rows)

abbrev one_row : List Row
one_row = ((1 ∷ []) ∷ []) ∷ []

multi_insert_lem_example :
    (pieces : List (List Row)) × (joined pieces ≡ one_row)
    × Pieces pieces
    × ((s : ℕ) → multi_insert count_rows one_row s ≡ insert_pieces count_rows pieces s)
multi_insert_lem_example = multi_insert_lem count_rows one_row

-- A quotation mark in a value, "'", ends the text in the statement.
quoted : insert_text (116 ∷ []) ((110 ∷ []) ∷ []) (((39 ∷ []) ∷ []) ∷ []) ≡ (
    73 ∷ 78 ∷ 83 ∷ 69 ∷ 82 ∷ 84 ∷ 32 ∷ 73 ∷ 78 ∷ 84 ∷ 79 ∷ 32 ∷ 96 ∷ 116 ∷ 96 ∷ 32 ∷ 40 ∷ 32 ∷ 110
    ∷ 41 ∷ 32 ∷ 86 ∷ 65 ∷ 76 ∷ 85 ∷ 69 ∷ 83 ∷ 32 ∷ 32 ∷ 40 ∷ 32 ∷ 39 ∷ 39 ∷ 39 ∷ 41 ∷ [])
unfolding insert_text fields_text rows_text each_field without_last
quoted = refl

abbrev result : DbRes
result = record { header = (97 ∷ []) ∷ (98 ∷ []) ∷ []; rows = ((1 ∷ []) ∷ (2 ∷ []) ∷ []) ∷ [] }

-- A library with the rows that are left: one column, called "a".
abbrev rows_step : List Str → ℕ × List Str × Str
rows_step [] = (101, [], [])
rows_step (x ∷ xs) = (100, xs, x)

abbrev lib : Sqlite (List Str × Str)
lib = record {
  prepare = λ sql s. (0, s);
  next_step = λ s. (let (r, xs, x) = rows_step s.0 in (r, (xs, x)));
  finalize = λ s. s;
  exec = λ sql s. (0, s);
  column_name = λ s i. 97 ∷ [];
  column_text = λ s i. some s.1;
  column_count = λ s. 1;
}

rows_step_never_ok : (xs : List Str) → (rows_step xs).0 ≢ 0
rows_step_never_ok [] h = absurd (omega arith)
rows_step_never_ok (x ∷ xs) h = absurd (omega arith)

never_commits_example : multi_exec (sqlite_connection lib) ((1 ∷ []) ∷ []) (some ([], [])) ≡ (
  Code.dep_error,
  ((sqlite_connection lib).roll_back
      (drive_execute lib
        (1 ∷ [])
        ((sqlite_connection lib).begin_transaction (some ([], []))).1).1).1,
)
never_commits_example =
    multi_exec_never_commits lib (λ s. rows_step_never_ok s.0) (1 ∷ []) [] (some ([], []))
      (unfold execute_unsafe is_ok_code in refl)

get_result_example :
    (t : List Str × Str) × (get_result lib 3 (1 ∷ []) result (some ((5 ∷ []) ∷ [], []))
      ≡ some (
        Code.ok,
        record {
          header = header_of [] ((97 ∷ []) ∷ []) (((5 ∷ []) ∷ []) ∷ []);
          rows = ((5 ∷ []) ∷ []) ∷ [];
        },
        some t,
      ))
get_result_example =
    get_result_lem lib 3 (1 ∷ []) ((97 ∷ []) ∷ []) (((5 ∷ []) ∷ []) ∷ []) result ((5 ∷ []) ∷ [], [])
      refl
      (unfold column_names column_texts ◌>>=◌ in (refl, refl, refl, λ h. absurd (omega (arith, h))))
      (omega arith)

-- Two objects of one name.
abbrev item : DbItem
item = record { dbtype = some sqlite_type; dbname = some (97 ∷ []); dbpath = some (98 ∷ []) }

abbrev numbered : Str → ℕ → Code × ℕ × ℕ
numbered path n = (Code.ok, n, suc n)

abbrev items : List DbItem
items = item ∷ item ∷ []

config_ok : is_ok_code (init_from_config numbered items 2 [] 0).0 ≡ true
unfolding init_from_config init_items init_item add_conns add_conn same_str is_ok_code
config_ok = refl

init_from_config_example :
    (3 < max 1 2 * named (97 ∷ []) items
      → (p : ℕ) × (get_conn (97 ∷ []) 3 (init_from_config numbered items 2 [] 0).1 ≡ some p))
    × (max 1 2 * named (97 ∷ []) items ≤ 3
        → get_conn (97 ∷ []) 3 (init_from_config numbered items 2 [] 0).1 ≡ none)
init_from_config_example = init_from_config_lem numbered (97 ∷ []) items 2 0 3 config_ok

-- ===== src/Conf.antt =====
-- HMstr of src/hmstr and HNormalConfig of src/hnormalconf: a std::map of strings, which is a list in the
-- order of the keys, and the files of lines "key=value" that fill it.
pub mod Lines
mod Tests
use huicpp.Base.{
  ℕ, suc, ◌+◌, ◌-◌, ◌%◌, ◌^◌, List, [], ◌∷◌, ◌++◌, length, take, Bool, true, false, not,
  if◌then◌else◌, ltb, Option, none, some,
}
use huicpp.Base.Options.{◌>>=◌}
use huicpp.Str.{Str, Ret, split, is_empty, remove_right, is_ok}
use huicpp.Str.Trim.{trim, is_all_digit}
use huicpp.Str.Equal.{same_str, less_str}

abbrev pub Conf : Type 0
Conf = List (Str × Str)

-- `find`: the value, or `none` for the end.
unfoldable pub find_value : Str → Conf → Option Str
unfolding same_str
find_value key [] = none
find_value key ((k, v) ∷ m) = if same_str k key then some v else find_value key m

-- SetValue: the value of a key that is there is replaced; a new key comes before the first greater one.
unfoldable pub set_value : Str → Str → Conf → Conf
unfolding same_str less_str
set_value key val [] = (key, val) ∷ []
set_value key val ((k, v) ∷ m) =
    let rest = set_value key val m in
    if same_str k key
    then (k, val) ∷ m
    else (if less_str key k then (key, val) ∷ (k, v) ∷ m else (k, v) ∷ rest)

unfoldable pub get_value : Str → Str → Conf → Str
unfolding find_value
get_value key default_val m = elim (find_value key m) [ none ↦ default_val | some v ↦ v ]

-- GetInt; `to_n` is std::stoi, `none` where it throws.
unfoldable pub get_int : {N : Type 0} → (Str → Option N) → Str → N → Conf → Option N
unfolding find_value
get_int to_n key n m = elim (find_value key m) [ none ↦ some n | some v ↦ to_n v ]

unfoldable pub is_digit : Str → Conf → Bool
unfolding get_value is_all_digit
is_digit key m = is_all_digit (get_value key [] m)

unfoldable pub exists : Str → Conf → Bool
unfolding find_value
exists key m = elim (find_value key m) [ none ↦ false | some v ↦ true ]

-- Remove, and how many entries it takes out.
unfoldable pub remove_key : Str → Conf → ℕ × Conf
unfolding same_str
remove_key key [] = (0, [])
remove_key key ((k, v) ∷ m) =
    let (n, rest) = remove_key key m in if same_str k key then (1, m) else (n, (k, v) ∷ rest)

unfoldable pub params_text : Conf → Str
params_text [] = []
params_text ((k, v) ∷ m) = k ++ (61 ∷ v) ++ (38 ∷ params_text m)

-- The length of an empty text less one is npos.
unfoldable pub to_param_string : Conf → Str
unfolding params_text
to_param_string m = take ((length (params_text m) + 2 ^ 64 - 1) % 2 ^ 64) (params_text m)

-- One entry: {"key":"value"},
unfoldable pub json_text : Conf → Str
json_text [] = []
json_text ((k, v) ∷ m) = (123 ∷ 34 ∷ k) ++ ((34 ∷ 58 ∷ 34 ∷ v) ++ (34 ∷ 125 ∷ 44 ∷ json_text m))

unfoldable pub to_json : Conf → Str
unfolding json_text remove_right
to_json m = remove_right (123 ∷ 32 ∷ json_text m) 1 ++ (125 ∷ [])

-- isNoteLine: fewer than three characters, or ";;" at the start.
unfoldable pub is_note_line : Str → Bool
unfolding same_str
is_note_line l = if ltb (length l) 3 then true else same_str (take 2 l) (59 ∷ 59 ∷ [])

-- The two pieces that a line begins with.
unfoldable pub set_pieces : List Str → Conf → Conf
set_pieces (k ∷ v ∷ vs) m = set_value (trim [] k) (trim [] v) m
set_pieces _ m = m

-- One line, after whether the last Split was OK; `none` where Split does not come back.
unfoldable pub load_line : Str → Bool × Conf → Option (Bool × Conf)
unfolding is_note_line is_ok set_pieces ◌>>=◌
load_line l (ok, m) = if is_note_line l then some (ok, m) else (do
  (ret, vs) ← split l (61 ∷ []) 0
  some (is_ok ret, if is_ok ret then set_pieces vs m else m))

unfoldable pub load_lines : List Str → Bool × Conf → Option (Bool × Conf)
unfolding load_line ◌>>=◌
load_lines [] r = some r
load_lines (l ∷ ls) r = do r' ← load_line l r; load_lines ls r'

abbrev pub min_content_length : ℕ
min_content_length = 10

-- LoadConfig of a file that was read: whether it returns OK, and the map.
unfoldable pub load_config : Str → Conf → Option (Bool × Conf)
unfolding load_lines is_ok ◌>>=◌
load_config content m =
    if ltb min_content_length (length content)
    then (do
      (ret, lines) ← split content (10 ∷ []) 0
      if is_ok ret then load_lines lines (true, m) else some (false, m))
    else some (false, m)

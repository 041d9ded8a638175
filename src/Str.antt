-- ===== src/Str.antt =====
-- HStr of src/hstr.h and hstr.cpp. A string is the list of its characters; `std::string::find` and its
-- kin give an Option, where `none` is npos. A member function and the static function of the same
-- name are one definition.
pub mod Equal
pub mod Find
pub mod Split
pub mod Pieces
pub mod Edit
pub mod Compare
pub mod Trim
mod Tests
use huicpp.Base.{
  ℕ, zero, suc, ◌+◌, ◌-◌, ◌%◌, ◌^◌, List, [], ◌∷◌, ◌++◌, length, take, drop, Bool, true, false, not,
  ◌&&◌, ◌||◌, if◌then◌else◌, ltb, leb, ◌==◌, Option, none, some,
}
use huicpp.Base.Options.{◌>>=◌, return}

abbrev pub Str : Type 0
Str = List ℕ

unfoldable pub is_prefix : Str → Str → Bool
is_prefix [] s = true
is_prefix (c ∷ key) [] = false
is_prefix (c ∷ key) (d ∷ s) = (c == d) && is_prefix key s

unfoldable pub plus : ℕ → Option ℕ → Option ℕ
plus n none = none
plus n (some i) = some (i + n)

-- `s.find(key)`, and `s.find(key, pos)`.
unfoldable pub find : Str → Str → Option ℕ
unfolding is_prefix plus
find [] key = if is_prefix key [] then some 0 else none
find (c ∷ s) key = let rest = find s key in if is_prefix key (c ∷ s) then some 0 else plus 1 rest

unfoldable pub find_from : Str → Str → ℕ → Option ℕ
unfolding find
find_from s key pos = if ltb (length s) pos then none else plus pos (find (drop pos s) key)

unfoldable pub is_empty : Str → Bool
is_empty [] = true
is_empty (c ∷ s) = false

-- The return codes of the functions.
pub data Ret : Type 0 where
  ok : Ret
  invl_para : Ret
  over_flow : Ret

-- `s.substr(pos)`; `none` is the exception.
unfoldable pub substr : Str → ℕ → Option Str
substr s pos = if ltb (length s) pos then none else some (drop pos s)

-- The loop of Split and the piece after it; `none`: an exception, or more than `fuel` rounds.
unfoldable pub split_loop : ℕ → Str → Str → ℕ → Option (List Str)
unfolding find_from substr
split_loop zero s key beg = none
split_loop (suc fuel) s key beg = elim (find_from s key beg) [
  | none ↦ do piece ← substr s beg; return (piece ∷ [])
  | some pos ↦ do
    pieces ← split_loop fuel s key (pos + length key)
    return (take (pos - beg) (drop beg s) ∷ pieces)
]

-- The code, and the pieces that are added to `res`. Each round but the last takes a character at
-- least.
unfoldable pub split : Str → Str → ℕ → Option (Ret × List Str)
unfolding is_empty split_loop
split s key beg =
    if not (not (is_empty s) && not (is_empty key))
    then some (Ret.invl_para, [])
    else (do pieces ← split_loop (suc (length s)) s key beg; return (Ret.ok, pieces))

unfoldable pub v2str_loop : List Str → Str → Str
v2str_loop [] l = []
v2str_loop (x ∷ xs) l = x ++ l ++ v2str_loop xs l

-- The last character goes, whatever the length of `l`; `substr` of npos characters is everything.
unfoldable pub v2str : List Str → Str → Str
unfolding v2str_loop is_empty
v2str strs l =
    let res = v2str_loop strs l in
    if not (is_empty l) then take ((length res + 2 ^ 64 - 1) % 2 ^ 64) res else res

-- Replace: the code, and the string.
unfoldable pub replace : Str → Str → Str → Ret × Str
unfolding is_empty find
replace src src_key dst_key =
    if not (not (is_empty src) && (not (is_empty src_key) && not (is_empty dst_key)))
    then (Ret.invl_para, src)
    else elim (find src src_key) [
      | none ↦ (Ret.over_flow, src)
      | some pos ↦ (Ret.ok, take pos src ++ dst_key ++ drop (pos + length src_key) src)
    ]

unfoldable pub is_ok : Ret → Bool
is_ok Ret.ok = true
is_ok _ = false

-- `none`: more than `fuel` rounds.
unfoldable pub replaces : ℕ → Str → Str → Str → Option Str
unfolding is_ok
replaces zero src src_key dst_key = none
replaces (suc fuel) src src_key dst_key =
    let (cb, src') = replace src src_key dst_key in
    let rest = replaces fuel src' src_key dst_key in if is_ok cb then rest else some src'

unfoldable pub remove : Str → Str → Ret × Str
unfolding is_empty find
remove src str_key =
    if not (not (is_empty src) && not (is_empty str_key))
    then (Ret.invl_para, src)
    else elim (find src str_key) [
      | none ↦ (Ret.over_flow, src)
      | some pos ↦ (Ret.ok, take pos src ++ drop (pos + length str_key) src)
    ]

-- `none`: more than `fuel` rounds.
unfoldable pub removes : ℕ → Str → Str → Option Str
unfolding is_ok
removes zero src str_key = none
removes (suc fuel) src str_key =
    let (cb, src') = remove src str_key in
    let rest = removes fuel src' str_key in if is_ok cb then rest else some src'

unfoldable pub remove_right : Str → ℕ → Str
remove_right s len = if leb (length s) len then [] else take (length s - len) s

unfoldable pub remove_left : Str → ℕ → Str
remove_left s len = if ltb (length s) len then [] else drop len s

unfoldable pub npos_or : Option ℕ → ℕ
npos_or none = 2 ^ 64 - 1
npos_or (some pos) = pos

unfoldable pub is_in : Str → Str → Bool
unfolding find npos_or
is_in src key = not (npos_or (find src key) == 2 ^ 64 - 1)

unfoldable pub is_begin_with : Str → Str → Bool
unfolding find npos_or
is_begin_with src key = npos_or (find src key) == 0

-- The difference of the lengths wraps.
unfoldable pub is_end_with : Str → Str → Bool
unfolding npos_or
is_end_with src key =
    npos_or (find src key) == (length src + 2 ^ 64 - length key + 2 ^ 64 - 1) % 2 ^ 64

-- The loop; `none`: more than `fuel` rounds.
unfoldable pub count : ℕ → Str → Str → ℕ → ℕ → Option ℕ
unfolding find_from
count zero src key res pos = none
count (suc fuel) src key res pos = elim (find_from src key pos) [
  | none ↦ some res
  | some p ↦
      (let rest = count fuel src key (suc res) (suc p) in
        if ltb p (length src) then rest else some res)
]

-- Each round takes a character at least.
unfoldable pub counter : Str → Str → Option ℕ
counter src key = count (suc (length src)) src key 0 0

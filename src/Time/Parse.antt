-- ===== src/Time/Parse.antt =====
-- time_basic::FromStr, GetNow, GetDate and GetTimeGroup of src/inl/time_inl.h. A C string is a list that
-- ends with the character 0. `none` is an access outside of a string, or a number beyond int in atoi.
pub mod Digits
pub mod RoundTrip
use huicpp.Base.{
  ℕ, zero, suc, ◌+◌, ◌-◌, ◌*◌, ◌^◌, List, [], ◌∷◌, ◌++◌, length, Bool, true, false, not, ◌&&◌, ◌||◌,
  if◌then◌else◌, ltb, ◌==◌, Option, none, some,
}
use huicpp.Base.Ints.{ℤ, pos, negsuc}
use huicpp.Base.Options.{◌>>=◌, return}
use huicpp.Time.{Tm}
use huicpp.Time.Decimal.{decimal, padded}

-- What `atm` holds, which FromStr gives to mktime.
pub record ParsedTm : Type 0 where
  pub year : ℤ
  pub mon : ℤ
  pub mday : ℕ
  pub hours : ℕ
  pub minutes : ℕ
  pub seconds : ℕ

unfoldable pub peek : List ℕ → Option ℕ
peek [] = none
peek (c ∷ cs) = some c

unfoldable pub advance : List ℕ → Option (List ℕ)
advance [] = none
advance (c ∷ cs) = some cs

unfoldable pub is_blank : ℕ → Bool
is_blank c = c == 32 || c == 9

unfoldable pub is_digit : ℕ → Bool
is_digit c = not (ltb c 48) && not (ltb 57 c)

unfoldable pub skip_blanks : List ℕ → Option (List ℕ)
skip_blanks [] = none
skip_blanks (c ∷ cs) = let rest = skip_blanks cs in if is_blank c then rest else some (c ∷ cs)

-- The first inner loop: to the next percent sign of the format, or to its end.
unfoldable pub literal : ℕ → List ℕ → List ℕ → Option (List ℕ × List ℕ)
unfolding peek advance is_blank skip_blanks ◌>>=◌
literal zero format text = none
literal (suc fuel) [] text = none
literal (suc fuel) (ch ∷ format) text =
    let next = (do
      ch2 ← peek format
      text' ← advance text
      if is_blank ch && not (is_blank ch2)
          then (do text'' ← skip_blanks text'; literal fuel format text'')
          else if ltb 128 ch
          then (do format' ← advance format; text'' ← advance text'; literal fuel format' text'')
          else literal fuel format text') in
    if ch == 37 || ch == 0 then some (ch ∷ format, text) else next

unfoldable pub has_room : Option ℕ → Bool
has_room none = true
has_room (some zero) = false
has_room (some (suc w)) = true

unfoldable pub less_room : Option ℕ → Option ℕ
less_room none = none
less_room (some w) = some (w - 1)

-- The digits at the front, no more than the width if there is one, and the rest.
unfoldable pub take_digits : Option ℕ → List ℕ → Option (List ℕ × List ℕ)
unfolding is_digit has_room less_room ◌>>=◌
take_digits width [] = none
take_digits width (c ∷ cs) =
    let next = (do (ds, rest) ← take_digits (less_room width) cs; return (c ∷ ds, rest)) in
    if is_digit c && has_room width then next else some ([], c ∷ cs)

unfoldable pub digits_value : ℕ → List ℕ → ℕ
digits_value v [] = v
digits_value v (c ∷ cs) = digits_value (v * 10 + (c - 48)) cs

unfoldable pub atoi : List ℕ → Option ℕ
unfolding digits_value
atoi ds = let v = digits_value 0 ds in if ltb v (2 ^ 31) then some v else none

-- The width; -1, which is `none` here, if there are no digits.
unfoldable pub width_of : List ℕ → Option (Option ℕ)
unfolding atoi ◌>>=◌
width_of [] = some none
width_of (d ∷ ds) = do w ← atoi (d ∷ ds); some (some w)

unfoldable pub int_minus : ℕ → ℕ → ℤ
int_minus a b = if ltb a b then negsuc (b - a - 1) else pos (a - b)

-- The switch; `none` is the default.
unfoldable pub set_field : ℕ → ℕ → ParsedTm → Option ParsedTm
unfolding int_minus
set_field flag val t =
    if flag == 121
    then some (record t { year = pos (val + 100) })
    else if flag == 89
    then some (record t { year = int_minus val 1900 })
    else if flag == 109
    then some (record t { mon = int_minus val 1 })
    else if flag == 100
    then some (record t { mday = val })
    else if flag == 72
    then some (record t { hours = val })
    else if flag == 77
    then some (record t { minutes = val })
    else if flag == 83
    then some (record t { seconds = val })
    else none

-- The state of the outer loop: the format, the text, bValidData and atm.
abbrev pub Reading : Type 0
Reading = List ℕ × List ℕ × Bool × ParsedTm

unfoldable pub store : List ℕ → List ℕ → Option ParsedTm → ParsedTm → Reading
store format text none t = (format, text, false, t)
store format text (some t') t = (format, text, true, t')

-- From the digits of the text on.
unfoldable pub read_value : ℕ → List ℕ → List ℕ → List ℕ → ParsedTm → Option Reading
unfolding ◌>>=◌
read_value flag format [] text t = some (format, text, false, t)
read_value flag format (d ∷ ds) text t = do
  val ← atoi (d ∷ ds)
  return (store format text (set_field flag val t) t)

-- A directive, from behind the percent sign on.
unfoldable pub directive : List ℕ → List ℕ → ParsedTm → Option Reading
unfolding ◌>>=◌
directive format text t = do
  (ws, format') ← take_digits none format
  width ← width_of ws
  flag ← peek format'
  rest ← advance format'
  if flag == 37
      then (do c ← peek text; text' ← advance text; return (rest, text', c == 37, t))
      else (do (ds, text') ← take_digits width text; read_value flag rest ds text' t)

-- The outer loop. Each round takes characters off the format, so that its length is enough fuel.
unfoldable pub from_str_loop : ℕ → Reading → Option (Bool × ParsedTm)
unfolding ◌>>=◌
from_str_loop zero r = none
from_str_loop (suc fuel) (format, text, valid, t) = do
  c ← peek format
  if c == 0 || not valid then return (valid, t) else (do
    (format1, text1) ← literal (suc (length format)) format text
    c1 ← peek format1
    if c1 == 0
        then return (valid, t)
        else (do format2 ← advance format1; r ← directive format2 text1 t; from_str_loop fuel r))

abbrev pub no_time : ParsedTm
no_time = record { year = pos 0; mon = pos 0; mday = 0; hours = 0; minutes = 0; seconds = 0 }

-- `make_me` is mktime; the format may be a null pointer.
unfoldable pub from_str : {T : Type 0} → (ParsedTm → T) → List ℕ → Option (List ℕ) → T → Option T
unfolding ◌>>=◌
from_str make_me [] format m_time = some m_time
from_str make_me (c ∷ str) none m_time = some m_time
from_str make_me (c ∷ str) (some format) m_time = do
  (valid, t) ←
      from_str_loop (suc (length format)) (format ++ (0 ∷ []), c ∷ (str ++ (0 ∷ [])), true, no_time)
  return (if valid then make_me t else m_time)

-- "%Y-%m-%d %H:%M:%S".
abbrev pub default_format : List ℕ
default_format =
    37 ∷ 89 ∷ 45 ∷ 37 ∷ 109 ∷ 45 ∷ 37 ∷ 100 ∷ 32 ∷ 37 ∷ 72 ∷ 58 ∷ 37 ∷ 77 ∷ 58 ∷ 37 ∷ 83 ∷ []

unfoldable pub get_date : Tm → List ℕ
unfolding padded
get_date t =
    padded 4 (t.tm_year + 1900) ++ ((45 ∷ padded 2 (t.tm_mon + 1)) ++ (45 ∷ padded 2 t.tm_mday))

unfoldable pub get_now : Tm → List ℕ
unfolding padded
get_now t =
    padded 4 (t.tm_year + 1900)
    ++ ((45 ∷ padded 2 (t.tm_mon + 1))
        ++ ((45 ∷ padded 2 t.tm_mday)
            ++ ((32 ∷ padded 2 t.tm_hour)
                ++ ((58 ∷ padded 2 t.tm_min) ++ (58 ∷ padded 2 t.tm_sec)))))

-- The format "%Y%m%d%H" of strftime, and the half of the hour.
unfoldable pub get_time_group : Tm → List ℕ
unfolding decimal padded
get_time_group t =
    (decimal 10 (t.tm_year + 1900)
      ++ (padded 2 (t.tm_mon + 1) ++ (padded 2 t.tm_mday ++ padded 2 t.tm_hour)))
    ++ (if ltb 29 t.tm_min then 51 ∷ 48 ∷ [] else 48 ∷ 48 ∷ [])

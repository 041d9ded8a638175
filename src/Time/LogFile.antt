-- ===== src/Time/LogFile.antt =====
-- LogfileRollbackStrategy of src/detail/log/logfileroll_detail.h and .cpp. ROLLOVER_VALUE is a number
-- from 0 to 3.
pub mod Periods
pub mod Names
pub mod Writing
use huicpp.Base.{
  ℕ, zero, suc, ◌+◌, ◌/◌, List, [], ◌∷◌, ◌++◌, Bool, true, false, not, ◌||◌, if◌then◌else◌, ltb,
  ◌==◌,
}
use huicpp.Time.{Tm}
use huicpp.Time.Decimal.{decimal, padded}

abbrev pub day : ℕ
day = 0

abbrev pub hour : ℕ
hour = 1

abbrev pub halfhour : ℕ
halfhour = 2

abbrev pub tenmin : ℕ
tenmin = 3

-- Its argument is called `hour`, and the callers pass one.
unfoldable pub get_half_hour_type : ℕ → ℕ
get_half_hour_type h = if ltb h 30 then 0 else 1

-- "00" and "30".
unfoldable pub get_half_hour_name : ℕ → List ℕ
get_half_hour_name t = if t == 0 then 48 ∷ 48 ∷ [] else 51 ∷ 48 ∷ []

unfoldable pub get_10mintues_type : ℕ → ℕ
get_10mintues_type m = m / 10

-- "00" to "50".
unfoldable pub get_10mintues_name : ℕ → List ℕ
get_10mintues_name t = (48 + t) ∷ 48 ∷ []

-- `me` is the time of the file.
unfoldable pub need_rollback : ℕ → Tm → Tm → Bool
unfolding get_half_hour_type get_10mintues_type
need_rollback value me tm_in =
    if not (tm_in.tm_year == me.tm_year)
      || (not (tm_in.tm_mon == me.tm_mon) || not (tm_in.tm_mday == me.tm_mday))
    then true
    else if value == day
    then false
    else if not (tm_in.tm_hour == me.tm_hour)
    then true
    else if value == hour
    then false
    else if not (get_half_hour_type tm_in.tm_hour == get_half_hour_type me.tm_hour)
    then true
    else if value == halfhour
    then false
    else not (get_10mintues_type tm_in.tm_min == get_10mintues_type me.tm_min)

-- The part of the name that says the date and the time.
unfoldable pub date_part : Tm → List ℕ
unfolding decimal padded
date_part t =
    decimal 10 (1900 + t.tm_year) ++ (95 ∷ padded 2 (1 + t.tm_mon)) ++ (95 ∷ padded 2 t.tm_mday)

unfoldable pub hour_part : ℕ → Tm → List ℕ
unfolding padded
hour_part value t = if not (value == day) then 95 ∷ padded 2 t.tm_hour else []

unfoldable pub minute_part : ℕ → Tm → List ℕ
unfolding get_half_hour_name get_half_hour_type get_10mintues_name get_10mintues_type
minute_part value t =
    if value == halfhour
    then 95 ∷ get_half_hour_name (get_half_hour_type t.tm_hour)
    else if value == tenmin
    then 95 ∷ get_10mintues_name (get_10mintues_type t.tm_min)
    else []

unfoldable pub end_part : List ℕ → List ℕ
end_part [] = []
end_part (c ∷ cs) = 95 ∷ c ∷ cs

unfoldable pub get_file_name : ℕ → List ℕ → List ℕ → Tm → List ℕ
unfolding date_part hour_part minute_part end_part
get_file_name value filename endstr t =
    filename
    ++ (95 ∷ date_part t)
    ++ hour_part value t
    ++ minute_part value t
    ++ end_part endstr
    ++ (46 ∷ 108 ∷ 111 ∷ 103 ∷ [])

-- A strategy as a value: which file a moment's records go to, and when the next file begins. `none`
-- stands for the name that stays.
pub record Strategy : Type 0 where
  pub value : ℕ
  pub mt_time : Tm
  pub filename : List ℕ

-- Touch takes the time of the clock, `now`.
unfoldable pub rollback : Tm → Strategy → List ℕ × Strategy
unfolding get_file_name
rollback now s = (get_file_name s.value s.filename [] now, record s { mt_time = now })

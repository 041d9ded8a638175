-- ===== src/Time/LogFile/Periods.antt =====
-- When a new log file begins: the periods of the strategies.
use huicpp.Base.{
  ℕ, ◌/◌, ◌<◌, ◌≡◌, ◌≢◌, refl, arith, [], ◌∷◌, Bool, Bool-cases, inl, inr, true, false, not, ◌||◌,
  if◌then◌else◌, ltb, ◌==◌,
}
use huicpp.Time.{Tm}
use huicpp.Time.LogFile.{
  day, hour, halfhour, tenmin, get_half_hour_type, get_half_hour_name, get_10mintues_type,
  need_rollback, minute_part,
}

-- A local time of the years from 1900 to 9999.
pub record IsTm (t : Tm) : Type 0 where
  pub year : t.tm_year < 8100
  pub mon : t.tm_mon < 12
  pub mday : t.tm_mday < 32
  pub hours : t.tm_hour < 24
  pub minutes : t.tm_min < 60

-- The times fall into one period of the strategy.
pub record SamePeriod (value : ℕ) (a b : Tm) : Type 0 where
  pub year : a.tm_year ≡ b.tm_year
  pub mon : a.tm_mon ≡ b.tm_mon
  pub mday : a.tm_mday ≡ b.tm_mday
  pub hours : value ≢ day → a.tm_hour ≡ b.tm_hour
  pub tens : value ≡ tenmin → a.tm_min / 10 ≡ b.tm_min / 10

-- The three kinds of test of the code, when the answer is false.
date_test :
    (y m d rest : Bool)
    → (if not y || (not m || not d) then true else rest) ≡ false
    → (y ≡ true) × (m ≡ true) × (d ≡ true) × (rest ≡ false)
date_test true true true rest h = (refl, refl, refl, h)
date_test true true false rest h = absurd (ground (arith, h))
date_test true false d rest h = absurd (ground (arith, h))
date_test false m d rest h = absurd (ground (arith, h))

value_test : (v rest : Bool) → (if v then false else rest) ≡ false → v ≡ false → rest ≡ false
value_test true rest h e = absurd (ground (arith, e))
value_test false rest h e = h

part_test : (p rest : Bool) → (if not p then true else rest) ≡ false → (p ≡ true) × (rest ≡ false)
part_test true rest h = (refl, h)
part_test false rest h = absurd (ground (arith, h))

not_test : (p : Bool) → not p ≡ false → p ≡ true
not_test true h = refl
not_test false h = absurd (ground (arith, h))

eq-true : (a b : ℕ) → (b == a) ≡ true → a ≡ b
eq-true a b h = ground (arith, h)

pub need-SamePeriod :
    (value : ℕ) (a b : Tm) → need_rollback value a b ≡ false → SamePeriod value a b
unfolding need_rollback get_10mintues_type
need-SamePeriod value a b h =
    let (y, m, d, r1) =
      date_test (b.tm_year == a.tm_year) (b.tm_mon == a.tm_mon) (b.tm_mday == a.tm_mday) _ h in
    let hour_rest = λ (n : value ≢ day).
      part_test (b.tm_hour == a.tm_hour) _ (value_test (value == day) _ r1 (ground (arith, n))) in
    record {
      year = eq-true a.tm_year b.tm_year y;
      mon = eq-true a.tm_mon b.tm_mon m;
      mday = eq-true a.tm_mday b.tm_mday d;
      hours = λ n. eq-true a.tm_hour b.tm_hour (hour_rest n).0;
      tens = λ e.
          let r2 = (hour_rest (λ z. omega (arith, z, e))).1 in
          let r3 = value_test (value == hour) _ r2 (ground (arith, e)) in
          let r4 =
            (part_test (get_half_hour_type b.tm_hour == get_half_hour_type a.tm_hour) _ r3).1 in
          let r5 = value_test (value == halfhour) _ r4 (ground (arith, e)) in
          eq-true (a.tm_min / 10) (b.tm_min / 10) (not_test _ r5);
    }

last_tests :
    (value : ℕ) (a b : Tm)
    → value < 4
    → (value == day) ≡ false
    → (value ≡ tenmin → a.tm_min / 10 ≡ b.tm_min / 10)
    → (if value == hour
        then false
        else if value == halfhour
        then false
        else not (get_10mintues_type b.tm_min == get_10mintues_type a.tm_min))
      ≡ false
unfolding get_10mintues_type
last_tests value a b l v t = elim (Bool-cases (value == hour)) [
  | inl w ↦ rw w refl
  | inr w ↦ elim (Bool-cases (value == halfhour)) [
    | inl x ↦ rw (w, x) refl
    | inr x ↦
        let e = t (ground (arith, l, v, w, x)) in
        let p : (b.tm_min / 10 == a.tm_min / 10) ≡ true = ground (arith, e) in rw (w, x, p) refl
  ]
]

pub SamePeriod-need :
    (value : ℕ) (a b : Tm) → value < 4 → SamePeriod value a b → need_rollback value a b ≡ false
unfolding need_rollback get_10mintues_type
SamePeriod-need value a b l s =
    let y : (b.tm_year == a.tm_year) ≡ true = ground (arith, s.year) in
    let m : (b.tm_mon == a.tm_mon) ≡ true = ground (arith, s.mon) in
    let d : (b.tm_mday == a.tm_mday) ≡ true = ground (arith, s.mday) in
    elim (Bool-cases (value == day)) [
      | inl v ↦ rw (y, m, d, v) refl
      | inr v ↦
          let e = s.hours (λ z. absurd (ground (arith, v, z))) in
          let h : (b.tm_hour == a.tm_hour) ≡ true = ground (arith, e) in
          let k : (get_half_hour_type b.tm_hour == get_half_hour_type a.tm_hour) ≡ true =
            rw e (ground arith) in
          rw (y, m, d, v, h, k) (last_tests value a b l v s.tens)
    ]

-- The strategy of half hours tests the hour where the minute is meant, so that it begins a new file at
-- the same times as the strategy of hours, and the name says half hour "00" in each.
pub halfhour_lem :
    (a b : Tm)
    → IsTm a
    → IsTm b
    → (need_rollback halfhour a b ≡ need_rollback hour a b)
      × (minute_part halfhour a ≡ 95 ∷ 48 ∷ 48 ∷ [])
unfolding need_rollback minute_part get_half_hour_type get_half_hour_name
halfhour_lem a b u w =
    let x : ltb a.tm_hour 30 ≡ true = ground (arith, u.hours) in
    let y : ltb b.tm_hour 30 ≡ true = ground (arith, w.hours) in (rw (x, y) refl, rw x refl)

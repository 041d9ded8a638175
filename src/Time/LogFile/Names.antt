-- ===== src/Time/LogFile/Names.antt =====
-- A new log file begins exactly when its name is another.
use huicpp.Base.{
  ℕ, zero, suc, ◌+◌, ◌/◌, ◌%◌, ◌<◌, ◌≡◌, ◌≢◌, ◌↔◌, refl, sym, ap, ◌∙◌, arith, List, [], ◌∷◌, ◌++◌,
  append_assoc, length, length-append, if◌then◌else◌, drop, drop-append, Bool-cases, inl, inr,
  false, ◌==◌,
}
use huicpp.Time.Decimal.{padded_two, four_digits, decimal_four}
use huicpp.Time.LogFile.Periods.{IsTm, SamePeriod, need-SamePeriod, SamePeriod-need}
use huicpp.Time.{Tm}
use huicpp.Time.LogFile.{
  day, halfhour, tenmin, get_10mintues_type, get_10mintues_name, get_half_hour_name,
  get_half_hour_type, need_rollback, date_part, hour_part, minute_part, end_part, get_file_name,
}

abbrev nth : ℕ → List ℕ → ℕ
nth k [] = 0
nth zero (x ∷ xs) = x
nth (suc k) (x ∷ xs) = nth k xs

-- The name from behind `filename` and the first underscore on.
abbrev body : ℕ → List ℕ → Tm → List ℕ
body value endstr t =
    date_part t
    ++ (hour_part value t
        ++ (minute_part value t ++ (end_part endstr ++ (46 ∷ 108 ∷ 111 ∷ 103 ∷ []))))

name-body :
    (value : ℕ) (filename endstr : List ℕ) (t : Tm)
    → get_file_name value filename endstr t ≡ filename ++ (95 ∷ body value endstr t)
unfolding get_file_name
name-body value filename endstr t = rw (append_assoc, append_assoc, append_assoc, append_assoc) refl

abbrev two_digits : ℕ → List ℕ
two_digits n = (48 + n / 10) ∷ (48 + n % 10) ∷ []

date_digits :
    (t : Tm)
    → IsTm t
    → date_part t
      ≡ four_digits (1900 + t.tm_year)
        ++ (95 ∷ two_digits (1 + t.tm_mon))
        ++ (95 ∷ two_digits t.tm_mday)
unfolding date_part
date_digits t v =
    rw
      (
        decimal_four (1900 + t.tm_year) (omega arith) (omega (arith, v.year)),
        padded_two (1 + t.tm_mon) (omega (arith, v.mon)),
        padded_two t.tm_mday (omega (arith, v.mday)),
      )
      refl

abbrev tail : ℕ → List ℕ → Tm → List ℕ
tail value endstr t =
    hour_part value t ++ (minute_part value t ++ (end_part endstr ++ (46 ∷ 108 ∷ 111 ∷ 103 ∷ [])))

hour_digits :
    (value : ℕ) (t : Tm) → value ≢ day → IsTm t → hour_part value t ≡ 95 ∷ two_digits t.tm_hour
unfolding hour_part
hour_digits value t n w =
    let v : (value == day) ≡ false = ground (arith, n) in
    rw (v, padded_two t.tm_hour (omega (arith, w.hours))) refl

minute_digits :
    (value : ℕ) (t : Tm)
    → value ≡ tenmin
    → minute_part value t ≡ 95 ∷ (48 + t.tm_min / 10) ∷ 48 ∷ []
unfolding minute_part get_10mintues_name get_10mintues_type
minute_digits value t e = rw e refl

two_equal : (n m : ℕ) → 48 + n / 10 ≡ 48 + m / 10 → 48 + n % 10 ≡ 48 + m % 10 → n ≡ m
two_equal n m e f = omega (arith, e, f)

four_equal :
    (n m : ℕ)
    → 48 + n / 10 / 10 / 10 ≡ 48 + m / 10 / 10 / 10
    → 48 + n / 10 / 10 % 10 ≡ 48 + m / 10 / 10 % 10
    → 48 + n / 10 % 10 ≡ 48 + m / 10 % 10
    → 48 + n % 10 ≡ 48 + m % 10
    → n ≡ m
four_equal n m e f g h = omega (arith, e, f, g, h)

-- The texts in front, each by its digits.
front-equal :
    {p q : List ℕ} (xs ys : List ℕ) {p' q' : List ℕ}
    → p ≡ p'
    → q ≡ q'
    → p ++ xs ≡ q ++ ys
    → p' ++ xs ≡ q' ++ ys
front-equal xs ys e f h = ap (λ l. l ++ xs) (sym e) ∙ h ∙ ap (λ l. l ++ ys) f

module _ (value : ℕ) (a b : Tm) (u : IsTm a) (w : IsTm b) (xs ys : List ℕ) where
  date-equal :
      date_part a ++ xs ≡ date_part b ++ ys
      → (a.tm_year ≡ b.tm_year) × (a.tm_mon ≡ b.tm_mon) × (a.tm_mday ≡ b.tm_mday) × (xs ≡ ys)
  date-equal e =
      let f = front-equal xs ys (date_digits a u) (date_digits b w) e in
      (
        omega (
          arith,
          four_equal (1900 + a.tm_year) (1900 + b.tm_year) (ap (nth 0) f) (ap (nth 1) f)
              (ap (nth 2) f) (ap (nth 3) f),
        ),
        omega (arith, two_equal (1 + a.tm_mon) (1 + b.tm_mon) (ap (nth 5) f) (ap (nth 6) f)),
        two_equal a.tm_mday b.tm_mday (ap (nth 8) f) (ap (nth 9) f),
        ap (drop 10) f,
      )

  hour-equal :
      value ≢ day
      → hour_part value a ++ xs ≡ hour_part value b ++ ys
      → (a.tm_hour ≡ b.tm_hour) × (xs ≡ ys)
  hour-equal n e =
      let f = front-equal xs ys (hour_digits value a n u) (hour_digits value b n w) e in
      (two_equal a.tm_hour b.tm_hour (ap (nth 1) f) (ap (nth 2) f), ap (drop 3) f)

  minute-equal :
      value ≡ tenmin
      → minute_part value a ++ xs ≡ minute_part value b ++ ys
      → a.tm_min / 10 ≡ b.tm_min / 10
  minute-equal n e =
      let f = front-equal xs ys (minute_digits value a n) (minute_digits value b n) e in
      let d : 48 + a.tm_min / 10 ≡ 48 + b.tm_min / 10 = ap (nth 1) f in omega (arith, d)

name-SamePeriod :
    (value : ℕ) (filename endstr : List ℕ) (a b : Tm)
    → IsTm a
    → IsTm b
    → get_file_name value filename endstr a ≡ get_file_name value filename endstr b
    → SamePeriod value a b
name-SamePeriod value filename endstr a b u w e =
    let f = sym (name-body value filename endstr a) ∙ e ∙ name-body value filename endstr b in
    let g : body value endstr a ≡ body value endstr b = ap (drop 1) (
      sym (drop-append filename (95 ∷ body value endstr a))
      ∙ ap (drop (length filename)) f
      ∙ drop-append filename (95 ∷ body value endstr b)) in
    let (y, m, d, r) = date-equal value a b u w (tail value endstr a) (tail value endstr b) g in
    record {
      year = y;
      mon = m;
      mday = d;
      hours = λ n. (hour-equal value a b u w _ _ n r).0;
      tens = λ k.
          minute-equal value a b u w _ _ k
            (hour-equal value a b u w _ _ (λ z. omega (arith, z, k)) r).1;
    }

SamePeriod-hour :
    (value : ℕ) (a b : Tm) → SamePeriod value a b → hour_part value a ≡ hour_part value b
unfolding hour_part
SamePeriod-hour value a b s = elim (Bool-cases (value == day)) [
  | inl y ↦ rw y refl
  | inr n ↦ let e = s.hours (λ z. absurd (ground (arith, n, z))) in rw (n, e) refl
]

SamePeriod-minute :
    (value : ℕ) (a b : Tm) → SamePeriod value a b → minute_part value a ≡ minute_part value b
unfolding minute_part get_10mintues_type
SamePeriod-minute value a b s = elim (Bool-cases (value == halfhour)) [
  | inl y ↦ let e = s.hours (λ z. absurd (ground (arith, y, z))) in rw (y, e) refl
  | inr n ↦ elim (Bool-cases (value == tenmin)) [
    | inl y ↦ let t = s.tens (ground (arith, y)) in rw (n, y, t) refl
    | inr k ↦ rw (n, k) refl
  ]
]

SamePeriod-name :
    (value : ℕ) (filename endstr : List ℕ) (a b : Tm)
    → SamePeriod value a b
    → get_file_name value filename endstr a ≡ get_file_name value filename endstr b
unfolding get_file_name
SamePeriod-name value filename endstr a b s =
    let d : date_part a ≡ date_part b = unfold date_part in rw (s.year, s.mon, s.mday) refl in
    rw (d, SamePeriod-hour value a b s, SamePeriod-minute value a b s) refl

hour_width : ℕ → ℕ
hour_width value = if value == day then 0 else 3

minute_width : ℕ → ℕ
minute_width value = if value == halfhour then 3 else if value == tenmin then 3 else 0

length-hour_part : (value : ℕ) (t : Tm) → IsTm t → length (hour_part value t) ≡ hour_width value
unfolding hour_width
length-hour_part value t v = elim (Bool-cases (value == day)) [
  | inl y ↦ rw y (unfold hour_part in rw y refl)
  | inr n ↦ rw (n, hour_digits value t (λ e. absurd (ground (arith, n, e))) v) refl
]

length-half_hour : (n : ℕ) → length (get_half_hour_name n) ≡ 2
unfolding get_half_hour_name
length-half_hour n = elim (Bool-cases (n == 0)) [ inl y ↦ rw y refl | inr f ↦ rw f refl ]

length-minute_part : (value : ℕ) (t : Tm) → length (minute_part value t) ≡ minute_width value
unfolding minute_width minute_part
length-minute_part value t = elim (Bool-cases (value == halfhour)) [
  | inl y ↦ rw y (omega (arith, length-half_hour (get_half_hour_type t.tm_hour)))
  | inr n ↦ elim (Bool-cases (value == tenmin)) [
    | inl y ↦ rw (n, y) (unfold get_10mintues_name in refl)
    | inr k ↦ rw (n, k) refl
  ]
]

length-date_part : (t : Tm) → IsTm t → length (date_part t) ≡ 10
length-date_part t v = rw (date_digits t v) refl

length-get_file_name :
    (value : ℕ) (filename endstr : List ℕ) (t : Tm)
    → IsTm t
    → length (get_file_name value filename endstr t)
      ≡ length filename + 15 + hour_width value + minute_width value + length (end_part endstr)
length-get_file_name value filename endstr t v =
    let h = hour_part value t in
    let m = minute_part value t in
    let e = end_part endstr in
    let log : List ℕ = 46 ∷ 108 ∷ 111 ∷ 103 ∷ [] in
    ap length (name-body value filename endstr t)
    ∙ omega (
      arith,
      length-append filename (95 ∷ body value endstr t),
      length-append (date_part t) (h ++ (m ++ (e ++ log))),
      length-append h (m ++ (e ++ log)),
      length-append m (e ++ log),
      length-append e log,
      length-date_part t v,
      length-hour_part value t v,
      length-minute_part value t,
    )

-- A name with an end is never one without.
pub get_file_name-end :
    (value : ℕ) (filename : List ℕ) (c : ℕ) (cs : List ℕ) (a b : Tm)
    → IsTm a
    → IsTm b
    → get_file_name value filename [] a ≢ get_file_name value filename (c ∷ cs) b
get_file_name-end value filename c cs a b v w e =
    let none_there : length (end_part []) ≡ 0 = unfold end_part in refl in
    let some_there : length (end_part (c ∷ cs)) ≡ suc (suc (length cs)) = unfold end_part in refl in
    absurd (
      omega (
        arith,
        ap length e,
        length-get_file_name value filename [] a v,
        length-get_file_name value filename (c ∷ cs) b w,
        none_there,
        some_there,
      ))

-- For the local times of the years from 1900 to 9999: NeedRollback says no exactly where the file of
-- the one time has the same name as the file of the other, whichever the strategy.
pub need_rollback-get_file_name :
    (value : ℕ) (filename endstr : List ℕ) (a b : Tm)
    → value < 4
    → IsTm a
    → IsTm b
    → (need_rollback value a b ≡ false)
      ↔ (get_file_name value filename endstr a ≡ get_file_name value filename endstr b)
need_rollback-get_file_name value filename endstr a b l u w = (
  λ h. SamePeriod-name value filename endstr a b (need-SamePeriod value a b h),
  λ e. SamePeriod-need value a b l (name-SamePeriod value filename endstr a b u w e),
)

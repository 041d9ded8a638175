-- ===== src/Scheduler/DelayQueue/Schedule.antt =====
-- The abstract view of a delay queue: the entries with the microseconds that each has left, soonest
-- first, and the operations on such a list.
use huicpp.Base.{
  ℕ, ◌+◌, ◌-◌, ◌≤◌, ◌≡◌, refl, ap, ap₂, arith, List, [], ◌∷◌, if◌then◌else◌, ◌==◌, leb, length,
  Bool-cases, inl, inr,
}
use huicpp.Scheduler.Timeval.{micros}
use huicpp.Scheduler.DelayQueue.{Entry}

-- An entry and the time that it has left.
abbrev pub Alarm : Type 0
Alarm = ℕ × ℕ

unfoldable pub later : ℕ → List Alarm → List Alarm
later d [] = []
later d ((n, t) ∷ xs) = (n, t + d) ∷ later d xs

unfoldable pub earlier : ℕ → List Alarm → List Alarm
earlier d [] = []
earlier d ((n, t) ∷ xs) = (n, t - d) ∷ earlier d xs

-- Behind the alarms that are not later.
unfoldable pub schedule_at : ℕ → ℕ → List Alarm → List Alarm
schedule_at n t [] = (n, t) ∷ []
schedule_at n t ((k, u) ∷ xs) =
    let rest = schedule_at n t xs in if leb u t then (k, u) ∷ rest else (n, t) ∷ (k, u) ∷ xs

unfoldable pub without : ℕ → List Alarm → List Alarm
without n [] = []
without n ((k, u) ∷ xs) = let rest = without n xs in if k == n then xs else (k, u) ∷ rest

-- The alarms at the front that have no time left, and the others.
unfoldable pub due : List Alarm → List ℕ
due [] = []
due ((k, u) ∷ xs) = let rest = due xs in if u == 0 then k ∷ rest else []

unfoldable pub pending : List Alarm → List Alarm
pending [] = []
pending ((k, u) ∷ xs) = let rest = pending xs in if u == 0 then rest else (k, u) ∷ xs

unfoldable pub schedule : List Entry → List Alarm
unfolding later
schedule [] = []
schedule (e ∷ es) = (e.token, micros e.delta) ∷ later (micros e.delta) (schedule es)

pub later-later : (c d : ℕ) (xs : List Alarm) → later c (later d xs) ≡ later (d + c) xs
unfolding later
later-later c d [] = refl
later-later c d ((n, t) ∷ xs) = ap₂ (λ u rest. (n, u) ∷ rest) (omega arith) (later-later c d xs)

pub later-zero : (xs : List Alarm) → later 0 xs ≡ xs
unfolding later
later-zero [] = refl
later-zero ((n, t) ∷ xs) = ap₂ (λ u rest. (n, u) ∷ rest) (omega arith) (later-zero xs)

pub earlier-zero : (xs : List Alarm) → earlier 0 xs ≡ xs
unfolding earlier
earlier-zero [] = refl
earlier-zero ((n, t) ∷ xs) = ap₂ (λ u rest. (n, u) ∷ rest) (omega arith) (earlier-zero xs)

pub earlier-later_le :
    (c d : ℕ) (xs : List Alarm) → d ≤ c → earlier c (later d xs) ≡ earlier (c - d) xs
unfolding later earlier
earlier-later_le c d [] h = refl
earlier-later_le c d ((n, t) ∷ xs) h =
    ap₂ (λ u rest. (n, u) ∷ rest) (omega arith) (earlier-later_le c d xs h)

pub earlier-later_ge :
    (c d : ℕ) (xs : List Alarm) → c ≤ d → earlier c (later d xs) ≡ later (d - c) xs
unfolding later earlier
earlier-later_ge c d [] h = refl
earlier-later_ge c d ((n, t) ∷ xs) h =
    ap₂ (λ u rest. (n, u) ∷ rest) (omega arith) (earlier-later_ge c d xs h)

pub schedule_at-later :
    (n t d : ℕ) (xs : List Alarm)
    → d ≤ t
    → schedule_at n t (later d xs) ≡ later d (schedule_at n (t - d) xs)
unfolding later schedule_at
schedule_at-later n t d [] h = ap (λ u. (n, u) ∷ []) (omega arith)
schedule_at-later n t d ((k, u) ∷ xs) h =
    let ih = schedule_at-later n t d xs h in
    let e : t - d + d ≡ t = omega arith in
    let b : leb (u + d) t ≡ leb u (t - d) = grind arith in
    elim (Bool-cases (leb u (t - d))) [ inl c ↦ rw (b, c, ih) refl | inr c ↦ rw (b, c, e) refl ]

pub without-later : (n d : ℕ) (xs : List Alarm) → without n (later d xs) ≡ later d (without n xs)
unfolding later without
without-later n d [] = refl
without-later n d ((k, u) ∷ xs) =
    let ih = without-later n d xs in
    elim (Bool-cases (k == n)) [ inl c ↦ rw c refl | inr c ↦ rw (c, ih) refl ]

length-later : (d : ℕ) (xs : List Alarm) → length (later d xs) ≡ length xs
unfolding later
length-later d [] = refl
length-later d (x ∷ xs) = omega (arith, length-later d xs)

pub length-earlier : (d : ℕ) (xs : List Alarm) → length (earlier d xs) ≡ length xs
unfolding earlier
length-earlier d [] = refl
length-earlier d (x ∷ xs) = omega (arith, length-earlier d xs)

pub length-schedule : (es : List Entry) → length (schedule es) ≡ length es
unfolding schedule
length-schedule [] = refl
length-schedule (e ∷ es) =
    omega (arith, length-later (micros e.delta) (schedule es), length-schedule es)

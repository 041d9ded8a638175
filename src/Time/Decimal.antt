-- ===== src/Time/Decimal.antt =====
-- Numbers as decimal text, as streams and printf write them: a character is its code.
use huicpp.Base.{
  ℕ, zero, suc, ◌+◌, ◌-◌, ◌*◌, ◌/◌, ◌%◌, ◌^◌, ◌<◌, ◌≤◌, ◌≡◌, refl, arith, List, [], ◌∷◌, ◌++◌,
  length, length-append, replicate, true, false, if◌then◌else◌, ltb, Bool-cases, inl, inr,
}
use native.Mathlib.Nat.{pow-suc}

-- With at most as many digits as `fuel` says, which are 10 for an int.
unfoldable pub decimal : ℕ → ℕ → List ℕ
decimal zero n = []
decimal (suc fuel) n =
    let front = decimal fuel (n / 10) in
    if ltb n 10 then (48 + n) ∷ [] else front ++ ((48 + n % 10) ∷ [])

-- At least `width` characters, with zeros in front.
unfoldable pub padded : ℕ → ℕ → List ℕ
unfolding decimal
padded width n = let text = decimal 10 n in replicate (width - length text) 48 ++ text

pub padded_two : (n : ℕ) → n < 100 → padded 2 n ≡ (48 + n / 10) ∷ (48 + n % 10) ∷ []
unfolding padded decimal
padded_two n h = elim (Bool-cases (ltb n 10)) [
  | inl a ↦
      let e : n / 10 ≡ 0 = ground (arith, a) in
      let f : n % 10 ≡ n = ground (arith, a) in rw (a, e, f) refl
  | inr a ↦ let b : ltb (n / 10) 10 ≡ true = ground (arith, h) in rw (a, b) refl
]

abbrev pub four_digits : ℕ → List ℕ
four_digits n =
    (48 + n / 10 / 10 / 10) ∷ (48 + n / 10 / 10 % 10) ∷ (48 + n / 10 % 10) ∷ (48 + n % 10) ∷ []

padded_long : (n : ℕ) → n < 10000 → 100 ≤ n → padded 4 n ≡ four_digits n
unfolding padded decimal
padded_long n h l =
    let a : ltb n 10 ≡ false = ground (arith, l) in
    let b : ltb (n / 10) 10 ≡ false = ground (arith, l) in
    elim (Bool-cases (ltb (n / 10 / 10) 10)) [
      | inl c ↦
          let e : n / 10 / 10 / 10 ≡ 0 = ground (arith, c) in
          let f : n / 10 / 10 % 10 ≡ n / 10 / 10 = ground (arith, c) in rw (a, b, c, e, f) refl
      | inr c ↦ let d : ltb (n / 10 / 10 / 10) 10 ≡ true = ground (arith, h) in rw (a, b, c, d) refl
    ]

padded_short : (n : ℕ) → n < 100 → padded 4 n ≡ four_digits n
unfolding padded decimal
padded_short n h = elim (Bool-cases (ltb n 10)) [
  | inl a ↦
      let e : n / 10 ≡ 0 = ground (arith, a) in
      let f : n % 10 ≡ n = ground (arith, a) in rw (a, e, f) refl
  | inr a ↦
      let b : ltb (n / 10) 10 ≡ true = ground (arith, h) in
      let e : n / 10 / 10 ≡ 0 = ground (arith, h) in
      let f : n / 10 % 10 ≡ n / 10 = ground (arith, h) in rw (a, b, e, f) refl
]

-- Four digits of a number that has no more.
pub padded_four : (n : ℕ) → n < 10000 → padded 4 n ≡ four_digits n
padded_four n h = elim (Bool-cases (ltb n 100)) [
  | inl a ↦ padded_short n (ground (arith, a))
  | inr a ↦ padded_long n h (ground (arith, a))
]

-- The digits of a number of four digits.
pub decimal_four : (n : ℕ) → 1000 ≤ n → n < 10000 → decimal 10 n ≡ four_digits n
unfolding decimal
decimal_four n l h =
    let a : ltb n 10 ≡ false = ground (arith, l) in
    let b : ltb (n / 10) 10 ≡ false = ground (arith, l) in
    let c : ltb (n / 10 / 10) 10 ≡ false = ground (arith, l) in
    let d : ltb (n / 10 / 10 / 10) 10 ≡ true = ground (arith, h) in rw (a, b, c, d) refl

pub length-decimal : (fuel k n : ℕ) → n < 10 ^ suc k → length (decimal fuel n) ≤ suc k
unfolding decimal
length-decimal zero k n h = omega arith
length-decimal (suc fuel) zero n h =
    let a : ltb n 10 ≡ true = ground (arith, h) in rw a (omega arith)
length-decimal (suc fuel) (suc k) n h =
    let p : n < 10 ^ suc k * 10 = rw (← pow-suc 10 (suc k)) h in
    let i = length-decimal fuel k (n / 10) (omega (arith, p)) in
    elim (Bool-cases (ltb n 10)) [
      | inl a ↦ rw a (omega arith)
      | inr a ↦ rw a (omega (arith, i, length-append (decimal fuel (n / 10)) ((48 + n % 10) ∷ [])))
    ]

-- ===== src/Time/Parse/Digits.antt =====
-- How FromStr reads the digits of a field.
use huicpp.Base.{
  ℕ, ◌+◌, ◌-◌, ◌*◌, ◌/◌, ◌%◌, ◌^◌, ◌<◌, ◌≡◌, refl, arith, List, [], ◌∷◌, ◌++◌, true, false, ltb,
  ◌==◌, none, some,
}
use huicpp.Base.Options.{◌>>=◌}
use huicpp.Time.Decimal.{four_digits}
use huicpp.Time.Parse.{
  ParsedTm, peek, advance, is_digit, take_digits, digits_value, atoi, width_of, set_field, store,
  read_value, directive,
}

abbrev pub two : ℕ → List ℕ
two n = (48 + n / 10) ∷ (48 + n % 10) ∷ []

is_digit-digit : (d : ℕ) → d < 10 → is_digit (48 + d) ≡ true
unfolding is_digit
is_digit-digit d h =
    let a : ltb (48 + d) 48 ≡ false = ground arith in
    let b : ltb 57 (48 + d) ≡ false = ground (arith, h) in rw (a, b) refl

pub take_digits-two :
    (n : ℕ) (s : ℕ) (rest : List ℕ)
    → n < 100
    → is_digit s ≡ false
    → take_digits none (two n ++ (s ∷ rest)) ≡ some (two n, s ∷ rest)
unfolding take_digits ◌>>=◌
take_digits-two n s rest h e =
    rw (is_digit-digit (n / 10) (omega (arith, h)), is_digit-digit (n % 10) (omega arith), e) refl

pub take_digits-four :
    (n : ℕ) (s : ℕ) (rest : List ℕ)
    → n < 10000
    → is_digit s ≡ false
    → take_digits none (four_digits n ++ (s ∷ rest)) ≡ some (four_digits n, s ∷ rest)
unfolding take_digits ◌>>=◌
take_digits-four n s rest h e =
    rw
      (
        is_digit-digit (n / 10 / 10 / 10) (omega (arith, h)),
        is_digit-digit (n / 10 / 10 % 10) (omega arith),
        is_digit-digit (n / 10 % 10) (omega arith),
        is_digit-digit (n % 10) (omega arith),
        e,
      )
      refl

pub atoi-two : (n : ℕ) → n < 100 → atoi (two n) ≡ some n
unfolding atoi digits_value
atoi-two n h =
    let e : (0 * 10 + (48 + n / 10 - 48)) * 10 + (48 + n % 10 - 48) ≡ n = omega arith in
    let b : ltb n (2 ^ 31) ≡ true = ground (arith, h) in rw (e, b) refl

pub atoi-four : (n : ℕ) → n < 10000 → atoi (four_digits n) ≡ some n
unfolding atoi digits_value
atoi-four n h =
    let e : (((0 * 10 + (48 + n / 10 / 10 / 10 - 48)) * 10 + (48 + n / 10 / 10 % 10 - 48)) * 10
              + (48 + n / 10 % 10 - 48))
            * 10
          + (48 + n % 10 - 48)
        ≡ n =
      omega arith in
    let b : ltb n (2 ^ 31) ≡ true = ground (arith, h) in rw (e, b) refl

take_digits-letter :
    (flag : ℕ) (format : List ℕ)
    → is_digit flag ≡ false
    → take_digits none (flag ∷ format) ≡ some ([], flag ∷ format)
unfolding take_digits
take_digits-letter flag format f = rw f refl

-- A directive of one letter.
pub record Reads (flag : ℕ) (text : List ℕ) (d : ℕ) (ds rest : List ℕ) (n : ℕ) (t t' : ParsedTm)
    : Type 0 where
  pub letter : is_digit flag ≡ false
  pub no_percent : (flag == 37) ≡ false
  pub digits : take_digits none text ≡ some (d ∷ ds, rest)
  pub number : atoi (d ∷ ds) ≡ some n
  pub field : set_field flag n t ≡ some t'

pub directive-Reads :
    {flag : ℕ} {text : List ℕ} {d : ℕ} {ds rest : List ℕ} {n : ℕ} {t t' : ParsedTm}
    (format : List ℕ)
    → Reads flag text d ds rest n t t'
    → directive (flag ∷ format) text t ≡ some (format, rest, true, t')
unfolding directive peek advance width_of read_value store ◌>>=◌
directive-Reads {flag} format r =
    rw (take_digits-letter flag format r.letter, r.no_percent, r.digits, r.number, r.field) refl

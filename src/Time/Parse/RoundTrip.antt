-- ===== src/Time/Parse/RoundTrip.antt =====
-- FromStr reads what GetNow writes.
use huicpp.Base.{
  ℕ, suc, ◌+◌, ◌-◌, ◌/◌, ◌<◌, ◌≡◌, refl, ◌∙◌, arith, List, [], ◌∷◌, ◌++◌, length, true, false, ◌||◌,
  ltb, ◌==◌, some,
}
use huicpp.Base.Ints.{pos}
use huicpp.Base.Options.{◌>>=◌}
use huicpp.Time.{Tm}
use huicpp.Time.Decimal.{padded_two, padded_four, four_digits}
use huicpp.Time.Parse.Digits.{
  two, take_digits-two, take_digits-four, atoi-two, atoi-four, Reads, directive-Reads,
}
use huicpp.Time.Parse.{
  ParsedTm, peek, advance, is_blank, is_digit, skip_blanks, literal, int_minus, set_field, Reading,
  directive, from_str_loop, no_time, from_str, default_format, get_now,
}

-- One round of the outer loop, from a character of the format that is no percent sign.
round_step :
    (fuel c : ℕ) (format format1 text text1 : List ℕ) (t : ParsedTm) (r : Reading)
    → (c == 0) ≡ false
    → literal (suc (length (c ∷ format))) (c ∷ format) text ≡ some (37 ∷ format1, text1)
    → directive format1 text1 t ≡ some r
    → from_str_loop (suc fuel) (c ∷ format, text, true, t) ≡ from_str_loop fuel r
unfolding from_str_loop peek advance ◌>>=◌
round_step fuel c format format1 text text1 t r h l e = rw (h, l, e) refl

-- A character of the format that stands for itself, and the percent sign behind it.
literal-one :
    (fuel s : ℕ) (format text : List ℕ)
    → (s == 37 || s == 0) ≡ false
    → is_blank s ≡ false
    → ltb 128 s ≡ false
    → literal (suc (suc fuel)) (s ∷ 37 ∷ format) (s ∷ text) ≡ some (37 ∷ format, text)
unfolding literal peek advance ◌>>=◌
literal-one fuel s format text a b c = rw (a, b, c) refl

-- A blank, with a digit behind it in the text.
literal-blank :
    (fuel d : ℕ) (format text : List ℕ)
    → is_blank d ≡ false
    → literal (suc (suc fuel)) (32 ∷ 37 ∷ format) (32 ∷ d ∷ text) ≡ some (37 ∷ format, d ∷ text)
unfolding literal peek advance skip_blanks is_blank ◌>>=◌
literal-blank fuel d format text b = rw b refl

literal-none :
    (fuel : ℕ) (format text : List ℕ)
    → literal (suc fuel) (37 ∷ format) text ≡ some (37 ∷ format, text)
unfolding literal ◌>>=◌
literal-none fuel format text = refl

-- A round for a field of two digits, behind the character `c`.
round-two :
    (fuel c flag n s : ℕ) (format rest : List ℕ) (t t' : ParsedTm)
    → (c == 0) ≡ false
    → is_digit flag ≡ false
    → (flag == 37) ≡ false
    → n < 100
    → is_digit s ≡ false
    → set_field flag n t ≡ some t'
    → literal
        (suc (length (c ∷ 37 ∷ flag ∷ format)))
        (c ∷ 37 ∷ flag ∷ format)
        (c ∷ (two n ++ (s ∷ rest)))
      ≡ some (37 ∷ flag ∷ format, two n ++ (s ∷ rest))
    → from_str_loop (suc fuel) (c ∷ 37 ∷ flag ∷ format, c ∷ (two n ++ (s ∷ rest)), true, t)
      ≡ from_str_loop fuel (format, s ∷ rest, true, t')
round-two fuel c flag n s format rest t t' hc hl hp hn hs hf lit =
    round_step fuel c (37 ∷ flag ∷ format) (flag ∷ format) (c ∷ (two n ++ (s ∷ rest)))
      (two n ++ (s ∷ rest)) t (format, s ∷ rest, true, t') hc lit
      (directive-Reads format (record {
        letter = hl;
        no_percent = hp;
        digits = take_digits-two n s rest hn hs;
        number = atoi-two n hn;
        field = hf;
      }))

minus_lem : (n k : ℕ) → int_minus (n + k) k ≡ pos n
unfolding int_minus
minus_lem n k =
    let b : ltb (n + k) k ≡ false = ground arith in
    let e : n + k - k ≡ n = omega arith in rw (b, e) refl

-- The round of the year, at the start.
round-year :
    (fuel n s : ℕ) (format rest : List ℕ) (t : ParsedTm)
    → n + 1900 < 10000
    → is_digit s ≡ false
    → from_str_loop (suc fuel) (37 ∷ 89 ∷ format, four_digits (n + 1900) ++ (s ∷ rest), true, t)
      ≡ from_str_loop fuel (format, s ∷ rest, true, record t { year = pos n })
round-year fuel n s format rest t hn hs =
    let r : Reads 89 (four_digits (n + 1900) ++ (s ∷ rest)) _ _ (s ∷ rest) (n + 1900) t
        (record t { year = pos n }) =
      record {
        letter = unfold is_digit in refl;
        no_percent = refl;
        digits = take_digits-four (n + 1900) s rest hn hs;
        number = atoi-four (n + 1900) hn;
        field = unfold set_field in rw (minus_lem n 1900) refl;
      } in
    round_step fuel 37 (89 ∷ format) (89 ∷ format) _ _ t
      (format, s ∷ rest, true, record t { year = pos n }) refl
      (literal-none (length (37 ∷ 89 ∷ format)) (89 ∷ format) _) (directive-Reads format r)

-- What FromStr gives to mktime.
abbrev pub parsed : Tm → ParsedTm
parsed t = record {
  year = pos t.tm_year;
  mon = pos t.tm_mon;
  mday = t.tm_mday;
  hours = t.tm_hour;
  minutes = t.tm_min;
  seconds = t.tm_sec;
}

-- The text of GetNow, with the end of the string.
abbrev now_text : Tm → List ℕ
now_text t =
    four_digits (t.tm_year + 1900)
    ++ (45
        ∷ (two (t.tm_mon + 1)
            ++ (45
                ∷ (two t.tm_mday
                    ++ (32
                        ∷ (two t.tm_hour
                            ++ (58 ∷ (two t.tm_min ++ (58 ∷ (two t.tm_sec ++ (0 ∷ [])))))))))))

-- The fields have two digits, and the year has four.
pub record IsPrintable (t : Tm) : Type 0 where
  pub year : t.tm_year + 1900 < 10000
  pub mon : t.tm_mon + 1 < 100
  pub mday : t.tm_mday < 100
  pub hours : t.tm_hour < 100
  pub minutes : t.tm_min < 100
  pub seconds : t.tm_sec < 100

no_digit :
    (is_digit 45 ≡ false) × (is_digit 32 ≡ false) × (is_digit 58 ≡ false) × (is_digit 0 ≡ false)
unfolding is_digit
no_digit = (refl, refl, refl, refl)

letters :
    (is_digit 109 ≡ false)
    × (is_digit 100 ≡ false)
    × (is_digit 72 ≡ false)
    × (is_digit 77 ≡ false)
    × (is_digit 83 ≡ false)
unfolding is_digit
letters = (refl, refl, refl, refl, refl)

blanks : (is_blank 45 ≡ false) × (is_blank 58 ≡ false)
unfolding is_blank
blanks = (refl, refl)

is_blank-digit : (d : ℕ) → is_blank (48 + d) ≡ false
unfolding is_blank
is_blank-digit d =
    let a : (48 + d == 32) ≡ false = ground arith in
    let b : (48 + d == 9) ≡ false = ground arith in rw (a, b) refl

set_mon : (n : ℕ) (t : ParsedTm) → set_field 109 (n + 1) t ≡ some (record t { mon = pos n })
unfolding set_field
set_mon n t = rw (minus_lem n 1) refl

loop-now_text :
    (t : Tm)
    → IsPrintable t
    → from_str_loop 18 (default_format ++ (0 ∷ []), now_text t, true, no_time)
      ≡ some (true, parsed t)
loop-now_text t v =
    let t1 : ParsedTm = record no_time { year = pos t.tm_year } in
    let t2 : ParsedTm = record t1 { mon = pos t.tm_mon } in
    let t3 : ParsedTm = record t2 { mday = t.tm_mday } in
    let t4 : ParsedTm = record t3 { hours = t.tm_hour } in
    let t5 : ParsedTm = record t4 { minutes = t.tm_min } in
    round-year 17 t.tm_year 45 _ _ no_time v.year no_digit.0
    ∙ round-two 16 45 109 (t.tm_mon + 1) 45 _ _ t1 t2 refl letters.0 refl v.mon no_digit.0
        (set_mon t.tm_mon t1) (literal-one _ 45 _ _ refl blanks.0 refl)
    ∙ round-two 15 45 100 t.tm_mday 32 _ _ t2 t3 refl letters.1 refl v.mday no_digit.1
        (unfold set_field in refl) (literal-one _ 45 _ _ refl blanks.0 refl)
    ∙ round-two 14 32 72 t.tm_hour 58 _ _ t3 t4 refl letters.2 refl v.hours no_digit.2
        (unfold set_field in refl) (literal-blank _ _ _ _ (is_blank-digit (t.tm_hour / 10)))
    ∙ round-two 13 58 77 t.tm_min 58 _ _ t4 t5 refl letters.3 refl v.minutes no_digit.2
        (unfold set_field in refl) (literal-one _ 58 _ _ refl blanks.1 refl)
    ∙ round-two 12 58 83 t.tm_sec 0 _ _ t5 (parsed t) refl letters.4 refl v.seconds no_digit.3
        (unfold set_field in refl) (literal-one _ 58 _ _ refl blanks.1 refl)
    ∙ unfold from_str_loop peek ◌>>=◌ in refl

from_str-loop :
    {T : Type 0} (make_me : ParsedTm → T) (c : ℕ) (str format : List ℕ) (m_time : T) (t : ParsedTm)
    → from_str_loop (suc (length format)) (format ++ (0 ∷ []), c ∷ (str ++ (0 ∷ [])), true, no_time)
      ≡ some (true, t)
    → from_str make_me (c ∷ str) (some format) m_time ≡ some (make_me t)
unfolding from_str ◌>>=◌
from_str-loop make_me c str format m_time t e = rw e refl

-- FromStr with its default format reads a text of GetNow without going outside of the strings, and sets
-- the time to what mktime gives for the same fields, whatever it was before.
pub from_str-get_now :
    {T : Type 0} (make_me : ParsedTm → T) (m_time : T) (t : Tm)
    → IsPrintable t
    → from_str make_me (get_now t) (some default_format) m_time ≡ some (make_me (parsed t))
unfolding get_now
from_str-get_now make_me m_time t v =
    rw
      (
        padded_four (t.tm_year + 1900) v.year,
        padded_two (t.tm_mon + 1) v.mon,
        padded_two t.tm_mday v.mday,
        padded_two t.tm_hour v.hours,
        padded_two t.tm_min v.minutes,
        padded_two t.tm_sec v.seconds,
      )
      (from_str-loop make_me _ _ default_format m_time (parsed t) (loop-now_text t v))

-- ===== src/Time/Span.antt =====
-- timespan of src/htime.h and src/inl/timespan_inl.h, for spans that are not negative.
use huicpp.Base.{
  ℕ, ◌+◌, ◌*◌, ◌/◌, ◌%◌, ◌^◌, ◌<◌, ◌≡◌, refl, arith, List, [], ◌∷◌, ◌++◌, append-nil, length, true,
  if◌then◌else◌, ltb, ◌==◌, Option, none, some,
}
use huicpp.Base.Options.{◌>>=◌}
use huicpp.Time.Decimal.{decimal, padded, padded_two, length-decimal}

-- The sum is one of ints.
unfoldable pub make_span : ℕ → ℕ → ℕ → ℕ → ℕ
make_span days hours mins secs = (secs + 60 * (mins + 60 * (hours + 24 * days))) % 2 ^ 32

unfoldable pub get_days : ℕ → ℕ
get_days span = span / (24 * 3600)

unfoldable pub get_total_hours : ℕ → ℕ
get_total_hours span = span / 3600

unfoldable pub get_hours : ℕ → ℕ
unfolding get_total_hours
get_hours span = get_total_hours span % 24

unfoldable pub get_total_minutes : ℕ → ℕ
get_total_minutes span = span / 60

unfoldable pub get_minutes : ℕ → ℕ
unfolding get_total_minutes
get_minutes span = get_total_minutes span % 60

unfoldable pub get_seconds : ℕ → ℕ
get_seconds span = span % 60

-- `tempBuff` has eight characters, one of them for the end; a longer text is written outside of it.
unfoldable pub print_field : List ℕ → Option (List ℕ)
print_field text = if ltb (length text) 8 then some text else none

-- The text of a directive; another letter has none.
unfoldable pub field_text : ℕ → ℕ → Option (List ℕ)
field_text span ch =
    if ch == 37
    then some (37 ∷ [])
    else if ch == 68
    then print_field (decimal 10 (get_days span))
    else if ch == 72
    then print_field (padded 2 (get_hours span))
    else if ch == 77
    then print_field (padded 2 (get_minutes span))
    else if ch == 83
    then print_field (padded 2 (get_seconds span))
    else some []

-- The loop of tostr, on a format that ends with 0. `none`: it reads behind the end of the format or
-- writes outside of `tempBuff`.
unfoldable pub tostr : ℕ → List ℕ → Option (List ℕ)
unfolding ◌>>=◌
tostr span [] = none
tostr span (ch ∷ []) = if ch == 0 then some [] else none
tostr span (ch ∷ ch2 ∷ format) =
    let behind_pair = tostr span format in
    let behind_one = tostr span (ch2 ∷ format) in
    if ch == 0
    then some []
    else if ch == 37
    then (do text ← field_text span ch2; rest ← behind_pair; some (text ++ rest))
    else if ltb 128 ch
    then (do rest ← behind_pair; some (ch ∷ ch2 ∷ rest))
    else (do rest ← behind_one; some (ch ∷ rest))

-- "%D/%H/%M/%S".
abbrev pub span_format : List ℕ
span_format = 37 ∷ 68 ∷ 47 ∷ 37 ∷ 72 ∷ 47 ∷ 37 ∷ 77 ∷ 47 ∷ 37 ∷ 83 ∷ 0 ∷ []

make_span_lem :
    (days hours mins secs : ℕ)
    → hours < 24
    → mins < 60
    → secs < 60
    → secs + 60 * (mins + 60 * (hours + 24 * days)) < 2 ^ 31
    → let span = make_span days hours mins secs in
      (get_days span ≡ days)
      × (get_hours span ≡ hours)
      × (get_minutes span ≡ mins)
      × (get_seconds span ≡ secs)
unfolding make_span get_days get_hours get_minutes get_seconds
make_span_lem days hours mins secs h m s b = (omega arith, omega arith, omega arith, omega arith)

print_short : (text : List ℕ) → length text < 8 → print_field text ≡ some text
unfolding print_field
print_short text h = let b : ltb (length text) 8 ≡ true = ground (arith, h) in rw b refl

print_two : (n : ℕ) → n < 100 → print_field (padded 2 n) ≡ some (padded 2 n)
print_two n h = print_short (padded 2 n) (rw (padded_two n h) (omega arith))

fields_lem :
    (span : ℕ)
    → get_days span < 10 ^ 7
    → (field_text span 68 ≡ some (decimal 10 (get_days span)))
      × (field_text span 72 ≡ some (padded 2 (get_hours span)))
      × (field_text span 77 ≡ some (padded 2 (get_minutes span)))
      × (field_text span 83 ≡ some (padded 2 (get_seconds span)))
unfolding field_text
fields_lem span h = (
  print_short (decimal 10 (get_days span))
      (let l = length-decimal 10 6 (get_days span) h in omega (arith, l)),
  print_two (get_hours span) (unfold get_hours get_total_hours in omega arith),
  print_two (get_minutes span) (unfold get_minutes get_total_minutes in omega arith),
  print_two (get_seconds span) (unfold get_seconds in omega arith),
)

-- A span that was made of days, hours, minutes and seconds gives these back, and tostr with its default
-- format prints them without going outside of the buffer, as long as their sum is an int.
pub tostr-make_span :
    (days hours mins secs : ℕ)
    → hours < 24
    → mins < 60
    → secs < 60
    → secs + 60 * (mins + 60 * (hours + 24 * days)) < 2 ^ 31
    → let span = make_span days hours mins secs in
      ((get_days span ≡ days)
        × (get_hours span ≡ hours)
        × (get_minutes span ≡ mins)
        × (get_seconds span ≡ secs))
      × (tostr span span_format
          ≡ some (
              decimal 10 days
              ++ (47 ∷ padded 2 hours ++ (47 ∷ padded 2 mins ++ (47 ∷ padded 2 secs)))))
unfolding tostr ◌>>=◌
tostr-make_span days hours mins secs h m s b =
    let span = make_span days hours mins secs in
    let (d, hh, mm, ss) = make_span_lem days hours mins secs h m s b in
    let (fd, fh, fm, fs) = fields_lem span (omega (arith, d, b)) in
    ((d, hh, mm, ss), rw (fd, fh, fm, fs, d, hh, mm, ss, append-nil) refl)

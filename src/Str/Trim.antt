-- ===== src/Str/Trim.antt =====
-- Ltrim, Rtrim and Trim of HStr, and the tests of the characters of a string.
use huicpp.Base.{
  ℕ, zero, suc, ◌+◌, ◌%◌, ◌^◌, ◌<◌, ◌≤◌, ◌≡◌, refl, ap, arith, [], ◌∷◌, ◌++◌, length, take, drop,
  Bool, true, false, not, ◌||◌, if◌then◌else◌, ◌==◌, Bool-cases, Option-cases, inl, inr, Option,
  none, some,
}
use huicpp.Str.{Str, npos_or, plus}

unfoldable pub contains : Str → ℕ → Bool
contains [] c = false
contains (d ∷ ds) c = (d == c) || contains ds c

unfoldable pub find_first_not_of : Str → Str → Option ℕ
unfolding contains plus
find_first_not_of [] cs = none
find_first_not_of (c ∷ s) cs =
    let rest = find_first_not_of s cs in if contains cs c then plus 1 rest else some 0

unfoldable pub find_last_not_of : Str → Str → Option ℕ
unfolding contains
find_last_not_of [] cs = none
find_last_not_of (c ∷ s) cs = elim (find_last_not_of s cs) [
  | none ↦ if contains cs c then none else some 0
  | some i ↦ some (suc i)
]

-- s_tr_str: space, newline, carriage return, tabulator.
abbrev pub tr_str : Str
tr_str = 32 ∷ 10 ∷ 13 ∷ 9 ∷ []

-- `csz` is [] for a null pointer.
unfoldable pub ltrim : Str → Str → Str
ltrim csz s = elim (find_first_not_of s (tr_str ++ csz)) [
  | none ↦ []
  | some pos ↦ if not (pos == 0) then drop pos s else s
]

-- npos + 1 is 0.
unfoldable pub rtrim : Str → Str → Str
unfolding npos_or
rtrim csz s = take ((npos_or (find_last_not_of s (tr_str ++ csz)) + 1) % 2 ^ 64) s

unfoldable pub trim : Str → Str → Str
trim csz s = rtrim csz (ltrim csz s)

unfoldable pub is_all_of : Str → Str → Bool
is_all_of str cs = elim (find_first_not_of str cs) [ none ↦ true | some pos ↦ false ]

-- "1234567890".
abbrev pub digits : Str
digits = 49 ∷ 50 ∷ 51 ∷ 52 ∷ 53 ∷ 54 ∷ 55 ∷ 56 ∷ 57 ∷ 48 ∷ []

unfoldable pub is_all_digit : Str → Bool
is_all_digit str = is_all_of str digits

unfoldable pub is_all_digit_and_dos : Str → Bool
is_all_digit_and_dos str = is_all_of str (digits ++ (46 ∷ []))

-- The `n` characters from `c` on.
unfoldable pub letters_from : ℕ → ℕ → Str
letters_from zero c = []
letters_from (suc n) c = c ∷ letters_from n (suc c)

unfoldable pub is_all_digit_and_char : Str → Bool
unfolding letters_from
is_all_digit_and_char str = is_all_of str (digits ++ letters_from 26 97 ++ letters_from 26 65)

-- The rule that trimming follows: the characters at the front, or at the end, that are in `cs` go.
unfoldable pub drop_front : Str → Str → Str
drop_front cs [] = []
drop_front cs (c ∷ s) = let rest = drop_front cs s in if contains cs c then rest else c ∷ s

unfoldable pub drop_end : Str → Str → Str
drop_end cs [] = []
drop_end cs (c ∷ s) = elim (drop_end cs s) [
  | [] ↦ if contains cs c then [] else c ∷ []
  | d ∷ ds ↦ c ∷ d ∷ ds
]

module _ (cs : Str) where
  first_missing : (s : Str) → find_first_not_of s cs ≡ none → drop_front cs s ≡ []
  unfolding find_first_not_of drop_front plus
  first_missing [] e = refl
  first_missing (c ∷ s) e = elim (Bool-cases (contains cs c)) [
    | inl b ↦ elim (Option-cases (find_first_not_of s cs)) [
      | inl n ↦ rw b (first_missing s n)
      | inr (p, f) ↦ absurd (ground (arith, rw (b, f) at e))
    ]
    | inr b ↦ absurd (ground (arith, rw b at e))
  ]

  first_found : (s : Str) (p : ℕ) → find_first_not_of s cs ≡ some p → drop_front cs s ≡ drop p s
  unfolding find_first_not_of drop_front plus
  first_found [] p e = absurd (ground (arith, e))
  first_found (c ∷ s) p e = elim (Bool-cases (contains cs c)) [
    | inl b ↦ elim (Option-cases (find_first_not_of s cs)) [
      | inl n ↦ absurd (ground (arith, rw (b, n) at e))
      | inr (q, f) ↦
          (let k : p ≡ suc q = ground (arith, rw (b, f) at e) in rw (b, k) (first_found s q f))
    ]
    | inr b ↦ (let k : p ≡ 0 = ground (arith, rw b at e) in rw (b, k) refl)
  ]

  last_missing : (s : Str) → find_last_not_of s cs ≡ none → drop_end cs s ≡ []
  unfolding find_last_not_of drop_end
  last_missing [] e = refl
  last_missing (c ∷ s) e = elim (Option-cases (find_last_not_of s cs)) [
    | inl n ↦ elim (Bool-cases (contains cs c)) [
      | inl b ↦ rw (last_missing s n, b) refl
      | inr b ↦ absurd (ground (arith, rw (n, b) at e))
    ]
    | inr (p, f) ↦ absurd (ground (arith, rw f at e))
  ]

  last_found :
      (s : Str) (p : ℕ)
      → find_last_not_of s cs ≡ some p
      → (p < length s)
        × ((d : ℕ) × (ds : Str) × (drop_end cs s ≡ d ∷ ds) × (take (suc p) s ≡ d ∷ ds))
  unfolding find_last_not_of drop_end
  last_found [] p e = absurd (ground (arith, e))
  last_found (c ∷ s) p e = elim (Option-cases (find_last_not_of s cs)) [
    | inl n ↦ elim (Bool-cases (contains cs c)) [
      | inl b ↦ absurd (ground (arith, rw (n, b) at e))
      | inr b ↦
          (let k : p ≡ 0 = ground (arith, rw (n, b) at e) in
            (omega (arith, k), (c, [], rw (last_missing s n, b) refl, rw k refl)))
    ]
    | inr (q, f) ↦
        (let k : p ≡ suc q = ground (arith, rw f at e) in
          let (l, (d, ds, a, t)) = last_found s q f in
          (omega (arith, k, l), (c, d ∷ ds, rw a refl, rw k (ap (λ r. c ∷ r) t))))
  ]

length-drop_front : (cs s : Str) → length (drop_front cs s) ≤ length s
unfolding drop_front
length-drop_front cs [] = omega arith
length-drop_front cs (c ∷ s) = elim (Bool-cases (contains cs c)) [
  | inl b ↦ rw b (omega (arith, length-drop_front cs s))
  | inr b ↦ rw b (omega arith)
]

module _ (csz : Str) where
  -- Ltrim takes the characters at the front that are in the set.
  pub ltrim_lem : (s : Str) → ltrim csz s ≡ drop_front (tr_str ++ csz) s
  unfolding ltrim
  ltrim_lem s = elim (Option-cases (find_first_not_of s (tr_str ++ csz))) [
    | inl e ↦ rw (ltrim, e, first_missing (tr_str ++ csz) s e) refl
    | inr (p, e) ↦ found p e
  ]
    where
      found :
          (p : ℕ)
          → find_first_not_of s (tr_str ++ csz) ≡ some p
          → ltrim csz s ≡ drop_front (tr_str ++ csz) s
      found zero e = rw (ltrim, e, first_found (tr_str ++ csz) s zero e) refl
      found (suc p) e =
          let b : (suc p == 0) ≡ false = ground arith in
          rw (ltrim, e, first_found (tr_str ++ csz) s (suc p) e, b) refl

  rtrim_lem : (s : Str) → length s < 2 ^ 63 → rtrim csz s ≡ drop_end (tr_str ++ csz) s
  unfolding rtrim npos_or
  rtrim_lem s h = elim (Option-cases (find_last_not_of s (tr_str ++ csz))) [
    | inl e ↦ rw (rtrim, e, last_missing (tr_str ++ csz) s e) refl
    | inr (p, e) ↦
        (let (l, (d, ds, a, t)) = last_found (tr_str ++ csz) s p e in
          let n : (p + 1) % 2 ^ 64 ≡ suc p = omega (arith, l, h) in rw (rtrim, e, n, a) t)
  ]

  -- Trim takes the characters of the set off both ends, and no other character.
  pub trim_lem :
      (s : Str)
      → length s < 2 ^ 63
      → trim csz s ≡ drop_end (tr_str ++ csz) (drop_front (tr_str ++ csz) s)
  unfolding trim
  trim_lem s h = rw (ltrim_lem s) (
      rtrim_lem (drop_front (tr_str ++ csz) s)
        (omega (arith, h, length-drop_front (tr_str ++ csz) s)))

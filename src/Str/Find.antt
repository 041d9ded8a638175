-- ===== src/Str/Find.antt =====
-- What `find` tells about a string.
use huicpp.Base.{
  ℕ, zero, suc, ◌+◌, ◌≤◌, ◌≡◌, refl, sym, ap, ap₂, arith, [], ◌∷◌, ◌++◌, length, take, drop, Bool,
  true, false, if◌then◌else◌, ltb, ◌==◌, Bool-cases, inl, inr, Option, none, some,
}
use huicpp.Str.{Str, is_prefix, plus, find, find_from}

-- `key` stands in `s` at `p`.
pub record Occurs (s key : Str) (p : ℕ) : Type 0 where
  pub fits : p + length key ≤ length s
  pub parts : s ≡ take p s ++ key ++ drop (length key) (drop p s)

pub is_prefix-append : (key s : Str) → is_prefix key (key ++ s) ≡ true
unfolding is_prefix
is_prefix-append [] s = refl
is_prefix-append (c ∷ key) s =
    let b : (c == c) ≡ true = ground arith in rw b (is_prefix-append key s)

is_prefix-Occurs :
    (key s : Str)
    → is_prefix key s ≡ true
    → (length key ≤ length s) × (s ≡ key ++ drop (length key) s)
unfolding is_prefix
is_prefix-Occurs [] s h = (omega arith, refl)
is_prefix-Occurs (c ∷ key) [] h = absurd (ground (arith, h))
is_prefix-Occurs (c ∷ key) (d ∷ s) h = elim (Bool-cases (c == d)) [
  | inl b ↦
      (let e : c ≡ d = ground (arith, b) in
        let (l, r) = is_prefix-Occurs key s (rw b at h) in
        (omega (arith, l), ap₂ (λ x y. x ∷ y) (sym e) r))
  | inr b ↦ absurd (ground (arith, rw b at h))
]

is_prefix-take : (key s : Str) (n : ℕ) → is_prefix key (take n s) ≡ true → is_prefix key s ≡ true
unfolding is_prefix
is_prefix-take [] s n h = refl
is_prefix-take (c ∷ key) s zero h = absurd (ground (arith, h))
is_prefix-take (c ∷ key) [] (suc n) h = absurd (ground (arith, h))
is_prefix-take (c ∷ key) (d ∷ s) (suc n) h = elim (Bool-cases (c == d)) [
  | inl b ↦ rw b (is_prefix-take key s n (rw b at h))
  | inr b ↦ absurd (ground (arith, rw b at h))
]

-- The first character, or further on.
pub front : (b : Bool) (o : Option ℕ) → (if b then some 0 else plus 1 o) ≡ some 0 → b ≡ true
unfolding plus
front true o e = refl
front false none e = absurd (ground (arith, e))
front false (some i) e = absurd (ground (arith, e))

pub further :
    (b : Bool) (o : Option ℕ) (i : ℕ)
    → (if b then some 0 else plus 1 o) ≡ some (suc i)
    → (b ≡ false) × (o ≡ some i)
unfolding plus
further true o i e = absurd (ground (arith, e))
further false none i e = absurd (ground (arith, e))
further false (some k) i e = (refl, ground (arith, e))

pub find-Occurs : (s key : Str) (p : ℕ) → find s key ≡ some p → Occurs s key p
unfolding find
find-Occurs [] [] zero e = record { fits = omega arith; parts = refl }
find-Occurs [] [] (suc p) e = absurd (ground (arith, e))
find-Occurs [] (c ∷ key) p e = absurd (unfold is_prefix in ground (arith, e))
find-Occurs (c ∷ s) key zero e =
    let (l, r) = is_prefix-Occurs key (c ∷ s) (front (is_prefix key (c ∷ s)) (find s key) e) in
    record { fits = omega (arith, l); parts = r }
find-Occurs (c ∷ s) key (suc p) e =
    let (b, f) = further (is_prefix key (c ∷ s)) (find s key) p e in
    let o = find-Occurs s key p f in
    record { fits = omega (arith, o.fits); parts = ap (λ x. c ∷ x) o.parts }

-- Before its first occurrence, a key that is not empty does not occur.
pub find-take :
    (s : Str) (c : ℕ) (key : Str) (p : ℕ)
    → find s (c ∷ key) ≡ some p
    → find (take p s) (c ∷ key) ≡ none
unfolding find
find-take s c key zero e = unfold is_prefix in refl
find-take [] c key (suc p) e = unfold is_prefix in refl
find-take (d ∷ s) c key (suc p) e =
    let (b, f) = further (is_prefix (c ∷ key) (d ∷ s)) (find s (c ∷ key)) p e in
    let n : is_prefix (c ∷ key) (take (suc p) (d ∷ s)) ≡ false =
      elim (Bool-cases (is_prefix (c ∷ key) (take (suc p) (d ∷ s)))) [
        | inl t ↦ absurd (ground (arith, b, is_prefix-take (c ∷ key) (d ∷ s) (suc p) t))
        | inr h ↦ h
      ] in
    rw (n, find-take s c key p f) refl

-- A key that occurs is found.
pub find-append : (a key b : Str) → (p : ℕ) × (find (a ++ key ++ b) key ≡ some p)
unfolding find
find-append [] [] [] = (0, unfold is_prefix in refl)
find-append [] [] (d ∷ b) = (0, unfold is_prefix in refl)
find-append [] (c ∷ key) b = (0, rw (is_prefix-append (c ∷ key) b) refl)
find-append (d ∷ a) key b =
    let (p, e) = find-append a key b in
    elim (Bool-cases (is_prefix key (d ∷ (a ++ key ++ b)))) [
      | inl t ↦ (0, rw t refl)
      | inr f ↦ (p + 1, rw (f, e) (unfold plus in refl))
    ]

pub find_from_missing :
    (s key : Str) (beg : ℕ)
    → beg ≤ length s
    → find (drop beg s) key ≡ none
    → find_from s key beg ≡ none
unfolding find_from
find_from_missing s key beg h e =
    let b : ltb (length s) beg ≡ false = ground arith in rw (b, e) (unfold plus in refl)

pub find_from_found :
    (s key : Str) (beg p : ℕ)
    → beg ≤ length s
    → find (drop beg s) key ≡ some p
    → find_from s key beg ≡ some (p + beg)
unfolding find_from
find_from_found s key beg p h e =
    let b : ltb (length s) beg ≡ false = ground arith in rw (b, e) (unfold plus in refl)

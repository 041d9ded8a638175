-- ===== src/Str/Compare.antt =====
-- IsEndWith and Counter.
use huicpp.Base.{
  ℕ, zero, suc, ◌+◌, ◌-◌, ◌^◌, ◌<◌, ◌≤◌, ◌≡◌, refl, ap, ◌∙◌, arith, [], ◌∷◌, length, drop, true,
  if◌then◌else◌, ltb, ◌==◌, Bool-cases, Option-cases, inl, inr, none, some, length-drop, drop-drop,
}
use huicpp.Str.{Str, is_prefix, find, find_from, plus, npos_or, is_end_with, count, counter}
use huicpp.Str.Find.{find-Occurs, front, further, find_from_missing, find_from_found}

-- The test gives false where the first occurrence of the key is the end of the string; it gives true
-- where one character follows it, and also where the key is not found and is as long as the string.
pub is_end_with_lem :
    (src key : Str)
    → length src < 2 ^ 63
    → length key < 2 ^ 63
    → ((p : ℕ) → find src key ≡ some p → is_end_with src key ≡ (p + length key + 1 == length src))
      × (find src key ≡ none → is_end_with src key ≡ (length key == length src))
unfolding is_end_with npos_or
is_end_with_lem src key hs hk =
    (λ p e. let f = (find-Occurs src key p e).fits in rw e (ground arith), λ e. rw e (ground arith))

-- At how many places the key stands.
unfoldable pub occurrences : Str → Str → ℕ
occurrences [] key = 0
occurrences (c ∷ s) key =
    let rest = occurrences s key in if is_prefix key (c ∷ s) then suc rest else rest

module _ (c : ℕ) (key : Str) where
  occurrences_missing : (s : Str) → find s (c ∷ key) ≡ none → occurrences s (c ∷ key) ≡ 0
  unfolding find occurrences plus
  occurrences_missing [] e = refl
  occurrences_missing (d ∷ s) e = elim (Bool-cases (is_prefix (c ∷ key) (d ∷ s))) [
    | inl b ↦ absurd (ground (arith, e, b))
    | inr b ↦ elim (Option-cases (find s (c ∷ key))) [
      | inl n ↦ rw b (occurrences_missing s n)
      | inr (p, f) ↦ absurd (ground (arith, rw (b, f) at e))
    ]
  ]

  occurrences_found :
      (s : Str) (p : ℕ)
      → find s (c ∷ key) ≡ some p
      → occurrences s (c ∷ key) ≡ suc (occurrences (drop (suc p) s) (c ∷ key))
  unfolding find occurrences
  occurrences_found [] p e = absurd (unfold is_prefix in ground (arith, e))
  occurrences_found (d ∷ s) zero e =
      rw (front (is_prefix (c ∷ key) (d ∷ s)) (find s (c ∷ key)) e) refl
  occurrences_found (d ∷ s) (suc p) e =
      let (b, f) = further (is_prefix (c ∷ key) (d ∷ s)) (find s (c ∷ key)) p e in
      rw b (occurrences_found s p f)

  count_missing :
      (fuel : ℕ) (src : Str) (res pos : ℕ)
      → find_from src (c ∷ key) pos ≡ none
      → count (suc fuel) src (c ∷ key) res pos ≡ some res
  unfolding count
  count_missing fuel src res pos e = rw (count, e) refl

  count_found :
      (fuel : ℕ) (src : Str) (res pos p : ℕ)
      → find_from src (c ∷ key) pos ≡ some p
      → ltb p (length src) ≡ true
      → count (suc fuel) src (c ∷ key) res pos ≡ count fuel src (c ∷ key) (suc res) (suc p)
  unfolding count
  count_found fuel src res pos p e b = rw (count, e, b) refl

  counts :
      (fuel : ℕ) (src : Str) (res pos : ℕ)
      → pos ≤ length src
      → length src - pos < fuel
      → count fuel src (c ∷ key) res pos ≡ some (res + occurrences (drop pos src) (c ∷ key))
  counts zero src res pos h hf = absurd (omega arith)
  counts (suc fuel) src res pos h hf = elim (Option-cases (find (drop pos src) (c ∷ key))) [
    | inl e ↦
        (let z : res ≡ res + occurrences (drop pos src) (c ∷ key) =
            omega (arith, occurrences_missing (drop pos src) e) in
          count_missing fuel src res pos (find_from_missing src (c ∷ key) pos h e) ∙ ap some z)
    | inr (p, e) ↦
        (let f = (find-Occurs (drop pos src) (c ∷ key) p e).fits in
          let l = length-drop pos src in
          let b : ltb (p + pos) (length src) ≡ true = ground (arith, f, l) in
          let k : pos + suc p ≡ suc (p + pos) = omega arith in
          let d : drop (suc p) (drop pos src) ≡ drop (suc (p + pos)) src =
            drop-drop pos (suc p) src ∙ ap (λ n. drop n src) k in
          let n =
            occurrences_found (drop pos src) p e ∙ ap (λ t. suc (occurrences t (c ∷ key))) d in
          let z : suc res + occurrences (drop (suc (p + pos)) src) (c ∷ key)
              ≡ res + occurrences (drop pos src) (c ∷ key) =
            omega (arith, n) in
          count_found fuel src res pos (p + pos) (find_from_found src (c ∷ key) pos p h e) b
          ∙ (counts fuel src (suc res) (suc (p + pos)) (omega (arith, f, l)) (omega (arith, f, l))
              ∙ ap some z))
  ]

  -- Counter gives the number of the places where the key stands, which may overlap.
  pub counter_lem : (src : Str) → counter src (c ∷ key) ≡ some (occurrences src (c ∷ key))
  unfolding counter
  counter_lem src =
      counts (suc (length src)) src 0 0 (omega arith) (omega arith) ∙ ap some (omega arith)

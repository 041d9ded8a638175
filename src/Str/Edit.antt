-- ===== src/Str/Edit.antt =====
-- Replaces and Removes, which go on as long as the key is found.
use huicpp.Base.{
  ℕ, zero, suc, ◌+◌, ◌<◌, ◌≤◌, ◌≡◌, refl, sym, ap, ◌∙◌, arith, [], ◌∷◌, ◌++◌, length, take, drop,
  false, Option-cases, inl, inr, none, some, append_assoc, length-append, length-take, length-drop,
}
use huicpp.Str.{Str, find, is_empty, Ret, replace, remove, is_ok, replaces, removes}
use huicpp.Str.Find.{find-Occurs, find-append}

regroup : (a t k r b : Str) → (a ++ t) ++ k ++ (r ++ b) ≡ a ++ (t ++ k ++ r) ++ b
regroup a t k r b = simp (append_assoc)

module _ (c : ℕ) (key : Str) where
  nil_without : find [] (c ∷ key) ≡ none
  nil_without = elim (Option-cases (find [] (c ∷ key))) [
    | inl e ↦ e
    | inr (p, e) ↦ absurd (omega (arith, (find-Occurs [] (c ∷ key) p e).fits))
  ]

  -- What a round of the loop does, by whether the key is found.
  remove_missing :
      (src : Str)
      → find src (c ∷ key) ≡ none
      → (is_ok (remove src (c ∷ key)).0 ≡ false) × ((remove src (c ∷ key)).1 ≡ src)
  unfolding remove is_empty is_ok
  remove_missing [] e = (refl, refl)
  remove_missing (d ∷ s) e = rw e (refl, refl)

  remove_found :
      (src : Str) (p : ℕ)
      → find src (c ∷ key) ≡ some p
      → remove src (c ∷ key) ≡ (Ret.ok, take p src ++ drop (p + length (c ∷ key)) src)
  unfolding remove is_empty
  remove_found [] p e = absurd (ground (arith, e, nil_without))
  remove_found (d ∷ s) p e = rw e refl

  shorter :
      (src : Str) (p : ℕ)
      → find src (c ∷ key) ≡ some p
      → length (take p src ++ drop (p + length (c ∷ key)) src) < length src
  shorter src p e = omega (
    arith,
    (find-Occurs src (c ∷ key) p e).fits,
    length-append (take p src) (drop (p + length (c ∷ key)) src),
    length-take p src,
    length-drop (p + length (c ∷ key)) src,
  )

  -- Removes ends, with more rounds allowed than there are characters, and then the key is not in the
  -- string, which has not grown.
  pub removes_lem :
      (fuel : ℕ) (src : Str)
      → length src < fuel
      → (res : Str) × (removes fuel src (c ∷ key) ≡ some res)
        × (find res (c ∷ key) ≡ none)
        × (length res ≤ length src)
  unfolding removes
  removes_lem zero src h = absurd (omega arith)
  removes_lem (suc fuel) src h = elim (Option-cases (find src (c ∷ key))) [
    | inl e ↦ (let (b, m) = remove_missing src e in (src, rw (b, m) refl, e, omega arith))
    | inr (p, e) ↦
        (let l = shorter src p e in
          let (res, r, n, k) =
            removes_lem fuel (take p src ++ drop (p + length (c ∷ key)) src) (omega (arith, l)) in
          (res, rw (remove_found src p e) (unfold is_ok in r), n, omega (arith, k, l)))
  ]

  replace_found :
      (src : Str) (p d : ℕ) (dst : Str)
      → find src (c ∷ key) ≡ some p
      → replace src (c ∷ key) (d ∷ dst)
        ≡ (Ret.ok, take p src ++ (d ∷ dst) ++ drop (p + length (c ∷ key)) src)
  unfolding replace is_empty
  replace_found [] p d dst e = absurd (ground (arith, e, nil_without))
  replace_found (x ∷ s) p d dst e = rw e refl

  -- A key that stands in the middle of three parts is found.
  found_inside :
      (a dst b : Str) (q : ℕ)
      → find dst (c ∷ key) ≡ some q
      → (p : ℕ) × (find (a ++ dst ++ b) (c ∷ key) ≡ some p)
  found_inside a dst b q e =
      let k : Str = c ∷ key in
      let o = find-Occurs dst k q e in
      let r = drop (length k) (drop q dst) in
      let whole : (a ++ take q dst) ++ k ++ (r ++ b) ≡ a ++ dst ++ b =
        regroup a (take q dst) k r b ∙ ap (λ x. a ++ x ++ b) (sym o.parts) in
      let (p, f) = find-append (a ++ take q dst) k (r ++ b) in (p, rw whole at f)

  -- If the replacement contains the key, then Replaces of a string with the key in it does not end.
  pub replaces_diverges :
      (fuel : ℕ) (src dst : Str) (p q : ℕ)
      → find src (c ∷ key) ≡ some p
      → find dst (c ∷ key) ≡ some q
      → replaces fuel src (c ∷ key) dst ≡ none
  unfolding replaces
  replaces_diverges zero src dst p q e f = refl
  replaces_diverges (suc fuel) src [] p q e f = absurd (ground (arith, f, nil_without))
  replaces_diverges (suc fuel) src (d ∷ dst) p q e f =
      let (p', e') = found_inside (take p src) (d ∷ dst) (drop (p + length (c ∷ key)) src) q f in
      rw (replace_found src p d dst e) (
        unfold is_ok in
        replaces_diverges fuel (take p src ++ (d ∷ dst) ++ drop (p + length (c ∷ key)) src)
          (d ∷ dst) p' q e' f)

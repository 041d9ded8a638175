-- ===== src/Str/Equal.antt =====
-- Equality of strings, and their order in a std::map.
use huicpp.Base.{
  ◌≡◌, refl, sym, ap, ◌∙◌, arith, Bool-cases, inl, inr, [], ◌∷◌, Bool, true, false, ◌&&◌,
  if◌then◌else◌, ltb, ◌==◌,
}
use huicpp.Str.{Str}

unfoldable pub same_str : Str → Str → Bool
same_str [] [] = true
same_str [] (d ∷ t) = false
same_str (c ∷ s) [] = false
same_str (c ∷ s) (d ∷ t) = (c == d) && same_str s t

-- std::less.
unfoldable pub less_str : Str → Str → Bool
less_str s [] = false
less_str [] (d ∷ t) = true
less_str (c ∷ s) (d ∷ t) = if c == d then less_str s t else ltb c d

pub same_str_eq : (s t : Str) → same_str s t ≡ true → s ≡ t
unfolding same_str
same_str_eq [] [] e = refl
same_str_eq [] (d ∷ t) e = absurd (ground (arith, e))
same_str_eq (c ∷ s) [] e = absurd (ground (arith, e))
same_str_eq (c ∷ s) (d ∷ t) e = ground (arith, e, same_str_eq s t)

pub same_str_refl : (s : Str) → same_str s s ≡ true
unfolding same_str
same_str_refl [] = refl
same_str_refl (c ∷ s) = ground (arith, same_str_refl s)

pub not_same :
    (k n name : Str) → same_str k n ≡ false → same_str k name ≡ true → same_str n name ≡ false
not_same k n name f y = elim (Bool-cases (same_str n name)) [
  | inl z ↦
      (let e : k ≡ n = same_str_eq k name y ∙ sym (same_str_eq n name z) in
        absurd (ground (arith, f, same_str_refl n, ap (λ x. same_str x n) e)))
  | inr g ↦ g
]

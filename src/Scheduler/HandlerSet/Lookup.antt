-- ===== src/Scheduler/HandlerSet/Lookup.antt =====
-- A handler set as a map from handles to descriptors.
use huicpp.Base.{
  ℕ, zero, suc, ◌≡◌, refl, sym, ap, ◌∙◌, arith, List, [], ◌∷◌, Bool, true, false, if◌then◌else◌,
  Bool-cases, inl, inr, Option, none, some,
}
use huicpp.Base.Ints.{ℤ, eqz, eqz_refl, eqz→≡}
use huicpp.Scheduler.HandlerSet.{HandlerDescriptor, lookup_handler, after_first, modify, unlink}

eqz-cong : (a b k : ℤ) → eqz a b ≡ true → eqz a k ≡ eqz b k
eqz-cong a b k e = ap (λ x. eqz x k) (eqz→≡ a b e)

eqz_sym : (a b : ℤ) → eqz a b ≡ false → eqz b a ≡ false
eqz_sym a b n = elim (Bool-cases (eqz b a)) [
  | inl t ↦ absurd (ground (arith, n, eqz_refl a, ap (λ x. eqz a x) (eqz→≡ b a t)))
  | inr f ↦ f
]

eqz_other : (a b c : ℤ) → eqz a b ≡ false → eqz a c ≡ true → eqz b c ≡ false
eqz_other a b c n e = elim (Bool-cases (eqz b c)) [
  | inl t ↦ absurd (ground (arith, n, e, ap (λ x. eqz a x) (eqz→≡ b c t)))
  | inr f ↦ f
]

shift_none : (o : Option ℕ) → after_first o ≡ none → o ≡ none
unfolding after_first
shift_none none e = refl
shift_none (some i) e = absurd (ground (arith, e))

-- Where a descriptor is looked for: at the front, or further on.
shift_some :
    (b : Bool) (o : Option ℕ) {i : ℕ}
    → (if b then some 0 else after_first o) ≡ some (suc i)
    → (b ≡ false) × (o ≡ some i)
unfolding after_first
shift_some true o e = absurd (ground (arith, e))
shift_some false none e = absurd (ground (arith, e))
shift_some false (some i) e = (refl, ground (arith, e))

shift_zero : (b : Bool) (o : Option ℕ) → (if b then some 0 else after_first o) ≡ some 0 → b ≡ true
unfolding after_first
shift_zero true o e = refl
shift_zero false none e = absurd (ground (arith, e))
shift_zero false (some i) e = absurd (ground (arith, e))

module _ {P : Type 0} where
  -- The first descriptor of a handle.
  unfoldable pub descriptor_of : ℤ → List (HandlerDescriptor P) → Option (HandlerDescriptor P)
  descriptor_of k [] = none
  descriptor_of k (d ∷ ds) =
      let rest = descriptor_of k ds in if eqz d.handler k then some d else rest

  unfoldable pub apply :
      (HandlerDescriptor P → HandlerDescriptor P)
      → Option (HandlerDescriptor P)
      → Option (HandlerDescriptor P)
  apply f none = none
  apply f (some d) = some (f d)

  -- No two descriptors have the same handle.
  unfoldable pub IsHandlerSet : List (HandlerDescriptor P) → Type 0
  IsHandlerSet [] = Unit
  IsHandlerSet (d ∷ ds) = (descriptor_of d.handler ds ≡ none) × IsHandlerSet ds

  pub lookup_missing :
      (h : ℤ) (ds : List (HandlerDescriptor P))
      → lookup_handler h ds ≡ none
      → descriptor_of h ds ≡ none
  unfolding lookup_handler descriptor_of
  lookup_missing h [] e = refl
  lookup_missing h (d ∷ ds) e = elim (Bool-cases (eqz d.handler h)) [
    | inl b ↦ absurd (ground (arith, e, b))
    | inr b ↦ rw b (lookup_missing h ds (shift_none (lookup_handler h ds) (rw b at e)))
  ]

  module _ (f : HandlerDescriptor P → HandlerDescriptor P)
      (keeps : (d : HandlerDescriptor P) → (f d).handler ≡ d.handler) where
    -- A change of the descriptor that was looked up, the handle apart.
    pub descriptor_of-modify :
        (h k : ℤ) (ds : List (HandlerDescriptor P)) (i : ℕ)
        → lookup_handler h ds ≡ some i
        → descriptor_of k (modify i f ds)
          ≡ (if eqz h k then apply f (descriptor_of k ds) else descriptor_of k ds)
    unfolding lookup_handler descriptor_of modify apply
    descriptor_of-modify h k [] i e = absurd (ground (arith, e))
    descriptor_of-modify h k (d ∷ ds) zero e =
        let b = shift_zero (eqz d.handler h) (lookup_handler h ds) e in
        let same : eqz d.handler k ≡ eqz h k = eqz-cong d.handler h k b in
        let same' : eqz (f d).handler k ≡ eqz h k = ap (λ x. eqz x k) (keeps d) ∙ same in
        elim (Bool-cases (eqz h k)) [
          | inl c ↦ rw (same', same, c) refl
          | inr c ↦ rw (same', same, c) refl
        ]
    descriptor_of-modify h k (d ∷ ds) (suc i) e =
        let (b, l) = shift_some (eqz d.handler h) (lookup_handler h ds) e in
        let ih = descriptor_of-modify h k ds i l in
        elim (Bool-cases (eqz d.handler k)) [
          | inl c ↦ rw (c, eqz_other d.handler h k b c) refl
          | inr c ↦ rw (c, ih) refl
        ]

  pub lookup_found :
      (h : ℤ) (ds : List (HandlerDescriptor P)) (i : ℕ)
      → lookup_handler h ds ≡ some i
      → (d : HandlerDescriptor P) × (descriptor_of h ds ≡ some d) × (d.handler ≡ h)
  unfolding lookup_handler descriptor_of
  lookup_found h [] i e = absurd (ground (arith, e))
  lookup_found h (d ∷ ds) zero e =
      let b = shift_zero (eqz d.handler h) (lookup_handler h ds) e in
      (d, rw b refl, eqz→≡ d.handler h b)
  lookup_found h (d ∷ ds) (suc i) e =
      let (b, l) = shift_some (eqz d.handler h) (lookup_handler h ds) e in
      let (d', r, t) = lookup_found h ds i l in (d', rw b r, t)

  pub descriptor_of-unlink :
      (h k : ℤ) (ds : List (HandlerDescriptor P)) (i : ℕ)
      → lookup_handler h ds ≡ some i
      → eqz h k ≡ false
      → descriptor_of k (unlink i ds) ≡ descriptor_of k ds
  unfolding lookup_handler descriptor_of unlink
  descriptor_of-unlink h k [] i e n = absurd (ground (arith, e))
  descriptor_of-unlink h k (d ∷ ds) zero e n =
      let b = shift_zero (eqz d.handler h) (lookup_handler h ds) e in
      rw (eqz-cong d.handler h k b, n) refl
  descriptor_of-unlink h k (d ∷ ds) (suc i) e n =
      let (b, l) = shift_some (eqz d.handler h) (lookup_handler h ds) e in
      rw (descriptor_of-unlink h k ds i l n) refl

  pub descriptor_of-unlink_self :
      (h : ℤ) (ds : List (HandlerDescriptor P)) (i : ℕ)
      → IsHandlerSet ds
      → lookup_handler h ds ≡ some i
      → descriptor_of h (unlink i ds) ≡ none
  unfolding lookup_handler descriptor_of unlink IsHandlerSet
  descriptor_of-unlink_self h [] i v e = absurd (ground (arith, e))
  descriptor_of-unlink_self h (d ∷ ds) zero (n, v) e =
      let b = shift_zero (eqz d.handler h) (lookup_handler h ds) e in
      ap (λ x. descriptor_of x ds) (sym (eqz→≡ d.handler h b)) ∙ n
  descriptor_of-unlink_self h (d ∷ ds) (suc i) (n, v) e =
      let (b, l) = shift_some (eqz d.handler h) (lookup_handler h ds) e in
      rw b (descriptor_of-unlink_self h ds i v l)

  pub unlink-IsHandlerSet :
      (h : ℤ) (ds : List (HandlerDescriptor P)) (i : ℕ)
      → IsHandlerSet ds
      → lookup_handler h ds ≡ some i
      → IsHandlerSet (unlink i ds)
  unfolding lookup_handler unlink IsHandlerSet
  unlink-IsHandlerSet h [] i v e = absurd (ground (arith, e))
  unlink-IsHandlerSet h (d ∷ ds) zero (n, v) e = v
  unlink-IsHandlerSet h (d ∷ ds) (suc i) (n, v) e =
      let (b, l) = shift_some (eqz d.handler h) (lookup_handler h ds) e in
      (
        descriptor_of-unlink h d.handler ds i l (eqz_sym d.handler h b) ∙ n,
        unlink-IsHandlerSet h ds i v l,
      )

  module _ (f : HandlerDescriptor P → HandlerDescriptor P)
      (keeps : (d : HandlerDescriptor P) → (f d).handler ≡ d.handler) where
    pub modify-IsHandlerSet :
        (h : ℤ) (ds : List (HandlerDescriptor P)) (i : ℕ)
        → IsHandlerSet ds
        → lookup_handler h ds ≡ some i
        → IsHandlerSet (modify i f ds)
    unfolding lookup_handler modify IsHandlerSet apply
    modify-IsHandlerSet h [] i v e = absurd (ground (arith, e))
    modify-IsHandlerSet h (d ∷ ds) zero (n, v) e = (ap (λ x. descriptor_of x ds) (keeps d) ∙ n, v)
    modify-IsHandlerSet h (d ∷ ds) (suc i) (n, v) e =
        let (b, l) = shift_some (eqz d.handler h) (lookup_handler h ds) e in
        (
          descriptor_of-modify f keeps h d.handler ds i l ∙ rw (eqz_sym d.handler h b) n,
          modify-IsHandlerSet h ds i v l,
        )

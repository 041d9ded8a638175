-- ===== src/Scheduler/HandlerSet/Refine.antt =====
-- The operations of a handler set, against the map from handles to descriptors.
use huicpp.Base.{
  ℕ, ◌≡◌, refl, ◌∙◌, List, true, false, Bool-cases, Option-cases, inl, inr, Option, none, some,
}
use huicpp.Base.Ints.{ℤ, eqz, is_positive, eqz_refl}
use huicpp.Scheduler.HandlerSet.{HandlerDescriptor, lookup_handler, assign_handler, remove_handler}
use huicpp.Scheduler.HandlerSet.Lookup.{
  descriptor_of, apply, IsHandlerSet, lookup_missing, lookup_found, descriptor_of-modify,
  descriptor_of-unlink, descriptor_of-unlink_self, unlink-IsHandlerSet, modify-IsHandlerSet,
}

module _ {P : Type 0} (ds : List (HandlerDescriptor P)) (v : IsHandlerSet ds) where
  -- `assign_handler` of a positive handle gives it the flags and the function, in place or as a new
  -- descriptor, and changes no other handle; of another handle it does nothing. No handle gets a
  -- second descriptor.
  pub assign_handler_refines :
      (h : ℤ) (flags : ℕ) (proc : Option P)
      → (is_positive h ≡ true
          → (descriptor_of h (assign_handler h flags proc ds)
              ≡ some (record { handler = h; flags = flags; proc = proc }))
            × ((k : ℤ)
                → eqz h k ≡ false
                → descriptor_of k (assign_handler h flags proc ds) ≡ descriptor_of k ds))
        × (is_positive h ≡ false → assign_handler h flags proc ds ≡ ds)
        × IsHandlerSet (assign_handler h flags proc ds)
  unfolding assign_handler descriptor_of
  assign_handler_refines h flags proc = (
    λ p. effect p,
    λ p. rw p refl,
    elim (Bool-cases (is_positive h)) [ inl p ↦ kept p | inr p ↦ rw p v ],
  )
    where
      f : HandlerDescriptor P → HandlerDescriptor P
      f d = record d { flags = flags; proc = proc }

      effect :
          is_positive h ≡ true
          → (descriptor_of h (assign_handler h flags proc ds)
              ≡ some (record { handler = h; flags = flags; proc = proc }))
            × ((k : ℤ)
                → eqz h k ≡ false
                → descriptor_of k (assign_handler h flags proc ds) ≡ descriptor_of k ds)
      effect p = elim (Option-cases (lookup_handler h ds)) [
        | inl e ↦ (rw (p, e, eqz_refl h) refl, λ k n. rw (p, e, n) refl)
        | inr (i, e) ↦
            (let m = descriptor_of-modify f (λ d. refl) h in
              let (d, r, t) = lookup_found h ds i e in
              (
                rw (p, e) (m h ds i e ∙ rw (eqz_refl h, r) (unfold apply in rw t refl)),
                λ k n. rw (p, e) (m k ds i e ∙ rw n refl),
              ))
      ]

      kept : is_positive h ≡ true → IsHandlerSet (assign_handler h flags proc ds)
      kept p = elim (Option-cases (lookup_handler h ds)) [
        | inl e ↦ rw (p, e) (unfold IsHandlerSet in (lookup_missing h ds e, v))
        | inr (i, e) ↦ rw (p, e) (modify-IsHandlerSet f (λ d. refl) h ds i v e)
      ]

  -- `remove_handler` takes the handle's descriptor out and changes no other handle.
  pub remove_handler_refines :
      (h : ℤ)
      → (descriptor_of h (remove_handler h ds) ≡ none)
        × ((k : ℤ) → eqz h k ≡ false → descriptor_of k (remove_handler h ds) ≡ descriptor_of k ds)
        × IsHandlerSet (remove_handler h ds)
  unfolding remove_handler
  remove_handler_refines h = elim (Option-cases (lookup_handler h ds)) [
    | inl e ↦ (
      rw (remove_handler, e) (lookup_missing h ds e),
      λ k n. rw (remove_handler, e) refl,
      rw (remove_handler, e) v,
    )
    | inr (i, e) ↦ (
      rw (remove_handler, e) (descriptor_of-unlink_self h ds i v e),
      λ k n. rw (remove_handler, e) (descriptor_of-unlink h k ds i e n),
      rw (remove_handler, e) (unlink-IsHandlerSet h ds i v e),
    )
  ]

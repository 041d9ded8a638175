-- ===== src/Scheduler/TriggerSet.antt =====
-- TriggerSet of src/detail/scheduler/delaytrigger_in.h and .cpp: a table of 128 functions, each of which may
-- be empty.
use huicpp.Base.{
  ℕ, zero, suc, ◌<◌, ◌≡◌, ◌≢◌, refl, ap, ◌∙◌, arith, List, [], ◌∷◌, ◌⊎◌, inl, inr, true, not,
  if◌then◌else◌, ltb, Option, none, some, Option-cases, replicate, set, length, get_elem?,
  get_elem?-set_self,
}
use huicpp.Base.Ints.{ℤ, pos, negsuc}

abbrev pub max_trigger_count : ℕ
max_trigger_count = 128

unfoldable pub next_slot : Option ℕ → Option ℕ
next_slot none = none
next_slot (some i) = some (suc i)

unfoldable pub construct : (P : Type 0) → List (Option P)
construct P = replicate max_trigger_count none

next_slot_front : (o : Option ℕ) → next_slot o ≢ some 0
unfolding next_slot
next_slot_front none e = ground (arith, e)
next_slot_front (some i) e = ground (arith, e)

next_slot_behind : (o : Option ℕ) (i : ℕ) → next_slot o ≡ some (suc i) → o ≡ some i
unfolding next_slot
next_slot_behind none i e = absurd (ground (arith, e))
next_slot_behind (some k) i e = ground (arith, e)

module _ {P : Type 0} where
  -- The loop of CreateTrigger.
  unfoldable pub free_slot : List (Option P) → Option ℕ
  unfolding next_slot
  free_slot [] = none
  free_slot (none ∷ ts) = some 0
  free_slot (some p ∷ ts) = next_slot (free_slot ts)

  unfoldable pub create_trigger : Option P → List (Option P) → ℤ × List (Option P)
  create_trigger new_trigger ts = elim (free_slot ts) [
    | none ↦ (negsuc 0, ts)
    | some i ↦ (pos i, set ts i new_trigger)
  ]

  unfoldable pub remove_trigger : ℤ → List (Option P) → List (Option P)
  remove_trigger (negsuc i) ts = ts
  remove_trigger (pos i) ts = if not (ltb i max_trigger_count) then ts else set ts i none

  -- The calls in their order.
  unfoldable pub trigge_up_all : List (Option P) → List P
  trigge_up_all [] = []
  trigge_up_all (none ∷ ts) = trigge_up_all ts
  trigge_up_all (some p ∷ ts) = p ∷ trigge_up_all ts

  free_slot_taken :
      (ts : List (Option P)) → free_slot ts ≡ none → length (trigge_up_all ts) ≡ length ts
  unfolding free_slot trigge_up_all
  free_slot_taken [] e = refl
  free_slot_taken (none ∷ ts) e = absurd (ground (arith, e))
  free_slot_taken (some p ∷ ts) e = elim (Option-cases (free_slot ts)) [
    | inl r ↦ ap suc (free_slot_taken ts r)
    | inr (i, r) ↦ absurd (ground (arith, e, r))
  ]

  free_slot_found :
      (ts : List (Option P)) (i : ℕ)
      → free_slot ts ≡ some i
      → (i < length ts)
        × (set ts i none ≡ ts)
        × ((new : Option P) → set (set ts i new) i none ≡ ts)
        × ((p : P) → length (trigge_up_all (set ts i (some p))) ≡ suc (length (trigge_up_all ts)))
  unfolding free_slot trigge_up_all
  free_slot_found [] i e = absurd (ground (arith, e))
  free_slot_found (none ∷ ts) zero e = (omega arith, refl, λ new. refl, λ p. refl)
  free_slot_found (none ∷ ts) (suc i) e = absurd (ground (arith, e))
  free_slot_found (some p ∷ ts) zero e = absurd (next_slot_front (free_slot ts) e)
  free_slot_found (some p ∷ ts) (suc i) e =
      let (l, s, u, c) = free_slot_found ts i (next_slot_behind (free_slot ts) i e) in
      (
        omega (arith, l),
        ap (λ x. some p ∷ x) s,
        λ new. ap (λ x. some p ∷ x) (u new),
        λ q. ap suc (c q),
      )

  create_full :
      (new : Option P) (ts : List (Option P))
      → free_slot ts ≡ none
      → create_trigger new ts ≡ (negsuc 0, ts)
  unfolding create_trigger
  create_full new ts e = rw (create_trigger, e) refl

  create_at :
      (new : Option P) (ts : List (Option P)) (i : ℕ)
      → free_slot ts ≡ some i
      → create_trigger new ts ≡ (pos i, set ts i new)
  unfolding create_trigger
  create_at new ts i e = rw (create_trigger, e) refl

  -- For a table of its full size: `create_trigger` fails with -1 and changes nothing if every entry is
  -- taken; else it gives an index below 128 where the function is stored, one more function is
  -- called by `trigge_up_all`, and `remove_trigger` of that index brings the table back.
  pub create_trigger_lem :
      (ts : List (Option P)) (p : P)
      → length ts ≡ max_trigger_count
      → let (tid, ts') = create_trigger (some p) ts in
        ((tid ≡ negsuc 0) × (ts' ≡ ts) × (length (trigge_up_all ts) ≡ max_trigger_count))
        ⊎ ((i : ℕ) × (tid ≡ pos i)
            × (i < max_trigger_count)
            × (get_elem? ts' i ≡ some (some p))
            × (length (trigge_up_all ts') ≡ suc (length (trigge_up_all ts)))
            × (remove_trigger tid ts' ≡ ts))
  create_trigger_lem ts p h = elim (Option-cases (free_slot ts)) [
    | inl e ↦ rw (create_full (some p) ts e) (inl (refl, refl, free_slot_taken ts e ∙ h))
    | inr (i, e) ↦
        (let (l, s, u, c) = free_slot_found ts i e in
          let b : ltb i max_trigger_count ≡ true = ground (arith, l, h) in
          rw (create_at (some p) ts i e) (
            inr (
              i,
              refl,
              omega (arith, l, h),
              get_elem?-set_self ts i (some p) l,
              c p,
              unfold remove_trigger in rw b (u (some p)),
            )))
  ]

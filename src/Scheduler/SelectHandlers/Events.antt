-- ===== src/Scheduler/SelectHandlers/Events.antt =====
-- What the handles are asked for, and which events the handlers get.
use huicpp.Base.{
  ℕ, ◌≡◌, refl, ap, ◌∙◌, arith, List, [], ◌∷◌, Bool, true, false, ◌&&◌, ◌||◌, if◌then◌else◌,
  Bool-cases, inl, inr,
}
use huicpp.Base.Ints.{ℤ, pos, negsuc, eqz}
use huicpp.Scheduler.HandlerSet.{HandlerDescriptor}
use huicpp.Scheduler.SelectHandlers.{
  FdSets, has, hit_test, hit_read, hit_write, hit_excep, less, HandleSets, set_if, setup_one,
  setup_each, setup_handle_set,
}

module _ {P : Type 0} where
  unfoldable pub asks : ℕ → ℤ → HandlerDescriptor P → Bool
  asks bit k d = has d.flags hit_test && (has d.flags bit && eqz d.handler k)

  -- Some descriptor of the handle asks for the event.
  unfoldable pub wants : ℕ → ℤ → List (HandlerDescriptor P) → Bool
  wants bit k [] = false
  wants bit k (d ∷ ds) = asks bit k d || wants bit k ds

  -- No descriptor that asks for an event has a handle beyond `m`.
  unfoldable pub Bounded : ℤ → List (HandlerDescriptor P) → Type 0
  Bounded m [] = Unit
  Bounded m (d ∷ ds) = (has d.flags hit_test ≡ true → less m d.handler ≡ false) × Bounded m ds

  -- Every handle can be put into an FdSet.
  unfoldable pub InSets : FdSets → List (HandlerDescriptor P) → Type 0
  InSets F [] = Unit
  InSets F (d ∷ ds) = F.InRange d.handler × InSets F ds

or_swap : (a b c : Bool) → b || (a || c) ≡ (a || b) || c
or_swap true true c = refl
or_swap true false c = refl
or_swap false true c = refl
or_swap false false c = refl

module _ (F : FdSets) (k : ℤ) (hk : F.InRange k) where
  isset-set_if :
      (b : Bool) (h : ℤ) (s : F.FdSet)
      → F.InRange h
      → F.fd_isset k (set_if F b h s) ≡ (b && eqz h k) || F.fd_isset k s
  unfolding set_if
  isset-set_if true h s hh = F.isset-set h k s hh hk ∙ cases (eqz h k)
    where
      cases : (c : Bool) → (if c then true else F.fd_isset k s) ≡ c || F.fd_isset k s
      cases true = refl
      cases false = refl
  isset-set_if false h s hh = refl

  -- The three sets at the handle `k`.
  unfoldable pub sets_at : HandleSets F → Bool × Bool × Bool
  sets_at s = (F.fd_isset k s.rfds, F.fd_isset k s.wfds, F.fd_isset k s.efds)

  module _ {P : Type 0} where
    isset-setup_one :
        (d : HandlerDescriptor P) (s : HandleSets F)
        → F.InRange d.handler
        → sets_at (setup_one F d s) ≡ (
          asks hit_read k d || F.fd_isset k s.rfds,
          asks hit_write k d || F.fd_isset k s.wfds,
          asks hit_excep k d || F.fd_isset k s.efds,
        )
    unfolding setup_one sets_at asks
    isset-setup_one d s h = elim (Bool-cases (has d.flags hit_test)) [
      | inl b ↦
          rw
            (
              b,
              isset-set_if (has d.flags hit_read) d.handler s.rfds h,
              isset-set_if (has d.flags hit_write) d.handler s.wfds h,
              isset-set_if (has d.flags hit_excep) d.handler s.efds h,
            )
            refl
      | inr b ↦ rw b refl
    ]

    isset-setup_each :
        (ds : List (HandlerDescriptor P)) (s : HandleSets F)
        → InSets F ds
        → sets_at (setup_each F ds s) ≡ (
          wants hit_read k ds || F.fd_isset k s.rfds,
          wants hit_write k ds || F.fd_isset k s.wfds,
          wants hit_excep k ds || F.fd_isset k s.efds,
        )
    unfolding setup_each wants InSets sets_at
    isset-setup_each [] s h = unfold sets_at in refl
    isset-setup_each (d ∷ ds) s (hd, h) =
        let one = isset-setup_one d s hd in
        isset-setup_each ds (setup_one F d s) h
        ∙ rw
            (
              ap (λ x. x.0) one,
              ap (λ x. x.1) one,
              ap (λ x. x.2) one,
              or_swap (asks hit_read k d) (wants hit_read k ds) (F.fd_isset k s.rfds),
              or_swap (asks hit_write k d) (wants hit_write k ds) (F.fd_isset k s.wfds),
              or_swap (asks hit_excep k d) (wants hit_excep k ds) (F.fd_isset k s.efds),
            )
            refl

or_false : (a : Bool) → a || false ≡ a
or_false true = refl
or_false false = refl

less_trans : (a b c : ℤ) → less a b ≡ false → less b c ≡ false → less a c ≡ false
unfolding less
less_trans (pos a) (pos b) (pos c) h h' = ground arith
less_trans (pos a) (pos b) (negsuc c) h h' = refl
less_trans (pos a) (negsuc b) (pos c) h h' = absurd (ground (arith, h'))
less_trans (pos a) (negsuc b) (negsuc c) h h' = refl
less_trans (negsuc a) (pos b) c h h' = absurd (ground (arith, h))
less_trans (negsuc a) (negsuc b) (pos c) h h' = absurd (ground (arith, h'))
less_trans (negsuc a) (negsuc b) (negsuc c) h h' = ground arith

less_self : (a : ℤ) → less a a ≡ false
unfolding less
less_self (pos a) = ground arith
less_self (negsuc a) = ground arith

less_larger :
    (a b : ℤ) → let m = if less a b then b else a in (less m a ≡ false) × (less m b ≡ false)
unfolding less
less_larger (pos a) (pos b) = (ground arith, ground arith)
less_larger (pos a) (negsuc b) = (ground arith, refl)
less_larger (negsuc a) (pos b) = (refl, ground arith)
less_larger (negsuc a) (negsuc b) = (ground arith, ground arith)

module _ (F : FdSets) {P : Type 0} where
  res-setup_one :
      (d : HandlerDescriptor P) (s : HandleSets F)
      → let m = (setup_one F d s).res in
        (less m s.res ≡ false) × (has d.flags hit_test ≡ true → less m d.handler ≡ false)
  unfolding setup_one
  res-setup_one d s = elim (Bool-cases (has d.flags hit_test)) [
    | inl b ↦ rw b ((less_larger s.res d.handler).0, λ h. (less_larger s.res d.handler).1)
    | inr b ↦ rw b (less_self s.res, λ h. absurd (ground (arith, h)))
  ]

  res-setup_each :
      (ds : List (HandlerDescriptor P)) (s : HandleSets F)
      → let m = (setup_each F ds s).res in (less m s.res ≡ false) × Bounded m ds
  unfolding setup_each Bounded
  res-setup_each [] s = (less_self s.res, tt)
  res-setup_each (d ∷ ds) s =
      let (a, b) = res-setup_one d s in
      let (a', b') = res-setup_each ds (setup_one F d s) in
      let m = (setup_each F ds (setup_one F d s)).res in
      let m' = (setup_one F d s).res in
      (less_trans m m' s.res a' a, (λ h. less_trans m m' d.handler a' (b h), b'))

  -- In the sets of `setup_handle_set`, a handle is set for an event if and only if some descriptor of
  -- that handle asks for the event, and `res` is no less than any handle that asks for one.
  pub setup_handle_set_lem :
      (ds : List (HandlerDescriptor P))
      → InSets F ds
      → let s = setup_handle_set F ds in
        ((k : ℤ)
          → F.InRange k
          → (F.fd_isset k s.rfds ≡ wants hit_read k ds)
            × (F.fd_isset k s.wfds ≡ wants hit_write k ds)
            × (F.fd_isset k s.efds ≡ wants hit_excep k ds))
        × Bounded s.res ds
  unfolding setup_handle_set sets_at
  setup_handle_set_lem ds h =
      let start : HandleSets F = record {
        rfds = F.fd_zero;
        wfds = F.fd_zero;
        efds = F.fd_zero;
        res = pos 0;
      } in
      (
        λ k hk.
            let e = isset-setup_each F k hk ds start h in
            let z = F.isset-zero k hk in
            (
              ap (λ x. x.0) e ∙ rw z (or_false (wants hit_read k ds)),
              ap (λ x. x.1) e ∙ rw z (or_false (wants hit_write k ds)),
              ap (λ x. x.2) e ∙ rw z (or_false (wants hit_excep k ds)),
            ),
        (res-setup_each ds start).1,
      )

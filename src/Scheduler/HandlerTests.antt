-- ===== src/Scheduler/HandlerTests.antt =====
-- Concrete handler sets and trigger tables, and the theorems at concrete inputs.
use huicpp.Base.{ℕ, ◌≡◌, refl, List, [], ◌∷◌, Bool, true, false, if◌then◌else◌, some}
use huicpp.Base.Ints.{ℤ, pos, eqz, is_positive}
use huicpp.Scheduler.HandlerSet.{HandlerDescriptor, assign_handler, call_handler}
use huicpp.Scheduler.HandlerSet.Lookup.{descriptor_of, IsHandlerSet}
use huicpp.Scheduler.HandlerSet.Refine.{assign_handler_refines}
use huicpp.Scheduler.SelectHandlers.{FdSets, result_events, call_handlers}
use huicpp.Scheduler.SelectHandlers.Events.{InSets}

-- Functions are numbers. The handle 5 is read from, the handle 3 read from and written to.
abbrev two_handlers : List (HandlerDescriptor ℕ)
two_handlers =
    record { handler = pos 5; flags = 1; proc = some 50 }
    ∷ record { handler = pos 3; flags = 3; proc = some 30 }
    ∷ []

two_handlers-IsHandlerSet : IsHandlerSet two_handlers
unfolding IsHandlerSet descriptor_of eqz
two_handlers-IsHandlerSet = (refl, (refl, tt))

-- Sets as their membership tests.
abbrev membership : FdSets
membership = record {
  FdSet = ℤ → Bool;
  InRange = λ k. Unit;
  fd_zero = λ k. false;
  fd_set = λ h s k. if eqz h k then true else s k;
  fd_isset = λ k s. s k;
  isset-zero = λ k h. refl;
  isset-set = λ h k s a b. refl;
}

in_sets : InSets membership two_handlers
unfolding InSets
in_sets = (tt, (tt, tt))

calls :
    call_handlers membership (λ k. true) (λ k. true) (λ k. false) two_handlers
    ≡ ((50, 3) ∷ (30, 3) ∷ [])
unfolding call_handlers result_events call_handler
calls = refl

assign_handler_refines_example :
    (is_positive (pos 3) ≡ true
      → (descriptor_of (pos 3) (assign_handler (pos 3) 2 (some 31) two_handlers)
          ≡ some (record { handler = pos 3; flags = 2; proc = some 31 }))
        × ((k : ℤ)
            → eqz (pos 3) k ≡ false
            → descriptor_of k (assign_handler (pos 3) 2 (some 31) two_handlers)
              ≡ descriptor_of k two_handlers))
    × (is_positive (pos 3) ≡ false → assign_handler (pos 3) 2 (some 31) two_handlers ≡ two_handlers)
    × IsHandlerSet (assign_handler (pos 3) 2 (some 31) two_handlers)
assign_handler_refines_example =
    assign_handler_refines two_handlers two_handlers-IsHandlerSet (pos 3) 2 (some 31)

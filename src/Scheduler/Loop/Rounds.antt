-- ===== src/Scheduler/Loop/Rounds.antt =====
-- What one round of the scheduler's loop does, and when the loop ends.
use huicpp.Base.{
  ℕ, zero, suc, ◌||◌, ◌∷◌, ◌≡◌, List, [], ◌++◌, map, Bool, true, false, if◌then◌else◌, some,
}
use huicpp.Base.Ints.{ℤ, is_positive}
use huicpp.Scheduler.Timeval.{Timeval}
use huicpp.Scheduler.DelayQueue.{DelayQueue}
use huicpp.Scheduler.SelectHandlers.{FdSets, setup_handle_set, call_handlers}
use huicpp.Scheduler.TriggerSet.{trigge_up_all}
use huicpp.Scheduler.Loop.{
  Called, triggered, alarmed, Scheduler, Round, next_int, wait_time, handled_calls, single_step,
}

module _ (F : FdSets) {P : Type 0} (stops : Called P → Bool) where
  -- The calls of a round: of the handles, if select gives any, of the triggers, of the alarms.
  unfoldable pub calls_of : ℤ × F.FdSet × F.FdSet × F.FdSet → Scheduler P → List ℕ → List (Called P)
  calls_of (result, rfds, wfds, efds) s fired =
      (if is_positive result then handled_calls (call_handlers F rfds wfds efds s.handlers) else [])
      ++ (map triggered (trigge_up_all s.trigers) ++ map alarmed fired)

  -- What select is asked and gives.
  unfoldable pub selected : Round F → Scheduler P → Timeval → ℤ × F.FdSet × F.FdSet × F.FdSet
  selected r s t =
      let sets = setup_handle_set F s.handlers in
      r.select (next_int sets.res) sets.rfds sets.wfds sets.efds (wait_time t)

  -- Some call stops the loop.
  unfoldable pub some_stop : List (Called P) → Bool
  some_stop [] = false
  some_stop (c ∷ cs) = stops c || some_stop cs

  abbrev Quits : Scheduler P → List (Called P) × Scheduler P → Type 0
  Quits s (calls, s') = s'.quit ≡ (some_stop calls || s.quit)

  -- After `n` rounds in which no call comes to StopLoop there is one in which some call does: `calls` are
  -- all the calls of these rounds, and `s'` is what the last one leaves.
  unfoldable pub Stops :
      (ℕ → Round F) → ℕ → ℕ → Scheduler P → List (Called P) → Scheduler P → Type 0
  unfolding some_stop
  Stops world zero i s calls s' =
      (single_step F stops (world i) s ≡ some (calls, s')) × (some_stop calls ≡ true)
  Stops world (suc n) i s calls s' =
      (first : List (Called P)) × (t : Scheduler P) × (others : List (Called P)) × (single_step F
          stops (world i) s
        ≡ some (first, t))
      × (some_stop first ≡ false)
      × (calls ≡ first ++ others)
      × Stops world n (suc i) t others s'

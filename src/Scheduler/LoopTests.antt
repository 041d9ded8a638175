-- ===== src/Scheduler/LoopTests.antt =====
-- A round of the scheduler's loop, and the theorems at concrete inputs.
use huicpp.Base.{ℕ, refl, List, [], ◌∷◌, Bool, true, false, if◌then◌else◌, some, none, All}
use huicpp.Base.Ints.{ℤ, pos, eqz}
use huicpp.Scheduler.Timeval.{Timeval}
use huicpp.Scheduler.DelayQueue.{DelayQueue}
use huicpp.Scheduler.HandlerSet.{HandlerDescriptor}
use huicpp.Scheduler.SelectHandlers.{FdSets, setup_handle_set, call_handlers}
use huicpp.Scheduler.SelectHandlers.Events.{InSets}
use huicpp.Scheduler.SelectHandlers.Calls.{IsAsked, call_handlers-IsAsked}
use huicpp.Scheduler.Loop.{Called, handled, triggered, alarmed, Scheduler, Round}

abbrev at_time : ℕ → ℕ → Timeval
at_time s u = record { seconds = s; useconds = u }

-- Sets as their membership tests.
abbrev members : FdSets
members = record {
  FdSet = ℤ → Bool;
  InRange = λ k. Unit;
  fd_zero = λ k. false;
  fd_set = λ h s k. if eqz h k then true else s k;
  fd_isset = λ k s. s k;
  isset-zero = λ k h. refl;
  isset-set = λ h k s a b. refl;
}

-- An alarm at 1.5 seconds after the time 100.
abbrev one_alarm : DelayQueue
one_alarm = record {
  entries = record { token = 7; delta = at_time 1 500000 } ∷ [];
  rest = at_time 1000 0;
  last_sync_time = at_time 100 0;
}

abbrev no_alarm : DelayQueue
no_alarm = record { entries = []; rest = at_time 999 800000; last_sync_time = at_time 101 700000 }

-- Functions are numbers. The handle 5 is read from; there is one trigger.
abbrev reader : List (HandlerDescriptor ℕ)
reader = record { handler = pos 5; flags = 1; proc = some 50 } ∷ []

abbrev scheduler : Scheduler ℕ
scheduler = record {
  quit = false;
  task_queue = one_alarm;
  handlers = reader;
  trigers = none ∷ some 9 ∷ [];
}

-- select gives the sets back as they are.
abbrev round : Round members
round = record {
  now = at_time 100 0;
  after = at_time 101 700000;
  select = λ n r w e t. (pos 1, r, w, e);
}

abbrev is_alarm : Called ℕ → Bool
is_alarm (handled p e) = false
is_alarm (triggered p) = false
is_alarm (alarmed n) = true

abbrev stopped : Scheduler ℕ
stopped = record scheduler { quit = true; task_queue = no_alarm }

call_handlers-IsAsked_example :
    let s = setup_handle_set members reader in
    All
      (IsAsked members reader s.rfds s.wfds s.efds)
      (call_handlers members s.rfds s.wfds s.efds reader)
call_handlers-IsAsked_example =
    let s = setup_handle_set members reader in
    call_handlers-IsAsked members reader s.rfds s.wfds s.efds (unfold InSets in (tt, tt))
      (record { reads = λ k h e. e; writes = λ k h e. e; excepts = λ k h e. e })

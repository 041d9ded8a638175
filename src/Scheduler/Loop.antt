-- ===== src/Scheduler/Loop.antt =====
-- HSingleScheduler of src/hscheduler.cpp, and the loop of SchedulerBase of
-- src/detail/scheduler/scheduler_in.cpp. The functions that the users give leave the handlers, the
-- triggers and the alarms alone; they may call StopLoop. The clock and select are the system's.
pub mod Rounds
use huicpp.Base.{
  ℕ, zero, suc, List, [], ◌∷◌, ◌++◌, map, Bool, true, false, if◌then◌else◌, ltb, Option, none, some,
  length,
}
use huicpp.Base.Ints.{ℤ, pos, negsuc, is_positive}
use huicpp.Base.Options.{◌>>=◌, return}
use huicpp.Scheduler.Timeval.{Timeval, million}
use huicpp.Scheduler.DelayQueue.{
  DelayQueue, construct, time_to_next_alarm, handle_alarm, schedule_delay_task,
}
use huicpp.Scheduler.HandlerSet.{HandlerDescriptor, assign_handler, remove_handler}
use huicpp.Scheduler.SelectHandlers.{FdSets, setup_handle_set, call_handlers}
use huicpp.Scheduler.TriggerSet.{trigge_up_all, create_trigger, remove_trigger}

-- A call of a user's function: with the events of a handle, of a trigger, of the alarm of an entry.
pub data Called (P : Type 0) : Type 0 where
  handled : P → ℕ → Called P
  triggered : P → Called P
  alarmed : ℕ → Called P

pub record Scheduler (P : Type 0) : Type 0 where
  pub quit : Bool
  pub task_queue : DelayQueue
  pub handlers : List (HandlerDescriptor P)
  pub trigers : List (Option P)

-- What the system gives in a round: the clock when the next alarm is asked for and when the alarms
-- are handled, and select, from the number of handles, the three sets and the time to wait.
pub record Round (F : FdSets) : Type 0 where
  pub now : Timeval
  pub after : Timeval
  pub select : ℤ → F.FdSet → F.FdSet → F.FdSet → Timeval → ℤ × F.FdSet × F.FdSet × F.FdSet

unfoldable pub next_int : ℤ → ℤ
next_int (pos a) = pos (suc a)
next_int (negsuc zero) = pos 0
next_int (negsuc (suc a)) = negsuc a

unfoldable pub is_negative : ℤ → Bool
is_negative (pos a) = false
is_negative (negsuc a) = true

-- No more than a million seconds.
unfoldable pub wait_time : Timeval → Timeval
wait_time t = if ltb million t.seconds then record t { seconds = million } else t

module _ {P : Type 0} where
  unfoldable pub new_scheduler : Timeval → Scheduler P
  unfolding construct
  new_scheduler now = record {
    quit = false;
    task_queue = construct now;
    handlers = [];
    trigers = huicpp.Scheduler.TriggerSet.construct P;
  }

  unfoldable pub set_background_handing : ℤ → ℕ → Option P → Scheduler P → Scheduler P
  unfolding assign_handler
  set_background_handing sfd flags bc s = record s {
    handlers = assign_handler sfd flags bc s.handlers;
  }

  unfoldable pub remove_background_handling : ℤ → Scheduler P → Scheduler P
  unfolding remove_handler
  remove_background_handling sfd s = record s { handlers = remove_handler sfd s.handlers }

  unfoldable pub stop_loop : Scheduler P → Scheduler P
  stop_loop s = record s { quit = true }

  -- CreateTrigger and RemoveTrigger.
  unfoldable pub add_trigger : Option P → Scheduler P → ℤ × Scheduler P
  unfolding create_trigger
  add_trigger bc s =
      let (tid, trigers) = create_trigger bc s.trigers in (tid, record s { trigers = trigers })

  unfoldable pub drop_trigger : ℤ → Scheduler P → Scheduler P
  unfolding remove_trigger
  drop_trigger tid s = record s { trigers = remove_trigger tid s.trigers }

  -- ScheduleDelayTask at the time `now`, where the new entry has the address `n`.
  unfoldable pub schedule_task : Timeval → ℕ → ℕ → Scheduler P → Option (Scheduler P)
  unfolding schedule_delay_task ◌>>=◌
  schedule_task now n microseconds s = do
    q ← schedule_delay_task now n microseconds s.task_queue
    return (record s { task_queue = q })

  -- The users' functions, one after the other: where one comes to StopLoop, the loop is stopped then, and
  -- the others are still called.
  unfoldable pub run_calls : (Called P → Bool) → List (Called P) → Scheduler P → Scheduler P
  unfolding stop_loop
  run_calls stops [] s = s
  run_calls stops (c ∷ cs) s = run_calls stops cs (if stops c then stop_loop s else s)

  unfoldable pub handled_calls : List (P × ℕ) → List (Called P)
  handled_calls [] = []
  handled_calls ((p, events) ∷ cs) = handled p events ∷ handled_calls cs

-- `stops` tells which calls come to StopLoop.
module _ (F : FdSets) {P : Type 0} (stops : Called P → Bool) where
  -- From select on: its result, the rest of the round. `none`: abort.
  unfoldable pub after_select :
      Timeval
      → (ℤ × F.FdSet × F.FdSet × F.FdSet)
      → Scheduler P
      → Option (List (Called P) × Scheduler P)
  unfolding is_negative call_handlers handled_calls trigge_up_all handle_alarm run_calls ◌>>=◌
  after_select clock (result, rfds, wfds, efds) s = if is_negative result then none else (do
    (fired, q) ← handle_alarm (suc (length s.task_queue.entries)) (λ n x. x) clock s.task_queue
    let calls =
        (if is_positive result
          then handled_calls (call_handlers F rfds wfds efds s.handlers)
          else [])
        ++ (map triggered (trigge_up_all s.trigers) ++ map alarmed fired)
    return (calls, run_calls stops calls (record s { task_queue = q })))

  unfoldable pub single_step : Round F → Scheduler P → Option (List (Called P) × Scheduler P)
  unfolding time_to_next_alarm wait_time setup_handle_set next_int after_select ◌>>=◌
  single_step r s = do
    (t, q) ← time_to_next_alarm r.now s.task_queue
    let sets = setup_handle_set F s.handlers
    let result = r.select (next_int sets.res) sets.rfds sets.wfds sets.efds (wait_time t)
    after_select r.after result (record s { task_queue = q })

  -- DoEventLoop, for the rounds of `world`. `none`: abort, or no end after `fuel` tests.
  unfoldable pub do_event_loop :
      ℕ → (ℕ → Round F) → ℕ → Scheduler P → Option (List (Called P) × Scheduler P)
  unfolding single_step ◌>>=◌
  do_event_loop zero world i s = none
  do_event_loop (suc fuel) world i s =
      let next = (do
        (calls, s') ← single_step (world i) s
        (calls', s'') ← do_event_loop fuel world (suc i) s'
        return (calls ++ calls', s'')) in
      if s.quit then some ([], s) else next

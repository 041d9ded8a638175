-- ===== src/Jobs/Tests.antt =====
-- Concrete orders of the events of one thread, and the theorems at these.
use huicpp.Base.{ℕ, ◌≡◌, refl, arith, List, [], ◌∷◌, ◌++◌, ◌==◌, some}
use huicpp.Base.Options.{◌>>=◌}
use huicpp.Jobs.{
  Job, work, exit_thread, idle, exited, Summer, SummerEvent, new_summer, push_job, pop_job,
  pop_jobs, get_job, do_job, take_by, done_by, summer_step, summer_run, exit_work, JobMng, MngEvent,
  new_mng, mng_job, mng_take, mng_done, mng_read, mng_write, mng_step, mng_run, all_finished,
  finish,
}
use huicpp.Jobs.Tally.{sum, count, is_busy}
use huicpp.Jobs.Drain.{exit_work_drains}
use huicpp.Jobs.Finish.{finish_lem}

abbrev jobs_pushed : List (SummerEvent ℕ)
jobs_pushed = SummerEvent.push (work 5) ∷ SummerEvent.push exit_thread ∷ []

abbrev jobs_drained : List (SummerEvent ℕ)
jobs_drained =
    jobs_pushed ++ (SummerEvent.take_job 0 ∷ SummerEvent.job_done 0 ∷ SummerEvent.take_job 0 ∷ [])

abbrev pushed_jobs : List (Job ℕ)
pushed_jobs = work 5 ∷ exit_thread ∷ []

abbrev before : Summer ℕ
before = record {
  queue = pushed_jobs;
  workers = idle ∷ [];
  pushed = pushed_jobs;
  taken = [];
  done = [];
}

abbrev after : Summer ℕ
after = record {
  queue = [];
  workers = exited ∷ [];
  pushed = pushed_jobs;
  taken = pushed_jobs;
  done = 5 ∷ [];
}

run_before : summer_run jobs_pushed (new_summer 1) ≡ some before
unfolding summer_run summer_step new_summer push_job ◌>>=◌
run_before = refl

run_after : summer_run jobs_drained (new_summer 1) ≡ some after
unfolding summer_run summer_step new_summer push_job take_by done_by pop_job do_job ◌>>=◌
run_after = refl

exit_work_drains_example :
    (after.queue ≡ []) × (count (λ a. a == 5) after.done ≡ count (λ a. a == 5) (5 ∷ []))
exit_work_drains_example =
    exit_work_drains (λ a. a == 5) 1 (5 ∷ []) jobs_drained after (omega arith) run_after
      (unfold exit_work in refl) (unfold sum in refl)

abbrev mng_events : List (MngEvent ℕ)
mng_events =
    MngEvent.push 5
    ∷ MngEvent.take_job 0
    ∷ MngEvent.job_done 0
    ∷ MngEvent.take_job 0
    ∷ MngEvent.read_count 0
    ∷ MngEvent.write_count 0
    ∷ []

abbrev mng_after : JobMng ℕ
mng_after = record {
  jobs = [];
  workers = exited ∷ [];
  n_working = 0;
  pushed = 5 ∷ [];
  taken = 5 ∷ [];
  done = 5 ∷ [];
}

run_mng : mng_run mng_events (new_mng 1) ≡ some mng_after
unfolding mng_run mng_step new_mng push_job mng_take mng_done mng_read mng_write get_job mng_job
    ◌>>=◌
run_mng = refl

finish_example :
    (count (λ a. a == 5) mng_after.done ≡ count (λ a. a == 5) mng_after.pushed)
    × (sum (is_busy (λ a. a == 5)) mng_after.workers ≡ 0)
finish_example =
    finish_lem (λ a. a == 5) 1 mng_events mng_after run_mng (unfold finish all_finished in refl)

-- Two threads that read the same count: both are gone, and Finish says no for ever.
abbrev lost_count : List (MngEvent ℕ)
lost_count =
    MngEvent.take_job 0
    ∷ MngEvent.take_job 1
    ∷ MngEvent.read_count 0
    ∷ MngEvent.read_count 1
    ∷ MngEvent.write_count 0
    ∷ MngEvent.write_count 1
    ∷ []

lost :
    mng_run lost_count (new_mng 2)
    ≡ some (record {
      jobs = [];
      workers = exited ∷ exited ∷ [];
      n_working = 1;
      pushed = [];
      taken = [];
      done = [];
    })
unfolding mng_run mng_step new_mng mng_take mng_read mng_write get_job mng_job ◌>>=◌
lost = refl

-- PopJobs leaves nothing behind.
all_popped : pop_jobs {A = ℕ} (1 ∷ []) (2 ∷ 3 ∷ []) ≡ some (1 ∷ 2 ∷ 3 ∷ [], [])
unfolding pop_jobs
all_popped = refl

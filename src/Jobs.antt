-- ===== src/Jobs.antt =====
-- The managers of jobs in src/utils: JobPool and MultiThreadJobMng (jobpool, multithreadjobmng), and
-- JobQueue and SummerWorkerMng (summerworkermng). The threads are those of HThreadPool, by their
-- indices; what a thread does while it holds the mutex is one event, and the events come in any order.
pub mod Tally
pub mod Drain
pub mod Finish
mod Tests
use huicpp.Base.{
  ℕ, suc, ◌-◌, List, [], ◌∷◌, ◌++◌, replicate, set, get_elem?, Bool, true, false, ◌&&◌, ◌==◌,
  Option, none, some,
}
use huicpp.Base.Options.{◌>>=◌}

-- DoJob of ExitThreadJob ends the thread; that of any other job, `work`, returns.
pub data Job (A : Type 0) : Type 0 where
  work : A → Job A
  exit_thread : Job A

-- A thread in childThreadRun: before the next job, in DoJob, with a null pointer in place of a job,
-- with the count of the threads that it has read in beforeThreadExit, or gone.
pub data Worker (A : Type 0) : Type 0 where
  idle : Worker A
  busy : A → Worker A
  ended : Worker A
  leaving : ℕ → Worker A
  exited : Worker A

module _ {A : Type 0} where
  -- PushJob of both queues.
  unfoldable pub push_job : A → List A → List A
  push_job job jobs = jobs ++ (job ∷ [])

  -- GetJob of JobPool; `none` is the null pointer.
  unfoldable pub get_job : List A → Option A × List A
  get_job [] = (none, [])
  get_job (job ∷ jobs) = (some job, jobs)

  -- PopJob of JobQueue under the mutex; `none`: the thread waits.
  unfoldable pub pop_job : List A → Option (A × List A)
  pop_job [] = none
  pop_job (job ∷ jobs) = some (job, jobs)

  -- PopJobs appends to `res`; `none`: the thread waits.
  unfoldable pub pop_jobs : List A → List A → Option (List A × List A)
  pop_jobs res [] = none
  pop_jobs res (job ∷ jobs) = some (res ++ (job ∷ jobs), [])

  unfoldable pub all_finished : List A → Bool
  all_finished [] = true
  all_finished (job ∷ jobs) = false

-- SummerWorkerMng; `pushed`, `taken` and `done` record the jobs that went in, came out and were done.
pub record Summer (A : Type 0) : Type 0 where
  pub queue : List (Job A)
  pub workers : List (Worker A)
  pub pushed : List (Job A)
  pub taken : List (Job A)
  pub done : List A

pub data SummerEvent (A : Type 0) : Type 0 where
  push : Job A → SummerEvent A
  take_job : ℕ → SummerEvent A
  job_done : ℕ → SummerEvent A

module _ {A : Type 0} where
  unfoldable pub new_summer : ℕ → Summer A
  new_summer n = record {
    queue = [];
    workers = replicate n idle;
    pushed = [];
    taken = [];
    done = [];
  }

  -- What the thread `i` makes of a job.
  unfoldable pub do_job : ℕ → Job A → List (Job A) → Summer A → Summer A
  do_job i (work a) jobs s = record s {
    queue = jobs;
    workers = set s.workers i (busy a);
    taken = s.taken ++ (work a ∷ []);
  }
  do_job i exit_thread jobs s = record s {
    queue = jobs;
    workers = set s.workers i exited;
    taken = s.taken ++ (exit_thread ∷ []);
  }

  -- One round of childThreadRun, up to the end of DoJob or of the thread.
  unfoldable pub take_by : ℕ → Worker A → Summer A → Option (Summer A)
  unfolding pop_job do_job ◌>>=◌
  take_by i idle s = do (job, jobs) ← pop_job s.queue; some (do_job i job jobs s)
  take_by i (busy a) s = none
  take_by i ended s = none
  take_by i (leaving v) s = none
  take_by i exited s = none

  unfoldable pub done_by : ℕ → Worker A → Summer A → Option (Summer A)
  done_by i (busy a) s =
      some (record s { workers = set s.workers i idle; done = s.done ++ (a ∷ []) })
  done_by i idle s = none
  done_by i ended s = none
  done_by i (leaving v) s = none
  done_by i exited s = none

  unfoldable pub summer_step : SummerEvent A → Summer A → Option (Summer A)
  unfolding push_job take_by done_by ◌>>=◌
  summer_step (push job) s =
      some (record s { queue = push_job job s.queue; pushed = s.pushed ++ (job ∷ []) })
  summer_step (take_job i) s = do w ← get_elem? s.workers i; take_by i w s
  summer_step (job_done i) s = do w ← get_elem? s.workers i; done_by i w s

  -- `none` if the events cannot come in this order.
  unfoldable pub summer_run : List (SummerEvent A) → Summer A → Option (Summer A)
  unfolding summer_step ◌>>=◌
  summer_run [] s = some s
  summer_run (e ∷ es) s = do s' ← summer_step e s; summer_run es s'

  -- The jobs that ExitWork pushes, for the number of the threads.
  unfoldable pub exit_work : ℕ → List (Job A)
  exit_work child_count = replicate child_count exit_thread

-- MultiThreadJobMng.
pub record JobMng (A : Type 0) : Type 0 where
  pub jobs : List A
  pub workers : List (Worker A)
  pub n_working : ℕ
  pub pushed : List A
  pub taken : List A
  pub done : List A

-- `read_count` and `write_count` are the two parts of `m_nWorking--`, which no mutex protects.
pub data MngEvent (A : Type 0) : Type 0 where
  push : A → MngEvent A
  take_job : ℕ → MngEvent A
  job_done : ℕ → MngEvent A
  read_count : ℕ → MngEvent A
  write_count : ℕ → MngEvent A

module _ {A : Type 0} where
  unfoldable pub new_mng : ℕ → JobMng A
  new_mng n = record {
    jobs = [];
    workers = replicate n idle;
    n_working = n;
    pushed = [];
    taken = [];
    done = [];
  }

  -- With a job, or with a null pointer.
  unfoldable pub mng_job : ℕ → Option A × List A → JobMng A → JobMng A
  mng_job i (some a, jobs) s = record s {
    jobs = jobs;
    workers = set s.workers i (busy a);
    taken = s.taken ++ (a ∷ []);
  }
  mng_job i (none, jobs) s = record s { jobs = jobs; workers = set s.workers i ended }

  -- The parts of childThreadRun and of beforeThreadExit.
  unfoldable pub mng_take : ℕ → Worker A → JobMng A → Option (JobMng A)
  unfolding get_job mng_job
  mng_take i idle s = some (mng_job i (get_job s.jobs) s)
  mng_take i _ s = none

  unfoldable pub mng_done : ℕ → Worker A → JobMng A → Option (JobMng A)
  mng_done i (busy a) s =
      some (record s { workers = set s.workers i idle; done = s.done ++ (a ∷ []) })
  mng_done i _ s = none

  unfoldable pub mng_read : ℕ → Worker A → JobMng A → Option (JobMng A)
  mng_read i ended s = some (record s { workers = set s.workers i (leaving s.n_working) })
  mng_read i _ s = none

  unfoldable pub mng_write : ℕ → Worker A → JobMng A → Option (JobMng A)
  mng_write i (leaving v) s =
      some (record s { workers = set s.workers i exited; n_working = v - 1 })
  mng_write i _ s = none

  unfoldable pub mng_step : MngEvent A → JobMng A → Option (JobMng A)
  unfolding push_job mng_take mng_done mng_read mng_write ◌>>=◌
  mng_step (push a) s = some (record s { jobs = push_job a s.jobs; pushed = s.pushed ++ (a ∷ []) })
  mng_step (take_job i) s = do w ← get_elem? s.workers i; mng_take i w s
  mng_step (job_done i) s = do w ← get_elem? s.workers i; mng_done i w s
  mng_step (read_count i) s = do w ← get_elem? s.workers i; mng_read i w s
  mng_step (write_count i) s = do w ← get_elem? s.workers i; mng_write i w s

  unfoldable pub mng_run : List (MngEvent A) → JobMng A → Option (JobMng A)
  unfolding mng_step ◌>>=◌
  mng_run [] s = some s
  mng_run (e ∷ es) s = do s' ← mng_step e s; mng_run es s'

  -- Finish.
  unfoldable pub finish : JobMng A → Bool
  unfolding all_finished
  finish s = s.n_working == 0 && all_finished s.jobs

-- ===== src/Jobs/Drain.antt =====
-- SummerWorkerMng: what ExitWork waits for.
use huicpp.Base.{
  ℕ, ◌+◌, ◌<◌, ◌≡◌, refl, sym, ap, ◌∙◌, arith, List, [], ◌∷◌, ◌++◌, length, length-set,
  length-replicate, append_assoc, append-nil, map, replicate, get_elem?, Bool, some,
}
use huicpp.Base.Options.{◌>>=◌, IfSome, IfSome-get, IfSome-at, IfSome-bind}
use huicpp.Jobs.{
  Job, Worker, work, exit_thread, idle, busy, ended, leaving, exited, Summer, SummerEvent,
  new_summer, push_job, pop_job, do_job, take_by, done_by, summer_step, summer_run, exit_work,
}
use huicpp.Jobs.Tally.{
  sum, sum-set, sum-replicate, count, count-append, works, count-works, exits, exits-append,
  is_exited, is_busy, is_foreign, works_of, exits_of, behind_exits, busy_or_exited,
}

at_job :
    {A : Type 0} (P : Summer A → Type 0) (queue : List (Job A))
    (f : Job A → List (Job A) → Summer A)
    → ((job : Job A) (jobs : List (Job A)) → queue ≡ job ∷ jobs → P (f job jobs))
    → IfSome P (pop_job queue >>= λ x. some (f x.0 x.1))
unfolding pop_job ◌>>=◌
at_job P [] f h = tt
at_job P (job ∷ jobs) f h = h job jobs refl

module _ {A : Type 0} (p : A → Bool) (n : ℕ) where
  record Sound (s : Summer A) : Type 0 where
    pub fifo : s.pushed ≡ s.taken ++ s.queue
    pub gone : exits s.taken ≡ sum is_exited s.workers
    pub jobs : count p (works s.taken) ≡ count p s.done + sum (is_busy p) s.workers
    pub threads : length s.workers ≡ n
    pub kinds : sum is_foreign s.workers ≡ 0

  push-Sound :
      (job : Job A) (s : Summer A)
      → Sound s
      → Sound (record s { queue = push_job job s.queue; pushed = s.pushed ++ (job ∷ []) })
  unfolding push_job
  push-Sound job s h = record {
    fifo = rw (h.fifo, append_assoc) refl;
    gone = h.gone;
    jobs = h.jobs;
    threads = h.threads;
    kinds = h.kinds;
  }

  do_job-Sound :
      (i : ℕ) (job : Job A) (jobs : List (Job A)) (s : Summer A)
      → get_elem? s.workers i ≡ some idle
      → s.queue ≡ job ∷ jobs
      → Sound s
      → Sound (do_job i job jobs s)
  unfolding do_job works exits count
  do_job-Sound i (work a) jobs s e q h = record {
    fifo = rw (h.fifo, q, append_assoc) refl;
    gone = omega (
      arith,
      exits-append s.taken (work a ∷ []),
      sum-set is_exited s.workers i idle (busy a) e,
      h.gone,
    );
    jobs = omega (
      arith,
      count-works p s.taken (work a ∷ []),
      sum-set (is_busy p) s.workers i idle (busy a) e,
      h.jobs,
    );
    threads = length-set s.workers i (busy a) ∙ h.threads;
    kinds = omega (arith, sum-set is_foreign s.workers i idle (busy a) e, h.kinds);
  }
  do_job-Sound i exit_thread jobs s e q h = record {
    fifo = rw (h.fifo, q, append_assoc) refl;
    gone = omega (
      arith,
      exits-append s.taken (exit_thread ∷ []),
      sum-set is_exited s.workers i idle exited e,
      h.gone,
    );
    jobs = omega (
      arith,
      count-works p s.taken (exit_thread ∷ []),
      sum-set (is_busy p) s.workers i idle exited e,
      h.jobs,
    );
    threads = length-set s.workers i exited ∙ h.threads;
    kinds = omega (arith, sum-set is_foreign s.workers i idle exited e, h.kinds);
  }

  take_by-Sound :
      (i : ℕ) (w : Worker A) (s : Summer A)
      → get_elem? s.workers i ≡ some w
      → Sound s
      → IfSome Sound (take_by i w s)
  unfolding take_by
  take_by-Sound i idle s e h =
      at_job Sound s.queue _ (λ job jobs q. do_job-Sound i job jobs s e q h)
  take_by-Sound i (busy a) s e h = tt
  take_by-Sound i ended s e h = tt
  take_by-Sound i (leaving v) s e h = tt
  take_by-Sound i exited s e h = tt

  done_by-Sound :
      (i : ℕ) (w : Worker A) (s : Summer A)
      → get_elem? s.workers i ≡ some w
      → Sound s
      → IfSome Sound (done_by i w s)
  unfolding done_by count
  done_by-Sound i (busy a) s e h = record {
    fifo = h.fifo;
    gone = omega (arith, sum-set is_exited s.workers i (busy a) idle e, h.gone);
    jobs = omega (
      arith,
      count-append p s.done (a ∷ []),
      sum-set (is_busy p) s.workers i (busy a) idle e,
      h.jobs,
    );
    threads = length-set s.workers i idle ∙ h.threads;
    kinds = omega (arith, sum-set is_foreign s.workers i (busy a) idle e, h.kinds);
  }
  done_by-Sound i idle s e h = tt
  done_by-Sound i ended s e h = tt
  done_by-Sound i (leaving v) s e h = tt
  done_by-Sound i exited s e h = tt

  step-Sound : (e : SummerEvent A) (s : Summer A) → Sound s → IfSome Sound (summer_step e s)
  unfolding summer_step
  step-Sound (SummerEvent.push job) s h = push-Sound job s h
  step-Sound (SummerEvent.take_job i) s h =
      IfSome-at Sound (get_elem? s.workers i) _ (λ w e. take_by-Sound i w s e h)
  step-Sound (SummerEvent.job_done i) s h =
      IfSome-at Sound (get_elem? s.workers i) _ (λ w e. done_by-Sound i w s e h)

  run-Sound : (es : List (SummerEvent A)) (s : Summer A) → Sound s → IfSome Sound (summer_run es s)
  unfolding summer_run
  run-Sound [] s h = h
  run-Sound (e ∷ es) s h =
      IfSome-bind Sound Sound (summer_step e s) _ (step-Sound e s h) (λ t k. run-Sound es t k)

  start-Sound : Sound (new_summer n)
  unfolding new_summer works exits count
  start-Sound = record {
    fifo = refl;
    gone = sym (sum-replicate is_exited n 0 refl refl);
    jobs = omega (arith, sum-replicate (is_busy p) n 0 refl refl);
    threads = length-replicate n idle;
    kinds = sum-replicate is_foreign n 0 refl refl;
  }

module _ {A : Type 0} where
  run_start-Sound :
      (p : A → Bool) (n : ℕ) (es : List (SummerEvent A)) {s : Summer A}
      → summer_run es (new_summer n) ≡ some s
      → Sound p n s
  run_start-Sound p n es e =
      IfSome-get (Sound p n) (run-Sound p n es (new_summer n) (start-Sound p n)) e

  -- Let the jobs `jobs` be pushed and then ExitWork be called, with a thread at least, in any order with
  -- the steps of the threads. When JoinAll comes back, since every thread has ended, no job is left in
  -- the queue and each job was done, as often as it was pushed.
  pub exit_work_drains :
      (p : A → Bool) (n : ℕ) (jobs : List A) (es : List (SummerEvent A)) (s : Summer A)
      → 0 < n
      → summer_run es (new_summer n) ≡ some s
      → s.pushed ≡ map work jobs ++ exit_work n
      → sum is_exited s.workers ≡ n
      → (s.queue ≡ []) × (count p s.done ≡ count p jobs)
  unfolding exit_work
  exit_work_drains p n jobs es s pos e pushed all =
      let h = run_start-Sound p n es e in
      let split : map work jobs ++ replicate n exit_thread ≡ s.taken ++ s.queue =
        sym pushed ∙ h.fifo in
      let none_left : exits s.queue ≡ 0 =
        omega (arith, ap exits split, exits_of jobs n, exits-append s.taken s.queue, h.gone, all) in
      let empty = behind_exits jobs n s.taken s.queue pos split none_left in
      let taken : works s.taken ≡ jobs =
        ap works (sym (append-nil s.taken) ∙ ap (λ q. s.taken ++ q) (sym empty) ∙ sym split)
        ∙ works_of jobs n in
      (empty, omega (arith, ap (count p) taken, h.jobs, busy_or_exited p s.workers, all, h.threads))

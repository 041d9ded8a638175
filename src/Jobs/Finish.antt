-- ===== src/Jobs/Finish.antt =====
-- MultiThreadJobMng: what Finish tells, although the threads take themselves off the count without a
-- mutex.
use huicpp.Base.{
  ℕ, zero, suc, ◌+◌, ◌<◌, ◌≤◌, ◌≡◌, refl, ap, ◌∙◌, arith, List, [], ◌∷◌, ◌++◌, append_assoc,
  append-nil, replicate, set, get_elem?, Bool, true, false, ◌&&◌, ◌==◌, some,
}
use huicpp.Base.Options.{IfSome, IfSome-get, IfSome-at, IfSome-bind}
use huicpp.Jobs.{
  Worker, idle, busy, ended, leaving, exited, JobMng, MngEvent, new_mng, push_job, get_job, mng_job,
  mng_take, mng_done, mng_read, mng_write, mng_step, mng_run, all_finished, finish,
}
use huicpp.Jobs.Tally.{
  sum, sum-set, sum-replicate, count, count-append, is_busy, is_working, busy-le-working,
}

module _ {A : Type 0} where
  -- Each thread that is about to write the count has read more than `k`.
  Above : ℕ → List (Worker A) → Type 0
  Above k [] = Unit
  Above k (leaving v ∷ ws) = (k < v) × Above k ws
  Above k (idle ∷ ws) = Above k ws
  Above k (busy a ∷ ws) = Above k ws
  Above k (ended ∷ ws) = Above k ws
  Above k (exited ∷ ws) = Above k ws

  Above-weaken : (k m : ℕ) (ws : List (Worker A)) → k ≤ m → Above m ws → Above k ws
  unfolding Above
  Above-weaken k m [] h a = tt
  Above-weaken k m (leaving v ∷ ws) h (l, a) = (omega (arith, h, l), Above-weaken k m ws h a)
  Above-weaken k m (idle ∷ ws) h a = Above-weaken k m ws h a
  Above-weaken k m (busy x ∷ ws) h a = Above-weaken k m ws h a
  Above-weaken k m (ended ∷ ws) h a = Above-weaken k m ws h a
  Above-weaken k m (exited ∷ ws) h a = Above-weaken k m ws h a

  -- One thread, and the others.
  Above-cons :
      (k : ℕ) (w : Worker A) (ws : List (Worker A))
      → Above k (w ∷ [])
      → Above k ws
      → Above k (w ∷ ws)
  unfolding Above
  Above-cons k (leaving v) ws (l, t) a = (l, a)
  Above-cons k idle ws h a = a
  Above-cons k (busy x) ws h a = a
  Above-cons k ended ws h a = a
  Above-cons k exited ws h a = a

  Above-uncons :
      (k : ℕ) (w : Worker A) (ws : List (Worker A))
      → Above k (w ∷ ws)
      → Above k (w ∷ []) × Above k ws
  unfolding Above
  Above-uncons k (leaving v) ws (l, a) = ((l, tt), a)
  Above-uncons k idle ws a = (tt, a)
  Above-uncons k (busy x) ws a = (tt, a)
  Above-uncons k ended ws a = (tt, a)
  Above-uncons k exited ws a = (tt, a)

  Above-set :
      (k : ℕ) (ws : List (Worker A)) (i : ℕ) (w : Worker A)
      → Above k ws
      → Above k (w ∷ [])
      → Above k (set ws i w)
  Above-set k [] i w a h = a
  Above-set k (u ∷ ws) zero w a h = Above-cons k w ws h (Above-uncons k u ws a).1
  Above-set k (u ∷ ws) (suc i) w a h =
      let (b, c) = Above-uncons k u ws a in Above-cons k u (set ws i w) b (Above-set k ws i w c h)

  Above-get :
      (k : ℕ) (ws : List (Worker A)) (i v : ℕ)
      → Above k ws
      → get_elem? ws i ≡ some (leaving v)
      → k < v
  Above-get k [] i v a e = absurd (ground (arith, e))
  Above-get k (u ∷ ws) zero v a e =
      let b : u ≡ leaving v = ground (arith, e) in
      (unfold Above in (rw b at (Above-uncons k u ws a).0).0)
  Above-get k (u ∷ ws) (suc i) v a e = Above-get k ws i v (Above-uncons k u ws a).1 e

Above-replicate : (A : Type 0) (k n : ℕ) → Above {A = A} k (replicate n idle)
unfolding Above
Above-replicate A k zero = tt
Above-replicate A k (suc n) = Above-replicate A k n

working_replicate : (A : Type 0) (n : ℕ) → sum {A = A} is_working (replicate n idle) ≡ n
unfolding sum
working_replicate A zero = refl
working_replicate A (suc n) = omega (arith, working_replicate A n)

module _ {A : Type 0} (p : A → Bool) where
  record Sound (s : JobMng A) : Type 0 where
    pub fifo : s.pushed ≡ s.taken ++ s.jobs
    pub tally : count p s.taken ≡ count p s.done + sum (is_busy p) s.workers
    pub high : sum is_working s.workers ≤ s.n_working
    pub leavers : Above (sum is_working s.workers) s.workers

  mng_job-Sound :
      (i : ℕ) (jobs : List A) (s : JobMng A)
      → get_elem? s.workers i ≡ some idle
      → s.jobs ≡ jobs
      → Sound s
      → Sound (mng_job i (get_job jobs) s)
  unfolding mng_job get_job count
  mng_job-Sound i [] s e q h =
      let k = sum-set is_working s.workers i idle ended e in
      record {
        fifo = rw (h.fifo, q) refl;
        tally = omega (arith, sum-set (is_busy p) s.workers i idle ended e, h.tally);
        high = omega (arith, k, h.high);
        leavers =
            Above-set _ s.workers i ended (Above-weaken _ _ s.workers (omega (arith, k)) h.leavers)
              (unfold Above in tt);
      }
  mng_job-Sound i (a ∷ jobs) s e q h =
      let k = sum-set is_working s.workers i idle (busy a) e in
      record {
        fifo = rw (h.fifo, q, append_assoc) refl;
        tally = omega (
          arith,
          count-append p s.taken (a ∷ []),
          sum-set (is_busy p) s.workers i idle (busy a) e,
          h.tally,
        );
        high = omega (arith, k, h.high);
        leavers =
            Above-set _ s.workers i (busy a)
              (Above-weaken _ _ s.workers (omega (arith, k)) h.leavers) (unfold Above in tt);
      }

  mng_take-Sound :
      (i : ℕ) (w : Worker A) (s : JobMng A)
      → get_elem? s.workers i ≡ some w
      → Sound s
      → IfSome Sound (mng_take i w s)
  unfolding mng_take
  mng_take-Sound i idle s e h = mng_job-Sound i s.jobs s e refl h
  mng_take-Sound i (busy a) s e h = tt
  mng_take-Sound i ended s e h = tt
  mng_take-Sound i (leaving v) s e h = tt
  mng_take-Sound i exited s e h = tt

  mng_done-Sound :
      (i : ℕ) (w : Worker A) (s : JobMng A)
      → get_elem? s.workers i ≡ some w
      → Sound s
      → IfSome Sound (mng_done i w s)
  unfolding mng_done count
  mng_done-Sound i idle s e h = tt
  mng_done-Sound i (busy a) s e h =
      let k = sum-set is_working s.workers i (busy a) idle e in
      record {
        fifo = h.fifo;
        tally = omega (
          arith,
          count-append p s.done (a ∷ []),
          sum-set (is_busy p) s.workers i (busy a) idle e,
          h.tally,
        );
        high = omega (arith, k, h.high);
        leavers =
            Above-set _ s.workers i idle (Above-weaken _ _ s.workers (omega (arith, k)) h.leavers)
              (unfold Above in tt);
      }
  mng_done-Sound i ended s e h = tt
  mng_done-Sound i (leaving v) s e h = tt
  mng_done-Sound i exited s e h = tt

  mng_read-Sound :
      (i : ℕ) (w : Worker A) (s : JobMng A)
      → get_elem? s.workers i ≡ some w
      → Sound s
      → IfSome Sound (mng_read i w s)
  unfolding mng_read
  mng_read-Sound i idle s e h = tt
  mng_read-Sound i (busy a) s e h = tt
  mng_read-Sound i ended s e h =
      let k = sum-set is_working s.workers i ended (leaving s.n_working) e in
      record {
        fifo = h.fifo;
        tally =
            omega (arith, sum-set (is_busy p) s.workers i ended (leaving s.n_working) e, h.tally);
        high = omega (arith, k, h.high);
        leavers =
            Above-set _ s.workers i (leaving s.n_working)
              (Above-weaken _ _ s.workers (omega (arith, k)) h.leavers)
              (unfold Above in (omega (arith, k, h.high), tt));
      }
  mng_read-Sound i (leaving v) s e h = tt
  mng_read-Sound i exited s e h = tt

  mng_write-Sound :
      (i : ℕ) (w : Worker A) (s : JobMng A)
      → get_elem? s.workers i ≡ some w
      → Sound s
      → IfSome Sound (mng_write i w s)
  unfolding mng_write
  mng_write-Sound i idle s e h = tt
  mng_write-Sound i (busy a) s e h = tt
  mng_write-Sound i ended s e h = tt
  mng_write-Sound i (leaving v) s e h =
      let k = sum-set is_working s.workers i (leaving v) exited e in
      record {
        fifo = h.fifo;
        tally = omega (arith, sum-set (is_busy p) s.workers i (leaving v) exited e, h.tally);
        high = omega (arith, k, h.high, Above-get _ s.workers i v h.leavers e);
        leavers =
            Above-set _ s.workers i exited (Above-weaken _ _ s.workers (omega (arith, k)) h.leavers)
              (unfold Above in tt);
      }
  mng_write-Sound i exited s e h = tt

  step-Sound : (e : MngEvent A) (s : JobMng A) → Sound s → IfSome Sound (mng_step e s)
  unfolding mng_step push_job
  step-Sound (MngEvent.push a) s h = record {
    fifo = rw (h.fifo, append_assoc) refl;
    tally = h.tally;
    high = h.high;
    leavers = h.leavers;
  }
  step-Sound (MngEvent.take_job i) s h =
      IfSome-at Sound (get_elem? s.workers i) _ (λ w e. mng_take-Sound i w s e h)
  step-Sound (MngEvent.job_done i) s h =
      IfSome-at Sound (get_elem? s.workers i) _ (λ w e. mng_done-Sound i w s e h)
  step-Sound (MngEvent.read_count i) s h =
      IfSome-at Sound (get_elem? s.workers i) _ (λ w e. mng_read-Sound i w s e h)
  step-Sound (MngEvent.write_count i) s h =
      IfSome-at Sound (get_elem? s.workers i) _ (λ w e. mng_write-Sound i w s e h)

  run-Sound : (es : List (MngEvent A)) (s : JobMng A) → Sound s → IfSome Sound (mng_run es s)
  unfolding mng_run
  run-Sound [] s h = h
  run-Sound (e ∷ es) s h =
      IfSome-bind Sound Sound (mng_step e s) _ (step-Sound e s h) (λ t k. run-Sound es t k)

  start-Sound : (n : ℕ) → Sound (new_mng n)
  unfolding new_mng count
  start-Sound n = record {
    fifo = refl;
    tally = omega (arith, sum-replicate (is_busy p) n 0 refl refl);
    high = omega (arith, working_replicate A n);
    leavers = Above-replicate A _ n;
  }

  all_finished-empty : (jobs : List A) → all_finished jobs ≡ true → jobs ≡ []
  unfolding all_finished
  all_finished-empty [] e = refl
  all_finished-empty (a ∷ jobs) e = absurd (ground (arith, e))

  -- In any order of the events, even where two threads read the same count before they write it: when
  -- Finish says yes, every job that was pushed has been done, as often as it was pushed, and no thread
  -- does a job.
  pub finish_lem :
      (n : ℕ) (es : List (MngEvent A)) (s : JobMng A)
      → mng_run es (new_mng n) ≡ some s
      → finish s ≡ true
      → (count p s.done ≡ count p s.pushed) × (sum (is_busy p) s.workers ≡ 0)
  unfolding finish
  finish_lem n es s e f =
      let h = IfSome-get Sound (run-Sound es (new_mng n) (start-Sound n)) e in
      let (z, empty) = both (s.n_working == 0) (all_finished s.jobs) f in
      let free : sum (is_busy p) s.workers ≡ 0 =
        omega (arith, busy-le-working p s.workers, h.high, zero_of s.n_working z) in
      let all : s.pushed ≡ s.taken =
        h.fifo ∙ ap (λ j. s.taken ++ j) (all_finished-empty s.jobs empty) ∙ append-nil s.taken in
      (omega (arith, ap (count p) all, h.tally, free), free)
    where
      both : (a b : Bool) → (a && b) ≡ true → (a ≡ true) × (b ≡ true)
      both true b e = (refl, e)
      both false b e = absurd (ground (arith, e))

      zero_of : (k : ℕ) → (k == 0) ≡ true → k ≡ 0
      zero_of k e = ground (arith, e)

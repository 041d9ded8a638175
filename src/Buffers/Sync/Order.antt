-- ===== src/Buffers/Sync/Order.antt =====
-- The items of an HSyncBuffer come out in the order in which they went in, and no signal is lost.
use huicpp.Base.{
  ℕ, zero, suc, ◌+◌, ◌-◌, ◌≤◌, ◌<◌, ◌≡◌, refl, ap, arith, List, [], ◌∷◌, ◌++◌, length,
  length-append, append_assoc, append-nil, Bool-cases, inl, inr, ◌⊎◌, ltb, some,
}
use huicpp.Base.Options.{IfSome, IfSome-get, IfSome-bind}
use huicpp.Buffers.Sync.{
  Monitor, Event, push, signal, pop, pop_all, resume_pop, resume_pop_all, spurious, start_monitor,
  push_data, wake, signal_one, pop_data, pop_all_data, reacquire, sync_step, sync_run,
}

module _ {A : Type 0} where
  -- If threads wait, then for each item a thread is awake or about to signal.
  pub record Sound (m : Monitor A) : Type 0 where
    pub fifo : m.pushed ≡ m.taken ++ m.items
    pub covered : 0 < m.waiting → length m.items ≤ m.awake + m.pending

  push_data-Sound : (x : A) (m : Monitor A) → Sound m → Sound (push_data x m)
  unfolding push_data
  push_data-Sound x m s = record {
    fifo = rw (s.fifo, append_assoc) refl;
    covered = λ h. let c = s.covered h in omega (arith, c, length-append m.items (x ∷ []));
  }

  wake-Sound :
      (m : Monitor A)
      → m.pushed ≡ m.taken ++ m.items
      → (0 < m.waiting → length m.items ≤ suc (m.awake + m.pending))
      → Sound (wake m)
  unfolding wake
  wake-Sound m f c = elim (Bool-cases (ltb 0 m.waiting)) [
    | inl y ↦
        rw y (record { fifo = f; covered = λ h. let k = c (ground (arith, y)) in omega (arith, k) })
    | inr n ↦ rw n (record { fifo = f; covered = λ h. absurd (ground (arith, n, h)) })
  ]

  pop_data-Sound :
      (items : List A) (m : Monitor A)
      → m.items ≡ items
      → m.pushed ≡ m.taken ++ items
      → (0 < m.waiting → length items ≤ suc (m.awake + m.pending))
      → Sound (pop_data items m)
  unfolding pop_data
  pop_data-Sound [] m e f c = record { fifo = rw e f; covered = λ h. omega (arith, ap length e) }
  pop_data-Sound (x ∷ xs) m e f c = record {
    fifo = rw (f, append_assoc) refl;
    covered = λ h. let k = c h in omega (arith, k);
  }

  pop_all_data-Sound :
      (items : List A) (m : Monitor A)
      → m.items ≡ items
      → m.pushed ≡ m.taken ++ items
      → Sound (pop_all_data items m)
  unfolding pop_all_data
  pop_all_data-Sound [] m e f = record { fifo = rw e f; covered = λ h. omega (arith, ap length e) }
  pop_all_data-Sound (x ∷ xs) m e f = record {
    fifo = rw (f, append-nil) refl;
    covered = λ h. omega arith;
  }

  signal_one-Sound : (m : Monitor A) → Sound m → IfSome Sound (signal_one m)
  unfolding signal_one
  signal_one-Sound m s = elim (Bool-cases (ltb 0 m.pending)) [
    | inl y ↦ rw y (
        wake-Sound (record m { pending = m.pending - 1 }) s.fifo
          (λ h. let k = s.covered h in ground (arith, k, y)))
    | inr n ↦ rw n tt
  ]

  -- What holds when a thread has the mutex again.
  abbrev Locked : Monitor A → Type 0
  Locked m =
      (m.pushed ≡ m.taken ++ m.items) × (0 < m.waiting → length m.items ≤ suc (m.awake + m.pending))

  reacquire-Locked : (m : Monitor A) → Sound m → IfSome Locked (reacquire m)
  unfolding reacquire
  reacquire-Locked m s = elim (Bool-cases (ltb 0 m.awake)) [
    | inl y ↦ rw y (s.fifo, λ h. let k = s.covered h in ground (arith, k, y))
    | inr n ↦ rw n tt
  ]

  Sound-Locked : {m : Monitor A} → Sound m → Locked m
  Sound-Locked s = (s.fifo, λ h. let k = s.covered h in omega (arith, k))

  sync_step-Sound : (e : Event A) (m : Monitor A) → Sound m → IfSome Sound (sync_step e m)
  unfolding sync_step
  sync_step-Sound (push x) m s = push_data-Sound x m s
  sync_step-Sound signal m s = signal_one-Sound m s
  sync_step-Sound pop m s = pop_data-Sound m.items m refl s.fifo (Sound-Locked s).1
  sync_step-Sound pop_all m s = pop_all_data-Sound m.items m refl s.fifo
  sync_step-Sound resume_pop m s =
      IfSome-bind Locked Sound (reacquire m) _ (reacquire-Locked m s)
        (λ k (f, c). pop_data-Sound k.items k refl f c)
  sync_step-Sound resume_pop_all m s =
      IfSome-bind Locked Sound (reacquire m) _ (reacquire-Locked m s)
        (λ k (f, c). pop_all_data-Sound k.items k refl f)
  sync_step-Sound spurious m s = wake-Sound m s.fifo (Sound-Locked s).1

  sync_run-Sound : (es : List (Event A)) (m : Monitor A) → Sound m → IfSome Sound (sync_run es m)
  unfolding sync_run
  sync_run-Sound [] m s = s
  sync_run-Sound (e ∷ es) m s =
      IfSome-bind Sound Sound (sync_step e m) _ (sync_step-Sound e m s)
        (λ k t. sync_run-Sound es k t)

  run_start-Sound :
      (es : List (Event A)) {m : Monitor A} → sync_run es start_monitor ≡ some m → Sound m
  unfolding start_monitor
  run_start-Sound es e =
      IfSome-get Sound
        (sync_run-Sound es start_monitor (record { fifo = refl; covered = λ h. omega arith })) e

  -- Whatever the order of the events of PushData, PopData(HMEM&) and PopAllData, what the last two have
  -- given is what PushData took first, in its order, and the rest is in the queue. It is not about
  -- PopData(ptr, len), which drops an item when `len` is too small for it.
  pub sync_run-fifo :
      (es : List (Event A)) (m : Monitor A)
      → sync_run es start_monitor ≡ some m
      → m.pushed ≡ m.taken ++ m.items
  sync_run-fifo es m e = (run_start-Sound es e).fifo

  -- Whatever the order of the events, while a thread waits there are at least as many threads that
  -- have been woken or are about to call Signal as there are items. So no thread is left waiting with
  -- an item in the queue when none of these is left.
  pub no_lost_wakeup :
      (es : List (Event A)) (m : Monitor A)
      → sync_run es start_monitor ≡ some m
      → (0 < m.waiting → length m.items ≤ m.awake + m.pending)
        × (m.awake ≡ 0 → m.pending ≡ 0 → (m.waiting ≡ 0) ⊎ (m.items ≡ []))
  no_lost_wakeup es m e =
      let s = run_start-Sound es e in
      (
        s.covered,
        λ a p. asleep m.waiting m.items (λ h. let c = s.covered h in omega (arith, c, a, p)),
      )
    where
      asleep : (w : ℕ) (items : List A) → (0 < w → length items ≤ 0) → (w ≡ 0) ⊎ (items ≡ [])
      asleep zero items h = inl refl
      asleep (suc w) [] h = inr refl
      asleep (suc w) (x ∷ xs) h = let c = h (omega arith) in absurd (omega (arith, c))

-- ===== src/Jobs/Tally.antt =====
-- Sums over the threads, and counts of jobs: `p` says which jobs are counted.
use huicpp.Base.{
  ℕ, zero, ◌≤◌, ◌<◌, suc, ◌+◌, ◌≡◌, refl, ap, ◌∙◌, arith, List, [], ◌∷◌, ◌++◌, length, map,
  replicate, set, get_elem?, Bool, if◌then◌else◌, some,
}
use mathlib.Core.Path.{subst}
use huicpp.Jobs.{Job, Worker, work, exit_thread, idle, busy, ended, leaving, exited}

module _ {A : Type 0} where
  unfoldable pub sum : (Worker A → ℕ) → List (Worker A) → ℕ
  sum f [] = 0
  sum f (w ∷ ws) = f w + sum f ws

  pub sum-set :
      (f : Worker A → ℕ) (ws : List (Worker A)) (i : ℕ) (w v : Worker A)
      → get_elem? ws i ≡ some w
      → sum f (set ws i v) + f w ≡ sum f ws + f v
  unfolding sum
  sum-set f [] i w v e = absurd (ground (arith, e))
  sum-set f (u ∷ ws) zero w v e = let k : u ≡ w = ground (arith, e) in rw k (omega arith)
  sum-set f (u ∷ ws) (suc i) w v e = omega (arith, sum-set f ws i w v e)

  pub sum-replicate :
      (f : Worker A → ℕ) (n k : ℕ) → f idle ≡ k → k ≡ 0 → sum f (replicate n idle) ≡ 0
  unfolding sum
  sum-replicate f zero k e z = refl
  sum-replicate f (suc n) k e z = omega (arith, e, z, sum-replicate f n k e z)

  unfoldable pub count : (A → Bool) → List A → ℕ
  count p [] = 0
  count p (x ∷ xs) = (if p x then 1 else 0) + count p xs

  pub count-append : (p : A → Bool) (xs ys : List A) → count p (xs ++ ys) ≡ count p xs + count p ys
  unfolding count
  count-append p [] ys = omega arith
  count-append p (x ∷ xs) ys = omega (arith, count-append p xs ys)

  -- The jobs of these that are to be done.
  unfoldable pub works : List (Job A) → List A
  works [] = []
  works (work a ∷ js) = a ∷ works js
  works (exit_thread ∷ js) = works js

  unfoldable pub exits : List (Job A) → ℕ
  exits [] = 0
  exits (work a ∷ js) = exits js
  exits (exit_thread ∷ js) = suc (exits js)

  pub exits-append : (js ks : List (Job A)) → exits (js ++ ks) ≡ exits js + exits ks
  unfolding exits
  exits-append [] ks = omega arith
  exits-append (work a ∷ js) ks = exits-append js ks
  exits-append (exit_thread ∷ js) ks = omega (arith, exits-append js ks)

  works-append : (js ks : List (Job A)) → works (js ++ ks) ≡ works js ++ works ks
  unfolding works
  works-append [] ks = refl
  works-append (work a ∷ js) ks = ap (λ l. a ∷ l) (works-append js ks)
  works-append (exit_thread ∷ js) ks = works-append js ks

  pub count-works :
      (p : A → Bool) (js ks : List (Job A))
      → count p (works (js ++ ks)) ≡ count p (works js) + count p (works ks)
  count-works p js ks = ap (count p) (works-append js ks) ∙ count-append p (works js) (works ks)

  abbrev pub is_exited : Worker A → ℕ
  is_exited exited = 1
  is_exited _ = 0

  -- The job that a thread does, if it is counted.
  abbrev pub is_busy : (A → Bool) → Worker A → ℕ
  is_busy p (busy a) = if p a then 1 else 0
  is_busy p _ = 0

  -- A thread in a state that SummerWorkerMng does not have.
  abbrev pub is_foreign : Worker A → ℕ
  is_foreign ended = 1
  is_foreign (leaving v) = 1
  is_foreign _ = 0

  -- A thread that has not read the count to leave.
  abbrev pub is_working : Worker A → ℕ
  is_working idle = 1
  is_working (busy a) = 1
  is_working ended = 1
  is_working _ = 0

  one_state : (p : A → Bool) (w : Worker A) → is_busy p w + is_exited w ≤ 1
  one_state p idle = omega arith
  one_state p (busy a) = ground arith
  one_state p ended = omega arith
  one_state p (leaving v) = omega arith
  one_state p exited = omega arith

  pub busy_or_exited :
      (p : A → Bool) (ws : List (Worker A)) → sum (is_busy p) ws + sum is_exited ws ≤ length ws
  unfolding sum
  busy_or_exited p [] = omega arith
  busy_or_exited p (w ∷ ws) = omega (arith, one_state p w, busy_or_exited p ws)

  busy_works : (p : A → Bool) (w : Worker A) → is_busy p w ≤ is_working w
  busy_works p idle = omega arith
  busy_works p (busy a) = ground arith
  busy_works p ended = omega arith
  busy_works p (leaving v) = omega arith
  busy_works p exited = omega arith

  pub busy-le-working :
      (p : A → Bool) (ws : List (Worker A)) → sum (is_busy p) ws ≤ sum is_working ws
  unfolding sum
  busy-le-working p [] = omega arith
  busy-le-working p (w ∷ ws) = omega (arith, busy_works p w, busy-le-working p ws)

  pub works_of : (xs : List A) (n : ℕ) → works (map work xs ++ replicate n exit_thread) ≡ xs
  unfolding works
  works_of [] zero = refl
  works_of [] (suc n) = works_of [] n
  works_of (x ∷ xs) n = ap (λ l. x ∷ l) (works_of xs n)

  pub exits_of : (xs : List A) (n : ℕ) → exits (map work xs ++ replicate n exit_thread) ≡ n
  unfolding exits
  exits_of [] zero = refl
  exits_of [] (suc n) = ap suc (exits_of [] n)
  exits_of (x ∷ xs) n = exits_of xs n

  -- Each job has an exit at its place or behind it.
  Ends : List (Job A) → Type 0
  Ends [] = Unit
  Ends (j ∷ js) = (0 < exits (j ∷ js)) × Ends js

  Ends-of : (xs : List A) (n : ℕ) → 0 < n → Ends (map work xs ++ replicate n exit_thread)
  unfolding Ends exits
  Ends-of [] zero h = tt
  Ends-of [] (suc zero) h = (omega arith, tt)
  Ends-of [] (suc (suc n)) h = (omega arith, Ends-of [] (suc n) (omega arith))
  Ends-of (x ∷ xs) n h = (omega (arith, h, exits_of xs n), Ends-of xs n h)

  Ends-tail : (js ks : List (Job A)) → Ends (js ++ ks) → exits ks ≡ 0 → ks ≡ []
  unfolding Ends
  Ends-tail [] [] h e = refl
  Ends-tail [] (k ∷ ks) (h, t) e = absurd (omega (arith, h, e))
  Ends-tail (j ∷ js) ks (h, t) e = Ends-tail js ks t e

  -- What is left behind the last exit.
  pub behind_exits :
      (xs : List A) (n : ℕ) (js ks : List (Job A))
      → 0 < n
      → map work xs ++ replicate n exit_thread ≡ js ++ ks
      → exits ks ≡ 0
      → ks ≡ []
  behind_exits xs n js ks h e z = Ends-tail js ks (subst Ends e (Ends-of xs n h)) z

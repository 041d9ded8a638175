-- ===== src/Singleton/Once.antt =====
-- The holder makes one object at most, and everyone gets it.
use mathlib.Core.Path.{subst}
use huicpp.Base.{
  ℕ, ◌≤◌, ◌≡◌, ◌≢◌, refl, sym, ap, ◌∙◌, arith, List, [], ◌∷◌, ◌++◌, length, length-append, ◌==◌,
  Bool-cases, Option, Option-cases, inl, inr, ◌⊎◌, none, some,
}
use huicpp.Base.Options.{IfSome, IfSome-get, IfSome-bind, some-Injective}
use huicpp.Singleton.{
  Phase, start, entry, waiting, locked, making, built, found, finished, failed, Holder, Event,
  load_cache, load_first, acquire, load_second, make, make_throws, store_ptr, store_cache, update,
  new_holder, go, loaded, on_load_cache, on_load_first, lock_by, on_acquire, second_test,
  on_load_second, on_make, on_make_throws, on_store_ptr, on_store_cache, holder_step, holder_run,
}

-- What holds of the thread `i` in a phase.
abbrev Fits : Option ℕ → Option ℕ → List ℕ → ℕ → Phase → Type 0
Fits ptr lock made i (start u) = Unit
Fits ptr lock made i (entry u) = Unit
Fits ptr lock made i (waiting u) = Unit
Fits ptr lock made i (locked u) = (lock ≡ some i) × (ptr ≡ none → made ≡ [])
Fits ptr lock made i (making u) = (lock ≡ some i) × (ptr ≡ none) × (made ≡ [])
Fits ptr lock made i (built u v) = (lock ≡ some i) × (ptr ≡ none) × (made ≡ v ∷ [])
Fits ptr lock made i (found u v) = ptr ≡ some v
Fits ptr lock made i (finished v) = ptr ≡ some v
Fits ptr lock made i failed = Unit

record Sound (s : Holder) : Type 0 where
  pub cached : (u v : ℕ) → s.caches u ≡ some v → s.ptr ≡ some v
  pub phases : (i : ℕ) → Fits s.ptr s.lock s.made i (s.threads i)
  pub one : (v : ℕ) → s.ptr ≡ some v → s.made ≡ v ∷ []
  pub nothing : s.ptr ≡ none → s.lock ≡ none → s.made ≡ []
  pub few : length s.made ≤ 1

-- A thread that does not hold the mutex does not mind what the others do.
Fits-change :
    (ptr lock : Option ℕ) (made : List ℕ) (ptr' lock' : Option ℕ) (made' : List ℕ) (j : ℕ)
    (phase : Phase)
    → lock ≢ some j
    → ((v : ℕ) → ptr ≡ some v → ptr' ≡ some v)
    → Fits ptr lock made j phase
    → Fits ptr' lock' made' j phase
Fits-change p l m p' l' m' j (locked u) f k h = absurd (f h.0)
Fits-change p l m p' l' m' j (making u) f k h = absurd (f h.0)
Fits-change p l m p' l' m' j (built u v) f k h = absurd (f h.0)
Fits-change p l m p' l' m' j (found u v) f k h = k v h
Fits-change p l m p' l' m' j (finished v) f k h = k v h
Fits-change p l m p' l' m' j _ f k h = tt

-- The phases after the thread `i` has gone on.
Fits-update :
    (ptr lock : Option ℕ) (made : List ℕ) (threads : ℕ → Phase) (i : ℕ) (phase : Phase)
    → Fits ptr lock made i phase
    → ((j : ℕ) → i ≢ j → Fits ptr lock made j (threads j))
    → (j : ℕ) → Fits ptr lock made j (update threads i phase j)
unfolding update
Fits-update ptr lock made threads i phase h k j = elim (Bool-cases (i == j)) [
  | inl y ↦
      (let e : i ≡ j = ground (arith, y) in rw y (subst (λ m. Fits ptr lock made m phase) e h))
  | inr n ↦ rw n (k j (λ e. absurd (ground (arith, n, e))))
]

update_cases :
    (f : ℕ → Option ℕ) (u : ℕ) (a : Option ℕ) (x : ℕ) {b : Option ℕ}
    → update f u a x ≡ b
    → (a ≡ b) ⊎ (f x ≡ b)
unfolding update
update_cases f u a x e = elim (Bool-cases (u == x)) [
  | inl y ↦ inl (rw y at e)
  | inr n ↦ inr (rw n at e)
]

not_owner : (lock : Option ℕ) (i j : ℕ) → lock ≡ some i → i ≢ j → lock ≢ some j
not_owner lock i j e n k = n (some-Injective (sym e ∙ k))

not_free : (lock : Option ℕ) (j : ℕ) → lock ≡ none → lock ≢ some j
not_free lock j e k = absurd (ground (arith, e, k))

-- A thread goes on.
module _ (i : ℕ) (s : Holder) (h : Sound s) where
  -- The entry stays as it is.
  move-Sound : (phase : Phase) → Fits s.ptr s.lock s.made i phase → Sound (go i phase s)
  unfolding go
  move-Sound phase f = record {
    cached = h.cached;
    phases = Fits-update s.ptr s.lock s.made s.threads i phase f (λ j n. h.phases j);
    one = h.one;
    nothing = h.nothing;
    few = h.few;
  }

  -- The others, when the thread that holds the mutex changes the entry.
  others :
      (ptr lock : Option ℕ) (made : List ℕ) (phase : Phase)
      → s.lock ≡ some i
      → ((v : ℕ) → s.ptr ≡ some v → ptr ≡ some v)
      → Fits ptr lock made i phase
      → (j : ℕ) → Fits ptr lock made j (update s.threads i phase j)
  others ptr lock made phase own k f = Fits-update ptr lock made s.threads i phase f (λ j n.
      Fits-change s.ptr s.lock s.made ptr lock made j (s.threads j) (not_owner s.lock i j own n) k
        (h.phases j))

  on_load_cache-Sound :
      (phase : Phase) → s.threads i ≡ phase → IfSome Sound (on_load_cache i phase s)
  unfolding on_load_cache
  on_load_cache-Sound (start u) e = elim (Option-cases (s.caches u)) [
    | inl n ↦ rw n (unfold loaded in move-Sound (entry u) tt)
    | inr (v, k) ↦ rw k (unfold loaded in move-Sound (finished v) (h.cached u v k))
  ]
  on_load_cache-Sound _ e = tt

  on_load_first-Sound :
      (phase : Phase) → s.threads i ≡ phase → IfSome Sound (on_load_first i phase s)
  unfolding on_load_first
  on_load_first-Sound (entry u) e = by_ptr s.ptr refl
    where
      by_ptr : (o : Option ℕ) → s.ptr ≡ o → Sound (go i (loaded (found u) (waiting u) o) s)
      by_ptr none k = unfold loaded in move-Sound (waiting u) tt
      by_ptr (some v) k = unfold loaded in move-Sound (found u v) k
  on_load_first-Sound _ e = tt

  lock_by-Sound : (u : ℕ) (o : Option ℕ) → s.lock ≡ o → IfSome Sound (lock_by i u o s)
  unfolding lock_by go
  lock_by-Sound u none k = record {
    cached = h.cached;
    phases =
        Fits-update s.ptr (some i) s.made s.threads i (locked u) (refl, λ n. h.nothing n k)
          (λ j n.
            Fits-change s.ptr s.lock s.made s.ptr (some i) s.made j (s.threads j)
              (not_free s.lock j k) (λ v q. q) (h.phases j));
    one = h.one;
    nothing = λ p q. absurd (ground (arith, q));
    few = h.few;
  }
  lock_by-Sound u (some j) k = tt

  on_acquire-Sound : (phase : Phase) → s.threads i ≡ phase → IfSome Sound (on_acquire i phase s)
  unfolding on_acquire
  on_acquire-Sound (waiting u) e = lock_by-Sound u s.lock refl
  on_acquire-Sound _ e = tt

  second_test-Sound :
      (u : ℕ) (o : Option ℕ)
      → s.ptr ≡ o
      → Fits s.ptr s.lock s.made i (locked u)
      → Sound (second_test i u o s)
  unfolding second_test
  second_test-Sound u none k (own, m) = move-Sound (making u) (own, k, m k)
  second_test-Sound u (some v) k (own, m) =
      unfold go in
      record {
        cached = h.cached;
        phases = others s.ptr none s.made (found u v) own (λ w q. q) k;
        one = h.one;
        nothing = λ p q. absurd (ground (arith, k, p));
        few = h.few;
      }

  on_load_second_test-Sound :
      (phase : Phase) → s.threads i ≡ phase → IfSome Sound (on_load_second i phase s)
  unfolding on_load_second
  on_load_second_test-Sound (locked u) e =
      second_test-Sound u s.ptr refl (subst (Fits s.ptr s.lock s.made i) e (h.phases i))
  on_load_second_test-Sound _ e = tt

  on_make-Sound : (v : ℕ) (phase : Phase) → s.threads i ≡ phase → IfSome Sound (on_make v i phase s)
  unfolding on_make go
  on_make-Sound v (making u) e =
      let (own, null, m) = subst (Fits s.ptr s.lock s.made i) e (h.phases i) in
      record {
        cached = h.cached;
        phases =
            others s.ptr s.lock (s.made ++ (v ∷ [])) (built u v) own (λ w q. q)
              (own, null, ap (λ l. l ++ (v ∷ [])) m);
        one = λ w q. absurd (ground (arith, null, q));
        nothing = λ p q. absurd (ground (arith, own, q));
        few = omega (arith, length-append s.made (v ∷ []), ap length m);
      }
  on_make-Sound v _ e = tt

  on_make_throws-Sound :
      (phase : Phase) → s.threads i ≡ phase → IfSome Sound (on_make_throws i phase s)
  unfolding on_make_throws go
  on_make_throws-Sound (making u) e =
      let (own, null, m) = subst (Fits s.ptr s.lock s.made i) e (h.phases i) in
      record {
        cached = h.cached;
        phases = others s.ptr none s.made failed own (λ w q. q) tt;
        one = h.one;
        nothing = λ p q. m;
        few = h.few;
      }
  on_make_throws-Sound _ e = tt

  on_store_ptr-Sound : (phase : Phase) → s.threads i ≡ phase → IfSome Sound (on_store_ptr i phase s)
  unfolding on_store_ptr go
  on_store_ptr-Sound (built u v) e =
      let (own, null, m) = subst (Fits s.ptr s.lock s.made i) e (h.phases i) in
      let fresh : (w : ℕ) → s.ptr ≡ some w → some v ≡ some w =
        λ w q. absurd (ground (arith, null, q)) in
      record {
        cached = λ x w q. fresh w (h.cached x w q);
        phases = others (some v) none s.made (found u v) own fresh refl;
        one = λ w q. m ∙ ap (λ x. x ∷ []) (some-Injective q);
        nothing = λ p q. absurd (ground (arith, p));
        few = h.few;
      }
  on_store_ptr-Sound _ e = tt

  on_store_cache-Sound :
      (phase : Phase) → s.threads i ≡ phase → IfSome Sound (on_store_cache i phase s)
  unfolding on_store_cache go
  on_store_cache-Sound (found u v) e =
      let k : s.ptr ≡ some v = subst (Fits s.ptr s.lock s.made i) e (h.phases i) in
      record {
        cached = stored u v k;
        phases = Fits-update s.ptr s.lock s.made s.threads i (finished v) k (λ j n. h.phases j);
        one = h.one;
        nothing = h.nothing;
        few = h.few;
      }
    where
      stored :
          (u v : ℕ)
          → s.ptr ≡ some v
          → (x w : ℕ) → update s.caches u (some v) x ≡ some w
          → s.ptr ≡ some w
      stored u v k x w q = elim (update_cases s.caches u (some v) x q) [
        | inl y ↦ k ∙ y
        | inr n ↦ h.cached x w n
      ]
  on_store_cache-Sound _ e = tt

step-Sound : (e : Event) (i : ℕ) (s : Holder) → Sound s → IfSome Sound (holder_step e i s)
unfolding holder_step
step-Sound load_cache i s h = on_load_cache-Sound i s h (s.threads i) refl
step-Sound load_first i s h = on_load_first-Sound i s h (s.threads i) refl
step-Sound acquire i s h = on_acquire-Sound i s h (s.threads i) refl
step-Sound load_second i s h = on_load_second_test-Sound i s h (s.threads i) refl
step-Sound (make v) i s h = on_make-Sound i s h v (s.threads i) refl
step-Sound make_throws i s h = on_make_throws-Sound i s h (s.threads i) refl
step-Sound store_ptr i s h = on_store_ptr-Sound i s h (s.threads i) refl
step-Sound store_cache i s h = on_store_cache-Sound i s h (s.threads i) refl

run-Sound : (es : List (Event × ℕ)) (s : Holder) → Sound s → IfSome Sound (holder_run es s)
unfolding holder_run
run-Sound [] s h = h
run-Sound ((e, i) ∷ es) s h =
    IfSome-bind Sound Sound (holder_step e i s) _ (step-Sound e i s h) (λ t k. run-Sound es t k)

start-Sound : (unit_of : ℕ → ℕ) → Sound (new_holder unit_of)
unfolding new_holder
start-Sound unit_of = record {
  cached = λ u v e. absurd (ground (arith, e));
  phases = λ i. tt;
  one = λ v e. absurd (ground (arith, e));
  nothing = λ p q. refl;
  few = omega arith;
}

-- However the threads of however many units meet, and also where `make` throws: `make` gives one object
-- at most, and a thread that comes to the end has this object, so that all of them have the same.
pub create_once :
    (unit_of : ℕ → ℕ) (es : List (Event × ℕ)) (s : Holder)
    → holder_run es (new_holder unit_of) ≡ some s
    → (length s.made ≤ 1) × ((i v : ℕ) → s.threads i ≡ finished v → s.made ≡ v ∷ [])
create_once unit_of es s e =
    let h = IfSome-get Sound (run-Sound es (new_holder unit_of) (start-Sound unit_of)) e in
    (h.few, λ i v f. h.one v (subst (Fits s.ptr s.lock s.made i) f (h.phases i)))

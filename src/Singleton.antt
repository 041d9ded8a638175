-- ===== src/Singleton.antt =====
-- StaticSingletonHolder of src/detail/lazysingleton (staticsingletonholder_in): the one object of a type
-- that is made when it is first asked for. Each type has its own entry in the map, so the model has one
-- entry; each compilation unit has its own Arg with a cache. An access of an atomic, and of the mutex, is
-- one event of a thread, and the events come in any order. An object is a number.
pub mod Once
mod Tests
use huicpp.Base.{ℕ, List, [], ◌∷◌, ◌++◌, Bool, true, false, if◌then◌else◌, ◌==◌, Option, none, some}
use huicpp.Base.Options.{◌>>=◌}

-- Where a thread is in `create`, with its unit: before the cache is read; before the pointer of the
-- entry is read; before the mutex is locked; with the mutex; in `make`; with the new object; with the
-- pointer of the entry; at the end. `failed`: `make` has thrown.
pub data Phase : Type 0 where
  start : ℕ → Phase
  entry : ℕ → Phase
  waiting : ℕ → Phase
  locked : ℕ → Phase
  making : ℕ → Phase
  built : ℕ → ℕ → Phase
  found : ℕ → ℕ → Phase
  finished : ℕ → Phase
  failed : Phase

-- `made` records the objects that `make` has given.
pub record Holder : Type 0 where
  pub ptr : Option ℕ
  pub lock : Option ℕ
  pub made : List ℕ
  pub caches : ℕ → Option ℕ
  pub threads : ℕ → Phase

pub data Event : Type 0 where
  load_cache : Event
  load_first : Event
  acquire : Event
  load_second : Event
  make : ℕ → Event
  make_throws : Event
  store_ptr : Event
  store_cache : Event

unfoldable pub update : {A : Type 0} → (ℕ → A) → ℕ → A → ℕ → A
update f i a j = if i == j then a else f j

-- The unit of each thread.
unfoldable pub new_holder : (ℕ → ℕ) → Holder
new_holder unit_of = record {
  ptr = none;
  lock = none;
  made = [];
  caches = λ u. none;
  threads = λ i. start (unit_of i);
}

unfoldable pub go : ℕ → Phase → Holder → Holder
unfolding update
go i phase s = record s { threads = update s.threads i phase }

-- What `load` gives, or the phase that follows a null pointer.
unfoldable pub loaded : (ℕ → Phase) → Phase → Option ℕ → Phase
loaded f phase none = phase
loaded f phase (some v) = f v

-- The test of the cache in StaticSingletonHolder::create.
unfoldable pub on_load_cache : ℕ → Phase → Holder → Option Holder
unfolding go loaded
on_load_cache i (start u) s = some (go i (loaded finished (entry u) (s.caches u)) s)
on_load_cache i _ s = none

-- The first test in Entry::create.
unfoldable pub on_load_first : ℕ → Phase → Holder → Option Holder
unfolding go loaded
on_load_first i (entry u) s = some (go i (loaded (found u) (waiting u) s.ptr) s)
on_load_first i _ s = none

unfoldable pub lock_by : ℕ → ℕ → Option ℕ → Holder → Option Holder
unfolding go
lock_by i u none s = some (go i (locked u) (record s { lock = some i }))
lock_by i u (some j) s = none

unfoldable pub on_acquire : ℕ → Phase → Holder → Option Holder
unfolding lock_by
on_acquire i (waiting u) s = lock_by i u s.lock s
on_acquire i _ s = none

-- The second test; a pointer that is there unlocks the mutex.
unfoldable pub second_test : ℕ → ℕ → Option ℕ → Holder → Holder
unfolding go
second_test i u none s = go i (making u) s
second_test i u (some v) s = go i (found u v) (record s { lock = none })

unfoldable pub on_load_second : ℕ → Phase → Holder → Option Holder
unfolding second_test
on_load_second i (locked u) s = some (second_test i u s.ptr s)
on_load_second i _ s = none

unfoldable pub on_make : ℕ → ℕ → Phase → Holder → Option Holder
unfolding go
on_make v i (making u) s = some (go i (built u v) (record s { made = s.made ++ (v ∷ []) }))
on_make v i _ s = none

unfoldable pub on_make_throws : ℕ → Phase → Holder → Option Holder
unfolding go
on_make_throws i (making u) s = some (go i failed (record s { lock = none }))
on_make_throws i _ s = none

-- The store, and the end of the scope of the lock.
unfoldable pub on_store_ptr : ℕ → Phase → Holder → Option Holder
unfolding go
on_store_ptr i (built u v) s = some (go i (found u v) (record s { ptr = some v; lock = none }))
on_store_ptr i _ s = none

unfoldable pub on_store_cache : ℕ → Phase → Holder → Option Holder
unfolding go update
on_store_cache i (found u v) s =
    some (go i (finished v) (record s { caches = update s.caches u (some v) }))
on_store_cache i _ s = none

unfoldable pub holder_step : Event → ℕ → Holder → Option Holder
unfolding on_load_cache on_load_first on_acquire on_load_second on_make on_make_throws on_store_ptr
    on_store_cache
holder_step load_cache i s = on_load_cache i (s.threads i) s
holder_step load_first i s = on_load_first i (s.threads i) s
holder_step acquire i s = on_acquire i (s.threads i) s
holder_step load_second i s = on_load_second i (s.threads i) s
holder_step (make v) i s = on_make v i (s.threads i) s
holder_step make_throws i s = on_make_throws i (s.threads i) s
holder_step store_ptr i s = on_store_ptr i (s.threads i) s
holder_step store_cache i s = on_store_cache i (s.threads i) s

-- `none` if the events cannot come in this order.
unfoldable pub holder_run : List (Event × ℕ) → Holder → Option Holder
unfolding holder_step ◌>>=◌
holder_run [] s = some s
holder_run ((e, i) ∷ es) s = do s' ← holder_step e i s; holder_run es s'

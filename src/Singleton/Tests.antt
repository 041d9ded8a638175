-- ===== src/Singleton/Tests.antt =====
-- Two threads of two units that both read the null pointer, and the theorem at their events.
use huicpp.Base.{ℕ, ◌≤◌, ◌≡◌, refl, List, [], ◌∷◌, length, Option, none, some}
use huicpp.Base.Options.{◌>>=◌}
use huicpp.Singleton.{
  finished, Holder, Event, load_cache, load_first, acquire, load_second, make, store_ptr,
  store_cache, update, new_holder, go, loaded, on_load_cache, on_load_first, lock_by, on_acquire,
  second_test, on_load_second, on_make, on_store_ptr, on_store_cache, holder_step, holder_run,
}
use huicpp.Singleton.Once.{create_once}

abbrev both_read_null : List (Event × ℕ)
both_read_null =
    (load_cache, 0)
    ∷ (load_cache, 1)
    ∷ (load_first, 0)
    ∷ (load_first, 1)
    ∷ (acquire, 1)
    ∷ (load_second, 1)
    ∷ (make 7, 1)
    ∷ (store_ptr, 1)
    ∷ (acquire, 0)
    ∷ (load_second, 0)
    ∷ (store_cache, 0)
    ∷ []

-- The state after these events.
met : Holder
unfolding holder_run holder_step on_load_cache on_load_first on_acquire lock_by on_load_second
    second_test on_make on_store_ptr on_store_cache go loaded update new_holder ◌>>=◌
met = after (holder_run both_read_null (new_holder (λ i. i)))
  where
    after : Option Holder → Holder
    after none = new_holder (λ i. i)
    after (some s) = s

meeting : holder_run both_read_null (new_holder (λ i. i)) ≡ some met
unfolding met
meeting = refl

create_once_example :
    (length met.made ≤ 1) × ((i v : ℕ) → met.threads i ≡ finished v → met.made ≡ v ∷ [])
create_once_example = create_once (λ i. i) both_read_null met meeting

the_other_made_it : met.threads 0 ≡ finished 7
unfolding met
the_other_made_it = refl

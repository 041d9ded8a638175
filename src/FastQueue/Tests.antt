-- ===== src/FastQueue/Tests.antt =====
-- Concrete runs of HSingleFastQueue, and the theorems at concrete inputs.
use huicpp.Base.{ℕ, ◌≡◌, refl, arith, List, [], ◌∷◌, ◌++◌, map, none, some, true, false}
use huicpp.FastQueue.{FastQueue, next_pos, push, object_at, is_full, guest_size, destructor}
use huicpp.FastQueue.Window.{IsQueue}
use huicpp.FastQueue.Concurrent.{Event, run, start}
use huicpp.FastQueue.Concurrent.Fifo.{run_fifo}

abbrev three_slots : FastQueue ℕ
three_slots = record { size = 3; slots = none ∷ none ∷ none ∷ []; read_index = 0; write_index = 0 }

-- One value, with the indices at the end of the memory.
abbrev at_end : FastQueue ℕ
at_end = record { size = 3; slots = some 8 ∷ none ∷ none ∷ []; read_index = 2; write_index = 0 }

three_slots-IsQueue : IsQueue three_slots []
three_slots-IsQueue = record {
  small = omega arith;
  slots_size = refl;
  read_in = omega arith;
  room = omega arith;
  write_at = refl;
  holds = tt;
}

at_end-IsQueue : IsQueue at_end (8 ∷ [])
at_end-IsQueue = record {
  small = omega arith;
  slots_size = refl;
  read_in = omega arith;
  room = omega arith;
  write_at = refl;
  holds = (refl, tt);
}

full_at_two :
    let q = (push (push three_slots 5).1 6).1 in
    (is_full q ≡ true) × (guest_size q ≡ 2) × (push q 7 ≡ (false, q))
unfolding push is_full guest_size next_pos
full_at_two = (refl, refl, refl)

-- The destructor goes through the slot before the first item and stops before the last.
destructor_slots : destructor (push (push three_slots 5).1 6).1 ≡ some (0 ∷ 1 ∷ [])
unfolding push next_pos destructor
destructor_slots = refl

-- A push that is overtaken by a get.
abbrev schedule : List (Event ℕ)
schedule =
    Event.push 5
    ∷ Event.produce
    ∷ Event.produce
    ∷ Event.get
    ∷ Event.push 6
    ∷ Event.consume
    ∷ Event.produce
    ∷ Event.consume
    ∷ Event.produce
    ∷ Event.consume
    ∷ []

run_schedule :
    let s = run (start three_slots) schedule in (s.pushed ≡ 5 ∷ 6 ∷ []) × (s.got ≡ some 5 ∷ [])
unfolding run start next_pos object_at
run_schedule = (refl, refl)

run_fifo_example :
    let s = run (start three_slots) schedule in
    (items : List ℕ) × (map some s.pushed ≡ s.got ++ map some items) × IsQueue s.queue items
run_fifo_example = run_fifo three_slots schedule three_slots-IsQueue

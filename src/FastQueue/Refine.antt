-- ===== src/FastQueue/Refine.antt =====
-- One call after the other: HSingleFastQueue is a first-in first-out queue of at most size - 1 items.
use huicpp.Base.{
  ℕ, zero, suc, ◌^◌, ◌<◌, ◌≤◌, ◌≡◌, ◌≢◌, refl, arith, List, [], ◌∷◌, ◌++◌, length, none, some, true,
  false, ◌==◌, length-replicate, replicate,
}
use huicpp.FastQueue.{
  FastQueue, next_pos, construct, push, get, object_at, front_ptr, pop_front, is_empty, is_full,
  guest_size, capacity,
}
use huicpp.FastQueue.Steps.{
  next_write, next_write-ne, next_write_full, construct_slot, publish, destroy_slot, first_item,
  consume, read-ne-write,
}
use huicpp.FastQueue.Window.{IsQueue}

abbrev fresh : (A : Type 0) → ℕ → FastQueue A
fresh A size = record { size = size; slots = replicate size none; read_index = 0; write_index = 0 }

new_queue :
    {A : Type 0} (n : ℕ) (v : A)
    → suc (suc n) < 2 ^ 32
    → let q' = (push (fresh A (suc (suc n))) v).1 in
      (front_ptr q' ≡ some 0)
      × (object_at q' 0 ≡ none)
      × ((get q').0 ≡ some 1)
      × (object_at q' 1 ≡ some v)
unfolding push get front_ptr object_at
new_queue n v hs =
    let e : next_pos (suc (suc n)) 0 ≡ 1 = unfold next_pos in ground arith in
    rw e (refl, refl, rw e, refl)

next_pos-ne : (size h : ℕ) → h < size → size < 2 ^ 32 → 1 < size → next_pos size h ≢ h
unfolding next_pos
next_pos-ne size h hh hs h1 = ground arith

-- The constructor gives an empty queue for any size from 2 that fits, and asserts it.
pub construct-IsQueue :
    (A : Type 0) (size : ℕ)
    → (2 ≤ size
        → size < 2 ^ 32
        → (q : FastQueue A) × (construct A size ≡ some q) × (q.size ≡ size) × IsQueue q [])
      × (size < 2 → construct A size ≡ none)
unfolding construct
construct-IsQueue A size = (
  λ h hs. (
    fresh A size,
    ground arith,
    refl,
    record {
      small = hs;
      slots_size = length-replicate size none;
      read_in = omega arith;
      room = omega arith;
      write_at = ground arith;
      holds = tt;
    },
  ),
  λ h. ground arith,
)

module _ {A : Type 0} {q : FastQueue A} {items : List A} (w : IsQueue q items) where
  -- `push` puts the value behind the others and gives true if that makes fewer items than the size,
  -- and else it gives false and changes nothing.
  pub push_refines :
      (v : A)
      → (suc (length items) < q.size
          → ((push q v).0 ≡ true) × IsQueue (push q v).1 (items ++ (v ∷ [])))
        × (suc (length items) ≡ q.size → push q v ≡ (false, q))
  unfolding push
  push_refines v = (λ h. room h, λ h. ground (arith, next_write_full w h))
    where
      room :
          suc (length items) < q.size
          → ((push q v).0 ≡ true) × IsQueue (push q v).1 (items ++ (v ∷ []))
      room h =
          let (w', e) = construct_slot w (some v) h in
          let b : (next_pos q.size q.write_index == q.read_index) ≡ false =
            ground (arith, next_write-ne w h) in
          rw b (refl, publish w' v h e)

  -- `is_empty`, `is_full` and `guest_size` say how many items there are, up to the capacity.
  pub size_tests :
      q.size ≤ 2 ^ 31
      → (is_empty q ≡ (length items == 0))
        × (is_full q ≡ (length items == capacity q))
        × (guest_size q ≡ length items)
  unfolding is_empty is_full guest_size capacity
  size_tests h =
      ground (arith, w.write_at, w.read_in, w.room, w.small, next_write w, next_write_full w)

module _ {A : Type 0} {q : FastQueue A} where
  -- On an empty queue `get` and `pop_front` do nothing and `front_ptr` is nullptr.
  pub get_empty : IsQueue q [] → (get q ≡ (none, q)) × (pop_front q ≡ none) × (front_ptr q ≡ none)
  unfolding get pop_front front_ptr
  get_empty w =
      let e : q.read_index ≡ q.write_index = ground (arith, w.write_at, w.read_in) in
      ground (arith, e)

  module _ {x : A} {xs : List A} (w : IsQueue q (x ∷ xs)) where
    busy : (q.read_index == q.write_index) ≡ false
    busy = ground (arith, read-ne-write w)

    -- `get` assigns the first item, and leaves the others.
    pub get_refines :
        ((get q).0 ≡ some (next_pos q.size q.read_index))
        × (object_at q (next_pos q.size q.read_index) ≡ some x)
        × IsQueue (get q).1 xs
    unfolding get object_at
    get_refines = rw busy (refl, rw (object_at, first_item w), consume (destroy_slot w none))

    -- `pop_front` leaves the queue as `get` does.
    pub pop_front-get : pop_front q ≡ some (get q).1
    unfolding pop_front get
    pop_front-get = rw busy

    -- `front_ptr` does not point to the first item, which `get` assigns, but to the slot before it.
    pub front_ptr-ne-get :
        (front_ptr q ≡ some q.read_index)
        × ((get q).0 ≡ some (next_pos q.size q.read_index))
        × (next_pos q.size q.read_index ≢ q.read_index)
    unfolding front_ptr
    front_ptr-ne-get = (rw busy, get_refines.0, after)
      where
        after : next_pos q.size q.read_index ≢ q.read_index
        after e =
            ground
              (arith, next_pos-ne q.size q.read_index w.read_in w.small (omega (arith, w.room)) e)

-- In a new queue that one value has been pushed to, `front_ptr` points to a slot without an object,
-- while `get` assigns the value.
pub front_ptr_new :
    {A : Type 0} (size : ℕ) {q : FastQueue A} (v : A)
    → 2 ≤ size
    → size < 2 ^ 32
    → construct A size ≡ some q
    → let q' = (push q v).1 in
      (front_ptr q' ≡ some 0)
      × (object_at q' 0 ≡ none)
      × ((get q').0 ≡ some 1)
      × (object_at q' 1 ≡ some v)
front_ptr_new zero v h hs e = absurd (omega arith)
front_ptr_new (suc zero) v h hs e = absurd (omega arith)
front_ptr_new {A} (suc (suc n)) {q} v h hs e = rw (same q e) (new_queue n v hs)
  where
    same : (q : FastQueue A) → construct A (suc (suc n)) ≡ some q → q ≡ fresh A (suc (suc n))
    same q e = unfold construct in ground arith

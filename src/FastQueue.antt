-- ===== src/FastQueue.antt =====
-- src/hsinglefastqueue.h, HSingleFastQueue: a ring of slots for one producer and one consumer.
pub mod Window
pub mod Steps
pub mod Refine
pub mod Concurrent
mod Tests
use huicpp.Base.{
  ℕ, zero, suc, ◌+◌, ◌-◌, ◌%◌, ◌^◌, List, [], ◌∷◌, Bool, true, false, not, if◌then◌else◌, ◌==◌, ltb,
  Option, none, some, get_elem?, set, replicate,
}

-- A slot of the raw memory: the object that lives there, if any. The indices are `unsigned int`.
pub record FastQueue (A : Type 0) : Type 0 where
  pub size : ℕ
  pub slots : List (Option A)
  pub read_index : ℕ
  pub write_index : ℕ

-- `i + 1`, and 0 at the end.
unfoldable pub next_pos : ℕ → ℕ → ℕ
next_pos size i = let n = (i + 1) % 2 ^ 32 in if n == size then 0 else n

-- The constructor; memory from malloc holds no object. `none` is a failed assertion.
unfoldable pub construct : (A : Type 0) → ℕ → Option (FastQueue A)
construct A size =
    if ltb size 2
    then none
    else some (record { size = size; slots = replicate size none; read_index = 0; write_index = 0 })

-- The loop of the destructor, for a type whose destructor does something: the slots that it
-- destroys, in order. `none`: the loop has not ended.
unfoldable pub destroyed : ℕ → ℕ → ℕ → ℕ → Option (List ℕ)
destroyed zero size r w = none
destroyed (suc fuel) size r w =
    let n = (r + 1) % 2 ^ 64 in
    let rest = destroyed fuel size (if n == size then 0 else n) w in
    if r == w then some [] else elim rest [ none ↦ none | some l ↦ some (r ∷ l) ]

module _ {A : Type 0} where
  unfoldable pub push : FastQueue A → A → Bool × FastQueue A
  push q v =
      let next = next_pos q.size q.write_index in
      if not (next == q.read_index)
      then (true, record q { slots = set q.slots next (some v); write_index = next })
      else (false, q)

  -- The slot whose object is moved to `value`, and the queue. The slot that is destroyed is another.
  unfoldable pub get : FastQueue A → Option ℕ × FastQueue A
  get q =
      if q.read_index == q.write_index
      then (none, q)
      else (let next = next_pos q.size q.read_index in
          (some next, record q { slots = set q.slots q.read_index none; read_index = next }))

  -- What `value` is assigned from.
  unfoldable pub object_at : FastQueue A → ℕ → Option A
  object_at q i = elim (get_elem? q.slots i) [ none ↦ none | some o ↦ o ]

  -- The index of the slot that the pointer points to, or `none` for nullptr.
  unfoldable pub front_ptr : FastQueue A → Option ℕ
  front_ptr q = if q.read_index == q.write_index then none else some q.read_index

  -- `none` is the failed assertion of an empty queue.
  unfoldable pub pop_front : FastQueue A → Option (FastQueue A)
  pop_front q =
      if q.read_index == q.write_index
      then none
      else some (record q {
        slots = set q.slots q.read_index none;
        read_index = next_pos q.size q.read_index;
      })

  unfoldable pub is_empty : FastQueue A → Bool
  is_empty q = q.read_index == q.write_index

  unfoldable pub is_full : FastQueue A → Bool
  is_full q = next_pos q.size q.write_index == q.read_index

  -- The difference of the indices as an int, and a negative one plus the size; the result is
  -- converted to 64 bits with its sign.
  unfoldable pub guest_size : FastQueue A → ℕ
  guest_size q =
      let d = (q.write_index + 2 ^ 32 - q.read_index) % 2 ^ 32 in
      let r = if ltb d (2 ^ 31) then d else (d + q.size) % 2 ^ 32 in
      if ltb r (2 ^ 31) then r else r + (2 ^ 64 - 2 ^ 32)

  unfoldable pub capacity : FastQueue A → ℕ
  capacity q = q.size - 1

  unfoldable pub destructor : FastQueue A → Option (List ℕ)
  unfolding destroyed
  destructor q = destroyed q.size q.size q.read_index q.write_index

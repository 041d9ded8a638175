-- ===== src/FastQueue/Steps.antt =====
-- The memory accesses of Push and Get, one at a time, on a queue that holds some items.
use huicpp.Base.{
  suc, ◌<◌, ◌≡◌, ◌≢◌, sym, ◌∙◌, ap, arith, List, [], ◌∷◌, ◌++◌, length, Option, some, get_elem?,
  set, length-set, get_elem?-set_self, length-append,
}
use mathlib.Core.Path.{subst}
use huicpp.FastQueue.{FastQueue, next_pos}
use huicpp.FastQueue.Window.{
  IsQueue, Holds, slot, next_pos-slot, next_pos-lt, next_pos-last, slot-lt, slot-next_pos,
  slot-zero, slot-ne_self, Holds-set, Holds-snoc, Holds-shift,
}

module _ {A : Type 0} {q : FastQueue A} {items : List A} (w : IsQueue q items) where
  -- The slot behind the last item.
  pub next_write :
      suc (length items) < q.size
      → next_pos q.size q.write_index ≡ slot q.size q.read_index (suc (length items))
  next_write h =
      ap (next_pos q.size) w.write_at
      ∙ next_pos-slot q.size q.read_index (length items) w.read_in h w.small

  -- It is the read index exactly when the queue is full.
  pub next_write-ne : suc (length items) < q.size → next_pos q.size q.write_index ≢ q.read_index
  next_write-ne h e =
      slot-ne_self q.size q.read_index (suc (length items)) w.read_in (omega arith) h
        (sym (next_write h) ∙ e)

  pub next_write_full : suc (length items) ≡ q.size → next_pos q.size q.write_index ≡ q.read_index
  next_write_full h =
      ap (next_pos q.size) w.write_at
      ∙ next_pos-last q.size q.read_index (length items) w.read_in h w.small

  -- Constructing an object there changes no item.
  pub construct_slot :
      (o : Option A)
      → suc (length items) < q.size
      → IsQueue (record q { slots = set q.slots (next_pos q.size q.write_index) o }) items
        × (get_elem? (set q.slots (next_pos q.size q.write_index) o) (next_pos q.size q.write_index)
            ≡ some o)
  construct_slot o h =
      let n = length items in
      let j = next_pos q.size q.write_index in
      let inside : j < length q.slots =
        rw (next_write h, w.slots_size) (slot-lt q.size q.read_index (suc n) w.read_in h) in
      (
        record {
          small = w.small;
          slots_size = length-set q.slots j o ∙ w.slots_size;
          read_in = w.read_in;
          room = w.room;
          write_at = w.write_at;
          holds = rw (next_write h) (
              Holds-set q.slots q.size q.read_index 0 (suc n) o items w.read_in h (omega arith)
                (omega arith) w.holds);
        },
        get_elem?-set_self q.slots j o inside,
      )

  -- Moving the write index on makes the object there the last item.
  pub publish :
      (v : A)
      → suc (length items) < q.size
      → get_elem? q.slots (next_pos q.size q.write_index) ≡ some (some v)
      → IsQueue (record q { write_index = next_pos q.size q.write_index }) (items ++ (v ∷ []))
  publish v h e =
      let n = length items in
      let longer : length (items ++ (v ∷ [])) ≡ suc n =
        omega (arith, length-append items (v ∷ [])) in
      record {
        small = w.small;
        slots_size = w.slots_size;
        read_in = w.read_in;
        room = omega arith;
        write_at = rw longer (next_write h);
        holds =
            Holds-snoc q.slots q.size q.read_index 0 (suc n) v items (omega arith) w.holds
              (rw (next_write h) at e);
      }

  -- The slot at the read index is not one of the items.
  pub destroy_slot :
      (o : Option A) → IsQueue (record q { slots = set q.slots q.read_index o }) items
  destroy_slot o = record {
    small = w.small;
    slots_size = length-set q.slots q.read_index o ∙ w.slots_size;
    read_in = w.read_in;
    room = w.room;
    write_at = w.write_at;
    holds =
        let e = slot-zero q.size q.read_index w.read_in in
        let kept =
          Holds-set q.slots q.size q.read_index 0 0 o items w.read_in (omega arith) (omega arith)
            (omega arith) w.holds in
        subst (λ j. Holds (set q.slots j o) q.size q.read_index 0 items) e kept;
  }

module _ {A : Type 0} {q : FastQueue A} {x : A} {xs : List A} (w : IsQueue q (x ∷ xs)) where
  -- The first item is the object behind the read index.
  pub first_item : get_elem? q.slots (next_pos q.size q.read_index) ≡ some (some x)
  first_item =
      let after = next_pos-lt q.size q.read_index w.read_in w.small in
      let e =
        sym (slot-next_pos q.size q.read_index 0 w.read_in (omega arith) w.small)
        ∙ slot-zero q.size (next_pos q.size q.read_index) after in
      subst (λ j. get_elem? q.slots j ≡ some (some x)) e w.holds.0

  -- Moving the read index on drops the first item.
  pub consume : IsQueue (record q { read_index = next_pos q.size q.read_index }) xs
  consume = record {
    small = w.small;
    slots_size = w.slots_size;
    read_in = next_pos-lt q.size q.read_index w.read_in w.small;
    room = omega arith;
    write_at =
        w.write_at
        ∙ sym (slot-next_pos q.size q.read_index (length xs) w.read_in (omega arith) w.small);
    holds = Holds-shift q.slots q.size q.read_index 0 xs w.read_in w.small (omega arith) w.holds.1;
  }

  pub read-ne-write : q.read_index ≢ q.write_index
  read-ne-write e =
      slot-ne_self q.size q.read_index (length (x ∷ xs)) w.read_in (omega arith) w.room
        (sym w.write_at ∙ sym e)

-- ===== src/FastQueue/Concurrent/Fifo.antt =====
-- Whatever the schedule, the values come out in the order in which they went in.
use huicpp.Base.{
  ℕ, suc, ◌<◌, ◌≡◌, ◌≢◌, refl, sym, ◌∙◌, ap, arith, List, [], ◌∷◌, ◌++◌, map, length, Option, none,
  some, get_elem?, get_elem?-set_ne, append_assoc, Bool-cases, inl, inr, ◌==◌, false, set,
}
use huicpp.FastQueue.{FastQueue, next_pos, object_at}
use huicpp.FastQueue.Window.{IsQueue}
use huicpp.FastQueue.Steps.{
  next_write-ne, next_write_full, construct_slot, publish, destroy_slot, first_item, consume,
}
use huicpp.FastQueue.Concurrent.{
  Producer, Consumer, State, Event, push_begin, push_go, get_begin, get_go, step, run, start,
}
use mathlib.Core.List.{map-append}
use mathlib.Core.Path.{subst}

module _ {A : Type 0} where
  -- What the producer has made sure of.
  abbrev ProducerOk : ℕ → List (Option A) → ℕ → List A → Producer A → Type 0
  ProducerOk size slots w items Producer.idle = Unit {0}
  ProducerOk size slots w items (Producer.checked v next) =
      (suc (length items) < size) × (next ≡ next_pos size w)
  ProducerOk size slots w items (Producer.constructed v next) =
      (suc (length items) < size)
      × (next ≡ next_pos size w)
      × (get_elem? slots (next_pos size w) ≡ some (some v))

  -- What the consumer has made sure of: there is a first item, and the value taken is it.
  abbrev ConsumerOk : ℕ → ℕ → List A → Consumer A → Type 0
  ConsumerOk size r items Consumer.idle = Unit {0}
  ConsumerOk size r items (Consumer.found next) =
      (x : A) × (xs : List A) × (items ≡ x ∷ xs) × (next ≡ next_pos size r)
  ConsumerOk size r items (Consumer.moved next o) =
      (x : A) × (xs : List A) × (items ≡ x ∷ xs) × (next ≡ next_pos size r) × (o ≡ some x)
  ConsumerOk size r items (Consumer.destroyed next o) =
      (x : A) × (xs : List A) × (items ≡ x ∷ xs) × (next ≡ next_pos size r) × (o ≡ some x)

  -- Neither thread undoes what the other has made sure of.
  ConsumerOk-publish :
      (size r : ℕ) (items : List A) (v : A) (c : Consumer A)
      → ConsumerOk size r items c
      → ConsumerOk size r (items ++ (v ∷ [])) c
  ConsumerOk-publish size r items v Consumer.idle w = tt
  ConsumerOk-publish size r items v (Consumer.found n) (x, xs, e, f) =
      (x, xs ++ (v ∷ []), ap (λ l. l ++ (v ∷ [])) e, f)
  ConsumerOk-publish size r items v (Consumer.moved n o) (x, xs, e, f, g) =
      (x, xs ++ (v ∷ []), ap (λ l. l ++ (v ∷ [])) e, f, g)
  ConsumerOk-publish size r items v (Consumer.destroyed n o) (x, xs, e, f, g) =
      (x, xs ++ (v ∷ []), ap (λ l. l ++ (v ∷ [])) e, f, g)

  ProducerOk-destroy :
      (size : ℕ) (slots : List (Option A)) (w r : ℕ) (items : List A) (p : Producer A)
      → (suc (length items) < size → next_pos size w ≢ r)
      → ProducerOk size slots w items p
      → ProducerOk size (set slots r none) w items p
  ProducerOk-destroy size slots w r items Producer.idle n k = tt
  ProducerOk-destroy size slots w r items (Producer.checked v next) n k = k
  ProducerOk-destroy size slots w r items (Producer.constructed v next) n (h, e, o) =
      (h, e, get_elem?-set_ne slots none (λ q. n h (sym q)) ∙ o)

  ProducerOk-consume :
      (size : ℕ) (slots : List (Option A)) (w : ℕ) (x : A) (xs : List A) (p : Producer A)
      → ProducerOk size slots w (x ∷ xs) p
      → ProducerOk size slots w xs p
  ProducerOk-consume size slots w x xs Producer.idle k = tt
  ProducerOk-consume size slots w x xs (Producer.checked v next) (h, e) = (omega arith, e)
  ProducerOk-consume size slots w x xs (Producer.constructed v next) (h, e, o) = (omega arith, e, o)

  first :
      (q : FastQueue A) (items : List A)
      → IsQueue q items
      → (q.read_index == q.write_index) ≡ false
      → (x : A) × (xs : List A) × (items ≡ x ∷ xs)
        × (next_pos q.size q.read_index ≡ next_pos q.size q.read_index)
  first q [] w h = absurd (ground (arith, w.write_at, w.read_in))
  first q (x ∷ xs) w h = (x, xs, refl, refl)

  object :
      (q : FastQueue A) {items xs : List A} {x : A} {next : ℕ}
      → IsQueue q items
      → items ≡ x ∷ xs
      → next ≡ next_pos q.size q.read_index
      → object_at q next ≡ some x
  unfolding object_at
  object q w e f = rw (f, object_at, first_item (subst (λ l. IsQueue q l) e w))

  -- The queue holds the values that went in and have not come out.
  pub record Inv (s : State A) (items : List A) : Type 0 where
    pub holds : IsQueue s.queue items
    pub order : map some s.pushed ≡ s.got ++ map some items
    pub producing : ProducerOk s.queue.size s.queue.slots s.queue.write_index items s.producer
    pub consuming : ConsumerOk s.queue.size s.queue.read_index items s.consumer

  abbrev Kept : State A → Type 0
  Kept s = (items : List A) × Inv s items

  -- The four kinds of step take the place of the thread from the state as an argument.
  push_begin-Inv :
      (v : A) (p : Producer A) (s : State A) {items : List A}
      → s.producer ≡ p
      → Inv s items
      → Kept (push_begin v p s)
  unfolding push_begin
  push_begin-Inv v Producer.idle s {items} e i =
      elim (Bool-cases (next_pos s.queue.size s.queue.write_index == s.queue.read_index)) [
        | inl full ↦ rw full (items, i)
        | inr free ↦ rw free (
          items,
          record {
            holds = i.holds;
            order = i.order;
            producing = (room s.queue i.holds (ground arith), refl);
            consuming = i.consuming;
          },
        )
      ]
    where
      room :
          (q : FastQueue A)
          → IsQueue q items
          → next_pos q.size q.write_index ≢ q.read_index
          → suc (length items) < q.size
      room q w n = ground (arith, w.room, next_write_full w)
  push_begin-Inv v (Producer.checked u n) s {items} e i = (items, i)
  push_begin-Inv v (Producer.constructed u n) s {items} e i = (items, i)

  push_go-Inv :
      (p : Producer A) (s : State A) {items : List A}
      → Inv s items
      → ProducerOk s.queue.size s.queue.slots s.queue.write_index items p
      → Kept (push_go p s)
  unfolding push_go
  push_go-Inv Producer.idle s {items} i w = (items, i)
  push_go-Inv (Producer.checked v next) s {items} i (h, e) =
      let (w, o) = construct_slot i.holds (some v) h in
      rw e (
        items,
        record { holds = w; order = i.order; producing = (h, refl, o); consuming = i.consuming },
      )
  push_go-Inv (Producer.constructed v next) s {items} i (h, e, o) = rw e (
    items ++ (v ∷ []),
    record {
      holds = publish i.holds v h o;
      order = rw (map-append, i.order, map-append, append_assoc);
      producing = tt;
      consuming = ConsumerOk-publish s.queue.size s.queue.read_index items v s.consumer i.consuming;
    },
  )

  get_begin-Inv :
      (c : Consumer A) (s : State A) {items : List A}
      → s.consumer ≡ c
      → Inv s items
      → Kept (get_begin c s)
  unfolding get_begin
  get_begin-Inv Consumer.idle s {items} e i =
      elim (Bool-cases (s.queue.read_index == s.queue.write_index)) [
        | inl none_left ↦ rw none_left (items, i)
        | inr more ↦ rw more (
          items,
          record {
            holds = i.holds;
            order = i.order;
            producing = i.producing;
            consuming = first s.queue items i.holds more;
          },
        )
      ]
  get_begin-Inv (Consumer.found n) s {items} e i = (items, i)
  get_begin-Inv (Consumer.moved n o) s {items} e i = (items, i)
  get_begin-Inv (Consumer.destroyed n o) s {items} e i = (items, i)

  get_go-Inv :
      (c : Consumer A) (s : State A) {items : List A}
      → Inv s items
      → ConsumerOk s.queue.size s.queue.read_index items c
      → Kept (get_go c s)
  unfolding get_go
  get_go-Inv Consumer.idle s {items} i w = (items, i)
  get_go-Inv (Consumer.found next) s {items} i (x, xs, e, f) = (
    items,
    record {
      holds = i.holds;
      order = i.order;
      producing = i.producing;
      consuming = (x, xs, e, f, object s.queue i.holds e f);
    },
  )
  get_go-Inv (Consumer.moved next o) s {items} i (x, xs, e, f, g) = (
    items,
    record {
      holds = destroy_slot i.holds none;
      order = i.order;
      producing =
          ProducerOk-destroy s.queue.size s.queue.slots s.queue.write_index s.queue.read_index items
            s.producer (next_write-ne i.holds) i.producing;
      consuming = (x, xs, e, f, g);
    },
  )
  get_go-Inv (Consumer.destroyed next o) s {items} i (x, xs, e, f, g) =
      let w = subst (λ l. IsQueue s.queue l) e i.holds in
      let p =
        subst (λ l. ProducerOk s.queue.size s.queue.slots s.queue.write_index l s.producer) e
          i.producing in
      rw (f, g)
        (
          xs,
          record {
            holds = consume w;
            order = rw (i.order, e, append_assoc);
            producing =
                ProducerOk-consume s.queue.size s.queue.slots s.queue.write_index x xs s.producer p;
            consuming = tt;
          },
        )

  step-Inv : (s : State A) (e : Event A) {items : List A} → Inv s items → Kept (step s e)
  unfolding step
  step-Inv s (Event.push v) i = push_begin-Inv v s.producer s refl i
  step-Inv s Event.produce i = push_go-Inv s.producer s i i.producing
  step-Inv s Event.get i = get_begin-Inv s.consumer s refl i
  step-Inv s Event.consume i = get_go-Inv s.consumer s i i.consuming

  run-Inv : (s : State A) (es : List (Event A)) {items : List A} → Inv s items → Kept (run s es)
  unfolding run
  run-Inv s [] {items} i = (items, i)
  run-Inv s (e ∷ es) i = let (items', i') = step-Inv s e i in run-Inv (step s e) es i'

  -- From an empty queue at rest, after any steps of the two threads: the values that Get has given
  -- are the first of those for which Push has given true, in the same order and each an object that
  -- was there; the others are what the queue holds, which is fewer than the size.
  pub run_fifo :
      (q : FastQueue A) (es : List (Event A))
      → IsQueue q []
      → let s = run (start q) es in
        (items : List A) × (map some s.pushed ≡ s.got ++ map some items) × IsQueue s.queue items
  unfolding start
  run_fifo q es w =
      let fresh : Inv (start q) [] = record {
        holds = w;
        order = refl;
        producing = tt;
        consuming = tt;
      } in
      let (items, i) = run-Inv (start q) es fresh in (items, i.order, i.holds)

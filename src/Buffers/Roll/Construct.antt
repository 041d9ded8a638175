-- ===== src/Buffers/Roll/Construct.antt =====
-- The constructor cuts the block into its items and queues each of them once.
use huicpp.Base.{
  ℕ, zero, suc, ◌+◌, ◌*◌, ◌%◌, ◌^◌, ◌<◌, ◌≤◌, ◌≡◌, refl, ap, ap₂, sym, ◌∙◌, arith, List, [], ◌∷◌,
  ◌++◌, true, if◌then◌else◌, ltb, some, get_elem?, length, length-append, Bool-cases, inl, inr,
}
use huicpp.Base.Options.{◌>>=◌}
use huicpp.Buffers.Roll.{
  ItemRef, new_ref, RollBuffer, get_mem_item, fill_items, fill_groups, construct_roll,
}
use huicpp.Buffers.Roll.Count.{count, total, count-cons, count-nil, count-append, total-append}
use huicpp.Buffers.Roll.Invariant.{IsPool, Ready}
use native.Mathlib.Nat.{add-mul, mul-le-mul_right}

get_elem?-left :
    (rs : List ItemRef) (r : ItemRef) (x : ℕ)
    → x < length rs
    → get_elem? (rs ++ (r ∷ [])) x ≡ get_elem? rs x
get_elem?-left [] r x h = absurd (omega arith)
get_elem?-left (s ∷ rs) r zero h = refl
get_elem?-left (s ∷ rs) r (suc x) h = get_elem?-left rs r x (omega arith)

get_elem?-end : (rs : List ItemRef) (r : ItemRef) → get_elem? (rs ++ (r ∷ [])) (length rs) ≡ some r
get_elem?-end [] r = refl
get_elem?-end (s ∷ rs) r = get_elem?-end rs r

-- The block has room for all the items, and its length is an int.
pub record Roomy (b : RollBuffer) : Type 0 where
  pub room : b.group_count * b.group_item_count * b.item_size ≤ length b.block
  pub int : length b.block < 2 ^ 31

abbrev add_ref : RollBuffer → ItemRef → RollBuffer
add_ref b r = record b { all_refs = b.all_refs ++ (r ∷ []) }

add_ref-IsPool :
    (b : RollBuffer) (queue : List ℕ) (r : ItemRef)
    → IsPool b queue
    → r.place ≡ length b.all_refs * b.item_size
    → r.size ≡ b.item_size
    → r.place + r.size ≤ length b.block
    → r.group < b.group_count
    → IsPool (add_ref b r) (queue ++ (length b.all_refs ∷ []))
add_ref-IsPool b queue r v p s i g = record {
  placed = λ ptr h. elim (Bool-cases (ltb ptr (length b.all_refs))) [
    | inl y ↦
        let (r', w) = v.placed ptr (ground (arith, y)) in
        (
          r',
          record {
            at = get_elem?-left b.all_refs r ptr (ground (arith, y)) ∙ w.at;
            place = w.place;
            size = w.size;
            inside = w.inside;
            group_in = w.group_in;
          },
        )
    | inr n ↦
        let e : length b.all_refs ≡ ptr = ground (arith, n, h, length-append b.all_refs (r ∷ [])) in
        (
          r,
          record {
            at = rw (← e) (get_elem?-end b.all_refs r);
            place = p ∙ ap (λ k. k * b.item_size) e;
            size = s;
            inside = i;
            group_in = g;
          },
        )
  ];
  once = λ x.
      let o = v.once x in
      rw
        (
          length-append b.all_refs (r ∷ []),
          count-append x queue (length b.all_refs ∷ []),
          count-cons x (length b.all_refs) [],
          count-nil x,
        )
        (ground (arith, o));
}

-- Where the next item goes, and that it fits.
place_lem :
    (g i n size l : ℕ) (j : ℕ)
    → i < g
    → j < n
    → g * n * size ≤ l
    → l < 2 ^ 31
    → ((i * n * size + j * size) % 2 ^ 32 ≡ (i * n + j) * size) × ((i * n + j) * size + size ≤ l)
place_lem g i n size l j hi hj r h =
    let a : i * n + n ≤ g * n = omega (arith, mul-le-mul_right n hi) in
    let c : suc (i * n + j) * size ≤ g * n * size = mul-le-mul_right size (omega (arith, a, hj)) in
    let d : (i * n + j) * size ≡ i * n * size + j * size = add-mul (i * n) j size in
    (omega (arith, c, d, r, h), omega (arith, c, d, r, h))

-- What the constructor does not touch, and what the inner loop leaves.
record Filled (b : RollBuffer) (i : ℕ) (b' : RollBuffer) (queue : List ℕ) : Type 0 where
  pool : IsPool b' queue
  count_refs : length b'.all_refs ≡ i * b.group_item_count + b.group_item_count
  groups : b'.group_count ≡ b.group_count
  items : b'.group_item_count ≡ b.group_item_count
  sizes : b'.item_size ≡ b.item_size
  blocks : b'.block ≡ b.block
  queues : b'.queues ≡ b.queues

fill_items-Filled :
    (left i j : ℕ) (b : RollBuffer) (queue : List ℕ)
    → IsPool b queue
    → Roomy b
    → length b.all_refs ≡ i * b.group_item_count + j
    → j + left ≡ b.group_item_count
    → i < b.group_count
    → (b' : RollBuffer) × (queue' : List ℕ) × (fill_items left i j b queue ≡ some (b', queue'))
      × Filled b i b' queue'
unfolding fill_items get_mem_item new_ref ◌>>=◌
fill_items-Filled zero i j b queue v r e n h = (
  b,
  queue,
  refl,
  record {
    pool = v;
    count_refs = omega (arith, e, n);
    groups = refl;
    items = refl;
    sizes = refl;
    blocks = refl;
    queues = refl;
  },
)
fill_items-Filled (suc left) i j b queue v r e n h =
    let place = (i * b.group_item_count * b.item_size + j * b.item_size) % 2 ^ 32 in
    let item = new_ref i j b.item_size place in
    let (p, fits) =
      place_lem b.group_count i b.group_item_count b.item_size (length b.block) j h
        (omega (arith, n)) r.room r.int in
    let at : place ≡ length b.all_refs * b.item_size = p ∙ ap (λ k. k * b.item_size) (sym e) in
    let i1 : ltb i b.group_count ≡ true = ground (arith, h) in
    let j1 : ltb j b.group_item_count ≡ true = ground (arith, n) in
    let w = add_ref-IsPool b queue item v at refl (omega (arith, p, fits)) h in
    let (b', q', run, f) =
      fill_items-Filled left i (suc j) (add_ref b item) (queue ++ (length b.all_refs ∷ [])) w
        (record { room = r.room; int = r.int })
        (omega (arith, e, length-append b.all_refs (item ∷ []))) (omega (arith, n)) h in
    (
      b',
      q',
      rw (i1, j1) run,
      record {
        pool = f.pool;
        count_refs = f.count_refs;
        groups = f.groups;
        items = f.items;
        sizes = f.sizes;
        blocks = f.blocks;
        queues = f.queues;
      },
    )

add_queue-IsPool :
    (b : RollBuffer) (queue : List ℕ)
    → IsPool b queue
    → IsPool (record b { queues = b.queues ++ (queue ∷ []) }) []
add_queue-IsPool b queue v = record {
  placed = λ ptr h.
      let (r, w) = v.placed ptr h in
      (
        r,
        record {
          at = w.at;
          place = w.place;
          size = w.size;
          inside = w.inside;
          group_in = w.group_in;
        },
      );
  once = λ x. omega (arith, v.once x, total-append x b.queues queue, count-nil x);
}

Filled-sizes :
    {b b1 : RollBuffer} {i : ℕ} {queue : List ℕ} (b' : RollBuffer)
    → Filled b i b1 queue
    → length b'.all_refs ≡ b1.group_count * b1.group_item_count
    → b'.item_size ≡ b1.item_size
    → (length b'.all_refs ≡ b.group_count * b.group_item_count) × (b'.item_size ≡ b.item_size)
Filled-sizes b' f l s = (l ∙ ap₂ (λ x y. x * y) f.groups f.items, s ∙ f.sizes)

fill_groups-Ready :
    (left i : ℕ) (b : RollBuffer)
    → IsPool b []
    → Roomy b
    → length b.all_refs ≡ i * b.group_item_count
    → length b.queues ≡ i
    → i + left ≡ b.group_count
    → (b' : RollBuffer) × (fill_groups left i b ≡ some b')
      × Ready b' []
      × ((length b'.all_refs ≡ b.group_count * b.group_item_count) × (b'.item_size ≡ b.item_size))
unfolding fill_groups ◌>>=◌
fill_groups-Ready zero i b v r e q n = (
  b,
  refl,
  record { pool = v; complete = omega (arith, q, n) },
  (e ∙ ap (λ k. k * b.group_item_count) (omega (arith, n)), refl),
)
fill_groups-Ready (suc left) i b v r e q n =
    let (b1, queue, run, f) =
      fill_items-Filled b.group_item_count i 0 b [] v r (omega (arith, e)) (omega arith)
        (omega (arith, n)) in
    let b2 = record b1 { queues = b1.queues ++ (queue ∷ []) } in
    let (b', run', w, (l, s)) =
      fill_groups-Ready left (suc i) b2 (add_queue-IsPool b1 queue f.pool)
        (record {
          room = rw (f.groups, f.items, f.sizes, f.blocks) r.room;
          int = rw f.blocks r.int;
        })
        (rw f.items (omega (arith, f.count_refs)))
        (omega (arith, q, length-append b1.queues (queue ∷ []), ap length f.queues))
        (omega (arith, n, f.groups)) in
    (b', rw run run', w, Filled-sizes b' f l s)

no_items : (x : ℕ) → total x [] + count x [] ≡ (if ltb x 0 then 1 else 0)
unfolding total count
no_items x = ground arith

-- Where malloc gives the memory that is asked for, the constructor makes as many items as there are in
-- all the groups, each free in one queue and in its own place of the block.
pub construct_roll-Ready :
    (groups items size : ℕ) (block : List ℕ)
    → groups * items * size ≤ length block
    → length block < 2 ^ 31
    → (b : RollBuffer) × (construct_roll groups items size block ≡ some b)
      × Ready b []
      × ((length b.all_refs ≡ groups * items) × (b.item_size ≡ size))
unfolding construct_roll
construct_roll-Ready groups items size block r h =
    fill_groups-Ready groups 0 _
      (record { placed = λ ptr k. absurd (omega (arith, k)); once = no_items })
      (record { room = r; int = h }) (omega arith) refl (omega arith)

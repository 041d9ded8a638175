-- ===== src/Buffers/Roll/Invariant.antt =====
-- Each item is free in a queue or borrowed, once, and has its place in the block.
use huicpp.Base.{
  ℕ, zero, suc, ◌+◌, ◌*◌, ◌<◌, ◌≤◌, ◌≡◌, refl, ap, ◌∙◌, arith, List, [], ◌∷◌, ◌++◌, true,
  if◌then◌else◌, ltb, Option, some, none, set, ◌⊎◌, get_elem?, length, length-set, Bool-cases, inl,
  inr,
}
use huicpp.Base.Options.{◌>>=◌, IfSome, some-Injective}
use huicpp.Buffers.Memory.{Written, write_at-Written}
use huicpp.Buffers.Roll.{
  ItemRef, RollBuffer, change_ref, set_buffer, set_datalen, Popped, refused, waits, given, pop_ref,
  roll_pop, write_ref, pull_back, push_ref,
}
use huicpp.Buffers.Roll.Count.{
  count, total, queue_at, count-nil, count-cons, count-append, total-set, remove_one,
  count-remove_one,
}

pub record Placed (b : RollBuffer) (ptr : ℕ) (r : ItemRef) : Type 0 where
  pub at : get_elem? b.all_refs ptr ≡ some r
  pub place : r.place ≡ ptr * b.item_size
  pub size : r.size ≡ b.item_size
  pub inside : r.place + r.size ≤ length b.block
  pub group_in : r.group < b.group_count

abbrev pub AllPlaced : RollBuffer → Type 0
AllPlaced b = (ptr : ℕ) → ptr < length b.all_refs → (r : ItemRef) × Placed b ptr r

-- `borrowed` lists the items that Pop has given and PullBack has not taken.
pub record IsPool (b : RollBuffer) (borrowed : List ℕ) : Type 0 where
  pub placed : AllPlaced b
  pub once :
      (x : ℕ) → total x b.queues + count x borrowed ≡ (if ltb x (length b.all_refs) then 1 else 0)

length-change_ref :
    (p : ℕ) (f : ItemRef → ItemRef) (rs : List ItemRef) → length (change_ref p f rs) ≡ length rs
unfolding change_ref
length-change_ref p f [] = refl
length-change_ref zero f (r ∷ rs) = refl
length-change_ref (suc p) f (r ∷ rs) = ap suc (length-change_ref p f rs)

get_elem?-change_ref :
    (p : ℕ) (f : ItemRef → ItemRef) (rs : List ItemRef) (x : ℕ) (r : ItemRef)
    → get_elem? rs x ≡ some r
    → (r' : ItemRef) × (get_elem? (change_ref p f rs) x ≡ some r') × ((r' ≡ f r) ⊎ (r' ≡ r))
unfolding change_ref
get_elem?-change_ref p f [] x r e = ground (arith, e)
get_elem?-change_ref zero f (r ∷ rs) zero s e = (f r, refl, inl (ap f (some-Injective e)))
get_elem?-change_ref zero f (r ∷ rs) (suc x) s e = (s, e, inr refl)
get_elem?-change_ref (suc p) f (r ∷ rs) zero s e = (s, e, inr refl)
get_elem?-change_ref (suc p) f (r ∷ rs) (suc x) s e = get_elem?-change_ref p f rs x s e

-- A change of an object that leaves its place leaves all the objects in place.
module _ (f : ItemRef → ItemRef) (place_f : (r : ItemRef) → (f r).place ≡ r.place)
    (size_f : (r : ItemRef) → (f r).size ≡ r.size)
    (group_f : (r : ItemRef) → (f r).group ≡ r.group) where
  Placed-f :
      {b : RollBuffer} {ptr : ℕ} {r : ItemRef}
      → Placed b ptr r
      → (rs : List ItemRef) (r' : ItemRef) (qs : List (List ℕ)) (block : List ℕ)
      → length block ≡ length b.block
      → get_elem? rs ptr ≡ some r'
      → (r' ≡ f r) ⊎ (r' ≡ r)
      → Placed (record b { all_refs = rs; queues = qs; block = block }) ptr r'
  Placed-f {b} {ptr} {r} w rs r' qs block l e (inl q) = record {
    at = e;
    place = ap (λ x. x.place) q ∙ place_f r ∙ w.place;
    size = ap (λ x. x.size) q ∙ size_f r ∙ w.size;
    inside =
        omega (arith, w.inside, ap (λ x. x.place) q, place_f r, ap (λ x. x.size) q, size_f r, l);
    group_in = omega (arith, w.group_in, ap (λ x. x.group) q, group_f r);
  }
  Placed-f {b} {ptr} {r} w rs r' qs block l e (inr q) = record {
    at = e;
    place = ap (λ x. x.place) q ∙ w.place;
    size = ap (λ x. x.size) q ∙ w.size;
    inside = omega (arith, w.inside, ap (λ x. x.place) q, ap (λ x. x.size) q, l);
    group_in = omega (arith, w.group_in, ap (λ x. x.group) q);
  }

  AllPlaced-change :
      (b : RollBuffer) (p : ℕ) (qs : List (List ℕ)) (block : List ℕ)
      → length block ≡ length b.block
      → AllPlaced b
      → AllPlaced (record b { all_refs = change_ref p f b.all_refs; queues = qs; block = block })
  AllPlaced-change b p qs block l w ptr h =
      let (r, v) = w ptr (omega (arith, h, length-change_ref p f b.all_refs)) in
      let (r', e, c) = get_elem?-change_ref p f b.all_refs ptr r v.at in
      (r', Placed-f v (change_ref p f b.all_refs) r' qs block l e c)

AllPlaced-queues :
    (b : RollBuffer) (qs : List (List ℕ)) → AllPlaced b → AllPlaced (record b { queues = qs })
AllPlaced-queues b qs w ptr h =
    let (r, v) = w ptr h in
    (
      r,
      record {
        at = v.at;
        place = v.place;
        size = v.size;
        inside = v.inside;
        group_in = v.group_in;
      },
    )

-- With a queue for each group.
pub record Ready (b : RollBuffer) (borrowed : List ℕ) : Type 0 where
  pub pool : IsPool b borrowed
  pub complete : length b.queues ≡ b.group_count

abbrev pub IfGiven : (ℕ → RollBuffer → Type 0) → Popped → Type 0
IfGiven P refused = Unit
IfGiven P waits = Unit
IfGiven P (given ptr b) = P ptr b

pop_ref-Ready :
    (g : ℕ) (o : Option (List ℕ)) (b : RollBuffer) (borrowed : List ℕ)
    → get_elem? b.queues g ≡ o
    → Ready b borrowed
    → IfGiven (λ ptr b'. Ready b' (ptr ∷ borrowed)) (pop_ref g o b)
unfolding pop_ref
pop_ref-Ready g none b borrowed e v = tt
pop_ref-Ready g (some []) b borrowed e v = tt
pop_ref-Ready g (some (p ∷ q)) b borrowed e v = record {
  pool = record {
    placed =
        AllPlaced-change set_buffer (λ r. unfold set_buffer in refl)
          (λ r. unfold set_buffer in refl) (λ r. unfold set_buffer in refl) b p (set b.queues g q)
          b.block refl v.pool.placed;
    once = λ x. rw (length-change_ref p set_buffer b.all_refs) (
        omega (
          arith,
          total-set x b.queues g q e,
          v.pool.once x,
          count-cons x p q,
          count-cons x p borrowed,
        ));
  };
  complete = length-set b.queues g q ∙ v.complete;
}

pub roll_pop-Ready :
    (g : ℕ) (b : RollBuffer) (borrowed : List ℕ)
    → Ready b borrowed
    → IfGiven (λ ptr b'. Ready b' (ptr ∷ borrowed)) (roll_pop g b)
unfolding roll_pop
roll_pop-Ready g b borrowed v = elim (Bool-cases (ltb g b.group_count)) [
  | inl y ↦ rw y (pop_ref-Ready g (get_elem? b.queues g) b borrowed refl v)
  | inr n ↦ rw n tt
]

-- What is in a queue or borrowed is one of the items.
pub borrowed-Placed :
    (b : RollBuffer) (borrowed : List ℕ) (ptr : ℕ)
    → Ready b borrowed
    → 0 < count ptr borrowed
    → (r : ItemRef) × Placed b ptr r
borrowed-Placed b borrowed ptr v h = v.pool.placed ptr (ground (arith, v.pool.once ptr, h))

-- PullBack of a borrowed item puts it into the queue of its group.
pub pull_back-Ready :
    (ptr : ℕ) (b : RollBuffer) (borrowed : List ℕ)
    → Ready b borrowed
    → 0 < count ptr borrowed
    → IfSome (λ b'. Ready b' (remove_one ptr borrowed)) (pull_back ptr b)
unfolding pull_back push_ref ◌>>=◌
pull_back-Ready ptr b borrowed v h =
    let (r, w) = borrowed-Placed b borrowed ptr v h in
    let (q, e) = queue_at b.queues r.group (omega (arith, w.group_in, v.complete)) in
    elim (Bool-cases r.has_buffer) [
      | inl y ↦
          rw (w.at, y, e)
            (record {
              pool = record {
                placed = AllPlaced-queues b (set b.queues r.group (q ++ (ptr ∷ []))) v.pool.placed;
                once = λ x.
                    let t = total-set x b.queues r.group (q ++ (ptr ∷ [])) e in
                    omega (
                      arith,
                      t,
                      v.pool.once x,
                      count-append x q (ptr ∷ []),
                      count-cons x ptr [],
                      count-nil x,
                      count-remove_one x ptr borrowed h,
                    );
              };
              complete = length-set b.queues r.group (q ++ (ptr ∷ [])) ∙ v.complete;
            })
      | inr n ↦ rw (w.at, n) tt
    ]

-- What Write does to a borrowed item.
pub record Wrote (b : RollBuffer) (r : ItemRef) (ptr : ℕ) (bytes : List ℕ) (b' : RollBuffer)
    : Type 0 where
  pub runs : write_ref ptr bytes b ≡ some b'
  pub written : Written r.place bytes b.block b'.block
  pub same_size : b'.item_size ≡ b.item_size
  pub refs : b'.all_refs ≡ change_ref ptr (set_datalen (length bytes)) b.all_refs

pub write_ref-Wrote :
    (ptr : ℕ) (bytes : List ℕ) (b : RollBuffer) (borrowed : List ℕ) (r : ItemRef)
    → Ready b borrowed
    → Placed b ptr r
    → length bytes < r.size
    → (b' : RollBuffer) × Wrote b r ptr bytes b' × Ready b' borrowed
unfolding write_ref ◌>>=◌
write_ref-Wrote ptr bytes b borrowed r v w h =
    let (block', e, m) = write_at-Written r.place bytes b.block (omega (arith, w.inside, h)) in
    let y : ltb (length bytes) r.size ≡ true = ground (arith, h) in
    let f = set_datalen (length bytes) in
    (
      record b { block = block'; all_refs = change_ref ptr f b.all_refs },
      record { runs = rw (w.at, y, e) refl; written = m; same_size = refl; refs = refl },
      record {
        pool = record {
          placed =
              AllPlaced-change f (λ x. unfold set_datalen in refl) (λ x. unfold set_datalen in refl)
                (λ x. unfold set_datalen in refl) b ptr b.queues block' m.same_length v.pool.placed;
          once = λ x. rw (length-change_ref ptr f b.all_refs) (v.pool.once x);
        };
        complete = v.complete;
      },
    )

pub write_ref-Ready :
    (ptr : ℕ) (bytes : List ℕ) (b : RollBuffer) (borrowed : List ℕ)
    → Ready b borrowed
    → 0 < count ptr borrowed
    → IfSome (λ b'. Ready b' borrowed) (write_ref ptr bytes b)
write_ref-Ready ptr bytes b borrowed v h =
    let (r, w) = borrowed-Placed b borrowed ptr v h in
    elim (Bool-cases (ltb (length bytes) r.size)) [
      | inl y ↦
          let (b', o, k) = write_ref-Wrote ptr bytes b borrowed r v w (ground (arith, y)) in
          rw o.runs k
      | inr n ↦ unfold write_ref ◌>>=◌ in rw (w.at, n) tt
    ]

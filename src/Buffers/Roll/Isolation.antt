-- ===== src/Buffers/Roll/Isolation.antt =====
-- Callers that borrow, write and give back items in any order do not get into each other's memory.
use huicpp.Base.{
  ℕ, suc, ◌+◌, ◌*◌, ◌<◌, ◌≤◌, ◌≡◌, ◌≢◌, sym, ◌∙◌, arith, List, [], ◌∷◌, if◌then◌else◌, ltb, ◌==◌,
  Option, none, some, length, Bool-cases, inl, inr, ◌^◌, ◌⊎◌,
}
use huicpp.Base.Options.{◌>>=◌, IfSome, IfSome-get, IfSome-bind, some-Injective}
use huicpp.Buffers.Memory.{read_at, Written, Written-apart}
use huicpp.Buffers.Roll.{
  ItemRef, RollBuffer, Popped, refused, waits, given, construct_roll, roll_pop, write_ref,
  pull_back,
}
use huicpp.Buffers.Roll.Count.{count, remove_one}
use huicpp.Buffers.Roll.Invariant.{
  Placed, Ready, IfGiven, roll_pop-Ready, write_ref-Ready, write_ref-Wrote, pull_back-Ready,
  borrowed-Placed,
}
use huicpp.Buffers.Roll.Construct.{construct_roll-Ready}
use mathlib.Core.Path.{subst}
use native.Mathlib.Nat.{mul-le-mul_right}

-- The buffer, and the items that the callers have.
pub record Callers : Type 0 where
  pub buffer : RollBuffer
  pub borrowed : List ℕ

-- A call. A caller uses an item from Pop until PullBack.
pub data Call : Type 0 where
  borrow : ℕ → Call
  write_item : ℕ → List ℕ → Call
  give_back : ℕ → Call

unfoldable pub after_pop : List ℕ → Popped → Option Callers
after_pop borrowed refused = none
after_pop borrowed waits = none
after_pop borrowed (given ptr b) = some (record { buffer = b; borrowed = ptr ∷ borrowed })

-- `none`: an exception, a call that waits, or an item that the callers do not have.
unfoldable pub call : Call → Callers → Option Callers
unfolding after_pop count remove_one roll_pop write_ref pull_back ◌>>=◌
call (borrow group) s = after_pop s.borrowed (roll_pop group s.buffer)
call (write_item ptr bytes) s =
    if ltb 0 (count ptr s.borrowed)
    then (do b ← write_ref ptr bytes s.buffer; some (record s { buffer = b }))
    else none
call (give_back ptr) s =
    if ltb 0 (count ptr s.borrowed)
    then (do
      b ← pull_back ptr s.buffer
      some (record { buffer = b; borrowed = remove_one ptr s.borrowed }))
    else none

unfoldable pub calls : List Call → Callers → Option Callers
unfolding call ◌>>=◌
calls [] s = some s
calls (c ∷ cs) s = do s' ← call c s; calls cs s'

abbrev Fine : Callers → Type 0
Fine s = Ready s.buffer s.borrowed

after_pop-Fine :
    (borrowed : List ℕ) (p : Popped)
    → IfGiven (λ ptr b. Ready b (ptr ∷ borrowed)) p
    → IfSome Fine (after_pop borrowed p)
unfolding after_pop
after_pop-Fine borrowed refused h = tt
after_pop-Fine borrowed waits h = tt
after_pop-Fine borrowed (given ptr b) h = h

call-Fine : (c : Call) (s : Callers) → Fine s → IfSome Fine (call c s)
unfolding call
call-Fine (borrow g) s v =
    after_pop-Fine s.borrowed (roll_pop g s.buffer) (roll_pop-Ready g s.buffer s.borrowed v)
call-Fine (write_item ptr bytes) s v = elim (Bool-cases (ltb 0 (count ptr s.borrowed))) [
  | inl y ↦ rw y (
      IfSome-bind (λ b. Ready b s.borrowed) Fine (write_ref ptr bytes s.buffer) _
        (write_ref-Ready ptr bytes s.buffer s.borrowed v (ground (arith, y))) (λ b w. w))
  | inr n ↦ rw n tt
]
call-Fine (give_back ptr) s v = elim (Bool-cases (ltb 0 (count ptr s.borrowed))) [
  | inl y ↦ rw y (
      IfSome-bind (λ b. Ready b (remove_one ptr s.borrowed)) Fine (pull_back ptr s.buffer) _
        (pull_back-Ready ptr s.buffer s.borrowed v (ground (arith, y))) (λ b w. w))
  | inr n ↦ rw n tt
]

calls-Fine : (cs : List Call) (s : Callers) → Fine s → IfSome Fine (calls cs s)
unfolding calls
calls-Fine [] s v = v
calls-Fine (c ∷ cs) s v =
    IfSome-bind Fine Fine (call c s) _ (call-Fine c s v) (λ t w. calls-Fine cs t w)

calls_new-Fine :
    (groups items size : ℕ) (block : List ℕ) (cs : List Call) {b : RollBuffer} {s : Callers}
    → groups * items * size ≤ length block
    → length block < 2 ^ 31
    → construct_roll groups items size block ≡ some b
    → calls cs (record { buffer = b; borrowed = [] }) ≡ some s
    → Fine s
calls_new-Fine groups items size block cs {b} r h e c =
    let (b', e', v, _) = construct_roll-Ready groups items size block r h in
    let q : b' ≡ b = some-Injective (sym e' ∙ e) in
    IfSome-get Fine
      (calls-Fine cs (record { buffer = b; borrowed = [] }) (subst (λ x. Ready x []) q v)) c

-- Two places of items of one size do not overlap.
apart : (p q size : ℕ) → p ≢ q → (p * size + size ≤ q * size) ⊎ (q * size + size ≤ p * size)
apart p q size h = elim (Bool-cases (ltb p q)) [
  | inl y ↦
      let k : suc p ≤ q = ground (arith, y) in
      let m = mul-le-mul_right size k in inl (omega (arith, m))
  | inr n ↦
      let k : suc q ≤ p = ground (arith, n, h) in
      let m = mul-le-mul_right size k in inr (omega (arith, m))
]

-- A write that is shorter than an item leaves the other items.
other_item :
    (b b' : RollBuffer) (p q : ℕ) (rp : ItemRef) (bytes : List ℕ)
    → Placed b p rp
    → Written rp.place bytes b.block b'.block
    → p ≢ q
    → length bytes < b.item_size
    → read_at (q * b.item_size) b.item_size b'.block ≡ read_at (q * b.item_size) b.item_size b.block
other_item b b' p q rp bytes w r n l =
    Written-apart rp.place bytes b.block b'.block (q * b.item_size) b.item_size r
      (elim (apart p q b.item_size n) [
        | inl x ↦ inr (omega (arith, x, w.place, l))
        | inr x ↦ inl (omega (arith, x, w.place))
      ])

-- After any sequence of Pop, Write and PullBack on a new buffer in which an item is written and given back
-- only while it is borrowed: no item is borrowed twice; and a write of fewer bytes than its size to a
-- borrowed item succeeds, puts the bytes at its place, and leaves what is in every other item.
pub borrowed_isolation :
    (groups items size : ℕ) (block : List ℕ) (cs : List Call) (b : RollBuffer) (s : Callers)
    → groups * items * size ≤ length block
    → length block < 2 ^ 31
    → construct_roll groups items size block ≡ some b
    → calls cs (record { buffer = b; borrowed = [] }) ≡ some s
    → (p q : ℕ) (bytes : List ℕ) → 0 < count p s.borrowed
    → length bytes < s.buffer.item_size
    → (count p s.borrowed ≡ 1)
      × (b' : RollBuffer) × (write_ref p bytes s.buffer ≡ some b')
      × (read_at (p * s.buffer.item_size) (length bytes) b'.block ≡ some bytes)
      × ((p ≡ q)
          ⊎ (read_at (q * s.buffer.item_size) s.buffer.item_size b'.block
              ≡ read_at (q * s.buffer.item_size) s.buffer.item_size s.buffer.block))
borrowed_isolation groups items size block cs b s r h e c p q bytes hp l =
    let v = calls_new-Fine groups items size block cs r h e c in
    let (rp, wp) = borrowed-Placed s.buffer s.borrowed p v hp in
    let (b', w, _) =
      write_ref-Wrote p bytes s.buffer s.borrowed rp v wp (omega (arith, l, wp.size)) in
    (
      ground (arith, v.pool.once p, hp),
      b',
      w.runs,
      rw (← wp.place) w.written.there,
      elim (Bool-cases (p == q)) [
        | inl y ↦ inl (ground (arith, y))
        | inr n ↦ inr (other_item s.buffer b' p q rp bytes wp w.written (ground (arith, n)) l)
      ],
    )

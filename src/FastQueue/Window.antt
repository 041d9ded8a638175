-- ===== src/FastQueue/Window.antt =====
-- The items that a queue holds: the objects in the slots behind the read index, up to the write index.
use huicpp.Base.{
  ℕ, suc, ◌+◌, ◌-◌, ◌^◌, ◌<◌, ◌≤◌, ◌≡◌, ◌≢◌, arith, List, [], ◌∷◌, ◌++◌, length, ltb, if◌then◌else◌,
  Option, some, get_elem?, set, ◌∙◌, get_elem?-set_ne, ◌⊎◌,
}
use huicpp.FastQueue.{FastQueue, next_pos}

-- The slot `k` places behind the slot `h`, for `k` at most the size.
abbrev pub slot : ℕ → ℕ → ℕ → ℕ
slot size h k = if ltb (h + k) size then h + k else h + k - size

pub next_pos-slot :
    (size h k : ℕ)
    → h < size
    → suc k < size
    → size < 2 ^ 32
    → next_pos size (slot size h k) ≡ slot size h (suc k)
unfolding next_pos
next_pos-slot size h k hh hk hs = ground arith

pub slot-next_pos :
    (size h k : ℕ)
    → h < size
    → suc k < size
    → size < 2 ^ 32
    → slot size (next_pos size h) k ≡ slot size h (suc k)
unfolding next_pos
slot-next_pos size h k hh hk hs = ground arith

pub next_pos-lt : (size h : ℕ) → h < size → size < 2 ^ 32 → next_pos size h < size
unfolding next_pos
next_pos-lt size h hh hs = ground arith

pub slot-lt : (size h k : ℕ) → h < size → k < size → slot size h k < size
slot-lt size h k hh hk = ground arith

slot-ne : (size h j k : ℕ) → h < size → j < size → k < size → j ≢ k → slot size h j ≢ slot size h k
slot-ne size h j k hh hj hk n = ground arith

module _ {A : Type 0} where
  -- The slots behind the `k`th hold the items, in order.
  abbrev pub Holds : List (Option A) → ℕ → ℕ → ℕ → List A → Type 0
  Holds d size h k [] = Unit {0}
  Holds d size h k (x ∷ xs) =
      (get_elem? d (slot size h (suc k)) ≡ some (some x)) × Holds d size h (suc k) xs

  -- A write outside the items changes none of them.
  pub Holds-set :
      (d : List (Option A)) (size h k m : ℕ) (v : Option A) (xs : List A)
      → h < size
      → m < size
      → k + length xs < size
      → (m ≤ k) ⊎ (k + length xs < m)
      → Holds d size h k xs
      → Holds (set d (slot size h m) v) size h k xs
  Holds-set d size h k m v [] hh hm hk out w = tt
  Holds-set d size h k m v (x ∷ xs) hh hm hk out (e, w) = (
    get_elem?-set_ne d v (slot-ne size h m (suc k) hh hm (omega arith) (omega arith)) ∙ e,
    Holds-set d size h (suc k) m v xs hh hm (omega arith) (omega arith) w,
  )

  -- An object behind the last item is one more item.
  pub Holds-snoc :
      (d : List (Option A)) (size h k j : ℕ) (x : A) (xs : List A)
      → j ≡ suc (k + length xs)
      → Holds d size h k xs
      → get_elem? d (slot size h j) ≡ some (some x)
      → Holds d size h k (xs ++ (x ∷ []))
  Holds-snoc d size h k j x [] ej w e = let e' : j ≡ suc k = omega arith in (rw e' at e, tt)
  Holds-snoc d size h k j x (y ∷ ys) ej (p, w) e =
      (p, Holds-snoc d size h (suc k) j x ys (omega arith) w e)

  -- From the slot of the first item on, the others stand one place nearer.
  pub Holds-shift :
      (d : List (Option A)) (size h k : ℕ) (xs : List A)
      → h < size
      → size < 2 ^ 32
      → suc k + length xs < size
      → Holds d size h (suc k) xs
      → Holds d size (next_pos size h) k xs
  Holds-shift d size h k [] hh hs hk w = tt
  Holds-shift d size h k (x ∷ xs) hh hs hk (e, w) = (
    rw (slot-next_pos size h (suc k) hh (omega arith) hs) e,
    Holds-shift d size h (suc k) xs hh hs (omega arith) w,
  )

-- A queue that holds `items`. It has a slot more than it can hold items.
pub record IsQueue {A : Type 0} (q : FastQueue A) (items : List A) : Type 0 where
  pub small : q.size < 2 ^ 32
  pub slots_size : length q.slots ≡ q.size
  pub read_in : q.read_index < q.size
  pub room : length items < q.size
  pub write_at : q.write_index ≡ slot q.size q.read_index (length items)
  pub holds : Holds q.slots q.size q.read_index 0 items

pub slot-zero : (size h : ℕ) → h < size → slot size h 0 ≡ h
slot-zero size h hh = ground arith

-- All the way round.
pub next_pos-last :
    (size h k : ℕ) → h < size → suc k ≡ size → size < 2 ^ 32 → next_pos size (slot size h k) ≡ h
unfolding next_pos
next_pos-last size h k hh hk hs = ground arith

pub slot-ne_self : (size h k : ℕ) → h < size → 0 < k → k < size → slot size h k ≢ h
slot-ne_self size h k hh hk hs = ground arith

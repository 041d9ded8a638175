-- ===== src/Buffers/Roll/Count.antt =====
-- How often a pointer is in the queues of the groups.
use huicpp.Base.{
  ℕ, zero, suc, ◌+◌, ◌<◌, ◌≡◌, refl, ap, arith, List, [], ◌∷◌, ◌++◌, if◌then◌else◌, ◌==◌, some, set,
  get_elem?, length, Bool-cases, inl, inr,
}
use huicpp.Base.Options.{some-Injective}

unfoldable pub count : ℕ → List ℕ → ℕ
count x [] = 0
count x (y ∷ ys) = (if x == y then 1 else 0) + count x ys

unfoldable pub total : ℕ → List (List ℕ) → ℕ
unfolding count
total x [] = 0
total x (q ∷ qs) = count x q + total x qs

pub count-cons : (x y : ℕ) (ys : List ℕ) → count x (y ∷ ys) ≡ (if x == y then 1 else 0) + count x ys
unfolding count
count-cons x y ys = refl

pub count-nil : (x : ℕ) → count x [] ≡ 0
unfolding count
count-nil x = refl

pub queue_at :
    (qs : List (List ℕ)) (g : ℕ) → g < length qs → (q : List ℕ) × (get_elem? qs g ≡ some q)
queue_at [] g h = absurd (omega arith)
queue_at (q ∷ qs) zero h = (q, refl)
queue_at (q ∷ qs) (suc g) h = queue_at qs g (omega arith)

pub count-append : (x : ℕ) (xs ys : List ℕ) → count x (xs ++ ys) ≡ count x xs + count x ys
unfolding count
count-append x [] ys = omega arith
count-append x (y ∷ xs) ys = let e = count-append x xs ys in omega (arith, e)

pub total-append :
    (x : ℕ) (qs : List (List ℕ)) (q : List ℕ) → total x (qs ++ (q ∷ [])) ≡ total x qs + count x q
unfolding total
total-append x [] q = omega arith
total-append x (p ∷ qs) q = let e = total-append x qs q in omega (arith, e)

-- A queue takes the place of another.
pub total-set :
    (x : ℕ) (qs : List (List ℕ)) (g : ℕ) {q : List ℕ} (q' : List ℕ)
    → get_elem? qs g ≡ some q
    → total x (set qs g q') + count x q ≡ total x qs + count x q'
unfolding total
total-set x [] g q' e = ground (arith, e)
total-set x (p ∷ qs) zero q' e = let f = ap (count x) (some-Injective e) in omega (arith, f)
total-set x (p ∷ qs) (suc g) q' e = let i = total-set x qs g q' e in omega (arith, i)

-- One occurrence less.
unfoldable pub remove_one : ℕ → List ℕ → List ℕ
remove_one x [] = []
remove_one x (y ∷ ys) = if x == y then ys else (y ∷ remove_one x ys)

pub count-remove_one :
    (x p : ℕ) (ys : List ℕ)
    → 0 < count p ys
    → count x (remove_one p ys) + (if x == p then 1 else 0) ≡ count x ys
unfolding remove_one count
count-remove_one x p [] h = ground (arith, h)
count-remove_one x p (y ∷ ys) h = elim (Bool-cases (p == y)) [
  | inl e ↦ rw e (ground (arith, e))
  | inr n ↦
      let h' : 0 < count p ys = ground (arith, h, n) in
      let i = count-remove_one x p ys h' in rw n (omega (arith, i))
]

-- ===== src/Str/Pieces.antt =====
-- Texts put together of pieces with one character between them, and what Split makes of them.
use huicpp.Base.{
  ℕ, ◌≡◌, ◌≢◌, refl, sym, ap, ap₂, ◌∙◌, arith, List, [], ◌∷◌, ◌++◌, All, append-nil, append_assoc,
  true, false, ◌==◌, Bool-cases, Option-cases, inl, inr, none, some,
}
use huicpp.Str.{Str, Ret, find, is_prefix, plus, split}
use huicpp.Str.Split.{join, Pieces, split_lem}

-- No character is `c`.
abbrev pub Free : ℕ → Str → Type 0
Free c s = All (λ d. (d == c) ≡ false) s

find-Free : (c : ℕ) (s : Str) → find s (c ∷ []) ≡ none → Free c s
unfolding find is_prefix plus
find-Free c [] e = tt
find-Free c (d ∷ s) e = elim (Bool-cases (is_prefix (c ∷ []) (d ∷ s))) [
  | inl y ↦ absurd (ground (arith, rw y at e))
  | inr n ↦ elim (Option-cases (find s (c ∷ []))) [
    | inl m ↦ (ground (arith, n), find-Free c s m)
    | inr (i, m) ↦ absurd (ground (arith, rw (n, m) at e))
  ]
]

Free-find : (c : ℕ) (s : Str) → Free c s → find s (c ∷ []) ≡ none
unfolding find is_prefix plus
Free-find c [] h = refl
Free-find c (d ∷ s) (h, hs) =
    let n : is_prefix (c ∷ []) (d ∷ s) ≡ false = ground (arith, h) in rw (n, Free-find c s hs) refl

-- Two texts without `c`, each at the end or before a `c`, begin in the same way only if they are the same.
abbrev Stops : ℕ → Str → Type 0
Stops c [] = Unit
Stops c (d ∷ s) = (d == c) ≡ true

same_front :
    (c : ℕ) (x y s t : Str)
    → Free c x
    → Free c y
    → Stops c s
    → Stops c t
    → x ++ s ≡ y ++ t
    → (x ≡ y) × (s ≡ t)
same_front c [] [] s t f g p q e = (refl, e)
same_front c [] (d ∷ y) [] t f g p q e = absurd (ground (arith, e))
same_front c [] (d ∷ y) (k ∷ s) t f g p q e = absurd (ground (arith, e, p, g.0))
same_front c (d ∷ x) [] s [] f g p q e = absurd (ground (arith, e))
same_front c (d ∷ x) [] s (k ∷ t) f g p q e = absurd (ground (arith, e, q, f.0))
same_front c (d ∷ x) (k ∷ y) s t f g p q e =
    let h : d ≡ k = ground (arith, e) in
    let r : x ++ s ≡ y ++ t = cc e in
    let (u, v) = same_front c x y s t f.1 g.1 p q r in (ap₂ (λ a b. a ∷ b) h u, v)

-- What follows the first of some pieces.
tail_of : List Str → Str → Str
tail_of [] key = []
tail_of (x ∷ xs) key = key ++ join (x ∷ xs) key

join-cons : (x : Str) (xs : List Str) (key : Str) → join (x ∷ xs) key ≡ x ++ tail_of xs key
unfolding join tail_of
join-cons x [] key = sym (append-nil x)
join-cons x (y ∷ ys) key = append_assoc x key (join (y ∷ ys) key)

tail_of-Stops : (c : ℕ) (xs : List Str) → Stops c (tail_of xs (c ∷ []))
unfolding tail_of
tail_of-Stops c [] = tt
tail_of-Stops c (x ∷ xs) = ground arith

fronts :
    (c : ℕ) (x y : Str) (xs ys : List Str)
    → Free c x
    → Free c y
    → join (x ∷ xs) (c ∷ []) ≡ join (y ∷ ys) (c ∷ [])
    → (x ≡ y) × (tail_of xs (c ∷ []) ≡ tail_of ys (c ∷ []))
fronts c x y xs ys f g e =
    same_front c x y (tail_of xs (c ∷ [])) (tail_of ys (c ∷ [])) f g (tail_of-Stops c xs)
      (tail_of-Stops c ys) (sym (join-cons x xs (c ∷ [])) ∙ e ∙ join-cons y ys (c ∷ []))

-- Pieces without `c` are known from the text with `c` between them.
join_injective :
    (c : ℕ) (x y : Str) (xs ys : List Str)
    → All (Free c) (x ∷ xs)
    → All (Free c) (y ∷ ys)
    → join (x ∷ xs) (c ∷ []) ≡ join (y ∷ ys) (c ∷ [])
    → x ∷ xs ≡ y ∷ ys
unfolding tail_of join
join_injective c x y [] [] (f, fs) (g, gs) e = ap (λ a. a ∷ []) e
join_injective c x y [] (b ∷ ys) (f, fs) (g, gs) e =
    let (u, v) = fronts c x y [] (b ∷ ys) f g e in absurd (ground (arith, v))
join_injective c x y (a ∷ xs) [] (f, fs) (g, gs) e =
    let (u, v) = fronts c x y (a ∷ xs) [] f g e in absurd (ground (arith, v))
join_injective c x y (a ∷ xs) (b ∷ ys) (f, fs) (g, gs) e =
    let (u, v) = fronts c x y (a ∷ xs) (b ∷ ys) f g e in
    ap₂ (λ p q. p ∷ q) u (join_injective c a b xs ys fs gs (cc v))

pub Pieces-Free : (c : ℕ) (xs : List Str) → Pieces xs (c ∷ []) → All (Free c) xs
unfolding Pieces
Pieces-Free c [] h = tt
Pieces-Free c (x ∷ xs) (h, hs) = (find-Free c x h, Pieces-Free c xs hs)

-- Split gives back the pieces that were put together.
pub split-join :
    (c : ℕ) (x : Str) (xs : List Str)
    → join (x ∷ xs) (c ∷ []) ≢ []
    → All (Free c) (x ∷ xs)
    → split (join (x ∷ xs) (c ∷ [])) (c ∷ []) 0 ≡ some (Ret.ok, x ∷ xs)
unfolding join
split-join c x xs h f =
    let (pieces, result, joined, free) =
      split_lem (join (x ∷ xs) (c ∷ [])) c [] 0 h (omega arith) in
    result ∙ ap (λ p. some (Ret.ok, p)) (same pieces (Pieces-Free c pieces free) joined)
  where
    same :
        (ys : List Str) → All (Free c) ys → join ys (c ∷ []) ≡ join (x ∷ xs) (c ∷ []) → ys ≡ x ∷ xs
    same [] g e = absurd (h (sym e))
    same (y ∷ ys) g e = join_injective c y x ys xs g f e

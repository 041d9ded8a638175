-- ===== src/Str/Split.antt =====
-- Split, and V2Str of its pieces.
use huicpp.Base.{
  ℕ, zero, suc, ◌+◌, ◌-◌, ◌%◌, ◌^◌, ◌<◌, ◌≤◌, ◌≡◌, ◌≢◌, refl, sym, ap, ◌∙◌, arith, List, [], ◌∷◌,
  ◌++◌, length, take, drop, All, false, ltb, Option-cases, inl, inr, Option, none, some,
  append_assoc, append-nil, drop-drop, length-append, length-drop,
}
use huicpp.Base.Options.{◌>>=◌}
use huicpp.Str.{Str, find, substr, split_loop, split, is_empty, Ret, v2str, v2str_loop}
use huicpp.Str.Find.{find_from_missing, find_from_found, find-Occurs, find-take}

-- The pieces with the key between them.
unfoldable pub join : List Str → Str → Str
join [] key = []
join (x ∷ xs) key = let rest = join xs key in elim xs [ [] ↦ x | _ ∷ _ ↦ x ++ key ++ rest ]

-- No piece contains the key.
unfoldable pub Pieces : List Str → Str → Type 0
Pieces xs key = All (λ x. find x key ≡ none) xs

pub record Splits (o : Option (List Str)) (s key : Str) : Type 0 where
  pub first : Str
  pub others : List Str
  pub result : o ≡ some (first ∷ others)
  pub joined : join (first ∷ others) key ≡ s
  pub separate : Pieces (first ∷ others) key

module _ (s : Str) (c : ℕ) (key : Str) where
  last :
      (fuel beg : ℕ)
      → beg ≤ length s
      → find (drop beg s) (c ∷ key) ≡ none
      → Splits (split_loop (suc fuel) s (c ∷ key) beg) (drop beg s) (c ∷ key)
  unfolding split_loop substr join Pieces ◌>>=◌
  last fuel beg h e =
      let b : ltb (length s) beg ≡ false = ground arith in
      record {
        first = drop beg s;
        others = [];
        result = rw (split_loop, find_from_missing s (c ∷ key) beg h e, b) refl;
        joined = refl;
        separate = (e, tt);
      }

  -- A piece before the others.
  round :
      (fuel beg p : ℕ)
      → beg ≤ length s
      → find (drop beg s) (c ∷ key) ≡ some p
      → Splits
          (split_loop fuel s (c ∷ key) (p + beg + suc (length key)))
          (drop (p + beg + suc (length key)) s)
          (c ∷ key)
      → Splits (split_loop (suc fuel) s (c ∷ key) beg) (drop beg s) (c ∷ key)
  unfolding split_loop join Pieces ◌>>=◌
  round fuel beg p h e g =
      let o = find-Occurs (drop beg s) (c ∷ key) p e in
      let d : drop (p + beg + suc (length key)) s ≡ drop (suc (length key)) (drop p (drop beg s)) =
        ap (λ n. drop n s) (omega arith)
        ∙ sym (
            ap (drop (suc (length key))) (drop-drop beg p s)
            ∙ drop-drop (beg + p) (suc (length key)) s) in
      let n : p + beg - beg ≡ p = omega arith in
      record {
        first = take p (drop beg s);
        others = g.first ∷ g.others;
        result = rw (split_loop, find_from_found s (c ∷ key) beg p h e, g.result, n) refl;
        joined = rw (g.joined, d) (sym o.parts);
        separate = (find-take (drop beg s) c key p e, g.separate);
      }

  splits :
      (fuel beg : ℕ)
      → beg ≤ length s
      → length s - beg < fuel
      → Splits (split_loop fuel s (c ∷ key) beg) (drop beg s) (c ∷ key)
  splits zero beg h hf = absurd (omega arith)
  splits (suc fuel) beg h hf = elim (Option-cases (find (drop beg s) (c ∷ key))) [
    | inl e ↦ last fuel beg h e
    | inr (p, e) ↦
        (let f = (find-Occurs (drop beg s) (c ∷ key) p e).fits in
          let l = length-drop beg s in
          round fuel beg p h e
            (splits fuel (p + beg + suc (length key)) (omega (arith, f, l)) (omega (arith, f, l))))
  ]

shape :
    (s : Str) (c : ℕ) (key : Str) (beg : ℕ)
    → s ≢ []
    → beg ≤ length s
    → (g : Splits (split_loop (suc (length s)) s (c ∷ key) beg) (drop beg s) (c ∷ key)) × (split s
          (c ∷ key)
          beg
        ≡ some (Ret.ok, g.first ∷ g.others))
unfolding split is_empty ◌>>=◌
shape [] c key beg hs h = absurd (hs refl)
shape (d ∷ s) c key beg hs h =
    let g = splits (d ∷ s) c key (suc (suc (length s))) beg h (omega arith) in (g, rw g.result refl)

-- The pieces of a string that is not empty, from a place in it: with the key between them they give
-- the string back, and no piece contains the key.
pub split_lem :
    (s : Str) (c : ℕ) (key : Str) (beg : ℕ)
    → s ≢ []
    → beg ≤ length s
    → (pieces : List Str) × (split s (c ∷ key) beg ≡ some (Ret.ok, pieces))
      × (join pieces (c ∷ key) ≡ drop beg s)
      × Pieces pieces (c ∷ key)
split_lem s c key beg hs h =
    let (g, j) = shape s c key beg hs h in (g.first ∷ g.others, j, g.joined, g.separate)

v2str_loop-join :
    (x : Str) (xs : List Str) (key : Str) → v2str_loop (x ∷ xs) key ≡ join (x ∷ xs) key ++ key
unfolding v2str_loop join
v2str_loop-join x [] key = append-nil (x ++ key)
v2str_loop-join x (y ∷ ys) key =
    ap (λ r. x ++ key ++ r) (v2str_loop-join y ys key)
    ∙ sym (append_assoc (x ++ key) (join (y ∷ ys) key) key)

take-append_right : (xs ys : Str) (n : ℕ) → take (length xs + n) (xs ++ ys) ≡ xs ++ take n ys
take-append_right [] ys n = ap (λ m. take m ys) (omega arith)
take-append_right (x ∷ xs) ys n =
    let e : suc (length xs) + n ≡ suc (length xs + n) = omega arith in
    rw e (ap (λ r. x ∷ r) (take-append_right xs ys n))

v2str-join :
    (x : Str) (xs : List Str) (c : ℕ) (key : Str) {t : Str}
    → join (x ∷ xs) (c ∷ key) ≡ t
    → length t + length (c ∷ key) < 2 ^ 64
    → v2str (x ∷ xs) (c ∷ key) ≡ t ++ take (length key) (c ∷ key)
unfolding v2str is_empty
v2str-join x xs c key {t} e h =
    let r : v2str_loop (x ∷ xs) (c ∷ key) ≡ t ++ (c ∷ key) =
      v2str_loop-join x xs (c ∷ key) ∙ ap (λ y. y ++ (c ∷ key)) e in
    let n : (length (t ++ (c ∷ key)) + 2 ^ 64 - 1) % 2 ^ 64 ≡ length t + length key =
      omega (arith, length-append t (c ∷ key), h) in
    rw (r, n) (take-append_right t (c ∷ key) (length key))

-- V2Str of the pieces that Split gives, with the same key: the string comes back with the key after
-- it, but for the key's last character. With a key of one character it is the string itself.
pub v2str-split :
    (s : Str) (c : ℕ) (key : Str) (beg : ℕ)
    → s ≢ []
    → beg ≤ length s
    → length s + length (c ∷ key) < 2 ^ 64
    → (pieces : List Str) × (split s (c ∷ key) beg ≡ some (Ret.ok, pieces))
      × (v2str pieces (c ∷ key) ≡ drop beg s ++ take (length key) (c ∷ key))
v2str-split s c key beg hs h hl =
    let (g, j) = shape s c key beg hs h in
    (
      g.first ∷ g.others,
      j,
      v2str-join g.first g.others c key g.joined (omega (arith, length-drop beg s, hl)),
    )

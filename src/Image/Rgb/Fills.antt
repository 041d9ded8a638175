-- ===== src/Image/Rgb/Fills.antt =====
-- Writes that go on from one place to the next keep what was written before.
use huicpp.Base.{
  ℕ, ◌+◌, ◌≤◌, ◌<◌, ◌≡◌, refl, ◌∙◌, arith, List, length, length-set, true, ltb, Option, some, set,
  get_elem?, get_elem?-set_self, get_elem?-set_ne,
}
use huicpp.Base.Options.{◌>>=◌}
use huicpp.Image.Rgb.{write_byte}

-- A result that keeps the bytes before the place `n`, and has a property.
pub record Fills (n : ℕ) (o : Option (List ℕ)) (pixels : List ℕ) (P : List ℕ → Type 0)
    : Type 0 where
  pub image : List ℕ
  pub result : o ≡ some image
  pub same_length : length image ≡ length pixels
  pub front : (k : ℕ) → k < n → get_elem? image k ≡ get_elem? pixels k
  pub done : P image

abbrev pub three : ℕ → ℕ → ℕ → ℕ → List ℕ → Option (List ℕ)
three n r g b pixels =
    write_byte n r pixels >>= (λ p. write_byte (n + 1) g p >>= (λ q. write_byte (n + 2) b q))

pub three-Fills :
    (n r g b : ℕ) (pixels : List ℕ)
    → n + 3 ≤ length pixels
    → Fills n (three n r g b pixels) pixels (λ p.
      (get_elem? p n ≡ some r) × (get_elem? p (n + 1) ≡ some g) × (get_elem? p (n + 2) ≡ some b))
unfolding write_byte ◌>>=◌
three-Fills n r g b pixels l =
    let p = set pixels n r in
    let q = set p (n + 1) g in
    let lp = length-set pixels n r in
    let lq = length-set p (n + 1) g in
    let a : ltb n (length pixels) ≡ true = ground (arith, l) in
    let c : ltb (n + 1) (length p) ≡ true = ground (arith, l, lp) in
    let d : ltb (n + 2) (length q) ≡ true = ground (arith, l, lp, lq) in
    record {
      image = set q (n + 2) b;
      result = rw (a, c, d) refl;
      same_length = length-set q (n + 2) b ∙ lq ∙ lp;
      front = λ k h.
          get_elem?-set_ne q b (λ e. omega (arith, e, h))
          ∙ get_elem?-set_ne p g (λ e. omega (arith, e, h))
          ∙ get_elem?-set_ne pixels r (λ e. omega (arith, e, h));
      done = (
        get_elem?-set_ne q b (λ e. omega (arith, e))
            ∙ get_elem?-set_ne p g (λ e. omega (arith, e))
            ∙ get_elem?-set_self pixels n r (omega (arith, l)),
        get_elem?-set_ne q b (λ e. omega (arith, e))
            ∙ get_elem?-set_self p (n + 1) g (omega (arith, l, lp)),
        get_elem?-set_self q (n + 2) b (omega (arith, l, lp, lq)),
      );
    }

-- One result after another, which keeps more of the front.
pub Fills-bind :
    (n m : ℕ) (o : Option (List ℕ)) (f : List ℕ → Option (List ℕ)) (pixels : List ℕ)
    (P Q R : List ℕ → Type 0)
    → n ≤ m
    → Fills n o pixels P
    → ((p : List ℕ) → length p ≡ length pixels → Fills m (f p) p Q)
    → ((p q : List ℕ) → P p → ((k : ℕ) → k < m → get_elem? q k ≡ get_elem? p k) → Q q → R q)
    → Fills n (o >>= f) pixels R
unfolding ◌>>=◌
Fills-bind n m o f pixels P Q R l a k r =
    let b = k a.image a.same_length in
    record {
      image = b.image;
      result = rw (a.result, b.result) refl;
      same_length = b.same_length ∙ a.same_length;
      front = λ x h. b.front x (omega (arith, h, l)) ∙ a.front x h;
      done = r a.image b.image a.done b.front b.done;
    }

-- ===== src/Image/Rgb/Rows.antt =====
-- Which bytes of the image FromNV21 writes.
use huicpp.Base.{
  ℕ, zero, suc, ◌+◌, ◌-◌, ◌*◌, ◌/◌, ◌%◌, ◌≤◌, ◌<◌, ◌≡◌, refl, ◌∙◌, arith, List, [], ◌∷◌, length,
  length-set, drop, true, ltb, Option, some, set, get_elem?,
}
use huicpp.Base.Options.{◌>>=◌}
use huicpp.Image.Rgb.{
  nv21_blue, nv21_green, nv21_red, write_byte, nv21_pixel, nv21_row, nv21_rows, from_nv21,
}
use native.Mathlib.Nat.{mul-le-mul_right}

-- A result that leaves the bytes from `n` on.
pub record Leaves (n : ℕ) (o : Option (List ℕ)) (pixels : List ℕ) : Type 0 where
  pub bytes : List ℕ
  pub result : o ≡ some bytes
  pub same_length : length bytes ≡ length pixels
  pub behind : drop n bytes ≡ drop n pixels

drop-set : (n i : ℕ) (v : ℕ) (xs : List ℕ) → i < n → drop n (set xs i v) ≡ drop n xs
drop-set zero i v xs h = absurd (omega (arith, h))
drop-set (suc n) i v [] h = refl
drop-set (suc n) zero v (x ∷ xs) h = refl
drop-set (suc n) (suc i) v (x ∷ xs) h = drop-set n i v xs (omega (arith, h))

pub write_byte-Leaves :
    (n i b : ℕ) (pixels : List ℕ)
    → i < n
    → n ≤ length pixels
    → Leaves n (write_byte i b pixels) pixels
unfolding write_byte
write_byte-Leaves n i b pixels h l =
    let t : ltb i (length pixels) ≡ true = ground (arith, h, l) in
    record {
      bytes = set pixels i b;
      result = rw t refl;
      same_length = length-set pixels i b;
      behind = drop-set n i b pixels h;
    }

pub Leaves-bind :
    (n : ℕ) (o : Option (List ℕ)) (f : List ℕ → Option (List ℕ)) (pixels : List ℕ)
    → Leaves n o pixels
    → ((p : List ℕ) → length p ≡ length pixels → Leaves n (f p) p)
    → Leaves n (o >>= f) pixels
unfolding ◌>>=◌
Leaves-bind n o f pixels a k =
    let b = k a.bytes a.same_length in
    record {
      bytes = b.bytes;
      result = rw (a.result, b.result) refl;
      same_length = b.same_length ∙ a.same_length;
      behind = b.behind ∙ a.behind;
    }

pub Leaves-self : (n : ℕ) (pixels : List ℕ) → Leaves n (some pixels) pixels
Leaves-self n pixels = record { bytes = pixels; result = refl; same_length = refl; behind = refl }

pub byte_at : (xs : List ℕ) (i : ℕ) → i < length xs → (x : ℕ) × (get_elem? xs i ≡ some x)
byte_at [] i h = absurd (omega (arith, h))
byte_at (x ∷ xs) zero h = (x, refl)
byte_at (x ∷ xs) (suc i) h = byte_at xs i (omega (arith, h))

-- Three writes behind each other.
pub three-Leaves :
    (n k r g b : ℕ) (pixels : List ℕ)
    → k * 3 + 3 ≤ n
    → n ≤ length pixels
    → Leaves n
        (write_byte (k * 3) r pixels
          >>= (λ p. write_byte (k * 3 + 1) g p >>= (λ q. write_byte (k * 3 + 2) b q)))
        pixels
three-Leaves n k r g b pixels h l =
    Leaves-bind n (write_byte (k * 3) r pixels) _ pixels
      (write_byte-Leaves n (k * 3) r pixels (omega (arith, h)) l)
      (λ p e.
        Leaves-bind n (write_byte (k * 3 + 1) g p) _ p
          (write_byte-Leaves n (k * 3 + 1) g p (omega (arith, h)) (omega (arith, l, e)))
          (λ q f. write_byte-Leaves n (k * 3 + 2) b q (omega (arith, h)) (omega (arith, l, e, f))))

-- The sizes of an image with `w` pairs of columns and `h` pairs of rows.
module _ (bytes : List ℕ) (w h : ℕ) (size : length bytes ≡ h * 2 * (w * 2) + h * (w * 2)) where
  chroma_lem :
      (i j : ℕ)
      → i < h * 2
      → j < w * 2
      → w * 2 * (h * 2) + (i / 2 * (w * 2) + j - j % 2) + 1 < length bytes
  chroma_lem i j hi hj =
      let m = mul-le-mul_right {m = suc (i / 2)} {n = h} (w * 2) (omega (arith, hi)) in
      omega (arith, m, size, hj)

  nv21_pixel-Leaves :
      (i j : ℕ) (pixels : List ℕ)
      → i < h * 2
      → j < w * 2
      → w * 2 * 3 ≤ length pixels
      → Leaves (w * 2 * 3) (nv21_pixel bytes (w * 2) (h * 2) i j pixels) pixels
  unfolding nv21_pixel ◌>>=◌
  nv21_pixel-Leaves i j pixels hi hj l =
      let c = chroma_lem i j hi hj in
      let m = mul-le-mul_right {m = 1} {n = h * 2} (w * 2) (omega (arith, hi)) in
      let (y, ey) = byte_at bytes j (omega (arith, m, size, hj)) in
      let (u, eu) =
        byte_at bytes (w * 2 * (h * 2) + (i / 2 * (w * 2) + j - j % 2)) (omega (arith, c)) in
      let (v, ev) = byte_at bytes (w * 2 * (h * 2) + (i / 2 * (w * 2) + j - j % 2) + 1) c in
      rw (ey, eu, ev)
        (three-Leaves (w * 2 * 3) j (nv21_blue y u v) (nv21_green y u v) (nv21_red y u v) pixels
          (omega (arith, hj)) l)

  nv21_row-Leaves :
      (left i j : ℕ) (pixels : List ℕ)
      → i < h * 2
      → j + left ≡ w * 2
      → w * 2 * 3 ≤ length pixels
      → Leaves (w * 2 * 3) (nv21_row left bytes (w * 2) (h * 2) i j pixels) pixels
  unfolding nv21_row
  nv21_row-Leaves zero i j pixels hi e l = Leaves-self (w * 2 * 3) pixels
  nv21_row-Leaves (suc left) i j pixels hi e l =
      Leaves-bind (w * 2 * 3) (nv21_pixel bytes (w * 2) (h * 2) i j pixels) _ pixels
        (nv21_pixel-Leaves i j pixels hi (omega (arith, e)) l)
        (λ p f. nv21_row-Leaves left i (suc j) p hi (omega (arith, e)) (omega (arith, l, f)))

  nv21_rows-Leaves :
      (left i : ℕ) (pixels : List ℕ)
      → i + left ≡ h * 2
      → w * 2 * 3 ≤ length pixels
      → Leaves (w * 2 * 3) (nv21_rows left bytes (w * 2) (h * 2) i pixels) pixels
  unfolding nv21_rows
  nv21_rows-Leaves zero i pixels e l = Leaves-self (w * 2 * 3) pixels
  nv21_rows-Leaves (suc left) i pixels e l =
      Leaves-bind (w * 2 * 3) (nv21_row (w * 2) bytes (w * 2) (h * 2) i 0 pixels) _ pixels
        (nv21_row-Leaves (w * 2) i 0 pixels (omega (arith, e)) (omega arith) l)
        (λ p f. nv21_rows-Leaves left (suc i) p (omega (arith, e)) (omega (arith, l, f)))

-- For an image of `w` pairs of columns and `h` pairs of rows, FromNV21 stays inside of its memory and
-- writes the first row only: the bytes of all the other rows are those that malloc gave.
pub from_nv21_lem :
    (bytes memory : List ℕ) (w h : ℕ)
    → length bytes ≡ h * 2 * (w * 2) + h * (w * 2)
    → w * 2 * 3 ≤ length memory
    → (image : List ℕ) × (from_nv21 bytes (w * 2) (h * 2) memory ≡ some image)
      × (length image ≡ length memory)
      × (drop (w * 2 * 3) image ≡ drop (w * 2 * 3) memory)
unfolding from_nv21
from_nv21_lem bytes memory w h size l =
    let r = nv21_rows-Leaves bytes w h size (h * 2) 0 memory (omega arith) l in
    (r.bytes, r.result, r.same_length, r.behind)

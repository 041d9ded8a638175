-- ===== src/Image/Rgb/Pixels.antt =====
-- What each pixel of the image of FromYuv420sp is.
use huicpp.Base.{
  ℕ, zero, suc, ◌+◌, ◌*◌, ◌/◌, ◌≤◌, ◌<◌, ◌≡◌, refl, ◌∙◌, arith, List, length, ◌==◌, ◌%◌, ◌^◌, ltb,
  true, some, get_elem?, Bool-cases, inl, inr,
}
use huicpp.Base.Options.{◌>>=◌}
use huicpp.Image.Rgb.{
  sp_red, sp_green, sp_blue, sp_pixel, sp_row, sp_rows, rgb_size, as_int, from_yuv420sp,
}
use huicpp.Image.Rgb.Rows.{byte_at}
use huicpp.Image.Rgb.Fills.{Fills, three, three-Fills, Fills-bind}
use mathlib.Core.Path.{subst}
use native.Mathlib.Nat.{mul-le-mul_right}

-- The pixel of row `j` and column `i` is made of its own luminance and the two chrominance values of
-- its square of four pixels.
pub record IsPixel (bytes : List ℕ) (width height : ℕ) (image : List ℕ) (j i : ℕ) : Type 0 where
  pub y : ℕ
  pub u : ℕ
  pub v : ℕ
  pub luminance : get_elem? bytes (j * width + i) ≡ some y
  pub first : get_elem? bytes (width * height + (i / 2 + j / 2 * (width / 2)) * 2) ≡ some u
  pub second : get_elem? bytes (width * height + ((i / 2 + j / 2 * (width / 2)) * 2 + 1)) ≡ some v
  pub red : get_elem? image ((j * width + i) * 3) ≡ some (sp_red y u v)
  pub green : get_elem? image ((j * width + i) * 3 + 1) ≡ some (sp_green y u v)
  pub blue : get_elem? image ((j * width + i) * 3 + 2) ≡ some (sp_blue y u v)

as_int-some : (n : ℕ) → n < 2 ^ 31 → as_int n ≡ some n
unfolding as_int
as_int-some n h = let t : ltb n (2 ^ 31) ≡ true = ground (arith, h) in rw t refl

module _ (bytes : List ℕ) (w h : ℕ) (size : length bytes ≡ h * 2 * (w * 2) + h * (w * 2))
    (room : h * 2 * (w * 2) * 3 < 2 ^ 32) where
  IsPixel-later :
      (p q : List ℕ) (j i m : ℕ)
      → IsPixel bytes (w * 2) (h * 2) p j i
      → (j * (w * 2) + i) * 3 + 3 ≤ m
      → ((k : ℕ) → k < m → get_elem? q k ≡ get_elem? p k)
      → IsPixel bytes (w * 2) (h * 2) q j i
  IsPixel-later p q j i m d l f = record {
    y = d.y;
    u = d.u;
    v = d.v;
    luminance = d.luminance;
    first = d.first;
    second = d.second;
    red = f ((j * (w * 2) + i) * 3) (omega (arith, l)) ∙ d.red;
    green = f ((j * (w * 2) + i) * 3 + 1) (omega (arith, l)) ∙ d.green;
    blue = f ((j * (w * 2) + i) * 3 + 2) (omega (arith, l)) ∙ d.blue;
  }

  chroma_in :
      (j i : ℕ)
      → j < h * 2
      → i < w * 2
      → w * 2 * (h * 2) + ((i / 2 + j / 2 * (w * 2 / 2)) * 2 + 1) < length bytes
  chroma_in j i hj hi =
      let e : w * 2 / 2 ≡ w = omega arith in
      let m = mul-le-mul_right {m = suc (j / 2)} {n = h} w (omega (arith, hj)) in
      rw e (omega (arith, m, size, hi))

  chroma_small : (j i : ℕ) → j < h * 2 → i < w * 2 → (i / 2 + j / 2 * (w * 2 / 2)) * 2 + 1 < 2 ^ 31
  chroma_small j i hj hi =
      let e : w * 2 / 2 ≡ w = omega arith in
      let m = mul-le-mul_right {m = suc (j / 2)} {n = h} w (omega (arith, hj)) in
      rw e (omega (arith, m, room, hi))

  luminance_in : (j i : ℕ) → j < h * 2 → i < w * 2 → j * (w * 2) + i < h * 2 * (w * 2)
  luminance_in j i hj hi =
      let m = mul-le-mul_right {m = suc j} {n = h * 2} (w * 2) (omega (arith, hj)) in
      omega (arith, m, hi)

  -- Nothing wraps in a pixel of the image.
  sp_pixel-three :
      (j i at y u v : ℕ) (pixels : List ℕ)
      → j < h * 2
      → i < w * 2
      → get_elem? bytes at ≡ some y
      → get_elem? bytes (w * 2 * (h * 2) + (i / 2 + j / 2 * (w * 2 / 2)) * 2) ≡ some u
      → get_elem? bytes (w * 2 * (h * 2) + ((i / 2 + j / 2 * (w * 2 / 2)) * 2 + 1)) ≡ some v
      → sp_pixel bytes (w * 2) (h * 2) j i at pixels
        ≡ three (at * 3) (sp_red y u v) (sp_green y u v) (sp_blue y u v) pixels
  unfolding sp_pixel ◌>>=◌
  sp_pixel-three j i at y u v pixels hj hi ey eu ev =
      let area : w * 2 * (h * 2) ≡ h * 2 * (w * 2) = omega arith in
      let wide : w * 2 * (h * 2) % 2 ^ 32 ≡ w * 2 * (h * 2) = omega (arith, area, room) in
      let index = as_int-some ((i / 2 + j / 2 * (w * 2 / 2)) * 2 + 1) (chroma_small j i hj hi) in
      rw (ey, index, wide, eu, ev) refl

  sp_pixel-Fills :
      (j i at : ℕ) (pixels : List ℕ)
      → j * (w * 2) + i ≡ at
      → j < h * 2
      → i < w * 2
      → h * 2 * (w * 2) * 3 ≤ length pixels
      → Fills
          (at * 3)
          (sp_pixel bytes (w * 2) (h * 2) j i at pixels)
          pixels
          (λ p. IsPixel bytes (w * 2) (h * 2) p j i)
  sp_pixel-Fills j i at pixels e hj hi l =
      let c = chroma_in j i hj hi in
      let k = luminance_in j i hj hi in
      let (y, ey) = byte_at bytes at (omega (arith, k, e, size)) in
      let (u, eu) =
        byte_at bytes (w * 2 * (h * 2) + (i / 2 + j / 2 * (w * 2 / 2)) * 2) (omega (arith, c)) in
      let (v, ev) = byte_at bytes (w * 2 * (h * 2) + ((i / 2 + j / 2 * (w * 2 / 2)) * 2 + 1)) c in
      let t =
        three-Fills (at * 3) (sp_red y u v) (sp_green y u v) (sp_blue y u v) pixels
          (omega (arith, k, e, l)) in
      record {
        image = t.image;
        result = sp_pixel-three j i at y u v pixels hj hi ey eu ev ∙ t.result;
        same_length = t.same_length;
        front = t.front;
        done = record {
          y = y;
          u = u;
          v = v;
          luminance = rw e ey;
          first = eu;
          second = ev;
          red = rw e t.done.0;
          green = rw e t.done.1;
          blue = rw e t.done.2;
        };
      }

  abbrev RowDone : ℕ → ℕ → List ℕ → Type 0
  RowDone j i p = (x : ℕ) → i ≤ x → x < w * 2 → IsPixel bytes (w * 2) (h * 2) p j x

  sp_row-Fills :
      (left j i at : ℕ) (pixels : List ℕ)
      → j * (w * 2) + i ≡ at
      → j < h * 2
      → i + left ≡ w * 2
      → h * 2 * (w * 2) * 3 ≤ length pixels
      → Fills (at * 3) (sp_row left bytes (w * 2) (h * 2) j i at pixels) pixels (RowDone j i)
  unfolding sp_row
  sp_row-Fills zero j i at pixels e hj n l = record {
    image = pixels;
    result = refl;
    same_length = refl;
    front = λ k x. refl;
    done = λ x a b. absurd (omega (arith, a, b, n));
  }
  sp_row-Fills (suc left) j i at pixels e hj n l =
      Fills-bind (at * 3) (suc at * 3) (sp_pixel bytes (w * 2) (h * 2) j i at pixels) _ pixels
        (λ p. IsPixel bytes (w * 2) (h * 2) p j i) (RowDone j (suc i)) (RowDone j i) (omega arith)
        (sp_pixel-Fills j i at pixels e hj (omega (arith, n)) l)
        (λ p q.
          sp_row-Fills left j (suc i) (suc at) p (omega (arith, e)) hj (omega (arith, n))
            (omega (arith, l, q)))
        (λ p q one keep rest x a b. row_split p q one keep rest x a b)
    where
      row_split :
          (p q : List ℕ)
          → IsPixel bytes (w * 2) (h * 2) p j i
          → ((k : ℕ) → k < suc at * 3 → get_elem? q k ≡ get_elem? p k)
          → RowDone j (suc i) q
          → RowDone j i q
      row_split p q one keep rest x a b = elim (Bool-cases (x == i)) [
        | inl y ↦
            let same : i ≡ x = ground (arith, y) in
            subst (λ z. IsPixel bytes (w * 2) (h * 2) q j z) same
              (IsPixel-later p q j i (suc at * 3) one (omega (arith, e)) keep)
        | inr y ↦ rest x (ground (arith, y, a)) b
      ]

  abbrev RowsDone : ℕ → List ℕ → Type 0
  RowsDone j p = (z : ℕ) → j ≤ z → z < h * 2 → RowDone z 0 p

  sp_rows-Fills :
      (left j at : ℕ) (pixels : List ℕ)
      → j * (w * 2) ≡ at
      → j + left ≡ h * 2
      → h * 2 * (w * 2) * 3 ≤ length pixels
      → Fills (at * 3) (sp_rows left bytes (w * 2) (h * 2) j at pixels) pixels (RowsDone j)
  unfolding sp_rows
  sp_rows-Fills zero j at pixels e n l = record {
    image = pixels;
    result = refl;
    same_length = refl;
    front = λ k x. refl;
    done = λ z a b. absurd (omega (arith, a, b, n));
  }
  sp_rows-Fills (suc left) j at pixels e n l =
      Fills-bind (at * 3) ((at + w * 2) * 3) (sp_row (w * 2) bytes (w * 2) (h * 2) j 0 at pixels) _
        pixels (RowDone j 0) (RowsDone (suc j)) (RowsDone j) (omega arith)
        (sp_row-Fills (w * 2) j 0 at pixels (omega (arith, e)) (omega (arith, n)) (omega arith) l)
        (λ p q.
          sp_rows-Fills left (suc j) (at + w * 2) p (omega (arith, e)) (omega (arith, n))
            (omega (arith, l, q)))
        rows_split
    where
      rows_split :
          (p q : List ℕ)
          → RowDone j 0 p
          → ((k : ℕ) → k < (at + w * 2) * 3 → get_elem? q k ≡ get_elem? p k)
          → RowsDone (suc j) q
          → RowsDone j q
      rows_split p q one keep rest z a b x c d = elim (Bool-cases (z == j)) [
        | inl y ↦
            let same : j ≡ z = ground (arith, y) in
            subst (λ k. IsPixel bytes (w * 2) (h * 2) q k x) same
              (IsPixel-later p q j x ((at + w * 2) * 3) (one x c d) (omega (arith, e, d)) keep)
        | inr y ↦ rest z (ground (arith, y, a)) b x c d
      ]

-- For an image of `w` pairs of columns and `h` pairs of rows whose Size() is below 2 ^ 32, FromYuv420sp
-- stays inside of its memory of Size() bytes, and each pixel of the image is made of its own luminance and
-- the chrominance of its square.
pub from_yuv420sp_lem :
    (bytes memory : List ℕ) (w h : ℕ)
    → length bytes ≡ h * 2 * (w * 2) + h * (w * 2)
    → h * 2 * (w * 2) * 3 < 2 ^ 32
    → length memory ≡ rgb_size (w * 2) (h * 2)
    → (image : List ℕ) × (from_yuv420sp bytes (w * 2) (h * 2) memory ≡ some image)
      × (length image ≡ length memory)
      × ((j i : ℕ) → j < h * 2 → i < w * 2 → IsPixel bytes (w * 2) (h * 2) image j i)
unfolding from_yuv420sp rgb_size
from_yuv420sp_lem bytes memory w h size room l =
    let area : w * 2 * (h * 2) ≡ h * 2 * (w * 2) = omega arith in
    let r =
      sp_rows-Fills bytes w h size room (h * 2) 0 0 memory (omega arith) (omega arith)
        (omega (arith, l, area, room)) in
    (r.image, r.result, r.same_length, λ j i hj hi. r.done j (omega arith) hj i (omega arith) hi)

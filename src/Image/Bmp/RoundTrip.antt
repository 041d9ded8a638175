-- ===== src/Image/Bmp/RoundTrip.antt =====
-- What FromRgb makes of an image, and what SaveAs and ReadFromFile make of that.
use mathlib.Core.Path.{subst}
use native.Mathlib.Nat.{mul_comm}
use huicpp.Base.{
  ℕ, zero, suc, ◌+◌, ◌-◌, ◌*◌, ◌%◌, ◌^◌, ◌<◌, ◌≤◌, ◌≡◌, refl, sym, ap, ◌∙◌, arith, List, [], ◌∷◌,
  ◌++◌, length, take, drop, take-all, drop-all, take-append, drop-append, drop-drop, length-take,
  length-drop, length-append, append-nil, true, false, if◌then◌else◌, ltb, ◌==◌, some,
}
use huicpp.Base.Options.{◌>>=◌}
use huicpp.Image.Bmp.{
  InfoHeader, Bmp, file_header_bytes, info_header_bytes, header_size, bytes_per_line, is_bm,
  is_invalid, write_row, write_rows, from_rgb, save_as, ReadCode, filled, with_headers, with_size,
  read_pixels, read_from_file, color_bit_count,
}
use huicpp.Image.Bmp.Headers.{
  IsFileHeader, IsInfoHeader, file_header_of-bytes, info_header_of-bytes, drop-file_header,
  drop-info_header, length-file_header, length-info_header,
}

-- An image that can be saved, with all its pixels.
pub record IsBmp (b : Bmp) : Type 0 where
  pub file_ok : IsFileHeader b.file_header
  pub info_ok : IsInfoHeader b.info_header
  pub bm : is_bm b.file_header.bf_type ≡ true
  pub bits : b.info_header.bi_bit_count ≡ 24
  pub size_ok : header_size < b.file_header.bf_size
  pub some_pixels : 0 < b.info_header.bi_size_image
  pub all_pixels : length b.pixels ≡ b.info_header.bi_size_image

IsBmp-is_invalid : (b : Bmp) → IsBmp b → is_invalid b ≡ true
unfolding is_invalid
IsBmp-is_invalid b h = ground (arith, h.bm, h.bits, h.size_ok)

-- The bytes of a file.
abbrev bytes_of : Bmp → List ℕ
bytes_of b = file_header_bytes b.file_header ++ (info_header_bytes b.info_header ++ b.pixels)

save_as_lem : (b : Bmp) → IsBmp b → save_as b ≡ some (bytes_of b)
unfolding save_as
save_as_lem b h =
    rw
      (
        IsBmp-is_invalid b h,
        take-all b.info_header.bi_size_image b.pixels (omega (arith, h.all_pixels)),
      )
      refl

with_size_lem : (h : InfoHeader) → 0 < h.bi_size_image → with_size h ≡ h
unfolding with_size
with_size_lem h p = let z : (h.bi_size_image == 0) ≡ false = ground (arith, p) in rw z refl

module _ (n : ℕ) (pixels : List ℕ) (e : length pixels ≡ n) where
  filled-all : (old : List ℕ) → length old ≡ n → filled n pixels old ≡ pixels
  filled-all old k =
      let t = take-all n pixels (omega (arith, e)) in
      rw (t, drop-all (length pixels) old (omega (arith, e, k))) (append-nil pixels)

  read_code : (if length (take n pixels) == n then ReadCode.ok else ReadCode.src_err) ≡ ReadCode.ok
  read_code =
      let t = take-all n pixels (omega (arith, e)) in
      let b : (length pixels == n) ≡ true = ground (arith, e) in rw (t, b) refl

read_pixels_lem :
    (memory : ℕ → List ℕ) (b : Bmp)
    → IsBmp b
    → length (memory b.info_header.bi_size_image) ≡ b.info_header.bi_size_image
    → read_pixels memory b.file_header b.info_header b.pixels ≡ (ReadCode.ok, b)
unfolding read_pixels
read_pixels_lem memory b h m =
    let n = b.info_header.bi_size_image in
    λ i. (
      read_code n b.pixels h.all_pixels i,
      record {
        file_header = b.file_header;
        info_header = b.info_header;
        pixels = filled-all n b.pixels h.all_pixels (memory n) m i;
      },
    )

-- ReadFromFile of the file that SaveAs has written gives the image back.
pub read_from_file-save_as :
    (memory : ℕ → List ℕ) (b : Bmp)
    → IsBmp b
    → length (memory b.info_header.bi_size_image) ≡ b.info_header.bi_size_image
    → (file : List ℕ) × (save_as b ≡ some file)
      × (read_from_file memory false file ≡ (ReadCode.ok, b))
unfolding read_from_file
read_from_file-save_as memory b h m =
    let fh = b.file_header in
    let ih = b.info_header in
    let l1 : ltb (length (bytes_of b)) 14 ≡ false =
      ground (arith, length-file_header fh (info_header_bytes ih ++ b.pixels)) in
    let l2 : ltb (length (info_header_bytes ih ++ b.pixels)) 40 ≡ false =
      ground (arith, length-info_header ih b.pixels) in
    let c : (ih.bi_bit_count == 24) ≡ true = ground (arith, h.bits) in
    (
      bytes_of b,
      save_as_lem b h,
      rw
          (
            l1,
            file_header_of-bytes fh (info_header_bytes ih ++ b.pixels) h.file_ok,
            drop-file_header fh (info_header_bytes ih ++ b.pixels),
            info_header_of-bytes ih b.pixels h.info_ok,
            drop-info_header ih b.pixels,
            h.bm,
            l2,
            c,
            with_size_lem ih h.some_pixels,
          )
          (read_pixels_lem memory b h m),
    )

-- The three bytes of each pixel, the other way round.
unfoldable pub swapped : List ℕ → List ℕ
swapped (r ∷ g ∷ b ∷ rgb) = b ∷ g ∷ r ∷ swapped rgb
swapped _ = []

-- Row after row: the pixels, and `pad` bytes of the memory.
record RowDone (width : ℕ) (rgb memory : List ℕ) : Type 0 where
  pub done : List ℕ
  pub result :
      write_row width rgb memory ≡ some (done, drop (width * 3) rgb, drop (width * 3) memory)
  pub is_swapped : done ≡ swapped (take (width * 3) rgb)
  pub size : length done ≡ width * 3

write_row_lem :
    (width : ℕ) (rgb memory : List ℕ)
    → width * 3 ≤ length rgb
    → width * 3 ≤ length memory
    → RowDone width rgb memory
unfolding write_row swapped ◌>>=◌
write_row_lem zero rgb memory h k = record {
  done = [];
  result = refl;
  is_swapped = refl;
  size = refl;
}
write_row_lem (suc width) (r ∷ g ∷ b ∷ rgb) (x ∷ y ∷ z ∷ memory) h k =
    let w = write_row_lem width rgb memory (omega (arith, h)) (omega (arith, k)) in
    let e : suc width * 3 ≡ suc (suc (suc (width * 3))) = omega arith in
    record {
      done = b ∷ g ∷ r ∷ w.done;
      result = rw (e, w.result) refl;
      is_swapped = rw (e, w.is_swapped) refl;
      size = omega (arith, w.size);
    }
write_row_lem (suc width) [] memory h k = absurd (omega (arith, h))
write_row_lem (suc width) (r ∷ []) memory h k = absurd (omega (arith, h))
write_row_lem (suc width) (r ∷ g ∷ []) memory h k = absurd (omega (arith, h))
write_row_lem (suc width) (r ∷ g ∷ b ∷ rgb) [] h k = absurd (omega (arith, k))
write_row_lem (suc width) (r ∷ g ∷ b ∷ rgb) (x ∷ []) h k = absurd (omega (arith, k))
write_row_lem (suc width) (r ∷ g ∷ b ∷ rgb) (x ∷ y ∷ []) h k = absurd (omega (arith, k))

-- How far the bytes of a bitmap are those of an image, from the top.
pub HasRows : ℕ → ℕ → ℕ → List ℕ → List ℕ → Type 0
HasRows zero width line rgb pixels = Unit
HasRows (suc left) width line rgb pixels =
    (take (width * 3) pixels ≡ swapped (take (width * 3) rgb))
    × HasRows left width line (drop (width * 3) rgb) (drop line pixels)

-- All the rows, in memory of their size.
record Rows (left width pad : ℕ) (rgb memory : List ℕ) : Type 0 where
  pub pixels : List ℕ
  pub result : write_rows left width pad rgb memory ≡ some pixels
  pub placed : HasRows left width (width * 3 + pad) rgb pixels
  pub size : length pixels ≡ length memory

at_most : (left n l : ℕ) → suc left * n ≤ l → (n ≤ l) × (left * n ≤ l - n)
at_most left n l h = grind arith

take_exactly : (n : ℕ) (xs ys : List ℕ) → length xs ≡ n → take n (xs ++ ys) ≡ xs
take_exactly n xs ys e = ap (λ m. take m (xs ++ ys)) (sym e) ∙ take-append xs ys

drop_exactly :
    (n m : ℕ) (xs ys zs : List ℕ)
    → length xs ≡ n
    → length ys ≡ m
    → drop (n + m) (xs ++ (ys ++ zs)) ≡ zs
drop_exactly n m xs ys zs e f =
    sym (drop-drop n m (xs ++ (ys ++ zs)))
    ∙ ap (drop m) (ap (λ k. drop k (xs ++ (ys ++ zs))) (sym e) ∙ drop-append xs (ys ++ zs))
    ∙ (ap (λ k. drop k (ys ++ zs)) (sym f) ∙ drop-append ys zs)

write_rows_lem :
    (left width pad : ℕ) (rgb memory : List ℕ)
    → left * (width * 3) ≤ length rgb
    → left * (width * 3 + pad) ≤ length memory
    → Rows left width pad rgb memory
unfolding write_rows HasRows ◌>>=◌
write_rows_lem zero width pad rgb memory h k = record {
  pixels = memory;
  result = refl;
  placed = tt;
  size = refl;
}
write_rows_lem (suc left) width pad rgb memory h k =
    let (h0, h1) = at_most left (width * 3) (length rgb) h in
    let (k0, k1) = at_most left (width * 3 + pad) (length memory) k in
    let below = drop (width * 3) memory in
    let lb = length-drop (width * 3) memory in
    let w = write_row_lem width rgb memory h0 (omega (arith, k0)) in
    let rest : Rows left width pad (drop (width * 3) rgb) (drop pad below) =
      write_rows_lem left width pad (drop (width * 3) rgb) (drop pad below)
        (omega (arith, h1, length-drop (width * 3) rgb))
        (omega (arith, k1, lb, length-drop pad below)) in
    let tail = take pad below in
    let lt : length tail ≡ pad = omega (arith, length-take pad below, lb, k0) in
    record {
      pixels = w.done ++ (tail ++ rest.pixels);
      result = rw (w.result, rest.result) refl;
      placed = (
        take_exactly (width * 3) w.done (tail ++ rest.pixels) w.size ∙ w.is_swapped,
        subst (HasRows left width (width * 3 + pad) (drop (width * 3) rgb))
            (sym (drop_exactly (width * 3) pad w.done tail rest.pixels w.size lt)) rest.placed,
      );
      size = omega (
        arith,
        length-append w.done (tail ++ rest.pixels),
        length-append tail rest.pixels,
        w.size,
        lt,
        rest.size,
        length-drop pad below,
        lb,
        k0,
      );
    }

-- The same, where a row and its bytes behind it are `line` bytes.
lines_lem :
    (left width pad line : ℕ) (rgb memory : List ℕ)
    → width * 3 + pad ≡ line
    → left * (width * 3) ≤ length rgb
    → left * line ≤ length memory
    → (pixels : List ℕ) × (write_rows left width pad rgb memory ≡ some pixels)
      × HasRows left width line rgb pixels
      × (length pixels ≡ length memory)
lines_lem left width pad line rgb memory e h k =
    let r =
      write_rows_lem left width pad rgb memory h
        (subst (λ n. left * n ≤ length memory) (sym e) k) in
    (r.pixels, r.result, subst (λ n. HasRows left width n rgb r.pixels) e r.placed, r.size)

line_pad :
    (w : ℕ)
    → w < 2 ^ 24
    → (w * 3 ≤ bytes_per_line w color_bit_count)
      × ((bytes_per_line w color_bit_count + 2 ^ 32 - w * 3 % 2 ^ 32) % 2 ^ 32
          ≡ bytes_per_line w color_bit_count - w * 3)
      × (bytes_per_line w color_bit_count ≤ w * 3 + 3)
      × (bytes_per_line w color_bit_count % 4 ≡ 0)
unfolding bytes_per_line
line_pad w h = (omega (arith, h), omega (arith, h), omega (arith, h), omega (arith, h))

pub with_headers-IsBmp :
    (w h n : ℕ) (pixels : List ℕ)
    → w < 2 ^ 24
    → 0 < n
    → n + header_size < 2 ^ 31
    → length pixels ≡ n
    → IsBmp (with_headers w h n pixels)
unfolding with_headers
with_headers-IsBmp w h n pixels ws n0 ns e = record {
  file_ok = record {
    type_fits = omega arith;
    size_fits = omega arith;
    reserved1_fits = omega arith;
    reserved2_fits = omega arith;
    off_fits = omega arith;
  };
  info_ok = record {
    size_fits = omega arith;
    width_fits = omega (arith, ws);
    height_fits = omega arith;
    planes_fits = omega arith;
    count_fits = omega arith;
    compression_fits = omega arith;
    image_fits = omega (arith, ns);
    x_fits = omega arith;
    y_fits = omega arith;
    used_fits = omega arith;
    important_fits = omega arith;
  };
  bm = unfold is_bm in refl;
  bits = refl;
  size_ok = omega (arith, n0, ns);
  some_pixels = n0;
  all_pixels = e;
}

from_rgb_result :
    (memory : ℕ → List ℕ) (w h line : ℕ) (rgb pixels : List ℕ)
    → bytes_per_line w color_bit_count ≡ line
    → line * h % 2 ^ 32 ≡ line * h
    → (line + 2 ^ 32 - w * 3 % 2 ^ 32) % 2 ^ 32 ≡ line - w * 3
    → write_rows h w (line - w * 3) rgb (memory (line * h)) ≡ some pixels
    → from_rgb memory w h rgb ≡ some (with_headers w h (line * h) pixels)
unfolding from_rgb ◌>>=◌
from_rgb_result memory w h line rgb pixels l n p r = rw (l, n, p, r) refl

-- FromRgb of an image of less than 2^24 columns whose bitmap has less than 2^31 bytes: it stays inside of
-- the image and of its own memory, the bitmap can be saved, its height is the negative one, and each
-- row, at a multiple of four bytes, has the pixels of the image in their order with the bytes of a
-- pixel the other way round.
pub from_rgb_lem :
    (memory : ℕ → List ℕ) (w h : ℕ) (rgb : List ℕ)
    → ((n : ℕ) → length (memory n) ≡ n)
    → 0 < w
    → 0 < h
    → w < 2 ^ 24
    → bytes_per_line w color_bit_count * h + header_size < 2 ^ 31
    → h * (w * 3) ≤ length rgb
    → (b : Bmp) × (from_rgb memory w h rgb ≡ some b)
      × IsBmp b
      × (b.info_header.bi_width ≡ w)
      × (b.info_header.bi_height ≡ 2 ^ 32 - h)
      × (bytes_per_line w color_bit_count % 4 ≡ 0)
      × HasRows h w (bytes_per_line w color_bit_count) rgb b.pixels
from_rgb_lem memory w h rgb m w0 h0 ws hs l =
    let line = bytes_per_line w color_bit_count in
    let (p0, p1, p2, p3) = line_pad w ws in
    let total : line * h % 2 ^ 32 ≡ line * h = grind (arith, hs) in
    let sum : w * 3 + (line - w * 3) ≡ line = omega (arith, p0) in
    let some_bytes : 0 < line * h = grind (arith, p0, w0, h0) in
    let high : h ≤ line * h = grind (arith, p0, w0) in
    let same : h * line ≤ length (memory (line * h)) =
      rw (m (line * h)) (omega (arith, mul_comm h line)) in
    let (pixels, result, placed, size) =
      lines_lem h w (line - w * 3) line rgb (memory (line * h)) sum l same in
    (
      with_headers w h (line * h) pixels,
      from_rgb_result memory w h line rgb pixels refl total p1 result,
      with_headers-IsBmp w h (line * h) pixels ws some_bytes hs (size ∙ m (line * h)),
      (unfold with_headers in refl),
      (unfold with_headers in omega (arith, h0, high, hs)),
      p3,
      (unfold with_headers in placed),
    )

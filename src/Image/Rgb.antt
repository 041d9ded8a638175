-- ===== src/Image/Rgb.antt =====
-- FromNV21 and FromYuv420sp of HRgb in src/image/hrgb.h and .cpp. The bytes of the source and those of
-- the image are lists; `none` is a read or a write outside of them.
pub mod Rows
pub mod Fills
pub mod Pixels
use huicpp.Base.{
  ℕ, zero, suc, ◌+◌, ◌-◌, ◌*◌, ◌/◌, ◌%◌, ◌^◌, List, [], ◌∷◌, ◌++◌, length, Bool, true, false,
  if◌then◌else◌, ltb, Option, none, some, set, get_elem?,
}
use huicpp.Base.Ints.{ℤ, pos, negsuc}
use huicpp.Base.Options.{◌>>=◌, return}

unfoldable pub int_diff : ℕ → ℕ → ℤ
int_diff a b = if ltb a b then negsuc (b - a - 1) else pos (a - b)

unfoldable pub add_int : ℤ → ℤ → ℤ
unfolding int_diff
add_int (pos a) (pos b) = pos (a + b)
add_int (pos a) (negsuc b) = int_diff a (suc b)
add_int (negsuc a) (pos b) = int_diff b (suc a)
add_int (negsuc a) (negsuc b) = negsuc (suc (a + b))

unfoldable pub neg_int : ℤ → ℤ
unfolding int_diff
neg_int (pos a) = int_diff 0 a
neg_int (negsuc a) = pos (suc a)

-- A constant of the code times an int.
unfoldable pub times_int : ℕ → ℤ → ℤ
unfolding int_diff
times_int k (pos a) = pos (k * a)
times_int k (negsuc a) = int_diff 0 (k * suc a)

-- `>> 8`, which rounds down.
unfoldable pub shift_8 : ℤ → ℤ
shift_8 (pos a) = pos (a / 256)
shift_8 (negsuc a) = negsuc (a / 256)

unfoldable pub clamp : ℤ → ℕ
clamp (pos a) = if ltb 255 a then 255 else a
clamp (negsuc a) = 0

unfoldable pub nv21_red : ℕ → ℕ → ℕ → ℕ
unfolding clamp add_int shift_8 times_int int_diff
nv21_red y u v = clamp (add_int (pos y) (shift_8 (times_int 351 (int_diff v 128))))

unfoldable pub nv21_green : ℕ → ℕ → ℕ → ℕ
unfolding clamp add_int neg_int shift_8 times_int int_diff
nv21_green y u v = clamp (
    add_int (pos y) (
      neg_int (shift_8 (add_int (times_int 179 (int_diff v 128)) (times_int 86 (int_diff u 128))))))

unfoldable pub nv21_blue : ℕ → ℕ → ℕ → ℕ
unfolding clamp add_int shift_8 times_int int_diff
nv21_blue y u v = clamp (add_int (pos y) (shift_8 (times_int 443 (int_diff u 128))))

-- A write of one byte.
unfoldable pub write_byte : ℕ → ℕ → List ℕ → Option (List ℕ)
write_byte i b pixels = if ltb i (length pixels) then some (set pixels i b) else none

-- The body of the inner loop of FromNV21, in row `i`, for the column `j`. `y_index` starts again with
-- each row, and is `j`.
unfoldable pub nv21_pixel : List ℕ → ℕ → ℕ → ℕ → ℕ → List ℕ → Option (List ℕ)
unfolding ◌>>=◌
nv21_pixel bytes width height i j pixels = do
  y ← get_elem? bytes j
  u ← get_elem? bytes (width * height + (i / 2 * width + j - j % 2))
  v ← get_elem? bytes (width * height + (i / 2 * width + j - j % 2) + 1)
  p1 ← write_byte (j * 3) (nv21_blue y u v) pixels
  p2 ← write_byte (j * 3 + 1) (nv21_green y u v) p1
  write_byte (j * 3 + 2) (nv21_red y u v) p2

-- The inner loop from `j` on: `left` columns.
unfoldable pub nv21_row : ℕ → List ℕ → ℕ → ℕ → ℕ → ℕ → List ℕ → Option (List ℕ)
unfolding ◌>>=◌
nv21_row zero bytes width height i j pixels = some pixels
nv21_row (suc left) bytes width height i j pixels = do
  p ← nv21_pixel bytes width height i j pixels
  nv21_row left bytes width height i (suc j) p

-- The outer loop from `i` on: `left` rows.
unfoldable pub nv21_rows : ℕ → List ℕ → ℕ → ℕ → ℕ → List ℕ → Option (List ℕ)
unfolding ◌>>=◌
nv21_rows zero bytes width height i pixels = some pixels
nv21_rows (suc left) bytes width height i pixels = do
  p ← nv21_row width bytes width height i 0 pixels
  nv21_rows left bytes width height (suc i) p

-- `memory` is what malloc gives for the image.
unfoldable pub from_nv21 : List ℕ → ℕ → ℕ → List ℕ → Option (List ℕ)
from_nv21 bytes width height memory = nv21_rows height bytes width height 0 memory

unfoldable pub sp_red : ℕ → ℕ → ℕ → ℕ
unfolding clamp add_int shift_8 times_int int_diff
sp_red y u v = clamp (add_int (pos y) (shift_8 (times_int 360 (int_diff v 128))))

unfoldable pub sp_green : ℕ → ℕ → ℕ → ℕ
unfolding clamp add_int neg_int shift_8 times_int int_diff
sp_green y u v = clamp (
    add_int (pos y) (
      neg_int (shift_8 (add_int (times_int 88 (int_diff u 128)) (times_int 184 (int_diff v 128))))))

unfoldable pub sp_blue : ℕ → ℕ → ℕ → ℕ
unfolding clamp add_int shift_8 times_int int_diff
sp_blue y u v = clamp (add_int (pos y) (shift_8 (times_int 455 (int_diff u 128))))

-- HRgb::Size, which wraps.
unfoldable pub rgb_size : ℕ → ℕ → ℕ
rgb_size width height = width * height % 2 ^ 32 * 3 % 2 ^ 32

-- An int that is not negative; `none` where the sum overflows.
unfoldable pub as_int : ℕ → Option ℕ
as_int n = if ltb n (2 ^ 31) then some n else none

-- The body of the inner loop of FromYuv420sp, for row `j` and column `i`; `at` is how many pixels were
-- written before, which is where both pointers are.
unfoldable pub sp_pixel : List ℕ → ℕ → ℕ → ℕ → ℕ → ℕ → List ℕ → Option (List ℕ)
unfolding as_int ◌>>=◌
sp_pixel bytes width height j i at pixels = do
  y ← get_elem? bytes at
  c ← as_int ((i / 2 + j / 2 * (width / 2)) * 2 + 1)
  u ← get_elem? bytes (width * height % 2 ^ 32 + (i / 2 + j / 2 * (width / 2)) * 2)
  v ← get_elem? bytes (width * height % 2 ^ 32 + c)
  p1 ← write_byte (at * 3) (sp_red y u v) pixels
  p2 ← write_byte (at * 3 + 1) (sp_green y u v) p1
  write_byte (at * 3 + 2) (sp_blue y u v) p2

unfoldable pub sp_row : ℕ → List ℕ → ℕ → ℕ → ℕ → ℕ → ℕ → List ℕ → Option (List ℕ)
unfolding ◌>>=◌
sp_row zero bytes width height j i at pixels = some pixels
sp_row (suc left) bytes width height j i at pixels = do
  p ← sp_pixel bytes width height j i at pixels
  sp_row left bytes width height j (suc i) (suc at) p

unfoldable pub sp_rows : ℕ → List ℕ → ℕ → ℕ → ℕ → ℕ → List ℕ → Option (List ℕ)
unfolding ◌>>=◌
sp_rows zero bytes width height j at pixels = some pixels
sp_rows (suc left) bytes width height j at pixels = do
  p ← sp_row width bytes width height j 0 at pixels
  sp_rows left bytes width height (suc j) (at + width) p

-- `memory` is the Size() bytes that malloc gives for the image.
unfoldable pub from_yuv420sp : List ℕ → ℕ → ℕ → List ℕ → Option (List ℕ)
from_yuv420sp bytes width height memory = sp_rows height bytes width height 0 0 memory

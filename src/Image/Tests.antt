-- ===== src/Image/Tests.antt =====
-- Concrete images, and the theorems at concrete inputs.
use huicpp.Base.{
  ℕ, ◌*◌, ◌<◌, ◌≡◌, ◌-◌, ◌^◌, ◌%◌, refl, arith, false, List, [], ◌∷◌, length, length-replicate,
  replicate, some, none,
}
use huicpp.Base.Options.{◌>>=◌}
use huicpp.Image.Bmp.{
  Bmp, ReadCode, color_bit_count, bytes_per_line, with_headers, write_row, write_rows, from_rgb,
  save_as, read_from_file, export_bmp_buffer, is_invalid, is_bm, file_header_bytes,
  info_header_bytes, le_bytes,
}
use huicpp.Image.Bmp.RoundTrip.{
  IsBmp, HasRows, with_headers-IsBmp, from_rgb_lem, read_from_file-save_as,
}
use huicpp.Image.Rgb.{
  from_nv21, nv21_rows, nv21_row, nv21_pixel, from_yuv420sp, rgb_size, sp_rows, sp_row, sp_pixel,
  write_byte, nv21_red, nv21_green, nv21_blue, sp_red, sp_green, sp_blue,
}
use huicpp.Image.Rgb.Pixels.{IsPixel, from_yuv420sp_lem}

-- Two rows of two pixels.
abbrev four_pixels : List ℕ
four_pixels = 10 ∷ 20 ∷ 200 ∷ 255 ∷ 128 ∷ 90 ∷ []

abbrev blank : List ℕ
blank = replicate 12 7

-- The second row, 200 and 255, is not even read.
nv21_run :
    from_nv21 four_pixels 2 2 blank ≡ some (10 ∷ 37 ∷ 0 ∷ 20 ∷ 47 ∷ 0 ∷ 7 ∷ 7 ∷ 7 ∷ 7 ∷ 7 ∷ 7 ∷ [])
unfolding from_nv21 nv21_rows nv21_row nv21_pixel write_byte nv21_red nv21_green nv21_blue ◌>>=◌
nv21_run = refl

sp_run :
    from_yuv420sp four_pixels 2 2 blank
    ≡ some (0 ∷ 38 ∷ 10 ∷ 0 ∷ 48 ∷ 20 ∷ 146 ∷ 228 ∷ 200 ∷ 201 ∷ 255 ∷ 255 ∷ [])
unfolding from_yuv420sp sp_rows sp_row sp_pixel write_byte sp_red sp_green sp_blue ◌>>=◌
sp_run = refl

-- With three columns, the last of a row has its chrominance behind the end of the source.
sp_odd : from_yuv420sp (replicate 9 100) 3 2 (replicate 18 0) ≡ none
unfolding from_yuv420sp sp_rows sp_row sp_pixel write_byte sp_red sp_green sp_blue ◌>>=◌
sp_odd = refl

from_yuv420sp_lem_example :
    (image : List ℕ) × (from_yuv420sp four_pixels (1 * 2) (1 * 2) blank ≡ some image)
    × (length image ≡ length blank)
    × ((j i : ℕ) → j < 1 * 2 → i < 1 * 2 → IsPixel four_pixels (1 * 2) (1 * 2) image j i)
from_yuv420sp_lem_example =
    from_yuv420sp_lem four_pixels blank 1 1 refl (omega arith) (unfold rgb_size in refl)

-- malloc gives zeros.
abbrev zeros : ℕ → List ℕ
zeros n = replicate n 0

one_pixel_made :
    from_rgb zeros 1 1 (1 ∷ 2 ∷ 3 ∷ []) ≡ some (with_headers 1 1 4 (3 ∷ 2 ∷ 1 ∷ 0 ∷ []))
unfolding from_rgb write_rows write_row bytes_per_line ◌>>=◌
one_pixel_made = refl

from_rgb_example :
    (b : Bmp) × (from_rgb zeros 1 1 (1 ∷ 2 ∷ 3 ∷ []) ≡ some b)
    × IsBmp b
    × (b.info_header.bi_width ≡ 1)
    × (b.info_header.bi_height ≡ 2 ^ 32 - 1)
    × (bytes_per_line 1 color_bit_count % 4 ≡ 0)
    × HasRows 1 1 (bytes_per_line 1 color_bit_count) (1 ∷ 2 ∷ 3 ∷ []) b.pixels
from_rgb_example =
    from_rgb_lem zeros 1 1 (1 ∷ 2 ∷ 3 ∷ []) (λ n. length-replicate n 0) (omega arith) (omega arith)
      (omega arith) (unfold bytes_per_line in omega arith) (omega arith)

one_pixel-IsBmp : IsBmp (with_headers 1 1 4 (3 ∷ 2 ∷ 1 ∷ 0 ∷ []))
one_pixel-IsBmp =
    with_headers-IsBmp 1 1 4 (3 ∷ 2 ∷ 1 ∷ 0 ∷ []) (omega arith) (omega arith) (omega arith) refl

read_from_file_example :
    (file : List ℕ) × (save_as (with_headers 1 1 4 (3 ∷ 2 ∷ 1 ∷ 0 ∷ [])) ≡ some file)
    × (read_from_file zeros false file ≡ (ReadCode.ok, with_headers 1 1 4 (3 ∷ 2 ∷ 1 ∷ 0 ∷ [])))
read_from_file_example =
    read_from_file-save_as zeros (with_headers 1 1 4 (3 ∷ 2 ∷ 1 ∷ 0 ∷ [])) one_pixel-IsBmp
      (length-replicate _ 0)

-- A buffer that is too small is refused.
small_buffer : export_bmp_buffer (replicate 10 0) (with_headers 1 1 4 (3 ∷ 2 ∷ 1 ∷ 0 ∷ [])) ≡ none
unfolding export_bmp_buffer with_headers is_invalid is_bm file_header_bytes info_header_bytes
    le_bytes
small_buffer = refl

-- ===== src/Image/Bmp.antt =====
-- HBmp of src/image/hbmp.h and .cpp: FromRgb, SaveAs, ExportBmpBuffer and ReadFromFile. The fields of the
-- headers are words; a file is the list of its bytes; `memory n` is what malloc gives for `n` bytes.
pub mod Headers
pub mod RoundTrip
use huicpp.Base.{
  ℕ, zero, suc, ◌+◌, ◌-◌, ◌*◌, ◌/◌, ◌%◌, ◌^◌, List, [], ◌∷◌, ◌++◌, length, take, drop, replicate,
  Bool, true, false, not, ◌&&◌, if◌then◌else◌, ltb, leb, ◌==◌, Option, none, some,
}
use huicpp.Base.Options.{◌>>=◌}

-- BMPFILEHEADER.
pub record FileHeader : Type 0 where
  pub bf_type : ℕ
  pub bf_size : ℕ
  pub bf_reserved1 : ℕ
  pub bf_reserved2 : ℕ
  pub bf_off_bits : ℕ

-- BMPINFOHEADER.
pub record InfoHeader : Type 0 where
  pub bi_size : ℕ
  pub bi_width : ℕ
  pub bi_height : ℕ
  pub bi_planes : ℕ
  pub bi_bit_count : ℕ
  pub bi_compression : ℕ
  pub bi_size_image : ℕ
  pub bi_x_pels_per_meter : ℕ
  pub bi_y_pels_per_meter : ℕ
  pub bi_clr_used : ℕ
  pub bi_clr_important : ℕ

pub record Bmp : Type 0 where
  pub file_header : FileHeader
  pub info_header : InfoHeader
  pub pixels : List ℕ

-- The low byte first.
unfoldable pub le_bytes : ℕ → ℕ → List ℕ
le_bytes zero x = []
le_bytes (suc n) x = x % 256 ∷ le_bytes n (x / 256)

unfoldable pub le_word : List ℕ → ℕ
le_word [] = 0
le_word (b ∷ bs) = b + 256 * le_word bs

-- The headers are packed.
unfoldable pub file_header_bytes : FileHeader → List ℕ
file_header_bytes h =
    le_bytes 2 h.bf_type
    ++ le_bytes 4 h.bf_size
    ++ le_bytes 2 h.bf_reserved1
    ++ le_bytes 2 h.bf_reserved2
    ++ le_bytes 4 h.bf_off_bits

unfoldable pub info_header_bytes : InfoHeader → List ℕ
info_header_bytes h =
    le_bytes 4 h.bi_size
    ++ le_bytes 4 h.bi_width
    ++ le_bytes 4 h.bi_height
    ++ le_bytes 2 h.bi_planes
    ++ le_bytes 2 h.bi_bit_count
    ++ le_bytes 4 h.bi_compression
    ++ le_bytes 4 h.bi_size_image
    ++ le_bytes 4 h.bi_x_pels_per_meter
    ++ le_bytes 4 h.bi_y_pels_per_meter
    ++ le_bytes 4 h.bi_clr_used
    ++ le_bytes 4 h.bi_clr_important

-- The `n` bytes from the place `i` on, as a word.
abbrev pub field : ℕ → ℕ → List ℕ → ℕ
field i n bs = le_word (take n (drop i bs))

unfoldable pub file_header_of : List ℕ → FileHeader
file_header_of bs = record {
  bf_type = field 0 2 bs;
  bf_size = field 2 4 bs;
  bf_reserved1 = field 6 2 bs;
  bf_reserved2 = field 8 2 bs;
  bf_off_bits = field 10 4 bs;
}

unfoldable pub info_header_of : List ℕ → InfoHeader
info_header_of bs = record {
  bi_size = field 0 4 bs;
  bi_width = field 4 4 bs;
  bi_height = field 8 4 bs;
  bi_planes = field 12 2 bs;
  bi_bit_count = field 14 2 bs;
  bi_compression = field 16 4 bs;
  bi_size_image = field 20 4 bs;
  bi_x_pels_per_meter = field 24 4 bs;
  bi_y_pels_per_meter = field 28 4 bs;
  bi_clr_used = field 32 4 bs;
  bi_clr_important = field 36 4 bs;
}

abbrev pub header_size : ℕ
header_size = 54

abbrev pub color_bit_count : ℕ
color_bit_count = 24

unfoldable pub bytes_per_line : ℕ → ℕ → ℕ
bytes_per_line width bit_count = (width * bit_count % 2 ^ 32 + 31) % 2 ^ 32 / 32 * 4

-- 'M' above 'B'.
unfoldable pub is_bm : ℕ → Bool
is_bm t = t / 256 % 256 == 77 && t % 256 == 66

-- IsInvalid, which is true for an image that can be used.
unfoldable pub is_invalid : Bmp → Bool
unfolding is_bm
is_invalid b =
    is_bm b.file_header.bf_type
    && (b.info_header.bi_bit_count == 24 && ltb header_size b.file_header.bf_size)

-- A row of `left` pixels: both pointers go on by three bytes with each. `none` is an access outside of
-- the source or of the memory.
unfoldable pub write_row : ℕ → List ℕ → List ℕ → Option (List ℕ × List ℕ × List ℕ)
unfolding ◌>>=◌
write_row zero rgb memory = some ([], rgb, memory)
write_row (suc left) (r ∷ g ∷ b ∷ rgb) (x ∷ y ∷ z ∷ memory) = do
  (done, rgb', memory') ← write_row left rgb memory
  some (b ∷ g ∷ r ∷ done, rgb', memory')
write_row (suc left) rgb memory = none

-- The loop of FromRgb: `left` rows, each with `pad` bytes behind it that stay as they are.
unfoldable pub write_rows : ℕ → ℕ → ℕ → List ℕ → List ℕ → Option (List ℕ)
unfolding write_row ◌>>=◌
write_rows zero width pad rgb memory = some memory
write_rows (suc left) width pad rgb memory = do
  (done, rgb', memory') ← write_row width rgb memory
  rest ← write_rows left width pad rgb' (drop pad memory')
  some (done ++ (take pad memory' ++ rest))

-- The headers that FromRgb fills in.
unfoldable pub with_headers : ℕ → ℕ → ℕ → List ℕ → Bmp
with_headers width height pixel_bytes pixels = record {
  file_header = record {
    bf_type = 0x4D42;
    bf_size = (header_size + pixel_bytes) % 2 ^ 32;
    bf_reserved1 = 0;
    bf_reserved2 = 0;
    bf_off_bits = header_size;
  };
  info_header = record {
    bi_size = 40;
    bi_width = width;
    bi_height = (2 ^ 32 - height) % 2 ^ 32;
    bi_planes = 1;
    bi_bit_count = color_bit_count;
    bi_compression = 0;
    bi_size_image = pixel_bytes;
    bi_x_pels_per_meter = 100;
    bi_y_pels_per_meter = 100;
    bi_clr_used = 0;
    bi_clr_important = 0;
  };
  pixels = pixels;
}

-- FromRgb of an image of `width` times `height` pixels with the bytes `rgb`.
unfoldable pub from_rgb : (ℕ → List ℕ) → ℕ → ℕ → List ℕ → Option Bmp
unfolding write_rows bytes_per_line with_headers ◌>>=◌
from_rgb memory width height rgb = do
  let line = bytes_per_line width color_bit_count
  let pixel_bytes = line * height % 2 ^ 32
  pixels ←
      write_rows height width ((line + 2 ^ 32 - width * 3 % 2 ^ 32) % 2 ^ 32) rgb
        (memory pixel_bytes)
  some (with_headers width height pixel_bytes pixels)

-- SaveAs of an image to a file that is empty: the bytes, or the code ERR_STATUS, `none`.
unfoldable pub save_as : Bmp → Option (List ℕ)
unfolding is_invalid file_header_bytes info_header_bytes
save_as b =
    if is_invalid b
    then some (
        file_header_bytes b.file_header
        ++ (info_header_bytes b.info_header ++ take b.info_header.bi_size_image b.pixels))
    else none

-- ExportBmpBuffer to a buffer of `len` bytes; `none` is an error.
unfoldable pub export_bmp_buffer : List ℕ → Bmp → Option (List ℕ)
unfolding is_invalid file_header_bytes info_header_bytes
export_bmp_buffer buffer b =
    let image =
      file_header_bytes b.file_header
      ++ (info_header_bytes b.info_header ++ take b.info_header.bi_size_image b.pixels) in
    if is_invalid b
    then (if leb b.file_header.bf_size (length buffer)
        then some (image ++ drop (length image) buffer)
        else none)
    else none

pub data ReadCode : Type 0 where
  ok : ReadCode
  src_err : ReadCode
  err_status : ReadCode

-- `read` of `n` bytes from a file into a place that has the bytes `old`.
abbrev pub filled : ℕ → List ℕ → List ℕ → List ℕ
filled n file old = take n file ++ drop (length (take n file)) old

-- The image size that is 0 is computed.
unfoldable pub with_size : InfoHeader → InfoHeader
unfolding bytes_per_line
with_size h =
    if h.bi_size_image == 0
    then record h {
      bi_size_image = bytes_per_line h.bi_width h.bi_bit_count * h.bi_height % 2 ^ 32;
    }
    else h

-- The pixels; `bi_size_image` of them are read.
unfoldable pub read_pixels : (ℕ → List ℕ) → FileHeader → InfoHeader → List ℕ → ReadCode × Bmp
read_pixels memory fh ih file = (
  if length (take ih.bi_size_image file) == ih.bi_size_image then ReadCode.ok else ReadCode.src_err,
  record {
    file_header = fh;
    info_header = ih;
    pixels = filled ih.bi_size_image file (memory ih.bi_size_image);
  },
)

-- ReadFromFile of a file that exists, with the bytes `file`.
unfoldable pub read_from_file : (ℕ → List ℕ) → Bool → List ℕ → ReadCode × Bmp
read_from_file memory head_only file =
    let zero_info = info_header_of (replicate 40 0) in
    let fh = file_header_of (filled 14 file (replicate 14 0)) in
    let file1 = drop 14 file in
    let ih = info_header_of (filled 40 file1 (replicate 40 0)) in
    let b0 : Bmp = record { file_header = fh; info_header = zero_info; pixels = [] } in
    let b1 : Bmp = record { file_header = fh; info_header = ih; pixels = [] } in
    let b2 : Bmp = record { file_header = fh; info_header = with_size ih; pixels = [] } in
    if ltb (length file) 14
    then (ReadCode.src_err, b0)
    else (if not (is_bm fh.bf_type)
        then (ReadCode.err_status, b0)
        else (if ltb (length file1) 40
            then (ReadCode.src_err, b1)
            else (if not (ih.bi_bit_count == 24)
                then (ReadCode.err_status, b1)
                else (if head_only
                    then (ReadCode.ok, b2)
                    else read_pixels memory fh (with_size ih) (drop 40 file1)))))

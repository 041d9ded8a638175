-- ===== src/Image/Bmp/Headers.antt =====
-- The headers of a bitmap come back from their bytes.
use huicpp.Base.{ℕ, ◌+◌, ◌^◌, ◌<◌, ◌≡◌, refl, arith, List, ◌++◌, length, drop, replicate}
use huicpp.Image.Bmp.{
  FileHeader, InfoHeader, le_bytes, le_word, file_header_bytes, info_header_bytes, filled,
  file_header_of, info_header_of,
}

pub record IsFileHeader (h : FileHeader) : Type 0 where
  pub type_fits : h.bf_type < 2 ^ 16
  pub size_fits : h.bf_size < 2 ^ 32
  pub reserved1_fits : h.bf_reserved1 < 2 ^ 16
  pub reserved2_fits : h.bf_reserved2 < 2 ^ 16
  pub off_fits : h.bf_off_bits < 2 ^ 32

pub record IsInfoHeader (h : InfoHeader) : Type 0 where
  pub size_fits : h.bi_size < 2 ^ 32
  pub width_fits : h.bi_width < 2 ^ 32
  pub height_fits : h.bi_height < 2 ^ 32
  pub planes_fits : h.bi_planes < 2 ^ 16
  pub count_fits : h.bi_bit_count < 2 ^ 16
  pub compression_fits : h.bi_compression < 2 ^ 32
  pub image_fits : h.bi_size_image < 2 ^ 32
  pub x_fits : h.bi_x_pels_per_meter < 2 ^ 32
  pub y_fits : h.bi_y_pels_per_meter < 2 ^ 32
  pub used_fits : h.bi_clr_used < 2 ^ 32
  pub important_fits : h.bi_clr_important < 2 ^ 32

word2 : (x : ℕ) → x < 2 ^ 16 → le_word (le_bytes 2 x) ≡ x
unfolding le_word le_bytes
word2 x h = omega (arith, h)

word4 : (x : ℕ) → x < 2 ^ 32 → le_word (le_bytes 4 x) ≡ x
unfolding le_word le_bytes
word4 x h = omega (arith, h)

pub file_header_of-bytes :
    (h : FileHeader) (rest : List ℕ)
    → IsFileHeader h
    → file_header_of (filled 14 (file_header_bytes h ++ rest) (replicate 14 0)) ≡ h
unfolding file_header_of file_header_bytes le_bytes
file_header_of-bytes h rest w = λ i. record {
  bf_type = word2 h.bf_type w.type_fits i;
  bf_size = word4 h.bf_size w.size_fits i;
  bf_reserved1 = word2 h.bf_reserved1 w.reserved1_fits i;
  bf_reserved2 = word2 h.bf_reserved2 w.reserved2_fits i;
  bf_off_bits = word4 h.bf_off_bits w.off_fits i;
}

pub info_header_of-bytes :
    (h : InfoHeader) (rest : List ℕ)
    → IsInfoHeader h
    → info_header_of (filled 40 (info_header_bytes h ++ rest) (replicate 40 0)) ≡ h
unfolding info_header_of info_header_bytes le_bytes
info_header_of-bytes h rest w = λ i. record {
  bi_size = word4 h.bi_size w.size_fits i;
  bi_width = word4 h.bi_width w.width_fits i;
  bi_height = word4 h.bi_height w.height_fits i;
  bi_planes = word2 h.bi_planes w.planes_fits i;
  bi_bit_count = word2 h.bi_bit_count w.count_fits i;
  bi_compression = word4 h.bi_compression w.compression_fits i;
  bi_size_image = word4 h.bi_size_image w.image_fits i;
  bi_x_pels_per_meter = word4 h.bi_x_pels_per_meter w.x_fits i;
  bi_y_pels_per_meter = word4 h.bi_y_pels_per_meter w.y_fits i;
  bi_clr_used = word4 h.bi_clr_used w.used_fits i;
  bi_clr_important = word4 h.bi_clr_important w.important_fits i;
}

pub drop-file_header :
    (h : FileHeader) (rest : List ℕ) → drop 14 (file_header_bytes h ++ rest) ≡ rest
unfolding file_header_bytes le_bytes
drop-file_header h rest = refl

pub drop-info_header :
    (h : InfoHeader) (rest : List ℕ) → drop 40 (info_header_bytes h ++ rest) ≡ rest
unfolding info_header_bytes le_bytes
drop-info_header h rest = refl

pub length-file_header :
    (h : FileHeader) (rest : List ℕ) → length (file_header_bytes h ++ rest) ≡ 14 + length rest
unfolding file_header_bytes le_bytes
length-file_header h rest = omega arith

pub length-info_header :
    (h : InfoHeader) (rest : List ℕ) → length (info_header_bytes h ++ rest) ≡ 40 + length rest
unfolding info_header_bytes le_bytes
length-info_header h rest = omega arith

-- ===== src/Image.antt =====
-- Images: the conversions of src/image/hrgb.cpp and the bitmaps of src/image/hbmp.cpp.
pub mod Bmp
pub mod Rgb
mod Tests

-- ===== src/Qoi.antt =====
-- source/libraries/graphic_formats/qoi.c: the pixels of the QOI encoder and decoder.
use blesk_os_fork.Base.{
  ℕ, zero, suc, ◌+◌, ◌-◌, ◌*◌, ◌%◌, ◌^◌, Bool, ◌&&◌, ◌||◌, not, ltb, leb, ◌==◌, if◌then◌else◌,
  arith, List, [], ◌∷◌, ◌++◌, Option, none, some, get_or, set, replicate, u8, u32, sub32, add32,
  bit_and, bit_or, ◌<<◌, ◌>>◌,
}
use blesk_os_fork.Memory.{Memory}
pub mod Decode
pub mod Encode
pub mod Bytes
pub mod Index
pub mod Chunks
pub mod Choice
pub mod Relation
pub mod RoundTrip
pub mod Size
mod Tests

-- The four bytes of a `dword_t` in the order in which they stand in memory: `pixel8[0]` to `[3]`.
pub record Pixel : Type 0 where
  pub byte_0 : ℕ
  pub byte_1 : ℕ
  pub byte_2 : ℕ
  pub byte_3 : ℕ

-- A pixel of image data has its first and third byte the other way round.
abbrev pub swapped : Pixel → Pixel
swapped p = record { byte_0 = p.byte_2; byte_1 = p.byte_1; byte_2 = p.byte_0; byte_3 = p.byte_3 }

abbrev pub is_same : Pixel → Pixel → Bool
is_same p q =
    p.byte_0 == q.byte_0 && p.byte_1 == q.byte_1 && p.byte_2 == q.byte_2 && p.byte_3 == q.byte_3

abbrev pub clear_pixel : Pixel
clear_pixel = record { byte_0 = 0; byte_1 = 0; byte_2 = 0; byte_3 = 0 }

-- 0xFF000000
abbrev pub first_pixel : Pixel
first_pixel = record { byte_0 = 0; byte_1 = 0; byte_2 = 0; byte_3 = 255 }

abbrev pub index_of : Pixel → ℕ
index_of p = (p.byte_0 * 3 + p.byte_1 * 5 + p.byte_2 * 7 + p.byte_3 * 11) % 64

-- `clear_memory((dword_t)qoi_index_array, 256)`: 64 entries of four bytes.
abbrev pub cleared_index : List Pixel
cleared_index = replicate 64 clear_pixel

-- ===== src/Qoi/Encode.antt =====
-- source/libraries/graphic_formats/qoi.c: the loop of `convert_image_data_to_qoi`.
use blesk_os_fork.Base.{
  ℕ, ◌+◌, ◌-◌, ◌^◌, Bool, ◌&&◌, ◌||◌, not, leb, ◌==◌, if◌then◌else◌, List, [], ◌∷◌, ◌++◌, Option,
  none, some, set, length, ◌*◌, u32, u8, bit_or, ◌<<◌,
}
use blesk_os_fork.Qoi.{Pixel, swapped, is_same, first_pixel, index_of, cleared_index}

pub record Encoder : Type 0 where
  pub previous_image_pixel : Pixel
  pub run : ℕ
  pub qoi_index_array : List Pixel

abbrev pub new_encoder : Encoder
new_encoder = record {
  previous_image_pixel = first_pixel;
  run = 0;
  qoi_index_array = cleared_index;
}

abbrev pub run_chunk : ℕ → List ℕ
run_chunk run = u8 (bit_or 0xC0 (run - 1)) ∷ []

-- The bytes of a run that ends, if there is one.
abbrev pub end_run : ℕ → List ℕ
end_run run = if run == 0 then [] else run_chunk run

-- The search of the index array from entry `j` on.
unfoldable pub find_pixel : Pixel → ℕ → List Pixel → Option ℕ
find_pixel p j [] = none
find_pixel p j (q ∷ qs) = let rest = find_pixel p (j + 1) qs in if is_same q p then some j else rest

abbrev pub rgba_chunk : Pixel → List ℕ
rgba_chunk p = 0xFF ∷ p.byte_0 ∷ p.byte_1 ∷ p.byte_2 ∷ p.byte_3 ∷ []

abbrev pub rgb_chunk : Pixel → List ℕ
rgb_chunk p = 0xFE ∷ p.byte_0 ∷ p.byte_1 ∷ p.byte_2 ∷ []

abbrev pub sub8 : ℕ → ℕ → ℕ
sub8 a b = u8 (a + 2 ^ 8 - b)

abbrev pub diff_byte : ℕ → ℕ → ℕ → ℕ
diff_byte red green blue =
    u8 (bit_or (bit_or (bit_or 0x40 ((red + 2) << 4)) ((green + 2) << 2)) (blue + 2))

abbrev pub luma_byte : ℕ → ℕ
luma_byte green = u8 (bit_or 0x80 (green + 32))

abbrev pub luma_differences : ℕ → ℕ → ℕ
luma_differences red blue = u8 (bit_or ((red + 8) << 4) (blue + 8))

abbrev pub is_small : ℕ → Bool
is_small difference = leb difference 1 || leb 0xFE difference

abbrev pub is_medium : ℕ → Bool
is_medium difference = leb difference 7 || leb 0xF8 difference

-- The chunk of a pixel whose alpha channel did not change.
unfoldable pub difference_chunk : Pixel → Pixel → List ℕ
difference_chunk q p =
    let red = sub8 p.byte_0 q.byte_0 in
    let green = sub8 p.byte_1 q.byte_1 in
    let blue = sub8 p.byte_2 q.byte_2 in
    if is_small red && is_small green && is_small blue
    then diff_byte red green blue ∷ []
    else if is_medium (sub8 red green)
        && is_medium (sub8 blue green)
        && (leb green 31 || leb 0xE0 green)
    then luma_byte green ∷ luma_differences (sub8 red green) (sub8 blue green) ∷ []
    else rgb_chunk p

-- "select most efficent representation of pixel"
unfoldable pub pixel_chunk : Encoder → Pixel → List ℕ
pixel_chunk e p = elim (find_pixel p 0 e.qoi_index_array) [
  | some j ↦ j ∷ []
  | none ↦
      if not (p.byte_3 == e.previous_image_pixel.byte_3)
      then rgba_chunk p
      else difference_chunk e.previous_image_pixel p
]

-- What one round of the loop writes, and the state that it leaves.
unfoldable pub written : Encoder → Pixel → List ℕ
written e p =
    if is_same p e.previous_image_pixel
    then (if e.run + 1 == 62 then run_chunk (e.run + 1) else [])
    else end_run e.run ++ pixel_chunk e p

unfoldable pub encode_pixel : Encoder → Pixel → Encoder
encode_pixel e p =
    if is_same p e.previous_image_pixel
    then record e { run = if e.run + 1 == 62 then 0 else e.run + 1 }
    else record {
      previous_image_pixel = p;
      run = 0;
      qoi_index_array = set e.qoi_index_array (index_of p) p;
    }

-- The loop of `convert_image_data_to_qoi` over the image data, and the last run behind it.
unfoldable pub encode_pixels : Encoder → List Pixel → List ℕ
encode_pixels e [] = end_run e.run
encode_pixels e (x ∷ xs) = written e (swapped x) ++ encode_pixels (encode_pixel e (swapped x)) xs

-- The bytes that are allocated for the file of an image: four for each pixel, the header and the ending.
unfoldable pub size_of_qoi_memory : ℕ → ℕ → ℕ
size_of_qoi_memory width height = u32 (14 + width * height * 4 + 8)

-- The length of the file, which grows with each byte that is written between the header and the ending.
unfoldable pub qoi_file_length : List ℕ → ℕ
qoi_file_length bytes = u32 (22 + length bytes)

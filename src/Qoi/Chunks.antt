-- ===== src/Qoi/Chunks.antt =====
-- Each chunk that stands at the decoder's position is decoded to the pixel that it was written for.
use blesk_os_fork.Base.{
  length, ℕ, ◌+◌, ◌<◌, ◌≡◌, true, leb, arith, ◌||◌, List, [], ◌∷◌, get_or, set, u8, bit_or,
}
use blesk_os_fork.Memory.{Memory}
use blesk_os_fork.Memory.Holds.{Holds, byte_at}
use blesk_os_fork.Qoi.{Pixel, index_of, clear_pixel}
use blesk_os_fork.Qoi.Bytes.{
  index_byte, run_byte, diff_byte_lem, luma_byte_lem, luma_differences_lem,
}
use blesk_os_fork.Qoi.Decode.{
  Decoder, decode_pixel, decode_chunk, save_pixel, decode_rgb, decode_rgba, decode_index,
  decode_diff, decode_luma, decode_run,
}
use blesk_os_fork.Qoi.Encode.{
  rgb_chunk, rgba_chunk, diff_byte, luma_byte, luma_differences, sub8, is_small, is_medium,
}

unfoldable pub IsPixel : Pixel → Type 0
IsPixel p = (p.byte_0 < 256) × (p.byte_1 < 256) × (p.byte_2 < 256) × (p.byte_3 < 256)

-- The decoder after a chunk of `n` bytes for the pixel `p`.
abbrev pub decoded : Decoder → ℕ → Pixel → Decoder
decoded d n p = record d {
  qoi_data = d.qoi_data + n;
  pixel = p;
  qoi_index_array = set d.qoi_index_array (index_of p) p;
}

-- Where the chunk stands at the decoder's position, the next round takes it for the pixel `p`.
abbrev pub Decodes : Memory → Decoder → List ℕ → Pixel → Type 0
Decodes m d bs p = Holds m d.qoi_data bs → decode_pixel m d ≡ decoded d (length bs) p

module _ (m : Memory) (d : Decoder) (fresh : d.repeat ≡ 0) where
  abbrev next : Decoder
  next = record d { qoi_data = d.qoi_data + 1 }

  reads : (c : ℕ) → byte_at m d.qoi_data ≡ c → decode_pixel m d ≡ save_pixel (decode_chunk m c next)
  unfolding decode_pixel
  reads c h = ground (arith, h, fresh)

  pub decodes_rgb :
      (p : Pixel)
      → Holds m d.qoi_data (rgb_chunk p)
      → p.byte_3 ≡ d.pixel.byte_3
      → decode_pixel m d ≡ decoded d 4 p
  unfolding decode_chunk save_pixel decode_rgb Holds
  decodes_rgb p h alpha = rw (reads 0xFE h.0) (ground (arith, h, alpha))

  pub decodes_rgba :
      (p : Pixel) → Holds m d.qoi_data (rgba_chunk p) → decode_pixel m d ≡ decoded d 5 p
  unfolding decode_chunk save_pixel decode_rgba Holds
  decodes_rgba p h = rw (reads 0xFF h.0) (ground (arith, h))

  pub decodes_index :
      (p : Pixel) (j : ℕ)
      → j < 64
      → get_or d.qoi_index_array j clear_pixel ≡ p
      → Holds m d.qoi_data (j ∷ [])
      → decode_pixel m d ≡ decoded d 1 p
  unfolding decode_chunk save_pixel decode_index Holds
  decodes_index p j lt at h = let b = index_byte j lt in rw (reads j h.0) (ground (arith, b, at))

  pub decodes_run :
      (n : ℕ)
      → n < 62
      → Holds m d.qoi_data (u8 (bit_or 0xC0 n) ∷ [])
      → decode_pixel m d ≡ record (decoded d 1 d.pixel) { repeat = n }
  unfolding decode_chunk save_pixel decode_run Holds
  decodes_run n lt h =
      let b = run_byte n lt in rw (reads (u8 (bit_or 0xC0 n)) h.0) (ground (arith, b))

  module _ (p : Pixel) (wp : IsPixel p) (wd : IsPixel d.pixel)
      (alpha : p.byte_3 ≡ d.pixel.byte_3) where
    abbrev red : ℕ
    red = sub8 p.byte_0 d.pixel.byte_0

    abbrev green : ℕ
    green = sub8 p.byte_1 d.pixel.byte_1

    abbrev blue : ℕ
    blue = sub8 p.byte_2 d.pixel.byte_2

    pub decodes_diff :
        is_small red ≡ true
        → is_small green ≡ true
        → is_small blue ≡ true
        → Holds m d.qoi_data (diff_byte red green blue ∷ [])
        → decode_pixel m d ≡ decoded d 1 p
    unfolding decode_chunk save_pixel decode_diff Holds IsPixel
    decodes_diff hr hg hb h =
        let b =
          diff_byte_lem (u8 (red + 2)) (u8 (green + 2)) (u8 (blue + 2)) red green blue
            (ground arith) (ground arith) (ground arith) (ground arith) (ground arith)
            (ground arith) in
        rw (reads (diff_byte red green blue) h.0) (ground (arith, b, wp, wd, alpha))

    pub decodes_luma :
        is_medium (sub8 red green) ≡ true
        → is_medium (sub8 blue green) ≡ true
        → (leb green 31 || leb 0xE0 green) ≡ true
        → Holds m d.qoi_data
            (luma_byte green ∷ luma_differences (sub8 red green) (sub8 blue green) ∷ [])
        → decode_pixel m d ≡ decoded d 2 p
    unfolding decode_chunk save_pixel decode_luma Holds IsPixel
    decodes_luma hr hb hg h =
        let b = luma_byte_lem (u8 (green + 32)) green (ground arith) (ground arith) in
        let q =
          luma_differences_lem (u8 (sub8 red green + 8)) (u8 (sub8 blue green + 8)) (sub8 red green)
            (sub8 blue green) (ground arith) (ground arith) (ground arith) (ground arith) in
        rw (reads (luma_byte green) h.0) (ground (arith, b, q, h, wp, wd, alpha))

-- ===== src/Qoi/Decode.antt =====
-- source/libraries/graphic_formats/qoi.c: the loop of `convert_qoi_to_image_data`.
use blesk_os_fork.Base.{
  ℕ, zero, suc, ◌+◌, ◌-◌, ltb, ◌==◌, if◌then◌else◌, List, [], ◌∷◌, get_or, set, u8, sub32, add32,
  bit_and, ◌>>◌,
}
use blesk_os_fork.Memory.{Memory}
use blesk_os_fork.Memory.Holds.{byte_at}
use blesk_os_fork.Qoi.{Pixel, swapped, clear_pixel, first_pixel, index_of, cleared_index}

pub record Decoder : Type 0 where
  pub qoi_data : ℕ
  pub pixel : Pixel
  pub qoi_index_array : List Pixel
  pub repeat : ℕ

abbrev pub new_decoder : ℕ → Decoder
new_decoder start = record {
  qoi_data = start;
  pixel = first_pixel;
  qoi_index_array = cleared_index;
  repeat = 0;
}

-- The chunks that the decoder tells apart; `qoi_data` stands behind the first byte of the chunk.
unfoldable pub decode_rgb : Memory → Decoder → Decoder
decode_rgb m d = record d {
  pixel = record {
    byte_0 = byte_at m d.qoi_data;
    byte_1 = byte_at m (d.qoi_data + 1);
    byte_2 = byte_at m (d.qoi_data + 2);
    byte_3 = d.pixel.byte_3;
  };
  qoi_data = d.qoi_data + 3;
}

unfoldable pub decode_rgba : Memory → Decoder → Decoder
decode_rgba m d = record d {
  pixel = record {
    byte_0 = byte_at m d.qoi_data;
    byte_1 = byte_at m (d.qoi_data + 1);
    byte_2 = byte_at m (d.qoi_data + 2);
    byte_3 = byte_at m (d.qoi_data + 3);
  };
  qoi_data = d.qoi_data + 4;
}

unfoldable pub decode_index : ℕ → Decoder → Decoder
decode_index c d = record d { pixel = get_or d.qoi_index_array (bit_and c 0x3F) clear_pixel }

unfoldable pub decode_diff : ℕ → Decoder → Decoder
decode_diff c d = record d {
  pixel = record d.pixel {
    byte_0 = u8 (d.pixel.byte_0 + sub32 (bit_and (c >> 4) 0x3) 2);
    byte_1 = u8 (d.pixel.byte_1 + sub32 (bit_and (c >> 2) 0x3) 2);
    byte_2 = u8 (d.pixel.byte_2 + sub32 (bit_and c 0x3) 2);
  };
}

unfoldable pub decode_luma : Memory → ℕ → Decoder → Decoder
decode_luma m c d =
    let green_difference = sub32 (bit_and c 0x3F) 32 in
    let b = byte_at m d.qoi_data in
    record d {
      pixel = record d.pixel {
        byte_0 = u8 (d.pixel.byte_0 + add32 (sub32 green_difference 8) (bit_and (b >> 4) 0xF));
        byte_1 = u8 (d.pixel.byte_1 + green_difference);
        byte_2 = u8 (d.pixel.byte_2 + add32 (sub32 green_difference 8) (bit_and b 0xF));
      };
      qoi_data = d.qoi_data + 1;
    }

unfoldable pub decode_run : ℕ → Decoder → Decoder
decode_run c d = record d { repeat = bit_and c 0x3F }

unfoldable pub decode_chunk : Memory → ℕ → Decoder → Decoder
decode_chunk m c d =
    if c == 0xFE
    then decode_rgb m d
    else if c == 0xFF
    then decode_rgba m d
    else if bit_and c 0xC0 == 0x00
    then decode_index c d
    else if bit_and c 0xC0 == 0x40
    then decode_diff c d
    else if bit_and c 0xC0 == 0x80
    then decode_luma m c d
    else decode_run c d

-- "save pixel to index array"
unfoldable pub save_pixel : Decoder → Decoder
save_pixel d = record d { qoi_index_array = set d.qoi_index_array (index_of d.pixel) d.pixel }

-- One round of the loop: the next pixel.
unfoldable pub decode_pixel : Memory → Decoder → Decoder
decode_pixel m d =
    if ltb 0 d.repeat
    then record d { repeat = d.repeat - 1 }
    else save_pixel (decode_chunk m (byte_at m d.qoi_data) (record d { qoi_data = d.qoi_data + 1 }))

-- The loop of `convert_qoi_to_image_data` with `n` rounds left.
unfoldable pub decode_pixels : Memory → ℕ → Decoder → List Pixel
decode_pixels m zero d = []
decode_pixels m (suc n) d = let s = decode_pixel m d in swapped s.pixel ∷ decode_pixels m n s

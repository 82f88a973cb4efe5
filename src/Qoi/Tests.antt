-- ===== src/Qoi/Tests.antt =====
-- An image with every kind of chunk: its encoding, and the theorems there.
use blesk_os_fork.Base.{ap, ℕ, zero, suc, ◌≤◌, ◌<◌, ◌≡◌, ◌≢◌, refl, arith, List, [], ◌∷◌, get_or}
use blesk_os_fork.Memory.{Memory}
use blesk_os_fork.Memory.Holds.{Holds}
use blesk_os_fork.Qoi.{Pixel, clear_pixel}
use blesk_os_fork.Qoi.Chunks.{IsPixel}
use blesk_os_fork.Qoi.Decode.{new_decoder, decode_pixels}
use blesk_os_fork.Qoi.Encode.{
  new_encoder, encode_pixel, encode_pixels, written, pixel_chunk, difference_chunk, find_pixel,
  qoi_file_length, size_of_qoi_memory,
}
use blesk_os_fork.Qoi.RoundTrip.{IsImage, decode_pixels-encode_pixels}
use blesk_os_fork.Qoi.Size.{IsOpaque, encode_pixels_fits}

abbrev dot : ℕ → ℕ → ℕ → ℕ → Pixel
dot blue green red alpha = record { byte_0 = blue; byte_1 = green; byte_2 = red; byte_3 = alpha }

abbrev image : List Pixel
image =
    dot 0 0 0 255
    ∷ dot 1 255 0 255
    ∷ dot 20 15 22 255
    ∷ dot 200 100 60 255
    ∷ dot 9 8 7 6
    ∷ dot 1 255 0 255
    ∷ []

abbrev chunks : List ℕ
chunks = 0xC0 ∷ 0x67 ∷ 0xB0 ∷ 0xEB ∷ 0xFE ∷ 60 ∷ 100 ∷ 200 ∷ 0xFF ∷ 7 ∷ 8 ∷ 9 ∷ 6 ∷ 0x37 ∷ []

encoded : encode_pixels new_encoder image ≡ chunks
unfolding encode_pixels written encode_pixel pixel_chunk difference_chunk find_pixel
encoded = refl

abbrev file : Memory
file a = get_or chunks a 0

not_clear : (p : Pixel) → 0 < p.byte_3 → p ≢ clear_pixel
not_clear p h e = absurd (omega (arith, h, ap (λ (q : Pixel). q.byte_3) e))

image-IsImage : IsImage image
unfolding IsImage IsPixel
image-IsImage zero h = (omega arith, not_clear _ (omega arith))
image-IsImage (suc zero) h = (omega arith, not_clear _ (omega arith))
image-IsImage (suc (suc zero)) h = (omega arith, not_clear _ (omega arith))
image-IsImage (suc (suc (suc zero))) h = (omega arith, not_clear _ (omega arith))
image-IsImage (suc (suc (suc (suc zero)))) h = (omega arith, not_clear _ (omega arith))
image-IsImage (suc (suc (suc (suc (suc zero))))) h = (omega arith, not_clear _ (omega arith))
image-IsImage (suc (suc (suc (suc (suc (suc i)))))) h = absurd (omega arith)

chunks-Holds : Holds file 0 chunks
unfolding Holds
chunks-Holds = omega arith

decode_pixels-encode_pixels_example : decode_pixels file 6 (new_decoder 0) ≡ image
decode_pixels-encode_pixels_example =
    decode_pixels-encode_pixels file 0 image image-IsImage (rw encoded chunks-Holds)

abbrev opaque_image : List Pixel
opaque_image = dot 0 0 0 255 ∷ dot 200 100 60 255 ∷ []

opaque_image-IsOpaque : IsOpaque opaque_image
unfolding IsOpaque
opaque_image-IsOpaque zero h = refl
opaque_image-IsOpaque (suc zero) h = refl
opaque_image-IsOpaque (suc (suc i)) h = absurd (omega arith)

encode_pixels_fits_example :
    qoi_file_length (encode_pixels new_encoder opaque_image) ≤ size_of_qoi_memory 2 1
encode_pixels_fits_example =
    encode_pixels_fits 2 1 opaque_image refl (omega arith) opaque_image-IsOpaque

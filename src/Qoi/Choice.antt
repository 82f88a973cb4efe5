-- ===== src/Qoi/Choice.antt =====
-- The chunk that the encoder chooses for a pixel, and the byte of a run.
use blesk_os_fork.Base.{
  ==_false, ==_true, ℕ_discrete, ℕ, zero, suc, ◌+◌, ◌-◌, ◌<◌, ◌≡◌, ◌≢◌, inl, inr, refl, ap, ◌&&◌,
  leb, ◌==◌, arith, if◌then◌else◌, not, ◌||◌, [], ◌∷◌, ◌++◌, none, some, replicate, Bool-cases,
  Option-cases,
}
use blesk_os_fork.Memory.{Memory}
use blesk_os_fork.Memory.Holds.{Holds}
use blesk_os_fork.Qoi.{Pixel, swapped, clear_pixel}
use blesk_os_fork.Qoi.Chunks.{
  Decodes, IsPixel, decoded, decodes_rgb, decodes_rgba, decodes_index, decodes_run, decodes_diff,
  decodes_luma,
}
use blesk_os_fork.Qoi.Decode.{Decoder, decode_pixel, decode_pixels}
use blesk_os_fork.Qoi.Encode.{
  Encoder, difference_chunk, pixel_chunk, is_small, is_medium, sub8, run_chunk, rgba_chunk,
  find_pixel,
}
use blesk_os_fork.Qoi.Index.{Agree, find_pixel-Agree}

difference_chunk-Decodes :
    (m : Memory) (d : Decoder) (p : Pixel)
    → d.repeat ≡ 0
    → IsPixel p
    → IsPixel d.pixel
    → p.byte_3 ≡ d.pixel.byte_3
    → Decodes m d (difference_chunk d.pixel p) p
unfolding difference_chunk
difference_chunk-Decodes m d p fresh wp wd alpha =
    elim (Bool-cases (is_small red && is_small green && is_small blue)) [
      | inl s ↦ rw s (
          decodes_diff m d fresh p wp wd alpha (ground (arith, s)) (ground (arith, s))
            (ground (arith, s)))
      | inr s ↦
          elim (Bool-cases (
            is_medium (sub8 red green)
            && is_medium (sub8 blue green)
            && (leb green 31 || leb 0xE0 green))) [
              | inl t ↦
                  rw (s, t)
                    (decodes_luma m d fresh p wp wd alpha (ground (arith, t)) (ground (arith, t))
                      (ground (arith, t)))
              | inr t ↦ rw (s, t) (λ h. decodes_rgb m d fresh p h alpha)
            ]
    ]
  where
    red : ℕ
    red = sub8 p.byte_0 d.pixel.byte_0

    green : ℕ
    green = sub8 p.byte_1 d.pixel.byte_1

    blue : ℕ
    blue = sub8 p.byte_2 d.pixel.byte_2

pub pixel_chunk-found :
    (e : Encoder) (p : Pixel) (j : ℕ)
    → find_pixel p 0 e.qoi_index_array ≡ some j
    → pixel_chunk e p ≡ j ∷ []
unfolding pixel_chunk
pixel_chunk-found e p j f = rw (f, pixel_chunk) refl

pub pixel_chunk-new :
    (e : Encoder) (p q : Pixel)
    → find_pixel p 0 e.qoi_index_array ≡ none
    → e.previous_image_pixel ≡ q
    → pixel_chunk e p ≡ (if not (p.byte_3 == q.byte_3) then rgba_chunk p else difference_chunk q p)
unfolding pixel_chunk
pixel_chunk-new e p q n same = rw (n, pixel_chunk, ← same) refl

-- The chunk that is chosen is decoded to the pixel, if it is not the clear one.
pub pixel_chunk-Decodes :
    (m : Memory) (e : Encoder) (d : Decoder) (p : Pixel)
    → d.repeat ≡ 0
    → IsPixel p
    → IsPixel d.pixel
    → p ≢ clear_pixel
    → e.previous_image_pixel ≡ d.pixel
    → Agree e.qoi_index_array d.qoi_index_array
    → Decodes m d (pixel_chunk e p) p
pixel_chunk-Decodes m e d p fresh wp wd ne same agree =
    elim (Option-cases (find_pixel p 0 e.qoi_index_array)) [
      | inl n ↦ elim (ℕ_discrete p.byte_3 d.pixel.byte_3) [
        | yes a ↦
            rw (pixel_chunk-new e p d.pixel n same, ==_true a)
              (difference_chunk-Decodes m d p fresh wp wd a)
        | no a ↦ rw (pixel_chunk-new e p d.pixel n same, ==_false a) (decodes_rgba m d fresh p)
      ]
      | inr (j, f) ↦
          let a = find_pixel-Agree p j e.qoi_index_array d.qoi_index_array agree ne f in
          rw (pixel_chunk-found e p j f) (decodes_index m d fresh p j a.0 a.1)
    ]

-- What is left of a run gives its pixel again.
repeat-decodes :
    (m : Memory) (k : ℕ) (d : Decoder)
    → d.repeat ≡ suc k
    → decode_pixel m d ≡ record d { repeat = k }
unfolding decode_pixel
repeat-decodes m k d h = ground (arith, h)

repeats :
    (m : Memory) (k n : ℕ) (d : Decoder)
    → d.repeat ≡ k
    → decode_pixels m (k + n) d
      ≡ replicate k (swapped d.pixel) ++ decode_pixels m n (record d { repeat = 0 })
unfolding decode_pixels
repeats m zero n d h =
    let z : 0 + n ≡ n = omega arith in
    let same : d ≡ record d { repeat = 0 } = ground (arith, h) in rw z (ap (decode_pixels m n) same)
repeats m (suc k) n d h =
    let z : suc k + n ≡ suc (k + n) = omega arith in
    rw (z, repeat-decodes m k d h)
      (ap (λ ps. swapped d.pixel ∷ ps) (repeats m k n (record d { repeat = k }) refl))

pub run_chunk-decodes :
    (m : Memory) (r n : ℕ) (d : Decoder)
    → d.repeat ≡ 0
    → r < 62
    → Holds m d.qoi_data (run_chunk (r + 1))
    → decode_pixels m (r + 1 + n) d
      ≡ replicate (r + 1) (swapped d.pixel) ++ decode_pixels m n (decoded d 1 d.pixel)
unfolding decode_pixels
run_chunk-decodes m r n d fresh lt h =
    let z : r + 1 + n ≡ suc (r + n) = omega arith in
    let s : r + 1 ≡ suc r = omega arith in
    let one : r + 1 - 1 ≡ r = omega arith in
    rw (z, s, decodes_run m d fresh r lt (rw (← one) h), fresh)
      (ap (λ ps. swapped d.pixel ∷ ps)
        (repeats m r n (record (decoded d 1 d.pixel) { repeat = r }) refl))

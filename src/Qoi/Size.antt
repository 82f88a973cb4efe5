-- ===== src/Qoi/Size.antt =====
-- How many bytes the encoder writes. The file is allocated with four bytes for each pixel.
use blesk_os_fork.Base.{
  inr, inl, ℕ, zero, suc, ◌+◌, ◌^◌, ◌*◌, ◌≤◌, ◌<◌, ◌≡◌, ◌≢◌, refl, sym, ◌∙◌, ap, false, arith, List,
  [], ◌∷◌, ◌++◌, none, get_or, length, replicate, Bool-cases, Option-cases, length-append,
  ℕ_discrete, ==_false,
}
use blesk_os_fork.Qoi.{first_pixel, Pixel, swapped, clear_pixel, is_same}
use blesk_os_fork.Qoi.Choice.{pixel_chunk-found, pixel_chunk-new}
use blesk_os_fork.Qoi.Encode.{
  Encoder, new_encoder, encode_pixels, pixel_chunk, difference_chunk, end_run, find_pixel,
  qoi_file_length, size_of_qoi_memory,
}
use blesk_os_fork.Qoi.Index.{is_same-eq}
use blesk_os_fork.Qoi.RoundTrip.{encode_pixels-full, encode_pixels-more, encode_pixels-new, saving}

length-difference_chunk : (q p : Pixel) → length (difference_chunk q p) ≤ 4
unfolding difference_chunk
length-difference_chunk q p = ground arith

length-end_run : (r : ℕ) → length (end_run r) ≤ r
length-end_run r = ground arith

-- A chunk has at most four bytes where the alpha channel stays.
length-pixel_chunk :
    (e : Encoder) (p : Pixel)
    → p.byte_3 ≡ e.previous_image_pixel.byte_3
    → length (pixel_chunk e p) ≤ 4
length-pixel_chunk e p h = elim (Option-cases (find_pixel p 0 e.qoi_index_array)) [
  | inl f ↦
      rw (pixel_chunk-new e p e.previous_image_pixel f refl)
        (ground (arith, h, length-difference_chunk e.previous_image_pixel p))
  | inr (j, f) ↦ rw (pixel_chunk-found e p j f) (omega arith)
]

unfoldable pub IsOpaque : List Pixel → Type 0
IsOpaque xs = (i : ℕ) → i < length xs → (get_or xs i clear_pixel).byte_3 ≡ 255

IsOpaque-first : (x : Pixel) (xs : List Pixel) → IsOpaque (x ∷ xs) → x.byte_3 ≡ 255
unfolding IsOpaque
IsOpaque-first x xs h = h 0 (omega arith)

IsOpaque-rest : (x : Pixel) (xs : List Pixel) → IsOpaque (x ∷ xs) → IsOpaque xs
unfolding IsOpaque
IsOpaque-rest x xs h i lt = h (suc i) (omega arith)

encode_pixels_fit :
    (e : Encoder) (xs : List Pixel)
    → e.previous_image_pixel.byte_3 ≡ 255
    → IsOpaque xs
    → length (encode_pixels e xs) ≤ e.run + 4 * length xs
unfolding encode_pixels
encode_pixels_fit e [] alpha o = omega (arith, length-end_run e.run)
encode_pixels_fit e (x ∷ xs) alpha o =
    elim (Bool-cases (is_same (swapped x) e.previous_image_pixel)) [
      | inl s ↦ elim (ℕ_discrete (e.run + 1) 62) [
        | yes full ↦
            rw (encode_pixels-full e x xs s full)
              (omega (arith, encode_pixels_fit (record e { run = 0 }) xs alpha rest))
        | no more ↦
            rw (encode_pixels-more e x xs s more)
              (omega (arith, encode_pixels_fit (record e { run = e.run + 1 }) xs alpha rest))
      ]
      | inr s ↦
          let tail = encode_pixels (saving e (swapped x)) xs in
          rw (encode_pixels-new e x xs s) (
            omega (
              arith,
              length-append (end_run e.run) (pixel_chunk e (swapped x) ++ tail),
              length-append (pixel_chunk e (swapped x)) tail,
              length-end_run e.run,
              length-pixel_chunk e (swapped x) (IsOpaque-first x xs o ∙ sym alpha),
              encode_pixels_fit (saving e (swapped x)) xs (IsOpaque-first x xs o) rest,
            ))
    ]
  where
    rest : IsOpaque xs
    rest = IsOpaque-rest x xs o

-- The file of an opaque image, header and ending included, is not longer than the memory that is
-- allocated for it, if the image has as many pixels as its width and height say and that memory is
-- less than 4 GB.
pub encode_pixels_fits :
    (width height : ℕ) (xs : List Pixel)
    → length xs ≡ width * height
    → 22 + 4 * (width * height) < 2 ^ 32
    → IsOpaque xs
    → qoi_file_length (encode_pixels new_encoder xs) ≤ size_of_qoi_memory width height
unfolding qoi_file_length size_of_qoi_memory
encode_pixels_fits width height xs all small o =
    omega (arith, encode_pixels_fit new_encoder xs refl o, all, small)

find_pixel-cleared :
    (p : Pixel) (n j : ℕ) → p ≢ clear_pixel → find_pixel p j (replicate n clear_pixel) ≡ none
unfolding find_pixel
find_pixel-cleared p zero j ne = refl
find_pixel-cleared p (suc n) j ne = elim (Bool-cases (is_same clear_pixel p)) [
  | inl s ↦ absurd (ne (sym (is_same-eq clear_pixel p s)))
  | inr s ↦ rw s (find_pixel-cleared p n (j + 1) ne)
]

-- The file of an image of one pixel that is neither opaque nor clear is one byte longer than the memory
-- that is allocated for it.
pub encode_pixels_overflows :
    (x : Pixel)
    → x ≢ clear_pixel
    → x.byte_3 ≢ 255
    → qoi_file_length (encode_pixels new_encoder (x ∷ [])) ≡ size_of_qoi_memory 1 1 + 1
unfolding encode_pixels qoi_file_length size_of_qoi_memory
encode_pixels_overflows x ne alpha =
    let s : is_same (swapped x) first_pixel ≡ false = ground arith in
    rw
      (
        encode_pixels-new new_encoder x [] s,
        pixel_chunk-new new_encoder (swapped x) first_pixel
            (find_pixel-cleared (swapped x) 64 0 (λ h. ne (ap swapped h))) refl,
        ==_false alpha,
      )
      (omega arith)

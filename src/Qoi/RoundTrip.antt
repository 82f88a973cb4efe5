-- ===== src/Qoi/RoundTrip.antt =====
-- Decoding what the encoder writes gives the pixels back.
use blesk_os_fork.Base.{
  ℕ, zero, suc, ◌+◌, ◌<◌, ◌≡◌, ◌≢◌, inl, inr, refl, ◌∙◌, ap, true, false, arith, List, [], ◌∷◌,
  ◌++◌, get_or, set, length, replicate, Bool-cases, append-nil, append_assoc, ℕ_discrete, ==_true,
  ==_false,
}
use blesk_os_fork.Memory.{Memory}
use blesk_os_fork.Memory.Holds.{Holds-append, Holds}
use blesk_os_fork.Qoi.{Pixel, index_of, swapped, clear_pixel, is_same}
use blesk_os_fork.Qoi.Choice.{pixel_chunk-Decodes, run_chunk-decodes}
use blesk_os_fork.Qoi.Chunks.{IsPixel, decoded}
use blesk_os_fork.Qoi.Decode.{Decoder, new_decoder, decode_pixels}
use blesk_os_fork.Qoi.Encode.{
  Encoder, new_encoder, encode_pixel, encode_pixels, written, pixel_chunk, run_chunk, end_run,
}
use blesk_os_fork.Qoi.Index.{Agree-cleared, is_same-eq}
use blesk_os_fork.Qoi.Relation.{IsRelated-pixel, IsRelated-pending, IsRelated-run, flush, IsRelated}
use mathlib.Core.Path.{subst}

-- An image whose pixels have four bytes and are not all clear.
unfoldable pub IsImage : List Pixel → Type 0
IsImage xs =
    (i : ℕ)
    → i < length xs
    → IsPixel (get_or xs i clear_pixel) × (get_or xs i clear_pixel ≢ clear_pixel)

replicate_snoc :
    (n : ℕ) (a : Pixel) (xs : List Pixel) → replicate (n + 1) a ++ xs ≡ replicate n a ++ (a ∷ xs)
replicate_snoc zero a xs = refl
replicate_snoc (suc n) a xs =
    let z : suc n + 1 ≡ suc (n + 1) = omega arith in
    rw z (ap (λ ps. a ∷ ps) (replicate_snoc n a xs))

-- The rest of an image after its first pixel.
IsImage-rest : (x : Pixel) (xs : List Pixel) → IsImage (x ∷ xs) → IsImage xs
unfolding IsImage
IsImage-rest x xs h i lt = h (suc i) (omega arith)

IsImage-first : (x : Pixel) (xs : List Pixel) → IsImage (x ∷ xs) → IsPixel x × (x ≢ clear_pixel)
unfolding IsImage
IsImage-first x xs h = h 0 (omega arith)

from_zero :
    (m : Memory) (d : Decoder) (n : ℕ) (ps : List Pixel)
    → decode_pixels m (0 + n) d ≡ ps
    → decode_pixels m n d ≡ ps
from_zero m d n ps h = let z : 0 + n ≡ n = omega arith in subst (λ k. decode_pixels m k d ≡ ps) z h

IsPixel-swapped : (p : Pixel) → IsPixel p → IsPixel (swapped p)
unfolding IsPixel
IsPixel-swapped p h = (h.2, h.1, h.0, h.3)

swapped_clear : (p : Pixel) → p ≢ clear_pixel → swapped p ≢ clear_pixel
swapped_clear p ne h = ne (ap swapped h)

-- What one round writes and leaves in each of its three cases.
pub encode_pixels-full :
    (e : Encoder) (x : Pixel) (xs : List Pixel)
    → is_same (swapped x) e.previous_image_pixel ≡ true
    → e.run + 1 ≡ 62
    → encode_pixels e (x ∷ xs) ≡ run_chunk (e.run + 1) ++ encode_pixels (record e { run = 0 }) xs
unfolding encode_pixels written encode_pixel
encode_pixels-full e x xs s full = rw (s, ==_true full) refl

pub encode_pixels-more :
    (e : Encoder) (x : Pixel) (xs : List Pixel)
    → is_same (swapped x) e.previous_image_pixel ≡ true
    → e.run + 1 ≢ 62
    → encode_pixels e (x ∷ xs) ≡ encode_pixels (record e { run = e.run + 1 }) xs
unfolding encode_pixels written encode_pixel
encode_pixels-more e x xs s more = rw (s, ==_false more) refl

abbrev pub saving : Encoder → Pixel → Encoder
saving e p = record {
  previous_image_pixel = p;
  run = 0;
  qoi_index_array = set e.qoi_index_array (index_of p) p;
}

pub encode_pixels-new :
    (e : Encoder) (x : Pixel) (xs : List Pixel)
    → is_same (swapped x) e.previous_image_pixel ≡ false
    → encode_pixels e (x ∷ xs)
      ≡ end_run e.run ++ (pixel_chunk e (swapped x) ++ encode_pixels (saving e (swapped x)) xs)
unfolding encode_pixels written encode_pixel
encode_pixels-new e x xs s = rw s (append_assoc (end_run e.run) (pixel_chunk e (swapped x)) _)

-- The pixels of a run, one more of them, and the rest.
run_longer :
    (n : ℕ) (x : Pixel) (d : Decoder) (xs ys : List Pixel)
    → x ≡ swapped d.pixel
    → ys ≡ replicate (n + 1) (swapped d.pixel) ++ xs
    → ys ≡ replicate n (swapped d.pixel) ++ (x ∷ xs)
run_longer n x d xs ys e h = rw e (h ∙ replicate_snoc n (swapped d.pixel) xs)

encode_pixels-decodes :
    (m : Memory) (e : Encoder) (d : Decoder) (xs : List Pixel)
    → IsRelated e d
    → e.run < 62
    → IsImage xs
    → Holds m d.qoi_data (encode_pixels e xs)
    → decode_pixels m (e.run + length xs) d ≡ replicate e.run (swapped d.pixel) ++ xs
unfolding encode_pixels decode_pixels
encode_pixels-decodes m e d [] w lt image h =
    let f = flush m e d e.run [] w (omega arith) (rw append-nil h) in f.pixels 0
encode_pixels-decodes m e d (x ∷ xs) w lt image h =
    elim (Bool-cases (is_same (swapped x) e.previous_image_pixel)) [
      | inl s ↦ elim (ℕ_discrete (e.run + 1) 62) [
        | yes full ↦
            let k =
              Holds-append m d.qoi_data (run_chunk (e.run + 1)) _
                (subst (Holds m d.qoi_data) (encode_pixels-full e x xs s full) h) in
            let rest =
              encode_pixels-decodes m (record e { run = 0 }) (decoded d 1 d.pixel) xs
                (IsRelated-run e d 0 w) (omega arith) (IsImage-rest x xs image) k.1 in
            rw longer (
              run_longer e.run x d xs _ (is_kept s) (
                run_chunk-decodes m e.run (length xs) d w.fresh lt k.0
                ∙ ap (λ ps. replicate (e.run + 1) (swapped d.pixel) ++ ps)
                    (from_zero m _ (length xs) xs rest)))
        | no more ↦ rw longer (
            run_longer e.run x d xs _ (is_kept s) (
              encode_pixels-decodes m (record e { run = e.run + 1 }) d xs
                (IsRelated-pending e d (e.run + 1) w) (omega (arith, more))
                (IsImage-rest x xs image)
                (subst (Holds m d.qoi_data) (encode_pixels-more e x xs s more) h)))
      ]
      | inr s ↦
          let f =
            flush m e d e.run _ w (omega arith)
              (subst (Holds m d.qoi_data) (encode_pixels-new e x xs s) h) in
          let k = Holds-append m f.after.qoi_data (pixel_chunk e (swapped x)) _ f.at in
          let c =
            pixel_chunk-Decodes m e f.after (swapped x) f.related.fresh wx f.related.pixel
              (swapped_clear x (IsImage-first x xs image).1) f.related.same f.related.agree k.0 in
          let rest =
            encode_pixels-decodes m (saving e (swapped x))
              (decoded f.after (length (pixel_chunk e (swapped x))) (swapped x)) xs
              (IsRelated-pixel e f.after (swapped x) _ f.related wx) (omega arith)
              (IsImage-rest x xs image) k.1 in
          let step : decode_pixels m (suc (length xs)) f.after ≡ x ∷ xs =
            rw c (ap (λ ps. x ∷ ps) (from_zero m _ (length xs) xs rest)) in
          f.pixels (suc (length xs)) ∙ ap (λ ps. replicate e.run (swapped d.pixel) ++ ps) step
    ]
  where
    longer : e.run + suc (length xs) ≡ e.run + 1 + length xs
    longer = omega arith

    wx : IsPixel (swapped x)
    wx = IsPixel-swapped x (IsImage-first x xs image).0

    is_kept : is_same (swapped x) e.previous_image_pixel ≡ true → x ≡ swapped d.pixel
    is_kept s = ap swapped (is_same-eq (swapped x) e.previous_image_pixel s ∙ w.same)

-- The decoder gives back an image that the encoder wrote, if no pixel of it is clear.
pub decode_pixels-encode_pixels :
    (m : Memory) (start : ℕ) (xs : List Pixel)
    → IsImage xs
    → Holds m start (encode_pixels new_encoder xs)
    → decode_pixels m (length xs) (new_decoder start) ≡ xs
unfolding IsPixel
decode_pixels-encode_pixels m start xs image h = from_zero m (new_decoder start) (length xs) xs (
    encode_pixels-decodes m new_encoder (new_decoder start) xs
      (record {
        same = refl;
        fresh = refl;
        agree = Agree-cleared;
        saved = inl refl;
        pixel = omega arith;
      })
      (omega arith) image h)

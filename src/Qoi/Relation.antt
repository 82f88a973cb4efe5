-- ===== src/Qoi/Relation.antt =====
-- How the states of the encoder and the decoder belong together, and the end of a run.
use mathlib.Core.Path.{subst}
use blesk_os_fork.Base.{
  ℕ, zero, suc, ◌+◌, ◌≤◌, ◌≡◌, ◌≢◌, ◌⊎◌, inr, refl, arith, List, ◌++◌, get_or, set, replicate,
  get_or-set_self, ==_false,
}
use blesk_os_fork.Memory.{Memory}
use blesk_os_fork.Memory.Holds.{Holds-append, Holds}
use blesk_os_fork.Qoi.{Pixel, index_of, swapped, clear_pixel}
use blesk_os_fork.Qoi.Choice.{run_chunk-decodes}
use blesk_os_fork.Qoi.Chunks.{IsPixel, decoded}
use blesk_os_fork.Qoi.Decode.{Decoder, decode_pixels}
use blesk_os_fork.Qoi.Encode.{Encoder, run_chunk, end_run}
use blesk_os_fork.Qoi.Index.{Agree, Agree-set, Agree-saved}

-- The decoder is where the encoder's pending run starts.
pub record IsRelated (e : Encoder) (d : Decoder) : Type 0 where
  pub same : e.previous_image_pixel ≡ d.pixel
  pub fresh : d.repeat ≡ 0
  pub agree : Agree e.qoi_index_array d.qoi_index_array
  pub saved :
      (get_or e.qoi_index_array (index_of d.pixel) clear_pixel ≡ clear_pixel)
      ⊎ (get_or e.qoi_index_array (index_of d.pixel) clear_pixel ≡ d.pixel)
  pub pixel : IsPixel d.pixel

-- The relation does not depend on the pending run.
pub IsRelated-pending :
    (e : Encoder) (d : Decoder) (r : ℕ) → IsRelated e d → IsRelated (record e { run = r }) d
IsRelated-pending e d r w = record {
  same = w.same;
  fresh = w.fresh;
  agree = w.agree;
  saved = w.saved;
  pixel = w.pixel;
}

-- The state after a run has been written.
pub IsRelated-run :
    (e : Encoder) (d : Decoder) (r : ℕ)
    → IsRelated e d
    → IsRelated (record e { run = r }) (decoded d 1 d.pixel)
IsRelated-run e d r w = record {
  same = w.same;
  fresh = w.fresh;
  agree =
      Agree-saved e.qoi_index_array d.qoi_index_array (index_of d.pixel) d.pixel w.agree
        (omega arith) w.saved;
  saved = w.saved;
  pixel = w.pixel;
}

-- The state after the chunk of a pixel.
pub IsRelated-pixel :
    (e : Encoder) (d : Decoder) (p : Pixel) (n : ℕ)
    → IsRelated e d
    → IsPixel p
    → IsRelated
        (record {
          previous_image_pixel = p;
          run = 0;
          qoi_index_array = set e.qoi_index_array (index_of p) p;
        })
        (decoded d n p)
IsRelated-pixel e d p n w wp = record {
  same = refl;
  fresh = w.fresh;
  agree = Agree-set e.qoi_index_array d.qoi_index_array (index_of p) p w.agree (omega arith);
  saved = inr (
      get_or-set_self e.qoi_index_array (index_of p) p clear_pixel
        (omega (arith, w.agree.length_encoder)));
  pixel = wp;
}

-- The decoder after a pending run of `r` pixels, at the bytes `bs` that follow it.
pub record IsFlushed (m : Memory) (e : Encoder) (d : Decoder) (r : ℕ) (bs : List ℕ) : Type 0 where
  pub after : Decoder
  pub related : IsRelated e after
  pub at : Holds m after.qoi_data bs
  pub pixels :
      (n : ℕ) → decode_pixels m (r + n) d ≡ replicate r (swapped d.pixel) ++ decode_pixels m n after

suc_ne : (r : ℕ) → suc r ≢ 0
suc_ne r h = absurd (omega arith)

pub flush :
    (m : Memory) (e : Encoder) (d : Decoder) (r : ℕ) (bs : List ℕ)
    → IsRelated e d
    → r ≤ 62
    → Holds m d.qoi_data (end_run r ++ bs)
    → IsFlushed m e d r bs
flush m e d zero bs w lt h = record {
  after = d;
  related = w;
  at = h;
  pixels = λ n. let z : 0 + n ≡ n = omega arith in rw z refl;
}
flush m e d (suc r) bs w lt h =
    let s : r + 1 ≡ suc r = omega arith in
    let run : end_run (suc r) ≡ run_chunk (suc r) = rw (==_false (suc_ne r)) refl in
    let k =
      Holds-append m d.qoi_data (run_chunk (suc r)) bs
        (subst (λ bytes. Holds m d.qoi_data (bytes ++ bs)) run h) in
    record {
      after = decoded d 1 d.pixel;
      related = IsRelated-run e d e.run w;
      at = k.1;
      pixels = λ n.
          subst
            (λ i.
              decode_pixels m (i + n) d
              ≡ replicate i (swapped d.pixel) ++ decode_pixels m n (decoded d 1 d.pixel))
            s (run_chunk-decodes m r n d w.fresh (omega arith) (rw s k.0));
    }

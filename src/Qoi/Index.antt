-- ===== src/Qoi/Index.antt =====
-- The index arrays of the encoder and of the decoder.
use blesk_os_fork.Base.{
  ℕ, suc, ◌+◌, ◌<◌, ◌≡◌, ◌≢◌, ◌⊎◌, inl, inr, refl, sym, ◌∙◌, ap, true, arith, List, [], ◌∷◌, some,
  get_or, set, length, Bool-cases, get_or-set_self, get_or-set_ne, length-set, ℕ_discrete,
}
use blesk_os_fork.Qoi.{Pixel, is_same, clear_pixel, cleared_index}
use blesk_os_fork.Qoi.Encode.{find_pixel}

pub is_same-eq : (p q : Pixel) → is_same p q ≡ true → p ≡ q
is_same-eq p q h = ground (arith, h)

-- A pixel that is found stands at the index that the search returns.
find_pixel-found :
    (p : Pixel) (j k : ℕ) (qs : List Pixel)
    → find_pixel p j qs ≡ some k
    → (i : ℕ) × (k ≡ j + i) × (i < length qs) × (get_or qs i clear_pixel ≡ p)
unfolding find_pixel
find_pixel-found p j k [] h = absurd (ground (arith, h))
find_pixel-found p j k (q ∷ qs) h = elim (Bool-cases (is_same q p)) [
  | inl e ↦ (0, ground (arith, h), omega arith, is_same-eq q p e)
  | inr e ↦
      let r = find_pixel-found p (j + 1) k qs (ground (arith, h)) in
      (suc r.0, omega (arith, r.1), omega (arith, r.2), r.3)
]

-- The decoder's array has what the encoder's has, where that is not clear.
pub record Agree (encoder decoder : List Pixel) : Type 0 where
  pub length_encoder : length encoder ≡ 64
  pub length_decoder : length decoder ≡ 64
  pub entries :
      (j : ℕ)
      → get_or encoder j clear_pixel ≢ clear_pixel
      → get_or decoder j clear_pixel ≡ get_or encoder j clear_pixel

pub Agree-cleared : Agree cleared_index cleared_index
Agree-cleared = record { length_encoder = refl; length_decoder = refl; entries = λ j h. refl }

pub find_pixel-Agree :
    (p : Pixel) (k : ℕ) (es ds : List Pixel)
    → Agree es ds
    → p ≢ clear_pixel
    → find_pixel p 0 es ≡ some k
    → (k < 64) × (get_or ds k clear_pixel ≡ p)
find_pixel-Agree p k es ds g ne h =
    let f = find_pixel-found p 0 k es h in
    let at : k ≡ f.0 = omega (arith, f.1) in
    (omega (arith, at, f.2, g.length_encoder), rw at (g.entries f.0 (λ e. ne (sym f.3 ∙ e)) ∙ f.3))

-- Both save the same pixel.
pub Agree-set :
    (es ds : List Pixel) (j : ℕ) (p : Pixel)
    → Agree es ds
    → j < 64
    → Agree (set es j p) (set ds j p)
Agree-set es ds j p g h = record {
  length_encoder = length-set es j p ∙ g.length_encoder;
  length_decoder = length-set ds j p ∙ g.length_decoder;
  entries = λ k ne. elim (ℕ_discrete j k) [
    | yes e ↦
        rw
          (
            ← e,
            get_or-set_self ds j p clear_pixel (omega (arith, g.length_decoder)),
            get_or-set_self es j p clear_pixel (omega (arith, g.length_encoder)),
          )
          refl
    | no nk ↦
        rw (get_or-set_ne ds j k p clear_pixel nk, get_or-set_ne es j k p clear_pixel nk)
          (g.entries k (λ e. ne (get_or-set_ne es j k p clear_pixel nk ∙ e)))
  ];
}

-- The decoder saves a pixel that the encoder has there already or that it did not save.
pub Agree-saved :
    (es ds : List Pixel) (j : ℕ) (p : Pixel)
    → Agree es ds
    → j < 64
    → (get_or es j clear_pixel ≡ clear_pixel) ⊎ (get_or es j clear_pixel ≡ p)
    → Agree es (set ds j p)
Agree-saved es ds j p g h at = record {
  length_encoder = g.length_encoder;
  length_decoder = length-set ds j p ∙ g.length_decoder;
  entries = λ k ne. elim (ℕ_discrete j k) [
    | yes e ↦ get_or-saved k e ∙ elim at [
      | inl z ↦ absurd (ne (ap (λ i. get_or es i clear_pixel) (sym e) ∙ z))
      | inr q ↦ sym (ap (λ i. get_or es i clear_pixel) (sym e) ∙ q)
    ]
    | no nk ↦ get_or-set_ne ds j k p clear_pixel nk ∙ g.entries k ne
  ];
}
  where
    get_or-saved : (k : ℕ) → j ≡ k → get_or (set ds j p) k clear_pixel ≡ p
    get_or-saved k e =
        rw (← e) (get_or-set_self ds j p clear_pixel (omega (arith, g.length_decoder)))

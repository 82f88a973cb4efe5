-- ===== src/ByteStream/Life.antt =====
-- The operations of a byte stream from its making to its end.
use mathlib.Core.Path.{subst}
use blesk_os_fork.Base.{
  ◌⊎◌, inl, inr, ◌≢◌, ap, ◌∙◌, sym, ℕ_discrete, refl, ℕ, zero, suc, ◌+◌, ◌/◌, ◌%◌, ◌^◌, ◌<◌, ◌≤◌,
  ◌≡◌, arith, List, [], ◌∷◌, ◌++◌, length, length-append, append_assoc, append-nil, replicate, u8,
}
use blesk_os_fork.ByteStream.{
  create_byte_stream, close_byte_stream, Machine, Output, add_byte_to_byte_stream,
  add_dword_to_byte_stream, skip_bytes_in_byte_stream,
}
use blesk_os_fork.ByteStream.Contents.{IsStream, IsRealloc, add_byte_to_byte_stream-holds_or_lost}
use blesk_os_fork.Memory.Holds.{Holds}

-- The stream holds the bytes, or it is lost: an allocation failed, and its start is the null pointer.
abbrev pub HoldsOrLost {ℓ} :
    {A : Type ℓ} (is_block : A → ℕ → ℕ → Type 0) → ℕ → ℕ → Output A → List ℕ → Type 0
HoldsOrLost is_block limit block o bs =
    (o.stream.start_of_allocated_memory ≡ 0) ⊎ IsStream is_block limit block o bs

-- The operation adds the bytes to every stream that has `limit` bytes for them and one block more, or
-- the stream is lost.
pub record Appends {ℓ} {A : Type ℓ} (is_block : A → ℕ → ℕ → Type 0) (limit block : ℕ)
    (f : Output A → Output A) (xs : List ℕ) : Type ℓ where
  pub added :
      (o : Output A) (bs : List ℕ)
      → HoldsOrLost is_block limit block o bs
      → length bs + length xs + block ≤ limit
      → HoldsOrLost is_block limit block (f o) (bs ++ xs)

-- The `n` lowest bytes of a number, the lowest first.
unfoldable pub little_endian : ℕ → ℕ → List ℕ
little_endian zero v = []
little_endian (suc n) v = v % 256 ∷ little_endian n (v / 256)

module _ {ℓ} {A : Type ℓ} {is_block : A → ℕ → ℕ → Type 0} {limit block : ℕ} where
  nothing_is_appended : Appends is_block limit block (λ o. o) []
  nothing_is_appended = record { added = λ o bs is_stream fits. rw (append-nil bs) is_stream }

  pub appended_then :
      {f g : Output A → Output A} {xs ys : List ℕ}
      → Appends is_block limit block f xs
      → Appends is_block limit block g ys
      → Appends is_block limit block (λ o. g (f o)) (xs ++ ys)
  appended_then {f} {g} {xs} {ys} first next = record {
    added = λ o bs is_stream fits.
        let len : length (xs ++ ys) ≡ length xs + length ys = length-append xs ys in
        let mid : length (bs ++ xs) ≡ length bs + length xs = length-append bs xs in
        let fits_first : length bs + length xs + block ≤ limit = omega arith in
        let fits_next : length (bs ++ xs) + length ys + block ≤ limit = omega arith in
        rw (← append_assoc bs xs ys)
          (next.added (f o) (bs ++ xs) (first.added o bs is_stream fits_first) fits_next);
  }

  module _ {realloc : ℕ → ℕ → Machine A → ℕ × Machine A} (is_realloc : IsRealloc is_block realloc)
      (small : limit < 2 ^ 32) (some : 0 < block) where
    pub add_byte_to_byte_stream-Appends :
        (v : ℕ) → Appends is_block limit block (add_byte_to_byte_stream realloc v) (u8 v ∷ [])
    add_byte_to_byte_stream-Appends v = record {
      added = λ o bs is_stream fits.
          let room : length bs + block ≤ limit = omega arith in
          add_byte_to_byte_stream-holds_or_lost is_realloc small some v o bs is_stream room;
    }

    pub skip_bytes_in_byte_stream-Appends :
        (n : ℕ) → Appends is_block limit block (skip_bytes_in_byte_stream realloc n) (replicate n 0)
    unfolding skip_bytes_in_byte_stream
    skip_bytes_in_byte_stream-Appends zero = nothing_is_appended
    skip_bytes_in_byte_stream-Appends (suc n) =
        appended_then (add_byte_to_byte_stream-Appends 0) (skip_bytes_in_byte_stream-Appends n)

    -- add_dword_to_byte_stream adds the four bytes of its value, the lowest first, to every stream that
    -- has room for them and one block more, unless it is lost.
    pub add_dword_to_byte_stream-Appends :
        (v : ℕ)
        → Appends is_block limit block (add_dword_to_byte_stream realloc v) (little_endian 4 v)
    unfolding add_dword_to_byte_stream little_endian
    add_dword_to_byte_stream-Appends v =
        let all = appended_then (add_byte_to_byte_stream-Appends (v % 2 ^ 8)) (
          appended_then (add_byte_to_byte_stream-Appends (v / 2 ^ 8 % 2 ^ 8)) (
            appended_then (add_byte_to_byte_stream-Appends (v / 2 ^ 16 % 2 ^ 8))
              (add_byte_to_byte_stream-Appends (v / 2 ^ 24 % 2 ^ 8)))) in
        let b0 : u8 (v % 2 ^ 8) ≡ v % 256 = omega arith in
        let b1 : u8 (v / 2 ^ 8 % 2 ^ 8) ≡ v / 256 % 256 = omega arith in
        let b2 : u8 (v / 2 ^ 16 % 2 ^ 8) ≡ v / 256 / 256 % 256 = omega arith in
        let b3 : u8 (v / 2 ^ 24 % 2 ^ 8) ≡ v / 256 / 256 / 256 % 256 = omega arith in
        rw (← b0, ← b1, ← b2, ← b3) all

-- What a stream needs of `calloc`: what is had is a new block below 4 GB.
pub record IsCalloc {ℓ} {A : Type ℓ} (is_block : A → ℕ → ℕ → Type 0)
    (calloc : ℕ → Machine A → ℕ × Machine A) : Type ℓ where
  pub is_new_block :
      (size : ℕ) (w : Machine A)
      → (calloc size w).0 ≢ 0
      → is_block (calloc size w).1.allocator (calloc size w).0 size
  pub below : (size : ℕ) (w : Machine A) → (calloc size w).0 ≢ 0 → (calloc size w).0 + size < 2 ^ 32

-- The output that is closed after the operation `f` on a new stream.
abbrev pub closed_output {ℓ} :
    {A : Type ℓ} (calloc : ℕ → Machine A → ℕ × Machine A)
    (realloc : ℕ → ℕ → Machine A → ℕ × Machine A) (free : ℕ → Machine A → Machine A)
    → ℕ
    → (Output A → Output A)
    → Machine A
    → ℕ × Machine A
closed_output calloc realloc free block f w =
    let (descriptor, o) = create_byte_stream calloc block w in
    close_byte_stream realloc free descriptor (f o)

module _ {ℓ} {A : Type ℓ} {is_block : A → ℕ → ℕ → Type 0} {limit block : ℕ}
    {calloc : ℕ → Machine A → ℕ × Machine A} where
  create_byte_stream-holds_or_lost :
      (w : Machine A)
      → IsCalloc is_block calloc
      → limit < 2 ^ 32
      → block ≤ limit
      → HoldsOrLost is_block limit block (create_byte_stream calloc block w).1 []
  unfolding create_byte_stream Holds
  create_byte_stream-holds_or_lost w is_calloc small fits =
      let v = (calloc 24 w).1 in
      elim (ℕ_discrete (calloc block v).0 0) [
        | yes fails ↦ inl fails
        | no is_some ↦
            let below = is_calloc.below block v is_some in
            inr (record {
              counted = refl;
              pointed = omega arith;
              ended = ground (arith, below);
              fits = omega arith;
              limited = fits;
              in_memory = below;
              same_block = refl;
              is_block_of = is_calloc.is_new_block block v is_some;
              holds = refl;
            })
      ]

  -- A stream that is made, filled by an operation that adds the bytes, and closed, leaves exactly these
  -- bytes in memory from the returned address on, however often it had to grow, unless that address is
  -- the null pointer: if the bytes and one block more are not more than a limit below 2 ^ 32, calloc
  -- and realloc keep their laws, and freeing the descriptor leaves the memory as it is.
  pub close_byte_stream-Holds :
      {realloc : ℕ → ℕ → Machine A → ℕ × Machine A} (free : ℕ → Machine A → Machine A)
      {f : Output A → Output A} {xs : List ℕ} (w : Machine A)
      → IsCalloc is_block calloc
      → IsRealloc is_block realloc
      → ((p : ℕ) (v : Machine A) → (free p v).memory ≡ v.memory)
      → limit < 2 ^ 32
      → Appends is_block limit block f xs
      → length xs + block ≤ limit
      → ((closed_output calloc realloc free block f w).0 ≡ 0)
        ⊎ Holds
            (closed_output calloc realloc free block f w).1.memory
            (closed_output calloc realloc free block f w).0
            xs
  unfolding close_byte_stream
  close_byte_stream-Holds {realloc} free {f} {xs} w is_calloc is_realloc keeps small appends fits =
      let made = create_byte_stream calloc block w in
      let all : 0 + length xs + block ≤ limit = omega arith in
      let o = f made.1 in
      let s = o.stream in
      elim (appends.added made.1 []
        (create_byte_stream-holds_or_lost w is_calloc small (omega arith)) all) [
          | inl lost ↦ inl (
              ap (λ p. (realloc p s.size_of_stream o.machine).0) lost
              ∙ is_realloc.null s.size_of_stream o.machine)
          | inr full ↦
              elim (ℕ_discrete (realloc s.start_of_allocated_memory s.size_of_stream o.machine).0
                0) [
                  | yes fails ↦ inl fails
                  | no is_some ↦ inr (
                      subst (λ m. Holds m (closed_output calloc realloc free block f w).0 xs)
                        (sym (
                          keeps made.0
                            (realloc s.start_of_allocated_memory s.size_of_stream o.machine).1))
                        (is_realloc.moved s.start_of_allocated_memory s.size_of_allocated_memory
                          s.size_of_stream o.machine xs full.is_block_of is_some full.fits
                          (omega (arith, full.counted)) full.holds))
                ]
        ]

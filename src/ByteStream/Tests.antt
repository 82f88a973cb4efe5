-- ===== src/ByteStream/Tests.antt =====
-- A stream with blocks of two bytes, in the one block of an allocator that lets it
-- grow in place up to 1000 bytes.
use mathlib.Core.Path.{subst}
use blesk_os_fork.Base.{
  ◌⊎◌, inl, inr, ℕ, ◌+◌, ◌^◌, ◌<◌, ◌≤◌, ◌≡◌, ◌≢◌, refl, sym, arith, [], ◌∷◌, ◌||◌, ltb, ◌==◌,
  if◌then◌else◌, Bool-cases,
}
use blesk_os_fork.ByteStream.{
  Machine, Output, create_byte_stream, close_byte_stream, allocate_more, put_byte,
  add_byte_to_byte_stream, add_dword_to_byte_stream, skip_bytes_in_byte_stream,
}
use blesk_os_fork.ByteStream.Contents.{IsStream, IsRealloc, add_byte_to_byte_stream-IsStream}
use blesk_os_fork.ByteStream.Life.{
  IsCalloc, Appends, appended_then, closed_output, add_dword_to_byte_stream-Appends,
  skip_bytes_in_byte_stream-Appends, close_byte_stream-Holds, little_endian,
}
use blesk_os_fork.Memory.Holds.{Holds}

-- The allocator keeps the size of its block, which starts at 4096.
abbrev IsKept : ℕ → ℕ → ℕ → Type 0
IsKept kept p n = (p ≡ 4096) × (n ≡ kept)

-- It gives no more than 1000 bytes, and nothing for nothing or in place of the null pointer.
abbrev realloc : ℕ → ℕ → Machine ℕ → ℕ × Machine ℕ
realloc p size w =
    if p == 0 || size == 0 || ltb 1000 size then (0, w) else (4096, record w { allocator = size })

abbrev calloc : ℕ → Machine ℕ → ℕ × Machine ℕ
calloc size w =
    if size == 0 || ltb 1000 size
    then (0, w)
    else (4096, record { memory = λ a. 0; allocator = size })

abbrev free : ℕ → Machine ℕ → Machine ℕ
free p w = w

-- What realloc does where it succeeds.
realloc_succeeds :
    (p size : ℕ) (w : Machine ℕ)
    → (realloc p size w).0 ≢ 0
    → (realloc p size w ≡ (4096, record w { allocator = size })) × (size ≤ 1000)
realloc_succeeds p size w some = elim (Bool-cases (p == 0 || size == 0 || ltb 1000 size)) [
  | inl e ↦ absurd (some (rw e refl))
  | inr e ↦ (rw e refl, ground arith)
]

calloc_succeeds :
    (size : ℕ) (w : Machine ℕ)
    → (calloc size w).0 ≢ 0
    → (calloc size w ≡ (4096, record { memory = λ a. 0; allocator = size })) × (size ≤ 1000)
calloc_succeeds size w some = elim (Bool-cases (size == 0 || ltb 1000 size)) [
  | inl e ↦ absurd (some (rw e refl))
  | inr e ↦ (rw e refl, ground arith)
]

realloc-IsRealloc : IsRealloc IsKept realloc
realloc-IsRealloc = record {
  moved = λ p n size w bs is some old new holds.
      (let (done, _) = realloc_succeeds p size w some in
        subst (λ r. Holds r.1.memory r.0 bs) (sym done)
          (subst (λ q. Holds w.memory q bs) is.0 holds));
  is_new_block = λ p n size w is some.
      (let (done, _) = realloc_succeeds p size w some in
        subst (λ r. IsKept r.1.allocator r.0 size) (sym done) (refl, refl));
  below = λ p n size w is some.
      (let (done, few) = realloc_succeeds p size w some in
        subst (λ r. r.0 + size < 2 ^ 32) (sym done) (omega arith));
  null = λ size w. refl;
}

calloc-IsCalloc : IsCalloc IsKept calloc
calloc-IsCalloc = record {
  is_new_block = λ size w some.
      (let (done, _) = calloc_succeeds size w some in
        subst (λ r. IsKept r.1.allocator r.0 size) (sym done) (refl, refl));
  below = λ size w some.
      (let (done, few) = calloc_succeeds size w some in
        subst (λ r. r.0 + size < 2 ^ 32) (sym done) (omega arith));
}

abbrev machine : Machine ℕ
machine = record { memory = λ a. 7; allocator = 0 }

-- Two bytes in a block of two: the next one makes the stream grow.
abbrev full : Output ℕ
full = record {
  stream = record {
    start_of_allocated_memory = 4096;
    memory_pointer = 4098;
    size_of_allocated_memory = 2;
    end_of_allocated_memory = 4098;
    size_of_stream = 2;
    size_of_one_block = 2;
  };
  machine = record { memory = λ a. 7; allocator = 2 };
}

full-IsStream : IsStream IsKept 1000 2 full (7 ∷ 7 ∷ [])
unfolding Holds
full-IsStream = record {
  counted = refl;
  pointed = refl;
  ended = refl;
  fits = omega arith;
  limited = omega arith;
  in_memory = omega arith;
  same_block = refl;
  is_block_of = (refl, refl);
  holds = (refl, (refl, refl));
}

add_byte_to_byte_stream-IsStream_example :
    IsStream IsKept 1000 2 (add_byte_to_byte_stream realloc 300 full) (7 ∷ 7 ∷ 44 ∷ [])
add_byte_to_byte_stream-IsStream_example =
    add_byte_to_byte_stream-IsStream realloc-IsRealloc (omega arith) (omega arith) 300 full
      (7 ∷ 7 ∷ []) full-IsStream (omega arith) (λ e. omega arith)

-- A dword and two zeros.
abbrev fill : Output ℕ → Output ℕ
fill o = skip_bytes_in_byte_stream realloc 2 (add_dword_to_byte_stream realloc 0x12345678 o)

fill-Appends : Appends IsKept 1000 2 fill (0x78 ∷ 0x56 ∷ 0x34 ∷ 0x12 ∷ 0 ∷ 0 ∷ [])
unfolding little_endian
fill-Appends =
    appended_then
      (add_dword_to_byte_stream-Appends realloc-IsRealloc (omega arith) (omega arith) 0x12345678)
      (skip_bytes_in_byte_stream-Appends realloc-IsRealloc (omega arith) (omega arith) 2)

close_byte_stream-Holds_example :
    ((closed_output calloc realloc free 2 fill machine).0 ≡ 0)
    ⊎ Holds
        (closed_output calloc realloc free 2 fill machine).1.memory
        (closed_output calloc realloc free 2 fill machine).0
        (0x78 ∷ 0x56 ∷ 0x34 ∷ 0x12 ∷ 0 ∷ 0 ∷ [])
close_byte_stream-Holds_example =
    close_byte_stream-Holds free machine calloc-IsCalloc realloc-IsRealloc (λ p v. refl)
      (omega arith) fill-Appends (omega arith)

closed_at : (closed_output calloc realloc free 2 fill machine).0 ≡ 4096
unfolding create_byte_stream close_byte_stream skip_bytes_in_byte_stream add_dword_to_byte_stream
    add_byte_to_byte_stream allocate_more put_byte
closed_at = refl

-- ===== src/ByteStream/Contents.antt =====
-- A byte stream as the list of the bytes that were added.
use mathlib.Core.Path.{subst}
use blesk_os_fork.Base.{
  ◌⊎◌, ℕ_discrete, ==_true, ==_false, ℕ, suc, ◌+◌, ◌^◌, ◌<◌, ◌≤◌, ◌≡◌, ◌≢◌, refl, ap, ◌∙◌, sym,
  ◌==◌, arith, List, [], ◌∷◌, ◌++◌, length, length-append, u8, u32, add32, Bool-cases, inl, inr,
}
use blesk_os_fork.ByteStream.{Machine, Output, put_byte, allocate_more, add_byte_to_byte_stream}
use blesk_os_fork.Memory.{Memory, store}
use blesk_os_fork.Memory.Holds.{Holds}

-- What a stream needs of the allocator, which keeps the blocks: `is_block a p n` says that `n` bytes
-- from `p` on are one. Where a block is had in place of another, it begins with the bytes of the old one
-- and lies below 4 GB; a reallocation fails with the null pointer, and always where it is given that.
pub record IsRealloc {ℓ} {A : Type ℓ} (is_block : A → ℕ → ℕ → Type 0)
    (realloc : ℕ → ℕ → Machine A → ℕ × Machine A) : Type ℓ where
  pub moved :
      (p n size : ℕ) (w : Machine A) (bs : List ℕ)
      → is_block w.allocator p n
      → (realloc p size w).0 ≢ 0
      → length bs ≤ n
      → length bs ≤ size
      → Holds w.memory p bs
      → Holds (realloc p size w).1.memory (realloc p size w).0 bs
  pub is_new_block :
      (p n size : ℕ) (w : Machine A)
      → is_block w.allocator p n
      → (realloc p size w).0 ≢ 0
      → is_block (realloc p size w).1.allocator (realloc p size w).0 size
  pub below :
      (p n size : ℕ) (w : Machine A)
      → is_block w.allocator p n
      → (realloc p size w).0 ≢ 0
      → (realloc p size w).0 + size < 2 ^ 32
  pub null : (size : ℕ) (w : Machine A) → (realloc 0 size w).0 ≡ 0

-- The stream holds exactly the bytes.
pub record IsStream {ℓ} {A : Type ℓ} (is_block : A → ℕ → ℕ → Type 0) (limit block : ℕ)
    (o : Output A) (bs : List ℕ) : Type 0 where
  pub counted : o.stream.size_of_stream ≡ length bs
  pub pointed : o.stream.memory_pointer ≡ o.stream.start_of_allocated_memory + length bs
  pub ended :
      o.stream.end_of_allocated_memory
      ≡ o.stream.start_of_allocated_memory + o.stream.size_of_allocated_memory
  pub fits : length bs ≤ o.stream.size_of_allocated_memory
  pub limited : o.stream.size_of_allocated_memory ≤ limit
  pub in_memory : o.stream.start_of_allocated_memory + o.stream.size_of_allocated_memory < 2 ^ 32
  pub same_block : o.stream.size_of_one_block ≡ block
  pub is_block_of :
      is_block o.machine.allocator o.stream.start_of_allocated_memory
        o.stream.size_of_allocated_memory
  pub holds : Holds o.machine.memory o.stream.start_of_allocated_memory bs

-- A byte that is stored behind the others.
Holds-store :
    (m : Memory) (a v : ℕ) (bs : List ℕ)
    → a + length bs < 2 ^ 32
    → Holds m a bs
    → Holds (store m (a + length bs) v) a (bs ++ (v ∷ []))
unfolding Holds
Holds-store m a v [] below h =
    let here : u32 a ≡ u32 (a + 0) = ap u32 (omega arith) in (rw (==_true here) refl, refl)
Holds-store m a v (b ∷ bs) below h =
    let there : u32 a ≢ u32 (a + suc (length bs)) = omega arith in
    let next : a + suc (length bs) ≡ a + 1 + length bs = omega arith in
    (
      rw (==_false there) h.0,
      subst (λ p. Holds (store m p v) (a + 1) (bs ++ (v ∷ []))) (sym next)
          (Holds-store m (a + 1) v bs (omega arith) h.1),
    )

module _ {ℓ} {A : Type ℓ} {is_block : A → ℕ → ℕ → Type 0} {limit block : ℕ} where
  put_byte-IsStream :
      (v : ℕ) (o : Output A) (bs : List ℕ)
      → IsStream is_block limit block o bs
      → length bs < o.stream.size_of_allocated_memory
      → IsStream is_block limit block (put_byte v o) (bs ++ (u8 v ∷ []))
  unfolding put_byte
  put_byte-IsStream v o bs is_stream room =
      let len : length (bs ++ (u8 v ∷ [])) ≡ length bs + 1 = length-append bs (u8 v ∷ []) in
      record {
        counted = rw (len, is_stream.counted) (omega arith);
        pointed = rw (len, is_stream.pointed) (omega arith);
        ended = is_stream.ended;
        fits = rw len (omega arith);
        limited = is_stream.limited;
        in_memory = is_stream.in_memory;
        same_block = is_stream.same_block;
        is_block_of = is_stream.is_block_of;
        holds = rw is_stream.pointed (
            Holds-store o.machine.memory o.stream.start_of_allocated_memory (u8 v) bs (omega arith)
              is_stream.holds);
      }

  module _ {realloc : ℕ → ℕ → Machine A → ℕ × Machine A} (is_realloc : IsRealloc is_block realloc)
      (small : limit < 2 ^ 32) (some : 0 < block) where
    -- A full stream grows by a block and keeps its bytes.
    pub record Grown (o : Output A) (bs : List ℕ) (g : Output A) : Type 0 where
      pub is_stream : IsStream is_block limit block g bs
      pub room : length bs < g.stream.size_of_allocated_memory
      pub started : g.stream.start_of_allocated_memory ≢ 0

    allocate_more-Grown :
        (o : Output A) (bs : List ℕ)
        → IsStream is_block limit block o bs
        → length bs ≡ o.stream.size_of_allocated_memory
        → length bs + block ≤ limit
        → (realloc o.stream.start_of_allocated_memory (length bs + block) o.machine).0 ≢ 0
        → Grown o bs (allocate_more realloc o)
    unfolding allocate_more
    allocate_more-Grown o bs is_stream full fits is_some =
        let start = o.stream.start_of_allocated_memory in
        let old = o.stream.size_of_allocated_memory in
        let size = length bs + block in
        let more : add32 old o.stream.size_of_one_block ≡ size =
          rw is_stream.same_block (omega arith) in
        let below = is_realloc.below start old size o.machine is_stream.is_block_of is_some in
        rw (more, ==_false is_some)
          (record {
            is_stream = record {
              counted = is_stream.counted;
              pointed = rw is_stream.same_block (ground (arith, below));
              ended = ground (arith, below);
              fits = omega arith;
              limited = fits;
              in_memory = below;
              same_block = is_stream.same_block;
              is_block_of =
                  is_realloc.is_new_block start old size o.machine is_stream.is_block_of is_some;
              holds =
                  is_realloc.moved start old size o.machine bs is_stream.is_block_of is_some
                    (omega arith) (omega arith) is_stream.holds;
            };
            room = omega arith;
            started = is_some;
          })

    -- The pointer of a stream stands at the end of its block exactly if the block is full.
    is_full :
        (o : Output A) (bs : List ℕ)
        → IsStream is_block limit block o bs
        → o.stream.memory_pointer ≡ o.stream.end_of_allocated_memory
        → length bs ≡ o.stream.size_of_allocated_memory
    is_full o bs is_stream e = omega (arith, is_stream.pointed, is_stream.ended)

    -- A byte that is added to a stream stands behind the others, whether the stream has to grow and move
    -- or not, and the descriptor agrees with the bytes as before; if the bytes and one block more are
    -- not more than a limit below 2 ^ 32, the blocks are not empty, and, where the block is full, the
    -- allocation of as many bytes and one block more succeeds.
    pub add_byte_to_byte_stream-IsStream :
        (v : ℕ) (o : Output A) (bs : List ℕ)
        → IsStream is_block limit block o bs
        → length bs + block ≤ limit
        → (o.stream.memory_pointer ≡ o.stream.end_of_allocated_memory
            → (realloc o.stream.start_of_allocated_memory (length bs + block) o.machine).0 ≢ 0)
        → IsStream is_block limit block (add_byte_to_byte_stream realloc v o) (bs ++ (u8 v ∷ []))
    unfolding add_byte_to_byte_stream
    add_byte_to_byte_stream-IsStream v o bs is_stream fits succeeds =
        elim (Bool-cases (o.stream.memory_pointer == o.stream.end_of_allocated_memory)) [
          | inl e ↦
              let at_end : o.stream.memory_pointer ≡ o.stream.end_of_allocated_memory =
                ground arith in
              let grown =
                allocate_more-Grown o bs is_stream (is_full o bs is_stream at_end) fits
                  (succeeds at_end) in
              rw (e, ==_false grown.started)
                (put_byte-IsStream v (allocate_more realloc o) bs grown.is_stream grown.room)
          | inr e ↦
              let room : length bs < o.stream.size_of_allocated_memory = ground arith in
              rw e (put_byte-IsStream v o bs is_stream room)
        ]

    -- The start that allocate_more leaves is what realloc gave.
    allocate_more-start :
        (o : Output A)
        → (allocate_more realloc o).stream.start_of_allocated_memory
          ≡ (realloc o.stream.start_of_allocated_memory
              (add32 o.stream.size_of_allocated_memory o.stream.size_of_one_block)
              o.machine).0
    unfolding allocate_more
    allocate_more-start o =
        let size = add32 o.stream.size_of_allocated_memory o.stream.size_of_one_block in
        elim (Bool-cases ((realloc o.stream.start_of_allocated_memory size o.machine).0 == 0)) [
          | inl e ↦ rw e refl
          | inr e ↦ rw e refl
        ]

    -- Where the allocation that is needed fails, the stream is lost.
    add_byte_to_byte_stream-fails :
        (v : ℕ) (o : Output A)
        → o.stream.memory_pointer ≡ o.stream.end_of_allocated_memory
        → (realloc o.stream.start_of_allocated_memory
            (add32 o.stream.size_of_allocated_memory o.stream.size_of_one_block)
            o.machine).0
          ≡ 0
        → (add_byte_to_byte_stream realloc v o).stream.start_of_allocated_memory ≡ 0
    unfolding add_byte_to_byte_stream
    add_byte_to_byte_stream-fails v o at_end fails =
        let lost = allocate_more-start o ∙ fails in rw (==_true at_end, ==_true lost) lost

    -- A stream that is lost stays lost.
    add_byte_to_byte_stream-lost :
        (v : ℕ) (o : Output A)
        → o.stream.start_of_allocated_memory ≡ 0
        → (add_byte_to_byte_stream realloc v o).stream.start_of_allocated_memory ≡ 0
    unfolding add_byte_to_byte_stream put_byte
    add_byte_to_byte_stream-lost v o lost =
        let size = add32 o.stream.size_of_allocated_memory o.stream.size_of_one_block in
        let fails : (realloc o.stream.start_of_allocated_memory size o.machine).0 ≡ 0 =
          ap (λ p. (realloc p size o.machine).0) lost ∙ is_realloc.null size o.machine in
        elim (ℕ_discrete o.stream.memory_pointer o.stream.end_of_allocated_memory) [
          | yes at_end ↦ add_byte_to_byte_stream-fails v o at_end fails
          | no room ↦ rw (==_false room) lost
        ]

    -- The stream is lost, or it holds the bytes.
    pub add_byte_to_byte_stream-holds_or_lost :
        (v : ℕ) (o : Output A) (bs : List ℕ)
        → (o.stream.start_of_allocated_memory ≡ 0) ⊎ IsStream is_block limit block o bs
        → length bs + block ≤ limit
        → ((add_byte_to_byte_stream realloc v o).stream.start_of_allocated_memory ≡ 0)
          ⊎ IsStream is_block limit block (add_byte_to_byte_stream realloc v o) (bs ++ (u8 v ∷ []))
    add_byte_to_byte_stream-holds_or_lost v o bs (inl lost) fits =
        inl (add_byte_to_byte_stream-lost v o lost)
    add_byte_to_byte_stream-holds_or_lost v o bs (inr is_stream) fits =
        let new = (realloc o.stream.start_of_allocated_memory (length bs + block) o.machine).0 in
        elim (ℕ_discrete o.stream.memory_pointer o.stream.end_of_allocated_memory) [
          | no room ↦
              inr (add_byte_to_byte_stream-IsStream v o bs is_stream fits (λ e. absurd (room e)))
          | yes at_end ↦ elim (ℕ_discrete new 0) [
            | yes fails ↦
                let more : length bs + block
                    ≡ add32 o.stream.size_of_allocated_memory o.stream.size_of_one_block =
                  rw is_stream.same_block (omega (arith, is_full o bs is_stream at_end)) in
                inl (
                  add_byte_to_byte_stream-fails v o at_end (
                    ap (λ n. (realloc o.stream.start_of_allocated_memory n o.machine).0) (sym more)
                    ∙ fails))
            | no succeeds ↦
                inr (add_byte_to_byte_stream-IsStream v o bs is_stream fits (λ e. succeeds))
          ]
        ]

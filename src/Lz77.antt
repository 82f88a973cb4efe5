-- ===== src/Lz77.antt =====
-- source/libraries/decoders/lz77.c: bytes are repeated from before the output.
use blesk_os_fork.Base.{ℕ, zero, suc, ◌+◌, leb, if◌then◌else◌, u32, add32, sub32}
use blesk_os_fork.Memory.{Memory, load, store}
pub mod Repeated
mod Tests

-- The loop with so many rounds left. The pointers count on without bound and wrap where they are used.
unfoldable pub repeat_bytes : ℕ → ℕ → ℕ → ℕ → Memory → Memory
repeat_bytes zero input_ptr output_ptr output_length_limit m = m
repeat_bytes (suc n) input_ptr output_ptr output_length_limit m =
    let written = store m output_ptr (load m input_ptr) in
    let rest = repeat_bytes n (input_ptr + 1) (output_ptr + 1) output_length_limit written in
    if leb output_length_limit (u32 (output_ptr + 1)) then written else rest

unfoldable pub decode_lz77 : ℕ → ℕ → ℕ → ℕ → ℕ → Memory → Memory
decode_lz77 input back repeat output output_length_limit m =
    repeat_bytes repeat (sub32 input back) output (add32 output_length_limit output) m

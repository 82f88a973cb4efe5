-- ===== src/Lz77/Tests.antt =====
-- The two bytes before the output at 100 are repeated five times.
use blesk_os_fork.Base.{◌%◌, arith}
use blesk_os_fork.Lz77.{decode_lz77}
use blesk_os_fork.Lz77.Repeated.{IsRepeated, decode_lz77-IsRepeated}
use blesk_os_fork.Memory.{Memory}

abbrev memory : Memory
memory a = a % 256

decode_lz77-IsRepeated_example : IsRepeated 2 5 100 memory (decode_lz77 100 2 5 100 1000 memory)
decode_lz77-IsRepeated_example =
    decode_lz77-IsRepeated 100 2 5 1000 memory (omega arith) (omega arith) (omega arith)
      (omega arith) (omega arith)

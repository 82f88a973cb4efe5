-- ===== src/Lz77/Repeated.antt =====
-- What decode_lz77 writes, where source and target may overlap.
use mathlib.Core.Path.{subst}
use blesk_os_fork.Base.{
  ℕ_discrete, ℕ, zero, suc, ◌+◌, ◌-◌, ◌^◌, ◌<◌, ◌≤◌, ◌≡◌, ◌∙◌, sym, leb, arith, min, u32, add32,
  sub32, Bool-cases, inl, inr,
}
use blesk_os_fork.Lz77.{repeat_bytes, decode_lz77}
use blesk_os_fork.Memory.{Memory, load, store}
use Prim.Native.Nat.{max}

-- `n` bytes from `output` on repeat what stands `back` bytes before each, and no other byte changed.
pub record IsRepeated (back n output : ℕ) (m r : Memory) : Type 0 where
  pub repeated : (i : ℕ) → i < n → r (output + i) ≡ r (output + i - back)
  pub before_kept : (a : ℕ) → a < output → r a ≡ m a
  pub behind_kept : (a : ℕ) → output + n ≤ a → r a ≡ m a

-- How many bytes are written: one at least, since the limit is tested behind the write.
abbrev pub written_bytes : ℕ → ℕ → ℕ
written_bytes repeat limit = min repeat (max 1 limit)

repeat_one :
    (back output : ℕ) (m : Memory)
    → 0 < back
    → back ≤ output
    → output < 2 ^ 32
    → IsRepeated back 1 output m (store m output (load m (output - back)))
repeat_one back output m some within below = record {
  repeated = λ i h. let here : output + i ≡ output = omega arith in rw here (ground arith);
  before_kept = λ a h. ground arith;
  behind_kept = λ a h. ground arith;
}

repeat_more :
    (back n output : ℕ) (m r : Memory)
    → 0 < back
    → back ≤ output
    → output < 2 ^ 32
    → IsRepeated back n (output + 1) (store m output (load m (output - back))) r
    → IsRepeated back (suc n) output m r
repeat_more back n output m r some within below rest = record {
  repeated = λ i h. elim (ℕ_discrete i 0) [
    | yes first ↦
        let here : output + i ≡ output = omega arith in
        let source : r (output - back) ≡ load m (output - back) =
          rest.before_kept (output - back) (omega arith) ∙ ground arith in
        let target : r output ≡ load m (output - back) =
          rest.before_kept output (omega arith) ∙ ground arith in
        rw here (target ∙ sym source)
    | no later ↦
        let next : output + 1 + (i - 1) ≡ output + i = omega arith in
        rw (← next) (rest.repeated (i - 1) (omega arith))
  ];
  before_kept = λ a h. rest.before_kept a (omega arith) ∙ ground arith;
  behind_kept = λ a h. rest.behind_kept a (omega arith) ∙ ground arith;
}

repeat_bytes-IsRepeated :
    (repeat back output limit : ℕ) (m : Memory)
    → 0 < repeat
    → 0 < back
    → back ≤ output
    → output + repeat < 2 ^ 32
    → limit < 2 ^ 32
    → IsRepeated back
        (written_bytes repeat (limit - output))
        output
        m
        (repeat_bytes repeat (output - back) output limit m)
unfolding repeat_bytes
repeat_bytes-IsRepeated zero back output limit m many some within below fits = absurd (omega arith)
repeat_bytes-IsRepeated (suc zero) back output limit m many some within below fits =
    let one : written_bytes 1 (limit - output) ≡ 1 = ground arith in
    elim (Bool-cases (leb limit (u32 (output + 1)))) [
      | inl e ↦ rw (e, one) (repeat_one back output m some within (omega arith))
      | inr e ↦ rw (e, one) (repeat_one back output m some within (omega arith))
    ]
repeat_bytes-IsRepeated (suc (suc n)) back output limit m many some within below fits =
    elim (Bool-cases (leb limit (u32 (output + 1)))) [
      | inl e ↦
          let one : written_bytes (suc (suc n)) (limit - output) ≡ 1 = ground arith in
          rw (e, one) (repeat_one back output m some within (omega arith))
      | inr e ↦
          let more : written_bytes (suc (suc n)) (limit - output)
              ≡ suc (written_bytes (suc n) (limit - (output + 1))) =
            ground arith in
          let source : output - back + 1 ≡ output + 1 - back = omega arith in
          rw (e, more, source)
            (repeat_more back (written_bytes (suc n) (limit - (output + 1))) output m _ some within
              (omega arith)
              (repeat_bytes-IsRepeated (suc n) back (output + 1) limit
                (store m output (load m (output - back))) (omega arith) some (omega arith)
                (omega arith) fits))
    ]

-- Where the input is the output, as all callers have it, decode_lz77 writes as many bytes as it is asked
-- for, but not more than the limit says, or one if that is 0. Each is the byte that stands `back` bytes
-- before it afterwards, so that a run may repeat its own bytes; no other byte changes.
pub decode_lz77-IsRepeated :
    (output back repeat limit : ℕ) (m : Memory)
    → 0 < repeat
    → 0 < back
    → back ≤ output
    → output + repeat < 2 ^ 32
    → output + limit < 2 ^ 32
    → IsRepeated back
        (written_bytes repeat limit)
        output
        m
        (decode_lz77 output back repeat output limit m)
unfolding decode_lz77
decode_lz77-IsRepeated output back repeat limit m many some within below fits =
    let start : sub32 output back ≡ output - back = omega arith in
    let end : add32 limit output ≡ limit + output = omega arith in
    let room : limit + output - output ≡ limit = omega arith in
    rw (start, end)
      (subst
        (λ k.
          IsRepeated back (written_bytes repeat k) output m
            (repeat_bytes repeat (output - back) output (limit + output) m))
        room
        (repeat_bytes-IsRepeated repeat back output (limit + output) m many some within below
          (omega arith)))

-- ===== src/Fat/Stored.antt =====
-- An entry that is written and saved is read back, and the other entries are as before.
use mathlib.Core.Path.{subst}
use blesk_os_fork.Base.{
  ℕ, ◌+◌, ◌*◌, ◌/◌, ◌%◌, ◌<◌, ◌≤◌, ◌≡◌, ◌≢◌, ◌==◌, arith, ==_true, ==_false, ℕ_discrete, inl, inr,
  Bool-cases,
}
use blesk_os_fork.Fat.{FatType, fat12, fat16, fat32, Sector}
use blesk_os_fork.Fat.Entry.{table_entry, last_byte, entry_values}
use blesk_os_fork.Fat.Write.{set_entry}

-- The entry that is set.
pub table_entry-set_entry :
    (t : FatType) (e value : ℕ) (b : Sector)
    → table_entry t (set_entry t e value b) e ≡ value % entry_values t
unfolding table_entry set_entry
table_entry-set_entry fat32 e value b = ground arith
table_entry-set_entry fat16 e value b = ground arith
table_entry-set_entry fat12 e value b = elim (Bool-cases (e % 2 == 0)) [
  | inl even ↦ rw even (ground arith)
  | inr odd ↦ rw odd (ground arith)
]

-- The other entries.
pub table_entry-set_entry_other :
    (t : FatType) (e d value : ℕ) (b : Sector)
    → d ≢ e
    → ((k : ℕ) → k ≤ last_byte t d → b k < 256)
    → table_entry t (set_entry t e value b) d ≡ table_entry t b d
unfolding table_entry set_entry last_byte
table_entry-set_entry_other fat32 e d value b other bytes = ground arith
table_entry-set_entry_other fat16 e d value b other bytes = ground arith
table_entry-set_entry_other fat12 e d value b other bytes =
    let low : b (d * 3 / 2) < 256 = bytes (d * 3 / 2) (omega arith) in
    elim (Bool-cases (e % 2 == 0)) [
      | inl even ↦ elim (Bool-cases (d % 2 == 0)) [
        | inl d_even ↦ rw (even, d_even) (ground arith)
        | inr d_odd ↦ rw (even, d_odd) (ground arith)
      ]
      | inr odd ↦ elim (Bool-cases (d % 2 == 0)) [
        | inl d_even ↦ rw (odd, d_even) (ground arith)
        | inr d_odd ↦ rw (odd, d_odd) (ground arith)
      ]
    ]

-- What is set is a byte.
pub set_entry_byte :
    (t : FatType) (e value k : ℕ) (b : Sector) → b k < 256 → set_entry t e value b k < 256
unfolding set_entry
set_entry_byte fat32 e value k b byte = ground arith
set_entry_byte fat16 e value k b byte = ground arith
set_entry_byte fat12 e value k b byte = elim (Bool-cases (e % 2 == 0)) [
  | inl even ↦ rw even (elim (ℕ_discrete k (e * 3 / 2 + 1)) [
    | yes here ↦
        let last : b (e * 3 / 2 + 1) < 256 = subst (λ j. b j < 256) here byte in
        rw (==_true here) (omega (arith, last))
    | no other ↦ rw (==_false other) (ground arith)
  ])
  | inr odd ↦ rw odd (ground arith)
]

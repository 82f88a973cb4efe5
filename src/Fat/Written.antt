-- ===== src/Fat/Written.antt =====
-- write_fat_table_entry for the entries of 12 bits and for each type.
use blesk_os_fork.Base.{
  ℕ, ◌+◌, ◌-◌, ◌*◌, ◌/◌, ◌%◌, ◌^◌, ◌<◌, ◌≡◌, refl, ap, ◌∙◌, sym, true, false, ◌==◌, arith, bit_or,
  ◌<<◌, ◌>>◌, u32, ==_true, inl, inr, Bool-cases,
}
use blesk_os_fork.Base.Bits.{bit_or-below}
use blesk_os_fork.Fat.{
  FatType, fat12, fat16, fat32, Sector, Volume, set_byte, change_sector,
  save_and_load_fat_table_sector, write_fat12_entry, write_entry_of_type,
}
use blesk_os_fork.Fat.Entry.{last_byte}
use blesk_os_fork.Fat.Table.{table_byte, IsReady}
use blesk_os_fork.Fat.Write.{
  IsChanged, set_loaded_byte, load-IsChanged, same-IsChanged, set_entry, IsWritten, write_fat32,
  write_fat16,
}
use mathlib.Core.Path.{subst}

-- A byte of the table that is in memory.
changed_byte :
    (i : ℕ) (table : Sector) (v w : Volume)
    → IsChanged table v w
    → i / 512 < v.fat_info.fat_table_size_in_sectors
    → w.fat_info.loaded_fat_table_sector ≡ i / 512
    → w.fat_info.fat_table_sector (i % 512) ≡ table i
changed_byte i table v w changed below here =
    let hit : table_byte w i ≡ w.fat_info.fat_table_sector (i % 512) = rw (==_true here) refl in
    sym hit ∙ changed.is_table i below

set_entry_even :
    (e value : ℕ) (b : Sector)
    → (e % 2 == 0) ≡ true
    → set_byte
        (e * 3 / 2 + 1)
        (b (e * 3 / 2 + 1) / 16 * 16 + value / 2 ^ 8 % 16)
        (set_byte (e * 3 / 2) (value % 2 ^ 8) b)
      ≡ set_entry fat12 e value b
unfolding set_entry
set_entry_even e value b even = rw even refl

set_entry_odd :
    (e value : ℕ) (b : Sector)
    → (e % 2 == 0) ≡ false
    → set_byte
        (e * 3 / 2 + 1)
        (value / 2 ^ 4 % 2 ^ 8)
        (set_byte (e * 3 / 2) (b (e * 3 / 2) % 16 + value % 16 * 2 ^ 4) b)
      ≡ set_entry fat12 e value b
unfolding set_entry
set_entry_odd e value b odd = rw odd refl

join_nibbles : (high low : ℕ) → bit_or (high * 16) (low % 16) ≡ high * 16 + low % 16
join_nibbles high low = bit_or-below 4 high (low % 16) (omega arith)

write_fat12 :
    (entry value : ℕ) (v : Volume)
    → IsReady v
    → entry * 12 < 2 ^ 32 - 8
    → (entry * 3 / 2 + 1) / 512 < v.fat_info.fat_table_size_in_sectors
    → IsWritten fat12 entry value v (write_fat12_entry entry value v)
unfolding write_fat12_entry
write_fat12 entry value v ready small below =
    let k = entry * 3 / 2 in
    let first_below : k / 512 < v.fat_info.fat_table_size_in_sectors = omega arith in
    let (done, here, loaded) =
      load-IsChanged (k / 512) (table_byte v) v v ready (same-IsChanged v ready) first_below in
    let w = (save_and_load_fat_table_sector (k / 512) v).1 in
    let bits : u32 (entry * 12) ≡ entry * 12 = omega arith in
    let s0 : entry * 12 / 4096 ≡ k / 512 = omega arith in
    let o0 : entry * 12 % 4096 / 8 ≡ k % 512 = omega arith in
    let low : w.fat_info.fat_table_sector (k % 512) ≡ table_byte v k =
      changed_byte k (table_byte v) v w loaded first_below here in
    elim (Bool-cases (entry % 2 == 0)) [
      | inl even ↦
          let is_even : entry % 2 ≡ 0 = ground arith in
          let s1 : u32 (entry * 12 + 8) / 4096 ≡ (k + 1) / 512 = omega arith in
          let o1 : u32 (entry * 12 + 8) % 4096 / 8 ≡ (k + 1) % 512 = omega arith in
          let c0 = set_loaded_byte k (value % 2 ^ 8) (table_byte v) v w loaded here in
          let w1 = change_sector (set_byte (k % 512) (value % 2 ^ 8)) w in
          let (done1, here1, loaded1) =
            load-IsChanged ((k + 1) / 512) (set_byte k (value % 2 ^ 8) (table_byte v)) v w1 ready c0
              below in
          let u = (save_and_load_fat_table_sector ((k + 1) / 512) w1).1 in
          let ne : (k + 1 == k) ≡ false = ground arith in
          let high : u.fat_info.fat_table_sector ((k + 1) % 512) ≡ table_byte v (k + 1) =
            changed_byte (k + 1) _ v u loaded1 below here1 ∙ rw ne refl in
          let new = table_byte v (k + 1) / 16 * 16 + value / 2 ^ 8 % 16 in
          let joined : bit_or (u.fat_info.fat_table_sector ((k + 1) % 512) / 16 * 16)
                ((value >> 8) % 16)
              ≡ new =
            ap (λ h. bit_or (h / 16 * 16) ((value >> 8) % 16)) high
            ∙ join_nibbles (table_byte v (k + 1) / 16) (value >> 8) in
          let c1 = set_loaded_byte (k + 1) new _ v u loaded1 here1 in
          let entry_is = set_entry_even entry value (table_byte v) even in
          let as_entry =
            subst (λ b. IsChanged b v (change_sector (set_byte ((k + 1) % 512) new) u)) entry_is
              c1 in
          let written =
            subst
              (λ x.
                IsChanged (set_entry fat12 entry value (table_byte v)) v
                  (change_sector (set_byte ((k + 1) % 512) x) u))
              (sym joined) as_entry in
          rw (bits, s0, o0, done, even, s1, o1, done1)
            (record { succeeded = refl; changed = written })
      | inr odd ↦
          let is_odd : entry % 2 ≡ 1 = ground arith in
          let s1 : u32 (entry * 12 + 4) / 4096 ≡ (k + 1) / 512 = omega arith in
          let o1 : u32 (entry * 12 + 4) % 4096 / 8 ≡ (k + 1) % 512 = omega arith in
          let new = table_byte v k % 16 + value % 16 * 2 ^ 4 in
          let x = bit_or ((value % 16) << 4) (w.fat_info.fat_table_sector (k % 512) % 16) in
          let joined : x ≡ new =
            ap (λ h. bit_or ((value % 16) << 4) (h % 16)) low
            ∙ join_nibbles (value % 16) (table_byte v k)
            ∙ omega arith in
          let c0 = set_loaded_byte k new (table_byte v) v w loaded here in
          let w1 = change_sector (set_byte (k % 512) x) w in
          let written =
            subst
              (λ y.
                IsChanged (set_byte k new (table_byte v)) v
                  (change_sector (set_byte (k % 512) y) w))
              (sym joined) c0 in
          let (done1, here1, loaded1) =
            load-IsChanged ((k + 1) / 512) (set_byte k new (table_byte v)) v w1 ready written
              below in
          let u = (save_and_load_fat_table_sector ((k + 1) / 512) w1).1 in
          let c1 = set_loaded_byte (k + 1) (value / 2 ^ 4 % 2 ^ 8) _ v u loaded1 here1 in
          let entry_is = set_entry_odd entry value (table_byte v) odd in
          let as_entry =
            subst
              (λ b.
                IsChanged b v (change_sector (set_byte ((k + 1) % 512) (value / 2 ^ 4 % 2 ^ 8)) u))
              entry_is c1 in
          rw (bits, s0, o0, done, odd, s1, o1, done1)
            (record { succeeded = refl; changed = as_entry })
    ]

pub write_entry_of_type-IsWritten :
    (t : FatType) (entry value : ℕ) (v : Volume)
    → IsReady v
    → last_byte t entry / 512 < v.fat_info.fat_table_size_in_sectors
    → entry * 12 < 2 ^ 32 - 8
    → IsWritten t entry value v (write_entry_of_type t entry value v)
unfolding write_entry_of_type last_byte
write_entry_of_type-IsWritten fat32 entry value v ready below small =
    write_fat32 entry value v ready (omega arith)
write_entry_of_type-IsWritten fat16 entry value v ready below small =
    write_fat16 entry value v ready (omega arith)
write_entry_of_type-IsWritten fat12 entry value v ready below small =
    write_fat12 entry value v ready small below

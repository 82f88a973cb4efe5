-- ===== src/Allocator/Array.antt =====
-- The array of entries: what a write and a removal leave at each index.
use blesk_os_fork.Base.{
  ◌⊎◌, ℕ, zero, suc, ◌+◌, ◌-◌, ◌≤◌, ◌<◌, ◌≡◌, ◌∙◌, List, ◌&&◌, ltb, leb, ◌==◌, if◌then◌else◌, arith,
  length, set, length-set, get_or-set_self, get_or-set_ne,
}
use blesk_os_fork.Allocator.Table.{Entry, empty_entry, entry_at, close_gap, remove_entry}
use blesk_os_fork.Base.Sums.{sum-removed, sum-congr, sum}

pub entry_at-set :
    (es : List Entry) (i k : ℕ) (v : Entry)
    → i < length es
    → entry_at (set es i v) k ≡ (if k == i then v else entry_at es k)
entry_at-set es i k v h =
    ground (arith, get_or-set_self es i v empty_entry, get_or-set_ne es i k v empty_entry)

pub length-close_gap : (n i : ℕ) (es : List Entry) → length (close_gap n i es) ≡ length es
unfolding close_gap
length-close_gap zero i es = length-set es i empty_entry
length-close_gap (suc n) i es =
    length-close_gap n (i + 1) (set es i (entry_at es (i + 1)))
    ∙ length-set es i (entry_at es (i + 1))

-- `n` entries come from the next place, and the place behind them is cleared.
entry_at-close_gap :
    (n i k : ℕ) (es : List Entry)
    → i + n < length es
    → entry_at (close_gap n i es) k ≡ (
        if leb i k && ltb k (i + n)
        then entry_at es (k + 1)
        else (if k == i + n then empty_entry else entry_at es k))
unfolding close_gap
entry_at-close_gap zero i k es h = ground (arith, entry_at-set es i k empty_entry)
entry_at-close_gap (suc n) i k es h =
    let v = entry_at es (i + 1) in
    ground (
      arith,
      entry_at-close_gap n (i + 1) k (set es i v),
      entry_at-set es i k v,
      entry_at-set es i (k + 1) v,
      length-set es i v,
    )

pub length-remove_entry :
    (lo count i : ℕ) (es : List Entry) → length (remove_entry lo count i es) ≡ length es
unfolding remove_entry
length-remove_entry lo count i es = ground (arith, length-close_gap (lo + count - (i + 1)) i es)

-- Removing the entry `i` of the `count` entries from `lo` on.
pub entry_at-remove_entry :
    (lo count i k : ℕ) (es : List Entry)
    → lo ≤ i
    → i < lo + count
    → lo + count ≤ length es
    → entry_at (remove_entry lo count i es) k ≡ (
        if leb i k && ltb (k + 1) (lo + count)
        then entry_at es (k + 1)
        else (if k + 1 == lo + count then empty_entry else entry_at es k))
unfolding remove_entry
entry_at-remove_entry lo count i k es p q h =
    ground (arith, entry_at-close_gap (lo + count - (i + 1)) i k es)

-- A sum over the entries of the area loses the term of the entry that is removed.
pub sum-remove_entry :
    (w : Entry → ℕ) (lo count i n : ℕ) (es : List Entry)
    → lo ≤ i
    → i ≤ lo + n
    → n < count
    → lo + count ≤ length es
    → sum (λ k. w (entry_at (remove_entry lo count i es) k)) lo n + w (entry_at es i)
      ≡ sum (λ k. w (entry_at es k)) lo (suc n)
sum-remove_entry w lo count i n es p q h len =
    sum-removed (λ k. w (entry_at es k)) (λ k. w (entry_at (remove_entry lo count i es) k)) lo n i p
      q (λ k p' q'. ground (arith, entry_at-remove_entry lo count i k es))
      (λ k p' q'. ground (arith, entry_at-remove_entry lo count i k es))

-- A sum over entries outside the area stays.
pub sum_outside-remove_entry :
    (w : Entry → ℕ) (lo count i from n : ℕ) (es : List Entry)
    → lo ≤ i
    → i < lo + count
    → lo + count ≤ length es
    → (from + n ≤ lo) ⊎ (lo + count ≤ from)
    → sum (λ k. w (entry_at (remove_entry lo count i es) k)) from n
      ≡ sum (λ k. w (entry_at es k)) from n
sum_outside-remove_entry w lo count i from n es p q len out =
    sum-congr (λ k. w (entry_at (remove_entry lo count i es) k)) (λ k. w (entry_at es k)) from n
      (λ k p' q'. ground (arith, entry_at-remove_entry lo count i k es))

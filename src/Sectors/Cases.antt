-- ===== src/Sectors/Cases.antt =====
-- Adding sectors to a descriptor, for the first run and for those behind it: what agrees afterwards.
use blesk_os_fork.Base.{
  ◌⊎◌, inr, inl, ℕ, suc, ◌+◌, ◌^◌, ◌<◌, ◌≤◌, ◌≡◌, ◌≢◌, refl, ap, ◌∙◌, sym, false, if◌then◌else◌,
  arith, List, [], ◌∷◌, ◌++◌, length, length-append, append-nil, Bool-cases, ==_true, ==_false,
}
use blesk_os_fork.Sectors.{
  Run, Descriptor, create_descriptor_of_file_sectors, extends_last_run, add_to_last_run,
  add_sectors_to_descriptor_of_file_sectors, is_stream_moved,
}
use blesk_os_fork.Sectors.Sequence.{
  add_to_last_run-AllRuns, length-sectors_from, add_to_last_run-sectors_of, sectors_from,
  length-add_to_last_run, sectors_of, AllRuns,
}

-- The counters of the header agree with the runs.
pub record IsDescriptor (d : Descriptor) : Type 0 where
  pub runs_counted : d.number_of_runs ≡ length d.runs
  pub sectors_counted : d.number_of_sectors ≡ length (sectors_of d.runs)
  pub all_runs : AllRuns d.runs

-- What adding sectors to a descriptor promises.
pub record Adds (d : Descriptor) (first n : ℕ) (e : Descriptor) : Type 0 where
  pub is_descriptor : IsDescriptor e
  pub sectors_appended : sectors_of e.runs ≡ sectors_of d.runs ++ sectors_from first n
  pub same_size : e.size_of_one_sector ≡ d.size_of_one_sector

pub create_descriptor_of_file_sectors-IsDescriptor :
    (size : ℕ) → IsDescriptor (create_descriptor_of_file_sectors size)
unfolding create_descriptor_of_file_sectors sectors_of AllRuns
create_descriptor_of_file_sectors-IsDescriptor size = record {
  runs_counted = refl;
  sectors_counted = refl;
  all_runs = omega arith;
}

-- What holds of the runs also where the counters were lost: not more of them are counted than there are.
pub record HasRuns (d : Descriptor) : Type 0 where
  pub counted : d.number_of_runs ≤ length d.runs
  pub some_counted : 0 < length d.runs → 0 < d.number_of_runs
  pub all_runs : AllRuns d.runs

pub record AddsRuns (d : Descriptor) (first n : ℕ) (e : Descriptor) : Type 0 where
  pub has_runs : HasRuns e
  pub sectors_appended : sectors_of e.runs ≡ sectors_of d.runs ++ sectors_from first n

pub create_descriptor_of_file_sectors-HasRuns :
    (size : ℕ) → HasRuns (create_descriptor_of_file_sectors size)
unfolding create_descriptor_of_file_sectors AllRuns
create_descriptor_of_file_sectors-HasRuns size = omega arith

pub list_cases :
    {A : Type 0} → (xs : List A) → (xs ≡ []) ⊎ ((x : A) × (ys : List A) × (xs ≡ x ∷ ys))
list_cases [] = inl refl
list_cases (x ∷ xs) = inr (x, xs, refl)

pub stays : (n : ℕ) → n < 12797 → is_stream_moved n ≡ false
unfolding is_stream_moved
stays n small = ground arith

-- The first run of a descriptor.
module _ (d : Descriptor) (first n : ℕ) (none : d.runs ≡ [])
    (not_counted : d.number_of_runs ≡ 0) where
  first_added : add_sectors_to_descriptor_of_file_sectors d first n ≡ record d {
    runs = record { first_sector_of_run = first; number_of_sectors_in_run = n } ∷ [];
    number_of_sectors = n;
    number_of_runs = 1;
  }
  unfolding add_sectors_to_descriptor_of_file_sectors
  first_added = rw (==_true not_counted, none, stays 0 (omega arith)) refl

  first_sectors :
      sectors_of (record { first_sector_of_run = first; number_of_sectors_in_run = n } ∷ [])
      ≡ sectors_of d.runs ++ sectors_from first n
  unfolding sectors_of
  first_sectors = rw none (append-nil (sectors_from first n))

  pub add_first-Adds :
      0 < n
      → first + n < 2 ^ 32
      → Adds d first n (add_sectors_to_descriptor_of_file_sectors d first n)
  unfolding sectors_of AllRuns
  add_first-Adds some below = rw first_added (record {
    is_descriptor = record {
      runs_counted = refl;
      sectors_counted =
          sym (ap length (append-nil (sectors_from first n)) ∙ length-sectors_from first n);
      all_runs = (some, below, omega arith);
    };
    sectors_appended = first_sectors;
    same_size = refl;
  })

  pub add_first-AddsRuns :
      0 < n
      → first + n < 2 ^ 32
      → AddsRuns d first n (add_sectors_to_descriptor_of_file_sectors d first n)
  unfolding AllRuns
  add_first-AddsRuns some below = rw first_added (record {
    has_runs = record {
      counted = omega arith;
      some_counted = λ h. omega arith;
      all_runs = (some, below, omega arith);
    };
    sectors_appended = first_sectors;
  })

-- A run behind others, or a longer last run.
module _ (d : Descriptor) (first n : ℕ) (r : Run) (rs : List Run) (these : d.runs ≡ r ∷ rs)
    (all : AllRuns (r ∷ rs)) (counted : d.number_of_runs ≢ 0) (some : 0 < n)
    (below : first + n < 2 ^ 32) where
  abbrev pub more : Descriptor
  more = add_sectors_to_descriptor_of_file_sectors d first n

  added_runs : more.runs ≡ add_to_last_run first n (r ∷ rs)
  unfolding add_sectors_to_descriptor_of_file_sectors
  added_runs =
      rw (==_false counted, these)
        (elim (Bool-cases (extends_last_run first (r ∷ rs))) [
          | inl e ↦ rw e refl
          | inr e ↦ rw e (elim (Bool-cases (is_stream_moved (length (r ∷ rs)))) [
            | inl m ↦ rw m refl
            | inr m ↦ rw m refl
          ])
        ])

  added_sectors : sectors_of more.runs ≡ sectors_of d.runs ++ sectors_from first n
  added_sectors = rw (added_runs, these) (add_to_last_run-sectors_of first n r rs all below)

  added_all : AllRuns more.runs
  added_all = rw added_runs (add_to_last_run-AllRuns first n r rs all some below)

  added_length :
      length more.runs
      ≡ (if extends_last_run first (r ∷ rs) then length (r ∷ rs) else suc (length (r ∷ rs)))
  added_length = ap length added_runs ∙ length-add_to_last_run first n r rs

  -- The counter of the runs, which stays where the stream moves.
  runs_counter :
      d.number_of_runs + 1 < 2 ^ 32
      → more.number_of_runs ≡ (
          if extends_last_run first (r ∷ rs)
          then d.number_of_runs
          else if is_stream_moved (length (r ∷ rs))
          then d.number_of_runs
          else d.number_of_runs + 1)
  unfolding add_sectors_to_descriptor_of_file_sectors
  runs_counter small =
      rw (==_false counted, these)
        (elim (Bool-cases (extends_last_run first (r ∷ rs))) [
          | inl e ↦ rw e refl
          | inr e ↦ rw e (elim (Bool-cases (is_stream_moved (length (r ∷ rs)))) [
            | inl m ↦ rw m refl
            | inr m ↦ rw m (omega arith)
          ])
        ])

  sectors_counter :
      length (r ∷ rs) < 12797
      → d.number_of_sectors + n < 2 ^ 32
      → more.number_of_sectors ≡ d.number_of_sectors + n
  unfolding add_sectors_to_descriptor_of_file_sectors
  sectors_counter few small =
      rw (==_false counted, these, stays (length (r ∷ rs)) few)
        (elim (Bool-cases (extends_last_run first (r ∷ rs))) [
          | inl e ↦ rw e (omega arith)
          | inr e ↦ rw e (omega arith)
        ])

  same_size_kept : more.size_of_one_sector ≡ d.size_of_one_sector
  unfolding add_sectors_to_descriptor_of_file_sectors
  same_size_kept =
      rw (==_false counted, these)
        (elim (Bool-cases (extends_last_run first (r ∷ rs))) [
          | inl e ↦ rw e refl
          | inr e ↦ rw e (elim (Bool-cases (is_stream_moved (length (r ∷ rs)))) [
            | inl m ↦ rw m refl
            | inr m ↦ rw m refl
          ])
        ])

  pub add_more-AddsRuns :
      d.number_of_runs ≤ length (r ∷ rs) → d.number_of_runs + 1 < 2 ^ 32 → AddsRuns d first n more
  add_more-AddsRuns at_most small = record {
    has_runs = record {
      counted = ground (arith, added_length, runs_counter small);
      some_counted = λ h. ground (arith, runs_counter small);
      all_runs = added_all;
    };
    sectors_appended = added_sectors;
  }

  pub add_more-Adds :
      d.number_of_runs ≡ length (r ∷ rs)
      → d.number_of_sectors ≡ length (sectors_of d.runs)
      → length (r ∷ rs) < 12797
      → d.number_of_sectors + n < 2 ^ 32
      → Adds d first n more
  add_more-Adds count sectors few sum =
      let stay = stays (length (r ∷ rs)) few in
      let small : d.number_of_runs + 1 < 2 ^ 32 = omega arith in
      record {
        is_descriptor = record {
          runs_counted = ground (arith, stay, added_length, runs_counter small);
          sectors_counted = omega (
            arith,
            sectors_counter few sum,
            ap length added_sectors,
            length-append (sectors_of d.runs) (sectors_from first n),
            length-sectors_from first n,
          );
          all_runs = added_all;
        };
        sectors_appended = added_sectors;
        same_size = same_size_kept;
      }

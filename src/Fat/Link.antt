-- ===== src/Fat/Link.antt =====
-- The clusters that create_fat_file links form the chain of the file.
use blesk_os_fork.Base.{
  ℕ, ◌%◌, ◌<◌, ◌≡◌, refl, ap, ◌∙◌, sym, Bool, true, false, ◌==◌, if◌then◌else◌, arith, List, [],
  ◌∷◌,
}
use blesk_os_fork.Fat.{Volume, write_fat_table_entry}
use blesk_os_fork.Fat.Chain.{elem, elem_later, elem_here, elem_tail}
use blesk_os_fork.Fat.Create.{link_clusters}
use blesk_os_fork.Fat.Entry.{IsVolume, entry_values}
use blesk_os_fork.Fat.Put.{write_fat_table_entry-IsPut}
use blesk_os_fork.Fat.View.{entry_of, IsAlike, alike_count, IsAlike-trans}
use native.Mathlib.Nat.{mod-eq_of_lt}
use mathlib.Core.Path.{subst}

-- No cluster twice.
pub data IsDistinct : List ℕ → Type 0 where
  distinct_nil : IsDistinct []
  distinct_cons : {c : ℕ} {cs : List ℕ} → elem c cs ≡ false → IsDistinct cs → IsDistinct (c ∷ cs)

abbrev pub put : ℕ → ℕ → (ℕ → ℕ) → ℕ → ℕ
put c x g d = if d == c then x else g d

-- The entries `g` after the clusters are linked.
unfoldable pub linked : ℕ → List ℕ → (ℕ → ℕ) → ℕ → ℕ
linked ending [] g = g
linked ending (c ∷ []) g = put c ending g
linked ending (c ∷ d ∷ cs) g = linked ending (d ∷ cs) (put c d g)

-- The other entries stay.
pub linked_other :
    (ending : ℕ) (cs : List ℕ) (g : ℕ → ℕ) (d : ℕ) → elem d cs ≡ false → linked ending cs g d ≡ g d
unfolding linked
linked_other ending [] g d h = refl
linked_other ending (c ∷ []) g d h = let (e, _) = elem_tail d c [] h in rw e refl
linked_other ending (c ∷ b ∷ cs) g d h =
    let (e, rest) = elem_tail d c (b ∷ cs) h in
    linked_other ending (b ∷ cs) (put c b g) d rest ∙ rw e refl

pub IsDistinct-head :
    (c : ℕ) (cs : List ℕ) → IsDistinct (c ∷ cs) → (elem c cs ≡ false) × IsDistinct cs
IsDistinct-head c cs (distinct_cons new rest) = (new, rest)

-- A volume whose entries are `g`.
pub record IsLinked (g : ℕ → ℕ) (v : Volume) (r : Bool × Volume) : Type 0 where
  pub succeeded : r.0 ≡ true
  pub alike : IsAlike v r.1
  pub entries : (d : ℕ) → d < v.fat_info.number_of_clusters → entry_of r.1 d ≡ g d

linked_same :
    (ending : ℕ) (cs : List ℕ) (g h : ℕ → ℕ) (d : ℕ)
    → g d ≡ h d
    → linked ending cs g d ≡ linked ending cs h d
unfolding linked
linked_same ending [] g h d same = same
linked_same ending (c ∷ []) g h d same = ap (λ x. if d == c then ending else x) same
linked_same ending (c ∷ b ∷ cs) g h d same =
    linked_same ending (b ∷ cs) (put c b g) (put c b h) d (ap (λ x. if d == c then b else x) same)

put_entry :
    (c x : ℕ) (v : Volume) (g : ℕ → ℕ)
    → IsVolume v
    → c < v.fat_info.number_of_clusters
    → x < entry_values v.fat_info.type
    → ((d : ℕ) → d < v.fat_info.number_of_clusters → entry_of v d ≡ g d)
    → IsLinked (put c x g) v (write_fat_table_entry c x v)
put_entry c x v g volume below fits entries =
    let written = write_fat_table_entry-IsPut c x v volume below in
    let fits_entry : x % entry_values v.fat_info.type ≡ x = mod-eq_of_lt fits in
    record {
      succeeded = written.succeeded;
      alike = written.alike;
      entries = λ d h.
          written.entries d h
          ∙ ap (λ y. if d == c then y else entry_of v d) fits_entry
          ∙ ap (λ y. if d == c then x else y) (entries d h);
    }

pub link_clusters-IsLinked :
    (ending : ℕ) (cs : List ℕ) (v : Volume) (g : ℕ → ℕ)
    → IsVolume v
    → ending < entry_values v.fat_info.type
    → v.fat_info.number_of_clusters < ending
    → ((d : ℕ) → elem d cs ≡ true → d < v.fat_info.number_of_clusters)
    → ((d : ℕ) → d < v.fat_info.number_of_clusters → entry_of v d ≡ g d)
    → IsLinked (linked ending cs g) v (link_clusters ending cs v)
unfolding link_clusters linked
link_clusters-IsLinked ending [] v g volume fits many below entries = record {
  succeeded = refl;
  alike = record { same_info = refl; volume = volume };
  entries = entries;
}
link_clusters-IsLinked ending (c ∷ []) v g volume fits many below entries =
    put_entry c ending v g volume (below c (elem_here c [])) fits entries
link_clusters-IsLinked ending (c ∷ e ∷ cs) v g volume fits many below entries =
    let e_below = below e (elem_later e c (e ∷ cs) (elem_here e cs)) in
    let w = (write_fat_table_entry c e v).1 in
    let first =
      put_entry c e v g volume (below c (elem_here c (e ∷ cs))) (omega (arith, e_below, many, fits))
        entries in
    let count = alike_count v w first.alike in
    let type : w.fat_info.type ≡ v.fat_info.type = ap (λ f. f.type) first.alike.same_info in
    let w_fits : ending < entry_values w.fat_info.type =
      subst (λ t. ending < entry_values t) (sym type) fits in
    let rest =
      link_clusters-IsLinked ending (e ∷ cs) w (put c e g) first.alike.volume w_fits
        (omega (arith, many, count))
        (λ d there. omega (arith, count, below d (elem_later d c (e ∷ cs) there)))
        (λ d h. first.entries d (omega (arith, h, count))) in
    rw first.succeeded (record {
      succeeded = rest.succeeded;
      alike = IsAlike-trans v w (link_clusters ending (e ∷ cs) w).1 first.alike rest.alike;
      entries = λ d h. rest.entries d (omega (arith, h, count));
    })

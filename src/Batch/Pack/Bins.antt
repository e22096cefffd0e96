-- ===== src/Batch/Pack/Bins.antt =====
-- Packing partitions the samples into the bins.
use mathlib.Core.List.Perm
use mathlib.Core.List.{Perm, perm_middle, perm_append_singleton}
use aurora_rl.Base.{
  ℕ, ◌≤◌, ◌≡◌, refl, sym, ◌∙◌, ap, true, false, List, [], ◌∷◌, ◌++◌, append_assoc, append-nil, All,
  All-append, ok, arith, Bool-cases, inl, inr, on_ok, ok-injective, subst,
}
use aurora_rl.Batch.Types.{MicroBatch, is_multimodal_sample}
use aurora_rl.Batch.Pack.{
  Sample, key_le, insert_by_key, sort_by_key, start_bin, extend_bin, fits_bin, first_fit, place,
  place_all, packed_samples_into_micro_bs,
}
use aurora_rl.Batch.Pack.Groups.{IsBin, Ascending, start_bin-IsBin, extend_bin-IsBin}

abbrev pub together : List (List Sample) → List Sample
together [] = []
together (group ∷ groups) = group ++ together groups

-- The keys do not fall.
insert_by_key-perm :
    (sample : Sample) (samples : List Sample)
    → Perm (insert_by_key sample samples) (sample ∷ samples)
unfolding insert_by_key
insert_by_key-perm sample [] = Perm.rfl
insert_by_key-perm sample (other ∷ samples) = elim (Bool-cases (key_le sample other)) [
  | inl first ↦ rw first Perm.rfl
  | inr later ↦ rw later (
      Perm.trans (Perm.cons other (insert_by_key-perm sample samples))
        (Perm.swap sample other samples))
]

sort_by_key-perm : (samples : List Sample) → Perm (sort_by_key samples) samples
unfolding sort_by_key
sort_by_key-perm [] = Perm.rfl
sort_by_key-perm (sample ∷ samples) =
    Perm.trans (insert_by_key-perm sample (sort_by_key samples))
      (Perm.cons sample (sort_by_key-perm samples))

abbrev Behind : ℕ → List Sample → Type 0
Behind bound = All (λ later. bound ≤ later.0)

Behind-weaken : (a b : ℕ) (samples : List Sample) → a ≤ b → Behind b samples → Behind a samples
Behind-weaken a b [] le h = tt
Behind-weaken a b (sample ∷ samples) le (hb, h) = (omega arith, Behind-weaken a b samples le h)

insert_by_key-Behind :
    (bound : ℕ) (sample : Sample) (samples : List Sample)
    → bound ≤ sample.0
    → Behind bound samples
    → Behind bound (insert_by_key sample samples)
unfolding insert_by_key
insert_by_key-Behind bound sample [] le h = (le, tt)
insert_by_key-Behind bound sample (other ∷ samples) le (hb, h) =
    elim (Bool-cases (key_le sample other)) [
      | inl first ↦ rw first (le, (hb, h))
      | inr later ↦ rw later (hb, insert_by_key-Behind bound sample samples le h)
    ]

insert_by_key-Ascending :
    (sample : Sample) (samples : List Sample)
    → Ascending samples
    → Ascending (insert_by_key sample samples)
unfolding insert_by_key
insert_by_key-Ascending sample [] h = (tt, tt)
insert_by_key-Ascending sample (other ∷ samples) (hb, h) = elim (Bool-cases (key_le sample other)) [
  | inl first ↦
      let le : sample.0 ≤ other.0 = before sample other first in
      rw first ((le, Behind-weaken sample.0 other.0 samples le hb), (hb, h))
  | inr later ↦
      let le : other.0 ≤ sample.0 = behind sample other later in
      rw later (
        insert_by_key-Behind other.0 sample samples le hb,
        insert_by_key-Ascending sample samples h,
      )
]
  where
    before : (a b : Sample) → key_le a b ≡ true → a.0 ≤ b.0
    before (i, a) (j, b) h = unfold key_le in ground arith

    behind : (a b : Sample) → key_le a b ≡ false → b.0 ≤ a.0
    behind (i, a) (j, b) h = unfold key_le in ground arith

sort_by_key-Ascending : (samples : List Sample) → Ascending (sort_by_key samples)
unfolding sort_by_key
sort_by_key-Ascending [] = tt
sort_by_key-Ascending (sample ∷ samples) =
    insert_by_key-Ascending sample _ (sort_by_key-Ascending samples)

module _ (max_seq_len num_loras : ℕ) where
  -- Each group has its bin.
  abbrev pub Packs : List (List Sample) → List MicroBatch → Type 0
  Packs [] [] = Unit
  Packs [] (b ∷ bins) = ⊥
  Packs (group ∷ groups) [] = ⊥
  Packs (group ∷ groups) (b ∷ bins) = IsBin max_seq_len num_loras group b × Packs groups bins

  -- No adapter of a sample that is placed comes behind that of one still to come.
  abbrev Below : ℕ → List (List Sample) → Type 0
  Below bound groups = All (λ earlier. earlier.0 ≤ bound) (together groups)

  Packs-append :
      (groups : List (List Sample)) (bins : List MicroBatch) (group : List Sample) (b : MicroBatch)
      → Packs groups bins
      → IsBin max_seq_len num_loras group b
      → Packs (groups ++ group ∷ []) (bins ++ b ∷ [])
  Packs-append [] [] group b h hb = (hb, tt)
  Packs-append [] (c ∷ bins) group b h hb = absurd h
  Packs-append (g ∷ groups) [] group b h hb = absurd h
  Packs-append (g ∷ groups) (c ∷ bins) group b (hc, h) hb =
      (hc, Packs-append groups bins group b h hb)

  together-last :
      (groups : List (List Sample)) (sample : Sample)
      → together (groups ++ (sample ∷ []) ∷ []) ≡ together groups ++ sample ∷ []
  together-last [] sample = refl
  together-last (group ∷ groups) sample =
      ap (λ t. group ++ t) (together-last groups sample)
      ∙ sym (append_assoc group (together groups) (sample ∷ []))

  -- Where a sample has gone: the groups with it.
  record Placed (sample : Sample) (groups : List (List Sample)) (bins : List MicroBatch)
      : Type 0 where
    pub now : List (List Sample)
    pub packs : Packs now bins
    pub same : Perm (together now) (sample ∷ together groups)
    pub below : (bound : ℕ) → sample.0 ≤ bound → Below bound groups → Below bound now

  All-split : (P : Sample → Type 0) (xs ys : List Sample) → All P (xs ++ ys) → All P xs × All P ys
  All-split P [] ys h = (tt, h)
  All-split P (x ∷ xs) ys (hx, h) = let (a, b) = All-split P xs ys h in ((hx, a), b)

  first_fit-Placed :
      (sample : Sample) (groups : List (List Sample)) (bins bins' : List MicroBatch)
      → is_multimodal_sample sample.1 ≡ false
      → Below sample.0 groups
      → Packs groups bins
      → first_fit max_seq_len num_loras sample bins ≡ ok bins'
      → Placed sample groups bins'
  unfolding first_fit
  first_fit-Placed sample [] [] bins' text below packs h =
      on_ok (start_bin num_loras sample) _ h λ b started h1.
        subst (λ t. Placed sample [] t) (ok-injective h1)
          (record {
            now = (sample ∷ []) ∷ [];
            packs = ((start_bin-IsBin max_seq_len num_loras sample b started).0, tt);
            same = Perm.rfl;
            below = λ bound le k. (le, tt);
          })
  first_fit-Placed sample [] (b ∷ bins) bins' text below packs h = absurd packs
  first_fit-Placed sample (group ∷ groups) [] bins' text below packs h = absurd packs
  first_fit-Placed sample (group ∷ groups) (b ∷ bins) bins' text below (hb, packs) h =
      let (below_group, below_rest) =
        All-split (λ earlier. earlier.0 ≤ sample.0) group (together groups) below in
      elim (Bool-cases (fits_bin max_seq_len sample.1 b)) [
        | inl fits ↦ on_ok (extend_bin sample b) _ (rw fits at h) λ extended added h1.
            subst (λ t. Placed sample (group ∷ groups) t) (ok-injective h1)
              (record {
                now = (group ++ sample ∷ []) ∷ groups;
                packs = (
                  extend_bin-IsBin max_seq_len num_loras sample group b extended text fits
                      below_group hb added,
                  packs,
                );
                same =
                    rw (append_assoc group (sample ∷ []) (together groups))
                      (perm_middle group (together groups));
                below = λ bound le k.
                    let (k_group, k_rest) =
                      All-split (λ earlier. earlier.0 ≤ bound) group (together groups) k in
                    All-append _ (group ++ sample ∷ []) (together groups)
                      (All-append _ group (sample ∷ []) k_group (le, tt)) k_rest;
              })
        | inr full ↦
            on_ok (first_fit max_seq_len num_loras sample bins) _ (rw full at h) λ rest found h1.
              let placed = first_fit-Placed sample groups bins rest text below_rest packs found in
              subst (λ t. Placed sample (group ∷ groups) t) (ok-injective h1)
                (record {
                  now = group ∷ placed.now;
                  packs = (hb, placed.packs);
                  same =
                      Perm.trans (Perm.append_left group placed.same)
                        (perm_middle group (together groups));
                  below = λ bound le k.
                      let (k_group, k_rest) =
                        All-split (λ earlier. earlier.0 ≤ bound) group (together groups) k in
                      All-append _ group (together placed.now) k_group
                        (placed.below bound le k_rest);
                })
      ]

  place-Placed :
      (sample : Sample) (groups : List (List Sample)) (bins bins' : List MicroBatch)
      → Below sample.0 groups
      → Packs groups bins
      → place max_seq_len num_loras sample bins ≡ ok bins'
      → Placed sample groups bins'
  unfolding place
  place-Placed sample groups bins bins' below packs h =
      elim (Bool-cases (is_multimodal_sample sample.1)) [
        | inl multimodal ↦ on_ok (start_bin num_loras sample) _ (rw multimodal at h) λ b started h1.
            subst (λ t. Placed sample groups t) (ok-injective h1)
              (record {
                now = groups ++ (sample ∷ []) ∷ [];
                packs =
                    Packs-append groups bins (sample ∷ []) b packs
                      (start_bin-IsBin max_seq_len num_loras sample b started).0;
                same =
                    rw (together-last groups sample)
                      (perm_append_singleton sample (together groups));
                below = λ bound le k.
                    rw (together-last groups sample)
                      (All-append _ (together groups) (sample ∷ []) k (le, tt));
              })
        | inr text ↦ first_fit-Placed sample groups bins bins' text below packs (rw text at h)
      ]

  -- The samples are those of the groups, in some order.
  pub record Partition (samples : List Sample) (bins : List MicroBatch) : Type 0 where
    pub groups : List (List Sample)
    pub packs : Packs groups bins
    pub same : Perm (together groups) samples

  place_all-Partition :
      (samples : List Sample) (groups : List (List Sample)) (bins bins' : List MicroBatch)
      → Ascending samples
      → All (λ s. Below s.0 groups) samples
      → Packs groups bins
      → place_all max_seq_len num_loras samples bins ≡ ok bins'
      → Partition (samples ++ together groups) bins'
  unfolding place_all
  place_all-Partition [] groups bins bins' ascending below packs h =
      subst (λ t. Partition (together groups) t) (ok-injective h)
        (record { groups = groups; packs = packs; same = Perm.rfl })
  place_all-Partition (sample ∷ samples) groups bins bins' (later, ascending) (below, belows) packs
        h =
      on_ok (place max_seq_len num_loras sample bins) _ h λ placed_bins found h1.
        let placed = place-Placed sample groups bins placed_bins below packs found in
        let rest =
          place_all-Partition samples placed.now placed_bins bins' ascending
            (still_below sample placed samples later belows) placed.packs h1 in
        record {
          groups = rest.groups;
          packs = rest.packs;
          same = Perm.trans rest.same (
              Perm.trans (Perm.append_left samples placed.same)
                (perm_middle samples (together groups)));
        }
    where
      still_below :
          {groups : List (List Sample)} {bins : List MicroBatch} (sample : Sample)
          (placed : Placed sample groups bins) (samples : List Sample)
          → All (λ later. sample.0 ≤ later.0) samples
          → All (λ s. Below s.0 groups) samples
          → All (λ s. Below s.0 placed.now) samples
      still_below sample placed [] h k = tt
      still_below sample placed (s ∷ samples) (hs, h) (ks, k) =
          (placed.below s.0 hs ks, still_below sample placed samples h k)

  nothing-Below : (samples : List Sample) → All (λ s. Below s.0 []) samples
  nothing-Below [] = tt
  nothing-Below (sample ∷ samples) = (tt, nothing-Below samples)

  -- Where packing returns, the samples are divided into groups, of which each makes a bin: the bin has
  -- the tokens of its samples one after the other, in every per-token list that is not optional, and
  -- counts them by adapter, in ascending order of the adapters; its samples have one training mode and
  -- one modality; a multimodal sample is alone; and several samples fit within the sequence length.
  pub packed-Partition :
      (samples : List Sample) (bins : List MicroBatch)
      → packed_samples_into_micro_bs max_seq_len num_loras samples ≡ ok bins
      → Partition samples bins
  unfolding packed_samples_into_micro_bs
  packed-Partition samples bins h =
      let packed =
        place_all-Partition (sort_by_key samples) [] [] bins (sort_by_key-Ascending samples)
          (nothing-Below (sort_by_key samples)) tt h in
      record {
        groups = packed.groups;
        packs = packed.packs;
        same = Perm.trans packed.same (
            subst (λ t. Perm t samples) (sym (append-nil (sort_by_key samples)))
              (sort_by_key-perm samples));
      }

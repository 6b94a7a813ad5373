-- ===== src/Fat32/Made.antt =====
-- The fields of a directory entry that `fat32_add_file` makes, by their places in the sector.
use text_os.Common.{
  ℕ, ◌+◌, ◌-◌, ◌*◌, ◌/◌, ◌%◌, ◌^◌, ◌≤◌, ◌<◌, ◌≡◌, ◌≢◌, ◌⊎◌, inl, inr, ◌∙◌, ap, arith, sym,
  ℕ_discrete, dec_lt,
}
use text_os.Memory.{Memory, store32, load32}
use text_os.Memory.Words.{load32-agree}
use text_os.Drive.{Drive, IsReliable}
use text_os.Fat32.{Volume, cluster_to_lba}
use text_os.Fat32.Geometry.{byte_at}
use text_os.Fat32.Directory.{create_entry}
use text_os.Fat32.Listed.{sector}

-- The 32 bytes at `at` are the entry of a file.
pub record IsEntry (m : Memory) (at : ℕ) (target : Memory) (first size : ℕ) : Type 0 where
  pub name : (i : ℕ) → i < 11 → m (at + i) ≡ target i
  pub archive : m (at + 11) ≡ 0x20
  pub first_high : m (at + 20) + m (at + 20 + 1) * 2 ^ 8 ≡ first / 2 ^ 16
  pub first_low : m (at + 26) + m (at + 26 + 1) * 2 ^ 8 ≡ first % 2 ^ 16
  pub file_size : load32 m (at + 28) ≡ size

module _ (m : Memory) (at : ℕ) (target : Memory) (first size : ℕ) where
  abbrev made : Memory
  made = create_entry m at target first size

  made_name : (i : ℕ) → i < 11 → made (at + i) ≡ target i
  unfolding create_entry store32
  made_name i lt =
      let back : at + i - at ≡ i = omega arith in let e = ap target back in ground (arith, e)

  pub made_outside : (x : ℕ) → (x < at) ⊎ (at + 32 ≤ x) → made x ≡ m x
  unfolding create_entry store32
  made_outside x (inl h) = ground arith
  made_outside x (inr h) = ground arith

  made_archive : made (at + 11) ≡ 0x20
  unfolding create_entry store32
  made_archive = ground arith

  byte_20 : made (at + 20) ≡ first / 2 ^ 16 % 2 ^ 8
  unfolding create_entry store32
  byte_20 = ground arith

  byte_21 : made (at + 20 + 1) ≡ first / 2 ^ 24 % 2 ^ 8
  unfolding create_entry store32
  byte_21 = ground arith

  byte_26 : made (at + 26) ≡ first % 2 ^ 8
  unfolding create_entry store32
  byte_26 = ground arith

  byte_27 : made (at + 26 + 1) ≡ first / 2 ^ 8 % 2 ^ 8
  unfolding create_entry store32
  byte_27 = ground arith

  byte_28 : made (at + 28) ≡ size % 2 ^ 8
  unfolding create_entry store32
  byte_28 = ground arith

  byte_29 : made (at + 28 + 1) ≡ size / 2 ^ 8 % 2 ^ 8
  unfolding create_entry store32
  byte_29 = ground arith

  byte_30 : made (at + 28 + 2) ≡ size / 2 ^ 16 % 2 ^ 8
  unfolding create_entry store32
  byte_30 = ground arith

  byte_31 : made (at + 28 + 3) ≡ size / 2 ^ 24 % 2 ^ 8
  unfolding create_entry store32
  byte_31 = ground arith

  pub create_entry_lem : first < 2 ^ 32 → size < 2 ^ 32 → IsEntry made at target first size
  unfolding load32
  create_entry_lem small fits = record {
    name = made_name;
    archive = made_archive;
    first_high = omega (arith, byte_20, byte_21);
    first_low = omega (arith, byte_26, byte_27);
    file_size = omega (arith, byte_28, byte_29, byte_30, byte_31);
  }

IsEntry-agree :
    (m n : Memory) (at : ℕ) (target : Memory) (first size : ℕ)
    → ((k : ℕ) → at ≤ k → k < at + 32 → n k ≡ m k)
    → IsEntry m at target first size
    → IsEntry n at target first size
unfolding load32
IsEntry-agree m n at target first size same h = record {
  name = λ i lt. same (at + i) (omega arith) (omega arith) ∙ h.name i lt;
  archive = same (at + 11) (omega arith) (omega arith) ∙ h.archive;
  first_high =
      rw
        (same (at + 20) (omega arith) (omega arith), same (at + 20 + 1) (omega arith) (omega arith))
        h.first_high;
  first_low =
      rw
        (same (at + 26) (omega arith) (omega arith), same (at + 26 + 1) (omega arith) (omega arith))
        h.first_low;
  file_size =
      load32-agree n m (at + 28) (at + 28) (λ i lt. same (at + 28 + i) (omega arith) (omega arith))
      ∙ h.file_size;
}

module _ {D : Drive} (R : IsReliable D) where
  -- The first unused entry of the directory of `v` is in `w` that of a file, and the rest of the
  -- directory is as before.
  pub record IsEntryMade (v w : Volume D) (target : Memory) (first size : ℕ) : Type 0 where
    pub sector_number : ℕ
    pub index : ℕ
    pub sector_inside : sector_number < v.fat32_bpb.sec_per_clus
    pub index_inside : index < 16
    pub unused : sector R v sector_number (index * 32) ≡ 0
    pub sectors_used : (i j : ℕ) → i < sector_number → j < 16 → sector R v i (j * 32) ≢ 0
    pub entries_used : (j : ℕ) → j < index → sector R v sector_number (j * 32) ≢ 0
    pub made_entry : IsEntry (sector R w sector_number) (index * 32) target first size
    pub others :
        (i k : ℕ)
        → i < v.fat32_bpb.sec_per_clus
        → k < 512
        → (i ≢ sector_number) ⊎ ((k < index * 32) ⊎ (index * 32 + 32 ≤ k))
        → sector R w i k ≡ sector R v i k

  -- With the drive `d` the sector of the first unused entry is written, and no other.
  pub record IsListed (v : Volume D) (d : D.State) (target : Memory) (first size : ℕ) : Type 0 where
    pub sector_number : ℕ
    pub index : ℕ
    pub sector_inside : sector_number < v.fat32_bpb.sec_per_clus
    pub index_inside : index < 16
    pub unused : sector R v sector_number (index * 32) ≡ 0
    pub sectors_used : (i j : ℕ) → i < sector_number → j < 16 → sector R v i (j * 32) ≢ 0
    pub entries_used : (j : ℕ) → j < index → sector R v sector_number (j * 32) ≢ 0
    pub created :
        (k : ℕ)
        → k < 512
        → sector R (record v { drive = d }) sector_number k
          ≡ create_entry (sector R v sector_number) (index * 32) target first size k
    pub elsewhere :
        (a : ℕ)
        → (a < (cluster_to_lba v v.current_directory_cluster + sector_number) * 512)
          ⊎ ((cluster_to_lba v v.current_directory_cluster + sector_number) * 512 + 512 ≤ a)
        → R.held d a ≡ byte_at R v a

  module _ (v u : Volume D) (d : D.State) (target : Memory) (first size : ℕ)
      (s : IsListed u d target first size)
      (spc : u.fat32_bpb.sec_per_clus ≡ v.fat32_bpb.sec_per_clus)
      (same : (i k : ℕ)
        → i < v.fat32_bpb.sec_per_clus
        → k < 512
        → sector R u i k ≡ sector R v i k) where
    inside : s.sector_number < v.fat32_bpb.sec_per_clus
    inside = omega (arith, s.sector_inside, spc)

    others_kept :
        (i k : ℕ)
        → i < v.fat32_bpb.sec_per_clus
        → k < 512
        → (i ≢ s.sector_number) ⊎ ((k < s.index * 32) ⊎ (s.index * 32 + 32 ≤ k))
        → sector R (record u { drive = d }) i k ≡ sector R v i k
    unfolding cluster_to_lba
    others_kept i k lt small away = elim (ℕ_discrete i s.sector_number) [
      | yes here ↦
          ap (λ m. sector R (record u { drive = d }) m k) here
          ∙ s.created k small
          ∙ made_outside (sector R u s.sector_number) (s.index * 32) target first size k
              (elim away [ inl ne ↦ absurd (ne here) | inr apart ↦ apart ])
          ∙ ap (λ m. sector R u m k) (sym here)
          ∙ same i k lt small
      | no other ↦
          s.elsewhere ((cluster_to_lba u u.current_directory_cluster + i) * 512 + k)
            (elim (dec_lt i s.sector_number) [
              | yes before ↦ inl (omega arith)
              | no behind ↦ inr (omega arith)
            ])
          ∙ same i k lt small
    ]

    pub IsListed-IsEntryMade :
        first < 2 ^ 32 → size < 2 ^ 32 → IsEntryMade v (record u { drive = d }) target first size
    IsListed-IsEntryMade small fits = record {
      sector_number = s.sector_number;
      index = s.index;
      sector_inside = inside;
      index_inside = s.index_inside;
      unused =
          sym (same s.sector_number (s.index * 32) inside (omega (arith, s.index_inside)))
          ∙ s.unused;
      sectors_used = λ i j lt j_small z.
          s.sectors_used i j lt j_small (same i (j * 32) (omega (arith, inside)) (omega arith) ∙ z);
      entries_used = λ j lt z.
          s.entries_used j lt
            (same s.sector_number (j * 32) inside (omega (arith, s.index_inside)) ∙ z);
      made_entry =
          IsEntry-agree (create_entry (sector R u s.sector_number) (s.index * 32) target first size)
            (sector R (record u { drive = d }) s.sector_number) (s.index * 32) target first size
            (λ k lo hi. s.created k (omega (arith, s.index_inside)))
            (create_entry_lem (sector R u s.sector_number) (s.index * 32) target first size small
              fits);
      others = others_kept;
    }

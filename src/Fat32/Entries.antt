-- ===== src/Fat32/Entries.antt =====
-- The entries of the table: what `read_fat_entry` returns, and what `write_fat_entry` changes.
use mathlib.Core.Path.{subst}
use text_os.Common.{
  ℕ, ◌+◌, ◌*◌, ◌/◌, ◌%◌, ◌^◌, ◌≤◌, ◌<◌, ◌≡◌, ◌≢◌, inl, inr, refl, some, sym, ◌∙◌, ap, true, ◌==◌,
  if◌then◌else◌, arith, u32, ℕ_discrete, dec_lt, le→ltb, bit_and,
}
use text_os.Common.Bits.{bit_and_high, bit_and_mask, bit_or-low}
use text_os.Memory.{Memory, load32, store32}
use text_os.Memory.Words.{load32-store32, load32-store32_apart, load32-agree}
use text_os.Drive.{Drive, IsReliable}
use text_os.Fat32.{
  Volume, write_copies, read_fat_entry, write_fat_entry, merged_entry, max_clusters,
}
use text_os.Fat32.Geometry.{byte_at, Laid, entry, first_table-below, max_clusters_lem}
use text_os.Fat32.Copies.{write_copies-succeeds, write_copies_outside, write_copies_inside}

merged_entry_fields :
    (old value : ℕ) → merged_entry old value ≡ bit_and (old / 2 ^ 28) 15 * 2 ^ 28 + value % 2 ^ 28
unfolding merged_entry
merged_entry_fields old value =
    rw (bit_and_high 28 old 15, bit_and_mask 28 value)
      (bit_or-low 28 (bit_and (old / 2 ^ 28) 15) (value % 2 ^ 28) (omega arith))

merged_entry_word : (old value : ℕ) → merged_entry old value < 2 ^ 32
merged_entry_word old value =
    omega (arith, merged_entry_fields old value, bit_and_mask 4 (old / 2 ^ 28))

merged_entry_low : (old value : ℕ) → merged_entry old value % 2 ^ 28 ≡ value % 2 ^ 28
merged_entry_low old value = omega (arith, merged_entry_fields old value)

module _ {D : Drive} (R : IsReliable D) where
  -- The sector that holds the entry of a cluster, as it is read.
  abbrev sector_of : Volume D → ℕ → Memory
  sector_of v c i = byte_at R v ((v.fat_start_sector + c * 4 / 512) * 512 + i)

  abbrev new_sector : Volume D → ℕ → ℕ → Memory
  new_sector v c x =
      store32 (sector_of v c) (c * 4 % 512) (merged_entry (load32 (sector_of v c) (c * 4 % 512)) x)

  entry_sector :
      (v : Volume D) (c : ℕ) → Laid R v → c < max_clusters v → c * 4 / 512 < v.fat32_bpb.fat_sz32
  entry_sector v c l hi = omega (arith, l.entries_fit, max_clusters_lem R v l)

  offset_small : (v : Volume D) (c : ℕ) → Laid R v → c < max_clusters v → u32 (c * 4) ≡ c * 4
  offset_small v c l hi = omega (arith, l.numbered, max_clusters_lem R v l)

  read_sector :
      (v : Volume D) (c : ℕ)
      → Laid R v
      → c < max_clusters v
      → D.read_sectors v.drive (u32 (v.fat_start_sector + u32 (c * 4) / 512)) 1
        ≡ some (sector_of v c)
  read_sector v c l hi =
      let place : u32 (v.fat_start_sector + u32 (c * 4) / 512) ≡ v.fat_start_sector + c * 4 / 512 =
        omega (
          arith,
          entry_sector v c l hi,
          first_table-below R v l,
          l.data_start_inside,
          l.word_sized,
          l.numbered,
          max_clusters_lem R v l,
        ) in
      rw (place) (
        R.read-held v.drive (v.fat_start_sector + c * 4 / 512) 1
          (omega
            (arith, entry_sector v c l hi, first_table-below R v l, l.data_start_inside, l.inside))
          (omega arith))

  pub read_fat_entry_lem :
      (v : Volume D) (c : ℕ)
      → Laid R v
      → 2 ≤ c
      → c < max_clusters v
      → read_fat_entry v c ≡ entry R v c
  unfolding read_fat_entry entry
  read_fat_entry_lem v c l lo hi =
      let offset = offset_small v c l hi in
      rw
        (
          le→ltb c 2 lo,
          read_sector v c l hi,
          offset,
          bit_and_mask 28 (load32 (sector_of v c) (c * 4 % 512)),
        )
        (ap (λ n. n % 2 ^ 28)
          (load32-agree (sector_of v c) (byte_at R v) (c * 4 % 512)
            (v.fat_start_sector * 512 + c * 4) (λ i h. ap (byte_at R v) (omega arith))))

  write_fat_entry_copies :
      (v : Volume D) (c x : ℕ)
      → Laid R v
      → 2 ≤ c
      → c < max_clusters v
      → write_fat_entry v c x
        ≡ write_copies v.fat32_bpb.num_fats 0 (c * 4 / 512) (new_sector v c x) v
  unfolding write_fat_entry
  write_fat_entry_copies v c x l lo hi =
      rw (le→ltb c 2 lo, read_sector v c l hi, offset_small v c l hi) refl

  -- Each further copy of the table holds what the first one does.
  abbrev Agree : Memory → ℕ → ℕ → ℕ → Type 0
  Agree m start copies size =
      (j o : ℕ)
      → j < copies
      → o < size * 512
      → m ((start + j * size) * 512 + o) ≡ m (start * 512 + o)

  abbrev pub IsMirrored : Volume D → Type 0
  IsMirrored v = Agree (byte_at R v) v.fat_start_sector v.fat32_bpb.num_fats v.fat32_bpb.fat_sz32

  -- From `v` to `w` the entry of `c` became the low 28 bits of `x`, on every copy; no other entry, no
  -- byte of the data and no variable changed.
  pub record IsEntryWritten (v w : Volume D) (c x : ℕ) : Type 0 where
    pub only_drive : w ≡ record v { drive = w.drive }
    pub entry_written : entry R w c ≡ x % 2 ^ 28
    pub entries_kept : (d : ℕ) → d < max_clusters v → d ≢ c → entry R w d ≡ entry R v d
    pub data_kept : (a : ℕ) → v.data_start_sector * 512 ≤ a → byte_at R w a ≡ byte_at R v a
    pub mirrored : IsMirrored v → IsMirrored w

  entry_of :
      (v w : Volume D) (d : ℕ)
      → w ≡ record v { drive = w.drive }
      → entry R w d ≡ load32 (byte_at R w) (v.fat_start_sector * 512 + d * 4) % 2 ^ 28
  unfolding entry
  entry_of v w d same =
      ap (λ (u : Volume D). load32 (byte_at R w) (u.fat_start_sector * 512 + d * 4) % 2 ^ 28) same

  module _ (v : Volume D) (c x : ℕ) (l : Laid R v) (hi : c < max_clusters v) where
    abbrev result : Volume D
    result = (write_copies v.fat32_bpb.num_fats 0 (c * 4 / 512) (new_sector v c x) v).1

    copies_fit : v.fat_start_sector + (0 + v.fat32_bpb.num_fats) * v.fat32_bpb.fat_sz32 ≤ R.capacity
    copies_fit = omega (arith, l.tables_below, l.data_start_inside, l.inside)

    word_sized : v.fat_start_sector + (0 + v.fat32_bpb.num_fats) * v.fat32_bpb.fat_sz32 ≤ 2 ^ 32
    word_sized = omega (arith, l.tables_below, l.data_start_inside, l.word_sized)

    copy_at :
        (j o : ℕ)
        → j < v.fat32_bpb.num_fats
        → o < v.fat32_bpb.fat_sz32 * 512
        → byte_at R result ((v.fat_start_sector + j * v.fat32_bpb.fat_sz32) * 512 + o) ≡ (
            if o / 512 == c * 4 / 512
            then new_sector v c x (o % 512)
            else byte_at R v ((v.fat_start_sector + j * v.fat32_bpb.fat_sz32) * 512 + o))
    copy_at j o lt inside =
        let address = (v.fat_start_sector + j * v.fat32_bpb.fat_sz32 + o / 512) * 512 + o % 512 in
        let same : address ≡ (v.fat_start_sector + j * v.fat32_bpb.fat_sz32) * 512 + o =
          omega arith in
        ap (byte_at R result) (sym same)
        ∙ write_copies_inside R v.fat32_bpb.num_fats 0 (c * 4 / 512) (new_sector v c x) v j
            (o / 512) (o % 512) copies_fit (entry_sector v c l hi) word_sized (omega arith)
            (omega arith) (omega arith) (omega arith)
        ∙ ap
            (λ (a : ℕ).
              if o / 512 == c * 4 / 512 then new_sector v c x (o % 512) else byte_at R v a)
            same

    table_at :
        (d i : ℕ)
        → d < max_clusters v
        → i < 4
        → byte_at R result (v.fat_start_sector * 512 + d * 4 + i) ≡ (
            if d * 4 / 512 == c * 4 / 512
            then new_sector v c x (d * 4 % 512 + i)
            else byte_at R v (v.fat_start_sector * 512 + d * 4 + i))
    table_at d i small lt =
        let fits : d * 4 / 512 < v.fat32_bpb.fat_sz32 = entry_sector v d l small in
        let same : (v.fat_start_sector + 0 * v.fat32_bpb.fat_sz32) * 512 + (d * 4 + i)
            ≡ v.fat_start_sector * 512 + d * 4 + i =
          omega arith in
        let sector : (d * 4 + i) / 512 ≡ d * 4 / 512 = omega arith in
        let offset : (d * 4 + i) % 512 ≡ d * 4 % 512 + i = omega arith in
        ap (byte_at R result) (sym same)
        ∙ copy_at 0 (d * 4 + i) (omega (arith, l.has_copies)) (omega arith)
        ∙ rw (sector, offset, same) refl

    entry_new : load32 (byte_at R result) (v.fat_start_sector * 512 + c * 4) % 2 ^ 28 ≡ x % 2 ^ 28
    entry_new =
        let old = load32 (sector_of v c) (c * 4 % 512) in
        ap (λ n. n % 2 ^ 28)
          (load32-agree (byte_at R result) (new_sector v c x) (v.fat_start_sector * 512 + c * 4)
              (c * 4 % 512) (λ i lt. table_at c i hi lt ∙ ground arith)
            ∙ load32-store32 (sector_of v c) (c * 4 % 512) (merged_entry old x)
                (merged_entry_word old x))
        ∙ merged_entry_low old x

    entry_old :
        (d : ℕ)
        → d < max_clusters v
        → d ≢ c
        → load32 (byte_at R result) (v.fat_start_sector * 512 + d * 4)
          ≡ load32 (byte_at R v) (v.fat_start_sector * 512 + d * 4)
    entry_old d small other = elim (ℕ_discrete (d * 4 / 512) (c * 4 / 512)) [
      | yes same ↦
          load32-agree (byte_at R result) (new_sector v c x) (v.fat_start_sector * 512 + d * 4)
            (d * 4 % 512) (λ i lt. table_at d i small lt ∙ ground arith)
          ∙ load32-store32_apart (sector_of v c) (c * 4 % 512) (d * 4 % 512)
              (merged_entry (load32 (sector_of v c) (c * 4 % 512)) x)
              (elim (dec_lt c d) [ yes p ↦ inl (omega arith) | no p ↦ inr (omega arith) ])
          ∙ load32-agree (sector_of v c) (byte_at R v) (d * 4 % 512)
              (v.fat_start_sector * 512 + d * 4) (λ i lt. ap (byte_at R v) (omega arith))
      | no apart ↦
          load32-agree (byte_at R result) (byte_at R v) (v.fat_start_sector * 512 + d * 4)
            (v.fat_start_sector * 512 + d * 4) (λ i lt. table_at d i small lt ∙ ground arith)
    ]

    result_agrees :
        IsMirrored v
        → Agree (byte_at R result) v.fat_start_sector v.fat32_bpb.num_fats v.fat32_bpb.fat_sz32
    result_agrees m j o lt inside =
        let first : (v.fat_start_sector + 0 * v.fat32_bpb.fat_sz32) * 512 + o
            ≡ v.fat_start_sector * 512 + o =
          omega arith in
        copy_at j o lt inside
        ∙ ap (λ (b : ℕ). if o / 512 == c * 4 / 512 then new_sector v c x (o % 512) else b)
            (m j o lt inside ∙ ap (byte_at R v) (sym first))
        ∙ sym (copy_at 0 o (omega (arith, l.has_copies)) inside)
        ∙ ap (byte_at R result) first

    result-IsEntryWritten : IsEntryWritten v result c x
    unfolding entry
    result-IsEntryWritten =
        let same =
          (write_copies-succeeds R v.fat32_bpb.num_fats 0 (c * 4 / 512) (new_sector v c x) v
            copies_fit (entry_sector v c l hi) word_sized).1 in
        record {
          only_drive = same;
          entry_written = entry_of v result c same ∙ entry_new;
          entries_kept = λ d small other.
              entry_of v result d same ∙ ap (λ n. n % 2 ^ 28) (entry_old d small other);
          data_kept = λ a high.
              write_copies_outside R v.fat32_bpb.num_fats 0 (c * 4 / 512) (new_sector v c x) v a
                copies_fit (entry_sector v c l hi) word_sized (inr (omega (arith, l.tables_below)));
          mirrored = λ m.
              subst
                (λ (u : Volume D).
                  Agree (byte_at R result) u.fat_start_sector u.fat32_bpb.num_fats
                    u.fat32_bpb.fat_sz32)
                (sym same) (result_agrees m);
        }

  -- On a laid-out volume, `write_fat_entry` succeeds at each cluster and writes the low 28 bits of the
  -- value into its entry, on all copies of the table; it changes no other entry, no byte of the data
  -- and no variable, and copies that agreed still do.
  pub write_fat_entry-IsEntryWritten :
      (v : Volume D) (c x : ℕ)
      → Laid R v
      → 2 ≤ c
      → c < max_clusters v
      → ((write_fat_entry v c x).0 ≡ true) × IsEntryWritten v (write_fat_entry v c x).1 c x
  write_fat_entry-IsEntryWritten v c x l lo hi = rw (write_fat_entry_copies v c x l lo hi) (
    (write_copies-succeeds R v.fat32_bpb.num_fats 0 (c * 4 / 512) (new_sector v c x) v
        (copies_fit v c x l hi) (entry_sector v c l hi) (word_sized v c x l hi)).0,
    result-IsEntryWritten v c x l hi,
  )

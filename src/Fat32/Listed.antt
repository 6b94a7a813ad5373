-- ===== src/Fat32/Listed.antt =====
-- What it is for an entry of a sector of the directory to have a name, and how far the loops over
-- the entries of a sector come.
use mathlib.Core.Path.{subst}
use text_os.Common.{
  ℕ, zero, suc, ◌+◌, ◌*◌, ◌≤◌, ◌<◌, ◌≡◌, ◌≢◌, refl, Bool, Bool-cases, inl, inr, true, false, arith,
  ◌==◌, ==_iff, bit_and, ℕ_discrete, dec_lt, sym,
}
use text_os.Memory.{Memory}
use text_os.Drive.{Drive, IsReliable}
use text_os.Fat32.{Volume, cluster_to_lba}
use text_os.Fat32.Geometry.{byte_at}
use text_os.Fat32.Directory.{is_deleted, same_name, has_entry}
use text_os.Fat32.Removal.{Scan, ended, found, next_sector, scan_entries}

-- The entry `j` of a sector has the name, and none of the attributes of the mask.
abbrev pub HasName : ℕ → Memory → Memory → ℕ → Type 0
HasName mask buffer target j =
    (bit_and (buffer (j * 32 + 11)) mask ≡ 0) × ((i : ℕ) → i < 11 → buffer (j * 32 + i) ≡ target i)

-- A byte is never taken for the mark of a deleted entry, since a `char` is signed.
pub never_deleted : (c : ℕ) → is_deleted c ≡ false
unfolding is_deleted
never_deleted c = ground arith

pub same_name_sound :
    (rounds i : ℕ) (buffer : Memory) (at : ℕ) (target : Memory) (k : ℕ)
    → same_name rounds i buffer at target ≡ true
    → i ≤ k
    → k < i + rounds
    → buffer (at + k) ≡ target k
unfolding same_name
same_name_sound zero i buffer at target k h lo hi = absurd (omega arith)
same_name_sound (suc rounds) i buffer at target k h lo hi =
    ground (arith, same_name_sound rounds (i + 1) buffer at target k)

pub same_name_complete :
    (rounds i : ℕ) (buffer : Memory) (at : ℕ) (target : Memory)
    → ((k : ℕ) → k < i + rounds → buffer (at + k) ≡ target k)
    → same_name rounds i buffer at target ≡ true
unfolding same_name
same_name_complete zero i buffer at target h = refl
same_name_complete (suc rounds) i buffer at target h =
    ground
      (arith, h i, same_name_complete rounds (i + 1) buffer at target (λ k lt. h k (omega arith)))

-- An entry that is used, without the name.
abbrev pub IsPassed : ℕ → Memory → Memory → ℕ → Type 0
IsPassed mask buffer target j = (buffer (j * 32) ≢ 0) × (¬ HasName mask buffer target j)

-- The first entry from `e` on with the name, if no unused one comes before it.
pub data Search (mask : ℕ) (buffer target : Memory) (e rounds : ℕ) : Scan → Type 0 where
  at :
      (j : ℕ)
      → e ≤ j
      → j < e + rounds
      → ((k : ℕ) → e ≤ k → k < j → IsPassed mask buffer target k)
      → buffer (j * 32) ≢ 0
      → HasName mask buffer target j
      → Search mask buffer target e rounds (found j)
  stopped :
      (j : ℕ)
      → e ≤ j
      → j < e + rounds
      → ((k : ℕ) → e ≤ k → k < j → IsPassed mask buffer target k)
      → buffer (j * 32) ≡ 0
      → Search mask buffer target e rounds ended
  passed :
      ((k : ℕ) → e ≤ k → k < e + rounds → IsPassed mask buffer target k)
      → Search mask buffer target e rounds next_sector

one_more :
    (mask : ℕ) (buffer target : Memory) (e j : ℕ)
    → IsPassed mask buffer target e
    → ((k : ℕ) → e + 1 ≤ k → k < j → IsPassed mask buffer target k)
    → (k : ℕ) → e ≤ k
    → k < j
    → IsPassed mask buffer target k
one_more mask buffer target e j here rest k lo lt = elim (ℕ_discrete e k) [
  | yes same ↦ subst (IsPassed mask buffer target) same here
  | no other ↦ rest k (omega arith) lt
]

later :
    (mask : ℕ) (buffer target : Memory) (e rounds : ℕ) (r : Scan)
    → IsPassed mask buffer target e
    → Search mask buffer target (e + 1) rounds r
    → Search mask buffer target e (suc rounds) r
later mask buffer target e rounds r here (at j lo lt before used name) =
    at j (omega arith) (omega arith) (one_more mask buffer target e j here before) used name
later mask buffer target e rounds r here (stopped j lo lt before unused) =
    stopped j (omega arith) (omega arith) (one_more mask buffer target e j here before) unused
later mask buffer target e rounds r here (passed before) =
    passed λ k lo lt. one_more mask buffer target e (e + 1 + rounds) here before k lo (omega arith)

pub scan_entries-Search :
    (rounds e : ℕ) (buffer target : Memory)
    → Search 0x0F buffer target e rounds (scan_entries rounds e buffer target)
unfolding scan_entries
scan_entries-Search zero e buffer target = passed λ k lo lt. absurd (omega arith)
scan_entries-Search (suc rounds) e buffer target =
    let rest = scan_entries-Search rounds (e + 1) buffer target in
    let kept = never_deleted (buffer (e * 32)) in
    elim (Bool-cases (buffer (e * 32) == 0)) [
      | inl z ↦ rw z (
          stopped e (omega arith) (omega arith) (λ k lo lt. absurd (omega arith))
            ((==_iff (buffer (e * 32)) 0).0 z))
      | inr nz ↦
          let used : buffer (e * 32) ≢ 0 = λ z. absurd (ground arith) in
          let next = λ (other : ¬ HasName 0x0F buffer target e).
            later 0x0F buffer target e rounds (scan_entries rounds (e + 1) buffer target)
              (used, other) rest in
          elim (Bool-cases (bit_and (buffer (e * 32 + 11)) 0x0F == 0)) [
            | inr f ↦ rw (nz, kept, f) (next λ (z, same). absurd (ground arith))
            | inl f ↦ elim (Bool-cases (same_name 11 0 buffer (e * 32) target)) [
              | inl g ↦
                  rw (nz, kept, f, g)
                    (at e (omega arith) (omega arith) (λ k lo lt. absurd (omega arith)) used
                      (
                        (==_iff (bit_and (buffer (e * 32 + 11)) 0x0F) 0).0 f,
                        λ i lt.
                            same_name_sound 11 0 buffer (e * 32) target i g (omega arith)
                              (omega arith),
                      ))
              | inr g ↦
                  rw (nz, kept, f, g)
                    (next λ (z, same).
                      let all =
                        same_name_complete 11 0 buffer (e * 32) target
                          (λ k lt. same k (omega arith)) in
                      absurd (cc))
            ]
          ]
    ]

-- The search of `fat32_add_file` is that of `fat32_remove_file` in each sector.
abbrev pub is_found : Scan → Bool
is_found ended = false
is_found (found j) = true
is_found next_sector = false

pub has_entry-scan_entries :
    (rounds e : ℕ) (buffer target : Memory)
    → has_entry rounds e buffer target ≡ is_found (scan_entries rounds e buffer target)
unfolding has_entry scan_entries
has_entry-scan_entries zero e buffer target = refl
has_entry-scan_entries (suc rounds) e buffer target =
    ground (arith, has_entry-scan_entries rounds (e + 1) buffer target)

-- An entry of a sector with the name, behind used entries only.
abbrev pub Lists : Memory → Memory → ℕ → Type 0
Lists buffer target j = ((k : ℕ) → k ≤ j → buffer (k * 32) ≢ 0) × HasName 0x0F buffer target j

-- A search that ends at no entry leaves none in front of the unused entries.
pub Search-none :
    (buffer target : Memory) (r : Scan)
    → Search 0x0F buffer target 0 16 r
    → is_found r ≡ false
    → (j : ℕ) → j < 16
    → ¬ Lists buffer target j
Search-none buffer target r (at i lo lt before used name) none j small = absurd (cc)
Search-none buffer target r (stopped i lo lt before unused) none j small = λ (used, name).
    elim (dec_lt j i) [
      | yes near ↦ (before j (omega arith) near).1 name
      | no far ↦ used i (omega arith) unused
    ]
Search-none buffer target r (passed before) none j small =
    λ (used, name). (before j (omega arith) (omega arith)).1 name

pub Search-some :
    (buffer target : Memory) (r : Scan)
    → Search 0x0F buffer target 0 16 r
    → is_found r ≡ true
    → (j : ℕ) × (j < 16) × Lists buffer target j
Search-some buffer target r (at i lo lt before used name) some_entry = (
  i,
  omega arith,
  (
    (λ k le. elim (ℕ_discrete k i) [
      | yes same ↦ subst (λ m. buffer (m * 32) ≢ 0) (sym same) used
      | no other ↦ (before k (omega arith) (omega arith)).0
    ]),
    name,
  ),
)
Search-some buffer target r (stopped i lo lt before unused) some_entry = absurd (cc)
Search-some buffer target r (passed before) some_entry = absurd (cc)

module _ {D : Drive} (R : IsReliable D) where
  -- A sector of the directory.
  abbrev pub sector : Volume D → ℕ → Memory
  sector v s i = byte_at R v ((cluster_to_lba v v.current_directory_cluster + s) * 512 + i)

  -- The entry `e` of the sector `s` is the first of the name, and no unused one comes before it.
  pub record IsFirst (v : Volume D) (target : Memory) (s e : ℕ) : Type 0 where
    pub sector_inside : s < v.fat32_bpb.sec_per_clus
    pub index_inside : e < 16
    pub sectors_passed : (i j : ℕ) → i < s → j < 16 → IsPassed 0x0F (sector v i) target j
    pub entries_passed : (j : ℕ) → j < e → IsPassed 0x0F (sector v s) target j
    pub used : sector v s (e * 32) ≢ 0
    pub named : HasName 0x0F (sector v s) target e

  -- Wherever an entry has the name, an unused entry of the directory comes before it.
  abbrev pub IsMissing : Volume D → Memory → Type 0
  IsMissing v target =
      (s e : ℕ)
      → s < v.fat32_bpb.sec_per_clus
      → e < 16
      → ((i j : ℕ) → i < s → j < 16 → sector v i (j * 32) ≢ 0)
      → ¬ Lists (sector v s) target e

  -- An entry of the directory has the name, and no unused one of its sector comes before it.
  abbrev pub IsThere : Volume D → Memory → Type 0
  IsThere v target =
      (s : ℕ) × (e : ℕ) × (s < v.fat32_bpb.sec_per_clus) × (e < 16) × Lists (sector v s) target e

  abbrev pub IsNew : Volume D → Memory → Type 0
  IsNew v target = (s e : ℕ) → s < v.fat32_bpb.sec_per_clus → e < 16 → ¬ Lists (sector v s) target e

  -- No entry of the directory is unused.
  abbrev pub IsFull : Volume D → Type 0
  IsFull v = (s e : ℕ) → s < v.fat32_bpb.sec_per_clus → e < 16 → sector v s (e * 32) ≢ 0

-- ===== src/Fat32/Directory.antt =====
-- The directory of the file system: 8.3 names, and the search for an entry, its creation and its
-- removal in the clusters' sectors. A filename is the string it holds, and ends at a zero or at its end.
use text_os.Common.{
  ℕ, zero, suc, ◌+◌, ◌-◌, ◌*◌, ◌/◌, ◌^◌, Bool, true, false, not, ◌&&◌, ◌||◌, Option, none, some,
  List, [], ◌∷◌, ltb, leb, ◌==◌, if◌then◌else◌, u8, u16, bit_and, negate,
}
use text_os.Memory.{Memory, store, store32}
use text_os.Drive.{Drive}
use text_os.Fat32.{Volume, cluster_to_lba}
use text_os.Fat32.Chains.{free_cluster_chain, allocate_cluster_chain, clusters_needed}
use text_os.Fat32.Data.{write_data_to_clusters}

abbrev pub entry_size : ℕ
entry_size = 32

-- `(c >= 'a' && c <= 'z') ? c - 32 : c`
abbrev pub to_upper : ℕ → ℕ
to_upper c = if leb b'a' c && leb c b'z' then c - 32 else c

-- A loop that copies characters to `out[j]` up to `out[limit - 1]`; `stops` ends it at a character.
-- It returns what is left of the name.
unfoldable pub copy_name : (ℕ → Bool) → ℕ → ℕ → List ℕ → Memory → List ℕ × Memory
copy_name stops zero j filename out = (filename, out)
copy_name stops (suc rounds) j [] out = ([], out)
copy_name stops (suc rounds) j (c ∷ filename) out =
    let rest = copy_name stops rounds (j + 1) filename (store out j (to_upper c)) in
    if stops c then (c ∷ filename, out) else rest

-- `if (filename[i] == '.') i++`
abbrev pub skip_dot : List ℕ → List ℕ
skip_dot [] = []
skip_dot (c ∷ filename) = if c == b'.' then filename else c ∷ filename

unfoldable pub to_83_format : List ℕ → Memory → Memory
to_83_format filename out =
    let blank = λ (i : ℕ). if ltb i 11 then b' ' else out i in
    let base = copy_name (λ c. c == b'.') 8 0 filename blank in
    (copy_name (λ c. false) 3 8 (skip_dot base.0) base.1).1

-- `entry->name[0] == DELETED_ENTRY`: a `char` is signed, and is widened to an `int` first.
unfoldable pub is_deleted : ℕ → Bool
is_deleted c = (if ltb c 128 then c else c + (2 ^ 32 - 2 ^ 8)) == 0xE5

-- `simple_memcmp(entry->name, target, 11) == 0`, from the index `i` on.
unfoldable pub same_name : ℕ → ℕ → Memory → ℕ → Memory → Bool
same_name zero i buffer entry target = true
same_name (suc rounds) i buffer entry target =
    let rest = same_name rounds (i + 1) buffer entry target in
    if buffer (entry + i) == target i then rest else false

-- Whether one of the entries of a sector, from `e` on, has the name; the first entry with no name ends
-- the sector.
unfoldable pub has_entry : ℕ → ℕ → Memory → Memory → Bool
has_entry zero e buffer target = false
has_entry (suc rounds) e buffer target =
    let entry = e * entry_size in
    let rest = has_entry rounds (e + 1) buffer target in
    if buffer entry == 0
    then false
    else if is_deleted (buffer entry)
    then rest
    else if not (bit_and (buffer (entry + 11)) 0x0F == 0)
    then rest
    else if same_name 11 0 buffer entry target
    then true
    else rest

-- The first entry from `e` on that is unused.
unfoldable pub free_entry : ℕ → ℕ → Memory → Option ℕ
free_entry zero e buffer = none
free_entry (suc rounds) e buffer =
    let rest = free_entry rounds (e + 1) buffer in
    let first = buffer (e * entry_size) in if (first == 0) || is_deleted first then some e else rest

abbrev store16 : Memory → ℕ → ℕ → Memory
store16 m a w = store (store m a (u8 w)) (a + 1) (u8 (w / 2 ^ 8))

-- The assignments to the fields of `fat_dir_entry_t`, in the order of the code.
unfoldable pub create_entry : Memory → ℕ → Memory → ℕ → ℕ → Memory
create_entry buffer entry target first_cluster size =
    let named =
      λ (x : ℕ). if leb entry x && ltb x (entry + 11) then target (x - entry) else buffer x in
    let sized = store32 (store named (entry + 11) 0x20) (entry + 28) size in
    let low = store16 sized (entry + 26) (u16 first_cluster) in
    let high = store16 low (entry + 20) (u16 (first_cluster / 2 ^ 16)) in
    let dated = store16 (store16 high (entry + 24) 0x4E21) (entry + 16) 0x4E21 in
    let timed = store16 (store16 dated (entry + 22) 0x8000) (entry + 14) 0x8000 in
    store (store (store16 timed (entry + 18) 0x4E21) (entry + 13) 0) (entry + 12) 0

-- What the search for the name finds.
pub data Lookup : Type 0 where
  unreadable exists absent : Lookup

module _ {D : Drive} where
  unfoldable pub check_sectors : ℕ → ℕ → ℕ → Memory → Volume D → Lookup
  check_sectors zero s lba target v = absent
  check_sectors (suc rounds) s lba target v =
      let rest = check_sectors rounds (s + 1) lba target v in
      elim (D.read_sectors v.drive (lba + s) 1) [
        | none ↦ unreadable
        | some buffer ↦ if has_entry 16 0 buffer target then exists else rest
      ]

  -- `if (first_cluster) free_cluster_chain(…); return -code;`
  unfoldable pub fail_with : ℕ → ℕ → ℕ → Volume D → Option (ℕ × Volume D)
  fail_with code fuel first_cluster v =
      if first_cluster == 0
      then some (negate code, v)
      else (elim (free_cluster_chain fuel v first_cluster) [
        | none ↦ none
        | some w ↦ some (negate code, w)
      ])

  -- The loops over the sectors that look for an unused entry and fill it.
  unfoldable pub place_entry : ℕ → ℕ → ℕ → ℕ → Memory → ℕ → ℕ → Volume D → Option (ℕ × Volume D)
  place_entry zero s fuel lba target first_cluster size v = fail_with 4 fuel first_cluster v
  place_entry (suc rounds) s fuel lba target first_cluster size v =
      let rest = place_entry rounds (s + 1) fuel lba target first_cluster size v in
      elim (D.read_sectors v.drive (lba + s) 1) [
        | none ↦ fail_with 1 fuel first_cluster v
        | some buffer ↦ elim (free_entry 16 0 buffer) [
          | none ↦ rest
          | some e ↦
              (let written =
                  D.write_sectors v.drive (lba + s) 1
                    (create_entry buffer (e * entry_size) target first_cluster size) in
                let next = record v { drive = written.1 } in
                if not written.0 then fail_with 2 fuel first_cluster next else some (0, next))
        ]
      ]

  -- After the data were written, or not.
  unfoldable pub add_written :
      ℕ → ℕ → Memory → ℕ → ℕ → Option (Bool × Volume D) → Option (ℕ × Volume D)
  add_written fuel lba target first_cluster size none = none
  add_written fuel lba target first_cluster size (some (true, v)) =
      place_entry v.fat32_bpb.sec_per_clus 0 fuel lba target first_cluster size v
  add_written fuel lba target first_cluster size (some (false, v)) =
      fail_with 7 fuel first_cluster v

  -- After the clusters were allocated, or not.
  unfoldable pub add_allocated :
      ℕ → ℕ → Memory → Memory → ℕ → Option (ℕ × Volume D) → Option (ℕ × Volume D)
  add_allocated fuel lba target bytes size none = none
  add_allocated fuel lba target bytes size (some (first_cluster, v)) =
      if first_cluster == 0
      then some (negate 6, v)
      else add_written fuel lba target first_cluster size
          (write_data_to_clusters fuel v first_cluster bytes 0 size)

  unfoldable pub fat32_add_file : ℕ → Volume D → List ℕ → Memory → ℕ → Option (ℕ × Volume D)
  fat32_add_file fuel v filename bytes size =
      let lba = cluster_to_lba v v.current_directory_cluster in
      let target = to_83_format filename (λ i. 0) in
      elim (check_sectors v.fat32_bpb.sec_per_clus 0 lba target v) [
        | unreadable ↦ some (negate 1, v)
        | exists ↦ some (negate 5, v)
        | absent ↦
            if size == 0
            then place_entry v.fat32_bpb.sec_per_clus 0 fuel lba target 0 size v
            else add_allocated fuel lba target bytes size
                (allocate_cluster_chain fuel v (clusters_needed v size))
      ]

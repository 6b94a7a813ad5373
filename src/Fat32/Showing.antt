-- ===== src/Fat32/Showing.antt =====
-- kernel.cpp, `from_83_format` and the display of a file, `fat32_read_file`. At an entry without a
-- name the loop over the entries of a sector ends, and the next sector is read.
use text_os.Common.{
  ℕ, zero, suc, ◌+◌, ◌*◌, ◌/◌, ◌%◌, Bool, true, false, not, ◌&&◌, ◌||◌, Option, none, some, List,
  [], ◌∷◌, ◌++◌, ltb, leb, ◌==◌, if◌then◌else◌, bit_and, codes,
}
use text_os.Memory.{Memory, load32}
use text_os.Drive.{Drive}
use text_os.Fat32.{Volume, Shown, text, number, say, cluster_to_lba, read_fat_entry, sector_size}
use text_os.Fat32.Chains.{in_chain, cluster_size}
use text_os.Fat32.Data.{portion, read_data_from_clusters}
use text_os.Fat32.Directory.{entry_size, is_deleted, same_name, to_83_format}
use text_os.Fat32.Removal.{first_cluster_of}

-- `for (i = …; i < end && fat_name[i] != ' '; i++) out[j++] = fat_name[i]`
unfoldable pub take_name : ℕ → ℕ → Memory → List ℕ
take_name zero i fat_name = []
take_name (suc rounds) i fat_name =
    let rest = take_name rounds (i + 1) fat_name in
    if fat_name i == b' ' then [] else fat_name i ∷ rest

unfoldable pub from_83_format : Memory → List ℕ
from_83_format fat_name =
    take_name 8 0 fat_name
    ++ (if not (fat_name 8 == b' ') then b'.' ∷ take_name 3 8 fat_name else [])

-- The first entry from `e` on that is a file of the name.
unfoldable pub find_file : ℕ → ℕ → Memory → Memory → Option ℕ
find_file zero e buffer target = none
find_file (suc rounds) e buffer target =
    let entry = e * entry_size in
    let rest = find_file rounds (e + 1) buffer target in
    if buffer entry == 0
    then none
    else if is_deleted (buffer entry)
    then rest
    else if not (bit_and (buffer (entry + 11)) 0x1F == 0)
    then rest
    else if same_name 11 0 buffer entry target
    then some e
    else rest

abbrev pub display_size : ℕ → ℕ
display_size file_size = if ltb 2048 file_size then 2048 else file_size

-- A byte that is not printable is shown as a point.
abbrev pub visible : ℕ → ℕ
visible c =
    if leb 32 c && leb c 126
    then c
    else if (c == b'\n') || ((c == b'\r') || (c == b'\t'))
    then c
    else b'.'

unfoldable pub shown_bytes : ℕ → ℕ → Memory → List Shown
shown_bytes zero i file_data = []
shown_bytes (suc rounds) i file_data =
    text (visible (file_data i) ∷ []) ∷ shown_bytes rounds (i + 1) file_data

abbrev pub truncation : ℕ → List Shown
truncation file_size =
    if ltb (display_size file_size) file_size
    then text (codes "\n... (truncated, showing first ")
      ∷ number (display_size file_size)
      ∷ text (codes " bytes)")
      ∷ []
    else []

abbrev pub contents_of : List ℕ → ℕ → List Shown
contents_of filename file_size =
    text (codes "Contents of ")
    ∷ text filename
    ∷ text (codes " (")
    ∷ number file_size
    ∷ text (codes " bytes):\n")
    ∷ text (codes "--------------------------------\n")
    ∷ []

abbrev pub closing : List Shown
closing = text (codes "\n--------------------------------\n") ∷ []

module _ {D : Drive} where
  -- `read_data_from_clusters` with a null pointer: `read_sectors` refuses it, and the copy of a part of a
  -- sector to it is undefined.
  unfoldable pub read_data_to_null : ℕ → Volume D → ℕ → ℕ → Option Bool
  read_data_to_null zero v current remaining = none
  read_data_to_null (suc fuel) v current remaining =
      let n = portion (cluster_size v) remaining in
      let rest = read_data_to_null fuel v (read_fat_entry v current) remaining in
      if not (in_chain current && ltb 0 remaining)
      then some (remaining == 0)
      else if ltb 0 (n / sector_size)
      then some false
      else if ltb 0 (n % sector_size)
      then (elim (D.read_sectors v.drive (cluster_to_lba v current) 1) [
        | none ↦ some false
        | some bytes ↦ none
      ])
      else rest

  -- The read into what `new` returned: a buffer with some contents, or a null pointer.
  abbrev pub read_file_data : ℕ → Volume D → ℕ → Option Memory → ℕ → Option (Option Memory)
  read_file_data fuel v first_cluster none size =
      elim (read_data_to_null fuel v first_cluster size) [
        | none ↦ none
        | some true ↦ none
        | some false ↦ some none
      ]
  read_file_data fuel v first_cluster (some fresh) size =
      elim (read_data_from_clusters fuel v first_cluster fresh 0 size) [
        | none ↦ none
        | some (true, file_data) ↦ some (some file_data)
        | some (false, file_data) ↦ some none
      ]

  -- The display of an entry. `fresh` is what `new` returned.
  unfoldable pub show_file : ℕ → Option Memory → List ℕ → Memory → ℕ → Volume D → Option (Volume D)
  show_file fuel fresh filename buffer entry v =
      let first_cluster = first_cluster_of buffer entry in
      let file_size = load32 buffer (entry + 28) in
      let head = contents_of filename file_size in
      if file_size == 0
      then some (say (head ++ text (codes "(Empty file)\n") ∷ closing) v)
      else if leb 2 first_cluster
      then (elim (read_file_data fuel v first_cluster fresh (display_size file_size)) [
        | none ↦ none
        | some (some file_data) ↦ some (
            say
              (head
                ++ (shown_bytes (display_size file_size) 0 file_data
                    ++ (truncation file_size ++ closing)))
              v)
        | some none ↦ some (say (head ++ text (codes "Error reading file data\n") ∷ closing) v)
      ])
      else some (say (head ++ text (codes "File has no allocated clusters\n") ∷ closing) v)

  unfoldable pub read_sectors_of :
      ℕ → ℕ → ℕ → Option Memory → List ℕ → ℕ → Memory → Volume D → Option (Volume D)
  read_sectors_of zero s fuel fresh filename lba target v =
      some (say (text (codes "File '") ∷ text filename ∷ text (codes "' not found\n") ∷ []) v)
  read_sectors_of (suc rounds) s fuel fresh filename lba target v =
      let rest = read_sectors_of rounds (s + 1) fuel fresh filename lba target v in
      elim (D.read_sectors v.drive (lba + s) 1) [
        | none ↦ some (say (text (codes "Error reading directory\n") ∷ []) v)
        | some buffer ↦ elim (find_file 16 0 buffer target) [
          | none ↦ rest
          | some e ↦ show_file fuel fresh filename buffer (e * entry_size) v
        ]
      ]

  unfoldable pub fat32_read_file : ℕ → Option Memory → Volume D → List ℕ → Option (Volume D)
  fat32_read_file fuel fresh v filename =
      read_sectors_of v.fat32_bpb.sec_per_clus 0 fuel fresh filename
        (cluster_to_lba v v.current_directory_cluster) (to_83_format filename (λ i. 0)) v

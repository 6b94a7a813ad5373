-- ===== src/Fat32/Copies.antt =====
-- The loop that writes a sector of the table into each copy of it.
use text_os.Common.{
  ℕ, zero, suc, ◌+◌, ◌-◌, ◌*◌, ◌^◌, ◌≤◌, ◌<◌, ◌≡◌, ◌⊎◌, inl, inr, refl, ◌∙◌, ap, true, ◌==◌,
  if◌then◌else◌, arith, u32, ℕ_discrete,
}
use text_os.Memory.{Memory}
use text_os.Drive.{Drive, IsReliable, written}
use text_os.Fat32.{Volume, write_copies}
use text_os.Fat32.Geometry.{byte_at}
use native.Mathlib.Nat.{mul-le-mul_right}

module _ {D : Drive} (R : IsReliable D) where
  -- The volume after one copy has been written.
  abbrev copied : Volume D → ℕ → ℕ → Memory → Volume D
  copied v k sector buffer = record v {
    drive =
        (D.write_sectors v.drive (u32 (v.fat_start_sector + k * v.fat32_bpb.fat_sz32 + sector)) 1
          buffer).1;
  }

  copied_at :
      (v : Volume D) (k sector a : ℕ) (buffer : Memory)
      → v.fat_start_sector + k * v.fat32_bpb.fat_sz32 + sector < R.capacity
      → v.fat_start_sector + k * v.fat32_bpb.fat_sz32 + sector < 2 ^ 32
      → byte_at R (copied v k sector buffer) a
        ≡ written
            (byte_at R v)
            ((v.fat_start_sector + k * v.fat32_bpb.fat_sz32 + sector) * 512)
            512
            buffer
            a
  copied_at v k sector a buffer h c =
      let same : u32 (v.fat_start_sector + k * v.fat32_bpb.fat_sz32 + sector)
          ≡ v.fat_start_sector + k * v.fat32_bpb.fat_sz32 + sector =
        omega arith in
      rw (same) (
        R.held-write v.drive (v.fat_start_sector + k * v.fat32_bpb.fat_sz32 + sector) 1 buffer a
          (omega arith) (omega arith))

  copy-succeeds :
      (v : Volume D) (k sector : ℕ) (buffer : Memory)
      → v.fat_start_sector + k * v.fat32_bpb.fat_sz32 + sector < R.capacity
      → v.fat_start_sector + k * v.fat32_bpb.fat_sz32 + sector < 2 ^ 32
      → (D.write_sectors v.drive
          (u32 (v.fat_start_sector + k * v.fat32_bpb.fat_sz32 + sector))
          1
          buffer).0
        ≡ true
  copy-succeeds v k sector buffer h c =
      R.write-succeeds v.drive (u32 (v.fat_start_sector + k * v.fat32_bpb.fat_sz32 + sector)) 1
        buffer (omega arith) (omega arith)

  pub write_copies-succeeds :
      (rounds k sector : ℕ) (buffer : Memory) (v : Volume D)
      → v.fat_start_sector + (k + rounds) * v.fat32_bpb.fat_sz32 ≤ R.capacity
      → sector < v.fat32_bpb.fat_sz32
      → v.fat_start_sector + (k + rounds) * v.fat32_bpb.fat_sz32 ≤ 2 ^ 32
      → ((write_copies rounds k sector buffer v).0 ≡ true)
        × ((write_copies rounds k sector buffer v).1
            ≡ record v { drive = (write_copies rounds k sector buffer v).1.drive })
  unfolding write_copies
  write_copies-succeeds zero k sector buffer v h s c = (refl, refl)
  write_copies-succeeds (suc rounds) k sector buffer v h s c =
      let bound =
        mul-le-mul_right {m = k + 1} {n = k + suc rounds} v.fat32_bpb.fat_sz32 (omega arith) in
      let rest =
        write_copies-succeeds rounds (k + 1) sector buffer (copied v k sector buffer) (omega arith)
          s (omega arith) in
      rw (copy-succeeds v k sector buffer (omega arith) (omega arith)) rest

  -- A copy below the first that is written, or above the last, keeps its bytes, and so does all else there.
  pub write_copies_outside :
      (rounds k sector : ℕ) (buffer : Memory) (v : Volume D) (a : ℕ)
      → v.fat_start_sector + (k + rounds) * v.fat32_bpb.fat_sz32 ≤ R.capacity
      → sector < v.fat32_bpb.fat_sz32
      → v.fat_start_sector + (k + rounds) * v.fat32_bpb.fat_sz32 ≤ 2 ^ 32
      → (a < (v.fat_start_sector + k * v.fat32_bpb.fat_sz32) * 512)
        ⊎ ((v.fat_start_sector + (k + rounds) * v.fat32_bpb.fat_sz32) * 512 ≤ a)
      → byte_at R (write_copies rounds k sector buffer v).1 a ≡ byte_at R v a
  unfolding write_copies
  write_copies_outside zero k sector buffer v a h s c o = refl
  write_copies_outside (suc rounds) k sector buffer v a h s c o =
      let bound =
        mul-le-mul_right {m = k + 1} {n = k + suc rounds} v.fat32_bpb.fat_sz32 (omega arith) in
      let here = copied_at v k sector a buffer (omega arith) (omega arith) in
      let next = copied v k sector buffer in
      rw (copy-succeeds v k sector buffer (omega arith) (omega arith)) (elim o [
        | inl low ↦
            write_copies_outside rounds (k + 1) sector buffer next a (omega arith) s (omega arith)
              (inl (omega arith))
            ∙ ground arith
        | inr high ↦
            write_copies_outside rounds (k + 1) sector buffer next a (omega arith) s (omega arith)
              (inr (omega arith))
            ∙ ground arith
      ])

  -- Each copy holds the buffer in the sector that was written, and keeps its other sectors.
  pub write_copies_inside :
      (rounds k sector : ℕ) (buffer : Memory) (v : Volume D) (j t i : ℕ)
      → v.fat_start_sector + (k + rounds) * v.fat32_bpb.fat_sz32 ≤ R.capacity
      → sector < v.fat32_bpb.fat_sz32
      → v.fat_start_sector + (k + rounds) * v.fat32_bpb.fat_sz32 ≤ 2 ^ 32
      → k ≤ j
      → j < k + rounds
      → t < v.fat32_bpb.fat_sz32
      → i < 512
      → byte_at R
          (write_copies rounds k sector buffer v).1
          ((v.fat_start_sector + j * v.fat32_bpb.fat_sz32 + t) * 512 + i)
        ≡ (if t == sector
            then buffer i
            else byte_at R v ((v.fat_start_sector + j * v.fat32_bpb.fat_sz32 + t) * 512 + i))
  unfolding write_copies
  write_copies_inside zero k sector buffer v j t i h s c lo hi ht hi' = absurd (omega arith)
  write_copies_inside (suc rounds) k sector buffer v j t i h s c lo hi ht small =
      let size = v.fat32_bpb.fat_sz32 in
      let bound = mul-le-mul_right {m = k + 1} {n = k + suc rounds} size (omega arith) in
      let a = (v.fat_start_sector + j * size + t) * 512 + i in
      let here = copied_at v k sector a buffer (omega arith) (omega arith) in
      let next = copied v k sector buffer in
      rw (copy-succeeds v k sector buffer (omega arith) (omega arith)) (elim (ℕ_discrete k j) [
        | yes e ↦
            let product = ap (λ x. x * size) e in
            write_copies_outside rounds (k + 1) sector buffer next a (omega arith) s (omega arith)
              (inl (omega arith))
            ∙ here
            ∙ elim (ℕ_discrete t sector) [
              | yes same ↦
                  let offset : a - (v.fat_start_sector + k * size + sector) * 512 ≡ i =
                    omega arith in
                  let start : (v.fat_start_sector + k * size + sector) * 512 ≤ a = omega arith in
                  let stop : a < (v.fat_start_sector + k * size + sector) * 512 + 512 =
                    omega arith in
                  ground arith
              | no other ↦ ground arith
            ]
        | no ne ↦
            let above = mul-le-mul_right {m = k + 1} {n = j} size (omega arith) in
            write_copies_inside rounds (k + 1) sector buffer next j t i (omega arith) s
              (omega arith) (omega arith) (omega arith) ht small
            ∙ ground arith
      ])

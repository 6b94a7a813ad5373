-- ===== src/Ahci/Slots.antt =====
-- The slot that `find_free_command_slot` chooses.
use text_os.Common.{
  ℕ, zero, suc, ◌+◌, ◌/◌, ◌%◌, ◌^◌, ◌<◌, ◌≡◌, ◌⊎◌, inl, inr, refl, sym, ap, ◌∙◌, ℕ_discrete, ne→==,
  arith, negate, bit_and, bit_or,
}
use text_os.Common.Bits.{bit_or_lowest, bit_and_mask}
use Prim.Native.Nat.{max}
use native.Mathlib.Nat.{pow-suc, div-div-eq-div-mul}
use text_os.Ahci.{
  Hba, Machine, read_mem32, free_slot_from, find_free_command_slot, port_ci, port_sact,
}

abbrev pub bit : ℕ → ℕ → ℕ
bit n i = n / 2 ^ i % 2

bit-suc : (n i : ℕ) → bit n (suc i) ≡ bit (n / 2) i
bit-suc n i =
    ap (λ (t : ℕ). t % 2)
      (ap (λ (t : ℕ). n / t) (pow-suc 2 i ∙ omega arith) ∙ sym (div-div-eq-div-mul n 2 (2 ^ i)))

-- A bit of a union is clear where both bits are, and set otherwise.
bit-bit_or : (i a b : ℕ) → bit (bit_or a b) i ≡ max (bit a i) (bit b i)
bit-bit_or zero a b = ground (arith, bit_or_lowest a b)
bit-bit_or (suc i) a b =
    let halves : bit_or a b / 2 ≡ bit_or (a / 2) (b / 2) = omega (arith, bit_or_lowest a b) in
    rw (bit-suc (bit_or a b) i, bit-suc a i, bit-suc b i, halves) (bit-bit_or i (a / 2) (b / 2))

-- A slot is busy while one of the two registers has its bit.
abbrev pub IsBusy : ℕ → ℕ → ℕ → Type 0
IsBusy ci sact i = (bit ci i ≡ 1) ⊎ (bit sact i ≡ 1)

-- The first of 32 slots that is not busy, or -1 if all of them are.
abbrev pub FirstFree : ℕ → ℕ → ℕ → Type 0
FirstFree ci sact r =
    ((r < 32) × (bit ci r ≡ 0) × (bit sact r ≡ 0) × ((j : ℕ) → j < r → IsBusy ci sact j))
    ⊎ ((r ≡ negate 1) × ((j : ℕ) → j < 32 → IsBusy ci sact j))

test_slot : (ci sact i : ℕ) → bit_and (bit_or ci sact / 2 ^ i) 1 ≡ max (bit ci i) (bit sact i)
test_slot ci sact i = bit_and_mask 1 (bit_or ci sact / 2 ^ i) ∙ bit-bit_or i ci sact

below_suc :
    (ci sact i : ℕ)
    → ((j : ℕ) → j < i → IsBusy ci sact j)
    → IsBusy ci sact i
    → (j : ℕ) → j < i + 1
    → IsBusy ci sact j
below_suc ci sact i h here j lt = elim (ℕ_discrete j i) [
  | yes e ↦ rw e here
  | no ne ↦ h j (omega arith)
]

free_slot_from-FirstFree :
    (rounds i ci sact : ℕ)
    → i + rounds ≡ 32
    → ((j : ℕ) → j < i → IsBusy ci sact j)
    → FirstFree ci sact (free_slot_from rounds i (bit_or ci sact))
unfolding free_slot_from
free_slot_from-FirstFree zero i ci sact e h = inr (refl, λ j lt. h j (omega arith))
free_slot_from-FirstFree (suc rounds) i ci sact e h =
    let test = test_slot ci sact i in
    elim (ℕ_discrete (max (bit ci i) (bit sact i)) 0) [
      | yes z ↦ rw (test, z) (inl (omega arith, omega (arith, z), omega (arith, z), h))
      | no nz ↦
          rw (test, ne→== (max (bit ci i) (bit sact i)) 0 nz)
            (free_slot_from-FirstFree rounds (i + 1) ci sact (omega arith)
              (below_suc ci sact i h (ground arith)))
    ]

-- `find_free_command_slot` reads PORT_CI and then PORT_SACT and returns the first of the 32 slots whose
-- bit is clear in both, or -1 if each of them has a bit set.
pub find_free_command_slot-FirstFree :
    {H : Hba} (m : Machine H) (port_addr : ℕ)
    → let ci = read_mem32 m (port_addr + port_ci) in
      let sact = read_mem32 ci.1 (port_addr + port_sact) in
      FirstFree ci.0 sact.0 (find_free_command_slot m port_addr).0
      × ((find_free_command_slot m port_addr).1 ≡ sact.1)
unfolding find_free_command_slot
find_free_command_slot-FirstFree m port_addr =
    let ci = read_mem32 m (port_addr + port_ci) in
    let sact = read_mem32 ci.1 (port_addr + port_sact) in
    (free_slot_from-FirstFree 32 0 ci.0 sact.0 refl (λ j lt. absurd (omega arith)), refl)

-- ===== src/Ahci/Waiting.antt =====
-- The loop of `wait_for_clear`: it ends with the first read that shows the bits clear.
use text_os.Common.{
  ℕ, zero, suc, ◌*◌, ◌<◌, ◌≡◌, ◌≢◌, ◌⊎◌, inl, inr, refl, ℕ_discrete, ne→==, arith, negate, bit_and,
}
use text_os.Memory.{Memory}
use text_os.Ahci.{Hba, Machine, read_mem32, wait_rounds, wait_for_clear}

-- `n` reads of a register show a bit of the mask set, and the next shows all of them clear.
pub data ClearsAfter (H : Hba) (a mask : ℕ)
    : ℕ → H.Controller × Memory → H.Controller × Memory → Type 0 where
  clear :
      {s s' : H.Controller × Memory}
      → (v : ℕ) → H.read a s ≡ (v, s')
      → bit_and v mask ≡ 0
      → ClearsAfter H a mask 0 s s'
  still :
      {n : ℕ} {s t s' : H.Controller × Memory}
      → (v : ℕ) → H.read a s ≡ (v, t)
      → bit_and v mask ≢ 0
      → ClearsAfter H a mask n t s'
      → ClearsAfter H a mask (suc n) s s'

-- That many reads all show a bit of the mask set.
pub data StaysSet (H : Hba) (a mask : ℕ)
    : ℕ → H.Controller × Memory → H.Controller × Memory → Type 0 where
  start : {s : H.Controller × Memory} → StaysSet H a mask 0 s s
  again :
      {n : ℕ} {s t s' : H.Controller × Memory}
      → (v : ℕ) → H.read a s ≡ (v, t)
      → bit_and v mask ≢ 0
      → StaysSet H a mask n t s'
      → StaysSet H a mask (suc n) s s'

module _ {H : Hba} where
  -- A machine with the controller and the memory of `s`.
  abbrev pub with_bus : Machine H → H.Controller × Memory → Machine H
  with_bus m s = record m { controller = s.0; memory = s.1 }

  pub wait_rounds-ClearsAfter :
      {n : ℕ} {s' : H.Controller × Memory} (rounds : ℕ) (m : Machine H) (a mask : ℕ)
      → ClearsAfter H a mask n (m.controller, m.memory) s'
      → n < rounds
      → wait_rounds rounds m a mask ≡ (0, with_bus m s')
  unfolding wait_rounds read_mem32
  wait_rounds-ClearsAfter zero m a mask c h = absurd (omega arith)
  wait_rounds-ClearsAfter (suc rounds) m a mask (clear v e z) h = rw (e, z) refl
  wait_rounds-ClearsAfter (suc rounds) m a mask (still {t = t} v e nz c) h = rw e (
      rw (ne→== (bit_and v mask) 0 nz)
        (wait_rounds-ClearsAfter rounds (with_bus m t) a mask c (omega arith)))

  -- The wait ended within its rounds, or all of them were in vain.
  abbrev pub Waited : Machine H → ℕ → ℕ → ℕ → ℕ × Machine H → Type 0
  Waited m a mask rounds r =
      ((n : ℕ) × (s' : H.Controller × Memory) × (n < rounds)
        × ClearsAfter H a mask n (m.controller, m.memory) s'
        × (r ≡ (0, with_bus m s')))
      ⊎ ((s' : H.Controller × Memory) × StaysSet H a mask rounds (m.controller, m.memory) s'
          × (r ≡ (negate 1, with_bus m s')))

  wait_rounds-Waited :
      (rounds : ℕ) (m : Machine H) (a mask : ℕ)
      → Waited m a mask rounds (wait_rounds rounds m a mask)
  unfolding wait_rounds read_mem32
  wait_rounds-Waited zero m a mask = inr ((m.controller, m.memory), start, refl)
  wait_rounds-Waited (suc rounds) m a mask =
      let r = H.read a (m.controller, m.memory) in
      elim (ℕ_discrete (bit_and r.0 mask) 0) [
        | yes z ↦ inl (0, r.1, omega arith, clear r.0 refl z, rw z refl)
        | no nz ↦ elim (wait_rounds-Waited rounds (with_bus m r.1) a mask) [
          | inl (n, s', lt, c, e) ↦
              inl
                (suc n, s', omega arith, still r.0 refl nz c, rw (ne→== (bit_and r.0 mask) 0 nz) e)
          | inr (s', c, e) ↦ inr (s', again r.0 refl nz c, rw (ne→== (bit_and r.0 mask) 0 nz) e)
        ]
      ]

  -- `wait_for_clear` returns 0 with the first of `10 * timeout_ms` reads that shows the bits of the mask
  -- clear; otherwise each of these reads showed one of them set, and it returns -1 behind the last. It
  -- changes nothing but what the reads change.
  pub wait_for_clear-Waited :
      (m : Machine H) (reg_addr mask timeout_ms : ℕ)
      → Waited m reg_addr mask (timeout_ms * 10) (wait_for_clear m reg_addr mask timeout_ms)
  unfolding wait_for_clear
  wait_for_clear-Waited m reg_addr mask timeout_ms =
      wait_rounds-Waited (timeout_ms * 10) m reg_addr mask

-- ===== src/Ahci/ArrayPort.antt =====
-- A port without faults that serves each command at once from an array of 16 sectors.
use Prim.Native.Nat.{bit_and-bitwise}
use mathlib.Core.Path.{subst}
use text_os.Common.{
  ℕ, zero, suc, ◌+◌, ◌*◌, ◌/◌, ◌%◌, ◌^◌, ◌<◌, ◌≤◌, ◌≡◌, ◌⊎◌, inl, inr, refl, ◌∙◌, sym, Bool,
  Bool-cases, true, Option, none, some, arith, ◌==◌, ==_iff, ne→==, if◌then◌else◌, u32, bit_and,
}
use text_os.Common.Bits.{every_below, every_below_sound}
use text_os.Memory.{Memory, store32}
use text_os.Memory.Words.{load32-store32, store32_apart}
use text_os.Drive.{written}
use text_os.Ahci.{Hba}
use text_os.Ahci.Decode.{Request, decode}
use text_os.Ahci.Waiting.{clear}
use text_os.Ahci.Controller.{IsReliablePort, is_setting, Executed, Served}

pub record ArrayPort : Type 0 where
  pub sectors : Memory
  pub list : ℕ

abbrev pub status : ℕ → ℕ
status a = if a == 0x118 then 0x11 else if a == 0x128 then 0x103 else 0

unfoldable pub slot_of : ℕ → ℕ → ℕ
slot_of zero v = 0
slot_of (suc n) v = if v == 2 ^ n then n else slot_of n v

slot_of-pow_table : every_below 32 (λ slot. slot_of 32 (u32 (2 ^ slot)) == slot) ≡ true
unfolding every_below slot_of
slot_of-pow_table = refl

slot_of-pow : (slot : ℕ) → slot < 32 → slot_of 32 (u32 (2 ^ slot)) ≡ slot
slot_of-pow slot h =
    (==_iff _ slot).0
      (every_below_sound 32 (λ k. slot_of 32 (u32 (2 ^ k)) == k) slot slot_of-pow_table h)

-- A request on the sectors, and on the memory with the header of its command.
abbrev pub executed : Request → ℕ → ArrayPort × Memory → ArrayPort × Memory
executed r header (c, m) =
    if r.is_write
    then (
      record c { sectors = written c.sectors (r.lba * 512) r.bytes (λ i. m (r.address + i)) },
      store32 m (header + 4) r.bytes,
    )
    else (
      c,
      store32 (written m r.address r.bytes (λ i. c.sectors (r.lba * 512 + i))) (header + 4) r.bytes,
    )

abbrev pub attempt : Option Request → ℕ → ArrayPort × Memory → ArrayPort × Memory
attempt none header s = s
attempt (some r) header s = executed r header s

abbrev pub serve : ℕ → ArrayPort × Memory → ArrayPort × Memory
serve slot (c, m) = attempt (decode m c.list slot) (c.list + slot * 32) (c, m)

abbrev pub array_write : ℕ → ℕ → ArrayPort × Memory → ArrayPort × Memory
array_write a v (c, m) =
    if a == 0x100
    then (record c { list = c.list / 2 ^ 32 * 2 ^ 32 + v }, m)
    else if a == 0x104
    then (record c { list = v * 2 ^ 32 + c.list % 2 ^ 32 }, m)
    else if a == 0x138
    then serve (slot_of 32 v) (c, m)
    else (c, m)

abbrev pub array_hba : Hba
array_hba = record { Controller = ArrayPort; read = λ a s. (status a, s); write = array_write }

served_at_once :
    (c : ArrayPort) (m : Memory) (list slot : ℕ) (r : Request)
    → c.list ≡ list
    → slot < 32
    → decode m list slot ≡ some r
    → array_write 0x138 (u32 (2 ^ slot)) (c, m) ≡ executed r (list + slot * 32) (c, m)
served_at_once c m list slot r e h d = rw (slot_of-pow slot h, e, d) refl

bit_and-zero_left : (a : ℕ) → bit_and 0 a ≡ 0
bit_and-zero_left a = omega (arith, bit_and-bitwise 0 a)

executed-Executed :
    (c : ArrayPort) (m : Memory) (header : ℕ) (r : Request)
    → r.bytes < 2 ^ 32
    → (header + 32 ≤ r.address) ⊎ (r.address + r.bytes ≤ header)
    → Executed r header c.sectors m
        (executed r header (c, m)).0.sectors
        (executed r header (c, m)).1
executed-Executed c m header r small apart = record {
  transferred = elim (Bool-cases r.is_write) [
    | inl w ↦ rw w (load32-store32 m (header + 4) r.bytes small)
    | inr w ↦ rw w (load32-store32 _ (header + 4) r.bytes small)
  ];
  reads = λ w. (
    λ i lt.
        rw w (store32_apart _ (header + 4) (r.address + i) r.bytes (ground arith) ∙ ground arith),
    rw w refl,
  );
  writes = λ w x. rw w refl;
}

pub array_write-setting :
    (c : ArrayPort) (m : Memory) (r v : ℕ)
    → is_setting r ≡ true
    → ◌≡◌ {A = Bool} true true
      × ((array_write (0x100 + r) v (c, m)).0.sectors ≡ c.sectors)
      × ((array_write (0x100 + r) v (c, m)).0.list ≡ c.list)
      × ((array_write (0x100 + r) v (c, m)).1 ≡ m)
array_write-setting c m r v setting =
    rw
      (
        ne→== (0x100 + r) 0x100 (ground arith),
        ne→== (0x100 + r) 0x104 (ground arith),
        ne→== (0x100 + r) 0x138 (ground arith),
      )
      (refl, refl, refl, refl)

pub array_serves :
    (c : ArrayPort) (m : Memory) (list slot : ℕ) (r : Request)
    → c.list ≡ list
    → slot < 32
    → decode m list slot ≡ some r
    → r.bytes < 2 ^ 32
    → (list + slot * 32 + 32 ≤ r.address) ⊎ (r.address + r.bytes ≤ list + slot * 32)
    → (s : Served array_hba 0x100 slot (array_write 0x138 (u32 (2 ^ slot)) (c, m))) × (◌≡◌
        {A = Bool} true true)
      × Executed r (list + slot * 32) c.sectors m s.final.0.sectors s.final.1
array_serves c m list slot r e h d small apart = (
  record {
    polls = 0;
    final = array_write 0x138 (u32 (2 ^ slot)) (c, m);
    in_time = omega arith;
    clears = clear 0 refl (bit_and-zero_left (u32 (2 ^ slot)));
  },
  refl,
  subst (λ (t : ArrayPort × Memory). Executed r (list + slot * 32) c.sectors m t.0.sectors t.1)
      (sym (served_at_once c m list slot r e h d))
      (executed-Executed c m (list + slot * 32) r small apart),
)

abbrev pub array_port : IsReliablePort array_hba 0x100
array_port = record {
  capacity = 16;
  held = λ c. c.sectors;
  is_idle = λ c. true;
  register = λ c r. status (0x100 + r);
  command_list = λ c. c.list;
  read-idle = λ c m r idle. refl;
  idle_started = λ c idle. refl;
  idle_receives = λ c idle. refl;
  idle_present = λ c idle. refl;
  idle_free = λ c idle. (refl, refl);
  idle_status = λ c idle. (refl, refl);
  write-setting = λ c m r v idle setting. array_write-setting c m r v setting;
  write-clb = λ c m v idle small. (refl, refl, refl, refl);
  write-clbu = λ c m v idle small. (refl, refl, refl, refl);
  serves = λ c m list slot r idle e h d sized there apart.
      array_serves c m list slot r e h d (omega arith) apart;
}

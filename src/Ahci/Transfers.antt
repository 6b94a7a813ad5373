-- ===== src/Ahci/Transfers.antt =====
-- On a port without faults, `read_sectors` and `write_sectors` transfer the sectors they are asked for.
use text_os.Common.{
  ℕ, ◌+◌, ◌-◌, ◌*◌, ◌^◌, ◌<◌, ◌≤◌, ◌≡◌, refl, ap, ◌∙◌, Bool, true, false, arith, u32, List,
}
use text_os.Memory.{Memory}
use text_os.Drive.{written}
use text_os.Ahci.{Hba, Machine, port_ci}
use text_os.Ahci.Commands.{Buffers, transfer, set_up_command, set_base_addresses}
use text_os.Ahci.Ports.{prepare_port_for_command}
use text_os.Ahci.Decode.{Request}
use text_os.Ahci.Building.{
  Apart, AddressFits, direction, command_of, decode-set_up_command, built_elsewhere,
}
use text_os.Ahci.Waiting.{with_bus}
use text_os.Ahci.Controller.{IsReliablePort, Disjoint, Executed, Served}
use text_os.Ahci.Preparing.{
  Kept, Kept-trans, Ready, prepare_port_for_command-Ready, find_free_command_slot-idle,
  set_base_addresses-Kept,
}
use text_os.Ahci.Completing.{issue_and_wait-Served}

-- The static buffers lie apart, in the address space.
pub record IsPlaced (b : Buffers) : Type 0 where
  pub list_in_space : b.cmd_list_buffer < 2 ^ 64
  pub table_in_space : b.cmd_table_buffer < 2 ^ 64
  pub list_apart_table : Disjoint b.cmd_list_buffer 1024 b.cmd_table_buffer 256

-- A buffer of `count` sectors lies in the address space, apart from the command list and table.
pub record IsUsable (b : Buffers) (buffer count : ℕ) : Type 0 where
  pub given : 0 < buffer
  pub in_space : buffer < 2 ^ 64
  pub apart_list : Disjoint b.cmd_list_buffer 1024 buffer (count * 512)
  pub apart_table : Disjoint b.cmd_table_buffer 256 buffer (count * 512)

written_agree :
    (m k : Memory) (at n : ℕ) (f g : Memory) (x : ℕ)
    → m x ≡ k x
    → ((i : ℕ) → i < n → f i ≡ g i)
    → written m at n f x ≡ written k at n g x
written_agree m k at n f g x e h = ground (arith, e, h (x - at))

module _ {H : Hba} {port_addr : ℕ} (P : IsReliablePort H port_addr) where
  -- The end of a transfer of `count` sectors from `lba` on: the port is idle again, and the sectors were
  -- read into the buffer, or the bytes of the buffer, and no others, were written to the sectors.
  pub record Transferred (m m' : Machine H) (write : Bool) (lba count buffer : ℕ) : Type 0 where
    pub idle : P.is_idle m'.controller ≡ true
    pub flag : m'.lba48_available ≡ m.lba48_available
    pub reads :
        write ≡ false
        → ((i : ℕ) → i < count * 512 → m'.memory (buffer + i) ≡ P.held m.controller (lba * 512 + i))
          × (P.held m'.controller ≡ P.held m.controller)
    pub writes :
        write ≡ true
        → (x : ℕ)
        → P.held m'.controller x
          ≡ written (P.held m.controller) (lba * 512) (count * 512) (λ i. m.memory (buffer + i)) x

  module _ (b : Buffers) (placed : IsPlaced b) (m : Machine H) (write wide : Bool)
      (port lba count buffer : ℕ) (idle : P.is_idle m.controller ≡ true)
      (usable : IsUsable b buffer count) (positive : 0 < count) (limit : count ≤ 128)
      (fits : AddressFits wide lba) (there : lba + count ≤ P.capacity) where
    abbrev prepared : Machine H
    prepared = (prepare_port_for_command m port_addr port).1

    ready : Ready P m (prepare_port_for_command m port_addr port)
    ready = prepare_port_for_command-Ready P m port idle

    abbrev placed_base : Machine H
    placed_base = set_base_addresses b prepared port_addr

    base : Kept P prepared placed_base × (P.command_list placed_base.controller ≡ b.cmd_list_buffer)
    base = set_base_addresses-Kept P b prepared ready.1.idle placed.list_in_space

    abbrev command_memory : Memory
    command_memory =
        set_up_command placed_base.memory (b.cmd_list_buffer + 0 * 32) (direction write)
          b.cmd_table_buffer (command_of write wide) lba count wide buffer

    abbrev request : Request
    request = record {
      is_write = write;
      lba = lba;
      count = count;
      address = buffer;
      bytes = count * 512;
    }

    apart : Apart (b.cmd_list_buffer + 0 * 32) b.cmd_table_buffer
    apart = ground (arith, placed.list_apart_table)

    served :
        (s : Served H port_addr 0
          (H.write (port_addr + port_ci) (u32 (2 ^ 0)) (placed_base.controller, command_memory)))
        × (P.is_idle s.final.0 ≡ true)
        × Executed request
            (b.cmd_list_buffer + 0 * 32)
            (P.held placed_base.controller)
            command_memory
            (P.held s.final.0)
            s.final.1
    served =
        P.serves placed_base.controller command_memory b.cmd_list_buffer 0 request base.0.idle
          base.1 (omega arith)
          (decode-set_up_command placed_base.memory b.cmd_list_buffer 0 b.cmd_table_buffer lba count
            buffer write wide apart placed.table_in_space usable.in_space positive limit fits)
          refl there (ground (arith, usable.apart_list))

    abbrev finished : Machine H
    finished = with_bus placed_base served.0.final

    transfer_result :
        (verb : List ℕ)
        → transfer b m verb
            (direction write)
            port_addr
            port
            lba
            count
            buffer
            (command_of write wide)
            wide
          ≡ (0, finished)
    unfolding transfer
    transfer_result verb =
        let small : count * 512 ≡ u32 (count * 512) = omega arith in
        let set_up = record placed_base { memory = command_memory } in
        rw
          (
            ready.0,
            find_free_command_slot-idle P prepared ready.1.idle,
            issue_and_wait-Served P set_up 0 (b.cmd_list_buffer + 0 * 32) (u32 (count * 512))
                base.0.idle served.0 served.1 (served.2.transferred ∙ small) (omega arith),
          )
          refl

    kept : Kept P m placed_base
    kept = Kept-trans P ready.1 base.0

    -- The bytes of the buffer are those that the caller put there.
    same_bytes : (i : ℕ) → i < count * 512 → command_memory (buffer + i) ≡ m.memory (buffer + i)
    unfolding set_up_command
    same_bytes i lt =
        built_elsewhere placed_base.memory (b.cmd_list_buffer + 0 * 32) b.cmd_table_buffer
          (direction write) (command_of write wide) lba count wide buffer apart (buffer + i)
          (ground (arith, usable.apart_list)) (ground (arith, usable.apart_table))
        ∙ ap (λ (k : Memory). k (buffer + i)) kept.bytes

    finished-Transferred : Transferred m finished write lba count buffer
    finished-Transferred = record {
      idle = served.1;
      flag = kept.flag;
      reads = λ r.
          let e = served.2.reads r in
          (
            λ i lt. e.0 i lt ∙ ap (λ (k : Memory). k (lba * 512 + i)) kept.sectors,
            e.1 ∙ kept.sectors,
          );
      writes = λ w x.
          served.2.writes w x
          ∙ written_agree (P.held placed_base.controller) (P.held m.controller) (lba * 512)
              (count * 512) (λ i. command_memory (buffer + i)) (λ i. m.memory (buffer + i)) x
              (ap (λ (k : Memory). k x) kept.sectors) same_bytes;
    }

    -- The transfer succeeds and does what it was asked for.
    pub transfer-Transferred :
        (verb : List ℕ)
        → (m' : Machine H) × (transfer b m verb
              (direction write)
              port_addr
              port
              lba
              count
              buffer
              (command_of write wide)
              wide
            ≡ (0, m'))
          × Transferred m m' write lba count buffer
    transfer-Transferred verb = (finished, transfer_result verb, finished-Transferred)

-- ===== src/MmioBus/Tests.antt =====
-- mmio/MMIO_Bus_AXI4.cpp at concrete inputs, with a UART on the bus.
use axi_interconnect_kit.Axi.{Io, quiet, resp_decerr}
use axi_interconnect_kit.MmioDevice.{Devices}
use axi_interconnect_kit.Uart.{Uart}
use axi_interconnect_kit.Uart
use axi_interconnect_kit.MmioBus.{Bus, Region, accept_w, no_read, no_write, no_resp, beat_addr}
use axi_interconnect_kit.MmioBus.Invariant.{
  IsValid, IsWire, AllWire, run, writes_taken, writes_answered, in_hand, run-in_hand,
}
use axi_interconnect_kit.MmioBus.Progress.{run-read_ends, beats_given}
use axi_interconnect_kit.MmioBus.Decode.{accept_w-Unmapped, Unmapped}
use axi_interconnect_kit.Prelude.{List, [], arith, false, refl, some, true, ℕ, ◌+◌, ◌<◌, ◌∷◌, ◌≡◌}

abbrev uart_base : ℕ
uart_base = 0x10000000

-- One device, the UART, whose `tick` does nothing.
abbrev devices : Devices
devices = record {
  State = Uart;
  read = λ _ addr len s. (Uart.read addr len s, s);
  write = λ _ addr bytes wstrb s. Uart.write addr bytes wstrb s;
  tick = λ _ s. s;
}

abbrev uart : Uart
uart = Uart.new uart_base

abbrev uart_region : Region
uart_region = record { base = uart_base; size = 0x100; dev = some 0 }

abbrev shadowed : Region
shadowed = record { base = uart_base; size = 0x1000; dev = some 1 }

-- The bus with the UART mapped and nothing pending.
abbrev resting : Bus
resting = record {
  regions = uart_region ∷ [];
  r_pending = no_read;
  w_pending = no_write;
  w_resp = no_resp;
  io = quiet;
}

-- A read burst of two 4-byte beats, its first beat still to be built, at a base address.
abbrev reading : ℕ → Bus
reading addr = record resting {
  r_pending = record no_read { active = true; id = 4; addr = addr; len = 1; size = 2; burst = 1 };
}

-- The last beat of a write burst at an address that nothing maps, as W shows it.
abbrev writing : Bus
writing = record resting {
  w_pending = record no_write { active = true; id = 7; addr = 0x20000000; size = 2; burst = 1 };
  io = record quiet {
    w = record (quiet.w) { wvalid = true; wready = true; wdata = 5; wstrb = 1; wlast = true };
  };
}

-- A master that writes one byte to THR, ready for the response.
abbrev putting : Io
putting = record quiet {
  aw = record (quiet.aw) { awvalid = true; awid = 7; awaddr = uart_base; awsize = 2 };
  w = record (quiet.w) { wvalid = true; wdata = b'h'; wstrb = 1; wlast = true };
  b = record (quiet.b) { bready = true };
}

-- A master that only waits for read data.
abbrev waiting : Io
waiting = record quiet { r = record (quiet.r) { rready = true } }

abbrev four_cycles : List Io
four_cycles = waiting ∷ waiting ∷ waiting ∷ waiting ∷ []

resting-IsValid : IsValid resting
resting-IsValid = ground arith

reading-IsValid : (addr : ℕ) → IsValid (reading addr)
reading-IsValid addr = ground arith

wires : (m : Io) → m.ar.arlen < 256 → m.aw.awlen < 256 → IsWire m
wires m a w = record { arlen_byte = a; awlen_byte = w }

putting-IsWire : IsWire putting
putting-IsWire = wires putting (omega arith) (omega arith)

four_cycles-AllWire : AllWire four_cycles
four_cycles-AllWire = let h = wires waiting (omega arith) (omega arith) in (h, (h, (h, (h, tt))))

run-in_hand_example :
    let ms = putting ∷ putting ∷ putting ∷ [] in
    writes_answered devices 32 ms (resting, uart)
      + in_hand devices 32 (run devices 32 ms (resting, uart)).0
    ≡ 0 + writes_taken devices 32 ms (resting, uart)
run-in_hand_example =
    run-in_hand devices 32 (putting ∷ putting ∷ putting ∷ []) resting uart resting-IsValid
      (putting-IsWire, (putting-IsWire, (putting-IsWire, tt)))

run-read_ends_example :
    let s = reading 0x10000004 in
    ((run devices 32 four_cycles (s, uart)).0.r_pending.active ≡ false)
    × (beats_given devices 32 four_cycles (s, uart) ≡ 2)
run-read_ends_example =
    run-read_ends devices 32 four_cycles (reading 0x10000004) uart (reading-IsValid 0x10000004)
      four_cycles-AllWire (refl, (refl, (refl, (refl, tt)))) refl

-- Address 0x20000000 lies outside the UART's region.
nowhere : Unmapped 0x20000000 (uart_region ∷ [])
nowhere = ((λ h. absurd (omega arith)), tt)

accept_w-Unmapped_example :
    let t = (accept_w devices 32 (writing, uart)).0 in
    ((accept_w devices 32 (writing, uart)).1 ≡ uart)
    × (t.w_pending.active ≡ false)
    × (t.w_resp.active ≡ true)
    × (t.w_resp.resp ≡ resp_decerr)
    × (t.w_resp.id ≡ 7)
unfolding beat_addr
accept_w-Unmapped_example = accept_w-Unmapped devices 32 writing uart refl refl refl nowhere

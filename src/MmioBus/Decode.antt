-- ===== src/MmioBus/Decode.antt =====
-- mmio/MMIO_Bus_AXI4.cpp: from an address to its device.
use axi_interconnect_kit.Prelude.Words.{u32, put_byte}
use axi_interconnect_kit.Axi.{resp_decerr}
use axi_interconnect_kit.MmioDevice.{Devices}
use axi_interconnect_kit.MmioBus.{
  Bus, Region, find_device, beat_addr, beat_bytes, load_bytes, load_beat, device_read, device_write,
  build_read_beat, accept_w,
}
use axi_interconnect_kit.Prelude.{
  List, [], arith, false, if◌then◌else◌, none, refl, suc, true, zero, ℕ, ◌++◌, ◌+◌, ◌<◌, ◌==◌, ◌||◌,
  ◌∷◌, ◌≡◌, ◌≤◌, not,
}

abbrev pub Holds : ℕ → Region → Type 0
Holds addr r = (r.base ≤ addr) × (addr < u32 (r.base + r.size))

-- No region holds the address.
abbrev pub Unmapped : ℕ → List Region → Type 0
Unmapped addr [] = Unit
Unmapped addr (r ∷ rest) = (Holds addr r → ⊥) × Unmapped addr rest

pub find_device-none :
    (addr : ℕ) (regions : List Region) → Unmapped addr regions → find_device addr regions ≡ none
unfolding find_device
find_device-none addr [] h = refl
find_device-none addr (r ∷ rest) h = ground (arith, find_device-none addr rest h.1)

-- The first of the regions that hold an address takes it, whatever is mapped behind it.
pub find_device-first :
    (addr : ℕ) (front back : List Region) (r : Region)
    → Unmapped addr front
    → Holds addr r
    → find_device addr (front ++ r ∷ back) ≡ r.dev
unfolding find_device
find_device-first addr [] back r u h = ground arith
find_device-first addr (f ∷ front) back r u h =
    ground (arith, find_device-first addr front back r u.1 h)

put_byte-zero : (i : ℕ) → put_byte 0 i 0 ≡ 0
unfolding put_byte
put_byte-zero zero = refl
put_byte-zero (suc i) = omega (arith, put_byte-zero i)

load_bytes-nil : (i n : ℕ) → load_bytes [] i n 0 ≡ 0
unfolding load_bytes
load_bytes-nil i zero = refl
load_bytes-nil i (suc n) = rw (put_byte-zero i) (load_bytes-nil (i + 1) n)

module _ (devices : Devices) (width : ℕ) where
  open devices use {State}

  -- A read beat at an address that no region holds is answered with DECERR and zero data, and no
  -- device sees it.
  pub build_read_beat-Unmapped :
      (s : Bus) (d : State)
      → s.r_pending.active ≡ true
      → s.r_pending.beat_valid ≡ false
      → Unmapped
          (beat_addr s.r_pending.addr s.r_pending.burst s.r_pending.size s.r_pending.beat_idx)
          s.regions
      → build_read_beat devices width (s, d) ≡ (
        record s {
          r_pending = record (s.r_pending) {
            beat_resp = resp_decerr;
            beat_data = 0;
            beat_valid = true;
          };
        },
        d,
      )
  unfolding build_read_beat device_read load_beat
  build_read_beat-Unmapped s d on fresh u = rw (
    on,
    fresh,
    find_device-none _ s.regions u,
    load_bytes-nil 0 (beat_bytes width s.r_pending.size),
  )

  -- A write beat at an address that no region holds reaches no device. DECERR is then the response
  -- of the burst: at its end the response is due, under the burst's ID and with the burst over, and
  -- before its end the code is kept with the burst.
  pub accept_w-Unmapped :
      (s : Bus) (d : State)
      → s.io.w.wvalid ≡ true
      → s.io.w.wready ≡ true
      → s.w_pending.active ≡ true
      → Unmapped
          (beat_addr s.w_pending.addr s.w_pending.burst s.w_pending.size s.w_pending.beat_idx)
          s.regions
      → let w = s.w_pending in
        let done = s.io.w.wlast || w.beat_idx == w.len in
        let t = (accept_w devices width (s, d)).0 in
        ((accept_w devices width (s, d)).1 ≡ d)
        × (t.w_pending.active ≡ not done)
        × (t.w_resp.active ≡ (done || s.w_resp.active))
        × ((if done then t.w_resp.resp else t.w_pending.resp) ≡ resp_decerr)
        × ((if done then t.w_resp.id else t.w_pending.id) ≡ w.id)
  unfolding accept_w device_write
  accept_w-Unmapped s d v r on u = ground (
    arith,
    find_device-none
        (beat_addr s.w_pending.addr s.w_pending.burst s.w_pending.size s.w_pending.beat_idx)
        s.regions u,
  )

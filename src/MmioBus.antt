-- ===== src/MmioBus.antt =====
-- mmio/MMIO_Bus_AXI4.{h,cpp}: the AXI4 MMIO bus with one read and one write burst at a time. `width`
-- is AXI_DATA_BYTES, the configured bytes of a beat; a device pointer is an index, nullptr is `none`.
pub mod Beats
pub mod Decode
pub mod Invariant
pub mod Progress
pub mod Stable
mod Tests
use axi_interconnect_kit.Prelude.{
  ℕ, Option, Bool, List, false, [], if◌then◌else◌, ◌&&◌, ◌++◌, none, ltb, ◌==◌, leb, true, ◌+◌, not,
  ◌∷◌, ◌^◌, ◌*◌, ◌||◌, get_or, some, suc, zero, ◌%◌, ◌/◌,
}
use axi_interconnect_kit.Prelude.Words.{u8, u32, byte, put_byte}
use axi_interconnect_kit.Axi.{
  Aw, W, B, Ar, R, Io, resp_okay, resp_decerr, burst_fixed, burst_incr, size_code,
}
use axi_interconnect_kit.MmioDevice.{Devices}

-- MMIO_LATENCY.
abbrev pub latency : ℕ
latency = 1

pub record Region : Type 0 where
  pub base : ℕ
  pub size : ℕ
  pub dev : Option ℕ

pub record PendingRead : Type 0 where
  pub active : Bool
  pub id : ℕ
  pub addr : ℕ
  pub len : ℕ
  pub size : ℕ
  pub burst : ℕ
  pub beat_idx : ℕ
  pub latency_cnt : ℕ
  pub beat_valid : Bool
  pub beat_data : ℕ
  pub beat_resp : ℕ

pub record PendingWrite : Type 0 where
  pub active : Bool
  pub id : ℕ
  pub addr : ℕ
  pub len : ℕ
  pub size : ℕ
  pub burst : ℕ
  pub beat_idx : ℕ
  pub resp : ℕ

pub record PendingWriteResp : Type 0 where
  pub active : Bool
  pub id : ℕ
  pub resp : ℕ
  pub latency_cnt : ℕ

pub record Bus : Type 0 where
  pub regions : List Region
  pub r_pending : PendingRead
  pub w_pending : PendingWrite
  pub w_resp : PendingWriteResp
  pub io : Io

abbrev pub no_read : PendingRead
no_read = record {
  active = false;
  id = 0;
  addr = 0;
  len = 0;
  size = 0;
  burst = 0;
  beat_idx = 0;
  latency_cnt = 0;
  beat_valid = false;
  beat_data = 0;
  beat_resp = 0;
}

abbrev pub no_write : PendingWrite
no_write = record {
  active = false;
  id = 0;
  addr = 0;
  len = 0;
  size = 0;
  burst = 0;
  beat_idx = 0;
  resp = 0;
}

abbrev pub no_resp : PendingWriteResp
no_resp = record { active = false; id = 0; resp = 0; latency_cnt = 0 }

-- `init` writes every signal but the two that the master alone drives, `bready` and `rready`.
unfoldable pub init : ℕ → Bus → Bus
unfolding size_code
init width s = record {
  regions = [];
  r_pending = no_read;
  w_pending = no_write;
  w_resp = no_resp;
  io = record {
    aw = record {
      awvalid = false;
      awready = false;
      awid = 0;
      awaddr = 0;
      awlen = 0;
      awsize = size_code width;
      awburst = burst_incr;
    };
    w = record { wvalid = false; wready = false; wdata = 0; wstrb = 0; wlast = false };
    b = record (s.io.b) { bvalid = false; bid = 0; bresp = resp_okay };
    ar = record {
      arvalid = false;
      arready = false;
      arid = 0;
      araddr = 0;
      arlen = 0;
      arsize = size_code width;
      arburst = burst_incr;
    };
    r = record (s.io.r) { rvalid = false; rid = 0; rdata = 0; rresp = resp_okay; rlast = false };
  };
}

unfoldable pub add_device : ℕ → ℕ → Option ℕ → Bus → Bus
add_device base size dev s = record s {
  regions = s.regions ++ record { base = base; size = size; dev = dev } ∷ [];
}

unfoldable pub find_device : ℕ → List Region → Option ℕ
find_device addr [] = none
find_device addr (r ∷ rest) =
    if leb r.base addr && ltb addr (u32 (r.base + r.size)) then r.dev else find_device addr rest

-- `1u << size` is never 0, so the code's test for 0 has no case here.
unfoldable pub beat_bytes : ℕ → ℕ → ℕ
beat_bytes width size =
    let bytes = if ltb size 8 then 2 ^ size else 4 in u8 (if ltb width bytes then width else bytes)

unfoldable pub beat_addr : ℕ → ℕ → ℕ → ℕ → ℕ
beat_addr base_addr burst size beat_idx =
    if burst == burst_fixed then base_addr else u32 (base_addr + u32 (beat_idx * 2 ^ size))

-- The loops from byte `i`, with `n` bytes left.
unfoldable pub load_bytes : List ℕ → ℕ → ℕ → ℕ → ℕ
load_bytes p i zero value = value
load_bytes p i (suc n) value = load_bytes p (i + 1) n (put_byte value i (get_or p i 0))

unfoldable pub load_beat : List ℕ → ℕ → ℕ
unfolding load_bytes
load_beat p nbytes = load_bytes p 0 nbytes 0

unfoldable pub store_bytes : ℕ → ℕ → ℕ → List ℕ
store_bytes v i zero = []
store_bytes v i (suc n) = byte v i ∷ store_bytes v (i + 1) n

unfoldable pub store_beat : ℕ → ℕ → List ℕ
unfolding store_bytes
store_beat v nbytes = store_bytes v 0 nbytes

-- The bits of `wstrb` below `n`: bit `i` is set for each strobed lane `i`.
unfoldable pub local_wstrb : ℕ → ℕ → ℕ
local_wstrb wstrb zero = 0
local_wstrb wstrb (suc n) = wstrb % 2 + 2 * local_wstrb (wstrb / 2) n

unfoldable pub comb_outputs : Bus → Bus
comb_outputs s =
    let r = s.r_pending in
    let give = r.active && r.beat_valid in
    let answer = s.w_resp.active && leb latency s.w_resp.latency_cnt in
    record s {
      io = record {
        aw = record (s.io.aw) { awready = not s.w_pending.active && not s.w_resp.active };
        w = record (s.io.w) { wready = s.w_pending.active };
        b = record (s.io.b) {
          bvalid = answer;
          bid = if answer then s.w_resp.id else 0;
          bresp = if answer then s.w_resp.resp else resp_okay;
        };
        ar = record (s.io.ar) { arready = not r.active };
        r = record (s.io.r) {
          rvalid = give;
          rid = if give then r.id else 0;
          rdata = if give then r.beat_data else 0;
          rresp = if give then r.beat_resp else resp_okay;
          rlast = give && r.beat_idx == r.len;
        };
      };
    }

-- A no-op in the source too.
unfoldable pub comb_inputs : Bus → Bus
comb_inputs s = s

unfoldable pub accept_ar : Bus → Bus
accept_ar s =
    if s.io.ar.arvalid && s.io.ar.arready
    then record s {
      r_pending = record {
        active = true;
        id = s.io.ar.arid;
        addr = s.io.ar.araddr;
        len = s.io.ar.arlen;
        size = s.io.ar.arsize;
        burst = s.io.ar.arburst;
        beat_idx = 0;
        latency_cnt = 0;
        beat_valid = false;
        beat_data = 0;
        beat_resp = resp_okay;
      };
    }
    else s

unfoldable pub consume_r : Bus → Bus
consume_r s =
    let r = s.r_pending in
    if s.io.r.rvalid && (s.io.r.rready && (r.active && r.beat_valid))
    then (if s.io.r.rlast
        then record s { r_pending = record r { active = false; beat_valid = false } }
        else record s {
          r_pending = record r {
            beat_idx = u8 (r.beat_idx + 1);
            latency_cnt = 0;
            beat_valid = false;
            beat_data = 0;
            beat_resp = resp_okay;
          };
        })
    else s

unfoldable pub accept_aw : Bus → Bus
accept_aw s =
    if s.io.aw.awvalid && s.io.aw.awready
    then record s {
      w_pending = record {
        active = true;
        id = s.io.aw.awid;
        addr = s.io.aw.awaddr;
        len = s.io.aw.awlen;
        size = s.io.aw.awsize;
        burst = s.io.aw.awburst;
        beat_idx = 0;
        resp = resp_okay;
      };
    }
    else s

unfoldable pub age_resp : Bus → Bus
age_resp s =
    if s.w_resp.active && ltb s.w_resp.latency_cnt latency
    then record s { w_resp = record (s.w_resp) { latency_cnt = s.w_resp.latency_cnt + 1 } }
    else s

unfoldable pub consume_b : Bus → Bus
consume_b s =
    if s.io.b.bvalid && (s.io.b.bready && s.w_resp.active)
    then record s { w_resp = record (s.w_resp) { active = false } }
    else s

module _ (devices : Devices) (width : ℕ) where
  open devices use {State, read, write, tick}

  -- The device's answer, or none from an address that no region maps: the response and the buffer.
  unfoldable pub device_read : Option ℕ → ℕ → ℕ → State → (ℕ × List ℕ) × State
  device_read none addr n d = ((resp_decerr, []), d)
  device_read (some dev) addr n d = let (bytes, d') = read dev addr n d in ((resp_okay, bytes), d')

  unfoldable pub build_read_beat : Bus × State → Bus × State
  build_read_beat (s, d) =
      let r = s.r_pending in
      if not r.active || r.beat_valid
      then (s, d)
      else let n = beat_bytes width r.size in
        let addr = beat_addr r.addr r.burst r.size r.beat_idx in
        let (answer, d') = device_read (find_device addr s.regions) addr n d in
        (
          record s {
            r_pending = record r {
              beat_resp = answer.0;
              beat_data = load_beat answer.1 n;
              beat_valid = true;
            };
          },
          d',
        )

  unfoldable pub progress_read : Bus × State → Bus × State
  unfolding build_read_beat
  progress_read (s, d) =
      let r = s.r_pending in
      if r.active && not r.beat_valid
      then (let cnt = if ltb r.latency_cnt latency then r.latency_cnt + 1 else r.latency_cnt in
          let s' = record s { r_pending = record r { latency_cnt = cnt } } in
          if leb latency cnt then build_read_beat (s', d) else (s', d))
      else (s, d)

  -- The device's side of a W beat, and the response code that is pending after it.
  unfoldable pub device_write : Option ℕ → ℕ → List ℕ → ℕ → ℕ × State → ℕ × State
  device_write none addr bytes strb (resp, d) = (resp_decerr, d)
  device_write (some dev) addr bytes strb (resp, d) = (resp, write dev addr bytes strb d)

  unfoldable pub accept_w : Bus × State → Bus × State
  accept_w (s, d) =
      let w = s.w_pending in
      if s.io.w.wvalid && (s.io.w.wready && w.active)
      then (let addr = beat_addr w.addr w.burst w.size w.beat_idx in
          let n = beat_bytes width w.size in
          let (resp, d') =
            device_write (find_device addr s.regions) addr (store_beat s.io.w.wdata n)
              (local_wstrb s.io.w.wstrb (if ltb n 32 then n else 32)) (w.resp, d) in
          let done = s.io.w.wlast || w.beat_idx == w.len in
          let w' : PendingWrite = record w { resp = resp; beat_idx = u8 (w.beat_idx + 1) } in
          (
            if done
                then record s {
                  w_pending = record w' { active = false };
                  w_resp = record { active = true; id = w.id; resp = resp; latency_cnt = 0 };
                }
                else record s { w_pending = w' },
            d',
          ))
      else (s, d)

  unfoldable pub tick_all : List Region → State → State
  tick_all [] d = d
  tick_all (r ∷ rest) d = tick_all rest (elim r.dev [ none ↦ d | some dev ↦ tick dev d ])

  -- The clock edge, in the order of the source.
  unfoldable pub seq : Bus × State → Bus × State
  seq (s, d) =
      let (s₁, d₁) = progress_read (accept_ar s, tick_all s.regions d) in
      let (s₂, d₂) = accept_w (accept_aw (consume_r s₁), d₁) in (consume_b (age_resp s₂), d₂)

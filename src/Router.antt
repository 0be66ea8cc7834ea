-- ===== src/Router.antt =====
-- axi_interconnect/AXI_Router_AXI4.{h,cpp}: the legacy address router between one AXI4 master and
-- the DDR and MMIO slaves. The route tables of 256 slots are functions of the AXI ID.
pub mod Cycle
pub mod Owner
pub mod Routing
mod Tests
use axi_interconnect_kit.Prelude.{ℕ, Bool, true, false, not, ◌&&◌, ◌||◌, ◌==◌, if◌then◌else◌}
use axi_interconnect_kit.Axi.{Aw, W, B, Ar, R, Io, resp_okay}
use axi_interconnect_kit.MmioMap.{MmioRange, is_mmio_addr}

pub record Router : Type 0 where
  pub r_route_valid : ℕ → Bool
  pub r_route_to_mmio : ℕ → Bool
  pub r_drive_valid : Bool
  pub r_drive_to_mmio : Bool
  pub r_drive_id : ℕ
  pub w_active : Bool
  pub w_to_mmio : Bool

-- The three interfaces that a phase reads and drives.
pub record Ports : Type 0 where
  pub up : Io
  pub ddr : Io
  pub mmio : Io

unfoldable pub init : Router
init = record {
  r_route_valid = λ _. false;
  r_route_to_mmio = λ _. false;
  r_drive_valid = false;
  r_drive_to_mmio = false;
  r_drive_id = 0;
  w_active = false;
  w_to_mmio = false;
}

-- An array write.
abbrev pub update : (ℕ → Bool) → ℕ → Bool → ℕ → Bool
update f i v j = if j == i then v else f j

-- Which slave answers on R in this cycle: MMIO before DDR, each for the IDs that it owns.
abbrev pub mmio_r_match : Router → Ports → Bool
mmio_r_match s p =
    p.mmio.r.rvalid && (s.r_route_valid p.mmio.r.rid && s.r_route_to_mmio p.mmio.r.rid)

abbrev pub ddr_r_match : Router → Ports → Bool
ddr_r_match s p =
    p.ddr.r.rvalid && (s.r_route_valid p.ddr.r.rid && not (s.r_route_to_mmio p.ddr.r.rid))

abbrev drive_r : R → R → R
drive_r src up = record up {
  rvalid = src.rvalid;
  rid = src.rid;
  rdata = src.rdata;
  rresp = src.rresp;
  rlast = src.rlast;
}

abbrev idle_r : R → R
idle_r up = record up { rvalid = false; rid = 0; rdata = 0; rresp = resp_okay; rlast = false }

abbrev drive_b : B → B → B
drive_b src up = record up { bvalid = src.bvalid; bid = src.bid; bresp = src.bresp }

abbrev idle_b : B → B
idle_b up = record up { bvalid = false; bid = 0; bresp = resp_okay }

-- Phase 1: responses go up.
unfoldable pub comb_outputs : Router → Ports → Router × Ports
comb_outputs s p =
    let to_mmio = mmio_r_match s p in
    let any = to_mmio || ddr_r_match s p in
    let src : R = if to_mmio then p.mmio.r else p.ddr.r in
    let src_b : B = if s.w_to_mmio then p.mmio.b else p.ddr.b in
    (
      record s {
        r_drive_valid = any;
        r_drive_to_mmio = any && to_mmio;
        r_drive_id = if any then src.rid else 0;
      },
      record p {
        up = record {
          ar = record (p.up.ar) { arready = false };
          aw = record (p.up.aw) { awready = false };
          w = record (p.up.w) { wready = false };
          r = if any then drive_r src p.up.r else idle_r p.up.r;
          b = if s.w_active then drive_b src_b p.up.b else idle_b p.up.b;
        };
      },
    )

-- A slave's request channels: valid and the payload of `up` where the request is steered to this
-- slave, and otherwise not valid, with the payload left as it was.
abbrev steer_ar : Bool → Ar → Ar → Ar
steer_ar sel up dst =
    if sel && up.arvalid
    then record dst {
      arvalid = true;
      araddr = up.araddr;
      arid = up.arid;
      arlen = up.arlen;
      arsize = up.arsize;
      arburst = up.arburst;
    }
    else record dst { arvalid = false }

abbrev steer_aw : Bool → Aw → Aw → Aw
steer_aw sel up dst =
    if sel && up.awvalid
    then record dst {
      awvalid = true;
      awaddr = up.awaddr;
      awid = up.awid;
      awlen = up.awlen;
      awsize = up.awsize;
      awburst = up.awburst;
    }
    else record dst { awvalid = false }

abbrev steer_w : Bool → W → W → W
steer_w sel up dst =
    if sel && up.wvalid
    then record dst { wvalid = true; wdata = up.wdata; wstrb = up.wstrb; wlast = up.wlast }
    else record dst { wvalid = false; wlast = false }

module _ (config : MmioRange) where
  abbrev pub aw_hs_now : Ports → Bool
  aw_hs_now p =
      p.up.aw.awvalid
      && (if is_mmio_addr config p.up.aw.awaddr then p.mmio.aw.awready else p.ddr.aw.awready)

  -- Where W data goes, for a W channel that is open.
  abbrev pub w_sel_mmio : Router → Ports → Bool
  w_sel_mmio s p =
      if s.w_active
      then s.w_to_mmio
      else if aw_hs_now p
      then is_mmio_addr config p.up.aw.awaddr
      else false

  abbrev pub w_open : Router → Ports → Bool
  w_open s p = s.w_active || aw_hs_now p

  -- Phase 2: requests go down, and ready signals up.
  unfoldable pub comb_inputs : Router → Ports → Ports
  comb_inputs s p =
      let ar_mmio = is_mmio_addr config p.up.ar.araddr in
      let aw_mmio = is_mmio_addr config p.up.aw.awaddr in
      let aw_free = not s.w_active in
      let w_mmio = w_sel_mmio s p in
      let w_on = w_open s p in
      record {
        up = record (p.up) {
          ar = record (p.up.ar) {
            arready = if ar_mmio then p.mmio.ar.arready else p.ddr.ar.arready;
          };
          aw = record (p.up.aw) {
            awready = aw_free && (if aw_mmio then p.mmio.aw.awready else p.ddr.aw.awready);
          };
          w = record (p.up.w) {
            wready = w_on && (if w_mmio then p.mmio.w.wready else p.ddr.w.wready);
          };
        };
        ddr = record {
          ar = steer_ar (not ar_mmio) p.up.ar p.ddr.ar;
          aw = steer_aw (aw_free && not aw_mmio) p.up.aw p.ddr.aw;
          w = steer_w (w_on && not w_mmio) p.up.w p.ddr.w;
          r = record (p.ddr.r) {
            rready = s.r_drive_valid && (not s.r_drive_to_mmio && p.up.r.rready);
          };
          b = record (p.ddr.b) { bready = s.w_active && (not s.w_to_mmio && p.up.b.bready) };
        };
        mmio = record {
          ar = steer_ar ar_mmio p.up.ar p.mmio.ar;
          aw = steer_aw (aw_free && aw_mmio) p.up.aw p.mmio.aw;
          w = steer_w (w_on && w_mmio) p.up.w p.mmio.w;
          r = record (p.mmio.r) {
            rready = s.r_drive_valid && (s.r_drive_to_mmio && p.up.r.rready);
          };
          b = record (p.mmio.b) { bready = s.w_active && (s.w_to_mmio && p.up.b.bready) };
        };
      }

  abbrev latch_read : Router → Ports → Router
  latch_read s p =
      if p.up.ar.arvalid && p.up.ar.arready
      then record s {
        r_route_valid = update s.r_route_valid p.up.ar.arid true;
        r_route_to_mmio =
            update s.r_route_to_mmio p.up.ar.arid (is_mmio_addr config p.up.ar.araddr);
      }
      else s

  abbrev complete_read : Router → Ports → Router
  complete_read s p =
      if p.up.r.rvalid && (p.up.r.rready && p.up.r.rlast)
      then record s {
        r_route_valid = update s.r_route_valid p.up.r.rid false;
        r_route_to_mmio = update s.r_route_to_mmio p.up.r.rid false;
      }
      else s

  abbrev latch_write : Router → Ports → Router
  latch_write s p =
      if p.up.aw.awvalid && p.up.aw.awready
      then record s { w_active = true; w_to_mmio = is_mmio_addr config p.up.aw.awaddr }
      else s

  abbrev complete_write : Router → Ports → Router
  complete_write s p =
      let src : B = if s.w_to_mmio then p.mmio.b else p.ddr.b in
      if s.w_active && (src.bvalid && src.bready) then record s { w_active = false } else s

  -- The clock edge.
  unfoldable pub seq : Router → Ports → Router
  seq s p = complete_write (latch_write (complete_read (latch_read s p) p) p) p

-- ===== src/Router/Routing.antt =====
-- One combinational pass of axi_interconnect/AXI_Router_AXI4.cpp: where each channel's handshake
-- goes.
use axi_interconnect_kit.Prelude.{◌≡◌, ◌⊎◌, true, false, if◌then◌else◌, arith, Bool}
use axi_interconnect_kit.Axi.{Aw, W, Ar, aw_fires, w_fires}
use axi_interconnect_kit.MmioMap.{MmioRange, is_mmio_addr}
use axi_interconnect_kit.Router.{Router, Ports, comb_inputs, seq}

-- The request that a slave sees is the master's.
abbrev pub SameAr : Ar → Ar → Type 0
SameAr a b =
    (a.araddr ≡ b.araddr)
    × (a.arid ≡ b.arid)
    × (a.arlen ≡ b.arlen)
    × (a.arsize ≡ b.arsize)
    × (a.arburst ≡ b.arburst)

abbrev pub SameAw : Aw → Aw → Type 0
SameAw a b =
    (a.awaddr ≡ b.awaddr)
    × (a.awid ≡ b.awid)
    × (a.awlen ≡ b.awlen)
    × (a.awsize ≡ b.awsize)
    × (a.awburst ≡ b.awburst)

abbrev pub SameW : W → W → Type 0
SameW a b = (a.wdata ≡ b.wdata) × (a.wstrb ≡ b.wstrb) × (a.wlast ≡ b.wlast)

-- A request channel of the master is steered to one slave.
abbrev pub ArSteered : Ar → Ar → Ar → Type 0
ArSteered up dst other =
    (dst.arvalid ≡ up.arvalid)
    × (up.arready ≡ dst.arready)
    × (other.arvalid ≡ false)
    × ((up.arvalid ≡ false) ⊎ SameAr dst up)

-- The slave that the write beats of a cycle belong to.
abbrev pub write_to_mmio : MmioRange → Router → Ports → Bool
write_to_mmio config s p = if s.w_active then s.w_to_mmio else is_mmio_addr config p.up.aw.awaddr

-- Where the write beats of a pass go.
pub record WRouted (config : MmioRange) (s : Router) (p q : Ports) : Type 0 where
  pub agrees :
      w_fires q.up.w ≡ (if write_to_mmio config s p then w_fires q.mmio.w else w_fires q.ddr.w)
  pub other_idle : (if write_to_mmio config s p then q.ddr.w.wvalid else q.mmio.w.wvalid) ≡ false
  pub beat :
      w_fires q.up.w ≡ true
      → ((s.w_active ≡ true) ⊎ (aw_fires q.up.aw ≡ true))
        × SameW (if write_to_mmio config s p then q.mmio.w else q.ddr.w) p.up.w
  pub latched :
      (seq config s q).w_to_mmio
      ≡ (if aw_fires q.up.aw then is_mmio_addr config p.up.aw.awaddr else s.w_to_mmio)

module _ (config : MmioRange) (s : Router) (p : Ports) where
  -- A read address is offered to the slave of its address and to no other, with its whole payload,
  -- and the master sees that slave's ready.
  pub comb_inputs-ar_routed :
      let q = comb_inputs config s p in
      let mmio = is_mmio_addr config p.up.ar.araddr in
      ArSteered q.up.ar
        (if mmio then q.mmio.ar else q.ddr.ar)
        (if mmio then q.ddr.ar else q.mmio.ar)
  unfolding comb_inputs
  comb_inputs-ar_routed = ground arith

  -- A write address is accepted only while no write is active, exactly when the slave of its address
  -- accepts it, and that slave then sees the whole payload. The other slave never sees it.
  pub comb_inputs-aw_routed :
      let q = comb_inputs config s p in
      let mmio = is_mmio_addr config p.up.aw.awaddr in
      let dst : Aw = if mmio then q.mmio.aw else q.ddr.aw in
      let other : Aw = if mmio then q.ddr.aw else q.mmio.aw in
      (aw_fires q.up.aw ≡ aw_fires dst)
      × (other.awvalid ≡ false)
      × ((aw_fires q.up.aw ≡ false) ⊎ (s.w_active ≡ false) × SameAw dst p.up.aw)
  unfolding comb_inputs
  comb_inputs-aw_routed = ground arith

  -- With the ready and valid signals of a pass: a write beat moves at the master exactly when it moves
  -- at one slave, and the other slave sees none. While a write is active, that slave is the one the
  -- write was latched for; otherwise it is the one whose range the address of this cycle lies in, and
  -- the beat moves only if that address is accepted in this cycle. The beat keeps its data, strobe and
  -- last flag. The clock edge latches the slave of an address that is accepted, and keeps the latched
  -- one otherwise.
  pub comb_inputs-WRouted : WRouted config s p (comb_inputs config s p)
  unfolding comb_inputs seq
  comb_inputs-WRouted = record {
    agrees = ground arith;
    other_idle = ground arith;
    beat = ground arith;
    latched = ground arith;
  }

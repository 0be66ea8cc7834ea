-- ===== src/Router/Tests.antt =====
-- axi_interconnect/AXI_Router_AXI4.cpp at concrete inputs.
use axi_interconnect_kit.MmioMap.{MmioRange}
use axi_interconnect_kit.Router.{Router, Ports, comb_inputs, init}
use axi_interconnect_kit.Router.Cycle.{Drive, settle, cycle, run}
use axi_interconnect_kit.Router.Routing.{WRouted, comb_inputs-WRouted}
use axi_interconnect_kit.Router.Owner.{
  settle-r_routed, reads_finished, reads_taken, writes_finished, writes_taken, init-reads_balanced,
  init-writes_balanced,
}
use axi_interconnect_kit.Axi.{R, r_fires, Io, quiet}
use axi_interconnect_kit.Prelude.{
  List, [], false, if◌then◌else◌, one_if, true, ◌+◌, ◌∷◌, ◌≡◌, ◌≤◌, ◌⊎◌,
}

abbrev config : MmioRange
config = record { base = 0x10000000; size = 0x1000 }

-- A master that reads from MMIO with ID 5 and writes to DDR, ready for every response.
abbrev request : Io
request = record {
  aw = record (quiet.aw) { awvalid = true; awid = 2; awaddr = 0x80000000 };
  w = record (quiet.w) { wvalid = true; wdata = 7; wstrb = 1; wlast = true };
  b = record (quiet.b) { bready = true };
  ar = record (quiet.ar) { arvalid = true; arid = 5; araddr = 0x10000010 };
  r = record (quiet.r) { rready = true };
}

-- A slave that accepts every request and answers nothing.
abbrev accepting : Io
accepting = record quiet {
  aw = record (quiet.aw) { awready = true };
  w = record (quiet.w) { wready = true };
  ar = record (quiet.ar) { arready = true };
}

-- The slaves' answers to that request.
abbrev ddr_answer : Io
ddr_answer = record quiet { b = record (quiet.b) { bvalid = true; bid = 2 } }

abbrev mmio_answer : Io
mmio_answer = record quiet {
  r = record (quiet.r) { rvalid = true; rid = 5; rdata = 9; rlast = true };
}

abbrev asked : Drive
asked = record {
  master = request;
  before = record { up = quiet; ddr = accepting; mmio = accepting };
}

abbrev answered : Drive
answered = record {
  master = record request { aw = quiet.aw; w = quiet.w; ar = quiet.ar };
  before = record { up = quiet; ddr = ddr_answer; mmio = mmio_answer };
}

abbrev exchange : List Drive
exchange = asked ∷ answered ∷ []

abbrev ports : Ports
ports = record { up = request; ddr = accepting; mmio = accepting }

abbrev routed : Router
routed = cycle config init asked

comb_inputs-WRouted_example : WRouted config init ports (comb_inputs config init ports)
comb_inputs-WRouted_example = comb_inputs-WRouted config init ports

settle-r_routed_example :
    let (s', q) = settle config routed answered in
    let src : R = if s'.r_drive_to_mmio then q.mmio.r else q.ddr.r in
    let other : R = if s'.r_drive_to_mmio then q.ddr.r else q.mmio.r in
    (r_fires q.up.r ≡ r_fires src)
    × (r_fires other ≡ false)
    × ((q.up.r.rvalid ≡ false)
        ⊎ (q.up.r.rid ≡ src.rid)
          × (q.up.r.rdata ≡ src.rdata)
          × (q.up.r.rresp ≡ src.rresp)
          × (q.up.r.rlast ≡ src.rlast)
          × (routed.r_route_valid src.rid ≡ true)
          × (routed.r_route_to_mmio src.rid ≡ s'.r_drive_to_mmio))
settle-r_routed_example = settle-r_routed config routed answered

init-reads_balanced_example :
    reads_finished config init exchange 5 + one_if ((run config init exchange).r_route_valid 5)
    ≤ reads_taken config init exchange 5
init-reads_balanced_example = init-reads_balanced config exchange 5

init-writes_balanced_example :
    writes_finished config init exchange + one_if (run config init exchange).w_active
    ≡ writes_taken config init exchange
init-writes_balanced_example = init-writes_balanced config exchange

-- ===== src/Axi.antt =====
-- sim_ddr/include/SimDDR_IO.h: the five AXI4 channels. A `wire<1>` is a Bool, a wider wire a number.
use axi_interconnect_kit.Prelude.{ℕ, Bool, false, ◌&&◌, ◌==◌, if◌then◌else◌}

-- AXI4_AW_t.
pub record Aw : Type 0 where
  pub awvalid : Bool
  pub awready : Bool
  pub awid : ℕ
  pub awaddr : ℕ
  pub awlen : ℕ
  pub awsize : ℕ
  pub awburst : ℕ

-- AXI4_W_t.
pub record W : Type 0 where
  pub wvalid : Bool
  pub wready : Bool
  pub wdata : ℕ
  pub wstrb : ℕ
  pub wlast : Bool

-- AXI4_B_t.
pub record B : Type 0 where
  pub bvalid : Bool
  pub bready : Bool
  pub bid : ℕ
  pub bresp : ℕ

-- AXI4_AR_t.
pub record Ar : Type 0 where
  pub arvalid : Bool
  pub arready : Bool
  pub arid : ℕ
  pub araddr : ℕ
  pub arlen : ℕ
  pub arsize : ℕ
  pub arburst : ℕ

-- AXI4_R_t.
pub record R : Type 0 where
  pub rvalid : Bool
  pub rready : Bool
  pub rid : ℕ
  pub rdata : ℕ
  pub rresp : ℕ
  pub rlast : Bool

-- SimDDR_IO_t.
pub record Io : Type 0 where
  pub aw : Aw
  pub w : W
  pub b : B
  pub ar : Ar
  pub r : R

-- AXI_RESP_*, and the AXI_BURST_* code that the code tests.
abbrev pub resp_okay : ℕ
resp_okay = 0

abbrev pub resp_decerr : ℕ
resp_decerr = 3

abbrev pub burst_fixed : ℕ
burst_fixed = 0

abbrev pub burst_incr : ℕ
burst_incr = 1

-- AXI_SIZE_CODE of a beat of 4, 8, 16 or 32 bytes.
unfoldable pub size_code : ℕ → ℕ
size_code beat_bytes =
    if beat_bytes == 32 then 5 else if beat_bytes == 16 then 4 else if beat_bytes == 8 then 3 else 2

-- A channel's handshake: valid and ready in the same cycle.
abbrev pub aw_fires : Aw → Bool
aw_fires c = c.awvalid && c.awready

abbrev pub w_fires : W → Bool
w_fires c = c.wvalid && c.wready

abbrev pub b_fires : B → Bool
b_fires c = c.bvalid && c.bready

abbrev pub ar_fires : Ar → Bool
ar_fires c = c.arvalid && c.arready

abbrev pub r_fires : R → Bool
r_fires c = c.rvalid && c.rready

-- The master's side of an interface is what `m` drives, the slave's side stays.
unfoldable pub offer : Io → Io → Io
offer m io = record {
  aw = record (m.aw) { awready = io.aw.awready };
  w = record (m.w) { wready = io.w.wready };
  b = record (io.b) { bready = m.b.bready };
  ar = record (m.ar) { arready = io.ar.arready };
  r = record (io.r) { rready = m.r.rready };
}

-- All signals low.
abbrev pub quiet : Io
quiet = record {
  aw = record {
    awvalid = false;
    awready = false;
    awid = 0;
    awaddr = 0;
    awlen = 0;
    awsize = 0;
    awburst = 0;
  };
  w = record { wvalid = false; wready = false; wdata = 0; wstrb = 0; wlast = false };
  b = record { bvalid = false; bready = false; bid = 0; bresp = 0 };
  ar = record {
    arvalid = false;
    arready = false;
    arid = 0;
    araddr = 0;
    arlen = 0;
    arsize = 0;
    arburst = 0;
  };
  r = record { rvalid = false; rready = false; rid = 0; rdata = 0; rresp = 0; rlast = false };
}

-- ===== src/Interconnect.antt =====
-- axi_interconnect/AXI_Interconnect.{h,cpp}: the interconnect between the masters and the two AXI4
-- ports. Its constants, the build's parameters and the two ports. An `int` index is an Option, -1 is
-- `none`.
pub mod State
pub mod Modes
pub mod Ids
pub mod Writes
pub mod Hazards
pub mod Quiescence
mod Tests
use axi_interconnect_kit.Prelude.{Bool, Option, false, none, some, true, ℕ}

pub data DownstreamPort : Type 0 where
  ddr : DownstreamPort
  mmio : DownstreamPort

-- `a == b` on ports.
abbrev pub same_port : DownstreamPort → DownstreamPort → Bool
same_port ddr ddr = true
same_port ddr mmio = false
same_port mmio ddr = false
same_port mmio mmio = true

-- What belongs to one of the ports, changed.
unfoldable pub set_port {ℓ} :
    {A : Type ℓ} → (DownstreamPort → A) → DownstreamPort → A → DownstreamPort → A
set_port f ddr v ddr = v
set_port f ddr v mmio = f mmio
set_port f mmio v ddr = f ddr
set_port f mmio v mmio = v

-- AXI_ID_WIDTH, AXI_KIT_DDR_BASE and MAX_READ_OUTSTANDING_PER_MASTER.
pub record Build : Type 0 where
  pub axi_id_width : ℕ
  pub ddr_address_base : ℕ
  pub max_read_outstanding_per_master : ℕ

-- kInvalidAxiReadId and kInvalidAxiWriteId.
abbrev pub invalid_axi_id : ℕ
invalid_axi_id = 255

-- kDefaultMappedLlcOffset.
abbrev pub default_mapped_llc_offset : ℕ
default_mapped_llc_offset = 805306368

-- kMappedLlcWindowBytes.
abbrev pub mapped_llc_window_bytes : ℕ
mapped_llc_window_bytes = 4194304

-- ===== src/Bridge/Route.antt =====
-- include/axi_dual_port_route_shape.h: the port, the beats and the AXI ID of a request.
pub mod Laws
use axi_interconnect_kit.Prelude.Words.{u8, u32}
use axi_interconnect_kit.Prelude.{
  Bool, if◌then◌else◌, leb, ltb, not, ℕ, ◌%◌, ◌+◌, ◌-◌, ◌/◌, ◌==◌, ◌^◌, ◌||◌,
}

-- AXI_DUAL_PORT_*.
abbrev pub mmio_total_size : ℕ
mmio_total_size = 3

abbrev pub axi_size_32b : ℕ
axi_size_32b = 2

abbrev pub axi_size_256b : ℕ
axi_size_256b = 5

abbrev pub ddr_beat_bytes : ℕ
ddr_beat_bytes = 32

pub record RouteShape : Type 0 where
  pub ddr_port : Bool
  pub mmio_port : Bool
  pub supported : Bool
  pub axi_len : ℕ
  pub axi_size : ℕ

pub record RouteSupport : Type 0 where
  pub ddr_port : Bool
  pub mmio_port : Bool
  pub supported : Bool

pub record AxiBeatShape : Type 0 where
  pub total_beats : ℕ
  pub axi_len : ℕ
  pub axi_size : ℕ

unfoldable pub is_ddr_addr : ℕ → ℕ → Bool
is_ddr_addr addr ddr_base = leb ddr_base addr

unfoldable pub mmio_request_supported : ℕ → Bool
mmio_request_supported total_size = total_size == mmio_total_size

unfoldable pub axi_size_for_beat_bytes : ℕ → ℕ
axi_size_for_beat_bytes beat_bytes =
    if beat_bytes == 32 then 5 else if beat_bytes == 16 then 4 else if beat_bytes == 8 then 3 else 2

unfoldable pub axi_len_for_beat_bytes : ℕ → ℕ → ℕ
axi_len_for_beat_bytes total_size beat_bytes =
    if beat_bytes == 0
    then 0
    else let beats = (total_size + 1 + beat_bytes - 1) / beat_bytes in
      if ltb 0 beats then u8 (beats - 1) else 0

unfoldable pub axi_beat_shape : ℕ → ℕ → AxiBeatShape
unfolding axi_len_for_beat_bytes axi_size_for_beat_bytes
axi_beat_shape total_size beat_bytes =
    let len = axi_len_for_beat_bytes total_size beat_bytes in
    record {
      total_beats = u8 (len + 1);
      axi_len = len;
      axi_size = axi_size_for_beat_bytes beat_bytes;
    }

unfoldable pub route_support : ℕ → ℕ → ℕ → RouteSupport
unfolding is_ddr_addr mmio_request_supported
route_support addr total_size ddr_base =
    let ddr = is_ddr_addr addr ddr_base in
    record {
      ddr_port = ddr;
      mmio_port = not ddr;
      supported = ddr || mmio_request_supported total_size;
    }

unfoldable pub ddr_axi_len : ℕ → ℕ
unfolding axi_len_for_beat_bytes
ddr_axi_len total_size = axi_len_for_beat_bytes total_size ddr_beat_bytes

unfoldable pub route_shape : ℕ → ℕ → ℕ → RouteShape
unfolding route_support ddr_axi_len
route_shape addr total_size ddr_base =
    let route = route_support addr total_size ddr_base in
    record {
      ddr_port = route.ddr_port;
      mmio_port = route.mmio_port;
      supported = route.supported;
      axi_len = if route.ddr_port then ddr_axi_len total_size else 0;
      axi_size = if route.ddr_port then axi_size_256b else axi_size_32b;
    }

-- The mask for a width keeps the low `width` bits, and all 8 from width 8 on.
unfoldable pub mask_axi_id : ℕ → ℕ → ℕ
mask_axi_id id_value id_width = if leb 8 id_width then u8 id_value else u8 (id_value % 2 ^ id_width)

unfoldable pub resize_axi_id : ℕ → ℕ → ℕ → ℕ
unfolding mask_axi_id
resize_axi_id id_value in_id_width out_id_width =
    mask_axi_id (mask_axi_id id_value in_id_width) out_id_width

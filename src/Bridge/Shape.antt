-- ===== src/Bridge/Shape.antt =====
-- include/axi_dual_port_route_shape.h: the aligned address and size with which a request issues.
pub mod Laws
use axi_interconnect_kit.Prelude.Words.{u8, u16, u32, sub32}
use axi_interconnect_kit.Bridge.Route.{AxiBeatShape, axi_beat_shape, mmio_total_size, axi_size_32b}
use axi_interconnect_kit.Prelude.{
  Bool, false, if◌then◌else◌, leb, not, true, ℕ, ◌&&◌, ◌*◌, ◌+◌, ◌/◌, ◌==◌, ◌||◌,
}

pub record IssueSelectControl : Type 0 where
  pub issue_valid : Bool
  pub issue_mode2_ddr_aligned : Bool
  pub issue_addr : ℕ
  pub issue_size : ℕ
  pub issue_axi_id : ℕ
  pub issue_beat_idx : ℕ
  pub issue_total_beats : ℕ

pub record Mode2Shape : Type 0 where
  pub single_axi_beat : Bool
  pub issue_addr : ℕ
  pub issue_size : ℕ

pub record DownstreamIssueShape : Type 0 where
  pub issue_addr : ℕ
  pub issue_size : ℕ
  pub extract_from_aligned_beat : Bool
  pub total_beats : ℕ
  pub axi_len : ℕ
  pub axi_size : ℕ

unfoldable pub align_down_addr : ℕ → ℕ → ℕ
align_down_addr addr align_bytes =
    if leb align_bytes 1 then addr else u32 (addr / align_bytes * align_bytes)

unfoldable pub mode2_single_axi_beat : ℕ → ℕ → ℕ → Bool
unfolding align_down_addr
mode2_single_axi_beat addr total_size axi_data_bytes =
    let req_bytes = u16 (total_size + 1) in
    let beat_addr = align_down_addr addr axi_data_bytes in
    let end_byte = u32 (sub32 addr beat_addr + req_bytes) in
    leb req_bytes axi_data_bytes && leb end_byte axi_data_bytes

-- `(uint8_t)(n - 1u)`.
abbrev pub last_byte : ℕ → ℕ
last_byte n = u8 (n + 255)

unfoldable pub mode2_issue_addr : ℕ → ℕ → ℕ → ℕ → ℕ
unfolding mode2_single_axi_beat align_down_addr
mode2_issue_addr addr total_size line_bytes axi_data_bytes =
    if mode2_single_axi_beat addr total_size axi_data_bytes
    then align_down_addr addr axi_data_bytes
    else align_down_addr addr line_bytes

unfoldable pub mode2_issue_size : ℕ → ℕ → ℕ → ℕ → ℕ
unfolding mode2_single_axi_beat
mode2_issue_size addr total_size line_bytes axi_data_bytes =
    if mode2_single_axi_beat addr total_size axi_data_bytes
    then last_byte axi_data_bytes
    else last_byte line_bytes

unfoldable pub mode2_shape : ℕ → ℕ → ℕ → ℕ → Mode2Shape
unfolding mode2_single_axi_beat align_down_addr
mode2_shape addr total_size line_bytes axi_data_bytes =
    let single = mode2_single_axi_beat addr total_size axi_data_bytes in
    record {
      single_axi_beat = single;
      issue_addr =
          if single then align_down_addr addr axi_data_bytes else align_down_addr addr line_bytes;
      issue_size = if single then last_byte axi_data_bytes else last_byte line_bytes;
    }

-- The fields that the ladder of ports and modes decides: address, size, extraction.
unfoldable pub issue_window : Bool → ℕ → ℕ → ℕ → ℕ → Bool → ℕ × ℕ × Bool
unfolding mode2_shape align_down_addr
issue_window mmio_port addr total_size line_bytes axi_data_bytes force_ddr_aligned =
    let mode2 = mode2_shape addr total_size line_bytes axi_data_bytes in
    if mmio_port
    then (addr, mmio_total_size, false)
    else if force_ddr_aligned
    then (
      mode2.issue_addr,
      mode2.issue_size,
      mode2.single_axi_beat || not (mode2.issue_addr == addr),
    )
    else if leb (u16 (total_size + 1)) axi_data_bytes
    then (align_down_addr addr axi_data_bytes, last_byte axi_data_bytes, true)
    else (addr, total_size, false)

unfoldable pub downstream_read_issue_shape : Bool → ℕ → ℕ → ℕ → ℕ → Bool → DownstreamIssueShape
unfolding issue_window axi_beat_shape
downstream_read_issue_shape mmio_port addr total_size line_bytes axi_data_bytes force_ddr_aligned =
    let (issue_addr, issue_size, extract) =
      issue_window mmio_port addr total_size line_bytes axi_data_bytes force_ddr_aligned in
    let beat = axi_beat_shape issue_size (if mmio_port then 4 else axi_data_bytes) in
    record {
      issue_addr = issue_addr;
      issue_size = issue_size;
      extract_from_aligned_beat = extract;
      total_beats = beat.total_beats;
      axi_len = beat.axi_len;
      axi_size = if mmio_port then axi_size_32b else beat.axi_size;
    }

unfoldable pub downstream_write_issue_shape : Bool → ℕ → ℕ → ℕ → ℕ → Bool → DownstreamIssueShape
unfolding downstream_read_issue_shape
downstream_write_issue_shape mmio_port addr total_size line_bytes axi_data_bytes force_ddr_aligned =
    record (downstream_read_issue_shape mmio_port addr total_size line_bytes axi_data_bytes
      force_ddr_aligned) { extract_from_aligned_beat = false }

unfoldable pub issue_select_control :
    Bool → Bool → Bool → Bool → Bool → Bool → ℕ → ℕ → ℕ → ℕ → ℕ → ℕ → ℕ → IssueSelectControl
unfolding mode2_shape
issue_select_control queue_has_entry slot_valid slot_from_cache slot_mode2_ddr_aligned
      ready_to_issue issue_done slot_addr slot_size slot_axi_id slot_beat_idx slot_total_beats
      line_bytes axi_data_bytes =
    let aligned = not slot_from_cache && slot_mode2_ddr_aligned in
    let mode2 = mode2_shape slot_addr slot_size line_bytes axi_data_bytes in
    record {
      issue_valid = queue_has_entry && (slot_valid && (ready_to_issue && not issue_done));
      issue_mode2_ddr_aligned = aligned;
      issue_addr = if aligned then mode2.issue_addr else slot_addr;
      issue_size = if aligned then mode2.issue_size else slot_size;
      issue_axi_id = slot_axi_id;
      issue_beat_idx = slot_beat_idx;
      issue_total_beats = slot_total_beats;
    }

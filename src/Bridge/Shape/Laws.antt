-- ===== src/Bridge/Shape/Laws.antt =====
-- include/axi_dual_port_route_shape.h: an issued window and the request that it is issued for.
use native.Mathlib.Nat.{div-add-mod', mod-lt}
use axi_interconnect_kit.Bridge.Shape.{
  align_down_addr, mode2_single_axi_beat, mode2_shape, issue_window, mode2_issue_addr,
  mode2_issue_size,
}
use axi_interconnect_kit.Prelude.{arith, ℕ, ◌%◌, ◌+◌, ◌<◌, ◌≡◌, ◌≤◌, ap, false, leb, refl}

-- An aligned address is the start of the block of `n` bytes that holds `addr`.
pub align_down_addr_lem :
    (addr n : ℕ)
    → addr < 4294967296
    → 0 < n
    → let a = align_down_addr addr n in (a ≤ addr) × (addr < a + n) × (a + addr % n ≡ addr)
unfolding align_down_addr
align_down_addr_lem addr n h p = ground (arith, div-add-mod' addr n, mod-lt addr p)

single_lem :
    (addr total_size n : ℕ)
    → addr < 4294967296
    → total_size < 256
    → 0 < n
    → n < 256
    → mode2_single_axi_beat addr total_size n ≡ leb (addr % n + total_size + 1) n
unfolding mode2_single_axi_beat
single_lem addr total_size n h t p q = ground (arith, align_down_addr_lem addr n h p, mod-lt addr p)

-- The window `[start, start + size]` that is issued holds the request's bytes `[addr, addr + total]`.
abbrev pub HoldsRequest : ℕ → ℕ → ℕ → ℕ → Type 0
HoldsRequest start size addr total = (start ≤ addr) × (addr + total ≤ start + size)

-- In the aligned mode a request that lies within one line is issued as a window that holds it, be it
-- one beat or the whole line.
pub mode2_shape-HoldsRequest :
    (addr total_size line_bytes axi_data_bytes : ℕ)
    → addr < 4294967296
    → total_size < 256
    → 0 < line_bytes
    → line_bytes < 256
    → 0 < axi_data_bytes
    → axi_data_bytes < 256
    → addr % line_bytes + total_size < line_bytes
    → let m = mode2_shape addr total_size line_bytes axi_data_bytes in
      HoldsRequest m.issue_addr m.issue_size addr total_size
unfolding mode2_shape
mode2_shape-HoldsRequest addr total_size line_bytes axi_data_bytes h t lp lq ap aq fits = ground (
  arith,
  single_lem addr total_size axi_data_bytes h t ap aq,
  align_down_addr_lem addr axi_data_bytes h ap,
  align_down_addr_lem addr line_bytes h lp,
)

-- The single answers agree with the combined record.
pub mode2_shape_fields :
    (addr total_size line_bytes axi_data_bytes : ℕ)
    → let m = mode2_shape addr total_size line_bytes axi_data_bytes in
      (m.issue_addr ≡ mode2_issue_addr addr total_size line_bytes axi_data_bytes)
      × (m.issue_size ≡ mode2_issue_size addr total_size line_bytes axi_data_bytes)
unfolding mode2_shape mode2_issue_addr mode2_issue_size
mode2_shape_fields addr total_size line_bytes axi_data_bytes = (refl, refl)

-- On the DDR port outside the aligned mode, a request of at most a beat is issued as the beat that
-- holds it if it does not cross into the next beat, and a longer one as it is.
issue_window-HoldsRequest :
    (addr total_size line_bytes axi_data_bytes : ℕ)
    → addr < 4294967296
    → total_size < 256
    → 0 < axi_data_bytes
    → axi_data_bytes < 256
    → (total_size < axi_data_bytes → addr % axi_data_bytes + total_size < axi_data_bytes)
    → let (start, size, extract) =
        issue_window false addr total_size line_bytes axi_data_bytes false in
      HoldsRequest start size addr total_size
unfolding issue_window
issue_window-HoldsRequest addr total_size line_bytes axi_data_bytes h t ap aq fits =
    ground (arith, align_down_addr_lem addr axi_data_bytes h ap)

-- A request of at most a beat that crosses into the next beat is not held by the window that the DDR
-- port issues for it outside the aligned mode.
issue_window_crossing :
    (addr total_size line_bytes axi_data_bytes : ℕ)
    → addr < 4294967296
    → 0 < axi_data_bytes
    → axi_data_bytes < 256
    → total_size < axi_data_bytes
    → axi_data_bytes ≤ addr % axi_data_bytes + total_size
    → let (start, size, extract) =
        issue_window false addr total_size line_bytes axi_data_bytes false in
      ¬ HoldsRequest start size addr total_size
unfolding issue_window
issue_window_crossing addr total_size line_bytes axi_data_bytes h ap aq t crosses =
    ground (arith, align_down_addr_lem addr axi_data_bytes h ap)

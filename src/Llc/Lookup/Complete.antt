-- ===== src/Llc/Lookup/Complete.antt =====
-- axi_interconnect/AXI_LLC.cpp: try_complete_lookup as a whole.
use axi_interconnect_kit.Llc.Lookup.{finish, complete_direct, rows_ready}
use axi_interconnect_kit.Prelude.{Option, if◌then◌else◌, none, not, some, ℕ}
use axi_interconnect_kit.Llc.{Config, Limits}
use axi_interconnect_kit.Llc.Regs.{Io, idle}
use axi_interconnect_kit.Llc.Meta.{RowScan, line_has_valid_meta}
use axi_interconnect_kit.Llc.Lookup.Hit.{complete_hit}
use axi_interconnect_kit.Llc.Lookup.ReadMiss.{complete_read_miss}
use axi_interconnect_kit.Llc.Lookup.WriteMiss.{complete_write_miss}
use axi_interconnect_kit.Llc.Address.{tag_of}

module _ (limits : Limits) (config : Config) where
  abbrev pub complete_miss : Io → RowScan → Option Io
  complete_miss io scan =
      let l = io.regs.lookup_r in
      if l.is_write
      then complete_write_miss limits config io scan
      else if l.is_invalidate
      then some (record io { reg_write = finish idle io.reg_write })
      else some (complete_read_miss limits config io scan)

  abbrev pub complete_scan : Io → RowScan → Option ℕ → Option Io
  complete_scan io scan none = complete_miss io scan
  complete_scan io scan (some way) = complete_hit limits config io way scan.hit_meta

  abbrev pub row_scan : Io → RowScan
  row_scan io =
      line_has_valid_meta io.lookup_in.valid_row io.lookup_in.meta_row config
        (tag_of config io.regs.lookup_r.addr)

  unfoldable pub try_complete_lookup : Io → Option Io
  unfolding complete_direct complete_hit complete_write_miss complete_read_miss line_has_valid_meta
  try_complete_lookup io =
      let scan = row_scan io in
      if not (rows_ready limits config io)
      then some io
      else if io.regs.lookup_r.is_direct_mapped
      then some (complete_direct limits config io)
      else complete_scan io scan scan.hit_way

-- ===== src/Llc/Lookup/Laws.antt =====
-- axi_interconnect/AXI_LLC.cpp: try_complete_lookup does not abort.
use mathlib.Core.Option
use native.Mathlib.Nat.{
  le_trans, mul_assoc, mul-le-mul_right, mul-le-mul_left, div-mul-le_self, mod-lt,
}
use axi_interconnect_kit.Prelude.{
  arith, subst, ℕ, ◌*◌, ◌/◌, ◌<◌, ◌≤◌, List, Option, if_cases, if◌then◌else◌, is_some, none,
  or_else, refl, some, suc, true, zero, ◌+◌, ◌≡◌, Bool, false, not, replicate, ◌-◌, ◌==◌,
}
use axi_interconnect_kit.Llc.{Config, Limits, set_count}
use axi_interconnect_kit.Llc.Regs.{Io, Regs, idle, lookup}
use axi_interconnect_kit.Llc.Meta.{
  MetaEntry, RowScan, decode_meta, encode_meta, scan_row, way_hits, way_valid, line_has_valid_meta,
}
use axi_interconnect_kit.Llc.Lookup.Hit.{
  complete_hit, put_hit, unmarked, bypass_hit, hit_response, invalidate_hit, prefetch_hit, read_hit,
  serve_hit, write_hit, write_hit_flags,
}
use axi_interconnect_kit.Llc.Lookup.WriteMiss.{
  put_line, complete_write_miss, evict_for_write, full_write, partial_write, victim_is_dirty,
  victim_way, write_into,
}
use axi_interconnect_kit.Llc.Bytes.{read_u32_le, is_full_line_write}
use axi_interconnect_kit.Llc.Address.{tag_of}
use axi_interconnect_kit.Llc.Lookup.{
  answer, cache_done, complete_direct, finish, lookup_ctx, merged, retry, rows_ready, way_line,
}
use axi_interconnect_kit.Prelude.Words.{bit, u8}
use axi_interconnect_kit.Llc.Lookup.Complete.{
  complete_miss, complete_scan, row_scan, try_complete_lookup,
}
use axi_interconnect_kit.Llc.Lookup.ReadMiss.{complete_read_miss}
use axi_interconnect_kit.Llc.WritePath.{set_port}
use axi_interconnect_kit.Llc.Refill.Commit.{table_write_busy}

-- The quotient of an address by the line and by the sets.
tag_bound : (addr n s : ℕ) → 8 ≤ s * n → addr < 4294967296 → addr / n / s < 536870912
tag_bound addr n s h l =
    let t = addr / n / s in
    let whole : t * (s * n) ≤ addr =
      le_trans
        (subst (λ x. x ≤ addr / n * n) (mul_assoc t s n)
          (mul-le-mul_right n (div-mul-le_self (addr / n) s)))
        (div-mul-le_self addr n) in
    omega (arith, mul-le-mul_left t h)

encode_meta-some :
    (tag flags : ℕ)
    → tag < 536870912
    → is_some (encode_meta (record { tag = tag; flags = flags })) ≡ true
unfolding encode_meta
encode_meta-some tag flags h = ground arith

decode_meta-tag : (row : List ℕ) (way : ℕ) → (decode_meta row way).tag < 536870912
unfolding decode_meta
decode_meta-tag row way =
    ground (arith, mod-lt (read_u32_le row (way * 4)) {m = 536870912} (omega arith))

-- The entry of a way that hits has a tag that can be encoded.
scan_row-tag :
    (valid_row meta_row : List ℕ) (tag way n : ℕ) (invalid : Option ℕ)
    → (scan_row valid_row meta_row tag way n invalid).hit_meta.tag < 536870912
unfolding scan_row
scan_row-tag valid_row meta_row tag way zero invalid = omega arith
scan_row-tag valid_row meta_row tag way (suc n) invalid =
    let now = or_else invalid (if way_valid valid_row way then none else some way) in
    let rest = scan_row-tag valid_row meta_row tag (way + 1) n now in
    if_cases (λ (scan : RowScan). scan.hit_meta.tag < 536870912)
      (way_hits valid_row meta_row tag way)
      (record { hit_way = some way; first_invalid_way = now; hit_meta = decode_meta meta_row way })
      (scan_row valid_row meta_row tag (way + 1) n now) (λ e. decode_meta-tag meta_row way)
      (λ e. rest)

is_some-map {ℓ κ} :
    {A : Type ℓ} {B : Type κ} (f : A → B) (o : Option A)
    → is_some o ≡ true
    → is_some (Option.map f o) ≡ true
is_some-map f none h = absurd (cc)
is_some-map f (some a) h = refl

module _ (limits : Limits) (config : Config) where
  abbrev Returns : Option Io → Type 0
  Returns o = is_some o ≡ true

  put_hit-Returns :
      (io : Io) (way : ℕ) (hit : MetaEntry) (line : List ℕ) (row : Option (List ℕ))
      → is_some row ≡ true
      → Returns (put_hit limits config io way hit line row)
  put_hit-Returns io way hit line none h = h
  put_hit-Returns io way hit line (some row) h = refl

  put_line-Returns :
      (io : Io) (way : ℕ) (line : List ℕ) (row : Option (List ℕ))
      → is_some row ≡ true
      → Returns (put_line limits config io way line row)
  put_line-Returns io way line none h = h
  put_line-Returns io way line (some row) h = refl

  unmarked-some :
      (hit : MetaEntry) → hit.tag < 536870912 → is_some (unmarked limits config hit) ≡ true
  unmarked-some hit h =
      if_cases {A = Option (Option (List ℕ))} (λ o. is_some o ≡ true) (bit hit.flags 2 == 1)
        (Option.map some (encode_meta (record hit { flags = hit.flags - 4 }))) (some none)
        (λ e. is_some-map some _ (encode_meta-some hit.tag (hit.flags - 4) h)) (λ e. refl)

  serve_hit-Returns :
      (io : Io) (way : ℕ) (hit : MetaEntry) (sent : Bool × Regs)
      → hit.tag < 536870912
      → Returns (serve_hit limits config io way hit sent)
  serve_hit-Returns io way hit (false, regs) h = refl
  serve_hit-Returns io way hit (true, regs) h =
      is_some-map _ (unmarked limits config hit) (unmarked-some hit h)

  tag_of-lt :
      (addr : ℕ)
      → 8 ≤ set_count config * config.line_bytes
      → addr < 4294967296
      → tag_of config addr < 536870912
  unfolding tag_of
  tag_of-lt addr h l = ground (arith, tag_bound addr config.line_bytes (set_count config) h l)

  complete_hit-Returns :
      (io : Io) (way : ℕ) (hit : MetaEntry)
      → tag_of config io.regs.lookup_r.addr < 536870912
      → hit.tag < 536870912
      → Returns (complete_hit limits config io way hit)
  unfolding complete_hit
  complete_hit-Returns io way hit t h =
      let l = io.regs.lookup_r in
      let busy = table_write_busy limits config io.table_out in
      let stalled : Option Io = some (record io { reg_write = retry lookup io.reg_write }) in
      let meta : MetaEntry = record {
        tag = tag_of config l.addr;
        flags = write_hit_flags limits config l.is_bypass hit;
      } in
      let line = merged limits config io (way_line limits config io way) in
      let sent = answer limits config io (hit_response limits config io way) in
      let written : Returns (write_hit limits config io way hit) =
        if_cases Returns busy stalled (put_hit limits config io way hit line (encode_meta meta))
          (λ e. refl)
          (λ e. put_hit-Returns io way hit line _ (encode_meta-some meta.tag meta.flags t)) in
      let served : Returns (read_hit limits config io way hit) =
        if_cases Returns busy stalled (serve_hit limits config io way hit sent) (λ e. refl)
          (λ e. serve_hit-Returns io way hit sent h) in
      let read : Returns (
          if l.is_bypass
          then some (bypass_hit limits config io way)
          else read_hit limits config io way hit) =
        if_cases Returns l.is_bypass (some (bypass_hit limits config io way))
          (read_hit limits config io way hit) (λ e. refl) (λ e. served) in
      let later : Returns (
          if l.is_prefetch
          then some (prefetch_hit limits config io)
          else if l.is_bypass
          then some (bypass_hit limits config io way)
          else read_hit limits config io way hit) =
        if_cases Returns l.is_prefetch (some (prefetch_hit limits config io)) _ (λ e. refl)
          (λ e. read) in
      if_cases Returns l.is_write (write_hit limits config io way hit) _ (λ e. written)
        (λ e.
          if_cases Returns l.is_invalidate (some (invalidate_hit limits config io way hit)) _
            (λ f. refl) (λ f. later))

  write_into-Returns :
      (io : Io) (way : Option ℕ)
      → tag_of config io.regs.lookup_r.addr < 536870912
      → Returns (write_into limits config io way)
  write_into-Returns io none t = refl
  write_into-Returns io (some picked) t =
      let way = u8 picked in
      let ctx = lookup_ctx limits config io in
      let line = merged limits config io (replicate config.line_bytes 0) in
      let tag = tag_of config io.regs.lookup_r.addr in
      let meta : MetaEntry = record { tag = tag; flags = 3 } in
      let stalled : Option Io = some (record io { reg_write = retry lookup io.reg_write }) in
      let placed : Returns (full_write limits config io way) =
        if_cases Returns (victim_is_dirty limits config io way)
          (some (evict_for_write limits config io way line))
          (if table_write_busy limits config io.table_out
            then stalled
            else put_line limits config io way line (encode_meta meta))
          (λ e. refl)
          (λ e.
            if_cases Returns (table_write_busy limits config io.table_out) stalled
              (put_line limits config io way line (encode_meta meta)) (λ f. refl)
              (λ f. put_line-Returns io way line _ (encode_meta-some tag 3 t))) in
      if_cases Returns (is_full_line_write limits config ctx.addr ctx.strobe ctx.total_size)
        (full_write limits config io way) (some (partial_write limits config io way)) (λ e. placed)
        (λ e. refl)

  complete_miss-Returns :
      (io : Io) (scan : RowScan)
      → tag_of config io.regs.lookup_r.addr < 536870912
      → Returns (complete_miss limits config io scan)
  unfolding complete_write_miss
  complete_miss-Returns io scan t =
      let l = io.regs.lookup_r in
      let way = victim_way limits config io scan in
      let over : Option Io = some (record io { reg_write = finish idle io.reg_write }) in
      let passed : Option Io =
        some (record io { reg_write = finish idle (set_port l.master cache_done io.reg_write) }) in
      if_cases Returns l.is_write (if l.is_bypass then passed else write_into limits config io way)
        (if l.is_invalidate then over else some (complete_read_miss limits config io scan))
        (λ e.
          if_cases Returns l.is_bypass passed (write_into limits config io way) (λ f. refl)
            (λ f. write_into-Returns io way t))
        (λ e.
          if_cases Returns l.is_invalidate over (some (complete_read_miss limits config io scan))
            (λ f. refl) (λ f. refl))

  complete_scan-Returns :
      (io : Io) (scan : RowScan) (way : Option ℕ)
      → tag_of config io.regs.lookup_r.addr < 536870912
      → scan.hit_meta.tag < 536870912
      → Returns (complete_scan limits config io scan way)
  complete_scan-Returns io scan none t h = complete_miss-Returns io scan t
  complete_scan-Returns io scan (some way) t h = complete_hit-Returns io way scan.hit_meta t h

  -- With sets of at least eight bytes over the cache's lines, a lookup of a 32-bit address ends
  -- without aborting the program, whatever the tables hold.
  pub is_some-try_complete_lookup :
      (io : Io)
      → 8 ≤ set_count config * config.line_bytes
      → io.regs.lookup_r.addr < 4294967296
      → is_some (try_complete_lookup limits config io) ≡ true
  unfolding try_complete_lookup line_has_valid_meta
  is_some-try_complete_lookup io h l =
      let scan = row_scan limits config io in
      let direct : Option Io = some (complete_direct limits config io) in
      let t = tag_of-lt io.regs.lookup_r.addr h l in
      let rows = io.lookup_in in
      let fits =
        scan_row-tag rows.valid_row rows.meta_row (tag_of config io.regs.lookup_r.addr) 0
          config.ways none in
      if_cases Returns (not (rows_ready limits config io)) (some io)
        (if io.regs.lookup_r.is_direct_mapped
          then direct
          else complete_scan limits config io scan scan.hit_way)
        (λ e. refl)
        (λ e.
          if_cases Returns io.regs.lookup_r.is_direct_mapped direct
            (complete_scan limits config io scan scan.hit_way) (λ f. refl)
            (λ f. complete_scan-Returns io scan scan.hit_way t fits))

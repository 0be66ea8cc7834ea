-- ===== src/Bridge/Pack.antt =====
-- include/axi_dual_port_route_shape.h: the bytes of a 64-bit line and the beats that carry them. An
-- `int32_t` offset is its bit pattern; the difference of two is taken on 32 bits, and a negative one
-- is a pattern from 2^31 on, which no byte count reaches.
pub mod Laws
use axi_interconnect_kit.Prelude.Words.{u8, u32, sub32, bit, byte, put_byte}
use axi_interconnect_kit.Prelude.{Bool, if◌then◌else◌, leb, ltb, suc, zero, ℕ, ◌*◌, ◌+◌, ◌==◌, ◌^◌}

pub record WritePack64 : Type 0 where
  pub axi_wdata : ℕ
  pub axi_wstrb : ℕ

pub record ReadPack64 : Type 0 where
  pub merged_data : ℕ
  pub final_data : ℕ

unfoldable pub get_byte64 : ℕ → ℕ → ℕ
get_byte64 value byte_idx = if leb 8 byte_idx then 0 else byte value byte_idx

unfoldable pub set_byte64 : ℕ → ℕ → ℕ → ℕ
set_byte64 value byte_idx byte_value =
    if leb 8 byte_idx then value else put_byte value byte_idx byte_value

-- The strobe bit of a lane that is not yet set: `wstrb |= 1u << byte_idx`.
abbrev set_strobe : ℕ → ℕ → ℕ
set_strobe wstrb byte_idx = wstrb + 2 ^ byte_idx

module _ (req_addr issued_addr beat_idx : ℕ) (mode2_ddr_aligned : Bool)
    (bytes axi_data_bytes : ℕ) where
  abbrev pub byte_off : ℕ
  byte_off = sub32 req_addr issued_addr

  -- The byte of the burst that a lane of this beat carries.
  abbrev pub dst_byte : ℕ → ℕ
  dst_byte byte_idx = u32 (beat_idx * axi_data_bytes + byte_idx)

  abbrev pub src_byte : ℕ → ℕ
  src_byte byte_idx =
      if mode2_ddr_aligned then sub32 (dst_byte byte_idx) byte_off else dst_byte byte_idx

  -- The body of the write loop, for a line of `bytes` bytes.
  unfoldable pub write_lane : ℕ → ℕ → ℕ → WritePack64 → WritePack64
  unfolding set_byte64 get_byte64
  write_lane line_data line_strb byte_idx out =
      let src = src_byte byte_idx in
      if ltb src bytes
      then record {
        axi_wdata = set_byte64 out.axi_wdata byte_idx (get_byte64 line_data (u8 src));
        axi_wstrb =
            if bit line_strb src == 1 then set_strobe out.axi_wstrb byte_idx else out.axi_wstrb;
      }
      else out

  unfoldable pub write_lanes : ℕ → ℕ → ℕ → ℕ → WritePack64 → WritePack64
  unfolding write_lane
  write_lanes line_data line_strb byte_idx zero out = out
  write_lanes line_data line_strb byte_idx (suc n) out =
      write_lanes line_data line_strb (byte_idx + 1) n (write_lane line_data line_strb byte_idx out)

  unfoldable pub write_pack64 : ℕ → ℕ → WritePack64
  unfolding write_lanes
  write_pack64 line_data line_strb =
      write_lanes line_data line_strb 0 axi_data_bytes (record { axi_wdata = 0; axi_wstrb = 0 })

  -- The merge loop of a read beat into a response of `bytes` bytes.
  unfoldable pub merge_lanes : ℕ → ℕ → ℕ → ℕ → ℕ
  unfolding set_byte64 get_byte64
  merge_lanes beat_data byte_idx zero merged = merged
  merge_lanes beat_data byte_idx (suc n) merged = merge_lanes beat_data (byte_idx + 1) n (
      if ltb (dst_byte byte_idx) bytes
      then set_byte64 merged (u8 (dst_byte byte_idx)) (get_byte64 beat_data byte_idx)
      else merged)

  -- The extraction loop of an aligned read.
  unfoldable pub extract_bytes : ℕ → ℕ → ℕ → ℕ → ℕ
  unfolding set_byte64 get_byte64
  extract_bytes merged dst zero final = final
  extract_bytes merged dst (suc n) final =
      let src = u32 (dst + byte_off) in
      extract_bytes merged (dst + 1) n
        (if ltb src bytes then set_byte64 final dst (get_byte64 merged (u8 src)) else final)

  unfoldable pub read_pack64 : ℕ → ℕ → ReadPack64
  unfolding merge_lanes extract_bytes
  read_pack64 current_data beat_data =
      let merged = merge_lanes beat_data 0 axi_data_bytes current_data in
      record {
        merged_data = merged;
        final_data = if mode2_ddr_aligned then extract_bytes merged 0 bytes 0 else merged;
      }

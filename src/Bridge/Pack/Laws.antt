-- ===== src/Bridge/Pack/Laws.antt =====
-- include/axi_dual_port_route_shape.h: the bytes of a beat between packing and unpacking.
use native.Mathlib.Decide.{ℕ_discrete}
use axi_interconnect_kit.Prelude.Words.{
  u8, u32, sub32, byte, byte-lt, byte-put_byte_self, byte-put_byte_ne,
}
use axi_interconnect_kit.Bridge.Pack.{
  WritePack64, get_byte64, set_byte64, byte_off, dst_byte, src_byte, write_lane, write_lanes,
  write_pack64, merge_lanes, extract_bytes, read_pack64,
}
use axi_interconnect_kit.Prelude.{
  Bool, arith, if◌then◌else◌, leb, ltb, refl, suc, zero, ℕ, ◌&&◌, ◌*◌, ◌+◌, ◌-◌, ◌<◌, ◌==◌, ◌∙◌,
  ◌≡◌, ◌≤◌, Bool-cases, false, inl, inr, true,
}

get_byte64-lt : (v i : ℕ) → get_byte64 v i < 256
unfolding get_byte64
get_byte64-lt v i = ground (arith, byte-lt v i)

-- A byte of a word in which one byte below 8 was set.
byte-set_byte64 :
    (v i b k : ℕ) → i < 8 → b < 256 → byte (set_byte64 v i b) k ≡ (if i == k then b else byte v k)
unfolding set_byte64
byte-set_byte64 v i b k h l = elim (ℕ_discrete i k) [
  | yes e ↦ rw (← e) (ground (arith, byte-put_byte_self v i b l))
  | no ne ↦ ground (arith, byte-put_byte_ne v i k b l ne)
]

byte-if_set :
    (v d limit b k : ℕ)
    → limit ≤ 8
    → b < 256
    → byte (if ltb d limit then set_byte64 v (u8 d) b else v) k
      ≡ (if ltb d limit && d == k then b else byte v k)
byte-if_set v d limit b k h l = elim (Bool-cases (ltb d limit)) [
  | inl e ↦
      let lt : d < limit = ground arith in
      let same : u8 d ≡ d = omega arith in rw e (rw same (byte-set_byte64 v d b k (omega arith) l))
  | inr e ↦ rw e
]

byte-zero : (k : ℕ) → byte 0 k ≡ 0
unfolding byte
byte-zero zero = refl
byte-zero (suc k) = byte-zero k

module _ (req_addr issued_addr beat_idx : ℕ) (aligned : Bool) (bytes axi_data_bytes : ℕ) where
  abbrev src : ℕ → ℕ
  src = src_byte req_addr issued_addr beat_idx aligned bytes axi_data_bytes

  abbrev dst : ℕ → ℕ
  dst = dst_byte req_addr issued_addr beat_idx aligned bytes axi_data_bytes

  abbrev off : ℕ
  off = byte_off req_addr issued_addr beat_idx aligned bytes axi_data_bytes

  byte-write_lanes :
      (line strb i n k : ℕ) (out : WritePack64)
      → i + n ≤ 8
      → byte
          (write_lanes req_addr issued_addr beat_idx aligned bytes axi_data_bytes line strb i n
            out).axi_wdata
          k
        ≡ (if leb i k && (ltb k (i + n) && ltb (src k) bytes)
            then get_byte64 line (u8 (src k))
            else byte out.axi_wdata k)
  unfolding write_lanes write_lane
  byte-write_lanes line strb i zero k out h = ground arith
  byte-write_lanes line strb i (suc n) k out h =
      let out' =
        write_lane req_addr issued_addr beat_idx aligned bytes axi_data_bytes line strb i out in
      byte-write_lanes line strb (i + 1) n k out' (omega arith) ∙ (elim (ℕ_discrete i k) [
        | yes e ↦ rw (← e) (
            ground (
              arith,
              byte-set_byte64 out.axi_wdata i (get_byte64 line (u8 (src i))) i (omega arith)
                  (get_byte64-lt line (u8 (src i))),
            ))
        | no ne ↦ ground (
          arith,
          byte-set_byte64 out.axi_wdata i (get_byte64 line (u8 (src i))) k (omega arith)
              (get_byte64-lt line (u8 (src i))),
        )
      ])

  byte-merge_lanes :
      (beat i n k merged : ℕ)
      → bytes ≤ 8
      → beat_idx * axi_data_bytes + (i + n) < 4294967296
      → byte
          (merge_lanes req_addr issued_addr beat_idx aligned bytes axi_data_bytes beat i n merged)
          k
        ≡ (if leb (beat_idx * axi_data_bytes + i) k
              && (ltb k (beat_idx * axi_data_bytes + (i + n)) && ltb k bytes)
            then get_byte64 beat (k - beat_idx * axi_data_bytes)
            else byte merged k)
  unfolding merge_lanes
  byte-merge_lanes beat i zero k merged h l = ground arith
  byte-merge_lanes beat i (suc n) k merged h l =
      let b = beat_idx * axi_data_bytes in
      let merged' =
        if ltb (dst i) bytes then set_byte64 merged (u8 (dst i)) (get_byte64 beat i) else merged in
      let place : dst i ≡ b + i = omega arith in
      byte-merge_lanes beat (i + 1) n k merged' h (omega arith)
      ∙ ground
          (arith, byte-if_set merged (dst i) bytes (get_byte64 beat i) k h (get_byte64-lt beat i))

  byte-extract_bytes :
      (merged j n final k : ℕ)
      → bytes ≤ 8
      → j + n ≤ 8
      → byte
          (extract_bytes req_addr issued_addr beat_idx aligned bytes axi_data_bytes merged j n
            final)
          k
        ≡ (if leb j k && (ltb k (j + n) && ltb (u32 (k + off)) bytes)
            then get_byte64 merged (u8 (u32 (k + off)))
            else byte final k)
  unfolding extract_bytes
  byte-extract_bytes merged j zero final k h l = ground arith
  byte-extract_bytes merged j (suc n) final k h l =
      let s = u32 (j + off) in
      let final' = if ltb s bytes then set_byte64 final j (get_byte64 merged (u8 s)) else final in
      byte-extract_bytes merged (j + 1) n final' k h (omega arith) ∙ (elim (ℕ_discrete j k) [
        | yes e ↦ rw (← e) (
            ground (
              arith,
              byte-set_byte64 final j (get_byte64 merged (u8 s)) j (omega arith)
                  (get_byte64-lt merged (u8 s)),
            ))
        | no ne ↦ ground (
          arith,
          byte-set_byte64 final j (get_byte64 merged (u8 s)) k (omega arith)
              (get_byte64-lt merged (u8 s)),
        )
      ])

mul-bound : (b n : ℕ) → b < 256 → b * n ≤ 256 * n
mul-bound b zero h = omega arith
mul-bound b (suc n) h = omega (arith, mul-bound b n h)

-- A lane of a packed beat whose byte of the line is `j`.
module _ (req_addr issued_addr beat_idx : ℕ) (aligned : Bool) (bytes axi_data_bytes : ℕ) where
  packed :
      (line strb k j : ℕ)
      → bytes ≤ 8
      → axi_data_bytes ≤ 8
      → k < axi_data_bytes
      → src req_addr issued_addr beat_idx aligned bytes axi_data_bytes k ≡ j
      → j < bytes
      → get_byte64
          (write_pack64 req_addr issued_addr beat_idx aligned bytes axi_data_bytes line
            strb).axi_wdata
          k
        ≡ byte line j
  unfolding write_pack64 get_byte64
  packed line strb k j h l kn e jn =
      let out : WritePack64 = record { axi_wdata = 0; axi_wstrb = 0 } in
      ground (
        arith,
        byte-write_lanes req_addr issued_addr beat_idx aligned bytes axi_data_bytes line strb 0
            axi_data_bytes k out (omega arith),
      )

-- Outside the aligned mode, for lines and beats of at most 8 bytes: when the beat that a write packs
-- from a line is merged into a read's data at the same beat, each byte of the line that the beat
-- carries is the line's, and each other byte is what it was.
pub read_pack64-write_pack64 :
    (req_addr issued_addr beat_idx bytes axi_data_bytes line strb current k : ℕ)
    → beat_idx < 256
    → bytes ≤ 8
    → axi_data_bytes ≤ 8
    → let b = beat_idx * axi_data_bytes in
      let w = write_pack64 req_addr issued_addr beat_idx false bytes axi_data_bytes line strb in
      byte
        (read_pack64 req_addr issued_addr beat_idx false bytes axi_data_bytes current
          w.axi_wdata).final_data
        k
      ≡ (if leb b k && (ltb k (b + axi_data_bytes) && ltb k bytes)
          then byte line k
          else byte current k)
unfolding read_pack64
read_pack64-write_pack64 req_addr issued_addr beat_idx bytes axi_data_bytes line strb current k hb h
      l =
    let b = beat_idx * axi_data_bytes in
    let w = write_pack64 req_addr issued_addr beat_idx false bytes axi_data_bytes line strb in
    let bound = mul-bound beat_idx axi_data_bytes hb in
    byte-merge_lanes req_addr issued_addr beat_idx false bytes axi_data_bytes w.axi_wdata 0
      axi_data_bytes k current h (omega arith)
    ∙ (elim (Bool-cases (leb b k && (ltb k (b + axi_data_bytes) && ltb k bytes))) [
      | inl e ↦
          let low : b ≤ k = ground arith in
          let high : k < b + axi_data_bytes = ground arith in
          let inside : k < bytes = ground arith in
          let here : u32 (b + (k - b)) ≡ k = omega arith in
          let carried =
            packed req_addr issued_addr beat_idx false bytes axi_data_bytes line strb (k - b) k h l
              (omega arith) here inside in
          ground (arith, carried)
      | inr e ↦ ground arith
    ])

-- In the aligned mode, for a line of at most 8 bytes that one beat of at most 8 bytes carries, and an
-- address issued at or below the request's: when the beat that a write packs from a line is merged
-- into a read, byte `k` of the final data is the line's byte `k` if it lies within the beat behind
-- the request's offset.
pub read_pack64-write_pack64_aligned :
    (req_addr issued_addr bytes axi_data_bytes line strb current k : ℕ)
    → bytes ≤ axi_data_bytes
    → axi_data_bytes ≤ 8
    → issued_addr ≤ req_addr
    → req_addr < 4294967296
    → k + (req_addr - issued_addr) < bytes
    → let w = write_pack64 req_addr issued_addr 0 true bytes axi_data_bytes line strb in
      byte
        (read_pack64 req_addr issued_addr 0 true bytes axi_data_bytes current
          w.axi_wdata).final_data
        k
      ≡ byte line k
unfolding read_pack64 get_byte64
read_pack64-write_pack64_aligned req_addr issued_addr bytes axi_data_bytes line strb current k hb h
      l u v =
    let w = write_pack64 req_addr issued_addr 0 true bytes axi_data_bytes line strb in
    let j = k + (req_addr - issued_addr) in
    let merged =
      merge_lanes req_addr issued_addr 0 true bytes axi_data_bytes w.axi_wdata 0 axi_data_bytes
        current in
    let place : u32 (k + sub32 req_addr issued_addr) ≡ j = omega arith in
    let back : sub32 (u32 (0 * axi_data_bytes + j)) (sub32 req_addr issued_addr) ≡ k =
      omega arith in
    let carried =
      packed req_addr issued_addr 0 true bytes axi_data_bytes line strb j k (omega arith) h
        (omega arith) back (omega arith) in
    let kept =
      byte-merge_lanes req_addr issued_addr 0 true bytes axi_data_bytes w.axi_wdata 0 axi_data_bytes
        j current (omega arith) (omega arith) in
    byte-extract_bytes req_addr issued_addr 0 true bytes axi_data_bytes merged 0 bytes 0 k
      (omega arith) (omega arith)
    ∙ (ground (arith, carried, kept, byte-zero k))

-- ===== src/Bridge/Queue.antt =====
-- include/axi_dual_port_route_shape.h: which request the bridge accepts, and the pointers of its
-- queues.
pub mod Laws
use axi_interconnect_kit.Prelude.Words.{u8}
use axi_interconnect_kit.Prelude.{
  Bool, false, if◌then◌else◌, leb, ltb, not, true, ℕ, ◌&&◌, ◌+◌, ◌-◌, ◌==◌, ◌||◌,
}

pub record ReqAcceptControl : Type 0 where
  pub accept_cache : Bool
  pub accept_bypass : Bool
  pub accept_write : Bool
  pub accept_slot : ℕ
  pub accept_axi_id : ℕ
  pub accept_total_beats : ℕ

pub record FifoPtrControl : Type 0 where
  pub next_head : ℕ
  pub next_tail : ℕ
  pub next_count : ℕ

pub record QueueControl : Type 0 where
  pub rd_issue_space : Bool
  pub wr_aw_space : Bool
  pub wr_w_space : Bool
  pub cache_rd_rsp_valid : Bool
  pub bypass_rd_rsp_valid : Bool
  pub cache_wr_rsp_valid : Bool
  pub bypass_wr_rsp_valid : Bool
  pub cache_rd_rsp_space : Bool
  pub bypass_rd_rsp_space : Bool
  pub cache_wr_rsp_space : Bool
  pub bypass_wr_rsp_space : Bool
  pub rd_issue_handshake : Bool
  pub wr_aw_handshake : Bool
  pub wr_w_handshake : Bool
  pub rd_issue_push : Bool
  pub rd_issue_pop : Bool
  pub wr_aw_push : Bool
  pub wr_aw_pop : Bool
  pub wr_w_push : Bool
  pub wr_w_pop : Bool

abbrev pub no_accept : ReqAcceptControl
no_accept = record {
  accept_cache = false;
  accept_bypass = false;
  accept_write = false;
  accept_slot = 0;
  accept_axi_id = 0;
  accept_total_beats = 0;
}

-- What one of the two request sources asks for.
pub record Req : Type 0 where
  pub valid : Bool
  pub write : Bool
  pub total_beats : ℕ

-- What a direction has free: a slot, an AXI ID, and room in its queues.
pub record Room : Type 0 where
  pub free_found : Bool
  pub free_slot : ℕ
  pub axi_id_found : Bool
  pub axi_id : ℕ
  pub issue_space : Bool
  pub data_space : Bool

-- Only a write needs room for data.
abbrev has_room : Bool → Room → Bool
has_room write r =
    r.free_found && (r.axi_id_found && (r.issue_space && (not write || r.data_space)))

abbrev accept : Bool → Req → Room → ReqAcceptControl
accept from_cache req room =
    if has_room req.write room
    then record {
      accept_cache = from_cache;
      accept_bypass = not from_cache;
      accept_write = req.write;
      accept_slot = room.free_slot;
      accept_axi_id = room.axi_id;
      accept_total_beats = req.total_beats;
    }
    else no_accept

-- The cache's request comes first.
unfoldable pub req_accept_control : Req → Req → Room → Room → ReqAcceptControl
req_accept_control cache bypass rd wr =
    if cache.valid
    then accept true cache (if cache.write then wr else rd)
    else if bypass.valid
    then accept false bypass (if bypass.write then wr else rd)
    else no_accept

unfoldable pub next_ptr : ℕ → ℕ → ℕ
next_ptr ptr_value depth =
    if leb depth 1 then 0 else if ptr_value == u8 (depth - 1) then 0 else u8 (ptr_value + 1)

-- `(uint8_t)(count - 1u)` is `u8 (count + 255)`.
unfoldable pub fifo_ptr_control : ℕ → ℕ → ℕ → Bool → Bool → ℕ → FifoPtrControl
unfolding next_ptr
fifo_ptr_control head tail count push pop depth = record {
  next_head = if pop then next_ptr head depth else head;
  next_tail = if push then next_ptr tail depth else tail;
  next_count =
      if push && not pop
      then u8 (count + 1)
      else if not push && pop
      then u8 (count + 255)
      else count;
}

unfoldable pub queue_control :
    ℕ
    → ℕ
    → ℕ
    → ℕ
    → ℕ
    → ℕ
    → ℕ
    → Bool
    → Bool
    → Bool
    → Bool
    → Bool
    → Bool
    → Bool
    → Bool
    → Bool
    → Bool
    → ℕ
    → ℕ
    → QueueControl
queue_control rd_issue_count wr_aw_count wr_w_count cache_rd_rsp_count bypass_rd_rsp_count
      cache_wr_rsp_count bypass_wr_rsp_count accept_cache accept_bypass accept_write rd_issue_valid
      axi_arready wr_aw_valid axi_awready wr_w_valid axi_wready axi_wlast read_depth write_depth =
    let accept_any = accept_cache || accept_bypass in
    record {
      rd_issue_space = ltb rd_issue_count read_depth;
      wr_aw_space = ltb wr_aw_count write_depth;
      wr_w_space = ltb wr_w_count write_depth;
      cache_rd_rsp_valid = not (cache_rd_rsp_count == 0);
      bypass_rd_rsp_valid = not (bypass_rd_rsp_count == 0);
      cache_wr_rsp_valid = not (cache_wr_rsp_count == 0);
      bypass_wr_rsp_valid = not (bypass_wr_rsp_count == 0);
      cache_rd_rsp_space = ltb cache_rd_rsp_count read_depth;
      bypass_rd_rsp_space = ltb bypass_rd_rsp_count read_depth;
      cache_wr_rsp_space = ltb cache_wr_rsp_count write_depth;
      bypass_wr_rsp_space = ltb bypass_wr_rsp_count write_depth;
      rd_issue_handshake = rd_issue_valid && axi_arready;
      wr_aw_handshake = wr_aw_valid && axi_awready;
      wr_w_handshake = wr_w_valid && axi_wready;
      rd_issue_push = accept_any && not accept_write;
      rd_issue_pop = rd_issue_valid && axi_arready;
      wr_aw_push = accept_any && accept_write;
      wr_aw_pop = wr_aw_valid && axi_awready;
      wr_w_push = accept_any && accept_write;
      wr_w_pop = wr_w_valid && (axi_wready && axi_wlast);
    }

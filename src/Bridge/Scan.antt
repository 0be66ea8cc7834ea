-- ===== src/Bridge/Scan.antt =====
-- include/axi_dual_port_route_shape.h, axi_bridge_pending_scan_control: the slots of a pending table.
-- A mask's bit is read by `bit`, and `used_ids` is the predicate of its set bits. A slot from 32 on,
-- or a used ID from 64 on, is a shift beyond the word in the source, which leaves it undefined.
pub mod Laws
use axi_interconnect_kit.Prelude.Words.{u8, u16, bit}
use axi_interconnect_kit.Bridge.Route.{mask_axi_id}
use axi_interconnect_kit.Prelude.{
  Bool, false, if◌then◌else◌, leb, not, suc, true, zero, ℕ, ◌&&◌, ◌*◌, ◌+◌, ◌/◌, ◌==◌, ◌^◌, ◌||◌,
}

pub record PendingScanResult : Type 0 where
  pub free_found : Bool
  pub free_slot : ℕ
  pub axi_id_found : Bool
  pub axi_id : ℕ
  pub match_found : Bool
  pub match_slot : ℕ
  pub complete_found : Bool
  pub complete_slot : ℕ

-- The loop's variables.
pub record Scan : Type 0 where
  pub out : PendingScanResult
  pub used_ids : ℕ → Bool

abbrev pub nothing : PendingScanResult
nothing = record {
  free_found = false;
  free_slot = 0;
  axi_id_found = false;
  axi_id = 0;
  match_found = false;
  match_slot = 0;
  complete_found = false;
  complete_slot = 0;
}

unfoldable pub scan_packed_id : ℕ → ℕ → ℕ → ℕ
unfolding mask_axi_id
scan_packed_id packed_ids slot id_width =
    mask_axi_id (u8 (packed_ids / 2 ^ u8 (slot * id_width))) id_width

module _ (entry_count id_width valid_mask complete_mask packed_ids match_id : ℕ) where
  abbrev pub id_count : ℕ
  id_count = u16 (2 ^ id_width)

  abbrev pub slot_id_mode : Bool
  slot_id_mode = leb entry_count id_count

  unfoldable pub slot_id : ℕ → ℕ
  unfolding scan_packed_id
  slot_id slot = if slot_id_mode then slot else scan_packed_id packed_ids slot id_width

  abbrev pub is_valid : ℕ → Bool
  is_valid slot = bit valid_mask slot == 1

  abbrev pub is_match : ℕ → Bool
  is_match slot = is_valid slot && slot_id slot == mask_axi_id match_id id_width

  abbrev pub is_complete : ℕ → Bool
  is_complete slot = is_valid slot && bit complete_mask slot == 1

  -- The loop's body for one slot.
  unfoldable pub scan_slot : ℕ → Scan → Scan
  scan_slot slot s =
      let free = not s.out.free_found && not (is_valid slot) in
      let matched = not s.out.match_found && is_match slot in
      let complete = not s.out.complete_found && is_complete slot in
      record {
        out = record (s.out) {
          free_found = s.out.free_found || free;
          free_slot = if free then slot else s.out.free_slot;
          match_found = s.out.match_found || matched;
          match_slot = if matched then slot else s.out.match_slot;
          complete_found = s.out.complete_found || complete;
          complete_slot = if complete then slot else s.out.complete_slot;
        };
        used_ids =
            if is_valid slot && not slot_id_mode
            then (λ id. s.used_ids id || id == slot_id slot)
            else s.used_ids;
      }

  -- The loop from `slot`, with `n` slots left.
  unfoldable pub scan_slots : ℕ → ℕ → Scan → Scan
  unfolding scan_slot
  scan_slots slot zero s = s
  scan_slots slot (suc n) s = scan_slots (slot + 1) n (scan_slot slot s)

  -- The search for an ID that no slot uses, from `id` on with `n` left.
  unfoldable pub scan_ids : (ℕ → Bool) → ℕ → ℕ → PendingScanResult → PendingScanResult
  scan_ids used id zero out = out
  scan_ids used id (suc n) out = scan_ids used (id + 1) n (
      if not out.axi_id_found && not (used id)
      then record out { axi_id_found = true; axi_id = u8 id }
      else out)

  unfoldable pub pending_scan_control : PendingScanResult
  unfolding scan_slots scan_ids mask_axi_id
  pending_scan_control =
      let s = scan_slots 0 entry_count (record { out = nothing; used_ids = λ _. false }) in
      if slot_id_mode
      then record (s.out) {
        axi_id_found = s.out.free_found;
        axi_id = mask_axi_id s.out.free_slot id_width;
      }
      else scan_ids s.used_ids 0 id_count s.out

-- ===== src/SimDdr/Writes.antt =====
-- sim_ddr/SimDDR.cpp, the write channel: targets of data and drain, the drain mode, retirement.
use axi_interconnect_kit.Prelude.Words.{u16}
use axi_interconnect_kit.Axi.{resp_okay}
use axi_interconnect_kit.SimDdr.{Config, SimDdr, WriteTransaction, WriteRespPending}
use axi_interconnect_kit.Prelude.{
  Bool, List, Option, [], false, if◌then◌else◌, is_some, leb, length, ltb, none, not, some, true, ℕ,
  ◌&&◌, ◌++◌, ◌+◌, ◌==◌, ◌||◌, ◌∷◌,
}

-- The index of the first element that passes the test.
unfoldable pub find_from {ℓ} : {A : Type ℓ} → (A → Bool) → ℕ → List A → Option ℕ
find_from p i [] = none
find_from p i (x ∷ xs) = let rest = find_from p (i + 1) xs in if p x then some i else rest

abbrev pub wants_data : WriteTransaction → Bool
wants_data t = not t.data_done

abbrev pub wants_drain : WriteTransaction → Bool
wants_drain t = ltb t.beats_drained t.beats_accepted

unfoldable pub find_write_data_target : SimDdr → Option ℕ
unfolding find_from
find_write_data_target s = find_from wants_data 0 s.w_pending

unfoldable pub find_write_drain_target : SimDdr → Option ℕ
unfolding find_from
find_write_drain_target s = find_from wants_drain 0 s.w_pending

abbrev pub is_empty {ℓ} : {A : Type ℓ} → List A → Bool
is_empty [] = true
is_empty (x ∷ xs) = false

abbrev head_drains : List WriteTransaction → Bool
head_drains [] = false
head_drains (t ∷ ts) = t.data_done && ltb t.beats_drained t.beats_accepted

unfoldable pub head_write_needs_drain : SimDdr → Bool
head_write_needs_drain s = head_drains s.w_pending

module _ (config : Config) where
  unfoldable pub should_enter_write_drain_mode : SimDdr → Bool
  unfolding head_write_needs_drain
  should_enter_write_drain_mode s =
      if is_empty s.w_data_fifo
      then false
      else head_write_needs_drain s || leb config.write_drain_high_watermark (length s.w_data_fifo)

  unfoldable pub should_keep_write_drain_mode : SimDdr → Bool
  unfolding head_write_needs_drain
  should_keep_write_drain_mode s =
      if is_empty s.w_data_fifo
      then false
      else if head_write_needs_drain s
      then true
      else ltb config.write_drain_low_watermark (length s.w_data_fifo)

  -- Whether a response may be shown.
  abbrev pub is_due : WriteRespPending → Bool
  is_due front = config.write_resp_latency == 0 || leb config.write_resp_latency front.latency_cnt

  abbrev pub b_front : List WriteRespPending → Bool × ℕ
  b_front [] = (false, 0)
  b_front (front ∷ rest) = if is_due front then (true, front.id) else (false, 0)

  unfoldable pub comb_write_channel : SimDdr → SimDdr
  unfolding find_write_data_target
  comb_write_channel s =
      let front : Bool × ℕ = b_front s.w_resp_queue in
      record s {
        io = record (s.io) {
          aw = record (s.io.aw) { awready = ltb (length s.w_pending) config.write_queue_depth };
          w = record (s.io.w) {
            wready =
                is_some (find_write_data_target s)
                && (ltb (length s.w_data_fifo) config.write_data_fifo_depth
                    && (s.w_accept_cooldown == 0 && not s.w_drain_mode));
          };
          b = record (s.io.b) { bvalid = front.0; bid = front.1; bresp = resp_okay };
        };
      }

-- A write is over when its data is in and as many beats are drained as its length says.
abbrev pub is_retired : WriteTransaction → Bool
is_retired t = t.data_done && t.beats_drained == u16 (t.len + 1)

abbrev pub resp_of : WriteTransaction → WriteRespPending
resp_of t = record { id = t.id; addr = t.addr; latency_cnt = 0 }

-- The loop of `retire_completed_writes` over the queue of writes and that of responses.
unfoldable pub retire :
    List WriteTransaction → List WriteRespPending → List WriteTransaction × List WriteRespPending
retire [] resps = ([], resps)
retire (t ∷ ts) resps =
    let rest = retire ts (resps ++ resp_of t ∷ []) in if is_retired t then rest else (t ∷ ts, resps)

unfoldable pub retire_completed_writes : SimDdr → SimDdr
unfolding retire
retire_completed_writes s =
    let (pending, resps) = retire s.w_pending s.w_resp_queue in
    record s { w_pending = pending; w_resp_queue = resps }

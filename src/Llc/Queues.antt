-- ===== src/Llc/Queues.antt =====
-- axi_interconnect/AXI_LLC.cpp: the queues of read responses, of victims of reads and of writes.
-- Counts and indices are `uint8_t`.
pub mod Laws
use axi_interconnect_kit.Prelude.{
  Bool, Option, false, if◌then◌else◌, leb, ltb, none, not, some, true, ℕ, ◌%◌, ◌&&◌, ◌+◌, ◌==◌,
  ◌||◌,
}
use axi_interconnect_kit.Llc.{Config, Limits, num_read_masters, num_write_masters}
use axi_interconnect_kit.Llc.Regs.{
  Io, ReadRespSlot, ReadVictimWbQueue, ReadVictimWbReq, Regs, WritePendingReq,
}
use axi_interconnect_kit.Llc.Pending.{any_queued_victim, queue_depth}
use axi_interconnect_kit.Llc.Ports.{no_words, ReadResp}
use axi_interconnect_kit.Prelude.Words.{u8}
use axi_interconnect_kit.Prelude.Arrays.{update}

abbrev pub dec8 : ℕ → ℕ
dec8 n = u8 (n + 255)

module _ (limits : Limits) (config : Config) where
  abbrev pub depth : ℕ
  depth = queue_depth limits config

  -- A master's response: into the slot, or behind it in the ring; `none` when the ring is full.
  unfoldable pub push_response : ℕ → (ℕ → ℕ) → ReadRespSlot → Option ReadRespSlot
  unfolding update
  push_response id payload r =
      let tail = r.q_tail % depth in
      if not r.valid
      then some (record r { valid = true; fresh = true; id = id; payload = payload })
      else if leb depth r.q_count
      then none
      else some (record r {
        q_id = update r.q_id tail (λ old. id);
        q_data = update r.q_data tail (λ old. payload);
        q_tail = u8 ((tail + 1) % depth);
        q_count = u8 (r.q_count + 1);
      })

  abbrev pub put_response : ℕ → Regs → Option ReadRespSlot → Bool × Regs
  put_response master regs none = (false, regs)
  put_response master regs (some r) =
      (true, record regs { read_resp = update regs.read_resp master (λ old. r) })

  unfoldable pub enqueue_read_response : ℕ → ℕ → (ℕ → ℕ) → Regs → Bool × Regs
  unfolding push_response
  enqueue_read_response master id payload regs =
      if leb num_read_masters master
      then (false, regs)
      else put_response master regs (push_response id payload (regs.read_resp master))

  -- The head of the ring of `cur` into the slot of `next`.
  abbrev pub pop_response : ReadRespSlot → ReadRespSlot → ReadRespSlot
  pop_response cur next =
      let head = cur.q_head % depth in
      record next {
        valid = true;
        fresh = true;
        id = cur.q_id head;
        payload = cur.q_data head;
        q_id = update next.q_id head (λ old. 0);
        q_data = update next.q_data head (λ old. no_words);
        q_head = u8 ((head + 1) % depth);
        q_count = dec8 next.q_count;
      }

  -- A response is kept for a cycle, then given when the master is ready.
  abbrev pub retire_response : Bool → ReadRespSlot → ReadRespSlot → ReadRespSlot
  retire_response ready cur next =
      if cur.valid && cur.fresh
      then record next { fresh = false }
      else if cur.valid && ready
      then (if not (cur.q_count == 0)
          then pop_response cur next
          else record next { valid = false; fresh = false; id = 0; payload = no_words })
      else next

  unfoldable pub step_response : Bool → ReadRespSlot → ReadRespSlot → ReadRespSlot
  step_response ready cur next =
      let retired = retire_response ready cur next in
      if not retired.valid && not (cur.q_count == 0) then pop_response cur retired else retired

  abbrev pub shown : ReadRespSlot → ReadResp
  shown r = record { valid = r.valid; payload = r.payload; id = r.id }

  unfoldable pub drive_read_responses : Io → Io
  unfolding step_response
  drive_read_responses io =
      let upstream = io.ext_out.upstream in
      record io {
        ext_out = record io.ext_out {
          upstream = record upstream {
            read_resp = λ i.
                if ltb i num_read_masters
                then shown (io.regs.read_resp i)
                else upstream.read_resp i;
          };
        };
        reg_write = record io.reg_write {
          read_resp = λ i.
              if ltb i num_read_masters
              then step_response (io.ext_in.upstream.read_resp_ready i) (io.regs.read_resp i)
                  (io.reg_write.read_resp i)
              else io.reg_write.read_resp i;
        };
      }

  unfoldable pub read_victim_wb_queue_full : Regs → Bool
  read_victim_wb_queue_full regs = leb depth regs.read_victim_wb.count

  unfoldable pub read_victim_snapshot_queued : Regs → ℕ → ℕ → Bool
  read_victim_snapshot_queued regs owner victim =
      any_queued_victim limits config regs
        (λ entry. entry.owner_slot == owner && entry.victim_addr == victim)

  abbrev pub push_victim : ReadVictimWbReq → ReadVictimWbQueue → ReadVictimWbQueue
  push_victim entry queue =
      let tail = queue.tail % depth in
      record queue {
        q = update queue.q tail (λ old. entry);
        tail = u8 ((tail + 1) % depth);
        count = u8 (queue.count + 1);
      }

  unfoldable pub enqueue_read_victim_snapshot : ℕ → ℕ → (ℕ → ℕ) → (ℕ → Bool) → Regs → Bool × Regs
  unfolding read_victim_snapshot_queued read_victim_wb_queue_full update
  enqueue_read_victim_snapshot owner victim words strobe regs =
      let entry : ReadVictimWbReq = record {
        valid = true;
        owner_slot = owner;
        victim_addr = victim;
        victim_data = words;
        victim_strobe = strobe;
      } in
      if read_victim_snapshot_queued regs owner victim
      then (true, regs)
      else if read_victim_wb_queue_full regs
      then (false, regs)
      else (true, record regs { read_victim_wb = push_victim entry regs.read_victim_wb })

  unfoldable pub write_queue_full : Regs → ℕ → Bool
  write_queue_full regs master =
      ltb master num_write_masters
      && leb limits.max_write_outstanding (regs.write_port master).q_count

  unfoldable pub write_queue_empty : Regs → ℕ → Bool
  write_queue_empty regs master =
      leb num_write_masters master || (regs.write_port master).q_count == 0

  unfoldable pub write_queue_front : Regs → ℕ → Option WritePendingReq
  unfolding write_queue_empty
  write_queue_front regs master =
      let port = regs.write_port master in
      let entry = port.q (port.q_head % limits.max_write_outstanding) in
      if write_queue_empty regs master then none else if entry.valid then some entry else none

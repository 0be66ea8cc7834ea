-- ===== src/Bridge/Queue/Laws.antt =====
-- include/axi_dual_port_route_shape.h: the rings behind the bridge's queues, and acceptance.
use axi_interconnect_kit.Prelude.Words.{u8}
use axi_interconnect_kit.Bridge.Queue.{
  Req, Room, req_accept_control, next_ptr, fifo_ptr_control, queue_control,
}
use axi_interconnect_kit.Prelude.{
  ==_self, Bool, List, [], ap, arith, false, if◌then◌else◌, ltb, not, suc, true, zero, ℕ, ◌&&◌,
  ◌++◌, ◌+◌, ◌<◌, ◌==◌, ◌∷◌, ◌≡◌, ◌≤◌, ◌⊎◌,
}

-- The tail stands `count` places behind the head, around a ring of `depth` places.
pub record IsFifo (depth head tail count : ℕ) : Type 0 where
  pub head_in : head < depth
  pub tail_in : tail < depth
  pub count_in : count ≤ depth
  pub distance : (head + count ≡ tail) ⊎ (head + count ≡ tail + depth)

-- The pointers of a ring of at most 255 places keep their distance when a push finds a place free and
-- a pop an entry, also in the same cycle.
pub fifo_ptr_control-IsFifo :
    (depth head tail count : ℕ) (push pop : Bool)
    → depth < 256
    → IsFifo depth head tail count
    → (push ≡ true → count < depth)
    → (pop ≡ true → 0 < count)
    → let c = fifo_ptr_control head tail count push pop depth in
      IsFifo depth c.next_head c.next_tail c.next_count
unfolding fifo_ptr_control next_ptr
fifo_ptr_control-IsFifo depth head tail count push pop h v room entry = ground arith

next-IsFifo :
    (depth head tail n : ℕ)
    → depth < 256
    → IsFifo depth head tail (suc n)
    → n < depth
    → IsFifo depth (next_ptr head depth) tail n
unfolding next_ptr
next-IsFifo depth head tail n h v l = ground arith

module _ {ℓ} {A : Type ℓ} (depth : ℕ) where
  -- The entries of a ring, oldest first.
  unfoldable pub view : (ℕ → A) → ℕ → ℕ → List A
  view mem head zero = []
  view mem head (suc n) = mem head ∷ view mem (next_ptr head depth) n

  abbrev pub store : (ℕ → A) → ℕ → A → ℕ → A
  store mem i x j = if j == i then x else mem j

  view-store :
      (mem : ℕ → A) (head tail n : ℕ) (x : A)
      → depth < 256
      → IsFifo depth head tail n
      → n < depth
      → view (store mem tail x) head (suc n) ≡ view mem head n ++ x ∷ []
  unfolding view
  view-store mem head tail zero x h v l =
      let e : head ≡ tail = ground arith in rw e (rw (==_self tail))
  view-store mem head tail (suc n) x h v l =
      let ne : (head == tail) ≡ false = ground arith in
      rw ne (
        ap (◌∷◌ (mem head)) (
          view-store mem (next_ptr head depth) tail n x h
            (next-IsFifo depth head tail n h v (omega arith)) (omega arith)))

  -- On a ring of at most 255 places that is well formed, a push that finds a place free, with the
  -- entry stored at the tail, adds the entry at the end of the queue.
  pub push-view :
      (mem : ℕ → A) (head tail count : ℕ) (x : A)
      → depth < 256
      → IsFifo depth head tail count
      → count < depth
      → let c = fifo_ptr_control head tail count true false depth in
        view (store mem tail x) c.next_head c.next_count ≡ view mem head count ++ x ∷ []
  unfolding fifo_ptr_control
  push-view mem head tail count x h v l =
      let e : u8 (count + 1) ≡ suc count = omega arith in
      rw e (view-store mem head tail count x h v l)

-- A request is accepted only into free room: with the queues' space as `queue_control` reports it, a
-- push into the issue, address or data queue finds a place free, at most one source is accepted, and
-- the cache is never passed over for the bypass.
pub accept-has_space :
    (cache bypass : Req) (rd wr : Room) (rd_count aw_count w_count rd_depth wr_depth : ℕ)
    → rd.issue_space ≡ ltb rd_count rd_depth
    → wr.issue_space ≡ ltb aw_count wr_depth
    → wr.data_space ≡ ltb w_count wr_depth
    → let a = req_accept_control cache bypass rd wr in
      let q =
        queue_control rd_count aw_count w_count 0 0 0 0 a.accept_cache a.accept_bypass
          a.accept_write false false false false false false false rd_depth wr_depth in
      ((q.rd_issue_push && not (ltb rd_count rd_depth)) ≡ false)
      × ((q.wr_aw_push && not (ltb aw_count wr_depth)) ≡ false)
      × ((q.wr_w_push && not (ltb w_count wr_depth)) ≡ false)
      × ((a.accept_cache && a.accept_bypass) ≡ false)
      × ((cache.valid && a.accept_bypass) ≡ false)
unfolding req_accept_control queue_control
accept-has_space cache bypass rd wr rd_count aw_count w_count rd_depth wr_depth hr ha hw =
    ground arith

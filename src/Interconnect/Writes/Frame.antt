-- ===== src/Interconnect/Writes/Frame.antt =====
-- axi_interconnect/AXI_Interconnect.cpp: what the end of a write leaves for the other port.
use axi_interconnect_kit.Interconnect.{Build, DownstreamPort, ddr, mmio, same_port}
use axi_interconnect_kit.Interconnect.State.{State, WritePendingTxn}
use axi_interconnect_kit.Interconnect.Writes.{bid, end_write, erase_at, find_in, has_axi_id}
use axi_interconnect_kit.Interconnect.Writes.Search.{first_in-erase}
use axi_interconnect_kit.Llc.{Limits, num_write_masters}
use axi_interconnect_kit.Prelude.{
  false, refl, some, true, ◌&&◌, ◌≡◌, Bool, and-true, lt→ltb, ℕ, ◌<◌, ◌==◌,
}
use axi_interconnect_kit.Interconnect.Writes.Handshake.{answered_txn, answered}

other_port :
    (id j : ℕ) (txn : WritePendingTxn)
    → has_axi_id ddr id txn ≡ true
    → has_axi_id mmio j txn ≡ false
other_port id j txn h = helper txn.port (txn.axi_id == j) (and-true (same_port txn.port ddr) _ h).0
  where
    helper :
        (p : DownstreamPort) (b : Bool) → same_port p ddr ≡ true → same_port p mmio && b ≡ false
    helper ddr b e = refl
    helper mmio b e = absurd (cc)

pub answered_same :
    (build : Build) (t s : State) (m : ℕ)
    → t.downstream ≡ s.downstream
    → answered_txn build t mmio ≡ answered_txn build s mmio
    → answered build t mmio m ≡ answered build s mmio m
unfolding answered
answered_same build t s m dn at = rw (at, dn) refl

module _ (limits : Limits) (build : Build) (s : State) where
  pub end_write-frame :
      (i : ℕ) (a : WritePendingTxn) (resp : ℕ)
      → a.master_id < num_write_masters
      → ((end_write limits s (some i) (some a) resp).downstream ≡ s.downstream)
        × ((end_write limits s (some i) (some a) resp).w_pending ≡ erase_at s.w_pending i)
  unfolding end_write
  end_write-frame i a resp l = rw (lt→ltb a.master_id num_write_masters l) (refl, refl)

  pub ended-answered :
      (i : ℕ) (a : WritePendingTxn) (resp : ℕ)
      → a.master_id < num_write_masters
      → find_in (has_axi_id ddr (bid build s ddr)) s.w_pending ≡ some i
      → answered_txn build (end_write limits s (some i) (some a) resp) mmio
        ≡ answered_txn build s mmio
  unfolding answered_txn
  ended-answered i a resp l e =
      let f = end_write-frame i a resp l in
      rw (f.0, f.1)
        (first_in-erase _ _ s.w_pending i (other_port (bid build s ddr) (bid build s mmio)) e)

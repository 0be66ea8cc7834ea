-- ===== src/SimDdr/Reads/Arbitration.antt =====
-- sim_ddr/SimDDR.cpp: what the arbitration of the backend grants.
use axi_interconnect_kit.SimDdr.{Config, ServiceMode, SimDdr}
use axi_interconnect_kit.SimDdr.Reads.{is_read, is_write, write_ready, update_backend_arbitration}
use axi_interconnect_kit.Prelude.{
  arith, false, true, is_some, if◌then◌else◌, ltb, Bool, not, ◌&&◌, ◌==◌, ◌||◌, ◌≡◌,
}

-- The configured cost of serving one direction after the other.
abbrev pub costs : Config → ServiceMode → Bool → Bool
costs config last to_write =
    is_read last && (to_write && ltb 0 config.read_to_write_turnaround)
    || is_write last && (not to_write && ltb 0 config.write_to_read_turnaround)

-- What the arbitration makes of a cycle.
pub record IsArbitrated (config : Config) (s t : SimDdr) : Type 0 where
  pub one_direction : (t.backend_read_grant && t.backend_write_grant) ≡ false
  pub read_selected : t.backend_read_grant ≡ true → is_some s.r_selected_idx ≡ true
  pub write_waits : t.backend_write_grant ≡ true → write_ready config s ≡ true
  pub read_free :
      t.backend_read_grant ≡ true
      → (s.backend_turnaround_cooldown ≡ 0)
        × (t.backend_switch_pending ≡ false)
        × (costs config s.backend_last_service_mode false ≡ false)
  pub write_free :
      t.backend_write_grant ≡ true
      → (s.backend_turnaround_cooldown ≡ 0)
        × (t.backend_switch_pending ≡ false)
        × (costs config s.backend_last_service_mode true ≡ false)
  pub switch_costs :
      t.backend_switch_pending ≡ true
      → (s.backend_turnaround_cooldown ≡ 0)
        × (costs config s.backend_last_service_mode (is_write t.backend_switch_target_mode) ≡ true)
  pub switch_needed :
      t.backend_switch_pending ≡ true
      → (if is_write t.backend_switch_target_mode
          then write_ready config s
          else is_some s.r_selected_idx)
        ≡ true
  pub switch_target :
      t.backend_switch_pending ≡ true
      → (is_read t.backend_switch_target_mode || is_write t.backend_switch_target_mode) ≡ true
  pub never_stalls :
      (t.backend_read_grant || (t.backend_write_grant || t.backend_switch_pending))
      ≡ ((is_some s.r_selected_idx || write_ready config s) && s.backend_turnaround_cooldown == 0)

-- In a cycle at most one direction is granted, only one that has something ready, only while no
-- turnaround runs and no switch is pending, and only if serving it after the direction that was
-- served last costs nothing. A switch is pending only towards a direction that has something ready
-- and whose configured turnaround, after the direction served last, is not 0. When something is ready
-- and no turnaround runs, either a direction is granted or such a switch begins.
pub update_backend_arbitration_safe :
    (config : Config) (s : SimDdr) → IsArbitrated config s (update_backend_arbitration config s)
unfolding update_backend_arbitration
update_backend_arbitration_safe config s = record {
  one_direction = ground arith;
  read_selected = ground arith;
  write_waits = ground arith;
  read_free = ground arith;
  write_free = ground arith;
  switch_costs = ground arith;
  switch_needed = ground arith;
  switch_target = ground arith;
  never_stalls = ground arith;
}

-- ===== src/Llc/Comb/Sound.antt =====
-- axi_interconnect/AXI_LLC.cpp: comb, cycle after cycle. The queues of responses stay sound, and no
-- line is fetched twice.
use mathlib.Core.Option
use axi_interconnect_kit.Prelude.{
  Option, arith, if_cases, none, refl, some, ℕ, ◌<◌, ap, not, subst, sym, ◌||◌, ◌≡◌, List, [], inr,
  ◌+◌, ◌∷◌,
}
use axi_interconnect_kit.Llc.{Config, Limits, num_read_masters, is_valid}
use axi_interconnect_kit.Llc.Ports.{ExtIn, LookupIn}
use axi_interconnect_kit.Llc.Frame.{IsPhase, Runs, Shrinks, Shrinks-trans}
use axi_interconnect_kit.Llc.Regs.{Io, Regs}
use axi_interconnect_kit.Llc.Lookup.Distinct.{IsDistinctLines, Serves, Shrinks-IsDistinctLines}
use axi_interconnect_kit.Llc.Queues.Laws.{IsRing, drive_read_responses-IsStep}
use axi_interconnect_kit.Llc.Comb.{take_requests, comb, disable, prepare, serve, started, step, run}
use axi_interconnect_kit.Llc.WritePath.Issue.{and_then, drive_write_path}
use axi_interconnect_kit.Llc.Reset.{comb_disabled, seq, reset}
use axi_interconnect_kit.Llc.Refill.Commit.{drive_mem_read_path}
use axi_interconnect_kit.Llc.Queues.{drive_read_responses, depth}
use axi_interconnect_kit.Llc.Lookup.Complete.{try_complete_lookup}
use axi_interconnect_kit.Llc.Lookup.Outcome.{try_complete_lookup-Serves}
use native.Mathlib.Nat.{mod-eq_of_lt}
use axi_interconnect_kit.Llc.Comb.Frame.{take_requests-IsPhase}
use axi_interconnect_kit.Llc.Refill.Commit.Frame.{drive_mem_read_path-Runs}
use axi_interconnect_kit.Llc.WritePath.Frame.{drive_write_path-Runs}

module _ (limits : Limits) (config : Config) where
  -- The indices of every master's queue agree with its count, and no two miss registers fetch one
  -- line for the tables.
  pub record IsSound (regs : Regs) : Type 0 where
    pub rings : (m : ℕ) → m < num_read_masters → IsRing limits config (regs.read_resp m)
    pub distinct : IsDistinctLines limits config regs

  -- A property of what a phase leaves, where the program does not abort.
  unfoldable pub Leaves : (Io → Type 0) → Option Io → Type 0
  Leaves P none = Unit {0}
  Leaves P (some io) = P io

  Leaves-and_then :
      (P Q : Io → Type 0) (f : Io → Option Io) (o : Option Io)
      → Leaves P o
      → ((io : Io) → P io → Leaves Q (f io))
      → Leaves Q (and_then limits config f o)
  unfolding Leaves
  Leaves-and_then P Q f none h g = tt
  Leaves-and_then P Q f (some io) h g = g io h

  Leaves-map :
      (P Q : Io → Type 0) (f : Io → Io) (o : Option Io)
      → Leaves P o
      → ((io : Io) → P io → Q (f io))
      → Leaves Q (Option.map f o)
  unfolding Leaves
  Leaves-map P Q f none h g = tt
  Leaves-map P Q f (some io) h g = g io h

  IsSoundNext : Io → Type 0
  IsSoundNext io = IsSound io.reg_write

  -- What the end of a lookup is in need of.
  record IsReady (io : Io) : Type 0 where
    shrinks : Shrinks io.regs.mshr io.reg_write.mshr
    rings : (m : ℕ) → m < num_read_masters → IsRing limits config (io.reg_write.read_resp m)
    distinct : IsDistinctLines limits config io.regs

  IsPhase-IsSoundNext :
      {io after : Io} → IsPhase limits config io after → IsSoundNext io → IsSoundNext after
  unfolding IsSoundNext
  IsPhase-IsSoundNext {io} {after} h s = record {
    rings = λ m l. h.kept.rings m (s.rings m l);
    distinct =
        Shrinks-IsDistinctLines limits config io.reg_write after.reg_write h.kept.shrinks
          s.distinct;
  }

  IsPhase-IsReady : {io after : Io} → IsPhase limits config io after → IsReady io → IsReady after
  IsPhase-IsReady {io} {after} h s = record {
    shrinks =
        subst (λ r. Shrinks r.mshr after.reg_write.mshr) (sym h.start)
          (Shrinks-trans io.regs.mshr io.reg_write.mshr after.reg_write.mshr s.shrinks
            h.kept.shrinks);
    rings = λ m l. h.kept.rings m (s.rings m l);
    distinct = subst (IsDistinctLines limits config) (sym h.start) s.distinct;
  }

  Runs-IsReady : (io : Io) (o : Option Io) → IsReady io → Runs limits config io o → Leaves IsReady o
  unfolding Runs Leaves
  Runs-IsReady io none s h = tt
  Runs-IsReady io (some after) s h = IsPhase-IsReady h s

  Runs-IsSoundNext :
      (io : Io) (o : Option Io) → IsSoundNext io → Runs limits config io o → Leaves IsSoundNext o
  unfolding Runs Leaves
  Runs-IsSoundNext io none s h = tt
  Runs-IsSoundNext io (some after) s h = IsPhase-IsSoundNext h s

  Serves-IsSoundNext :
      (io : Io) (o : Option Io) → IsReady io → Serves limits config io o → Leaves IsSoundNext o
  unfolding Serves Leaves IsSoundNext
  Serves-IsSoundNext io none s h = tt
  Serves-IsSoundNext io (some after) s h = record {
    rings = λ m l. h.rings m (s.rings m l);
    distinct = h.distinct s.shrinks s.distinct;
  }

  -- The responses that the masters are shown, at the start of the cycle.
  shown-IsReady :
      (io : Io)
      → IsSound io.regs
      → io.reg_write.mshr ≡ io.regs.mshr
      → io.reg_write.read_resp ≡ io.regs.read_resp
      → IsReady (drive_read_responses limits config io)
  unfolding drive_read_responses
  shown-IsReady io s p q = record {
    shrinks = subst (Shrinks io.regs.mshr) (sym p) (λ i v. (v, refl, refl));
    rings = λ m l.
        (drive_read_responses-IsStep limits config io m l (ap (λ f. f m) q) (s.rings m l)).1.0;
    distinct = s.distinct;
  }

  serve-IsSoundNext :
      (cycle : ℕ) (io : Io)
      → IsSound io.regs
      → io.reg_write.mshr ≡ io.regs.mshr
      → io.reg_write.read_resp ≡ io.regs.read_resp
      → Leaves IsSoundNext (serve limits config cycle io)
  unfolding serve
  serve-IsSoundNext cycle io s p q =
      let shown = drive_read_responses limits config io in
      let written = drive_write_path limits config cycle shown in
      Leaves-and_then IsSoundNext IsSoundNext (drive_mem_read_path limits config cycle)
        (and_then limits config (try_complete_lookup limits config) written)
        (Leaves-and_then IsReady IsSoundNext (try_complete_lookup limits config) written
          (Runs-IsReady shown written (shown-IsReady io s p q)
            (drive_write_path-Runs limits config cycle shown))
          (λ a h.
            Serves-IsSoundNext a (try_complete_lookup limits config a) h
              (try_complete_lookup-Serves limits config a)))
        (λ b h.
          Runs-IsSoundNext b (drive_mem_read_path limits config cycle b) h
            (drive_mem_read_path-Runs limits config cycle b))

  disable-IsSoundNext :
      (io : Io) → IsSound io.regs → IsSoundNext (disable limits config (started limits config io))
  unfolding IsSoundNext comb_disabled IsDistinctLines
  disable-IsSoundNext io s = record { rings = s.rings; distinct = s.distinct }

  comb-IsSoundNext :
      (cycle : ℕ) (io : Io) → IsSound io.regs → Leaves IsSoundNext (comb limits config cycle io)
  unfolding comb prepare Leaves
  comb-IsSoundNext cycle io s =
      let ready = prepare limits config (started limits config io) in
      if_cases (Leaves IsSoundNext) (not config.enable || not (is_valid config))
        (some (disable limits config (started limits config io)))
        (Option.map (take_requests limits config) (serve limits config cycle ready))
        (λ e. disable-IsSoundNext io s)
        (λ e.
          Leaves-map IsSoundNext IsSoundNext (take_requests limits config)
            (serve limits config cycle ready) (serve-IsSoundNext cycle ready s refl refl)
            (λ c h. IsPhase-IsSoundNext (take_requests-IsPhase limits config c) h))

  unfoldable pub IsSoundNow : Io → Type 0
  IsSoundNow io = IsSound io.regs

  -- A cycle keeps the registers sound.
  pub step-IsSoundNow :
      (cycle : ℕ) (inputs : ExtIn × LookupIn) (io : Io)
      → IsSound io.regs
      → Leaves IsSoundNow (step limits config cycle inputs io)
  unfolding step seq IsSoundNow IsSoundNext
  step-IsSoundNow cycle (ext_in, rows) io s =
      let found : Io = record io { ext_in = ext_in; lookup_in = rows } in
      Leaves-map IsSoundNext IsSoundNow seq (comb limits config cycle found)
        (comb-IsSoundNext cycle found s) (λ after h. h)

  -- So does any number of cycles.
  pub run-IsSoundNow :
      (cycle : ℕ) (inputs : List (ExtIn × LookupIn)) (io : Io)
      → IsSound io.regs
      → Leaves IsSoundNow (run limits config cycle inputs io)
  unfolding run Leaves IsSoundNow
  run-IsSoundNow cycle [] io s = s
  run-IsSoundNow cycle (one ∷ rest) io s =
      Leaves-and_then IsSoundNow IsSoundNow (λ after. run limits config (cycle + 1) rest after)
        (step limits config cycle one io) (step-IsSoundNow cycle one io s)
        (λ after h. run-IsSoundNow (cycle + 1) rest after h)

  reset-IsSound : 0 < depth limits config → IsSound (reset config).regs
  unfolding reset IsDistinctLines
  reset-IsSound d = record {
    rings = λ m l. (d, sym (mod-eq_of_lt d), omega arith, inr refl);
    distinct = λ i j (l, v, b) h e. absurd (cc);
  }

  -- Whatever the masters, the memory and the tables answer, in any number of cycles from reset the
  -- queues of responses are sound and no line is fetched twice for the tables.
  pub reset-run-IsSoundNow :
      (inputs : List (ExtIn × LookupIn))
      → 0 < depth limits config
      → Leaves IsSoundNow (run limits config 0 inputs (reset config))
  reset-run-IsSoundNow inputs d = run-IsSoundNow 0 inputs (reset config) (reset-IsSound d)

-- ===== src/Llc/Frame.antt =====
-- axi_interconnect/AXI_LLC.cpp: what the phases of a cycle leave of the miss registers and of the
-- queues of responses.
use mathlib.Core.Option
use axi_interconnect_kit.Prelude.{
  Bool-cases, Option, false, if_cases, inl, inr, leb, none, refl, some, subst, sym, true, ℕ, ◌==◌,
  ◌∙◌, ◌≡◌, Bool,
}
use axi_interconnect_kit.Llc.{Config, Limits, num_read_masters}
use axi_interconnect_kit.Llc.Queues.Laws.{IsPushed, IsRing, push_response-IsPushed}
use axi_interconnect_kit.Llc.Regs.{MissEntry, ReadRespSlot, Regs, Io}
use axi_interconnect_kit.Llc.Queues.{enqueue_read_response, push_response, put_response}
use axi_interconnect_kit.Llc.Refill.{no_miss, set_mshr}
use axi_interconnect_kit.Prelude.Arrays.{update, update_ne, update_self}
use native.Mathlib.Decide.{ℕ_discrete}
use axi_interconnect_kit.Llc.WritePath.Issue.{and_then}
use axi_interconnect_kit.Llc.WritePath.{drop_flag, go_on}

-- A register that is in use afterwards was in use before, for the same line.
abbrev pub Shrinks : (ℕ → MissEntry) → (ℕ → MissEntry) → Type 0
Shrinks old new =
    (i : ℕ)
    → (new i).valid ≡ true
    → ((old i).valid ≡ true)
      × ((new i).bypass ≡ (old i).bypass)
      × ((new i).line_addr ≡ (old i).line_addr)

-- So a change of one register.
abbrev pub IsUse : (MissEntry → MissEntry) → Type 0
IsUse f =
    (e : MissEntry)
    → (f e).valid ≡ true
    → (e.valid ≡ true) × ((f e).bypass ≡ e.bypass) × ((f e).line_addr ≡ e.line_addr)

pub Shrinks-update :
    (mshr : ℕ → MissEntry) (slot : ℕ) (f : MissEntry → MissEntry)
    → IsUse f
    → Shrinks mshr (update mshr slot f)
unfolding update
Shrinks-update mshr slot f h i = elim (Bool-cases (slot == i)) [
  | inl e ↦ rw e (h (mshr i))
  | inr e ↦ rw e (λ v. (v, refl, refl))
]

pub Shrinks-trans : (a b c : ℕ → MissEntry) → Shrinks a b → Shrinks b c → Shrinks a c
Shrinks-trans a b c p q i v =
    let (u, s, l) = q i v in let (w, s', l') = p i u in (w, s ∙ s', l ∙ l')

module _ (limits : Limits) (config : Config) where
  pub record Preserves (old new : Regs) : Type 0 where
    pub shrinks : Shrinks old.mshr new.mshr
    pub rings :
        (m : ℕ) → IsRing limits config (old.read_resp m) → IsRing limits config (new.read_resp m)

  pub Preserves-same :
      {old new : Regs} → new.mshr ≡ old.mshr → new.read_resp ≡ old.read_resp → Preserves old new
  Preserves-same {old} {new} p q = record {
    shrinks = subst (Shrinks old.mshr) (sym p) (λ i v. (v, refl, refl));
    rings = λ m.
        subst (λ x. IsRing limits config (old.read_resp m) → IsRing limits config (x m)) (sym q)
          (λ h. h);
  }

  pub Preserves-self : (regs : Regs) → Preserves regs regs
  Preserves-self regs = Preserves-same refl refl

  pub Preserves-trans : {a b c : Regs} → Preserves a b → Preserves b c → Preserves a c
  Preserves-trans {a} {b} {c} p q = record {
    shrinks = Shrinks-trans a.mshr b.mshr c.mshr p.shrinks q.shrinks;
    rings = λ m h. q.rings m (p.rings m h);
  }

  pub Preserves-set_mshr :
      {old : Regs} (new : Regs) (slot : ℕ) (f : MissEntry → MissEntry)
      → IsUse f
      → Preserves old new
      → Preserves old (set_mshr slot f new)
  Preserves-set_mshr new slot f h k =
      Preserves-trans k (record { shrinks = Shrinks-update new.mshr slot f h; rings = λ m r. r })

  pub free-IsUse : IsUse (λ old. no_miss)
  free-IsUse e v = absurd (cc)

  -- A response that is enqueued leaves the rings sound.
  pub Preserves-enqueue :
      {old : Regs} (new : Regs) (master id : ℕ) (payload : ℕ → ℕ)
      → Preserves old new
      → Preserves old (enqueue_read_response limits config master id payload new).1
  unfolding enqueue_read_response
  Preserves-enqueue {old} new master id payload k = Preserves-trans k (
      if_cases {A = Bool × Regs} (λ x. Preserves new x.1) (leb num_read_masters master) (false, new)
        _ (λ e. Preserves-self new)
        (λ e.
          put (push_response limits config id payload (new.read_resp master))
            (push_response-IsPushed limits config id payload (new.read_resp master))))
    where
      put :
          (o : Option ReadRespSlot)
          → (IsRing limits config (new.read_resp master)
              → IsPushed limits config id payload (new.read_resp master) o)
          → Preserves new (put_response limits config master new o).1
      put none h = Preserves-self new
      put (some r) h = record {
        shrinks = λ i v. (v, refl, refl);
        rings = λ m. elim (ℕ_discrete master m) [
          | yes e ↦
              subst
                (λ x.
                  IsRing limits config (new.read_resp x)
                  → IsRing limits config (update new.read_resp master (λ old. r) x))
                e (rw (update_self new.read_resp master (λ (old : ReadRespSlot). r)) (λ q. (h q).0))
          | no e ↦ rw (update_ne new.read_resp master m (λ (old : ReadRespSlot). r) e) (λ q. q)
        ];
      }

  -- A phase leaves the registers of the cycle's start alone, and the others as above.
  pub record IsPhase (io after : Io) : Type 0 where
    pub start : after.regs ≡ io.regs
    pub kept : Preserves io.reg_write after.reg_write

  -- Shut, so that a branch is found by its shape.
  unfoldable pub Runs : Io → Option Io → Type 0
  Runs io none = Unit {0}
  Runs io (some after) = IsPhase io after

  unfoldable pub Flagged : Io → Option (Bool × Io) → Type 0
  Flagged io none = Unit {0}
  Flagged io (some (b, after)) = IsPhase io after

  pub IsPhase-self : (io : Io) → IsPhase io io
  IsPhase-self io = record { start = refl; kept = Preserves-self io.reg_write }

  pub IsPhase-trans : {a b c : Io} → IsPhase a b → IsPhase b c → IsPhase a c
  IsPhase-trans p q = record { start = q.start ∙ p.start; kept = Preserves-trans p.kept q.kept }

  pub Runs-none : (io : Io) → Runs io none
  unfolding Runs
  Runs-none io = tt

  pub Runs-some : {io after : Io} → IsPhase io after → Runs io (some after)
  unfolding Runs
  Runs-some h = h

  pub Flagged-none : (io : Io) → Flagged io none
  unfolding Flagged
  Flagged-none io = tt

  pub Flagged-some : (b : Bool) {io after : Io} → IsPhase io after → Flagged io (some (b, after))
  unfolding Flagged
  Flagged-some b h = h

  pub Runs-drop_flag :
      (io : Io) (o : Option (Bool × Io)) → Flagged io o → Runs io (drop_flag limits config o)
  unfolding Runs Flagged
  Runs-drop_flag io none h = h
  Runs-drop_flag io (some (b, after)) h = h

  pub Runs-from : (io after : Io) (o : Option Io) → IsPhase io after → Runs after o → Runs io o
  unfolding Runs
  Runs-from io after none h q = q
  Runs-from io after (some last) h q = IsPhase-trans h q

  pub Runs-and_then :
      (f : Io → Option Io) (io : Io) (o : Option Io)
      → Runs io o
      → ((after : Io) → Runs after (f after))
      → Runs io (and_then limits config f o)
  unfolding Runs
  Runs-and_then f io none h g = tt
  Runs-and_then f io (some after) h g = Runs-from io after (f after) h (g after)

  pub Runs-go_on :
      (f : Io → Option Io) (io : Io) (o : Option (Bool × Io))
      → Flagged io o
      → ((after : Io) → Runs after (f after))
      → Runs io (go_on limits config f o)
  unfolding Runs Flagged
  Runs-go_on f io none h g = tt
  Runs-go_on f io (some (true, after)) h g = h
  Runs-go_on f io (some (false, after)) h g = Runs-from io after (f after) h (g after)

  pub Runs-map :
      (f : Io → Io) (io : Io) (o : Option Io)
      → Runs io o
      → ((after : Io) → IsPhase after (f after))
      → Runs io (Option.map f o)
  unfolding Runs
  Runs-map f io none h g = tt
  Runs-map f io (some after) h g = IsPhase-trans h (g after)

-- Registers and queues of responses that are left as they are.
abbrev pub Frozen : Regs → Regs → Type 0
Frozen old new = (new.mshr ≡ old.mshr) × (new.read_resp ≡ old.read_resp)

module _ (limits : Limits) (config : Config) where
  pub IsPhase-Frozen :
      {io after : Io}
      → after.regs ≡ io.regs
      → Frozen io.reg_write after.reg_write
      → IsPhase limits config io after
  IsPhase-Frozen e (p, q) = record { start = e; kept = Preserves-same limits config p q }

-- ===== src/Interconnect/Ids/Laws.antt =====
-- axi_interconnect/AXI_Interconnect.cpp: the AXI ID that a new write is given.
use mathlib.Core.Option.{some-injective}
use native.Mathlib.Nat.{mod-eq_of_lt}
use axi_interconnect_kit.Interconnect.{Build, DownstreamPort, invalid_axi_id, same_port}
use axi_interconnect_kit.Interconnect.State.{State, WritePendingTxn}
use axi_interconnect_kit.Interconnect.Ids.{alloc_write_axi_id, any_in, id_or_invalid, write_id_used}
use axi_interconnect_kit.Prelude.Search.{first_below, first_below-none, first_below-some}
use axi_interconnect_kit.Prelude.{
  Bool, List, Option, [], false, get_elem?, none, not, not-false, or-false, refl, some, subst, suc,
  true, zero, ℕ, ◌<◌, ◌^◌, ◌∷◌, ◌≡◌, ◌≢◌, ◌≤◌, ==_self, arith, not-true, ◌%◌, ◌&&◌, ◌==◌, ◌∙◌,
}
use axi_interconnect_kit.Prelude.Words.{u8}

any_in-false {ℓ} :
    {A : Type ℓ} (p : A → Bool) (xs : List A) (i : ℕ) (x : A)
    → any_in p xs ≡ false
    → get_elem? xs i ≡ some x
    → p x ≡ false
unfolding any_in
any_in-false p [] i x h e = absurd (cc)
any_in-false p (y ∷ ys) zero x h e =
    subst (λ a. p a ≡ false) (some-injective y x e) (or-false (p y) _ h).0
any_in-false p (y ∷ ys) (suc i) x h e = any_in-false p ys i x (or-false (p y) _ h).1 e

-- An ID that the test does not find is another one.
differs : (b : Bool) (x id n : ℕ) → id < n → b && (x % n == id) ≡ false → b ≡ true → x ≢ id
differs b x id n l h t e =
    let m : x % n ≡ id = mod-eq_of_lt (omega arith) ∙ e in
    let q : (x % n == id) ≡ true = rw m (==_self id) in absurd (cc)

-- What an ID is, if it is not the invalid one; and that the invalid one says that all are used.
pub record IsAllocated (build : Build) (s : State) (port : DownstreamPort) (id : ℕ) : Type 0 where
  pub in_range : id ≢ invalid_axi_id → id < 2 ^ build.axi_id_width
  pub not_pending :
      id ≢ invalid_axi_id
      → (i : ℕ) (txn : WritePendingTxn) → get_elem? s.w_pending i ≡ some txn
      → same_port txn.port port ≡ true
      → txn.axi_id ≢ id
  pub not_current : id ≢ invalid_axi_id → s.w_active port ≡ true → (s.w_current port).axi_id ≢ id
  pub not_latched : id ≢ invalid_axi_id → (s.aw_latch port).valid ≡ true → (s.aw_latch port).id ≢ id
  pub exhausted :
      id ≡ invalid_axi_id
      → (j : ℕ) → j < 2 ^ build.axi_id_width
      → write_id_used build s port j ≡ true

module _ (build : Build) (s : State) (port : DownstreamPort)
    (small : 2 ^ build.axi_id_width ≤ 128) where
  unused_parts :
      (id : ℕ)
      → write_id_used build s port id ≡ false
      → (any_in
            (λ txn. same_port txn.port port && txn.axi_id % 2 ^ build.axi_id_width == id)
            s.w_pending
          ≡ false)
        × (s.w_active port && (s.w_current port).axi_id % 2 ^ build.axi_id_width == id ≡ false)
        × ((s.aw_latch port).valid && (s.aw_latch port).id % 2 ^ build.axi_id_width == id ≡ false)
  unfolding write_id_used
  unused_parts id h = let a = or-false _ _ h in let b = or-false _ _ a.1 in (a.0, b.0, b.1)

  unused-IsAllocated :
      (id : ℕ)
      → id < 2 ^ build.axi_id_width
      → write_id_used build s port id ≡ false
      → IsAllocated build s port id
  unused-IsAllocated id l h =
      let u = unused_parts id h in
      record {
        in_range = λ n. l;
        not_pending =
            λ n i txn e. differs _ txn.axi_id id _ l (any_in-false _ s.w_pending i txn u.0 e);
        not_current = λ n. differs _ _ id _ l u.1;
        not_latched = λ n. differs _ _ id _ l u.2;
        exhausted = λ n. absurd (omega arith);
      }

  alloc_cases :
      (o : Option ℕ)
      → first_below (λ id. not (write_id_used build s port id)) (2 ^ build.axi_id_width) ≡ o
      → IsAllocated build s port (id_or_invalid o)
  unfolding id_or_invalid
  alloc_cases none e = record {
    in_range = λ n. absurd (n refl);
    not_pending = λ n. absurd (n refl);
    not_current = λ n. absurd (n refl);
    not_latched = λ n. absurd (n refl);
    exhausted = λ n j l. not-false _ (first_below-none _ _ j e l);
  }
  alloc_cases (some id) e =
      let h = first_below-some _ _ id e in
      let fits : u8 id ≡ id = mod-eq_of_lt (omega (arith, h.0, small)) in
      rw fits (unused-IsAllocated id h.0 (not-true _ h.1))

-- For IDs of at most 7 bits: the ID that a new write of a port is given is in range and is that of no
-- other write of the port, pending, sent or latched; and the invalid one is given only where every ID
-- of the port is used.
pub alloc_write_axi_id-IsAllocated :
    (build : Build) (s : State) (port : DownstreamPort)
    → 2 ^ build.axi_id_width ≤ 128
    → IsAllocated build s port (alloc_write_axi_id build s port)
unfolding alloc_write_axi_id
alloc_write_axi_id-IsAllocated build s port small = alloc_cases build s port small _ refl

-- ===== src/Bridge/Scan/Laws.antt =====
-- include/axi_dual_port_route_shape.h: what the scan of a pending table finds.
use native.Mathlib.Nat.{mod-eq_of_lt, zero-add}
use axi_interconnect_kit.Prelude.Words.{u8, u16}
use axi_interconnect_kit.Bridge.Route.{mask_axi_id}
use axi_interconnect_kit.Bridge.Scan.{
  Scan, PendingScanResult, nothing, id_count, slot_id_mode, slot_id, is_valid, is_match,
  is_complete, scan_slot, scan_slots, scan_ids, pending_scan_control,
}
use axi_interconnect_kit.Prelude.{
  Bool, false, if◌then◌else◌, not, true, ℕ, ◌&&◌, ◌+◌, ◌<◌, ◌||◌, ◌≡◌, arith, suc, zero, ◌≤◌,
  Bool-cases, inl, inr, refl, ◌%◌, ◌^◌, ◌≢◌, ap, subst, sym, ◌∙◌,
}
use native.Mathlib.Decide.{ℕ_discrete}
use native.Mathlib.Nat.{add-zero}

mask_small :
    (id entry_count width : ℕ)
    → entry_count ≤ 32
    → id < entry_count
    → entry_count ≤ u16 (2 ^ width)
    → mask_axi_id id width ≡ id
unfolding mask_axi_id
mask_small id entry_count width h l c =
    let small : id < 2 ^ width = omega arith in
    let e : id % 2 ^ width ≡ id = mod-eq_of_lt small in ground arith

-- What a search below `n` says: its lowest hit, or that there is none.
pub record IsLowest (p : ℕ → Bool) (n : ℕ) (found : Bool) (slot : ℕ) : Type 0 where
  pub inside : found ≡ true → slot < n
  pub hit : found ≡ true → p slot ≡ true
  pub below : (j : ℕ) → found ≡ true → j < slot → p j ≡ false
  pub absent : (j : ℕ) → found ≡ false → j < n → p j ≡ false

IsLowest-step :
    (p : ℕ → Bool) (i : ℕ) (f : Bool) (s : ℕ)
    → IsLowest p i f s
    → let now = not f && p i in IsLowest p (i + 1) (f || now) (if now then i else s)
IsLowest-step p i f s v = record {
  inside = ground arith;
  hit = ground arith;
  below = λ j. ground (arith, v.below j, v.absent j);
  absent = λ j. elim (ℕ_discrete j i) [
    | yes e ↦ rw e (ground arith)
    | no ne ↦ ground (arith, v.absent j)
  ];
}

module _ (entry_count id_width valid_mask complete_mask packed_ids match_id : ℕ) where
  abbrev valid : ℕ → Bool
  valid = is_valid entry_count id_width valid_mask complete_mask packed_ids match_id

  abbrev id_of : ℕ → ℕ
  id_of = slot_id entry_count id_width valid_mask complete_mask packed_ids match_id

  abbrev by_slot : Bool
  by_slot = slot_id_mode entry_count id_width valid_mask complete_mask packed_ids match_id

  -- The loop's state once it has seen the slots below `n`.
  record IsScanned (n : ℕ) (s : Scan) : Type 0 where
    free : IsLowest (λ j. not (valid j)) n s.out.free_found s.out.free_slot
    matched :
        IsLowest
          (is_match entry_count id_width valid_mask complete_mask packed_ids match_id)
          n
          s.out.match_found
          s.out.match_slot
    complete :
        IsLowest
          (is_complete entry_count id_width valid_mask complete_mask packed_ids match_id)
          n
          s.out.complete_found
          s.out.complete_slot
    used : (j : ℕ) → by_slot ≡ false → j < n → valid j ≡ true → s.used_ids (id_of j) ≡ true
    no_id : s.out.axi_id_found ≡ false

  scan_slot-IsScanned :
      (i : ℕ) (s : Scan)
      → IsScanned i s
      → IsScanned
          (i + 1)
          (scan_slot entry_count id_width valid_mask complete_mask packed_ids match_id i s)
  unfolding scan_slot
  scan_slot-IsScanned i s v = record {
    free = IsLowest-step _ i _ _ v.free;
    matched = IsLowest-step _ i _ _ v.matched;
    complete = IsLowest-step _ i _ _ v.complete;
    used = λ j. elim (ℕ_discrete j i) [
      | yes e ↦ rw e (ground arith)
      | no ne ↦ ground (arith, v.used j)
    ];
    no_id = v.no_id;
  }

  scan_slots-IsScanned :
      (i n : ℕ) (s : Scan)
      → IsScanned i s
      → IsScanned
          (i + n)
          (scan_slots entry_count id_width valid_mask complete_mask packed_ids match_id i n s)
  unfolding scan_slots
  scan_slots-IsScanned i zero s v = rw add-zero v
  scan_slots-IsScanned i (suc n) s v =
      let e : i + suc n ≡ i + 1 + n = omega arith in
      rw e (scan_slots-IsScanned (i + 1) n _ (scan_slot-IsScanned i s v))

  -- An ID that the search returns is in range and not among the used ones.
  scan_ids_lem :
      (used : ℕ → Bool) (i n : ℕ) (out : PendingScanResult)
      → i + n ≤ 256
      → (out.axi_id_found ≡ true → used out.axi_id ≡ false)
      → let r =
          scan_ids entry_count id_width valid_mask complete_mask packed_ids match_id used i n out in
        r.axi_id_found ≡ true → used r.axi_id ≡ false
  unfolding scan_ids
  scan_ids_lem used i zero out h v = v
  scan_ids_lem used i (suc n) out h v =
      scan_ids_lem used (i + 1) n _ (omega arith)
        (let e : u8 i ≡ i = omega arith in rw e (ground arith))

  scan_ids_rest :
      (used : ℕ → Bool) (i n : ℕ) (out : PendingScanResult)
      → let r =
          scan_ids entry_count id_width valid_mask complete_mask packed_ids match_id used i n out in
        (r.free_found ≡ out.free_found)
        × (r.free_slot ≡ out.free_slot)
        × (r.match_found ≡ out.match_found)
        × (r.match_slot ≡ out.match_slot)
        × (r.complete_found ≡ out.complete_found)
        × (r.complete_slot ≡ out.complete_slot)
  unfolding scan_ids
  scan_ids_rest used i zero out = (refl, refl, refl, refl, refl, refl)
  scan_ids_rest used i (suc n) out = ground (
    arith,
    scan_ids_rest used (i + 1) n (
        if not out.axi_id_found && not (used i)
        then record out { axi_id_found = true; axi_id = u8 i }
        else out),
  )

  abbrev start : Scan
  start = record { out = nothing; used_ids = λ _. false }

  abbrev scanned : Scan
  scanned =
      scan_slots entry_count id_width valid_mask complete_mask packed_ids match_id 0 entry_count
        start

  scanned-IsScanned : IsScanned entry_count scanned
  scanned-IsScanned = rw (zero-add entry_count) at (
      scan_slots-IsScanned 0 entry_count start (record {
        free = record {
          inside = λ e. cc;
          hit = λ e. cc;
          below = λ j e. cc;
          absent = λ j e l. absurd (omega arith);
        };
        matched = record {
          inside = λ e. cc;
          hit = λ e. cc;
          below = λ j e. cc;
          absent = λ j e l. absurd (omega arith);
        };
        complete = record {
          inside = λ e. cc;
          hit = λ e. cc;
          below = λ j e. cc;
          absent = λ j e l. absurd (omega arith);
        };
        used = λ j e l. absurd (omega arith);
        no_id = refl;
      }))

  abbrev result : PendingScanResult
  result = pending_scan_control entry_count id_width valid_mask complete_mask packed_ids match_id

  -- The scan finds the lowest free slot, the lowest valid slot that holds the response's ID and the
  -- lowest valid slot that is complete, and reports none of these exactly when there is none.
  pub pending_scan-IsLowest :
      IsLowest (λ j. not (valid j)) entry_count result.free_found result.free_slot
      × IsLowest
          (is_match entry_count id_width valid_mask complete_mask packed_ids match_id)
          entry_count
          result.match_found
          result.match_slot
      × IsLowest
          (is_complete entry_count id_width valid_mask complete_mask packed_ids match_id)
          entry_count
          result.complete_found
          result.complete_slot
  unfolding pending_scan_control
  pending_scan-IsLowest = elim (Bool-cases by_slot) [
    | inl e ↦ rw e (scanned-IsScanned.free, scanned-IsScanned.matched, scanned-IsScanned.complete)
    | inr e ↦ rw e (
        let (a, b, c, d, f, g) =
          scan_ids_rest scanned.used_ids 0
            (id_count entry_count id_width valid_mask complete_mask packed_ids match_id)
            scanned.out in
        (
          rw (a, b) scanned-IsScanned.free,
          rw (c, d) scanned-IsScanned.matched,
          rw (f, g) scanned-IsScanned.complete,
        ))
  ]

  slot_id_own : (j : ℕ) → by_slot ≡ true → id_of j ≡ j
  unfolding slot_id
  slot_id_own j e = rw e

  free_slot_unused :
      (j : ℕ)
      → entry_count ≤ 32
      → by_slot ≡ true
      → scanned.out.free_found ≡ true
      → valid j ≡ true
      → j ≢ mask_axi_id scanned.out.free_slot id_width
  free_slot_unused j h e found v q =
      let free = scanned-IsScanned.free in
      let room : entry_count ≤ u16 (2 ^ id_width) = ground arith in
      let same : j ≡ scanned.out.free_slot =
        q ∙ mask_small scanned.out.free_slot entry_count id_width h (free.inside found) room in
      let open_slot : not (valid j) ≡ true =
        subst (λ k. not (valid k) ≡ true) (sym same) (free.hit found) in
      ground arith

  unused_id :
      (j : ℕ)
      → entry_count ≤ 32
      → by_slot ≡ false
      → (scan_ids entry_count id_width valid_mask complete_mask packed_ids match_id scanned.used_ids
          0
          (id_count entry_count id_width valid_mask complete_mask packed_ids match_id)
          scanned.out).axi_id_found
        ≡ true
      → j < entry_count
      → valid j ≡ true
      → id_of j
        ≢ (scan_ids entry_count id_width valid_mask complete_mask packed_ids match_id
            scanned.used_ids 0
            (id_count entry_count id_width valid_mask complete_mask packed_ids match_id)
            scanned.out).axi_id
  unused_id j h e found l v q =
      let n = id_count entry_count id_width valid_mask complete_mask packed_ids match_id in
      let few : 0 + n ≤ 256 = ground arith in
      let none_used =
        scan_ids_lem scanned.used_ids 0 n scanned.out few (λ f. cc scanned-IsScanned.no_id) found in
      let used = scanned-IsScanned.used j e l v in cc (ap scanned.used_ids q)

  -- For a table of up to 32 slots: an AXI ID that the scan hands out is the ID of no valid slot.
  pub pending_scan-id_unused :
      (j : ℕ)
      → entry_count ≤ 32
      → result.axi_id_found ≡ true
      → j < entry_count
      → valid j ≡ true
      → id_of j ≢ result.axi_id
  unfolding pending_scan_control
  pending_scan-id_unused j h found l v = elim (Bool-cases by_slot) [
    | inl e ↦ rw e (rw (slot_id_own j e) (free_slot_unused j h e (rw e at found) v))
    | inr e ↦ rw e (unused_id j h e (rw e at found) l v)
  ]

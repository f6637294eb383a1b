-- ===== src/Hbm/Cases/Runs.antt =====
-- The cases that the functions make, and the two expectations run on them: nothing raises.
use Prim.Native.String.{String}
use asu_ascend.Common.{ℕ, zero, suc, ◌≤◌, ◌≡◌, refl, ap, true, false, List, [], ◌∷◌, length, arith}
use asu_ascend.Common.Results.{ok}
use asu_ascend.Common.Int.{ℤ}
use asu_ascend.Hbm.{Row, expected_lookup_allocate}
use asu_ascend.Hbm.Rows.{tokens}
use asu_ascend.Hbm.Cycle.{Cycled, lookup_then_maintain, maintain_row_enough}
use asu_ascend.Hbm.Maintain.{expected_maintain}
use asu_ascend.Hbm.Maintain.Refills.{Refilled}
use asu_ascend.Hbm.Cases.{
  Sizes, AreSizes, index_rows, make_index_case, maintain_case_rows, Ratios, evict_slots_from_ratio,
  make_maintain_case,
}
use asu_ascend.Hbm.Cases.Queries.{is_pattern, make_query-IsQuery}
use asu_ascend.Hbm.Cases.Made.{
  Made-Fits, Made-occupied_count, index_row-Made, maintain_case_row-Made,
}

-- What the lookup leaves, as the refill takes it: the slots of a query are the last slots used.
abbrev pub looked_up : List (List ℤ × Row) → List (Row × List ℤ)
looked_up [] = []
looked_up ((slot_out, r) ∷ outs) = (r, slot_out) ∷ looked_up outs

-- Each case has gone through a lookup of a full query and a refill.
abbrev pub AllCycled : Sizes → List (Row × List ℤ) → List (List ℤ × Row) → List Row → Type 0
AllCycled s [] [] [] = Unit
AllCycled s ((r, q) ∷ cases) ((ids, r1) ∷ outs) (r2 ∷ rows) =
    ((query : List ℕ) × (q ≡ tokens query)
      × (length query ≡ s.query_count)
      × Cycled s.slot_count r query ids r2)
    × AllCycled s cases outs rows
AllCycled s _ _ _ = ⊥

abbrev pub AllRefilled : Sizes → List (Row × List ℤ) → List Row → Type 0
AllRefilled s [] [] = Unit
AllRefilled s ((r, last) ∷ cases) (r' ∷ rows) =
    Refilled s.slot_count last r r' × AllRefilled s cases rows
AllRefilled s _ _ = ⊥

module _ (s : Sizes) (sizes : AreSizes s) (seed : ℕ) where
  index_rows-AllCycled :
      (p : String) (req_id n : ℕ)
      → is_pattern p ≡ true
      → (cases : List (Row × List ℤ)) × (outs : List (List ℤ × Row)) × (rows : List Row)
        × (index_rows s p req_id n ≡ ok cases)
        × (expected_lookup_allocate cases ≡ ok outs)
        × (expected_maintain s.slot_count s.slot_count seed req_id (looked_up outs) ≡ ok rows)
        × (length cases ≡ n)
        × AllCycled s cases outs rows
  unfolding index_rows expected_lookup_allocate expected_maintain
  index_rows-AllCycled p req_id zero known = ([], [], [], refl, refl, refl, refl, tt)
  index_rows-AllCycled p req_id (suc n) known =
      let (r, made_run, made) = index_row-Made s sizes in
      let (query, query_run, is_query) = make_query-IsQuery s sizes p req_id known in
      let (ids, r1, r2, looked, refills, cycled) =
        lookup_then_maintain s.slot_count r query seed req_id
          (Made-Fits s sizes 0 (omega arith) r made) (rw (made.index_length) is_query.below)
          (omega (arith, made.head, made.free_length, is_query.full, sizes.query_is_free_slots))
          (omega (
            arith,
            made.head,
            Made-occupied_count s sizes 0 (omega arith) r made,
            is_query.full,
            sizes.as_many_residents,
          )) in
      let (cases, outs, rows, run, run', run'', many, all) =
        index_rows-AllCycled p (suc req_id) n known in
      (
        (r, tokens query) ∷ cases,
        (ids, r1) ∷ outs,
        r2 ∷ rows,
        rw (made_run, query_run, run) refl,
        rw (looked, run') refl,
        rw (refills, run'') refl,
        ap suc many,
        ((query, refl, is_query.full, cycled), all),
      )

  -- Conditions: the sizes fit together, and the pattern is "hit", "miss" or "mixed". `make_index_case`
  -- makes a case for each request, `expected_lookup_allocate` returns on them, and `expected_maintain`
  -- on what it leaves, with one turn over the slots as its fuel: nothing raises. Every request ends with
  -- a full free list and tables inverse to each other, in which each position of its query has the slot
  -- that the lookup gave it.
  pub make_index_case-AllCycled :
      (p : String) (req_num : ℕ)
      → is_pattern p ≡ true
      → (cases : List (Row × List ℤ)) × (outs : List (List ℤ × Row)) × (rows : List Row)
        × (make_index_case s req_num p ≡ ok cases)
        × (expected_lookup_allocate cases ≡ ok outs)
        × (expected_maintain s.slot_count s.slot_count seed 0 (looked_up outs) ≡ ok rows)
        × (length cases ≡ req_num)
        × AllCycled s cases outs rows
  unfolding make_index_case
  make_index_case-AllCycled p req_num known = index_rows-AllCycled p 0 req_num known

  maintain_case_rows-AllRefilled :
      (e req_id n : ℕ)
      → e ≤ s.free_slot_count
      → (cases : List (Row × List ℤ)) × (rows : List Row) × (maintain_case_rows s e n ≡ ok cases)
        × (expected_maintain s.slot_count s.slot_count seed req_id cases ≡ ok rows)
        × (length cases ≡ n)
        × AllRefilled s cases rows
  unfolding maintain_case_rows expected_maintain
  maintain_case_rows-AllRefilled e req_id zero in_free = ([], [], refl, refl, refl, tt)
  maintain_case_rows-AllRefilled e req_id (suc n) in_free =
      let (r, last, made_run, made, full) = maintain_case_row-Made s sizes e in_free in
      let (r', refills, refilled) =
        maintain_row_enough s.slot_count last seed req_id r (Made-Fits s sizes e in_free r made) (
          omega (
            arith,
            made.head,
            Made-occupied_count s sizes e in_free r made,
            full,
            sizes.as_many_residents,
          )) in
      let (cases, rows, run, run', many, all) =
        maintain_case_rows-AllRefilled e (suc req_id) n in_free in
      (
        (r, last) ∷ cases,
        r' ∷ rows,
        rw (made_run, run) refl,
        rw (refills, run') refl,
        ap suc many,
        (refilled, all),
      )

  -- Conditions: the sizes fit together, and the ratio lies in [0, 1]. `make_maintain_case` makes a case
  -- for each request, and `expected_maintain` returns on them with one turn over the slots as its fuel:
  -- nothing raises. Every request ends with a full free list and tables inverse to each other, in which
  -- the slots that its last query used keep their tokens.
  pub make_maintain_case-AllRefilled :
      (floats : Ratios) (ratio : floats.Ratio) (req_num : ℕ)
      → floats.is_below_zero ratio ≡ false
      → floats.is_above_one ratio ≡ false
      → (cases : List (Row × List ℤ)) × (rows : List Row) × (make_maintain_case floats s req_num
            ratio
          ≡ ok cases)
        × (expected_maintain s.slot_count s.slot_count seed 0 cases ≡ ok rows)
        × (length cases ≡ req_num)
        × AllRefilled s cases rows
  unfolding make_maintain_case evict_slots_from_ratio
  make_maintain_case-AllRefilled floats ratio req_num low high =
      rw (low, high)
        (maintain_case_rows-AllRefilled (floats.scaled s.free_slot_count ratio) 0 req_num
          (floats.scaled_le s.free_slot_count ratio low high))

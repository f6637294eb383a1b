-- ===== src/HbmOps/Validate/Sound.antt =====
-- A validation that passes has compared what the operators left with the expectations.
use asu_ascend.Common.{
  ℕ, ◌≡◌, ◌↔◌, refl, Bool, true, inl, inr, Option-cases, some, List, [], ◌∷◌, map, arith,
}
use mathlib.Core.Path.{subst}
use asu_ascend.Common.Int.{ℤ, pos, c_uint32}
use asu_ascend.Common.Results.{ok, ◌>>◌, ok_of_bind}
use asu_ascend.Hbm.{Row, expected_lookup_allocate}
use asu_ascend.Hbm.Maintain.{expected_maintain}
use asu_ascend.Hbm.Cases.{Sizes, Ratios}
use asu_ascend.Lookup.Order.{list_eq_sound, list_eq_refl}
use asu_ascend.Scripts.Compare.{same_arrays_sound, same_arrays_refl}
use asu_ascend.HbmOps.{
  Host, MaintainRunner, OpArray, slot_out, index, slot_to_index, free_slots, free_head,
  find_lookup_library, load_function, resolve_maintain_callable,
}
use asu_ascend.HbmOps.Validate.{
  Args, Device, LookupRow, passed, assert_that, same_free_head, head_sum, lookup_tensors,
  call_lookup, call_maintain, check_lookup, check_maintain, validate_lookup, maintain_input,
  run_maintain, validate_maintain, from_hbm,
}

all_pass :
    (a b c d : Bool) (x y z w : OpArray)
    → (do assert_that a x; assert_that b y; assert_that c z; assert_that d w) ≡ ok tt
    → (a ≡ true) × (b ≡ true) × (c ≡ true) × (d ≡ true)
all_pass a b c d x y z w h = ground arith

same_free_head_sound :
    (rows rows' : List Row)
    → same_free_head rows rows' ≡ true
    → map (λ r. pos r.free_head) rows ≡ map (λ r. pos r.free_head) rows'
same_free_head_sound rows rows' h = list_eq_sound _ _ h

rows_agree :
    (rows rows' : List Row)
    → map (λ r. r.index) rows ≡ map (λ r. r.index) rows'
    → map (λ r. r.slot_to_index) rows ≡ map (λ r. r.slot_to_index) rows'
    → map (λ r. r.free_slots) rows ≡ map (λ r. r.free_slots) rows'
    → map (λ r. pos r.free_head) rows ≡ map (λ r. pos r.free_head) rows'
    → rows ≡ rows'
rows_agree [] [] a b c d = refl
rows_agree [] (r ∷ rows') a b c d = cc
rows_agree (r ∷ rows) [] a b c d = cc
rows_agree (r ∷ rows) (r' ∷ rows') a b c d = ground (arith, rows_agree rows rows')

-- What the comparison of the lookup reads: all but the free slots, which the operator only reads.
abbrev pub Observed : List LookupRow → List (List ℤ × Row) → Type 0
Observed left expected =
    (map (λ t. t.slots) left ≡ map (λ e. e.0) expected)
    × (map (λ r. r.index) (map (λ t. t.row) left) ≡ map (λ r. r.index) (map (λ e. e.1) expected))
    × (map (λ r. r.slot_to_index) (map (λ t. t.row) left)
        ≡ map (λ r. r.slot_to_index) (map (λ e. e.1) expected))
    × (map (λ r. pos r.free_head) (map (λ t. t.row) left)
        ≡ map (λ r. pos r.free_head) (map (λ e. e.1) expected))

module _ {Function : Type 0} (device : Device Function) where
  maintain_self :
      (left : List (Row × List ℤ)) → check_maintain device left (map (λ t. t.0) left) ≡ ok tt
  unfolding check_maintain
  maintain_self left =
      let rows = map (λ t. t.0) left in
      rw (
        same_arrays_refl (map (λ r. r.index) rows),
        same_arrays_refl (map (λ r. r.slot_to_index) rows),
        same_arrays_refl (map (λ r. r.free_slots) rows),
        list_eq_refl (map (λ r. pos r.free_head) rows),
      )

  -- The comparison of the refill passes exactly if the operator has left the expected rows, in all four
  -- arrays.
  pub check_maintain_iff :
      (left : List (Row × List ℤ)) (expected : List Row)
      → (check_maintain device left expected ≡ ok tt) ↔ (map (λ t. t.0) left ≡ expected)
  unfolding check_maintain
  check_maintain_iff left expected = (
    λ h.
        let (a, b, c, d) = all_pass _ _ _ _ index slot_to_index free_slots free_head h in
        rows_agree (map (λ t. t.0) left) expected (same_arrays_sound _ _ a)
          (same_arrays_sound _ _ b) (same_arrays_sound _ _ c) (same_free_head_sound _ _ d),
    λ same. rw (← same) (maintain_self left),
  )

  -- The comparison of the lookup passes exactly if the slots, the two tables and the heads are the
  -- expected ones.
  pub check_lookup_iff :
      (left : List LookupRow) (expected : List (List ℤ × Row))
      → (check_lookup device left expected ≡ ok tt) ↔ Observed left expected
  unfolding check_lookup
  check_lookup_iff left expected = (
    λ h.
        let (a, b, c, d) = all_pass _ _ _ _ slot_out index slot_to_index free_head h in
        (
          same_arrays_sound _ _ a,
          same_arrays_sound _ _ b,
          same_arrays_sound _ _ c,
          same_free_head_sound _ _ d,
        ),
    λ h.
        let (a, b, c, d) = h in
        rw (
          a,
          b,
          c,
          d,
          same_arrays_refl (map (λ e. e.0) expected),
          same_arrays_refl (map (λ r. r.index) (map (λ e. e.1) expected)),
          same_arrays_refl (map (λ r. r.slot_to_index) (map (λ e. e.1) expected)),
          list_eq_refl (map (λ r. pos r.free_head) (map (λ e. e.1) expected)),
        ),
  )

module _ (host : Host) (device : Device host.Function) (floats : Ratios) (s : Sizes) where
  open host use {FilePath, Function}
  open floats use {Ratio}

  -- Conditions: the lookup was validated. Then the expectation returned on the cases, the library was
  -- found and loads, the call returned on fresh tensors of the cases, and what it left there, the slots,
  -- the two tables and the heads, is what is expected, which is handed on: a wrong result does not pass.
  pub validate_lookup_sound :
      (args : Args FilePath Ratio) (cases : List (Row × List ℤ)) {expected : List (List ℤ × Row)}
      → validate_lookup host device floats s args cases ≡ ok expected
      → (lookup_lib : FilePath) × (lookup_function : Function) × (left : List LookupRow)
        × (expected_lookup_allocate cases ≡ ok expected)
        × (find_lookup_library host args.build_dir args.lookup_lib ≡ ok lookup_lib)
        × (load_function host lookup_lib "asu_hbm_index_lookup_do" ≡ ok lookup_function)
        × (call_lookup device lookup_function
              (lookup_tensors device cases)
              args.block_dim
              args.req_num
            ≡ ok left)
        × Observed left expected
  unfolding validate_lookup
  validate_lookup_sound args cases {expected} returned =
      let (outs, expects, after_expected) =
        ok_of_bind (from_hbm (expected_lookup_allocate cases)) _ returned in
      let (lookup_lib, found, after_found) =
        ok_of_bind (find_lookup_library host args.build_dir args.lookup_lib) _ after_expected in
      let (lookup_function, loads, after_loads) =
        ok_of_bind (load_function host lookup_lib "asu_hbm_index_lookup_do") _ after_found in
      let (left, called, compared) =
        ok_of_bind
          (call_lookup device lookup_function (lookup_tensors device cases) args.block_dim
            args.req_num)
          _ after_loads in
      let (done, same, report) = ok_of_bind (check_lookup device left outs) _ compared in
      let handed_on : outs ≡ expected = ground (arith, report) in
      (
        lookup_lib,
        lookup_function,
        left,
        ground (arith, expects, handed_on),
        found,
        loads,
        called,
        subst (Observed left) handed_on ((check_lookup_iff device left outs).0 same),
      )

  -- Conditions: the refill was validated by a run of an operator. Then the input was made, the
  -- expectation returned on it, a runner was found, its call returned, and the rows that it left are the
  -- expected ones in all four arrays; the number reported is that of the slots that were missing.
  pub validate_maintain_sound :
      (args : Args FilePath Ratio) (lookup_state : List (List ℤ × Row)) {n : ℕ}
      → validate_maintain host device floats s args lookup_state ≡ ok (passed n)
      → (input : List (Row × List ℤ)) × (rows : List Row) × (runner : MaintainRunner Function)
        × (left : List (Row × List ℤ)) × (maintain_input host device floats s args lookup_state
            ≡ ok input)
        × (expected_maintain s.slot_count s.slot_count (c_uint32 args.seed) 0 input ≡ ok rows)
        × (resolve_maintain_callable host args.maintain_call args.maintain_op args.op_plugin_lib
              args.maintain_lib args.maintain_build_dir
            ≡ ok (some runner))
        × (call_maintain device runner input args.block_dim args.req_num args.seed ≡ ok left)
        × (map (λ t. t.0) left ≡ rows)
        × (n ≡ head_sum (map (λ t. t.0) input))
  unfolding validate_maintain
  validate_maintain_sound args lookup_state returned =
      let (input, made, after_input) =
        ok_of_bind (maintain_input host device floats s args lookup_state) _ returned in
      let (rows, expects, after_expected) =
        ok_of_bind
          (from_hbm (expected_maintain s.slot_count s.slot_count (c_uint32 args.seed) 0 input)) _
          after_input in
      let (found, resolves, runs) =
        ok_of_bind
          (resolve_maintain_callable host args.maintain_call args.maintain_op args.op_plugin_lib
            args.maintain_lib args.maintain_build_dir)
          _ after_expected in
      elim (Option-cases found) [
        | inl is_none ↦ absurd (ground (arith, is_none, runs))
        | inr (runner, is_runner) ↦
            let run : run_maintain host device floats s args input rows (some runner)
                ≡ ok (passed _) =
              rw is_runner at runs in
            let (left, called, compared) =
              ok_of_bind (call_maintain device runner input args.block_dim args.req_num args.seed) _
                run in
            let (done, same, report) = ok_of_bind (check_maintain device left rows) _ compared in
            (
              input,
              rows,
              runner,
              left,
              made,
              ground (arith, expects),
              ground (arith, resolves, is_runner),
              called,
              (check_maintain_iff device left rows).0 same,
              ground (arith, report),
            )
      ]

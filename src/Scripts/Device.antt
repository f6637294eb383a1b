-- ===== src/Scripts/Device.antt =====
-- A fresh state on the device, and an operator that computes what the reference does: the parts that the
-- three scripts share.
use asu_ascend.Common.{
  ℕ, suc, ◌<◌, ◌≤◌, ◌≡◌, ◌%◌, ◌^◌, refl, ap, sym, ◌∙◌, Bool, some, List, [], ◌∷◌, length, arith,
}
use native.Mathlib.Nat.{mod-eq_of_lt}
use asu_ascend.Common.Int.{ℤ, pos, pos_part}
use asu_ascend.Common.Random.{Random}
use asu_ascend.Common.Results.{ok, ◌>>=◌, ◌>>◌}
use asu_ascend.Lookup.{LookupState}
use asu_ascend.Workload.{Sizes, AreSizes, RandomLookupCase, make_random_case}
use asu_ascend.Workload.Cases.{AreCaseRows, make_random_case-AreCaseRows}
use asu_ascend.Scripts.{
  Runtime, Result, from_workload, expected_result, to_npu_state, call_lookup, assert_runtime_result,
}
use asu_ascend.Scripts.Compare.{results, assert_runtime_result_iff}

-- The operator, on a fresh state of cases it is made for, leaves what the reference computes: tables of the
-- documented sizes, queries with no token twice, and as many requests as the state has rows.
abbrev pub Agrees : {Function : Type 0} → Sizes → Runtime Function → Function → Type 0
Agrees s runtime function =
    (hits : ℕ) (case : RandomLookupCase) (expected : List (LookupState × List ℤ × List Bool))
    → AreCaseRows s hits case.rows
    → length case.rows < 2 ^ 32
    → expected_result case.rows ≡ ok expected
    → results (runtime.launch function (length case.rows) (to_npu_state s runtime case)) ≡ expected

module _ {Function : Type 0} (s : Sizes) (random : Random) (runtime : Runtime Function) where
  -- `verify_one_state` of the scripts that time and profile, which pass case 0; with the case that is
  -- given, the middle of the script that validates.
  unfoldable pub verify_state : Function → ℤ → ℤ → ℤ → ℕ → Result RandomLookupCase
  unfolding to_npu_state call_lookup
  verify_state function req_num hit_count seed case_id = do
    case ← from_workload (make_random_case s random req_num hit_count seed case_id)
    expected ← expected_result case.rows
    state ← call_lookup s runtime function (to_npu_state s runtime case) (pos_part req_num)
    assert_runtime_result state expected
    ok case

  expected_result_returns :
      (hits : ℕ) (rows : List (LookupState × List ℤ))
      → AreCaseRows s hits rows
      → (expected : List (LookupState × List ℤ × List Bool)) × (expected_result rows ≡ ok expected)
  unfolding expected_result
  expected_result_returns hits [] all = ([], refl)
  expected_result_returns hits ((state, query) ∷ rows) (row, all) =
      let (ids, mask, state', run, marks) = row.looked_up in
      let (expected, rest) = expected_result_returns hits rows all in
      ((state', ids, mask) ∷ expected, ground (arith, run, rest))

  module _ (sizes : AreSizes s) (function : Function) (stream_ptr : ℕ)
      (has_stream : runtime.npu_stream ≡ some stream_ptr) (agrees : Agrees s runtime function)
      (n hits : ℕ) (seed : ℤ) (case_id : ℕ) (fits : hits ≤ s.query_count)
      (few : suc n < 2 ^ 32) where
    verified :
        (case : RandomLookupCase) (expected : List (LookupState × List ℤ × List Bool))
        → make_random_case s random (pos (suc n)) (pos hits) seed case_id ≡ ok case
        → expected_result case.rows ≡ ok expected
        → assert_runtime_result
            (runtime.launch function (suc n % 2 ^ 32) (to_npu_state s runtime case))
            expected
          ≡ ok tt
        → verify_state function (pos (suc n)) (pos hits) seed case_id ≡ ok case
    unfolding verify_state
    verified case expected made run same = ground (arith, made, run, has_stream, same)

    -- The case that is made passes.
    pub verify_state_passes :
        (case : RandomLookupCase) × (verify_state function (pos (suc n)) (pos hits) seed case_id
          ≡ ok case)
        × (length case.rows ≡ suc n)
        × (case.hit_count ≡ hits)
        × AreCaseRows s hits case.rows
    verify_state_passes =
        let (case, made, many, hit, miss, all) =
          make_random_case-AreCaseRows s sizes random hits seed case_id fits n in
        let (expected, run) = expected_result_returns hits case.rows all in
        let state = to_npu_state s runtime case in
        let whole : suc n % 2 ^ 32 ≡ length case.rows = mod-eq_of_lt few ∙ sym many in
        let left : results (runtime.launch function (suc n % 2 ^ 32) state) ≡ expected =
          ap (λ (k : ℕ). results (runtime.launch function k state)) whole
          ∙ agrees hits case expected all (rw many few) run in
        let same =
          (assert_runtime_result_iff (runtime.launch function (suc n % 2 ^ 32) state) expected).1
            left in
        (case, verified case expected made run same, many, hit, all)

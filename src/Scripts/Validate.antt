-- ===== src/Scripts/Validate.antt =====
-- validate_lookup_simt.py: one random case on the device, compared with the reference.
use asu_ascend.Common.{
  ℕ, suc, ◌*◌, ◌^◌, ◌<◌, ◌≤◌, ◌≡◌, Bool, not, Option, none, some, List, [], ◌∷◌, take, arith,
}
use asu_ascend.Common.Int.{ℤ, pos, ltb_ℤ, pos_part}
use asu_ascend.Common.Random.{Random}
use asu_ascend.Common.Results.{ok, ◌>>=◌, ◌>>◌, raise_if, ok_of_bind}
use asu_ascend.Lookup.{LookupState}
use asu_ascend.Workload.{Sizes, AreSizes, RandomLookupCase, validate_hit_count, make_random_case}
use asu_ascend.Scripts.{
  NpuLookupState, Runtime, Result, from_workload, req_num_not_positive, device_negative,
  case_id_negative, expected_result, to_npu_state, call_lookup, assert_runtime_result,
}
use asu_ascend.Scripts.Compare.{results, assert_runtime_result_iff}
use asu_ascend.Scripts.Device.{Agrees, verify_state, verify_state_passes}
use asu_ascend.Scripts.Positions.{positions_from}
use asu_ascend.Scripts.Library.{Files, LoadedKernel, load_kernel}

pub record Args (FilePath : Type 0) : Type 0 where
  pub build_dir : FilePath
  pub library_path : Option FilePath
  pub device : ℤ
  pub req_num : ℤ
  pub hit_count : ℤ
  pub seed : ℤ
  pub case_id : ℤ

-- The options that `parse_args` gives when the command line is empty.
abbrev pub default_args : {FilePath : Type 0} → FilePath → Args FilePath
default_args build_dir = record {
  build_dir = build_dir;
  library_path = none;
  device = pos 0;
  req_num = pos 2;
  hit_count = pos 1843;
  seed = pos 20260724;
  case_id = pos 0;
}

-- What the script prints behind PASS: the case's two counts, and the first of the positions at which
-- its first query has a token that is not resident.
pub record Passed : Type 0 where
  pub hit_count : ℕ
  pub miss_count : ℕ
  pub miss_positions : List ℕ

abbrev pub first_query : List (LookupState × List ℤ) → List ℤ
first_query [] = []
first_query ((state, query) ∷ rows) = query

unfoldable pub passed_of : RandomLookupCase → Passed
unfolding positions_from
passed_of case = record {
  hit_count = case.hit_count;
  miss_count = case.miss_count;
  miss_positions = take 16 (positions_from (10 * 1024) 0 (first_query case.rows));
}

module _ (files : Files) (s : Sizes) (random : Random) (runtime : Runtime files.Function) where
  open files use {FilePath}

  unfoldable pub validate_args : Args FilePath → Result ℕ
  unfolding validate_hit_count
  validate_args args = do
    raise_if (not (ltb_ℤ (pos 0) args.req_num)) req_num_not_positive
    raise_if (ltb_ℤ args.device (pos 0)) device_negative
    raise_if (ltb_ℤ args.case_id (pos 0)) case_id_negative
    from_workload (validate_hit_count s args.hit_count)

  unfoldable pub main : Args FilePath → Result Passed
  unfolding validate_args load_kernel verify_state passed_of
  main args = do
    hits ← validate_args args
    kernel ← load_kernel files args.library_path args.build_dir
    case ←
        verify_state s random runtime kernel.function args.req_num args.hit_count args.seed
          (pos_part args.case_id)
    ok (passed_of case)

  -- Conditions: the sizes leave room for hits and misses, the library loads, there is a stream, the
  -- operator leaves what the reference computes on fresh states of such cases, the number of requests is
  -- positive and fits in 32 bits, the hit count is at most QUERY_COUNT, and neither the device nor the
  -- case is negative. The script passes, and reports the hit count that was asked for.
  pub main_passes :
      (args : Args FilePath) (n hits device_id case_id : ℕ)
      (kernel : LoadedKernel FilePath files.Library files.Function) (stream_ptr : ℕ)
      → AreSizes s
      → load_kernel files args.library_path args.build_dir ≡ ok kernel
      → runtime.npu_stream ≡ some stream_ptr
      → Agrees s runtime kernel.function
      → args.req_num ≡ pos (suc n)
      → suc n < 2 ^ 32
      → args.hit_count ≡ pos hits
      → hits ≤ s.query_count
      → args.device ≡ pos device_id
      → args.case_id ≡ pos case_id
      → (passed : Passed) × (main args ≡ ok passed) × (passed.hit_count ≡ hits)
  unfolding main validate_args validate_hit_count passed_of
  main_passes args n hits device_id case_id kernel stream_ptr sizes loaded has_stream agrees
        requests few asked fits on_device in_case =
      let (case, run, many, hit, all) =
        verify_state_passes s random runtime sizes kernel.function stream_ptr has_stream agrees n
          hits args.seed case_id fits few in
      (passed_of case, ground (arith, requests, asked, fits, on_device, in_case, loaded, run), hit)

  -- Conditions: the script passed. Then the library was loaded, the case was made, the reference
  -- returned on it, the call of the operator returned, and what the operator left is what the reference
  -- computed: a wrong result does not pass.
  pub main_sound :
      (args : Args FilePath) {passed : Passed}
      → main args ≡ ok passed
      → (kernel : LoadedKernel FilePath files.Library files.Function) × (case : RandomLookupCase)
        × (expected : List (LookupState × List ℤ × List Bool)) × (left : NpuLookupState)
        × (load_kernel files args.library_path args.build_dir ≡ ok kernel)
        × (make_random_case s random args.req_num args.hit_count args.seed (pos_part args.case_id)
            ≡ ok case)
        × (expected_result case.rows ≡ ok expected)
        × (call_lookup s runtime kernel.function
              (to_npu_state s runtime case)
              (pos_part args.req_num)
            ≡ ok left)
        × (results left ≡ expected)
  unfolding main verify_state
  main_sound args passed_run =
      let (hits, valid, after_args) = ok_of_bind (validate_args args) _ passed_run in
      let (kernel, loaded, after_load) =
        ok_of_bind (load_kernel files args.library_path args.build_dir) _ after_args in
      let (case', verified, after_verify) =
        ok_of_bind
          (verify_state s random runtime kernel.function args.req_num args.hit_count args.seed
            (pos_part args.case_id))
          _ after_load in
      let (case, made, after_made) =
        ok_of_bind
          (from_workload (
            make_random_case s random args.req_num args.hit_count args.seed
              (pos_part args.case_id)))
          _ verified in
      let (expected, expects, after_expected) =
        ok_of_bind (expected_result case.rows) _ after_made in
      let (left, called, compared) =
        ok_of_bind
          (call_lookup s runtime kernel.function (to_npu_state s runtime case)
            (pos_part args.req_num))
          _ after_expected in
      let (done, same, rest) = ok_of_bind (assert_runtime_result left expected) _ compared in
      (
        kernel,
        case,
        expected,
        left,
        loaded,
        ground (arith, made),
        expects,
        called,
        (assert_runtime_result_iff left expected).0 same,
      )

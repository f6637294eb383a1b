-- ===== src/Scripts/Tests.antt =====
-- A device that runs the reference, and the scripts on it.
use Prim.Native.String.{String}
use asu_ascend.Common.{
  ℕ, ◌%◌, ◌^◌, ◌≡◌, ◌⊎◌, ◌↔◌, inl, inr, refl, ap, ◌∙◌, Bool, true, false, none, some, List, [], ◌∷◌,
  map, replicate, range_from, arith,
}
use asu_ascend.Common.Int.{ℤ, pos}
use asu_ascend.Common.Results.{ok, ◌>>=◌, ok_of_bind}
use asu_ascend.Lookup
use asu_ascend.Lookup.{LookupState, Outcome, returns, raises, lookup_allocate_evict}
use asu_ascend.Workload.{source_sizes, RandomLookupCase, make_random_case}
use asu_ascend.Workload.Tests.{first_come, source_sizes-AreSizes}
use asu_ascend.Scripts.{
  NpuRow, NpuLookupState, Runtime, Result, expected_result, to_npu_row, to_npu_state, call_lookup,
  assert_runtime_result,
}
use asu_ascend.Scripts.Bench
use asu_ascend.Scripts.Bench.Launches
use asu_ascend.Scripts.Compare.{result_of, results, assert_runtime_result_iff}
use asu_ascend.Scripts.Device.{Agrees}
use asu_ascend.Scripts.Library.{Files, LoadedKernel, load_kernel}
use asu_ascend.Scripts.Profile
use asu_ascend.Scripts.Profile.Captures
use asu_ascend.Scripts.Validate

-- One file, the library.
abbrev one_file : Files
one_file = record {
  FilePath = List String;
  Library = Unit {0};
  Function = Unit {0};
  resolve = λ path. path;
  join = λ path part. part ∷ path;
  is_file = λ path. true;
  rglob = λ path pattern_. [];
  cdll = λ path. some tt;
  symbol = λ library name. some tt;
}

abbrev kernel : LoadedKernel (List String) (Unit {0}) (Unit {0})
kernel = record {
  library = tt;
  function = tt;
  path = "libasu_hbm_index_lookup_simt_kernel.so" ∷ "lib" ∷ [];
}

loaded : load_kernel one_file none [] ≡ ok kernel
unfolding load_kernel
loaded = refl

-- The operator as the reference has it.
abbrev after_outcome : NpuRow → Outcome (List ℤ × List Bool) → NpuRow
after_outcome r (raises e state) = r
after_outcome r (returns answer state) = record r {
  state = state;
  slot_ids = answer.0;
  miss_mask = answer.1;
}

abbrev launched_row : NpuRow → NpuRow
launched_row r = after_outcome r (lookup_allocate_evict r.query_token_ids r.state)

abbrev reference_runtime : Runtime (Unit {0})
reference_runtime = record {
  empty_int = λ n. replicate n (pos 0);
  empty_bool = λ n. replicate n false;
  npu_stream = some 1;
  launch = λ function req_num state. record state { rows = map launched_row state.rows };
}

Outcome-cases {ℓ} :
    {A : Type ℓ} (o : Outcome A)
    → ((e : Lookup.Error) × (state : LookupState) × (o ≡ raises e state))
      ⊎ ((a : A) × (state : LookupState) × (o ≡ returns a state))
Outcome-cases (raises e state) = inl (e, state, refl)
Outcome-cases (returns a state) = inr (a, state, refl)

launched-expected :
    (rows : List NpuRow) (expected : List (LookupState × List ℤ × List Bool))
    → expected_result (map (λ r. (r.state, r.query_token_ids)) rows) ≡ ok expected
    → map result_of (map launched_row rows) ≡ expected
unfolding expected_result
launched-expected [] expected run = ground (arith, run)
launched-expected (r ∷ rows) expected run =
    elim (Outcome-cases (lookup_allocate_evict r.query_token_ids r.state)) [
      | inl (e, state, raised) ↦ absurd (ground (arith, run, raised))
      | inr (answer, state, returned) ↦
          let rest_run : (expected_result (map (λ r. (r.state, r.query_token_ids)) rows) >>= λ rest.
          ok ((state, answer.0, answer.1) ∷ rest))
              ≡ ok expected =
            ground (arith, run, returned) in
          let (rest, others, all) =
            ok_of_bind (expected_result (map (λ r. (r.state, r.query_token_ids)) rows)) _
              rest_run in
          ground (arith, launched-expected rows rest others, returned, all)
    ]

inputs-to_npu_row :
    (rows : List (LookupState × List ℤ))
    → map (λ r. (r.state, r.query_token_ids)) (map (to_npu_row source_sizes reference_runtime) rows)
      ≡ rows
inputs-to_npu_row [] = refl
inputs-to_npu_row ((state, query) ∷ rows) = ap (◌∷◌ (state, query)) (inputs-to_npu_row rows)

reference-Agrees : Agrees source_sizes reference_runtime tt
unfolding to_npu_state
reference-Agrees hits case expected all few run =
    launched-expected (map (to_npu_row source_sizes reference_runtime) case.rows) expected
      (ap expected_result (inputs-to_npu_row case.rows) ∙ run)

no_rows : NpuLookupState
no_rows = record { rows = []; workspace = [] }

assert_runtime_result_iff_example :
    (assert_runtime_result no_rows [] ≡ ok tt) ↔ (results no_rows ≡ [])
assert_runtime_result_iff_example = assert_runtime_result_iff no_rows []

abbrev validate_args : Validate.Args (List String)
validate_args = Validate.default_args []

abbrev validated : Validate.Args (List String) → Result Validate.Passed
validated args = Validate.main one_file source_sizes first_come reference_runtime args

main_passes_example :
    (passed : Validate.Passed) × (validated validate_args ≡ ok passed) × (passed.hit_count ≡ 1843)
main_passes_example =
    Validate.main_passes one_file source_sizes first_come reference_runtime validate_args 1 1843 0 0
      kernel 1 source_sizes-AreSizes loaded refl reference-Agrees refl (omega arith) refl
      (omega arith) refl refl

main_sound_example :
    (kernel : LoadedKernel (List String) (Unit {0}) (Unit {0})) × (case : RandomLookupCase)
    × (expected : List (LookupState × List ℤ × List Bool)) × (left : NpuLookupState) × (load_kernel
          one_file none []
        ≡ ok kernel)
    × (make_random_case source_sizes first_come (pos 2) (pos 1843) (pos 20260724) 0 ≡ ok case)
    × (expected_result case.rows ≡ ok expected)
    × (call_lookup source_sizes reference_runtime kernel.function
          (to_npu_state source_sizes reference_runtime case)
          2
        ≡ ok left)
    × (results left ≡ expected)
main_sound_example =
    Validate.main_sound one_file source_sizes first_come reference_runtime validate_args
      main_passes_example.1

abbrev bench_args : Bench.Args (List String)
bench_args = Bench.default_args []

-- What a launch leaves of a fresh state.
abbrev launched_case : ℕ → NpuLookupState
launched_case i = reference_runtime.launch tt (50 % 2 ^ 32) (
    Launches.case_state source_sizes first_come reference_runtime source_sizes-AreSizes 49 1843
      (omega arith) (pos 20260724) i)

main_launches_example :
    (p : Bench.Progress) × (Bench.main one_file source_sizes first_come reference_runtime bench_args
      ≡ ok p)
    × (p.completed ≡ 100)
    × (p.next_case_id ≡ 111)
    × (p.warmed ≡ map launched_case (range_from 1 10))
    × (p.timed ≡ map launched_case (range_from 11 100))
main_launches_example =
    Launches.main_launches one_file source_sizes first_come reference_runtime bench_args 49 1843 99
      10 10 0 kernel 1 source_sizes-AreSizes refl (omega arith) loaded reference-Agrees refl
      (omega arith) refl refl refl refl refl

-- A disk with one empty directory, below which nothing is found.
abbrev empty_disk : Profile.Disk (List String)
empty_disk = record {
  Store = Unit {0};
  exists = λ store path. true;
  is_dir = λ store path. true;
  is_file = λ store path. false;
  children = λ store path. some [];
  below = λ store path. [];
  glob = λ store path pattern_. [];
  name = λ path. "";
  suffix = λ path. "";
  joined = λ path rest. path;
  relative_to = λ path root. path;
  file_name = λ path. path;
  sorted_paths = λ paths. paths;
  make_dirs = λ path store. store;
  copy_file = λ source destination store. store;
  profiled = λ path outputs store. store;
}

abbrev profile_args : Profile.Args (List String)
profile_args = record (Profile.default_args [] []) { req_num = pos 50; warmup = pos 5 }

abbrev made_case : ℕ → NpuLookupState
made_case =
    Launches.case_state source_sizes first_come reference_runtime source_sizes-AreSizes 49 1843
      (omega arith) (pos 20260724)

profile_states_captures_example :
    (Profile.preload_split one_file empty_disk source_sizes first_come reference_runtime tt
        profile_args
      ≡ ok (map made_case (range_from 1 5), map made_case (range_from 6 20)))
    × (Bench.run_states source_sizes first_come reference_runtime tt
          (pos 50)
          (pos 1843)
          (pos 20260724)
          (map made_case (range_from 1 5))
        ≡ ok (map launched_case (range_from 1 5)))
    × (Profile.profile_states one_file empty_disk source_sizes first_come reference_runtime tt
          (map made_case (range_from 6 20))
          profile_args
          []
          tt
        ≡ ok (map launched_case (range_from 6 20), tt))
profile_states_captures_example =
    Captures.profile_states_captures one_file empty_disk source_sizes first_come reference_runtime
      profile_args 49 1843 5 19 tt 1 source_sizes-AreSizes (omega arith) [] tt refl refl refl refl
      refl

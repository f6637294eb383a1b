-- ===== src/Scripts/Profile.antt =====
-- profile_lookup_simt.py: the arguments, the directory of the results, the captured calls, and the search
-- for the profile that they leave. The disk and the profiler are a parameter; what is known of the
-- environment (versions, the commit, the names of devices) is left out of the manifest.
pub mod Captures
use Prim.Native.String.{String}
use text.Mathlib.Text.{◌==◌ as str_eq, starts_with}
use asu_ascend.Common.{
  ℕ, zero, suc, ◌+◌, Bool, true, false, not, ◌&&◌, ◌||◌, Option, none, some, List, [], ◌∷◌, ◌++◌,
  map, ◌==◌, if◌then◌else◌, length, take, drop,
}
use asu_ascend.Common.Int.{ℤ, pos, ltb_ℤ, pos_part}
use asu_ascend.Common.Random.{Random}
use asu_ascend.Common.Results.{ok, err, ◌>>=◌, ◌>>◌, raise_if}
use asu_ascend.Workload.{Sizes, RandomLookupCase, validate_hit_count, make_random_query_row}
use asu_ascend.Scripts.{
  NpuLookupState, Runtime, Result, from_workload, req_num_not_positive, warmup_negative,
  profile_iterations_not_positive, device_negative, outputs_lost, output_dir_not_a_directory,
  output_dir_not_empty, os_error, profile_count, no_parsed_output, no_expected_files,
}
use asu_ascend.Scripts.Bench.{preload_states, call_each, run_states}
use asu_ascend.Scripts.Device.{verify_state}
use asu_ascend.Scripts.Library.{Files, load_kernel}
use asu_ascend.Scripts.Positions.{positions_from}

pub record Args (FilePath : Type 0) : Type 0 where
  pub build_dir : FilePath
  pub library_path : Option FilePath
  pub output_dir : FilePath
  pub device : ℤ
  pub req_num : ℤ
  pub warmup : ℤ
  pub profile_iterations : ℤ
  pub hit_count : ℤ
  pub seed : ℤ
  pub export_db : Bool
  pub no_verify : Bool

-- The options that `parse_args` gives when the command line names the output directory only.
abbrev pub default_args : {FilePath : Type 0} → FilePath → FilePath → Args FilePath
default_args build_dir output_dir = record {
  build_dir = build_dir;
  library_path = none;
  output_dir = output_dir;
  device = pos 0;
  req_num = pos 1;
  warmup = pos 10;
  profile_iterations = pos 20;
  hit_count = pos 1843;
  seed = pos 20260724;
  export_db = true;
  no_verify = false;
}

-- The disk, in a state that the script and the profiler change. `children` is `iterdir`, with its
-- OSError; `below` is `sorted(root.rglob("*"))`; `suffix` is in lower case; `profiled` is what a profile
-- of the captured calls writes below a directory.
pub record Disk (FilePath : Type 0) : Type 1 where
  pub Store : Type 0
  pub exists : Store → FilePath → Bool
  pub is_dir : Store → FilePath → Bool
  pub is_file : Store → FilePath → Bool
  pub children : Store → FilePath → Option (List FilePath)
  pub below : Store → FilePath → List FilePath
  pub glob : Store → FilePath → String → List FilePath
  pub name : FilePath → String
  pub suffix : FilePath → String
  pub joined : FilePath → FilePath → FilePath
  pub relative_to : FilePath → FilePath → FilePath
  pub file_name : FilePath → FilePath
  pub sorted_paths : List FilePath → List FilePath
  pub make_dirs : FilePath → Store → Store
  pub copy_file : FilePath → FilePath → Store → Store
  pub profiled : FilePath → List NpuLookupState → Store → Store

-- The two lists that are kept: the paths of a list that satisfy a test, and whether one does.
abbrev pub filter_by {ℓ} : {A : Type ℓ} → (A → Bool) → List A → List A
filter_by p [] = []
filter_by p (x ∷ xs) = let rest = filter_by p xs in if p x then x ∷ rest else rest

abbrev pub any_of {ℓ} : {A : Type ℓ} → (A → Bool) → List A → Bool
any_of p [] = false
any_of p (x ∷ xs) = p x || any_of p xs

module _ (files : Files) (disk : Disk files.FilePath) where
  open files use {FilePath, resolve, join}
  open disk use {
    Store, exists, is_dir, is_file, children, below, glob, name, suffix, joined, relative_to,
    file_name, sorted_paths, make_dirs, copy_file, profiled,
  }

  abbrev is_empty_dir : Store → FilePath → Result (Unit {0})
  is_empty_dir store path = elim (children store path) [
    | none ↦ err os_error
    | some paths ↦ raise_if (not (length paths == 0)) output_dir_not_empty
  ]

  -- The directory, and those for the raw and the parsed profile, which are made.
  unfoldable pub prepare_output_dir :
      FilePath → Store → Result ((FilePath × FilePath × FilePath) × Store)
  prepare_output_dir output_dir store = do
    let run_root = resolve output_dir
    raise_if (exists store run_root && not (is_dir store run_root)) output_dir_not_a_directory
    if exists store run_root then is_empty_dir store run_root else ok tt
    let raw_root = join run_root "raw"
    let parsed_root = join run_root "parsed"
    ok ((run_root, raw_root, parsed_root), make_dirs parsed_root (make_dirs raw_root store))

  unfoldable pub is_raw_profile_dir : Store → FilePath → Bool
  is_raw_profile_dir store path = elim (children store path) [
    | none ↦ false
    | some paths ↦
        any_of
          (λ child.
            is_dir store child
            && (str_eq (name child) "FRAMEWORK" || starts_with (name child) "PROF_"))
          paths
  ]

  abbrev the_only : List FilePath → Result FilePath
  the_only (path ∷ []) = ok path
  the_only paths = err (profile_count (length paths))

  unfoldable pub discover_raw_profile : Store → FilePath → Result FilePath
  unfolding is_raw_profile_dir
  discover_raw_profile store raw_root = the_only (
      filter_by (λ path. is_dir store path && is_raw_profile_dir store path) (below store raw_root))

  -- A loop of copies: each file goes to a place that its path gives.
  unfoldable pub copy_all : (FilePath → FilePath) → List FilePath → Store → List FilePath × Store
  copy_all place [] store = ([], store)
  copy_all place (source ∷ sources) store =
      let (copied, store') = copy_all place sources (copy_file source (place source) store) in
      (place source ∷ copied, store')

  abbrev is_expected : Bool → FilePath → Bool
  is_expected export_db path =
      if export_db
      then str_eq (suffix path) ".db"
      else str_eq (suffix path) ".csv" || str_eq (suffix path) ".json"

  -- The directories that `mkdir` makes for the copies are left to `copy_file`.
  unfoldable pub copy_parsed_results :
      FilePath → FilePath → Bool → Store → Result (List FilePath × Store)
  unfolding copy_all
  copy_parsed_results raw_profile parsed_root export_db store = do
    let source_root = join raw_profile "ASCEND_PROFILER_OUTPUT"
    raise_if (not (is_dir store source_root)) no_parsed_output
    let source_files = filter_by (is_file store) (below store source_root)
    raise_if (not (any_of (is_expected export_db) source_files)) no_expected_files
    let destination_root = join parsed_root "ASCEND_PROFILER_OUTPUT"
    let (copied, store1) =
        copy_all (λ source. joined destination_root (relative_to source source_root)) source_files
          store
    let (infos, store2) =
        copy_all (λ source. joined parsed_root (file_name source))
          (glob store1 raw_profile "profiler_info*.json") store1
    let (metadata, store3) =
        copy_all (λ source. joined parsed_root (file_name source))
          (glob store2 raw_profile "profiler_metadata.json") store2
    ok (sorted_paths (copied ++ (infos ++ metadata)), store3)

  module _ (s : Sizes) (random : Random) (runtime : Runtime files.Function) where
    unfoldable pub validate_args : Args FilePath → Result ℕ
    unfolding validate_hit_count
    validate_args args = do
      raise_if (not (ltb_ℤ (pos 0) args.req_num)) req_num_not_positive
      raise_if (ltb_ℤ args.device (pos 0)) device_negative
      raise_if (ltb_ℤ args.warmup (pos 0)) warmup_negative
      raise_if (not (ltb_ℤ (pos 0) args.profile_iterations)) profile_iterations_not_positive
      from_workload (validate_hit_count s args.hit_count)

    -- `preload_states` of this script: all states at once, split behind the warmup.
    unfoldable pub preload_split :
        files.Function → Args FilePath → Result (List NpuLookupState × List NpuLookupState)
    unfolding preload_states
    preload_split function args = do
      let warmup = pos_part args.warmup
      states ←
          preload_states s random runtime function args.req_num args.hit_count args.seed
            (warmup + pos_part args.profile_iterations) 1
      ok (take warmup states, drop warmup states)

    -- The captured calls, and the disk that the profiler leaves.
    unfoldable pub profile_states :
        files.Function
        → List NpuLookupState
        → Args FilePath
        → FilePath
        → Store
        → Result (List NpuLookupState × Store)
    unfolding call_each
    profile_states function states args raw_root store = do
      retained_outputs ←
          call_each s random runtime function args.req_num args.hit_count args.seed states
      raise_if (not (length retained_outputs == pos_part args.profile_iterations)) outputs_lost
      ok (retained_outputs, profiled raw_root retained_outputs store)

    -- What the manifest lists as the sample of request 0.
    unfoldable pub miss_position_sample : Args FilePath → Result (List ℕ)
    unfolding make_random_query_row positions_from
    miss_position_sample args = do
      let first_profile_case_id = 1 + pos_part args.warmup
      query ←
          from_workload
            (make_random_query_row s random args.hit_count args.seed first_profile_case_id 0)
      ok (take 32 (positions_from s.slot_count 0 query))

    -- What a run leaves: the outputs of the captured calls, and what the manifest says of the run.
    pub record Profiled : Type 0 where
      pub warmed : List NpuLookupState
      pub captured : List NpuLookupState
      pub raw_profile : FilePath
      pub parsed_files : List FilePath
      pub miss_sample : List ℕ

    abbrev verify_first : files.Function → Args FilePath → Result (Unit {0})
    verify_first function args =
        if args.no_verify
        then ok tt
        else (verify_state s random runtime function args.req_num args.hit_count args.seed 0
            >>= λ case. ok tt)

    unfoldable pub main : Args FilePath → Store → Result (Profiled × Store)
    unfolding validate_args prepare_output_dir load_kernel verify_state preload_split run_states
        profile_states discover_raw_profile copy_parsed_results miss_position_sample
    main args store = do
      hits ← validate_args args
      ((run_root, raw_root, parsed_root), store1) ← prepare_output_dir args.output_dir store
      kernel ← load_kernel files args.library_path args.build_dir
      verify_first kernel.function args
      (warmup, captured) ← preload_split kernel.function args
      warmed ←
          run_states s random runtime kernel.function args.req_num args.hit_count args.seed warmup
      (outputs, store2) ← profile_states kernel.function captured args raw_root store1
      raw_profile ← discover_raw_profile store2 raw_root
      (parsed_files, store3) ← copy_parsed_results raw_profile parsed_root args.export_db store2
      sample ← miss_position_sample args
      ok (
        record {
          warmed = warmed;
          captured = outputs;
          raw_profile = raw_profile;
          parsed_files = parsed_files;
          miss_sample = sample;
        },
        store3,
      )

-- ===== src/HbmOps/Tests.antt =====
-- Operators that compute what is expected, and the search, the validation and the benchmark with them.
use Prim.Native.String.{String}
use text.Mathlib.Text.{◌==◌ as str_eq}
use asu_ascend.Common.{
  All, length, range_from, ℕ, ◌+◌, ◌≡◌, ◌↔◌, refl, Bool, true, false, not, Option, none, some, List,
  [], ◌∷◌, map, replicate, if◌then◌else◌,
}
use asu_ascend.Common.Int.{ℤ, pos, ◌+ℤ◌, c_uint32}
use asu_ascend.Common.Results.{ok, err}
use asu_ascend.Hbm
use asu_ascend.Hbm.{Row, expected_lookup_allocate}
use asu_ascend.Hbm.Cases.{make_index_case, Sizes, source_sizes, Ratios}
use asu_ascend.Hbm.Maintain.{expected_maintain}
use asu_ascend.Hbm.Tests.{one, one', used, source_sizes-AreSizes}
use asu_ascend.HbmOps.{
  Host, value_of, no_attribute, load_function, MaintainRunner, python, find_lookup_library,
  resolve_maintain_callable, split, normalize_torch_op_name,
}
use asu_ascend.Hbm.Cases.Runs.{looked_up}
use asu_ascend.HbmOps.Bench
use asu_ascend.HbmOps.Bench.Starts
use asu_ascend.HbmOps.Registered.{default_ops, Unregistered}
use asu_ascend.HbmOps.Resolve.{Loads, NotBuilt, resolve_maintain_callable-none}
use asu_ascend.HbmOps.Validate.{
  Args, default_args, Device, LookupRow, passed, nothing, lookup_tensors, head_sum, call_lookup,
  call_maintain, validate_lookup, maintain_input, validate_maintain,
}
use asu_ascend.HbmOps.Validate.Sound.{Observed, validate_maintain_sound, validate_lookup_sound}

split-parts : split b'.' "ascend.op" ≡ "ascend" ∷ "op" ∷ []
unfolding split
split-parts = refl

normalize-colons : normalize_torch_op_name "ascend::op" ≡ "ascend.op"
unfolding normalize_torch_op_name
normalize-colons = refl

-- Plugins, a lookup library that was built, a Python wrapper for the refill, and nothing that is
-- registered with torch.
abbrev host : Host
host = record {
  FilePath = String;
  Library = Unit {0};
  Function = Unit {0};
  Object = Bool;
  path_of = λ text. text;
  resolve = λ path. path;
  exists = λ path. not (str_eq path "build");
  rglob = λ path pattern_. "libasu_hbm_index_lookup_aiv.so" ∷ [];
  cdll = λ path. some tt;
  symbol = λ library name. some tt;
  import_module = λ name. some true;
  attribute = λ object name. if object then value_of true else no_attribute;
  as_function = λ object. some tt;
  loads = λ path. true;
  ops = λ plugins. false;
}

resolve_maintain_callable-none_example :
    (resolve_maintain_callable host none none (some "a.so,b.so") none "build" ≡ ok none) ↔ (
      All (Loads host) ("a.so" ∷ "b.so" ∷ [])
      × (◌≡◌ {A = Option String} none none)
      × NotBuilt host "build"
      × (◌≡◌ {A = Option String} none none)
      × (◌≡◌ {A = Option String} none none)
      × All (Unregistered host false) default_ops)
unfolding split
resolve_maintain_callable-none_example =
    resolve_maintain_callable-none host none none (some "a.so,b.so") none "build"

abbrev inputs : List LookupRow → List (Row × List ℤ)
inputs tensors = map (λ t. (t.row, t.query_index)) tensors

abbrev looked : List (List ℤ × Row) → List LookupRow
looked outs = map (λ e. record { row = e.1; query_index = []; slots = e.0 }) outs

abbrev lookup_done : List LookupRow → Hbm.Result (List (List ℤ × Row)) → List LookupRow
lookup_done tensors (ok outs) = looked outs
lookup_done tensors (err e) = tensors

abbrev back : Row → Row × List ℤ
back r = (r, [])

abbrev row_of : Row × List ℤ → Row
row_of (r, last) = r

abbrev maintain_done : List (Row × List ℤ) → Hbm.Result (List Row) → List (Row × List ℤ)
maintain_done input (ok rows) = map back rows
maintain_done input (err e) = input

abbrev expecting : ℕ → Device (Unit {0})
expecting slot_count = record {
  empty = λ n. replicate n (pos 0);
  npu_stream = some 1;
  launch_lookup = λ function block_dim req_num tensors.
      lookup_done tensors (expected_lookup_allocate (inputs tensors));
  launch_maintain = λ function block_dim req_num seed input. input;
  call_python = λ function req_num seed input. (
    maintain_done input (expected_maintain slot_count slot_count (c_uint32 seed) 0 input),
    nothing,
  );
  copy_into = λ rows input. input;
  elapsed_is_zero = λ runs. false;
}

abbrev no_ratios : Ratios
no_ratios = record {
  Ratio = ⊥;
  is_below_zero = λ ratio. false;
  is_above_one = λ ratio. false;
  scaled = λ n ratio. 0;
  scaled_le = λ n ratio low high. absurd ratio;
}

abbrev wrapper_args : Args String ⊥
wrapper_args = record (default_args "build" "build") { maintain_call = some "wrapper:maintain" }

-- Three slots, and one row of which one slot is missing.
abbrev three_slots : Sizes
three_slots = record source_sizes { slot_count = 3 }

abbrev one_looked_up : List (List ℤ × Row)
one_looked_up = (used, one') ∷ []

maintained :
    validate_maintain host (expecting 3) no_ratios three_slots wrapper_args one_looked_up
    ≡ ok (passed 1)
unfolding validate_maintain expected_maintain c_uint32
maintained = refl

validate_maintain_sound_example :
    (input : List (Row × List ℤ)) × (rows : List Row) × (runner : MaintainRunner (Unit {0}))
    × (left : List (Row × List ℤ)) × (maintain_input host
          (expecting 3)
          no_ratios
          three_slots
          wrapper_args
          one_looked_up
        ≡ ok input)
    × (expected_maintain 3 3 (c_uint32 (pos 2026)) 0 input ≡ ok rows)
    × (resolve_maintain_callable host (some "wrapper:maintain") none none none "build"
        ≡ ok (some runner))
    × (call_maintain (expecting 3) runner input (pos 8) (pos 2) (pos 2026) ≡ ok left)
    × (map (λ t. t.0) left ≡ rows)
    × (1 ≡ head_sum (map (λ t. t.0) input))
validate_maintain_sound_example =
    validate_maintain_sound host (expecting 3) no_ratios three_slots wrapper_args one_looked_up
      maintained

-- One row and its query.
abbrev one_case : List (Row × List ℤ)
one_case = (one, pos 2 ∷ pos 1 ∷ []) ∷ []

abbrev one_expected : List (List ℤ × Row)
one_expected = (pos 1 ∷ pos 0 ∷ [], one') ∷ []

validated :
    validate_lookup host (expecting 3) no_ratios three_slots wrapper_args one_case ≡ ok one_expected
unfolding validate_lookup expected_lookup_allocate
validated = refl

validate_lookup_sound_example :
    (lookup_lib : String) × (lookup_function : Unit {0}) × (left : List LookupRow)
    × (expected_lookup_allocate one_case ≡ ok one_expected)
    × (find_lookup_library host "build" none ≡ ok lookup_lib)
    × (load_function host lookup_lib "asu_hbm_index_lookup_do" ≡ ok lookup_function)
    × (call_lookup
          (expecting 3)
          lookup_function
          (lookup_tensors (expecting 3) one_case)
          (pos 8)
          (pos 2)
        ≡ ok left)
    × Observed left one_expected
validate_lookup_sound_example =
    validate_lookup_sound host (expecting 3) no_ratios three_slots wrapper_args one_case validated

abbrev bench_args : Bench.Args String ⊥
bench_args = record (Bench.default_args "build" "build") { reset_each_iter = true }

bench_lookup_resets_example :
    (cases : List (Row × List ℤ)) × (runs : List (List LookupRow × List LookupRow))
    × (make_index_case source_sizes 4 "hit" ≡ ok cases)
    × (Bench.bench_lookup (expecting 10240) no_ratios source_sizes tt bench_args (pos 4) (pos 8)
        ≡ ok runs)
    × (length runs ≡ 50)
    × All
        (λ run.
          (Starts.inputs run.0 ≡ cases)
          × (run.1
              ≡ (expecting 10240).launch_lookup tt (c_uint32 (pos 8)) (c_uint32 (pos 4)) run.0))
        runs
bench_lookup_resets_example =
    Starts.bench_lookup_resets (expecting 10240) no_ratios source_sizes tt bench_args 4 49 1 (pos 8)
      source_sizes-AreSizes refl refl refl refl refl

-- What the wrapper leaves, for any seed and tensors.
abbrev wrapper_left : ℤ → List (Row × List ℤ) → List (Row × List ℤ)
wrapper_left seed input =
    maintain_done input (expected_maintain 10240 10240 (c_uint32 seed) 0 input)

wrapper-returns :
    (seed : ℤ) (input : List (Row × List ℤ))
    → call_maintain (expecting 10240) (python tt) input (pos 8) (pos 4) seed
      ≡ ok (wrapper_left seed input)
unfolding call_maintain
wrapper-returns seed input = refl

bench_maintain_seeds_example :
    (cases : List (Row × List ℤ)) × (outs : List (List ℤ × Row)) × (make_index_case source_sizes 4
        "mixed"
      ≡ ok cases)
    × (expected_lookup_allocate cases ≡ ok outs)
    × (Bench.bench_maintain
          (expecting 10240)
          no_ratios
          source_sizes
          (python tt)
          bench_args
          (pos 4)
          (pos 8)
        ≡ ok (
            map
              (λ i.
                ((looked_up outs, i), (wrapper_left (pos 2026 +ℤ pos i) (looked_up outs), i + 1)))
              (range_from 10 50)))
bench_maintain_seeds_example =
    Starts.bench_maintain_seeds (expecting 10240) no_ratios source_sizes (python tt) bench_args 4 49
      (pos 8) wrapper_left source_sizes-AreSizes refl refl refl wrapper-returns

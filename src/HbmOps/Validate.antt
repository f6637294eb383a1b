-- ===== src/HbmOps/Validate.antt =====
-- validate_hbm_index_ops.py: the two operators on a case, compared with the expectations. The device is a
-- parameter: an operator is any function on the tensors that it is given. That tensors lie on the device
-- holds by how they are made, and `--list-torch-ops`, which only prints, is left out.
pub mod Sound
use Prim.Native.String.{String}
use asu_ascend.Common.{
  ℕ, ◌+◌, Bool, true, false, not, Option, none, some, List, [], ◌∷◌, map, if◌then◌else◌, length,
}
use asu_ascend.Common.Int.{ℤ, pos, negsuc, list_eq, c_uint32}
use asu_ascend.Common.Results.{Fallible, ok, err, ◌>>=◌, ◌>>◌, raise_if}
use asu_ascend.Hbm
use asu_ascend.Hbm.{Row, expected_lookup_allocate}
use asu_ascend.Hbm.Maintain.{expected_maintain}
use asu_ascend.Hbm.Cases.{
  Sizes, make_index_case, Ratios, evict_slots_from_ratio, make_maintain_case,
}
use asu_ascend.Hbm.Cases.Runs.{looked_up}
use asu_ascend.Scripts.{same_arrays}
use asu_ascend.HbmOps.{
  Host, Error, Result, OpArray, slot_out, index, slot_to_index, free_slots, free_head, mismatch,
  hbm_error, no_maintain_op, not_four_tensors, negative_size, no_stream, MaintainRunner, direct,
  python, find_lookup_library, load_function, resolve_maintain_callable,
}

abbrev pub from_hbm {ℓ} : {A : Type ℓ} → Hbm.Result A → Result A
from_hbm (ok a) = ok a
from_hbm (err e) = err (hbm_error e)

pub data Target : Type 0 where
  lookup maintain both : Target

pub record Args (FilePath Ratio : Type 0) : Type 0 where
  pub target : Target
  pub req_num : ℤ
  pub block_dim : ℤ
  pub seed : ℤ
  pub pattern_ : String
  pub build_dir : FilePath
  pub lookup_lib : Option String
  pub maintain_build_dir : FilePath
  pub maintain_lib : Option String
  pub evict_ratio : Option Ratio
  pub maintain_call : Option String
  pub maintain_op : Option String
  pub op_plugin_lib : Option String
  pub strict_maintain : Bool

-- The options that `parse_args` gives when the command line is empty.
abbrev pub default_args : {FilePath Ratio : Type 0} → FilePath → FilePath → Args FilePath Ratio
default_args build_dir maintain_build_dir = record {
  target = both;
  req_num = pos 2;
  block_dim = pos 8;
  seed = pos 2026;
  pattern_ = "mixed";
  build_dir = build_dir;
  lookup_lib = none;
  maintain_build_dir = maintain_build_dir;
  maintain_lib = none;
  evict_ratio = none;
  maintain_call = none;
  maintain_op = none;
  op_plugin_lib = none;
  strict_maintain = false;
}

-- The tensors of one request for the lookup: those of the row, the query and the slots.
pub record LookupRow : Type 0 where
  pub row : Row
  pub query_index : List ℤ
  pub slots : List ℤ

-- What a maintain callable returns: None, four tensors, or something else.
pub data Returned : Type 0 where
  nothing other : Returned
  four : List Row → Returned

-- The calls take the block dimension, the number of requests and the seed; `copy_into` is `copy_` on the
-- four tensors. `npu_stream` is the pointer of the current stream, and `elapsed_is_zero` tells whether the
-- clock measures no time at all for a number of timed runs.
pub record Device (Function : Type 0) : Type 0 where
  pub empty : ℕ → List ℤ
  pub npu_stream : Option ℕ
  pub launch_lookup : Function → ℕ → ℕ → List LookupRow → List LookupRow
  pub launch_maintain : Function → ℕ → ℕ → ℕ → List (Row × List ℤ) → List (Row × List ℤ)
  pub call_python : Function → ℤ → ℤ → List (Row × List ℤ) → List (Row × List ℤ) × Returned
  pub copy_into : List Row → List (Row × List ℤ) → List (Row × List ℤ)
  pub elapsed_is_zero : ℕ → Bool

abbrev pub assert_that : Bool → OpArray → Result (Unit {0})
assert_that same array = raise_if (not same) (mismatch array)

-- `assert_array_equal` on the four kinds of arrays.
abbrev pub same_index : List Row → List Row → Bool
same_index rows rows' = same_arrays (map (λ r. r.index) rows) (map (λ r. r.index) rows')

abbrev pub same_slot_to_index : List Row → List Row → Bool
same_slot_to_index rows rows' =
    same_arrays (map (λ r. r.slot_to_index) rows) (map (λ r. r.slot_to_index) rows')

abbrev pub same_free_slots : List Row → List Row → Bool
same_free_slots rows rows' =
    same_arrays (map (λ r. r.free_slots) rows) (map (λ r. r.free_slots) rows')

abbrev pub same_free_head : List Row → List Row → Bool
same_free_head rows rows' =
    list_eq (map (λ r. pos r.free_head) rows) (map (λ r. pos r.free_head) rows')

-- `int(free_head.sum())`
abbrev pub head_sum : List Row → ℕ
head_sum [] = 0
head_sum (r ∷ rows) = r.free_head + head_sum rows

-- `PASS` for an operator, `SKIP` where there is none, each with the number of slots to refill.
pub data MaintainReport : Type 0 where
  passed skipped : ℕ → MaintainReport

module _ {Function : Type 0} (device : Device Function) where
  open device use {empty, npu_stream, launch_lookup, launch_maintain, call_python, copy_into}

  abbrev pub lookup_tensors : List (Row × List ℤ) → List LookupRow
  lookup_tensors [] = []
  lookup_tensors ((r, query) ∷ cases) =
      record { row = r; query_index = query; slots = empty (length query) } ∷ lookup_tensors cases

  unfoldable pub call_lookup : Function → List LookupRow → ℤ → ℤ → Result (List LookupRow)
  call_lookup function tensors block_dim req_num = elim npu_stream [
    | none ↦ err no_stream
    | some stream_ptr ↦ ok (launch_lookup function (c_uint32 block_dim) (c_uint32 req_num) tensors)
  ]

  unfoldable pub call_maintain_python :
      Function → List (Row × List ℤ) → ℤ → ℤ → Result (List (Row × List ℤ))
  call_maintain_python function tensors req_num seed =
      let (left, result) = call_python function req_num seed tensors in
      elim result [
        | nothing ↦ ok left
        | other ↦ err not_four_tensors
        | four outputs ↦ ok (copy_into outputs left)
      ]

  unfoldable pub call_maintain :
      MaintainRunner Function → List (Row × List ℤ) → ℤ → ℤ → ℤ → Result (List (Row × List ℤ))
  unfolding call_maintain_python
  call_maintain (direct function) tensors block_dim req_num seed = elim npu_stream [
    | none ↦ err no_stream
    | some stream_ptr ↦
        ok
          (launch_maintain function (c_uint32 block_dim) (c_uint32 req_num) (c_uint32 seed) tensors)
  ]
  call_maintain (python function) tensors block_dim req_num seed =
      call_maintain_python function tensors req_num seed

  -- The comparison of `validate_lookup`.
  unfoldable pub check_lookup : List LookupRow → List (List ℤ × Row) → Result (Unit {0})
  check_lookup left expected = do
    assert_that (same_arrays (map (λ t. t.slots) left) (map (λ e. e.0) expected)) slot_out
    assert_that (same_index (map (λ t. t.row) left) (map (λ e. e.1) expected)) index
    assert_that (same_slot_to_index (map (λ t. t.row) left) (map (λ e. e.1) expected)) slot_to_index
    assert_that (same_free_head (map (λ t. t.row) left) (map (λ e. e.1) expected)) free_head

  -- The comparison of `validate_maintain`.
  unfoldable pub check_maintain : List (Row × List ℤ) → List Row → Result (Unit {0})
  check_maintain left expected = do
    assert_that (same_index (map (λ t. t.0) left) expected) index
    assert_that (same_slot_to_index (map (λ t. t.0) left) expected) slot_to_index
    assert_that (same_free_slots (map (λ t. t.0) left) expected) free_slots
    assert_that (same_free_head (map (λ t. t.0) left) expected) free_head

-- The cases for a number of requests that is given on the command line: numpy refuses a negative one.
abbrev pub index_cases : Sizes → ℤ → String → Result (List (Row × List ℤ))
index_cases s (pos n) pattern_ = from_hbm (make_index_case s n pattern_)
index_cases s (negsuc n) pattern_ = err negative_size

abbrev pub maintain_cases :
    (floats : Ratios) → Sizes → ℤ → floats.Ratio → Result (List (Row × List ℤ))
maintain_cases floats s (pos n) ratio = from_hbm (make_maintain_case floats s n ratio)
maintain_cases floats s (negsuc n) ratio =
    from_hbm (evict_slots_from_ratio floats s ratio) >>= λ evict_slots. err negative_size

module _ (host : Host) (device : Device host.Function) (floats : Ratios) (s : Sizes) where
  open host use {FilePath, Function}
  open floats use {Ratio}

  unfoldable pub validate_lookup :
      Args FilePath Ratio → List (Row × List ℤ) → Result (List (List ℤ × Row))
  unfolding find_lookup_library call_lookup check_lookup
  validate_lookup args cases = do
    expected ← from_hbm (expected_lookup_allocate cases)
    lookup_lib ← find_lookup_library host args.build_dir args.lookup_lib
    lookup_function ← load_function host lookup_lib "asu_hbm_index_lookup_do"
    left ←
        call_lookup device lookup_function (lookup_tensors device cases) args.block_dim args.req_num
    check_lookup device left expected
    ok expected

  -- The rows and the last slots that the refill is tried on.
  abbrev pub maintain_input :
      Args FilePath Ratio → List (List ℤ × Row) → Result (List (Row × List ℤ))
  maintain_input args lookup_state = elim args.evict_ratio [
    | none ↦ ok (looked_up lookup_state)
    | some ratio ↦ maintain_cases floats s args.req_num ratio
  ]

  abbrev pub run_maintain :
      Args FilePath Ratio
      → List (Row × List ℤ)
      → List Row
      → Option (MaintainRunner Function)
      → Result MaintainReport
  run_maintain args input expected none =
      if args.strict_maintain
      then err no_maintain_op
      else ok (skipped (head_sum (map (λ t. t.0) input)))
  run_maintain args input expected (some runner) = do
    left ← call_maintain device runner input args.block_dim args.req_num args.seed
    check_maintain device left expected
    ok (passed (head_sum (map (λ t. t.0) input)))

  -- The fuel of the expectation is one turn over the slots; its `hash32` reads 32 bits of the seed.
  unfoldable pub validate_maintain :
      Args FilePath Ratio → List (List ℤ × Row) → Result MaintainReport
  unfolding call_maintain check_maintain resolve_maintain_callable
  validate_maintain args lookup_state = do
    input ← maintain_input args lookup_state
    expected ← from_hbm (expected_maintain s.slot_count s.slot_count (c_uint32 args.seed) 0 input)
    runner ←
        resolve_maintain_callable host args.maintain_call args.maintain_op args.op_plugin_lib
          args.maintain_lib args.maintain_build_dir
    run_maintain args input expected runner

  abbrev pub lookup_phase :
      Target → Args FilePath Ratio → List (Row × List ℤ) → Result (List (List ℤ × Row))
  lookup_phase maintain args cases = from_hbm (expected_lookup_allocate cases)
  lookup_phase lookup args cases = validate_lookup args cases
  lookup_phase both args cases = validate_lookup args cases

  abbrev pub maintain_phase :
      Target → Args FilePath Ratio → List (List ℤ × Row) → Result (Option MaintainReport)
  maintain_phase lookup args lookup_state = ok none
  maintain_phase maintain args lookup_state =
      validate_maintain args lookup_state >>= λ report. ok (some report)
  maintain_phase both args lookup_state =
      validate_maintain args lookup_state >>= λ report. ok (some report)

  unfoldable pub main : Args FilePath Ratio → Result (Option MaintainReport)
  unfolding validate_lookup validate_maintain
  main args = do
    cases ← index_cases s args.req_num args.pattern_
    lookup_state ← lookup_phase args.target args cases
    maintain_phase args.target args lookup_state

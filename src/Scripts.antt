-- ===== src/Scripts.antt =====
-- pta-ops/asu_hbm_index_lookup_simt/scripts/lookup_simt_common.py: the state on the device, the call of
-- the operator and the comparison of what it leaves with the reference. The device is a parameter.
pub mod Library
pub mod Positions
pub mod Compare
pub mod Device
pub mod Validate
pub mod Bench
pub mod Profile
mod Tests
use Prim.Native.String.{String}
use asu_ascend.Common.{
  ℕ, ◌+◌, ◌*◌, ◌%◌, ◌^◌, Bool, true, false, not, ◌&&◌, Option, none, some, List, [], ◌∷◌, map,
  if◌then◌else◌, length,
}
use asu_ascend.Common.Int.{ℤ, list_eq}
use asu_ascend.Common.Results.{Fallible, ok, err, ◌>>=◌, ◌>>◌, raise_if}
use asu_ascend.Lookup
use asu_ascend.Lookup.{LookupState, Outcome, returns, raises, lookup_allocate_evict}
use asu_ascend.Workload
use asu_ascend.Workload.{Sizes, RandomLookupCase}

-- The five arrays that are compared.
pub data ResultArray : Type 0 where
  token_to_slot slot_to_token lru_slots slot_ids miss_mask : ResultArray

-- What the scripts raise: the checks of the arguments, the search for the library, the device, an
-- array that is not the expected one, and what the workload and the reference raise.
pub data Error : Type 0 where
  device_negative rounds_not_positive warmup_negative batch_rounds_negative case_id_negative : Error
  req_num_not_positive profile_iterations_not_positive no_library no_such_library : Error
  os_error no_symbol no_stream outputs_lost out_of_rounds : Error
  output_dir_not_a_directory output_dir_not_empty no_parsed_output no_expected_files : Error
  profile_count : ℕ → Error
  mismatch : ResultArray → Error
  workload_error : Workload.Error → Error
  lookup_error : Lookup.Error → Error

abbrev pub Result {ℓ} : Type ℓ → Type ℓ
Result A = Fallible Error A

abbrev pub from_workload {ℓ} : {A : Type ℓ} → Workload.Result A → Result A
from_workload (ok a) = ok a
from_workload (err e) = err (workload_error e)

-- The rows of one request in the tensors of NpuLookupState.
pub record NpuRow : Type 0 where
  pub state : LookupState
  pub query_token_ids : List ℤ
  pub slot_ids : List ℤ
  pub miss_mask : List Bool

pub record NpuLookupState : Type 0 where
  pub rows : List NpuRow
  pub workspace : List ℤ

-- The runtime: what `torch.empty` holds, the pointer of the current stream, and the operator, which
-- writes to the tensors it is given.
pub record Runtime (Function : Type 0) : Type 0 where
  pub empty_int : ℕ → List ℤ
  pub empty_bool : ℕ → List Bool
  pub npu_stream : Option ℕ
  pub launch : Function → ℕ → NpuLookupState → NpuLookupState

-- SIMT_THREADS and WORKSPACE_STRIDE
abbrev pub simt_threads : ℕ
simt_threads = 256

abbrev pub workspace_stride : Sizes → ℕ
workspace_stride s = 3 * s.slot_count + 3 * simt_threads + 4

-- The bytes of a state: four for each int32, two for each int16, one for each Boolean.
unfoldable pub estimate_state_bytes : Sizes → ℕ → ℕ
estimate_state_bytes s req_num =
    req_num
    * ((s.index_size + s.slot_count + 2 * s.query_count + workspace_stride s) * 4
        + s.slot_count * 2
        + s.query_count)

-- The reference on each request, as `expected_result` runs it on copies.
unfoldable pub expected_result :
    List (LookupState × List ℤ) → Result (List (LookupState × List ℤ × List Bool))
expected_result [] = ok []
expected_result ((state, query) ∷ rows) = elim (lookup_allocate_evict query state) [
  | raises e state' ↦ err (lookup_error e)
  | returns answer state' ↦
      expected_result rows >>= λ rest. ok ((state', answer.0, answer.1) ∷ rest)
]

module _ {Function : Type 0} (s : Sizes) (runtime : Runtime Function) where
  open runtime use {empty_int, empty_bool, npu_stream, launch}

  abbrev pub to_npu_row : LookupState × List ℤ → NpuRow
  to_npu_row (state, query) = record {
    state = state;
    query_token_ids = query;
    slot_ids = empty_int (length query);
    miss_mask = empty_bool (length query);
  }

  unfoldable pub to_npu_state : RandomLookupCase → NpuLookupState
  to_npu_state case = record {
    rows = map to_npu_row case.rows;
    workspace = empty_int (length case.rows * workspace_stride s);
  }

  -- The operator returns the tensors slot_ids and miss_mask of the state itself.
  unfoldable pub call_lookup : Function → NpuLookupState → ℕ → Result NpuLookupState
  call_lookup function state req_num = elim npu_stream [
    | none ↦ err no_stream
    | some stream_ptr ↦ ok (launch function (req_num % 2 ^ 32) state)
  ]

-- `assert_array_equal`, on arrays of one row for each request.
abbrev pub same_arrays : List (List ℤ) → List (List ℤ) → Bool
same_arrays [] [] = true
same_arrays (xs ∷ rows) (ys ∷ rows') = list_eq xs ys && same_arrays rows rows'
same_arrays _ _ = false

abbrev pub same_flags : List Bool → List Bool → Bool
same_flags [] [] = true
same_flags (true ∷ xs) (true ∷ ys) = same_flags xs ys
same_flags (false ∷ xs) (false ∷ ys) = same_flags xs ys
same_flags _ _ = false

abbrev pub same_masks : List (List Bool) → List (List Bool) → Bool
same_masks [] [] = true
same_masks (xs ∷ rows) (ys ∷ rows') = same_flags xs ys && same_masks rows rows'
same_masks _ _ = false

abbrev pub assert_that : Bool → ResultArray → Result (Unit {0})
assert_that same array = raise_if (not same) (mismatch array)

unfoldable pub assert_runtime_result :
    NpuLookupState → List (LookupState × List ℤ × List Bool) → Result (Unit {0})
assert_runtime_result state expected = do
  assert_that
      (same_arrays (map (λ r. r.state.token_to_slot) state.rows)
        (map (λ e. e.0.token_to_slot) expected))
      token_to_slot
  assert_that
      (same_arrays (map (λ r. r.state.slot_to_token) state.rows)
        (map (λ e. e.0.slot_to_token) expected))
      slot_to_token
  assert_that
      (same_arrays (map (λ r. r.state.lru_slots) state.rows) (map (λ e. e.0.lru_slots) expected))
      lru_slots
  assert_that (same_arrays (map (λ r. r.slot_ids) state.rows) (map (λ e. e.1) expected)) slot_ids
  assert_that (same_masks (map (λ r. r.miss_mask) state.rows) (map (λ e. e.2) expected)) miss_mask

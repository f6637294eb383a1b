-- ===== src/HbmOps/Bench.antt =====
-- bench_hbm_index_ops.py: the repeated calls of the two operators, with the tensors that they start from.
-- What is kept of a timed call is the states that it starts from and leaves. Of the clocks only that they
-- may measure no time is kept, since the printed rates are then divided by zero.
pub mod Starts
use Prim.Native.String.{String}
use asu_ascend.Common.{
  ℕ, zero, suc, ◌+◌, Bool, true, false, not, ◌&&◌, ◌||◌, ◌==◌, Option, none, some, List, [], ◌∷◌,
  ◌++◌, if◌then◌else◌,
}
use asu_ascend.Common.Int.{ℤ, pos, negsuc, ltb_ℤ, pos_part, ◌+ℤ◌, ◌*ℤ◌, ◌==ℤ◌}
use asu_ascend.Common.Results.{ok, err, ◌>>=◌, ◌>>◌, raise_if}
use asu_ascend.Hbm.{chain_below_one, Row, expected_lookup_allocate}
use asu_ascend.Hbm.Cases.{
  Sizes, Ratios, make_index_case, make_maintain_case, make_chained_maintain_case,
}
use asu_ascend.Hbm.Cases.Runs.{looked_up}
use asu_ascend.HbmOps.{
  Host, Result, MaintainRunner, not_a_number, zero_division, hbm_error, no_maintain_op, split,
  find_lookup_library, load_function, resolve_maintain_callable,
}
use asu_ascend.HbmOps.Validate.{
  Target, lookup, maintain, both, Device, LookupRow, lookup_tensors, call_lookup, index_cases,
  maintain_cases, call_maintain, head_sum, from_hbm,
}

pub record Args (FilePath Ratio : Type 0) : Type 0 where
  pub target : Target
  pub req_num : String
  pub block_dim : String
  pub iters : ℤ
  pub warmup : ℤ
  pub chain_iters : ℤ
  pub seed : ℤ
  pub pattern_ : String
  pub build_dir : FilePath
  pub lookup_lib : Option String
  pub maintain_build_dir : FilePath
  pub maintain_lib : Option String
  pub evict_ratio : Option Ratio
  pub maintain_call : Option String
  pub maintain_op : Option String
  pub op_plugin_lib : Option String
  pub reset_each_iter : Bool

-- The options that `parse_args` gives when the command line is empty.
abbrev pub default_args : {FilePath Ratio : Type 0} → FilePath → FilePath → Args FilePath Ratio
default_args build_dir maintain_build_dir = record {
  target = lookup;
  req_num = "1,2,4,8";
  block_dim = "1,2,4,8";
  iters = pos 50;
  warmup = pos 10;
  chain_iters = pos 1;
  seed = pos 2026;
  pattern_ = "hit";
  build_dir = build_dir;
  lookup_lib = none;
  maintain_build_dir = maintain_build_dir;
  maintain_lib = none;
  evict_ratio = none;
  maintain_call = none;
  maintain_op = none;
  op_plugin_lib = none;
  reset_each_iter = false;
}

-- `[int(item) for item in items if item]`, where `int_of` is Python's `int`.
unfoldable pub ints_of : (String → Option ℤ) → List String → Result (List ℤ)
ints_of int_of [] = ok []
ints_of int_of (String.[] ∷ items) = ints_of int_of items
ints_of int_of (String.◌∷◌ c text ∷ items) = elim (int_of (String.◌∷◌ c text)) [
  | none ↦ err not_a_number
  | some n ↦ ints_of int_of items >>= λ rest. ok (n ∷ rest)
]

unfoldable pub parse_csv_ints : (String → Option ℤ) → String → Result (List ℤ)
unfolding ints_of split
parse_csv_ints int_of text = ints_of int_of (split b',' text)

module _ {S : Type 0} (restore_once : Option (S → S)) (run_once : S → Result S) where
  abbrev pub restored : S → S
  restored state = elim restore_once [ none ↦ state | some restore ↦ restore state ]

  -- The loop of the warmup.
  unfoldable pub warm_up : ℕ → S → Result S
  warm_up zero state = ok state
  warm_up (suc n) state = run_once (restored state) >>= λ state'. warm_up n state'

  -- The timed loop, of either branch: the states that each run starts from and leaves.
  unfoldable pub timed_runs : ℕ → S → Result (List (S × S))
  timed_runs zero state = ok []
  timed_runs (suc n) state = do
    state' ← run_once (restored state)
    runs ← timed_runs n state'
    ok ((restored state, state') ∷ runs)

  unfoldable pub time_npu_iterations : ℤ → ℤ → S → Result (List (S × S))
  unfolding warm_up timed_runs
  time_npu_iterations warmup iters state =
      warm_up (pos_part warmup) state >>= λ state'. timed_runs (pos_part iters) state'

-- The rows among the tensors of a refill.
abbrev pub heads : List (Row × List ℤ) → List Row
heads [] = []
heads ((r, last) ∷ input) = r ∷ heads input

-- `restore_tensors` of the lookup: all tensors but `slot_out` get the values of the snapshot.
abbrev pub restore_lookup : List LookupRow → List LookupRow → List LookupRow
restore_lookup [] tensors = []
restore_lookup (snap ∷ snapshot) [] = snap ∷ restore_lookup snapshot []
restore_lookup (snap ∷ snapshot) (t ∷ tensors) =
    record snap { slots = t.slots } ∷ restore_lookup snapshot tensors

module _ {Function : Type 0} (device : Device Function) (floats : Ratios) (s : Sizes) where
  open floats use {Ratio}

  abbrev pub run_lookup : Function → ℤ → ℤ → List LookupRow → Result (List LookupRow)
  run_lookup function block_dim req_num tensors =
      call_lookup device function tensors block_dim req_num

  -- Whether `total_ms` is 0.0: with a reset it is a sum over the runs.
  abbrev pub total_is_zero : Bool → ℤ → Bool
  total_is_zero reset iters =
      reset && pos_part iters == 0 || device.elapsed_is_zero (pos_part iters)

  abbrev pub lookup_reset : Bool → List LookupRow → Option (List LookupRow → List LookupRow)
  lookup_reset true snapshot = some (restore_lookup snapshot)
  lookup_reset false snapshot = none

  unfoldable pub bench_lookup :
      {FilePath : Type 0}
      → Function
      → Args FilePath Ratio
      → ℤ
      → ℤ
      → Result (List (List LookupRow × List LookupRow))
  unfolding time_npu_iterations call_lookup
  bench_lookup function args req_num block_dim = do
    cases ← index_cases s req_num args.pattern_
    let tensors = lookup_tensors device cases
    runs ←
        time_npu_iterations (lookup_reset args.reset_each_iter tensors)
          (run_lookup function block_dim req_num) args.warmup args.iters tensors
    raise_if (total_is_zero args.reset_each_iter args.iters || args.iters ==ℤ pos 0) zero_division
    ok runs

  -- The tensors of a refill, and how many slots it has to find.
  unfoldable pub make_maintain_benchmark_tensors :
      Option Ratio → ℤ → Result (List (Row × List ℤ) × ℕ)
  make_maintain_benchmark_tensors none req_num = do
    cases ← index_cases s req_num "mixed"
    outs ← from_hbm (expected_lookup_allocate cases)
    let input = looked_up outs
    ok (input, head_sum (heads input))
  make_maintain_benchmark_tensors (some evict_ratio) req_num = do
    input ← maintain_cases floats s req_num evict_ratio
    ok (input, head_sum (heads input))

  -- A refill with the seed of its iteration.
  abbrev pub run_maintain :
      MaintainRunner Function
      → ℤ
      → ℤ
      → ℤ
      → List (Row × List ℤ) × ℕ
      → Result (List (Row × List ℤ) × ℕ)
  run_maintain runner block_dim req_num seed (tensors, iteration) =
      call_maintain device runner tensors block_dim req_num (seed +ℤ pos iteration) >>= λ left.
      ok (left, iteration + 1)

  -- `restore_tensors` of the refill: every tensor gets the value of the snapshot.
  abbrev pub restore_maintain :
      List (Row × List ℤ) → List (Row × List ℤ) × ℕ → List (Row × List ℤ) × ℕ
  restore_maintain snapshot (tensors, iteration) = (snapshot, iteration)

  unfoldable pub bench_maintain :
      {FilePath : Type 0}
      → MaintainRunner Function
      → Args FilePath Ratio
      → ℤ
      → ℤ
      → Result (List ((List (Row × List ℤ) × ℕ) × (List (Row × List ℤ) × ℕ)))
  unfolding make_maintain_benchmark_tensors time_npu_iterations call_maintain
  bench_maintain runner args req_num block_dim = do
    (tensors, slots) ← make_maintain_benchmark_tensors args.evict_ratio req_num
    runs ←
        time_npu_iterations (some (restore_maintain tensors))
          (run_maintain runner block_dim req_num args.seed) args.warmup args.iters (tensors, 0)
    raise_if (not (slots == 0) && total_is_zero true args.iters || args.iters ==ℤ pos 0)
        zero_division
    ok runs

  -- The case of one large batch; a negative number of requests makes a negative size.
  abbrev chained_cases : ℤ → ℤ → Ratio → Result (List (Row × List ℤ))
  chained_cases (pos n) chain_iters ratio =
      from_hbm (make_chained_maintain_case floats s n chain_iters ratio)
  chained_cases (negsuc n) chain_iters ratio =
      if ltb_ℤ chain_iters (pos 1)
      then err (hbm_error chain_below_one)
      else maintain_cases floats s (negsuc n *ℤ chain_iters) ratio

  -- The tensors of one large batch.
  unfoldable pub make_chained_tensors : Option Ratio → ℤ → ℤ → Result (List (Row × List ℤ) × ℕ)
  unfolding make_maintain_benchmark_tensors
  make_chained_tensors none req_num chain_iters =
      make_maintain_benchmark_tensors none (req_num *ℤ chain_iters)
  make_chained_tensors (some evict_ratio) req_num chain_iters = do
    input ← chained_cases req_num chain_iters evict_ratio
    ok (input, head_sum (heads input))

  -- The warmups of `bench_maintain_chained`, for `n` of them from one on.
  unfoldable pub warm_chained :
      {FilePath : Type 0}
      → MaintainRunner Function
      → Args FilePath Ratio
      → ℤ
      → ℤ
      → ℕ
      → ℕ
      → Result (Unit {0})
  unfolding make_chained_tensors call_maintain
  warm_chained runner args req_num block_dim warmup_id zero = ok tt
  warm_chained runner args req_num block_dim warmup_id (suc n) = do
    (tensors, slots) ← make_chained_tensors args.evict_ratio req_num args.chain_iters
    left ←
        call_maintain device runner tensors block_dim (req_num *ℤ args.chain_iters)
          (args.seed +ℤ pos warmup_id)
    warm_chained runner args req_num block_dim (suc warmup_id) n

  -- The timed batch, as the call leaves it, and the number of slots that it had to find.
  unfoldable pub bench_maintain_chained :
      {FilePath : Type 0}
      → MaintainRunner Function
      → Args FilePath Ratio
      → ℤ
      → ℤ
      → Result (List (Row × List ℤ) × ℕ)
  unfolding warm_chained
  bench_maintain_chained runner args req_num block_dim = do
    warm_chained runner args req_num block_dim 0 (pos_part args.warmup)
    (tensors, slots) ← make_chained_tensors args.evict_ratio req_num args.chain_iters
    left ← call_maintain device runner tensors block_dim (req_num *ℤ args.chain_iters) args.seed
    raise_if (not (slots == 0) && device.elapsed_is_zero 1 || args.chain_iters ==ℤ pos 0)
        zero_division
    ok (left, slots)

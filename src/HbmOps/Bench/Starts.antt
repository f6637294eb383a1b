-- ===== src/HbmOps/Bench/Starts.antt =====
-- What every timed run starts from: the snapshot, and for a refill a seed of its own.
use asu_ascend.Common.{
  ℕ, zero, suc, ◌+◌, ◌≡◌, refl, ap, ◌∙◌, true, false, none, some, List, [], ◌∷◌, map, All, length,
  range_from, arith,
}
use asu_ascend.Common.Int.{ℤ, pos, pos_part, ◌+ℤ◌, c_uint32}
use asu_ascend.Common.Results.{ok}
use asu_ascend.Hbm.{Row, expected_lookup_allocate}
use asu_ascend.Hbm.Cases.{Sizes, AreSizes, Ratios, make_index_case}
use asu_ascend.Hbm.Cases.Queries.{is_pattern}
use asu_ascend.Hbm.Cases.Runs.{looked_up, make_index_case-AllCycled}
use asu_ascend.HbmOps.{MaintainRunner}
use asu_ascend.HbmOps.Validate.{Device, LookupRow, lookup_tensors, call_lookup, call_maintain}
use asu_ascend.HbmOps.Bench.{
  Args, warm_up, timed_runs, time_npu_iterations, restore_lookup, run_lookup, lookup_reset,
  bench_lookup, make_maintain_benchmark_tensors, run_maintain, restore_maintain, bench_maintain,
}

abbrev pub inputs : List LookupRow → List (Row × List ℤ)
inputs tensors = map (λ t. (t.row, t.query_index)) tensors

inputs-restore_lookup :
    (snapshot tensors : List LookupRow) → inputs (restore_lookup snapshot tensors) ≡ inputs snapshot
inputs-restore_lookup [] tensors = refl
inputs-restore_lookup (snap ∷ snapshot) [] =
    ap (◌∷◌ (snap.row, snap.query_index)) (inputs-restore_lookup snapshot [])
inputs-restore_lookup (snap ∷ snapshot) (t ∷ tensors) =
    ap (◌∷◌ (snap.row, snap.query_index)) (inputs-restore_lookup snapshot tensors)

module _ {Function : Type 0} (device : Device Function) (floats : Ratios) (s : Sizes) where
  inputs-lookup_tensors :
      (cases : List (Row × List ℤ)) → inputs (lookup_tensors device cases) ≡ cases
  inputs-lookup_tensors [] = refl
  inputs-lookup_tensors ((r, query) ∷ cases) = ap (◌∷◌ (r, query)) (inputs-lookup_tensors cases)

  module _ (function : Function) (block_dim req_num : ℤ) (stream_ptr : ℕ)
      (has_stream : device.npu_stream ≡ some stream_ptr) (snapshot : List LookupRow)
      (cases : List (Row × List ℤ)) (same : inputs snapshot ≡ cases) where
    -- What the operator leaves of tensors.
    abbrev launched : List LookupRow → List LookupRow
    launched tensors = device.launch_lookup function (c_uint32 block_dim) (c_uint32 req_num) tensors

    run_lookup-launched :
        (tensors : List LookupRow)
        → run_lookup device floats s function block_dim req_num tensors ≡ ok (launched tensors)
    unfolding call_lookup
    run_lookup-launched tensors = ground (arith, has_stream)

    warm_up-returns :
        (n : ℕ) (tensors : List LookupRow)
        → (last : List LookupRow) × (warm_up
              (lookup_reset device floats s true snapshot)
              (run_lookup device floats s function block_dim req_num)
              n
              tensors
            ≡ ok last)
    unfolding warm_up
    warm_up-returns zero tensors = (tensors, refl)
    warm_up-returns (suc n) tensors =
        let start = restore_lookup snapshot tensors in
        let (last, run) = warm_up-returns n (launched start) in
        (last, ground (arith, run_lookup-launched start, run))

    timed_runs-starts :
        (n : ℕ) (tensors : List LookupRow)
        → (runs : List (List LookupRow × List LookupRow)) × (timed_runs
              (lookup_reset device floats s true snapshot)
              (run_lookup device floats s function block_dim req_num)
              n
              tensors
            ≡ ok runs)
          × (length runs ≡ n)
          × All (λ run. (inputs run.0 ≡ cases) × (run.1 ≡ launched run.0)) runs
    unfolding timed_runs
    timed_runs-starts zero tensors = ([], refl, refl, tt)
    timed_runs-starts (suc n) tensors =
        let start = restore_lookup snapshot tensors in
        let (runs, run, many, all) = timed_runs-starts n (launched start) in
        (
          (start, launched start) ∷ runs,
          ground (arith, run_lookup-launched start, run),
          ap suc many,
          ((inputs-restore_lookup snapshot tensors ∙ same, refl), all),
        )

  -- Conditions: the sizes fit together, the pattern is known, there is a stream, at least one iteration is
  -- asked for, the clock measures some time for them, and the state is reset before every iteration. The
  -- benchmark runs through, with as many timed runs as iterations were asked for; each of them starts from
  -- the rows and queries of the case, whatever the operator, in its warmups and earlier runs, has written
  -- to the tensors, and leaves what the operator makes of that start.
  pub bench_lookup_resets :
      {FilePath : Type 0} (function : Function) (args : Args FilePath floats.Ratio)
      (req_num iters stream_ptr : ℕ) (block_dim : ℤ)
      → AreSizes s
      → is_pattern args.pattern_ ≡ true
      → device.npu_stream ≡ some stream_ptr
      → args.reset_each_iter ≡ true
      → args.iters ≡ pos (suc iters)
      → device.elapsed_is_zero (suc iters) ≡ false
      → (cases : List (Row × List ℤ)) × (runs : List (List LookupRow × List LookupRow))
        × (make_index_case s req_num args.pattern_ ≡ ok cases)
        × (bench_lookup device floats s function args (pos req_num) block_dim ≡ ok runs)
        × (length runs ≡ suc iters)
        × All
            (λ run.
              (inputs run.0 ≡ cases)
              × (run.1
                  ≡ device.launch_lookup function
                      (c_uint32 block_dim)
                      (c_uint32 (pos req_num))
                      run.0))
            runs
  unfolding bench_lookup time_npu_iterations
  bench_lookup_resets function args req_num iters stream_ptr block_dim sizes known has_stream resets
        many_iters some_time =
      let (cases, _, _, made, _, _, _, _) =
        make_index_case-AllCycled s sizes 0 args.pattern_ req_num known in
      let snapshot = lookup_tensors device cases in
      let same = inputs-lookup_tensors cases in
      let (warm, warmed) =
        warm_up-returns function block_dim (pos req_num) stream_ptr has_stream snapshot cases same
          (pos_part args.warmup) snapshot in
      let (runs, run, many, all) =
        timed_runs-starts function block_dim (pos req_num) stream_ptr has_stream snapshot cases same
          (suc iters) warm in
      (
        cases,
        runs,
        made,
        ground (arith, made, resets, warmed, many_iters, some_time, run),
        many,
        all,
      )

  module _ (runner : MaintainRunner Function) (block_dim req_num seed : ℤ)
      (snapshot : List (Row × List ℤ)) (left : ℤ → List (Row × List ℤ) → List (Row × List ℤ))
      (returns : (seed : ℤ) (input : List (Row × List ℤ))
        → call_maintain device runner input block_dim req_num seed ≡ ok (left seed input)) where
    -- The run with the seed of iteration `i`.
    abbrev seeded_run : ℕ → (List (Row × List ℤ) × ℕ) × (List (Row × List ℤ) × ℕ)
    seeded_run i = ((snapshot, i), (left (seed +ℤ pos i) snapshot, i + 1))

    warm_up-seeds :
        (n k : ℕ) (tensors : List (Row × List ℤ))
        → (last : List (Row × List ℤ)) × (warm_up
              (some (restore_maintain device floats s snapshot))
              (run_maintain device floats s runner block_dim req_num seed)
              n
              (tensors, k)
            ≡ ok (last, k + n))
    unfolding warm_up
    warm_up-seeds zero k tensors = (tensors, ground arith)
    warm_up-seeds (suc n) k tensors =
        let (last, run) = warm_up-seeds n (k + 1) (left (seed +ℤ pos k) snapshot) in
        (last, ground (arith, returns (seed +ℤ pos k) snapshot, run))

    timed_runs-seeds :
        (n k : ℕ) (tensors : List (Row × List ℤ))
        → timed_runs
            (some (restore_maintain device floats s snapshot))
            (run_maintain device floats s runner block_dim req_num seed)
            n
            (tensors, k)
          ≡ ok (map seeded_run (range_from k n))
    unfolding timed_runs
    timed_runs-seeds zero k tensors = refl
    timed_runs-seeds (suc n) k tensors =
        let next : k + 1 ≡ suc k = omega arith in
        let rest = timed_runs-seeds n (suc k) (left (seed +ℤ pos k) snapshot) in
        ground (arith, returns (seed +ℤ pos k) snapshot, next, rest)

  -- Conditions: the sizes fit together, no ratio is given, at least one iteration is asked for, the clock
  -- measures some time for them, and every call of the operator returns and leaves what `left` gives for
  -- its seed and tensors. The benchmark of the refill runs through, with as many timed runs as iterations
  -- were asked for. Each starts from the tensors that the lookup leaves of a mixed case, and leaves what
  -- the operator makes of them with the seed of that run: the seed that was given plus the number of
  -- runs, those of the warmup included, that went before.
  pub bench_maintain_seeds :
      {FilePath : Type 0} (runner : MaintainRunner Function) (args : Args FilePath floats.Ratio)
      (req_num iters : ℕ) (block_dim : ℤ) (left : ℤ → List (Row × List ℤ) → List (Row × List ℤ))
      → AreSizes s
      → args.evict_ratio ≡ none
      → args.iters ≡ pos (suc iters)
      → device.elapsed_is_zero (suc iters) ≡ false
      → ((seed : ℤ) (input : List (Row × List ℤ))
          → call_maintain device runner input block_dim (pos req_num) seed ≡ ok (left seed input))
      → (cases : List (Row × List ℤ)) × (outs : List (List ℤ × Row)) × (make_index_case s req_num
            "mixed"
          ≡ ok cases)
        × (expected_lookup_allocate cases ≡ ok outs)
        × (bench_maintain device floats s runner args (pos req_num) block_dim
            ≡ ok (
                map
                  (λ i. ((looked_up outs, i), (left (args.seed +ℤ pos i) (looked_up outs), i + 1)))
                  (range_from (pos_part args.warmup) (suc iters))))
  unfolding bench_maintain make_maintain_benchmark_tensors time_npu_iterations
  bench_maintain_seeds runner args req_num iters block_dim left sizes no_ratio many_iters some_time
        returns =
      let (cases, outs, _, made, looked, _, _, _) =
        make_index_case-AllCycled s sizes 0 "mixed" req_num refl in
      let snapshot = looked_up outs in
      let w : ℕ = pos_part args.warmup in
      let (warm, warmed) =
        warm_up-seeds runner block_dim (pos req_num) args.seed snapshot left returns w 0 snapshot in
      let run =
        timed_runs-seeds runner block_dim (pos req_num) args.seed snapshot left returns (suc iters)
          w warm in
      let counted : 0 + w ≡ w = omega arith in
      (
        cases,
        outs,
        made,
        looked,
        ground (arith, made, looked, no_ratio, warmed, counted, many_iters, some_time, run),
      )

-- ===== src/Scripts/Profile/Captures.antt =====
-- When the directory of the results is accepted, and which calls are captured.
use asu_ascend.Common.{ℕ, suc, ◌+◌, ◌%◌, ◌^◌, ◌≤◌, ◌≡◌, some, map, range_from, arith}
use asu_ascend.Common.Int.{pos}
use asu_ascend.Common.Random.{Random}
use asu_ascend.Common.Results.{ok}
use asu_ascend.Workload.{Sizes, AreSizes}
use asu_ascend.Scripts.{Runtime}
use asu_ascend.Scripts.Bench.{run_states}
use asu_ascend.Scripts.Bench.Batches.{
  take-map-range_from, preload_states-made, call_each-launched, run_states-launched,
  length-map-range_from,
}
use asu_ascend.Scripts.Bench.Launches.{case_state, fresh_state-case_state}
use asu_ascend.Scripts.Library.{Files}
use asu_ascend.Scripts.Profile.{Args, Disk, preload_split, profile_states}

module _ (files : Files) (disk : Disk files.FilePath) where
  open files use {FilePath, resolve, join}
  open disk use {Store, exists, is_dir, children, make_dirs, profiled}

  -- Conditions: the sizes leave room for hits and misses, there is a stream, the number of requests and
  -- of iterations is positive, the hit count is at most QUERY_COUNT, and the warmup is not negative. The
  -- states are made and split, the warmup runs, and the captured calls are as many as iterations were
  -- asked for: they launch the cases behind those of the warmup, in order, each on a state of its own.
  pub profile_states_captures :
      (s : Sizes) (random : Random) (runtime : Runtime files.Function) (args : Args FilePath)
      (n hits warmup iterations : ℕ) (function : files.Function) (stream_ptr : ℕ)
      (sizes : AreSizes s) (fits : hits ≤ s.query_count) (raw_root : FilePath) (store : Store)
      → runtime.npu_stream ≡ some stream_ptr
      → args.req_num ≡ pos (suc n)
      → args.hit_count ≡ pos hits
      → args.warmup ≡ pos warmup
      → args.profile_iterations ≡ pos (suc iterations)
      → let made = case_state s random runtime sizes n hits fits args.seed in
        let launched = λ (i : ℕ). runtime.launch function (suc n % 2 ^ 32) (made i) in
        let outputs = map launched (range_from (1 + warmup) (suc iterations)) in
        (preload_split files disk s random runtime function args
          ≡ ok
              (map made (range_from 1 warmup), map made (range_from (1 + warmup) (suc iterations))))
        × (run_states s random runtime function args.req_num args.hit_count args.seed
              (map made (range_from 1 warmup))
            ≡ ok (map launched (range_from 1 warmup)))
        × (profile_states files disk s random runtime function
              (map made (range_from (1 + warmup) (suc iterations)))
              args
              raw_root
              store
            ≡ ok (outputs, profiled raw_root outputs store))
  unfolding preload_split profile_states
  profile_states_captures s random runtime args n hits warmup iterations function stream_ptr sizes
        fits raw_root store has_stream requests asked warmups captures =
      let made = case_state s random runtime sizes n hits fits args.seed in
      let makes = fresh_state-case_state s random runtime sizes n hits fits args.seed function in
      let launched = λ (i : ℕ). runtime.launch function (suc n % 2 ^ 32) (made i) in
      let (taken, dropped) = take-map-range_from made 1 warmup (suc iterations) in
      let preloaded =
        preload_states-made s random runtime function (suc n) (pos hits) args.seed made makes
          stream_ptr has_stream (warmup + suc iterations) 1 in
      let warmed =
        run_states-launched s random runtime function (suc n) (pos hits) args.seed made makes
          stream_ptr has_stream warmup 1 in
      let called =
        call_each-launched s random runtime function (suc n) (pos hits) args.seed made makes
          stream_ptr has_stream (suc iterations) (1 + warmup) in
      (
        ground (arith, requests, asked, warmups, captures, preloaded, taken, dropped),
        ground (arith, requests, asked, warmed),
        ground (
          arith,
          requests,
          asked,
          captures,
          called,
          length-map-range_from s random runtime function (suc n) (pos hits) args.seed made makes
              stream_ptr has_stream launched (1 + warmup) (suc iterations),
        ),
      )

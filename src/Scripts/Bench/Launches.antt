-- ===== src/Scripts/Bench/Launches.antt =====
-- The whole of `main`: which cases it launches.
use asu_ascend.Common.{ℕ, suc, ◌+◌, ◌%◌, ◌^◌, ◌<◌, ◌≤◌, ◌≡◌, some, map, range_from, arith}
use asu_ascend.Common.Int.{ℤ, pos}
use asu_ascend.Common.Random.{Random}
use asu_ascend.Common.Results.{ok}
use asu_ascend.Workload.{Sizes, AreSizes, validate_hit_count}
use asu_ascend.Workload.Cases.{make_random_case-AreCaseRows}
use asu_ascend.Scripts.{NpuLookupState, Runtime, to_npu_state}
use asu_ascend.Scripts.Device.{Agrees, verify_state_passes}
use asu_ascend.Scripts.Library.{Files, LoadedKernel, load_kernel}
use asu_ascend.Scripts.Bench.{Args, Progress, fresh_state, batch_of, validate_args, main}
use asu_ascend.Scripts.Bench.Batches.{run_batches_launches}

module _ {Function : Type 0} (s : Sizes) (random : Random) (runtime : Runtime Function)
    (sizes : AreSizes s) (n hits : ℕ) (fits : hits ≤ s.query_count) (seed : ℤ) where
  -- The state of a case on the device, as the case is made for it.
  abbrev pub case_state : ℕ → NpuLookupState
  case_state case_id =
      to_npu_state s runtime
        (make_random_case-AreCaseRows s sizes random hits seed case_id fits n).0

  pub fresh_state-case_state :
      (function : Function) (case_id : ℕ)
      → fresh_state s random runtime function (pos (suc n)) (pos hits) seed case_id
        ≡ ok (case_state case_id)
  unfolding fresh_state
  fresh_state-case_state function case_id =
      let made = (make_random_case-AreCaseRows s sizes random hits seed case_id fits n).1 in
      ground (arith, made)

module _ (files : Files) (s : Sizes) (random : Random) (runtime : Runtime files.Function)
    (args : Args files.FilePath) (n hits rounds warmup batch device_id : ℕ)
    (kernel : LoadedKernel files.FilePath files.Library files.Function) (stream_ptr : ℕ)
    (sizes : AreSizes s) (has_stream : runtime.npu_stream ≡ some stream_ptr)
    (fits : hits ≤ s.query_count) where
  args_pass :
      args.req_num ≡ pos (suc n)
      → args.hit_count ≡ pos hits
      → args.rounds ≡ pos (suc rounds)
      → args.warmup ≡ pos warmup
      → args.batch_rounds ≡ pos batch
      → args.device ≡ pos device_id
      → validate_args files s random runtime args ≡ ok hits
  unfolding validate_args validate_hit_count
  args_pass requests asked some_rounds warmups batches on_device =
      ground (arith, requests, asked, some_rounds, warmups, batches, on_device, fits)

  -- Conditions: the sizes leave room for hits and misses, the library loads, there is a stream, the
  -- operator leaves what the reference computes on fresh states of such cases, the number of requests and
  -- of rounds is positive, that of requests fits in 32 bits, the hit count is at most QUERY_COUNT, and no
  -- other argument is negative. With one round of fuel for each
  -- round asked for, the script runs through: the check of a state passes, and the loop ends with as many
  -- timed launches as rounds were asked for, whatever the size of a batch. The warmups launch the cases
  -- 1, 2, ... and the timed rounds the cases behind them, in order, each on a state of its own that no
  -- other launch has touched; case 0 is kept for the check.
  pub main_launches :
      load_kernel files args.library_path args.build_dir ≡ ok kernel
      → Agrees s runtime kernel.function
      → args.req_num ≡ pos (suc n)
      → suc n < 2 ^ 32
      → args.hit_count ≡ pos hits
      → args.rounds ≡ pos (suc rounds)
      → args.warmup ≡ pos warmup
      → args.batch_rounds ≡ pos batch
      → args.device ≡ pos device_id
      → (p : Progress) × (main files s random runtime args ≡ ok p)
        × (p.completed ≡ suc rounds)
        × (p.next_case_id ≡ 1 + warmup + suc rounds)
        × (p.warmed
            ≡ map
                (λ i.
                  runtime.launch kernel.function
                    (suc n % 2 ^ 32)
                    (case_state s random runtime sizes n hits fits args.seed i))
                (range_from 1 warmup))
        × (p.timed
            ≡ map
                (λ i.
                  runtime.launch kernel.function
                    (suc n % 2 ^ 32)
                    (case_state s random runtime sizes n hits fits args.seed i))
                (range_from (1 + warmup) (suc rounds)))
  unfolding main
  main_launches loaded agrees requests few asked some_rounds warmups batches on_device =
      let (case, verified, _, _, _) =
        verify_state_passes s random runtime sizes kernel.function stream_ptr has_stream agrees n
          hits args.seed 0 fits few in
      let (p, run, done, next, warm, time) =
        run_batches_launches s random runtime kernel.function (suc n) (pos hits) args.seed
          (case_state s random runtime sizes n hits fits args.seed)
          (fresh_state-case_state s random runtime sizes n hits fits args.seed kernel.function)
          stream_ptr has_stream warmup (suc rounds) (batch_of batch (suc rounds)) (ground arith)
          (omega arith) in
      (
        p,
        ground (
          arith,
          args_pass requests asked some_rounds warmups batches on_device,
          loaded,
          verified,
          requests,
          asked,
          some_rounds,
          warmups,
          batches,
          run,
        ),
        done,
        next,
        warm,
        time,
      )

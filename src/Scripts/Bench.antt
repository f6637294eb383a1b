-- ===== src/Scripts/Bench.antt =====
-- bench_lookup_simt.py: the arguments, the check of one state, and the loop that times batches of fresh
-- states. A launch is kept as the state that it leaves; the clocks and the rates are left out.
pub mod Batches
pub mod Launches
use asu_ascend.Common.{
  ℕ, zero, suc, ◌+◌, ◌-◌, ◌<◌, ◌≤◌, ◌≡◌, Bool, true, false, not, Option, none, some, List, [], ◌∷◌,
  ◌++◌, map, min, ltb, ◌==◌, if◌then◌else◌, length, take, drop,
}
use asu_ascend.Common.Int.{ℤ, pos, ltb_ℤ, pos_part}
use asu_ascend.Common.Random.{Random}
use asu_ascend.Common.Results.{ok, err, ◌>>=◌, ◌>>◌, raise_if}
use asu_ascend.Workload.{Sizes, RandomLookupCase, validate_hit_count, make_random_case}
use asu_ascend.Scripts.{
  NpuLookupState, Runtime, Result, from_workload, req_num_not_positive, rounds_not_positive,
  warmup_negative, batch_rounds_negative, device_negative, outputs_lost, out_of_rounds,
  to_npu_state, call_lookup,
}
use asu_ascend.Scripts.Device.{verify_state}
use asu_ascend.Scripts.Library.{Files, load_kernel}

pub record Args (FilePath : Type 0) : Type 0 where
  pub build_dir : FilePath
  pub library_path : Option FilePath
  pub device : ℤ
  pub req_num : ℤ
  pub rounds : ℤ
  pub warmup : ℤ
  pub batch_rounds : ℤ
  pub hit_count : ℤ
  pub seed : ℤ
  pub no_verify : Bool

-- The options that `parse_args` gives when the command line is empty.
abbrev pub default_args : {FilePath : Type 0} → FilePath → Args FilePath
default_args build_dir = record {
  build_dir = build_dir;
  library_path = none;
  device = pos 0;
  req_num = pos 50;
  rounds = pos 100;
  warmup = pos 10;
  batch_rounds = pos 10;
  hit_count = pos 1843;
  seed = pos 20260724;
  no_verify = false;
}

-- The variables of the loop, and what was launched so far: in warmups, and while the clock ran.
pub record Progress : Type 0 where
  pub completed : ℕ
  pub next_case_id : ℕ
  pub warmup_remaining : ℕ
  pub warmed : List NpuLookupState
  pub timed : List NpuLookupState

abbrev pub started : ℕ → Progress
started warmup = record {
  completed = 0;
  next_case_id = 1;
  warmup_remaining = warmup;
  warmed = [];
  timed = [];
}

module _ {Function : Type 0} (s : Sizes) (random : Random) (runtime : Runtime Function)
    (function : Function) (req_num hit_count seed : ℤ) where
  -- The state of one case on the device.
  unfoldable pub fresh_state : ℕ → Result NpuLookupState
  unfolding to_npu_state
  fresh_state case_id =
      from_workload (make_random_case s random req_num hit_count seed case_id) >>= λ case.
      ok (to_npu_state s runtime case)

  unfoldable pub preload_states : ℕ → ℕ → Result (List NpuLookupState)
  unfolding fresh_state
  preload_states zero first_case_id = ok []
  preload_states (suc count) first_case_id = do
    state ← fresh_state first_case_id
    states ← preload_states count (suc first_case_id)
    ok (state ∷ states)

  -- The loop of calls in `warmup_states` and in `run_states`.
  unfoldable pub call_each : List NpuLookupState → Result (List NpuLookupState)
  unfolding call_lookup
  call_each [] = ok []
  call_each (state ∷ states) = do
    output ← call_lookup s runtime function state (pos_part req_num)
    outputs ← call_each states
    ok (output ∷ outputs)

  -- `warmup_states` and `run_states`, which both check that every output was kept.
  unfoldable pub run_states : List NpuLookupState → Result (List NpuLookupState)
  unfolding call_each
  run_states states = do
    outputs ← call_each states
    raise_if (not (length outputs == length states)) outputs_lost
    ok outputs

  -- The body of the loop.
  unfoldable pub run_batch : ℕ → ℕ → Progress → Result Progress
  unfolding preload_states run_states
  run_batch rounds batch_rounds p = do
    let current_rounds = min batch_rounds (rounds - p.completed)
    let state_count = p.warmup_remaining + current_rounds
    states ← preload_states state_count p.next_case_id
    warmed ←
        if not (p.warmup_remaining == 0) then run_states (take p.warmup_remaining states) else ok []
    timed ← run_states (drop p.warmup_remaining states)
    ok (record {
      completed = p.completed + current_rounds;
      next_case_id = p.next_case_id + state_count;
      warmup_remaining = 0;
      warmed = p.warmed ++ warmed;
      timed = p.timed ++ timed;
    })

  -- `while completed < args.rounds`
  unfoldable pub run_batches : ℕ → ℕ → ℕ → Progress → Result Progress
  unfolding run_batch
  run_batches zero rounds batch_rounds p =
      if ltb p.completed rounds then err out_of_rounds else ok p
  run_batches (suc fuel) rounds batch_rounds p = elim (ltb p.completed rounds) [
    | true ↦ run_batch rounds batch_rounds p >>= λ p'. run_batches fuel rounds batch_rounds p'
    | false ↦ ok p
  ]

-- `args.batch_rounds or args.rounds`, and at most all rounds.
abbrev pub batch_of : ℕ → ℕ → ℕ
batch_of batch_rounds rounds = min (if batch_rounds == 0 then rounds else batch_rounds) rounds

module _ (files : Files) (s : Sizes) (random : Random) (runtime : Runtime files.Function) where
  open files use {FilePath}

  unfoldable pub validate_args : Args FilePath → Result ℕ
  unfolding validate_hit_count
  validate_args args = do
    raise_if (not (ltb_ℤ (pos 0) args.req_num)) req_num_not_positive
    raise_if (not (ltb_ℤ (pos 0) args.rounds)) rounds_not_positive
    raise_if (ltb_ℤ args.warmup (pos 0)) warmup_negative
    raise_if (ltb_ℤ args.batch_rounds (pos 0)) batch_rounds_negative
    raise_if (ltb_ℤ args.device (pos 0)) device_negative
    from_workload (validate_hit_count s args.hit_count)

  abbrev pub verify_first : files.Function → Args FilePath → Result (Unit {0})
  verify_first function args =
      if args.no_verify
      then ok tt
      else (verify_state s random runtime function args.req_num args.hit_count args.seed 0
          >>= λ case. ok tt)

  -- `main`, as far as it launches; one round for each of the loop's rounds is fuel enough.
  unfoldable pub main : Args FilePath → Result Progress
  unfolding validate_args load_kernel verify_state run_batches
  main args = do
    hits ← validate_args args
    kernel ← load_kernel files args.library_path args.build_dir
    verify_first kernel.function args
    let rounds = pos_part args.rounds
    run_batches s random runtime kernel.function args.req_num args.hit_count args.seed rounds rounds
        (batch_of (pos_part args.batch_rounds) rounds) (started (pos_part args.warmup))

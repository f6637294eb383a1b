-- ===== src/Simulation/Returns.antt =====
-- When `run_simulation` returns: a configuration that passes the checks raises nothing of its own.
use asu_ascend.Common.{
  ℕ, zero, suc, ◌*◌, ltb, if◌then◌else◌, ◌≡◌, refl, Option, none, some, List, [], false, arith,
}
use asu_ascend.Common.Int.{ℤ, pos, negsuc}
use asu_ascend.Cache
use asu_ascend.Cache.{TokenKey, LruManagedCache, QueryStats, add, no_stats}
use asu_ascend.Simulation.{
  Floats, SimulationConfig, SimulationResult, Workload, ok, StepStats, total_slots,
  free_slot_target, validate_config, from_cache, rounds, no_total, run_requests, run_step,
  run_steps, run_simulation, is_not_positive, is_negative, min_ℤ, topk_per_req,
}

module _ {Float : Type 0} (work : Workload Float) where
  open work use {State, query}

  -- The generator always answers.
  abbrev pub Answers : Type 0
  Answers =
      (req step : ℕ) (w : State)
      → (tokens : List TokenKey) × (w' : State) × (query req step w ≡ some (tokens, w'))

  module _ (answers : Answers) where
    run_requests-ok :
        (n req step : ℕ) (c : LruManagedCache) (w : State) (s : QueryStats)
        → (out : LruManagedCache × State × QueryStats) × (run_requests work n req step c w s
            ≡ ok out)
    unfolding run_requests
    run_requests-ok zero req step c w s = ((c, w, s), refl)
    run_requests-ok (suc n) req step c w s =
        let (tokens, w', e) = answers req step w in rw e (run_requests-ok n (suc req) step _ w' _)

    run_step-ok :
        (req_num step : ℕ) (c : LruManagedCache) (w : State)
        → (out : LruManagedCache × State × StepStats) × (run_step work req_num step c w ≡ ok out)
    unfolding run_step
    run_step-ok req_num step c w =
        let (out, e) = run_requests-ok req_num 0 step (Cache.prepare_free_slots c).0 w no_stats in
        (
          (
            out.0,
            out.1,
            record {
              stats = out.2;
              step = pos step;
              cpu_evictions = (Cache.prepare_free_slots c).1;
              resident_count = Cache.resident_count (out.0);
              free_slots = Cache.free_count (out.0);
            },
          ),
          rw e,
        )

    run_steps-ok :
        (req_num n step : ℕ) (c : LruManagedCache) (w : State) (steps : List StepStats)
        (total : StepStats)
        → (out : LruManagedCache × List StepStats × StepStats) × (run_steps work req_num n step c w
              steps total
            ≡ ok out)
    unfolding run_steps
    run_steps-ok req_num zero step c w steps total = ((c, steps, total), refl)
    run_steps-ok req_num (suc n) step c w steps total =
        let (out, e) = run_step-ok req_num step c w in
        rw e (run_steps-ok req_num n (suc step) (out.0) (out.1) _ _)

-- What the checks leave of the four numbers that the cache is built from.
valid_fields :
    (floats : Floats) (config : SimulationConfig floats.Float)
    → validate_config floats config ≡ ok tt
    → (is_not_positive config.req_num ≡ false)
      × (is_not_positive config.hbm_slots_per_req ≡ false)
      × (is_negative config.free_slots_target_per_req ≡ false)
unfolding validate_config
valid_fields floats config h = ground arith

pos_of_positive : (a : ℤ) → is_not_positive a ≡ false → (n : ℕ) × (a ≡ pos n)
pos_of_positive (pos n) h = (n, refl)
pos_of_positive (negsuc n) h = absurd (ground arith)

pos_of_target :
    (per_req : Option ℤ)
    → is_negative per_req ≡ false
    → (n : ℕ) × ((elim per_req [ none ↦ pos topk_per_req | some target ↦ target ]) ≡ pos n)
pos_of_target none h = (topk_per_req, refl)
pos_of_target (some (pos n)) h = (n, refl)
pos_of_target (some (negsuc n)) h = absurd (ground arith)

min_ℤ-pos : (a b : ℕ) → (n : ℕ) × (min_ℤ (pos a) (pos b) ≡ pos n)
min_ℤ-pos a b = (if ltb b a then b else a, ground arith)

-- The constructor of the cache returns, for a configuration that passes the checks.
cache_ok :
    (floats : Floats) (config : SimulationConfig floats.Float)
    → validate_config floats config ≡ ok tt
    → (c : LruManagedCache) × (from_cache
          (Cache.init (total_slots config) (free_slot_target config))
        ≡ ok c)
unfolding Cache.init
cache_ok floats config h =
    let (h1, h2, h3) = valid_fields floats config h in
    let (r, e1) = pos_of_positive config.req_num h1 in
    let (b, e2) = pos_of_positive config.hbm_slots_per_req h2 in
    let (t, e3) = pos_of_target config.free_slots_target_per_req h3 in
    let (n, e4) = min_ℤ-pos (r * b) (r * t) in rw (e1, e2, e3, e4) (_, refl)

-- Conditions: the configuration passes `validate_config`, and the workload generator starts and
-- always answers. The simulation returns: nothing else in it raises.
pub run_simulation_returns :
    (floats : Floats) (work : Workload floats.Float) (config : SimulationConfig floats.Float)
    → validate_config floats config ≡ ok tt
    → (w : work.State) → work.start config ≡ some w
    → Answers work
    → (r : SimulationResult floats.Float) × (run_simulation floats work config ≡ ok r)
unfolding run_simulation
run_simulation_returns floats work config h w started answers =
    let (c, made) = cache_ok floats config h in
    let (out, e) =
      run_steps-ok work answers (rounds config.req_num) (rounds config.steps) 0 c w []
        (no_total work) in
    rw (h, made, started, e) (_, refl)

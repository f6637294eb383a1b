-- ===== src/Simulation.antt =====
-- simu/kv_cache_eviction_sim.py: `SimulationConfig`, `validate_config` and `run_simulation`. The
-- workload generator, which draws from Python's random numbers, and the floats are parameters.
pub mod Loops
pub mod Totals
pub mod Returns
mod Tests
use Prim.Native.String.{String}
use text.Mathlib.Text.{◌==◌ as str_eq}
use asu_ascend.Common.{
  ℕ, zero, suc, ◌+◌, ◌*◌, Bool, true, false, not, ◌&&◌, ◌||◌, Option, none, some, List, [], ◌∷◌,
  ◌++◌, if◌then◌else◌,
}
pub use asu_ascend.Common.Results.{Fallible, ok, err, ◌>>=◌, ◌>>◌, raise_if}
use asu_ascend.Common.Int.{ℤ, pos, negsuc, ltb_ℤ, ◌*ℤ◌}
use asu_ascend.Cache
use asu_ascend.Cache.{TokenKey, LruManagedCache, QueryStats, no_stats, add}

-- `TOPK_PER_REQ`
abbrev pub topk_per_req : ℕ
topk_per_req = 2048

-- Python's floats, as far as the configuration is checked.
pub record Floats : Type 1 where
  pub Float : Type 0
  pub leb : Float → Float → Bool
  pub float_zero : Float
  pub float_one : Float

-- The ValueErrors: a field that must be positive, and the other checks in their order; those of
-- the cache's constructor; and those of the workload generator.
pub data Error : Type 0 where
  not_positive : String → Error
  managed_below_topk target_negative prob_out_of_range exponent_not_positive unknown_workload :
      Error
  cache_error : Cache.Error → Error
  workload_error : Error

abbrev pub Result {ℓ} : Type ℓ → Type ℓ
Result A = Fallible Error A

abbrev pub from_cache {ℓ} : {A : Type ℓ} → Cache.Result A → Result A
from_cache (ok a) = ok a
from_cache (err e) = err (cache_error e)

pub record SimulationConfig (Float : Type 0) : Type 0 where
  pub req_num : ℤ
  pub steps : ℤ
  pub managed_tokens_per_req : ℤ
  pub hbm_slots_per_req : ℤ
  pub free_slots_target_per_req : Option ℤ
  pub workload : String
  pub hotset_size : ℤ
  pub hotset_prob : Float
  pub zipf_exponent : Float
  pub seed : ℤ

abbrev pub min_ℤ : ℤ → ℤ → ℤ
min_ℤ a b = if ltb_ℤ b a then b else a

module _ {Float : Type 0} (config : SimulationConfig Float) where
  abbrev pub total_slots : ℤ
  total_slots = config.req_num *ℤ config.hbm_slots_per_req

  abbrev pub target_per_req : ℤ
  target_per_req = elim config.free_slots_target_per_req [
    | none ↦ pos topk_per_req
    | some target ↦ target
  ]

  abbrev pub free_slot_target : ℤ
  free_slot_target = min_ℤ total_slots (config.req_num *ℤ target_per_req)

-- `value <= 0`
abbrev pub is_not_positive : ℤ → Bool
is_not_positive value = not (ltb_ℤ (pos 0) value)

abbrev pub is_negative : Option ℤ → Bool
is_negative none = false
is_negative (some target) = ltb_ℤ target (pos 0)

abbrev pub is_workload : String → Bool
is_workload w = str_eq w "uniform" || str_eq w "hotset" || str_eq w "zipf" || str_eq w "sliding"

pub validate_config : (floats : Floats) → SimulationConfig floats.Float → Result (Unit {0})
validate_config floats config = do
  raise_if (is_not_positive config.req_num) (not_positive "req_num")
  raise_if (is_not_positive config.steps) (not_positive "steps")
  raise_if (is_not_positive config.managed_tokens_per_req) (not_positive "managed_tokens_per_req")
  raise_if (is_not_positive config.hbm_slots_per_req) (not_positive "hbm_slots_per_req")
  raise_if (is_not_positive config.hotset_size) (not_positive "hotset_size")
  raise_if (ltb_ℤ config.managed_tokens_per_req (pos topk_per_req)) managed_below_topk
  raise_if (is_negative config.free_slots_target_per_req) target_negative
  raise_if
      (not (
        floats.leb floats.float_zero config.hotset_prob
        && floats.leb config.hotset_prob floats.float_one))
      prob_out_of_range
  raise_if (floats.leb config.zipf_exponent floats.float_zero) exponent_not_positive
  raise_if (not (is_workload config.workload)) unknown_workload

-- `TopKWorkload`: a generator with a state of its own, asked for one request and one step at a
-- time; `none` is a ValueError.
pub record Workload (Float : Type 0) : Type 1 where
  pub State : Type 0
  pub start : SimulationConfig Float → Option State
  pub query : ℕ → ℕ → State → Option (List TokenKey × State)

-- `StepStats`; the `step` of the total is -1.
pub record StepStats : Type 0 where
  pub stats : QueryStats
  pub step : ℤ
  pub cpu_evictions : ℕ
  pub resident_count : ℕ
  pub free_slots : ℕ

pub record SimulationResult (Float : Type 0) : Type 0 where
  pub config : SimulationConfig Float
  pub steps : List StepStats
  pub total : StepStats

abbrev pub from_workload {ℓ} : {A : Type ℓ} → Option A → Result A
from_workload none = err workload_error
from_workload (some a) = ok a

-- `range(n)` of an integer has this many members.
abbrev pub rounds : ℤ → ℕ
rounds (pos n) = n
rounds (negsuc n) = 0

module _ {Float : Type 0} (work : Workload Float) where
  open work use {State, start, query}

  -- The inner loop: `n` more requests, from `req_id` on.
  pub run_requests :
      ℕ
      → ℕ
      → ℕ
      → LruManagedCache
      → State
      → QueryStats
      → Result (LruManagedCache × State × QueryStats)
  run_requests zero req_id step_id cache w stats = ok (cache, w, stats)
  run_requests (suc n) req_id step_id cache w stats = do
    (tokens, w') ← from_workload (query req_id step_id w)
    let (cache', added) = Cache.resolve_query cache tokens
    run_requests n (suc req_id) step_id cache' w' (add stats added)

  -- One round of the outer loop.
  pub run_step : ℕ → ℕ → LruManagedCache → State → Result (LruManagedCache × State × StepStats)
  unfolding run_requests
  run_step req_num step_id cache w = do
    let (prepared, evictions) = Cache.prepare_free_slots cache
    (cache', w', stats) ← run_requests req_num 0 step_id prepared w no_stats
    ok (
      cache',
      w',
      record {
        stats = stats;
        step = pos step_id;
        cpu_evictions = evictions;
        resident_count = Cache.resident_count cache';
        free_slots = Cache.free_count cache';
      },
    )

  -- `total.add(step_stats)` and the evictions.
  abbrev pub add_step : StepStats → StepStats → StepStats
  add_step total s = record total {
    stats = add total.stats s.stats;
    cpu_evictions = total.cpu_evictions + s.cpu_evictions;
  }

  -- The outer loop: `n` more steps, from `step_id` on; the list grows at its end.
  pub run_steps :
      ℕ
      → ℕ
      → ℕ
      → LruManagedCache
      → State
      → List StepStats
      → StepStats
      → Result (LruManagedCache × List StepStats × StepStats)
  unfolding run_step
  run_steps req_num zero step_id cache w steps total = ok (cache, steps, total)
  run_steps req_num (suc n) step_id cache w steps total = do
    (cache', w', s) ← run_step req_num step_id cache w
    run_steps req_num n (suc step_id) cache' w' (steps ++ (s ∷ [])) (add_step total s)

  abbrev pub no_total : StepStats
  no_total = record {
    stats = no_stats;
    step = negsuc 0;
    cpu_evictions = 0;
    resident_count = 0;
    free_slots = 0;
  }

module _ (floats : Floats) (work : Workload floats.Float) where
  pub run_simulation : SimulationConfig floats.Float → Result (SimulationResult floats.Float)
  unfolding validate_config run_steps
  run_simulation config = do
    validate_config floats config
    cache ← from_cache (Cache.init (total_slots config) (free_slot_target config))
    w ← from_workload (work.start config)
    (cache', steps, total) ←
        run_steps work (rounds config.req_num) (rounds config.steps) 0 cache w [] (no_total work)
    ok (record {
      config = config;
      steps = steps;
      total = record total {
        resident_count = Cache.resident_count cache';
        free_slots = Cache.free_count cache';
      };
    })

-- ===== src/Simulation/Tests.antt =====
-- `run_simulation` at a concrete configuration, with floats in tenths and a generator that asks for
-- two tokens.
use asu_ascend.Common.{ℕ, ◌+◌, ◌≡◌, refl, some, List, [], ◌∷◌, leb, length, All, arith}
use asu_ascend.Common.Int.{pos, negsuc}
use asu_ascend.Cache
use asu_ascend.Cache.{TokenKey, queries}
use asu_ascend.Simulation.{
  Floats, SimulationConfig, SimulationResult, Workload, Error, ok, err, StepStats, total_slots,
  validate_config, run_simulation,
}
use asu_ascend.Simulation.Loops.{HasSize}
use asu_ascend.Simulation.Totals.{IsTally, IsBalanced, run_simulation_totals, run_simulation_enough}
use asu_ascend.Simulation.Returns.{Answers, run_simulation_returns}

program : Unit {0}
unfolding run_simulation Cache.init Cache.prepare_free_slots Cache.resolve_query
program = tt

abbrev tenths : Floats
tenths = record { Float = ℕ; leb = leb; float_zero = 0; float_one = 10 }

-- Token 0 of the request, and the token of the step.
abbrev pair_of : ℕ → ℕ → List TokenKey
pair_of req step = (req, 0) ∷ (req, step + 1) ∷ []

abbrev pairs : Workload ℕ
pairs = record {
  State = Unit {0};
  start = λ config. some tt;
  query = λ req step w. some (pair_of req step, tt);
}

abbrev config : SimulationConfig ℕ
config = record {
  req_num = pos 2;
  steps = pos 3;
  managed_tokens_per_req = pos 4096;
  hbm_slots_per_req = pos 3;
  free_slots_target_per_req = some (pos 2);
  workload = "uniform";
  hotset_size = pos 1;
  hotset_prob = 9;
  zipf_exponent = 11;
  seed = pos 0;
}

validate-config : validate_config tenths config ≡ ok tt
unfolding program
validate-config = refl

no_steps :
    validate_config tenths (record config { steps = pos 0 }) ≡ err (Error.not_positive "steps")
unfolding program
no_steps = refl

abbrev step_stats : ℕ → ℕ → ℕ → ℕ → ℕ → ℕ → StepStats
step_stats i hits installs evictions resident free = record {
  stats = record { hits = hits; misses = installs; installs = installs; shortages = 0 };
  step = pos i;
  cpu_evictions = evictions;
  resident_count = resident;
  free_slots = free;
}

abbrev result : SimulationResult ℕ
result = record {
  config = config;
  steps = step_stats 0 0 4 0 4 2 ∷ step_stats 1 1 3 2 5 1 ∷ step_stats 2 1 3 3 5 1 ∷ [];
  total = record (step_stats 0 2 10 5 5 1) { step = negsuc 0 };
}

run_simulation-config : run_simulation tenths pairs config ≡ ok result
unfolding program
run_simulation-config = refl

pairs-HasSize : HasSize pairs 2
pairs-HasSize req step w tokens w' h = ground arith

pairs-Answers : Answers pairs
pairs-Answers req step w = (pair_of req step, tt, refl)

run_simulation_totals_example :
    (slots : ℕ) × (total_slots config ≡ pos slots)
    × IsTally result.steps result.total
    × All (IsBalanced slots) result.steps
    × (length result.steps ≡ 3)
    × (result.total.resident_count + result.total.free_slots ≡ slots)
    × (result.total.stats.installs ≡ result.total.cpu_evictions + result.total.resident_count)
run_simulation_totals_example = run_simulation_totals tenths pairs config run_simulation-config

run_simulation_enough_example : result.total.stats.shortages ≡ 0
run_simulation_enough_example =
    run_simulation_enough tenths pairs config run_simulation-config 2 pairs-HasSize 4 6 refl refl
      (omega arith)

run_simulation_returns_example :
    (r : SimulationResult ℕ) × (run_simulation tenths pairs config ≡ ok r)
run_simulation_returns_example =
    run_simulation_returns tenths pairs config validate-config tt refl pairs-Answers

-- ===== src/Simulation/Totals.antt =====
-- `run_simulation`: the totals are the sums of the steps, and the slots are accounted for.
use asu_ascend.Common.{
  ℕ, zero, suc, ◌+◌, ◌*◌, ◌≤◌, ◌≡◌, refl, ap, ◌∙◌, List, [], ◌∷◌, ◌++◌, length, length-append, All,
  min, arith,
}
use asu_ascend.Common.Results.{ok_of_bind}
use asu_ascend.Common.Int.{ℤ, pos, negsuc}
use asu_ascend.Cache
use asu_ascend.Cache.{LruManagedCache, queries, free_count}
use asu_ascend.Cache.Valid.{IsValid, init-IsValid}
use asu_ascend.Simulation.{
  Floats, SimulationConfig, SimulationResult, Workload, ok, StepStats, total_slots,
  free_slot_target, validate_config, from_cache, from_workload, rounds, add_step, no_total,
  run_step, run_steps, run_simulation,
}
use asu_ascend.Simulation.Loops.{
  suc-mul, HasSize, Stepped, run_step-Stepped, run_step-shortages, run_step-queries,
}

-- The sum of a number over the steps.
abbrev pub sum : (StepStats → ℕ) → List StepStats → ℕ
sum f [] = 0
sum f (s ∷ l) = f s + sum f l

sum-last :
    (f : StepStats → ℕ) (l : List StepStats) (s : StepStats) → sum f (l ++ (s ∷ [])) ≡ sum f l + f s
sum-last f [] s = omega arith
sum-last f (x ∷ l) s = omega (arith, sum-last f l s)

All-last {κ} :
    (P : StepStats → Type κ) (l : List StepStats) (s : StepStats)
    → All P l
    → P s
    → All P (l ++ (s ∷ []))
All-last P [] s h p = (p, tt)
All-last P (x ∷ l) s h p = (h.0, All-last P l s (h.1) p)

-- Every total is the sum over the steps.
pub record IsTally (steps : List StepStats) (total : StepStats) : Type 0 where
  pub hits : total.stats.hits ≡ sum (λ s. s.stats.hits) steps
  pub misses : total.stats.misses ≡ sum (λ s. s.stats.misses) steps
  pub installs : total.stats.installs ≡ sum (λ s. s.stats.installs) steps
  pub shortages : total.stats.shortages ≡ sum (λ s. s.stats.shortages) steps
  pub cpu_evictions : total.cpu_evictions ≡ sum (λ s. s.cpu_evictions) steps

-- A step that accounts for every slot and every miss.
pub record IsBalanced (slots : ℕ) (s : StepStats) : Type 0 where
  pub all_slots : s.resident_count + s.free_slots ≡ slots
  pub all_misses : s.stats.installs + s.stats.shortages ≡ s.stats.misses

-- What holds whenever the outer loop is at its head.
record IsRunning (slots : ℕ) (c : LruManagedCache) (steps : List StepStats) (total : StepStats)
    : Type 0 where
  valid : IsValid slots c
  tally : IsTally steps total
  balanced : All (IsBalanced slots) steps
  installed : total.stats.installs ≡ total.cpu_evictions + Cache.resident_count c

module _ {Float : Type 0} (work : Workload Float) (slots : ℕ) where
  open work use {State}

  IsRunning-step :
      {c c' : LruManagedCache} (steps : List StepStats) (total s : StepStats)
      → IsRunning slots c steps total
      → Stepped work slots c c' s
      → IsRunning slots c' (steps ++ (s ∷ [])) (add_step work total s)
  IsRunning-step steps total s run step = record {
    valid = step.valid;
    tally = record {
      hits = omega (arith, sum-last (λ x. x.stats.hits) steps s, run.tally);
      misses = omega (arith, sum-last (λ x. x.stats.misses) steps s, run.tally);
      installs = omega (arith, sum-last (λ x. x.stats.installs) steps s, run.tally);
      shortages = omega (arith, sum-last (λ x. x.stats.shortages) steps s, run.tally);
      cpu_evictions = omega (arith, sum-last (λ x. x.cpu_evictions) steps s, run.tally);
    };
    balanced = All-last (IsBalanced slots) steps s run.balanced (record {
      all_slots = omega (arith, step.valid.all_slots, step.residents, step.frees);
      all_misses = step.split;
    });
    installed = omega (arith, run.installed, step.balance);
  }

  run_steps-IsRunning :
      (req_num n step_id : ℕ) (c : LruManagedCache) (w : State) (steps : List StepStats)
      (total : StepStats) {c' : LruManagedCache} {steps' : List StepStats} {total' : StepStats}
      → IsRunning slots c steps total
      → run_steps work req_num n step_id c w steps total ≡ ok (c', steps', total')
      → IsRunning slots c' steps' total' × (length steps' ≡ length steps + n)
  unfolding run_steps
  run_steps-IsRunning req_num zero step_id c w steps total {c'} {steps'} {total'} run h =
      let e1 : c' ≡ c = cc in
      let e2 : steps' ≡ steps = cc in
      let e3 : total' ≡ total = cc in rw (e1, e2, e3) (run, omega arith)
  run_steps-IsRunning req_num (suc n) step_id c w steps total run h =
      let ((c1, w1, s), e, rest) = ok_of_bind (run_step work req_num step_id c w) _ h in
      let stepped = run_step-Stepped work slots req_num step_id c w (run.valid) e in
      let (running, counted) =
        run_steps-IsRunning req_num n (suc step_id) c1 w1 (steps ++ (s ∷ []))
          (add_step work total s) (IsRunning-step steps total s run stepped) rest in
      (running, omega (arith, counted, length-append steps (s ∷ [])))

  run_steps-queries :
      (k : ℕ)
      → HasSize work k
      → (req_num n step_id : ℕ) (c : LruManagedCache) (w : State) (steps : List StepStats)
        (total : StepStats) {c' : LruManagedCache} {steps' : List StepStats} {total' : StepStats}
      → IsValid slots c
      → run_steps work req_num n step_id c w steps total ≡ ok (c', steps', total')
      → (queries total'.stats ≡ queries total.stats + n * (req_num * k))
        × (req_num * k ≤ c.free_slot_target → total'.stats.shortages ≡ total.stats.shortages)
  unfolding run_steps
  run_steps-queries k sized req_num zero step_id c w steps total {c'} {steps'} {total'} valid h =
      let e3 : total' ≡ total = cc in rw e3 (omega arith, λ room. refl)
  run_steps-queries k sized req_num (suc n) step_id c w steps total valid h =
      let ((c1, w1, s), e, rest) = ok_of_bind (run_step work req_num step_id c w) _ h in
      let stepped = run_step-Stepped work slots req_num step_id c w valid e in
      let counted = run_step-queries work slots req_num step_id c w valid e k sized in
      let (more, shorts) =
        run_steps-queries k sized req_num n (suc step_id) c1 w1 (steps ++ (s ∷ []))
          (add_step work total s) (stepped.valid) rest in
      let m : ℕ = req_num * k in
      (
        omega (arith, counted, more, suc-mul n m),
        λ room. omega (
          arith,
          shorts (omega (arith, stepped.same_target, room)),
          run_step-shortages work slots req_num step_id c w valid e k sized room,
        ),
      )

-- The constructor returns only on numbers that are not negative.
init_ok :
    (a b : ℤ) {c : LruManagedCache}
    → from_cache (Cache.init a b) ≡ ok c
    → (total target : ℕ) × (a ≡ pos total)
      × (b ≡ pos target)
      × (Cache.init (pos total) (pos target) ≡ ok c)
unfolding Cache.init
init_ok (pos a) (pos b) h = (a, b, refl, refl, ground arith)
init_ok (pos a) (negsuc b) h = cc
init_ok (negsuc a) b h = cc

module _ (floats : Floats) (work : Workload floats.Float)
    (config : SimulationConfig floats.Float) where
  open work use {State}

  -- How a simulation that returns has gone.
  record Ran (r : SimulationResult floats.Float) : Type 0 where
    slots : ℕ
    target : ℕ
    same_slots : total_slots config ≡ pos slots
    same_target : free_slot_target config ≡ pos target
    begin : LruManagedCache
    finish : LruManagedCache
    w : State
    total : StepStats
    begin_target : begin.free_slot_target ≡ min target slots
    running : IsRunning slots begin [] (no_total work)
    run :
        run_steps work (rounds config.req_num) (rounds config.steps) 0 begin w [] (no_total work)
        ≡ ok (finish, r.steps, total)
    same_stats : r.total.stats ≡ total.stats
    same_evictions : r.total.cpu_evictions ≡ total.cpu_evictions
    same_residents : r.total.resident_count ≡ Cache.resident_count finish
    same_free : r.total.free_slots ≡ free_count finish

  module _ {r : SimulationResult floats.Float}
      (done : run_simulation floats work config ≡ ok r) where
    ran : Ran r
    unfolding run_simulation
    ran =
        let (_, _, h1) = ok_of_bind (validate_config floats config) _ done in
        let (c, made, h2) =
          ok_of_bind (from_cache (Cache.init (total_slots config) (free_slot_target config))) _
            h1 in
        let (w, _, h3) = ok_of_bind (from_workload (work.start config)) _ h2 in
        let ((c', steps, total), run, h4) =
          ok_of_bind
            (run_steps work (rounds config.req_num) (rounds config.steps) 0 c w [] (no_total work))
            _ h3 in
        let (slots, target, e1, e2, init_eq) =
          init_ok (total_slots config) (free_slot_target config) made in
        let (valid, empty, aims) = init-IsValid slots target init_eq in
        record {
          slots = slots;
          target = target;
          same_slots = e1;
          same_target = e2;
          begin = c;
          finish = c';
          w = w;
          total = total;
          begin_target = aims;
          running = record {
            valid = valid;
            tally = record {
              hits = refl;
              misses = refl;
              installs = refl;
              shortages = refl;
              cpu_evictions = refl;
            };
            balanced = tt;
            installed = omega (arith, ap length empty);
          };
          run = ground (arith, run, h4);
          same_stats = ground (arith, h4);
          same_evictions = ground (arith, h4);
          same_residents = ground (arith, h4);
          same_free = ground (arith, h4);
        }

    -- Conditions: the simulation returns. The totals are the sums over the steps, one for each
    -- configured step; at every step, and at the end, the resident and the free slots make up the
    -- configured number of slots, and installs and shortages the misses; what was installed and not
    -- evicted is resident at the end.
    pub run_simulation_totals :
        (slots : ℕ) × (total_slots config ≡ pos slots)
        × IsTally r.steps r.total
        × All (IsBalanced slots) r.steps
        × (length r.steps ≡ rounds config.steps)
        × (r.total.resident_count + r.total.free_slots ≡ slots)
        × (r.total.stats.installs ≡ r.total.cpu_evictions + r.total.resident_count)
    run_simulation_totals =
        let (running, counted) =
          run_steps-IsRunning work (ran.slots) (rounds config.req_num) (rounds config.steps) 0
            (ran.begin) (ran.w) [] (no_total work) (ran.running) (ran.run) in
        (
          ran.slots,
          ran.same_slots,
          record {
            hits = ap (λ s. s.hits) (ran.same_stats) ∙ running.tally.hits;
            misses = ap (λ s. s.misses) (ran.same_stats) ∙ running.tally.misses;
            installs = ap (λ s. s.installs) (ran.same_stats) ∙ running.tally.installs;
            shortages = ap (λ s. s.shortages) (ran.same_stats) ∙ running.tally.shortages;
            cpu_evictions = ran.same_evictions ∙ running.tally.cpu_evictions;
          },
          running.balanced,
          omega (arith, counted),
          omega (arith, running.valid.all_slots, ran.same_residents, ran.same_free),
          omega (
            arith,
            running.installed,
            ap (λ s. s.installs) (ran.same_stats),
            ran.same_evictions,
            ran.same_residents,
          ),
        )

    module _ (k : ℕ) (sized : HasSize work k) where
      counts :
          (queries r.total.stats ≡ rounds config.steps * (rounds config.req_num * k))
          × (rounds config.req_num * k ≤ ran.begin.free_slot_target → r.total.stats.shortages ≡ 0)
      counts =
          let (counted, shorts) =
            run_steps-queries work (ran.slots) k sized (rounds config.req_num) (rounds config.steps)
              0 (ran.begin) (ran.w) [] (no_total work) (ran.running.valid) (ran.run) in
          (
            omega (arith, counted, ap queries (ran.same_stats)),
            λ room. ap (λ s. s.shortages) (ran.same_stats) ∙ shorts room,
          )

      -- Conditions: the simulation returns, and every request asks for `k` tokens. The queries are
      -- the steps times the requests times `k`.
      pub run_simulation_queries :
          queries r.total.stats ≡ rounds config.steps * (rounds config.req_num * k)
      run_simulation_queries = counts.0

      -- Conditions: the simulation returns, every request asks for `k` tokens, and the requests of
      -- one step fit both the target of free slots and the slots. No step runs out of free slots.
      pub run_simulation_enough :
          (target slots : ℕ)
          → free_slot_target config ≡ pos target
          → total_slots config ≡ pos slots
          → rounds config.req_num * k ≤ min target slots
          → r.total.stats.shortages ≡ 0
      run_simulation_enough target slots e1 e2 room =
          counts.1 (ground (arith, ran.begin_target, ran.same_target, ran.same_slots, e1, e2, room))

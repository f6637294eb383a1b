-- ===== src/Simulation/Loops.antt =====
-- The loops of `run_simulation`: what a step does to the cache and to its counts.
use asu_ascend.Common.Results.{ok_of_bind}
use asu_ascend.Common.{
  ℕ, zero, suc, ◌+◌, ◌*◌, ◌≤◌, ◌≡◌, refl, ◌∙◌, some, List, length, inl, inr, Option-cases, arith,
}
use asu_ascend.Cache
use asu_ascend.Cache.{TokenKey, LruManagedCache, QueryStats, no_stats, add, queries, free_count}
use asu_ascend.Cache.Valid.{IsValid, prepare_free_slots_lem}
use asu_ascend.Cache.Resolve.{resolve_query_lem}
use asu_ascend.Simulation.{Workload, ok, StepStats, run_requests, run_step}

-- What some requests of a step have done.
pub record Requested (total : ℕ) (c : LruManagedCache) (s : QueryStats) (c' : LruManagedCache)
    (s' : QueryStats) : Type 0 where
  pub valid : IsValid total c'
  pub same_target : c'.free_slot_target ≡ c.free_slot_target
  pub split : s'.installs + s'.shortages + s.misses ≡ s.installs + s.shortages + s'.misses
  pub grown : Cache.resident_count c' + s.installs ≡ Cache.resident_count c + s'.installs

pub suc-mul : (n k : ℕ) → suc n * k ≡ k + n * k
suc-mul n k = omega arith

module _ {Float : Type 0} (work : Workload Float) where
  open work use {State, query}

  -- Every list that the generator hands out has `k` tokens.
  abbrev pub HasSize : ℕ → Type 0
  HasSize k =
      (req step : ℕ) (w : State) (tokens : List TokenKey) (w' : State)
      → query req step w ≡ some (tokens, w')
      → length tokens ≡ k

module _ {Float : Type 0} (work : Workload Float) (total : ℕ) where
  open work use {State, query}

  run_requests-Requested :
      (n req step : ℕ) (c : LruManagedCache) (w : State) (s : QueryStats) {c' : LruManagedCache}
      {w' : State} {s' : QueryStats}
      → IsValid total c
      → run_requests work n req step c w s ≡ ok (c', w', s')
      → Requested total c s c' s'
  unfolding run_requests
  run_requests-Requested zero req step c w s {c'} {w'} {s'} valid h =
      let same_c : c' ≡ c = cc in
      let same_s : s' ≡ s = cc in
      rw (same_c, same_s)
        (record { valid = valid; same_target = refl; split = omega arith; grown = refl })
  run_requests-Requested (suc n) req step c w s valid h = elim (Option-cases (query req step w)) [
    | inl e ↦ absurd (ground arith)
    | inr ((tokens, w1), e) ↦
        let (c1, s1) = Cache.resolve_query c tokens in
        let first = resolve_query_lem tokens valid in
        let rest = run_requests-Requested n (suc req) step c1 w1 (add s s1) (first.0) (rw e at h) in
        record {
          valid = rest.valid;
          same_target = rest.same_target ∙ first.6;
          split = omega (arith, rest.split, first);
          grown = omega (arith, rest.grown, first);
        }
  ]

  -- With requests of at most `k` tokens there are `n * k` queries, and no shortage if there are as
  -- many free slots.
  run_requests-queries :
      (k : ℕ)
      → HasSize work k
      → (n req step : ℕ) (c : LruManagedCache) (w : State) (s : QueryStats) {c' : LruManagedCache}
        {w' : State} {s' : QueryStats}
      → IsValid total c
      → run_requests work n req step c w s ≡ ok (c', w', s')
      → (queries s' ≡ queries s + n * k) × (n * k ≤ free_count c → s'.shortages ≡ s.shortages)
  unfolding run_requests
  run_requests-queries k sized zero req step c w s {c'} {w'} {s'} valid h =
      let same_s : s' ≡ s = cc in rw same_s (omega arith, λ room. refl)
  run_requests-queries k sized (suc n) req step c w s valid h =
      elim (Option-cases (query req step w)) [
        | inl e ↦ absurd (ground arith)
        | inr ((tokens, w1), e) ↦
            let (c1, s1) = Cache.resolve_query c tokens in
            let first = resolve_query_lem tokens valid in
            let size = sized req step w tokens w1 e in
            let rest =
              run_requests-queries k sized n (suc req) step c1 w1 (add s s1) (first.0)
                (rw e at h) in
            (
              omega (arith, rest.0, first, size, suc-mul n k),
              λ room. omega (
                arith,
                rest.1 (omega (arith, first, size, suc-mul n k)),
                first,
                size,
                suc-mul n k,
              ),
            )
      ]

  -- What a step has done: the residents grow by the installs and shrink by the evictions, and the
  -- statistics give the sizes that the cache ends with.
  pub record Stepped (c c' : LruManagedCache) (s : StepStats) : Type 0 where
    pub valid : IsValid total c'
    pub same_target : c'.free_slot_target ≡ c.free_slot_target
    pub split : s.stats.installs + s.stats.shortages ≡ s.stats.misses
    pub balance :
        Cache.resident_count c' + s.cpu_evictions ≡ Cache.resident_count c + s.stats.installs
    pub residents : s.resident_count ≡ Cache.resident_count c'
    pub frees : s.free_slots ≡ free_count c'

  module _ (req_num step_id : ℕ) (c : LruManagedCache) (w : State) {c' : LruManagedCache}
      {w' : State} {s : StepStats} (valid : IsValid total c)
      (done : run_step work req_num step_id c w ≡ ok (c', w', s)) where
    -- The requests of the step, from the prepared cache.
    requests :
        (run_requests work req_num 0 step_id (Cache.prepare_free_slots c).0 w no_stats
          ≡ ok (c', w', s.stats))
        × (s.cpu_evictions ≡ (Cache.prepare_free_slots c).1)
        × (s.resident_count ≡ Cache.resident_count c')
        × (s.free_slots ≡ free_count c')
    unfolding run_step
    requests =
        let (r, e, rest) =
          ok_of_bind (run_requests work req_num 0 step_id (Cache.prepare_free_slots c).0 w no_stats)
            _ done in
        ground (arith, e, rest)

    pub run_step-Stepped : Stepped c c' s
    run_step-Stepped =
        let prepared = prepare_free_slots_lem valid in
        let r = run_requests-Requested req_num 0 step_id _ w no_stats (prepared.0) (requests.0) in
        record {
          valid = r.valid;
          same_target = r.same_target ∙ prepared.3;
          split = omega (arith, r.split);
          balance =
              omega (arith, r.grown, prepared.0.all_slots, prepared.4, valid.all_slots, requests.1);
          residents = requests.2;
          frees = requests.3;
        }

    pub run_step-shortages :
        (k : ℕ) → HasSize work k → req_num * k ≤ c.free_slot_target → s.stats.shortages ≡ 0
    run_step-shortages k sized room =
        let prepared = prepare_free_slots_lem valid in
        (run_requests-queries k sized req_num 0 step_id _ w no_stats (prepared.0) (requests.0)).1
          (omega (arith, prepared.5, room))

    pub run_step-queries : (k : ℕ) → HasSize work k → queries s.stats ≡ req_num * k
    run_step-queries k sized =
        let prepared = prepare_free_slots_lem valid in
        omega (
          arith,
          (run_requests-queries k sized req_num 0 step_id _ w no_stats (prepared.0) (requests.0)).0,
        )

-- ===== src/Scripts/Bench/Batches.antt =====
-- The batches together launch the cases from 1 on, each once: the warmups first, then every timed round.
use asu_ascend.Common.{
  ℕ, zero, suc, ◌+◌, ◌-◌, ◌%◌, ◌^◌, ◌<◌, ◌≤◌, ◌≡◌, refl, ap, sym, ◌∙◌, some, inl, inr, Bool-cases,
  ◌∷◌, ◌++◌, map, min, ltb, length, take, drop, range_from, arith,
}
use mathlib.Core.List.{append-nil}
use asu_ascend.Common.Int.{ℤ, pos}
use asu_ascend.Common.Random.{Random}
use asu_ascend.Common.Results.{ok}
use asu_ascend.Workload.{Sizes}
use asu_ascend.Scripts.{NpuLookupState, Runtime}
use asu_ascend.Scripts.Bench.{
  Progress, started, fresh_state, preload_states, call_each, run_states, run_batch, run_batches,
}

pub take-map-range_from {ℓ} :
    {A : Type ℓ} (f : ℕ → A) (a m n : ℕ)
    → (take m (map f (range_from a (m + n))) ≡ map f (range_from a m))
      × (drop m (map f (range_from a (m + n))) ≡ map f (range_from (a + m) n))
take-map-range_from f a zero n =
    let (e, e') : (0 + n ≡ n) × (a + 0 ≡ a) = (omega arith, omega arith) in rw (e, e') (refl, refl)
take-map-range_from f a (suc m) n =
    let (e, e') : (suc m + n ≡ suc (m + n)) × (a + suc m ≡ suc a + m) =
      (omega arith, omega arith) in
    let (taken, dropped) = take-map-range_from f (suc a) m n in
    rw (e, e') (ap (◌∷◌ (f a)) taken, dropped)

range_from-append {ℓ} :
    {A : Type ℓ} (f : ℕ → A) (a m n : ℕ)
    → map f (range_from a m) ++ map f (range_from (a + m) n) ≡ map f (range_from a (m + n))
range_from-append f a zero n =
    let (e, e') : (0 + n ≡ n) × (a + 0 ≡ a) = (omega arith, omega arith) in rw (e, e') refl
range_from-append f a (suc m) n =
    let (e, e') : (suc m + n ≡ suc (m + n)) × (a + suc m ≡ suc a + m) =
      (omega arith, omega arith) in
    rw (e, e') (ap (◌∷◌ (f a)) (range_from-append f (suc a) m n))

module _ {Function : Type 0} (s : Sizes) (random : Random) (runtime : Runtime Function)
    (function : Function) (n : ℕ) (hit_count seed : ℤ) (made : ℕ → NpuLookupState)
    (makes : (case_id : ℕ)
      → fresh_state s random runtime function (pos n) hit_count seed case_id ≡ ok (made case_id))
    (stream_ptr : ℕ) (has_stream : runtime.npu_stream ≡ some stream_ptr) where
  -- What a launch leaves of the state of a case.
  abbrev pub launched : ℕ → NpuLookupState
  launched case_id = runtime.launch function (n % 2 ^ 32) (made case_id)

  pub preload_states-made :
      (count first : ℕ)
      → preload_states s random runtime function (pos n) hit_count seed count first
        ≡ ok (map made (range_from first count))
  unfolding preload_states
  preload_states-made zero first = refl
  preload_states-made (suc count) first =
      ground (arith, makes first, preload_states-made count (suc first))

  pub call_each-launched :
      (count first : ℕ)
      → call_each s random runtime function
          (pos n)
          hit_count
          seed
          (map made (range_from first count))
        ≡ ok (map launched (range_from first count))
  unfolding call_each
  call_each-launched zero first = refl
  call_each-launched (suc count) first =
      ground (arith, has_stream, call_each-launched count (suc first))

  pub length-map-range_from {ℓ} :
      {A : Type ℓ} (f : ℕ → A) (a k : ℕ) → length (map f (range_from a k)) ≡ k
  length-map-range_from f a zero = refl
  length-map-range_from f a (suc k) = ap suc (length-map-range_from f (suc a) k)

  pub run_states-launched :
      (count first : ℕ)
      → run_states s random runtime function
          (pos n)
          hit_count
          seed
          (map made (range_from first count))
        ≡ ok (map launched (range_from first count))
  unfolding run_states
  run_states-launched count first = ground (
    arith,
    call_each-launched count first,
    length-map-range_from made first count,
    length-map-range_from launched first count,
  )

  -- One batch: what is left of the warmup, and then timed rounds, all on cases of their own.
  abbrev after_batch : ℕ → Progress → Progress
  after_batch current p = record {
    completed = p.completed + current;
    next_case_id = p.next_case_id + (p.warmup_remaining + current);
    warmup_remaining = 0;
    warmed = p.warmed ++ map launched (range_from p.next_case_id p.warmup_remaining);
    timed = p.timed ++ map launched (range_from (p.next_case_id + p.warmup_remaining) current);
  }

  run_batch-after_batch :
      (rounds batch_rounds : ℕ) (p : Progress)
      → run_batch s random runtime function (pos n) hit_count seed rounds batch_rounds p
        ≡ ok (after_batch (min batch_rounds (rounds - p.completed)) p)
  unfolding run_batch
  run_batch-after_batch rounds batch_rounds p =
      let w : ℕ = p.warmup_remaining in
      let current : ℕ = min batch_rounds (rounds - p.completed) in
      let (taken, dropped) = take-map-range_from made p.next_case_id w current in
      ground (
        arith,
        preload_states-made (w + current) p.next_case_id,
        taken,
        dropped,
        run_states-launched w p.next_case_id,
        run_states-launched current (p.next_case_id + w),
      )

  -- What holds at each test of the loop.
  record IsOnCourse (warmup rounds : ℕ) (p : Progress) : Type 0 where
    within : p.completed ≤ rounds
    next : p.next_case_id + p.warmup_remaining ≡ 1 + warmup + p.completed
    warm :
        p.warmed ++ map launched (range_from p.next_case_id p.warmup_remaining)
        ≡ map launched (range_from 1 warmup)
    time : p.timed ≡ map launched (range_from (1 + warmup) p.completed)
    late : 0 < p.completed → p.warmup_remaining ≡ 0

  after_batch-IsOnCourse :
      (warmup rounds batch_rounds : ℕ) (p : Progress)
      → 0 < batch_rounds
      → p.completed < rounds
      → IsOnCourse warmup rounds p
      → IsOnCourse warmup rounds (after_batch (min batch_rounds (rounds - p.completed)) p)
  after_batch-IsOnCourse warmup rounds batch_rounds p some_batch more course =
      let current : ℕ = min batch_rounds (rounds - p.completed) in
      record {
        within = omega (arith, course.within);
        next = omega (arith, course.next);
        warm = append-nil _ ∙ course.warm;
        time =
            rw (course.next, course.time)
              (range_from-append launched (1 + warmup) p.completed current);
        late = λ _. refl;
      }

  run_batches-IsOnCourse :
      (fuel warmup rounds batch_rounds : ℕ) (p : Progress)
      → 0 < batch_rounds
      → rounds - p.completed ≤ fuel
      → IsOnCourse warmup rounds p
      → (p' : Progress) × (run_batches s random runtime function
            (pos n)
            hit_count
            seed
            fuel
            rounds
            batch_rounds
            p
          ≡ ok p')
        × IsOnCourse warmup rounds p'
        × (p'.completed ≡ rounds)
  unfolding run_batches
  run_batches-IsOnCourse zero warmup rounds batch_rounds p some_batch enough course =
      (p, ground arith, course, omega (arith, course.within))
  run_batches-IsOnCourse (suc fuel) warmup rounds batch_rounds p some_batch enough course =
      elim (Bool-cases (ltb p.completed rounds)) [
        | inr stop ↦ (p, ground arith, course, ground (arith, course.within))
        | inl more ↦
            let p1 = after_batch (min batch_rounds (rounds - p.completed)) p in
            let course1 =
              after_batch-IsOnCourse warmup rounds batch_rounds p some_batch (ground arith)
                course in
            let (p', run, course', all) =
              run_batches-IsOnCourse fuel warmup rounds batch_rounds p1 some_batch (ground arith)
                course1 in
            (
              p',
              ground (arith, more, run_batch-after_batch rounds batch_rounds p, run),
              course',
              all,
            )
      ]

  -- Every timed round is launched, and every warmup before them, each on a case of its own.
  pub run_batches_launches :
      (warmup rounds batch_rounds : ℕ)
      → 0 < batch_rounds
      → 0 < rounds
      → (p : Progress) × (run_batches s random runtime function
            (pos n)
            hit_count
            seed
            rounds
            rounds
            batch_rounds
            (started warmup)
          ≡ ok p)
        × (p.completed ≡ rounds)
        × (p.next_case_id ≡ 1 + warmup + rounds)
        × (p.warmed ≡ map launched (range_from 1 warmup))
        × (p.timed ≡ map launched (range_from (1 + warmup) rounds))
  run_batches_launches warmup rounds batch_rounds some_batch some_round =
      let start : IsOnCourse warmup rounds (started warmup) = record {
        within = omega arith;
        next = omega arith;
        warm = refl;
        time = refl;
        late = λ h. absurd (omega arith);
      } in
      let (p, run, course, all) =
        run_batches-IsOnCourse rounds warmup rounds batch_rounds (started warmup) some_batch
          (omega arith) start in
      let done = course.late (omega (arith, all)) in
      (
        p,
        run,
        all,
        omega (arith, course.next, done, all),
        sym (append-nil p.warmed)
            ∙ ap (λ (k : ℕ). p.warmed ++ map launched (range_from p.next_case_id k)) (sym done)
            ∙ course.warm,
        course.time ∙ ap (λ (k : ℕ). map launched (range_from (1 + warmup) k)) all,
      )

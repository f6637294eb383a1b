-- ===== src/Cache/Valid.antt =====
-- The invariant of `LRUManagedCache`, and what `prepare_free_slots` does at a step boundary.
use asu_ascend.Common.{
  ℕ, zero, suc, ◌+◌, ◌-◌, ◌≤◌, ◌≡◌, refl, ap, List, [], ◌∷◌, ltb, if◌then◌else◌, length, min, drop,
  drop-nil, length-drop, inl, inr, Bool-cases, arith,
}
use asu_ascend.Common.Int.{pos}
use asu_ascend.Cache.{
  TokenKey, LruManagedCache, ok, init, prepare_loop, prepare_free_slots, free_count, resident_count,
}
use asu_ascend.Cache.Keys.{count, held, keyed, count-range, length-range}

-- Every slot below `total` is free or holds a resident, exactly once; no other number is a slot;
-- no key is resident twice.
pub record IsValid (total : ℕ) (c : LruManagedCache) : Type 0 where
  pub slots_once :
      (s : ℕ) → count s c.free_slots + held s c.residents ≡ (if ltb s total then 1 else 0)
  pub keys_once : (k : TokenKey) → keyed k c.residents ≤ 1
  pub target_fits : c.free_slot_target ≤ total
  pub all_slots : free_count c + resident_count c ≡ total

-- Conditions: the constructor returns. The cache is valid, empty, and aims at the smaller of the
-- two numbers.
pub init-IsValid :
    (total target : ℕ) {c : LruManagedCache}
    → init (pos total) (pos target) ≡ ok c
    → IsValid total c × (c.residents ≡ []) × (c.free_slot_target ≡ min target total)
unfolding init
init-IsValid total target h = (
  record {
    slots_once = λ s. ground (arith, count-range s 0 total);
    keys_once = λ k. ground arith;
    target_fits = ground arith;
    all_slots = ground (arith, length-range 0 total);
  },
  ground arith,
  ground arith,
)

-- What the eviction loop has done when it stops.
record Prepared (target : ℕ) (free : List ℕ) (l : List (TokenKey × ℕ)) (n : ℕ)
    (out : LruManagedCache × ℕ) : Type 0 where
  same_target : out.0.free_slot_target ≡ target
  rounds : out.1 ≡ n + min (target - length free) (length l)
  oldest : out.0.residents ≡ drop (min (target - length free) (length l)) l
  gained : free_count out.0 ≡ length free + min (target - length free) (length l)
  slots_kept : (s : ℕ) → count s out.0.free_slots + held s out.0.residents ≡ count s free + held s l

prepare_loop-Prepared :
    (target : ℕ) (free : List ℕ) (l : List (TokenKey × ℕ)) (n : ℕ)
    → Prepared target free l n (prepare_loop target free l n)
unfolding prepare_loop
prepare_loop-Prepared target free [] n = record {
  same_target = refl;
  rounds = omega arith;
  oldest = drop-nil (min (target - length free) 0);
  gained = omega arith;
  slots_kept = λ s. refl;
}
prepare_loop-Prepared target free ((k, slot) ∷ l) n = elim (Bool-cases (ltb (length free) target)) [
  | inl more ↦
      let ih = prepare_loop-Prepared target (slot ∷ free) l (n + 1) in
      rw more (record {
        same_target = ih.same_target;
        rounds = ground (arith, ih.rounds);
        oldest =
            let e : min (target - length free) (suc (length l))
                ≡ suc (min (target - suc (length free)) (length l)) =
              ground arith in
            rw e (ih.oldest);
        gained = ground (arith, ih.gained);
        slots_kept = λ s. omega (arith, ih.slots_kept s);
      })
  | inr done ↦ rw done (record {
    same_target = refl;
    rounds = ground arith;
    oldest = let e : min (target - length free) (suc (length l)) ≡ 0 = ground arith in rw e;
    gained = ground arith;
    slots_kept = λ s. refl;
  })
]

keyed-drop-le : (k : TokenKey) (n : ℕ) (l : List (TokenKey × ℕ)) → keyed k (drop n l) ≤ keyed k l
keyed-drop-le k zero l = omega arith
keyed-drop-le k (suc n) [] = omega arith
keyed-drop-le k (suc n) ((j, x) ∷ l) = omega (arith, keyed-drop-le k n l)

module _ {total : ℕ} {c : LruManagedCache} (valid : IsValid total c) where
  prepared : Prepared c.free_slot_target c.free_slots c.residents 0 (prepare_free_slots c)
  unfolding prepare_free_slots
  prepared = prepare_loop-Prepared c.free_slot_target c.free_slots c.residents 0

  -- Conditions: the cache is valid. It stays valid, the number of evictions is what the target
  -- lacks but no more than there are residents, exactly the least recently used residents go, and
  -- the target is met.
  pub prepare_free_slots_lem :
      let (c', evicted) = prepare_free_slots c in
      IsValid total c'
      × (evicted ≡ min (c.free_slot_target - free_count c) (resident_count c))
      × (c'.residents ≡ drop evicted c.residents)
      × (c'.free_slot_target ≡ c.free_slot_target)
      × (free_count c' ≡ free_count c + evicted)
      × (c.free_slot_target ≤ free_count c')
  prepare_free_slots_lem =
      let n : ℕ = min (c.free_slot_target - free_count c) (resident_count c) in
      let e : (prepare_free_slots c).1 ≡ n = omega (arith, prepared.rounds) in
      (
        record {
          slots_once = λ s. omega (arith, prepared.slots_kept s, valid.slots_once s);
          keys_once = λ k.
              rw (prepared.oldest)
                (omega (arith, keyed-drop-le k n c.residents, valid.keys_once k));
          target_fits = rw (prepared.same_target) (valid.target_fits);
          all_slots = omega (
            arith,
            prepared.gained,
            ap length (prepared.oldest),
            length-drop n c.residents,
            valid.all_slots,
          );
        },
        e,
        rw e (prepared.oldest),
        prepared.same_target,
        omega (arith, prepared.gained, e),
        omega (arith, prepared.gained, valid.all_slots, valid.target_fits),
      )

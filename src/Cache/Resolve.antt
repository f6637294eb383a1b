-- ===== src/Cache/Resolve.antt =====
-- `resolve_query`: its counts, and that it never evicts.
use asu_ascend.Common.{
  ℕ, zero, suc, ◌+◌, ◌≤◌, ◌≡◌, refl, ap, ◌∙◌, true, false, some, List, [], ◌∷◌, ◌++◌, ◌⊎◌, length,
  get_elem?, length-append, inl, inr, Bool-cases, arith,
}
use mathlib.Core.Path.{subst}
use asu_ascend.Cache.{
  TokenKey, ◌==key◌, LruManagedCache, QueryStats, no_stats, queries, free_count, resident_count,
  has_key, move_to_end, install, resolve_token, resolve_loop, resolve_query,
}
use asu_ascend.Cache.Keys.{
  count, slot_of, ==key_iff, held-append, keyed-append, held-move_to_end, keyed-move_to_end,
  length-move_to_end, slot_of-append, has_key-keyed, slot_of-none, slot_of-move_to_end,
}
use asu_ascend.Cache.Valid.{IsValid}

List-cases : (l : List ℕ) → (l ≡ []) ⊎ ((x : ℕ) × (r : List ℕ) × (l ≡ x ∷ r))
List-cases [] = inl refl
List-cases (x ∷ r) = inr (x, r, refl)

has_key_last :
    (k : TokenKey) (l : List (TokenKey × ℕ)) (x : ℕ) → has_key k (l ++ ((k, x) ∷ [])) ≡ true
has_key_last k [] x = ground (arith, ==key_iff k k)
has_key_last k ((j, y) ∷ l) x = ground (arith, has_key_last k l x)

slot_of_key :
    (k : TokenKey) (l : List (TokenKey × ℕ)) → has_key k l ≡ true → (x : ℕ) × (slot_of k l ≡ some x)
slot_of_key k [] h = absurd (ground arith)
slot_of_key k ((j, y) ∷ l) h = elim (Bool-cases (j ==key k)) [
  | inl e ↦ (y, rw e)
  | inr e ↦ rw e (slot_of_key k l (ground arith))
]

key_of_slot :
    (k : TokenKey) (l : List (TokenKey × ℕ)) {x : ℕ} → slot_of k l ≡ some x → has_key k l ≡ true
key_of_slot k l h = ground (arith, slot_of-none k l)

-- What one round, or the whole loop, has done: `n` tokens were counted, each as a hit or a miss,
-- each miss as an install or a shortage; each install took a free slot; nothing was evicted.
pub record Resolved (total n : ℕ) (c : LruManagedCache) (s : QueryStats)
    (out : LruManagedCache × QueryStats) : Type 0 where
  pub valid : IsValid total out.0
  pub same_target : out.0.free_slot_target ≡ c.free_slot_target
  pub counted : queries out.1 ≡ queries s + n
  pub split : out.1.installs + out.1.shortages + s.misses ≡ s.installs + s.shortages + out.1.misses
  pub taken : free_count out.0 + out.1.installs ≡ free_count c + s.installs
  pub grown : resident_count out.0 + s.installs ≡ resident_count c + out.1.installs
  pub installs_grow : s.installs ≤ out.1.installs
  pub shortages_grow : s.shortages ≤ out.1.shortages
  pub short_when_empty : (out.1.shortages ≡ s.shortages) ⊎ (free_count out.0 ≡ 0)
  pub kept :
      (k : TokenKey) (x : ℕ) → slot_of k c.residents ≡ some x → slot_of k out.0.residents ≡ some x

module _ (total : ℕ) (token : TokenKey) (c : LruManagedCache) (s : QueryStats)
    (valid : IsValid total c) where
  hit-Resolved :
      has_key token c.residents ≡ true
      → Resolved total 1 c s
          (record c { residents = move_to_end token c.residents }, record s { hits = s.hits + 1 })
  hit-Resolved h = record {
    valid = record {
      slots_once = λ x. omega (arith, held-move_to_end x token c.residents, valid.slots_once x);
      keys_once = λ k. omega (arith, keyed-move_to_end k token c.residents, valid.keys_once k);
      target_fits = valid.target_fits;
      all_slots = omega (arith, length-move_to_end token c.residents, valid.all_slots);
    };
    same_target = refl;
    counted = omega arith;
    split = omega arith;
    taken = refl;
    grown = omega (arith, length-move_to_end token c.residents);
    installs_grow = omega arith;
    shortages_grow = omega arith;
    short_when_empty = inl refl;
    kept = λ k x e. slot_of-move_to_end k token c.residents (valid.keys_once token) ∙ e;
  }

  short-Resolved :
      c.free_slots ≡ []
      → Resolved total 1 c s (c, record s { misses = s.misses + 1; shortages = s.shortages + 1 })
  short-Resolved e = record {
    valid = valid;
    same_target = refl;
    counted = omega arith;
    split = omega arith;
    taken = refl;
    grown = refl;
    installs_grow = omega arith;
    shortages_grow = omega arith;
    short_when_empty = inr (ap length e);
    kept = λ k x h. h;
  }

  install-Resolved :
      has_key token c.residents ≡ false
      → (slot : ℕ) (free : List ℕ) → c.free_slots ≡ slot ∷ free
      → Resolved total 1 c s (
        record c { free_slots = free; residents = c.residents ++ ((token, slot) ∷ []) },
        record s { misses = s.misses + 1; installs = s.installs + 1 },
      )
  install-Resolved h slot free e = record {
    valid = record {
      slots_once = λ x. omega (
        arith,
        held-append x c.residents ((token, slot) ∷ []),
        valid.slots_once x,
        ap (count x) e,
      );
      keys_once = λ k. ground (
        arith,
        keyed-append k c.residents ((token, slot) ∷ []),
        has_key-keyed k c.residents,
        ==key_iff token k,
        valid.keys_once k,
      );
      target_fits = valid.target_fits;
      all_slots =
          omega
            (arith, length-append c.residents ((token, slot) ∷ []), valid.all_slots, ap length e);
    };
    same_target = refl;
    counted = omega arith;
    split = omega arith;
    taken = omega (arith, ap length e);
    grown = omega (arith, length-append c.residents ((token, slot) ∷ []));
    installs_grow = omega arith;
    shortages_grow = omega arith;
    short_when_empty = inl refl;
    kept = λ k x found.
        ground
          (arith, slot_of-append k c.residents ((token, slot) ∷ []), slot_of-none k c.residents);
  }

  miss-Resolved :
      has_key token c.residents ≡ false
      → Resolved total 1 c s (install token c (record s { misses = s.misses + 1 }))
  unfolding install
  miss-Resolved h = elim (List-cases c.free_slots) [
    | inl e ↦ subst (Resolved total 1 c s) (ground arith) (short-Resolved e)
    | inr (slot, free, e) ↦
        subst (Resolved total 1 c s) (ground arith) (install-Resolved h slot free e)
  ]

  resolve_token-Resolved : Resolved total 1 c s (resolve_token token c s)
  unfolding resolve_token
  resolve_token-Resolved = elim (Bool-cases (has_key token c.residents)) [
    | inl e ↦ rw e (hit-Resolved e)
    | inr e ↦ rw e (miss-Resolved e)
  ]

  -- The token is resident behind its round, unless the round was a shortage.
  resolve_token-resident :
      let (c', s') = resolve_token token c s in
      (has_key token c'.residents ≡ true) ⊎ (s'.shortages ≡ s.shortages + 1)
  unfolding resolve_token install
  resolve_token-resident = elim (List-cases c.free_slots) [
    | inl e ↦ ground (
      arith,
      has_key-keyed token c.residents,
      has_key-keyed token (move_to_end token c.residents),
      keyed-move_to_end token token c.residents,
    )
    | inr (slot, free, e) ↦ ground (
      arith,
      has_key-keyed token c.residents,
      has_key-keyed token (move_to_end token c.residents),
      keyed-move_to_end token token c.residents,
      has_key_last token c.residents slot,
    )
  ]

Resolved-trans :
    (total n : ℕ) (c : LruManagedCache) (s : QueryStats) (mid out : LruManagedCache × QueryStats)
    → Resolved total 1 c s mid
    → Resolved total n mid.0 mid.1 out
    → Resolved total (suc n) c s out
Resolved-trans total n c s mid out a b = record {
  valid = b.valid;
  same_target = b.same_target ∙ a.same_target;
  counted = omega (arith, a.counted, b.counted);
  split = omega (arith, a.split, b.split);
  taken = omega (arith, a.taken, b.taken);
  grown = omega (arith, a.grown, b.grown);
  installs_grow = omega (arith, a.installs_grow, b.installs_grow);
  shortages_grow = omega (arith, a.shortages_grow, b.shortages_grow);
  short_when_empty =
      omega (arith, a.short_when_empty, b.short_when_empty, b.taken, b.installs_grow);
  kept = λ k x h. b.kept k x (a.kept k x h);
}

module _ (total : ℕ) where
  resolve_loop-Resolved :
      (tokens : List TokenKey) (c : LruManagedCache) (s : QueryStats)
      → IsValid total c
      → Resolved total (length tokens) c s (resolve_loop tokens c s)
  unfolding resolve_loop
  resolve_loop-Resolved [] c s valid = record {
    valid = valid;
    same_target = refl;
    counted = omega arith;
    split = omega arith;
    taken = refl;
    grown = refl;
    installs_grow = omega arith;
    shortages_grow = omega arith;
    short_when_empty = inl refl;
    kept = λ k x h. h;
  }
  resolve_loop-Resolved (token ∷ tokens) c s valid =
      let first = resolve_token-Resolved total token c s valid in
      Resolved-trans total (length tokens) c s (resolve_token token c s) _ first
        (resolve_loop-Resolved tokens _ _ (first.valid))

  resolve_loop-resident :
      (tokens : List TokenKey) (c : LruManagedCache) (s : QueryStats)
      → IsValid total c
      → (j : ℕ) (token : TokenKey) → get_elem? tokens j ≡ some token
      → (resolve_loop tokens c s).1.shortages ≡ s.shortages
      → has_key token (resolve_loop tokens c s).0.residents ≡ true
  unfolding resolve_loop
  resolve_loop-resident [] c s valid j token h short = ground arith
  resolve_loop-resident (t ∷ tokens) c s valid zero token h short =
      let first = resolve_token-Resolved total t c s valid in
      let c1 = (resolve_token t c s).0 in
      let s1 = (resolve_token t c s).1 in
      let rest = resolve_loop-Resolved tokens c1 s1 (first.valid) in
      let e : t ≡ token = cc in
      elim (resolve_token-resident total t c s valid) [
        | inl there ↦
            let (x, at_x) = slot_of_key t c1.residents there in
            rw (← e) (key_of_slot t _ (rest.kept t x at_x))
        | inr one ↦ absurd (omega (arith, rest.shortages_grow, one, short))
      ]
  resolve_loop-resident (t ∷ tokens) c s valid (suc j) token h short =
      let first = resolve_token-Resolved total t c s valid in
      let c1 = (resolve_token t c s).0 in
      let s1 = (resolve_token t c s).1 in
      let rest = resolve_loop-Resolved tokens c1 s1 (first.valid) in
      resolve_loop-resident tokens c1 s1 (first.valid) j token h
        (omega (arith, first.shortages_grow, rest.shortages_grow, short))

-- Conditions: the cache is valid. It stays valid; every position is a hit or a miss, every miss an
-- install or a shortage; the free slots shrink and the residents grow by the installs; there is a
-- shortage only if the free slots ran out; the target stays.
pub resolve_query_lem :
    {total : ℕ} {c : LruManagedCache} (tokens : List TokenKey)
    → IsValid total c
    → let (c', s) = resolve_query c tokens in
      IsValid total c'
      × (s.hits + s.misses ≡ length tokens)
      × (s.installs + s.shortages ≡ s.misses)
      × (free_count c' + s.installs ≡ free_count c)
      × (resident_count c' ≡ resident_count c + s.installs)
      × ((s.shortages ≡ 0) ⊎ (free_count c' ≡ 0))
      × (c'.free_slot_target ≡ c.free_slot_target)
unfolding resolve_query
resolve_query_lem {total} {c} tokens valid =
    let done = resolve_loop-Resolved total tokens c no_stats valid in
    (
      done.valid,
      omega (arith, done.counted),
      omega (arith, done.split),
      omega (arith, done.taken),
      omega (arith, done.grown),
      done.short_when_empty,
      done.same_target,
    )

-- Conditions: the cache is valid and the token is resident. It stays resident, in its slot: the
-- queries evict nothing.
pub resolve_query_kept :
    {total : ℕ} {c : LruManagedCache} (tokens : List TokenKey)
    → IsValid total c
    → (k : TokenKey) (x : ℕ) → slot_of k c.residents ≡ some x
    → slot_of k (resolve_query c tokens).0.residents ≡ some x
unfolding resolve_query
resolve_query_kept {total} {c} tokens valid =
    (resolve_loop-Resolved total tokens c no_stats valid).kept

-- Conditions: the cache is valid, and the call counts no shortage. Every token of the query is
-- resident when the call returns.
pub resolve_query_resident :
    {total : ℕ} {c : LruManagedCache} (tokens : List TokenKey)
    → IsValid total c
    → (resolve_query c tokens).1.shortages ≡ 0
    → (j : ℕ) (token : TokenKey) → get_elem? tokens j ≡ some token
    → has_key token (resolve_query c tokens).0.residents ≡ true
unfolding resolve_query
resolve_query_resident {total} {c} tokens valid short j token h =
    resolve_loop-resident total tokens c no_stats valid j token h short

-- Conditions: the cache is valid, and there are as many free slots as the query has tokens. The
-- call counts no shortage.
pub resolve_query_enough :
    {total : ℕ} {c : LruManagedCache} (tokens : List TokenKey)
    → IsValid total c
    → length tokens ≤ free_count c
    → (resolve_query c tokens).1.shortages ≡ 0
resolve_query_enough {total} {c} tokens valid h = omega (arith, resolve_query_lem tokens valid)

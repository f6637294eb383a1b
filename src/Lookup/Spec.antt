-- ===== src/Lookup/Spec.antt =====
-- What `lookup_allocate_evict` promises: which tokens are misses, which slots are hit, and a
-- state that is in order.
use asu_ascend.Common.{
  ℕ, suc, ◌≡◌, refl, List, [], ◌∷◌, some, ltb, Bool, false, ◌&&◌, not, inl, inr, Option-cases,
  Bool-cases, if◌then◌else◌, length, get_elem?, arith,
}
use asu_ascend.Common.Int.{ℤ, pos, negsuc, count, contains, get?, ==ℤ_iff}
use asu_ascend.Lookup.{LookupState, slots, sorted, hits_of, evictable_of}
use asu_ascend.Lookup.Tables.{IsLinked}
use asu_ascend.Lookup.Order.{count-perm, count-perm_negsuc}
use asu_ascend.Lookup.Loop.{tokens}
use asu_ascend.Lookup.Scanning.{scanned, is_absent, hit_set_has, hit_set_only}

-- The tables are inverse to each other, and the LRU list is a permutation of the slots.
pub record IsValid (st : LookupState) : Type 0 where
  pub linked : IsLinked st
  pub permutation : sorted st.lru_slots ≡ slots (length st.slot_to_token)

-- The missing tokens of a query, each once, in the order of their first positions.
unfoldable pub absent_tokens : List ℤ → List ℤ → List ℤ → List ℤ
absent_tokens t2s seen [] = []
absent_tokens t2s seen (z ∷ query) =
    let first = z ∷ absent_tokens t2s (z ∷ seen) query in
    let other = absent_tokens t2s seen query in
    if is_absent t2s z && not (contains seen z) then first else other

-- The slot holds a token of the query.
abbrev pub is_queried : List ℤ → List ℤ → ℤ → Bool
is_queried s2t query slot = elim (get? s2t slot) [
  | some (pos t) ↦ contains query (pos t)
  | _ ↦ false
]

abbrev pub keep : (ℤ → Bool) → List ℤ → List ℤ
keep p [] = []
keep p (x ∷ xs) = let rest = keep p xs in if p x then x ∷ rest else rest

abbrev pub queried_slots : LookupState → List ℤ → List ℤ
queried_slots st query = keep (is_queried st.slot_to_token query) st.lru_slots

-- The slots that may be given away, least recently used first.
abbrev pub free_slots : LookupState → List ℤ → List ℤ
free_slots st query = keep (λ s. not (is_queried st.slot_to_token query s)) st.lru_slots

pub tokens-scanned :
    (t2s : List ℤ) (i : ℕ) (pending query : List ℤ)
    → tokens (scanned t2s i pending query).unique_misses ≡ absent_tokens t2s pending query
unfolding scanned absent_tokens
tokens-scanned t2s i pending [] = refl
tokens-scanned t2s i pending (negsuc k ∷ query) =
    ground (arith, tokens-scanned t2s (suc i) pending query)
tokens-scanned t2s i pending (pos t ∷ query) = ground (
  arith,
  tokens-scanned t2s (suc i) pending query,
  tokens-scanned t2s (suc i) (pos t ∷ pending) query,
)

module _ (st : LookupState) (valid : IsValid st) (query : List ℤ) where
  open st use {token_to_slot as t2s, slot_to_token as s2t, lru_slots as lru}

  abbrev pub hit_set : List ℤ
  hit_set = (scanned t2s 0 [] query).hit_slot_set

  -- The hit set holds the slots of the queried tokens.
  pub contains-hit_set : (s : ℕ) → contains hit_set (pos s) ≡ is_queried s2t query (pos s)
  contains-hit_set s = elim (Option-cases (get_elem? s2t s)) [
    | inl e ↦ ground (
      arith,
      hit_set_only t2s 0 [] query s (λ t h. ground (arith, valid.linked.slot_holds t s h)),
    )
    | inr (negsuc k, e) ↦ ground (
      arith,
      hit_set_only t2s 0 [] query s (λ t h. ground (arith, valid.linked.slot_holds t s h)),
    )
    | inr (pos t, e) ↦ elim (Bool-cases (contains query (pos t))) [
      | inl queried ↦ ground (arith, hit_set_has t2s 0 [] query t s, valid.linked.token_knows s t e)
      | inr other ↦ ground (
        arith,
        hit_set_only t2s 0 [] query s (λ u h. ground (arith, valid.linked.slot_holds u s h)),
      )
    ]
  ]

  hits_of-keep :
      (l : List ℤ)
      → ((k : ℕ) → count (negsuc k) l ≡ 0)
      → (hits_of hit_set l ≡ keep (is_queried s2t query) l)
        × (evictable_of hit_set l ≡ keep (λ s. not (is_queried s2t query s)) l)
  unfolding hits_of evictable_of
  hits_of-keep [] h = (refl, refl)
  hits_of-keep (negsuc k ∷ l) h = absurd (ground (arith, h k))
  hits_of-keep (pos s ∷ l) h =
      let (hits, others) = hits_of-keep l (λ k. ground (arith, h k)) in
      rw (contains-hit_set s, hits, others) (refl, ground arith)

  -- The two list comprehensions split the LRU list by the queried slots.
  pub hit_slots-queried :
      (hits_of hit_set lru ≡ queried_slots st query)
      × (evictable_of hit_set lru ≡ free_slots st query)
  hit_slots-queried = hits_of-keep lru (count-perm_negsuc (length s2t) lru valid.permutation)

count-keep :
    (p : ℤ → Bool) (z : ℤ) (l : List ℤ) → count z (keep p l) ≡ (if p z then count z l else 0)
count-keep p z [] = ground arith
count-keep p z (x ∷ l) = ground (arith, ==ℤ_iff x z, count-keep p z l)

module _ (st : LookupState) (valid : IsValid st) (query : List ℤ) where
  open st use {slot_to_token as s2t, lru_slots as lru}

  -- The slots that may be given away are distinct slots that hold no queried token.
  pub count-free_slots :
      (s : ℕ)
      → count (pos s) (free_slots st query)
        ≡ (if ltb s (length s2t) && not (is_queried s2t query (pos s)) then 1 else 0)
  count-free_slots s = ground (
    arith,
    count-keep (λ z. not (is_queried s2t query z)) (pos s) lru,
    count-perm (length s2t) lru valid.permutation s,
  )

  pub count-free_slots_negsuc : (k : ℕ) → count (negsuc k) (free_slots st query) ≡ 0
  count-free_slots_negsuc k = ground (
    arith,
    count-keep (λ z. not (is_queried s2t query z)) (negsuc k) lru,
    count-perm_negsuc (length s2t) lru valid.permutation k,
  )

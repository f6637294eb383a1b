-- ===== src/Lookup/Answers.antt =====
-- What a call of `lookup_allocate_evict` that returns has answered, and what it has done.
use asu_ascend.Common.{
  ℕ, zero, suc, ◌<◌, ◌≤◌, ◌≡◌, refl, ◌∙◌, ap, List, [], ◌∷◌, ◌++◌, some, ltb, Bool, false, ◌&&◌,
  not, inl, inr, Option-cases, Bool-cases, if◌then◌else◌, length, get_elem?, get_elem?-of_lt,
  lt_of_get_elem?, take, drop, arith,
}
use asu_ascend.Common.Int.{ℤ, pos, negsuc, count, contains, count_of_get_elem?, index_of_count}
use asu_ascend.Lookup.{LookupState, returns, not_found, in_table, lookup_allocate_evict, resolve}
use asu_ascend.Lookup.Order.{sorted-rotated}
use asu_ascend.Lookup.Loop.{after_all, Installed, count-take-le}
use asu_ascend.Lookup.Scanning.{
  scanned, is_absent, miss_mask_at, slot_ids_at, length-slot_ids, misses_have,
}
use asu_ascend.Lookup.Spec.{
  IsValid, absent_tokens, tokens-scanned, queried_slots, free_slots, hit_set, hit_slots-queried,
  count-free_slots, count-free_slots_negsuc,
}
use asu_ascend.Lookup.Correct.{
  misses, length-misses, finished, finished-Installed, lookup_full, lookup_room,
}

-- The third loop rewrites the entries of the tokens in range, and no other.
resolve_in :
    (t2s query slot_ids : List ℤ) (j t : ℕ) {slot : ℤ}
    → length slot_ids ≡ length query
    → get_elem? query j ≡ some (pos t)
    → get_elem? t2s t ≡ some slot
    → get_elem? (resolve t2s query slot_ids) j ≡ some slot
unfolding resolve
resolve_in t2s [] ids j t e h g = ground arith
resolve_in t2s (x ∷ query) [] j t e h g = absurd (omega arith)
resolve_in t2s (x ∷ query) (i ∷ ids) zero t e h g = ground (arith, lt_of_get_elem? t2s t g)
resolve_in t2s (x ∷ query) (i ∷ ids) (suc j) t e h g =
    resolve_in t2s query ids j t (omega arith) h g

resolve_out :
    (t2s query slot_ids : List ℤ) (j : ℕ) {z : ℤ}
    → length slot_ids ≡ length query
    → get_elem? query j ≡ some z
    → in_table t2s z ≡ false
    → get_elem? (resolve t2s query slot_ids) j ≡ get_elem? slot_ids j
unfolding resolve
resolve_out t2s [] ids j e h g = ground arith
resolve_out t2s (x ∷ query) [] j e h g = absurd (omega arith)
resolve_out t2s (x ∷ query) (i ∷ ids) zero e h g = ground arith
resolve_out t2s (x ∷ query) (i ∷ ids) (suc j) e h g = resolve_out t2s query ids j (omega arith) h g

module _ (st : LookupState) (valid : IsValid st) (query : List ℤ) where
  open st use {token_to_slot as t2s, slot_to_token as s2t, lru_slots as lru}

  finished-IsValid :
      length (absent_tokens t2s [] query) ≤ length (free_slots st query)
      → IsValid (finished st valid query)
  finished-IsValid room =
      let done = finished-Installed st valid query room in
      let split = hit_slots-queried st valid query in
      record {
        linked = record {
          slot_holds = done.linked.slot_holds;
          token_knows = done.linked.token_knows;
          absent = done.linked.absent;
        };
        permutation =
            rw (done.same_slots, ← split.0, ← split.1)
              (sorted-rotated (length (misses st valid query)) (hit_set st valid query) lru
                ∙ valid.permutation);
      }

  module _ {ids : List ℤ} {mask : List Bool} {st' : LookupState}
      (done : lookup_allocate_evict query st ≡ returns (ids, mask) st') where
    had_room : length (absent_tokens t2s [] query) ≤ length (free_slots st query)
    had_room =
        elim (Bool-cases
          (ltb (length (free_slots st query)) (length (absent_tokens t2s [] query)))) [
            | inl e ↦ cc (lookup_full st valid query (ground arith))
            | inr e ↦ ground arith
          ]

    results :
        let found = scanned t2s 0 [] query in
        (st' ≡ finished st valid query)
        × (ids ≡ resolve st'.token_to_slot query found.slot_ids)
        × (mask ≡ found.miss_mask)
    results =
        let returned = lookup_room st valid query had_room in
        let same : st' ≡ finished st valid query = cc returned in
        (same, rw same (cc returned), cc returned)

    installed :
        Installed
          (misses st valid query)
          (free_slots st query)
          st
          (after_all (misses st valid query) (free_slots st query) st)
    installed = finished-Installed st valid query had_room

    same_token_to_slot :
        st'.token_to_slot
        ≡ (after_all (misses st valid query) (free_slots st query) st).token_to_slot
    same_token_to_slot = ap (λ s. s.token_to_slot) results.0

    -- Conditions: the state was valid and the call returned.
    -- The new state is valid, and its tables are as long as before.
    pub lookup-IsValid :
        IsValid st'
        × (length st'.slot_to_token ≡ length s2t)
        × (length st'.token_to_slot ≡ length t2s)
    lookup-IsValid =
        rw (results.0) (finished-IsValid had_room, installed.same_slots, installed.same_tokens)

    -- Conditions: the state was valid and the call returned. The new LRU list has the slots that the
    -- query did not use first, in their old order, then the slots given to missing tokens, in the
    -- order in which they were given, then the slots that the query hit, in their old order.
    pub lookup-lru_slots :
        let m = length (absent_tokens t2s [] query) in
        st'.lru_slots
        ≡ drop m (free_slots st query) ++ (take m (free_slots st query) ++ queried_slots st query)
    lookup-lru_slots = rw (results.0, length-misses st valid query)

    -- Conditions: the state was valid, the call returned, and `z` stands at position `j`. The position
    -- is marked as a miss exactly if `z` is a token in range that has no slot, at its first occurrence
    -- in the query.
    pub lookup-miss_mask :
        (j : ℕ) (z : ℤ)
        → get_elem? query j ≡ some z
        → get_elem? mask j ≡ some (is_absent t2s z && not (contains (take j query) z))
    lookup-miss_mask j z h = ground (arith, results.2, miss_mask_at t2s 0 [] query j z h)

    -- Conditions: the state was valid and the call returned. The k-th missing token, by first
    -- occurrence, gets the k-th slot of the old LRU list among those that the query does not hit.
    pub lookup_allocates :
        (k t v : ℕ)
        → get_elem? (absent_tokens t2s [] query) k ≡ some (pos t)
        → get_elem? (free_slots st query) k ≡ some (pos v)
        → get_elem? st'.token_to_slot t ≡ some (pos v)
    lookup_allocates k t v h g =
        rw same_token_to_slot (installed.placed k t v (rw (tokens-scanned t2s 0 [] query) h) g)

    -- Conditions: the state was valid, the call returned, and token `u` was in slot `s`. It is evicted
    -- if `s` is one of the slots given away, and keeps `s` otherwise.
    pub lookup_evicts :
        (u s : ℕ)
        → get_elem? t2s u ≡ some (pos s)
        → get_elem? st'.token_to_slot u
          ≡ some (
              if contains (take (length (absent_tokens t2s [] query)) (free_slots st query)) (pos s)
              then not_found
              else pos s)
    lookup_evicts u s h =
        rw (same_token_to_slot, ← length-misses st valid query)
          (ground (arith, installed.kept u s h, installed.evicted u s h))

    resident_stays :
        (j t s : ℕ)
        → get_elem? query j ≡ some (pos t)
        → get_elem? t2s t ≡ some (pos s)
        → get_elem? st'.token_to_slot t ≡ some (pos s)
    resident_stays j t s h g = ground (
      arith,
      lookup_evicts t s g,
      count-take-le (pos s) (length (absent_tokens t2s [] query)) (free_slots st query),
      count-free_slots st valid query s,
      valid.linked.slot_holds t s g,
      count_of_get_elem? query j (pos t) h,
    )

    ids_in :
        (j t : ℕ) {slot : ℤ}
        → get_elem? query j ≡ some (pos t)
        → get_elem? st'.token_to_slot t ≡ some slot
        → get_elem? ids j ≡ some slot
    ids_in j t h g =
        rw (results.1)
          (resolve_in st'.token_to_slot query _ j t (length-slot_ids t2s 0 [] query) h g)

    -- Conditions: the state was valid, the call returned, and position `j` holds a token that was in
    -- slot `s`. The position gets `s`: no token of the query is evicted by the query.
    pub lookup_resident :
        (j t s : ℕ)
        → get_elem? query j ≡ some (pos t)
        → get_elem? t2s t ≡ some (pos s)
        → get_elem? ids j ≡ some (pos s)
    lookup_resident j t s h g = ids_in j t h (resident_stays j t s h g)

    same_in_table : (z : ℤ) → in_table t2s z ≡ false → in_table st'.token_to_slot z ≡ false
    same_in_table z out = rw (lookup-IsValid.2) out

    -- Conditions: the state was valid, the call returned, and position `j` holds a number that is not in
    -- the range of tokens. The position gets -1.
    pub lookup_invalid :
        (j : ℕ) (z : ℤ)
        → get_elem? query j ≡ some z
        → in_table t2s z ≡ false
        → get_elem? ids j ≡ some not_found
    lookup_invalid j z h out =
        rw
          (
            results.1,
            resolve_out st'.token_to_slot query _ j (length-slot_ids t2s 0 [] query) h
                (same_in_table z out),
          )
          (slot_ids_at t2s 0 [] query j z h out)

    -- A missing token has been put into a slot.
    missing_placed :
        (j t k : ℕ)
        → get_elem? query j ≡ some (pos t)
        → get_elem? t2s t ≡ some (negsuc k)
        → (s : ℕ) × (get_elem? st'.token_to_slot t ≡ some (pos s))
    missing_placed j t k h g =
        let collected : 0 < count (pos t) (absent_tokens t2s [] query) =
          rw (tokens-scanned t2s 0 [] query) at
            (misses_have t2s 0 [] query t k (count_of_get_elem? query j (pos t) h) g refl) in
        let (i, at_i) = index_of_count (absent_tokens t2s [] query) (pos t) collected in
        let (z, slot) =
          get_elem?-of_lt (free_slots st query) i
            (omega (arith, had_room, lt_of_get_elem? (absent_tokens t2s [] query) i at_i)) in
        victim i at_i z slot
      where
        victim :
            (i : ℕ)
            → get_elem? (absent_tokens t2s [] query) i ≡ some (pos t)
            → (z : ℤ) → get_elem? (free_slots st query) i ≡ some z
            → (s : ℕ) × (get_elem? st'.token_to_slot t ≡ some (pos s))
        victim i at_i (pos v) slot = (v, lookup_allocates i t v at_i slot)
        victim i at_i (negsuc n) slot = absurd (
            omega (
              arith,
              count_of_get_elem? (free_slots st query) i (negsuc n) slot,
              count-free_slots_negsuc st valid query n,
            ))

    now_there :
        (j t : ℕ)
        → get_elem? query j ≡ some (pos t)
        → t < length t2s
        → (s : ℕ) × (get_elem? st'.token_to_slot t ≡ some (pos s))
    now_there j t h room = elim (Option-cases (get_elem? t2s t)) [
      | inl e ↦ absurd (ground (arith, get_elem?-of_lt t2s t))
      | inr (pos s, e) ↦ (s, resident_stays j t s h e)
      | inr (negsuc k, e) ↦ missing_placed j t k h e
    ]

    -- Conditions: the state was valid, the call returned, and position `j` holds a token in range. The
    -- position gets a slot, and in the new state the two tables link this slot and the token.
    pub lookup_answers :
        (j t : ℕ)
        → get_elem? query j ≡ some (pos t)
        → t < length t2s
        → (s : ℕ) × (get_elem? ids j ≡ some (pos s))
          × (get_elem? st'.token_to_slot t ≡ some (pos s))
          × (get_elem? st'.slot_to_token s ≡ some (pos t))
    lookup_answers j t h room =
        let (s, there) = now_there j t h room in
        (s, ids_in j t h there, there, lookup-IsValid.0.linked.slot_holds t s there)

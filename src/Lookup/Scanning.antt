-- ===== src/Lookup/Scanning.antt =====
-- The first loop of `lookup_allocate_evict`: on linked tables it never raises, and it collects
-- exactly the slots of the tokens that are there and the tokens that are not.
use asu_ascend.Common.{
  ℕ, zero, suc, ◌<◌, ◌≤◌, ◌≡◌, refl, List, [], ◌∷◌, Option, none, some, Bool, true, false, ◌&&◌,
  not, inl, inr, Option-cases, if◌then◌else◌, length, get_elem?, lt_of_get_elem?, get_elem?-of_lt,
  get_elem?-of_ge, take, arith,
}
use asu_ascend.Common.Int.{ℤ, pos, negsuc, count, contains}
use asu_ascend.Lookup.{
  LookupState, ok, not_found, Mark, skipped, repeated_miss, first_miss, hit, Scan, no_scan, note,
  pending_after, classify, scan, in_table,
}
use asu_ascend.Lookup.Tables.{IsLinked}
use asu_ascend.Lookup.Loop.{tokens}

abbrev mark_at : Option ℤ → List ℤ → ℕ → Mark
mark_at none pending t = skipped
mark_at (some (pos s)) pending t = hit (pos s)
mark_at (some (negsuc k)) pending t = if contains pending (pos t) then repeated_miss else first_miss

-- What `classify` finds on linked tables.
abbrev mark_of : List ℤ → List ℤ → ℤ → Mark
mark_of t2s pending (pos t) = mark_at (get_elem? t2s t) pending t
mark_of t2s pending (negsuc k) = skipped

-- What the loop collects on linked tables.
unfoldable pub scanned : List ℤ → ℕ → List ℤ → List ℤ → Scan
scanned t2s i pending [] = no_scan
scanned t2s i pending (token ∷ query) =
    let mark = mark_of t2s pending token in
    note i token mark (scanned t2s (suc i) (pending_after mark token pending) query)

module _ (st : LookupState) (linked : IsLinked st) where
  open st use {token_to_slot as t2s, slot_to_token as s2t}

  classify-mark_of :
      (pending : List ℤ) (token : ℤ)
      → classify (length s2t) t2s pending token ≡ ok (mark_of t2s pending token)
  unfolding classify
  classify-mark_of pending (negsuc k) = refl
  classify-mark_of pending (pos t) = elim (Option-cases (get_elem? t2s t)) [
    | inl e ↦ ground (arith, get_elem?-of_lt t2s t)
    | inr (pos s, e) ↦ ground (
      arith,
      lt_of_get_elem? t2s t {v = pos s},
      linked.slot_holds t s e,
      lt_of_get_elem? s2t s {v = pos t},
    )
    | inr (negsuc k, e) ↦ ground (arith, lt_of_get_elem? t2s t {v = negsuc k}, linked.absent t k e)
  ]

  -- The loop returns, and has collected `scanned`.
  pub scan-scanned :
      (i : ℕ) (pending query : List ℤ)
      → scan (length s2t) t2s i pending query ≡ ok (scanned t2s i pending query)
  unfolding scan scanned
  scan-scanned i pending [] = refl
  scan-scanned i pending (token ∷ query) = rw (
    classify-mark_of pending token,
    scan-scanned (suc i) (pending_after (mark_of t2s pending token) token pending) query,
  )

-- A token that the table holds room for and no slot of.
abbrev pub is_absent : List ℤ → ℤ → Bool
is_absent t2s (pos t) = elim (get_elem? t2s t) [ some (negsuc k) ↦ true | _ ↦ false ]
is_absent t2s (negsuc k) = false

module _ (t2s : List ℤ) where
  -- The loop's state behind the position of `token`.
  abbrev next_pending : List ℤ → ℤ → List ℤ
  next_pending pending token = pending_after (mark_of t2s pending token) token pending

  pub length-slot_ids :
      (i : ℕ) (pending query : List ℤ)
      → length (scanned t2s i pending query).slot_ids ≡ length query
  unfolding scanned
  length-slot_ids i pending [] = refl
  length-slot_ids i pending (token ∷ query) =
      ground (arith, length-slot_ids (suc i) (next_pending pending token) query)

  pub length-miss_mask :
      (i : ℕ) (pending query : List ℤ)
      → length (scanned t2s i pending query).miss_mask ≡ length query
  unfolding scanned
  length-miss_mask i pending [] = refl
  length-miss_mask i pending (token ∷ query) =
      ground (arith, length-miss_mask (suc i) (next_pending pending token) query)

  -- The slot of a queried resident is in the hit set, and the set has no other slot.
  pub hit_set_has :
      (i : ℕ) (pending query : List ℤ) (t s : ℕ)
      → 0 < count (pos t) query
      → get_elem? t2s t ≡ some (pos s)
      → 0 < count (pos s) (scanned t2s i pending query).hit_slot_set
  unfolding scanned
  hit_set_has i pending [] t s h e = absurd (omega arith)
  hit_set_has i pending (negsuc k ∷ query) t s h e =
      ground (arith, hit_set_has (suc i) (next_pending pending (negsuc k)) query t s)
  hit_set_has i pending (pos u ∷ query) t s h e =
      ground (arith, hit_set_has (suc i) (next_pending pending (pos u)) query t s)

  pub hit_set_only :
      (i : ℕ) (pending query : List ℤ) (s : ℕ)
      → ((t : ℕ) → get_elem? t2s t ≡ some (pos s) → count (pos t) query ≡ 0)
      → count (pos s) (scanned t2s i pending query).hit_slot_set ≡ 0
  unfolding scanned
  hit_set_only i pending [] s h = refl
  hit_set_only i pending (negsuc k ∷ query) s h = ground (
    arith,
    hit_set_only (suc i) (next_pending pending (negsuc k)) query s (λ t e. ground (arith, h t e)),
  )
  hit_set_only i pending (pos u ∷ query) s h = ground (
    arith,
    h u,
    hit_set_only (suc i) (next_pending pending (pos u)) query s (λ t e. ground (arith, h t e)),
  )

  -- A queried token that is missing and not pending is collected; what is collected was queried,
  -- is missing, and is collected once.
  pub misses_have :
      (i : ℕ) (pending query : List ℤ) (t k : ℕ)
      → 0 < count (pos t) query
      → get_elem? t2s t ≡ some (negsuc k)
      → count (pos t) pending ≡ 0
      → 0 < count (pos t) (tokens (scanned t2s i pending query).unique_misses)
  unfolding scanned
  misses_have i pending [] t k h e p = absurd (omega arith)
  misses_have i pending (negsuc j ∷ query) t k h e p =
      ground (arith, misses_have (suc i) (next_pending pending (negsuc j)) query t k)
  misses_have i pending (pos u ∷ query) t k h e p =
      ground (arith, misses_have (suc i) (next_pending pending (pos u)) query t k)

  pub misses_queried :
      (i : ℕ) (pending query : List ℤ) (z : ℤ)
      → count z (tokens (scanned t2s i pending query).unique_misses) ≤ count z query
  unfolding scanned
  misses_queried i pending [] z = omega arith
  misses_queried i pending (token ∷ query) z =
      ground (arith, misses_queried (suc i) (next_pending pending token) query z)

  pub misses_absent :
      (i : ℕ) (pending query : List ℤ) (z : ℤ)
      → is_absent t2s z ≡ false
      → count z (tokens (scanned t2s i pending query).unique_misses) ≡ 0
  unfolding scanned
  misses_absent i pending [] z h = refl
  misses_absent i pending (negsuc k ∷ query) z h =
      ground (arith, misses_absent (suc i) (next_pending pending (negsuc k)) query z)
  misses_absent i pending (pos t ∷ query) (negsuc k) h =
      ground (arith, misses_absent (suc i) (next_pending pending (pos t)) query (negsuc k))
  misses_absent i pending (pos t ∷ query) (pos u) h =
      ground (arith, misses_absent (suc i) (next_pending pending (pos t)) query (pos u))

  pub misses_once :
      (i : ℕ) (pending query : List ℤ) (t : ℕ)
      → count (pos t) (tokens (scanned t2s i pending query).unique_misses)
        ≤ (if contains pending (pos t) then 0 else 1)
  unfolding scanned
  misses_once i pending [] t = ground arith
  misses_once i pending (negsuc k ∷ query) t =
      ground (arith, misses_once (suc i) (next_pending pending (negsuc k)) query t)
  misses_once i pending (pos u ∷ query) t =
      ground (arith, misses_once (suc i) (next_pending pending (pos u)) query t)

  -- The mask is set at the first position of each missing token.
  pub miss_mask_at :
      (i : ℕ) (pending query : List ℤ) (j : ℕ) (z : ℤ)
      → get_elem? query j ≡ some z
      → get_elem? (scanned t2s i pending query).miss_mask j
        ≡ some (is_absent t2s z && not (contains pending z) && not (contains (take j query) z))
  unfolding scanned
  miss_mask_at i pending [] j z h = ground arith
  miss_mask_at i pending (negsuc k ∷ query) zero z h = ground arith
  miss_mask_at i pending (pos t ∷ query) zero z h = ground arith
  miss_mask_at i pending (negsuc k ∷ query) (suc j) z h =
      ground (arith, miss_mask_at (suc i) (next_pending pending (negsuc k)) query j z)
  miss_mask_at i pending (pos t ∷ query) (suc j) (negsuc k) h =
      ground (arith, miss_mask_at (suc i) (next_pending pending (pos t)) query j (negsuc k))
  miss_mask_at i pending (pos t ∷ query) (suc j) (pos u) h =
      ground (arith, miss_mask_at (suc i) (next_pending pending (pos t)) query j (pos u))

  -- An invalid token has `NOT_FOUND`.
  pub slot_ids_at :
      (i : ℕ) (pending query : List ℤ) (j : ℕ) (z : ℤ)
      → get_elem? query j ≡ some z
      → in_table t2s z ≡ false
      → get_elem? (scanned t2s i pending query).slot_ids j ≡ some not_found
  unfolding scanned
  slot_ids_at i pending [] j z h e = ground arith
  slot_ids_at i pending (negsuc k ∷ query) zero z h e = ground arith
  slot_ids_at i pending (pos t ∷ query) zero z h e = ground (arith, get_elem?-of_ge t2s t)
  slot_ids_at i pending (negsuc k ∷ query) (suc j) z h e =
      ground (arith, slot_ids_at (suc i) (next_pending pending (negsuc k)) query j z)
  slot_ids_at i pending (pos t ∷ query) (suc j) z h e =
      ground (arith, slot_ids_at (suc i) (next_pending pending (pos t)) query j z)

-- ===== src/Lookup/Counts.antt =====
-- How many misses a lookup marks, when no token stands twice in its query.
use asu_ascend.Common.{
  ℕ, suc, ◌+◌, ◌≤◌, ◌≡◌, refl, ◌∙◌, Bool, inl, inr, Bool-cases, List, [], ◌∷◌, length, arith,
}
use asu_ascend.Common.Arrays.{count_if}
use asu_ascend.Common.Int.{ℤ, pos, negsuc, count, ==ℤ_iff}
use asu_ascend.Lookup.{LookupState, lookup_allocate_evict, returns}
use asu_ascend.Lookup.Capacity.{lookup_fits_mask}
use asu_ascend.Lookup.Scanning.{scanned, is_absent}
use asu_ascend.Lookup.Spec.{IsValid, absent_tokens}
use asu_ascend.Lookup.Correct.{length-misses}

-- Without repetition, each absent entry is a missing token of its own.
pub length-absent_tokens :
    (t2s seen query : List ℤ)
    → ((z : ℤ) → count z seen + count z query ≤ 1)
    → length (absent_tokens t2s seen query) ≡ count_if (is_absent t2s) query
unfolding absent_tokens
length-absent_tokens t2s seen [] once = refl
length-absent_tokens t2s seen (z ∷ query) once = elim (Bool-cases (is_absent t2s z)) [
  | inl absent ↦ ground (
    arith,
    absent,
    once z,
    ==ℤ_iff z z,
    length-absent_tokens t2s (z ∷ seen) query (λ w. omega (arith, once w)),
  )
  | inr there ↦
      ground (arith, there, length-absent_tokens t2s seen query (λ w. omega (arith, once w)))
]

pub count_if-miss_mask :
    (t2s : List ℤ) (i : ℕ) (pending query : List ℤ)
    → let found = scanned t2s i pending query in
      count_if (λ b. b) found.miss_mask ≡ length found.unique_misses
unfolding scanned
count_if-miss_mask t2s i pending [] = refl
count_if-miss_mask t2s i pending (negsuc k ∷ query) =
    ground (arith, count_if-miss_mask t2s (suc i) pending query)
count_if-miss_mask t2s i pending (pos t ∷ query) = ground (
  arith,
  count_if-miss_mask t2s (suc i) pending query,
  count_if-miss_mask t2s (suc i) (pos t ∷ pending) query,
)

-- A query without repetition on a valid state with a slot for each position: the lookup returns, and
-- marks as many misses as the query has absent tokens.
pub lookup_marks :
    (st : LookupState) (query : List ℤ)
    → IsValid st
    → length query ≤ length st.slot_to_token
    → ((z : ℤ) → count z query ≤ 1)
    → (ids : List ℤ) × (mask : List Bool) × (st' : LookupState) × (lookup_allocate_evict query st
        ≡ returns (ids, mask) st')
      × (count_if (λ b. b) mask ≡ count_if (is_absent st.token_to_slot) query)
lookup_marks st query valid short once =
    let (ids, st', run) = lookup_fits_mask st valid query short in
    (
      ids,
      (scanned st.token_to_slot 0 [] query).miss_mask,
      st',
      run,
      count_if-miss_mask st.token_to_slot 0 [] query
          ∙ length-misses st valid query
          ∙ length-absent_tokens st.token_to_slot [] query (λ z. omega (arith, once z)),
    )

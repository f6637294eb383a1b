-- ===== src/Workload/Cases.antt =====
-- A random case: its states are valid, and the reference lookup returns on each request, with as many
-- misses as the case was made for.
use asu_ascend.Common.{
  ℕ, zero, suc, ◌+◌, ◌-◌, ◌≤◌, ◌≡◌, refl, ap, ◌∙◌, Bool, not, List, [], ◌∷◌, some, none, ltb,
  length, get_elem?, length-replicate, replicate, if◌then◌else◌, arith,
}
use asu_ascend.Common.Arrays.{
  arange, count_if, length-arange, get_elem?-arange, get_elem?-replicate, assign-arange,
}
use asu_ascend.Common.Int.{ℤ, pos, negsuc}
use asu_ascend.Common.Random.{Random}
use asu_ascend.Common.Results.{ok}
use asu_ascend.Lookup
use asu_ascend.Lookup.{LookupState, lookup_allocate_evict, returns, sorted, slots}
use asu_ascend.Lookup.Counts.{lookup_marks}
use asu_ascend.Lookup.Order.{sorted-run}
use asu_ascend.Lookup.Scanning.{is_absent}
use asu_ascend.Lookup.Spec.{IsValid}
use asu_ascend.Workload.{
  Sizes, AreSizes, RandomLookupCase, resident_state, random_rows, make_random_case,
  validate_hit_count, index_error, shape_error,
}
use asu_ascend.Workload.Queries.{
  IsRandomQuery, is_resident, is_token, make_random_query_row-IsRandomQuery,
}

-- Every slot holds the token of its number, and no other token has a slot.
record IsResident (s : Sizes) (st : LookupState) : Type 0 where
  valid : IsValid st
  tokens_length : length st.token_to_slot ≡ s.index_size
  slots_length : length st.slot_to_token ≡ s.slot_count
  at_token :
      (t : ℕ)
      → get_elem? st.token_to_slot t ≡ (
          if ltb t s.slot_count
          then some (pos t)
          else if ltb t s.index_size
          then some Lookup.not_found
          else none)

resident_state-IsResident :
    (s : Sizes) → AreSizes s → (st : LookupState) × (resident_state s ≡ ok st) × IsResident s st
unfolding resident_state
resident_state-IsResident s sizes =
    let (token_to_slot, run, done) =
      assign-arange index_error shape_error (replicate s.index_size Lookup.not_found) 0 0
        s.slot_count
        (omega (arith, length-replicate s.index_size Lookup.not_found, sizes.misses_fit)) in
    let st : LookupState = record {
      token_to_slot = token_to_slot;
      slot_to_token = arange 0 s.slot_count;
      lru_slots = arange 0 s.slot_count;
    } in
    (
      st,
      ground (arith, run),
      record {
        valid = record {
          linked = record {
            slot_holds = λ t x h. ground (
              arith,
              done.entries t,
              get_elem?-replicate s.index_size Lookup.not_found t,
              get_elem?-arange 0 s.slot_count x,
            );
            token_knows = λ x t h. ground (
              arith,
              done.entries t,
              get_elem?-replicate s.index_size Lookup.not_found t,
              get_elem?-arange 0 s.slot_count x,
            );
            absent = λ t k h.
                ground (arith, done.entries t, get_elem?-replicate s.index_size Lookup.not_found t);
          };
          permutation = rw (length-arange 0 s.slot_count) (sorted-run 0 s.slot_count);
        };
        tokens_length = done.same_length ∙ length-replicate s.index_size Lookup.not_found;
        slots_length = length-arange 0 s.slot_count;
        at_token = λ t.
            ground (arith, done.entries t, get_elem?-replicate s.index_size Lookup.not_found t);
      },
    )

-- What a request of a random case is: a valid state with tables of the two sizes, a query with the hits that were asked for, and a
-- lookup that returns and marks the others as misses.
pub record IsCaseRow (s : Sizes) (hits : ℕ) (st : LookupState) (query : List ℤ) : Type 0 where
  pub valid : IsValid st
  pub tokens_length : length st.token_to_slot ≡ s.index_size
  pub slots_length : length st.slot_to_token ≡ s.slot_count
  pub random_query : IsRandomQuery s hits query
  pub looked_up :
      (ids : List ℤ) × (mask : List Bool) × (st' : LookupState) × (lookup_allocate_evict query st
        ≡ returns (ids, mask) st')
      × (count_if (λ b. b) mask ≡ s.query_count - hits)

abbrev pub AreCaseRows : Sizes → ℕ → List (LookupState × List ℤ) → Type 0
AreCaseRows s hits [] = Unit
AreCaseRows s hits ((st, query) ∷ rows) = IsCaseRow s hits st query × AreCaseRows s hits rows

module _ (s : Sizes) (sizes : AreSizes s) where
  -- Every entry of a query is resident, or absent, or no token.
  count_if-absent :
      (st : LookupState) (query : List ℤ)
      → IsResident s st
      → count_if (is_absent st.token_to_slot) query
          + count_if (is_resident s) query
          + count_if (λ z. not (is_token s z)) query
        ≡ length query
  count_if-absent st [] resident = refl
  count_if-absent st (pos t ∷ query) resident =
      ground (arith, resident.at_token t, sizes.misses_fit, count_if-absent st query resident)
  count_if-absent st (negsuc k ∷ query) resident = ground (arith, count_if-absent st query resident)

  IsResident-IsCaseRow :
      (hits : ℕ) (st : LookupState) (query : List ℤ)
      → IsResident s st
      → IsRandomQuery s hits query
      → IsCaseRow s hits st query
  IsResident-IsCaseRow hits st query resident random_query =
      let (ids, mask, st', run, marks) =
        lookup_marks st query resident.valid
          (omega (arith, random_query.full, resident.slots_length, sizes.hits_fit))
          random_query.once in
      record {
        valid = resident.valid;
        tokens_length = resident.tokens_length;
        slots_length = resident.slots_length;
        random_query = random_query;
        looked_up = (
          ids,
          mask,
          st',
          run,
          omega (
            arith,
            marks,
            count_if-absent st query resident,
            random_query.full,
            random_query.hits,
            random_query.in_range,
          ),
        );
      }

  module _ (random : Random) (hits : ℕ) (seed : ℤ) (case_id : ℕ) (fits : hits ≤ s.query_count) where
    random_rows-AreCaseRows :
        (req_id n : ℕ)
        → (rows : List (LookupState × List ℤ)) × (random_rows s random
              (pos hits)
              seed
              case_id
              req_id
              n
            ≡ ok rows)
          × (length rows ≡ n)
          × AreCaseRows s hits rows
    unfolding random_rows
    random_rows-AreCaseRows req_id zero = ([], refl, refl, tt)
    random_rows-AreCaseRows req_id (suc n) =
        let (st, made, resident) = resident_state-IsResident s sizes in
        let (query, drawn, random_query) =
          make_random_query_row-IsRandomQuery s sizes random hits seed case_id req_id fits in
        let (rows, run, many, all) = random_rows-AreCaseRows (suc req_id) n in
        (
          (st, query) ∷ rows,
          rw (made, drawn, run) refl,
          ap suc many,
          (IsResident-IsCaseRow hits st query resident random_query, all),
        )

    -- Conditions: the sizes leave room for hits and misses, the hit count is at most QUERY_COUNT, and
    -- the number of requests is positive. The case is made, with one row for each request. In each row
    -- the state is valid, with tables of INDEX_SIZE and SLOT_COUNT entries; the query has QUERY_COUNT tokens in range, none of them twice, of which the hit
    -- count has slots; and the reference lookup returns on it and marks all others, and only as many, as
    -- misses.
    pub make_random_case-AreCaseRows :
        (n : ℕ)
        → (case : RandomLookupCase) × (make_random_case s random
              (pos (suc n))
              (pos hits)
              seed
              case_id
            ≡ ok case)
          × (length case.rows ≡ suc n)
          × (case.hit_count ≡ hits)
          × (case.miss_count + hits ≡ s.query_count)
          × AreCaseRows s hits case.rows
    unfolding make_random_case validate_hit_count
    make_random_case-AreCaseRows n =
        let (rows, run, many, all) = random_rows-AreCaseRows 0 (suc n) in
        (
          record {
            rows = rows;
            hit_count = hits;
            miss_count = s.query_count - hits;
            seed = seed;
            case_id = case_id;
          },
          ground (arith, fits, run),
          many,
          refl,
          omega (arith, fits),
          all,
        )

-- ===== src/Scripts/Positions.antt =====
-- The positions of a query whose tokens are not resident, as validate_lookup_simt.py and
-- profile_lookup_simt.py list them.
use asu_ascend.Common.{
  ℕ, suc, ◌+◌, ◌≤◌, ◌≡◌, refl, not, List, [], ◌∷◌, if◌then◌else◌, length, arith,
}
use asu_ascend.Common.Arrays.{count_if, count_if-not}
use asu_ascend.Common.Int.{ℤ, pos, negsuc, ltb_ℤ}
use asu_ascend.Common.Random.{Random}
use asu_ascend.Common.Results.{ok}
use asu_ascend.Workload.{Sizes, AreSizes, make_random_query_row}
use asu_ascend.Workload.Queries.{is_resident, is_token, make_random_query_row-IsRandomQuery}

-- The positions with a token of at least `slot_count`, from a position on.
unfoldable pub positions_from : ℕ → ℕ → List ℤ → List ℕ
positions_from slot_count i [] = []
positions_from slot_count i (token ∷ query) =
    let rest = positions_from slot_count (suc i) query in
    if ltb_ℤ token (pos slot_count) then rest else i ∷ rest

module _ (s : Sizes) where
  -- Where every token is in range, these are the positions without a resident token.
  length-positions_from :
      (i : ℕ) (query : List ℤ)
      → count_if (λ z. not (is_token s z)) query ≡ 0
      → length (positions_from s.slot_count i query) ≡ count_if (λ z. not (is_resident s z)) query
  unfolding positions_from
  length-positions_from i [] h = refl
  length-positions_from i (pos t ∷ query) h = ground (arith, length-positions_from (suc i) query)
  length-positions_from i (negsuc k ∷ query) h = absurd (omega (arith, h))

  -- Conditions: the sizes leave room for hits and misses, and the hit count is at most QUERY_COUNT. The
  -- query is drawn, and as many positions are listed as misses are left of QUERY_COUNT, whatever the
  -- generator draws.
  pub positions_from-misses :
      (random : Random) (hits : ℕ) (seed : ℤ) (case_id req_id : ℕ)
      → AreSizes s
      → hits ≤ s.query_count
      → (query : List ℤ) × (make_random_query_row s random (pos hits) seed case_id req_id
          ≡ ok query)
        × (length (positions_from s.slot_count 0 query) + hits ≡ s.query_count)
  positions_from-misses random hits seed case_id req_id sizes fits =
      let (query, drawn, random_query) =
        make_random_query_row-IsRandomQuery s sizes random hits seed case_id req_id fits in
      (
        query,
        drawn,
        omega (
          arith,
          length-positions_from 0 query random_query.in_range,
          count_if-not (is_resident s) query,
          random_query.hits,
          random_query.full,
        ),
      )

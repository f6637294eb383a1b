-- ===== src/Workload/Queries.antt =====
-- A random query: as long as asked, without repetition, in range, and with as many hits as asked.
use asu_ascend.Common.{
  ℕ, ◌+◌, ◌-◌, ◌≤◌, ◌≡◌, refl, Bool, false, not, List, ◌++◌, ltb, length, length-append, arith,
}
use asu_ascend.Common.Arrays.{
  arange, count_if, count_if-append, count_if-not, count-count_if, count_if-arange, count-arange,
  length-arange,
}
use asu_ascend.Common.Int.{ℤ, pos, negsuc, ◌==ℤ◌, count}
use asu_ascend.Common.Random.{Random}
use asu_ascend.Common.Results.{ok}
use asu_ascend.Workload.{Sizes, AreSizes, row_seed, make_random_query_row}

-- A token that is resident in the state of a random case, and one that has an entry at all.
abbrev pub is_resident : Sizes → ℤ → Bool
is_resident s (pos t) = ltb t s.slot_count
is_resident s (negsuc k) = false

abbrev pub is_token : Sizes → ℤ → Bool
is_token s (pos t) = ltb t s.index_size
is_token s (negsuc k) = false

pub record IsRandomQuery (s : Sizes) (hit_count : ℕ) (query : List ℤ) : Type 0 where
  pub full : length query ≡ s.query_count
  pub once : (z : ℤ) → count z query ≤ 1
  pub in_range : count_if (λ z. not (is_token s z)) query ≡ 0
  pub hits : count_if (is_resident s) query ≡ hit_count

module _ (s : Sizes) (sizes : AreSizes s) (random : Random) where
  open random use {Rng, sample, length-sample, sample_part, shuffle, shuffle_keeps}
  open s use {slot_count, index_size, query_count}

  abbrev other_tokens : List ℤ
  other_tokens = arange slot_count (index_size - slot_count)

  length-shuffle : (l : List ℤ) (rng : Rng) → length (shuffle l rng).0 ≡ length l
  length-shuffle l rng =
      let p : ℤ → Bool = is_resident s in
      omega (
        arith,
        count_if-not p (shuffle l rng).0,
        count_if-not p l,
        shuffle_keeps p l rng,
        shuffle_keeps (λ z. not (p z)) l rng,
      )

  module _ (k : ℕ) (k_fits : k ≤ query_count) (rng rng1 rng2 : Rng) where
    hits_enough : k ≤ length (arange 0 slot_count)
    hits_enough = omega (arith, length-arange 0 slot_count, sizes.hits_fit, k_fits)

    misses_enough : query_count - k ≤ length other_tokens
    misses_enough =
        omega (arith, length-arange slot_count (index_size - slot_count), sizes.misses_fit)

    abbrev drawn : List ℤ
    drawn = (sample (arange 0 slot_count) k rng).0 ++ (sample other_tokens (query_count - k) rng1).0

    -- No test holds more often of what was drawn than of the two populations.
    count_if-drawn :
        (p : ℤ → Bool)
        → count_if p (shuffle drawn rng2).0
          ≤ count_if p (arange 0 slot_count) + count_if p other_tokens
    count_if-drawn p = omega (
      arith,
      shuffle_keeps p drawn rng2,
      count_if-append p (sample (arange 0 slot_count) k rng).0
          (sample other_tokens (query_count - k) rng1).0,
      sample_part p (arange 0 slot_count) k rng hits_enough,
      sample_part p other_tokens (query_count - k) rng1 misses_enough,
    )

    drawn_once : (z : ℤ) → count z (shuffle drawn rng2).0 ≤ 1
    drawn_once (pos t) = ground (
      arith,
      count-count_if (pos t) (shuffle drawn rng2).0,
      count_if-drawn (λ x. x ==ℤ pos t),
      count-count_if (pos t) (arange 0 slot_count),
      count-count_if (pos t) other_tokens,
      count-arange 0 slot_count t,
      count-arange slot_count (index_size - slot_count) t,
    )
    drawn_once (negsuc j) = omega (
      arith,
      count-count_if (negsuc j) (shuffle drawn rng2).0,
      count_if-drawn (λ x. x ==ℤ negsuc j),
      count_if-arange (λ x. x ==ℤ negsuc j) 0 slot_count (λ i low high. refl),
      count_if-arange (λ x. x ==ℤ negsuc j) slot_count (index_size - slot_count)
          (λ i low high. refl),
    )

    drawn_in_range : count_if (λ z. not (is_token s z)) (shuffle drawn rng2).0 ≡ 0
    drawn_in_range = omega (
      arith,
      count_if-drawn (λ z. not (is_token s z)),
      count_if-arange (λ z. not (is_token s z)) 0 slot_count
          (λ i low high. ground (arith, sizes.misses_fit)),
      count_if-arange (λ z. not (is_token s z)) slot_count (index_size - slot_count)
          (λ i low high. ground (arith, sizes.misses_fit)),
    )

    drawn_hits : count_if (is_resident s) (shuffle drawn rng2).0 ≡ k
    drawn_hits =
        let hits = (sample (arange 0 slot_count) k rng).0 in
        let misses = (sample other_tokens (query_count - k) rng1).0 in
        omega (
          arith,
          shuffle_keeps (is_resident s) drawn rng2,
          count_if-append (is_resident s) hits misses,
          count_if-not (is_resident s) hits,
          length-sample (arange 0 slot_count) k rng hits_enough,
          sample_part (λ z. not (is_resident s z)) (arange 0 slot_count) k rng hits_enough,
          count_if-arange (λ z. not (is_resident s z)) 0 slot_count (λ i low high. ground arith),
          sample_part (is_resident s) other_tokens (query_count - k) rng1 misses_enough,
          count_if-arange (is_resident s) slot_count (index_size - slot_count)
              (λ i low high. ground arith),
        )

    drawn-IsRandomQuery : IsRandomQuery s k (shuffle drawn rng2).0
    drawn-IsRandomQuery = record {
      full = omega (
        arith,
        length-shuffle drawn rng2,
        length-append (sample (arange 0 slot_count) k rng).0
            (sample other_tokens (query_count - k) rng1).0,
        length-sample (arange 0 slot_count) k rng hits_enough,
        length-sample other_tokens (query_count - k) rng1 misses_enough,
        k_fits,
      );
      once = drawn_once;
      in_range = drawn_in_range;
      hits = drawn_hits;
    }

  pub make_random_query_row-IsRandomQuery :
      (k : ℕ) (seed : ℤ) (case_id req_id : ℕ)
      → k ≤ query_count
      → (query : List ℤ) × (make_random_query_row s random (pos k) seed case_id req_id ≡ ok query)
        × IsRandomQuery s k query
  unfolding make_random_query_row
  make_random_query_row-IsRandomQuery k seed case_id req_id k_fits =
      let rng = random.seeded (pos (row_seed seed case_id req_id)) in
      let rng1 = (sample (arange 0 slot_count) k rng).1 in
      let rng2 = (sample other_tokens (query_count - k) rng1).1 in
      (
        (shuffle (drawn k k_fits rng rng1 rng2) rng2).0,
        ground (
          arith,
          k_fits,
          hits_enough k k_fits rng rng1 rng2,
          misses_enough k k_fits rng rng1 rng2,
        ),
        drawn-IsRandomQuery k k_fits rng rng1 rng2,
      )

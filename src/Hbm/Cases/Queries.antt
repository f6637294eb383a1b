-- ===== src/Hbm/Cases/Queries.antt =====
-- The queries that `make_query` makes: they fit the index and the array that they fill.
use Prim.Native.String.{String}
use text.Mathlib.Text.{◌==◌ as str_eq}
use native.Mathlib.Nat.{mod-lt}
use asu_ascend.Common.{
  ℕ, zero, suc, ◌+◌, ◌*◌, ◌/◌, ◌%◌, ◌<◌, ◌≡◌, refl, ap, ◌∙◌, inl, inr, Bool, true, ◌||◌, Bool-cases,
  some, List, [], ◌∷◌, ◌++◌, map, length, get_elem?, set, take, length-set, length-take,
  length-append, get_elem?-of_lt, range_from, arith,
}
use asu_ascend.Common.Results.{ok}
use asu_ascend.Hbm.Rows.{AllBelow}
use asu_ascend.Hbm.Cases.{
  Sizes, AreSizes, copy_entry, hit_query, miss_query, mixed_query, make_query,
}

-- The patterns that `make_query` knows.
abbrev pub is_pattern : String → Bool
is_pattern p = str_eq p "hit" || (str_eq p "miss" || str_eq p "mixed")

-- A query that fits: tokens in range, as many as the array has.
pub record IsQuery (s : Sizes) (query : List ℕ) : Type 0 where
  pub below : AllBelow s.index_size query
  pub full : length query ≡ s.query_count

AllBelow-map :
    (n : ℕ) (f : ℕ → ℕ) (a k : ℕ) → ((i : ℕ) → f i < n) → AllBelow n (map f (range_from a k))
AllBelow-map n f a zero h = tt
AllBelow-map n f a (suc k) h = (h a, AllBelow-map n f (suc a) k h)

length-map-range_from : (f : ℕ → ℕ) (a k : ℕ) → length (map f (range_from a k)) ≡ k
length-map-range_from f a zero = refl
length-map-range_from f a (suc k) = ap suc (length-map-range_from f (suc a) k)

AllBelow-take : (n k : ℕ) (query : List ℕ) → AllBelow n query → AllBelow n (take k query)
AllBelow-take n zero query h = tt
AllBelow-take n (suc k) [] h = tt
AllBelow-take n (suc k) (t ∷ query) (here, there) = (here, AllBelow-take n k query there)

AllBelow-append :
    (n : ℕ) (front back : List ℕ) → AllBelow n front → AllBelow n back → AllBelow n (front ++ back)
AllBelow-append n [] back h h' = h'
AllBelow-append n (t ∷ front) back (here, there) h' = (here, AllBelow-append n front back there h')

AllBelow-set :
    (n : ℕ) (query : List ℕ) (i v : ℕ) → AllBelow n query → v < n → AllBelow n (set query i v)
AllBelow-set n [] i v h inside = tt
AllBelow-set n (t ∷ query) zero v (here, there) inside = (inside, there)
AllBelow-set n (t ∷ query) (suc i) v (here, there) inside =
    (here, AllBelow-set n query i v there inside)

lt_of_AllBelow :
    (n : ℕ) (query : List ℕ) (i v : ℕ) → AllBelow n query → get_elem? query i ≡ some v → v < n
lt_of_AllBelow n [] i v h at_i = ground arith
lt_of_AllBelow n (t ∷ query) zero v (here, there) at_i = ground arith
lt_of_AllBelow n (t ∷ query) (suc i) v (here, there) at_i = lt_of_AllBelow n query i v there at_i

module _ (s : Sizes) where
  copy_entry-IsQuery :
      (to at_ : ℕ) (query : List ℕ)
      → IsQuery s query
      → to < s.query_count
      → at_ < s.query_count
      → (query' : List ℕ) × (copy_entry to at_ query ≡ ok query') × IsQuery s query'
  unfolding copy_entry
  copy_entry-IsQuery to at_ query is_query to_in at_in =
      let (v, at_v) = get_elem?-of_lt query at_ (omega (arith, is_query.full)) in
      (
        set query to v,
        ground (arith, at_v, is_query.full),
        record {
          below =
              AllBelow-set s.index_size query to v is_query.below
                (lt_of_AllBelow s.index_size query at_ v is_query.below at_v);
          full = length-set query to v ∙ is_query.full;
        },
      )

module _ (s : Sizes) (sizes : AreSizes s) where
  hit_query-IsQuery : IsQuery s (hit_query s)
  unfolding hit_query
  hit_query-IsQuery = record {
    below =
        AllBelow-map s.index_size (λ i. i % s.resident_slot_count) 0 s.query_count
          (λ i. omega (
            arith,
            mod-lt i {m = s.resident_slot_count}
                (omega (arith, sizes.at_least_eight, sizes.as_many_residents)),
            sizes.residents_first,
            sizes.misses_fit,
          ));
    full = length-map-range_from (λ i. i % s.resident_slot_count) 0 s.query_count;
  }

  miss_query-IsQuery : (req_id : ℕ) → IsQuery s (miss_query s req_id)
  unfolding miss_query
  miss_query-IsQuery req_id = record {
    below =
        AllBelow-map s.index_size (λ i. (20000 + req_id * 3000 + i) % s.index_size) 0 s.query_count
          (λ i. mod-lt (20000 + req_id * 3000 + i) (omega (arith, sizes.misses_fit)));
    full = length-map-range_from (λ i. (20000 + req_id * 3000 + i) % s.index_size) 0 s.query_count;
  }

  mixed_query-IsQuery :
      (req_id : ℕ) → (query : List ℕ) × (mixed_query s req_id ≡ ok query) × IsQuery s query
  unfolding mixed_query
  mixed_query-IsQuery req_id =
      let half : ℕ = s.query_count / 2 in
      let hits = hit_query-IsQuery in
      let misses = miss_query-IsQuery req_id in
      let front = take half (hit_query s) in
      let back = take half (miss_query s req_id) in
      let joined : IsQuery s (front ++ back) = record {
        below =
            AllBelow-append s.index_size front back
              (AllBelow-take s.index_size half (hit_query s) hits.below)
              (AllBelow-take s.index_size half (miss_query s req_id) misses.below);
        full = omega (
          arith,
          length-append front back,
          length-take half (hit_query s),
          length-take half (miss_query s req_id),
          hits.full,
          misses.full,
          sizes.halves,
        );
      } in
      let (q1, run1, is1) =
        copy_entry-IsQuery s (half + 1) half (front ++ back) joined
          (omega (arith, sizes.at_least_eight)) (omega (arith, sizes.at_least_eight)) in
      let (q2, run2, is2) =
        copy_entry-IsQuery s (half + 3) (half + 2) q1 is1 (omega (arith, sizes.at_least_eight))
          (omega (arith, sizes.at_least_eight)) in
      (q2, ground (arith, run1, run2, sizes.halves), is2)

  pub make_query-IsQuery :
      (p : String) (req_id : ℕ)
      → is_pattern p ≡ true
      → (query : List ℕ) × (make_query s p req_id ≡ ok query) × IsQuery s query
  unfolding make_query
  make_query-IsQuery p req_id known = elim (Bool-cases (str_eq p "hit")) [
    | inl hit ↦ (hit_query s, rw hit, hit_query-IsQuery)
    | inr not_hit ↦ elim (Bool-cases (str_eq p "miss")) [
      | inl miss ↦ (miss_query s req_id, rw (not_hit, miss), miss_query-IsQuery req_id)
      | inr not_miss ↦
          let (query, run, is_query) = mixed_query-IsQuery req_id in
          (query, ground (arith, not_hit, not_miss, known, run), is_query)
    ]
  ]

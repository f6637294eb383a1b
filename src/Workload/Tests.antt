-- ===== src/Workload/Tests.antt =====
-- A generator that always draws what comes first, and the theorems at the sizes of the source.
use asu_ascend.Common.{
  ℕ, zero, suc, ◌+◌, ◌≤◌, ◌≡◌, refl, Bool, List, [], ◌∷◌, length, take, length-take, arith,
}
use asu_ascend.Common.Arrays.{count_if}
use asu_ascend.Common.Int.{ℤ, pos, negsuc}
use asu_ascend.Common.Random.{Random}
use asu_ascend.Common.Results.{ok, err}
use asu_ascend.Common.Words.{xor_bits}
use asu_ascend.Workload.{
  Sizes, AreSizes, source_sizes, RandomLookupCase, make_random_case, make_random_query_row,
  row_seed, validate_hit_count, hit_count_out_of_range,
}
use asu_ascend.Workload.Cases.{AreCaseRows, make_random_case-AreCaseRows}
use asu_ascend.Workload.Seeds.{row_seed_injective}

pub count_if-take-le : (p : ℤ → Bool) (k : ℕ) (l : List ℤ) → count_if p (take k l) ≤ count_if p l
count_if-take-le p zero l = omega arith
count_if-take-le p (suc k) [] = omega arith
count_if-take-le p (suc k) (x ∷ l) = omega (arith, count_if-take-le p k l)

pub length-take_all : (l : List ℤ) (k : ℕ) → k ≤ length l → length (take k l) ≡ k
length-take_all l k enough = omega (arith, length-take k l)

abbrev pub first_come : Random
first_come = record {
  Rng = ℤ;
  seeded = λ seed. seed;
  sample = λ l k rng. (take k l, rng);
  length-sample = λ l k rng enough. length-take_all l k enough;
  sample_part = λ p l k rng enough. count_if-take-le p k l;
  shuffle = λ l rng. (l, rng);
  shuffle_keeps = λ p l rng. refl;
}

pub source_sizes-AreSizes : AreSizes source_sizes
source_sizes-AreSizes = record { hits_fit = omega arith; misses_fit = omega arith }

-- Sizes for a run by hand.
abbrev small : Sizes
small = record { index_size = 9; slot_count = 4; query_count = 3 }

make_random_query_row-small :
    make_random_query_row small first_come (pos 2) (pos 5) 0 0 ≡ ok (pos 0 ∷ pos 1 ∷ pos 4 ∷ [])
unfolding make_random_query_row
make_random_query_row-small = refl

validate_hit_count-small :
    validate_hit_count small (negsuc 0) ≡ err (hit_count_out_of_range (negsuc 0))
unfolding validate_hit_count
validate_hit_count-small = refl

row_seed-one : row_seed (negsuc 0) 0 0 ≡ 0xA37A28735DC0DE37
unfolding row_seed xor_bits
row_seed-one = refl

make_random_case-AreCaseRows_example :
    (case : RandomLookupCase) × (make_random_case source_sizes first_come
        (pos 2)
        (pos 1843)
        (pos 20260724)
        0
      ≡ ok case)
    × (length case.rows ≡ 2)
    × (case.hit_count ≡ 1843)
    × (case.miss_count + 1843 ≡ 2048)
    × AreCaseRows source_sizes 1843 case.rows
make_random_case-AreCaseRows_example =
    make_random_case-AreCaseRows source_sizes source_sizes-AreSizes first_come 1843 (pos 20260724) 0
      (omega arith) 1

row_seed_injective_example : ◌≡◌ {A = ℕ} 3 3
row_seed_injective_example = row_seed_injective (pos 7) 1 3 3 (omega arith) (omega arith) refl

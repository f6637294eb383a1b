-- ===== src/Common/Random.antt =====
-- Python's `random.Random`, a generator that the code seeds and draws from, with what its
-- documentation promises of the draws.
use asu_ascend.Common.{ℕ, ◌≤◌, ◌≡◌, Bool, List, length}
use asu_ascend.Common.Arrays.{count_if}
use asu_ascend.Common.Int.{ℤ}

pub record Random : Type 1 where
  pub Rng : Type 0
  -- `random.Random(seed)`
  pub seeded : ℤ → Rng
  -- `rng.sample(population, k)`: different positions of the population.
  pub sample : List ℤ → ℕ → Rng → List ℤ × Rng
  pub length-sample :
      (l : List ℤ) (k : ℕ) (rng : Rng) → k ≤ length l → length (sample l k rng).0 ≡ k
  pub sample_part :
      (p : ℤ → Bool) (l : List ℤ) (k : ℕ) (rng : Rng)
      → k ≤ length l
      → count_if p (sample l k rng).0 ≤ count_if p l
  -- `rng.shuffle(l)`: the same entries, in some order.
  pub shuffle : List ℤ → Rng → List ℤ × Rng
  pub shuffle_keeps :
      (p : ℤ → Bool) (l : List ℤ) (rng : Rng) → count_if p (shuffle l rng).0 ≡ count_if p l

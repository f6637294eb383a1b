-- ===== src/Workload.antt =====
-- pta-ops/asu_hbm_index_lookup_simt/python/random_workload.py: the random states and queries that the
-- SIMT lookup operator is tried on. Python's generator of random numbers is a parameter. The three sizes
-- at the file's top are a record.
pub mod Seeds
pub mod Queries
pub mod Cases
pub mod Tests
use asu_ascend.Common.{
  ℕ, zero, suc, ◌+◌, ◌-◌, ◌*◌, ◌%◌, ◌^◌, ◌≤◌, ◌≡◌, Bool, ◌||◌, none, some, List, [], ◌∷◌, ◌++◌, ltb,
  ◌==◌, if◌then◌else◌, length, replicate,
}
use asu_ascend.Common.Arrays.{arange, assign}
use asu_ascend.Common.Int.{ℤ, pos, negsuc, ltb_ℤ}
use asu_ascend.Common.Random.{Random}
use asu_ascend.Common.Results.{Fallible, ok, err, ◌>>=◌, ◌>>◌, raise_if}
use asu_ascend.Common.Words.{xor_bits}
use asu_ascend.Lookup
use asu_ascend.Lookup.{LookupState}

-- INDEX_SIZE, SLOT_COUNT and QUERY_COUNT.
pub record Sizes : Type 0 where
  pub index_size : ℕ
  pub slot_count : ℕ
  pub query_count : ℕ

abbrev pub source_sizes : Sizes
source_sizes = record { index_size = 128 * 1024; slot_count = 10 * 1024; query_count = 2 * 1024 }

-- What the functions need of the sizes: enough tokens for hits and for misses.
pub record AreSizes (s : Sizes) : Type 0 where
  pub hits_fit : s.query_count ≤ s.slot_count
  pub misses_fit : s.slot_count + s.query_count ≤ s.index_size

-- The ValueErrors, that of `sample` with them, and numpy's errors.
pub data Error : Type 0 where
  hit_count_out_of_range : ℤ → Error
  req_num_not_positive sample_too_large index_error shape_error : Error

abbrev pub Result {ℓ} : Type ℓ → Type ℓ
Result A = Fallible Error A

-- `n & 0xFFFFFFFFFFFFFFFF`, in two's complement where `n` is negative.
unfoldable pub word64 : ℤ → ℕ
word64 (pos n) = n % 2 ^ 64
word64 (negsuc n) = 2 ^ 64 - 1 - n % 2 ^ 64

-- The two multiplications are exact; the exclusive or is taken on the 64 bits that stay.
unfoldable pub row_seed : ℤ → ℕ → ℕ → ℕ
unfolding word64
row_seed seed case_id req_id =
    xor_bits 64 (xor_bits 64 (word64 seed) ((case_id + 1) * 0x9E3779B185EBCA87))
      ((req_id + 1) * 0xC2B2AE3D27D4EB4F)

pub record RandomLookupCase : Type 0 where
  pub rows : List (LookupState × List ℤ)
  pub hit_count : ℕ
  pub miss_count : ℕ
  pub seed : ℤ
  pub case_id : ℕ

module _ (s : Sizes) where
  open s use {index_size, slot_count, query_count}

  -- A count that passes is a natural number, which is passed on.
  unfoldable pub validate_hit_count : ℤ → Result ℕ
  validate_hit_count (pos n) =
      if ltb query_count n then err (hit_count_out_of_range (pos n)) else ok n
  validate_hit_count (negsuc n) = err (hit_count_out_of_range (negsuc n))

  -- The arrays of one request before the query: every slot holds the token of its number.
  unfoldable pub resident_state : Result LookupState
  unfolding assign
  resident_state = do
    let resident_tokens = arange 0 slot_count
    token_to_slot ←
        assign index_error shape_error (replicate index_size Lookup.not_found) resident_tokens
          (arange 0 slot_count)
    ok (record {
      token_to_slot = token_to_slot;
      slot_to_token = resident_tokens;
      lru_slots = arange 0 slot_count;
    })

  module _ (random : Random) where
    open random use {Rng, seeded, sample, shuffle}

    -- `rng.sample`, with its ValueError.
    abbrev pub draw : List ℤ → ℕ → Rng → Result (List ℤ × Rng)
    draw population k rng =
        if ltb (length population) k then err sample_too_large else ok (sample population k rng)

    unfoldable pub make_random_query_row : ℤ → ℤ → ℕ → ℕ → Result (List ℤ)
    unfolding validate_hit_count row_seed
    make_random_query_row hit_count seed case_id req_id = do
      hits_wanted ← validate_hit_count hit_count
      let rng = seeded (pos (row_seed seed case_id req_id))
      let miss_count = query_count - hits_wanted
      (hits, rng1) ← draw (arange 0 slot_count) hits_wanted rng
      (misses, rng2) ← draw (arange slot_count (index_size - slot_count)) miss_count rng1
      ok (shuffle (hits ++ misses) rng2).0

    -- The loop over the requests, for `n` of them from one on.
    unfoldable pub random_rows : ℤ → ℤ → ℕ → ℕ → ℕ → Result (List (LookupState × List ℤ))
    unfolding resident_state make_random_query_row
    random_rows hit_count seed case_id req_id zero = ok []
    random_rows hit_count seed case_id req_id (suc n) = do
      state ← resident_state
      query ← make_random_query_row hit_count seed case_id req_id
      rest ← random_rows hit_count seed case_id (suc req_id) n
      ok ((state, query) ∷ rest)

    unfoldable pub make_random_case : ℤ → ℤ → ℤ → ℕ → Result RandomLookupCase
    unfolding random_rows
    make_random_case (pos (suc n)) hit_count seed case_id = do
      hits_wanted ← validate_hit_count hit_count
      rows ← random_rows hit_count seed case_id 0 (suc n)
      ok (record {
        rows = rows;
        hit_count = hits_wanted;
        miss_count = query_count - hits_wanted;
        seed = seed;
        case_id = case_id;
      })
    make_random_case req_num hit_count seed case_id = err req_num_not_positive

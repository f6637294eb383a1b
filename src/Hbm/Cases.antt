-- ===== src/Hbm/Cases.antt =====
-- ops/scripts/asu_hbm_index_common.py: `make_index_case`, `make_query`, `evict_slots_from_ratio`,
-- `make_maintain_case` and `make_chained_maintain_case`, which make the rows that the operators are
-- tried on. The five sizes at the file's top are a record; an array of int32 is a list, and its numbers
-- stay below 2 ^ 31 for fewer than 700,000 requests.
mod Made
pub mod Queries
pub mod Runs
use Prim.Native.String.{String}
use text.Mathlib.Text.{◌==◌ as str_eq}
use asu_ascend.Common.{
  ℕ, zero, suc, ◌+◌, ◌-◌, ◌*◌, ◌/◌, ◌%◌, ◌≤◌, ◌<◌, ◌≡◌, Bool, true, false, not, ◌||◌, none, some,
  List, [], ◌∷◌, ◌++◌, map, ltb, ◌==◌, if◌then◌else◌, length, get_elem?, set, take, replicate,
  range_from,
}
use asu_ascend.Common.Results.{ok, err, ◌>>=◌, ◌>>◌, raise_if}
use asu_ascend.Common.Arrays.{arange, assign}
use asu_ascend.Common.Int.{ℤ, pos, ltb_ℤ, ◌*ℤ◌}
use asu_ascend.Hbm.{
  Row, Result, not_found, read, write, index_error, shape_error, unsupported_pattern,
  ratio_out_of_range, chain_below_one,
}
use asu_ascend.Hbm.Rows.{tokens}

-- INDEX_SIZE, SLOT_COUNT, RESIDENT_SLOT_COUNT, FREE_SLOT_COUNT and QUERY_COUNT.
pub record Sizes : Type 0 where
  pub index_size : ℕ
  pub slot_count : ℕ
  pub resident_slot_count : ℕ
  pub free_slot_count : ℕ
  pub query_count : ℕ

abbrev pub source_sizes : Sizes
source_sizes = record {
  index_size = 128 * 1024;
  slot_count = 10 * 1024;
  resident_slot_count = 8 * 1024;
  free_slot_count = 2 * 1024;
  query_count = 2 * 1024;
}

-- What the functions need of the sizes.
pub record AreSizes (s : Sizes) : Type 0 where
  pub all_slots : s.resident_slot_count + s.free_slot_count ≡ s.slot_count
  pub residents_first : s.resident_slot_count ≤ 20000
  pub misses_fit : 20000 + s.free_slot_count ≤ s.index_size
  pub query_is_free_slots : s.query_count ≡ s.free_slot_count
  pub as_many_residents : s.query_count ≤ s.resident_slot_count
  pub halves : s.query_count ≡ 2 * (s.query_count / 2)
  pub at_least_eight : 8 ≤ s.query_count

-- `row[keys] = values`
abbrev pub assign_row : List ℤ → List ℤ → List ℤ → Result (List ℤ)
assign_row = assign index_error shape_error

-- `query[to] = query[at_]`
unfoldable pub copy_entry : ℕ → ℕ → List ℕ → Result (List ℕ)
copy_entry to at_ query = elim (get_elem? query at_) [
  | none ↦ err index_error
  | some v ↦ if ltb to (length query) then ok (set query to v) else err index_error
]

-- Python's RESIDENT_SLOT_COUNT, INDEX_SIZE and QUERY_COUNT are read in the functions themselves.
module _ (s : Sizes) where
  open s use {index_size, slot_count, resident_slot_count, free_slot_count, query_count}

  unfoldable pub hit_query : List ℕ
  hit_query = map (λ i. i % resident_slot_count) (range_from 0 query_count)

  unfoldable pub miss_query : ℕ → List ℕ
  miss_query req_id =
      let miss_base = 20000 + req_id * 3000 in
      map (λ i. (miss_base + i) % index_size) (range_from 0 query_count)

  -- The branch of "mixed".
  unfoldable pub mixed_query : ℕ → Result (List ℕ)
  unfolding hit_query miss_query copy_entry
  mixed_query req_id = do
    let half = query_count / 2
    raise_if (not (query_count - half == half)) shape_error
    query ← copy_entry (half + 1) half (take half hit_query ++ take half (miss_query req_id))
    copy_entry (half + 3) (half + 2) query

  unfoldable pub make_query : String → ℕ → Result (List ℕ)
  unfolding mixed_query
  make_query pattern_ req_id =
      if str_eq pattern_ "hit"
      then ok hit_query
      else if str_eq pattern_ "miss"
      then ok (miss_query req_id)
      else if str_eq pattern_ "mixed"
      then mixed_query req_id
      else err (unsupported_pattern pattern_)

  -- The four arrays of one request, before the query.
  unfoldable pub index_row : Result Row
  unfolding assign
  index_row = do
    let resident_keys = arange 0 resident_slot_count
    let free_slot_ids = arange resident_slot_count (slot_count - resident_slot_count)
    index ← assign_row (replicate index_size not_found) resident_keys resident_keys
    slot_to_index ← assign_row (replicate slot_count not_found) resident_keys resident_keys
    raise_if (not (slot_count - resident_slot_count == free_slot_count)) shape_error
    ok (record {
      index = index;
      slot_to_index = slot_to_index;
      free_slots = free_slot_ids;
      free_head = 0;
    })

  -- The loop of `make_index_case`, for `n` requests from a request on.
  unfoldable pub index_rows : String → ℕ → ℕ → Result (List (Row × List ℤ))
  unfolding index_row make_query
  index_rows pattern_ req_id zero = ok []
  index_rows pattern_ req_id (suc n) = do
    r ← index_row
    query ← make_query pattern_ req_id
    rest ← index_rows pattern_ (suc req_id) n
    ok ((r, tokens query) ∷ rest)

  unfoldable pub make_index_case : ℕ → String → Result (List (Row × List ℤ))
  unfolding index_rows
  make_index_case req_num pattern_ = index_rows pattern_ 0 req_num

  -- One request of a maintain case, with its last query.
  unfoldable pub maintain_case_row : ℕ → Result (Row × List ℤ)
  unfolding index_row assign
  maintain_case_row evict_slots = do
    let miss_keys = arange 20000 evict_slots
    let allocated_slots = arange resident_slot_count evict_slots
    r ← index_row
    index ← if ltb 0 evict_slots then assign_row r.index miss_keys allocated_slots else ok r.index
    slot_to_index ←
        if ltb 0 evict_slots
        then assign_row r.slot_to_index allocated_slots miss_keys
        else ok r.slot_to_index
    raise_if (ltb query_count evict_slots) shape_error
    ok (
      record r { index = index; slot_to_index = slot_to_index; free_head = evict_slots },
      arange 0 (query_count - evict_slots) ++ allocated_slots,
    )

  unfoldable pub maintain_case_rows : ℕ → ℕ → Result (List (Row × List ℤ))
  unfolding maintain_case_row
  maintain_case_rows evict_slots zero = ok []
  maintain_case_rows evict_slots (suc n) = do
    row ← maintain_case_row evict_slots
    rest ← maintain_case_rows evict_slots n
    ok (row ∷ rest)

-- The ratios of the command line: floats that are numbers. `scaled n ratio` is
-- `int(round(n * ratio))`, which for a ratio in [0, 1] lies in [0, n].
pub record Ratios : Type 1 where
  pub Ratio : Type 0
  pub is_below_zero : Ratio → Bool
  pub is_above_one : Ratio → Bool
  pub scaled : ℕ → Ratio → ℕ
  pub scaled_le :
      (n : ℕ) (ratio : Ratio)
      → is_below_zero ratio ≡ false
      → is_above_one ratio ≡ false
      → scaled n ratio ≤ n

module _ (floats : Ratios) (s : Sizes) where
  open floats use {Ratio, is_below_zero, is_above_one, scaled}

  unfoldable pub evict_slots_from_ratio : Ratio → Result ℕ
  evict_slots_from_ratio evict_ratio =
      raise_if (is_below_zero evict_ratio || is_above_one evict_ratio) ratio_out_of_range
      >> ok (scaled s.free_slot_count evict_ratio)

  unfoldable pub make_maintain_case : ℕ → Ratio → Result (List (Row × List ℤ))
  unfolding evict_slots_from_ratio maintain_case_rows
  make_maintain_case req_num evict_ratio = do
    evict_slots ← evict_slots_from_ratio evict_ratio
    maintain_case_rows s evict_slots req_num

  -- `range(req_num * chain_iters)`, where both are positive.
  unfoldable pub make_chained_maintain_case : ℕ → ℤ → Ratio → Result (List (Row × List ℤ))
  unfolding make_maintain_case
  make_chained_maintain_case req_num (pos (suc chain)) evict_ratio =
      make_maintain_case (req_num * suc chain) evict_ratio
  make_chained_maintain_case req_num chain_iters evict_ratio = err chain_below_one

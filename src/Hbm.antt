-- ===== src/Hbm.antt =====
-- ops/scripts/asu_hbm_index_common.py: `expected_lookup_allocate`, what the operator for lookup and
-- allocation must compute. A row has the entries of one request in each of the arrays.
pub mod Ready
pub mod Rows
pub mod Maintain
pub mod Cycle
pub mod Cases
pub mod Tests
use Prim.Native.String.{String}
use asu_ascend.Common.{ℕ, suc, List, [], ◌∷◌, none, some, if◌then◌else◌}
use asu_ascend.Common.Results.{Fallible, ok, err, ◌>>=◌}
use asu_ascend.Common.Int.{ℤ, pos, negsuc, ◌==ℤ◌, get?, set?}

-- `NOT_FOUND`
abbrev pub not_found : ℤ
not_found = negsuc 0

-- The IndexError of an array, a loop that has not ended within its rounds, arrays of different shapes,
-- and the ValueErrors of the functions that make the cases.
pub data Error : Type 0 where
  index_error out_of_rounds shape_error ratio_out_of_range chain_below_one : Error
  unsupported_pattern : String → Error

abbrev pub Result {ℓ} : Type ℓ → Type ℓ
Result A = Fallible Error A

pub record Row : Type 0 where
  pub index : List ℤ
  pub slot_to_index : List ℤ
  pub free_slots : List ℤ
  pub free_head : ℕ

-- `array[i]` and `array[i] = v`
abbrev pub read : List ℤ → ℤ → Result ℤ
read xs i = elim (get? xs i) [ none ↦ err index_error | some v ↦ ok v ]

abbrev pub write : List ℤ → ℤ → ℤ → Result (List ℤ)
write xs i v = elim (set? xs i v) [ none ↦ err index_error | some l ↦ ok l ]

-- The branch of a missing entry: the next free slot.
unfoldable pub take_free : ℤ → Row → Result (ℤ × Row)
take_free index_id r = do
  slot ← read r.free_slots (pos r.free_head)
  index ← write r.index index_id slot
  slot_to_index ← write r.slot_to_index slot index_id
  ok (slot, record r { index = index; slot_to_index = slot_to_index; free_head = suc r.free_head })

-- One round of the inner loop.
unfoldable pub lookup_one : ℤ → Row → Result (ℤ × Row)
unfolding take_free
lookup_one index_id r = do
  slot ← read r.index index_id
  if slot ==ℤ not_found then take_free index_id r else ok (slot, r)

-- The inner loop.
unfoldable pub lookup_row : List ℤ → Row → Result (List ℤ × Row)
unfolding lookup_one
lookup_row [] r = ok ([], r)
lookup_row (index_id ∷ query) r = do
  (slot, r1) ← lookup_one index_id r
  (slots, r2) ← lookup_row query r1
  ok (slot ∷ slots, r2)

-- The outer loop: each row with its query.
unfoldable pub expected_lookup_allocate : List (Row × List ℤ) → Result (List (List ℤ × Row))
unfolding lookup_row
expected_lookup_allocate [] = ok []
expected_lookup_allocate ((r, query) ∷ cases) = do
  out ← lookup_row query r
  outs ← expected_lookup_allocate cases
  ok (out ∷ outs)

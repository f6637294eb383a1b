-- ===== src/Hbm/Tests.antt =====
-- A run of the lookup on one row, and its theorems at this row.
use asu_ascend.Common.{
  ltb, ◌==◌, ◌/◌, false, if◌then◌else◌, ℕ, zero, suc, ◌%◌, ◌≤◌, ◌<◌, ◌≡◌, refl, List, [], ◌∷◌, some,
  length, get_elem?, arith,
}
use asu_ascend.Common.Results.{ok}
use asu_ascend.Common.Int.{ℤ, pos, negsuc}
use asu_ascend.Hbm.{Row, not_found, lookup_row, expected_lookup_allocate}
use asu_ascend.Hbm.Cycle
use asu_ascend.Hbm.Cases.{AreSizes, source_sizes, make_index_case, make_maintain_case, Ratios}
use asu_ascend.Hbm.Cases.Runs
use asu_ascend.Hbm.Ready.{IsReady}
use asu_ascend.Hbm.Rows
use asu_ascend.Common.Words.{xor_bits}
use asu_ascend.Hbm.Maintain.{hash32, maintain_row, expected_maintain}
use asu_ascend.Hbm.Maintain.Ends.{Fits, ahead}
use asu_ascend.Hbm.Maintain.Refills.{Refilled}

-- Token 1 is in slot 0; slots 1 and 2 are free.
abbrev pub one : Row
one = record {
  index = not_found ∷ pos 0 ∷ not_found ∷ not_found ∷ [];
  slot_to_index = pos 1 ∷ not_found ∷ not_found ∷ [];
  free_slots = pos 1 ∷ pos 2 ∷ [];
  free_head = 0;
}

abbrev query : List ℕ
query = 2 ∷ 1 ∷ []

-- Token 2 has taken slot 1.
abbrev pub one' : Row
one' = record {
  index = not_found ∷ pos 0 ∷ pos 1 ∷ not_found ∷ [];
  slot_to_index = pos 1 ∷ pos 2 ∷ not_found ∷ [];
  free_slots = pos 1 ∷ pos 2 ∷ [];
  free_head = 1;
}

lookup_row-one : lookup_row (Rows.tokens query) one ≡ ok (pos 1 ∷ pos 0 ∷ [], one')
unfolding lookup_row
lookup_row-one = refl

expected_lookup_allocate-one :
    expected_lookup_allocate ((one, Rows.tokens query) ∷ []) ≡ ok ((pos 1 ∷ pos 0 ∷ [], one') ∷ [])
unfolding expected_lookup_allocate
expected_lookup_allocate-one = refl

one-slot_holds :
    (t s : ℕ) → get_elem? one.index t ≡ some (pos s) → get_elem? one.slot_to_index s ≡ some (pos t)
one-slot_holds (suc zero) s h = ground arith
one-slot_holds (suc (suc (suc zero))) s h = ground arith
one-slot_holds _ s h = ground arith

one-index_knows :
    (s t : ℕ) → get_elem? one.slot_to_index s ≡ some (pos t) → get_elem? one.index t ≡ some (pos s)
one-index_knows zero t h = ground arith
one-index_knows (suc (suc zero)) t h = ground arith
one-index_knows _ t h = ground arith

one-absent : (t k : ℕ) → get_elem? one.index t ≡ some (negsuc k) → k ≡ 0
one-absent (suc (suc (suc zero))) k h = ground arith
one-absent _ k h = ground arith

one-vacant : (s k : ℕ) → get_elem? one.slot_to_index s ≡ some (negsuc k) → k ≡ 0
one-vacant (suc (suc zero)) k h = ground arith
one-vacant _ k h = ground arith

one-free_slot :
    (i : ℕ)
    → one.free_head ≤ i
    → i < length one.free_slots
    → (v : ℕ) × (get_elem? one.free_slots i ≡ some (pos v))
      × (get_elem? one.slot_to_index v ≡ some not_found)
one-free_slot zero low high = (1, refl, refl)
one-free_slot (suc zero) low high = (2, refl, refl)
one-free_slot (suc (suc i)) low high = absurd (omega arith)

one-free_once :
    (i j v : ℕ)
    → one.free_head ≤ i
    → one.free_head ≤ j
    → get_elem? one.free_slots i ≡ some (pos v)
    → get_elem? one.free_slots j ≡ some (pos v)
    → i ≡ j
one-free_once zero zero v _ _ h h' = refl
one-free_once (suc zero) (suc zero) v _ _ h h' = refl
one-free_once i j v _ _ h h' = ground arith

one-IsReady : IsReady one
one-IsReady = record {
  slot_holds = one-slot_holds;
  index_knows = one-index_knows;
  absent = one-absent;
  vacant = one-vacant;
  free_slot = one-free_slot;
  free_once = one-free_once;
}

abbrev below : Rows.AllBelow 4 query
below = (omega arith, (omega arith, tt))

-- The last query used slot 1, so that slot 0 goes back to the free list.
abbrev pub used : List ℤ
used = pos 1 ∷ []

abbrev refilled : Row
refilled = record {
  index = not_found ∷ not_found ∷ pos 1 ∷ not_found ∷ [];
  slot_to_index = not_found ∷ pos 2 ∷ not_found ∷ [];
  free_slots = pos 0 ∷ pos 2 ∷ [];
  free_head = 0;
}

maintain_row-one' : maintain_row 3 3 used 7 0 one' ≡ ok refilled
unfolding maintain_row
maintain_row-one' = refl

one'-Fits : Fits 3 one'
one'-Fits = record {
  ready = (Rows.lookup_row-IsReady one query one-IsReady below (omega arith) lookup_row-one).0;
  sized = refl;
  head_fits = omega arith;
}

one'-ahead : ahead 3 used one' (hash32 (xor_bits 32 7 0) % 3) 3 ≡ 1
unfolding hash32
one'-ahead = refl

maintain_row_enough_example :
    (r' : Row) × (maintain_row 3 3 used 7 0 one' ≡ ok r') × Refilled 3 used one' r'
maintain_row_enough_example = Cycle.maintain_row_enough 3 used 7 0 one' one'-Fits (omega arith)

one-Fits : Fits 3 one
one-Fits = record { ready = one-IsReady; sized = refl; head_fits = omega arith }

lookup_then_maintain_example :
    (ids : List ℤ) × (r1 : Row) × (r2 : Row) × (lookup_row (Rows.tokens (2 ∷ [])) one
      ≡ ok (ids, r1))
    × (maintain_row 3 3 ids 7 0 r1 ≡ ok r2)
    × Cycle.Cycled 3 one (2 ∷ []) ids r2
lookup_then_maintain_example =
    Cycle.lookup_then_maintain 3 one (2 ∷ []) 7 0 one-Fits (omega arith, tt) (omega arith)
      (omega arith)

pub source_sizes-AreSizes : AreSizes source_sizes
source_sizes-AreSizes = record {
  all_slots = omega arith;
  residents_first = omega arith;
  misses_fit = omega arith;
  query_is_free_slots = omega arith;
  as_many_residents = omega arith;
  halves = omega arith;
  at_least_eight = omega arith;
}

make_index_case-AllCycled_example :
    (cases : List (Row × List ℤ)) × (outs : List (List ℤ × Row)) × (rows : List Row)
    × (make_index_case source_sizes 2 "mixed" ≡ ok cases)
    × (expected_lookup_allocate cases ≡ ok outs)
    × (expected_maintain 10240 10240 2026 0 (Runs.looked_up outs) ≡ ok rows)
    × (length cases ≡ 2)
    × Runs.AllCycled source_sizes cases outs rows
make_index_case-AllCycled_example =
    Runs.make_index_case-AllCycled source_sizes source_sizes-AreSizes 2026 "mixed" 2 refl

-- Ratios in halves.
halves_scaled : ℕ → ℕ → ℕ
halves_scaled n halves = if halves == 0 then 0 else if halves == 1 then n / 2 else n

halves_scaled-le : (n halves : ℕ) → halves_scaled n halves ≤ n
unfolding halves_scaled
halves_scaled-le n halves = ground arith

abbrev in_halves : Ratios
in_halves = record {
  Ratio = ℕ;
  is_below_zero = λ halves. false;
  is_above_one = λ halves. ltb 2 halves;
  scaled = halves_scaled;
  scaled_le = λ n halves low high. halves_scaled-le n halves;
}

make_maintain_case-AllRefilled_example :
    (cases : List (Row × List ℤ)) × (rows : List Row) × (make_maintain_case in_halves source_sizes 2
        1
      ≡ ok cases)
    × (expected_maintain 10240 10240 2026 0 cases ≡ ok rows)
    × (length cases ≡ 2)
    × Runs.AllRefilled source_sizes cases rows
make_maintain_case-AllRefilled_example =
    Runs.make_maintain_case-AllRefilled source_sizes source_sizes-AreSizes 2026 in_halves 1 2 refl
      refl

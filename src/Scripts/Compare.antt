-- ===== src/Scripts/Compare.antt =====
-- `assert_runtime_result` passes exactly if the device has left what the reference computes.
use asu_ascend.Common.{◌≡◌, ◌↔◌, refl, ap, Bool, true, false, List, [], ◌∷◌, map, arith}
use asu_ascend.Common.Int.{ℤ}
use asu_ascend.Common.Results.{ok, ◌>>◌}
use asu_ascend.Lookup.{LookupState}
use asu_ascend.Lookup.Order.{list_eq_sound, list_eq_refl}
use asu_ascend.Scripts.{
  NpuRow, NpuLookupState, same_arrays, same_flags, same_masks, assert_that, assert_runtime_result,
  token_to_slot, slot_to_token, lru_slots, slot_ids, miss_mask,
}

-- What the operator leaves in the tensors that are compared.
abbrev pub result_of : NpuRow → LookupState × List ℤ × List Bool
result_of r = (r.state, r.slot_ids, r.miss_mask)

abbrev pub results : NpuLookupState → List (LookupState × List ℤ × List Bool)
results state = map result_of state.rows

same_flags_sound : (xs ys : List Bool) → same_flags xs ys ≡ true → xs ≡ ys
same_flags_sound [] [] h = refl
same_flags_sound [] (y ∷ ys) h = ground arith
same_flags_sound (true ∷ xs) [] h = ground arith
same_flags_sound (false ∷ xs) [] h = ground arith
same_flags_sound (true ∷ xs) (true ∷ ys) h = ap (◌∷◌ true) (same_flags_sound xs ys h)
same_flags_sound (true ∷ xs) (false ∷ ys) h = ground arith
same_flags_sound (false ∷ xs) (true ∷ ys) h = ground arith
same_flags_sound (false ∷ xs) (false ∷ ys) h = ap (◌∷◌ false) (same_flags_sound xs ys h)

same_flags_refl : (xs : List Bool) → same_flags xs xs ≡ true
same_flags_refl [] = refl
same_flags_refl (true ∷ xs) = same_flags_refl xs
same_flags_refl (false ∷ xs) = same_flags_refl xs

pub same_arrays_sound : (xs ys : List (List ℤ)) → same_arrays xs ys ≡ true → xs ≡ ys
same_arrays_sound [] [] h = refl
same_arrays_sound [] (y ∷ ys) h = ground arith
same_arrays_sound (x ∷ xs) [] h = ground arith
same_arrays_sound (x ∷ xs) (y ∷ ys) h = ground (arith, list_eq_sound x y, same_arrays_sound xs ys)

pub same_arrays_refl : (xs : List (List ℤ)) → same_arrays xs xs ≡ true
same_arrays_refl [] = refl
same_arrays_refl (x ∷ xs) = ground (arith, list_eq_refl x, same_arrays_refl xs)

same_masks_sound : (xs ys : List (List Bool)) → same_masks xs ys ≡ true → xs ≡ ys
same_masks_sound [] [] h = refl
same_masks_sound [] (y ∷ ys) h = ground arith
same_masks_sound (x ∷ xs) [] h = ground arith
same_masks_sound (x ∷ xs) (y ∷ ys) h = ground (arith, same_flags_sound x y, same_masks_sound xs ys)

same_masks_refl : (xs : List (List Bool)) → same_masks xs xs ≡ true
same_masks_refl [] = refl
same_masks_refl (x ∷ xs) = ground (arith, same_flags_refl x, same_masks_refl xs)

-- Rows whose five columns agree are the same rows.
columns_agree :
    (rows : List NpuRow) (expected : List (LookupState × List ℤ × List Bool))
    → map (λ r. r.state.token_to_slot) rows ≡ map (λ e. e.0.token_to_slot) expected
    → map (λ r. r.state.slot_to_token) rows ≡ map (λ e. e.0.slot_to_token) expected
    → map (λ r. r.state.lru_slots) rows ≡ map (λ e. e.0.lru_slots) expected
    → map (λ r. r.slot_ids) rows ≡ map (λ e. e.1) expected
    → map (λ r. r.miss_mask) rows ≡ map (λ e. e.2) expected
    → map result_of rows ≡ expected
columns_agree [] [] a b c d e = refl
columns_agree [] (x ∷ expected) a b c d e = cc
columns_agree (r ∷ rows) [] a b c d e = cc
columns_agree (r ∷ rows) ((st, ids, mask) ∷ expected) a b c d e =
    ground (arith, columns_agree rows expected)

map_of_results {ℓ} :
    {A : Type ℓ} (f : LookupState × List ℤ × List Bool → A) (rows : List NpuRow)
    → map f (map result_of rows) ≡ map (λ r. f (result_of r)) rows
map_of_results f [] = refl
map_of_results f (r ∷ rows) = ap (◌∷◌ (f (result_of r))) (map_of_results f rows)

all_pass :
    (a b c d e : Bool)
    → (do
      assert_that a token_to_slot
      assert_that b slot_to_token
      assert_that c lru_slots
      assert_that d slot_ids
      assert_that e miss_mask)
      ≡ ok tt
    → (a ≡ true) × (b ≡ true) × (c ≡ true) × (d ≡ true) × (e ≡ true)
all_pass a b c d e h = ground arith

-- The comparison passes on what it is itself given.
compare_self : (state : NpuLookupState) → assert_runtime_result state (results state) ≡ ok tt
unfolding assert_runtime_result
compare_self state = rw (
  map_of_results (λ e. e.0.token_to_slot) state.rows,
  map_of_results (λ e. e.0.slot_to_token) state.rows,
  map_of_results (λ e. e.0.lru_slots) state.rows,
  map_of_results (λ e. e.1) state.rows,
  map_of_results (λ e. e.2) state.rows,
  same_arrays_refl (map (λ r. r.state.token_to_slot) state.rows),
  same_arrays_refl (map (λ r. r.state.slot_to_token) state.rows),
  same_arrays_refl (map (λ r. r.state.lru_slots) state.rows),
  same_arrays_refl (map (λ r. r.slot_ids) state.rows),
  same_masks_refl (map (λ r. r.miss_mask) state.rows),
)

-- The comparison passes exactly if, for each request, the two tables and the LRU list that the operator
-- has left, its slots and its mask are the expected ones.
pub assert_runtime_result_iff :
    (state : NpuLookupState) (expected : List (LookupState × List ℤ × List Bool))
    → (assert_runtime_result state expected ≡ ok tt) ↔ (results state ≡ expected)
unfolding assert_runtime_result
assert_runtime_result_iff state expected = (
  λ passed.
      let (a, b, c, d, e) = all_pass _ _ _ _ _ passed in
      columns_agree state.rows expected (same_arrays_sound _ _ a) (same_arrays_sound _ _ b)
        (same_arrays_sound _ _ c) (same_arrays_sound _ _ d) (same_masks_sound _ _ e),
  λ same. rw (← same) (compare_self state),
)

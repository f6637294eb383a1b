-- ===== src/Hbm/Cases/Made.antt =====
-- The rows that the functions make: their entries one by one, and that they are ready.
use asu_ascend.Common.{
  ℕ, zero, suc, ◌+◌, ◌-◌, ◌≤◌, ◌≡◌, refl, ◌∙◌, ◌&&◌, none, some, List, [], ◌++◌, ltb, leb, min,
  if◌then◌else◌, length, get_elem?, length-append, replicate, length-replicate, arith,
}
use asu_ascend.Common.Totals.{total, total_congr, total_last, bit}
use asu_ascend.Common.Results.{ok}
use asu_ascend.Common.Int.{ℤ, pos}
use asu_ascend.Hbm.{Row, not_found, index_error, shape_error}
use asu_ascend.Hbm.Ready.{IsReady, occupied, occupied_count}
use asu_ascend.Hbm.Maintain.Ends.{Fits}
use asu_ascend.Hbm.Cases.{Sizes, AreSizes, index_row, maintain_case_row}
use asu_ascend.Common.Arrays.{
  arange, get_elem?-replicate, get_elem?-arange, length-arange, assign-arange,
}

-- The residents are their own slots; `e` more tokens, from 20000 on, have the slots behind.
pub record Made (s : Sizes) (e : ℕ) (r : Row) : Type 0 where
  pub index_length : length r.index ≡ s.index_size
  pub slots_length : length r.slot_to_index ≡ s.slot_count
  pub free_length : length r.free_slots ≡ s.free_slot_count
  pub head : r.free_head ≡ e
  pub at_index :
      (t : ℕ)
      → get_elem? r.index t ≡ (
          if ltb t s.resident_slot_count
          then some (pos t)
          else if leb 20000 t && ltb t (20000 + e)
          then some (pos (s.resident_slot_count + (t - 20000)))
          else if ltb t s.index_size
          then some not_found
          else none)
  pub at_slot :
      (x : ℕ)
      → get_elem? r.slot_to_index x ≡ (
          if ltb x s.resident_slot_count
          then some (pos x)
          else if ltb x (s.resident_slot_count + e)
          then some (pos (20000 + (x - s.resident_slot_count)))
          else if ltb x s.slot_count
          then some not_found
          else none)
  pub at_free :
      (i : ℕ)
      → get_elem? r.free_slots i
        ≡ (if ltb i s.free_slot_count then some (pos (s.resident_slot_count + i)) else none)

total_lt : (k n : ℕ) → total (λ i. bit (ltb i k)) 0 n ≡ min k n
total_lt k zero = ground arith
total_lt k (suc n) = ground (arith, total_last (λ i. bit (ltb i k)) 0 n, total_lt k n)

module _ (s : Sizes) (sizes : AreSizes s) (e : ℕ) (in_free : e ≤ s.free_slot_count) (r : Row)
    (made : Made s e r) where
  pub Made-IsReady : IsReady r
  Made-IsReady = record {
    slot_holds = λ t x h. ground (arith, made.at_index t, made.at_slot x, h, sizes.all_slots);
    index_knows = λ x t h.
        ground (arith, made.at_index t, made.at_slot x, h, sizes.residents_first, sizes.misses_fit);
    absent = λ t k h. ground (arith, made.at_index t, h);
    vacant = λ x k h. ground (arith, made.at_slot x, h);
    free_slot = λ i low high. (
      s.resident_slot_count + i,
      ground (arith, made.at_free i, made.free_length, high),
      ground (
        arith,
        made.at_slot (s.resident_slot_count + i),
        made.free_length,
        high,
        low,
        made.head,
        sizes.all_slots,
      ),
    );
    free_once = λ i j v low low' h h'. ground (arith, made.at_free i, made.at_free j, h, h');
  }

  pub Made-Fits : Fits s.slot_count r
  Made-Fits = record {
    ready = Made-IsReady;
    sized = made.slots_length;
    head_fits = omega (arith, made.head, made.free_length, in_free);
  }

  pub Made-occupied_count : occupied_count r ≡ s.resident_slot_count + e
  Made-occupied_count = omega (
    arith,
    total_congr (occupied r) (λ x. bit (ltb x (s.resident_slot_count + e))) 0
        (length r.slot_to_index) (λ x low high. ground (arith, made.at_slot x)),
    total_lt (s.resident_slot_count + e) (length r.slot_to_index),
    made.slots_length,
    sizes.all_slots,
    in_free,
  )

module _ (s : Sizes) (sizes : AreSizes s) where
  pub index_row-Made : (r : Row) × (index_row s ≡ ok r) × Made s 0 r
  unfolding index_row
  index_row-Made =
      let (index, run, index_done) =
        assign-arange index_error shape_error (replicate s.index_size not_found) 0 0
          s.resident_slot_count
          (omega (
            arith,
            length-replicate s.index_size not_found,
            sizes.residents_first,
            sizes.misses_fit,
          )) in
      let (slot_to_index, run', slots_done) =
        assign-arange index_error shape_error (replicate s.slot_count not_found) 0 0
          s.resident_slot_count
          (omega (arith, length-replicate s.slot_count not_found, sizes.all_slots)) in
      (
        record {
          index = index;
          slot_to_index = slot_to_index;
          free_slots = arange s.resident_slot_count (s.slot_count - s.resident_slot_count);
          free_head = 0;
        },
        ground (arith, run, run', sizes.all_slots),
        record {
          index_length = index_done.same_length ∙ length-replicate s.index_size not_found;
          slots_length = slots_done.same_length ∙ length-replicate s.slot_count not_found;
          free_length = omega (
            arith,
            length-arange s.resident_slot_count (s.slot_count - s.resident_slot_count),
            sizes.all_slots,
          );
          head = refl;
          at_index = λ t.
              ground (arith, index_done.entries t, get_elem?-replicate s.index_size not_found t);
          at_slot = λ x.
              ground (arith, slots_done.entries x, get_elem?-replicate s.slot_count not_found x);
          at_free = λ i. ground (
            arith,
            get_elem?-arange s.resident_slot_count (s.slot_count - s.resident_slot_count) i,
            sizes.all_slots,
          );
        },
      )

  -- A maintain case: the row, and a last query that fills its array.
  pub maintain_case_row-Made :
      (e : ℕ)
      → e ≤ s.free_slot_count
      → (r : Row) × (last : List ℤ) × (maintain_case_row s e ≡ ok (r, last))
        × Made s e r
        × (length last ≡ s.query_count)
  unfolding maintain_case_row
  maintain_case_row-Made zero in_free =
      let (r0, run, made) = index_row-Made in
      (
        record r0 { free_head = 0 },
        arange 0 s.query_count ++ [],
        rw run (ground arith),
        record {
          index_length = made.index_length;
          slots_length = made.slots_length;
          free_length = made.free_length;
          head = refl;
          at_index = made.at_index;
          at_slot = made.at_slot;
          at_free = made.at_free;
        },
        omega (arith, length-append (arange 0 s.query_count) [], length-arange 0 s.query_count),
      )
  maintain_case_row-Made (suc e) in_free =
      let (r0, run, made) = index_row-Made in
      let (index, run1, index_done) =
        assign-arange index_error shape_error r0.index 20000 s.resident_slot_count (suc e)
          (omega (arith, made.index_length, sizes.misses_fit)) in
      let (slot_to_index, run2, slots_done) =
        assign-arange index_error shape_error r0.slot_to_index s.resident_slot_count 20000 (suc e)
          (omega (arith, made.slots_length, sizes.all_slots)) in
      (
        record r0 { index = index; slot_to_index = slot_to_index; free_head = suc e },
        arange 0 (s.query_count - suc e) ++ arange s.resident_slot_count (suc e),
        rw run (ground (arith, run1, run2, sizes.query_is_free_slots)),
        record {
          index_length = index_done.same_length ∙ made.index_length;
          slots_length = slots_done.same_length ∙ made.slots_length;
          free_length = made.free_length;
          head = refl;
          at_index = λ t. ground (
            arith,
            index_done.entries t,
            made.at_index t,
            sizes.residents_first,
            sizes.misses_fit,
          );
          at_slot = λ x. ground (arith, slots_done.entries x, made.at_slot x, sizes.all_slots);
          at_free = made.at_free;
        },
        omega (
          arith,
          length-append (arange 0 (s.query_count - suc e)) (arange s.resident_slot_count (suc e)),
          length-arange 0 (s.query_count - suc e),
          length-arange s.resident_slot_count (suc e),
          sizes.query_is_free_slots,
        ),
      )

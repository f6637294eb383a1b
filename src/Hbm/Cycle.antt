-- ===== src/Hbm/Cycle.antt =====
-- One lookup and the refill behind it, as validate_hbm_index_ops.py runs the two operators on one
-- state: the free slots that the query has used come back.
use asu_ascend.Common.{ℕ, ◌+◌, ◌%◌, ◌≤◌, ◌≡◌, ap, ◌∙◌, List, some, length, get_elem?, arith}
use asu_ascend.Common.Results.{ok}
use asu_ascend.Common.Int.{ℤ, pos, count_of_get_elem?}
use asu_ascend.Hbm.{Row, lookup_row}
use asu_ascend.Hbm.Ready.{occupied_count}
use asu_ascend.Hbm.Rows.{AllBelow, tokens, Done, lookup_row-Done}
use asu_ascend.Common.Words.{xor_bits}
use asu_ascend.Hbm.Maintain.{hash32, maintain_row}
use asu_ascend.Hbm.Maintain.Ends.{Fits}
use asu_ascend.Hbm.Maintain.Enough.{occupied-le-ahead}
use asu_ascend.Hbm.Maintain.Refills.{Refilled, maintain_row_refills}

-- Conditions: the row is ready and has an entry for each slot, and as many slots hold a token as are
-- missing from the free list and as the last query has positions, together. One turn over the slots is
-- enough, wherever the hash lets it start: the loop ends, the whole free list is filled with
-- slots that are free and different, the tables stay inverse to each other, every slot that the last
-- query used keeps its token, and one token is given up for each slot that was missing.
pub maintain_row_enough :
    (slot_count : ℕ) (last_query_slots : List ℤ) (seed req_id : ℕ) (r : Row)
    → Fits slot_count r
    → r.free_head + length last_query_slots ≤ occupied_count r
    → (r' : Row) × (maintain_row slot_count slot_count last_query_slots seed req_id r ≡ ok r')
      × Refilled slot_count last_query_slots r r'
maintain_row_enough slot_count last_query_slots seed req_id r fits enough =
    maintain_row_refills slot_count last_query_slots seed req_id r fits (
      omega (
        arith,
        occupied-le-ahead slot_count last_query_slots r
            (hash32 (xor_bits 32 seed req_id) % slot_count) fits.sized,
      ))

-- What a query and the refill behind it leave, for the next query.
pub record Cycled (slot_count : ℕ) (r : Row) (query : List ℕ) (ids : List ℤ) (r' : Row)
    : Type 0 where
  pub fits : Fits slot_count r'
  pub full : r'.free_head ≡ 0
  pub as_many : occupied_count r' + r.free_head ≡ occupied_count r
  pub same_free : length r'.free_slots ≡ length r.free_slots
  pub same_index : length r'.index ≡ length r.index
  pub answers :
      (j t : ℕ)
      → get_elem? query j ≡ some t
      → (s : ℕ) × (get_elem? ids j ≡ some (pos s))
        × (get_elem? r'.index t ≡ some (pos s))
        × (get_elem? r'.slot_to_index s ≡ some (pos t))

module _ (slot_count : ℕ) (r : Row) (query : List ℕ) (seed req_id : ℕ) (fits : Fits slot_count r)
    (below : AllBelow (length r.index) query)
    (room : r.free_head + length query ≤ length r.free_slots)
    (enough : r.free_head + length query ≤ occupied_count r) where
  looked_up-Fits : {ids : List ℤ} {r1 : Row} → Done r query ids r1 → Fits slot_count r1
  looked_up-Fits done = record {
    ready = done.ready;
    sized = done.same_slots ∙ fits.sized;
    head_fits = omega (arith, done.used, room, ap length done.same_free);
  }

  Refilled-Cycled :
      (ids : List ℤ) (r1 r2 : Row)
      → Done r query ids r1
      → Refilled slot_count ids r1 r2
      → Cycled slot_count r query ids r2
  Refilled-Cycled ids r1 r2 done refilled = record {
    fits = refilled.fits;
    full = refilled.full;
    as_many = omega (arith, refilled.counted, done.counted);
    same_free = refilled.same_free ∙ ap length done.same_free;
    same_index = refilled.same_index ∙ done.same_index;
    answers = λ j t h.
        let (s, at_j, knows) = done.answers j t h in
        let holds =
          refilled.kept s t (done.ready.slot_holds t s knows)
            (ground (arith, count_of_get_elem? ids j (pos s) at_j)) in
        (s, at_j, refilled.fits.ready.index_knows s t holds, holds);
  }

  -- Conditions: the row is ready and has an entry for each slot, the tokens of the query are in range,
  -- and, counting the slots that are already missing, the query has no more positions than there are
  -- free slots and than there are slots that hold a token. The lookup and then the refill return. The
  -- free list is full again and the row ready, with tables of the same lengths; for each free slot that
  -- was missing at first, one slot fewer holds a token; and each position of the query has been given
  -- the slot that holds its token in both tables, also after the refill.
  pub lookup_then_maintain :
      (ids : List ℤ) × (r1 : Row) × (r2 : Row) × (lookup_row (tokens query) r ≡ ok (ids, r1))
      × (maintain_row slot_count slot_count ids seed req_id r1 ≡ ok r2)
      × Cycled slot_count r query ids r2
  lookup_then_maintain =
      let (ids, r1, looked, done) = lookup_row-Done r query fits.ready below room in
      let (r2, refills, refilled) =
        maintain_row_enough slot_count ids seed req_id r1 (looked_up-Fits done)
          (omega (arith, done.counted, done.answered, enough)) in
      (ids, r1, r2, looked, refills, Refilled-Cycled ids r1 r2 done refilled)

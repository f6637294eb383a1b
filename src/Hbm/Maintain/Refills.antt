-- ===== src/Hbm/Maintain/Refills.antt =====
-- `expected_maintain` ends within one turn over the slots, if enough of them can be given up.
use asu_ascend.Common.{
  ℕ, zero, suc, ◌+◌, ◌-◌, ◌%◌, ◌<◌, ◌≤◌, ◌≡◌, refl, ap, sym, length, length-set, ◌∙◌, true, List,
  some, inl, inr, Bool-cases, ◌==◌, get_elem?, get_elem?-set, arith,
}
use native.Mathlib.Nat.{mod-lt}
use asu_ascend.Common.Results.{ok}
use asu_ascend.Common.Int.{ℤ, pos, contains}
use asu_ascend.Hbm.{Row, not_found}
use asu_ascend.Common.Words.{xor_bits}
use asu_ascend.Hbm.Maintain.{maintain_round, maintain_loop, maintain_row, hash32}
use asu_ascend.Hbm.Maintain.Ends.{
  turn, ahead, Fits, evicted, evicted-Fits, evicted-occupied_count, ahead-evicted, round,
}
use asu_ascend.Hbm.Ready.{occupied_count}

-- What the loop leaves: every free slot is back, the tables are ready, and what the last query used
-- is still there.
pub record Refilled (slot_count : ℕ) (protected : List ℤ) (r r' : Row) : Type 0 where
  pub fits : Fits slot_count r'
  pub full : r'.free_head ≡ 0
  pub counted : occupied_count r' + r.free_head ≡ occupied_count r
  pub same_free : length r'.free_slots ≡ length r.free_slots
  pub same_index : length r'.index ≡ length r.index
  pub kept :
      (s t : ℕ)
      → get_elem? r.slot_to_index s ≡ some (pos t)
      → contains protected (pos s) ≡ true
      → get_elem? r'.slot_to_index s ≡ some (pos t)

unchanged :
    (slot_count : ℕ) (protected : List ℤ) (r : Row)
    → Fits slot_count r
    → r.free_head ≡ 0
    → Refilled slot_count protected r r
unchanged slot_count protected r fits full = record {
  fits = fits;
  full = full;
  counted = omega (arith, full);
  same_free = refl;
  same_index = refl;
  kept = λ s t h used. h;
}

module _ (slot_count : ℕ) (protected : List ℤ) (start : ℕ) where
  further : (at_ i : ℕ) → (at_ + suc i) % slot_count ≡ (suc at_ + i) % slot_count
  further at_ i = ap (λ (x : ℕ). x % slot_count) (omega arith)

  next_round :
      (n offset head : ℕ) (r r1 r2 : Row)
      → r.free_head ≡ suc head
      → maintain_round protected head ((start + offset) % slot_count) r ≡ ok r1
      → maintain_loop slot_count n protected start (suc offset) r1 ≡ ok r2
      → maintain_loop slot_count (suc n) protected start offset r ≡ ok r2
  unfolding maintain_loop
  next_round n offset head r r1 r2 at_head one rest = ground (arith, at_head, one, rest)

  maintain_loop-Refilled :
      (n offset at_ : ℕ) (r : Row)
      → at_ ≡ start + offset
      → Fits slot_count r
      → n ≤ slot_count
      → r.free_head ≤ ahead slot_count protected r at_ n
      → (r' : Row) × (maintain_loop slot_count n protected start offset r ≡ ok r')
        × Refilled slot_count protected r r'
  unfolding maintain_loop
  maintain_loop-Refilled zero offset at_ r place fits turns enough =
      (r, ground arith, unchanged slot_count protected r fits (omega (arith, enough)))
  maintain_loop-Refilled (suc n) offset at_ r place fits turns enough =
      elim (Bool-cases (r.free_head == 0)) [
        | inl stop ↦ (r, ground arith, unchanged slot_count protected r fits (ground arith))
        | inr more ↦
            let head : ℕ = r.free_head - 1 in
            let at_head : r.free_head ≡ suc head = ground arith in
            let slot : ℕ = (start + offset) % slot_count in
            let inside : slot < slot_count = mod-lt (start + offset) (omega arith) in
            let same_slot : at_ % slot_count ≡ slot = ap (λ (x : ℕ). x % slot_count) place in
            let onward : suc at_ ≡ start + suc offset = omega (arith, place) in
            elim (round slot_count protected r head slot fits at_head inside) [
              | inl (t, holds, unused, one) ↦
                  let fits' = evicted-Fits slot_count r fits head slot t at_head holds in
                  let (r', run, done) =
                    maintain_loop-Refilled n (suc offset) (suc at_) (evicted head slot t r) onward
                      fits' (omega (arith, turns))
                      (ground (
                        arith,
                        at_head,
                        enough,
                        same_slot,
                        ahead-evicted slot_count protected r head slot t (suc at_) n (λ i h e.
                            turn slot_count at_ (suc i) (omega arith) (omega (arith, turns, h))
                              (further at_ i ∙ e ∙ sym same_slot)),
                      )) in
                  (
                    r',
                    next_round n offset head r (evicted head slot t r) r' at_head one run,
                    record {
                      fits = done.fits;
                      full = done.full;
                      counted = omega (
                        arith,
                        done.counted,
                        at_head,
                        evicted-occupied_count slot_count r fits head slot t at_head holds,
                      );
                      same_free = done.same_free ∙ length-set r.free_slots head (pos slot);
                      same_index = done.same_index ∙ length-set r.index t not_found;
                      kept = λ s u h used.
                          done.kept s u
                            (ground (
                              arith,
                              get_elem?-set r.slot_to_index slot s not_found,
                              unused,
                              used,
                              h,
                            ))
                            used;
                    },
                  )
              | inr (stays, one) ↦
                  let (r', run, done) =
                    maintain_loop-Refilled n (suc offset) (suc at_) r onward fits
                      (omega (arith, turns)) (ground (arith, enough, same_slot, stays)) in
                  (r', next_round n offset head r r r' at_head one run, done)
            ]
      ]

-- Conditions: the row is ready and has an entry for each slot, and at least as many slots as are
-- missing from the free list hold a token and were not used by the last query. One turn over the slots is enough: the loop ends, the whole free list is filled with slots that are free
-- and different, the tables stay inverse to each other, and every slot that the last query used keeps
-- its token.
pub maintain_row_refills :
    (slot_count : ℕ) (last_query_slots : List ℤ) (seed req_id : ℕ) (r : Row)
    → Fits slot_count r
    → r.free_head
      ≤ ahead slot_count last_query_slots r
          (hash32 (xor_bits 32 seed req_id) % slot_count)
          slot_count
    → (r' : Row) × (maintain_row slot_count slot_count last_query_slots seed req_id r ≡ ok r')
      × Refilled slot_count last_query_slots r r'
unfolding maintain_row
maintain_row_refills slot_count last_query_slots seed req_id r fits enough =
    maintain_loop-Refilled slot_count last_query_slots
      (hash32 (xor_bits 32 seed req_id) % slot_count) slot_count 0 _ r (omega arith) fits
      (omega arith) enough

-- ===== src/Hbm/Maintain.antt =====
-- ops/scripts/asu_hbm_index_common.py: `hash32` and `expected_maintain`, which refills the list of
-- free slots. `slot_count` stands for SLOT_COUNT. The loop has no bound of its own and runs on fuel.
pub mod Ends
pub mod Refills
pub mod Enough
use asu_ascend.Common.{
  ℕ, zero, suc, ◌+◌, ◌*◌, ◌/◌, ◌%◌, ◌^◌, ◌&&◌, not, List, [], ◌∷◌, ◌==◌, if◌then◌else◌,
}
use asu_ascend.Common.Results.{ok, err, ◌>>=◌}
use asu_ascend.Common.Words.{xor_bits}
use asu_ascend.Common.Int.{ℤ, pos, ◌==ℤ◌, contains}
use asu_ascend.Hbm.{Row, Result, not_found, read, write, out_of_rounds}

unfoldable pub hash32 : ℕ → ℕ
unfolding xor_bits
hash32 value =
    let v0 = value % 2 ^ 32 in
    let v1 = xor_bits 32 v0 (v0 / 2 ^ 16) in
    let v2 = (v1 * 0x7FEB352D) % 2 ^ 32 in
    let v3 = xor_bits 32 v2 (v2 / 2 ^ 15) in
    let v4 = (v3 * 0x846CA68B) % 2 ^ 32 in xor_bits 32 v4 (v4 / 2 ^ 16) % 2 ^ 32

-- The body of the `if`: the slot becomes the free slot at the new head.
unfoldable pub evict : ℕ → ℕ → ℤ → Row → Result Row
evict head slot index_id r = do
  slot_to_index ← write r.slot_to_index (pos slot) not_found
  index ← write r.index index_id not_found
  free_slots ← write r.free_slots (pos head) (pos slot)
  ok (record {
    index = index;
    slot_to_index = slot_to_index;
    free_slots = free_slots;
    free_head = head;
  })

-- One round, where the head is `suc head`.
unfoldable pub maintain_round : List ℤ → ℕ → ℕ → Row → Result Row
unfolding evict
maintain_round protected head slot r = do
  index_id ← read r.slot_to_index (pos slot)
  if not (index_id ==ℤ not_found) && not (contains protected (pos slot))
      then evict head slot index_id r
      else ok r

module _ (slot_count : ℕ) where
  -- `while head > 0`
  unfoldable pub maintain_loop : ℕ → List ℤ → ℕ → ℕ → Row → Result Row
  unfolding maintain_round
  maintain_loop zero protected start offset r = if r.free_head == 0 then ok r else err out_of_rounds
  maintain_loop (suc fuel) protected start offset r = elim r.free_head [
    | zero ↦ ok r
    | suc head ↦ maintain_round protected head ((start + offset) % slot_count) r >>= λ r'.
        maintain_loop fuel protected start (suc offset) r'
  ]

  -- One request. The exclusive or of the seed and the request is taken on the 32 bits that `hash32`
  -- reads.
  unfoldable pub maintain_row : ℕ → List ℤ → ℕ → ℕ → Row → Result Row
  unfolding maintain_loop hash32
  maintain_row fuel last_query_slots seed req_id r =
      maintain_loop fuel last_query_slots (hash32 (xor_bits 32 seed req_id) % slot_count) 0 r

  -- The loop over the requests, from a request on.
  unfoldable pub expected_maintain : ℕ → ℕ → ℕ → List (Row × List ℤ) → Result (List Row)
  unfolding maintain_row
  expected_maintain fuel seed req_id [] = ok []
  expected_maintain fuel seed req_id ((r, last_query_slots) ∷ rows) = do
    r' ← maintain_row fuel last_query_slots seed req_id r
    rest ← expected_maintain fuel seed (suc req_id) rows
    ok (r' ∷ rest)

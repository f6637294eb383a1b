-- ===== src/Hbm/Ready.antt =====
-- A row whose tables are inverse to each other and whose free slots are free, and one lookup in it.
use asu_ascend.Common.{
  ℕ, suc, ◌+◌, ◌<◌, ◌≤◌, ◌≡◌, refl, some, none, inl, inr, Option-cases, length, get_elem?, set,
  length-set, get_elem?-set, get_elem?-of_lt, lt_of_get_elem?, arith,
}
use asu_ascend.Common.Totals.{total, total_change}
use asu_ascend.Common.Results.{ok}
use asu_ascend.Common.Int.{ℤ, pos, negsuc}
use asu_ascend.Hbm.{Row, not_found, take_free, lookup_one}

pub record IsReady (r : Row) : Type 0 where
  pub slot_holds :
      (t s : ℕ) → get_elem? r.index t ≡ some (pos s) → get_elem? r.slot_to_index s ≡ some (pos t)
  pub index_knows :
      (s t : ℕ) → get_elem? r.slot_to_index s ≡ some (pos t) → get_elem? r.index t ≡ some (pos s)
  pub absent : (t k : ℕ) → get_elem? r.index t ≡ some (negsuc k) → k ≡ 0
  pub vacant : (s k : ℕ) → get_elem? r.slot_to_index s ≡ some (negsuc k) → k ≡ 0
  pub free_slot :
      (i : ℕ)
      → r.free_head ≤ i
      → i < length r.free_slots
      → (v : ℕ) × (get_elem? r.free_slots i ≡ some (pos v))
        × (get_elem? r.slot_to_index v ≡ some not_found)
  pub free_once :
      (i j v : ℕ)
      → r.free_head ≤ i
      → r.free_head ≤ j
      → get_elem? r.free_slots i ≡ some (pos v)
      → get_elem? r.free_slots j ≡ some (pos v)
      → i ≡ j

-- A slot that holds a token, and how many there are.
abbrev pub occupied : Row → ℕ → ℕ
occupied r s = elim (get_elem? r.slot_to_index s) [
  | none ↦ 0
  | some index_id ↦ elim index_id [ pos t ↦ 1 | negsuc k ↦ 0 ]
]

abbrev pub occupied_count : Row → ℕ
occupied_count r = total (occupied r) 0 (length r.slot_to_index)

-- The row after token `t` has taken slot `v`.
abbrev pub taken : ℕ → ℕ → Row → Row
taken t v r = record r {
  index = set r.index t (pos v);
  slot_to_index = set r.slot_to_index v (pos t);
  free_head = suc r.free_head;
}

module _ (r : Row) (ready : IsReady r) (t v : ℕ) (missing : get_elem? r.index t ≡ some not_found)
    (next : get_elem? r.free_slots r.free_head ≡ some (pos v))
    (empty : get_elem? r.slot_to_index v ≡ some not_found) where
  pub take_free-taken : take_free (pos t) r ≡ ok (pos v, taken t v r)
  unfolding take_free
  take_free-taken =
      ground
        (arith, next, lt_of_get_elem? r.index t missing, lt_of_get_elem? r.slot_to_index v empty)

  pub taken-IsReady : IsReady (taken t v r)
  taken-IsReady = record {
    slot_holds = λ u s h. ground (
      arith,
      get_elem?-set r.index t u (pos v),
      get_elem?-set r.slot_to_index v s (pos t),
      lt_of_get_elem? r.slot_to_index v empty,
      ready.slot_holds u s,
      empty,
      missing,
    );
    index_knows = λ s u h. ground (
      arith,
      get_elem?-set r.index t u (pos v),
      get_elem?-set r.slot_to_index v s (pos t),
      lt_of_get_elem? r.index t missing,
      ready.index_knows s u,
      empty,
      missing,
    );
    absent = λ u k h. ground (arith, get_elem?-set r.index t u (pos v), ready.absent u k);
    vacant = λ s k h. ground (arith, get_elem?-set r.slot_to_index v s (pos t), ready.vacant s k);
    free_slot = λ i low high.
        let (x, at_i, free) = ready.free_slot i (omega (arith, low)) high in
        (
          x,
          at_i,
          ground (
            arith,
            get_elem?-set r.slot_to_index v x (pos t),
            ready.free_once r.free_head i v,
            next,
            at_i,
            free,
            low,
          ),
        );
    free_once = λ i j x low low' h h'.
        ready.free_once i j x (omega (arith, low)) (omega (arith, low')) h h';
  }

  pub taken-occupied_count : occupied_count (taken t v r) ≡ occupied_count r + 1
  taken-occupied_count = rw (length-set r.slot_to_index v (pos t)) (
      total_change (occupied r) (occupied (taken t v r)) v 0 (length r.slot_to_index)
        (λ s other. ground (arith, get_elem?-set r.slot_to_index v s (pos t)))
        (ground (
          arith,
          get_elem?-set r.slot_to_index v v (pos t),
          empty,
          lt_of_get_elem? r.slot_to_index v empty,
        ))
        (omega arith) (omega (arith, lt_of_get_elem? r.slot_to_index v empty)))

-- What one lookup of token `t` has done.
pub record Looked (r : Row) (t : ℕ) (slot : ℤ) (r' : Row) : Type 0 where
  pub ready : IsReady r'
  pub there : get_elem? r'.index t ≡ some slot
  pub kept : (u x : ℕ) → get_elem? r.index u ≡ some (pos x) → get_elem? r'.index u ≡ some (pos x)
  pub found : (s : ℕ) × (slot ≡ pos s)
  pub same_free : r'.free_slots ≡ r.free_slots
  pub same_index : length r'.index ≡ length r.index
  pub same_slots : length r'.slot_to_index ≡ length r.slot_to_index
  pub used : r'.free_head ≤ r.free_head + 1
  pub counted : occupied_count r' + r.free_head ≡ occupied_count r + r'.free_head

pub lookup_one-Looked :
    (r : Row) (t : ℕ)
    → IsReady r
    → t < length r.index
    → r.free_head < length r.free_slots
    → (slot : ℤ) × (r' : Row) × (lookup_one (pos t) r ≡ ok (slot, r')) × Looked r t slot r'
unfolding lookup_one
lookup_one-Looked r t ready inside room = elim (Option-cases (get_elem? r.index t)) [
  | inl e ↦ absurd (ground (arith, get_elem?-of_lt r.index t))
  | inr (pos s, e) ↦ (
    pos s,
    r,
    ground arith,
    record {
      ready = ready;
      there = e;
      kept = λ u x h. h;
      found = (s, refl);
      same_free = refl;
      same_index = refl;
      same_slots = refl;
      used = omega arith;
      counted = refl;
    },
  )
  | inr (negsuc k, e) ↦
      let (v, next, empty) = ready.free_slot r.free_head (omega arith) room in
      let missing : get_elem? r.index t ≡ some not_found = ground (arith, e, ready.absent t k e) in
      (
        pos v,
        taken t v r,
        ground (arith, missing, take_free-taken r ready t v missing next empty),
        record {
          ready = taken-IsReady r ready t v missing next empty;
          there = ground (arith, get_elem?-set r.index t t (pos v));
          kept = λ u x h. ground (arith, get_elem?-set r.index t u (pos v), missing);
          found = (v, refl);
          same_free = refl;
          same_index = length-set r.index t (pos v);
          same_slots = length-set r.slot_to_index v (pos t);
          used = omega arith;
          counted = omega (arith, taken-occupied_count r ready t v missing next empty);
        },
      )
]

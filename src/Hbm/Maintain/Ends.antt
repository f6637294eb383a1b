-- ===== src/Hbm/Maintain/Ends.antt =====
-- One round of `expected_maintain`, and the slots that the loop has ahead of it.
use asu_ascend.Common.{
  ℕ, zero, suc, ◌+◌, ◌-◌, ◌%◌, ◌<◌, ◌≤◌, ◌≡◌, ◌≢◌, ◌⊎◌, refl, sym, ◌∙◌, Bool, false, not, List,
  some, none, inl, inr, Option-cases, Bool-cases, ◌==◌, if◌then◌else◌, length, get_elem?, set,
  length-set, get_elem?-set, get_elem?-of_lt, lt_of_get_elem?, ltb, arith,
}
use native.Mathlib.Nat.{mod-lt, mod-add-mod, mod-eq_of_lt, mod-eq-sub-mod}
use asu_ascend.Common.Results.{ok}
use asu_ascend.Common.Int.{ℤ, pos, negsuc, contains}
use asu_ascend.Hbm.{Row, not_found}
use asu_ascend.Common.Totals.{total_change}
use asu_ascend.Hbm.Ready.{IsReady, occupied, occupied_count}
use asu_ascend.Hbm.Maintain.{evict, maintain_round}

-- Steps of less than one turn lead to another slot.
pub turn : (n a d : ℕ) → 0 < d → d < n → (a + d) % n ≢ a % n
turn n a d low high e =
    let below : a % n < n = mod-lt a (omega arith) in
    elim (Bool-cases (ltb (a % n + d) n)) [
      | inl h ↦ ground (arith, mod-add-mod a n d, mod-eq_of_lt {n = a % n + d} {m = n}, e)
      | inr h ↦ ground (
        arith,
        mod-add-mod a n d,
        mod-eq-sub-mod {n = a % n + d} {m = n},
        mod-eq_of_lt {n = a % n + d - n} {m = n},
        e,
      )
    ]

-- A slot that may be given up: it holds a token, and the last query did not use it.
abbrev pub can_evict : List ℤ → Row → ℕ → Bool
can_evict protected r s = elim (get_elem? r.slot_to_index s) [
  | none ↦ false
  | some index_id ↦ elim index_id [ pos t ↦ not (contains protected (pos s)) | negsuc k ↦ false ]
]

-- How many of the next `n` slots that the loop visits may be given up.
abbrev pub ahead : ℕ → List ℤ → Row → ℕ → ℕ → ℕ
ahead slot_count protected r at_ zero = 0
ahead slot_count protected r at_ (suc n) =
    (if can_evict protected r (at_ % slot_count) then 1 else 0)
    + ahead slot_count protected r (suc at_) n

-- A row that fits the slots: each has an entry.
pub record Fits (slot_count : ℕ) (r : Row) : Type 0 where
  pub ready : IsReady r
  pub sized : length r.slot_to_index ≡ slot_count
  pub head_fits : r.free_head ≤ length r.free_slots

-- The row after slot `s`, which holds token `t`, has been given up.
abbrev pub evicted : ℕ → ℕ → ℕ → Row → Row
evicted head s t r = record {
  index = set r.index t not_found;
  slot_to_index = set r.slot_to_index s not_found;
  free_slots = set r.free_slots head (pos s);
  free_head = head;
}

module _ (slot_count : ℕ) (r : Row) (fits : Fits slot_count r) (head s t : ℕ)
    (at_head : r.free_head ≡ suc head) (holds : get_elem? r.slot_to_index s ≡ some (pos t)) where
  evict-evicted : evict head s (pos t) r ≡ ok (evicted head s t r)
  unfolding evict
  evict-evicted = ground (
    arith,
    lt_of_get_elem? r.slot_to_index s holds,
    lt_of_get_elem? r.index t (fits.ready.index_knows s t holds),
    fits.head_fits,
    at_head,
  )

  same_slots : length (set r.free_slots head (pos s)) ≡ length r.free_slots
  same_slots = length-set r.free_slots head (pos s)

  free_slot_of :
      (i : ℕ)
      → head ≤ i
      → i < length (set r.free_slots head (pos s))
      → (x : ℕ) × (get_elem? (set r.free_slots head (pos s)) i ≡ some (pos x))
        × (get_elem? (set r.slot_to_index s not_found) x ≡ some not_found)
  free_slot_of i low high = elim (Bool-cases (head == i)) [
    | inl here ↦ (
      s,
      ground (arith, get_elem?-set r.free_slots head i (pos s), same_slots),
      ground (
        arith,
        get_elem?-set r.slot_to_index s s not_found,
        lt_of_get_elem? r.slot_to_index s holds,
      ),
    )
    | inr above ↦
        let (x, at_i, free) =
          fits.ready.free_slot i (ground (arith, at_head)) (omega (arith, high, same_slots)) in
        (
          x,
          ground (arith, get_elem?-set r.free_slots head i (pos s), at_i),
          ground (arith, get_elem?-set r.slot_to_index s x not_found, free),
        )
  ]

  -- The slot that is given up is not on the list above the new head.
  not_above : (j : ℕ) → suc head ≤ j → get_elem? r.free_slots j ≢ some (pos s)
  not_above j low h =
      let (x, at_j, free) =
        fits.ready.free_slot j (omega (arith, at_head)) (lt_of_get_elem? r.free_slots j h) in
      ground (arith, at_j, free, holds, h)

  free_once_of :
      (i j v : ℕ)
      → head ≤ i
      → head ≤ j
      → get_elem? (set r.free_slots head (pos s)) i ≡ some (pos v)
      → get_elem? (set r.free_slots head (pos s)) j ≡ some (pos v)
      → i ≡ j
  free_once_of i j v low low' h h' = ground (
    arith,
    get_elem?-set r.free_slots head i (pos s),
    get_elem?-set r.free_slots head j (pos s),
    not_above i,
    not_above j,
    fits.ready.free_once i j v,
    at_head,
    fits.head_fits,
  )

  pub evicted-Fits : Fits slot_count (evicted head s t r)
  evicted-Fits = record {
    ready = record {
      slot_holds = λ u x h. ground (
        arith,
        get_elem?-set r.index t u not_found,
        get_elem?-set r.slot_to_index s x not_found,
        fits.ready.slot_holds u x,
        holds,
        lt_of_get_elem? r.index t (fits.ready.index_knows s t holds),
      );
      index_knows = λ x u h. ground (
        arith,
        get_elem?-set r.index t u not_found,
        get_elem?-set r.slot_to_index s x not_found,
        fits.ready.index_knows x u,
        fits.ready.index_knows s t holds,
        lt_of_get_elem? r.slot_to_index s holds,
      );
      absent = λ u k h. ground (arith, get_elem?-set r.index t u not_found, fits.ready.absent u k);
      vacant = λ x k h.
          ground (arith, get_elem?-set r.slot_to_index s x not_found, fits.ready.vacant x k);
      free_slot = free_slot_of;
      free_once = free_once_of;
    };
    sized = length-set r.slot_to_index s not_found ∙ fits.sized;
    head_fits = omega (arith, length-set r.free_slots head (pos s), fits.head_fits, at_head);
  }

  pub evicted-occupied_count : occupied_count (evicted head s t r) + 1 ≡ occupied_count r
  evicted-occupied_count = rw (length-set r.slot_to_index s not_found) (
      sym (
        total_change (occupied (evicted head s t r)) (occupied r) s 0 (length r.slot_to_index)
          (λ x other. ground (arith, get_elem?-set r.slot_to_index s x not_found))
          (ground (
            arith,
            get_elem?-set r.slot_to_index s s not_found,
            holds,
            lt_of_get_elem? r.slot_to_index s holds,
          ))
          (omega arith) (omega (arith, lt_of_get_elem? r.slot_to_index s holds))))

-- The slots ahead of a slot that has been given up are as before.
pub ahead-evicted :
    (slot_count : ℕ) (protected : List ℤ) (r : Row) (head s t at_ n : ℕ)
    → ((i : ℕ) → i < n → (at_ + i) % slot_count ≢ s)
    → ahead slot_count protected (evicted head s t r) at_ n ≡ ahead slot_count protected r at_ n
ahead-evicted slot_count protected r head s t at_ zero other = refl
ahead-evicted slot_count protected r head s t at_ (suc n) other = ground (
  arith,
  get_elem?-set r.slot_to_index s (at_ % slot_count) not_found,
  other 0 (omega arith),
  ahead-evicted slot_count protected r head s t (suc at_) n (λ i h. ground (arith, other (suc i))),
)

module _ (slot_count : ℕ) (protected : List ℤ) where
  -- One round: it gives up the slot if it may, and else leaves the row.
  pub round :
      (r : Row) (head s : ℕ)
      → Fits slot_count r
      → r.free_head ≡ suc head
      → s < slot_count
      → (((t : ℕ) × (get_elem? r.slot_to_index s ≡ some (pos t))
          × (contains protected (pos s) ≡ false)
          × (maintain_round protected head s r ≡ ok (evicted head s t r))))
        ⊎ ((can_evict protected r s ≡ false) × (maintain_round protected head s r ≡ ok r))
  unfolding maintain_round
  round r head s fits at_head inside = elim (Option-cases (get_elem? r.slot_to_index s)) [
    | inl e ↦ absurd (ground (arith, get_elem?-of_lt r.slot_to_index s, fits.sized))
    | inr (negsuc k, e) ↦ inr (ground arith, ground (arith, fits.ready.vacant s k e))
    | inr (pos t, e) ↦ elim (Bool-cases (contains protected (pos s))) [
      | inl used ↦ inr (ground arith, ground arith)
      | inr unused ↦
          inl (t, e, unused, ground (arith, evict-evicted slot_count r fits head s t at_head e))
    ]
  ]

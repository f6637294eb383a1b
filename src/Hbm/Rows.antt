-- ===== src/Hbm/Rows.antt =====
-- The inner loop of `expected_lookup_allocate`: a whole query on one row.
use asu_ascend.Common.{
  ℕ, zero, suc, ◌+◌, ◌<◌, ◌≤◌, ◌≡◌, refl, ap, ◌∙◌, List, [], ◌∷◌, some, length, get_elem?, arith,
}
use asu_ascend.Common.Results.{ok}
use asu_ascend.Common.Int.{ℤ, pos}
use asu_ascend.Hbm.{Row, lookup_row}
use asu_ascend.Hbm.Ready.{IsReady, occupied_count, lookup_one-Looked}

-- The tokens of a query, as the array has them.
abbrev pub tokens : List ℕ → List ℤ
tokens [] = []
tokens (t ∷ query) = pos t ∷ tokens query

-- Every token has an entry in an index of length `n`.
abbrev pub AllBelow : ℕ → List ℕ → Type 0
AllBelow n [] = Unit
AllBelow n (t ∷ query) = (t < n) × AllBelow n query

-- What the loop has done.
pub record Done (r : Row) (query : List ℕ) (ids : List ℤ) (r' : Row) : Type 0 where
  pub ready : IsReady r'
  pub answers :
      (j t : ℕ)
      → get_elem? query j ≡ some t
      → (s : ℕ) × (get_elem? ids j ≡ some (pos s)) × (get_elem? r'.index t ≡ some (pos s))
  pub kept : (u x : ℕ) → get_elem? r.index u ≡ some (pos x) → get_elem? r'.index u ≡ some (pos x)
  pub same_free : r'.free_slots ≡ r.free_slots
  pub same_slots : length r'.slot_to_index ≡ length r.slot_to_index
  pub same_index : length r'.index ≡ length r.index
  pub used : r'.free_head ≤ r.free_head + length query
  pub counted : occupied_count r' + r.free_head ≡ occupied_count r + r'.free_head
  pub answered : length ids ≡ length query

pub lookup_row-Done :
    (r : Row) (query : List ℕ)
    → IsReady r
    → AllBelow (length r.index) query
    → r.free_head + length query ≤ length r.free_slots
    → (ids : List ℤ) × (r' : Row) × (lookup_row (tokens query) r ≡ ok (ids, r'))
      × Done r query ids r'
unfolding lookup_row
lookup_row-Done r [] ready below room = (
  [],
  r,
  refl,
  record {
    ready = ready;
    answers = λ j t h. ground arith;
    kept = λ u x h. h;
    same_free = refl;
    same_slots = refl;
    same_index = refl;
    used = omega arith;
    counted = refl;
    answered = refl;
  },
)
lookup_row-Done r (t ∷ query) ready (inside, below) room =
    let (slot, r1, one, looked) = lookup_one-Looked r t ready inside (omega arith) in
    let (s, is_pos) = looked.found in
    let (ids, r2, run, done) =
      lookup_row-Done r1 query looked.ready (rw (looked.same_index) below)
        (omega (arith, looked.used, ap length looked.same_free)) in
    (
      slot ∷ ids,
      r2,
      rw (one, run),
      record {
        ready = done.ready;
        answers = λ j u h. here r1 s is_pos r2 done.kept looked.there ids done.answers j u h;
        kept = λ u x h. done.kept u x (looked.kept u x h);
        same_free = done.same_free ∙ looked.same_free;
        same_slots = done.same_slots ∙ looked.same_slots;
        same_index = done.same_index ∙ looked.same_index;
        used = omega (arith, done.used, looked.used);
        counted = omega (arith, done.counted, looked.counted);
        answered = ap suc done.answered;
      },
    )
  where
    here :
        {slot : ℤ} (r1 : Row) (s : ℕ)
        → slot ≡ pos s
        → (r2 : Row)
        → ((u x : ℕ) → get_elem? r1.index u ≡ some (pos x) → get_elem? r2.index u ≡ some (pos x))
        → get_elem? r1.index t ≡ some slot
        → (ids : List ℤ)
        → ((j u : ℕ)
            → get_elem? query j ≡ some u
            → (s : ℕ) × (get_elem? ids j ≡ some (pos s)) × (get_elem? r2.index u ≡ some (pos s)))
        → (j u : ℕ) → get_elem? (t ∷ query) j ≡ some u
        → (s : ℕ) × (get_elem? (slot ∷ ids) j ≡ some (pos s))
          × (get_elem? r2.index u ≡ some (pos s))
    here r1 s is_pos r2 kept there ids answers zero u h =
        (s, ap some is_pos, ground (arith, kept t s, there, is_pos, h))
    here r1 s is_pos r2 kept there ids answers (suc j) u h = answers j u h

module _ (r : Row) (query : List ℕ) (ready : IsReady r) (below : AllBelow (length r.index) query)
    (room : r.free_head + length query ≤ length r.free_slots) where
  -- Conditions: the row is ready, every token of the query has an entry in the index, and there are as
  -- many free slots left as the query has positions. The loop returns: no access is out of range.
  pub lookup_row_returns :
      (ids : List ℤ) × (r' : Row) × (lookup_row (tokens query) r ≡ ok (ids, r'))
  lookup_row_returns =
      let (ids, r', run, _) = lookup_row-Done r query ready below room in (ids, r', run)

  module _ {ids : List ℤ} {r' : Row} (run : lookup_row (tokens query) r ≡ ok (ids, r')) where
    done : Done r query ids r'
    done =
        let (ids0, r0, run0, done0) = lookup_row-Done r query ready below room in
        let same_ids : ids0 ≡ ids = cc in
        let same_row : r0 ≡ r' = cc in rw (same_ids, same_row) at done0

    -- Conditions: the row is ready, the tokens are in range, there are as many free slots
    -- left as the query has positions, and the loop returned. The row is ready again: its tables are
    -- inverse to each other, and its free slots are free and different; the free list itself stays, and
    -- its head moves by at most the length of the query.
    pub lookup_row-IsReady :
        IsReady r' × (r'.free_slots ≡ r.free_slots) × (r'.free_head ≤ r.free_head + length query)
    lookup_row-IsReady = (done.ready, done.same_free, done.used)

    -- Conditions: the row is ready, the tokens are in range, there are as many free slots
    -- left as the query has positions, the loop returned, and token `t` stands at position `j`. The
    -- position gets a slot, which is the slot of `t` in the row that the loop leaves.
    pub lookup_row_answers :
        (j t : ℕ)
        → get_elem? query j ≡ some t
        → (s : ℕ) × (get_elem? ids j ≡ some (pos s)) × (get_elem? r'.index t ≡ some (pos s))
    lookup_row_answers = done.answers

    -- Conditions: the row is ready, the tokens are in range, there are as many free slots
    -- left as the query has positions, the loop returned, and token `u` had slot `x`. It still has it:
    -- the lookup evicts nothing.
    pub lookup_row_kept :
        (u x : ℕ) → get_elem? r.index u ≡ some (pos x) → get_elem? r'.index u ≡ some (pos x)
    lookup_row_kept = done.kept

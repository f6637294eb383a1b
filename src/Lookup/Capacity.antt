-- ===== src/Lookup/Capacity.antt =====
-- When `lookup_allocate_evict` can fail, and what a failure and a repetition leave.
use asu_ascend.Common.{
  ℕ, suc, ◌<◌, ◌≤◌, ◌≡◌, refl, sym, ◌+◌, ◌∙◌, ap, ◌⊎◌, inl, inr, List, [], ◌∷◌, some, ltb, Bool,
  true, false, Option-cases, Bool-cases, length, get_elem?, lt_of_get_elem?, arith,
}
use asu_ascend.Common.Int.{ℤ, pos, negsuc, count, ==ℤ_iff}
use asu_ascend.Lookup.{
  LookupState, Outcome, Scan, Result, returns, raises, Error, index_error, token_out_of_range,
  slots, sorted, lookup_allocate_evict, hits_of, evictable_of, scan, install, install_all, allocate,
  ◌then_do◌, ok, err,
}
use asu_ascend.Lookup.Order.{count-perm, count-perm_negsuc, length-perm}
use asu_ascend.Lookup.Loop.{after_all-nil}
use asu_ascend.Lookup.Scanning.{scanned, is_absent}
use asu_ascend.Lookup.Spec.{IsValid, absent_tokens, free_slots, hit_set, hit_slots-queried}
use asu_ascend.Lookup.Correct.{misses, length-misses, lookup_room}
use asu_ascend.Lookup.Answers

-- Each position of the query adds a hit slot or a miss, or neither.
hits_and_misses :
    (t2s : List ℤ) (i : ℕ) (pending query : List ℤ)
    → let found = scanned t2s i pending query in
      length found.unique_misses + length found.hit_slot_set ≤ length query
unfolding scanned
hits_and_misses t2s i pending [] = omega arith
hits_and_misses t2s i pending (negsuc k ∷ query) =
    ground (arith, hits_and_misses t2s (suc i) pending query)
hits_and_misses t2s i pending (pos t ∷ query) = ground (
  arith,
  hits_and_misses t2s (suc i) pending query,
  hits_and_misses t2s (suc i) (pos t ∷ pending) query,
)

length-hits_of-cons :
    (h : ℤ) (hit_set l : List ℤ)
    → length (hits_of (h ∷ hit_set) l) ≤ length (hits_of hit_set l) + count h l
unfolding hits_of
length-hits_of-cons h hit_set [] = omega arith
length-hits_of-cons h hit_set (s ∷ l) =
    ground (arith, ==ℤ_iff h s, ==ℤ_iff s h, length-hits_of-cons h hit_set l)

length-hits_of-nil : (l : List ℤ) → length (hits_of [] l) ≡ 0
unfolding hits_of
length-hits_of-nil [] = refl
length-hits_of-nil (s ∷ l) = length-hits_of-nil l

length-hits_of-le :
    (hit_set l : List ℤ) → ((z : ℤ) → count z l ≤ 1) → length (hits_of hit_set l) ≤ length hit_set
length-hits_of-le [] l once = omega (arith, length-hits_of-nil l)
length-hits_of-le (h ∷ hit_set) l once =
    omega (arith, length-hits_of-cons h hit_set l, once h, length-hits_of-le hit_set l once)

length-split :
    (hit_set l : List ℤ) → length (hits_of hit_set l) + length (evictable_of hit_set l) ≡ length l
unfolding hits_of evictable_of
length-split hit_set [] = refl
length-split hit_set (s ∷ l) = ground (arith, length-split hit_set l)

count-perm-le : (n : ℕ) (l : List ℤ) → sorted l ≡ slots n → (z : ℤ) → count z l ≤ 1
count-perm-le n l perm (pos i) = ground (arith, count-perm n l perm i)
count-perm-le n l perm (negsuc k) = omega (arith, count-perm_negsuc n l perm k)

module _ (st : LookupState) (valid : IsValid st) (query : List ℤ) where
  open st use {token_to_slot as t2s, slot_to_token as s2t, lru_slots as lru}

  enough_slots :
      length query ≤ length s2t → length (absent_tokens t2s [] query) ≤ length (free_slots st query)
  enough_slots h =
      let split = hit_slots-queried st valid query in
      let h_set = hit_set st valid query in
      rw (← split.1) (
        omega (
          arith,
          length-misses st valid query,
          hits_and_misses t2s 0 [] query,
          length-hits_of-le h_set lru (count-perm-le (length s2t) lru valid.permutation),
          length-split h_set lru,
          length-perm (length s2t) lru valid.permutation,
        ))

  -- Conditions: the state is valid and the query has at most as many positions as there are slots.
  -- The call returns.
  pub lookup_fits :
      length query ≤ length s2t
      → (ids : List ℤ) × (mask : List Bool) × (st' : LookupState) × (lookup_allocate_evict query st
          ≡ returns (ids, mask) st')
  lookup_fits h = (_, _, _, lookup_room st valid query (enough_slots h))

  -- The mask that it returns is that of the first loop.
  pub lookup_fits_mask :
      length query ≤ length s2t
      → (ids : List ℤ) × (st' : LookupState) × (lookup_allocate_evict query st
          ≡ returns (ids, (scanned t2s 0 [] query).miss_mask) st')
  lookup_fits_mask h = (_, _, lookup_room st valid query (enough_slots h))

-- The errors of the second loop.
abbrev pub is_late : Error → Bool
is_late index_error = true
is_late (token_out_of_range s t) = true
is_late _ = false

then_do-raises {ℓ κ} :
    {A : Type ℓ} {B : Type κ} (o : Outcome A) (f : A → LookupState → Outcome B) {e : Error}
    {s : LookupState}
    → (o then_do f) ≡ raises e s
    → (o ≡ raises e s) ⊎ ((a : A) × (s1 : LookupState) × (o ≡ returns a s1) × (f a s1 ≡ raises e s))
then_do-raises (returns a s1) f h = inr (a, s1, refl, h)
then_do-raises (raises e s) f h = inl (cc)

install-raises :
    (token victim : ℤ) (st : LookupState) {e : Error} {st' : LookupState}
    → install token victim st ≡ raises e st'
    → is_late e ≡ true
unfolding install
install-raises token victim st h = ground arith

install_all-raises :
    (ms : List (ℕ × ℤ)) (vs : List ℤ) (st : LookupState) {e : Error} {st' : LookupState}
    → install_all ms vs st ≡ raises e st'
    → is_late e ≡ true
unfolding install_all
install_all-raises [] vs st h = cc
install_all-raises (m ∷ ms) [] st h = ground arith
install_all-raises ((i, token) ∷ ms) (v ∷ vs) st h =
    elim (then_do-raises (install token v st) (λ _ st1. install_all ms vs st1) h) [
      | inl now ↦ install-raises token v st now
      | inr (a, st1, o, later) ↦ install_all-raises ms vs st1 later
    ]

allocate-raises :
    (query : List ℤ) (found : Scan) (st : LookupState) {e : Error} {st' : LookupState}
    → allocate query found st ≡ raises e st'
    → (st' ≡ st) ⊎ (is_late e ≡ true)
unfolding allocate
allocate-raises query found st h =
    elim (Bool-cases
      (ltb (length (evictable_of found.hit_slot_set st.lru_slots)) (length found.unique_misses))) [
        | inl full ↦ inl (ground arith)
        | inr room ↦
            elim (then_do-raises
              (install_all found.unique_misses (evictable_of found.hit_slot_set st.lru_slots) st) _
              (rw room at h)) [
                | inl now ↦ inr (install_all-raises _ _ st now)
                | inr (a, st1, o, later) ↦ absurd (ground arith)
              ]
      ]

Result-cases {ℓ} :
    {A : Type ℓ} (r : Result A) → ((e : Error) × (r ≡ err e)) ⊎ ((a : A) × (r ≡ ok a))
Result-cases (ok a) = inr (a, refl)
Result-cases (err e) = inl (e, refl)

-- On any state, valid or not: a call that raises has changed nothing, unless the second loop raised.
pub lookup_raises :
    (query : List ℤ) (st : LookupState) {e : Error} {st' : LookupState}
    → lookup_allocate_evict query st ≡ raises e st'
    → (st' ≡ st) ⊎ (is_late e ≡ true)
unfolding lookup_allocate_evict
lookup_raises query st {e} {st'} h =
    elim (Result-cases (scan (length st.slot_to_token) st.token_to_slot 0 [] query)) [
      | inl (f, failed) ↦ ground arith
      | inr (found, through) ↦ ground (arith, allocate-raises query found st {e = e} {st' = st'})
    ]

absent_tokens-nil :
    (t2s seen query : List ℤ)
    → ((j : ℕ) (z : ℤ) → get_elem? query j ≡ some z → is_absent t2s z ≡ false)
    → absent_tokens t2s seen query ≡ []
unfolding absent_tokens
absent_tokens-nil t2s seen [] h = refl
absent_tokens-nil t2s seen (x ∷ query) h =
    ground (arith, h 0 x refl, absent_tokens-nil t2s seen query (λ j z g. h (suc j) z g))

module _ (st : LookupState) (valid : IsValid st) (query : List ℤ) {ids : List ℤ} {mask : List Bool}
    {st' : LookupState} (done : lookup_allocate_evict query st ≡ returns (ids, mask) st') where
  valid' : IsValid st'
  valid' = (Answers.lookup-IsValid st valid query done).0

  none_absent : (j : ℕ) (z : ℤ) → get_elem? query j ≡ some z → is_absent st'.token_to_slot z ≡ false
  none_absent j (negsuc k) h = refl
  none_absent j (pos t) h = elim (Option-cases (get_elem? st'.token_to_slot t)) [
    | inl e ↦ ground arith
    | inr (z, e) ↦ ground (
      arith,
      (Answers.lookup_answers st valid query done j t h (
          omega (
            arith,
            lt_of_get_elem? st'.token_to_slot t e,
            (Answers.lookup-IsValid st valid query done).2,
          ))).2,
    )
  ]

  nothing_missing : absent_tokens st'.token_to_slot [] query ≡ []
  nothing_missing = absent_tokens-nil st'.token_to_slot [] query none_absent

  no_misses : misses st' valid' query ≡ []
  no_misses = nil_of_length _ (length-misses st' valid' query ∙ ap length nothing_missing)
    where
      nil_of_length : (l : List (ℕ × ℤ)) → length l ≡ 0 → l ≡ []
      nil_of_length [] h = refl
      nil_of_length (x ∷ l) h = absurd (omega arith)

  -- Conditions: the state was valid and the call returned. The same query on the new state returns,
  -- and leaves both tables as they are.
  pub lookup_again :
      (ids' : List ℤ) × (mask' : List Bool) × (st'' : LookupState) × (lookup_allocate_evict query
          st'
        ≡ returns (ids', mask') st'')
      × (st''.token_to_slot ≡ st'.token_to_slot)
      × (st''.slot_to_token ≡ st'.slot_to_token)
  lookup_again =
      let again = lookup_room st' valid' query (rw nothing_missing (omega arith)) in
      (_, _, _, again, rw (no_misses, after_all-nil), rw (no_misses, after_all-nil))

  -- Conditions: the state was valid, the call returned, and the same query on the new state returned
  -- again; position `j` holds a token in range. The second call gives it the same slot as the first,
  -- and does not mark it as a miss.
  pub lookup_again_ids :
      {ids' : List ℤ} {mask' : List Bool} {st'' : LookupState}
      → lookup_allocate_evict query st' ≡ returns (ids', mask') st''
      → (j t : ℕ) → get_elem? query j ≡ some (pos t)
      → t < length st.token_to_slot
      → (get_elem? ids' j ≡ get_elem? ids j) × (get_elem? mask' j ≡ some false)
  lookup_again_ids again j t h room =
      let (s, at_j, there, _) = Answers.lookup_answers st valid query done j t h room in
      (
        Answers.lookup_resident st' valid' query again j t s h there ∙ sym at_j,
        Answers.lookup-miss_mask st' valid' query again j (pos t) h
            ∙ ground (arith, none_absent j (pos t) h),
      )

-- ===== src/Lookup.antt =====
-- pta-ops/asu_hbm_index_lookup_simt/python/lookup_lru_reference.py: the batch lookup with
-- allocation and LRU eviction. Python's exceptions are values; what they carry is kept, their
-- texts are not. A call that raises leaves the state as far as it had changed it.
pub mod Order
pub mod Tables
mod Loop
pub mod Scanning
pub mod Spec
pub mod Correct
pub mod Answers
pub mod Capacity
pub mod Counts
mod Tests
use asu_ascend.Common.{
  ℕ, suc, ◌+◌, ◌≡◌, Bool, true, false, not, ◌&&◌, ◌||◌, Option, none, some, List, [], ◌∷◌, ◌++◌,
  map, ltb, leb, ◌==◌, if◌then◌else◌, length, get_elem?, take, drop, range_from,
}
pub use asu_ascend.Common.Results.{Fallible, ok, err, ◌>>=◌}
use asu_ascend.Common.Int.{ℤ, pos, negsuc, ltb_ℤ, ◌==ℤ◌, get?, set?, contains, list_eq}
use mathlib.Core.Option

-- `NOT_FOUND`
abbrev pub not_found : ℤ
not_found = negsuc 0

pub record LookupState : Type 0 where
  pub token_to_slot : List ℤ
  pub slot_to_token : List ℤ
  pub lru_slots : List ℤ

-- The `raise` statements, with the numbers in their messages, and Python's own IndexError.
pub data Error : Type 0 where
  lru_length not_permutation too_many_misses index_error : Error
  slot_outside_table : ℤ → Error
  invalid_slot : ℤ → ℤ → Error
  token_out_of_range : ℤ → ℤ → Error

abbrev pub Result {ℓ} : Type ℓ → Type ℓ
Result A = Fallible Error A

-- The end of a call that changes the state.
pub data Outcome {ℓ} (A : Type ℓ) : Type ℓ where
  returns : A → LookupState → Outcome A
  raises : Error → LookupState → Outcome A

infixl 5 ◌then_do◌
abbrev pub ◌then_do◌ {ℓ κ} :
    {A : Type ℓ} {B : Type κ} → Outcome A → (A → LookupState → Outcome B) → Outcome B
returns a s then_do f = f a s
raises e s then_do f = raises e s

-- `sorted`, on integers.
pub insert : ℤ → List ℤ → List ℤ
insert x [] = x ∷ []
insert x (y ∷ ys) = if ltb_ℤ y x then y ∷ insert x ys else x ∷ y ∷ ys

pub sorted : List ℤ → List ℤ
unfolding insert
sorted [] = []
sorted (x ∷ xs) = insert x (sorted xs)

-- `list(range(n))`
abbrev pub slots : ℕ → List ℤ
slots n = map pos (range_from 0 n)

-- `0 <= token < len(token_to_slot)`
abbrev pub in_table : List ℤ → ℤ → Bool
in_table t2s token = not (ltb_ℤ token (pos 0)) && ltb_ℤ token (pos (length t2s))

-- What the first loop finds at a position.
pub data Mark : Type 0 where
  skipped repeated_miss first_miss : Mark
  hit : ℤ → Mark

pub classify_slot : ℕ → List ℤ → ℤ → ℤ → Result Mark
classify_slot slot_count pending token slot =
    if not (ltb_ℤ slot (pos 0))
    then (if not (ltb_ℤ slot (pos slot_count))
        then err (slot_outside_table token)
        else ok (hit slot))
    else if slot ==ℤ not_found && not (contains pending token)
    then ok first_miss
    else if not (slot ==ℤ not_found)
    then err (invalid_slot token slot)
    else ok repeated_miss

-- `state.token_to_slot[token]` is read behind the range test.
pub classify : ℕ → List ℤ → List ℤ → ℤ → Result Mark
unfolding classify_slot
classify slot_count t2s pending token =
    if in_table t2s token
    then (elim (get? t2s token) [
      | none ↦ err index_error
      | some slot ↦ classify_slot slot_count pending token slot
    ])
    else ok skipped

-- What the first loop has collected, from some position on.
pub record Scan : Type 0 where
  pub slot_ids : List ℤ
  pub miss_mask : List Bool
  pub hit_slot_set : List ℤ
  pub unique_misses : List (ℕ × ℤ)

abbrev pub no_scan : Scan
no_scan = record { slot_ids = []; miss_mask = []; hit_slot_set = []; unique_misses = [] }

abbrev pub pending_after : Mark → ℤ → List ℤ → List ℤ
pending_after first_miss token pending = token ∷ pending
pending_after _ token pending = pending

-- The entries of one position, in front of those of the positions behind it.
abbrev pub note : ℕ → ℤ → Mark → Scan → Scan
note i token skipped s = record s {
  slot_ids = not_found ∷ s.slot_ids;
  miss_mask = false ∷ s.miss_mask;
}
note i token repeated_miss s = record s {
  slot_ids = not_found ∷ s.slot_ids;
  miss_mask = false ∷ s.miss_mask;
}
note i token first_miss s = record {
  slot_ids = not_found ∷ s.slot_ids;
  miss_mask = true ∷ s.miss_mask;
  hit_slot_set = s.hit_slot_set;
  unique_misses = (i, token) ∷ s.unique_misses;
}
note i token (hit slot) s = record {
  slot_ids = slot ∷ s.slot_ids;
  miss_mask = false ∷ s.miss_mask;
  hit_slot_set = slot ∷ s.hit_slot_set;
  unique_misses = s.unique_misses;
}

-- The first loop over `enumerate(query_token_ids)`.
pub scan : ℕ → List ℤ → ℕ → List ℤ → List ℤ → Result Scan
unfolding classify
scan slot_count t2s i pending [] = ok no_scan
scan slot_count t2s i pending (token ∷ query) = do
  mark ← classify slot_count t2s pending token
  rest ← scan slot_count t2s (suc i) (pending_after mark token pending) query
  ok (note i token mark rest)

-- `[slot for slot in lru_slots if slot in hit_slot_set]`, and the others.
pub hits_of : List ℤ → List ℤ → List ℤ
hits_of hit_set [] = []
hits_of hit_set (s ∷ l) =
    let rest = hits_of hit_set l in if contains hit_set s then s ∷ rest else rest

pub evictable_of : List ℤ → List ℤ → List ℤ
evictable_of hit_set [] = []
evictable_of hit_set (s ∷ l) =
    let rest = evictable_of hit_set l in if contains hit_set s then rest else s ∷ rest

-- `state.token_to_slot[i] = v` and `state.slot_to_token[i] = v`
abbrev pub write_token_to_slot : ℤ → ℤ → LookupState → Outcome (Unit {0})
write_token_to_slot i v st = elim (set? st.token_to_slot i v) [
  | none ↦ raises index_error st
  | some l ↦ returns tt (record st { token_to_slot = l })
]

abbrev pub write_slot_to_token : ℤ → ℤ → LookupState → Outcome (Unit {0})
write_slot_to_token i v st = elim (set? st.slot_to_token i v) [
  | none ↦ raises index_error st
  | some l ↦ returns tt (record st { slot_to_token = l })
]

-- The `if victim_token >= 0` statement.
pub release : ℤ → ℤ → LookupState → Outcome (Unit {0})
release victim_slot victim_token st =
    if ltb_ℤ victim_token (pos 0)
    then returns tt st
    else if ltb_ℤ victim_token (pos (length st.token_to_slot))
    then write_token_to_slot victim_token not_found st
    else raises (token_out_of_range victim_slot victim_token) st

-- One round of the second loop.
pub install : ℤ → ℤ → LookupState → Outcome (Unit {0})
unfolding release
install token victim_slot st = elim (get? st.slot_to_token victim_slot) [
  | none ↦ raises index_error st
  | some victim_token ↦
      release victim_slot victim_token st
      then_do (λ _ st1. write_slot_to_token victim_slot token st1)
      then_do (λ _ st2. write_token_to_slot token victim_slot st2)
]

-- The second loop. `evictable_slots[miss_rank]` is the head of what is left of the list.
pub install_all : List (ℕ × ℤ) → List ℤ → LookupState → Outcome (Unit {0})
unfolding install
install_all [] victims st = returns tt st
install_all (m ∷ misses) [] st = raises index_error st
install_all ((i, token) ∷ misses) (victim ∷ victims) st =
    install token victim st then_do λ _ st'. install_all misses victims st'

-- The third loop: `slot_ids` is rewritten where the token is in range.
pub resolve : List ℤ → List ℤ → List ℤ → List ℤ
resolve t2s (token ∷ query) (slot ∷ slot_ids) =
    (if in_table t2s token then Option.get_or (get? t2s token) slot else slot)
    ∷ resolve t2s query slot_ids
resolve t2s _ slot_ids = slot_ids

-- What follows the first loop.
pub allocate : List ℤ → Scan → LookupState → Outcome (List ℤ × List Bool)
unfolding hits_of evictable_of install_all resolve
allocate query found st =
    let hit_slots = hits_of found.hit_slot_set st.lru_slots in
    let evictable = evictable_of found.hit_slot_set st.lru_slots in
    let miss_count = length found.unique_misses in
    if ltb (length evictable) miss_count
    then raises too_many_misses st
    else (install_all found.unique_misses evictable st then_do λ _ st'.
        returns (resolve st'.token_to_slot query found.slot_ids, found.miss_mask)
          (record st' {
            lru_slots = drop miss_count evictable ++ (take miss_count evictable ++ hit_slots);
          }))

pub lookup_allocate_evict : List ℤ → LookupState → Outcome (List ℤ × List Bool)
unfolding sorted scan allocate
lookup_allocate_evict query st =
    let slot_count = length st.slot_to_token in
    if not (length st.lru_slots == slot_count)
    then raises lru_length st
    else if not (list_eq (sorted st.lru_slots) (slots slot_count))
    then raises not_permutation st
    else (elim (scan slot_count st.token_to_slot 0 [] query) [
      | err e ↦ raises e st
      | ok found ↦ allocate query found st
    ])

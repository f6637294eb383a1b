-- ===== src/Lookup/Tests.antt =====
-- `lookup_allocate_evict` at concrete inputs.
use asu_ascend.Common.{
  ℕ, suc, zero, ◌≡◌, refl, List, [], ◌∷◌, ◌++◌, ◌⊎◌, some, true, false, Bool, get_elem?, arith,
}
use asu_ascend.Common.Int.{ℤ, pos, negsuc}
use asu_ascend.Lookup.{
  LookupState, returns, raises, too_many_misses, not_permutation, lru_length, token_out_of_range,
  not_found, lookup_allocate_evict,
}
use asu_ascend.Lookup.Spec.{IsValid, absent_tokens}
use asu_ascend.Lookup.Answers
use asu_ascend.Lookup.Capacity
use asu_ascend.Lookup.Correct

-- Tokens 1 and 3 are in slots 0 and 1.
abbrev two : LookupState
two = record {
  token_to_slot = not_found ∷ pos 0 ∷ not_found ∷ pos 1 ∷ not_found ∷ [];
  slot_to_token = pos 1 ∷ pos 3 ∷ [];
  lru_slots = pos 1 ∷ pos 0 ∷ [];
}

-- Token 4 twice, which is missing, then token 3, then an invalid one.
abbrev query : List ℤ
query = pos 4 ∷ pos 4 ∷ pos 3 ∷ negsuc 0 ∷ []

-- Token 4 takes slot 0 from token 1.
abbrev two' : LookupState
two' = record {
  token_to_slot = not_found ∷ not_found ∷ not_found ∷ pos 1 ∷ pos 0 ∷ [];
  slot_to_token = pos 4 ∷ pos 3 ∷ [];
  lru_slots = pos 0 ∷ pos 1 ∷ [];
}

abbrev ids : List ℤ
ids = pos 0 ∷ pos 0 ∷ pos 1 ∷ not_found ∷ []

abbrev mask : List Bool
mask = true ∷ false ∷ false ∷ false ∷ []

lookup-two : lookup_allocate_evict query two ≡ returns (ids, mask) two'
unfolding lookup_allocate_evict
lookup-two = refl

two-slot_holds :
    (t s : ℕ)
    → get_elem? two.token_to_slot t ≡ some (pos s)
    → get_elem? two.slot_to_token s ≡ some (pos t)
two-slot_holds (suc zero) s h = ground arith
two-slot_holds (suc (suc (suc zero))) s h = ground arith
two-slot_holds _ s h = ground arith

two-token_knows :
    (s t : ℕ)
    → get_elem? two.slot_to_token s ≡ some (pos t)
    → get_elem? two.token_to_slot t ≡ some (pos s)
two-token_knows zero t h = ground arith
two-token_knows (suc zero) t h = ground arith
two-token_knows _ t h = ground arith

two-absent : (t k : ℕ) → get_elem? two.token_to_slot t ≡ some (negsuc k) → k ≡ 0
two-absent (suc (suc (suc (suc zero)))) k h = ground arith
two-absent _ k h = ground arith

two-IsValid : IsValid two
unfolding lookup_allocate_evict
two-IsValid = record {
  linked = record {
    slot_holds = two-slot_holds;
    token_knows = two-token_knows;
    absent = two-absent;
  };
  permutation = refl;
}

lookup-IsValid_example : IsValid two' × (◌≡◌ {A = ℕ} 2 2) × (◌≡◌ {A = ℕ} 5 5)
lookup-IsValid_example = Answers.lookup-IsValid two two-IsValid query lookup-two

lookup_answers_example :
    (s : ℕ) × (get_elem? ids 1 ≡ some (pos s))
    × (get_elem? two'.token_to_slot 4 ≡ some (pos s))
    × (get_elem? two'.slot_to_token s ≡ some (pos 4))
lookup_answers_example =
    Answers.lookup_answers two two-IsValid query lookup-two 1 4 refl (omega arith)

lookup-miss_mask_example : get_elem? mask 1 ≡ some false
lookup-miss_mask_example = Answers.lookup-miss_mask two two-IsValid query lookup-two 1 (pos 4) refl

lookup_allocates_example : get_elem? two'.token_to_slot 4 ≡ some (pos 0)
unfolding absent_tokens
lookup_allocates_example = Answers.lookup_allocates two two-IsValid query lookup-two 0 4 0 refl refl

lookup_evicts_example : get_elem? two'.token_to_slot 1 ≡ some not_found
unfolding absent_tokens
lookup_evicts_example = Answers.lookup_evicts two two-IsValid query lookup-two 1 0 refl

lookup-lru_slots_example : two'.lru_slots ≡ [] ++ ((pos 0 ∷ []) ++ (pos 1 ∷ []))
unfolding absent_tokens
lookup-lru_slots_example = Answers.lookup-lru_slots two two-IsValid query lookup-two

lookup_again_example :
    (ids' : List ℤ) × (mask' : List Bool) × (st'' : LookupState) × (lookup_allocate_evict query two'
      ≡ returns (ids', mask') st'')
    × (st''.token_to_slot ≡ two'.token_to_slot)
    × (st''.slot_to_token ≡ two'.slot_to_token)
lookup_again_example = Capacity.lookup_again two two-IsValid query lookup-two

lookup-two' :
    lookup_allocate_evict query two' ≡ returns (ids, false ∷ false ∷ false ∷ false ∷ []) two'
unfolding lookup_allocate_evict
lookup-two' = refl

lookup_fits_example :
    (ids' : List ℤ) × (mask' : List Bool) × (st' : LookupState) × (lookup_allocate_evict
        (pos 0 ∷ pos 3 ∷ [])
        two
      ≡ returns (ids', mask') st')
lookup_fits_example = Capacity.lookup_fits two two-IsValid (pos 0 ∷ pos 3 ∷ []) (omega arith)

lookup_full_example :
    lookup_allocate_evict (pos 0 ∷ pos 2 ∷ pos 4 ∷ []) two ≡ raises too_many_misses two
unfolding absent_tokens
lookup_full_example = Correct.lookup_full two two-IsValid (pos 0 ∷ pos 2 ∷ pos 4 ∷ []) (omega arith)

-- A state whose table of slots names a token out of range: the loop raises at the second victim,
-- with the first one already replaced.
abbrev broken : LookupState
broken = record two { slot_to_token = pos 9 ∷ pos 3 ∷ [] }

broken_raises :
    lookup_allocate_evict (pos 0 ∷ pos 2 ∷ []) broken
    ≡ raises (token_out_of_range (pos 0) (pos 9)) (record broken {
      token_to_slot = pos 1 ∷ pos 0 ∷ not_found ∷ not_found ∷ not_found ∷ [];
      slot_to_token = pos 9 ∷ pos 0 ∷ [];
    })
unfolding lookup_allocate_evict
broken_raises = refl

lookup_raises_example :
    (record two { lru_slots = pos 1 ∷ pos 1 ∷ [] } ≡ record two { lru_slots = pos 1 ∷ pos 1 ∷ [] })
    ⊎ (◌≡◌ {A = Bool} false true)
unfolding lookup_allocate_evict
lookup_raises_example =
    Capacity.lookup_raises query (record two { lru_slots = pos 1 ∷ pos 1 ∷ [] })
      {e = not_permutation} refl

two_short :
    lookup_allocate_evict query (record two { lru_slots = pos 1 ∷ [] })
    ≡ raises lru_length (record two { lru_slots = pos 1 ∷ [] })
unfolding lookup_allocate_evict
two_short = refl

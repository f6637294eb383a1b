-- ===== src/Cache/Tests.antt =====
-- `LRUManagedCache` at concrete inputs.
use asu_ascend.Common.{◌+◌, ◌-◌, ◌≡◌, ◌≤◌, ◌⊎◌, refl, List, [], ◌∷◌, min, drop, arith}
use asu_ascend.Common.Int.{pos}
use asu_ascend.Common.Results.{ok}
use asu_ascend.Cache.{
  TokenKey, LruManagedCache, init, prepare_free_slots, resolve_query, free_count, resident_count,
}
use asu_ascend.Cache.Valid.{IsValid, init-IsValid, prepare_free_slots_lem}
use asu_ascend.Cache.Resolve.{resolve_query_lem, resolve_query_enough}

program : Unit {0}
unfolding init prepare_free_slots resolve_query
program = tt

abbrev empty : LruManagedCache
empty = record { free_slot_target = 1; free_slots = 0 ∷ 1 ∷ 2 ∷ []; residents = [] }

abbrev tokens : List TokenKey
tokens = (0, 7) ∷ (0, 8) ∷ (0, 7) ∷ (1, 7) ∷ (1, 9) ∷ []

abbrev full : LruManagedCache
full = record {
  free_slot_target = 1;
  free_slots = [];
  residents = ((0, 8), 1) ∷ ((0, 7), 0) ∷ ((1, 7), 2) ∷ [];
}

-- One hit, three installs and a shortage.
resolve_query-empty :
    resolve_query empty tokens
    ≡ (full, record { hits = 1; misses = 4; installs = 3; shortages = 1 })
unfolding program
resolve_query-empty = refl

-- The least recently used resident goes.
prepare_free_slots-full :
    prepare_free_slots full
    ≡ (record full { free_slots = 1 ∷ []; residents = ((0, 7), 0) ∷ ((1, 7), 2) ∷ [] }, 1)
unfolding program
prepare_free_slots-full = refl

init-empty : init (pos 3) (pos 1) ≡ ok empty
unfolding init
init-empty = refl

empty-IsValid : IsValid 3 empty
empty-IsValid = (init-IsValid 3 1 init-empty).0

full-IsValid : IsValid 3 full
unfolding program
full-IsValid = (resolve_query_lem tokens empty-IsValid).0

prepare_free_slots_lem_example :
    let (c', evicted) = prepare_free_slots full in
    IsValid 3 c'
    × (evicted ≡ min (1 - 0) 3)
    × (c'.residents ≡ drop evicted full.residents)
    × (c'.free_slot_target ≡ 1)
    × (free_count c' ≡ 0 + evicted)
    × (1 ≤ free_count c')
prepare_free_slots_lem_example = prepare_free_slots_lem full-IsValid

resolve_query_lem_example :
    let (c', s) = resolve_query empty tokens in
    IsValid 3 c'
    × (s.hits + s.misses ≡ 5)
    × (s.installs + s.shortages ≡ s.misses)
    × (free_count c' + s.installs ≡ 3)
    × (resident_count c' ≡ 0 + s.installs)
    × ((s.shortages ≡ 0) ⊎ (free_count c' ≡ 0))
    × (c'.free_slot_target ≡ 1)
resolve_query_lem_example = resolve_query_lem tokens empty-IsValid

abbrev three : List TokenKey
three = (0, 7) ∷ (0, 8) ∷ (1, 7) ∷ []

resolve_query_enough_example : (resolve_query empty three).1.shortages ≡ 0
resolve_query_enough_example = resolve_query_enough three empty-IsValid (omega arith)

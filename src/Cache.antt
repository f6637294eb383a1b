-- ===== src/Cache.antt =====
-- simu/kv_cache_eviction_sim.py: `LRUManagedCache` and `QueryStats`. A method returns the new
-- cache beside its result.
mod Keys
pub mod Valid
pub mod Resolve
mod Tests
use asu_ascend.Common.{
  ℕ, suc, ◌+◌, Bool, true, false, ◌&&◌, List, [], ◌∷◌, ◌++◌, ltb, ◌==◌, if◌then◌else◌, length,
  range_from, min,
}
pub use asu_ascend.Common.Results.{Fallible, ok, err}
use asu_ascend.Common.Int.{ℤ, pos, negsuc}

-- The request and its token.
abbrev pub TokenKey : Type 0
TokenKey = ℕ × ℕ

infix 50 ◌==key◌
abbrev pub ◌==key◌ : TokenKey → TokenKey → Bool
(a, b) ==key (c, d) = a == c && b == d

-- The ValueErrors, by the name in their message; those of the last two kinds have messages of
-- their own.
pub data Error : Type 0 where
  total_slots_negative free_slot_target_negative : Error

abbrev pub Result {ℓ} : Type ℓ → Type ℓ
Result A = Fallible Error A

pub record QueryStats : Type 0 where
  pub hits : ℕ
  pub misses : ℕ
  pub installs : ℕ
  pub shortages : ℕ

abbrev pub no_stats : QueryStats
no_stats = record { hits = 0; misses = 0; installs = 0; shortages = 0 }

-- `QueryStats.queries`
abbrev pub queries : QueryStats → ℕ
queries s = s.hits + s.misses

-- `QueryStats.add`
abbrev pub add : QueryStats → QueryStats → QueryStats
add s other = record {
  hits = s.hits + other.hits;
  misses = s.misses + other.misses;
  installs = s.installs + other.installs;
  shortages = s.shortages + other.shortages;
}

-- The Python list `_free_slots` is kept from its end, where it grows and shrinks. `_residents`
-- is in the order of the OrderedDict, least recently used first.
pub record LruManagedCache : Type 0 where
  pub free_slot_target : ℕ
  pub free_slots : List ℕ
  pub residents : List (TokenKey × ℕ)

-- `__init__`
unfoldable pub init : ℤ → ℤ → Result LruManagedCache
init (negsuc n) free_slot_target = err total_slots_negative
init (pos total_slots) (negsuc n) = err free_slot_target_negative
init (pos total_slots) (pos free_slot_target) = ok (record {
  free_slot_target = min free_slot_target total_slots;
  free_slots = range_from 0 total_slots;
  residents = [];
})

abbrev pub resident_count : LruManagedCache → ℕ
resident_count c = length c.residents

-- The property `free_slots`, the number of them.
abbrev pub free_count : LruManagedCache → ℕ
free_count c = length c.free_slots

-- The loop of `prepare_free_slots`: the residents go from the front, `popitem(last=False)`.
pub prepare_loop : ℕ → List ℕ → List (TokenKey × ℕ) → ℕ → LruManagedCache × ℕ
prepare_loop target free [] evicted =
    (record { free_slot_target = target; free_slots = free; residents = [] }, evicted)
prepare_loop target free ((key, slot) ∷ residents) evicted =
    let next = prepare_loop target (slot ∷ free) residents (evicted + 1) in
    if ltb (length free) target then next else (
      record { free_slot_target = target; free_slots = free; residents = (key, slot) ∷ residents },
      evicted,
    )

unfoldable pub prepare_free_slots : LruManagedCache → LruManagedCache × ℕ
unfolding prepare_loop
prepare_free_slots c = prepare_loop c.free_slot_target c.free_slots c.residents 0

-- `token in self._residents`
abbrev pub has_key : TokenKey → List (TokenKey × ℕ) → Bool
has_key k [] = false
has_key k ((j, slot) ∷ l) = if j ==key k then true else has_key k l

-- `move_to_end`
pub move_to_end : TokenKey → List (TokenKey × ℕ) → List (TokenKey × ℕ)
move_to_end k [] = []
move_to_end k ((j, slot) ∷ l) =
    if j ==key k then l ++ ((j, slot) ∷ []) else (j, slot) ∷ move_to_end k l

-- The first `if` of the loop's `else` part: a free slot, or a shortage.
pub install : TokenKey → LruManagedCache → QueryStats → LruManagedCache × QueryStats
install token c stats = elim c.free_slots [
  | [] ↦ (c, record stats { shortages = stats.shortages + 1 })
  | slot ∷ free ↦ (
    record c { free_slots = free; residents = c.residents ++ ((token, slot) ∷ []) },
    record stats { installs = stats.installs + 1 },
  )
]

-- One round of the loop of `resolve_query`.
pub resolve_token : TokenKey → LruManagedCache → QueryStats → LruManagedCache × QueryStats
unfolding move_to_end install
resolve_token token c stats =
    if has_key token c.residents
    then (
      record c { residents = move_to_end token c.residents },
      record stats { hits = stats.hits + 1 },
    )
    else install token c (record stats { misses = stats.misses + 1 })

pub resolve_loop : List TokenKey → LruManagedCache → QueryStats → LruManagedCache × QueryStats
unfolding resolve_token
resolve_loop [] c stats = (c, stats)
resolve_loop (token ∷ tokens) c stats =
    let (c', stats') = resolve_token token c stats in resolve_loop tokens c' stats'

unfoldable pub resolve_query : LruManagedCache → List TokenKey → LruManagedCache × QueryStats
unfolding resolve_loop
resolve_query c tokens = resolve_loop tokens c no_stats

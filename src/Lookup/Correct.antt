-- ===== src/Lookup/Correct.antt =====
-- `lookup_allocate_evict` from a valid state: when it returns, and what state it returns.
use asu_ascend.Common.{
  ℕ, suc, ◌<◌, ◌≤◌, ◌≡◌, refl, sym, ◌∙◌, ap, List, [], ◌∷◌, ◌++◌, inl, inr, Option-cases, ==_iff,
  length, get_elem?, take, drop, arith,
}
use asu_ascend.Common.Int.{ℤ, pos, negsuc}
use asu_ascend.Lookup.{
  LookupState, returns, raises, too_many_misses, slots, allocate, lookup_allocate_evict, resolve,
}
use asu_ascend.Lookup.Order.{list_eq_refl, length-perm}
use asu_ascend.Lookup.Loop.{
  tokens, after_all, CanInstall, install_all-after_all, Installed, after_all-Installed,
}
use asu_ascend.Lookup.Scanning.{scanned, scan-scanned, misses_absent, misses_once}
use asu_ascend.Lookup.Spec.{
  IsValid, absent_tokens, tokens-scanned, queried_slots, free_slots, hit_slots-queried,
  count-free_slots, count-free_slots_negsuc,
}

module _ (st : LookupState) (valid : IsValid st) (query : List ℤ) where
  open st use {token_to_slot as t2s, slot_to_token as s2t, lru_slots as lru}

  abbrev pub misses : List (ℕ × ℤ)
  misses = (scanned t2s 0 [] query).unique_misses

  pub length-misses : length misses ≡ length (absent_tokens t2s [] query)
  length-misses = sym (length-tokens misses) ∙ ap length (tokens-scanned t2s 0 [] query)
    where
      length-tokens : (l : List (ℕ × ℤ)) → length (tokens l) ≡ length l
      length-tokens [] = refl
      length-tokens (x ∷ l) = ap suc (length-tokens l)

  -- The state that the call leaves.
  abbrev pub finished : LookupState
  finished =
      let st' = after_all misses (free_slots st query) st in
      record st' {
        lru_slots =
            drop (length misses) (free_slots st query)
            ++ (take (length misses) (free_slots st query) ++ queried_slots st query);
      }

  allocated : lookup_allocate_evict query st ≡ allocate query (scanned t2s 0 [] query) st
  unfolding lookup_allocate_evict
  allocated = rw (
    (==_iff (length lru) (length s2t)).1 (length-perm (length s2t) lru valid.permutation),
    valid.permutation,
    list_eq_refl (slots (length s2t)),
    scan-scanned st valid.linked 0 [] query,
  )

  -- Conditions: the state is valid, and the query has more missing tokens than there are slots that
  -- it does not hit. The call raises, and the state is as it was.
  pub lookup_full :
      length (free_slots st query) < length (absent_tokens t2s [] query)
      → lookup_allocate_evict query st ≡ raises too_many_misses st
  unfolding allocate
  lookup_full h =
      rw (allocated, (hit_slots-queried st valid query).1) (ground (arith, length-misses))

  module _ (room : length (absent_tokens t2s [] query) ≤ length (free_slots st query)) where
    can_install : CanInstall misses (free_slots st query) st
    can_install = record {
      linked = valid.linked;
      missing = λ t h. elim (Option-cases (get_elem? t2s t)) [
        | inl e ↦ ground (arith, misses_absent t2s 0 [] query (pos t))
        | inr (pos s, e) ↦ ground (arith, misses_absent t2s 0 [] query (pos t))
        | inr (negsuc k, e) ↦ ground (arith, valid.linked.absent t k e)
      ];
      token_once = λ t. misses_once t2s 0 [] query t;
      token_sign = λ k. misses_absent t2s 0 [] query (negsuc k) refl;
      in_range = λ v h. ground (arith, count-free_slots st valid query v);
      slot_once = λ v. ground (arith, count-free_slots st valid query v);
      slot_sign = λ k. count-free_slots_negsuc st valid query k;
      enough = omega (arith, length-misses);
    }

    pub finished-Installed :
        Installed misses (free_slots st query) st (after_all misses (free_slots st query) st)
    finished-Installed = after_all-Installed misses (free_slots st query) st can_install

    pub lookup_room :
        let found = scanned t2s 0 [] query in
        lookup_allocate_evict query st
        ≡ returns (resolve finished.token_to_slot query found.slot_ids, found.miss_mask) finished
    unfolding allocate
    lookup_room =
        let split = hit_slots-queried st valid query in
        rw (allocated, split.0, split.1, install_all-after_all misses _ st can_install)
          (ground (arith, length-misses))

-- ===== src/Lookup/Tables.antt =====
-- The second loop of `lookup_allocate_evict`: the two tables stay inverse to each other.
use asu_ascend.Common.{
  ℕ, ◌<◌, ◌≡◌, List, Option, none, some, inl, inr, ◌==◌, if◌then◌else◌, Option-cases, length,
  get_elem?, set, length-set, get_elem?-set, get_elem?-of_lt, lt_of_get_elem?, arith,
}
use asu_ascend.Common.Int.{ℤ, pos, negsuc}
use asu_ascend.Lookup.{LookupState, returns, not_found, install}

-- `token_to_slot` and `slot_to_token` agree in both directions, and an absent token is marked
-- by `NOT_FOUND`.
pub record IsLinked (st : LookupState) : Type 0 where
  pub slot_holds :
      (t s : ℕ)
      → get_elem? st.token_to_slot t ≡ some (pos s)
      → get_elem? st.slot_to_token s ≡ some (pos t)
  pub token_knows :
      (s t : ℕ)
      → get_elem? st.slot_to_token s ≡ some (pos t)
      → get_elem? st.token_to_slot t ≡ some (pos s)
  pub absent : (t k : ℕ) → get_elem? st.token_to_slot t ≡ some (negsuc k) → k ≡ 0

-- `token_to_slot` once the victim's token is released.
abbrev pub released : Option ℤ → List ℤ → List ℤ
released (some (pos u)) t2s = set t2s u not_found
released (some (negsuc k)) t2s = t2s
released none t2s = t2s

-- The state behind one round.
abbrev pub installed : ℕ → ℕ → LookupState → LookupState
installed t v st = record st {
  token_to_slot = set (released (get_elem? st.slot_to_token v) st.token_to_slot) t (pos v);
  slot_to_token = set st.slot_to_token v (pos t);
}

module _ (t v : ℕ) (st : LookupState) (linked : IsLinked st) where
  open st use {token_to_slot as t2s, slot_to_token as s2t}

  pub install-installed :
      t < length t2s → v < length s2t → install (pos t) (pos v) st ≡ returns tt (installed t v st)
  unfolding install
  install-installed ht hv = elim (Option-cases (get_elem? s2t v)) [
    | inl e ↦ absurd (ground (arith, get_elem?-of_lt s2t v))
    | inr (pos u, e) ↦ ground (
      arith,
      linked.token_knows v u e,
      lt_of_get_elem? t2s u {v = pos v},
      length-set t2s u not_found,
      length-set s2t v (pos t),
    )
    | inr (negsuc k, e) ↦ ground arith
  ]

  module _ (missing : get_elem? t2s t ≡ some not_found) (hv : v < length s2t) where
    -- What the round leaves in the two tables.
    pub token_to_slot-installed :
        (j : ℕ)
        → get_elem? (installed t v st).token_to_slot j ≡ (
            if t == j then some (pos v) else elim (get_elem? s2t v) [
              | some (pos u) ↦ if u == j then some not_found else get_elem? t2s j
              | _ ↦ get_elem? t2s j
            ])
    token_to_slot-installed j = elim (Option-cases (get_elem? s2t v)) [
      | inl e ↦ absurd (ground (arith, get_elem?-of_lt s2t v))
      | inr (pos u, e) ↦ ground (
        arith,
        get_elem?-set (set t2s u not_found) t j (pos v),
        get_elem?-set t2s u j not_found,
        length-set t2s u not_found,
        lt_of_get_elem? t2s t missing,
        linked.token_knows v u e,
        lt_of_get_elem? t2s u {v = pos v},
      )
      | inr (negsuc k, e) ↦
          ground (arith, get_elem?-set t2s t j (pos v), lt_of_get_elem? t2s t missing)
    ]

    pub installed-IsLinked : IsLinked (installed t v st)
    installed-IsLinked = record {
      slot_holds = λ j s h.
          ground (
            arith,
            token_to_slot-installed j,
            get_elem?-set s2t v s (pos t),
            linked.slot_holds j s,
          );
      token_knows = λ s j h. ground (
        arith,
        token_to_slot-installed j,
        get_elem?-set s2t v s (pos t),
        linked.token_knows s j,
        linked.token_knows v j,
      );
      absent = λ j k h. ground (arith, token_to_slot-installed j, linked.absent j k);
    }

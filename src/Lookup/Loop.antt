-- ===== src/Lookup/Loop.antt =====
-- The second loop of `lookup_allocate_evict` as a whole: every round of it succeeds, and what the
-- rounds leave behind.
use asu_ascend.Common.{
  ℕ, zero, suc, ◌<◌, ◌≤◌, ◌≡◌, refl, ◌∙◌, List, [], ◌∷◌, Option, none, some, ◌==◌, if◌then◌else◌,
  length, get_elem?, length-set, lt_of_get_elem?, take, map, arith,
}
use asu_ascend.Common.Int.{ℤ, pos, negsuc, count}
use asu_ascend.Lookup.{LookupState, returns, not_found, install_all}
use asu_ascend.Lookup.Tables.{
  IsLinked, released, installed, install-installed, token_to_slot-installed, installed-IsLinked,
}

abbrev pub tokens : List (ℕ × ℤ) → List ℤ
tokens = map (λ m. m.1)

-- The state behind the loop, where every round succeeds.
pub after_all : List (ℕ × ℤ) → List ℤ → LookupState → LookupState
after_all ((i, pos t) ∷ ms) (pos v ∷ vs) st = after_all ms vs (installed t v st)
after_all _ _ st = st

pub after_all-nil : (vs : List ℤ) (st : LookupState) → after_all [] vs st ≡ st
unfolding after_all
after_all-nil vs st = refl

-- The missing tokens are absent and distinct, the victims are slots and distinct, and there are
-- victims enough.
pub record CanInstall (ms : List (ℕ × ℤ)) (vs : List ℤ) (st : LookupState) : Type 0 where
  pub linked : IsLinked st
  pub missing :
      (t : ℕ) → 0 < count (pos t) (tokens ms) → get_elem? st.token_to_slot t ≡ some not_found
  pub token_once : (t : ℕ) → count (pos t) (tokens ms) ≤ 1
  pub token_sign : (k : ℕ) → count (negsuc k) (tokens ms) ≡ 0
  pub in_range : (v : ℕ) → 0 < count (pos v) vs → v < length st.slot_to_token
  pub slot_once : (v : ℕ) → count (pos v) vs ≤ 1
  pub slot_sign : (k : ℕ) → count (negsuc k) vs ≡ 0
  pub enough : length ms ≤ length vs

module _ (i t v : ℕ) (ms : List (ℕ × ℤ)) (vs : List ℤ) (st : LookupState)
    (can : CanInstall ((i, pos t) ∷ ms) (pos v ∷ vs) st) where
  head-missing : get_elem? st.token_to_slot t ≡ some not_found
  head-missing = can.missing t (ground arith)

  head-in_range : v < length st.slot_to_token
  head-in_range = can.in_range v (ground arith)

  token_to_slot_step :
      (j : ℕ)
      → get_elem? (installed t v st).token_to_slot j ≡ (
          if t == j then some (pos v) else elim (get_elem? st.slot_to_token v) [
            | some (pos u) ↦ if u == j then some not_found else get_elem? st.token_to_slot j
            | _ ↦ get_elem? st.token_to_slot j
          ])
  token_to_slot_step = token_to_slot-installed t v st can.linked head-missing head-in_range

  CanInstall-step : CanInstall ms vs (installed t v st)
  CanInstall-step = record {
    linked = installed-IsLinked t v st can.linked head-missing head-in_range;
    missing = λ j h. ground (arith, can.missing j, can.token_once j, token_to_slot_step j);
    token_once = λ j. ground (arith, can.token_once j);
    token_sign = λ k. ground (arith, can.token_sign k);
    in_range = λ s h. ground (arith, can.in_range s, length-set st.slot_to_token v (pos t));
    slot_once = λ s. ground (arith, can.slot_once s);
    slot_sign = λ k. ground (arith, can.slot_sign k);
    enough = omega (arith, can.enough);
  }

-- The loop returns, and leaves `after_all`.
pub install_all-after_all :
    (ms : List (ℕ × ℤ)) (vs : List ℤ) (st : LookupState)
    → CanInstall ms vs st
    → install_all ms vs st ≡ returns tt (after_all ms vs st)
unfolding install_all after_all
install_all-after_all [] vs st can = refl
install_all-after_all (m ∷ ms) [] st can = absurd (omega (arith, can.enough))
install_all-after_all ((i, negsuc k) ∷ ms) (v ∷ vs) st can =
    absurd (ground (arith, can.token_sign k))
install_all-after_all ((i, pos t) ∷ ms) (negsuc k ∷ vs) st can =
    absurd (ground (arith, can.slot_sign k))
install_all-after_all ((i, pos t) ∷ ms) (pos v ∷ vs) st can =
    rw
      (install-installed t v st can.linked
        (lt_of_get_elem? st.token_to_slot t (head-missing i t v ms vs st can))
        (head-in_range i t v ms vs st can))
      (install_all-after_all ms vs (installed t v st) (CanInstall-step i t v ms vs st can))

length-released : (o : Option ℤ) (l : List ℤ) → length (released o l) ≡ length l
length-released (some (pos u)) l = length-set l u not_found
length-released (some (negsuc k)) l = refl
length-released none l = refl

length-installed :
    (t v : ℕ) (st : LookupState) → length (installed t v st).token_to_slot ≡ length st.token_to_slot
length-installed t v st =
    let o = get_elem? st.slot_to_token v in
    length-set (released o st.token_to_slot) t (pos v) ∙ length-released o st.token_to_slot

-- What the loop has done to the tables: the k-th missing token is in the k-th victim; a resident
-- of a victim is out, every other token is as it was.
pub record Installed (ms : List (ℕ × ℤ)) (vs : List ℤ) (st st' : LookupState) : Type 0 where
  pub linked : IsLinked st'
  pub same_lru : st'.lru_slots ≡ st.lru_slots
  pub same_slots : length st'.slot_to_token ≡ length st.slot_to_token
  pub same_tokens : length st'.token_to_slot ≡ length st.token_to_slot
  pub placed :
      (k t v : ℕ)
      → get_elem? (tokens ms) k ≡ some (pos t)
      → get_elem? vs k ≡ some (pos v)
      → get_elem? st'.token_to_slot t ≡ some (pos v)
  pub kept :
      (u s : ℕ)
      → get_elem? st.token_to_slot u ≡ some (pos s)
      → count (pos s) (take (length ms) vs) ≡ 0
      → get_elem? st'.token_to_slot u ≡ some (pos s)
  pub evicted :
      (u s : ℕ)
      → get_elem? st.token_to_slot u ≡ some (pos s)
      → 0 < count (pos s) (take (length ms) vs)
      → get_elem? st'.token_to_slot u ≡ some not_found
  pub untouched :
      (u : ℕ)
      → get_elem? st.token_to_slot u ≡ some not_found
      → count (pos u) (tokens ms) ≡ 0
      → get_elem? st'.token_to_slot u ≡ some not_found

pub count-take-le : (a : ℤ) (n : ℕ) (xs : List ℤ) → count a (take n xs) ≤ count a xs
count-take-le a zero xs = omega arith
count-take-le a (suc n) [] = omega arith
count-take-le a (suc n) (x ∷ xs) = omega (arith, count-take-le a n xs)

module _ (i t v : ℕ) (ms : List (ℕ × ℤ)) (vs : List ℤ) (st st' : LookupState)
    (can : CanInstall ((i, pos t) ∷ ms) (pos v ∷ vs) st)
    (rest : Installed ms vs (installed t v st) st') where
  not_again : count (pos v) (take (length ms) vs) ≡ 0
  not_again = ground (arith, can.slot_once v, count-take-le (pos v) (length ms) vs)

  first_placed : get_elem? st'.token_to_slot t ≡ some (pos v)
  first_placed = rest.kept t v (ground (arith, token_to_slot_step i t v ms vs st can t)) not_again

  placed_step :
      (k j s : ℕ)
      → get_elem? (tokens ((i, pos t) ∷ ms)) k ≡ some (pos j)
      → get_elem? (pos v ∷ vs) k ≡ some (pos s)
      → get_elem? st'.token_to_slot j ≡ some (pos s)
  placed_step zero j s h g = ground (arith, first_placed)
  placed_step (suc k) j s h g = rest.placed k j s h g

  Installed_step : Installed ((i, pos t) ∷ ms) (pos v ∷ vs) st st'
  Installed_step = record {
    linked = rest.linked;
    same_lru = rest.same_lru;
    same_slots = omega (arith, rest.same_slots, length-set st.slot_to_token v (pos t));
    same_tokens = rest.same_tokens ∙ length-installed t v st;
    placed = placed_step;
    kept = λ u s h out. ground (
      arith,
      token_to_slot_step i t v ms vs st can u,
      head-missing i t v ms vs st can,
      can.linked.token_knows v u,
      rest.kept u s,
    );
    evicted = λ u s h out. ground (
      arith,
      token_to_slot_step i t v ms vs st can u,
      can.missing u,
      can.linked.slot_holds u s,
      can.linked.token_knows v u,
      rest.untouched u,
      rest.evicted u s,
    );
    untouched = λ u h out. ground (
      arith,
      token_to_slot_step i t v ms vs st can u,
      can.linked.token_knows v u,
      rest.untouched u,
    );
  }

pub after_all-Installed :
    (ms : List (ℕ × ℤ)) (vs : List ℤ) (st : LookupState)
    → CanInstall ms vs st
    → Installed ms vs st (after_all ms vs st)
unfolding after_all
after_all-Installed [] vs st can = record {
  linked = can.linked;
  same_lru = refl;
  same_slots = refl;
  same_tokens = refl;
  placed = λ k t v h g. ground arith;
  kept = λ u s h out. h;
  evicted = λ u s h out. ground arith;
  untouched = λ u h out. h;
}
after_all-Installed (m ∷ ms) [] st can = absurd (omega (arith, can.enough))
after_all-Installed ((i, negsuc k) ∷ ms) (v ∷ vs) st can = absurd (ground (arith, can.token_sign k))
after_all-Installed ((i, pos t) ∷ ms) (negsuc k ∷ vs) st can =
    absurd (ground (arith, can.slot_sign k))
after_all-Installed ((i, pos t) ∷ ms) (pos v ∷ vs) st can =
    Installed_step i t v ms vs st _ can
      (after_all-Installed ms vs (installed t v st) (CanInstall-step i t v ms vs st can))

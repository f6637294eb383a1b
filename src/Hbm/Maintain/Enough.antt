-- ===== src/Hbm/Maintain/Enough.antt =====
-- When `expected_maintain` finds enough slots: a count in place of the order of its visits, and one
-- lookup followed by one refill.
use asu_ascend.Common.{
  ℕ, zero, suc, ◌+◌, ◌%◌, ◌≤◌, ◌≡◌, refl, ap, List, [], ◌∷◌, inl, inr, Bool-cases, length, arith,
}
use asu_ascend.Common.Totals.{bit, total, total_bound, total_zero, total_congr, total_residues}
use asu_ascend.Common.Int.{ℤ, pos, ◌==ℤ◌, ==ℤ_iff, contains}
use asu_ascend.Hbm.{Row}
use asu_ascend.Hbm.Ready.{occupied, occupied_count}
use asu_ascend.Hbm.Maintain.Ends.{can_evict, ahead}

ahead-total :
    (slot_count : ℕ) (protected : List ℤ) (r : Row) (at_ n : ℕ)
    → ahead slot_count protected r at_ n
      ≡ total (λ i. bit (can_evict protected r (i % slot_count))) at_ n
ahead-total slot_count protected r at_ zero = refl
ahead-total slot_count protected r at_ (suc n) =
    omega (arith, ahead-total slot_count protected r (suc at_) n)

-- How often a slot can be the one number `x`: at most once.
one_slot : (x : ℤ) (a n : ℕ) → total (λ s. bit (x ==ℤ pos s)) a n ≤ 1
one_slot x a zero = omega arith
one_slot x a (suc n) = elim (Bool-cases (x ==ℤ pos a)) [
  | inl here ↦ omega (
    arith,
    ap bit here,
    total_congr (λ s. bit (x ==ℤ pos s)) (λ s. 0) (suc a) n
        (λ s low high. ground (arith, ==ℤ_iff x (pos a), ==ℤ_iff x (pos s))),
    total_zero (λ s. 0) (suc a) n (λ s. refl),
  )
  | inr other ↦ omega (arith, ap bit other, one_slot x (suc a) n)
]

-- No more slots are protected than the list has entries.
protected-le-length :
    (protected : List ℤ) (n : ℕ)
    → total (λ s. bit (contains protected (pos s))) 0 n ≤ length protected
protected-le-length [] n = omega (arith, total_zero (λ s. 0) 0 n (λ s. refl))
protected-le-length (x ∷ protected) n = omega (
  arith,
  one_slot x 0 n,
  protected-le-length protected n,
  total_bound (λ s. bit (contains (x ∷ protected) (pos s))) (λ s. bit (x ==ℤ pos s))
      (λ s. bit (contains protected (pos s))) 0 n (λ s. ground arith),
)

-- However the visits start, the slots that may be given up are the occupied ones but for those that
-- are protected.
pub occupied-le-ahead :
    (slot_count : ℕ) (protected : List ℤ) (r : Row) (start : ℕ)
    → length r.slot_to_index ≡ slot_count
    → occupied_count r ≤ ahead slot_count protected r start slot_count + length protected
occupied-le-ahead slot_count protected r start sized =
    let evictable : ℕ → ℕ = λ s. bit (can_evict protected r s) in
    omega (
      arith,
      ahead-total slot_count protected r start slot_count,
      total_residues evictable start slot_count,
      protected-le-length protected slot_count,
      ap (λ (n : ℕ). total (occupied r) 0 n) sized,
      total_bound (occupied r) evictable (λ s. bit (contains protected (pos s))) 0 slot_count
          (λ s. by_slot s),
    )
  where
    by_slot :
        (s : ℕ) → occupied r s ≤ bit (can_evict protected r s) + bit (contains protected (pos s))
    by_slot s = ground arith

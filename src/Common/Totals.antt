-- ===== src/Common/Totals.antt =====
-- Sums of a function over consecutive numbers.
use Prim.Native.Nat.{ℕ, zero, suc, ◌+◌, ◌%◌, ◌≤◌, ◌<◌}
use mathlib.Core.Path.{◌≡◌, refl, ap, ◌∙◌}
use mathlib.Core.Logic.{◌≢◌, inl, inr}
use mathlib.Core.Bool.{Bool}
use native.Mathlib.Omega.{arith}
use native.Mathlib.Nat.{add-mod_right, mod-eq_of_lt}
use asu_ascend.Common.Tests.{if◌then◌else◌, ◌==◌, Bool-cases}

abbrev pub bit : Bool → ℕ
bit b = if b then 1 else 0

-- `f a + f (a + 1) + ...`: `n` terms.
abbrev pub total : (ℕ → ℕ) → ℕ → ℕ → ℕ
total f a zero = 0
total f a (suc n) = f a + total f (suc a) n

pub total_congr :
    (f g : ℕ → ℕ) (a n : ℕ) → ((i : ℕ) → a ≤ i → i < a + n → f i ≡ g i) → total f a n ≡ total g a n
total_congr f g a zero h = refl
total_congr f g a (suc n) h = omega (
  arith,
  h a (omega arith) (omega arith),
  total_congr f g (suc a) n (λ i low high. h i (omega arith) (omega arith)),
)

-- A sum of sums from above.
pub total_bound :
    (f g h : ℕ → ℕ) (a n : ℕ)
    → ((i : ℕ) → f i ≤ g i + h i)
    → total f a n ≤ total g a n + total h a n
total_bound f g h a zero le = omega arith
total_bound f g h a (suc n) le = omega (arith, le a, total_bound f g h (suc a) n le)

pub total_zero : (f : ℕ → ℕ) (a n : ℕ) → ((i : ℕ) → f i ≡ 0) → total f a n ≡ 0
total_zero f a zero h = refl
total_zero f a (suc n) h = omega (arith, h a, total_zero f (suc a) n h)

pub total_last : (f : ℕ → ℕ) (a n : ℕ) → total f a (suc n) ≡ total f a n + f (a + n)
total_last f a zero = let e : a + 0 ≡ a = omega arith in rw e (omega arith)
total_last f a (suc n) =
    let e : a + suc n ≡ suc a + n = omega arith in rw e (omega (arith, total_last f (suc a) n))

-- One term that is one larger.
pub total_change :
    (f g : ℕ → ℕ) (v a n : ℕ)
    → ((i : ℕ) → i ≢ v → g i ≡ f i)
    → g v ≡ f v + 1
    → a ≤ v
    → v < a + n
    → total g a n ≡ total f a n + 1
total_change f g v a zero same more low high = absurd (omega arith)
total_change f g v a (suc n) same more low high = elim (Bool-cases (a == v)) [
  | inl here ↦
      let e : a ≡ v = ground arith in
      omega (
        arith,
        ap f e,
        ap g e,
        more,
        total_congr g f (suc a) n (λ i above _. same i (λ at_v. omega arith)),
      )
  | inr elsewhere ↦ omega (
    arith,
    same a (λ e. ground arith),
    total_change f g v (suc a) n same more (ground arith) (omega arith),
  )
]

-- A turn over all remainders gives the same sum, wherever it starts.
pub total_turn : (f : ℕ → ℕ) (a n : ℕ) → total (λ i. f (i % n)) a n ≡ total (λ i. f (i % n)) 0 n
total_turn f zero n = refl
total_turn f (suc a) n =
    let g : ℕ → ℕ = λ i. f (i % n) in
    omega (arith, total_turn f a n, total_last g a n, ap f (add-mod_right a n))

pub total_residues : (f : ℕ → ℕ) (a n : ℕ) → total (λ i. f (i % n)) a n ≡ total f 0 n
total_residues f a n =
    total_turn f a n
    ∙ total_congr (λ i. f (i % n)) f 0 n
        (λ i low high. ap f (mod-eq_of_lt {n = i} {m = n} (omega arith)))

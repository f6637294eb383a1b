-- ===== src/Common/Int.antt =====
-- Signed integers over the native numbers, and Python's indexing of a list by them.
use asu_ascend.Common.{
  ℕ, zero, suc, ◌+◌, ◌-◌, ◌*◌, ◌%◌, ◌^◌, ◌<◌, ◌≡◌, ap, ◌↔◌, inl, inr, Bool, true, false, Option,
  none, some, List, [], ◌∷◌, ◌++◌, ltb, ◌==◌, if◌then◌else◌, Bool-cases, length, get_elem?, set,
  arith,
}

-- `negsuc n` is -(n + 1).
pub data ℤ : Type 0 where
  pos : ℕ → ℤ
  negsuc : ℕ → ℤ

-- `- n`
abbrev pub neg : ℕ → ℤ
neg zero = pos 0
neg (suc n) = negsuc n

abbrev pub pos_part : ℤ → ℕ
pos_part (pos n) = n
pos_part (negsuc n) = 0

infix 50 ◌==ℤ◌
abbrev pub ◌==ℤ◌ : ℤ → ℤ → Bool
pos a ==ℤ pos b = a == b
negsuc a ==ℤ negsuc b = a == b
_ ==ℤ _ = false

abbrev pub ltb_ℤ : ℤ → ℤ → Bool
ltb_ℤ (pos a) (pos b) = ltb a b
ltb_ℤ (pos a) (negsuc b) = false
ltb_ℤ (negsuc a) (pos b) = true
ltb_ℤ (negsuc a) (negsuc b) = ltb b a

infixl 60 ◌+ℤ◌
abbrev pub ◌+ℤ◌ : ℤ → ℤ → ℤ
pos a +ℤ pos b = pos (a + b)
negsuc a +ℤ negsuc b = negsuc (suc (a + b))
pos a +ℤ negsuc b = if ltb b a then pos (a - suc b) else negsuc (b - a)
negsuc a +ℤ pos b = if ltb a b then pos (b - suc a) else negsuc (a - b)

-- `ctypes.c_uint32`: the lowest 32 bits, in two's complement.
unfoldable pub c_uint32 : ℤ → ℕ
c_uint32 (pos n) = n % 2 ^ 32
c_uint32 (negsuc n) = 2 ^ 32 - 1 - n % 2 ^ 32

infixl 70 ◌*ℤ◌
abbrev pub ◌*ℤ◌ : ℤ → ℤ → ℤ
pos a *ℤ pos b = pos (a * b)
negsuc a *ℤ negsuc b = pos (suc a * suc b)
pos a *ℤ negsuc b = neg (a * suc b)
negsuc a *ℤ pos b = neg (suc a * b)

pub ==ℤ_iff : (a b : ℤ) → ((a ==ℤ b) ≡ true) ↔ (a ≡ b)
==ℤ_iff (pos a) (pos b) = ground arith
==ℤ_iff (pos a) (negsuc b) = ground arith
==ℤ_iff (negsuc a) (pos b) = ground arith
==ℤ_iff (negsuc a) (negsuc b) = ground arith

module _ {ℓ} {A : Type ℓ} where
  -- `xs[i]`: a negative index counts from the end, and `none` is IndexError.
  abbrev pub get? : List A → ℤ → Option A
  get? xs (pos i) = get_elem? xs i
  get? xs (negsuc i) = if ltb i (length xs) then get_elem? xs (length xs - suc i) else none

  -- `xs[i] = v`.
  abbrev pub set? : List A → ℤ → A → Option (List A)
  set? xs (pos i) v = if ltb i (length xs) then some (set xs i v) else none
  set? xs (negsuc i) v = if ltb i (length xs) then some (set xs (length xs - suc i) v) else none

-- How often a number stands in a list.
abbrev pub count : ℤ → List ℤ → ℕ
count a [] = 0
count a (x ∷ xs) = (if x ==ℤ a then 1 else 0) + count a xs

abbrev pub contains : List ℤ → ℤ → Bool
contains xs a = ltb 0 (count a xs)

pub count-append :
    (z : ℤ) (front back : List ℤ) → count z (front ++ back) ≡ count z front + count z back
count-append z (y ∷ front) back = omega (arith, count-append z front back)
count-append z [] back = omega arith

abbrev pub list_eq : List ℤ → List ℤ → Bool
list_eq [] [] = true
list_eq (x ∷ xs) (y ∷ ys) = if x ==ℤ y then list_eq xs ys else false
list_eq _ _ = false

pub count_of_get_elem? : (xs : List ℤ) (i : ℕ) (a : ℤ) → get_elem? xs i ≡ some a → 0 < count a xs
count_of_get_elem? [] i a h = ground arith
count_of_get_elem? (x ∷ xs) zero a h = ground (arith, ==ℤ_iff x a)
count_of_get_elem? (x ∷ xs) (suc i) a h = ground (arith, count_of_get_elem? xs i a)

pub index_of_count : (xs : List ℤ) (a : ℤ) → 0 < count a xs → (i : ℕ) × (get_elem? xs i ≡ some a)
index_of_count [] a h = absurd (omega arith)
index_of_count (x ∷ xs) a h = elim (Bool-cases (x ==ℤ a)) [
  | inl e ↦ (0, ap some ((==ℤ_iff x a).0 e))
  | inr e ↦ let (i, g) = index_of_count xs a (ground arith) in (suc i, g)
]

-- ===== src/Lookup/Order.antt =====
-- The permutation test of `lookup_allocate_evict`: what `sorted` forgets, and what it counts.
use asu_ascend.Common.{
  ℕ, zero, suc, ◌+◌, ◌≡◌, refl, sym, ap, ◌∙◌, true, false, List, [], ◌∷◌, ◌++◌, map, inl, inr, ◌&&◌,
  ltb, leb, if◌then◌else◌, Bool-cases, length, take, drop, range_from, take-append-drop, arith,
}
use asu_ascend.Common.Int.{ℤ, pos, negsuc, ltb_ℤ, ◌==ℤ◌, count, contains, list_eq, ==ℤ_iff}
use mathlib.Core.List.{append-nil, append_assoc}
use asu_ascend.Lookup.{insert, sorted, slots, hits_of, evictable_of}

pub ltb_ℤ_flip : (a b : ℤ) → ltb_ℤ a b ≡ true → ltb_ℤ b a ≡ false
ltb_ℤ_flip (pos a) (pos b) h = ground arith
ltb_ℤ_flip (pos a) (negsuc b) h = ground arith
ltb_ℤ_flip (negsuc a) (pos b) h = ground arith
ltb_ℤ_flip (negsuc a) (negsuc b) h = ground arith

ltb_ℤ_antisymm : (a b : ℤ) → ltb_ℤ a b ≡ false → ltb_ℤ b a ≡ false → a ≡ b
ltb_ℤ_antisymm (pos a) (pos b) h k = ground arith
ltb_ℤ_antisymm (pos a) (negsuc b) h k = ground arith
ltb_ℤ_antisymm (negsuc a) (pos b) h k = ground arith
ltb_ℤ_antisymm (negsuc a) (negsuc b) h k = ground arith

ltb_ℤ_trans : (a b c : ℤ) → ltb_ℤ b a ≡ true → ltb_ℤ b c ≡ false → ltb_ℤ c a ≡ true
ltb_ℤ_trans (pos a) (pos b) (pos c) h k = ground arith
ltb_ℤ_trans (pos a) (pos b) (negsuc c) h k = ground arith
ltb_ℤ_trans (pos a) (negsuc b) (pos c) h k = ground arith
ltb_ℤ_trans (pos a) (negsuc b) (negsuc c) h k = ground arith
ltb_ℤ_trans (negsuc a) (pos b) (pos c) h k = ground arith
ltb_ℤ_trans (negsuc a) (pos b) (negsuc c) h k = ground arith
ltb_ℤ_trans (negsuc a) (negsuc b) (pos c) h k = ground arith
ltb_ℤ_trans (negsuc a) (negsuc b) (negsuc c) h k = ground arith

-- A run of consecutive numbers is sorted.
pub sorted-run : (a n : ℕ) → sorted (map pos (range_from a n)) ≡ map pos (range_from a n)
unfolding sorted
sorted-run a zero = refl
sorted-run a (suc n) = rw (sorted-run (suc a) n) (insert-run a n)
  where
    insert-run :
        (a n : ℕ) → insert (pos a) (map pos (range_from (suc a) n)) ≡ map pos (range_from a (suc n))
    insert-run a zero = refl
    insert-run a (suc n) = ground arith

insert_comm : (x y : ℤ) (l : List ℤ) → insert x (insert y l) ≡ insert y (insert x l)
unfolding insert
insert_comm x y [] = ground (arith, ltb_ℤ_flip x y, ltb_ℤ_flip y x, ltb_ℤ_antisymm x y)
insert_comm x y (z ∷ l) = ground (
  arith,
  insert_comm x y l,
  ltb_ℤ_flip x y,
  ltb_ℤ_flip y x,
  ltb_ℤ_antisymm x y,
  ltb_ℤ_trans x z y,
  ltb_ℤ_trans y z x,
)

count-insert :
    (a x : ℤ) (l : List ℤ) → count a (insert x l) ≡ (if x ==ℤ a then 1 else 0) + count a l
unfolding insert
count-insert a x [] = refl
count-insert a x (y ∷ l) = elim (Bool-cases (ltb_ℤ y x)) [
  | inl e ↦ rw e (omega (arith, count-insert a x l))
  | inr e ↦ rw e refl
]

pub count-sorted : (a : ℤ) (l : List ℤ) → count a (sorted l) ≡ count a l
unfolding sorted
count-sorted a [] = refl
count-sorted a (x ∷ l) = omega (arith, count-insert a x (sorted l), count-sorted a l)

sorted-append_cong :
    (xs ys zs : List ℤ) → sorted ys ≡ sorted zs → sorted (xs ++ ys) ≡ sorted (xs ++ zs)
unfolding sorted
sorted-append_cong [] ys zs h = h
sorted-append_cong (x ∷ xs) ys zs h = ap (insert x) (sorted-append_cong xs ys zs h)

sorted-middle : (x : ℤ) (xs ys : List ℤ) → sorted (xs ++ (x ∷ ys)) ≡ insert x (sorted (xs ++ ys))
unfolding sorted
sorted-middle x [] ys = refl
sorted-middle x (y ∷ xs) ys =
    ap (insert y) (sorted-middle x xs ys) ∙ insert_comm y x (sorted (xs ++ ys))

sorted-append_comm : (xs ys : List ℤ) → sorted (xs ++ ys) ≡ sorted (ys ++ xs)
unfolding sorted
sorted-append_comm [] ys = ap sorted (sym (append-nil ys))
sorted-append_comm (x ∷ xs) ys =
    ap (insert x) (sorted-append_comm xs ys) ∙ sym (sorted-middle x ys xs)

sorted-parts :
    (hit_set l : List ℤ) → sorted (evictable_of hit_set l ++ hits_of hit_set l) ≡ sorted l
unfolding sorted hits_of evictable_of
sorted-parts hit_set [] = refl
sorted-parts hit_set (x ∷ l) = elim (Bool-cases (contains hit_set x)) [
  | inl e ↦ rw e (
      sorted-middle x (evictable_of hit_set l) (hits_of hit_set l)
      ∙ ap (insert x) (sorted-parts hit_set l))
  | inr e ↦ rw e (ap (insert x) (sorted-parts hit_set l))
]

-- The new LRU list sorts to what the old one does.
pub sorted-rotated :
    (n : ℕ) (hit_set l : List ℤ)
    → let e = evictable_of hit_set l in
      sorted (drop n e ++ (take n e ++ hits_of hit_set l)) ≡ sorted l
sorted-rotated n hit_set l =
    let e = evictable_of hit_set l in
    let h = hits_of hit_set l in
    ap sorted (sym (append_assoc (drop n e) (take n e) h))
    ∙ sorted-append_comm (drop n e ++ take n e) h
    ∙ sorted-append_cong h (drop n e ++ take n e) e
        (sorted-append_comm (drop n e) (take n e) ∙ ap sorted (take-append-drop n e))
    ∙ sorted-append_comm h e
    ∙ sorted-parts hit_set l

-- The Boolean test decides the equation.
pub list_eq_sound : (xs ys : List ℤ) → list_eq xs ys ≡ true → xs ≡ ys
list_eq_sound [] [] h = refl
list_eq_sound [] (y ∷ ys) h = ground arith
list_eq_sound (x ∷ xs) [] h = ground arith
list_eq_sound (x ∷ xs) (y ∷ ys) h = ground (arith, ==ℤ_iff x y, list_eq_sound xs ys)

pub list_eq_refl : (xs : List ℤ) → list_eq xs xs ≡ true
list_eq_refl [] = refl
list_eq_refl (x ∷ xs) = ground (arith, ==ℤ_iff x x, list_eq_refl xs)

count-range :
    (lo n i : ℕ)
    → count (pos i) (map pos (range_from lo n)) ≡ (if leb lo i && ltb i (lo + n) then 1 else 0)
count-range lo zero i = ground arith
count-range lo (suc n) i = ground (arith, count-range (suc lo) n i)

count-range_negsuc : (lo n i : ℕ) → count (negsuc i) (map pos (range_from lo n)) ≡ 0
count-range_negsuc lo zero i = refl
count-range_negsuc lo (suc n) i = omega (arith, count-range_negsuc (suc lo) n i)

length-insert : (x : ℤ) (l : List ℤ) → length (insert x l) ≡ suc (length l)
unfolding insert
length-insert x [] = refl
length-insert x (y ∷ l) = ground (arith, length-insert x l)

length-sorted : (l : List ℤ) → length (sorted l) ≡ length l
unfolding sorted
length-sorted [] = refl
length-sorted (x ∷ l) = omega (arith, length-insert x (sorted l), length-sorted l)

length-slots : (lo n : ℕ) → length (map pos (range_from lo n)) ≡ n
length-slots lo zero = refl
length-slots lo (suc n) = ap suc (length-slots (suc lo) n)

module _ (n : ℕ) (l : List ℤ) (perm : sorted l ≡ slots n) where
  -- A permutation of the slots holds each slot once, and nothing else.
  pub count-perm : (i : ℕ) → count (pos i) l ≡ (if ltb i n then 1 else 0)
  count-perm i = ground (arith, count-sorted (pos i) l, count-range 0 n i, ap (count (pos i)) perm)

  pub count-perm_negsuc : (i : ℕ) → count (negsuc i) l ≡ 0
  count-perm_negsuc i =
      omega (arith, count-sorted (negsuc i) l, count-range_negsuc 0 n i, ap (count (negsuc i)) perm)

  -- It is as long as the slot table.
  pub length-perm : length l ≡ n
  length-perm = omega (arith, length-sorted l, length-slots 0 n, ap (length {A = ℤ}) perm)

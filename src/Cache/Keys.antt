-- ===== src/Cache/Keys.antt =====
-- Counting the keys and the slots of a resident list.
use asu_ascend.Common.{
  ℕ, zero, suc, ◌+◌, ◌≤◌, ◌≡◌, refl, ap, ◌↔◌, true, false, ◌&&◌, Option, none, some, List, [], ◌∷◌,
  ◌++◌, ltb, leb, ◌==◌, if◌then◌else◌, length, length-append, range_from, arith,
}
use asu_ascend.Cache.{TokenKey, ◌==key◌, has_key, move_to_end}

abbrev pub count : ℕ → List ℕ → ℕ
count s [] = 0
count s (x ∷ xs) = (if x == s then 1 else 0) + count s xs

-- How many residents hold a slot, and how many have a key.
abbrev pub held : ℕ → List (TokenKey × ℕ) → ℕ
held s [] = 0
held s ((k, x) ∷ l) = (if x == s then 1 else 0) + held s l

abbrev pub keyed : TokenKey → List (TokenKey × ℕ) → ℕ
keyed k [] = 0
keyed k ((j, x) ∷ l) = (if j ==key k then 1 else 0) + keyed k l

-- The slot of a resident.
abbrev pub slot_of : TokenKey → List (TokenKey × ℕ) → Option ℕ
slot_of k [] = none
slot_of k ((j, x) ∷ l) = if j ==key k then some x else slot_of k l

pub ==key_iff : (j k : TokenKey) → ((j ==key k) ≡ true) ↔ (j ≡ k)
==key_iff (a, b) (c, d) = ground arith

pub held-append : (s : ℕ) (l m : List (TokenKey × ℕ)) → held s (l ++ m) ≡ held s l + held s m
held-append s [] m = omega arith
held-append s ((k, x) ∷ l) m = omega (arith, held-append s l m)

pub keyed-append :
    (k : TokenKey) (l m : List (TokenKey × ℕ)) → keyed k (l ++ m) ≡ keyed k l + keyed k m
keyed-append k [] m = omega arith
keyed-append k ((j, x) ∷ l) m = omega (arith, keyed-append k l m)

pub held-move_to_end :
    (s : ℕ) (k : TokenKey) (l : List (TokenKey × ℕ)) → held s (move_to_end k l) ≡ held s l
unfolding move_to_end
held-move_to_end s k [] = refl
held-move_to_end s k ((j, x) ∷ l) =
    ground (arith, held-append s l ((j, x) ∷ []), held-move_to_end s k l)

pub keyed-move_to_end :
    (q k : TokenKey) (l : List (TokenKey × ℕ)) → keyed q (move_to_end k l) ≡ keyed q l
unfolding move_to_end
keyed-move_to_end q k [] = refl
keyed-move_to_end q k ((j, x) ∷ l) =
    ground (arith, keyed-append q l ((j, x) ∷ []), keyed-move_to_end q k l)

pub length-move_to_end :
    (k : TokenKey) (l : List (TokenKey × ℕ)) → length (move_to_end k l) ≡ length l
unfolding move_to_end
length-move_to_end k [] = refl
length-move_to_end k ((j, x) ∷ l) =
    ground (arith, length-append l ((j, x) ∷ []), length-move_to_end k l)

pub slot_of-append :
    (k : TokenKey) (l m : List (TokenKey × ℕ))
    → slot_of k (l ++ m) ≡ (if has_key k l then slot_of k l else slot_of k m)
slot_of-append k [] m = refl
slot_of-append k ((j, x) ∷ l) m = ground (arith, slot_of-append k l m)

pub has_key-keyed : (k : TokenKey) (l : List (TokenKey × ℕ)) → has_key k l ≡ ltb 0 (keyed k l)
has_key-keyed k [] = refl
has_key-keyed k ((j, x) ∷ l) = ground (arith, has_key-keyed k l)

pub slot_of-none :
    (k : TokenKey) (l : List (TokenKey × ℕ)) → has_key k l ≡ false → slot_of k l ≡ none
slot_of-none k [] h = refl
slot_of-none k ((j, x) ∷ l) h = ground (arith, slot_of-none k l)

-- A move keeps every slot, where the keys are distinct.
pub slot_of-move_to_end :
    (q k : TokenKey) (l : List (TokenKey × ℕ))
    → keyed k l ≤ 1
    → slot_of q (move_to_end k l) ≡ slot_of q l
unfolding move_to_end
slot_of-move_to_end q k [] h = refl
slot_of-move_to_end q k ((j, x) ∷ l) h = ground (
  arith,
  slot_of-append q l ((j, x) ∷ []),
  slot_of-move_to_end q k l,
  has_key-keyed q l,
  ==key_iff j k,
  ==key_iff j q,
  slot_of-none q l,
)

pub count-range :
    (s lo n : ℕ) → count s (range_from lo n) ≡ (if leb lo s && ltb s (lo + n) then 1 else 0)
count-range s lo zero = ground arith
count-range s lo (suc n) = ground (arith, count-range s (suc lo) n)

pub length-range : (lo n : ℕ) → length (range_from lo n) ≡ n
length-range lo zero = refl
length-range lo (suc n) = ap suc (length-range (suc lo) n)

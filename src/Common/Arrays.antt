-- ===== src/Common/Arrays.antt =====
-- Arrays of integers as lists: runs of consecutive numbers, the assignment of several entries at once,
-- and how many entries satisfy a test.
use asu_ascend.Common.{
  ℕ, zero, suc, ◌+◌, ◌-◌, ◌≤◌, ◌<◌, ◌≡◌, refl, ◌∙◌, Bool, false, not, ◌&&◌, none, some, List, [],
  ◌∷◌, ◌++◌, map, ltb, leb, if◌then◌else◌, length, get_elem?, set, length-set, get_elem?-set,
  replicate, range_from, arith,
}
use asu_ascend.Common.Results.{Fallible, ok, err}
use asu_ascend.Common.Int.{ℤ, pos, set?, ◌==ℤ◌, count}

-- `np.arange(a, a + n)` and `range(a, a + n)`
abbrev pub arange : ℕ → ℕ → List ℤ
arange a n = map pos (range_from a n)

-- `row[keys] = values`, with the errors of a key that is out of range and of lengths that differ.
unfoldable pub assign : {E : Type 0} → E → E → List ℤ → List ℤ → List ℤ → Fallible E (List ℤ)
assign index_error shape_error row [] [] = ok row
assign index_error shape_error row (key ∷ keys) (value ∷ values) = elim (set? row key value) [
  | none ↦ err index_error
  | some row' ↦ assign index_error shape_error row' keys values
]
assign index_error shape_error row _ _ = err shape_error

-- How many entries satisfy a test.
abbrev pub count_if {ℓ} : {A : Type ℓ} → (A → Bool) → List A → ℕ
count_if p [] = 0
count_if p (x ∷ xs) = (if p x then 1 else 0) + count_if p xs

module _ {ℓ} {A : Type ℓ} (p : A → Bool) where
  pub count_if-append :
      (front back : List A) → count_if p (front ++ back) ≡ count_if p front + count_if p back
  count_if-append [] back = omega arith
  count_if-append (x ∷ front) back = omega (arith, count_if-append front back)

  pub count_if-not : (l : List A) → count_if p l + count_if (λ x. not (p x)) l ≡ length l
  count_if-not [] = refl
  count_if-not (x ∷ l) = ground (arith, count_if-not l)

pub count-count_if : (z : ℤ) (l : List ℤ) → count z l ≡ count_if (λ x. x ==ℤ z) l
count-count_if z [] = refl
count-count_if z (x ∷ l) = omega (arith, count-count_if z l)

-- A test that holds nowhere on a run.
pub count_if-arange :
    (p : ℤ → Bool) (a n : ℕ)
    → ((i : ℕ) → a ≤ i → i < a + n → p (pos i) ≡ false)
    → count_if p (arange a n) ≡ 0
count_if-arange p a zero h = refl
count_if-arange p a (suc n) h = ground (
  arith,
  h a (omega arith) (omega arith),
  count_if-arange p (suc a) n (λ i low high. h i (omega arith) (omega arith)),
)

pub count-arange :
    (a n i : ℕ) → count (pos i) (arange a n) ≡ (if leb a i && ltb i (a + n) then 1 else 0)
count-arange a zero i = ground arith
count-arange a (suc n) i = ground (arith, count-arange (suc a) n i)

pub get_elem?-replicate {ℓ} :
    {A : Type ℓ} (n : ℕ) (a : A) (i : ℕ)
    → get_elem? (replicate n a) i ≡ (if ltb i n then some a else none)
get_elem?-replicate zero a i = ground arith
get_elem?-replicate (suc n) a zero = ground arith
get_elem?-replicate (suc n) a (suc i) = ground (arith, get_elem?-replicate n a i)

pub get_elem?-arange :
    (a n i : ℕ) → get_elem? (arange a n) i ≡ (if ltb i n then some (pos (a + i)) else none)
get_elem?-arange a zero i = ground arith
get_elem?-arange a (suc n) zero = ground arith
get_elem?-arange a (suc n) (suc i) = ground (arith, get_elem?-arange (suc a) n i)

pub length-arange : (a n : ℕ) → length (arange a n) ≡ n
length-arange a zero = refl
length-arange a (suc n) = omega (arith, length-arange (suc a) n)

-- The entries `a, ..., a + n - 1` are `b, ..., b + n - 1`, the others as in `row`.
pub record Assigned (row : List ℤ) (a b n : ℕ) (row' : List ℤ) : Type 0 where
  pub same_length : length row' ≡ length row
  pub entries :
      (i : ℕ)
      → get_elem? row' i
        ≡ (if leb a i && ltb i (a + n) then some (pos (b + (i - a))) else get_elem? row i)

pub assign-arange :
    {E : Type 0} (index_error shape_error : E) (row : List ℤ) (a b n : ℕ)
    → a + n ≤ length row
    → (row' : List ℤ) × (assign index_error shape_error row (arange a n) (arange b n) ≡ ok row')
      × Assigned row a b n row'
unfolding assign
assign-arange index_error shape_error row a b zero room =
    (row, refl, record { same_length = refl; entries = λ i. ground arith })
assign-arange index_error shape_error row a b (suc n) room =
    let row1 = set row a (pos b) in
    let same = length-set row a (pos b) in
    let (row', run, done) =
      assign-arange index_error shape_error row1 (suc a) (suc b) n (omega (arith, same, room)) in
    (
      row',
      ground (arith, room, run),
      record {
        same_length = done.same_length ∙ same;
        entries = λ i. ground (arith, done.entries i, get_elem?-set row a i (pos b), room);
      },
    )

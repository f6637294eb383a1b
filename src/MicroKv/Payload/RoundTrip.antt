-- ===== src/MicroKv/Payload/RoundTrip.antt =====
-- The client reads back what the server sends for a batch.
use asu_ascend.Common.{
  ℕ, suc, ◌+◌, ◌<◌, ◌^◌, ◌≡◌, refl, ap, ◌∙◌, sym, Bool, true, false, Option, none, some, List, [],
  ◌∷◌, ◌++◌, ◌==◌, length, take, drop, get_elem?, All, length-append, not, if◌then◌else◌, arith,
}
use mathlib.Core.Path.{ap₂}
use mathlib.Core.List.{append-nil, append_assoc}
use native.Mathlib.Nat.{add-zero}
use asu_ascend.MicroKv.Wire.{Bytes, ok, err, ◌>>=◌, le_bytes, le_number, trailing_bytes}
use asu_ascend.MicroKv.Wire.Laws.{length-le_bytes, le_number-le_bytes}
use asu_ascend.MicroKv.Payload.{
  parse_items, parse_batch_get_payload, flags_from, parse_batch_exists_payload, get_item, get_items,
  batch_get_payload, batch_exists_payload, slice, u32_at, flag_at, flag_bytes,
}

module _ {ℓ} {A : Type ℓ} where
  drop-length : (xs ys : List A) → drop (length xs) (xs ++ ys) ≡ ys
  drop-length [] ys = refl
  drop-length (x ∷ xs) ys = drop-length xs ys

  take-length : (xs ys : List A) → take (length xs) (xs ++ ys) ≡ xs
  take-length [] ys = refl
  take-length (x ∷ xs) ys = ap (◌∷◌ x) (take-length xs ys)

  get_elem?-length :
      (xs : List A) (y : A) (ys : List A) → get_elem? (xs ++ (y ∷ ys)) (length xs) ≡ some y
  get_elem?-length [] y ys = refl
  get_elem?-length (x ∷ xs) y ys = get_elem?-length xs y ys

-- What stands behind `front` is read at its length.
slice_behind :
    (front item back : Bytes) (off n : ℕ)
    → off ≡ length front
    → n ≡ length item
    → slice (front ++ (item ++ back)) off n ≡ item
slice_behind front item back off n e f =
    rw (e, f, drop-length front (item ++ back), take-length item back)

-- A value that a u32 can measure.
abbrev pub FitsU32 : Option Bytes → Type 0
FitsU32 (some value) = length value < 256 ^ 4
FitsU32 none = Unit

-- An item of a flag and a value, as it stands in a payload.
abbrev item : ℕ → Bytes → Bytes
item b v = b ∷ (le_bytes 4 (length v) ++ v)

module _ (front : Bytes) (b : ℕ) (v rest : Bytes) (off : ℕ) (at_front : off ≡ length front) where
  abbrev payload : Bytes
  payload = front ++ (item b v ++ rest)

  item_flag : flag_at payload off ≡ not (b == 0)
  item_flag =
      rw at_front (ground (arith, get_elem?-length front b ((le_bytes 4 (length v) ++ v) ++ rest)))

  item_value : slice payload (off + 5) (length v) ≡ v
  item_value = rw regroup (
      slice_behind (front ++ (b ∷ le_bytes 4 (length v))) v rest (off + 5) (length v)
        (omega (
          arith,
          at_front,
          length-append front (b ∷ le_bytes 4 (length v)),
          length-le_bytes 4 (length v),
        ))
        refl)
    where
      regroup : payload ≡ (front ++ (b ∷ le_bytes 4 (length v))) ++ (v ++ rest)
      regroup = simp append_assoc

  item_length : length v < 256 ^ 4 → u32_at payload (off + 1) ≡ length v
  item_length fits = rw regroup (
      ap le_number (
        slice_behind (front ++ (b ∷ [])) (le_bytes 4 (length v)) (v ++ rest) (off + 1) 4
          (omega (arith, at_front, length-append front (b ∷ [])))
          (sym (length-le_bytes 4 (length v))))
      ∙ le_number-le_bytes 4 (length v) fits)
    where
      regroup : payload ≡ (front ++ (b ∷ [])) ++ (le_bytes 4 (length v) ++ (v ++ rest))
      regroup = simp append_assoc

  length-payload : length payload ≡ off + 5 + length v + length rest
  length-payload = omega (
    arith,
    at_front,
    length-append front (item b v ++ rest),
    length-append (item b v) rest,
    length-append (le_bytes 4 (length v)) v,
    length-le_bytes 4 (length v),
  )

  -- One round of the loop, on such an item.
  item_step :
      (count : ℕ)
      → length v < 256 ^ 4
      → parse_items (suc count) payload off ≡ (
          parse_items count payload (off + 5 + length v) >>= λ r.
          ok ((if not (b == 0) then some v else none) ∷ r.0, r.1))
  unfolding parse_items
  item_step count fits =
      rw (item_length fits, item_flag, item_value) (ground (arith, length-payload))

-- An item of the server's answer, in that form.
get_item-item : (v : Bytes) → get_item (some v) ≡ item 1 v
unfolding get_item
get_item-item v = refl

get_item-none : get_item none ≡ item 0 []
unfolding get_item
get_item-none = ap (◌∷◌ 0) (sym (append-nil (le_bytes 4 0)))

-- One round, if the rest of the loop reads the items that follow.
round :
    (b : ℕ) (v : Bytes) (values : List (Option Bytes)) (front back : Bytes) (off : ℕ)
    → off ≡ length front
    → length v < 256 ^ 4
    → parse_items
        (length values)
        ((front ++ item b v) ++ (get_items values ++ back))
        (off + 5 + length v)
      ≡ ok (values, off + 5 + length v + length (get_items values))
    → parse_items (suc (length values)) (front ++ ((item b v ++ get_items values) ++ back)) off
      ≡ ok (
        (if not (b == 0) then some v else none) ∷ values,
        off + length (item b v ++ get_items values),
      )
round b v values front back off e fits rest =
    let regroup : front ++ ((item b v ++ get_items values) ++ back)
        ≡ front ++ (item b v ++ (get_items values ++ back)) =
      simp append_assoc in
    let regroup' : front ++ (item b v ++ (get_items values ++ back))
        ≡ (front ++ item b v) ++ (get_items values ++ back) =
      simp append_assoc in
    rw regroup (
      item_step front b v (get_items values ++ back) off e (length values) fits
      ∙ rw (regroup', rest)
          (ap (λ (n : ℕ). ok ((if not (b == 0) then some v else none) ∷ values, n)) total))
  where
    total :
        off + 5 + length v + length (get_items values) ≡ off + length (item b v ++ get_items values)
    total = omega (
      arith,
      length-append (item b v) (get_items values),
      length-append (le_bytes 4 (length v)) v,
      length-le_bytes 4 (length v),
    )

behind :
    (front : Bytes) (b : ℕ) (v : Bytes) (off : ℕ)
    → off ≡ length front
    → off + 5 + length v ≡ length (front ++ item b v)
behind front b v off e = omega (
  arith,
  e,
  length-append front (item b v),
  length-append (le_bytes 4 (length v)) v,
  length-le_bytes 4 (length v),
)

-- The loop reads the items of any values, wherever they stand in a payload.
parse_items-get_items :
    (values : List (Option Bytes)) (front back : Bytes) (off : ℕ)
    → off ≡ length front
    → All FitsU32 values
    → parse_items (length values) (front ++ (get_items values ++ back)) off
      ≡ ok (values, off + length (get_items values))
unfolding get_items
parse_items-get_items [] front back off e h = unfold parse_items in rw add-zero
parse_items-get_items (some v ∷ values) front back off e (fits, h) = rw (get_item-item v) (
    round 1 v values front back off e fits (
      parse_items-get_items values (front ++ item 1 v) back (off + 5 + length v)
        (behind front 1 v off e) h))
parse_items-get_items (none ∷ values) front back off e (fits, h) = rw get_item-none (
    round 0 [] values front back off e (omega arith) (
      parse_items-get_items values (front ++ item 0 []) back (off + 5 + 0) (behind front 0 [] off e)
        h))

-- The four bytes of the count, in front of anything.
count_at : (n : ℕ) (body : Bytes) → n < 256 ^ 4 → u32_at (le_bytes 4 n ++ body) 0 ≡ n
count_at n body h =
    ap le_number (slice_behind [] (le_bytes 4 n) body 0 4 refl (sym (length-le_bytes 4 n)))
    ∙ le_number-le_bytes 4 n h

-- The parser on a payload with anything behind the last item.
parse-append :
    (values : List (Option Bytes)) (extra : Bytes)
    → length values < 256 ^ 4
    → All FitsU32 values
    → parse_batch_get_payload (batch_get_payload values ++ extra)
      ≡ (if 0 == length extra then ok values else err trailing_bytes)
unfolding parse_batch_get_payload batch_get_payload
parse-append values extra h fits =
    let head = le_bytes 4 (length values) in
    rw
      (
        append_assoc head (get_items values) extra,
        count_at (length values) (get_items values ++ extra) h,
        parse_items-get_items values head extra 4 (sym (length-le_bytes 4 (length values))) fits,
      )
      (ground (
        arith,
        length-append head (get_items values ++ extra),
        length-append (get_items values) extra,
        length-le_bytes 4 (length values),
      ))

-- Conditions: the number of values and the length of each fit a u32. The client reads back exactly
-- the values, absent ones and empty ones told apart.
pub parse-batch_get_payload :
    (values : List (Option Bytes))
    → length values < 256 ^ 4
    → All FitsU32 values
    → parse_batch_get_payload (batch_get_payload values) ≡ ok values
parse-batch_get_payload values h fits =
    rw (append-nil (batch_get_payload values)) at (parse-append values [] h fits)

-- Conditions: as above, and at least one more byte follows. The client refuses the payload.
pub parse_trailing :
    (values : List (Option Bytes)) (b : ℕ) (extra : Bytes)
    → length values < 256 ^ 4
    → All FitsU32 values
    → parse_batch_get_payload (batch_get_payload values ++ (b ∷ extra)) ≡ err trailing_bytes
parse_trailing values b extra h fits = ground (arith, parse-append values (b ∷ extra) h fits)

length-flag_bytes : (flags : List Bool) → length (flag_bytes flags) ≡ length flags
length-flag_bytes [] = refl
length-flag_bytes (f ∷ flags) = ap suc (length-flag_bytes flags)

flag_at-front :
    (f : Bool) (front back : Bytes)
    → flag_at (front ++ ((if f then 1 else 0) ∷ back)) (length front) ≡ f
flag_at-front true front back = ground (arith, get_elem?-length front 1 back)
flag_at-front false front back = ground (arith, get_elem?-length front 0 back)

flags_from-flag_bytes :
    (flags : List Bool) (front : Bytes) (i : ℕ)
    → i ≡ length front
    → flags_from (length flags) (front ++ flag_bytes flags) i ≡ flags
unfolding flags_from
flags_from-flag_bytes [] front i e = refl
flags_from-flag_bytes (f ∷ flags) front i e =
    ap₂ ◌∷◌ (rw e (flag_at-front f front (flag_bytes flags))) (
      rw regroup (
        flags_from-flag_bytes flags (front ++ (bit ∷ [])) (suc i)
          (omega (arith, e, length-append front (bit ∷ [])))))
  where
    bit : ℕ
    bit = if f then 1 else 0

    regroup : front ++ flag_bytes (f ∷ flags) ≡ (front ++ (bit ∷ [])) ++ flag_bytes flags
    regroup = simp append_assoc

-- Conditions: the number of flags fits a u32. The client reads back exactly the flags.
pub parse-batch_exists_payload :
    (flags : List Bool)
    → length flags < 256 ^ 4
    → parse_batch_exists_payload (batch_exists_payload flags) ≡ ok flags
unfolding parse_batch_exists_payload batch_exists_payload
parse-batch_exists_payload flags h =
    let head = le_bytes 4 (length flags) in
    rw
      (
        count_at (length flags) (flag_bytes flags) h,
        flags_from-flag_bytes flags head 4 (sym (length-le_bytes 4 (length flags))),
      )
      (ground (
        arith,
        length-append head (flag_bytes flags),
        length-flag_bytes flags,
        length-le_bytes 4 (length flags),
      ))

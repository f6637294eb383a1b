-- ===== src/MicroKv/Keys/Injective.antt =====
-- `make_key`: 32 bytes, and different keys for different arguments.
use Prim.Native.String.{String}
use asu_ascend.Common.{
  ℕ, ◌<◌, ◌^◌, ◌≡◌, refl, ap, ◌∙◌, sym, List, [], ◌∷◌, ◌++◌, length, take, replicate, length-append,
  length-take, arith,
}
use asu_ascend.Common.Int.{ℤ, pos, negsuc}
use asu_ascend.MicroKv.Wire.{Bytes, ok, le_bytes}
use asu_ascend.MicroKv.Wire.Laws.{length-le_bytes, le_bytes-injective}
use asu_ascend.MicroKv.Keys.{ReqIndex, int, str, make_key}

-- Lists of the same length are told apart by their fronts and their backs.
append_cancel {ℓ} :
    {A : Type ℓ} (xs ys : List A) {us vs : List A}
    → length xs ≡ length ys
    → xs ++ us ≡ ys ++ vs
    → (xs ≡ ys) × (us ≡ vs)
append_cancel [] [] h e = (refl, e)
append_cancel [] (y ∷ ys) h e = absurd (omega arith)
append_cancel (x ∷ xs) [] h e = absurd (omega arith)
append_cancel (x ∷ xs) (y ∷ ys) {us} {vs} h e =
    let rest : xs ++ us ≡ ys ++ vs = cc in
    let (front, back) = append_cancel xs ys (omega arith) rest in (cc (front), back)

module _ (sha256 : String → Bytes) where
  -- What `make_key` returns, for numbers that fit.
  key_of : ℕ → ℕ → ℕ → ℕ → Bytes
  key_of r l t k =
      (le_bytes 8 r ++ replicate 8 0)
      ++ (le_bytes 4 l ++ (le_bytes 4 t ++ (le_bytes 1 k ++ replicate 7 0)))

  make_key-key_of :
      (i l t k : ℤ) {key : Bytes}
      → make_key sha256 (int i) l t k ≡ ok key
      → (r' l' t' k' : ℕ) × (i ≡ pos r')
        × (l ≡ pos l')
        × (t ≡ pos t')
        × (k ≡ pos k')
        × (r' < 256 ^ 8)
        × (l' < 256 ^ 4)
        × (t' < 256 ^ 4)
        × (k' < 256 ^ 1)
        × (key ≡ key_of r' l' t' k')
  unfolding make_key key_of
  make_key-key_of (pos r) (pos l) (pos t) (pos k) h = (
    r,
    l,
    t,
    k,
    refl,
    refl,
    refl,
    refl,
    ground arith,
    ground arith,
    ground arith,
    ground arith,
    ground arith,
  )
  make_key-key_of (negsuc r) l t k h = cc
  make_key-key_of (pos r) (negsuc l) t k h = ground arith
  make_key-key_of (pos r) (pos l) (negsuc t) k h = ground arith
  make_key-key_of (pos r) (pos l) (pos t) (negsuc k) h = ground arith

  -- Conditions: both calls return. Two keys of integer requests are equal only if all four numbers
  -- are.
  pub make_key_injective :
      (i l t k i' l' t' k' : ℤ) {key : Bytes}
      → make_key sha256 (int i) l t k ≡ ok key
      → make_key sha256 (int i') l' t' k' ≡ ok key
      → (i ≡ i') × (l ≡ l') × (t ≡ t') × (k ≡ k')
  unfolding key_of
  make_key_injective i l t k i' l' t' k' h h' =
      let (a, b, c, d, ea, eb, ec, ed, ha, hb, hc, hd, e) = make_key-key_of i l t k h in
      let (a', b', c', d', ea', eb', ec', ed', ha', hb', hc', hd', e') =
        make_key-key_of i' l' t' k' h' in
      let same : key_of a b c d ≡ key_of a' b' c' d' = sym e ∙ e' in
      let (request, rest) =
        append_cancel (le_bytes 8 a ++ replicate 8 0) (le_bytes 8 a' ++ replicate 8 0)
          (same_length 8 8 a a') same in
      let (request_low, _) = append_cancel (le_bytes 8 a) (le_bytes 8 a') (widths 8 a a') request in
      let (layer, rest1) = append_cancel (le_bytes 4 b) (le_bytes 4 b') (widths 4 b b') rest in
      let (token, rest2) = append_cancel (le_bytes 4 c) (le_bytes 4 c') (widths 4 c c') rest1 in
      let (kind, _) = append_cancel (le_bytes 1 d) (le_bytes 1 d') (widths 1 d d') rest2 in
      (
        ea ∙ ap pos (le_bytes-injective 8 a a' ha ha' request_low) ∙ sym ea',
        eb ∙ ap pos (le_bytes-injective 4 b b' hb hb' layer) ∙ sym eb',
        ec ∙ ap pos (le_bytes-injective 4 c c' hc hc' token) ∙ sym ec',
        ed ∙ ap pos (le_bytes-injective 1 d d' hd hd' kind) ∙ sym ed',
      )
    where
      widths : (w m n : ℕ) → length (le_bytes w m) ≡ length (le_bytes w n)
      widths w m n = length-le_bytes w m ∙ sym (length-le_bytes w n)

      same_length :
          (w z m n : ℕ)
          → length (le_bytes w m ++ replicate z 0) ≡ length (le_bytes w n ++ replicate z 0)
      same_length w z m n = omega (
        arith,
        length-append (le_bytes w m) (replicate z 0),
        length-append (le_bytes w n) (replicate z 0),
        widths w m n,
      )

  length-fields :
      (l t k : ℕ) → length (le_bytes 4 l ++ (le_bytes 4 t ++ (le_bytes 1 k ++ replicate 7 0))) ≡ 16
  length-fields l t k = omega (
    arith,
    length-append (le_bytes 4 l) (le_bytes 4 t ++ (le_bytes 1 k ++ replicate 7 0)),
    length-append (le_bytes 4 t) (le_bytes 1 k ++ replicate 7 0),
    length-append (le_bytes 1 k) (replicate 7 0),
    length-le_bytes 4 l,
    length-le_bytes 4 t,
    length-le_bytes 1 k,
  )

  length-key_of : (r l t k : ℕ) → length (key_of r l t k) ≡ 32
  unfolding key_of
  length-key_of r l t k = omega (
    arith,
    length-append (le_bytes 8 r ++ replicate 8 0)
        (le_bytes 4 l ++ (le_bytes 4 t ++ (le_bytes 1 k ++ replicate 7 0))),
    length-append (le_bytes 8 r) (replicate 8 0),
    length-le_bytes 8 r,
    length-fields l t k,
  )

  text_key :
      (s : String) (l t k : ℕ) {key : Bytes}
      → make_key sha256 (str s) (pos l) (pos t) (pos k) ≡ ok key
      → key
        ≡ take 16 (sha256 s) ++ (le_bytes 4 l ++ (le_bytes 4 t ++ (le_bytes 1 k ++ replicate 7 0)))
  unfolding make_key
  text_key s l t k h = ground arith

  -- Conditions: `sha256` gives 32 bytes, as it is documented to do, and the call returns. The key has
  -- 32 bytes, for an integer request and for a text.
  pub length-make_key :
      ((s : String) → length (sha256 s) ≡ 32)
      → (r : ReqIndex) (l t k : ℤ) {key : Bytes} → make_key sha256 r l t k ≡ ok key
      → length key ≡ 32
  unfolding make_key
  length-make_key digest (int (pos r)) (pos l) (pos t) (pos k) h =
      let (a, b, c, d, _, _, _, _, _, _, _, _, e) =
        make_key-key_of (pos r) (pos l) (pos t) (pos k) h in
      ap length e ∙ length-key_of a b c d
  length-make_key digest (str s) (pos l) (pos t) (pos k) h = omega (
    arith,
    ap length (text_key s l t k h),
    length-append (take 16 (sha256 s))
        (le_bytes 4 l ++ (le_bytes 4 t ++ (le_bytes 1 k ++ replicate 7 0))),
    length-take 16 (sha256 s),
    digest s,
    length-fields l t k,
  )
  length-make_key digest (int (negsuc r)) l t k h = cc
  length-make_key digest (int (pos r)) (negsuc l) t k h = ground arith
  length-make_key digest (int (pos r)) (pos l) (negsuc t) k h = ground arith
  length-make_key digest (int (pos r)) (pos l) (pos t) (negsuc k) h = ground arith
  length-make_key digest (str s) (negsuc l) t k h = ground arith
  length-make_key digest (str s) (pos l) (negsuc t) k h = ground arith
  length-make_key digest (str s) (pos l) (pos t) (negsuc k) h = ground arith

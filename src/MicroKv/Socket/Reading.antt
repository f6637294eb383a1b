-- ===== src/MicroKv/Socket/Reading.antt =====
-- `_recv_exact` reads the next bytes of the stream, however it is cut into chunks.
use asu_ascend.Common.{
  ℕ, zero, suc, ◌-◌, ◌<◌, ◌≤◌, ◌≡◌, ◌≢◌, refl, ap, ◌∙◌, sym, List, [], ◌∷◌, ◌++◌, ltb, inl, inr,
  Bool-cases, length, take, drop, All, length-append, length-drop, take-append, drop-append,
  take_of_length-le, drop_of_length-le, ltb→lt, arith,
}
use mathlib.Core.List.{append-nil, append_assoc}
use asu_ascend.MicroKv.Wire.{Bytes, Result, ok, err, socket_closed}
use asu_ascend.MicroKv.Socket.{recv_loop, recv_exact}

-- The bytes of the chunks, in order.
abbrev pub stream : List Bytes → Bytes
stream [] = []
stream (c ∷ chunks) = c ++ stream chunks

-- A socket that is open hands out no empty chunk.
abbrev pub NonEmpty : List Bytes → Type 0
NonEmpty = All (λ c. c ≢ [])

record Read (n : ℕ) (chunks : List Bytes) (got : Bytes) (out : Result Bytes × List Bytes)
    : Type 0 where
  bytes : out.0 ≡ ok (got ++ take n (stream chunks))
  rest : stream out.1 ≡ drop n (stream chunks)
  open_still : NonEmpty out.1

recv_loop-Read :
    (n : ℕ) (chunks : List Bytes) (got : Bytes)
    → NonEmpty chunks
    → n ≤ length (stream chunks)
    → Read n chunks got (recv_loop n chunks got)
unfolding recv_loop
recv_loop-Read zero chunks got full h = record {
  bytes = ap ok (sym (append-nil got));
  rest = refl;
  open_still = full;
}
recv_loop-Read (suc n) [] got full h = absurd (omega arith)
recv_loop-Read (suc n) ([] ∷ chunks) got full h = absurd (full.0 refl)
recv_loop-Read (suc n) ((b ∷ bs) ∷ chunks) got full h = elim (Bool-cases (ltb n (length bs))) [
  | inl more ↦
      let none_left : n - length bs ≡ 0 = ground arith in
      rw more (record {
        bytes = rw (take-append n bs (stream chunks), none_left, append-nil (take n bs));
        rest = rw (drop-append n bs (stream chunks), none_left);
        open_still =
            (λ e. omega (arith, ap length e, length-drop n bs, ltb→lt n (length bs) more), full.1);
      })
  | inr all ↦
      let within : length bs ≤ n = ground arith in
      let next =
        recv_loop-Read (n - length bs) chunks (got ++ (b ∷ bs)) (full.1)
          (omega (arith, length-append bs (stream chunks), h)) in
      rw all (record {
        bytes =
            next.bytes
            ∙ rw (
              take-append n bs (stream chunks),
              take_of_length-le n bs within,
              append_assoc got (b ∷ bs) (take (n - length bs) (stream chunks)),
            );
        rest = next.rest ∙ rw (drop-append n bs (stream chunks), drop_of_length-le n bs within);
        open_still = next.open_still;
      })
]

-- Conditions: the socket is open, and at least `n` bytes are to come. The call returns the next `n`
-- bytes of the stream, leaves the others in their order, and the socket stays open.
pub recv_exact_lem :
    (n : ℕ) (chunks : List Bytes)
    → NonEmpty chunks
    → n ≤ length (stream chunks)
    → let (r, rest) = recv_exact n chunks in
      (r ≡ ok (take n (stream chunks))) × (stream rest ≡ drop n (stream chunks)) × NonEmpty rest
unfolding recv_exact
recv_exact_lem n chunks full h =
    let done = recv_loop-Read n chunks [] full h in (done.bytes, done.rest, done.open_still)

recv_loop-closed :
    (n : ℕ) (chunks : List Bytes) (got : Bytes)
    → length (stream chunks) < n
    → (recv_loop n chunks got).0 ≡ err socket_closed
unfolding recv_loop
recv_loop-closed zero chunks got h = absurd (omega arith)
recv_loop-closed (suc n) [] got h = refl
recv_loop-closed (suc n) ([] ∷ chunks) got h = refl
recv_loop-closed (suc n) ((b ∷ bs) ∷ chunks) got h = ground (
  arith,
  length-append bs (stream chunks),
  recv_loop-closed (n - length bs) chunks (got ++ (b ∷ bs)),
)

-- Conditions: fewer than `n` bytes are to come. The call raises, and does not return a part.
pub recv_exact_closed :
    (n : ℕ) (chunks : List Bytes)
    → length (stream chunks) < n
    → (recv_exact n chunks).0 ≡ err socket_closed
unfolding recv_exact
recv_exact_closed n chunks h = recv_loop-closed n chunks [] h

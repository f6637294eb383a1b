-- ===== src/MicroKv/Client/Answers.antt =====
-- What the calls of `KVStoreClient` return when the peer answers, and when the client is closed.
use asu_ascend.Common.{
  ℕ, suc, ◌<◌, ◌^◌, ◌≡◌, refl, ap, ◌∙◌, sym, true, List, [], ◌∷◌, ◌++◌, length, take, drop,
  length-append, arith,
}
use mathlib.Core.List.{append-nil}
use asu_ascend.MicroKv.Wire.{Bytes, ok, le_bytes}
use asu_ascend.MicroKv.Wire.Laws.{length-le_bytes, le_number-le_bytes, pack-le_bytes}
use asu_ascend.MicroKv.Socket.{
  Peer, Client, request_header, recv_exact, receive, read_reply, sendall, request_raw,
}
use asu_ascend.MicroKv.Socket.Reading.{stream, NonEmpty, recv_exact_lem}
use asu_ascend.MicroKv.Client.{size}

-- The bytes of a request header.
abbrev pub header_bytes : ℕ → ℕ → ℕ → ℕ → Bytes
header_bytes command t k v =
    le_bytes 1 command ++ (le_bytes 1 t ++ (le_bytes 2 0 ++ (le_bytes 2 k ++ le_bytes 4 v)))

-- The fields of a header that its format has room for.
abbrev pub HeaderFits : ℕ → ℕ → ℕ → ℕ → Type 0
HeaderFits command t k v = (command < 256) × (t < 256) × (k < 65536) × (v < 4294967296)

request_header-header_bytes :
    (command t k v : ℕ)
    → HeaderFits command t k v
    → request_header command t k v ≡ ok (header_bytes command t k v)
unfolding request_header
request_header-header_bytes command t k v (hc, ht, hk, hv) = ground (
  arith,
  pack-le_bytes 1 command,
  pack-le_bytes 1 t,
  pack-le_bytes 2 0,
  pack-le_bytes 2 k,
  pack-le_bytes 4 v,
)

take-length : (xs ys : Bytes) → take (length xs) (xs ++ ys) ≡ xs
take-length [] ys = refl
take-length (x ∷ xs) ys = ap (◌∷◌ x) (take-length xs ys)

drop-length : (xs ys : Bytes) → drop (length xs) (xs ++ ys) ≡ ys
drop-length [] ys = refl
drop-length (x ∷ xs) ys = drop-length xs ys

none_left : (chunks : List Bytes) → NonEmpty chunks → stream chunks ≡ [] → chunks ≡ []
none_left [] full e = refl
none_left ([] ∷ chunks) full e = absurd (full.0 refl)
none_left ((b ∷ bs) ∷ chunks) full e = cc

module _ {State : Type 0} (peer : Peer State) where
  -- The peer answers a message, in its own chunks, with a status and a payload.
  pub record Replies (c : Client State) (message : Bytes) (status : ℕ) (payload : Bytes)
      : Type 0 where
    pub full : NonEmpty (peer.answer message c.peer).0
    pub bytes :
        stream (peer.answer message c.peer).0 ≡ status ∷ (le_bytes 4 (length payload) ++ payload)
    pub fits : length payload < 256 ^ 4

  -- The client between two calls: open, with nothing left to read.
  pub record InStep (c : Client State) : Type 0 where
    pub connected : c.connected ≡ true
    pub read : c.incoming ≡ []

  -- The client after a call that has been answered.
  abbrev pub after : Client State → Bytes → Client State
  after c message = record c { incoming = []; peer = (peer.answer message c.peer).1 }

  receive-split :
      (n : ℕ) (c : Client State) (front back : Bytes)
      → length front ≡ n
      → NonEmpty c.incoming
      → stream c.incoming ≡ front ++ back
      → (chunks : List Bytes) × (receive n c ≡ (ok front, record c { incoming = chunks }))
        × NonEmpty chunks
        × (stream chunks ≡ back)
  unfolding receive
  receive-split n c front back size full e =
      let (got, rest, open_still) =
        recv_exact_lem n c.incoming full (omega (arith, ap length e, length-append front back)) in
      (
        (recv_exact n c.incoming).1,
        ap (λ r. (r, record c { incoming = (recv_exact n c.incoming).1 }))
            (got ∙ ap ok (rw (e, sym size) (take-length front back))),
        open_still,
        rest ∙ rw (e, sym size) (drop-length front back),
      )

  -- The two reads behind a request.
  read_reply-answer :
      (c : Client State) (status : ℕ) (payload : Bytes)
      → NonEmpty c.incoming
      → stream c.incoming ≡ status ∷ (le_bytes 4 (length payload) ++ payload)
      → length payload < 256 ^ 4
      → read_reply c ≡ (ok (status, payload), record c { incoming = [] })
  unfolding read_reply
  read_reply-answer c status payload full e fits =
      let (chunks, first, open_still, left) =
        receive-split 5 c (status ∷ le_bytes 4 (length payload)) payload
          (ap suc (length-le_bytes 4 (length payload))) full e in
      let (chunks', second, open_still', left') =
        receive-split (length payload) (record c { incoming = chunks }) payload [] refl open_still
          (left ∙ sym (append-nil payload)) in
      ground (
        arith,
        first,
        le_number-le_bytes 4 (length payload) fits,
        second,
        none_left chunks' open_still' left',
      )

  -- Conditions: the client is open and has nothing left to read, the fields fit their places in the
  -- header, and the peer answers the message. The call returns the peer's status and payload, however
  -- the answer is cut into chunks, and leaves nothing to read.
  pub request_raw_lem :
      (command t k v : ℕ) (body : Bytes) (c : Client State) (status : ℕ) (payload : Bytes)
      → InStep c
      → HeaderFits command t k v
      → Replies c (header_bytes command t k v ++ body) status payload
      → request_raw peer command t k v body c
        ≡ (ok (status, payload), after c (header_bytes command t k v ++ body))
  unfolding request_raw sendall
  request_raw_lem command t k v body c status payload step fits replies =
      let message = header_bytes command t k v ++ body in
      rw (step.connected, step.read, request_header-header_bytes command t k v fits)
        (read_reply-answer
          (record c {
            connected = true;
            incoming = (peer.answer message c.peer).0;
            peer = (peer.answer message c.peer).1;
          })
          status payload replies.full replies.bytes replies.fits)

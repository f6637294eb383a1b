-- ===== src/MicroKv/Socket.antt =====
-- MicroKV/python/microkv/client.py: `_recv_exact` and `_request_raw`. The socket hands out what
-- the peer has sent in chunks of any size; the peer is a parameter.
pub mod Reading
use asu_ascend.Common.{
  ℕ, zero, suc, ◌+◌, ◌-◌, ◌*◌, Bool, true, false, ◌&&◌, List, [], ◌∷◌, ◌++◌, ltb, ◌==◌, length,
  take, drop, if◌then◌else◌,
}
use asu_ascend.MicroKv.Wire.{
  Bytes, Error, Result, ok, err, ◌>>=◌, pack, le_number, socket_closed, client_closed, bad_request,
  internal_error, other_status,
}

-- `while remaining > 0: chunk = sock.recv(remaining)`. A chunk that is larger than what is asked
-- for leaves its rest. An empty chunk, and no chunk at all, is a closed socket.
unfoldable pub recv_loop : ℕ → List Bytes → Bytes → Result Bytes × List Bytes
recv_loop zero chunks got = (ok got, chunks)
recv_loop (suc n) [] got = (err socket_closed, [])
recv_loop (suc n) ([] ∷ chunks) got = (err socket_closed, chunks)
recv_loop (suc n) ((b ∷ bs) ∷ chunks) got =
    let rest = recv_loop (n - length bs) chunks (got ++ (b ∷ bs)) in
    if ltb n (length bs)
    then (ok (got ++ take (suc n) (b ∷ bs)), drop (suc n) (b ∷ bs) ∷ chunks)
    else rest

unfoldable pub recv_exact : ℕ → List Bytes → Result Bytes × List Bytes
unfolding recv_loop
recv_exact length chunks = recv_loop length chunks []

-- `REQUEST_HEADER.pack(command, cache_type, 0, key_len, val_len)`
unfoldable pub request_header : ℕ → ℕ → ℕ → ℕ → Result Bytes
unfolding pack
request_header command cache_type key_len val_len = do
  c ← pack 1 command
  t ← pack 1 cache_type
  z ← pack 2 0
  k ← pack 2 key_len
  v ← pack 4 val_len
  ok (c ++ (t ++ (z ++ (k ++ v))))

-- The connected socket's other end: bytes in, chunks out.
pub record Peer (State : Type 0) : Type 0 where
  pub answer : Bytes → State → List Bytes × State

-- The client: whether its socket is open, the chunks that have not been read, and the peer.
pub record Client (State : Type 0) : Type 0 where
  pub connected : Bool
  pub incoming : List Bytes
  pub peer : State

-- A call changes the client, also where it raises.
abbrev pub Call : Type 0 → Type 0 → Type 0
Call State A = Client State → Result A × Client State

module _ {State : Type 0} where
  infixl 5 ◌then_call◌
  abbrev pub ◌then_call◌ : {A B : Type 0} → Call State A → (A → Call State B) → Call State B
  ◌then_call◌ m f c = let (r, c') = m c in elim r [ ok a ↦ f a c' | err e ↦ (err e, c') ]

  -- A step that does not touch the client.
  abbrev pub pure : {A : Type 0} → Result A → Call State A
  pure r c = (r, c)

  unfoldable pub receive : ℕ → Call State Bytes
  unfolding recv_exact
  receive n c = let (r, rest) = recv_exact n c.incoming in (r, record c { incoming = rest })

  -- The two reads of an answer: its header, and as many bytes as the header says.
  unfoldable pub read_reply : Call State (ℕ × Bytes)
  unfolding receive le_number
  read_reply = receive 5 then_call λ header.
      receive (le_number (drop 1 header)) then_call λ payload.
      pure (ok (le_number (take 1 header), payload))

  module _ (peer : Peer State) where
    unfoldable pub sendall : Bytes → Call State (Unit {0})
    sendall message c =
        let (chunks, state) = peer.answer message c.peer in
        (ok tt, record c { incoming = c.incoming ++ chunks; peer = state })

    unfoldable pub request_raw : ℕ → ℕ → ℕ → ℕ → Bytes → Call State (ℕ × Bytes)
    unfolding sendall read_reply request_header
    request_raw command cache_type key_len val_len body c =
        if c.connected
        then (pure (request_header command cache_type key_len val_len) then_call λ header.
              sendall (header ++ body) then_call λ _. read_reply)
            c
        else (err client_closed, c)

-- `_raise_unless_ok`
unfoldable pub raise_unless_ok : ℕ → Result (Unit {0})
raise_unless_ok status =
    if status == 0
    then ok tt
    else if status == 2
    then err bad_request
    else if status == 3
    then err internal_error
    else err (other_status status)

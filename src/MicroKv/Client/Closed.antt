-- ===== src/MicroKv/Client/Closed.antt =====
-- `KVStoreClient` after `close`.
use asu_ascend.Common.{ℕ, ◌≡◌, refl, false, List, [], ◌++◌, length, Bool-cases, inl, inr, arith}
use asu_ascend.Common.Int.{ℤ}
use asu_ascend.MicroKv.Wire.{Bytes, Error, Result, ok, err, client_closed}
use asu_ascend.MicroKv.Socket.{Peer, Client, Call, request_raw}
use asu_ascend.MicroKv.Client.{
  put, get, exists, batch_put, batch_get, batch_exists, clear, size, close, checked, type_number,
  batch_put_body, cmd_put, cmd_get, cmd_exists, cmd_batch_put, cmd_batch_get, cmd_batch_exists,
  cmd_clear, cmd_size,
}
use asu_ascend.MicroKv.Keys.{key_length_bytes}
use asu_ascend.MicroKv.Payload.{pack_keys}

-- The call raises, and leaves the client and its peer as they are.
pub record Refused {State A : Type 0} (m : Call State A) (c : Client State) : Type 0 where
  pub error : Error
  pub same : m c ≡ (err error, c)

module _ {State : Type 0} (peer : Peer State) where
  request_raw-closed :
      (command t k v : ℕ) (body : Bytes) (c : Client State)
      → c.connected ≡ false
      → request_raw peer command t k v body c ≡ (err client_closed, c)
  unfolding request_raw
  request_raw-closed command t k v body c closed = rw closed

  -- A call that first computes a result is refused on both of its cases.
  checking :
      {A B : Type 0} {m : Call State A} {c : Client State} (r : Result B)
      → ((b : B) → r ≡ ok b → m c ≡ (err client_closed, c))
      → ((e : Error) → r ≡ err e → m c ≡ (err e, c))
      → Refused m c
  checking (ok b) open_ raised = record { error = client_closed; same = open_ b refl }
  checking (err e) open_ raised = record { error = e; same = raised e refl }

  -- The same for two results.
  checking_both :
      {A B D : Type 0} {m : Call State A} {c : Client State} (r : Result B) (q : Result D)
      → ((b : B) (d : D) → r ≡ ok b → q ≡ ok d → m c ≡ (err client_closed, c))
      → ((e : Error) → r ≡ err e → m c ≡ (err e, c))
      → ((b : B) (e : Error) → r ≡ ok b → q ≡ err e → m c ≡ (err e, c))
      → Refused m c
  checking_both (ok b) q open_ first second =
      checking q (λ d h. open_ b d refl h) (λ e h. second b e refl h)
  checking_both (err e) q open_ first second = record { error = e; same = first e refl }

  closed_refuses :
      (c : Client State) (t : ℤ) (key value : Bytes) (keys values : List Bytes)
      → c.connected ≡ false
      → Refused (put peer t key value) c
        × Refused (get peer t key) c
        × Refused (exists peer t key) c
        × Refused (batch_put peer t keys values) c
        × Refused (batch_get peer t keys) c
        × Refused (batch_exists peer t keys) c
        × Refused (clear peer t) c
        × Refused (size peer t) c
  unfolding put get exists batch_put batch_get batch_exists clear size
  closed_refuses c t key value keys values shut =
      let raw =
        λ (command n k v : ℕ) (body : Bytes). request_raw-closed command n k v body c shut in
      (
        checking (checked t key)
            (λ n h. ground (arith, h, raw cmd_put n (length key) (length value) (key ++ value)))
            (λ e h. rw h),
        checking (checked t key)
            (λ n h. ground (arith, h, raw cmd_get n (length key) 0 (key ++ []))) (λ e h. rw h),
        checking (checked t key)
            (λ n h. ground (arith, h, raw cmd_exists n (length key) 0 (key ++ []))) (λ e h. rw h),
        checking_both (type_number t) (batch_put_body keys values)
            (λ n body h h'. ground (arith, h, h', raw cmd_batch_put n key_length_bytes 0 body))
            (λ e h. rw h) (λ n e h h'. rw (h, h')),
        checking_both (type_number t) (pack_keys keys)
            (λ n body h h'. ground (arith, h, h', raw cmd_batch_get n key_length_bytes 0 body))
            (λ e h. rw h) (λ n e h h'. rw (h, h')),
        checking_both (type_number t) (pack_keys keys)
            (λ n body h h'. ground (arith, h, h', raw cmd_batch_exists n key_length_bytes 0 body))
            (λ e h. rw h) (λ n e h h'. rw (h, h')),
        checking (type_number t) (λ n h. ground (arith, h, raw cmd_clear n 0 0 [])) (λ e h. rw h),
        checking (type_number t) (λ n h. ground (arith, h, raw cmd_size n 0 0 [])) (λ e h. rw h),
      )

  close-connected : (c : Client State) → (close c).connected ≡ false
  unfolding close
  close-connected c = elim (Bool-cases c.connected) [ inl h ↦ rw h | inr h ↦ rw h ]

  -- Once the client has been closed, each of its methods raises, whatever its arguments are, and sends
  -- nothing to the peer.
  pub close_refuses :
      (c : Client State) (t : ℤ) (key value : Bytes) (keys values : List Bytes)
      → Refused (put peer t key value) (close c)
        × Refused (get peer t key) (close c)
        × Refused (exists peer t key) (close c)
        × Refused (batch_put peer t keys values) (close c)
        × Refused (batch_get peer t keys) (close c)
        × Refused (batch_exists peer t keys) (close c)
        × Refused (clear peer t) (close c)
        × Refused (size peer t) (close c)
  close_refuses c t key value keys values =
      closed_refuses (close c) t key value keys values (close-connected c)

-- ===== src/MicroKv/Client/Calls.antt =====
-- The methods of `KVStoreClient` over a peer that answers, and on a client that is closed.
use asu_ascend.Common.{
  ℕ, ◌<◌, ◌^◌, ◌≡◌, refl, Option, none, some, List, [], ◌∷◌, ◌++◌, length, All, ◌==◌, if◌then◌else◌,
  arith,
}
use asu_ascend.Common.Int.{pos}
use mathlib.Core.List.{append-nil}
use asu_ascend.MicroKv.Wire.{Bytes, Error, Result, ok, err, le_bytes}
use asu_ascend.MicroKv.Wire.Laws.{pack-le_bytes}
use asu_ascend.MicroKv.Keys.{key_length_bytes, validate_key, validate_type}
use asu_ascend.MicroKv.Payload.{pack_keys, join_keys, batch_get_payload}
use asu_ascend.MicroKv.Payload.RoundTrip.{FitsU32, parse-batch_get_payload}
use asu_ascend.MicroKv.Socket.{Peer, Client, raise_unless_ok}
use asu_ascend.MicroKv.Client.{type_number, cmd_get, cmd_batch_get, get, batch_get}
use asu_ascend.MicroKv.Client.Answers.{header_bytes, Replies, InStep, after, request_raw_lem}

type_number-of : (t : ℕ) → t < 256 → type_number (pos t) ≡ ok t
unfolding type_number validate_type
type_number-of t h = ground arith

validate_key-of : (key : Bytes) → length key ≡ 32 → validate_key key ≡ ok tt
unfolding validate_key
validate_key-of key h = ground arith

-- The keys one behind the other.
abbrev pub joined : List Bytes → Bytes
joined [] = []
joined (key ∷ keys) = key ++ joined keys

join_keys-joined :
    (keys : List Bytes) → All (λ key. length key ≡ 32) keys → join_keys keys ≡ ok (joined keys)
unfolding join_keys
join_keys-joined [] h = refl
join_keys-joined (key ∷ keys) (h, hs) = rw (validate_key-of key h, join_keys-joined keys hs)

pack_keys-joined :
    (keys : List Bytes)
    → length keys < 256 ^ 4
    → All (λ key. length key ≡ 32) keys
    → pack_keys keys ≡ ok (le_bytes 4 (length keys) ++ joined keys)
unfolding pack_keys
pack_keys-joined keys h hs = rw (pack-le_bytes 4 (length keys) h, join_keys-joined keys hs)

-- The bytes that `batch_get` sends.
abbrev pub batch_get_message : ℕ → List Bytes → Bytes
batch_get_message t keys =
    header_bytes cmd_batch_get t key_length_bytes 0 ++ (le_bytes 4 (length keys) ++ joined keys)

-- The bytes that `get` sends.
abbrev pub get_message : ℕ → Bytes → Bytes
get_message t key = header_bytes cmd_get t 32 0 ++ key

module _ {State : Type 0} (peer : Peer State) where
  -- Conditions: the client is between two calls, the type fits its byte, the keys have 32 bytes and
  -- fewer than 2^32 are asked for, and the peer answers the request with status 0 and with the
  -- server's payload for values that fit. The call returns exactly these values, and the client is
  -- ready for the next call.
  pub batch_get_answers :
      (t : ℕ) (keys : List Bytes) (values : List (Option Bytes)) (c : Client State)
      → InStep peer c
      → t < 256
      → length keys < 256 ^ 4
      → All (λ key. length key ≡ 32) keys
      → length values < 256 ^ 4
      → All FitsU32 values
      → Replies peer c (batch_get_message t keys) 0 (batch_get_payload values)
      → batch_get peer (pos t) keys c ≡ (ok values, after peer c (batch_get_message t keys))
  unfolding batch_get raise_unless_ok
  batch_get_answers t keys values c step ht hk full hv fits replies = ground (
    arith,
    type_number-of t ht,
    pack_keys-joined keys hk full,
    request_raw_lem peer cmd_batch_get t key_length_bytes 0
        (le_bytes 4 (length keys) ++ joined keys) c 0 (batch_get_payload values) step
        (omega arith, ht, omega arith, omega arith) replies,
    parse-batch_get_payload values hv fits,
  )

  -- What `get` makes of a status and a payload.
  abbrev pub get_result : ℕ → Bytes → Result (Option Bytes)
  get_result status payload =
      if status == 0
      then ok (some payload)
      else if status == 1
      then ok none
      else if status == 2
      then err Error.bad_request
      else if status == 3
      then err Error.internal_error
      else err (Error.other_status status)

  -- Conditions: the client is between two calls, the type fits its byte, the key has 32 bytes, and the
  -- peer answers the request with a status and a payload. Status 0 gives the payload, 1 no value,
  -- 2, 3 and all others an error each; in every case the client is ready for the next call.
  pub get_answers :
      (t : ℕ) (key : Bytes) (status : ℕ) (payload : Bytes) (c : Client State)
      → InStep peer c
      → t < 256
      → length key ≡ 32
      → Replies peer c (get_message t key) status payload
      → get peer (pos t) key c ≡ (get_result status payload, after peer c (get_message t key))
  unfolding get raise_unless_ok
  get_answers t key status payload c step ht hk replies = ground (
    arith,
    type_number-of t ht,
    validate_key-of key hk,
    append-nil key,
    request_raw_lem peer cmd_get t 32 0 key c status payload step
        (omega arith, ht, omega arith, omega arith) replies,
  )

-- ===== src/MicroKv/Client.antt =====
-- MicroKV/python/microkv/client.py: the methods of `KVStoreClient`, over any peer.
pub mod Answers
pub mod Calls
pub mod Closed
use asu_ascend.Common.{
  ℕ, zero, suc, ◌+◌, Bool, true, false, not, Option, none, some, List, [], ◌∷◌, ◌++◌, ◌==◌, length,
  if◌then◌else◌,
}
use asu_ascend.Common.Int.{ℤ, pos, negsuc}
use asu_ascend.MicroKv.Wire.{
  Bytes, Error, Result, ok, err, ◌>>=◌, ◌>>◌, pack, le_number, type_range, payload_length,
  length_mismatch,
}
use asu_ascend.MicroKv.Keys.{key_length_bytes, validate_key, validate_type}
use asu_ascend.MicroKv.Payload.{pack_keys, parse_batch_get_payload, parse_batch_exists_payload}
use asu_ascend.MicroKv.Socket.{Peer, Client, Call, ◌then_call◌, pure, request_raw, raise_unless_ok}

-- The commands.
abbrev pub cmd_put : ℕ
cmd_put = 0x01

abbrev pub cmd_get : ℕ
cmd_get = 0x02

abbrev pub cmd_exists : ℕ
cmd_exists = 0x03

abbrev pub cmd_batch_put : ℕ
cmd_batch_put = 0x04

abbrev pub cmd_batch_get : ℕ
cmd_batch_get = 0x05

abbrev pub cmd_batch_exists : ℕ
cmd_batch_exists = 0x06

abbrev pub cmd_clear : ℕ
cmd_clear = 0x11

abbrev pub cmd_size : ℕ
cmd_size = 0x12

-- The number of a cache type that has passed `_validate_type`.
unfoldable pub type_number : ℤ → Result ℕ
unfolding validate_type
type_number (pos n) = do validate_type (pos n); ok n
type_number (negsuc n) = do validate_type (negsuc n); err type_range

-- The loop of `batch_put` over keys and values; `zip(strict=True)` runs on lists of one length.
unfoldable pub pack_entries : List Bytes → List Bytes → Result Bytes
unfolding validate_key pack
pack_entries (key ∷ keys) (value ∷ values) = do
  validate_key key
  size ← pack 4 (length value)
  rest ← pack_entries keys values
  ok (key ++ (size ++ (value ++ rest)))
pack_entries _ _ = ok []

unfoldable pub batch_put_body : List Bytes → List Bytes → Result Bytes
unfolding pack_entries
batch_put_body keys values =
    if length keys == length values
    then (do
      count ← pack 4 (length keys)
      entries ← pack_entries keys values
      ok (count ++ entries))
    else err length_mismatch

-- `close`: the socket is gone, and what it still held with it.
unfoldable pub close : {State : Type 0} → Client State → Client State
close c = if c.connected then record c { connected = false; incoming = [] } else c

-- `_validate_type` and `_validate_key`, in front of a request.
abbrev pub checked : ℤ → Bytes → Result ℕ
checked cache_type key = do n ← type_number cache_type; validate_key key; ok n

-- `len(payload) != 1`, then `payload[0] != 0`.
abbrev pub one_flag : Bytes → Result Bool
one_flag (b ∷ []) = ok (not (b == 0))
one_flag _ = err payload_length

module _ {State : Type 0} (peer : Peer State) where
  -- `_request`
  abbrev pub request : ℕ → ℕ → Bytes → Bytes → Call State (ℕ × Bytes)
  request command cache_type key value =
      request_raw peer command cache_type (length key) (length value) (key ++ value)

  unfoldable pub put : ℤ → Bytes → Bytes → Call State Bool
  unfolding type_number validate_key request_raw
  put cache_type key value = pure (checked cache_type key) then_call λ n.
      request cmd_put n key value then_call λ r. pure (ok (r.0 == 0))

  unfoldable pub get : ℤ → Bytes → Call State (Option Bytes)
  unfolding type_number validate_key request_raw raise_unless_ok
  get cache_type key = pure (checked cache_type key) then_call λ n.
      request cmd_get n key [] then_call λ r.
      if r.0 == 1 then pure (ok none) else pure (raise_unless_ok (r.0) >> ok (some (r.1)))

  unfoldable pub exists : ℤ → Bytes → Call State Bool
  unfolding type_number validate_key request_raw raise_unless_ok
  exists cache_type key = pure (checked cache_type key) then_call λ n.
      request cmd_exists n key [] then_call λ r. pure (raise_unless_ok (r.0) >> one_flag (r.1))

  unfoldable pub batch_put : ℤ → List Bytes → List Bytes → Call State Bool
  unfolding type_number batch_put_body request_raw
  batch_put cache_type keys values = pure (type_number cache_type) then_call λ n.
      pure (batch_put_body keys values) then_call λ body.
      request_raw peer cmd_batch_put n key_length_bytes 0 body then_call λ r. pure (ok (r.0 == 0))

  unfoldable pub batch_get : ℤ → List Bytes → Call State (List (Option Bytes))
  unfolding type_number pack_keys request_raw raise_unless_ok parse_batch_get_payload
  batch_get cache_type keys = pure (type_number cache_type) then_call λ n.
      pure (pack_keys keys) then_call λ body.
      request_raw peer cmd_batch_get n key_length_bytes 0 body then_call λ r.
      pure (raise_unless_ok (r.0) >> parse_batch_get_payload (r.1))

  unfoldable pub batch_exists : ℤ → List Bytes → Call State (List Bool)
  unfolding type_number pack_keys request_raw raise_unless_ok parse_batch_exists_payload
  batch_exists cache_type keys = pure (type_number cache_type) then_call λ n.
      pure (pack_keys keys) then_call λ body.
      request_raw peer cmd_batch_exists n key_length_bytes 0 body then_call λ r.
      pure (raise_unless_ok (r.0) >> parse_batch_exists_payload (r.1))

  unfoldable pub clear : ℤ → Call State (Unit {0})
  unfolding type_number request_raw raise_unless_ok
  clear cache_type = pure (type_number cache_type) then_call λ n.
      request_raw peer cmd_clear n 0 0 [] then_call λ r. pure (raise_unless_ok (r.0))

  unfoldable pub size : ℤ → Call State ℕ
  unfolding type_number request_raw raise_unless_ok le_number
  size cache_type = pure (type_number cache_type) then_call λ n.
      request_raw peer cmd_size n 0 0 [] then_call λ r. pure (
        raise_unless_ok (r.0)
        >> (if length (r.1) == 8 then ok (le_number (r.1)) else err payload_length))

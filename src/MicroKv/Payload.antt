-- ===== src/MicroKv/Payload.antt =====
-- MicroKV/python/microkv/client.py: `_pack_keys`, `_parse_batch_get_payload` and
-- `_parse_batch_exists_payload`, beside the payloads that MicroKV/src/server.cpp sends for
-- `BatchGet` and `BatchExists`.
pub mod RoundTrip
use asu_ascend.Common.{
  ℕ, zero, suc, ◌+◌, Bool, true, false, not, Option, none, some, List, [], ◌∷◌, ◌++◌, map, ltb,
  ◌==◌, length, take, drop, get_elem?, if◌then◌else◌,
}
use asu_ascend.MicroKv.Wire.{
  Bytes, Error, Result, ok, err, ◌>>=◌, ◌>>◌, raise_if, pack, le_bytes, le_number,
  payload_missing_count, truncated_header, truncated_value, trailing_bytes, payload_length,
}
use asu_ascend.MicroKv.Keys.{validate_key}

-- The loop of `_pack_keys`.
unfoldable pub join_keys : List Bytes → Result Bytes
unfolding validate_key
join_keys [] = ok []
join_keys (key ∷ keys) = do validate_key key; rest ← join_keys keys; ok (key ++ rest)

unfoldable pub pack_keys : List Bytes → Result Bytes
unfolding join_keys pack
pack_keys keys = do count ← pack 4 (length keys); body ← join_keys keys; ok (count ++ body)

-- `payload[offset : offset + n]`
abbrev pub slice : Bytes → ℕ → ℕ → Bytes
slice payload offset n = take n (drop offset payload)

-- `U32.unpack_from(payload, offset)`; every call has four bytes there.
abbrev pub u32_at : Bytes → ℕ → ℕ
u32_at payload offset = le_number (slice payload offset 4)

-- `payload[offset] != 0`; every call has a byte there.
abbrev pub flag_at : Bytes → ℕ → Bool
flag_at payload offset = elim (get_elem? payload offset) [ none ↦ false | some b ↦ not (b == 0) ]

-- The loop of `_parse_batch_get_payload`: the values and the offset behind them.
unfoldable pub parse_items : ℕ → Bytes → ℕ → Result (List (Option Bytes) × ℕ)
parse_items zero payload offset = ok ([], offset)
parse_items (suc count) payload offset = do
  raise_if (ltb (length payload) (offset + 5)) truncated_header
  let exists = flag_at payload offset
  let value_len = u32_at payload (offset + 1)
  let start = offset + 5
  raise_if (ltb (length payload) (start + value_len)) truncated_value
  let value = slice payload start value_len
  (values, end) ← parse_items count payload (start + value_len)
  ok ((if exists then some value else none) ∷ values, end)

unfoldable pub parse_batch_get_payload : Bytes → Result (List (Option Bytes))
unfolding parse_items
parse_batch_get_payload payload = do
  raise_if (ltb (length payload) 4) payload_missing_count
  (values, offset) ← parse_items (u32_at payload 0) payload 4
  raise_if (not (offset == length payload)) trailing_bytes
  ok values

-- `[payload[4 + i] != 0 for i in range(count)]`, from an index on.
unfoldable pub flags_from : ℕ → Bytes → ℕ → List Bool
flags_from zero payload i = []
flags_from (suc count) payload i = flag_at payload i ∷ flags_from count payload (suc i)

unfoldable pub parse_batch_exists_payload : Bytes → Result (List Bool)
unfolding flags_from
parse_batch_exists_payload payload = do
  raise_if (ltb (length payload) 4) payload_missing_count
  let count = u32_at payload 0
  raise_if (not (length payload == 4 + count)) payload_length
  ok (flags_from count payload 4)

-- One item of the server's answer to `BatchGet`: the flag, the length and the value.
unfoldable pub get_item : Option Bytes → Bytes
get_item (some value) = 1 ∷ (le_bytes 4 (length value) ++ value)
get_item none = 0 ∷ le_bytes 4 0

unfoldable pub get_items : List (Option Bytes) → Bytes
get_items [] = []
get_items (value ∷ values) = get_item value ++ get_items values

-- A byte for each flag.
abbrev pub flag_bytes : List Bool → Bytes
flag_bytes [] = []
flag_bytes (b ∷ flags) = (if b then 1 else 0) ∷ flag_bytes flags

-- The payload that the server sends for `BatchGet`, and for `BatchExists`.
unfoldable pub batch_get_payload : List (Option Bytes) → Bytes
unfolding get_items
batch_get_payload values = le_bytes 4 (length values) ++ get_items values

unfoldable pub batch_exists_payload : List Bool → Bytes
batch_exists_payload flags = le_bytes 4 (length flags) ++ flag_bytes flags

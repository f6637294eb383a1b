-- ===== src/MicroKv/Keys.antt =====
-- MicroKV/python/microkv/client.py: the validators and `make_key`.
pub mod Injective
use Prim.Native.String.{String}
use asu_ascend.Common.{
  ℕ, ◌^◌, ◌-◌, Bool, not, ◌||◌, List, [], ◌∷◌, ◌++◌, ◌==◌, length, take, replicate, if◌then◌else◌,
}
use asu_ascend.Common.Int.{ℤ, pos, negsuc, ltb_ℤ}
use asu_ascend.MicroKv.Wire.{
  Bytes, Error, Result, ok, err, ◌>>=◌, ◌>>◌, raise_if, pack, req_index_range, type_range,
  u32_range, key_length,
}

-- `KEY_LENGTH`
abbrev pub key_length_bytes : ℕ
key_length_bytes = 32

-- `value < 0 or value > limit`
abbrev pub out_of_range : ℤ → ℕ → Bool
out_of_range value limit = ltb_ℤ value (pos 0) || ltb_ℤ (pos limit) value

-- `struct.pack` of a Python integer.
abbrev pub pack_ℤ : ℕ → ℤ → Result Bytes
pack_ℤ w (pos n) = pack w n
pack_ℤ w (negsuc n) = err Error.struct_error

unfoldable pub validate_key : Bytes → Result (Unit {0})
validate_key key = raise_if (not (length key == key_length_bytes)) (key_length (length key))

unfoldable pub validate_type : ℤ → Result (Unit {0})
validate_type cache_type = raise_if (out_of_range cache_type 0xff) type_range

unfoldable pub validate_u32 : String → ℤ → Result (Unit {0})
validate_u32 name value = raise_if (out_of_range value 0xffff_ffff) (u32_range name)

pub data ReqIndex : Type 0 where
  int : ℤ → ReqIndex
  str : String → ReqIndex

-- `sha256 s` is `hashlib.sha256(s.encode()).digest()`.
module _ (sha256 : String → Bytes) where
  unfoldable pub request_bytes : ReqIndex → Result Bytes
  request_bytes (str s) = ok (take 16 (sha256 s))
  request_bytes (int i) = do
    raise_if (out_of_range i 0xffff_ffff_ffff_ffff) req_index_range
    low ← pack_ℤ 8 i
    ok (low ++ replicate 8 0)

  unfoldable pub make_key : ReqIndex → ℤ → ℤ → ℤ → Result Bytes
  unfolding request_bytes validate_type validate_u32 pack
  make_key req_index layer_id token_pos cache_type = do
    req_bytes ← request_bytes req_index
    validate_u32 "layer_id" layer_id
    validate_u32 "token_pos" token_pos
    validate_type cache_type
    layer ← pack_ℤ 4 layer_id
    token ← pack_ℤ 4 token_pos
    kind ← pack_ℤ 1 cache_type
    ok (req_bytes ++ (layer ++ (token ++ (kind ++ replicate 7 0))))

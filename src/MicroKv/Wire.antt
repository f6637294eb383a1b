-- ===== src/MicroKv/Wire.antt =====
-- Bytes, the errors of the client, and Python's `struct` for little-endian unsigned numbers.
pub mod Laws
pub use asu_ascend.Common.Results.{Fallible, ok, err, ◌>>=◌, ◌>>◌, raise_if}
use Prim.Native.String.{String}
use asu_ascend.Common.{
  ℕ, zero, suc, ◌+◌, ◌*◌, ◌/◌, ◌%◌, ◌^◌, Bool, true, false, List, [], ◌∷◌, ltb, if◌then◌else◌,
}

abbrev pub Bytes : Type 0
Bytes = List ℕ

-- What the client raises: the ValueErrors, `struct.error`, the ProtocolErrors and the other
-- MicroKVErrors. The TypeErrors are ruled out by the types of the model.
pub data Error : Type 0 where
  req_index_range type_range length_mismatch struct_error client_closed : Error
  u32_range : String → Error
  key_length : ℕ → Error
  payload_length payload_missing_count truncated_header truncated_value trailing_bytes : Error
  socket_closed bad_request internal_error : Error
  other_status : ℕ → Error

abbrev pub Result {ℓ} : Type ℓ → Type ℓ
Result A = Fallible Error A

-- The `w` bytes of a number, lowest first, and the number of some bytes.
unfoldable pub le_bytes : ℕ → ℕ → Bytes
le_bytes zero n = []
le_bytes (suc w) n = n % 256 ∷ le_bytes w (n / 256)

unfoldable pub le_number : Bytes → ℕ
le_number [] = 0
le_number (b ∷ bs) = b + 256 * le_number bs

-- `struct.pack` of one number in `w` bytes.
unfoldable pub pack : ℕ → ℕ → Result Bytes
unfolding le_bytes
pack w n = if ltb n (256 ^ w) then ok (le_bytes w n) else err struct_error

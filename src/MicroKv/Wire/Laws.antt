-- ===== src/MicroKv/Wire/Laws.antt =====
-- Packing and unpacking are inverse to each other.
use asu_ascend.Common.{ℕ, zero, suc, ◌/◌, ◌^◌, ◌<◌, ◌≡◌, refl, ap, length, arith}
use native.Mathlib.Nat.{pow-suc}
use asu_ascend.MicroKv.Wire.{le_bytes, le_number, pack, ok}

pub length-le_bytes : (w n : ℕ) → length (le_bytes w n) ≡ w
unfolding le_bytes
length-le_bytes zero n = refl
length-le_bytes (suc w) n = ap suc (length-le_bytes w (n / 256))

-- A number that fits its width is read back.
pub le_number-le_bytes : (w n : ℕ) → n < 256 ^ w → le_number (le_bytes w n) ≡ n
unfolding le_bytes le_number
le_number-le_bytes zero n h = omega arith
le_number-le_bytes (suc w) n h =
    omega (arith, le_number-le_bytes w (n / 256) (omega (arith, pow-suc 256 w)))

pub pack-le_bytes : (w n : ℕ) → n < 256 ^ w → pack w n ≡ ok (le_bytes w n)
unfolding pack
pack-le_bytes w n h = ground arith

-- Two numbers that fit have the same bytes only if they are equal.
pub le_bytes-injective :
    (w m n : ℕ) → m < 256 ^ w → n < 256 ^ w → le_bytes w m ≡ le_bytes w n → m ≡ n
le_bytes-injective w m n hm hn e =
    omega (arith, le_number-le_bytes w m hm, le_number-le_bytes w n hn, ap le_number e)

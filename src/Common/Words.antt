-- ===== src/Common/Words.antt =====
-- The bits of numbers.
use asu_ascend.Common.{ℕ, zero, suc, ◌+◌, ◌*◌, ◌/◌, ◌%◌, ◌^◌, ◌<◌, ◌≡◌, refl, ap, ◌∙◌, arith}
use native.Mathlib.Nat.{mod-lt, div-add-mod, add-mul-mod_self_left, mod-eq_of_lt}

-- The exclusive or of the lowest `w` bits.
unfoldable pub xor_bits : ℕ → ℕ → ℕ → ℕ
xor_bits zero a b = 0
xor_bits (suc w) a b = (a + b) % 2 + 2 * xor_bits w (a / 2) (b / 2)

pub xor_bits-lt : (w a b : ℕ) → xor_bits w a b < 2 ^ w
unfolding xor_bits
xor_bits-lt zero a b = omega arith
xor_bits-lt (suc w) a b = omega (arith, xor_bits-lt w (a / 2) (b / 2))

double_mod : (b m : ℕ) → 0 < m → b % (2 * m) ≡ b % 2 + 2 * (b / 2 % m)
double_mod b m h =
    let low : ℕ = b % 2 + 2 * (b / 2 % m) in
    let q : ℕ = b / 2 / m in
    let below : b / 2 % m < m = mod-lt (b / 2) h in
    let whole : m * q + b / 2 % m ≡ b / 2 = div-add-mod (b / 2) m in
    let twice : 2 * m * q ≡ 2 * (m * q) = grind arith in
    let parts : b ≡ low + 2 * m * q = omega (arith, whole, twice) in
    ap (λ (x : ℕ). x % (2 * m)) parts
    ∙ add-mul-mod_self_left low (2 * m) q
    ∙ mod-eq_of_lt {n = low} {m = 2 * m} (omega (arith, below))

two_pow_pos : (w : ℕ) → 0 < 2 ^ w
two_pow_pos zero = omega arith
two_pow_pos (suc w) = omega (arith, two_pow_pos w)

-- Numbers that give the same with one number agree in the bits that count.
pub xor_bits_cancel : (w a b c : ℕ) → xor_bits w a b ≡ xor_bits w a c → b % 2 ^ w ≡ c % 2 ^ w
unfolding xor_bits
xor_bits_cancel zero a b c h = omega arith
xor_bits_cancel (suc w) a b c h =
    let double : 2 ^ suc w ≡ 2 * 2 ^ w = omega arith in
    rw double (
      omega (
        arith,
        double_mod b (2 ^ w) (two_pow_pos w),
        double_mod c (2 ^ w) (two_pow_pos w),
        xor_bits_cancel w (a / 2) (b / 2) (c / 2) (omega arith),
      ))

pub xor_bits_comm : (w a b : ℕ) → xor_bits w a b ≡ xor_bits w b a
unfolding xor_bits
xor_bits_comm zero a b = refl
xor_bits_comm (suc w) a b = omega (arith, xor_bits_comm w (a / 2) (b / 2))

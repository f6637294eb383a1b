-- ===== src/Workload/Seeds.antt =====
-- The seeds of the rows: 64 bits, and different for different requests and for different cases.
use asu_ascend.Common.{ℕ, ◌+◌, ◌*◌, ◌^◌, ◌<◌, ◌≡◌, ◌∙◌, arith}
use asu_ascend.Common.Int.{ℤ}
use asu_ascend.Common.Words.{xor_bits, xor_bits-lt, xor_bits_cancel, xor_bits_comm}
use asu_ascend.Workload.{word64, row_seed}

-- A seed has 64 bits.
pub row_seed-lt : (seed : ℤ) (case_id req_id : ℕ) → row_seed seed case_id req_id < 2 ^ 64
unfolding row_seed
row_seed-lt seed case_id req_id =
    xor_bits-lt 64 (xor_bits 64 (word64 seed) ((case_id + 1) * 0x9E3779B185EBCA87))
      ((req_id + 1) * 0xC2B2AE3D27D4EB4F)

-- Conditions: the two requests have numbers below 2 ^ 64 - 1, and the same seed in the same case. They
-- are the same request: the factor is odd, so that no two requests of a case share a generator.
pub row_seed_injective :
    (seed : ℤ) (case_id req_id req_id' : ℕ)
    → req_id + 1 < 2 ^ 64
    → req_id' + 1 < 2 ^ 64
    → row_seed seed case_id req_id ≡ row_seed seed case_id req_id'
    → req_id ≡ req_id'
unfolding row_seed
row_seed_injective seed case_id req_id req_id' small small' same =
    let products =
      xor_bits_cancel 64 (xor_bits 64 (word64 seed) ((case_id + 1) * 0x9E3779B185EBCA87))
        ((req_id + 1) * 0xC2B2AE3D27D4EB4F) ((req_id' + 1) * 0xC2B2AE3D27D4EB4F) same in
    omega (arith, products)

-- Conditions: the two cases have numbers below 2 ^ 64 - 1, and the same seed for the same request. They
-- are the same case.
pub row_seed_injective_case :
    (seed : ℤ) (case_id case_id' req_id : ℕ)
    → case_id + 1 < 2 ^ 64
    → case_id' + 1 < 2 ^ 64
    → row_seed seed case_id req_id ≡ row_seed seed case_id' req_id
    → case_id ≡ case_id'
unfolding row_seed
row_seed_injective_case seed case_id case_id' req_id small small' same =
    let mixed : ℕ → ℕ = λ c. xor_bits 64 (word64 seed) ((c + 1) * 0x9E3779B185EBCA87) in
    let factor : ℕ = (req_id + 1) * 0xC2B2AE3D27D4EB4F in
    let swapped =
      xor_bits_cancel 64 factor (mixed case_id) (mixed case_id') (
        xor_bits_comm 64 factor (mixed case_id)
        ∙ same
        ∙ xor_bits_comm 64 (mixed case_id') factor) in
    let products =
      xor_bits_cancel 64 (word64 seed) ((case_id + 1) * 0x9E3779B185EBCA87)
        ((case_id' + 1) * 0x9E3779B185EBCA87)
        (omega (
          arith,
          swapped,
          xor_bits-lt 64 (word64 seed) ((case_id + 1) * 0x9E3779B185EBCA87),
          xor_bits-lt 64 (word64 seed) ((case_id' + 1) * 0x9E3779B185EBCA87),
        )) in
    omega (arith, products)

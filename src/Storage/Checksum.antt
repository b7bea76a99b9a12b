-- ===== src/Storage/Checksum.antt =====
-- src/checksum_calculator.cpp: the CRC-32 of a sequence of bytes, on 32-bit words.
use Prim.Native.Nat.{bit_xor, bit_and}
use nebula_kv.Prelude.{ℕ, zero, suc, ◌-◌, ◌%◌, ◌/◌, ◌^◌, ◌<◌, Bytes, [], ◌∷◌, arith}

abbrev pub word32 : ℕ
word32 = 2 ^ 32

-- 0xEDB88320
abbrev polynomial : ℕ
polynomial = 3_988_292_384

-- 0xFFFFFFFF
abbrev all_ones : ℕ
all_ones = word32 - 1

-- One round of the inner loop: `mask` is `0U - (checksum & 1U)`.
shift_bit : ℕ → ℕ
shift_bit checksum =
    let mask = (word32 - checksum % 2) % word32 in bit_xor (checksum / 2) (bit_and polynomial mask)

shift_bits : ℕ → ℕ → ℕ
unfolding shift_bit
shift_bits zero checksum = checksum
shift_bits (suc rounds) checksum = shift_bits rounds (shift_bit checksum)

add_bytes : Bytes → ℕ → ℕ
unfolding shift_bits
add_bytes [] checksum = checksum
add_bytes (b ∷ bs) checksum = add_bytes bs (shift_bits 8 (bit_xor checksum b))

unfoldable pub crc32 : Bytes → ℕ
unfolding add_bytes
crc32 bytes = bit_xor (add_bytes bytes all_ones) all_ones % word32

pub crc32-lt : (bs : Bytes) → crc32 bs < word32
unfolding crc32
crc32-lt bs = omega arith

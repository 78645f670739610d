-- ===== src/Bytes/Crc.antt =====
-- hash/crc32: `crc32.ChecksumIEEE`, bit by bit.
use ryu_db.Base.{ℕ, zero, suc, ◌/◌, ◌%◌, ◌^◌, ◌<◌, ◌≡◌, refl, arith, bit_xor}
use ryu_db.Base.{[], ◌∷◌, Bytes, ◌==◌, if◌then◌else◌, u32}

-- One bit of the reflected polynomial 0xEDB88320.
shift_bit : ℕ → ℕ
shift_bit c = if c % 2 == 1 then bit_xor (c / 2) 0xEDB88320 else c / 2

shift_bits : ℕ → ℕ → ℕ
unfolding shift_bit
shift_bits zero c = c
shift_bits (suc n) c = shift_bits n (shift_bit c)

update : ℕ → Bytes → ℕ
unfolding shift_bits
update c [] = c
update c (b ∷ bs) = update (shift_bits 8 (bit_xor c b)) bs

unfoldable pub crc32 : Bytes → ℕ
unfolding update
crc32 bs = u32 (bit_xor (update 0xFFFF_FFFF bs) 0xFFFF_FFFF)

pub crc32-lt : (bs : Bytes) → crc32 bs < 256 ^ 4
unfolding crc32
crc32-lt bs = omega arith

-- The check value of the CRC-32 catalogue, of "123456789".
check_value : crc32 (49 ∷ 50 ∷ 51 ∷ 52 ∷ 53 ∷ 54 ∷ 55 ∷ 56 ∷ 57 ∷ []) ≡ 0xCBF4_3926
unfolding crc32
check_value = refl

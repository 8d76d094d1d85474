-- ===== src/Common/Crc.antt =====
-- CRC-32 with the reflected polynomial 0xEDB88320. boot_metadata.c, update_protocol.c and
-- runtime_monitor_core.c each have this function, word for word.
use Prim.Native.Nat.{ℕ, zero, suc, ◌-◌, ◌/◌, ◌<◌, bit_and, bit_xor}
use mathlib.Core.Path.{◌≡◌, refl}
use mathlib.Core.List.{List, [], ◌∷◌}
use native.Mathlib.Omega.{arith}
use stm32_security_lab.Common.Bytes.{u32}

abbrev u32_max : ℕ
u32_max = 4294967295

-- `mask` is all ones if the low bit is set, and 0 otherwise.
crc32_bit : ℕ → ℕ
crc32_bit crc =
    let mask = u32 (4294967296 - bit_and crc 1) in bit_xor (crc / 2) (bit_and 0xEDB88320 mask)

crc32_bits : ℕ → ℕ → ℕ
unfolding crc32_bit
crc32_bits zero crc = crc
crc32_bits (suc n) crc = crc32_bits n (crc32_bit crc)

-- The loop over the bytes, between the two complements.
crc32_loop : ℕ → List ℕ → ℕ
unfolding crc32_bits
crc32_loop crc [] = crc
crc32_loop crc (byte ∷ rest) = crc32_loop (crc32_bits 8 (bit_xor crc byte)) rest

-- `~crc` on 32 bits.
abbrev not32 : ℕ → ℕ
not32 crc = u32_max - crc

unfoldable pub crc32_update : ℕ → List ℕ → ℕ
unfolding crc32_loop
crc32_update crc bytes = not32 (crc32_loop (not32 crc) bytes)

-- The complement keeps the result a 32-bit word.
pub crc32_update-lt : (crc : ℕ) (bytes : List ℕ) → crc32_update crc bytes < 4294967296
unfolding crc32_update
crc32_update-lt crc bytes = omega arith

crc32_known :
    crc32_update 0 (0x31 ∷ 0x32 ∷ 0x33 ∷ 0x34 ∷ 0x35 ∷ 0x36 ∷ 0x37 ∷ 0x38 ∷ 0x39 ∷ []) ≡ 0xCBF43926
unfolding crc32_update
crc32_known = refl

-- ===== src/Common/Bytes.antt =====
-- Little-endian words in byte buffers: `load_le32`, `store_le32` and the 16-bit pair, which
-- boot_metadata.c, signed_image.c and update_protocol.c each declare.
use Prim.Native.Nat.{
  ℕ, zero, suc, ◌+◌, ◌*◌, ◌/◌, ◌%◌, ◌<◌, ◌≤◌, differ, digits, bit_xor, bit_xor-bitwise,
}
use mathlib.Core.Path.{◌≡◌, refl, ap₂, ◌∙◌}
use mathlib.Core.List.{List}
use native.Mathlib.Omega.{arith}
use stm32_security_lab.Common.Lists.{get_or, set}

-- uint32_t, uint16_t and uint8_t arithmetic wraps.
abbrev pub u32 : ℕ → ℕ
u32 n = n % 4294967296

abbrev pub u16 : ℕ → ℕ
u16 n = n % 65536

abbrev pub u8 : ℕ → ℕ
u8 n = n % 256

-- The bytes do not overlap, so `|` is a sum.
abbrev pub le32 : ℕ → ℕ → ℕ → ℕ → ℕ
le32 b0 b1 b2 b3 = u8 b0 + u8 b1 * 256 + u8 b2 * 65536 + u8 b3 * 16777216

-- `load_le32(&bytes[offset])`; every caller stays within its buffer.
abbrev pub load_le32 : List ℕ → ℕ → ℕ
load_le32 bytes offset =
    le32 (get_or bytes offset 0) (get_or bytes (offset + 1) 0) (get_or bytes (offset + 2) 0)
      (get_or bytes (offset + 3) 0)

abbrev pub load_le16 : List ℕ → ℕ → ℕ
load_le16 bytes offset = u8 (get_or bytes offset 0) + u8 (get_or bytes (offset + 1) 0) * 256

-- `store_le32(&bytes[offset], value)`.
abbrev pub store_le32 : List ℕ → ℕ → ℕ → List ℕ
store_le32 bytes offset value =
    set
      (set (set (set bytes offset (u8 value)) (offset + 1) (u8 (value / 256))) (offset + 2)
        (u8 (value / 65536)))
      (offset + 3) (u8 (value / 16777216))

abbrev pub store_le16 : List ℕ → ℕ → ℕ → List ℕ
store_le16 bytes offset value = set (set bytes offset (u8 value)) (offset + 1) (u8 (value / 256))

-- A stored word loads back.
pub load-store32 :
    (v : ℕ) → v < 4294967296 → le32 (u8 v) (u8 (v / 256)) (u8 (v / 65536)) (u8 (v / 16777216)) ≡ v
load-store32 v h = omega arith

differ_self : (n : ℕ) → differ n n ≡ 0
differ_self zero = refl
differ_self (suc n) = differ_self n

digits_self : (n a : ℕ) → a ≤ n → digits (λ b. b) differ n a a ≡ 0
digits_self zero zero h = refl
digits_self zero (suc a) h = ground arith
digits_self (suc n) zero h = refl
digits_self (suc n) (suc a) h =
    let half : suc a / 2 ≤ n = omega arith in
    let rest : digits (λ b. b) differ n (suc a / 2) (suc a / 2) ≡ 0 =
      digits_self n (suc a / 2) half in
    let last : differ (suc a % 2) (suc a % 2) ≡ 0 = differ_self (suc a % 2) in
    ap₂ (λ x y. x * 2 + y) rest last

pub bit_xor_self : (n : ℕ) → bit_xor n n ≡ 0
bit_xor_self n = bit_xor-bitwise n n ∙ digits_self n n (omega arith)

-- ===== src/Image/Manifest.antt =====
-- signed_image.c: the manifest and the checks of its fields.
use stm32_security_lab.Common.{
  ℕ, ◌+◌, ◌-◌, ◌%◌, Bool, ◌&&◌, ◌||◌, not, Option, none, some, List, take, drop, ltb, leb, ◌==◌,
  if◌then◌else◌, load_le32, bit_and, bit_xor, u32, Result, done, fail, refuse_if, ◌>>◌,
}
use stm32_security_lab.Layout.{application_min_size, application_msp_base, application_msp_end}

pub data VerifyStatus : Type 0 where
  ok bad_magic bad_header_version rollback_version bad_vector_address bad_size bad_stack :
      VerifyStatus
  bad_reset_vector bad_payload_hash bad_signature bad_flags bad_reserved bad_payload_range :
      VerifyStatus
  bad_target_compatibility bad_image_type : VerifyStatus

-- The `verify_status_t` that a call returns.
abbrev pub status_of : {A : Type 0} → Result VerifyStatus A → VerifyStatus
status_of (done _) = VerifyStatus.ok
status_of (fail e) = e

pub record Manifest : Type 0 where
  pub magic : ℕ
  pub header_version : ℕ
  pub image_version : ℕ
  pub vector_address : ℕ
  pub image_size : ℕ
  pub flags : ℕ
  pub reserved0 : ℕ
  pub reserved1 : ℕ
  pub payload_sha512 : List ℕ

pub record Policy : Type 0 where
  pub header_version : ℕ
  pub vector_address : ℕ
  pub payload_flash_end : ℕ
  pub maximum_payload_size : ℕ
  pub allowed_flags_mask : ℕ
  pub target_compatibility : ℕ
  pub image_type : ℕ
  pub require_update_fields : Bool

-- image_policy.h.
abbrev pub signed_image_magic : ℕ
signed_image_magic = 0x31474953

abbrev pub signed_header_version : ℕ
signed_header_version = 1

abbrev pub update_package_format_version : ℕ
update_package_format_version = 2

abbrev pub update_package_target : ℕ
update_package_target = 0xF429AB01

abbrev pub update_package_image_type : ℕ
update_package_image_type = 1

abbrev pub min_image_version : ℕ
min_image_version = 2

abbrev pub vector_min_size : ℕ
vector_min_size = 8

abbrev pub allowed_flags : ℕ
allowed_flags = 0

abbrev pub u32_max : ℕ
u32_max = 0xFFFFFFFF

unfoldable pub u32_equal_redundant : ℕ → ℕ → Bool
u32_equal_redundant left right = left == right && bit_xor left right == 0

unfoldable pub decode_manifest_bytes : List ℕ → Manifest
decode_manifest_bytes bytes = record {
  magic = load_le32 bytes 0;
  header_version = load_le32 bytes 4;
  image_version = load_le32 bytes 8;
  vector_address = load_le32 bytes 12;
  image_size = load_le32 bytes 16;
  flags = load_le32 bytes 20;
  reserved0 = load_le32 bytes 24;
  reserved1 = load_le32 bytes 28;
  payload_sha512 = take 64 (drop 32 bytes);
}

unfoldable pub checked_u32_add : ℕ → ℕ → Option ℕ
checked_u32_add left right = if ltb (u32_max - left) right then none else some (u32 (left + right))

-- The update fields of `validate_manifest_header`.
unfoldable pub validate_reserved : Manifest → Policy → Result VerifyStatus (Unit {0})
validate_reserved m policy =
    if policy.require_update_fields
    then refuse_if (not (m.reserved0 == policy.target_compatibility))
        VerifyStatus.bad_target_compatibility
      >> refuse_if (not (m.reserved1 == policy.image_type)) VerifyStatus.bad_image_type
    else refuse_if (not (m.reserved0 == 0) || not (m.reserved1 == 0)) VerifyStatus.bad_reserved

unfoldable pub validate_manifest_header : Manifest → Policy → Result VerifyStatus (Unit {0})
unfolding validate_reserved
validate_manifest_header m policy = do
  refuse_if (not (u32_equal_redundant m.magic signed_image_magic)) VerifyStatus.bad_magic
  refuse_if (not (u32_equal_redundant m.header_version policy.header_version))
      VerifyStatus.bad_header_version
  refuse_if (not (bit_and m.flags (u32_max - policy.allowed_flags_mask) == 0))
      VerifyStatus.bad_flags
  validate_reserved m policy
  refuse_if (ltb m.image_version min_image_version) VerifyStatus.rollback_version

-- The output is `payload_end`.
unfoldable pub validate_payload_range : Manifest → Policy → Result VerifyStatus ℕ
unfolding checked_u32_add
validate_payload_range m policy = do
  refuse_if (not (u32_equal_redundant m.vector_address policy.vector_address))
      VerifyStatus.bad_vector_address
  refuse_if (ltb m.image_size application_min_size) VerifyStatus.bad_size
  elim (checked_u32_add m.vector_address m.image_size) [
    | none ↦ fail VerifyStatus.bad_payload_range
    | some payload_end ↦ do
      refuse_if (ltb policy.maximum_payload_size m.image_size) VerifyStatus.bad_size
      refuse_if (ltb policy.payload_flash_end payload_end) VerifyStatus.bad_payload_range
      done payload_end
  ]

-- The second computation of the same bounds; none of its differences is negative where it is taken.
unfoldable pub validate_payload_range_independent :
    Manifest → Policy → ℕ → Result VerifyStatus (Unit {0})
validate_payload_range_independent m policy payload_end = do
  refuse_if (ltb policy.payload_flash_end policy.vector_address) VerifyStatus.bad_payload_range
  refuse_if (not (u32_equal_redundant m.vector_address policy.vector_address))
      VerifyStatus.bad_vector_address
  refuse_if (ltb m.image_size vector_min_size) VerifyStatus.bad_size
  refuse_if (ltb (policy.payload_flash_end - policy.vector_address) m.image_size)
      VerifyStatus.bad_size
  refuse_if (ltb (policy.payload_flash_end - m.vector_address) m.image_size)
      VerifyStatus.bad_payload_range
  refuse_if (ltb payload_end m.vector_address || ltb policy.payload_flash_end payload_end)
      VerifyStatus.bad_payload_range
  refuse_if (not (payload_end - m.vector_address == m.image_size)) VerifyStatus.bad_payload_range

-- `msp & (APPLICATION_MSP_ALIGNMENT - 1UL)` is the remainder by 8.
unfoldable pub validate_application_msp : ℕ → Result VerifyStatus (Unit {0})
validate_application_msp msp =
    refuse_if (leb msp application_msp_base || ltb application_msp_end msp || not (msp % 8 == 0))
      VerifyStatus.bad_stack

-- `value & ~1UL`.
abbrev pub clear_bit0 : ℕ → ℕ
clear_bit0 value = value - value % 2

unfoldable pub validate_application_reset : ℕ → ℕ → ℕ → ℕ → ℕ → Result VerifyStatus (Unit {0})
validate_application_reset reset_vector reset_address vector_address payload_end flash_end =
    refuse_if
      (reset_vector % 2 == 0
        || not (clear_bit0 reset_vector == reset_address)
        || ltb reset_address vector_address
        || leb payload_end reset_address
        || leb flash_end reset_address)
      VerifyStatus.bad_reset_vector

-- ===== src/Package.antt =====
-- firmware/exp045_bootloader_v2/src/update_package.c: an update package is a 512-byte header (manifest,
-- signature, padding of erased bytes) and the payload. A call's outputs are the value of `done`; what
-- it leaves in `verify_status` on a refusal stands beside the status.
pub mod Sound
pub mod Streaming
use stm32_security_lab.Common.{
  ℕ, ◌+◌, ◌-◌, Bool, true, false, not, ◌&&◌, ◌||◌, Option, none, some, List, [], ◌∷◌, take, drop,
  ltb, ◌==◌, if◌then◌else◌, bit_and, u32, Result, done, fail, refuse_if, ◌>>=◌, ◌>>◌,
}
use stm32_security_lab.Layout.{
  slot_payload_max_size, signed_manifest_size, signed_signature_size, signed_image_header_size,
  application_min_size,
}
use stm32_security_lab.Slot.{SlotDescriptor}
use stm32_security_lab.Image.Manifest.{
  VerifyStatus, Manifest, decode_manifest_bytes, signed_image_magic, update_package_format_version,
  update_package_target, update_package_image_type, allowed_flags, u32_max,
}
use stm32_security_lab.Image.Verify.{Crypto, signed_image_verify_update_slot_buffer}

pub data Status : Type 0 where
  ok invalid_argument truncated trailing_data oversized unsupported_version : Status
  unknown_flags bad_target bad_image_type bad_size bad_padding incompatible_slot verify : Status

pub record Package : Type 0 where
  pub package_bytes : List ℕ
  pub package_size : ℕ
  pub manifest_bytes : List ℕ
  pub signature_bytes : List ℕ
  pub payload : List ℕ
  pub payload_size : ℕ
  pub manifest : Manifest

pub record Header : Type 0 where
  pub manifest : Manifest
  pub manifest_bytes : List ℕ
  pub signature_bytes : List ℕ
  pub payload_size : ℕ
  pub package_size : ℕ

-- `size_t` has 32 bits.
unfoldable pub checked_size_add : ℕ → ℕ → Option ℕ
checked_size_add left right = if ltb (u32_max - left) right then none else some (u32 (left + right))

-- Both slots have one size.
unfoldable pub largest_slot_payload_size : ℕ
largest_slot_payload_size =
    if ltb slot_payload_max_size slot_payload_max_size
    then slot_payload_max_size
    else slot_payload_max_size

-- `bytes[i] == 0xFF` for each of them.
unfoldable pub all_erased : List ℕ → Bool
all_erased [] = true
all_erased (byte ∷ rest) = byte == 0xFF && all_erased rest

unfoldable pub padding_is_canonical : List ℕ → Bool
unfolding all_erased
padding_is_canonical package_bytes =
    let padding_start = signed_manifest_size + signed_signature_size in
    all_erased (take (signed_image_header_size - padding_start) (drop padding_start package_bytes))

-- The manifest's fields, in the order of the checks.
unfoldable pub check_manifest : Manifest → Result Status (Unit {0})
unfolding largest_slot_payload_size
check_manifest m = do
  refuse_if (not (m.magic == signed_image_magic)) Status.verify
  refuse_if (not (m.header_version == update_package_format_version)) Status.unsupported_version
  refuse_if (not (bit_and m.flags (u32_max - allowed_flags) == 0)) Status.unknown_flags
  refuse_if (not (m.reserved0 == update_package_target)) Status.bad_target
  refuse_if (not (m.reserved1 == update_package_image_type)) Status.bad_image_type
  refuse_if (ltb m.image_size application_min_size) Status.bad_size
  refuse_if (ltb largest_slot_payload_size m.image_size) Status.oversized

-- The header that `parse_header_common` fills.
abbrev pub header_of : List ℕ → ℕ → Header
header_of header_bytes expected_size = record {
  manifest = decode_manifest_bytes header_bytes;
  manifest_bytes = take signed_manifest_size header_bytes;
  signature_bytes = take signed_signature_size (drop signed_manifest_size header_bytes);
  payload_size = (decode_manifest_bytes header_bytes).image_size;
  package_size = expected_size;
}

-- What follows the addition of the sizes.
unfoldable pub finish_header : List ℕ → Option ℕ → Result Status Header
unfolding padding_is_canonical
finish_header header_bytes none = fail Status.oversized
finish_header header_bytes (some expected_size) = do
  refuse_if (not (padding_is_canonical header_bytes)) Status.bad_padding
  done (header_of header_bytes expected_size)

unfoldable pub parse_header_common : List ℕ → ℕ → Result Status Header
unfolding check_manifest checked_size_add finish_header
parse_header_common header_bytes available_size = do
  refuse_if (ltb available_size signed_image_header_size) Status.truncated
  check_manifest (decode_manifest_bytes header_bytes)
  finish_header header_bytes
      (checked_size_add signed_image_header_size (decode_manifest_bytes header_bytes).image_size)

abbrev pub package_of : List ℕ → ℕ → Header → Package
package_of package_bytes package_size header = record {
  package_bytes = package_bytes;
  package_size = package_size;
  manifest_bytes = package_bytes;
  signature_bytes = take signed_signature_size (drop signed_manifest_size package_bytes);
  payload = drop signed_image_header_size package_bytes;
  payload_size = header.payload_size;
  manifest = header.manifest;
}

unfoldable pub update_package_parse : List ℕ → ℕ → Result Status Package
unfolding parse_header_common
update_package_parse package_bytes package_size = do
  header ← parse_header_common package_bytes package_size
  refuse_if (ltb package_size header.package_size) Status.truncated
  refuse_if (ltb header.package_size package_size) Status.trailing_data
  done (package_of package_bytes package_size header)

-- A refusal with what `verify_status` holds at that point.
abbrev pub with_verify_status :
    {A : Type 0} → VerifyStatus → Result Status A → Result (Status × VerifyStatus) A
with_verify_status v (done a) = done a
with_verify_status v (fail e) = fail (e, v)

abbrev pub as_package_status :
    {A : Type 0} → Result VerifyStatus A → Result (Status × VerifyStatus) A
as_package_status (done a) = done a
as_package_status (fail v) = fail (Status.verify, v)

module _ (crypto : Crypto) where
  unfoldable pub update_package_verify_header_for_slot :
      List ℕ → ℕ → List ℕ → SlotDescriptor → Result (Status × VerifyStatus) Header
  update_package_verify_header_for_slot header_bytes header_size public_key slot = do
    refuse_if (ltb header_size signed_image_header_size)
        (Status.truncated, VerifyStatus.bad_payload_range)
    refuse_if (ltb signed_image_header_size header_size)
        (Status.trailing_data, VerifyStatus.bad_payload_range)
    parsed ←
        with_verify_status VerifyStatus.bad_payload_range
          (parse_header_common header_bytes header_size)
    refuse_if (not (parsed.manifest.vector_address == slot.payload_base))
        (Status.incompatible_slot, VerifyStatus.bad_vector_address)
    refuse_if (ltb slot.maximum_payload_size parsed.manifest.image_size)
        (Status.incompatible_slot, VerifyStatus.bad_size)
    refuse_if
        (not (
          crypto.ed25519_check parsed.signature_bytes public_key
            (take signed_manifest_size parsed.manifest_bytes)))
        (Status.verify, VerifyStatus.bad_signature)
    done parsed

  unfoldable pub update_package_verify_for_slot :
      List ℕ → ℕ → List ℕ → SlotDescriptor → Result (Status × VerifyStatus) Package
  update_package_verify_for_slot package_bytes package_size public_key slot = do
    parsed ←
        with_verify_status VerifyStatus.bad_payload_range
          (update_package_parse package_bytes package_size)
    refuse_if
        (not (parsed.manifest.vector_address == slot.payload_base)
          || ltb slot.maximum_payload_size parsed.manifest.image_size)
        (Status.incompatible_slot, VerifyStatus.bad_payload_range)
    as_package_status (
        signed_image_verify_update_slot_buffer crypto parsed.manifest_bytes parsed.signature_bytes
          parsed.payload parsed.payload_size public_key slot)
    done parsed

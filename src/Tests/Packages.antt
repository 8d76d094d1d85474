-- ===== src/Tests/Packages.antt =====
-- An update package for slot B, and the check of it.
use stm32_security_lab.Slot.{boot_slot_lookup, boot_slot_default, slot_b_descriptor}
use stm32_security_lab.Image.Manifest.{
  u32_equal_redundant, decode_manifest_bytes, checked_u32_add, validate_reserved,
  validate_manifest_header, validate_payload_range, validate_payload_range_independent,
  validate_application_msp, validate_application_reset, VerifyStatus,
}
use stm32_security_lab.Image.Verify.{
  read_application_vector, validate_vector_table, validate_image, slot_is_consistent,
  verify_buffer_with_policy, signed_image_verify_buffer, signed_image_verify_update_slot_buffer,
}
use stm32_security_lab.Package.{
  checked_size_add, largest_slot_payload_size, all_erased, padding_is_canonical, check_manifest,
  finish_header, parse_header_common, update_package_parse, update_package_verify_header_for_slot,
  update_package_verify_for_slot, Package, Status, package_of, header_of,
}
use stm32_security_lab.Common.{
  ℕ, ◌+◌, ◌≡◌, ◌++◌, refl, true, List, [], replicate, take, drop, load_le32, done, Result,
}
use stm32_security_lab.Layout.{
  signed_manifest_size, signed_signature_size, signed_image_header_size,
}
use stm32_security_lab.Package.Sound.{IsForSlot, verify_package-IsBootable}
use stm32_security_lab.Package.Streaming.{verify_package-header}
use stm32_security_lab.Image.Sound.{IsBootable}
use stm32_security_lab.Tests.Boot.{accepting, manifest_at, payload_at}

-- The manifest, a signature of zeros and the erased padding.
abbrev pub package_header : List ℕ
package_header = manifest_at slot_b_descriptor.payload_base ++ replicate 64 0 ++ replicate 352 0xFF

abbrev pub update_bytes : List ℕ
update_bytes = package_header ++ payload_at slot_b_descriptor.payload_base

abbrev checked_package : Result (Status × VerifyStatus) Package
checked_package = update_package_verify_for_slot accepting update_bytes 520 [] slot_b_descriptor

checked_package_done :
    checked_package ≡ done (package_of update_bytes 520 (header_of update_bytes 520))
unfolding boot_slot_lookup boot_slot_default u32_equal_redundant decode_manifest_bytes
    checked_u32_add validate_reserved validate_manifest_header validate_payload_range
    validate_payload_range_independent validate_application_msp validate_application_reset
    read_application_vector validate_vector_table validate_image slot_is_consistent
    verify_buffer_with_policy signed_image_verify_buffer signed_image_verify_update_slot_buffer
    checked_size_add largest_slot_payload_size all_erased padding_is_canonical check_manifest
    finish_header parse_header_common update_package_parse update_package_verify_header_for_slot
    update_package_verify_for_slot
checked_package_done = refl

verify_package-IsBootable_example :
    (package_of update_bytes 520 (header_of update_bytes 520)
      ≡ package_of update_bytes 520 (header_of update_bytes 520))
    × (520 ≡ signed_image_header_size + load_le32 update_bytes 16)
    × IsForSlot update_bytes slot_b_descriptor
    × IsBootable update_bytes (drop signed_image_header_size update_bytes) slot_b_descriptor
    × (accepting.sha512
          (take (load_le32 update_bytes 16) (drop signed_image_header_size update_bytes))
        ≡ take 64 (drop 32 update_bytes))
    × (accepting.ed25519_check
          (take signed_signature_size (drop signed_manifest_size update_bytes))
          []
          (take signed_manifest_size update_bytes)
        ≡ true)
verify_package-IsBootable_example =
    verify_package-IsBootable accepting update_bytes [] 520 slot_b_descriptor
      (package_of update_bytes 520 (header_of update_bytes 520)) checked_package_done

verify_package-header_example :
    update_package_verify_header_for_slot accepting update_bytes signed_image_header_size []
      slot_b_descriptor
    ≡ done (header_of update_bytes 520)
verify_package-header_example =
    verify_package-header accepting update_bytes [] 520 slot_b_descriptor
      (package_of update_bytes 520 (header_of update_bytes 520)) checked_package_done

-- ===== src/Tests/Images.antt =====
-- The verification of an image and the jump, on slot A's image of Tests/Boot.
use stm32_security_lab.Common.{ℕ, ◌≡◌, refl, some, List, [], true, take, drop, load_le32, done}
use stm32_security_lab.Layout.{signed_manifest_size}
use stm32_security_lab.Slot.{slot_a_descriptor, boot_slot_lookup, boot_slot_default}
use stm32_security_lab.Image.Manifest.{
  u32_equal_redundant, decode_manifest_bytes, checked_u32_add, validate_reserved,
  validate_manifest_header, validate_payload_range, validate_payload_range_independent,
  validate_application_msp, validate_application_reset,
}
use stm32_security_lab.Image.Verify.{
  read_application_vector, validate_vector_table, validate_image, slot_is_consistent,
  verify_buffer_with_policy, signed_image_verify_buffer, signed_image_verify_update_slot_buffer,
}
use stm32_security_lab.Image.Jump.{
  Launch, slot_at_vector, slot_for_vector_address, validate_context_in, validate_jump_context,
  signed_image_prepare_update_slot_buffer, signed_image_prepare_jump, vector_matches,
  confirm_jump_context_matches_flash, signed_image_jump,
}
use stm32_security_lab.Image.Sound.{IsBootable, context_of, verify_slot-IsBootable}
use stm32_security_lab.Image.Launch.{verify_slot-prepare, bootable-jump}
use stm32_security_lab.Image.Entry.{IsLaunchable, jump-IsLaunchable}
use stm32_security_lab.Tests.Boot.{accepting, manifest_at, payload_at, memory}
use stm32_security_lab.Tests.{blank}

abbrev manifest : List ℕ
manifest = manifest_at slot_a_descriptor.payload_base

abbrev payload : List ℕ
payload = payload_at slot_a_descriptor.payload_base

found : boot_slot_lookup 0 ≡ some slot_a_descriptor
unfolding boot_slot_lookup
found = refl

accepted :
    signed_image_verify_update_slot_buffer accepting manifest [] payload
      slot_a_descriptor.maximum_payload_size [] slot_a_descriptor
    ≡ done tt
unfolding boot_slot_lookup boot_slot_default u32_equal_redundant decode_manifest_bytes
    checked_u32_add validate_reserved validate_manifest_header validate_payload_range
    validate_payload_range_independent validate_application_msp validate_application_reset
    read_application_vector validate_vector_table validate_image slot_is_consistent
    verify_buffer_with_policy signed_image_verify_buffer signed_image_verify_update_slot_buffer
    slot_at_vector slot_for_vector_address validate_context_in validate_jump_context
    signed_image_prepare_update_slot_buffer signed_image_prepare_jump vector_matches
    confirm_jump_context_matches_flash signed_image_jump
accepted = refl

verify_slot-IsBootable_example :
    IsBootable manifest payload slot_a_descriptor
    × (accepting.sha512 (take (load_le32 manifest 16) payload) ≡ take 64 (drop 32 manifest))
    × (accepting.ed25519_check [] [] (take signed_manifest_size manifest) ≡ true)
verify_slot-IsBootable_example =
    verify_slot-IsBootable accepting manifest [] payload slot_a_descriptor.maximum_payload_size []
      slot_a_descriptor accepted

verify_slot-prepare_example :
    signed_image_prepare_update_slot_buffer manifest payload slot_a_descriptor.maximum_payload_size
      slot_a_descriptor
    ≡ done (context_of manifest payload)
verify_slot-prepare_example =
    verify_slot-prepare accepting manifest [] payload slot_a_descriptor.maximum_payload_size [] 0
      slot_a_descriptor found accepted

bootable-jump_example :
    signed_image_jump (memory blank) (context_of manifest payload)
    ≡ done (record {
      vtor = slot_a_descriptor.payload_base;
      msp = load_le32 payload 0;
      entry = load_le32 payload 4;
    })
bootable-jump_example =
    bootable-jump (memory blank) manifest payload 0 slot_a_descriptor found
      (verify_slot-IsBootable accepting manifest [] payload slot_a_descriptor.maximum_payload_size
        [] slot_a_descriptor accepted).0
      refl

abbrev launch : Launch
launch = record { vtor = 0x08020200; msp = 0x20010000; entry = 0x08020205 }

jumped : signed_image_jump (memory blank) (context_of manifest payload) ≡ done launch
unfolding boot_slot_lookup boot_slot_default u32_equal_redundant decode_manifest_bytes
    checked_u32_add validate_reserved validate_manifest_header validate_payload_range
    validate_payload_range_independent validate_application_msp validate_application_reset
    read_application_vector validate_vector_table validate_image slot_is_consistent
    verify_buffer_with_policy signed_image_verify_buffer signed_image_verify_update_slot_buffer
    slot_at_vector slot_for_vector_address validate_context_in validate_jump_context
    signed_image_prepare_update_slot_buffer signed_image_prepare_jump vector_matches
    confirm_jump_context_matches_flash signed_image_jump
jumped = refl

jump-IsLaunchable_example : IsLaunchable (memory blank) (context_of manifest payload) launch
jump-IsLaunchable_example =
    jump-IsLaunchable (memory blank) (context_of manifest payload) launch jumped

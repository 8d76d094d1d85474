-- ===== src/Tests/Boot.antt =====
-- Stage 0 on concrete journals and images. SHA-512 and Ed25519 are stood for by functions that accept.
use stm32_security_lab.Common.{
  ℕ, ◌+◌, ◌≤◌, ◌<◌, ◌≡◌, refl, true, some, List, [], replicate, store_le32, load_le32, done, ◌==◌,
  if◌then◌else◌, arith,
}
use stm32_security_lab.Selection.Safe.{IsVerified, select-IsVerified}
use stm32_security_lab.Selection.Trial.{trials_left, trial-journal, TrialBoots, TrialBoots-bounded}
use stm32_security_lab.Flash.{
  checked_range_end, range_in_bounds, some_region_holds, range_is_write_allowed, is_power_of_two,
  regions_in_flash, boot_flash_sector_by_id, chunk_size, boot_flash_init, boot_flash_read,
  boot_flash_erase_sector, check_chunk, verify_loop, program_and_verify, boot_flash_program_aligned,
}
use stm32_security_lab.Flash.Nor.{
  nor, content, nor-Backed, write, is_blank, erase, nor_erase, nor_program,
}
use stm32_security_lab.Flash.Device.{bytes_at}
use stm32_security_lab.Flash.Target.{boot_flash_target_init_metadata}
use stm32_security_lab.Metadata.{
  max_boot_attempts, State, MetadataStatus, state_of_u32, slot_value_is_valid,
  candidate_is_canonical, state_is_canonical, state_record_is_canonical, transition_state_allowed,
  fields_allowed, transition_fields_allowed, boot_metadata_validate_transition, next_record,
  boot_metadata_prepare_next, boot_metadata_empty,
}
use stm32_security_lab.Metadata.Codec.{
  encode_without_crc, seal, boot_metadata_encode, all_zero, fixed_words_are_valid,
  commit_marker_is_present, crc_is_valid, fields_at, decode_fields, boot_metadata_decode,
  records_are_equal, choose, boot_metadata_recover,
}
use stm32_security_lab.Metadata.Journal.{
  commit_target, boot_metadata_recover_from_flash, write_encoded, write_copy, commit_from,
  boot_metadata_commit, boot_metadata_reinitialize_for_recovery,
}
use stm32_security_lab.Metadata.Recovery.{copy_bytes, journal}
use stm32_security_lab.Slot.{
  SlotDescriptor, slot_a_descriptor, slot_b_descriptor, boot_slot_lookup, boot_slot_default,
}
use stm32_security_lab.Image.Manifest.{
  signed_image_magic, update_package_format_version, update_package_target,
  update_package_image_type, u32_equal_redundant, decode_manifest_bytes, checked_u32_add,
  validate_reserved, validate_manifest_header, validate_payload_range,
  validate_payload_range_independent, validate_application_msp, validate_application_reset,
}
use stm32_security_lab.Image.Verify.{
  Crypto, read_application_vector, validate_vector_table, validate_image, slot_is_consistent,
  verify_buffer_with_policy, signed_image_verify_buffer, signed_image_verify_update_slot_buffer,
}
use stm32_security_lab.Image.Jump.{
  slot_at_vector, slot_for_vector_address, validate_context_in, validate_jump_context,
  signed_image_prepare_update_slot_buffer, signed_image_prepare_jump, vector_matches,
  confirm_jump_context_matches_flash, signed_image_jump,
}
use stm32_security_lab.Selection.{
  Status, Decision, Selection, Options, init_result, prepare_rejected_invalid, next_trial_attempts,
  with_metadata, maybe_inject, verify_slot, commit_next, reject_invalid_best_effort,
  select_confirmed_slot, fallback_to_confirmed, commit_trial, start_or_continue_trial,
  select_by_state, boot_slot_selection_select,
}
use stm32_security_lab.Selection.Policy.{
  target_options, IsSigned, policy_select-jump, verify_target_slot, boot_policy_select,
}
use stm32_security_lab.ResetCause.{
  any_known_flag, reset_cause_primary_kind_from_raw, reset_cause_trial_result,
}
use stm32_security_lab.Common.Crc.{crc32_update}
use stm32_security_lab.Tests.{confirmed_a, trial_b, holding, device}

abbrev pub accepting : Crypto
accepting = record { sha512 = λ _. replicate 64 0; ed25519_check = λ _ _ _. true }

-- The manifest of an 8-byte image of version 6 at `base`.
abbrev pub manifest_at : ℕ → List ℕ
manifest_at base =
    let b0 = store_le32 (replicate 96 0) 0 signed_image_magic in
    let b4 = store_le32 b0 4 update_package_format_version in
    let b8 = store_le32 b4 8 6 in
    let b12 = store_le32 b8 12 base in
    let b16 = store_le32 b12 16 8 in
    let b24 = store_le32 b16 24 update_package_target in store_le32 b24 28 update_package_image_type

-- Its vector table: the stack pointer and the entry.
abbrev pub payload_at : ℕ → List ℕ
payload_at base = store_le32 (store_le32 (replicate 8 0) 0 0x20010000) 4 (base + 5)

abbrev pub memory : (ℕ → ℕ) → ℕ → List ℕ
memory d address =
    if address == slot_a_descriptor.manifest_address
    then manifest_at slot_a_descriptor.payload_base
    else if address == slot_a_descriptor.payload_base
    then payload_at slot_a_descriptor.payload_base
    else if address == slot_b_descriptor.manifest_address
    then manifest_at slot_b_descriptor.payload_base
    else if address == slot_b_descriptor.payload_base
    then payload_at slot_b_descriptor.payload_base
    else []

-- A power-on reset.
abbrev options : Options (ℕ → ℕ)
options = target_options accepting [] memory device 0x08000000

abbrev booted : Status × Selection × (ℕ → ℕ)
booted = boot_policy_select accepting [] memory true nor 0x08000000 (holding confirmed_a)

booted_ok : booted.0 ≡ Status.ok
unfolding checked_range_end range_in_bounds some_region_holds range_is_write_allowed is_power_of_two
    regions_in_flash boot_flash_sector_by_id chunk_size boot_flash_init boot_flash_read
    boot_flash_erase_sector check_chunk verify_loop program_and_verify boot_flash_program_aligned
    write is_blank erase nor_erase nor_program nor bytes_at boot_flash_target_init_metadata
    state_of_u32 slot_value_is_valid candidate_is_canonical state_is_canonical
    state_record_is_canonical transition_state_allowed fields_allowed transition_fields_allowed
    boot_metadata_validate_transition next_record boot_metadata_prepare_next boot_metadata_empty
    encode_without_crc seal boot_metadata_encode all_zero fixed_words_are_valid
    commit_marker_is_present crc_is_valid fields_at decode_fields boot_metadata_decode
    records_are_equal choose boot_metadata_recover commit_target boot_metadata_recover_from_flash
    write_encoded write_copy commit_from boot_metadata_commit
    boot_metadata_reinitialize_for_recovery copy_bytes journal boot_slot_lookup boot_slot_default
    u32_equal_redundant decode_manifest_bytes checked_u32_add validate_reserved
    validate_manifest_header validate_payload_range validate_payload_range_independent
    validate_application_msp validate_application_reset read_application_vector
    validate_vector_table validate_image slot_is_consistent verify_buffer_with_policy
    signed_image_verify_buffer signed_image_verify_update_slot_buffer slot_at_vector
    slot_for_vector_address validate_context_in validate_jump_context
    signed_image_prepare_update_slot_buffer signed_image_prepare_jump vector_matches
    confirm_jump_context_matches_flash signed_image_jump init_result prepare_rejected_invalid
    next_trial_attempts with_metadata maybe_inject verify_slot commit_next
    reject_invalid_best_effort select_confirmed_slot fallback_to_confirmed commit_trial
    start_or_continue_trial select_by_state boot_slot_selection_select verify_target_slot
    boot_policy_select any_known_flag reset_cause_primary_kind_from_raw reset_cause_trial_result
    crc32_update
booted_ok = refl

policy_select-jump_example :
    (at : ℕ → ℕ) × (s : SlotDescriptor) × (boot_slot_lookup booted.1.selected_slot ≡ some s)
    × IsSigned accepting [] memory at s
    × (signed_image_jump (memory at) booted.1.jump_context
        ≡ done (record {
          vtor = s.payload_base;
          msp = load_le32 (memory at s.payload_base) 0;
          entry = load_le32 (memory at s.payload_base) 4;
        }))
policy_select-jump_example =
    policy_select-jump accepting [] memory true nor 0x08000000 (holding confirmed_a) booted.2
      booted.1 (λ i. (booted_ok i, booted.1, booted.2))

-- The second trial of slot B.
abbrev tried : Status × Selection × (ℕ → ℕ)
tried = boot_slot_selection_select options (holding trial_b)

tried_ok : tried.0 ≡ Status.ok
unfolding checked_range_end range_in_bounds some_region_holds range_is_write_allowed is_power_of_two
    regions_in_flash boot_flash_sector_by_id chunk_size boot_flash_init boot_flash_read
    boot_flash_erase_sector check_chunk verify_loop program_and_verify boot_flash_program_aligned
    write is_blank erase nor_erase nor_program nor bytes_at boot_flash_target_init_metadata
    state_of_u32 slot_value_is_valid candidate_is_canonical state_is_canonical
    state_record_is_canonical transition_state_allowed fields_allowed transition_fields_allowed
    boot_metadata_validate_transition next_record boot_metadata_prepare_next boot_metadata_empty
    encode_without_crc seal boot_metadata_encode all_zero fixed_words_are_valid
    commit_marker_is_present crc_is_valid fields_at decode_fields boot_metadata_decode
    records_are_equal choose boot_metadata_recover commit_target boot_metadata_recover_from_flash
    write_encoded write_copy commit_from boot_metadata_commit
    boot_metadata_reinitialize_for_recovery copy_bytes journal boot_slot_lookup boot_slot_default
    u32_equal_redundant decode_manifest_bytes checked_u32_add validate_reserved
    validate_manifest_header validate_payload_range validate_payload_range_independent
    validate_application_msp validate_application_reset read_application_vector
    validate_vector_table validate_image slot_is_consistent verify_buffer_with_policy
    signed_image_verify_buffer signed_image_verify_update_slot_buffer slot_at_vector
    slot_for_vector_address validate_context_in validate_jump_context
    signed_image_prepare_update_slot_buffer signed_image_prepare_jump vector_matches
    confirm_jump_context_matches_flash signed_image_jump init_result prepare_rejected_invalid
    next_trial_attempts with_metadata maybe_inject verify_slot commit_next
    reject_invalid_best_effort select_confirmed_slot fallback_to_confirmed commit_trial
    start_or_continue_trial select_by_state boot_slot_selection_select verify_target_slot
    boot_policy_select any_known_flag reset_cause_primary_kind_from_raw reset_cause_trial_result
    crc32_update
tried_ok = refl

tried_trial : tried.1.decision ≡ Decision.trial
unfolding checked_range_end range_in_bounds some_region_holds range_is_write_allowed is_power_of_two
    regions_in_flash boot_flash_sector_by_id chunk_size boot_flash_init boot_flash_read
    boot_flash_erase_sector check_chunk verify_loop program_and_verify boot_flash_program_aligned
    write is_blank erase nor_erase nor_program nor bytes_at boot_flash_target_init_metadata
    state_of_u32 slot_value_is_valid candidate_is_canonical state_is_canonical
    state_record_is_canonical transition_state_allowed fields_allowed transition_fields_allowed
    boot_metadata_validate_transition next_record boot_metadata_prepare_next boot_metadata_empty
    encode_without_crc seal boot_metadata_encode all_zero fixed_words_are_valid
    commit_marker_is_present crc_is_valid fields_at decode_fields boot_metadata_decode
    records_are_equal choose boot_metadata_recover commit_target boot_metadata_recover_from_flash
    write_encoded write_copy commit_from boot_metadata_commit
    boot_metadata_reinitialize_for_recovery copy_bytes journal boot_slot_lookup boot_slot_default
    u32_equal_redundant decode_manifest_bytes checked_u32_add validate_reserved
    validate_manifest_header validate_payload_range validate_payload_range_independent
    validate_application_msp validate_application_reset read_application_vector
    validate_vector_table validate_image slot_is_consistent verify_buffer_with_policy
    signed_image_verify_buffer signed_image_verify_update_slot_buffer slot_at_vector
    slot_for_vector_address validate_context_in validate_jump_context
    signed_image_prepare_update_slot_buffer signed_image_prepare_jump vector_matches
    confirm_jump_context_matches_flash signed_image_jump init_result prepare_rejected_invalid
    next_trial_attempts with_metadata maybe_inject verify_slot commit_next
    reject_invalid_best_effort select_confirmed_slot fallback_to_confirmed commit_trial
    start_or_continue_trial select_by_state boot_slot_selection_select verify_target_slot
    boot_policy_select any_known_flag reset_cause_primary_kind_from_raw reset_cause_trial_result
    crc32_update
tried_trial = refl

reset_word : options.trial_reset_result < 4294967296
unfolding reset_cause_trial_result reset_cause_primary_kind_from_raw any_known_flag
reset_word = omega arith

found_b : (journal (content (holding trial_b))).0 ≡ MetadataStatus.ok
unfolding checked_range_end range_in_bounds some_region_holds range_is_write_allowed is_power_of_two
    regions_in_flash boot_flash_sector_by_id chunk_size boot_flash_init boot_flash_read
    boot_flash_erase_sector check_chunk verify_loop program_and_verify boot_flash_program_aligned
    write is_blank erase nor_erase nor_program nor bytes_at boot_flash_target_init_metadata
    state_of_u32 slot_value_is_valid candidate_is_canonical state_is_canonical
    state_record_is_canonical transition_state_allowed fields_allowed transition_fields_allowed
    boot_metadata_validate_transition next_record boot_metadata_prepare_next boot_metadata_empty
    encode_without_crc seal boot_metadata_encode all_zero fixed_words_are_valid
    commit_marker_is_present crc_is_valid fields_at decode_fields boot_metadata_decode
    records_are_equal choose boot_metadata_recover commit_target boot_metadata_recover_from_flash
    write_encoded write_copy commit_from boot_metadata_commit
    boot_metadata_reinitialize_for_recovery copy_bytes journal boot_slot_lookup boot_slot_default
    u32_equal_redundant decode_manifest_bytes checked_u32_add validate_reserved
    validate_manifest_header validate_payload_range validate_payload_range_independent
    validate_application_msp validate_application_reset read_application_vector
    validate_vector_table validate_image slot_is_consistent verify_buffer_with_policy
    signed_image_verify_buffer signed_image_verify_update_slot_buffer slot_at_vector
    slot_for_vector_address validate_context_in validate_jump_context
    signed_image_prepare_update_slot_buffer signed_image_prepare_jump vector_matches
    confirm_jump_context_matches_flash signed_image_jump init_result prepare_rejected_invalid
    next_trial_attempts with_metadata maybe_inject verify_slot commit_next
    reject_invalid_best_effort select_confirmed_slot fallback_to_confirmed commit_trial
    start_or_continue_trial select_by_state boot_slot_selection_select verify_target_slot
    boot_policy_select any_known_flag reset_cause_primary_kind_from_raw reset_cause_trial_result
    crc32_update
found_b = refl

select-IsVerified_example :
    IsVerified options (boot_metadata_recover_from_flash device (holding trial_b)).1 tried.1
select-IsVerified_example =
    select-IsVerified options (holding trial_b) tried.2 tried.1
      (λ i. (tried_ok i, tried.1, tried.2))

trial-journal_example :
    let before = (journal (content (holding trial_b))).1 in
    let after = journal (content tried.2) in
    (after.0 ≡ MetadataStatus.ok)
    × (after.1.state ≡ State.pending_trial)
    × (after.1.candidate_slot ≡ before.candidate_slot)
    × (after.1.boot_attempt_count ≡ tried.1.attempts_remaining_after)
    × (after.1.boot_attempt_count + 1 ≡ trials_left before.state before)
trial-journal_example =
    trial-journal options content nor-Backed reset_word (holding trial_b) tried.2 tried.1
      (λ i. (tried_ok i, tried.1, tried.2)) tried_trial

one_boot : TrialBoots options content nor-Backed reset_word (holding trial_b) 1 tried.2
one_boot = TrialBoots.boot TrialBoots.none_yet (λ i. (tried_ok i, tried.1, tried.2)) tried_trial

TrialBoots-bounded_example :
    (1 + trials_left (journal (content tried.2)).1.state (journal (content tried.2)).1
      ≡ trials_left
          (journal (content (holding trial_b))).1.state
          (journal (content (holding trial_b))).1)
    × (1 ≤ max_boot_attempts)
TrialBoots-bounded_example =
    TrialBoots-bounded options content nor-Backed reset_word found_b one_boot

-- ===== src/Tests/Confirm.antt =====
-- A trial of slot B that confirms itself, through the application's gate.
use stm32_security_lab.Common.{ℕ, ◌≡◌, refl, true, false}
use stm32_security_lab.Flash.{
  checked_range_end, range_in_bounds, some_region_holds, range_is_write_allowed, is_power_of_two,
  regions_in_flash, boot_flash_sector_by_id, chunk_size, boot_flash_init, boot_flash_read,
  boot_flash_erase_sector, check_chunk, verify_loop, program_and_verify, boot_flash_program_aligned,
}
use stm32_security_lab.Flash.Nor.{
  nor, content, nor-Backed, write, is_blank, erase, nor_erase, nor_program,
}
use stm32_security_lab.Flash.Device.{bytes_at}
use stm32_security_lab.Flash.Target.{boot_flash_target_init_metadata}
use stm32_security_lab.Metadata.{
  state_of_u32, slot_value_is_valid, candidate_is_canonical, state_is_canonical,
  state_record_is_canonical, transition_state_allowed, fields_allowed, transition_fields_allowed,
  boot_metadata_validate_transition, next_record, boot_metadata_prepare_next, boot_metadata_empty,
}
use stm32_security_lab.Metadata.Codec.{
  encode_without_crc, seal, boot_metadata_encode, all_zero, fixed_words_are_valid,
  commit_marker_is_present, crc_is_valid, fields_at, decode_fields, boot_metadata_decode,
  records_are_equal, choose, boot_metadata_recover,
}
use stm32_security_lab.Metadata.Journal.{
  commit_target, boot_metadata_recover_from_flash, write_encoded, write_copy, commit_from,
  boot_metadata_commit, boot_metadata_reinitialize_for_recovery,
}
use stm32_security_lab.Metadata.Recovery.{copy_bytes, journal}
use stm32_security_lab.Slot.{boot_slot_lookup, boot_slot_default}
use stm32_security_lab.Common.Crc.{crc32_update}
use stm32_security_lab.Confirmation.{
  Confirmed, init_confirm_result, boot_confirm_slot_from_vector_address, is_confirmed_as,
  is_trial_of, confirm_trial_record, confirm_record, boot_confirm_current_slot,
}
use stm32_security_lab.Confirmation
use stm32_security_lab.Confirmation.Lasting.{Lasts, confirm-Lasts}
use stm32_security_lab.Confirmation.Platform.{
  Status, Health, platform_confirmation_health_gate, metadata_allows_confirmation,
  map_confirm_status, closed_gate_status, service_on_record, service_on_flash,
  platform_confirmation_service,
}
use stm32_security_lab.Confirmation.Gate.{Served, service-Served, service-unhealthy}
use stm32_security_lab.Tests.{trial_b, holding, device}

abbrev confirmation : Confirmation.Status × Confirmed × (ℕ → ℕ)
confirmation = boot_confirm_current_slot device (holding trial_b) 1

confirmation_ok : confirmation.0 ≡ Confirmation.Status.ok
unfolding checked_range_end range_in_bounds some_region_holds range_is_write_allowed is_power_of_two
    regions_in_flash boot_flash_sector_by_id chunk_size boot_flash_init boot_flash_read
    boot_flash_erase_sector check_chunk verify_loop program_and_verify boot_flash_program_aligned
    write is_blank erase nor_erase nor_program nor bytes_at boot_flash_target_init_metadata
    state_of_u32 slot_value_is_valid candidate_is_canonical state_is_canonical
    state_record_is_canonical transition_state_allowed fields_allowed transition_fields_allowed
    boot_metadata_validate_transition next_record boot_metadata_prepare_next boot_metadata_empty
    encode_without_crc seal boot_metadata_encode all_zero fixed_words_are_valid
    commit_marker_is_present crc_is_valid fields_at decode_fields boot_metadata_decode
    records_are_equal choose boot_metadata_recover commit_target boot_metadata_recover_from_flash
    write_encoded write_copy commit_from boot_metadata_commit
    boot_metadata_reinitialize_for_recovery copy_bytes journal boot_slot_lookup boot_slot_default
    crc32_update init_confirm_result boot_confirm_slot_from_vector_address is_confirmed_as
    is_trial_of confirm_trial_record confirm_record boot_confirm_current_slot
confirmation_ok = refl

confirm-Lasts_example :
    Lasts device content nor-Backed 1 confirmation.1
      (journal (content (holding trial_b))).1
      (journal (content confirmation.2)).0
      (journal (content confirmation.2)).1
confirm-Lasts_example =
    confirm-Lasts device content nor-Backed (holding trial_b) confirmation.2 1 confirmation.1
      (λ i. (confirmation_ok i, confirmation.1, confirmation.2))

abbrev healthy : Health
healthy = record {
  early_platform_init_done = true;
  running_slot_identified = false;
  core_self_checks_passed = true;
  critical_initialization_failure = false;
  stable_execution_point_reached = true;
  metadata_allows_confirmation = false;
  uart_diagnostics_ready = true;
  runtime_monitor_ready = true;
  mpu_policy_ready = true;
  watchdog_active = true;
  application_health_ok = true;
}

abbrev no_watchdog : Health
no_watchdog = record healthy { watchdog_active = false }

abbrev served : Status × (ℕ → ℕ)
served = platform_confirmation_service true nor (holding trial_b) 0x08080200 healthy

served_ok : served.0 ≡ Status.ok
unfolding checked_range_end range_in_bounds some_region_holds range_is_write_allowed is_power_of_two
    regions_in_flash boot_flash_sector_by_id chunk_size boot_flash_init boot_flash_read
    boot_flash_erase_sector check_chunk verify_loop program_and_verify boot_flash_program_aligned
    write is_blank erase nor_erase nor_program nor bytes_at boot_flash_target_init_metadata
    state_of_u32 slot_value_is_valid candidate_is_canonical state_is_canonical
    state_record_is_canonical transition_state_allowed fields_allowed transition_fields_allowed
    boot_metadata_validate_transition next_record boot_metadata_prepare_next boot_metadata_empty
    encode_without_crc seal boot_metadata_encode all_zero fixed_words_are_valid
    commit_marker_is_present crc_is_valid fields_at decode_fields boot_metadata_decode
    records_are_equal choose boot_metadata_recover commit_target boot_metadata_recover_from_flash
    write_encoded write_copy commit_from boot_metadata_commit
    boot_metadata_reinitialize_for_recovery copy_bytes journal boot_slot_lookup boot_slot_default
    crc32_update init_confirm_result boot_confirm_slot_from_vector_address is_confirmed_as
    is_trial_of confirm_trial_record confirm_record boot_confirm_current_slot
    platform_confirmation_health_gate metadata_allows_confirmation map_confirm_status
    closed_gate_status service_on_record service_on_flash platform_confirmation_service
served_ok = refl

service-Served_example :
    Served device content nor-Backed
      (boot_confirm_slot_from_vector_address 0x08080200).1
      healthy
      served.1
service-Served_example =
    service-Served nor content nor-Backed (holding trial_b) served.1 0x08080200 healthy
      (λ i. (served_ok i, served.1))

service-unhealthy_example :
    content (platform_confirmation_service true nor (holding trial_b) 0x08080200 no_watchdog).1
    ≡ content (holding trial_b)
service-unhealthy_example =
    service-unhealthy nor content nor-Backed true (holding trial_b) 0x08080200 no_watchdog refl

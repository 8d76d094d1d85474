-- ===== src/Tests/Updates.antt =====
-- An update of slot B, over slot A that runs version 5.
use stm32_security_lab.Flash.{
  checked_range_end, range_in_bounds, some_region_holds, range_is_write_allowed, is_power_of_two,
  regions_in_flash, boot_flash_sector_by_id, chunk_size, boot_flash_init, boot_flash_read,
  boot_flash_erase_sector, check_chunk, verify_loop, program_and_verify, boot_flash_program_aligned,
  Flash,
}
use stm32_security_lab.Flash.Nor.{
  write, is_blank, erase, nor_erase, nor_program, nor, nor-Backed, content,
}
use stm32_security_lab.Flash.Device.{bytes_at}
use stm32_security_lab.Metadata.{
  state_of_u32, slot_value_is_valid, candidate_is_canonical, state_is_canonical,
  state_record_is_canonical, transition_state_allowed, fields_allowed, transition_fields_allowed,
  boot_metadata_validate_transition, next_record, boot_metadata_prepare_next, boot_metadata_empty,
}
use stm32_security_lab.Metadata.Codec.{
  encode_without_crc, seal, boot_metadata_encode, all_zero, fixed_words_are_valid,
  commit_marker_is_present, crc_is_valid, fields_at, decode_fields, boot_metadata_decode,
  records_are_equal, choose, boot_metadata_recover,
}
use stm32_security_lab.Metadata.Journal.{
  commit_target, boot_metadata_recover_from_flash, write_encoded, write_copy, commit_from,
  boot_metadata_commit, boot_metadata_reinitialize_for_recovery,
}
use stm32_security_lab.Metadata.Recovery.{copy_bytes, journal}
use stm32_security_lab.Slot.{
  boot_slot_lookup, boot_slot_default, slot_a_descriptor, slot_b_descriptor,
}
use stm32_security_lab.Image.Manifest.{
  u32_equal_redundant, decode_manifest_bytes, checked_u32_add, validate_reserved,
  validate_manifest_header, validate_payload_range, validate_payload_range_independent,
  validate_application_msp, validate_application_reset,
}
use stm32_security_lab.Image.Verify.{
  read_application_vector, validate_vector_table, validate_image, slot_is_consistent,
  verify_buffer_with_policy, signed_image_verify_buffer, signed_image_verify_update_slot_buffer,
}
use stm32_security_lab.Common.Crc.{crc32_update}
use stm32_security_lab.Package.{
  checked_size_add, largest_slot_payload_size, all_erased, padding_is_canonical, check_manifest,
  finish_header, parse_header_common, update_package_parse, update_package_verify_header_for_slot,
  update_package_verify_for_slot, header_of,
}
use stm32_security_lab.Installer.{
  checked_round_up, options_are_valid, maybe_fault, check_start_state, select_inactive_slot,
  select_recovery_slot, metadata_matches_start, package_end_fits, candidate_package_fits,
  confirmed_version_for_update, init_restricted_flash, commit_metadata_state, InstallStatus,
  InstallOptions, SessionState, InstallResult, restricted_regions,
}
use stm32_security_lab.Installer.Session.{
  ◌|>◌, refuse_when, update, on_device, fail_session, Session, cleared,
}
use stm32_security_lab.Installer.Blocks.{
  padded_chunk, erase_one, count_erased, erase_sectors, erase_candidate_slot, program_at, read_back,
  count_block, program_aligned_block, program_chunks, program_source_range, payload_block_done,
  flush_bytes, flush_payload_program_buffer,
}
use stm32_security_lab.Installer.Verify.{
  manifest_matches_header, installed_header_matches_expected, hash_chunks, installed_status,
  hash_payload, hash_installed_payload, verify_streaming_payload_hash, verify_image,
  verify_installed_package,
}
use stm32_security_lab.Installer.Run.{
  may_bootstrap, bootstrap_start, normal_start, start_of, is_writing_for, initialized_session,
  update_installer_session_init, check_unchanged, check_header, check_version, check_size,
  reinitialize_writing, commit_writing, confirm_writing, program_header, begin_steps,
  update_installer_begin, accept_bytes, flush_full, write_chunks, write_steps,
  update_installer_write, commit_ready, finish_steps, update_installer_finish, reject_writing,
  undo_writing, abort_steps, update_installer_abort, install_chunks, or_abort, install_verified,
  install_steps, update_installer_install,
}
use stm32_security_lab.Common.{
  ℕ, ◌≡◌, ◌<◌, refl, true, false, some, none, List, [], ◌∷◌, length, arith,
}
use stm32_security_lab.Installer.Calls.{Call, run_calls}
use stm32_security_lab.Installer.Start.{active_slot_kept}
use stm32_security_lab.Common.{take, drop, load_le32, ◌⊎◌}
use stm32_security_lab.Layout.{
  signed_manifest_size, signed_signature_size, signed_image_header_size,
}
use stm32_security_lab.Package.Sound.{IsForSlot}
use stm32_security_lab.Metadata.{MetadataStatus}
use stm32_security_lab.Flash.Device.{IsMapped}
use stm32_security_lab.Installer.Floor.{IsAboveFloor}
use stm32_security_lab.Installer.Accepted.{begin_no_rollback}
use stm32_security_lab.Installer.Refine.{HasReceived, write_appends}
use stm32_security_lab.Installer.Stable.{core}
use stm32_security_lab.Installer.Ready.Commit.{IsReadyFor}
use stm32_security_lab.Installer.Ready.Installed.{IsInstalled}
use stm32_security_lab.Installer.Ready.{finish_ready}
use stm32_security_lab.Tests.Boot.{accepting, memory, payload_at}
use stm32_security_lab.Tests.Packages.{package_header, update_bytes}
use stm32_security_lab.Tests.{device, holding, confirmed_a, writing_b}

abbrev pub options : InstallOptions
options = record {
  program_buffer_size = 256;
  readback_buffer_size = 256;
  fault_hook = none;
  recovery_bootstrap = false;
}

abbrev started : InstallStatus × Session (ℕ → ℕ) × (ℕ → ℕ)
started = update_installer_session_init device [] options (holding confirmed_a)

started_ok : started.0 ≡ InstallStatus.ok
unfolding checked_range_end range_in_bounds some_region_holds range_is_write_allowed is_power_of_two
    regions_in_flash boot_flash_sector_by_id chunk_size boot_flash_init boot_flash_read
    boot_flash_erase_sector check_chunk verify_loop program_and_verify boot_flash_program_aligned
    write is_blank erase nor_erase nor_program nor bytes_at state_of_u32 slot_value_is_valid
    candidate_is_canonical state_is_canonical state_record_is_canonical transition_state_allowed
    fields_allowed transition_fields_allowed boot_metadata_validate_transition next_record
    boot_metadata_prepare_next boot_metadata_empty encode_without_crc seal boot_metadata_encode
    all_zero fixed_words_are_valid commit_marker_is_present crc_is_valid fields_at decode_fields
    boot_metadata_decode records_are_equal choose boot_metadata_recover commit_target
    boot_metadata_recover_from_flash write_encoded write_copy commit_from boot_metadata_commit
    boot_metadata_reinitialize_for_recovery copy_bytes journal boot_slot_lookup boot_slot_default
    u32_equal_redundant decode_manifest_bytes checked_u32_add validate_reserved
    validate_manifest_header validate_payload_range validate_payload_range_independent
    validate_application_msp validate_application_reset read_application_vector
    validate_vector_table validate_image slot_is_consistent verify_buffer_with_policy
    signed_image_verify_buffer signed_image_verify_update_slot_buffer crc32_update checked_size_add
    largest_slot_payload_size all_erased padding_is_canonical check_manifest finish_header
    parse_header_common update_package_parse update_package_verify_header_for_slot
    update_package_verify_for_slot checked_round_up options_are_valid maybe_fault check_start_state
    select_inactive_slot select_recovery_slot metadata_matches_start package_end_fits
    candidate_package_fits confirmed_version_for_update init_restricted_flash commit_metadata_state
    ◌|>◌ refuse_when update on_device fail_session padded_chunk erase_one count_erased erase_sectors
    erase_candidate_slot program_at read_back count_block program_aligned_block program_chunks
    program_source_range payload_block_done flush_bytes flush_payload_program_buffer
    manifest_matches_header installed_header_matches_expected hash_chunks installed_status
    hash_payload hash_installed_payload verify_streaming_payload_hash verify_image
    verify_installed_package may_bootstrap bootstrap_start normal_start start_of is_writing_for
    initialized_session update_installer_session_init check_unchanged check_header check_version
    check_size reinitialize_writing commit_writing confirm_writing program_header begin_steps
    update_installer_begin accept_bytes flush_full write_chunks write_steps update_installer_write
    commit_ready finish_steps update_installer_finish reject_writing undo_writing abort_steps
    update_installer_abort install_chunks or_abort install_verified install_steps
    update_installer_install stm32_security_lab.Installer.checked_u32_add
started_ok = refl

started_active : started.1.active ≡ some slot_a_descriptor
unfolding checked_range_end range_in_bounds some_region_holds range_is_write_allowed is_power_of_two
    regions_in_flash boot_flash_sector_by_id chunk_size boot_flash_init boot_flash_read
    boot_flash_erase_sector check_chunk verify_loop program_and_verify boot_flash_program_aligned
    write is_blank erase nor_erase nor_program nor bytes_at state_of_u32 slot_value_is_valid
    candidate_is_canonical state_is_canonical state_record_is_canonical transition_state_allowed
    fields_allowed transition_fields_allowed boot_metadata_validate_transition next_record
    boot_metadata_prepare_next boot_metadata_empty encode_without_crc seal boot_metadata_encode
    all_zero fixed_words_are_valid commit_marker_is_present crc_is_valid fields_at decode_fields
    boot_metadata_decode records_are_equal choose boot_metadata_recover commit_target
    boot_metadata_recover_from_flash write_encoded write_copy commit_from boot_metadata_commit
    boot_metadata_reinitialize_for_recovery copy_bytes journal boot_slot_lookup boot_slot_default
    u32_equal_redundant decode_manifest_bytes checked_u32_add validate_reserved
    validate_manifest_header validate_payload_range validate_payload_range_independent
    validate_application_msp validate_application_reset read_application_vector
    validate_vector_table validate_image slot_is_consistent verify_buffer_with_policy
    signed_image_verify_buffer signed_image_verify_update_slot_buffer crc32_update checked_size_add
    largest_slot_payload_size all_erased padding_is_canonical check_manifest finish_header
    parse_header_common update_package_parse update_package_verify_header_for_slot
    update_package_verify_for_slot checked_round_up options_are_valid maybe_fault check_start_state
    select_inactive_slot select_recovery_slot metadata_matches_start package_end_fits
    candidate_package_fits confirmed_version_for_update init_restricted_flash commit_metadata_state
    ◌|>◌ refuse_when update on_device fail_session padded_chunk erase_one count_erased erase_sectors
    erase_candidate_slot program_at read_back count_block program_aligned_block program_chunks
    program_source_range payload_block_done flush_bytes flush_payload_program_buffer
    manifest_matches_header installed_header_matches_expected hash_chunks installed_status
    hash_payload hash_installed_payload verify_streaming_payload_hash verify_image
    verify_installed_package may_bootstrap bootstrap_start normal_start start_of is_writing_for
    initialized_session update_installer_session_init check_unchanged check_header check_version
    check_size reinitialize_writing commit_writing confirm_writing program_header begin_steps
    update_installer_begin accept_bytes flush_full write_chunks write_steps update_installer_write
    commit_ready finish_steps update_installer_finish reject_writing undo_writing abort_steps
    update_installer_abort install_chunks or_abort install_verified install_steps
    update_installer_install stm32_security_lab.Installer.checked_u32_add
started_active = refl

active_slot_kept_example :
    content
      (run_calls accepting memory
        (Call.begin package_header 512 ∷ Call.write 0 (1 ∷ 2 ∷ []) ∷ Call.abort ∷ [])
        (started.1, started.2)).1
      0x08020204
    ≡ content (holding confirmed_a) 0x08020204
active_slot_kept_example =
    active_slot_kept accepting memory device content nor-Backed [] options (holding confirmed_a)
      started.2 started.1 slot_a_descriptor
      (Call.begin package_header 512 ∷ Call.write 0 (1 ∷ 2 ∷ []) ∷ Call.abort ∷ []) 0x08020204
      (λ i. (started_ok i, started.1, started.2)) started_active (omega arith) (omega arith)

-- The flash that the session writes through.
abbrev restricted : Flash (ℕ → ℕ)
restricted = record device { write_regions = restricted_regions slot_b_descriptor }

-- A session in the middle of an update, of this state.
abbrev in_update : SessionState → List ℕ → ℕ → Session (ℕ → ℕ)
in_update state received size = record (cleared device [] options) {
  state = state;
  restricted_flash = restricted;
  options = options;
  writing_metadata = writing_b;
  metadata_before = confirmed_a;
  active = some slot_a_descriptor;
  candidate = slot_b_descriptor;
  active_slot_id = 0;
  header = header_of update_bytes 520;
  payload_hash_ctx = received;
  program_buffer = received;
  payload_received = length received;
  payload_program_size = size;
  metadata_writing_committed = true;
}

abbrev begun : InstallStatus × Session (ℕ → ℕ) × (ℕ → ℕ)
begun =
    update_installer_begin accepting memory package_header 512
      (in_update SessionState.initialized [] 0, holding confirmed_a)

begun_ok : begun.0 ≡ InstallStatus.ok
unfolding checked_range_end range_in_bounds some_region_holds range_is_write_allowed is_power_of_two
    regions_in_flash boot_flash_sector_by_id chunk_size boot_flash_init boot_flash_read
    boot_flash_erase_sector check_chunk verify_loop program_and_verify boot_flash_program_aligned
    write is_blank erase nor_erase nor_program nor bytes_at state_of_u32 slot_value_is_valid
    candidate_is_canonical state_is_canonical state_record_is_canonical transition_state_allowed
    fields_allowed transition_fields_allowed boot_metadata_validate_transition next_record
    boot_metadata_prepare_next boot_metadata_empty encode_without_crc seal boot_metadata_encode
    all_zero fixed_words_are_valid commit_marker_is_present crc_is_valid fields_at decode_fields
    boot_metadata_decode records_are_equal choose boot_metadata_recover commit_target
    boot_metadata_recover_from_flash write_encoded write_copy commit_from boot_metadata_commit
    boot_metadata_reinitialize_for_recovery copy_bytes journal boot_slot_lookup boot_slot_default
    u32_equal_redundant decode_manifest_bytes checked_u32_add validate_reserved
    validate_manifest_header validate_payload_range validate_payload_range_independent
    validate_application_msp validate_application_reset read_application_vector
    validate_vector_table validate_image slot_is_consistent verify_buffer_with_policy
    signed_image_verify_buffer signed_image_verify_update_slot_buffer crc32_update checked_size_add
    largest_slot_payload_size all_erased padding_is_canonical check_manifest finish_header
    parse_header_common update_package_parse update_package_verify_header_for_slot
    update_package_verify_for_slot checked_round_up options_are_valid maybe_fault check_start_state
    select_inactive_slot select_recovery_slot metadata_matches_start package_end_fits
    candidate_package_fits confirmed_version_for_update init_restricted_flash commit_metadata_state
    ◌|>◌ refuse_when update on_device fail_session padded_chunk erase_one count_erased erase_sectors
    erase_candidate_slot program_at read_back count_block program_aligned_block program_chunks
    program_source_range payload_block_done flush_bytes flush_payload_program_buffer
    manifest_matches_header installed_header_matches_expected hash_chunks installed_status
    hash_payload hash_installed_payload verify_streaming_payload_hash verify_image
    verify_installed_package may_bootstrap bootstrap_start normal_start start_of is_writing_for
    initialized_session update_installer_session_init check_unchanged check_header check_version
    check_size reinitialize_writing commit_writing confirm_writing program_header begin_steps
    update_installer_begin accept_bytes flush_full write_chunks write_steps update_installer_write
    commit_ready finish_steps update_installer_finish reject_writing undo_writing abort_steps
    update_installer_abort install_chunks or_abort install_verified install_steps
    update_installer_install stm32_security_lab.Installer.checked_u32_add
begun_ok = refl

begin_no_rollback_example :
    (512 ≡ signed_image_header_size)
    × IsForSlot package_header slot_b_descriptor
    × (accepting.ed25519_check
          (take signed_signature_size (drop signed_manifest_size package_header))
          []
          (take signed_manifest_size (take signed_manifest_size package_header))
        ≡ true)
    × ((((journal (content (holding confirmed_a))).0 ≡ MetadataStatus.ok)
          × ((journal (content (holding confirmed_a))).1 ≡ confirmed_a))
        ⊎ (confirmed_a ≡ boot_metadata_empty))
    × (at : ℕ → ℕ) × (content at ≡ content (holding confirmed_a))
    × IsAboveFloor accepting memory at [] confirmed_a
        (some slot_a_descriptor)
        (load_le32 package_header 8)
begin_no_rollback_example =
    begin_no_rollback accepting memory content package_header 512
      (in_update SessionState.initialized [] 0) begun.1 (holding confirmed_a) begun.2 nor-Backed
      (λ i. (begun_ok i, begun.1, begun.2))

-- Two bytes are received, three more come.
abbrev two : List ℕ
two = 1 ∷ 2 ∷ []

abbrev appended : InstallStatus × Session (ℕ → ℕ) × (ℕ → ℕ)
appended =
    update_installer_write 2 (3 ∷ 4 ∷ 5 ∷ [])
      (in_update SessionState.writing (1 ∷ 2 ∷ []) 8, holding writing_b)

appended_ok : appended.0 ≡ InstallStatus.ok
unfolding checked_range_end range_in_bounds some_region_holds range_is_write_allowed is_power_of_two
    regions_in_flash boot_flash_sector_by_id chunk_size boot_flash_init boot_flash_read
    boot_flash_erase_sector check_chunk verify_loop program_and_verify boot_flash_program_aligned
    write is_blank erase nor_erase nor_program nor bytes_at state_of_u32 slot_value_is_valid
    candidate_is_canonical state_is_canonical state_record_is_canonical transition_state_allowed
    fields_allowed transition_fields_allowed boot_metadata_validate_transition next_record
    boot_metadata_prepare_next boot_metadata_empty encode_without_crc seal boot_metadata_encode
    all_zero fixed_words_are_valid commit_marker_is_present crc_is_valid fields_at decode_fields
    boot_metadata_decode records_are_equal choose boot_metadata_recover commit_target
    boot_metadata_recover_from_flash write_encoded write_copy commit_from boot_metadata_commit
    boot_metadata_reinitialize_for_recovery copy_bytes journal boot_slot_lookup boot_slot_default
    u32_equal_redundant decode_manifest_bytes checked_u32_add validate_reserved
    validate_manifest_header validate_payload_range validate_payload_range_independent
    validate_application_msp validate_application_reset read_application_vector
    validate_vector_table validate_image slot_is_consistent verify_buffer_with_policy
    signed_image_verify_buffer signed_image_verify_update_slot_buffer crc32_update checked_size_add
    largest_slot_payload_size all_erased padding_is_canonical check_manifest finish_header
    parse_header_common update_package_parse update_package_verify_header_for_slot
    update_package_verify_for_slot checked_round_up options_are_valid maybe_fault check_start_state
    select_inactive_slot select_recovery_slot metadata_matches_start package_end_fits
    candidate_package_fits confirmed_version_for_update init_restricted_flash commit_metadata_state
    ◌|>◌ refuse_when update on_device fail_session padded_chunk erase_one count_erased erase_sectors
    erase_candidate_slot program_at read_back count_block program_aligned_block program_chunks
    program_source_range payload_block_done flush_bytes flush_payload_program_buffer
    manifest_matches_header installed_header_matches_expected hash_chunks installed_status
    hash_payload hash_installed_payload verify_streaming_payload_hash verify_image
    verify_installed_package may_bootstrap bootstrap_start normal_start start_of is_writing_for
    initialized_session update_installer_session_init check_unchanged check_header check_version
    check_size reinitialize_writing commit_writing confirm_writing program_header begin_steps
    update_installer_begin accept_bytes flush_full write_chunks write_steps update_installer_write
    commit_ready finish_steps update_installer_finish reject_writing undo_writing abort_steps
    update_installer_abort install_chunks or_abort install_verified install_steps
    update_installer_install stm32_security_lab.Installer.checked_u32_add
appended_ok = refl

received_two :
    HasReceived content
      (in_update SessionState.writing (1 ∷ 2 ∷ []) 8)
      (holding writing_b)
      (1 ∷ 2 ∷ [])
unfolding bytes_at
received_two = record {
  backed = nor-Backed;
  base_lt = omega arith;
  size_lt = omega arith;
  hashed = refl;
  counted = refl;
  stored = refl;
}

write_appends_example :
    (2 ≡ length two) × HasReceived content appended.1 appended.2 (1 ∷ 2 ∷ 3 ∷ 4 ∷ 5 ∷ [])
write_appends_example =
    write_appends content (in_update SessionState.writing (1 ∷ 2 ∷ []) 8) appended.1
      (holding writing_b) appended.2 (1 ∷ 2 ∷ []) (3 ∷ 4 ∷ 5 ∷ []) 2 received_two
      (λ i. (appended_ok i, appended.1, appended.2))

-- What the memory-mapped flash shows.
abbrev shown : (ℕ → ℕ) → ℕ → List ℕ
shown d address = bytes_at d address 512

abbrev completed : Session (ℕ → ℕ)
completed = in_update SessionState.payload_complete (payload_at slot_b_descriptor.payload_base) 8

abbrev header_written : ℕ → ℕ
header_written = write (holding writing_b) slot_b_descriptor.signed_image_base package_header

abbrev finished : InstallStatus × Session (ℕ → ℕ) × (ℕ → ℕ)
finished = update_installer_finish accepting shown (completed, header_written)

finished_ok : finished.0 ≡ InstallStatus.ok
unfolding checked_range_end range_in_bounds some_region_holds range_is_write_allowed is_power_of_two
    regions_in_flash boot_flash_sector_by_id chunk_size boot_flash_init boot_flash_read
    boot_flash_erase_sector check_chunk verify_loop program_and_verify boot_flash_program_aligned
    write is_blank erase nor_erase nor_program nor bytes_at state_of_u32 slot_value_is_valid
    candidate_is_canonical state_is_canonical state_record_is_canonical transition_state_allowed
    fields_allowed transition_fields_allowed boot_metadata_validate_transition next_record
    boot_metadata_prepare_next boot_metadata_empty encode_without_crc seal boot_metadata_encode
    all_zero fixed_words_are_valid commit_marker_is_present crc_is_valid fields_at decode_fields
    boot_metadata_decode records_are_equal choose boot_metadata_recover commit_target
    boot_metadata_recover_from_flash write_encoded write_copy commit_from boot_metadata_commit
    boot_metadata_reinitialize_for_recovery copy_bytes journal boot_slot_lookup boot_slot_default
    u32_equal_redundant decode_manifest_bytes checked_u32_add validate_reserved
    validate_manifest_header validate_payload_range validate_payload_range_independent
    validate_application_msp validate_application_reset read_application_vector
    validate_vector_table validate_image slot_is_consistent verify_buffer_with_policy
    signed_image_verify_buffer signed_image_verify_update_slot_buffer crc32_update checked_size_add
    largest_slot_payload_size all_erased padding_is_canonical check_manifest finish_header
    parse_header_common update_package_parse update_package_verify_header_for_slot
    update_package_verify_for_slot checked_round_up options_are_valid maybe_fault check_start_state
    select_inactive_slot select_recovery_slot metadata_matches_start package_end_fits
    candidate_package_fits confirmed_version_for_update init_restricted_flash commit_metadata_state
    ◌|>◌ refuse_when update on_device fail_session padded_chunk erase_one count_erased erase_sectors
    erase_candidate_slot program_at read_back count_block program_aligned_block program_chunks
    program_source_range payload_block_done flush_bytes flush_payload_program_buffer
    manifest_matches_header installed_header_matches_expected hash_chunks installed_status
    hash_payload hash_installed_payload verify_streaming_payload_hash verify_image
    verify_installed_package may_bootstrap bootstrap_start normal_start start_of is_writing_for
    initialized_session update_installer_session_init check_unchanged check_header check_version
    check_size reinitialize_writing commit_writing confirm_writing program_header begin_steps
    update_installer_begin accept_bytes flush_full write_chunks write_steps update_installer_write
    commit_ready finish_steps update_installer_finish reject_writing undo_writing abort_steps
    update_installer_abort install_chunks or_abort install_verified install_steps
    update_installer_install stm32_security_lab.Installer.checked_u32_add
finished_ok = refl

version_word : completed.header.manifest.image_version < 4294967296
unfolding decode_manifest_bytes
version_word = omega arith

shown-IsMapped : IsMapped shown content
shown-IsMapped = record { extent = λ _. 512; shows = λ d a. refl }

candidate_found : boot_slot_lookup completed.candidate.id ≡ some completed.candidate
unfolding boot_slot_lookup
candidate_found = refl

finish_ready_example :
    IsInstalled accepting shown finished.2 slot_b_descriptor completed.header []
    × IsReadyFor content (core completed) finished.2
finish_ready_example =
    finish_ready accepting shown content completed finished.1 header_written finished.2
      shown-IsMapped nor-Backed candidate_found (omega arith) version_word
      (λ i. (finished_ok i, finished.1, finished.2))

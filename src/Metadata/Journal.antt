-- ===== src/Metadata/Journal.antt =====
-- boot_metadata.c: the journal in flash. Two sectors hold a copy each; a commit writes the one that
-- recovery did not select.
use stm32_security_lab.Common.{
  ℕ, ◌+◌, false, ◌&&◌, not, List, take, drop, ◌==◌, if◌then◌else◌, done, fail,
}
use stm32_security_lab.Layout.{
  metadata_record_size, metadata_a_base, metadata_b_base, metadata_a_first_sector,
  metadata_b_first_sector,
}
use stm32_security_lab.Flash.{
  FlashStatus, Flash, boot_flash_read, boot_flash_erase_sector, boot_flash_program_aligned,
}
use stm32_security_lab.Metadata.{
  Record, State, MetadataStatus, slot_a, slot_none, boot_metadata_empty,
  boot_metadata_validate_transition, state_code,
}
use stm32_security_lab.Metadata.Codec.{
  Copy, Recovery, recovery_of, boot_metadata_encode, boot_metadata_recover, commit_offset,
  commit_size,
}

abbrev pub copy_base : Copy → ℕ
copy_base Copy.copy_b = metadata_b_base
copy_base _ = metadata_a_base

abbrev pub copy_sector : Copy → ℕ
copy_sector Copy.copy_b = metadata_b_first_sector
copy_sector _ = metadata_a_first_sector

-- Which copy `boot_metadata_commit` overwrites.
unfoldable pub commit_target : Recovery → Copy
commit_target r =
    if not r.copy_a_valid && not r.copy_b_valid
    then Copy.copy_a
    else if not r.copy_a_valid
    then Copy.copy_a
    else if not r.copy_b_valid
    then Copy.copy_b
    else elim r.selected_copy [ Copy.copy_a ↦ Copy.copy_b | _ ↦ Copy.copy_a ]

module _ {D : Type 0} where
  -- On a flash error the outputs are not written, and no caller reads them: they stand as empty here.
  unfoldable pub boot_metadata_recover_from_flash :
      Flash D → D → MetadataStatus × Record × Recovery × D
  boot_metadata_recover_from_flash flash d =
      let (status_a, bytes_a, d1) = boot_flash_read flash d metadata_a_base metadata_record_size in
      let (status_b, bytes_b, d2) = boot_flash_read flash d1 metadata_b_base metadata_record_size in
      let (status, selected, recovery) = boot_metadata_recover bytes_a bytes_b in
      let none_read = recovery_of false false Copy.no_copy in
      elim status_a [
        | FlashStatus.ok ↦ elim status_b [
          | FlashStatus.ok ↦ (status, selected, recovery, d2)
          | _ ↦ (MetadataStatus.flash, boot_metadata_empty, none_read, d2)
        ]
        | _ ↦ (MetadataStatus.flash, boot_metadata_empty, none_read, d1)
      ]

  -- The three writes of `write_copy`: the erase, the record, and the commit marker last.
  unfoldable pub write_encoded : Flash D → D → ℕ → ℕ → List ℕ → MetadataStatus × D
  write_encoded flash d base sector encoded =
      let (erased, d1) = boot_flash_erase_sector flash d sector in
      let (body, d2) = boot_flash_program_aligned flash d1 base (take commit_offset encoded) in
      let (marker, d3) =
        boot_flash_program_aligned flash d2 (base + commit_offset)
          (take commit_size (drop commit_offset encoded)) in
      elim erased [
        | FlashStatus.ok ↦ elim body [
          | FlashStatus.ok ↦ elim marker [
            | FlashStatus.ok ↦ (MetadataStatus.ok, d3)
            | _ ↦ (MetadataStatus.flash, d3)
          ]
          | _ ↦ (MetadataStatus.flash, d2)
        ]
        | _ ↦ (MetadataStatus.flash, d1)
      ]

  unfoldable pub write_copy : Flash D → D → Copy → Record → MetadataStatus × D
  unfolding write_encoded
  write_copy flash d Copy.no_copy r = (MetadataStatus.invalid_argument, d)
  write_copy flash d copy r = elim (boot_metadata_encode r) [
    | fail _ ↦ (MetadataStatus.bad_format, d)
    | done encoded ↦ write_encoded flash d (copy_base copy) (copy_sector copy) encoded
  ]

  -- `boot_metadata_commit` behind its recovery: `current` is what it validates `next` against.
  unfoldable pub commit_from : Flash D → D → Record → Recovery → Record → MetadataStatus × D
  unfolding commit_target
  commit_from flash d current recovery next =
      elim (boot_metadata_validate_transition current next) [
        | MetadataStatus.ok ↦ write_copy flash d (commit_target recovery) next
        | refused ↦ (refused, d)
      ]

  unfoldable pub boot_metadata_commit : Flash D → D → Record → MetadataStatus × D
  unfolding commit_from
  boot_metadata_commit flash d next =
      let (status, current, recovery, d') = boot_metadata_recover_from_flash flash d in
      elim status [
        | MetadataStatus.ok ↦ commit_from flash d' current recovery next
        | MetadataStatus.no_valid_copy ↦ commit_from flash d' boot_metadata_empty recovery next
        | failed ↦ (failed, d')
      ]

  -- The two erases are joined by `||`, so the second is made only after the first succeeds.
  unfoldable pub boot_metadata_reinitialize_for_recovery : Flash D → D → Record → MetadataStatus × D
  boot_metadata_reinitialize_for_recovery flash d next =
      let (erased_a, d1) = boot_flash_erase_sector flash d metadata_a_first_sector in
      let (erased_b, d2) = boot_flash_erase_sector flash d1 metadata_b_first_sector in
      let rebuilt : MetadataStatus × D = elim erased_a [
        | FlashStatus.ok ↦ elim erased_b [
          | FlashStatus.ok ↦ write_copy flash d2 Copy.copy_a next
          | _ ↦ (MetadataStatus.flash, d2)
        ]
        | _ ↦ (MetadataStatus.flash, d1)
      ] in
      if not (
        next.sequence == 1
        && state_code next.state == state_code State.writing
        && next.active_slot == slot_none
        && next.candidate_slot == slot_a)
      then (MetadataStatus.bad_transition, d)
      else elim (boot_metadata_validate_transition boot_metadata_empty next) [
        | MetadataStatus.ok ↦ rebuilt
        | _ ↦ (MetadataStatus.bad_transition, d)
      ]

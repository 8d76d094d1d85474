-- ===== src/Installer.antt =====
-- firmware/exp045_bootloader_v2/src/update_installer.c: the installation of an update package into the
-- inactive slot. This file has the types of update_installer.h, the choice of the slot and the checks
-- of sizes and versions; the child modules have the steps of a session.
-- The watchdog refreshes are left out, and the fault hook, which may be absent, answers from its point
-- and detail. `memory` is what the memory-mapped flash holds from an address on.
pub mod Session
pub mod Blocks
pub mod Verify
pub mod Run
pub mod Confined
pub mod Safe
pub mod Calls
pub mod Start
pub mod Steps
pub mod Accepted
pub mod Floor
pub mod Refine
pub mod Stable
pub mod Ready
use stm32_security_lab.Common.{
  ℕ, ◌+◌, ◌-◌, Bool, true, false, not, ◌&&◌, ◌||◌, Option, none, some, List, [], ◌∷◌, ltb, ◌==◌,
  if◌then◌else◌, bit_and, u32, Result, done, fail, refuse_if, ◌>>=◌, ◌>>◌,
}
use stm32_security_lab.Layout.{metadata_a_base, metadata_b_base, metadata_b_end}
use stm32_security_lab.Flash.{FlashStatus, Flash, Region, boot_flash_init}
use stm32_security_lab.Slot.{SlotDescriptor, boot_slot_lookup}
use stm32_security_lab.Image.Manifest.{
  VerifyStatus, min_image_version, u32_max, decode_manifest_bytes,
}
use stm32_security_lab.Image.Verify.{Crypto, signed_image_verify_update_slot_buffer}
use stm32_security_lab.Package.{Header, checked_size_add}
use stm32_security_lab.Metadata.{
  State, Record, MetadataStatus, slot_a, slot_b, slot_none, state_code, boot_metadata_prepare_next,
}
use stm32_security_lab.Metadata.Codec.{Recovery}
use stm32_security_lab.Metadata.Journal.{boot_metadata_commit}

pub data InstallStatus : Type 0 where
  ok err_invalid_argument err_package err_metadata err_active_state err_slot : InstallStatus
  err_rollback err_capacity err_erase err_program err_readback err_hash : InstallStatus
  err_installed_verify err_injected err_state err_sequence : InstallStatus

pub data FaultPoint : Type 0 where
  metadata_writing erase_sector program_block readback hash_complete : FaultPoint
  verify_installed metadata_candidate_ready hash_begin : FaultPoint

pub data SessionState : Type 0 where
  empty initialized writing payload_complete finished aborted failed : SessionState

-- The buffers themselves belong to the caller; their sizes are the options' part in the code.
pub record InstallOptions : Type 0 where
  pub program_buffer_size : ℕ
  pub readback_buffer_size : ℕ
  pub fault_hook : Option (FaultPoint → ℕ → InstallStatus)
  pub recovery_bootstrap : Bool

pub record InstallResult : Type 0 where
  pub active_slot : ℕ
  pub candidate_slot : ℕ
  pub image_version : ℕ
  pub erased_sector_count : ℕ
  pub programmed_block_count : ℕ
  pub package_verify_status : VerifyStatus
  pub installed_verify_status : VerifyStatus
  pub metadata_recovery : Recovery

unfoldable pub checked_u32_add : ℕ → ℕ → Option ℕ
checked_u32_add left right = if ltb (u32_max - left) right then none else some (u32 (left + right))

unfoldable pub checked_round_up : ℕ → ℕ → Option ℕ
checked_round_up value alignment =
    let remainder = bit_and value (alignment - 1) in
    if alignment == 0
    then none
    else if remainder == 0
    then some value
    else checked_size_add value (alignment - remainder)

unfoldable pub options_are_valid : ℕ → InstallOptions → Bool
options_are_valid program_alignment options = not (
    options.program_buffer_size == 0
    || ltb options.readback_buffer_size options.program_buffer_size
    || ltb u32_max options.program_buffer_size
    || program_alignment == 0
    || not (bit_and program_alignment (program_alignment - 1) == 0)
    || not (bit_and options.program_buffer_size (program_alignment - 1) == 0))

unfoldable pub maybe_fault : InstallOptions → FaultPoint → ℕ → InstallStatus
maybe_fault options point detail = elim options.fault_hook [
  | none ↦ InstallStatus.ok
  | some fault_hook ↦ fault_hook point detail
]

-- The states in which an update may start.
unfoldable pub check_start_state : Record → Result InstallStatus (Unit {0})
check_start_state metadata = elim metadata.state [
  | State.confirmed ↦
      refuse_if
        (not (metadata.candidate_slot == slot_none) || not (metadata.confirmation_state == 1))
        InstallStatus.err_active_state
  | State.rejected_invalid ↦
      refuse_if
        (metadata.active_slot == slot_none
          || metadata.candidate_slot == slot_none
          || not (metadata.confirmation_state == 0))
        InstallStatus.err_active_state
  | _ ↦ fail InstallStatus.err_active_state
]

abbrev pub lookup_slot : ℕ → Result InstallStatus SlotDescriptor
lookup_slot slot_id = elim (boot_slot_lookup slot_id) [
  | none ↦ fail InstallStatus.err_slot
  | some slot ↦ done slot
]

-- The slot that is not active.
abbrev pub other_slot : ℕ → ℕ
other_slot active_slot = if active_slot == slot_a then slot_b else slot_a

-- The outputs are the active slot and the candidate.
unfoldable pub select_inactive_slot :
    Record → Result InstallStatus (SlotDescriptor × SlotDescriptor)
unfolding check_start_state
select_inactive_slot metadata = do
  check_start_state metadata
  active ← lookup_slot metadata.active_slot
  candidate ← lookup_slot (other_slot metadata.active_slot)
  refuse_if
      (state_code metadata.state == state_code State.rejected_invalid
        && not (metadata.candidate_slot == other_slot metadata.active_slot))
      InstallStatus.err_active_state
  done (active, candidate)

-- There is no active slot; the output is the candidate.
unfoldable pub select_recovery_slot : Result InstallStatus SlotDescriptor
select_recovery_slot = lookup_slot slot_a

unfoldable pub metadata_matches_start : Record → Record → Bool
metadata_matches_start actual expected =
    actual.sequence == expected.sequence
    && state_code actual.state == state_code expected.state
    && actual.active_slot == expected.active_slot
    && actual.candidate_slot == expected.candidate_slot
    && actual.candidate_image_version == expected.candidate_image_version
    && actual.boot_attempt_count == expected.boot_attempt_count
    && actual.confirmation_state == expected.confirmation_state
    && actual.result == expected.result

-- The end of the package in the slot, once the sizes are rounded up.
unfoldable pub package_end_fits : SlotDescriptor → ℕ → Bool
unfolding checked_u32_add
package_end_fits candidate aligned_package_size =
    elim (checked_u32_add candidate.signed_image_base aligned_package_size) [
      | none ↦ false
      | some slot_program_end ↦
          not (ltb u32_max aligned_package_size) && not (ltb candidate.slot_end slot_program_end)
    ]

-- The output is `payload_program_size`.
unfoldable pub candidate_package_fits : ℕ → SlotDescriptor → Header → Result InstallStatus ℕ
unfolding checked_round_up package_end_fits
candidate_package_fits program_alignment candidate header =
    elim (checked_round_up header.package_size program_alignment) [
      | none ↦ fail InstallStatus.err_capacity
      | some aligned_package_size ↦ elim (checked_round_up header.payload_size program_alignment) [
        | none ↦ fail InstallStatus.err_capacity
        | some aligned_payload_size ↦
            if package_end_fits candidate aligned_package_size
            then done aligned_payload_size
            else fail InstallStatus.err_capacity
      ]
    ]

-- The version that the update has to exceed; `manifest`, `signature` and `payload` are what the active
-- slot holds.
unfoldable pub confirmed_version_for_update :
    Crypto → (ℕ → List ℕ) → List ℕ → Record → Option SlotDescriptor → Result InstallStatus ℕ
confirmed_version_for_update crypto memory public_key metadata_before active =
    if state_code metadata_before.state == state_code State.confirmed
    then done metadata_before.candidate_image_version
    else elim active [
      | none ↦ done (min_image_version - 1)
      | some slot ↦
          elim (signed_image_verify_update_slot_buffer crypto (memory slot.manifest_address)
            (memory slot.signature_address) (memory slot.payload_base) slot.maximum_payload_size
            public_key slot) [
              | fail _ ↦ fail InstallStatus.err_metadata
              | done _ ↦ done (decode_manifest_bytes (memory slot.manifest_address)).image_version
            ]
    ]

abbrev pub restricted_regions : SlotDescriptor → List Region
restricted_regions candidate =
    record { base = metadata_a_base; end = metadata_b_base }
    ∷ record { base = metadata_b_base; end = metadata_b_end }
    ∷ record { base = candidate.signed_image_base; end = candidate.slot_end }
    ∷ []

module _ {D : Type 0} where
  -- The flash that a session writes through: the journal's sectors and the candidate.
  unfoldable pub init_restricted_flash : Flash D → SlotDescriptor → Result InstallStatus (Flash D)
  init_restricted_flash flash candidate =
      elim (boot_flash_init flash.ops (restricted_regions candidate) flash.program_alignment).1 [
        | none ↦ fail InstallStatus.err_invalid_argument
        | some restricted ↦ done restricted
      ]

  unfoldable pub commit_metadata_state :
      Flash D → Record → State → ℕ → ℕ → ℕ → InstallOptions → FaultPoint → D → InstallStatus × D
  unfolding maybe_fault
  commit_metadata_state flash current state active candidate version options point d =
      elim (boot_metadata_prepare_next current state active candidate version 0 0 0) [
        | fail _ ↦ (InstallStatus.err_metadata, d)
        | done next ↦
            let (committed, d') = boot_metadata_commit flash d next in
            elim (maybe_fault options point version) [
              | InstallStatus.ok ↦ elim committed [
                | MetadataStatus.ok ↦ (InstallStatus.ok, d')
                | _ ↦ (InstallStatus.err_metadata, d')
              ]
              | fault ↦ (fault, d)
            ]
      ]

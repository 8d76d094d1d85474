-- ===== src/Confirmation.antt =====
-- firmware/exp045_bootloader_v2/src/boot_confirmation.c: how a running image confirms itself.
pub mod Lasting
pub mod Platform
pub mod Gate
use stm32_security_lab.Common.{
  ℕ, Bool, true, false, ◌&&◌, ◌||◌, not, Option, none, some, ◌==◌, if◌then◌else◌, Result, done,
  fail,
}
use stm32_security_lab.Flash.{Flash}
use stm32_security_lab.Slot.{SlotDescriptor, boot_slot_lookup}
use stm32_security_lab.Metadata.{
  State, MetadataStatus, Record, slot_none, state_code, boot_metadata_prepare_next,
}
use stm32_security_lab.Metadata.Codec.{Recovery, Copy, recovery_of}
use stm32_security_lab.Metadata.Journal.{boot_metadata_recover_from_flash, boot_metadata_commit}

pub data Status : Type 0 where
  ok invalid_argument metadata ambiguous_metadata slot not_pending commit : Status

pub record Confirmed : Type 0 where
  pub confirmed_slot : ℕ
  pub image_version : ℕ
  pub already_confirmed : Bool
  pub metadata_before : Record
  pub metadata_recovery : Recovery

-- The `memset` leaves a record of zeros, whose state is the empty one.
unfoldable pub init_confirm_result : Confirmed
init_confirm_result = record {
  confirmed_slot = slot_none;
  image_version = 0;
  already_confirmed = false;
  metadata_before = record {
    sequence = 0;
    state = State.empty;
    active_slot = 0;
    candidate_slot = 0;
    candidate_image_version = 0;
    boot_attempt_count = 0;
    confirmation_state = 0;
    result = 0;
  };
  metadata_recovery = recovery_of false false Copy.no_copy;
}

unfoldable pub boot_confirm_slot_from_vector_address : ℕ → Status × ℕ
boot_confirm_slot_from_vector_address vector_address =
    let second : Status × ℕ = elim (boot_slot_lookup 1) [
      | some b ↦
          if b.payload_base == vector_address then (Status.ok, b.id) else (Status.slot, slot_none)
      | none ↦ (Status.slot, slot_none)
    ] in
    elim (boot_slot_lookup 0) [
      | some a ↦ if a.payload_base == vector_address then (Status.ok, a.id) else second
      | none ↦ second
    ]

unfoldable pub is_confirmed_as : Record → ℕ → Bool
is_confirmed_as r running_slot =
    state_code r.state == state_code State.confirmed
    && r.active_slot == running_slot
    && r.candidate_slot == slot_none
    && r.confirmation_state == 1

unfoldable pub is_trial_of : Record → ℕ → Bool
is_trial_of r running_slot =
    state_code r.state == state_code State.pending_trial
    && r.candidate_slot == running_slot
    && r.confirmation_state == 0

module _ {D : Type 0} where
  -- The commit of the confirmation, which the record of the trial is turned into.
  unfoldable pub confirm_trial_record :
      Flash D → D → ℕ → Record → Confirmed → Status × Confirmed × D
  confirm_trial_record flash d running_slot r seen =
      elim (boot_metadata_prepare_next r State.confirmed running_slot slot_none
        r.candidate_image_version 0 1 0) [
          | fail _ ↦ (Status.not_pending, seen, d)
          | done next ↦
              let (committed, d') = boot_metadata_commit flash d next in
              elim committed [
                | MetadataStatus.ok ↦ (
                  Status.ok,
                  record seen {
                    confirmed_slot = running_slot;
                    image_version = r.candidate_image_version;
                    already_confirmed = false;
                  },
                  d',
                )
                | _ ↦ (Status.commit, seen, d')
              ]
        ]

  unfoldable pub confirm_record : Flash D → D → ℕ → Record → Confirmed → Status × Confirmed × D
  confirm_record flash d running_slot r seen =
      if is_confirmed_as r running_slot
      then (
        Status.ok,
        record seen {
          confirmed_slot = running_slot;
          image_version = r.candidate_image_version;
          already_confirmed = true;
        },
        d,
      )
      else if not (is_trial_of r running_slot)
      then (Status.not_pending, seen, d)
      else confirm_trial_record flash d running_slot r seen

  unfoldable pub boot_confirm_current_slot : Flash D → D → ℕ → Status × Confirmed × D
  boot_confirm_current_slot flash d running_slot =
      let (status, r, recovery, d') = boot_metadata_recover_from_flash flash d in
      elim (boot_slot_lookup running_slot) [
        | none ↦ (Status.slot, init_confirm_result, d)
        | some _ ↦ elim status [
          | MetadataStatus.ok ↦
              confirm_record flash d' running_slot r
                (record init_confirm_result { metadata_before = r; metadata_recovery = recovery })
          | MetadataStatus.ambiguous ↦ (Status.ambiguous_metadata, init_confirm_result, d')
          | _ ↦ (Status.metadata, init_confirm_result, d')
        ]
      ]

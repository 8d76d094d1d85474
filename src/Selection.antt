-- ===== src/Selection.antt =====
-- firmware/exp045_bootloader_v2/src/boot_slot_selection.c: which slot Stage 0 boots.
-- The options' verify function and fault hook are parameters: the first reads the slot and fills the
-- jump context and the verify status, the second, which may be absent, answers from its point and
-- detail. Neither writes the metadata flash.
pub mod Safe
pub mod Trial
pub mod Policy
use stm32_security_lab.Common.{
  ℕ, ◌-◌, Bool, true, false, not, Option, none, some, ltb, ◌==◌, if◌then◌else◌, Result, done, fail,
}
use stm32_security_lab.Flash.{Flash}
use stm32_security_lab.Slot.{SlotDescriptor, boot_slot_lookup}
use stm32_security_lab.Image.Manifest.{VerifyStatus}
use stm32_security_lab.Image.Verify.{JumpContext}
use stm32_security_lab.Metadata.{
  State, MetadataStatus, Record, slot_none, max_boot_attempts, boot_metadata_prepare_next,
  boot_metadata_empty,
}
use stm32_security_lab.Metadata.Codec.{Recovery, Copy, recovery_of}
use stm32_security_lab.Metadata.Journal.{boot_metadata_recover_from_flash, boot_metadata_commit}

pub data Status : Type 0 where
  ok metadata ambiguous_metadata slot verify commit no_bootable_slot injected : Status
  invalid_argument : Status

pub data Decision : Type 0 where
  no_decision confirmed trial fallback : Decision

pub data FaultPoint : Type 0 where
  verify_candidate verify_confirmed metadata_pending_trial metadata_attempt_decrement : FaultPoint
  metadata_reject_invalid : FaultPoint

abbrev pub attempts_exhausted : ℕ
attempts_exhausted = 1

abbrev pub candidate_verify_failed : ℕ
candidate_verify_failed = 2

pub record Selection : Type 0 where
  pub decision : Decision
  pub selected_slot : ℕ
  pub confirmed_slot : ℕ
  pub candidate_slot : ℕ
  pub image_version : ℕ
  pub attempts_remaining_before : ℕ
  pub attempts_remaining_after : ℕ
  pub metadata_before : Record
  pub metadata_recovery : Recovery
  pub selected_verify_status : VerifyStatus
  pub candidate_verify_status : VerifyStatus
  pub confirmed_verify_status : VerifyStatus
  pub fallback_cause : Status
  pub jump_context : JumpContext

pub record Options (D : Type 0) : Type 0 where
  pub metadata_flash : Flash D
  pub verify_slot : D → SlotDescriptor → Status × JumpContext × VerifyStatus
  pub fault_hook : Option (FaultPoint → ℕ → Status)
  pub trial_reset_result : ℕ

abbrev pub zero_context : JumpContext
zero_context = record {
  vector_address = 0;
  image_size = 0;
  payload_end = 0;
  initial_msp = 0;
  reset_vector = 0;
  reset_address = 0;
}

-- The `memset` leaves the state, which is 0, empty.
abbrev zero_record : Record
zero_record = record {
  sequence = 0;
  state = State.empty;
  active_slot = 0;
  candidate_slot = 0;
  candidate_image_version = 0;
  boot_attempt_count = 0;
  confirmation_state = 0;
  result = 0;
}

unfoldable pub init_result : Selection
init_result = record {
  decision = Decision.no_decision;
  selected_slot = slot_none;
  confirmed_slot = slot_none;
  candidate_slot = slot_none;
  image_version = 0;
  attempts_remaining_before = 0;
  attempts_remaining_after = 0;
  metadata_before = zero_record;
  metadata_recovery = recovery_of false false Copy.no_copy;
  selected_verify_status = VerifyStatus.bad_payload_range;
  candidate_verify_status = VerifyStatus.bad_payload_range;
  confirmed_verify_status = VerifyStatus.bad_payload_range;
  fallback_cause = Status.ok;
  jump_context = zero_context;
}

unfoldable pub prepare_rejected_invalid : Record → ℕ → Record
prepare_rejected_invalid current code =
    elim (boot_metadata_prepare_next current State.rejected_invalid current.active_slot
      current.candidate_slot current.candidate_image_version 0 0 code) [
        | done next ↦ next
        | fail _ ↦ boot_metadata_empty
      ]

-- The attempts that the next trial record leaves; none when the record has none left.
unfoldable pub next_trial_attempts : Record → Option (ℕ × FaultPoint)
next_trial_attempts current = elim current.state [
  | State.candidate_ready ↦ some (max_boot_attempts - 1, FaultPoint.metadata_pending_trial)
  | _ ↦
      if ltb 0 current.boot_attempt_count
      then some (current.boot_attempt_count - 1, FaultPoint.metadata_attempt_decrement)
      else none
]

-- The fields that `boot_slot_selection_select` copies from the recovered record.
unfoldable pub with_metadata : Record → Recovery → Selection
unfolding init_result
with_metadata current recovery = record init_result {
  metadata_before = current;
  metadata_recovery = recovery;
  confirmed_slot = current.active_slot;
  candidate_slot = current.candidate_slot;
  image_version = current.candidate_image_version;
  attempts_remaining_before = current.boot_attempt_count;
  attempts_remaining_after = current.boot_attempt_count;
}

module _ {D : Type 0} (options : Options D) where
  unfoldable pub maybe_inject : FaultPoint → ℕ → Status
  maybe_inject point detail = elim options.fault_hook [
    | none ↦ Status.ok
    | some hook ↦ hook point detail
  ]

  -- The status, and the contents of the two outputs.
  unfoldable pub verify_slot : D → SlotDescriptor → FaultPoint → Status × JumpContext × VerifyStatus
  verify_slot d s point =
      let (called, context, verified) = options.verify_slot d s in
      elim (maybe_inject point s.id) [
        | Status.ok ↦ elim called [
          | Status.ok ↦ elim verified [
            | VerifyStatus.ok ↦ (Status.ok, context, VerifyStatus.ok)
            | refused ↦ (Status.verify, context, refused)
          ]
          | failed ↦ (failed, context, verified)
        ]
        | hooked ↦ (hooked, zero_context, VerifyStatus.bad_payload_range)
      ]

  unfoldable pub commit_next : D → Record → FaultPoint → ℕ → Status × D
  commit_next d next point detail =
      let (committed, d') = boot_metadata_commit options.metadata_flash d next in
      elim (maybe_inject point detail) [
        | Status.ok ↦ elim committed [
          | MetadataStatus.ok ↦ (Status.ok, d')
          | _ ↦ (Status.commit, d')
        ]
        | hooked ↦ (hooked, d)
      ]

  unfoldable pub reject_invalid_best_effort : D → Record → ℕ → D
  unfolding prepare_rejected_invalid
  reject_invalid_best_effort d current code =
      let rejected = prepare_rejected_invalid current code in
      let (status, d') = commit_next d rejected FaultPoint.metadata_reject_invalid code in
      if not (rejected.sequence == 0) then d' else d

  unfoldable pub select_confirmed_slot : D → Record → Decision → Selection → Status × Selection × D
  select_confirmed_slot d current decision result = elim (boot_slot_lookup current.active_slot) [
    | none ↦ (Status.slot, result, d)
    | some s ↦
        let (status, context, verified) = verify_slot d s FaultPoint.verify_confirmed in
        let seen = record result { confirmed_verify_status = verified } in
        elim status [
          | Status.ok ↦ (
            Status.ok,
            record seen {
              decision = decision;
              selected_slot = s.id;
              selected_verify_status = verified;
              jump_context = context;
            },
            d,
          )
          | Status.verify ↦ (Status.no_bootable_slot, seen, d)
          | failed ↦ (failed, seen, d)
        ]
  ]

  unfoldable pub fallback_to_confirmed : D → Record → Selection → Status × Selection × D
  fallback_to_confirmed d current result =
      if current.active_slot == slot_none
      then (Status.no_bootable_slot, result, d)
      else select_confirmed_slot d current Decision.fallback result

  -- Fallback with its cause noted.
  abbrev pub fallback_for : Status → D → Record → Selection → Status × Selection × D
  fallback_for cause d current result =
      fallback_to_confirmed d current (record result { fallback_cause = cause })

  -- `options->trial_reset_result` or `BOOT_SLOT_SELECTION_RESULT_NONE`, which is 0.
  abbrev pub trial_record : Record → ℕ → Result MetadataStatus Record
  trial_record current attempts =
      boot_metadata_prepare_next current State.pending_trial current.active_slot
        current.candidate_slot current.candidate_image_version attempts 0
        (if not (options.trial_reset_result == 0) then options.trial_reset_result else 0)

  -- `start_or_continue_trial` once the candidate is verified with `context`: the record of the trial
  -- is committed before the candidate is selected.
  unfoldable pub commit_trial :
      D → Record → SlotDescriptor → JumpContext → Selection → Status × Selection × D
  unfolding next_trial_attempts
  commit_trial d current s context result = elim (next_trial_attempts current) [
    | none ↦
        fallback_for Status.no_bootable_slot
          (reject_invalid_best_effort d current attempts_exhausted) current result
    | some (attempts, point) ↦ elim (trial_record current attempts) [
      | fail _ ↦ fallback_for Status.metadata d current result
      | done next ↦
          let (status, d') = commit_next d next point attempts in
          elim status [
            | Status.ok ↦ (
              Status.ok,
              record result {
                decision = Decision.trial;
                selected_slot = s.id;
                selected_verify_status = VerifyStatus.ok;
                attempts_remaining_after = attempts;
                jump_context = context;
              },
              d',
            )
            | failed ↦ fallback_for failed d' current result
          ]
    ]
  ]

  unfoldable pub start_or_continue_trial : D → Record → Selection → Status × Selection × D
  start_or_continue_trial d current result = elim (boot_slot_lookup current.candidate_slot) [
    | none ↦ fallback_for Status.slot d current result
    | some s ↦
        let (status, context, verified) = verify_slot d s FaultPoint.verify_candidate in
        let seen = record result { candidate_verify_status = verified } in
        elim status [
          | Status.ok ↦ commit_trial d current s context seen
          | failed ↦
              fallback_for failed (reject_invalid_best_effort d current candidate_verify_failed)
                current seen
        ]
  ]

  -- The switch over the recovered state.
  unfoldable pub select_by_state : State → D → Record → Selection → Status × Selection × D
  select_by_state State.confirmed d current result =
      select_confirmed_slot d current Decision.confirmed result
  select_by_state State.candidate_ready d current result = start_or_continue_trial d current result
  select_by_state State.pending_trial d current result = start_or_continue_trial d current result
  select_by_state State.writing d current result = fallback_to_confirmed d current result
  select_by_state State.rejected_invalid d current result = fallback_to_confirmed d current result
  select_by_state State.empty d current result = (Status.no_bootable_slot, result, d)

  unfoldable pub boot_slot_selection_select : D → Status × Selection × D
  boot_slot_selection_select d =
      let (status, current, recovery, d') =
        boot_metadata_recover_from_flash options.metadata_flash d in
      elim status [
        | MetadataStatus.ok ↦
            select_by_state current.state d' current (with_metadata current recovery)
        | MetadataStatus.ambiguous ↦ (Status.ambiguous_metadata, init_result, d')
        | _ ↦ (Status.metadata, init_result, d')
      ]

-- ===== src/Metadata.antt =====
-- firmware/exp045_bootloader_v2/src/boot_metadata.c and boot_metadata.h: the record of the boot
-- journal, when it is canonical, and which record may follow which.
-- `boot_metadata_state_t` is a data type: a decoded word that is none of its values is refused by
-- `state_of_u32`, where the source casts it first and lets `state_value_is_valid` refuse it.
pub mod Codec
pub mod Journal
pub mod Lifecycle
pub mod RoundTrip
pub mod Recovery
pub mod PowerLoss
pub mod Commit
pub mod Durable
pub mod Passes
pub mod Frame
pub mod Canonical
pub mod Successor
pub mod Decoded
use stm32_security_lab.Common.{
  ℕ, ◌+◌, ◌-◌, Bool, true, false, ◌&&◌, ◌||◌, not, Option, none, some, ltb, leb, ◌==◌,
  if◌then◌else◌, Result, done, fail, u32,
}

pub data State : Type 0 where
  empty writing candidate_ready pending_trial confirmed rejected_invalid : State

pub data MetadataStatus : Type 0 where
  ok invalid_argument bad_format crc no_valid_copy ambiguous bad_transition sequence flash :
      MetadataStatus

pub record Record : Type 0 where
  pub sequence : ℕ
  pub state : State
  pub active_slot : ℕ
  pub candidate_slot : ℕ
  pub candidate_image_version : ℕ
  pub boot_attempt_count : ℕ
  pub confirmation_state : ℕ
  pub result : ℕ

abbrev pub slot_a : ℕ
slot_a = 0

abbrev pub slot_b : ℕ
slot_b = 1

abbrev pub slot_none : ℕ
slot_none = 0xFFFFFFFF

abbrev pub u32_max : ℕ
u32_max = 0xFFFFFFFF

abbrev pub max_boot_attempts : ℕ
max_boot_attempts = 3

abbrev pub state_code : State → ℕ
state_code State.empty = 0
state_code State.writing = 1
state_code State.candidate_ready = 2
state_code State.pending_trial = 3
state_code State.confirmed = 4
state_code State.rejected_invalid = 5

unfoldable pub state_of_u32 : ℕ → Option State
state_of_u32 code =
    if code == 0
    then some State.empty
    else if code == 1
    then some State.writing
    else if code == 2
    then some State.candidate_ready
    else if code == 3
    then some State.pending_trial
    else if code == 4
    then some State.confirmed
    else if code == 5
    then some State.rejected_invalid
    else none

unfoldable pub slot_value_is_valid : ℕ → Bool
slot_value_is_valid slot = slot == slot_a || slot == slot_b || slot == slot_none

-- The last part of `state_record_is_canonical` for a state with a candidate.
unfoldable pub candidate_is_canonical : Bool → Record → Bool
candidate_is_canonical pending r =
    not (
      r.candidate_slot == slot_none
      || r.candidate_image_version == 0
      || (not (r.active_slot == slot_none) && r.active_slot == r.candidate_slot))
    && not (not pending && not (r.boot_attempt_count == 0))
    && r.confirmation_state == 0

-- The switch of `state_record_is_canonical`.
unfoldable pub state_is_canonical : State → Record → Bool
unfolding candidate_is_canonical
state_is_canonical State.empty r =
    r.active_slot == slot_none
    && r.candidate_slot == slot_none
    && r.candidate_image_version == 0
    && r.boot_attempt_count == 0
    && r.confirmation_state == 0
state_is_canonical State.confirmed r =
    not (r.active_slot == slot_none)
    && r.candidate_slot == slot_none
    && not (r.candidate_image_version == 0)
    && r.boot_attempt_count == 0
    && r.confirmation_state == 1
state_is_canonical State.pending_trial r = candidate_is_canonical true r
state_is_canonical _ r = candidate_is_canonical false r

unfoldable pub state_record_is_canonical : Record → Bool
unfolding slot_value_is_valid state_is_canonical
state_record_is_canonical r =
    not (
      r.sequence == 0
      || r.sequence == u32_max
      || not (slot_value_is_valid r.active_slot)
      || not (slot_value_is_valid r.candidate_slot)
      || ltb max_boot_attempts r.boot_attempt_count
      || ltb 1 r.confirmation_state)
    && state_is_canonical r.state r

unfoldable pub transition_state_allowed : State → State → Bool
transition_state_allowed State.empty State.writing = true
transition_state_allowed State.empty State.confirmed = true
transition_state_allowed State.writing State.candidate_ready = true
transition_state_allowed State.writing State.rejected_invalid = true
transition_state_allowed State.candidate_ready State.pending_trial = true
transition_state_allowed State.candidate_ready State.rejected_invalid = true
transition_state_allowed State.pending_trial State.pending_trial = true
transition_state_allowed State.pending_trial State.confirmed = true
transition_state_allowed State.pending_trial State.rejected_invalid = true
transition_state_allowed State.confirmed State.writing = true
transition_state_allowed State.confirmed State.confirmed = true
transition_state_allowed State.rejected_invalid State.writing = true
transition_state_allowed _ _ = false

-- The three pairs of states that `transition_fields_allowed` looks at.
unfoldable pub fields_allowed : State → State → Record → Record → Bool
fields_allowed State.pending_trial State.pending_trial current next =
    not (current.boot_attempt_count == 0)
    && next.active_slot == current.active_slot
    && next.candidate_slot == current.candidate_slot
    && next.candidate_image_version == current.candidate_image_version
    && u32 (next.boot_attempt_count + 1) == current.boot_attempt_count
    && next.confirmation_state == 0
fields_allowed State.pending_trial State.confirmed current next =
    next.active_slot == current.candidate_slot
    && next.candidate_slot == slot_none
    && next.candidate_image_version == current.candidate_image_version
    && next.boot_attempt_count == 0
    && next.confirmation_state == 1
fields_allowed State.confirmed State.confirmed current next =
    next.active_slot == current.active_slot
    && next.candidate_slot == slot_none
    && next.candidate_image_version == current.candidate_image_version
    && next.boot_attempt_count == 0
    && next.confirmation_state == 1
fields_allowed _ _ current next = true

unfoldable pub transition_fields_allowed : Record → Record → Bool
unfolding fields_allowed
transition_fields_allowed current next = fields_allowed current.state next.state current next

unfoldable pub boot_metadata_validate_transition : Record → Record → MetadataStatus
boot_metadata_validate_transition current next =
    if next.sequence == 0
      || next.sequence == u32_max
      || current.sequence == u32_max
      || not (next.sequence == u32 (current.sequence + 1))
    then MetadataStatus.sequence
    else if not (state_record_is_canonical next)
    then MetadataStatus.bad_format
    else if not (transition_state_allowed current.state next.state)
    then MetadataStatus.bad_transition
    else if not (transition_fields_allowed current next)
    then MetadataStatus.bad_transition
    else MetadataStatus.ok

-- The eight arguments that `boot_metadata_prepare_next` copies into the next record.
unfoldable pub next_record : Record → State → ℕ → ℕ → ℕ → ℕ → ℕ → ℕ → Record
next_record current state active candidate version attempts confirmation result = record {
  sequence = u32 (current.sequence + 1);
  state = state;
  active_slot = active;
  candidate_slot = candidate;
  candidate_image_version = version;
  boot_attempt_count = attempts;
  confirmation_state = confirmation;
  result = result;
}

unfoldable pub boot_metadata_prepare_next :
    Record → State → ℕ → ℕ → ℕ → ℕ → ℕ → ℕ → Result MetadataStatus Record
unfolding next_record
boot_metadata_prepare_next current state active candidate version attempts confirmation result =
    let next = next_record current state active candidate version attempts confirmation result in
    if leb (u32_max - 1) current.sequence
    then fail MetadataStatus.sequence
    else elim (boot_metadata_validate_transition current next) [
      | MetadataStatus.ok ↦ done next
      | refused ↦ fail refused
    ]

unfoldable pub boot_metadata_empty : Record
boot_metadata_empty = record {
  sequence = 0;
  state = State.empty;
  active_slot = slot_none;
  candidate_slot = slot_none;
  candidate_image_version = 0;
  boot_attempt_count = 0;
  confirmation_state = 0;
  result = 0;
}

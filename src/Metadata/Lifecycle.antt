-- ===== src/Metadata/Lifecycle.antt =====
-- What `boot_metadata_validate_transition` admits: the life of a journal as a chain of commits.
use stm32_security_lab.Common.{ℕ, ◌+◌, ◌≤◌, ◌<◌, ◌≡◌, true, List, [], ◌∷◌, length, done, arith}
use stm32_security_lab.Metadata.{
  Record, State, MetadataStatus, slot_none, max_boot_attempts, state_record_is_canonical,
  transition_state_allowed, transition_fields_allowed, boot_metadata_validate_transition,
  boot_metadata_prepare_next, next_record, u32_max,
}

-- What a record that passes the validation satisfies against its predecessor.
pub record IsNext (current next : Record) : Type 0 where
  pub sequence_next : next.sequence ≡ current.sequence + 1
  pub sequence_lt : next.sequence < u32_max
  pub canonical : state_record_is_canonical next ≡ true
  pub states : transition_state_allowed current.state next.state ≡ true
  pub fields : transition_fields_allowed current next ≡ true

-- The commits after a first record, oldest first; `Chain r states s` leads from `r` to `s` through
-- the listed states.
pub data Chain (r : Record) : List State → Record → Type 0 where
  here : Chain r [] r
  commit :
      {states : List State} {s t : Record}
      → Chain r states s
      → IsNext s t
      → Chain r (t.state ∷ states) t

-- A chain of k commits moves the sequence number by k.
pub Chain-sequence :
    {r s : Record} {states : List State}
    → Chain r states s
    → s.sequence ≡ r.sequence + length states
Chain-sequence here = omega arith
Chain-sequence (commit c n) = omega (arith, Chain-sequence c, n.sequence_next)

pub canonical_attempts :
    (r : Record) → state_record_is_canonical r ≡ true → r.boot_attempt_count ≤ max_boot_attempts
unfolding state_record_is_canonical
canonical_attempts r h = ground arith

abbrev pub AllTrial : List State → Type 0
AllTrial [] = Unit {0}
AllTrial (s ∷ rest) = (s ≡ State.pending_trial) × AllTrial rest

-- A commit from PENDING_TRIAL to CONFIRMED makes the tried slot and version the active ones.
confirm_trial :
    (s t : Record)
    → IsNext s t
    → s.state ≡ State.pending_trial
    → t.state ≡ State.confirmed
    → (t.active_slot ≡ s.candidate_slot)
      × (t.candidate_slot ≡ slot_none)
      × (t.candidate_image_version ≡ s.candidate_image_version)
      × (t.boot_attempt_count ≡ 0)
unfolding transition_fields_allowed
confirm_trial s t n ps ct = ground arith

-- `boot_metadata_prepare_next` succeeds only with a record that the validation accepts, with the
-- fields that it was given.
pub prepare_next-IsNext :
    (current next : Record) (state : State)
    (active candidate version attempts confirmation result : ℕ)
    → boot_metadata_prepare_next current state active candidate version attempts confirmation result
      ≡ done next
    → (boot_metadata_validate_transition current next ≡ MetadataStatus.ok)
      × (next ≡ next_record current state active candidate version attempts confirmation result)
unfolding boot_metadata_prepare_next
prepare_next-IsNext current next state active candidate version attempts confirmation result h =
    ground arith

-- ===== src/Tests/Chains.antt =====
-- The life of one update, as a chain of commits.
use stm32_security_lab.Common.{◌+◌, ◌≡◌, ◌↔◌, ◌<◌, arith}
use stm32_security_lab.Metadata.{
  State, MetadataStatus, Record, slot_none, u32_max, boot_metadata_validate_transition,
}
use stm32_security_lab.Metadata.Canonical.{IsCanonical}
use stm32_security_lab.Metadata.Successor.{Follows, validate-Follows}
use stm32_security_lab.Tests.{record_of}

abbrev ready_b : Record
ready_b = record_of 9 State.candidate_ready 0 1 6 0 0

abbrev first_trial : Record
first_trial = record_of 10 State.pending_trial 0 1 6 2 0

abbrev second_trial : Record
second_trial = record_of 11 State.pending_trial 0 1 6 1 0

abbrev confirmed_b : Record
confirmed_b = record_of 12 State.confirmed 1 slot_none 6 0 1

validate-Follows_example :
    (boot_metadata_validate_transition ready_b first_trial ≡ MetadataStatus.ok) ↔ (
      (first_trial.sequence ≡ ready_b.sequence + 1)
      × (first_trial.sequence < u32_max)
      × IsCanonical first_trial
      × Follows ready_b first_trial)
validate-Follows_example = validate-Follows ready_b first_trial (omega arith) (omega arith)

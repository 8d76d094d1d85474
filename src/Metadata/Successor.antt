-- ===== src/Metadata/Successor.antt =====
-- Which record may follow which in the journal of boot_metadata.c, as a relation.
use stm32_security_lab.Common.{◌+◌, ◌≤◌, ◌<◌, ◌≡◌, refl, ◌⊎◌, ◌↔◌, inl, inr, true, arith}
use stm32_security_lab.Metadata.{
  Record, State, MetadataStatus, u32_max, transition_state_allowed, fields_allowed,
  transition_fields_allowed, boot_metadata_validate_transition, state_record_is_canonical,
}
use stm32_security_lab.Metadata.Canonical.{
  IsCanonical, HasShape, state_record_is_canonical-IsCanonical,
  IsCanonical-state_record_is_canonical,
}

-- The steps in the life of an update, with what a step keeps of the record before it.
pub data Follows (s t : Record) : Type 0 where
  starts :
      (s.state ≡ State.empty) ⊎ (s.state ≡ State.confirmed) ⊎ (s.state ≡ State.rejected_invalid)
      → t.state ≡ State.writing
      → Follows s t
  provisions : s.state ≡ State.empty → t.state ≡ State.confirmed → Follows s t
  verifies : s.state ≡ State.writing → t.state ≡ State.candidate_ready → Follows s t
  tries : s.state ≡ State.candidate_ready → t.state ≡ State.pending_trial → Follows s t
  retries :
      s.state ≡ State.pending_trial
      → t.state ≡ State.pending_trial
      → t.active_slot ≡ s.active_slot
      → t.candidate_slot ≡ s.candidate_slot
      → t.candidate_image_version ≡ s.candidate_image_version
      → s.boot_attempt_count ≡ t.boot_attempt_count + 1
      → Follows s t
  confirms :
      s.state ≡ State.pending_trial
      → t.state ≡ State.confirmed
      → t.active_slot ≡ s.candidate_slot
      → t.candidate_image_version ≡ s.candidate_image_version
      → Follows s t
  reconfirms :
      s.state ≡ State.confirmed
      → t.state ≡ State.confirmed
      → t.active_slot ≡ s.active_slot
      → t.candidate_image_version ≡ s.candidate_image_version
      → Follows s t
  rejects :
      (s.state ≡ State.writing)
        ⊎ (s.state ≡ State.candidate_ready)
        ⊎ (s.state ≡ State.pending_trial)
      → t.state ≡ State.rejected_invalid
      → Follows s t

allowed-Follows :
    (a b : State) (s t : Record)
    → s.state ≡ a
    → t.state ≡ b
    → transition_state_allowed a b ≡ true
    → fields_allowed a b s t ≡ true
    → IsCanonical t
    → Follows s t
unfolding transition_state_allowed fields_allowed
allowed-Follows State.empty State.writing s t p q h f c = starts (inl p) q
allowed-Follows State.empty State.confirmed s t p q h f c = provisions p q
allowed-Follows State.writing State.candidate_ready s t p q h f c = verifies p q
allowed-Follows State.writing State.rejected_invalid s t p q h f c = rejects (inl p) q
allowed-Follows State.candidate_ready State.pending_trial s t p q h f c = tries p q
allowed-Follows State.candidate_ready State.rejected_invalid s t p q h f c = rejects (inr (inl p)) q
allowed-Follows State.pending_trial State.pending_trial s t p q h f c =
    retries p q (ground (arith, f)) (ground (arith, f)) (ground (arith, f))
      (ground (arith, f, c.attempts))
allowed-Follows State.pending_trial State.confirmed s t p q h f c =
    confirms p q (ground (arith, f)) (ground (arith, f))
allowed-Follows State.pending_trial State.rejected_invalid s t p q h f c = rejects (inr (inr p)) q
allowed-Follows State.confirmed State.writing s t p q h f c = starts (inr (inl p)) q
allowed-Follows State.confirmed State.confirmed s t p q h f c =
    reconfirms p q (ground (arith, f)) (ground (arith, f))
allowed-Follows State.rejected_invalid State.writing s t p q h f c = starts (inr (inr p)) q
allowed-Follows _ _ s t p q h f c = absurd (ground (arith, h))

Follows-allowed :
    (a b : State) (s t : Record)
    → s.state ≡ a
    → t.state ≡ b
    → HasShape b t
    → t.boot_attempt_count ≤ 3
    → Follows s t
    → (transition_state_allowed a b ≡ true) × (fields_allowed a b s t ≡ true)
unfolding transition_state_allowed fields_allowed
Follows-allowed a b s t p q shape few (starts from to) = ground arith
Follows-allowed a b s t p q shape few (provisions from to) = ground arith
Follows-allowed a b s t p q shape few (verifies from to) = ground arith
Follows-allowed a b s t p q shape few (tries from to) = ground arith
Follows-allowed a b s t p q shape few (retries from to x y z w) = ground arith
Follows-allowed a b s t p q shape few (confirms from to x y) = ground arith
Follows-allowed a b s t p q shape few (reconfirms from to x y) = ground arith
Follows-allowed a b s t p q shape few (rejects from to) = ground arith

-- Between records with 32-bit sequence numbers, the validation accepts the next one exactly when it has the next sequence number, below the reserved UINT32_MAX, it is canonical, and it is a step in the life of an update: a retried trial keeps the image and spends one attempt, and the image that is confirmed is the one on trial or the one confirmed before, or any where the journal was EMPTY.
pub validate-Follows :
    (s t : Record)
    → s.sequence ≤ u32_max
    → t.sequence ≤ u32_max
    → (boot_metadata_validate_transition s t ≡ MetadataStatus.ok)
      ↔ ((t.sequence ≡ s.sequence + 1) × (t.sequence < u32_max) × IsCanonical t × Follows s t)
unfolding boot_metadata_validate_transition transition_fields_allowed
validate-Follows s t hs ht = (
  λ h.
      let canonical : state_record_is_canonical t ≡ true = ground arith in
      let c = state_record_is_canonical-IsCanonical t canonical in
      (
        ground arith,
        ground arith,
        c,
        allowed-Follows s.state t.state s t refl refl (ground arith) (ground arith) c,
      ),
  λ h.
      let (next, below, c, follows) = h in
      let canonical = IsCanonical-state_record_is_canonical t c in
      let (states, fields) =
        Follows-allowed s.state t.state s t refl refl c.shape c.attempts follows in
      ground (arith, next, below, canonical, states, fields),
)

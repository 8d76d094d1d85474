-- ===== src/Metadata/Canonical.antt =====
-- When a record of boot_metadata.c is canonical, said without the Boolean checks.
use stm32_security_lab.Common.{ℕ, ◌≤◌, ◌≡◌, ◌≢◌, ◌⊎◌, ◌↔◌, true, arith}
use stm32_security_lab.Metadata.{
  Record, State, slot_a, slot_b, slot_none, u32_max, max_boot_attempts, slot_value_is_valid,
  candidate_is_canonical, state_is_canonical, state_record_is_canonical,
}

abbrev pub IsSlot : ℕ → Type 0
IsSlot n = (n ≡ slot_a) ⊎ (n ≡ slot_b) ⊎ (n ≡ slot_none)

-- The candidate is a slot other than the active one, with a version.
abbrev pub HasCandidate : Record → Type 0
HasCandidate r =
    (r.candidate_slot ≢ slot_none)
    × (r.candidate_slot ≢ r.active_slot)
    × (r.candidate_image_version ≢ 0)
    × (r.confirmation_state ≡ 0)

-- What the fields hold in each state; only a trial has attempts left.
abbrev pub HasShape : State → Record → Type 0
HasShape State.empty r =
    (r.active_slot ≡ slot_none)
    × (r.candidate_slot ≡ slot_none)
    × (r.candidate_image_version ≡ 0)
    × (r.boot_attempt_count ≡ 0)
    × (r.confirmation_state ≡ 0)
HasShape State.confirmed r =
    (r.active_slot ≢ slot_none)
    × (r.candidate_slot ≡ slot_none)
    × (r.candidate_image_version ≢ 0)
    × (r.boot_attempt_count ≡ 0)
    × (r.confirmation_state ≡ 1)
HasShape State.pending_trial r = HasCandidate r
HasShape State.writing r = HasCandidate r × (r.boot_attempt_count ≡ 0)
HasShape State.candidate_ready r = HasCandidate r × (r.boot_attempt_count ≡ 0)
HasShape State.rejected_invalid r = HasCandidate r × (r.boot_attempt_count ≡ 0)

pub record IsCanonical (r : Record) : Type 0 where
  pub numbered : (r.sequence ≢ 0) × (r.sequence ≢ u32_max)
  pub active : IsSlot r.active_slot
  pub candidate : IsSlot r.candidate_slot
  pub attempts : r.boot_attempt_count ≤ max_boot_attempts
  pub confirmation : r.confirmation_state ≤ 1
  pub shape : HasShape r.state r

IsSlot-iff : (n : ℕ) → (slot_value_is_valid n ≡ true) ↔ IsSlot n
unfolding slot_value_is_valid
IsSlot-iff n = (λ h. ground arith, λ h. ground arith)

shape_iff : (s : State) (r : Record) → (state_is_canonical s r ≡ true) ↔ HasShape s r
unfolding state_is_canonical candidate_is_canonical
shape_iff State.empty r = (λ h. ground arith, λ h. ground arith)
shape_iff State.writing r = (λ h. ground arith, λ h. ground arith)
shape_iff State.candidate_ready r = (λ h. ground arith, λ h. ground arith)
shape_iff State.pending_trial r = (λ h. ground arith, λ h. ground arith)
shape_iff State.confirmed r = (λ h. ground arith, λ h. ground arith)
shape_iff State.rejected_invalid r = (λ h. ground arith, λ h. ground arith)

pub state_record_is_canonical-IsCanonical :
    (r : Record) → state_record_is_canonical r ≡ true → IsCanonical r
unfolding state_record_is_canonical
state_record_is_canonical-IsCanonical r h = record {
  numbered = ground arith;
  active = (IsSlot-iff r.active_slot).0 (ground arith);
  candidate = (IsSlot-iff r.candidate_slot).0 (ground arith);
  attempts = ground arith;
  confirmation = ground arith;
  shape = (shape_iff r.state r).0 (ground arith);
}

pub IsCanonical-state_record_is_canonical :
    (r : Record) → IsCanonical r → state_record_is_canonical r ≡ true
unfolding state_record_is_canonical
IsCanonical-state_record_is_canonical r c =
    let active = (IsSlot-iff r.active_slot).1 c.active in
    let candidate = (IsSlot-iff r.candidate_slot).1 c.candidate in
    let shape = (shape_iff r.state r).1 c.shape in
    ground (arith, c.numbered, c.attempts, c.confirmation, active, candidate, shape)

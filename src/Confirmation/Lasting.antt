-- ===== src/Confirmation/Lasting.antt =====
-- A confirmation lasts: what the journal holds once the running image has confirmed itself.
use stm32_security_lab.Common.{
  ℕ, ◌<◌, ◌≡◌, ◌⊎◌, inl, inr, refl, sym, ap, subst, ◌∙◌, true, some, arith, done, Option-cases,
  Bool-cases, Result-cases,
}
use stm32_security_lab.Flash.{Flash}
use stm32_security_lab.Flash.Device.{Backed}
use stm32_security_lab.Slot.{SlotDescriptor, boot_slot_lookup}
use stm32_security_lab.Slot.Geometry.{lookup-IsWellPlaced}
use stm32_security_lab.Metadata.{
  State, MetadataStatus, Record, slot_none, next_record, boot_metadata_prepare_next,
}
use stm32_security_lab.Metadata.Codec.{Recovery}
use stm32_security_lab.Metadata.RoundTrip.{IsWords}
use stm32_security_lab.Metadata.Recovery.{journal, recover_from_flash-keeps}
use stm32_security_lab.Metadata.Lifecycle.{prepare_next-IsNext}
use stm32_security_lab.Metadata.Durable.{commit-journal, recovered_journal, journal_sound}
use stm32_security_lab.Metadata.Journal.{boot_metadata_recover_from_flash, boot_metadata_commit}
use stm32_security_lab.Confirmation.{
  Status, Confirmed, init_confirm_result, is_confirmed_as, is_trial_of, confirm_trial_record,
  confirm_record, boot_confirm_current_slot,
}

-- The record names the slot as the confirmed one, with no candidate left.
pub record IsConfirmed (slot : ℕ) (r : Record) : Type 0 where
  pub state : r.state ≡ State.confirmed
  pub active : r.active_slot ≡ slot
  pub candidate : r.candidate_slot ≡ slot_none
  pub confirmation : r.confirmation_state ≡ 1

IsConfirmed-as : (r : Record) (slot : ℕ) → is_confirmed_as r slot ≡ true → IsConfirmed slot r
unfolding is_confirmed_as
IsConfirmed-as r slot h = record {
  state = ground arith;
  active = ground arith;
  candidate = ground arith;
  confirmation = ground arith;
}

next_confirmed :
    (r next : Record) (slot : ℕ)
    → slot < 2
    → IsWords r
    → boot_metadata_prepare_next r State.confirmed slot slot_none r.candidate_image_version 0 1 0
      ≡ done next
    → IsConfirmed slot next
      × IsWords next
      × (next.candidate_image_version ≡ r.candidate_image_version)
unfolding next_record
next_confirmed r next slot small w h =
    let (_, same) =
      prepare_next-IsNext r next State.confirmed slot slot_none r.candidate_image_version 0 1 0 h in
    let v = w.version_lt in
    rw same (
      record { state = refl; active = refl; candidate = refl; confirmation = refl },
      record {
        sequence_lt = omega arith;
        active_lt = omega arith;
        candidate_lt = omega arith;
        version_lt = v;
        attempts_lt = omega arith;
        confirmation_lt = omega arith;
        result_lt = omega arith;
      },
      refl,
    )

-- The result as it stands once the record is recovered.
abbrev seen_of : Record → Recovery → Confirmed
seen_of r recovery = record init_confirm_result {
  metadata_before = r;
  metadata_recovery = recovery;
}

module _ {D : Type 0} (flash : Flash D) where
  -- The ways in which a confirmation succeeds on a recovered record.
  confirm_record-inv :
      (d d' : D) (slot : ℕ) (r : Record) (seen c : Confirmed)
      → confirm_record flash d slot r seen ≡ (Status.ok, c, d')
      → (c.confirmed_slot ≡ slot)
        × (c.image_version ≡ r.candidate_image_version)
        × (((is_confirmed_as r slot ≡ true) × (d' ≡ d))
            ⊎ ((is_trial_of r slot ≡ true)
                × ((next : Record) × (boot_metadata_prepare_next r State.confirmed slot slot_none
                        r.candidate_image_version 0 1 0
                      ≡ done next)
                    × (boot_metadata_commit flash d next ≡ (MetadataStatus.ok, d')))))
  unfolding confirm_record confirm_trial_record
  confirm_record-inv d d' slot r seen c h = elim (Bool-cases (is_confirmed_as r slot)) [
    | inl e ↦ (ground arith, ground arith, inl (e, ground arith))
    | inr e ↦ elim (Bool-cases (is_trial_of r slot)) [
      | inr f ↦ absurd (ground arith)
      | inl f ↦
          elim (Result-cases (
            boot_metadata_prepare_next r State.confirmed slot slot_none r.candidate_image_version 0
              1 0)) [
                | inr (x, g) ↦ absurd (ground arith)
                | inl (next, g) ↦ (ground arith, ground arith, inr (f, (next, g, ground arith)))
              ]
    ]
  ]

  confirm-inv :
      (d d' : D) (slot : ℕ) (c : Confirmed)
      → boot_confirm_current_slot flash d slot ≡ (Status.ok, c, d')
      → let (status, r, recovery, d1) = boot_metadata_recover_from_flash flash d in
        ((s : SlotDescriptor) × (boot_slot_lookup slot ≡ some s))
        × (status ≡ MetadataStatus.ok)
        × (confirm_record flash d1 slot r (seen_of r recovery) ≡ (Status.ok, c, d'))
  unfolding boot_confirm_current_slot
  confirm-inv d d' slot c h = elim (Option-cases (boot_slot_lookup slot)) [
    | inl e ↦ absurd (ground arith)
    | inr (s, e) ↦ ((s, e), ground arith, ground arith)
  ]

  module _ (mem : D → ℕ → ℕ) (backed : Backed flash.ops mem) where
    -- What a successful confirmation leaves, in a journal `after`, of the record `before`.
    pub record Lasts (slot : ℕ) (c : Confirmed) (before : Record) (found : MetadataStatus)
        (after : Record) : Type 0 where
      pub is_found : found ≡ MetadataStatus.ok
      pub confirmed : IsConfirmed slot after
      pub version : after.candidate_image_version ≡ before.candidate_image_version
      pub reported : (c.confirmed_slot ≡ slot) × (c.image_version ≡ after.candidate_image_version)
      pub was_running :
          IsConfirmed slot before
          ⊎ ((before.state ≡ State.pending_trial) × (before.candidate_slot ≡ slot))

    trial_of :
        (r : Record) (slot : ℕ)
        → is_trial_of r slot ≡ true
        → (r.state ≡ State.pending_trial) × (r.candidate_slot ≡ slot)
    unfolding is_trial_of
    trial_of r slot h = ground arith

    committed-Lasts :
        (d d' : D) (slot : ℕ) (r next : Record) (c : Confirmed)
        → slot < 2
        → IsWords r
        → is_trial_of r slot ≡ true
        → (c.confirmed_slot ≡ slot) × (c.image_version ≡ r.candidate_image_version)
        → boot_metadata_prepare_next r State.confirmed slot slot_none r.candidate_image_version 0 1
            0
          ≡ done next
        → boot_metadata_commit flash d next ≡ (MetadataStatus.ok, d')
        → Lasts slot c r (journal (mem d')).0 (journal (mem d')).1
    committed-Lasts d d' slot r next c small w t (named, versioned) prepared committed =
        let (confirmed, words, version) = next_confirmed r next slot small w prepared in
        let (found, same) =
          commit-journal flash mem backed d next words (ap (λ x. x.0) committed) in
        let device : (boot_metadata_commit flash d next).1 ≡ d' = ap (λ x. x.1) committed in
        let found' = rw device at found in
        let same' = rw device at same in
        rw same' (record {
          is_found = found';
          confirmed = confirmed;
          version = version;
          reported = (named, versioned ∙ sym version);
          was_running = inr (trial_of r slot t);
        })

    recovered-Lasts :
        (d d1 d' : D) (slot : ℕ) (r : Record) (seen c : Confirmed)
        → slot < 2
        → IsWords r
        → ((journal (mem d)).0 ≡ MetadataStatus.ok) × (r ≡ (journal (mem d)).1)
        → mem d1 ≡ mem d
        → confirm_record flash d1 slot r seen ≡ (Status.ok, c, d')
        → Lasts slot c r (journal (mem d')).0 (journal (mem d')).1
    recovered-Lasts d d1 d' slot r seen c small w (found, same) kept h =
        let (named, versioned, how) = confirm_record-inv d1 d' slot r seen c h in
        elim how [
          | inl (already, device) ↦
              let memory : mem d' ≡ mem d = ap mem device ∙ kept in
              rw (memory, sym same)
                (record {
                  is_found = found;
                  confirmed = IsConfirmed-as r slot already;
                  version = refl;
                  reported = (named, versioned);
                  was_running = inl (IsConfirmed-as r slot already);
                })
          | inr (t, (next, prepared, committed)) ↦
              committed-Lasts d1 d' slot r next c small w t (named, versioned) prepared committed
        ]

    -- A confirmation that succeeds is what the next boot reads: the journal names the running slot as
    -- the confirmed one, with no candidate and the same image version, which the result reports. It
    -- succeeds only for the slot that the journal held as confirmed or as the candidate on trial.
    pub confirm-Lasts :
        (d d' : D) (slot : ℕ) (c : Confirmed)
        → boot_confirm_current_slot flash d slot ≡ (Status.ok, c, d')
        → Lasts slot c (journal (mem d)).1 (journal (mem d')).0 (journal (mem d')).1
    confirm-Lasts d d' slot c h =
        let (status, r, recovery, d1) = boot_metadata_recover_from_flash flash d in
        let ((s, known), good, confirmed) = confirm-inv d d' slot c h in
        let (found, same) = recovered_journal flash mem backed d good in
        let (small, _, _) = lookup-IsWellPlaced slot s known in
        let (_, words) = journal_sound (mem d) found in
        subst (λ x. Lasts slot c x (journal (mem d')).0 (journal (mem d')).1) same
          (recovered-Lasts d d1 d' slot r (seen_of r recovery) c small (rw same words) (found, same)
            (recover_from_flash-keeps flash mem backed d) confirmed)

-- ===== src/Installer/Ready/Commit.antt =====
-- What the journal holds once the candidate is committed.
use stm32_security_lab.Common.{ℕ, ◌<◌, ◌≡◌, ap, ◌∙◌, inl, inr, arith, done, Result-cases}
use stm32_security_lab.Flash.{Flash}
use stm32_security_lab.Flash.Device.{Backed}
use stm32_security_lab.Metadata.{
  State, Record, MetadataStatus, boot_metadata_prepare_next, next_record,
}
use stm32_security_lab.Metadata.Journal.{boot_metadata_commit}
use stm32_security_lab.Metadata.RoundTrip.{IsWords}
use stm32_security_lab.Metadata.Recovery.{journal}
use stm32_security_lab.Metadata.Durable.{commit-journal}
use stm32_security_lab.Metadata.Frame.{OffJournal, commit-OffJournal}
use stm32_security_lab.Installer.{InstallStatus, InstallOptions, FaultPoint, commit_metadata_state}
use stm32_security_lab.Installer.Session.{Session}
use stm32_security_lab.Installer.Run.{commit_ready}
use stm32_security_lab.Installer.Stable.{Core, core}

prepared_is :
    (current next : Record) (state : State) (active candidate version : ℕ)
    → boot_metadata_prepare_next current state active candidate version 0 0 0 ≡ done next
    → next ≡ next_record current state active candidate version 0 0 0
unfolding boot_metadata_prepare_next
prepared_is current next state active candidate version h = ground (arith, h)

-- A commit of a state that succeeds has committed the next record.
commit_state_ok :
    {D : Type 0} (flash : Flash D) (current : Record) (state : State) (active candidate version : ℕ)
    (options : InstallOptions) (point : FaultPoint) (d : D)
    → (commit_metadata_state flash current state active candidate version options point d).0
      ≡ InstallStatus.ok
    → let next = next_record current state active candidate version 0 0 0 in
      ((boot_metadata_commit flash d next).0 ≡ MetadataStatus.ok)
      × ((commit_metadata_state flash current state active candidate version options point d).1
          ≡ (boot_metadata_commit flash d next).1)
unfolding commit_metadata_state
commit_state_ok flash current state active candidate version options point d h =
    elim (Result-cases (boot_metadata_prepare_next current state active candidate version 0 0 0)) [
      | inr (_, e) ↦ absurd (ground (arith, e, h))
      | inl (next, e) ↦
          let same = prepared_is current next state active candidate version e in
          ground (arith, e, h, same)
    ]

next-IsWords :
    (current : Record) (state : State) (active candidate version : ℕ)
    → active < 4294967296
    → candidate < 4294967296
    → version < 4294967296
    → IsWords (next_record current state active candidate version 0 0 0)
unfolding next_record
next-IsWords current state active candidate version a c v = record {
  sequence_lt = omega arith;
  active_lt = a;
  candidate_lt = c;
  version_lt = v;
  attempts_lt = omega arith;
  confirmation_lt = omega arith;
  result_lt = omega arith;
}

-- What the journal holds after the commit of the candidate.
pub record IsReadyFor {D : Type 0} (mem : D → ℕ → ℕ) (c : Core D) (d : D) : Type 0 where
  pub recovers : (journal (mem d)).0 ≡ MetadataStatus.ok
  pub state : (journal (mem d)).1.state ≡ State.candidate_ready
  pub candidate : (journal (mem d)).1.candidate_slot ≡ c.candidate.id
  pub active : (journal (mem d)).1.active_slot ≡ c.active_slot_id
  pub version : (journal (mem d)).1.candidate_image_version ≡ c.header.manifest.image_version

module _ {D : Type 0} where
  pub committed_ready :
      (mem : D → ℕ → ℕ) (t : Session D) (at : D)
      → Backed t.restricted_flash.ops mem
      → t.active_slot_id < 4294967296
      → t.candidate.id < 4294967296
      → t.header.manifest.image_version < 4294967296
      → (commit_ready t at).0 ≡ InstallStatus.ok
      → IsReadyFor mem (core t) (commit_ready t at).1
        × ((x : ℕ) → OffJournal x → mem (commit_ready t at).1 x ≡ mem at x)
  unfolding commit_ready next_record
  committed_ready mem t at backed a c v h =
      let f = t.restricted_flash in
      let version = t.header.manifest.image_version in
      let next =
        next_record t.writing_metadata State.candidate_ready t.active_slot_id t.candidate.id version
          0 0 0 in
      let (ok, device) =
        commit_state_ok f t.writing_metadata State.candidate_ready t.active_slot_id t.candidate.id
          version t.options FaultPoint.metadata_candidate_ready at h in
      let words = next-IsWords t.writing_metadata State.candidate_ready _ _ _ a c v in
      let (recovers, holds) = commit-journal f mem backed at next words ok in
      let after = ap mem device in
      (
        record {
          recovers = ap (λ m. (journal m).0) after ∙ recovers;
          state = ap (λ m. (journal m).1.state) after ∙ ap (λ r. r.state) holds;
          candidate =
              ap (λ m. (journal m).1.candidate_slot) after ∙ ap (λ r. r.candidate_slot) holds;
          active = ap (λ m. (journal m).1.active_slot) after ∙ ap (λ r. r.active_slot) holds;
          version =
              ap (λ m. (journal m).1.candidate_image_version) after
              ∙ ap (λ r. r.candidate_image_version) holds;
        },
        λ x off. ap (λ m. m x) after ∙ commit-OffJournal f mem backed at next x off,
      )

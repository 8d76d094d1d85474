-- ===== src/Installer/Safe.antt =====
-- Whatever a session is asked to do, only the journal and the candidate slot change.
use stm32_security_lab.Common.{ℕ, ◌≡◌, refl, ap, ◌∙◌, inl, inr, List, arith, Result-cases}
use stm32_security_lab.Flash.{Flash}
use stm32_security_lab.Image.Verify.{Crypto}
use stm32_security_lab.Metadata.{State, Record, boot_metadata_prepare_next}
use stm32_security_lab.Metadata.Journal.{
  boot_metadata_recover_from_flash, boot_metadata_commit, boot_metadata_reinitialize_for_recovery,
}
use stm32_security_lab.Metadata.Recovery.{recover_from_flash-keeps}
use stm32_security_lab.Metadata.Frame.{commit-OffJournal, reinitialize-OffJournal}
use stm32_security_lab.Installer.{InstallStatus, FaultPoint, InstallOptions, commit_metadata_state}
use stm32_security_lab.Installer.Session.{Session, on_device}
use stm32_security_lab.Installer.Run.{
  check_unchanged, check_header, check_version, check_size, reinitialize_writing, commit_writing,
  confirm_writing, program_header, begin_steps, update_installer_begin,
}
use stm32_security_lab.Installer.Confined.{
  Guard, Confined, then-Confined, update-Confined, fail_session-Confined,
  erase_candidate_slot-Confined, program_source_range-Confined,
}

module _ {D : Type 0} (g : Guard D) where
  pub recover_kept :
      (f : Flash D) (d : D)
      → f ≡ g.flash
      → g.mem (boot_metadata_recover_from_flash f d).3 g.x ≡ g.mem d g.x
  recover_kept f d same =
      ap (λ f'. g.mem (boot_metadata_recover_from_flash f' d).3 g.x) same
      ∙ ap (λ m. m g.x) (recover_from_flash-keeps g.flash g.mem g.backed d)

  pub commit_kept :
      (f : Flash D) (d : D) (next : Record)
      → f ≡ g.flash
      → g.mem (boot_metadata_commit f d next).1 g.x ≡ g.mem d g.x
  commit_kept f d next same =
      ap (λ f'. g.mem (boot_metadata_commit f' d next).1 g.x) same
      ∙ commit-OffJournal g.flash g.mem g.backed d next g.x g.off

  reinitialize_kept :
      (f : Flash D) (d : D) (next : Record)
      → f ≡ g.flash
      → g.mem (boot_metadata_reinitialize_for_recovery f d next).1 g.x ≡ g.mem d g.x
  reinitialize_kept f d next same =
      ap (λ f'. g.mem (boot_metadata_reinitialize_for_recovery f' d next).1 g.x) same
      ∙ reinitialize-OffJournal g.flash g.mem g.backed d next g.x g.off

  -- An action on the device that leaves the byte alone.
  pub on_device-Confined :
      (action : Session D → D → InstallStatus × D)
      → ((s : Session D) (d : D)
          → s.restricted_flash ≡ g.flash
          → g.mem (action s d).1 g.x ≡ g.mem d g.x)
      → Confined g (on_device action)
  unfolding Confined on_device
  on_device-Confined action h w same = (same, h w.0 w.1 same)

  pub commit_metadata_kept :
      (f : Flash D) (current : Record) (state : State) (active candidate version : ℕ)
      (options : InstallOptions) (point : FaultPoint) (d : D)
      → f ≡ g.flash
      → g.mem (commit_metadata_state f current state active candidate version options point d).1 g.x
        ≡ g.mem d g.x
  unfolding commit_metadata_state
  commit_metadata_kept f current state active candidate version options point d same =
      elim (Result-cases
        (boot_metadata_prepare_next current state active candidate version 0 0 0)) [
          | inl (next, e) ↦ ground (arith, e, commit_kept f d next same)
          | inr (_, e) ↦ ground (arith, e)
        ]

  reinitialize_writing_kept :
      (s : Session D) (d : D)
      → s.restricted_flash ≡ g.flash
      → g.mem (reinitialize_writing s d).1 g.x ≡ g.mem d g.x
  unfolding reinitialize_writing
  reinitialize_writing_kept s d same =
      elim (Result-cases (
        boot_metadata_prepare_next s.metadata_before State.writing s.active_slot_id s.candidate.id
          s.header.manifest.image_version 0 0 0)) [
            | inl (next, e) ↦ ground (arith, e, reinitialize_kept s.restricted_flash d next same)
            | inr (_, e) ↦ ground (arith, e)
          ]

  commit_writing_kept :
      (s : Session D) (d : D)
      → s.restricted_flash ≡ g.flash
      → g.mem (commit_writing s d).1 g.x ≡ g.mem d g.x
  unfolding commit_writing
  commit_writing_kept s d same = ground (
    arith,
    reinitialize_writing_kept s d same,
    commit_metadata_kept s.restricted_flash s.metadata_before State.writing s.active_slot_id
        s.candidate.id s.header.manifest.image_version s.options FaultPoint.metadata_writing d same,
  )

  check_unchanged-Confined : Confined g check_unchanged
  unfolding Confined check_unchanged
  check_unchanged-Confined w same = ground (arith, same, recover_kept w.0.restricted_flash w.1 same)

  check_header-Confined :
      (crypto : Crypto) (bytes : List ℕ) (size : ℕ) → Confined g (check_header crypto bytes size)
  unfolding Confined check_header
  check_header-Confined crypto bytes size w same = ground (arith, same)

  check_version-Confined :
      (crypto : Crypto) (memory : D → ℕ → List ℕ) → Confined g (check_version crypto memory)
  unfolding Confined check_version
  check_version-Confined crypto memory w same = ground (arith, same)

  check_size-Confined : Confined g check_size
  unfolding Confined check_size
  check_size-Confined w same = ground (arith, same)

  confirm_writing-Confined : Confined g confirm_writing
  unfolding Confined confirm_writing
  confirm_writing-Confined w same = ground (arith, same, recover_kept w.0.restricted_flash w.1 same)

  program_header-Confined : (bytes : List ℕ) → Confined g (program_header bytes)
  unfolding Confined program_header
  program_header-Confined bytes w same =
      program_source_range-Confined g w.0.candidate.signed_image_base bytes _ _ w same

  begin_steps-Confined :
      (crypto : Crypto) (memory : D → ℕ → List ℕ) (bytes : List ℕ) (size : ℕ)
      → Confined g (begin_steps crypto memory bytes size)
  unfolding begin_steps
  begin_steps-Confined crypto memory bytes size = then-Confined g _ _ check_unchanged-Confined (
      then-Confined g _ _ (check_header-Confined crypto bytes size) (
        then-Confined g _ _ (check_version-Confined crypto memory) (
          then-Confined g _ _ check_size-Confined (
            then-Confined g _ _ (on_device-Confined commit_writing commit_writing_kept) (
              then-Confined g _ _ (update-Confined g _ (λ s. refl)) (
                then-Confined g _ _ confirm_writing-Confined (
                  then-Confined g _ _ (erase_candidate_slot-Confined g) (
                    then-Confined g _ _ (update-Confined g _ (λ s. refl)) (
                      then-Confined g _ _ (program_header-Confined bytes)
                        (update-Confined g _ (λ s. refl)))))))))))

  pub begin-Confined :
      (crypto : Crypto) (memory : D → ℕ → List ℕ) (bytes : List ℕ) (size : ℕ)
      → Confined g (update_installer_begin crypto memory bytes size)
  unfolding Confined update_installer_begin
  begin-Confined crypto memory bytes size w same =
      let run =
        fail_session-Confined g (begin_steps crypto memory bytes size)
          (begin_steps-Confined crypto memory bytes size) w same in
      ground (arith, same, run)

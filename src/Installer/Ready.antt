-- ===== src/Installer/Ready.antt =====
-- What stands in the flash when an update has finished.
pub mod Commit
pub mod Installed
use stm32_security_lab.Common.{
  ℕ, ◌<◌, ◌≡◌, sym, ap, subst, ◌∙◌, inl, inr, true, not, ◌==◌, List, arith, done, fail,
  Result-cases,
}
use stm32_security_lab.Flash.{Flash}
use stm32_security_lab.Flash.Device.{Backed, IsMapped, mapped-ext}
use stm32_security_lab.Slot.{SlotDescriptor}
use stm32_security_lab.Image.Manifest.{VerifyStatus, decode_manifest_bytes}
use stm32_security_lab.Image.Verify.{Crypto, signed_image_verify_update_slot_buffer}
use stm32_security_lab.Image.Sound.{IsBootable}
use stm32_security_lab.Image.Refusal.{verify-refusal}
use stm32_security_lab.Package.{Header}
use stm32_security_lab.Selection.Policy.{IsSigned}
use stm32_security_lab.Metadata.{
  State, Record, MetadataStatus, boot_metadata_prepare_next, next_record,
}
use stm32_security_lab.Metadata.Journal.{boot_metadata_commit}
use stm32_security_lab.Metadata.RoundTrip.{IsWords}
use stm32_security_lab.Metadata.Recovery.{journal}
use stm32_security_lab.Metadata.Durable.{commit-journal}
use stm32_security_lab.Metadata.Frame.{OffJournal, commit-OffJournal}
use stm32_security_lab.Installer.{
  InstallStatus, InstallOptions, FaultPoint, SessionState, commit_metadata_state,
}
use stm32_security_lab.Installer.Session.{Session, Step, ◌|>◌, refuse_when, update, on_device}
use stm32_security_lab.Installer.Blocks.{fault_at, flush_payload_program_buffer}
use stm32_security_lab.Installer.Verify.{
  verify_streaming_payload_hash, hash_installed_payload, installed_status, verify_image,
  verify_installed_package, manifest_matches_header,
}
use stm32_security_lab.Installer.Run.{commit_ready, finish_steps, update_installer_finish}
use stm32_security_lab.Installer.Floor.{verified-IsSigned}
use stm32_security_lab.Common.{take, drop, load_le32, some, ◌≤◌}
use stm32_security_lab.Layout.{metadata_b_end, signed_manifest_size}
use stm32_security_lab.Slot.{boot_slot_lookup}
use stm32_security_lab.Slot.Geometry.{lookup-IsWellPlaced}
use native.Mathlib.Nat.{le_trans}
use stm32_security_lab.Installer.Steps.{then_ok, fail_session_ok}
use stm32_security_lab.Installer.Stable.{
  Core, core, Stable, flush-Stable, streaming-Stable, hash-Stable, refuse_when-Stable,
}
use stm32_security_lab.Installer.Ready.Commit.{IsReadyFor, committed_ready}
use stm32_security_lab.Installer.Ready.Installed.{IsInstalled, status-IsInstalled, IsInstalled-kept}

module _ {D : Type 0} (crypto : Crypto) (memory : D → ℕ → List ℕ) where
  verify_image_ok :
      (w : Session D × D)
      → (verify_image crypto memory w).0 ≡ InstallStatus.ok
      → (installed_status crypto (memory w.1) w.0.candidate w.0.header w.0.public_key
          ≡ VerifyStatus.ok)
        × (core (verify_image crypto memory w).1 ≡ core w.0)
        × ((verify_image crypto memory w).2 ≡ w.1)
  unfolding verify_image
  verify_image_ok w h = ground (arith, h)

  image_checked :
      (w : Session D × D)
      → (verify_installed_package crypto memory w).0 ≡ InstallStatus.ok
      → IsInstalled crypto memory
          (verify_installed_package crypto memory w).2
          w.0.candidate
          w.0.header
          w.0.public_key
        × (core (verify_installed_package crypto memory w).1 ≡ core w.0)
  unfolding verify_installed_package
  image_checked w h =
      let fault : Step D =
        fault_at FaultPoint.verify_installed (λ s. s.header.manifest.image_version) in
      let (_, h1, e1) = then_ok fault (verify_image crypto memory) w h in
      let (status, same, device) = verify_image_ok (w.0, w.1) h1 in
      let signed =
        status-IsInstalled crypto memory w.1 w.0.candidate w.0.header w.0.public_key status in
      (
        subst (λ d. IsInstalled crypto memory d w.0.candidate w.0.header w.0.public_key)
            (sym (ap (λ r. r.2) e1 ∙ device)) signed,
        ap (λ r. core r.1) e1 ∙ same,
      )

  -- The verification of the installed image and the commit behind it.
  committed :
      (w : Session D × D)
      → let finished : Session D → Session D = λ s. record s { state = SessionState.finished } in
        let rest =
          verify_installed_package crypto memory |> on_device commit_ready |> update finished in
        ((rest w).0 ≡ InstallStatus.ok)
        → (at : D) × IsInstalled crypto memory at w.0.candidate w.0.header w.0.public_key
          × (t : Session D) × (core t ≡ core w.0)
          × ((commit_ready t at).0 ≡ InstallStatus.ok)
          × ((rest w).2 ≡ (commit_ready t at).1)
  unfolding on_device update
  committed w h =
      let finished : Session D → Session D = λ s. record s { state = SessionState.finished } in
      let m = verify_installed_package crypto memory in
      let (c5, h5, e5) = then_ok m (on_device commit_ready |> update finished) w h in
      let (signed, same) = image_checked w c5 in
      let w5 : Session D × D = ((m w).1, (m w).2) in
      let (c6, _, e6) = then_ok (on_device commit_ready) (update finished) w5 h5 in
      (w5.1, signed, w5.0, same, c6, ap (λ r. r.2) (e5 ∙ e6))

  -- Everything before the commit of an update that finishes: the installed image is verified.
  checked :
      (w : Session D × D)
      → (finish_steps crypto memory w).0 ≡ InstallStatus.ok
      → (at : D) × IsInstalled crypto memory at w.0.candidate w.0.header w.0.public_key
        × (t : Session D) × (core t ≡ core w.0)
        × ((commit_ready t at).0 ≡ InstallStatus.ok)
        × ((finish_steps crypto memory w).2 ≡ (commit_ready t at).1)
  unfolding finish_steps Stable
  checked w h =
      let m1 : Step D = flush_payload_program_buffer true in
      let m2 : Step D =
        refuse_when (λ s. not (s.payload_programmed == s.payload_program_size))
          InstallStatus.err_capacity in
      let m3 : Step D = verify_streaming_payload_hash crypto in
      let m4 : Step D = hash_installed_payload crypto in
      let (_, h1, e1) = then_ok m1 _ w h in
      let w1 : Session D × D = ((m1 w).1, (m1 w).2) in
      let (_, h2, e2) = then_ok m2 _ w1 h1 in
      let w2 : Session D × D = ((m2 w1).1, (m2 w1).2) in
      let (_, h3, e3) = then_ok m3 _ w2 h2 in
      let w3 : Session D × D = ((m3 w2).1, (m3 w2).2) in
      let (_, h4, e4) = then_ok m4 _ w3 h3 in
      let w4 : Session D × D = ((m4 w3).1, (m4 w3).2) in
      let same =
        hash-Stable D crypto w3
        ∙ streaming-Stable D crypto w2
        ∙ refuse_when-Stable D (λ s. not (s.payload_programmed == s.payload_program_size))
            InstallStatus.err_capacity w1
        ∙ flush-Stable D true w in
      let (at, signed, t, t_is, ready, device) = committed w4 h4 in
      (
        at,
        subst (λ c. IsInstalled crypto memory at c.candidate c.header c.key) same signed,
        t,
        t_is ∙ same,
        ready,
        ap (λ r. r.2) (e1 ∙ e2 ∙ e3 ∙ e4) ∙ device,
      )

  finish_ok :
      (w : Session D × D)
      → (update_installer_finish crypto memory w).0 ≡ InstallStatus.ok
      → ((finish_steps crypto memory w).0 ≡ InstallStatus.ok)
        × (update_installer_finish crypto memory w ≡ finish_steps crypto memory w)
  unfolding update_installer_finish
  finish_ok w h = ground (arith, h, fail_session_ok (finish_steps crypto memory) w)

  -- When a finish succeeds, of a session whose candidate is one of the two slots and whose active slot number and version are 32-bit words, on a flash that is mapped into the memory, then the candidate slot holds, in the flash as it is then, a bootable image with the declared digest, an accepted signature and
  -- the version of the session's header, and recovery selects a record in CANDIDATE_READY with the session's slots and this version.
  pub finish_ready :
      (mem : D → ℕ → ℕ) (s s' : Session D) (d d' : D)
      → IsMapped memory mem
      → Backed s.restricted_flash.ops mem
      → boot_slot_lookup s.candidate.id ≡ some s.candidate
      → s.active_slot_id < 4294967296
      → s.header.manifest.image_version < 4294967296
      → update_installer_finish crypto memory (s, d) ≡ (InstallStatus.ok, s', d')
      → IsInstalled crypto memory d' s.candidate s.header s.public_key × IsReadyFor mem (core s) d'
  finish_ready mem s s' d d' mapped backed found a v h =
      let (run, same) = finish_ok (s, d) (ap (λ r. r.0) h) in
      let (at, installed, t, t_is, ready, device) = checked (s, d) run in
      let back = sym t_is in
      let (small, _, _) = lookup-IsWellPlaced s.candidate.id s.candidate found in
      let c : s.candidate.id < 4294967296 = omega (arith, small) in
      let (final, kept) =
        committed_ready mem t at (subst (λ k. Backed k.flash.ops mem) back backed)
          (subst (λ k. k.active_slot_id < 4294967296) back a)
          (subst (λ k. k.candidate.id < 4294967296) back c)
          (subst (λ k. k.header.manifest.image_version < 4294967296) back v) ready in
      let end = sym device ∙ sym (ap (λ r. r.2) same) ∙ ap (λ r. r.2) h in
      (
        subst (λ e. IsInstalled crypto memory e s.candidate s.header s.public_key) end
            (IsInstalled-kept crypto memory mem mapped s.candidate.id s.candidate s.header
              s.public_key at (commit_ready t at).1 found kept installed),
        subst (λ e. IsReadyFor mem (core s) e) end
            (subst (λ k. IsReadyFor mem k (commit_ready t at).1) t_is final),
      )

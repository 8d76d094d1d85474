-- ===== src/Installer/Accepted.antt =====
-- What the start of an update has checked when it succeeds.
use stm32_security_lab.Common.{
  ℕ, ◌<◌, ◌≡◌, ◌≢◌, refl, ap, subst, ◌∙◌, inl, inr, ◌⊎◌, true, take, drop, load_le32, List, arith,
  done, fail, Result-cases, Option,
}
use stm32_security_lab.Flash.Device.{Backed}
use stm32_security_lab.Slot.{SlotDescriptor}
use stm32_security_lab.Metadata.{Record, MetadataStatus, boot_metadata_empty}
use stm32_security_lab.Image.Verify.{Crypto}
use stm32_security_lab.Image.Manifest.{VerifyStatus, decode_manifest_bytes}
use stm32_security_lab.Package.{Header, Status, update_package_verify_header_for_slot}
use stm32_security_lab.Metadata.Journal.{boot_metadata_recover_from_flash}
use stm32_security_lab.Metadata.Recovery.{journal, recover_from_flash-keeps}
use stm32_security_lab.Installer.{InstallStatus, confirmed_version_for_update}
use stm32_security_lab.Installer.Session.{Session, Step, ◌|>◌}
use stm32_security_lab.Installer.Run.{
  check_unchanged, check_header, check_version, begin_steps, update_installer_begin,
}
use stm32_security_lab.Installer.Floor.{
  IsAboveFloor, confirmed_version-IsAboveFloor, check_unchanged-journal,
}
use stm32_security_lab.Layout.{
  signed_manifest_size, signed_signature_size, signed_image_header_size,
}
use stm32_security_lab.Package.Sound.{IsForSlot, slot-inv}
use stm32_security_lab.Installer.Steps.{then_ok, fail_session_ok}

version_refuses :
    (crypto : Crypto) (memory : ℕ → List ℕ) (key : List ℕ) (before : Record)
    (active : Option SlotDescriptor) (e : InstallStatus)
    → confirmed_version_for_update crypto memory key before active ≡ fail e
    → e ≡ InstallStatus.err_metadata
unfolding confirmed_version_for_update
version_refuses crypto memory key before active e h = ground (arith, h)

module _ {D : Type 0} (crypto : Crypto) (memory : D → ℕ → List ℕ) where
  check_unchanged_session :
      (w : Session D × D)
      → ((check_unchanged w).1 ≡ w.0)
        × ((check_unchanged w).2 ≡ (boot_metadata_recover_from_flash w.0.restricted_flash w.1).3)
  unfolding check_unchanged
  check_unchanged_session w = ground arith

  header_refused :
      (bytes : List ℕ) (size : ℕ) (w : Session D × D) {e : Status × VerifyStatus}
      → update_package_verify_header_for_slot crypto bytes size w.0.public_key w.0.candidate
        ≡ fail e
      → (check_header crypto bytes size w).0 ≢ InstallStatus.ok
  unfolding check_header
  header_refused bytes size w e h = ground (arith, e, h)

  check_header_ok :
      (bytes : List ℕ) (size : ℕ) (w : Session D × D)
      → (check_header crypto bytes size w).0 ≡ InstallStatus.ok
      → (header : Header) × (update_package_verify_header_for_slot crypto bytes size w.0.public_key
            w.0.candidate
          ≡ done header)
        × (check_header crypto bytes size w ≡ (
          InstallStatus.ok,
          record w.0 {
            header = header;
            result = record w.0.result { package_verify_status = VerifyStatus.ok };
          },
          w.1,
        ))
  unfolding check_header
  check_header_ok bytes size w h =
      elim (Result-cases
        (update_package_verify_header_for_slot crypto bytes size w.0.public_key w.0.candidate)) [
          | inl (header, e) ↦ (header, e, rw (e, check_header) refl)
          | inr (_, e) ↦ absurd (header_refused bytes size w e h)
        ]

  check_version_ok :
      (w : Session D × D)
      → (check_version crypto memory w).0 ≡ InstallStatus.ok
      → (v : ℕ) × (confirmed_version_for_update crypto
            (memory w.1)
            w.0.public_key
            w.0.metadata_before
            w.0.active
          ≡ done v)
        × (v < w.0.header.manifest.image_version)
  unfolding check_version
  check_version_ok w h =
      elim (Result-cases (
        confirmed_version_for_update crypto (memory w.1) w.0.public_key w.0.metadata_before
          w.0.active)) [
            | inl (v, e) ↦ (v, e, ground (arith, e, h))
            | inr (f, e) ↦ absurd (ground (arith, e, h, version_refuses _ _ _ _ _ f e))
          ]

  -- A header accepted for the session's candidate, above the confirmed version.
  abbrev VersionChecked : List ℕ → ℕ → Session D → D → Type 0
  VersionChecked bytes size s d =
      (header : Header) × (v : ℕ) × (update_package_verify_header_for_slot crypto bytes size
          s.public_key s.candidate
        ≡ done header)
      × (confirmed_version_for_update crypto (memory d) s.public_key s.metadata_before s.active
          ≡ done v)
      × (v < header.manifest.image_version)

  header_version :
      (bytes : List ℕ) (size : ℕ) (rest : Step D) (w : Session D × D)
      → ((check_header crypto bytes size |> check_version crypto memory |> rest) w).0
        ≡ InstallStatus.ok
      → VersionChecked bytes size w.0 w.1
  header_version bytes size rest w h =
      let (c2, h2, _) =
        then_ok (check_header crypto bytes size) (check_version crypto memory |> rest) w h in
      let (header, verified, after) = check_header_ok bytes size w c2 in
      let w2 : Session D × D =
        ((check_header crypto bytes size w).1, (check_header crypto bytes size w).2) in
      let (c3, _, _) = then_ok (check_version crypto memory) rest w2 h2 in
      let (v, confirmed, above) = check_version_ok w2 c3 in
      (
        header,
        v,
        verified,
        subst
            (λ r.
              confirmed_version_for_update crypto (memory r.2) r.1.public_key r.1.metadata_before
                r.1.active
              ≡ done v)
            after confirmed,
        subst (λ r. v < r.1.header.manifest.image_version) after above,
      )

  begin_ok :
      (bytes : List ℕ) (size : ℕ) (w : Session D × D)
      → (update_installer_begin crypto memory bytes size w).0 ≡ InstallStatus.ok
      → (begin_steps crypto memory bytes size w).0 ≡ InstallStatus.ok
  unfolding update_installer_begin
  begin_ok bytes size w h =
      ground (arith, h, fail_session_ok (begin_steps crypto memory bytes size) w)

  -- A start of an update that succeeds was given a header of the exact size whose manifest is admitted and suits the candidate slot, with an accepted signature; the journal still holds the record that the session started
  -- from, or that is the empty record; and the version of the manifest exceeds the one confirmed: the journal's in the confirmed state, otherwise that of the verified signed image in the active slot, read in a state of the device with the same flash content, and without an active slot it is at least the minimum.
  pub begin_no_rollback :
      (mem : D → ℕ → ℕ) (bytes : List ℕ) (size : ℕ) (s s' : Session D) (d d' : D)
      → Backed s.restricted_flash.ops mem
      → update_installer_begin crypto memory bytes size (s, d) ≡ (InstallStatus.ok, s', d')
      → (size ≡ signed_image_header_size)
        × IsForSlot bytes s.candidate
        × (crypto.ed25519_check
              (take signed_signature_size (drop signed_manifest_size bytes))
              s.public_key
              (take signed_manifest_size (take signed_manifest_size bytes))
            ≡ true)
        × ((((journal (mem d)).0 ≡ MetadataStatus.ok) × ((journal (mem d)).1 ≡ s.metadata_before))
            ⊎ (s.metadata_before ≡ boot_metadata_empty))
        × (at : D) × (mem at ≡ mem d)
        × IsAboveFloor crypto memory at s.public_key s.metadata_before s.active (load_le32 bytes 8)
  unfolding begin_steps decode_manifest_bytes
  begin_no_rollback mem bytes size s s' d d' backed h =
      let w : Session D × D = (s, d) in
      let run = begin_ok bytes size w (ap (λ r. r.0) h) in
      let (c1, h1, _) = then_ok check_unchanged _ w run in
      let (same, device) = check_unchanged_session w in
      let at = (check_unchanged w).2 in
      let checked = header_version bytes size _ ((check_unchanged w).1, at) h1 in
      let (header, v, verified, confirmed, above) =
        subst (λ t. VersionChecked bytes size t at) same checked in
      let (exact, parsed, suits, signed) =
        slot-inv crypto bytes s.public_key size s.candidate header verified in
      (
        exact,
        suits,
        subst
            (λ x.
              crypto.ed25519_check x.signature_bytes s.public_key
                (take signed_manifest_size x.manifest_bytes)
              ≡ true)
            parsed signed,
        check_unchanged-journal mem w backed c1,
        at,
        ap mem device ∙ recover_from_flash-keeps s.restricted_flash mem backed d,
        confirmed_version-IsAboveFloor crypto memory at s.public_key s.metadata_before s.active v
            (load_le32 bytes 8) confirmed (subst (λ x. v < x.manifest.image_version) parsed above),
      )

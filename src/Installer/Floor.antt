-- ===== src/Installer/Floor.antt =====
-- The version that an update has to exceed: what `confirmed_version_for_update` and the check of the
-- journal in front of it establish.
use stm32_security_lab.Common.{
  ℕ, ◌≤◌, ◌<◌, ◌≡◌, ◌≢◌, refl, sym, ◌∙◌, ◌⊎◌, inl, inr, true, false, List, Option, none, some, ◌==◌,
  load_le32, done, Result-cases, Bool-cases, arith,
}
use stm32_security_lab.Flash.Device.{Backed}
use stm32_security_lab.Slot.{SlotDescriptor}
use stm32_security_lab.Metadata.{Record, State, MetadataStatus, state_code, boot_metadata_empty}
use stm32_security_lab.Metadata.Codec.{records_are_equal}
use stm32_security_lab.Metadata.Journal.{boot_metadata_recover_from_flash}
use stm32_security_lab.Metadata.Recovery.{journal, records_are_equal_iff, recover_from_flash-status}
use stm32_security_lab.Image.Manifest.{min_image_version, decode_manifest_bytes}
use stm32_security_lab.Image.Verify.{Crypto, signed_image_verify_update_slot_buffer}
use stm32_security_lab.Image.Sound.{verify_slot-IsBootable}
use stm32_security_lab.Selection.Policy.{IsSigned}
use stm32_security_lab.Installer.{
  InstallStatus, confirmed_version_for_update, metadata_matches_start,
}
use stm32_security_lab.Installer.Session.{Session}
use stm32_security_lab.Installer.Run.{check_unchanged}

state_is_confirmed :
    (s : State)
    → ((state_code s == state_code State.confirmed) ≡ true → s ≡ State.confirmed)
      × ((state_code s == state_code State.confirmed) ≡ false → s ≢ State.confirmed)
state_is_confirmed s = (λ h. ground arith, λ h e. ground arith)

module _ {D : Type 0} (crypto : Crypto) (memory : D → ℕ → List ℕ) where
  pub verified-IsSigned :
      (d : D) (s : SlotDescriptor) (key : List ℕ)
      → signed_image_verify_update_slot_buffer crypto
          (memory d s.manifest_address)
          (memory d s.signature_address)
          (memory d s.payload_base)
          s.maximum_payload_size
          key
          s
        ≡ done tt
      → IsSigned crypto key memory d s
  verified-IsSigned d s key h =
      let (bootable, digest, signed) =
        verify_slot-IsBootable crypto (memory d s.manifest_address) (memory d s.signature_address)
          (memory d s.payload_base) s.maximum_payload_size key s h in
      record { bootable = bootable; digest = digest; signature = signed }

  -- A version above the one that is confirmed: by the journal's record in the confirmed state, otherwise
  -- by the signed image in the active slot; without an active slot the least version is the bound.
  pub data IsAboveFloor (d : D) (key : List ℕ) (before : Record) (active : Option SlotDescriptor)
      (version : ℕ) : Type 0 where
    by_journal :
        before.state ≡ State.confirmed
        → before.candidate_image_version < version
        → IsAboveFloor d key before active version
    by_image :
        (a : SlotDescriptor)
        → before.state ≢ State.confirmed
        → active ≡ some a
        → IsSigned crypto key memory d a
        → load_le32 (memory d a.manifest_address) 8 < version
        → IsAboveFloor d key before active version
    by_minimum :
        before.state ≢ State.confirmed
        → active ≡ none
        → min_image_version ≤ version
        → IsAboveFloor d key before active version

  image_floor :
      (d : D) (key : List ℕ) (before : Record) (active : Option SlotDescriptor) (v : ℕ)
      → (state_code before.state == state_code State.confirmed) ≡ false
      → confirmed_version_for_update crypto (memory d) key before active ≡ done v
      → (version : ℕ) → v < version
      → IsAboveFloor d key before active version
  unfolding confirmed_version_for_update decode_manifest_bytes
  image_floor d key before none v other h version above =
      by_minimum ((state_is_confirmed before.state).1 other) refl (ground (arith, other, h, above))
  image_floor d key before (some a) v other h version above =
      elim (Result-cases (
        signed_image_verify_update_slot_buffer crypto (memory d a.manifest_address)
          (memory d a.signature_address) (memory d a.payload_base) a.maximum_payload_size key a)) [
            | inr (_, e) ↦ absurd (ground (arith, other, h, e))
            | inl (_, e) ↦
                by_image a ((state_is_confirmed before.state).1 other) refl
                  (verified-IsSigned d a key e) (ground (arith, other, h, e, above))
          ]

  pub confirmed_version-IsAboveFloor :
      (d : D) (key : List ℕ) (before : Record) (active : Option SlotDescriptor) (v version : ℕ)
      → confirmed_version_for_update crypto (memory d) key before active ≡ done v
      → v < version
      → IsAboveFloor d key before active version
  unfolding confirmed_version_for_update
  confirmed_version-IsAboveFloor d key before active v version h above =
      elim (Bool-cases (state_code before.state == state_code State.confirmed)) [
        | inl confirmed ↦
            by_journal ((state_is_confirmed before.state).0 confirmed)
              (ground (arith, confirmed, h, above))
        | inr other ↦ image_floor d key before active v other h version above
      ]

matches_equal : (a b : Record) → metadata_matches_start a b ≡ true → a ≡ b
unfolding metadata_matches_start records_are_equal
matches_equal a b h = (records_are_equal_iff a b).0 h

module _ {D : Type 0} (mem : D → ℕ → ℕ) where
  matched :
      (w : Session D × D)
      → (check_unchanged w).0 ≡ InstallStatus.ok
      → let (status, recovered, _, _) = boot_metadata_recover_from_flash w.0.restricted_flash w.1 in
        ((status ≡ MetadataStatus.ok)
          × (metadata_matches_start recovered w.0.metadata_before ≡ true))
        ⊎ (metadata_matches_start boot_metadata_empty w.0.metadata_before ≡ true)
  unfolding check_unchanged
  matched w h = ground (arith, h)

  -- The record of the session's start is still the journal's, or that of a journal to be built.
  pub check_unchanged-journal :
      (w : Session D × D)
      → Backed w.0.restricted_flash.ops mem
      → (check_unchanged w).0 ≡ InstallStatus.ok
      → (((journal (mem w.1)).0 ≡ MetadataStatus.ok)
          × ((journal (mem w.1)).1 ≡ w.0.metadata_before))
        ⊎ (w.0.metadata_before ≡ boot_metadata_empty)
  check_unchanged-journal w backed h = elim (matched w h) [
    | inr built ↦ inr (sym (matches_equal _ _ built))
    | inl (ok, same) ↦ elim (recover_from_flash-status w.0.restricted_flash mem backed w.1) [
      | inl failed ↦ absurd (ground (arith, ok, failed))
      | inr (status, selected, _) ↦ inl (sym status ∙ ok, sym selected ∙ matches_equal _ _ same)
    ]
  ]

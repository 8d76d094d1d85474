-- ===== src/Installer/Ready/Installed.antt =====
-- What the verification of the installed image establishes, and that it lasts while only the journal
-- changes.
use stm32_security_lab.Common.{
  ℕ, ◌≡◌, sym, ap, subst, ◌∙◌, inl, inr, true, List, arith, fail, Result-cases,
}
use stm32_security_lab.Flash.Device.{IsMapped, mapped-ext}
use stm32_security_lab.Slot.{SlotDescriptor}
use stm32_security_lab.Image.Manifest.{VerifyStatus, decode_manifest_bytes}
use stm32_security_lab.Image.Verify.{Crypto, signed_image_verify_update_slot_buffer}
use stm32_security_lab.Image.Sound.{IsBootable}
use stm32_security_lab.Image.Refusal.{verify-refusal}
use stm32_security_lab.Package.{Header}
use stm32_security_lab.Selection.Policy.{IsSigned}
use stm32_security_lab.Metadata.Frame.{OffJournal}
use stm32_security_lab.Installer.Verify.{installed_status, manifest_matches_header}
use stm32_security_lab.Installer.Floor.{verified-IsSigned}
use stm32_security_lab.Common.{take, drop, load_le32, some, ◌≤◌}
use stm32_security_lab.Layout.{metadata_b_end, signed_manifest_size}
use stm32_security_lab.Slot.{boot_slot_lookup}
use stm32_security_lab.Slot.Geometry.{lookup-IsWellPlaced}
use native.Mathlib.Nat.{le_trans}

module _ {D : Type 0} (crypto : Crypto) (memory : D → ℕ → List ℕ) where
  -- The image of the header stands in the slot.
  unfoldable pub IsInstalled : D → SlotDescriptor → Header → List ℕ → Type 0
  IsInstalled d slot header key =
      IsSigned crypto key memory d slot
      × (load_le32 (memory d slot.manifest_address) 8 ≡ header.manifest.image_version)

  pub status-IsInstalled :
      (d : D) (slot : SlotDescriptor) (header : Header) (key : List ℕ)
      → installed_status crypto (memory d) slot header key ≡ VerifyStatus.ok
      → IsInstalled d slot header key
  unfolding installed_status manifest_matches_header decode_manifest_bytes IsInstalled
  status-IsInstalled d slot header key h =
      let verified =
        signed_image_verify_update_slot_buffer crypto (memory d slot.manifest_address)
          (memory d slot.signature_address) (memory d slot.payload_base) slot.maximum_payload_size
          key slot in
      elim (Result-cases verified) [
        | inr (e, f) ↦
            absurd
              (verify-refusal crypto _ _ _ _ key slot (f ∙ ap (λ x. fail x) (ground (arith, f, h))))
        | inl (_, f) ↦ (verified-IsSigned crypto memory d slot key f, ground (arith, f, h))
      ]

  -- A slot lies off the journal: what is installed there stays while only the journal changes.
  pub IsInstalled-kept :
      (mem : D → ℕ → ℕ)
      → IsMapped memory mem
      → (i : ℕ) (slot : SlotDescriptor) (header : Header) (key : List ℕ) (d e : D)
      → boot_slot_lookup i ≡ some slot
      → ((x : ℕ) → OffJournal x → mem e x ≡ mem d x)
      → IsInstalled d slot header key
      → IsInstalled e slot header key
  unfolding IsInstalled
  IsInstalled-kept mem mapped i slot header key d e found same (signed, version) =
      let (_, _, placed) = lookup-IsWellPlaced i slot found in
      let above : (a : ℕ) → metadata_b_end ≤ a → memory d a ≡ memory e a =
        λ a l. mapped-ext memory mem mapped d e a (λ x u. sym (same x (inr (le_trans l u)))) in
      let m =
        above slot.manifest_address (omega (arith, placed.manifest_first, placed.after_metadata)) in
      let g =
        above slot.signature_address
          (omega (arith, placed.signature_next, placed.manifest_first, placed.after_metadata)) in
      let p = above slot.payload_base (omega (arith, placed.payload_next, placed.after_metadata)) in
      (
        record {
          bootable =
              subst (λ q. IsBootable (memory e slot.manifest_address) q slot) p
                (subst (λ q. IsBootable q (memory d slot.payload_base) slot) m signed.bootable);
          digest =
              subst
                (λ q.
                  crypto.sha512 (take (load_le32 (memory e slot.manifest_address) 16) q)
                  ≡ take 64 (drop 32 (memory e slot.manifest_address)))
                p
                (subst
                  (λ q.
                    crypto.sha512 (take (load_le32 q 16) (memory d slot.payload_base))
                    ≡ take 64 (drop 32 q))
                  m signed.digest);
          signature =
              subst
                (λ q.
                  crypto.ed25519_check q key
                    (take signed_manifest_size (memory e slot.manifest_address))
                  ≡ true)
                g
                (subst
                  (λ q.
                    crypto.ed25519_check (memory d slot.signature_address) key
                      (take signed_manifest_size q)
                    ≡ true)
                  m signed.signature);
        },
        subst (λ q. load_le32 q 8 ≡ header.manifest.image_version) m version,
      )

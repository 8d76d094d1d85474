-- ===== src/Selection/Policy.antt =====
-- firmware/exp045_bootloader_v2/src/boot_policy.c: Stage 0's decision with the verification of signed
-- images, and what it comes to at the jump. `memory` is what the memory-mapped flash holds from an
-- address on.
use stm32_security_lab.Common.{
  ℕ, ◌≡◌, refl, ap, ◌∙◌, Bool, none, some, List, done, fail, arith, load_le32, Result-cases,
  Option-cases, true, take, drop, inl, inr,
}
use stm32_security_lab.Layout.{signed_manifest_size}
use stm32_security_lab.Flash.{Flash, Ops}
use stm32_security_lab.Flash.Target.{boot_flash_target_init_metadata}
use stm32_security_lab.Slot.{SlotDescriptor, boot_slot_lookup}
use stm32_security_lab.Image.Manifest.{VerifyStatus}
use stm32_security_lab.Image.Verify.{Crypto, JumpContext, signed_image_verify_update_slot_buffer}
use stm32_security_lab.Image.Jump.{signed_image_prepare_update_slot_buffer, signed_image_jump}
use stm32_security_lab.Image.Sound.{IsBootable, context_of, verify_slot-IsBootable}
use stm32_security_lab.Image.Launch.{verify_slot-prepare, bootable-jump}
use stm32_security_lab.ResetCause.{reset_cause_trial_result}
use stm32_security_lab.Selection.{
  Status, Selection, Options, zero_context, init_result, boot_slot_selection_select,
}
use stm32_security_lab.Selection.Safe.{select-IsVerified}

module _ {D : Type 0} (crypto : Crypto) (public_key : List ℕ) (memory : D → ℕ → List ℕ) where
  unfoldable pub verify_target_slot : D → SlotDescriptor → Status × JumpContext × VerifyStatus
  verify_target_slot d s =
      let manifest = memory d s.manifest_address in
      let payload = memory d s.payload_base in
      elim (signed_image_verify_update_slot_buffer crypto manifest (memory d s.signature_address)
        payload s.maximum_payload_size public_key s) [
          | fail refused ↦ (Status.verify, zero_context, refused)
          | done _ ↦
              elim (signed_image_prepare_update_slot_buffer manifest payload s.maximum_payload_size
                s) [
                  | fail refused ↦ (Status.verify, zero_context, refused)
                  | done context ↦ (Status.ok, context, VerifyStatus.ok)
                ]
        ]

  abbrev pub target_options : Flash D → ℕ → Options D
  target_options flash reset_csr = record {
    metadata_flash = flash;
    verify_slot = verify_target_slot;
    fault_hook = none;
    trial_reset_result = reset_cause_trial_result reset_csr;
  }

  -- The result is not written when the flash cannot be initialised; it stands as the initial one.
  unfoldable pub boot_policy_select : Bool → Ops D → ℕ → D → Status × Selection × D
  boot_policy_select bounds_valid ops reset_csr d =
      elim (boot_flash_target_init_metadata bounds_valid ops).1 [
        | none ↦ (Status.metadata, init_result, d)
        | some flash ↦ boot_slot_selection_select (target_options flash reset_csr) d
      ]

  -- What stands in a slot whose verification succeeded.
  pub record IsSigned (d : D) (s : SlotDescriptor) : Type 0 where
    pub bootable : IsBootable (memory d s.manifest_address) (memory d s.payload_base) s
    pub digest :
        crypto.sha512 (take (load_le32 (memory d s.manifest_address) 16) (memory d s.payload_base))
        ≡ take 64 (drop 32 (memory d s.manifest_address))
    pub signature :
        crypto.ed25519_check
          (memory d s.signature_address)
          public_key
          (take signed_manifest_size (memory d s.manifest_address))
        ≡ true

  verify_target_slot-IsSigned :
      (d : D) (slot_id : ℕ) (s : SlotDescriptor) (c : JumpContext)
      → boot_slot_lookup slot_id ≡ some s
      → verify_target_slot d s ≡ (Status.ok, c, VerifyStatus.ok)
      → IsSigned d s × (c ≡ context_of (memory d s.manifest_address) (memory d s.payload_base))
  unfolding verify_target_slot
  verify_target_slot-IsSigned d slot_id s c found h =
      let manifest = memory d s.manifest_address in
      let payload = memory d s.payload_base in
      let signature = memory d s.signature_address in
      elim (Result-cases (
        signed_image_verify_update_slot_buffer crypto manifest signature payload
          s.maximum_payload_size public_key s)) [
            | inr (e, f) ↦ absurd (ground arith)
            | inl (_, e) ↦
                let (bootable, digest, signed) =
                  verify_slot-IsBootable crypto manifest signature payload s.maximum_payload_size
                    public_key s e in
                let prepared =
                  verify_slot-prepare crypto manifest signature payload s.maximum_payload_size
                    public_key slot_id s found e in
                (record { bootable = bootable; digest = digest; signature = signed }, ground arith)
          ]

  -- Whatever Stage 0 selects, it has verified: the manifest in the flash is bootable, its payload has the
  -- declared digest and its signature is accepted; and the jump context that it hands on starts the
  -- application on that payload's own vector table, while the flash still holds it.
  pub policy_select-jump :
      (bounds_valid : Bool) (ops : Ops D) (reset_csr : ℕ) (d d' : D) (r : Selection)
      → boot_policy_select bounds_valid ops reset_csr d ≡ (Status.ok, r, d')
      → (at : D) × (s : SlotDescriptor) × (boot_slot_lookup r.selected_slot ≡ some s)
        × IsSigned at s
        × (signed_image_jump (memory at) r.jump_context
            ≡ done (record {
              vtor = s.payload_base;
              msp = load_le32 (memory at s.payload_base) 0;
              entry = load_le32 (memory at s.payload_base) 4;
            }))
  unfolding boot_policy_select
  policy_select-jump bounds_valid ops reset_csr d d' r h =
      elim (Option-cases (boot_flash_target_init_metadata bounds_valid ops).1) [
        | inl e ↦ absurd (ground arith)
        | inr (flash, e) ↦
            let selected : boot_slot_selection_select (target_options flash reset_csr) d
                ≡ (Status.ok, r, d') =
              ground arith in
            let v = select-IsVerified (target_options flash reset_csr) d d' r selected in
            let (signed, context_is) =
              verify_target_slot-IsSigned v.at r.selected_slot v.slot r.jump_context v.found
                v.verified in
            let jump =
              bootable-jump (memory v.at) (memory v.at v.slot.manifest_address)
                (memory v.at v.slot.payload_base) r.selected_slot v.slot v.found signed.bootable
                refl in
            (v.at, v.slot, v.found, signed, ap (signed_image_jump (memory v.at)) context_is ∙ jump)
      ]

-- ===== src/Installer/Verify.antt =====
-- The checks of the payload and of the installed image.
use stm32_security_lab.Common.{
  ℕ, zero, suc, ◌+◌, ◌-◌, Bool, true, not, ◌&&◌, none, some, List, [], ◌++◌, take, ltb, ◌==◌,
  if◌then◌else◌, bytes_eq, u32, done, fail,
}
use stm32_security_lab.Layout.{
  signed_manifest_size, signed_signature_size, signed_image_header_size,
}
use stm32_security_lab.Flash.{FlashStatus, Flash, boot_flash_read}
use stm32_security_lab.Slot.{SlotDescriptor}
use stm32_security_lab.Image.Manifest.{VerifyStatus, Manifest, decode_manifest_bytes}
use stm32_security_lab.Image.Verify.{Crypto, signed_image_verify_update_slot_buffer}
use stm32_security_lab.Package.{Header, all_erased}
use stm32_security_lab.Installer.{InstallStatus, FaultPoint, checked_u32_add, maybe_fault}
use stm32_security_lab.Installer.Session.{Step, ◌|>◌}
use stm32_security_lab.Installer.Blocks.{fault_at, at_most}

unfoldable pub manifest_matches_header : Manifest → Header → Bool
manifest_matches_header installed header =
    let expected = header.manifest in
    installed.magic == expected.magic
    && installed.header_version == expected.header_version
    && installed.image_version == expected.image_version
    && installed.vector_address == expected.vector_address
    && installed.image_size == expected.image_size
    && installed.flags == expected.flags
    && installed.reserved0 == expected.reserved0
    && installed.reserved1 == expected.reserved1
    && bytes_eq installed.payload_sha512 expected.payload_sha512

-- `memcmp` of the bytes at the slot's addresses; the padding lies behind the signature.
unfoldable pub installed_header_matches_expected : (ℕ → List ℕ) → SlotDescriptor → Header → Bool
unfolding all_erased
installed_header_matches_expected memory candidate header =
    let padding_size = signed_image_header_size - (signed_manifest_size + signed_signature_size) in
    bytes_eq (take signed_manifest_size (memory candidate.manifest_address)) header.manifest_bytes
    && bytes_eq (take signed_signature_size (memory candidate.signature_address))
        header.signature_bytes
    && all_erased (take padding_size (memory (candidate.signature_address + signed_signature_size)))

module _ {D : Type 0} where
  -- The loop over the installed payload, with fuel: the bytes that are hashed.
  unfoldable pub hash_chunks : ℕ → Flash D → ℕ → ℕ → ℕ → ℕ → List ℕ → D → InstallStatus × List ℕ × D
  unfolding checked_u32_add
  hash_chunks zero flash base size limit offset ctx d = (InstallStatus.err_state, ctx, d)
  hash_chunks (suc fuel) flash base size limit offset ctx d =
      let chunk = at_most limit (size - offset) in
      let address = u32 (base + u32 offset) in
      let (status, bytes, d') = boot_flash_read flash d address chunk in
      let rest = hash_chunks fuel flash base size limit (offset + chunk) (ctx ++ bytes) d' in
      if not (ltb offset size)
      then (InstallStatus.ok, ctx, d)
      else elim (checked_u32_add base (u32 offset)) [
        | none ↦ (InstallStatus.err_capacity, ctx, d)
        | some _ ↦ elim status [ FlashStatus.ok ↦ rest | _ ↦ (InstallStatus.err_readback, ctx, d') ]
      ]

module _ (crypto : Crypto) where
  -- The verify status of the installed image: its own verification, and the expected header.
  unfoldable pub installed_status : (ℕ → List ℕ) → SlotDescriptor → Header → List ℕ → VerifyStatus
  unfolding manifest_matches_header installed_header_matches_expected
  installed_status memory candidate header public_key =
      elim (signed_image_verify_update_slot_buffer crypto (memory candidate.manifest_address)
        (memory candidate.signature_address) (memory candidate.payload_base)
        candidate.maximum_payload_size public_key candidate) [
          | fail refused ↦ refused
          | done _ ↦
              if manifest_matches_header (decode_manifest_bytes (memory candidate.manifest_address))
                  header
                && installed_header_matches_expected memory candidate header
              then VerifyStatus.ok
              else VerifyStatus.bad_signature
        ]

module _ {D : Type 0} (crypto : Crypto) where
  -- The payload in the flash against the digest of the manifest.
  unfoldable pub hash_payload : Step D
  unfolding hash_chunks maybe_fault
  hash_payload w =
      let s = w.0 in
      let (status, ctx, d) =
        hash_chunks (suc s.header.payload_size) s.restricted_flash s.candidate.payload_base
          s.header.payload_size s.options.readback_buffer_size 0 [] w.1 in
      elim status [
        | InstallStatus.ok ↦
            elim (maybe_fault s.options FaultPoint.hash_complete s.header.manifest.image_version) [
              | InstallStatus.ok ↦
                  if bytes_eq (crypto.sha512 ctx) s.header.manifest.payload_sha512
                  then (InstallStatus.ok, s, d)
                  else (InstallStatus.err_hash, s, d)
              | fault ↦ (fault, s, d)
            ]
        | failed ↦ (failed, s, d)
      ]

  unfoldable pub hash_installed_payload : Step D
  unfolding hash_payload
  hash_installed_payload =
      fault_at FaultPoint.hash_begin (λ s. s.header.manifest.image_version) |> hash_payload

  unfoldable pub verify_streaming_payload_hash : Step D
  verify_streaming_payload_hash w =
      let s = record w.0 { payload_hash_finalized = true } in
      if bytes_eq (crypto.sha512 s.payload_hash_ctx) s.header.manifest.payload_sha512
      then (InstallStatus.ok, s, w.1)
      else (InstallStatus.err_hash, s, w.1)

  unfoldable pub verify_image : (D → ℕ → List ℕ) → Step D
  unfolding installed_status
  verify_image memory w =
      let verified = installed_status crypto (memory w.1) w.0.candidate w.0.header w.0.public_key in
      let s = record w.0 { result = record w.0.result { installed_verify_status = verified } } in
      elim verified [
        | VerifyStatus.ok ↦ (InstallStatus.ok, s, w.1)
        | _ ↦ (InstallStatus.err_installed_verify, s, w.1)
      ]

  unfoldable pub verify_installed_package : (D → ℕ → List ℕ) → Step D
  unfolding verify_image
  verify_installed_package memory =
      fault_at FaultPoint.verify_installed (λ s. s.header.manifest.image_version)
      |> verify_image memory

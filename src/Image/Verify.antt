-- ===== src/Image/Verify.antt =====
-- signed_image.c: the vector table, and the verification of a whole image.
use stm32_security_lab.Common.{
  ℕ, ◌-◌, Bool, true, false, ◌||◌, not, List, take, ltb, leb, ◌==◌, bytes_eq, load_le32, Result,
  done, refuse_if, ◌>>=◌, ◌>>◌,
}
use stm32_security_lab.Layout.{
  signed_manifest_size, application_base, application_flash_end, slot_payload_max_size,
}
use stm32_security_lab.Slot.{SlotDescriptor}
use stm32_security_lab.Image.Manifest.{
  VerifyStatus, Manifest, Policy, decode_manifest_bytes, validate_manifest_header,
  validate_payload_range, validate_payload_range_independent, validate_application_msp,
  validate_application_reset, clear_bit0, signed_header_version, update_package_format_version,
  update_package_target, update_package_image_type, allowed_flags,
}

-- Monocypher: `crypto_sha512`, and whether `crypto_ed25519_check` returns 0 for a signature, a public
-- key and a message.
pub record Crypto : Type 0 where
  pub sha512 : List ℕ → List ℕ
  pub ed25519_check : List ℕ → List ℕ → List ℕ → Bool

pub record Vector : Type 0 where
  pub initial_msp : ℕ
  pub reset_vector : ℕ
  pub reset_address : ℕ

pub record JumpContext : Type 0 where
  pub vector_address : ℕ
  pub image_size : ℕ
  pub payload_end : ℕ
  pub initial_msp : ℕ
  pub reset_vector : ℕ
  pub reset_address : ℕ

unfoldable pub read_application_vector : List ℕ → Vector
read_application_vector payload = record {
  initial_msp = load_le32 payload 0;
  reset_vector = load_le32 payload 4;
  reset_address = clear_bit0 (load_le32 payload 4);
}

-- The output is the jump context, which the verification itself does not ask for.
unfoldable pub validate_vector_table :
    Manifest → Policy → List ℕ → ℕ → Result VerifyStatus JumpContext
unfolding read_application_vector
validate_vector_table m policy payload payload_end = do
  let vector = read_application_vector payload
  validate_application_msp vector.initial_msp
  validate_application_reset vector.reset_vector vector.reset_address m.vector_address payload_end
      policy.payload_flash_end
  done (record {
    vector_address = m.vector_address;
    image_size = m.image_size;
    payload_end = payload_end;
    initial_msp = vector.initial_msp;
    reset_vector = vector.reset_vector;
    reset_address = vector.reset_address;
  })

-- The checks that the verification and the preparation of the jump share: manifest, range, capacity
-- and vector table.
unfoldable pub validate_image : Manifest → Policy → List ℕ → ℕ → Result VerifyStatus JumpContext
validate_image m policy payload payload_capacity = do
  validate_manifest_header m policy
  payload_end ← validate_payload_range m policy
  validate_payload_range_independent m policy payload_end
  refuse_if (ltb payload_capacity m.image_size) VerifyStatus.bad_payload_range
  validate_vector_table m policy payload payload_end

abbrev pub update_policy : SlotDescriptor → Policy
update_policy slot = record {
  header_version = update_package_format_version;
  vector_address = slot.payload_base;
  payload_flash_end = slot.slot_end;
  maximum_payload_size = slot.maximum_payload_size;
  allowed_flags_mask = allowed_flags;
  target_compatibility = update_package_target;
  image_type = update_package_image_type;
  require_update_fields = true;
}

-- `signed_image_verify_buffer`'s policy: the single-image format of header version 1.
abbrev pub legacy_policy : Policy
legacy_policy = record {
  header_version = signed_header_version;
  vector_address = application_base;
  payload_flash_end = application_flash_end;
  maximum_payload_size = slot_payload_max_size;
  allowed_flags_mask = allowed_flags;
  target_compatibility = 0;
  image_type = 0;
  require_update_fields = false;
}

unfoldable pub slot_is_consistent : SlotDescriptor → Bool
slot_is_consistent slot = not (
    leb slot.payload_base slot.signed_image_base
    || leb slot.slot_end slot.payload_base
    || not (slot.maximum_payload_size == slot.slot_end - slot.payload_base))

module _ (crypto : Crypto) where
  unfoldable pub verify_buffer_with_policy :
      List ℕ → List ℕ → List ℕ → ℕ → List ℕ → Policy → Result VerifyStatus (Unit {0})
  verify_buffer_with_policy manifest signature payload payload_capacity public_key policy = do
    let m = decode_manifest_bytes manifest
    context ← validate_image m policy payload payload_capacity
    refuse_if (not (bytes_eq (crypto.sha512 (take m.image_size payload)) m.payload_sha512))
        VerifyStatus.bad_payload_hash
    refuse_if (not (crypto.ed25519_check signature public_key (take signed_manifest_size manifest)))
        VerifyStatus.bad_signature

  unfoldable pub signed_image_verify_buffer :
      List ℕ → List ℕ → List ℕ → ℕ → List ℕ → Result VerifyStatus (Unit {0})
  unfolding verify_buffer_with_policy
  signed_image_verify_buffer manifest signature payload payload_capacity public_key =
      verify_buffer_with_policy manifest signature payload payload_capacity public_key legacy_policy

  unfoldable pub signed_image_verify_update_slot_buffer :
      List ℕ → List ℕ → List ℕ → ℕ → List ℕ → SlotDescriptor → Result VerifyStatus (Unit {0})
  signed_image_verify_update_slot_buffer manifest signature payload payload_capacity public_key
        slot =
      do
        refuse_if (not (slot_is_consistent slot)) VerifyStatus.bad_payload_range
        verify_buffer_with_policy manifest signature payload payload_capacity public_key
            (update_policy slot)

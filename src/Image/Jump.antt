-- ===== src/Image/Jump.antt =====
-- signed_image.c: the jump context, from its preparation to the registers that the jump leaves.
use stm32_security_lab.Common.{
  ℕ, ◌%◌, ◌||◌, not, Option, none, some, List, ltb, leb, ◌==◌, if◌then◌else◌, Result, done, fail,
  refuse_if, ◌>>=◌, ◌>>◌,
}
use stm32_security_lab.Layout.{application_vtor_alignment}
use stm32_security_lab.Slot.{SlotDescriptor, boot_slot_lookup}
use stm32_security_lab.Image.Manifest.{
  VerifyStatus, decode_manifest_bytes, checked_u32_add, u32_equal_redundant,
  validate_manifest_header, validate_payload_range, validate_payload_range_independent,
  validate_application_msp, validate_application_reset, vector_min_size,
}
use stm32_security_lab.Image.Verify.{
  Vector, JumpContext, read_application_vector, validate_vector_table, validate_image,
  update_policy, legacy_policy, slot_is_consistent,
}

-- One of the two lookups of `slot_for_vector_address`.
unfoldable pub slot_at_vector : ℕ → ℕ → Option SlotDescriptor
slot_at_vector slot_id vector_address = elim (boot_slot_lookup slot_id) [
  | none ↦ none
  | some slot ↦ if slot.payload_base == vector_address then some slot else none
]

unfoldable pub slot_for_vector_address : ℕ → Result VerifyStatus SlotDescriptor
unfolding slot_at_vector
slot_for_vector_address vector_address = elim (slot_at_vector 0 vector_address) [
  | some slot ↦ done slot
  | none ↦ elim (slot_at_vector 1 vector_address) [
    | some slot ↦ done slot
    | none ↦ fail VerifyStatus.bad_vector_address
  ]
]

-- `validate_jump_context` once the slot of the vector address is known.
unfoldable pub validate_context_in : SlotDescriptor → JumpContext → Result VerifyStatus (Unit {0})
validate_context_in slot context = do
  refuse_if (not (context.vector_address % application_vtor_alignment == 0))
      VerifyStatus.bad_vector_address
  refuse_if (ltb context.image_size vector_min_size) VerifyStatus.bad_size
  refuse_if (ltb slot.maximum_payload_size context.image_size) VerifyStatus.bad_size
  elim (checked_u32_add context.vector_address context.image_size) [
    | none ↦ fail VerifyStatus.bad_payload_range
    | some recomputed_payload_end ↦ do
      refuse_if (not (u32_equal_redundant recomputed_payload_end context.payload_end))
          VerifyStatus.bad_payload_range
      refuse_if
          (leb context.payload_end context.vector_address || ltb slot.slot_end context.payload_end)
          VerifyStatus.bad_payload_range
      validate_application_msp context.initial_msp
      validate_application_reset context.reset_vector context.reset_address context.vector_address
          context.payload_end slot.slot_end
  ]

unfoldable pub validate_jump_context : JumpContext → Result VerifyStatus (Unit {0})
unfolding validate_context_in
validate_jump_context context = do
  slot ← slot_for_vector_address context.vector_address
  validate_context_in slot context

unfoldable pub signed_image_prepare_update_slot_buffer :
    List ℕ → List ℕ → ℕ → SlotDescriptor → Result VerifyStatus JumpContext
signed_image_prepare_update_slot_buffer manifest payload payload_capacity slot = do
  refuse_if (not (slot_is_consistent slot)) VerifyStatus.bad_payload_range
  context ←
      validate_image (decode_manifest_bytes manifest) (update_policy slot) payload payload_capacity
  validate_jump_context context
  done context

-- `payload` stands for the flash at `APPLICATION_BASE_ADDRESS`.
unfoldable pub signed_image_prepare_jump : List ℕ → List ℕ → Result VerifyStatus JumpContext
signed_image_prepare_jump manifest payload = do
  let m = decode_manifest_bytes manifest
  validate_manifest_header m legacy_policy
  payload_end ← validate_payload_range m legacy_policy
  validate_payload_range_independent m legacy_policy payload_end
  context ← validate_vector_table m legacy_policy payload payload_end
  validate_jump_context context
  done context

unfoldable pub vector_matches : Vector → JumpContext → Result VerifyStatus (Unit {0})
vector_matches vector context = do
  refuse_if (not (u32_equal_redundant vector.initial_msp context.initial_msp))
      VerifyStatus.bad_stack
  refuse_if
      (not (u32_equal_redundant vector.reset_vector context.reset_vector)
        || not (u32_equal_redundant vector.reset_address context.reset_address))
      VerifyStatus.bad_reset_vector

-- The registers with which the application starts.
pub record Launch : Type 0 where
  pub vtor : ℕ
  pub msp : ℕ
  pub entry : ℕ

-- `flash` gives the bytes that the flash holds from an address on.
module _ (flash : ℕ → List ℕ) where
  unfoldable pub confirm_jump_context_matches_flash : JumpContext → Result VerifyStatus (Unit {0})
  unfolding vector_matches
  confirm_jump_context_matches_flash context = do
    slot ← slot_for_vector_address context.vector_address
    let vector = read_application_vector (flash context.vector_address)
    vector_matches vector context
    validate_application_msp vector.initial_msp
    validate_application_reset vector.reset_vector vector.reset_address context.vector_address
        context.payload_end slot.slot_end

  -- An application that returns from its entry makes the source return `VERIFY_BAD_RESET_VECTOR`;
  -- here the result is the state at the entry.
  unfoldable pub signed_image_jump : JumpContext → Result VerifyStatus Launch
  signed_image_jump context = do
    validate_jump_context context
    confirm_jump_context_matches_flash context
    done (record {
      vtor = context.vector_address;
      msp = context.initial_msp;
      entry = context.reset_vector;
    })

-- ===== src/Image/Launch.antt =====
-- From an accepted image to the jump: the prepared context, and the registers at the entry.
use stm32_security_lab.Common.{
  ℕ, ◌+◌, ◌-◌, ◌%◌, ◌≤◌, ◌<◌, ◌≡◌, refl, ap, ◌∙◌, not, some, List, arith, load_le32, bit_xor,
  bit_xor_self, u32, done, refuse_if, ◌>>=◌,
}
use stm32_security_lab.Slot.{SlotDescriptor, boot_slot_lookup}
use stm32_security_lab.Image.Manifest.{
  VerifyStatus, decode_manifest_bytes, checked_u32_add, u32_equal_redundant,
  validate_application_msp, validate_application_reset, clear_bit0,
}
use stm32_security_lab.Image.Verify.{
  Crypto, Vector, JumpContext, read_application_vector, validate_image, update_policy,
  slot_is_consistent, verify_buffer_with_policy, signed_image_verify_update_slot_buffer,
}
use stm32_security_lab.Image.Jump.{
  slot_at_vector, slot_for_vector_address, validate_context_in, validate_jump_context,
  vector_matches, signed_image_prepare_update_slot_buffer, confirm_jump_context_matches_flash,
  signed_image_jump,
}
use stm32_security_lab.Image.Sound.{
  IsBootable, context_of, then-inv, bind-inv, image-IsBootable, context_eq,
}

slot_for_payload :
    (slot_id : ℕ) (slot : SlotDescriptor)
    → boot_slot_lookup slot_id ≡ some slot
    → slot_for_vector_address slot.payload_base ≡ done slot
unfolding boot_slot_lookup slot_for_vector_address slot_at_vector
slot_for_payload slot_id slot h = ground arith

slot_ok :
    (slot_id : ℕ) (slot : SlotDescriptor)
    → boot_slot_lookup slot_id ≡ some slot
    → (slot.payload_base % 256 ≡ 0)
      × (slot.slot_end ≤ 0x080E0000)
      × (slot.maximum_payload_size ≡ slot.slot_end - slot.payload_base)
      × (slot.payload_base ≤ slot.slot_end)
unfolding boot_slot_lookup
slot_ok slot_id slot h = ground arith

-- The checks of the jump context, on the numbers of an accepted image.
context_passes :
    (slot : SlotDescriptor) (size msp reset : ℕ)
    → slot.payload_base % 256 ≡ 0
    → slot.slot_end ≤ 0x080E0000
    → slot.maximum_payload_size ≡ slot.slot_end - slot.payload_base
    → 8 ≤ size
    → slot.payload_base + size ≤ slot.slot_end
    → (0x20000000 < msp) × (msp ≤ 0x20020000) × (msp % 8 ≡ 0)
    → (reset % 2 ≡ 1) × (slot.payload_base < reset) × (reset ≤ slot.payload_base + size)
    → validate_context_in slot (record {
      vector_address = slot.payload_base;
      image_size = size;
      payload_end = slot.payload_base + size;
      initial_msp = msp;
      reset_vector = reset;
      reset_address = clear_bit0 reset;
    })
      ≡ done tt
unfolding validate_context_in checked_u32_add u32_equal_redundant validate_application_msp
    validate_application_reset
context_passes slot size msp reset aligned below capacity short inside stack entry =
    let no_xor : bit_xor (slot.payload_base + size) (slot.payload_base + size) ≡ 0 =
      bit_xor_self (slot.payload_base + size) in
    let small : u32 (slot.payload_base + size) ≡ slot.payload_base + size = omega arith in
    ground arith

bootable-validates :
    (manifest payload : List ℕ) (slot_id : ℕ) (slot : SlotDescriptor)
    → boot_slot_lookup slot_id ≡ some slot
    → IsBootable manifest payload slot
    → validate_jump_context (context_of manifest payload) ≡ done tt
unfolding validate_jump_context
bootable-validates manifest payload slot_id slot found b =
    let (aligned, below, capacity, ordered) = slot_ok slot_id slot found in
    let size = load_le32 manifest 16 in
    let msp = load_le32 payload 0 in
    let reset = load_le32 payload 4 in
    let at_slot : JumpContext = record {
      vector_address = slot.payload_base;
      image_size = size;
      payload_end = slot.payload_base + size;
      initial_msp = msp;
      reset_vector = reset;
      reset_address = clear_bit0 reset;
    } in
    let same : context_of manifest payload ≡ at_slot =
      context_eq _ _ b.address refl (ap (λ a. a + size) b.address) refl refl refl in
    let passes =
      context_passes slot size msp reset aligned below capacity b.not_short b.inside
        (b.stack_above, b.stack_below, b.stack_aligned) (b.thumb, b.entry_above, b.entry_below) in
    ap validate_jump_context same
    ∙ ap (λ r. r >>= λ s. validate_context_in s at_slot) (slot_for_payload slot_id slot found)
    ∙ passes

-- The image of slot A or B that the verification accepts is always prepared for the jump: the checks of
-- the jump context never refuse it, and the context holds the image's own vector table.
pub verify_slot-prepare :
    (crypto : Crypto) (manifest signature payload : List ℕ) (capacity : ℕ) (key : List ℕ)
    (slot_id : ℕ) (slot : SlotDescriptor)
    → boot_slot_lookup slot_id ≡ some slot
    → signed_image_verify_update_slot_buffer crypto manifest signature payload capacity key slot
      ≡ done tt
    → signed_image_prepare_update_slot_buffer manifest payload capacity slot
      ≡ done (context_of manifest payload)
unfolding signed_image_prepare_update_slot_buffer signed_image_verify_update_slot_buffer
    verify_buffer_with_policy
verify_slot-prepare crypto manifest signature payload capacity key slot_id slot found h =
    let (consistent, h1) =
      then-inv (refuse_if (not (slot_is_consistent slot)) VerifyStatus.bad_payload_range) _ tt h in
    let (c, image, h2) =
      bind-inv
        (validate_image (decode_manifest_bytes manifest) (update_policy slot) payload capacity) _ tt
        h1 in
    let (bootable, same) = image-IsBootable manifest payload slot capacity c image in
    let valid = bootable-validates manifest payload slot_id slot found bootable in
    let image' = image ∙ ap done same in rw (consistent, image', valid) refl

vector_passes :
    (msp reset base size : ℕ) (slot_end : ℕ)
    → (0x20000000 < msp) × (msp ≤ 0x20020000) × (msp % 8 ≡ 0)
    → (reset % 2 ≡ 1) × (base < reset) × (reset ≤ base + size)
    → base + size ≤ slot_end
    → (validate_application_msp msp ≡ done tt)
      × (validate_application_reset reset (clear_bit0 reset) base (base + size) slot_end ≡ done tt)
unfolding validate_application_msp validate_application_reset
vector_passes msp reset base size slot_end stack entry inside = ground arith

vector_matches_self :
    (v : Vector) (c : JumpContext)
    → v.initial_msp ≡ c.initial_msp
    → v.reset_vector ≡ c.reset_vector
    → v.reset_address ≡ c.reset_address
    → vector_matches v c ≡ done tt
unfolding vector_matches u32_equal_redundant
vector_matches_self v c e f g =
    ground
      (arith, bit_xor_self v.initial_msp, bit_xor_self v.reset_vector, bit_xor_self v.reset_address)

confirm_done :
    (flash : ℕ → List ℕ) (c : JumpContext) (slot : SlotDescriptor) (v : Vector)
    → slot_for_vector_address c.vector_address ≡ done slot
    → read_application_vector (flash c.vector_address) ≡ v
    → vector_matches v c ≡ done tt
    → validate_application_msp v.initial_msp ≡ done tt
    → validate_application_reset v.reset_vector v.reset_address c.vector_address c.payload_end
        slot.slot_end
      ≡ done tt
    → confirm_jump_context_matches_flash flash c ≡ done tt
unfolding confirm_jump_context_matches_flash
confirm_done flash c slot v found read matched stack entry =
    rw (found, read, matched, stack, entry) refl

jump_done :
    (flash : ℕ → List ℕ) (c : JumpContext)
    → validate_jump_context c ≡ done tt
    → confirm_jump_context_matches_flash flash c ≡ done tt
    → signed_image_jump flash c
      ≡ done (record { vtor = c.vector_address; msp = c.initial_msp; entry = c.reset_vector })
unfolding signed_image_jump
jump_done flash c valid confirmed = rw (valid, confirmed) refl

-- The context of a bootable image is jumped to while the flash at its slot still holds the payload that
-- was verified: the application starts on the payload's own stack pointer and entry.
pub bootable-jump :
    (flash : ℕ → List ℕ) (manifest payload : List ℕ) (slot_id : ℕ) (slot : SlotDescriptor)
    → boot_slot_lookup slot_id ≡ some slot
    → IsBootable manifest payload slot
    → flash slot.payload_base ≡ payload
    → signed_image_jump flash (context_of manifest payload)
      ≡ done (record {
        vtor = slot.payload_base;
        msp = load_le32 payload 0;
        entry = load_le32 payload 4;
      })
unfolding read_application_vector
bootable-jump flash manifest payload slot_id slot found b held =
    let valid = bootable-validates manifest payload slot_id slot found b in
    let at_slot = slot_for_payload slot_id slot found in
    let address = b.address in
    let vector = read_application_vector payload in
    let matched = vector_matches_self vector (context_of manifest payload) refl refl refl in
    let (stack, entry) =
      vector_passes (load_le32 payload 0) (load_le32 payload 4) slot.payload_base
        (load_le32 manifest 16) slot.slot_end (b.stack_above, b.stack_below, b.stack_aligned)
        (b.thumb, b.entry_above, b.entry_below) b.inside in
    let c = context_of manifest payload in
    let confirmed =
      confirm_done flash c slot vector (ap slot_for_vector_address address ∙ at_slot)
        (ap read_application_vector (ap flash address ∙ held)) matched stack (rw address entry) in
    jump_done flash c valid confirmed
    ∙ ap (λ a. done (record { vtor = a; msp = load_le32 payload 0; entry = load_le32 payload 4 }))
        address

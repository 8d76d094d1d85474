-- ===== src/Image/Entry.antt =====
-- The jump itself: what a jump that is made starts.
use stm32_security_lab.Common.{ℕ, ◌%◌, ◌≤◌, ◌<◌, ◌≡◌, ◌⊎◌, sym, List, arith, load_le32, done}
use stm32_security_lab.Slot.{SlotDescriptor, boot_slot_lookup, slot_a_descriptor, slot_b_descriptor}
use stm32_security_lab.Image.Manifest.{
  u32_equal_redundant, validate_application_msp, validate_application_reset,
}
use stm32_security_lab.Image.Verify.{Vector, JumpContext, read_application_vector}
use stm32_security_lab.Image.Jump.{
  slot_at_vector, slot_for_vector_address, validate_context_in, validate_jump_context,
  vector_matches, Launch, confirm_jump_context_matches_flash, signed_image_jump,
}
use stm32_security_lab.Image.Sound.{then-inv, bind-inv, msp-inv, reset-inv}

slot_for_inv :
    (v : ℕ) (slot : SlotDescriptor)
    → slot_for_vector_address v ≡ done slot
    → (v ≡ slot.payload_base) × ((slot ≡ slot_a_descriptor) ⊎ (slot ≡ slot_b_descriptor))
unfolding boot_slot_lookup slot_for_vector_address slot_at_vector
slot_for_inv v slot h = ground arith

-- What the application starts with: the vector table of one of the two slots, a stack pointer in SRAM
-- that is 8-byte aligned, and a Thumb entry point inside the payload that the context declares, which
-- lies inside that slot.
pub record IsLaunchable (flash : ℕ → List ℕ) (context : JumpContext) (l : Launch) : Type 0 where
  pub slot : SlotDescriptor
  pub known : (slot ≡ slot_a_descriptor) ⊎ (slot ≡ slot_b_descriptor)
  pub vtor : l.vtor ≡ slot.payload_base
  pub msp : l.msp ≡ load_le32 (flash l.vtor) 0
  pub entry : l.entry ≡ load_le32 (flash l.vtor) 4
  pub msp_in_sram : (0x20000000 < l.msp) × (l.msp ≤ 0x20020000) × (l.msp % 8 ≡ 0)
  pub thumb : l.entry % 2 ≡ 1
  pub entry_inside : (slot.payload_base < l.entry) × (l.entry ≤ context.payload_end)
  pub payload_inside : context.payload_end ≤ slot.slot_end

context-inv :
    (slot : SlotDescriptor) (c : JumpContext)
    → validate_context_in slot c ≡ done tt
    → (c.payload_end ≤ slot.slot_end)
      × (validate_application_msp c.initial_msp ≡ done tt)
      × (validate_application_reset c.reset_vector c.reset_address c.vector_address c.payload_end
            slot.slot_end
          ≡ done tt)
unfolding validate_context_in
context-inv slot c h = ground arith

matches-inv :
    (v : Vector) (c : JumpContext)
    → vector_matches v c ≡ done tt
    → (v.initial_msp ≡ c.initial_msp) × (v.reset_vector ≡ c.reset_vector)
unfolding vector_matches u32_equal_redundant
matches-inv v c h = ground arith

confirm-inv :
    (flash : ℕ → List ℕ) (context : JumpContext)
    → confirm_jump_context_matches_flash flash context ≡ done tt
    → (load_le32 (flash context.vector_address) 0 ≡ context.initial_msp)
      × (load_le32 (flash context.vector_address) 4 ≡ context.reset_vector)
unfolding confirm_jump_context_matches_flash read_application_vector
confirm-inv flash context h =
    let (slot, found, h3) = bind-inv (slot_for_vector_address context.vector_address) _ tt h in
    let (matched, h4) =
      then-inv (vector_matches (read_application_vector (flash context.vector_address)) context) _
        tt h3 in
    matches-inv (read_application_vector (flash context.vector_address)) context matched

jump-inv :
    (flash : ℕ → List ℕ) (context : JumpContext) (l : Launch)
    → signed_image_jump flash context ≡ done l
    → (validate_jump_context context ≡ done tt)
      × (confirm_jump_context_matches_flash flash context ≡ done tt)
      × (l ≡ record {
        vtor = context.vector_address;
        msp = context.initial_msp;
        entry = context.reset_vector;
      })
unfolding signed_image_jump
jump-inv flash context l h =
    let (valid, h1) = then-inv (validate_jump_context context) _ l h in
    let (confirmed, h2) = then-inv (confirm_jump_context_matches_flash flash context) _ l h1 in
    (valid, confirmed, ground arith)

-- A jump that is made starts the application from the vector table that the flash holds now, which is
-- what `IsLaunchable` lists.
pub jump-IsLaunchable :
    (flash : ℕ → List ℕ) (context : JumpContext) (l : Launch)
    → signed_image_jump flash context ≡ done l
    → IsLaunchable flash context l
unfolding signed_image_jump validate_jump_context confirm_jump_context_matches_flash
    read_application_vector
jump-IsLaunchable flash context l h =
    let (valid, confirmed, started) = jump-inv flash context l h in
    let (slot, found, checks) =
      bind-inv (slot_for_vector_address context.vector_address) (λ s. validate_context_in s context)
        tt valid in
    let (address, known) = slot_for_inv context.vector_address slot found in
    let (inside, stack, reset) = context-inv slot context checks in
    let (s1, s2, s3) = msp-inv context.initial_msp stack in
    let (v1, v2, v3, v4, v5) =
      reset-inv context.reset_vector context.reset_address context.vector_address
        context.payload_end slot.slot_end reset in
    let (m1, m2) = confirm-inv flash context confirmed in
    rw (started) (record {
      slot = slot;
      known = known;
      vtor = address;
      msp = sym m1;
      entry = sym m2;
      msp_in_sram = (s1, s2, s3);
      thumb = v1;
      entry_inside = omega arith;
      payload_inside = inside;
    })

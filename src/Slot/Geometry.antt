-- ===== src/Slot/Geometry.antt =====
-- Where the slots lie in the flash.
use stm32_security_lab.Common.{ℕ, ◌+◌, ◌%◌, ◌≤◌, ◌<◌, ◌≡◌, ◌≢◌, ◌⊎◌, some, arith}
use stm32_security_lab.Layout.{
  metadata_b_end, recovery_base, signed_manifest_size, signed_image_header_size,
}
use stm32_security_lab.Slot.{SlotDescriptor, boot_slot_lookup}

-- The layout of one slot: manifest, signature and payload follow one another up to the slot's end, and
-- the payload base can hold a vector table.
pub record IsWellPlaced (s : SlotDescriptor) : Type 0 where
  pub manifest_first : s.manifest_address ≡ s.signed_image_base
  pub signature_next : s.signature_address ≡ s.manifest_address + signed_manifest_size
  pub payload_next : s.payload_base ≡ s.signed_image_base + signed_image_header_size
  pub capacity : s.payload_base + s.maximum_payload_size ≡ s.slot_end
  pub vtor_aligned : s.payload_base % 256 ≡ 0
  pub after_metadata : metadata_b_end ≤ s.signed_image_base
  pub before_recovery : s.slot_end ≤ recovery_base

-- A lookup succeeds for the two slot numbers only, and gives the slot of that number, well placed.
pub lookup-IsWellPlaced :
    (slot_id : ℕ) (s : SlotDescriptor)
    → boot_slot_lookup slot_id ≡ some s
    → (slot_id < 2) × (s.id ≡ slot_id) × IsWellPlaced s
unfolding boot_slot_lookup
lookup-IsWellPlaced slot_id s h = ground arith

-- Two different slots share no byte.
pub lookup_disjoint :
    (i j : ℕ) (s t : SlotDescriptor)
    → boot_slot_lookup i ≡ some s
    → boot_slot_lookup j ≡ some t
    → i ≢ j
    → (s.slot_end ≤ t.signed_image_base) ⊎ (t.slot_end ≤ s.signed_image_base)
unfolding boot_slot_lookup
lookup_disjoint i j s t hs ht ne = ground arith

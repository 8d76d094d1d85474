-- ===== src/Slot.antt =====
-- firmware/exp045_bootloader_v2/src/boot_slot.c: the two image slots.
pub mod Geometry
use stm32_security_lab.Common.{
  ℕ, ◌+◌, Bool, true, false, not, Option, none, some, leb, ◌==◌, if◌then◌else◌,
}
use stm32_security_lab.Layout.{
  slot_a_signed_image_base, slot_a_end, slot_b_signed_image_base, slot_b_end, slot_payload_max_size,
  signed_manifest_size, signed_image_header_size,
}

pub record SlotDescriptor : Type 0 where
  pub id : ℕ
  pub signed_image_base : ℕ
  pub manifest_address : ℕ
  pub signature_address : ℕ
  pub payload_base : ℕ
  pub slot_end : ℕ
  pub maximum_payload_size : ℕ
  pub first_sector : ℕ
  pub last_sector : ℕ

-- `boot_slots[0]` and `boot_slots[1]`.
abbrev pub slot_a_descriptor : SlotDescriptor
slot_a_descriptor = record {
  id = 0;
  signed_image_base = slot_a_signed_image_base;
  manifest_address = slot_a_signed_image_base;
  signature_address = 0x08020060;
  payload_base = 0x08020200;
  slot_end = slot_a_end;
  maximum_payload_size = slot_payload_max_size;
  first_sector = 5;
  last_sector = 7;
}

abbrev pub slot_b_descriptor : SlotDescriptor
slot_b_descriptor = record {
  id = 1;
  signed_image_base = slot_b_signed_image_base;
  manifest_address = slot_b_signed_image_base;
  signature_address = 0x08080060;
  payload_base = 0x08080200;
  slot_end = slot_b_end;
  maximum_payload_size = slot_payload_max_size;
  first_sector = 8;
  last_sector = 10;
}

-- `boot_slots[slot_id]`, in the table of two.
abbrev boot_slots : ℕ → SlotDescriptor
boot_slots slot_id = if slot_id == 0 then slot_a_descriptor else slot_b_descriptor

unfoldable pub boot_slot_lookup : ℕ → Option SlotDescriptor
boot_slot_lookup slot_id =
    if leb 2 slot_id
    then none
    else if not ((boot_slots slot_id).id == slot_id)
    then none
    else some (boot_slots slot_id)

unfoldable pub boot_slot_default : SlotDescriptor
boot_slot_default = slot_a_descriptor

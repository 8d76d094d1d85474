-- ===== src/Layout.antt =====
-- The memory layout of the 1 MiB profile: firmware/common/stm32f429_memory_layout.h.
use stm32_security_lab.Common.{ℕ}

abbrev pub flash_base : ℕ
flash_base = 0x08000000

abbrev pub flash_end : ℕ
flash_end = 0x08100000

abbrev pub flash_sector_count : ℕ
flash_sector_count = 12

abbrev pub bootloader_end : ℕ
bootloader_end = 0x08008000

abbrev pub metadata_format_version : ℕ
metadata_format_version = 1

abbrev pub metadata_record_size : ℕ
metadata_record_size = 0x80

abbrev pub metadata_a_base : ℕ
metadata_a_base = 0x08008000

abbrev pub metadata_a_first_sector : ℕ
metadata_a_first_sector = 2

abbrev pub metadata_b_base : ℕ
metadata_b_base = 0x0800C000

abbrev pub metadata_b_first_sector : ℕ
metadata_b_first_sector = 3

abbrev pub metadata_b_end : ℕ
metadata_b_end = 0x08010000

abbrev pub slot_a_signed_image_base : ℕ
slot_a_signed_image_base = 0x08020000

abbrev pub slot_a_end : ℕ
slot_a_end = 0x08080000

abbrev pub slot_b_signed_image_base : ℕ
slot_b_signed_image_base = 0x08080000

abbrev pub slot_b_end : ℕ
slot_b_end = 0x080E0000

abbrev pub slot_payload_max_size : ℕ
slot_payload_max_size = 0x5FE00

abbrev pub signed_manifest_size : ℕ
signed_manifest_size = 0x60

abbrev pub signed_signature_size : ℕ
signed_signature_size = 0x40

abbrev pub signed_image_header_size : ℕ
signed_image_header_size = 0x200

abbrev pub application_base : ℕ
application_base = 0x08020200

abbrev pub application_flash_end : ℕ
application_flash_end = 0x08080000

abbrev pub application_min_size : ℕ
application_min_size = 8

abbrev pub application_msp_base : ℕ
application_msp_base = 0x20000000

abbrev pub application_msp_end : ℕ
application_msp_end = 0x20020000

abbrev pub recovery_base : ℕ
recovery_base = 0x080E0000

abbrev pub application_vtor_alignment : ℕ
application_vtor_alignment = 0x100

-- ===== src/Flash/Target.antt =====
-- firmware/exp045_bootloader_v2/src/boot_flash_target.c: the flash handle for the boot metadata.
-- Whether the RAM function bounds of the linker script hold is an argument, and so is the register
-- back end `writable_ops`.
use stm32_security_lab.Common.{
  ℕ, ◌≡◌, refl, Bool, true, false, not, Option, none, some, List, [], ◌∷◌, if◌then◌else◌,
}
use stm32_security_lab.Layout.{flash_base, flash_end}
use stm32_security_lab.Flash.{
  FlashStatus, Flash, Ops, Region, boot_flash_init, is_power_of_two, regions_in_flash,
}

abbrev pub program_alignment : ℕ
program_alignment = 1

abbrev pub metadata_write_regions : List Region
metadata_write_regions =
    record { base = 0x08008000; end = 0x0800C000 }
    ∷ record { base = 0x0800C000; end = 0x08010000 }
    ∷ []

module _ {D : Type 0} where
  unfoldable pub boot_flash_target_init_metadata : Bool → Ops D → FlashStatus × Option (Flash D)
  boot_flash_target_init_metadata ramfunc_bounds_valid ops =
      if not ramfunc_bounds_valid
      then (FlashStatus.backend, none)
      else boot_flash_init ops metadata_write_regions program_alignment

  -- The handle that the initialisation gives.
  abbrev pub metadata_flash : Ops D → Flash D
  metadata_flash ops = record {
    flash_base = flash_base;
    flash_end = flash_end;
    program_alignment = program_alignment;
    write_regions = metadata_write_regions;
    ops = ops;
  }

  -- With the bounds of the linker script the initialisation passes its own checks.
  pub init_metadata_ok :
      (ops : Ops D)
      → boot_flash_target_init_metadata true ops ≡ (FlashStatus.ok, some (metadata_flash ops))
  unfolding boot_flash_target_init_metadata boot_flash_init is_power_of_two regions_in_flash
  init_metadata_ok ops = refl

  pub init_metadata_refused :
      (ops : Ops D) → boot_flash_target_init_metadata false ops ≡ (FlashStatus.backend, none)
  unfolding boot_flash_target_init_metadata
  init_metadata_refused ops = refl

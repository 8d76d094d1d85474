-- ===== src/Flash/Sectors.antt =====
-- The sector table `boot_flash_sectors` of boot_flash.c, for the 1 MiB profile: twelve sectors, all
-- of bank 1.
use stm32_security_lab.Common.{ℕ, List, [], ◌∷◌}

pub record Sector : Type 0 where
  pub id : ℕ
  pub bank : ℕ
  pub base : ℕ
  pub size : ℕ
  pub end : ℕ

abbrev sector : ℕ → ℕ → ℕ → ℕ → Sector
sector id base size end = record { id = id; bank = 1; base = base; size = size; end = end }

unfoldable pub sectors : List Sector
sectors =
    sector 0 0x08000000 0x4000 0x08004000
    ∷ sector 1 0x08004000 0x4000 0x08008000
    ∷ sector 2 0x08008000 0x4000 0x0800C000
    ∷ sector 3 0x0800C000 0x4000 0x08010000
    ∷ sector 4 0x08010000 0x10000 0x08020000
    ∷ sector 5 0x08020000 0x20000 0x08040000
    ∷ sector 6 0x08040000 0x20000 0x08060000
    ∷ sector 7 0x08060000 0x20000 0x08080000
    ∷ sector 8 0x08080000 0x20000 0x080A0000
    ∷ sector 9 0x080A0000 0x20000 0x080C0000
    ∷ sector 10 0x080C0000 0x20000 0x080E0000
    ∷ sector 11 0x080E0000 0x20000 0x08100000
    ∷ []

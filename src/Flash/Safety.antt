-- ===== src/Flash/Safety.antt =====
-- What an erase and a program leave alone, whatever they report: every byte outside the sector or the
-- range, and every byte outside the write regions.
use stm32_security_lab.Common.{
  ℕ, zero, suc, ◌+◌, ◌≤◌, ◌<◌, ◌≡◌, refl, ◌∙◌, ◌⊎◌, inl, inr, true, some, List, [], ◌∷◌, length,
  take, drop, Option-cases, u32, arith,
}
use stm32_security_lab.Flash.{
  FlashStatus, Flash, Region, boot_flash_read, verify_loop, check_chunk, chunk_size,
  program_and_verify, boot_flash_program_aligned, boot_flash_erase_sector, boot_flash_sector_by_id,
  range_is_write_allowed, some_region_holds, checked_range_end,
}
use stm32_security_lab.Flash.Device.{Backed}
use stm32_security_lab.Flash.Sectors.{Sector}
use stm32_security_lab.Flash.Program.{read-keeps, program_cases}

-- The address lies in none of the regions.
abbrev pub Outside : List Region → ℕ → Type 0
Outside [] x = Unit {0}
Outside (r ∷ rest) x = ((x < r.base) ⊎ (r.end ≤ x)) × Outside rest x

some_region_holds-Outside :
    (regions : List Region) (address range_end x : ℕ)
    → some_region_holds regions address range_end ≡ true
    → Outside regions x
    → (x < address) ⊎ (range_end ≤ x)
unfolding some_region_holds
some_region_holds-Outside [] address range_end x h out = cc
some_region_holds-Outside (r ∷ rest) address range_end x h out =
    ground (arith, some_region_holds-Outside rest address range_end x)

-- A range that a region allows does not reach an address outside the regions.
allowed-Outside :
    (regions : List Region) (address n x : ℕ)
    → range_is_write_allowed regions address n ≡ true
    → Outside regions x
    → (x < address) ⊎ (address + n ≤ x)
unfolding range_is_write_allowed checked_range_end
allowed-Outside regions address n x h out =
    ground (arith, some_region_holds-Outside regions address (u32 (address + n)) x)

module _ {D : Type 0} (flash : Flash D) (mem : D → ℕ → ℕ) (backed : Backed flash.ops mem) where
  check_chunk-keeps :
      (m : ℕ → ℕ) (got : FlashStatus × List ℕ × D) (expected : List ℕ) (next : FlashStatus × D)
      → mem got.2 ≡ m
      → mem next.1 ≡ m
      → mem (check_chunk got expected next).1 ≡ m
  unfolding check_chunk
  check_chunk-keeps m got expected next hg hn = ground arith

  verify_loop-keeps :
      (fuel : ℕ) (d : D) (address offset : ℕ) (rest : List ℕ)
      → mem (verify_loop fuel flash d address offset rest).1 ≡ mem d
  unfolding verify_loop
  verify_loop-keeps zero d address offset rest = refl
  verify_loop-keeps (suc fuel) d address offset [] = refl
  verify_loop-keeps (suc fuel) d address offset (x ∷ xs) =
      let k = chunk_size (x ∷ xs) in
      let got = boot_flash_read flash d (u32 (address + offset)) k in
      let same = read-keeps flash mem backed d (u32 (address + offset)) k in
      check_chunk-keeps (mem d) got (take k (x ∷ xs)) _ same
        (verify_loop-keeps fuel got.2 address (offset + k) (drop k (x ∷ xs)) ∙ same)

  program_and_verify-keeps :
      (d : D) (address : ℕ) (bytes : List ℕ)
      → mem (program_and_verify flash d address bytes).1 ≡ mem (flash.ops.program d address bytes).1
  unfolding program_and_verify
  program_and_verify-keeps d address bytes =
      let d' = (flash.ops.program d address bytes).1 in
      ground (arith, verify_loop-keeps (suc (length bytes)) d' address 0 bytes)

  -- A program touches its range only, also when it is refused or fails.
  pub program-frame :
      (d : D) (address x : ℕ) (bytes : List ℕ)
      → (x < address) ⊎ (address + length bytes ≤ x)
      → mem (boot_flash_program_aligned flash d address bytes).1 x ≡ mem d x
  program-frame d address x bytes out = elim (program_cases flash d address bytes) [
    | inl (_, same) ↦ rw same refl
    | inr (inl (_, same)) ↦ rw same refl
    | inr (inr (_, _, _, same)) ↦
        rw (same, program_and_verify-keeps d address bytes)
          (backed.program_frame d address x bytes out)
  ]

  -- No program, whatever it returns, changes a byte outside the write regions.
  pub program-Outside :
      (d : D) (address x : ℕ) (bytes : List ℕ)
      → Outside flash.write_regions x
      → mem (boot_flash_program_aligned flash d address bytes).1 x ≡ mem d x
  program-Outside d address x bytes out = elim (program_cases flash d address bytes) [
    | inl (_, same) ↦ rw same refl
    | inr (inl (_, same)) ↦ rw same refl
    | inr (inr (_, _, allowed, _)) ↦
        program-frame d address x bytes
          (allowed-Outside flash.write_regions address (length bytes) x allowed out)
  ]

  -- An erase touches its sector only.
  pub erase-frame :
      (d : D) (id x : ℕ) (s : Sector)
      → boot_flash_sector_by_id id ≡ some s
      → (x < s.base) ⊎ (s.base + s.size ≤ x)
      → mem (boot_flash_erase_sector flash d id).1 x ≡ mem d x
  unfolding boot_flash_erase_sector
  erase-frame d id x s known out = ground (arith, backed.erase_frame d id x s)

  -- No erase, whatever it returns, changes a byte outside the write regions.
  pub erase-Outside :
      (d : D) (id x : ℕ)
      → Outside flash.write_regions x
      → mem (boot_flash_erase_sector flash d id).1 x ≡ mem d x
  unfolding boot_flash_erase_sector
  erase-Outside d id x out = elim (Option-cases (boot_flash_sector_by_id id)) [
    | inl unknown ↦ rw (unknown, boot_flash_erase_sector) refl
    | inr (s, known) ↦ ground (
      arith,
      known,
      backed.erase_frame d id x s,
      allowed-Outside flash.write_regions s.base s.size x,
    )
  ]

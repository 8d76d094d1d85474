-- ===== src/Flash.antt =====
-- firmware/exp045_bootloader_v2/src/boot_flash.c: the checked access to the internal flash.
-- `D` is the state of the device behind the three function pointers of `boot_flash_ops_t`, and each
-- call of one hands it on. A `size_t` is not bounded here: the code's own checks against UINT32_MAX
-- are in the model.
pub mod Sectors
pub mod Device
pub mod Program
pub mod Safety
pub mod Healthy
pub mod Nor
pub mod Target
use stm32_security_lab.Common.{
  ℕ, zero, suc, ◌+◌, ◌-◌, ◌%◌, Bool, true, false, ◌&&◌, ◌||◌, not, Option, none, some, List, [],
  ◌∷◌, length, take, drop, ltb, leb, ◌==◌, if◌then◌else◌, bytes_eq, bit_and, u32,
}
use stm32_security_lab.Layout.{flash_base, flash_end}
use Sectors.{Sector, sectors}

pub data FlashStatus : Type 0 where
  ok invalid_argument out_of_bounds alignment protected_region backend verify : FlashStatus

pub record Region : Type 0 where
  pub base : ℕ
  pub end : ℕ

pub record Ops (D : Type 0) : Type 0 where
  pub read : D → ℕ → ℕ → FlashStatus × List ℕ × D
  pub erase_sector : D → ℕ → FlashStatus × D
  pub program : D → ℕ → List ℕ → FlashStatus × D

pub record Flash (D : Type 0) : Type 0 where
  pub flash_base : ℕ
  pub flash_end : ℕ
  pub program_alignment : ℕ
  pub write_regions : List Region
  pub ops : Ops D

-- The end of a range that does not pass the 32-bit address space.
unfoldable pub checked_range_end : ℕ → ℕ → Option ℕ
checked_range_end address length =
    if ltb 0xFFFFFFFF length
    then none
    else if ltb (0xFFFFFFFF - address) length
    then none
    else some (u32 (address + length))

unfoldable pub range_in_bounds : ℕ → ℕ → ℕ → ℕ → Bool
unfolding checked_range_end
range_in_bounds base end address length = elim (checked_range_end address length) [
  | none ↦ false
  | some range_end ↦ leb base address && leb range_end end && leb address range_end
]

-- The loop over the write regions.
unfoldable pub some_region_holds : List Region → ℕ → ℕ → Bool
some_region_holds [] address range_end = false
some_region_holds (region ∷ rest) address range_end =
    (leb region.base address && leb range_end region.end)
    || some_region_holds rest address range_end

unfoldable pub range_is_write_allowed : List Region → ℕ → ℕ → Bool
unfolding checked_range_end some_region_holds
range_is_write_allowed regions address length = elim (checked_range_end address length) [
  | none ↦ false
  | some range_end ↦ some_region_holds regions address range_end
]

unfoldable pub is_power_of_two : ℕ → Bool
is_power_of_two value = not (value == 0) && bit_and value (value - 1) == 0

-- The region checks of `boot_flash_init`.
unfoldable pub regions_in_flash : List Region → Bool
regions_in_flash [] = true
regions_in_flash (region ∷ rest) =
    not (leb region.end region.base || ltb region.base flash_base || ltb flash_end region.end)
    && regions_in_flash rest

abbrev pub sector_at : List Sector → ℕ → Option Sector
sector_at [] i = none
sector_at (s ∷ rest) zero = some s
sector_at (s ∷ rest) (suc i) = sector_at rest i

unfoldable pub boot_flash_sector_by_id : ℕ → Option Sector
unfolding sectors
boot_flash_sector_by_id sector_id = if leb 12 sector_id then none else sector_at sectors sector_id

-- BOOT_FLASH_VERIFY_CHUNK.
abbrev pub verify_chunk : ℕ
verify_chunk = 32

unfoldable pub chunk_size : List ℕ → ℕ
chunk_size rest = if ltb verify_chunk (length rest) then verify_chunk else length rest

-- `program_alignment - 1UL`.
abbrev pub low_mask : ℕ → ℕ
low_mask program_alignment = u32 (program_alignment + 4294967295)

module _ {D : Type 0} where
  unfoldable pub boot_flash_init : Ops D → List Region → ℕ → FlashStatus × Option (Flash D)
  unfolding is_power_of_two regions_in_flash
  boot_flash_init ops regions program_alignment =
      if not (is_power_of_two program_alignment)
      then (FlashStatus.invalid_argument, none)
      else if not (regions_in_flash regions)
      then (FlashStatus.out_of_bounds, none)
      else (
        FlashStatus.ok,
        some (record {
          flash_base = flash_base;
          flash_end = flash_end;
          program_alignment = program_alignment;
          write_regions = regions;
          ops = ops;
        }),
      )

  unfoldable pub boot_flash_read : Flash D → D → ℕ → ℕ → FlashStatus × List ℕ × D
  boot_flash_read flash d address length =
      if not (range_in_bounds flash.flash_base flash.flash_end address length)
      then (FlashStatus.out_of_bounds, [], d)
      else if length == 0
      then (FlashStatus.ok, [], d)
      else flash.ops.read d address length

  unfoldable pub boot_flash_erase_sector : Flash D → D → ℕ → FlashStatus × D
  boot_flash_erase_sector flash d sector_id = elim (boot_flash_sector_by_id sector_id) [
    | none ↦ (FlashStatus.invalid_argument, d)
    | some sector ↦
        if not (range_is_write_allowed flash.write_regions sector.base sector.size)
        then (FlashStatus.protected_region, d)
        else flash.ops.erase_sector d sector_id
  ]

  -- One round of the read-back: the chunk that was read is compared, and the loop goes on.
  unfoldable pub check_chunk : FlashStatus × List ℕ × D → List ℕ → FlashStatus × D → FlashStatus × D
  check_chunk (status, bytes, d') expected next = elim status [
    | FlashStatus.ok ↦ if bytes_eq bytes expected then next else (FlashStatus.verify, d')
    | failed ↦ (failed, d')
  ]

  -- The read-back loop of `boot_flash_program_aligned`, with fuel; the list is `&data[offset]`, empty
  -- when `offset` has come to `length`.
  unfoldable pub verify_loop : ℕ → Flash D → D → ℕ → ℕ → List ℕ → FlashStatus × D
  unfolding check_chunk chunk_size
  verify_loop zero flash d address offset rest = (FlashStatus.verify, d)
  verify_loop (suc fuel) flash d address offset [] = (FlashStatus.ok, d)
  verify_loop (suc fuel) flash d address offset (x ∷ xs) =
      let chunk = chunk_size (x ∷ xs) in
      let got = boot_flash_read flash d (u32 (address + offset)) chunk in
      check_chunk got (take chunk (x ∷ xs))
        (verify_loop fuel flash got.2 address (offset + chunk) (drop chunk (x ∷ xs)))

  -- The second half of `boot_flash_program_aligned`, behind its checks. A chunk takes at least one
  -- byte, so the length of the data is fuel enough.
  unfoldable pub program_and_verify : Flash D → D → ℕ → List ℕ → FlashStatus × D
  program_and_verify flash d address bytes =
      let (status, d') = flash.ops.program d address bytes in
      elim status [
        | FlashStatus.ok ↦ verify_loop (suc (length bytes)) flash d' address 0 bytes
        | failed ↦ (failed, d')
      ]

  unfoldable pub boot_flash_program_aligned : Flash D → D → ℕ → List ℕ → FlashStatus × D
  boot_flash_program_aligned flash d address bytes =
      let mask = low_mask flash.program_alignment in
      if length bytes == 0
      then (FlashStatus.ok, d)
      else if not (bit_and address mask == 0 && bit_and (length bytes) mask == 0)
      then (FlashStatus.alignment, d)
      else if not (range_in_bounds flash.flash_base flash.flash_end address (length bytes))
      then (FlashStatus.out_of_bounds, d)
      else if not (range_is_write_allowed flash.write_regions address (length bytes))
      then (FlashStatus.protected_region, d)
      else program_and_verify flash d address bytes

-- ===== src/Tests/Storage.antt =====
-- The flash driver, the slots and the reset causes on concrete inputs.
use stm32_security_lab.Common.{
  Result, done, fail, ℕ, ◌≤◌, ◌<◌, ◌≡◌, ◌≢◌, ◌⊎◌, inl, inr, refl, some, true, List, [], ◌∷◌, length,
  arith, bit_and,
}
use stm32_security_lab.Flash.{
  FlashStatus, low_mask, checked_range_end, range_in_bounds, some_region_holds,
  range_is_write_allowed, is_power_of_two, regions_in_flash, boot_flash_sector_by_id, chunk_size,
  boot_flash_init, boot_flash_read, boot_flash_erase_sector, check_chunk, verify_loop,
  program_and_verify, boot_flash_program_aligned,
}
use stm32_security_lab.Flash.Nor.{
  content, nor-Backed, nor-Healthy, write, is_blank, erase, nor_erase, nor_program, nor,
}
use stm32_security_lab.Flash.Device.{bytes_at}
use stm32_security_lab.Flash.Healthy.{Fits, IsBlank, program_passes}
use stm32_security_lab.Flash.Program.{program-bytes, verify_loop_fuel}
use stm32_security_lab.Flash.Safety.{program-Outside, erase-Outside}
use stm32_security_lab.Slot.{slot_a_descriptor, slot_b_descriptor, boot_slot_lookup}
use stm32_security_lab.Slot.Geometry.{IsWellPlaced, lookup-IsWellPlaced, lookup_disjoint}
use stm32_security_lab.ByteReader.{
  ReaderStatus, byte_reader_getc_timeout, byte_reader_read_timeout, read_timeout_cases,
}
use stm32_security_lab.Tests.{blank, device}

-- Three bytes at the start of copy A.
abbrev sample : List ℕ
sample = 1 ∷ 2 ∷ 3 ∷ []

written : (boot_flash_program_aligned device blank 0x08008000 sample).0 ≡ FlashStatus.ok
unfolding checked_range_end range_in_bounds some_region_holds range_is_write_allowed is_power_of_two
    regions_in_flash boot_flash_sector_by_id chunk_size boot_flash_init boot_flash_read
    boot_flash_erase_sector check_chunk verify_loop program_and_verify boot_flash_program_aligned
    write is_blank erase nor_erase nor_program nor bytes_at
written = refl

program-bytes_example :
    bytes_at
      (content (boot_flash_program_aligned device blank 0x08008000 sample).1)
      0x08008000
      (length sample)
    ≡ sample
program-bytes_example = program-bytes device content nor-Backed blank 0x08008000 sample written

program-Outside_example :
    content (boot_flash_program_aligned device blank 0x08007FFE sample).1 0x08007FFE
    ≡ content blank 0x08007FFE
program-Outside_example =
    program-Outside device content nor-Backed blank 0x08007FFE 0x08007FFE sample
      (inl (omega arith), (inl (omega arith), tt))

erase-Outside_example :
    content (boot_flash_erase_sector device (write blank 0x08020000 sample) 5).1 0x08020000
    ≡ content (write blank 0x08020000 sample) 0x08020000
erase-Outside_example =
    erase-Outside device content nor-Backed (write blank 0x08020000 sample) 5 0x08020000
      (inr (omega arith), (inr (omega arith), tt))

allowed : range_is_write_allowed device.write_regions 0x08008000 (length sample) ≡ true
unfolding checked_range_end range_in_bounds some_region_holds range_is_write_allowed is_power_of_two
    regions_in_flash boot_flash_sector_by_id chunk_size boot_flash_init boot_flash_read
    boot_flash_erase_sector check_chunk verify_loop program_and_verify boot_flash_program_aligned
    write is_blank erase nor_erase nor_program nor bytes_at
allowed = refl

fits : Fits device 0x08008000 (length sample)
fits = record { from_base = omega arith; to_end = omega arith; end_lt = omega arith }

aligned : bit_and 0x08008000 (low_mask device.program_alignment) ≡ 0
aligned = refl

even : bit_and (length sample) (low_mask device.program_alignment) ≡ 0
even = refl

blank_there : IsBlank (content blank) 0x08008000 (length sample)
blank_there = λ x l u. refl

program_passes_example :
    (boot_flash_program_aligned device blank 0x08008000 sample).0 ≡ FlashStatus.ok
program_passes_example =
    program_passes device content nor-Healthy blank 0x08008000 sample aligned even fits allowed
      blank_there

verify_loop_fuel_example :
    verify_loop 4 device (write blank 0x08008000 sample) 0x08008000 0 sample
    ≡ verify_loop 9 device (write blank 0x08008000 sample) 0x08008000 0 sample
verify_loop_fuel_example =
    verify_loop_fuel device content nor-Backed 4 9 (write blank 0x08008000 sample) 0x08008000 0
      sample (omega arith) (omega arith)

found_a : boot_slot_lookup 0 ≡ some slot_a_descriptor
unfolding boot_slot_lookup
found_a = refl

found_b : boot_slot_lookup 1 ≡ some slot_b_descriptor
unfolding boot_slot_lookup
found_b = refl

lookup-IsWellPlaced_example : (1 < 2) × (slot_b_descriptor.id ≡ 1) × IsWellPlaced slot_b_descriptor
lookup-IsWellPlaced_example = lookup-IsWellPlaced 1 slot_b_descriptor found_b

lookup_disjoint_example :
    (slot_a_descriptor.slot_end ≤ slot_b_descriptor.signed_image_base)
    ⊎ (slot_b_descriptor.slot_end ≤ slot_a_descriptor.signed_image_base)
lookup_disjoint_example =
    lookup_disjoint 0 1 slot_a_descriptor slot_b_descriptor found_a found_b (ground arith)

-- A receive buffer that holds two bytes.
abbrev pop : List ℕ → Result ReaderStatus ℕ × List ℕ
pop [] = (fail ReaderStatus.no_data, [])
pop (b ∷ rest) = (done b, rest)

pop_answers : (t : List ℕ) → (pop t).0 ≢ fail ReaderStatus.ok
pop_answers [] = ground arith
pop_answers (b ∷ rest) = ground arith

starved : (byte_reader_read_timeout pop 3 4 (7 ∷ 8 ∷ [])).0 ≡ ReaderStatus.timeout
unfolding byte_reader_read_timeout byte_reader_getc_timeout
starved = refl

read_timeout_cases_example :
    let (status, bytes, s') = byte_reader_read_timeout pop 3 4 (7 ∷ 8 ∷ []) in
    ((status ≡ ReaderStatus.ok) × (length bytes ≡ 3))
    ⊎ ((status ≢ ReaderStatus.ok) × (status ≢ ReaderStatus.no_data) × (length bytes < 3))
read_timeout_cases_example = read_timeout_cases pop 3 4 (7 ∷ 8 ∷ []) pop_answers

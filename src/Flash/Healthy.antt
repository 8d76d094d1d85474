-- ===== src/Flash/Healthy.antt =====
-- A device with no fault: there an aligned program of a blank, allowed range succeeds, so the checks
-- of boot_flash.c refuse no good write.
use stm32_security_lab.Common.{
  ℕ, zero, suc, ◌+◌, ◌≤◌, ◌<◌, ◌≡◌, refl, ap, ap₂, get_or, ◌∙◌, true, some, List, [], ◌∷◌, length,
  take, drop, length-drop, bytes_eq_self, u32, bit_and, arith,
}
use stm32_security_lab.Flash.{
  FlashStatus, Flash, Ops, low_mask, boot_flash_read, verify_loop, check_chunk, chunk_size,
  program_and_verify, boot_flash_program_aligned, boot_flash_erase_sector, boot_flash_sector_by_id,
  range_in_bounds, range_is_write_allowed,
}
use stm32_security_lab.Flash.Device.{Backed, bytes_at}
use stm32_security_lab.Flash.Sectors.{Sector}
use stm32_security_lab.Flash.Program.{read-keeps, read-bytes, chunk_size_bounds}

abbrev pub IsBlank : (ℕ → ℕ) → ℕ → ℕ → Type 0
IsBlank m a n = (x : ℕ) → a ≤ x → x < a + n → m x ≡ 255

pub record Healthy {D : Type 0} (ops : Ops D) (mem : D → ℕ → ℕ) : Type 0 where
  pub backed : Backed ops mem
  pub read_ok : (d : D) (a n : ℕ) → (ops.read d a n).0 ≡ FlashStatus.ok
  pub erase_ok :
      (d : D) (id : ℕ) (s : Sector)
      → boot_flash_sector_by_id id ≡ some s
      → (ops.erase_sector d id).0 ≡ FlashStatus.ok
  pub erase_blanks :
      (d : D) (id : ℕ) (s : Sector)
      → boot_flash_sector_by_id id ≡ some s
      → IsBlank (mem (ops.erase_sector d id).1) s.base s.size
  pub program_ok :
      (d : D) (a : ℕ) (bytes : List ℕ)
      → IsBlank (mem d) a (length bytes)
      → (ops.program d a bytes).0 ≡ FlashStatus.ok
  pub program_writes :
      (d : D) (a : ℕ) (bytes : List ℕ)
      → IsBlank (mem d) a (length bytes)
      → bytes_at (mem (ops.program d a bytes).1) a (length bytes) ≡ bytes

-- `Fits flash a n`: the range lies in the flash, which ends below 2^32.
pub record Fits {D : Type 0} (flash : Flash D) (a n : ℕ) : Type 0 where
  pub from_base : flash.flash_base ≤ a
  pub to_end : a + n ≤ flash.flash_end
  pub end_lt : flash.flash_end < 4294967296

pub in_bounds_of_Fits :
    {D : Type 0} (flash : Flash D) (a n : ℕ)
    → Fits flash a n
    → range_in_bounds flash.flash_base flash.flash_end a n ≡ true
unfolding range_in_bounds
in_bounds_of_Fits flash a n f = ground arith

take-bytes_at :
    (m : ℕ → ℕ) (a k : ℕ) (rest : List ℕ)
    → k ≤ length rest
    → bytes_at m a (length rest) ≡ rest
    → (bytes_at m a k ≡ take k rest) × (bytes_at m (a + k) (length (drop k rest)) ≡ drop k rest)
unfolding bytes_at
take-bytes_at m a zero rest h e = let start : a + 0 ≡ a = omega arith in (refl, rw start e)
take-bytes_at m a (suc k) [] h e = elim h [ ]
take-bytes_at m a (suc k) (x ∷ xs) h e =
    let (front, back) = take-bytes_at m (suc a) k xs (omega arith) (ap (drop 1) e) in
    let shift : a + suc k ≡ suc a + k = omega arith in
    (ap₂ ◌∷◌ (ap (λ l. get_or l 0 0) e) front, rw shift back)

rest-Fits :
    {D : Type 0} {flash : Flash D} (address offset k : ℕ) (rest : List ℕ)
    → k ≤ length rest
    → Fits flash (address + offset) (length rest)
    → Fits flash (address + (offset + k)) (length (drop k rest))
rest-Fits address offset k rest h f = omega (arith, length-drop k rest)

module _ {D : Type 0} (flash : Flash D) (mem : D → ℕ → ℕ) (healthy : Healthy flash.ops mem) where
  pub read_ok-Fits :
      (d : D) (a n : ℕ) → Fits flash a n → (boot_flash_read flash d a n).0 ≡ FlashStatus.ok
  unfolding boot_flash_read
  read_ok-Fits d a n f = ground (arith, in_bounds_of_Fits flash a n f, healthy.read_ok d a n)

  check_chunk_passes :
      (got : FlashStatus × List ℕ × D) (expected : List ℕ) (next : FlashStatus × D)
      → got.0 ≡ FlashStatus.ok
      → got.1 ≡ expected
      → check_chunk got expected next ≡ next
  unfolding check_chunk
  check_chunk_passes (s, bytes, d') expected next hs he =
      rw (hs, he) (ground (arith, bytes_eq_self expected))

  verify_loop_passes :
      (fuel : ℕ) (d : D) (address offset : ℕ) (rest : List ℕ)
      → length rest < fuel
      → Fits flash (address + offset) (length rest)
      → bytes_at (mem d) (address + offset) (length rest) ≡ rest
      → (verify_loop fuel flash d address offset rest).0 ≡ FlashStatus.ok
  unfolding verify_loop
  verify_loop_passes zero d address offset rest hf f e = elim hf [ ]
  verify_loop_passes (suc fuel) d address offset [] hf f e = refl
  verify_loop_passes (suc fuel) d address offset (x ∷ xs) hf f e =
      let k = chunk_size (x ∷ xs) in
      let bounds = chunk_size_bounds x xs in
      let at : u32 (address + offset) ≡ address + offset = omega arith in
      let got = boot_flash_read flash d (u32 (address + offset)) k in
      let s : got.0 ≡ FlashStatus.ok = rw at (read_ok-Fits d (address + offset) k (omega arith)) in
      let same = read-keeps flash mem healthy.backed d (u32 (address + offset)) k in
      let (front, back) = take-bytes_at (mem d) (address + offset) k (x ∷ xs) bounds.1 e in
      let read : got.1 ≡ take k (x ∷ xs) =
        read-bytes flash mem healthy.backed d (u32 (address + offset)) k s
        ∙ ap (λ a. bytes_at (mem d) a k) at
        ∙ front in
      let shift : address + (offset + k) ≡ address + offset + k = omega arith in
      let next = verify_loop fuel flash got.2 address (offset + k) (drop k (x ∷ xs)) in
      rw (check_chunk_passes got (take k (x ∷ xs)) next s read) (
        verify_loop_passes fuel got.2 address (offset + k) (drop k (x ∷ xs))
          (omega (arith, length-drop k (x ∷ xs))) (rest-Fits address offset k (x ∷ xs) bounds.1 f)
          (rw (shift, same) back))

  program_and_verify_passes :
      (d : D) (address : ℕ) (bytes : List ℕ)
      → Fits flash address (length bytes)
      → IsBlank (mem d) address (length bytes)
      → (program_and_verify flash d address bytes).0 ≡ FlashStatus.ok
  unfolding program_and_verify
  program_and_verify_passes d address bytes f blank =
      let d' = (flash.ops.program d address bytes).1 in
      let start : address + 0 ≡ address = omega arith in
      rw (healthy.program_ok d address bytes blank, program_and_verify)
        (verify_loop_passes (suc (length bytes)) d' address 0 bytes (omega arith) (rw start f)
          (rw start (healthy.program_writes d address bytes blank)))

  -- On a device without faults, a program of a blank range that is aligned, in the flash and allowed succeeds.
  pub program_passes :
      (d : D) (address : ℕ) (bytes : List ℕ)
      → bit_and address (low_mask flash.program_alignment) ≡ 0
      → bit_and (length bytes) (low_mask flash.program_alignment) ≡ 0
      → Fits flash address (length bytes)
      → range_is_write_allowed flash.write_regions address (length bytes) ≡ true
      → IsBlank (mem d) address (length bytes)
      → (boot_flash_program_aligned flash d address bytes).0 ≡ FlashStatus.ok
  unfolding boot_flash_program_aligned
  program_passes d address bytes ha hl f allowed blank = ground (
    arith,
    in_bounds_of_Fits flash address (length bytes) f,
    program_and_verify_passes d address bytes f blank,
  )

  -- An erase of a known, allowed sector succeeds and leaves it blank.
  pub erase_passes :
      (d : D) (id : ℕ) (s : Sector)
      → boot_flash_sector_by_id id ≡ some s
      → range_is_write_allowed flash.write_regions s.base s.size ≡ true
      → ((boot_flash_erase_sector flash d id).0 ≡ FlashStatus.ok)
        × IsBlank (mem (boot_flash_erase_sector flash d id).1) s.base s.size
  unfolding boot_flash_erase_sector
  erase_passes d id s known allowed =
      rw (known, boot_flash_erase_sector)
        (rw allowed (healthy.erase_ok d id s known, healthy.erase_blanks d id s known))

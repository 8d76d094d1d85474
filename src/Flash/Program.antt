-- ===== src/Flash/Program.antt =====
-- The read-back of `boot_flash_program_aligned`: a program that reports success has put the data
-- into the flash, and the loop's fuel is enough.
use stm32_security_lab.Common.{
  ℕ, zero, suc, ◌+◌, ◌≤◌, ◌<◌, ◌≡◌, ◌≢◌, refl, sym, ap, ◌∙◌, ◌⊎◌, inl, inr, true, List, [], ◌∷◌,
  length, take, drop, length-drop, take-append-drop, bytes_eq→eq, u32, arith,
}
use stm32_security_lab.Flash.{
  FlashStatus, Flash, boot_flash_read, verify_loop, check_chunk, chunk_size, program_and_verify,
  boot_flash_program_aligned, range_in_bounds, range_is_write_allowed,
}
use stm32_security_lab.Flash.Device.{Backed, bytes_at, bytes_at-add}

pub chunk_size_bounds :
    (x : ℕ) (xs : List ℕ) → (0 < chunk_size (x ∷ xs)) × (chunk_size (x ∷ xs) ≤ length (x ∷ xs))
unfolding chunk_size
chunk_size_bounds x xs = ground arith

module _ {D : Type 0} where
  check_chunk_ok :
      (got : FlashStatus × List ℕ × D) (expected : List ℕ) (next : FlashStatus × D)
      → (check_chunk got expected next).0 ≡ FlashStatus.ok
      → (got.0 ≡ FlashStatus.ok) × (got.1 ≡ expected) × (check_chunk got expected next ≡ next)
  unfolding check_chunk
  check_chunk_ok (FlashStatus.ok, bytes, d') expected next h =
      ground (arith, bytes_eq→eq bytes expected)
  check_chunk_ok (FlashStatus.invalid_argument, bytes, d') expected next h = cc
  check_chunk_ok (_, bytes, d') expected next h = cc

range_in_bounds_lem :
    (base end address n : ℕ)
    → range_in_bounds base end address n ≡ true
    → 0 < n
    → (base ≤ address) × (address + n ≤ end) × (address + n < 4294967296)
unfolding range_in_bounds
range_in_bounds_lem base end address n h pos = ground arith

-- A program is refused and changes nothing, has nothing to do, or passes every check.
pub program_cases :
    {D : Type 0} (flash : Flash D) (d : D) (address : ℕ) (bytes : List ℕ)
    → let r = boot_flash_program_aligned flash d address bytes in
      ((r.0 ≢ FlashStatus.ok) × (r.1 ≡ d))
      ⊎ ((bytes ≡ []) × (r.1 ≡ d))
      ⊎ ((0 < length bytes)
          × (range_in_bounds flash.flash_base flash.flash_end address (length bytes) ≡ true)
          × (range_is_write_allowed flash.write_regions address (length bytes) ≡ true)
          × (r ≡ program_and_verify flash d address bytes))
unfolding boot_flash_program_aligned
program_cases flash d address [] = inr (inl (refl, refl))
program_cases flash d address (x ∷ xs) = ground arith

module _ {D : Type 0} (flash : Flash D) (mem : D → ℕ → ℕ) (backed : Backed flash.ops mem) where
  pub read-keeps : (d : D) (a n : ℕ) → mem (boot_flash_read flash d a n).2 ≡ mem d
  unfolding boot_flash_read
  read-keeps d a n = ground (arith, backed.read_keeps d a n)

  pub read-bytes :
      (d : D) (a n : ℕ)
      → (boot_flash_read flash d a n).0 ≡ FlashStatus.ok
      → (boot_flash_read flash d a n).1 ≡ bytes_at (mem d) a n
  unfolding boot_flash_read bytes_at
  read-bytes d a zero h = ground arith
  read-bytes d a (suc n) h = ground (arith, backed.read_bytes d a (suc n))

  -- Success of the loop from `offset` on: the rest of the data stands in the flash.
  VerifiedFrom : D → ℕ → List ℕ → FlashStatus × D → Type 0
  VerifiedFrom d at rest r =
      r.0 ≡ FlashStatus.ok → (bytes_at (mem d) at (length rest) ≡ rest) × (mem r.1 ≡ mem d)

  verify_round :
      (d : D) (at k : ℕ) (rest : List ℕ) (d' : D)
      → k ≤ length rest
      → bytes_at (mem d) at k ≡ take k rest
      → mem d' ≡ mem d
      → bytes_at (mem d') (at + k) (length (drop k rest)) ≡ drop k rest
      → bytes_at (mem d) at (length rest) ≡ rest
  verify_round d at k rest d' le head same tail =
      let n = length (drop k rest) in
      let parts : length rest ≡ k + n = omega (arith, length-drop k rest) in
      rw (parts, bytes_at-add (mem d) at k n, head, ← same, tail) (take-append-drop k rest)

  verify_loop-VerifiedFrom :
      (fuel : ℕ) (d : D) (address offset : ℕ) (rest : List ℕ)
      → address + offset + length rest < 4294967296
      → VerifiedFrom d (address + offset) rest (verify_loop fuel flash d address offset rest)
  unfolding verify_loop VerifiedFrom bytes_at
  verify_loop-VerifiedFrom zero d address offset rest b h = cc
  verify_loop-VerifiedFrom (suc fuel) d address offset [] b h = (refl, refl)
  verify_loop-VerifiedFrom (suc fuel) d address offset (x ∷ xs) b h =
      let k = chunk_size (x ∷ xs) in
      let at : u32 (address + offset) ≡ address + offset = omega arith in
      let got = boot_flash_read flash d (u32 (address + offset)) k in
      let (s, e, eq) =
        check_chunk_ok got (take k (x ∷ xs))
          (verify_loop fuel flash got.2 address (offset + k) (drop k (x ∷ xs))) h in
      let bounds = chunk_size_bounds x xs in
      let fits : address + (offset + k) + length (drop k (x ∷ xs)) < 4294967296 =
        omega (arith, length-drop k (x ∷ xs)) in
      let (tail, kept) =
        verify_loop-VerifiedFrom fuel got.2 address (offset + k) (drop k (x ∷ xs)) fits
          (rw (← eq) h) in
      let same : mem got.2 ≡ mem d = read-keeps d (u32 (address + offset)) k in
      let read : got.1 ≡ bytes_at (mem d) (address + offset) k =
        read-bytes d (u32 (address + offset)) k s ∙ ap (λ a. bytes_at (mem d) a k) at in
      let shift : address + (offset + k) ≡ address + offset + k = omega arith in
      (
        verify_round d (address + offset) k (x ∷ xs) got.2 bounds.1 (sym read ∙ e) same
            (rw shift at tail),
        rw eq (kept ∙ same),
      )

  -- The loop's fuel: any two amounts above the length of the data give the same verdict and device.
  pub verify_loop_fuel :
      (f g : ℕ) (d : D) (address offset : ℕ) (rest : List ℕ)
      → length rest < f
      → length rest < g
      → verify_loop f flash d address offset rest ≡ verify_loop g flash d address offset rest
  unfolding verify_loop
  verify_loop_fuel zero g d address offset rest hf hg = elim hf [ ]
  verify_loop_fuel (suc f) zero d address offset rest hf hg = elim hg [ ]
  verify_loop_fuel (suc f) (suc g) d address offset [] hf hg = refl
  verify_loop_fuel (suc f) (suc g) d address offset (x ∷ xs) hf hg =
      let k = chunk_size (x ∷ xs) in
      let got = boot_flash_read flash d (u32 (address + offset)) k in
      let bounds = chunk_size_bounds x xs in
      let shorter : length (drop k (x ∷ xs)) ≤ length xs = omega (arith, length-drop k (x ∷ xs)) in
      ap (check_chunk got (take k (x ∷ xs))) (
        verify_loop_fuel f g got.2 address (offset + k) (drop k (x ∷ xs)) (omega arith)
          (omega arith))

  program_and_verify-bytes :
      (d : D) (address : ℕ) (bytes : List ℕ)
      → address + length bytes < 4294967296
      → (program_and_verify flash d address bytes).0 ≡ FlashStatus.ok
      → bytes_at (mem (program_and_verify flash d address bytes).1) address (length bytes) ≡ bytes
  unfolding program_and_verify VerifiedFrom
  program_and_verify-bytes d address bytes b h =
      let d' = (flash.ops.program d address bytes).1 in
      let fits : address + 0 + length bytes < 4294967296 = omega arith in
      let start : address + 0 ≡ address = omega arith in
      ground (arith, start, verify_loop-VerifiedFrom (suc (length bytes)) d' address 0 bytes fits)

  -- A program that reports success, on a device that backs its reads, has left the data at its address.
  pub program-bytes :
      (d : D) (address : ℕ) (bytes : List ℕ)
      → (boot_flash_program_aligned flash d address bytes).0 ≡ FlashStatus.ok
      → bytes_at (mem (boot_flash_program_aligned flash d address bytes).1) address (length bytes)
        ≡ bytes
  program-bytes d address bytes h = elim (program_cases flash d address bytes) [
    | inl (refused, _) ↦ absurd (refused h)
    | inr (inl (empty, _)) ↦ rw empty (unfold bytes_at in refl)
    | inr (inr (pos, inside, _, same)) ↦ rw same (
        program_and_verify-bytes d address bytes
          (range_in_bounds_lem _ _ address (length bytes) inside pos).2 (rw (← same) h))
  ]

-- ===== src/Installer/Confined.antt =====
-- What the steps of a session leave alone: every byte outside the journal and the candidate slot.
use stm32_security_lab.Common.{
  ℕ, zero, suc, ◌+◌, ◌-◌, ◌≡◌, refl, ap, ◌∙◌, Bool, List, ◌++◌, replicate, u32, inl, inr,
  Option-cases, length, arith,
}
use stm32_security_lab.Flash.{
  Flash, boot_flash_read, boot_flash_erase_sector, boot_flash_program_aligned,
}
use stm32_security_lab.Flash.Device.{Backed}
use stm32_security_lab.Flash.Program.{read-keeps}
use stm32_security_lab.Flash.Safety.{Outside, erase-Outside, program-Outside}
use stm32_security_lab.Metadata.Frame.{OffJournal}
use stm32_security_lab.Installer.{InstallStatus, FaultPoint, checked_round_up, checked_u32_add}
use stm32_security_lab.Installer.Session.{Session, Step, ◌|>◌, refuse_when, update, fail_session}
use stm32_security_lab.Installer.Blocks.{
  fault_at, erase_one, count_erased, erase_sectors, erase_candidate_slot, program_at, read_back,
  count_block, program_aligned_block, program_chunks, program_source_range, payload_block_done,
  padded_chunk, at_most, flush_bytes, flush_payload_program_buffer,
}

-- A flash on a device that backs it, and an address outside its write regions and the journal.
pub record Guard (D : Type 0) : Type 0 where
  pub flash : Flash D
  pub mem : D → ℕ → ℕ
  pub backed : Backed flash.ops mem
  pub x : ℕ
  pub out : Outside flash.write_regions x
  pub off : OffJournal x

module _ {D : Type 0} (g : Guard D) where
  -- From a session on this flash, the step comes to one, and leaves the byte alone.
  unfoldable pub Confined : Step D → Type 0
  Confined m =
      (w : Session D × D)
      → w.0.restricted_flash ≡ g.flash
      → ((m w).1.restricted_flash ≡ g.flash) × (g.mem (m w).2 g.x ≡ g.mem w.1 g.x)

  pub then-Confined : (m k : Step D) → Confined m → Confined k → Confined (m |> k)
  unfolding Confined ◌|>◌
  then-Confined m k hm hk w same =
      let (s1, e1) = hm w same in
      let (s2, e2) = hk ((m w).1, (m w).2) s1 in ground (arith, s1, e1, s2, e2)

  pub refuse_when-Confined :
      (test : Session D → Bool) (refused : InstallStatus) → Confined (refuse_when test refused)
  unfolding Confined refuse_when
  refuse_when-Confined test refused w same = ground arith

  pub update-Confined :
      (change : Session D → Session D)
      → ((s : Session D) → (change s).restricted_flash ≡ s.restricted_flash)
      → Confined (update change)
  unfolding Confined update
  update-Confined change h w same = (h w.0 ∙ same, refl)

  pub fault_at-Confined :
      (point : FaultPoint) (detail : Session D → ℕ) → Confined (fault_at point detail)
  unfolding Confined
  fault_at-Confined point detail w same = (same, refl)

  pub fail_session-Confined : (m : Step D) → Confined m → Confined (fail_session m)
  unfolding Confined fail_session
  fail_session-Confined m h w same = let (s, e) = h w same in ground (arith, s, e)

  erase_kept :
      (f : Flash D) (d : D) (sector : ℕ)
      → f ≡ g.flash
      → g.mem (boot_flash_erase_sector f d sector).1 g.x ≡ g.mem d g.x
  erase_kept f d sector same =
      ap (λ f'. g.mem (boot_flash_erase_sector f' d sector).1 g.x) same
      ∙ erase-Outside g.flash g.mem g.backed d sector g.x g.out

  program_kept :
      (f : Flash D) (d : D) (address : ℕ) (bytes : List ℕ)
      → f ≡ g.flash
      → g.mem (boot_flash_program_aligned f d address bytes).1 g.x ≡ g.mem d g.x
  program_kept f d address bytes same =
      ap (λ f'. g.mem (boot_flash_program_aligned f' d address bytes).1 g.x) same
      ∙ program-Outside g.flash g.mem g.backed d address g.x bytes g.out

  pub read_kept :
      (f : Flash D) (d : D) (address n : ℕ)
      → f ≡ g.flash
      → g.mem (boot_flash_read f d address n).2 g.x ≡ g.mem d g.x
  read_kept f d address n same =
      ap (λ f'. g.mem (boot_flash_read f' d address n).2 g.x) same
      ∙ ap (λ m. m g.x) (read-keeps g.flash g.mem g.backed d address n)

  erase_one-Confined : (sector : ℕ) → Confined (erase_one sector)
  unfolding Confined erase_one
  erase_one-Confined sector w same =
      ground (arith, same, erase_kept w.0.restricted_flash w.1 sector same)

  erase_sectors-Confined : (n sector : ℕ) → Confined (erase_sectors n sector)
  unfolding Confined erase_sectors count_erased
  erase_sectors-Confined zero sector w same = (same, refl)
  erase_sectors-Confined (suc n) sector w same =
      then-Confined _ _ (fault_at-Confined FaultPoint.erase_sector (λ _. sector))
        (then-Confined _ _ (erase_one-Confined sector) (
          then-Confined _ _ (update-Confined count_erased (λ s. refl))
            (erase_sectors-Confined n (sector + 1))))
        w same

  pub erase_candidate_slot-Confined : Confined erase_candidate_slot
  unfolding Confined erase_candidate_slot
  erase_candidate_slot-Confined w same =
      erase_sectors-Confined (w.0.candidate.last_sector + 1 - w.0.candidate.first_sector)
        w.0.candidate.first_sector w same

  program_at-Confined : (address : ℕ) (bytes : List ℕ) → Confined (program_at address bytes)
  unfolding Confined program_at
  program_at-Confined address bytes w same =
      ground (arith, same, program_kept w.0.restricted_flash w.1 address bytes same)

  read_back-Confined : (address : ℕ) (bytes : List ℕ) → Confined (read_back address bytes)
  unfolding Confined read_back
  read_back-Confined address bytes w same =
      ground (arith, same, read_kept w.0.restricted_flash w.1 address (length bytes) same)

  pub program_aligned_block-Confined :
      (address : ℕ) (bytes : List ℕ) → Confined (program_aligned_block address bytes)
  unfolding program_aligned_block count_block
  program_aligned_block-Confined address bytes = then-Confined _ _ (fault_at-Confined _ _) (
      then-Confined _ _ (program_at-Confined address bytes) (
        then-Confined _ _ (fault_at-Confined _ _) (
          then-Confined _ _ (read_back-Confined address bytes) (
            then-Confined _ _ (refuse_when-Confined _ _)
              (update-Confined count_block (λ s. refl))))))

  program_chunks-Confined :
      (fuel base : ℕ) (source : List ℕ) (data_size padded_size offset : ℕ)
      → Confined (program_chunks fuel base source data_size padded_size offset)
  unfolding Confined program_chunks checked_u32_add
  program_chunks-Confined zero base source data_size padded_size offset w same = (same, refl)
  program_chunks-Confined (suc fuel) base source data_size padded_size offset w same =
      let chunk = at_most w.0.options.program_buffer_size (padded_size - offset) in
      let bytes = padded_chunk source data_size offset chunk in
      let round =
        then-Confined (program_aligned_block (u32 (base + u32 offset)) bytes)
          (program_chunks fuel base source data_size padded_size (offset + chunk))
          (program_aligned_block-Confined (u32 (base + u32 offset)) bytes)
          (program_chunks-Confined fuel base source data_size padded_size (offset + chunk)) w
          same in
      ground (arith, same, round)

  pub program_source_range-Confined :
      (base : ℕ) (source : List ℕ) (data_size padded_size : ℕ)
      → Confined (program_source_range base source data_size padded_size)
  unfolding Confined program_source_range
  program_source_range-Confined base source data_size padded_size w same = ground (
    arith,
    same,
    program_chunks-Confined (suc padded_size) base source data_size padded_size 0 w same,
  )

  flush_bytes-Confined : (program_length : ℕ) → Confined (flush_bytes program_length)
  unfolding Confined flush_bytes payload_block_done checked_u32_add
  flush_bytes-Confined program_length w same =
      let s = w.0 in
      let bytes = s.program_buffer ++ replicate (program_length - length s.program_buffer) 0xFF in
      let round =
        then-Confined
          (program_aligned_block (u32 (s.candidate.payload_base + u32 s.payload_programmed)) bytes)
          (update (payload_block_done program_length)) (program_aligned_block-Confined _ bytes)
          (update-Confined _ (λ t. refl)) w same in
      ground (arith, same, round)

  pub flush-Confined : (final_flush : Bool) → Confined (flush_payload_program_buffer final_flush)
  unfolding Confined flush_payload_program_buffer
  flush-Confined final_flush w same =
      let fill = length w.0.program_buffer in
      elim (Option-cases (checked_round_up fill w.0.restricted_flash.program_alignment)) [
        | inl e ↦ ground (arith, same, e, flush_bytes-Confined fill w same)
        | inr (n, e) ↦
            ground (arith, same, e, flush_bytes-Confined fill w same, flush_bytes-Confined n w same)
      ]

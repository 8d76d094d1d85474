-- ===== src/Installer/Blocks.antt =====
-- Erasing the candidate slot and programming it block by block.
use stm32_security_lab.Common.{
  ℕ, zero, suc, ◌+◌, ◌-◌, Bool, not, ◌||◌, none, some, List, [], ◌++◌, length, take, drop,
  replicate, ltb, ◌==◌, if◌then◌else◌, bytes_eq, u32,
}
use stm32_security_lab.Flash.{
  FlashStatus, boot_flash_read, boot_flash_erase_sector, boot_flash_program_aligned,
}
use stm32_security_lab.Image.Manifest.{u32_max}
use stm32_security_lab.Installer.{
  InstallStatus, FaultPoint, checked_u32_add, checked_round_up, maybe_fault,
}
use stm32_security_lab.Installer.Session.{Session, Step, ◌|>◌, refuse_when, update}

-- The chunk at `offset`: what the source has of it, and erased bytes behind.
unfoldable pub padded_chunk : List ℕ → ℕ → ℕ → ℕ → List ℕ
padded_chunk source data_size offset chunk =
    let available = if ltb chunk (data_size - offset) then chunk else data_size - offset in
    take available (drop offset source) ++ replicate (chunk - available) 0xFF

abbrev pub at_most : ℕ → ℕ → ℕ
at_most limit n = if ltb limit n then limit else n

module _ {D : Type 0} where
  abbrev pub fault_at : FaultPoint → (Session D → ℕ) → Step D
  fault_at point detail w = (maybe_fault w.0.options point (detail w.0), w.0, w.1)

  unfoldable pub erase_one : ℕ → Step D
  erase_one sector w =
      let (status, d) = boot_flash_erase_sector w.0.restricted_flash w.1 sector in
      elim status [
        | FlashStatus.ok ↦ (InstallStatus.ok, w.0, d)
        | _ ↦ (InstallStatus.err_erase, w.0, d)
      ]

  unfoldable pub count_erased : Session D → Session D
  count_erased s = record s {
    result = record s.result { erased_sector_count = u32 (s.result.erased_sector_count + 1) };
  }

  -- The sectors from `sector` on, as many as the first argument says.
  unfoldable pub erase_sectors : ℕ → ℕ → Step D
  unfolding maybe_fault erase_one count_erased
  erase_sectors zero sector w = (InstallStatus.ok, w.0, w.1)
  erase_sectors (suc n) sector w =
      (fault_at FaultPoint.erase_sector (λ _. sector)
          |> erase_one sector
          |> update count_erased
          |> erase_sectors n (sector + 1))
        w

  -- The loop takes one round for each sector from the first to the last.
  unfoldable pub erase_candidate_slot : Step D
  unfolding erase_sectors
  erase_candidate_slot w =
      erase_sectors (w.0.candidate.last_sector + 1 - w.0.candidate.first_sector)
        w.0.candidate.first_sector w

  unfoldable pub program_at : ℕ → List ℕ → Step D
  program_at address bytes w =
      let (status, d) = boot_flash_program_aligned w.0.restricted_flash w.1 address bytes in
      elim status [
        | FlashStatus.ok ↦ (InstallStatus.ok, w.0, d)
        | _ ↦ (InstallStatus.err_program, w.0, d)
      ]

  unfoldable pub read_back : ℕ → List ℕ → Step D
  read_back address bytes w =
      let (status, got, d) = boot_flash_read w.0.restricted_flash w.1 address (length bytes) in
      elim status [
        | FlashStatus.ok ↦
            if bytes_eq got bytes
            then (InstallStatus.ok, w.0, d)
            else (InstallStatus.err_readback, w.0, d)
        | _ ↦ (InstallStatus.err_readback, w.0, d)
      ]

  unfoldable pub count_block : Session D → Session D
  count_block s = record s {
    programmed_block_count = s.programmed_block_count + 1;
    result = record s.result { programmed_block_count = u32 (s.result.programmed_block_count + 1) };
  }

  unfoldable pub program_aligned_block : ℕ → List ℕ → Step D
  unfolding program_at read_back count_block
  program_aligned_block address bytes =
      fault_at FaultPoint.program_block (λ s. s.programmed_block_count)
      |> program_at address bytes
      |> fault_at FaultPoint.readback (λ s. s.programmed_block_count)
      |> read_back address bytes
      |> refuse_when (λ s. s.programmed_block_count == u32_max) InstallStatus.err_capacity
      |> update count_block

  -- The loop of `program_source_range`, with fuel.
  unfoldable pub program_chunks : ℕ → ℕ → List ℕ → ℕ → ℕ → ℕ → Step D
  unfolding program_aligned_block padded_chunk checked_u32_add
  program_chunks zero base source data_size padded_size offset w =
      (InstallStatus.err_state, w.0, w.1)
  program_chunks (suc fuel) base source data_size padded_size offset w =
      let chunk = at_most w.0.options.program_buffer_size (padded_size - offset) in
      let rest : Step D = program_chunks fuel base source data_size padded_size (offset + chunk) in
      if not (ltb offset padded_size)
      then (InstallStatus.ok, w.0, w.1)
      else elim (checked_u32_add base (u32 offset)) [
        | none ↦ (InstallStatus.err_capacity, w.0, w.1)
        | some address ↦
            (program_aligned_block address (padded_chunk source data_size offset chunk) |> rest) w
      ]

  -- A chunk takes at least one byte, so the size is fuel enough.
  unfoldable pub program_source_range : ℕ → List ℕ → ℕ → ℕ → Step D
  unfolding program_chunks
  program_source_range base source data_size padded_size w =
      if ltb padded_size data_size || ltb u32_max padded_size
      then (InstallStatus.err_invalid_argument, w.0, w.1)
      else program_chunks (suc padded_size) base source data_size padded_size 0 w

  unfoldable pub payload_block_done : ℕ → Session D → Session D
  payload_block_done program_length s = record s {
    payload_programmed = s.payload_programmed + program_length;
    program_buffer = [];
  }

  -- The buffer, filled up to `program_length`, at the end of what is programmed.
  unfoldable pub flush_bytes : ℕ → Step D
  unfolding payload_block_done
  flush_bytes program_length w =
      let s = w.0 in
      let bytes = s.program_buffer ++ replicate (program_length - length s.program_buffer) 0xFF in
      if ltb s.payload_program_size s.payload_programmed
        || ltb (s.payload_program_size - s.payload_programmed) program_length
      then (InstallStatus.err_capacity, s, w.1)
      else elim (checked_u32_add s.candidate.payload_base (u32 s.payload_programmed)) [
        | none ↦ (InstallStatus.err_capacity, s, w.1)
        | some address ↦
            (program_aligned_block address bytes |> update (payload_block_done program_length)) w
      ]

  unfoldable pub flush_payload_program_buffer : Bool → Step D
  unfolding checked_round_up flush_bytes
  flush_payload_program_buffer final_flush w =
      let fill = length w.0.program_buffer in
      if fill == 0
      then (InstallStatus.ok, w.0, w.1)
      else if final_flush
      then elim (checked_round_up fill w.0.restricted_flash.program_alignment) [
        | none ↦ (InstallStatus.err_capacity, w.0, w.1)
        | some program_length ↦ flush_bytes program_length w
      ]
      else if not (fill == w.0.options.program_buffer_size)
      then (InstallStatus.err_state, w.0, w.1)
      else flush_bytes fill w

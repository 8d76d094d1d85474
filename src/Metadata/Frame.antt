-- ===== src/Metadata/Frame.antt =====
-- Every write of the journal stays in its two sectors.
use stm32_security_lab.Common.{ℕ, ◌≤◌, ◌<◌, ◌≡◌, ◌⊎◌, arith}
use stm32_security_lab.Layout.{
  metadata_a_base, metadata_b_end, metadata_a_first_sector, metadata_b_first_sector,
}
use stm32_security_lab.Flash.{Flash, boot_flash_erase_sector}
use stm32_security_lab.Flash.Device.{Backed}
use stm32_security_lab.Flash.Safety.{erase-frame}
use stm32_security_lab.Metadata.{Record}
use stm32_security_lab.Metadata.Codec.{Copy}
use stm32_security_lab.Metadata.Journal.{
  commit_target, boot_metadata_commit, boot_metadata_reinitialize_for_recovery,
}
use stm32_security_lab.Metadata.Recovery.{journal}
use stm32_security_lab.Metadata.PowerLoss.{
  OffCopy, copy_region, copy_sector_known, write_copy-frame, commit-frame,
}

-- The address lies in neither sector of the journal.
abbrev pub OffJournal : ℕ → Type 0
OffJournal x = (x < metadata_a_base) ⊎ (metadata_b_end ≤ x)

off_copy : (c : Copy) (x : ℕ) → OffJournal x → OffCopy c x
off_copy Copy.copy_a x off = ground arith
off_copy Copy.copy_b x off = ground arith
off_copy Copy.no_copy x off = ground arith

module _ {D : Type 0} (flash : Flash D) (mem : D → ℕ → ℕ) (backed : Backed flash.ops mem) where
  pub commit-OffJournal :
      (d : D) (next : Record) (x : ℕ)
      → OffJournal x
      → mem (boot_metadata_commit flash d next).1 x ≡ mem d x
  commit-OffJournal d next x off =
      commit-frame flash mem backed d next x (off_copy (commit_target (journal (mem d)).2) x off)

  pub reinitialize-OffJournal :
      (d : D) (next : Record) (x : ℕ)
      → OffJournal x
      → mem (boot_metadata_reinitialize_for_recovery flash d next).1 x ≡ mem d x
  unfolding boot_metadata_reinitialize_for_recovery copy_region
  reinitialize-OffJournal d next x off =
      let d1 = (boot_flash_erase_sector flash d metadata_a_first_sector).1 in
      let d2 = (boot_flash_erase_sector flash d1 metadata_b_first_sector).1 in
      let e1 =
        erase-frame flash mem backed d metadata_a_first_sector x (copy_region Copy.copy_a)
          (copy_sector_known Copy.copy_a) (off_copy Copy.copy_a x off) in
      let e2 =
        erase-frame flash mem backed d1 metadata_b_first_sector x (copy_region Copy.copy_b)
          (copy_sector_known Copy.copy_b) (off_copy Copy.copy_b x off) in
      let e3 =
        write_copy-frame flash mem backed d2 Copy.copy_a next x (off_copy Copy.copy_a x off) in
      ground (arith, e1, e2, e3)

-- ===== src/Metadata/PowerLoss.antt =====
-- A commit that is cut off at any point: the copy that recovery had selected keeps its content,
-- whatever the erase and the two programs did before they failed.
use stm32_security_lab.Common.{
  ℕ, ◌+◌, ◌≤◌, ◌<◌, ◌≡◌, ◌≢◌, refl, ◌⊎◌, inl, inr, some, List, length, take, drop, length-take-le,
  Result, done, fail, Result-cases, arith,
}
use stm32_security_lab.Layout.{metadata_record_size, metadata_a_base, metadata_b_base}
use stm32_security_lab.Flash.{
  Flash, boot_flash_sector_by_id, boot_flash_erase_sector, boot_flash_program_aligned,
}
use stm32_security_lab.Flash.Sectors.{Sector, sectors}
use stm32_security_lab.Flash.Device.{Backed, bytes_at-ext}
use stm32_security_lab.Flash.Safety.{program-frame, erase-frame}
use stm32_security_lab.Metadata.{Record, MetadataStatus, boot_metadata_empty}
use stm32_security_lab.Metadata.Codec.{
  Copy, Recovery, choose, boot_metadata_decode, boot_metadata_encode, boot_metadata_recover,
  commit_offset, commit_size,
}
use stm32_security_lab.Metadata.Journal.{
  copy_base, copy_sector, commit_target, write_encoded, write_copy, commit_from,
  boot_metadata_commit, boot_metadata_recover_from_flash,
}
use stm32_security_lab.Metadata.Recovery.{
  copy_bytes, journal, choose-IsNewest, recover_from_flash-keeps, recover_from_flash-status,
}

-- Where the overwritten copy and the other one stand after `choose`.
pub choose_target :
    (a b : Result MetadataStatus Record)
    → (choose a b).0 ≡ MetadataStatus.ok
    → ((commit_target (choose a b).2 ≡ Copy.copy_b) × (a ≡ done (choose a b).1))
      ⊎ ((commit_target (choose a b).2 ≡ Copy.copy_a) × (b ≡ done (choose a b).1))
unfolding choose commit_target
choose_target (fail e) (fail f) h = cc
choose_target (done a) (fail f) h = inl (refl, refl)
choose_target (fail e) (done b) h = inr (refl, refl)
choose_target (done a) (done b) h = ground arith

-- The sector of a copy is the 16 KiB that start at its base.
unfoldable pub copy_region : Copy → Sector
copy_region c = record {
  id = copy_sector c;
  bank = 1;
  base = copy_base c;
  size = 0x4000;
  end = copy_base c + 0x4000;
}

pub copy_sector_known : (c : Copy) → boot_flash_sector_by_id (copy_sector c) ≡ some (copy_region c)
unfolding boot_flash_sector_by_id sectors copy_region
copy_sector_known Copy.copy_a = refl
copy_sector_known _ = refl

-- The address lies outside the sector of the copy.
abbrev pub OffCopy : Copy → ℕ → Type 0
OffCopy c x = (x < copy_base c) ⊎ (copy_base c + 0x4000 ≤ x)

module _ {D : Type 0} (flash : Flash D) (mem : D → ℕ → ℕ) (backed : Backed flash.ops mem) where
  off_body :
      (c : Copy) (x : ℕ) (bytes : List ℕ)
      → OffCopy c x
      → (x < copy_base c) ⊎ (copy_base c + length (take commit_offset bytes) ≤ x)
  off_body c x bytes (inl h) = inl h
  off_body c x bytes (inr h) = inr (omega (arith, length-take-le commit_offset bytes))

  off_marker :
      (c : Copy) (x : ℕ) (bytes : List ℕ)
      → OffCopy c x
      → (x < copy_base c + commit_offset)
        ⊎ (copy_base c + commit_offset + length (take commit_size (drop commit_offset bytes)) ≤ x)
  off_marker c x bytes (inl h) = inl (omega arith)
  off_marker c x bytes (inr h) =
      inr (omega (arith, length-take-le commit_size (drop commit_offset bytes)))

  write_encoded-frame :
      (d : D) (c : Copy) (bytes : List ℕ) (x : ℕ)
      → OffCopy c x
      → mem (write_encoded flash d (copy_base c) (copy_sector c) bytes).1 x ≡ mem d x
  unfolding write_encoded copy_region
  write_encoded-frame d c bytes x off =
      let d1 = (boot_flash_erase_sector flash d (copy_sector c)).1 in
      let d2 = (boot_flash_program_aligned flash d1 (copy_base c) (take commit_offset bytes)).1 in
      let marker = take commit_size (drop commit_offset bytes) in
      let e1 =
        erase-frame flash mem backed d (copy_sector c) x (copy_region c) (copy_sector_known c)
          off in
      let e2 =
        program-frame flash mem backed d1 (copy_base c) x (take commit_offset bytes)
          (off_body c x bytes off) in
      let e3 =
        program-frame flash mem backed d2 (copy_base c + commit_offset) x marker
          (off_marker c x bytes off) in
      ground (arith, e1, e2, e3)

  pub write_copy-frame :
      (d : D) (c : Copy) (r : Record) (x : ℕ)
      → OffCopy c x
      → mem (write_copy flash d c r).1 x ≡ mem d x
  unfolding write_copy
  write_copy-frame d Copy.no_copy r x off = refl
  write_copy-frame d Copy.copy_a r x off = elim (Result-cases (boot_metadata_encode r)) [
    | inl (bytes, e) ↦ rw (e, write_copy) (write_encoded-frame d Copy.copy_a bytes x off)
    | inr (_, e) ↦ rw (e, write_copy) refl
  ]
  write_copy-frame d Copy.copy_b r x off = elim (Result-cases (boot_metadata_encode r)) [
    | inl (bytes, e) ↦ rw (e, write_copy) (write_encoded-frame d Copy.copy_b bytes x off)
    | inr (_, e) ↦ rw (e, write_copy) refl
  ]

  commit_from-frame :
      (d : D) (current next : Record) (recovery : Recovery) (x : ℕ)
      → OffCopy (commit_target recovery) x
      → mem (commit_from flash d current recovery next).1 x ≡ mem d x
  unfolding commit_from
  commit_from-frame d current next recovery x off =
      ground (arith, write_copy-frame d (commit_target recovery) next x off)

  -- Outside the copy that the journal's recovery makes the target, a commit changes nothing.
  pub commit-frame :
      (d : D) (next : Record) (x : ℕ)
      → OffCopy (commit_target (journal (mem d)).2) x
      → mem (boot_metadata_commit flash d next).1 x ≡ mem d x
  unfolding boot_metadata_commit
  commit-frame d next x off =
      let (status, current, recovery, d') = boot_metadata_recover_from_flash flash d in
      ground (
        arith,
        recover_from_flash-keeps flash mem backed d,
        recover_from_flash-status flash mem backed d,
        commit_from-frame d' current next recovery x,
        commit_from-frame d' boot_metadata_empty next recovery x,
      )

  pub copy_a_kept :
      (d : D) (next : Record)
      → commit_target (journal (mem d)).2 ≡ Copy.copy_b
      → copy_bytes (mem (boot_metadata_commit flash d next).1) Copy.copy_a
        ≡ copy_bytes (mem d) Copy.copy_a
  unfolding copy_bytes
  copy_a_kept d next target =
      bytes_at-ext _ (mem d) metadata_a_base metadata_record_size
        (λ x l u. commit-frame d next x (rw target (inl (omega arith))))

  pub copy_b_kept :
      (d : D) (next : Record)
      → commit_target (journal (mem d)).2 ≡ Copy.copy_a
      → copy_bytes (mem (boot_metadata_commit flash d next).1) Copy.copy_b
        ≡ copy_bytes (mem d) Copy.copy_b
  unfolding copy_bytes
  copy_b_kept d next target =
      bytes_at-ext _ (mem d) metadata_b_base metadata_record_size
        (λ x l u. commit-frame d next x (rw target (inr (omega arith))))

  -- Whatever a commit from a journal that recovers reports, one copy still decodes to the record that recovery selected before it.
  pub commit_keeps_selected :
      (d : D) (next : Record)
      → (journal (mem d)).0 ≡ MetadataStatus.ok
      → let m' = mem (boot_metadata_commit flash d next).1 in
        (boot_metadata_decode (copy_bytes m' Copy.copy_a) ≡ done (journal (mem d)).1)
        ⊎ (boot_metadata_decode (copy_bytes m' Copy.copy_b) ≡ done (journal (mem d)).1)
  unfolding journal boot_metadata_recover
  commit_keeps_selected d next h =
      elim (choose_target (boot_metadata_decode (copy_bytes (mem d) Copy.copy_a))
        (boot_metadata_decode (copy_bytes (mem d) Copy.copy_b)) h) [
          | inl (target, e) ↦ inl (rw (copy_a_kept d next target) e)
          | inr (target, e) ↦ inr (rw (copy_b_kept d next target) e)
        ]

-- Where one of the copies decodes to `r`, recovery finds a record, and none older than `r`.
no_valid-done :
    (a b : Result MetadataStatus Record) (r : Record)
    → (a ≡ done r) ⊎ (b ≡ done r)
    → (choose a b).0 ≢ MetadataStatus.no_valid_copy
unfolding choose
no_valid-done (fail e) (fail f) r one h = ground arith
no_valid-done (done a) (fail f) r one h = cc
no_valid-done (fail e) (done b) r one h = cc
no_valid-done (done a) (done b) r one h = ground arith

recover_at_least :
    (a b : Result MetadataStatus Record) (r : Record)
    → (a ≡ done r) ⊎ (b ≡ done r)
    → (choose a b).0 ≡ MetadataStatus.ok
    → r.sequence ≤ (choose a b).1.sequence
recover_at_least a b r (inl e) h = (choose-IsNewest a b h).newest_a r e
recover_at_least a b r (inr e) h = (choose-IsNewest a b h).newest_b r e

journal_at_least :
    (m : ℕ → ℕ) (r : Record)
    → (boot_metadata_decode (copy_bytes m Copy.copy_a) ≡ done r)
      ⊎ (boot_metadata_decode (copy_bytes m Copy.copy_b) ≡ done r)
    → ((journal m).0 ≢ MetadataStatus.no_valid_copy)
      × ((journal m).0 ≡ MetadataStatus.ok → r.sequence ≤ (journal m).1.sequence)
unfolding journal boot_metadata_recover
journal_at_least m r one = (no_valid-done _ _ r one, recover_at_least _ _ r one)

choose_status :
    (a b : Result MetadataStatus Record)
    → (choose a b).0 ≢ MetadataStatus.no_valid_copy
    → ((choose a b).0 ≡ MetadataStatus.ambiguous) ⊎ ((choose a b).0 ≡ MetadataStatus.ok)
unfolding choose
choose_status (fail e) (fail f) h = absurd (h refl)
choose_status (done a) (fail f) h = inr refl
choose_status (fail e) (done b) h = inr refl
choose_status (done a) (done b) h = ground arith

journal_status :
    (m : ℕ → ℕ)
    → (journal m).0 ≢ MetadataStatus.no_valid_copy
    → ((journal m).0 ≡ MetadataStatus.ambiguous) ⊎ ((journal m).0 ≡ MetadataStatus.ok)
unfolding journal boot_metadata_recover
journal_status m h =
    choose_status (boot_metadata_decode (copy_bytes m Copy.copy_a))
      (boot_metadata_decode (copy_bytes m Copy.copy_b)) h

-- Power loss: after a commit from a journal that recovers, one that fails or is cut off anywhere
-- included, the next recovery
-- finds two conflicting copies, or selects a record no older than the one selected before.
pub commit_power_loss :
    {D : Type 0} (flash : Flash D) (mem : D → ℕ → ℕ) (backed : Backed flash.ops mem) (d : D)
    (next : Record)
    → (journal (mem d)).0 ≡ MetadataStatus.ok
    → let after = journal (mem (boot_metadata_commit flash d next).1) in
      (after.0 ≡ MetadataStatus.ambiguous)
      ⊎ ((after.0 ≡ MetadataStatus.ok) × ((journal (mem d)).1.sequence ≤ after.1.sequence))
commit_power_loss flash mem backed d next h =
    let m = mem (boot_metadata_commit flash d next).1 in
    let (some_copy, newer) =
      journal_at_least m (journal (mem d)).1 (commit_keeps_selected flash mem backed d next h) in
    elim (journal_status m some_copy) [
      | inl ambiguous ↦ inl ambiguous
      | inr good ↦ inr (good, newer good)
    ]

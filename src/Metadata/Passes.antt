-- ===== src/Metadata/Passes.antt =====
-- On a device without faults a commit that the transition tables allow succeeds.
use stm32_security_lab.Common.{
  ℕ, ◌+◌, ◌≤◌, ◌≡◌, ◌≢◌, refl, sym, ◌∙◌, ◌⊎◌, inl, inr, subst, true, List, length, take, drop,
  length-take, length-drop, done, bit_and, arith,
}
use stm32_security_lab.Layout.{metadata_record_size, metadata_a_base, metadata_b_base}
use stm32_security_lab.Flash.{
  FlashStatus, Flash, Ops, low_mask, boot_flash_read, boot_flash_erase_sector,
  boot_flash_program_aligned, range_is_write_allowed, checked_range_end, some_region_holds,
}
use stm32_security_lab.Flash.Healthy.{Healthy, IsBlank, read_ok-Fits, program_passes, erase_passes}
use stm32_security_lab.Flash.Program.{read-bytes, read-keeps}
use native.Mathlib.Nat.{le_trans, le-add_right, lt_of_lt_of_le}
use stm32_security_lab.Flash.Safety.{program-frame}
use stm32_security_lab.Flash.Target.{metadata_flash, metadata_write_regions}
use stm32_security_lab.Metadata.{
  Record, MetadataStatus, boot_metadata_empty, boot_metadata_validate_transition,
  state_record_is_canonical,
}
use stm32_security_lab.Metadata.Codec.{
  Copy, Recovery, boot_metadata_encode, commit_offset, commit_size, seal, encode_without_crc,
}
use stm32_security_lab.Metadata.Journal.{
  copy_base, copy_sector, commit_target, write_encoded, write_copy, commit_from,
  boot_metadata_commit, boot_metadata_recover_from_flash,
}
use stm32_security_lab.Metadata.Recovery.{journal, copy_bytes}
use stm32_security_lab.Metadata.PowerLoss.{copy_region, copy_sector_known}
use stm32_security_lab.Metadata.Commit.{length-encode}

-- The write regions allow the sector of each copy, and the two parts of its record.
regions_allow :
    (c : Copy)
    → (range_is_write_allowed metadata_write_regions (copy_base c) 0x4000 ≡ true)
      × (range_is_write_allowed metadata_write_regions (copy_base c) 120 ≡ true)
      × (range_is_write_allowed metadata_write_regions (copy_base c + 120) 8 ≡ true)
unfolding range_is_write_allowed checked_range_end some_region_holds
regions_allow Copy.copy_a = (refl, refl, refl)
regions_allow _ = (refl, refl, refl)

aligned :
    (c : Copy)
    → (bit_and (copy_base c) (low_mask 1) ≡ 0) × (bit_and (copy_base c + 120) (low_mask 1) ≡ 0)
aligned Copy.copy_a = (refl, refl)
aligned _ = (refl, refl)

copy_base_bounds : (c : Copy) → (0x08000000 ≤ copy_base c) × (copy_base c ≤ 0x0800C000)
copy_base_bounds Copy.copy_a = omega arith
copy_base_bounds _ = omega arith

encode_canonical :
    (r : Record)
    → state_record_is_canonical r ≡ true
    → boot_metadata_encode r ≡ done (seal (encode_without_crc r))
unfolding boot_metadata_encode
encode_canonical r canonical = rw canonical refl

commit_target-ne : (recovery : Recovery) → commit_target recovery ≢ Copy.no_copy
unfolding commit_target
commit_target-ne recovery = ground arith

validated_canonical :
    (current next : Record)
    → boot_metadata_validate_transition current next ≡ MetadataStatus.ok
    → state_record_is_canonical next ≡ true
unfolding boot_metadata_validate_transition
validated_canonical current next h = ground arith

module _ {D : Type 0} (ops : Ops D) (mem : D → ℕ → ℕ) (healthy : Healthy ops mem) where
  abbrev fl : Flash D
  fl = metadata_flash ops

  -- One program of a copy, with the range given by its length.
  program_part :
      (d : D) (a n : ℕ) (bytes : List ℕ)
      → length bytes ≡ n
      → (0x08000000 ≤ a) × (a + n ≤ 0x08100000)
      → (bit_and a (low_mask 1) ≡ 0) × (bit_and n (low_mask 1) ≡ 0)
      → range_is_write_allowed metadata_write_regions a n ≡ true
      → IsBlank (mem d) a n
      → (boot_flash_program_aligned fl d a bytes).0 ≡ FlashStatus.ok
  program_part d a n bytes size inside even allowed blank =
      program_passes fl mem healthy d a bytes even.0 (rw size even.1) (omega arith)
        (rw size allowed) (rw size blank)

  write_encoded_passes :
      (d : D) (c : Copy) (bytes : List ℕ)
      → length bytes ≡ 128
      → (write_encoded fl d (copy_base c) (copy_sector c) bytes).0 ≡ MetadataStatus.ok
  unfolding write_encoded copy_region
  write_encoded_passes d c bytes size =
      let (whole, first, last) = regions_allow c in
      let bounds = copy_base_bounds c in
      let (erased, blank) =
        erase_passes fl mem healthy d (copy_sector c) (copy_region c) (copy_sector_known c) whole in
      let d1 = (boot_flash_erase_sector fl d (copy_sector c)).1 in
      let n120 : length (take commit_offset bytes) ≡ 120 = length-take 120 bytes (omega arith) in
      let marker = take commit_size (drop commit_offset bytes) in
      let n8 : length marker ≡ 8 =
        length-take 8 (drop commit_offset bytes) (omega (arith, length-drop 120 bytes)) in
      let body = boot_flash_program_aligned fl d1 (copy_base c) (take commit_offset bytes) in
      let body_ok : body.0 ≡ FlashStatus.ok =
        program_part d1 (copy_base c) 120 (take commit_offset bytes) n120 (omega arith)
          ((aligned c).0, refl) first (λ x l u. blank x l (omega arith)) in
      let still : IsBlank (mem body.1) (copy_base c + 120) 8 = λ x l u.
        program-frame fl mem healthy.backed d1 (copy_base c) x (take commit_offset bytes)
          (inr (rw n120 l))
        ∙ blank x (le_trans (le-add_right (copy_base c) 120) l) (lt_of_lt_of_le u (omega arith)) in
      let marker_ok : (boot_flash_program_aligned fl body.1 (copy_base c + 120) marker).0
          ≡ FlashStatus.ok =
        program_part body.1 (copy_base c + 120) 8 marker n8 (omega arith) ((aligned c).1, refl) last
          still in
      rw (erased, body_ok, marker_ok, write_encoded) refl

  write_copy_passes :
      (d : D) (c : Copy) (r : Record)
      → c ≢ Copy.no_copy
      → state_record_is_canonical r ≡ true
      → (write_copy fl d c r).0 ≡ MetadataStatus.ok
  unfolding write_copy
  write_copy_passes d Copy.no_copy r named canonical = absurd (named refl)
  write_copy_passes d Copy.copy_a r named canonical =
      let e = encode_canonical r canonical in
      rw (e, write_copy) (write_encoded_passes d Copy.copy_a _ (length-encode r _ e))
  write_copy_passes d Copy.copy_b r named canonical =
      let e = encode_canonical r canonical in
      rw (e, write_copy) (write_encoded_passes d Copy.copy_b _ (length-encode r _ e))

  commit_from_passes :
      (d : D) (current next : Record) (recovery : Recovery)
      → boot_metadata_validate_transition current next ≡ MetadataStatus.ok
      → (commit_from fl d current recovery next).0 ≡ MetadataStatus.ok
  unfolding commit_from
  commit_from_passes d current next recovery valid =
      rw (valid, commit_from)
        (write_copy_passes d (commit_target recovery) next (commit_target-ne recovery)
          (validated_canonical current next valid))

  -- The recovery reads the journal of the flash content.
  recovered :
      (d : D)
      → let r = boot_metadata_recover_from_flash fl d in
        (r.0 ≡ (journal (mem d)).0) × (r.1 ≡ (journal (mem d)).1)
  unfolding boot_metadata_recover_from_flash journal copy_bytes
  recovered d =
      let first = boot_flash_read fl d metadata_a_base metadata_record_size in
      let ok_a = read_ok-Fits fl mem healthy d metadata_a_base metadata_record_size (omega arith) in
      let ok_b =
        read_ok-Fits fl mem healthy first.2 metadata_b_base metadata_record_size (omega arith) in
      let bytes_a = read-bytes fl mem healthy.backed d metadata_a_base metadata_record_size ok_a in
      let bytes_b =
        read-bytes fl mem healthy.backed first.2 metadata_b_base metadata_record_size ok_b in
      let same = read-keeps fl mem healthy.backed d metadata_a_base metadata_record_size in
      rw (ok_a, ok_b, bytes_a, bytes_b, same, boot_metadata_recover_from_flash) (refl, refl)

  -- On a device without faults, from a journal that recovers or that holds no valid copy, a commit that the validation accepts against the journal's record, the empty one without a valid copy, succeeds.
  pub commit_passes :
      (d : D) (current next : Record)
      → (((journal (mem d)).0 ≡ MetadataStatus.ok) × (current ≡ (journal (mem d)).1))
        ⊎ (((journal (mem d)).0 ≡ MetadataStatus.no_valid_copy) × (current ≡ boot_metadata_empty))
      → boot_metadata_validate_transition current next ≡ MetadataStatus.ok
      → (boot_metadata_commit fl d next).0 ≡ MetadataStatus.ok
  unfolding boot_metadata_commit
  commit_passes d current next found valid =
      let (status, read, recovery, d') = boot_metadata_recover_from_flash fl d in
      let (e0, e1) = recovered d in
      elim found [
        | inl (known, same) ↦
            rw (e0, known, boot_metadata_commit)
              (commit_from_passes d' read next recovery (
                subst (λ r. boot_metadata_validate_transition r next ≡ MetadataStatus.ok)
                  (same ∙ sym e1) valid))
        | inr (none, same) ↦
            rw (e0, none, boot_metadata_commit)
              (commit_from_passes d' boot_metadata_empty next recovery (
                subst (λ r. boot_metadata_validate_transition r next ≡ MetadataStatus.ok) same
                  valid))
      ]

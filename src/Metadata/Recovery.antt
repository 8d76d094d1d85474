-- ===== src/Metadata/Recovery.antt =====
-- What `boot_metadata_recover` selects, and that the recovery from flash is that choice over the
-- flash content.
use stm32_security_lab.Common.{
  ℕ, ◌≤◌, ◌≡◌, ◌≢◌, refl, ◌⊎◌, ◌↔◌, inl, inr, Bool, true, false, List, Result, done, fail, arith,
}
use stm32_security_lab.Layout.{metadata_record_size, metadata_a_base, metadata_b_base}
use stm32_security_lab.Flash.{Flash, FlashStatus, boot_flash_read}
use stm32_security_lab.Flash.Device.{Backed, bytes_at}
use stm32_security_lab.Flash.Program.{read-keeps, read-bytes}
use stm32_security_lab.Metadata.{Record, State, state_code, MetadataStatus}
use stm32_security_lab.Metadata.Codec.{
  Copy, Recovery, recovery_of, records_are_equal, choose, boot_metadata_recover,
}
use stm32_security_lab.Metadata.Journal.{boot_metadata_recover_from_flash, copy_base}

state_code-injective : (s t : State) → state_code s ≡ state_code t → s ≡ t
state_code-injective State.empty State.empty h = refl
state_code-injective _ _ h = ground arith

equal_self : (r : Record) → records_are_equal r r ≡ true
unfolding records_are_equal
equal_self r = ground arith

-- The comparison of all eight fields is equality of the records.
pub records_are_equal_iff : (a b : Record) → (records_are_equal a b ≡ true) ↔ (a ≡ b)
unfolding records_are_equal
records_are_equal_iff a b =
    (λ h. ground (arith, state_code-injective a.state b.state), λ h. rw h (equal_self b))

-- The specification of the choice, over the two decoded copies: what is selected is a valid copy, the
-- one that `selected_copy` names, and no valid copy is newer.
pub record IsNewest (a b : Result MetadataStatus Record) (selected : Record) (recovery : Recovery)
    : Type 0 where
  pub from_a : recovery.selected_copy ≡ Copy.copy_a → a ≡ done selected
  pub from_b : recovery.selected_copy ≡ Copy.copy_b → b ≡ done selected
  pub one : recovery.selected_copy ≢ Copy.no_copy
  pub newest_a : (r : Record) → a ≡ done r → r.sequence ≤ selected.sequence
  pub newest_b : (r : Record) → b ≡ done r → r.sequence ≤ selected.sequence

done_le :
    {a r : Record} {n : ℕ}
    → ◌≡◌ {A = Result MetadataStatus Record} (done a) (done r)
    → a.sequence ≤ n
    → r.sequence ≤ n
done_le e h = ground arith

pick_a :
    (a : Record) (b : Result MetadataStatus Record) (va vb : Bool)
    → ((r : Record) → b ≡ done r → r.sequence ≤ a.sequence)
    → IsNewest (done a) b a (recovery_of va vb Copy.copy_a)
pick_a a b va vb older = record {
  from_a = λ _. refl;
  from_b = λ e. cc;
  one = λ e. cc;
  newest_a = λ r e. done_le e (omega arith);
  newest_b = older;
}

pick_b :
    (a : Result MetadataStatus Record) (b : Record) (va vb : Bool)
    → ((r : Record) → a ≡ done r → r.sequence ≤ b.sequence)
    → IsNewest a (done b) b (recovery_of va vb Copy.copy_b)
pick_b a b va vb older = record {
  from_a = λ e. cc;
  from_b = λ _. refl;
  one = λ e. cc;
  newest_a = older;
  newest_b = λ r e. done_le e (omega arith);
}

choose_both :
    (a b : Record)
    → ((choose (done a) (done b)).0 ≡ MetadataStatus.ok)
    → ((b.sequence ≤ a.sequence)
        × ((choose (done a) (done b)).1 ≡ a)
        × ((choose (done a) (done b)).2 ≡ recovery_of true true Copy.copy_a))
      ⊎ ((a.sequence ≤ b.sequence)
          × ((choose (done a) (done b)).1 ≡ b)
          × ((choose (done a) (done b)).2 ≡ recovery_of true true Copy.copy_b))
unfolding choose
choose_both a b h = ground arith

-- Recovery selects the newest valid copy.
pub choose-IsNewest :
    (a b : Result MetadataStatus Record)
    → (choose a b).0 ≡ MetadataStatus.ok
    → IsNewest a b (choose a b).1 (choose a b).2
choose-IsNewest (fail e) (fail f) h = unfold choose in (cc)
choose-IsNewest (done a) (fail f) h =
    unfold choose in pick_a a (fail f) true false (λ r e. absurd (cc))
choose-IsNewest (fail e) (done b) h =
    unfold choose in pick_b (fail e) b false true (λ r e. absurd (cc))
choose-IsNewest (done a) (done b) h = elim (choose_both a b h) [
  | inl (le, same, taken) ↦ rw (same, taken) (pick_a a (done b) true true (λ r e. done_le e le))
  | inr (le, same, taken) ↦ rw (same, taken) (pick_b (done a) b true true (λ r e. done_le e le))
]

-- The copy that `selected_copy` names.
abbrev pub picked :
    Copy
    → Result MetadataStatus Record
    → Result MetadataStatus Record
    → Result MetadataStatus Record
picked Copy.copy_a a b = a
picked Copy.copy_b a b = b
picked Copy.no_copy a b = fail MetadataStatus.no_valid_copy

-- A copy that decodes has at most the sequence number `n`.
abbrev pub AtMost : Result MetadataStatus Record → ℕ → Type 0
AtMost (done r) n = r.sequence ≤ n
AtMost (fail _) n = Unit {0}

-- A recovery that succeeds selects the copy that it names, and no copy that decodes is newer.
pub choose_newest :
    (a b : Result MetadataStatus Record)
    → (choose a b).0 ≡ MetadataStatus.ok
    → (picked (choose a b).2.selected_copy a b ≡ done (choose a b).1)
      × AtMost a (choose a b).1.sequence
      × AtMost b (choose a b).1.sequence
unfolding choose
choose_newest (fail e) (fail f) h = cc
choose_newest (done a) (fail f) h = (refl, omega arith, tt)
choose_newest (fail e) (done b) h = (refl, tt, omega arith)
choose_newest (done a) (done b) h = ground arith

-- When recovery refuses: no copy decodes, or both do with one sequence number and different records.
pub choose_refuses :
    (a b : Result MetadataStatus Record)
    → (choose a b).0 ≢ MetadataStatus.ok
    → (((x : Record) → a ≢ done x)
        × ((y : Record) → b ≢ done y)
        × ((choose a b).0 ≡ MetadataStatus.no_valid_copy))
      ⊎ ((x : Record) × (y : Record) × (a ≡ done x)
          × (b ≡ done y)
          × (x.sequence ≡ y.sequence)
          × (x ≢ y)
          × ((choose a b).0 ≡ MetadataStatus.ambiguous))
unfolding choose
choose_refuses (fail e) (fail f) h = inl (λ x p. cc, λ y p. cc, refl)
choose_refuses (done a) (fail f) h = absurd (h refl)
choose_refuses (fail e) (done b) h = absurd (h refl)
choose_refuses (done a) (done b) h =
    let same = records_are_equal_iff a b in
    inr (a, b, refl, refl, ground arith, λ e. h (rw (same.1 e) (ground arith)), ground arith)

-- The content of a copy, as `boot_metadata_recover_from_flash` reads it.
unfoldable pub copy_bytes : (ℕ → ℕ) → Copy → List ℕ
copy_bytes m c = bytes_at m (copy_base c) metadata_record_size

-- The journal that a flash content holds.
unfoldable pub journal : (ℕ → ℕ) → MetadataStatus × Record × Recovery
journal m = boot_metadata_recover (copy_bytes m Copy.copy_a) (copy_bytes m Copy.copy_b)

module _ {D : Type 0} (flash : Flash D) (mem : D → ℕ → ℕ) (backed : Backed flash.ops mem) where
  pub recover_from_flash-keeps : (d : D) → mem (boot_metadata_recover_from_flash flash d).3 ≡ mem d
  unfolding boot_metadata_recover_from_flash
  recover_from_flash-keeps d =
      let first = boot_flash_read flash d metadata_a_base metadata_record_size in
      ground (
        arith,
        read-keeps flash mem backed d metadata_a_base metadata_record_size,
        read-keeps flash mem backed first.2 metadata_b_base metadata_record_size,
      )

  -- The status is that of a failed read, or the journal is that of the flash content.
  pub recover_from_flash-status :
      (d : D)
      → let (status, selected, recovery, d') = boot_metadata_recover_from_flash flash d in
        (status ≡ MetadataStatus.flash)
        ⊎ ((status ≡ (journal (mem d)).0)
            × (selected ≡ (journal (mem d)).1)
            × (recovery ≡ (journal (mem d)).2))
  unfolding boot_metadata_recover_from_flash journal copy_bytes
  recover_from_flash-status d =
      let first = boot_flash_read flash d metadata_a_base metadata_record_size in
      ground (
        arith,
        read-keeps flash mem backed d metadata_a_base metadata_record_size,
        read-bytes flash mem backed d metadata_a_base metadata_record_size,
        read-bytes flash mem backed first.2 metadata_b_base metadata_record_size,
      )

  -- When both reads of recovery succeed it gives the status, the record and the choice of the journal that the flash content holds; when the first fails, or the second after the first, its status is FLASH.
  pub recover_from_flash-journal :
      (d : D)
      → let (status, selected, recovery, d') = boot_metadata_recover_from_flash flash d in
        let first = boot_flash_read flash d metadata_a_base metadata_record_size in
        let second = boot_flash_read flash first.2 metadata_b_base metadata_record_size in
        ((first.0 ≡ FlashStatus.ok)
          × (second.0 ≡ FlashStatus.ok)
          × (status ≡ (journal (mem d)).0)
          × (selected ≡ (journal (mem d)).1)
          × (recovery ≡ (journal (mem d)).2))
        ⊎ (((first.0 ≢ FlashStatus.ok) ⊎ (second.0 ≢ FlashStatus.ok))
            × (status ≡ MetadataStatus.flash))
  unfolding boot_metadata_recover_from_flash journal copy_bytes
  recover_from_flash-journal d =
      let first = boot_flash_read flash d metadata_a_base metadata_record_size in
      ground (
        arith,
        read-keeps flash mem backed d metadata_a_base metadata_record_size,
        read-bytes flash mem backed d metadata_a_base metadata_record_size,
        read-bytes flash mem backed first.2 metadata_b_base metadata_record_size,
      )

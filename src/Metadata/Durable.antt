-- ===== src/Metadata/Durable.antt =====
-- The journal as a durable register: a commit that reports success is what the next boot reads.
use stm32_security_lab.Common.{
  ℕ, ◌<◌, ◌≡◌, ◌≢◌, refl, sym, ◌∙◌, ◌⊎◌, inl, inr, true, Result, done, fail, arith,
}
use stm32_security_lab.Flash.{Flash}
use stm32_security_lab.Flash.Device.{Backed}
use stm32_security_lab.Metadata.{
  Record, MetadataStatus, state_record_is_canonical, boot_metadata_validate_transition,
}
use stm32_security_lab.Metadata.Codec.{Copy, choose, boot_metadata_decode, boot_metadata_recover}
use stm32_security_lab.Metadata.Journal.{
  commit_target, boot_metadata_commit, boot_metadata_recover_from_flash,
}
use stm32_security_lab.Metadata.RoundTrip.{IsWords, decode_sound}
use stm32_security_lab.Metadata.Recovery.{copy_bytes, journal, recover_from_flash-status}
use stm32_security_lab.Metadata.PowerLoss.{choose_target, copy_a_kept, copy_b_kept}
use stm32_security_lab.Metadata.Commit.{choose_over_a, choose_over_b, commit_ok}

choose_target_none :
    (a b : Result MetadataStatus Record)
    → (choose a b).0 ≡ MetadataStatus.no_valid_copy
    → (commit_target (choose a b).2 ≡ Copy.copy_a) × ((r : Record) → b ≢ done r)
unfolding choose commit_target
choose_target_none (fail e) (fail f) h = (refl, λ r p. cc)
choose_target_none (done a) (fail f) h = cc
choose_target_none (fail e) (done b) h = cc
choose_target_none (done a) (done b) h = ground arith

validated_newer :
    (current next : Record)
    → current.sequence < 4294967296
    → boot_metadata_validate_transition current next ≡ MetadataStatus.ok
    → current.sequence < next.sequence
unfolding boot_metadata_validate_transition
validated_newer current next b h = ground arith

-- The decoded copies of a content.
abbrev decoded : (ℕ → ℕ) → Copy → Result MetadataStatus Record
decoded m c = boot_metadata_decode (copy_bytes m c)

journal_over_b :
    (m : ℕ → ℕ) (current next : Record)
    → decoded m Copy.copy_a ≡ done current
    → decoded m Copy.copy_b ≡ done next
    → current.sequence < next.sequence
    → ((journal m).0 ≡ MetadataStatus.ok) × ((journal m).1 ≡ next)
unfolding journal boot_metadata_recover
journal_over_b m current next ea eb lt = rw (ea, eb) (choose_over_b current next lt)

journal_over_a :
    (m : ℕ → ℕ) (next : Record)
    → decoded m Copy.copy_a ≡ done next
    → ((r : Record) → decoded m Copy.copy_b ≡ done r → r.sequence < next.sequence)
    → ((journal m).0 ≡ MetadataStatus.ok) × ((journal m).1 ≡ next)
unfolding journal boot_metadata_recover
journal_over_a m next ea older = rw ea (choose_over_a (decoded m Copy.copy_b) next older)

done_lt :
    {x : Result MetadataStatus Record} {current : Record} (n : ℕ) (r : Record)
    → x ≡ done current
    → current.sequence < n
    → x ≡ done r
    → r.sequence < n
done_lt n r e lt h = ground arith

journal_target :
    (m : ℕ → ℕ)
    → (journal m).0 ≡ MetadataStatus.ok
    → ((commit_target (journal m).2 ≡ Copy.copy_b) × (decoded m Copy.copy_a ≡ done (journal m).1))
      ⊎ ((commit_target (journal m).2 ≡ Copy.copy_a) × (decoded m Copy.copy_b ≡ done (journal m).1))
unfolding journal boot_metadata_recover
journal_target m h = choose_target (decoded m Copy.copy_a) (decoded m Copy.copy_b) h

journal_target_none :
    (m : ℕ → ℕ)
    → (journal m).0 ≡ MetadataStatus.no_valid_copy
    → (commit_target (journal m).2 ≡ Copy.copy_a) × ((r : Record) → decoded m Copy.copy_b ≢ done r)
unfolding journal boot_metadata_recover
journal_target_none m h = choose_target_none (decoded m Copy.copy_a) (decoded m Copy.copy_b) h

module _ {D : Type 0} (flash : Flash D) (mem : D → ℕ → ℕ) (backed : Backed flash.ops mem) where
  commit-journal_valid :
      (d : D) (next : Record)
      → boot_metadata_decode (
          copy_bytes
            (mem (boot_metadata_commit flash d next).1)
            (commit_target (journal (mem d)).2))
        ≡ done next
      → (journal (mem d)).0 ≡ MetadataStatus.ok
      → boot_metadata_validate_transition (journal (mem d)).1 next ≡ MetadataStatus.ok
      → let m' = mem (boot_metadata_commit flash d next).1 in
        ((journal m').0 ≡ MetadataStatus.ok) × ((journal m').1 ≡ next)
  commit-journal_valid d next written h valid =
      let m' = mem (boot_metadata_commit flash d next).1 in
      elim (journal_target (mem d) h) [
        | inl (target, e) ↦
            let lt = validated_newer _ next (decode_sound _ _ e).1.sequence_lt valid in
            journal_over_b m' (journal (mem d)).1 next
              (rw (copy_a_kept flash mem backed d next target) e) (rw target at written) lt
        | inr (target, e) ↦
            let lt = validated_newer _ next (decode_sound _ _ e).1.sequence_lt valid in
            journal_over_a m' next (rw target at written) (λ r p.
              done_lt next.sequence r e lt (rw (copy_b_kept flash mem backed d next target) at p))
      ]

  commit-journal_none :
      (d : D) (next : Record)
      → boot_metadata_decode (
          copy_bytes
            (mem (boot_metadata_commit flash d next).1)
            (commit_target (journal (mem d)).2))
        ≡ done next
      → (journal (mem d)).0 ≡ MetadataStatus.no_valid_copy
      → let m' = mem (boot_metadata_commit flash d next).1 in
        ((journal m').0 ≡ MetadataStatus.ok) × ((journal m').1 ≡ next)
  commit-journal_none d next written h =
      let m' = mem (boot_metadata_commit flash d next).1 in
      let (target, invalid) = journal_target_none (mem d) h in
      journal_over_a m' next (rw target at written)
        (λ r p. absurd (invalid r (rw (copy_b_kept flash mem backed d next target) at p)))

  -- After a commit of a record of 32-bit words that reports success, recovery selects that record.
  pub commit-journal :
      (d : D) (next : Record)
      → IsWords next
      → (boot_metadata_commit flash d next).0 ≡ MetadataStatus.ok
      → let m' = mem (boot_metadata_commit flash d next).1 in
        ((journal m').0 ≡ MetadataStatus.ok) × ((journal m').1 ≡ next)
  commit-journal d next w h =
      let (how, written) = commit_ok flash mem backed d next w h in
      elim how [
        | inl (found, valid) ↦ commit-journal_valid d next written found valid
        | inr (missing, _) ↦ commit-journal_none d next written missing
      ]

-- What a selected record of the journal is made of.
pub journal_sound :
    (m : ℕ → ℕ)
    → (journal m).0 ≡ MetadataStatus.ok
    → (state_record_is_canonical (journal m).1 ≡ true) × IsWords (journal m).1
unfolding journal boot_metadata_recover
journal_sound m h =
    elim (choose_target (boot_metadata_decode (copy_bytes m Copy.copy_a))
      (boot_metadata_decode (copy_bytes m Copy.copy_b)) h) [
        | inl (_, e) ↦ decode_sound _ _ e
        | inr (_, e) ↦ decode_sound _ _ e
      ]

-- A recovery from flash that succeeds gives the journal's record.
pub recovered_journal :
    {D : Type 0} (flash : Flash D) (mem : D → ℕ → ℕ) (backed : Backed flash.ops mem) (d : D)
    → (boot_metadata_recover_from_flash flash d).0 ≡ MetadataStatus.ok
    → ((journal (mem d)).0 ≡ MetadataStatus.ok)
      × ((boot_metadata_recover_from_flash flash d).1 ≡ (journal (mem d)).1)
recovered_journal flash mem backed d h = elim (recover_from_flash-status flash mem backed d) [
  | inl failed ↦ absurd (ground arith)
  | inr (status, record_is, _) ↦ (sym status ∙ h, record_is)
]

-- ===== src/Metadata/Commit.antt =====
-- A commit that reports success: the next recovery selects the record that was committed.
use stm32_security_lab.Common.{
  ℕ, ◌+◌, ◌<◌, ◌≡◌, refl, sym, ap, ap₂, ◌∙◌, ◌⊎◌, inl, inr, List, ◌++◌, length, take, drop,
  length-take, length-drop, take_all, take-append-drop, Result, done, fail, Result-cases, arith,
}
use stm32_security_lab.Layout.{metadata_record_size, metadata_a_base, metadata_b_base}
use stm32_security_lab.Flash.{
  FlashStatus, Flash, boot_flash_erase_sector, boot_flash_program_aligned,
}
use stm32_security_lab.Flash.Device.{Backed, bytes_at, bytes_at-ext, bytes_at-add}
use stm32_security_lab.Flash.Program.{program-bytes}
use stm32_security_lab.Flash.Safety.{program-frame}
use stm32_security_lab.Metadata.{
  Record, MetadataStatus, boot_metadata_validate_transition, boot_metadata_empty,
}
use stm32_security_lab.Metadata.Codec.{
  Copy, Recovery, choose, boot_metadata_decode, boot_metadata_encode, commit_offset, commit_size,
}
use stm32_security_lab.Metadata.Journal.{
  commit_target, write_encoded, write_copy, commit_from, boot_metadata_commit,
  boot_metadata_recover_from_flash,
}
use stm32_security_lab.Metadata.RoundTrip.{IsWords, decode-encode, length-sealed}
use stm32_security_lab.Metadata.Recovery.{copy_bytes, journal, recover_from_flash-status}

-- Writing `next`, newer than what was selected, over the copy that was not makes it the selection.
pub choose_over_b :
    (cur next : Record)
    → cur.sequence < next.sequence
    → ((choose (done cur) (done next)).0 ≡ MetadataStatus.ok)
      × ((choose (done cur) (done next)).1 ≡ next)
unfolding choose
choose_over_b cur next lt = ground arith

pub choose_over_a :
    (other : Result MetadataStatus Record) (next : Record)
    → ((r : Record) → other ≡ done r → r.sequence < next.sequence)
    → ((choose (done next) other).0 ≡ MetadataStatus.ok) × ((choose (done next) other).1 ≡ next)
unfolding choose
choose_over_a (fail e) next older = (refl, refl)
choose_over_a (done r) next older = ground (arith, older r refl)

-- The image of a record has the size of a copy.
pub length-encode :
    (r : Record) (bytes : List ℕ)
    → boot_metadata_encode r ≡ done bytes
    → length bytes ≡ metadata_record_size
unfolding boot_metadata_encode
length-encode r bytes h = ground (arith, length-sealed r)

module _ {D : Type 0} (flash : Flash D) (mem : D → ℕ → ℕ) (backed : Backed flash.ops mem) where
  -- The two programs join to the whole image.
  parts_join :
      (d2 : D) (base : ℕ) (bytes : List ℕ)
      → length bytes ≡ metadata_record_size
      → bytes_at (mem d2) base (length (take commit_offset bytes)) ≡ take commit_offset bytes
      → let marker = take commit_size (drop commit_offset bytes) in
        let r = boot_flash_program_aligned flash d2 (base + commit_offset) marker in
        r.0 ≡ FlashStatus.ok → bytes_at (mem r.1) base metadata_record_size ≡ bytes
  parts_join d2 base bytes size body passed =
      let marker = take commit_size (drop commit_offset bytes) in
      let r = boot_flash_program_aligned flash d2 (base + commit_offset) marker in
      let left : length bytes ≡ 128 = size in
      let n120 : length (take commit_offset bytes) ≡ 120 = length-take 120 bytes (omega arith) in
      let whole : marker ≡ drop commit_offset bytes =
        take_all 8 (drop commit_offset bytes) (omega (arith, length-drop 120 bytes)) in
      let n8 : length marker ≡ 8 = ap length whole ∙ omega (arith, length-drop 120 bytes) in
      let head : bytes_at (mem r.1) base 120 ≡ bytes_at (mem d2) base 120 =
        bytes_at-ext (mem r.1) (mem d2) base 120
          (λ x l u. program-frame flash mem backed d2 (base + commit_offset) x marker (inl u)) in
      let tail : bytes_at (mem r.1) (base + 120) 8 ≡ marker =
        ap (bytes_at (mem r.1) (base + 120)) (sym n8)
        ∙ program-bytes flash mem backed d2 (base + commit_offset) marker passed in
      bytes_at-add (mem r.1) base 120 8
      ∙ ap₂ ◌++◌ (head ∙ ap (bytes_at (mem d2) base) (sym n120) ∙ body) (tail ∙ whole)
      ∙ take-append-drop 120 bytes

  write_encoded_ok :
      (d : D) (base sector : ℕ) (bytes : List ℕ)
      → let d1 = (boot_flash_erase_sector flash d sector).1 in
        let body = boot_flash_program_aligned flash d1 base (take commit_offset bytes) in
        let marker =
          boot_flash_program_aligned flash body.1
            (base + commit_offset)
            (take commit_size (drop commit_offset bytes)) in
        (write_encoded flash d base sector bytes).0 ≡ MetadataStatus.ok
        → (body.0 ≡ FlashStatus.ok)
          × (marker.0 ≡ FlashStatus.ok)
          × ((write_encoded flash d base sector bytes).1 ≡ marker.1)
  unfolding write_encoded
  write_encoded_ok d base sector bytes h = ground arith

  write_encoded-bytes :
      (d : D) (base sector : ℕ) (bytes : List ℕ)
      → length bytes ≡ metadata_record_size
      → (write_encoded flash d base sector bytes).0 ≡ MetadataStatus.ok
      → bytes_at (mem (write_encoded flash d base sector bytes).1) base metadata_record_size ≡ bytes
  write_encoded-bytes d base sector bytes size h =
      let d1 = (boot_flash_erase_sector flash d sector).1 in
      let d2 = (boot_flash_program_aligned flash d1 base (take commit_offset bytes)).1 in
      let (body, marker, same) = write_encoded_ok d base sector bytes h in
      rw same (
        parts_join d2 base bytes size
          (program-bytes flash mem backed d1 base (take commit_offset bytes) body) marker)

  write_copy-decodes :
      (d : D) (c : Copy) (r : Record)
      → IsWords r
      → (write_copy flash d c r).0 ≡ MetadataStatus.ok
      → boot_metadata_decode (copy_bytes (mem (write_copy flash d c r).1) c) ≡ done r
  unfolding write_copy copy_bytes
  write_copy-decodes d Copy.no_copy r w h = cc
  write_copy-decodes d Copy.copy_a r w h = elim (Result-cases (boot_metadata_encode r)) [
    | inl (bytes, e) ↦
        let h' : (write_encoded flash d metadata_a_base 2 bytes).0 ≡ MetadataStatus.ok =
          rw (e, write_copy) at h in
        rw (e, write_copy)
          (rw (write_encoded-bytes d metadata_a_base 2 bytes (length-encode r bytes e) h')
            (decode-encode r bytes w e))
    | inr (_, e) ↦ absurd (cc (rw (e, write_copy) at h))
  ]
  write_copy-decodes d Copy.copy_b r w h = elim (Result-cases (boot_metadata_encode r)) [
    | inl (bytes, e) ↦
        let h' : (write_encoded flash d metadata_b_base 3 bytes).0 ≡ MetadataStatus.ok =
          rw (e, write_copy) at h in
        rw (e, write_copy)
          (rw (write_encoded-bytes d metadata_b_base 3 bytes (length-encode r bytes e) h')
            (decode-encode r bytes w e))
    | inr (_, e) ↦ absurd (cc (rw (e, write_copy) at h))
  ]

  -- What a successful `commit_from` has done.
  commit_from_ok :
      (d : D) (current next : Record) (recovery : Recovery)
      → (commit_from flash d current recovery next).0 ≡ MetadataStatus.ok
      → (boot_metadata_validate_transition current next ≡ MetadataStatus.ok)
        × (commit_from flash d current recovery next
            ≡ write_copy flash d (commit_target recovery) next)
  unfolding commit_from
  commit_from_ok d current next recovery h = ground arith

  commit_target_holds :
      (d : D) (current next : Record) (recovery : Recovery)
      → IsWords next
      → (commit_from flash d current recovery next).0 ≡ MetadataStatus.ok
      → boot_metadata_decode
          (copy_bytes (mem (commit_from flash d current recovery next).1) (commit_target recovery))
        ≡ done next
  commit_target_holds d current next recovery w h =
      let (valid, same) = commit_from_ok d current next recovery h in
      let written : (write_copy flash d (commit_target recovery) next).0 ≡ MetadataStatus.ok =
        rw same at h in
      rw same (write_copy-decodes d (commit_target recovery) next w written)

  -- A commit that reports success was validated against the journal's record, and has put the new
  -- record into the target copy.
  pub commit_ok :
      (d : D) (next : Record)
      → IsWords next
      → (boot_metadata_commit flash d next).0 ≡ MetadataStatus.ok
      → ((((journal (mem d)).0 ≡ MetadataStatus.ok)
            × (boot_metadata_validate_transition (journal (mem d)).1 next ≡ MetadataStatus.ok))
          ⊎ (((journal (mem d)).0 ≡ MetadataStatus.no_valid_copy)
              × (boot_metadata_validate_transition boot_metadata_empty next ≡ MetadataStatus.ok)))
        × (boot_metadata_decode (
              copy_bytes
                (mem (boot_metadata_commit flash d next).1)
                (commit_target (journal (mem d)).2))
            ≡ done next)
  unfolding boot_metadata_commit
  commit_ok d next w h =
      let (status, current, recovery, d') = boot_metadata_recover_from_flash flash d in
      ground (
        arith,
        recover_from_flash-status flash mem backed d,
        commit_from_ok d' current next recovery,
        commit_from_ok d' boot_metadata_empty next recovery,
        commit_target_holds d' current next recovery w,
        commit_target_holds d' boot_metadata_empty next recovery w,
      )

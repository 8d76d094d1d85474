-- ===== src/Installer/Stable.antt =====
-- The parts of a session that its checks and flushes leave as they are.
use stm32_security_lab.Common.{
  ℕ, ◌+◌, ◌≡◌, refl, inl, inr, Bool, Option-cases, List, length, arith, u32, ◌++◌, ◌-◌, replicate,
}
use stm32_security_lab.Flash.{Flash}
use stm32_security_lab.Slot.{SlotDescriptor}
use stm32_security_lab.Image.Verify.{Crypto}
use stm32_security_lab.Package.{Header}
use stm32_security_lab.Metadata.{Record}
use stm32_security_lab.Installer.{InstallStatus, FaultPoint, checked_round_up, checked_u32_add}
use stm32_security_lab.Installer.Session.{Session, Step, ◌|>◌, refuse_when, update}
use stm32_security_lab.Installer.Blocks.{
  fault_at, program_at, read_back, count_block, program_aligned_block, payload_block_done,
  flush_bytes, flush_payload_program_buffer,
}
use stm32_security_lab.Installer.Verify.{
  hash_payload, hash_installed_payload, verify_streaming_payload_hash,
}

-- What identifies the update: the flash, the key, the slots, the header and the record of the journal.
pub record Core (D : Type 0) : Type 0 where
  pub flash : Flash D
  pub key : List ℕ
  pub candidate : SlotDescriptor
  pub active_slot_id : ℕ
  pub header : Header
  pub writing : Record

abbrev pub core : {D : Type 0} → Session D → Core D
core s = record {
  flash = s.restricted_flash;
  key = s.public_key;
  candidate = s.candidate;
  active_slot_id = s.active_slot_id;
  header = s.header;
  writing = s.writing_metadata;
}

module _ (D : Type 0) where
  unfoldable pub Stable : Step D → Type 0
  Stable m = (w : Session D × D) → core (m w).1 ≡ core w.0

  pub then-Stable : (m k : Step D) → Stable m → Stable k → Stable (m |> k)
  unfolding Stable ◌|>◌
  then-Stable m k hm hk w =
      let e1 = hm w in let e2 = hk ((m w).1, (m w).2) in ground (arith, e1, e2)

  pub fault_at-Stable :
      (point : FaultPoint) (detail : Session D → ℕ) → Stable (fault_at point detail)
  unfolding Stable
  fault_at-Stable point detail w = refl

  pub refuse_when-Stable :
      (test : Session D → Bool) (e : InstallStatus) → Stable (refuse_when test e)
  unfolding Stable refuse_when
  refuse_when-Stable test e w = ground arith

  program_at-Stable : (address : ℕ) (bytes : List ℕ) → Stable (program_at address bytes)
  unfolding Stable program_at
  program_at-Stable address bytes w = ground arith

  read_back-Stable : (address : ℕ) (bytes : List ℕ) → Stable (read_back address bytes)
  unfolding Stable read_back
  read_back-Stable address bytes w = ground arith

  count-Stable : Stable (update count_block)
  unfolding Stable update count_block
  count-Stable w = refl

  block-Stable : (address : ℕ) (bytes : List ℕ) → Stable (program_aligned_block address bytes)
  unfolding program_aligned_block
  block-Stable address bytes = then-Stable _ _ (fault_at-Stable _ _) (
      then-Stable _ _ (program_at-Stable address bytes) (
        then-Stable _ _ (fault_at-Stable _ _) (
          then-Stable _ _ (read_back-Stable address bytes)
            (then-Stable _ _ (refuse_when-Stable _ _) count-Stable))))

  done-Stable : (n : ℕ) → Stable (update (payload_block_done n))
  unfolding Stable update payload_block_done
  done-Stable n w = refl

  flush_bytes-Stable : (n : ℕ) → Stable (flush_bytes n)
  unfolding Stable flush_bytes checked_u32_add
  flush_bytes-Stable n w =
      let s = w.0 in
      let bytes = s.program_buffer ++ replicate (n - length s.program_buffer) 0xFF in
      let address = u32 (s.candidate.payload_base + u32 s.payload_programmed) in
      let round =
        then-Stable (program_aligned_block address bytes) (update (payload_block_done n))
          (block-Stable address bytes) (done-Stable n) w in
      ground (arith, round)

  pub flush-Stable : (final_flush : Bool) → Stable (flush_payload_program_buffer final_flush)
  unfolding Stable flush_payload_program_buffer
  flush-Stable final_flush w =
      let fill = length w.0.program_buffer in
      elim (Option-cases (checked_round_up fill w.0.restricted_flash.program_alignment)) [
        | inl e ↦ ground (arith, e, flush_bytes-Stable fill w)
        | inr (n, e) ↦ ground (arith, e, flush_bytes-Stable fill w, flush_bytes-Stable n w)
      ]

  pub streaming-Stable : (crypto : Crypto) → Stable (verify_streaming_payload_hash crypto)
  unfolding Stable verify_streaming_payload_hash
  streaming-Stable crypto w = ground arith

  hash_payload-Stable : (crypto : Crypto) → Stable (hash_payload crypto)
  unfolding Stable hash_payload
  hash_payload-Stable crypto w = ground arith

  pub hash-Stable : (crypto : Crypto) → Stable (hash_installed_payload crypto)
  unfolding hash_installed_payload
  hash-Stable crypto = then-Stable _ _ (fault_at-Stable _ _) (hash_payload-Stable crypto)

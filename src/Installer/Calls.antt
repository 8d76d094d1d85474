-- ===== src/Installer/Calls.antt =====
-- Sequences of calls to an installer session, and what they leave alone.
use stm32_security_lab.Common.{
  ℕ, zero, suc, ◌+◌, ◌-◌, ◌≡◌, refl, ◌∙◌, inl, inr, true, false, List, [], ◌∷◌, ◌++◌, length, drop,
  take, arith, Result-cases, u32,
}
use stm32_security_lab.Flash.{Flash, boot_flash_read}
use stm32_security_lab.Image.Verify.{Crypto}
use stm32_security_lab.Metadata.{State, Record, boot_metadata_prepare_next}
use stm32_security_lab.Metadata.Journal.{boot_metadata_recover_from_flash}
use stm32_security_lab.Installer.{FaultPoint, SessionState}
use stm32_security_lab.Installer.Session.{Session, Step, ◌|>◌, update}
use stm32_security_lab.Installer.Blocks.{at_most}
use stm32_security_lab.Installer.Verify.{
  hash_chunks, hash_payload, hash_installed_payload, verify_streaming_payload_hash, verify_image,
  verify_installed_package,
}
use stm32_security_lab.Installer.Run.{
  update_installer_begin, accept_bytes, flush_full, write_chunks, write_steps,
  update_installer_write, commit_ready, finish_steps, update_installer_finish, reject_writing,
  undo_writing, abort_steps, update_installer_abort,
}
use stm32_security_lab.Installer.Confined.{
  Guard, Confined, then-Confined, refuse_when-Confined, update-Confined, fault_at-Confined,
  fail_session-Confined, read_kept, flush-Confined,
}
use stm32_security_lab.Installer.Safe.{
  on_device-Confined, commit_metadata_kept, recover_kept, commit_kept, begin-Confined,
}

module _ {D : Type 0} (g : Guard D) where
  flush_full-Confined : Confined g flush_full
  unfolding Confined flush_full
  flush_full-Confined w same = ground (arith, same, flush-Confined g false w same)

  write_chunks-Confined : (fuel : ℕ) (input : List ℕ) → Confined g (write_chunks fuel input)
  unfolding Confined write_chunks accept_bytes
  write_chunks-Confined zero input w same = (same, refl)
  write_chunks-Confined (suc fuel) input w same =
      let space = w.0.options.program_buffer_size - length w.0.program_buffer in
      let consumed = at_most space (length input) in
      let round =
        then-Confined g (update (accept_bytes (take consumed input)))
          (flush_full |> write_chunks fuel (drop consumed input))
          (update-Confined g (accept_bytes (take consumed input)) (λ s. refl))
          (then-Confined g flush_full (write_chunks fuel (drop consumed input)) flush_full-Confined
            (write_chunks-Confined fuel (drop consumed input)))
          w same in
      ground (arith, same, round)

  write_steps-Confined : (offset : ℕ) (input : List ℕ) → Confined g (write_steps offset input)
  unfolding write_steps
  write_steps-Confined offset input = then-Confined g _ _ (refuse_when-Confined g _ _) (
      then-Confined g _ _ (refuse_when-Confined g _ _) (
        then-Confined g _ _ (write_chunks-Confined (suc (length input)) input)
          (update-Confined g _ (λ s. ground arith))))

  write-Confined : (offset : ℕ) (input : List ℕ) → Confined g (update_installer_write offset input)
  unfolding Confined update_installer_write
  write-Confined offset input w same =
      let run =
        fail_session-Confined g (write_steps offset input) (write_steps-Confined offset input) w
          same in
      ground (arith, same, run)

  hash_chunks_kept :
      (fuel : ℕ) (f : Flash D) (base size limit offset : ℕ) (ctx : List ℕ) (d : D)
      → f ≡ g.flash
      → g.mem (hash_chunks fuel f base size limit offset ctx d).2 g.x ≡ g.mem d g.x
  unfolding hash_chunks
  hash_chunks_kept zero f base size limit offset ctx d same = refl
  hash_chunks_kept (suc fuel) f base size limit offset ctx d same =
      let chunk = at_most limit (size - offset) in
      let got = boot_flash_read f d (u32 (base + u32 offset)) chunk in
      let r = read_kept g f d (u32 (base + u32 offset)) chunk same in
      let ih = hash_chunks_kept fuel f base size limit (offset + chunk) (ctx ++ got.1) got.2 same in
      ground (arith, r, ih)

  hash_payload-Confined : (crypto : Crypto) → Confined g (hash_payload crypto)
  unfolding Confined hash_payload
  hash_payload-Confined crypto w same =
      let s = w.0 in
      let kept =
        hash_chunks_kept (suc s.header.payload_size) s.restricted_flash s.candidate.payload_base
          s.header.payload_size s.options.readback_buffer_size 0 [] w.1 same in
      ground (arith, same, kept)

  hash_installed-Confined : (crypto : Crypto) → Confined g (hash_installed_payload crypto)
  unfolding hash_installed_payload
  hash_installed-Confined crypto =
      then-Confined g _ _ (fault_at-Confined g _ _) (hash_payload-Confined crypto)

  streaming_hash-Confined : (crypto : Crypto) → Confined g (verify_streaming_payload_hash crypto)
  unfolding Confined verify_streaming_payload_hash
  streaming_hash-Confined crypto w same = ground (arith, same)

  verify_image-Confined :
      (crypto : Crypto) (memory : D → ℕ → List ℕ) → Confined g (verify_image crypto memory)
  unfolding Confined verify_image
  verify_image-Confined crypto memory w same = ground (arith, same)

  commit_ready_kept :
      (s : Session D) (d : D)
      → s.restricted_flash ≡ g.flash
      → g.mem (commit_ready s d).1 g.x ≡ g.mem d g.x
  unfolding commit_ready
  commit_ready_kept s d same =
      commit_metadata_kept g s.restricted_flash s.writing_metadata State.candidate_ready
        s.active_slot_id s.candidate.id s.header.manifest.image_version s.options
        FaultPoint.metadata_candidate_ready d same

  finish_steps-Confined :
      (crypto : Crypto) (memory : D → ℕ → List ℕ) → Confined g (finish_steps crypto memory)
  unfolding finish_steps verify_installed_package
  finish_steps-Confined crypto memory = then-Confined g _ _ (flush-Confined g true) (
      then-Confined g _ _ (refuse_when-Confined g _ _) (
        then-Confined g _ _ (streaming_hash-Confined crypto) (
          then-Confined g _ _ (hash_installed-Confined crypto) (
            then-Confined g _ _
              (then-Confined g _ _ (fault_at-Confined g _ _) (verify_image-Confined crypto memory))
              (then-Confined g _ _ (on_device-Confined g commit_ready commit_ready_kept)
                (update-Confined g _ (λ s. refl)))))))

  finish-Confined :
      (crypto : Crypto) (memory : D → ℕ → List ℕ)
      → Confined g (update_installer_finish crypto memory)
  unfolding Confined update_installer_finish
  finish-Confined crypto memory w same =
      let run =
        fail_session-Confined g (finish_steps crypto memory) (finish_steps-Confined crypto memory) w
          same in
      ground (arith, same, run)

  reject_writing_kept :
      (current : Record) (s : Session D) (d : D)
      → s.restricted_flash ≡ g.flash
      → g.mem (reject_writing current s d).1 g.x ≡ g.mem d g.x
  unfolding reject_writing
  reject_writing_kept current s d same =
      elim (Result-cases (
        boot_metadata_prepare_next current State.rejected_invalid s.active_slot_id s.candidate.id
          s.header.manifest.image_version 0 0 0)) [
            | inl (next, e) ↦ ground (arith, e, commit_kept g s.restricted_flash d next same)
            | inr (_, e) ↦ ground (arith, e)
          ]

  undo_writing_kept :
      (s : Session D) (d : D)
      → s.restricted_flash ≡ g.flash
      → g.mem (undo_writing s d).1 g.x ≡ g.mem d g.x
  unfolding undo_writing
  undo_writing_kept s d same =
      let got = boot_metadata_recover_from_flash s.restricted_flash d in
      ground
        (arith, recover_kept g s.restricted_flash d same, reject_writing_kept got.1 s got.3 same)

  abort_steps-Confined : Confined g abort_steps
  unfolding Confined abort_steps
  abort_steps-Confined w same =
      ground (arith, same, on_device-Confined g undo_writing undo_writing_kept w same)

  abort-Confined : Confined g update_installer_abort
  unfolding Confined update_installer_abort
  abort-Confined w same =
      let mark : Session D → Session D = λ s. record s { state = SessionState.aborted } in
      let run =
        fail_session-Confined g (abort_steps |> update mark)
          (then-Confined g abort_steps (update mark) abort_steps-Confined
            (update-Confined g mark (λ s. refl)))
          w same in
      ground (arith, same, run)

-- What the owner of a session may call.
pub data Call : Type 0 where
  begin : List ℕ → ℕ → Call
  write : ℕ → List ℕ → Call
  finish abort : Call

module _ {D : Type 0} (crypto : Crypto) (memory : D → ℕ → List ℕ) where
  unfoldable pub call : Call → Step D
  call (Call.begin header_bytes header_size) =
      update_installer_begin crypto memory header_bytes header_size
  call (Call.write payload_offset input) = update_installer_write payload_offset input
  call Call.finish = update_installer_finish crypto memory
  call Call.abort = update_installer_abort

  -- The calls one after another, whatever each returns.
  unfoldable pub run_calls : List Call → Session D × D → Session D × D
  unfolding call
  run_calls [] w = (w.0, w.1)
  run_calls (c ∷ rest) w = run_calls rest ((call c w).1, (call c w).2)

  call-Confined : (g : Guard D) (c : Call) → Confined g (call c)
  unfolding call
  call-Confined g (Call.begin bytes size) = begin-Confined g crypto memory bytes size
  call-Confined g (Call.write offset input) = write-Confined g offset input
  call-Confined g Call.finish = finish-Confined g crypto memory
  call-Confined g Call.abort = abort-Confined g

  pub run_calls_kept :
      (g : Guard D) (calls : List Call) (w : Session D × D)
      → w.0.restricted_flash ≡ g.flash
      → g.mem (run_calls calls w).1 g.x ≡ g.mem w.1 g.x
  unfolding run_calls Confined
  run_calls_kept g [] w same = refl
  run_calls_kept g (c ∷ rest) w same =
      let (s, e) = call-Confined g c w same in
      run_calls_kept g rest ((call c w).1, (call c w).2) s ∙ e

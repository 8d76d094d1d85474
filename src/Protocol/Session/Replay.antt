-- ===== src/Protocol/Session/Replay.antt =====
-- The sequence numbers of a session of update_protocol.c: which frames it carries out.
use stm32_security_lab.Common.{
  ℕ, ◌+◌, ap, inl, inr, Bool-cases, Bool, true, false, not, ◌&&◌, List, [], ◌∷◌, ◌==◌,
  if◌then◌else◌, ◌<◌, ◌≡◌, refl, u16, arith,
}
use stm32_security_lab.Image.Verify.{Crypto}
use stm32_security_lab.Protocol.{ProtocolStatus, Frame, protocol_version}
use stm32_security_lab.Protocol.Encode.{Write, update_protocol_write_frame}
use stm32_security_lab.Protocol.Session.{
  World, status_code, cmd_nack, advance_sequence, send_nack, send_response,
}
use stm32_security_lab.Protocol.Session.Process.{handle_frame}
use stm32_security_lab.Protocol.Session.Moves.{Follows, Reached, if-holds}
use stm32_security_lab.Protocol.Session.States.{execute_frame-Follows}

module _ {D W : Type 0} where
  -- The frame has the version and the sequence number that the session expects.
  abbrev pub is_expected : World D W → Frame → Bool
  is_expected w frame =
      (frame.version == protocol_version) && (frame.sequence == w.session.expected_sequence)

-- Why a frame that is not expected is refused.
abbrev pub refusal : Frame → ProtocolStatus
refusal frame =
    if frame.version == protocol_version
    then ProtocolStatus.sequence_error
    else ProtocolStatus.version_error

module _ {D W : Type 0} (write : Write W) where
  -- What a session that is given the frame returns and becomes when it refuses it for a reason: only the last status changes, and
  -- a NACK of the frame's command and sequence number with the reason is written; the result is the writer's.
  unfoldable pub Nacks : ProtocolStatus → World D W → Frame → ProtocolStatus × World D W → Type 0
  Nacks reason w frame (status, v) =
      (v.device ≡ w.device)
      × (v.session ≡ record w.session { last_status = reason })
      × ((status, v.sent)
          ≡ update_protocol_write_frame write cmd_nack frame.sequence
              (frame.command ∷ status_code reason ∷ 0 ∷ []) 3 w.sent)

module _ {D W : Type 0} (write : Write W) (crypto : Crypto) (memory : D → ℕ → List ℕ) where
  handle_frame_refuses :
      (w : World D W) (frame : Frame)
      → is_expected w frame ≡ false
      → Nacks write (refusal frame) w frame (handle_frame write crypto memory w frame)
  unfolding handle_frame send_nack send_response Nacks
  handle_frame_refuses w frame unexpected = elim (Bool-cases (frame.version == protocol_version)) [
    | inr other ↦ rw (other, handle_frame) (refl, refl, refl)
    | inl known ↦
        let later : (frame.sequence == w.session.expected_sequence) ≡ false =
          ground (arith, unexpected, known) in
        rw (known, later, handle_frame) (refl, refl, refl)
  ]

  handle_frame_advances :
      (w : World D W) (frame : Frame)
      → is_expected w frame ≡ true
      → (handle_frame write crypto memory w frame).1.session.expected_sequence
        ≡ u16 (w.session.expected_sequence + 1)
  unfolding handle_frame advance_sequence Follows Reached
  handle_frame_advances w frame expected =
      let P : ProtocolStatus × World D W → Type 0 =
        λ r. r.1.session.expected_sequence ≡ u16 (w.session.expected_sequence + 1) in
      if-holds P (not (frame.version == protocol_version))
        (λ a. absurd (ground (arith, expected, a)))
        (λ _.
          if-holds P (not (frame.sequence == w.session.expected_sequence))
            (λ b. absurd (ground (arith, expected, b)))
            (λ _. ap (λ n. u16 (n + 1)) (execute_frame-Follows write crypto memory w frame).1))

  -- The frame that was handled, whether it was refused or carried out, is not expected again.
  handled_unexpected :
      (w : World D W) (frame : Frame)
      → w.session.expected_sequence < 65536
      → is_expected (handle_frame write crypto memory w frame).1 frame ≡ false
  unfolding Nacks
  handled_unexpected w frame range = elim (Bool-cases (is_expected w frame)) [
    | inl expected ↦
        let next = handle_frame_advances w frame expected in ground (arith, expected, next, range)
    | inr unexpected ↦
        let same = ap (λ s. s.expected_sequence) (handle_frame_refuses w frame unexpected).1 in
        ground (arith, unexpected, same)
  ]

  -- A session whose expected sequence number is a 16-bit word, given the same frame twice, refuses the second one, with SEQUENCE_ERROR or, for another version, VERSION_ERROR: its status and output are those of writing the NACK, and neither the device nor the session changes but for the last status, which is the reason.
  pub replay_refused :
      (w : World D W) (frame : Frame)
      → w.session.expected_sequence < 65536
      → let w' = (handle_frame write crypto memory w frame).1 in
        Nacks write (refusal frame) w' frame (handle_frame write crypto memory w' frame)
  replay_refused w frame range =
      handle_frame_refuses (handle_frame write crypto memory w frame).1 frame
        (handled_unexpected w frame range)

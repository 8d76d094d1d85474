-- ===== src/Protocol/Session/Commands.antt =====
-- How the handlers of update_protocol.c change the state of a session.
use stm32_security_lab.Common.{
  ℕ, not, ◌||◌, ◌&&◌, List, [], ltb, ◌==◌, if◌then◌else◌, ◌≡◌, refl, arith,
}
use stm32_security_lab.Common.{load_le32, drop, ◌+◌, ◌-◌, leb}
use stm32_security_lab.Protocol.{max_payload_size}
use stm32_security_lab.Installer.Run.{
  update_installer_write, update_installer_finish, update_installer_abort,
}
use stm32_security_lab.Layout.{signed_image_header_size}
use stm32_security_lab.Image.Verify.{Crypto}
use stm32_security_lab.Protocol.{ProtocolStatus, Frame}
use stm32_security_lab.Protocol.Encode.{Write}
use stm32_security_lab.Protocol.Session.{
  ProtocolSession, ProtocolState, World, send_hello_ack, hello_payload, build_status_payload,
  map_installer_status,
}
use stm32_security_lab.Protocol.Session.Handlers.{
  state_is, may_update, payload_is_empty, in_state, with_installer, frame_payload,
  write_block_prefix_size, handle_hello, handle_get_status, begin_failed, begin_installer,
  handle_begin_update, handle_write_block, handle_finish_update, abort_installer,
  handle_abort_update, handle_reset,
}
use stm32_security_lab.Protocol.Session.Moves.{
  Move, stays, aborts, abort_fails, resets, if-holds, status-holds, begin_moves, update_moves,
  Reached, Follows, abort_installer-sequence, begin_installer-sequence, send_ack-Follows,
  send_nack-Follows,
}

module _ {D W : Type 0} (write : Write W) where
  pub handle_hello-Follows :
      (w : World D W) (frame : Frame) → Follows w.session (handle_hello write w frame)
  unfolding handle_hello send_hello_ack Reached
  handle_hello-Follows w frame =
      if-holds (Follows w.session) (not (payload_is_empty frame))
        (λ _.
          send_nack-Follows write w.session w frame.sequence frame.command
            ProtocolStatus.length_error (stays, refl))
        (λ _.
          send_ack-Follows write w.session w frame.sequence frame.command (hello_payload w.session)
            (stays, refl))

  pub handle_get_status-Follows :
      (w : World D W) (frame : Frame) → Follows w.session (handle_get_status write w frame)
  unfolding handle_get_status Reached
  handle_get_status-Follows w frame =
      if-holds (Follows w.session) (not (payload_is_empty frame))
        (λ _.
          send_nack-Follows write w.session w frame.sequence frame.command
            ProtocolStatus.length_error (stays, refl))
        (λ _.
          send_ack-Follows write w.session w frame.sequence frame.command
            (build_status_payload w.session) (stays, refl))

  pub handle_reset-Follows :
      (w : World D W) (frame : Frame) → Follows w.session (handle_reset write w frame)
  unfolding handle_reset Reached
  handle_reset-Follows w frame =
      if-holds (Follows w.session) (not (payload_is_empty frame))
        (λ _.
          send_nack-Follows write w.session w frame.sequence frame.command
            ProtocolStatus.length_error (stays, refl))
        (λ _.
          send_ack-Follows write w.session (in_state ProtocolState.reset_requested w) frame.sequence
            frame.command [] (resets, refl))

  pub handle_abort_update-Follows :
      (w : World D W) (frame : Frame) → Follows w.session (handle_abort_update write w frame)
  unfolding handle_abort_update Reached
  handle_abort_update-Follows w frame =
      let s = w.session in
      let (status, w') = abort_installer w in
      if-holds (Follows s) (not (payload_is_empty frame))
        (λ _.
          send_nack-Follows write s w frame.sequence frame.command ProtocolStatus.length_error
            (stays, refl))
        (λ _.
          if-holds (Follows s) (state_is w ProtocolState.finished)
            (λ _.
              send_nack-Follows write s w frame.sequence frame.command ProtocolStatus.state_error
                (stays, refl))
            (λ running.
              status-holds (Follows s) status
                (send_ack-Follows write s (in_state ProtocolState.aborted w') frame.sequence
                  frame.command [] (aborts (ground (arith, running)), abort_installer-sequence w))
                (λ refused.
                  send_nack-Follows write s (in_state ProtocolState.failed w') frame.sequence
                    frame.command refused
                    (abort_fails (ground (arith, running)), abort_installer-sequence w))))

  pub handle_finish_update-Follows :
      (crypto : Crypto) (memory : D → ℕ → List ℕ) (w : World D W) (frame : Frame)
      → Follows w.session (handle_finish_update write crypto memory w frame)
  unfolding handle_finish_update Reached
  handle_finish_update-Follows crypto memory w frame =
      let s = w.session in
      let (status, installer, device) =
        update_installer_finish crypto memory (w.session.installer, w.device) in
      let w' = with_installer w installer device in
      let finished = in_state ProtocolState.finished w' in
      if-holds (Follows s) (not (payload_is_empty frame))
        (λ _.
          send_nack-Follows write s w frame.sequence frame.command ProtocolStatus.length_error
            (stays, refl))
        (λ _.
          if-holds (Follows s) (not (may_update w))
            (λ _.
              send_nack-Follows write s w frame.sequence frame.command ProtocolStatus.state_error
                (stays, refl))
            (λ running.
              status-holds (Follows s) (map_installer_status status)
                (send_ack-Follows write s finished frame.sequence frame.command
                  (build_status_payload finished.session)
                  ((update_moves s.state w.session.installer_started running).0, refl))
                (λ refused.
                  send_nack-Follows write s (in_state ProtocolState.failed w') frame.sequence
                    frame.command refused
                    ((update_moves s.state w.session.installer_started running).1, refl))))

  pub handle_write_block-Follows :
      (w : World D W) (frame : Frame) → Follows w.session (handle_write_block write w frame)
  unfolding handle_write_block Reached
  handle_write_block-Follows w frame =
      let s = w.session in
      let payload_offset = load_le32 (frame_payload frame) 0 in
      let (status, installer, device) =
        update_installer_write payload_offset (drop write_block_prefix_size (frame_payload frame))
          (w.session.installer, w.device) in
      let w' = with_installer w installer device in
      if-holds (Follows s) (not (may_update w))
        (λ _.
          send_nack-Follows write s w frame.sequence frame.command ProtocolStatus.state_error
            (stays, refl))
        (λ running.
          if-holds (Follows s)
            (leb frame.payload_length write_block_prefix_size
              || ltb max_payload_size frame.payload_length)
            (λ _.
              send_nack-Follows write s w frame.sequence frame.command ProtocolStatus.length_error
                (stays, refl))
            (λ _.
              if-holds (Follows s) (not (payload_offset == w.session.update_payload_offset))
                (λ _.
                  send_nack-Follows write s (in_state ProtocolState.failed w) frame.sequence
                    frame.command ProtocolStatus.sequence_error
                    ((update_moves s.state w.session.installer_started running).1, refl))
                (λ _.
                  status-holds (Follows s) (map_installer_status status)
                    (send_ack-Follows write s
                      (record w' {
                        session = record w'.session {
                          update_payload_offset =
                              w.session.update_payload_offset
                              + (frame.payload_length - write_block_prefix_size);
                        };
                      })
                      frame.sequence frame.command [] (stays, refl))
                    (λ refused.
                      send_nack-Follows write s (in_state ProtocolState.failed w') frame.sequence
                        frame.command refused
                        ((update_moves s.state w.session.installer_started running).1, refl)))))

  begin_failed-Follows :
      (s : ProtocolSession D) (w : World D W) (frame : Frame) (status : ProtocolStatus)
      → Move s.state ProtocolState.failed
      → w.session.expected_sequence ≡ s.expected_sequence
      → Follows s (begin_failed write w frame status)
  unfolding begin_failed Reached
  begin_failed-Follows s w frame status move same =
      let (_, installer, device) = update_installer_abort (w.session.installer, w.device) in
      send_nack-Follows write s
        (in_state ProtocolState.failed
          (if w.session.installer_started then with_installer w installer device else w))
        frame.sequence frame.command status
        (
          move,
          if-holds (λ (v : World D W). v.session.expected_sequence ≡ s.expected_sequence)
              w.session.installer_started (λ _. same) (λ _. same),
        )

  pub handle_begin_update-Follows :
      (crypto : Crypto) (memory : D → ℕ → List ℕ) (w : World D W) (frame : Frame)
      → Follows w.session (handle_begin_update write crypto memory w frame)
  unfolding handle_begin_update Reached
  handle_begin_update-Follows crypto memory w frame =
      let s = w.session in
      let (status, w') = begin_installer crypto memory w frame in
      if-holds (Follows s) (not (frame.payload_length == signed_image_header_size))
        (λ _.
          send_nack-Follows write s w frame.sequence frame.command ProtocolStatus.length_error
            (stays, refl))
        (λ _.
          if-holds (Follows s)
            (not (state_is w ProtocolState.idle) && not (state_is w ProtocolState.aborted))
            (λ _.
              send_nack-Follows write s w frame.sequence frame.command ProtocolStatus.state_error
                (stays, refl))
            (λ may.
              status-holds (Follows s) status
                (send_ack-Follows write s
                  (record w' {
                    session = record w'.session {
                      state = ProtocolState.updating;
                      update_payload_offset = 0;
                    };
                  })
                  frame.sequence frame.command []
                  ((begin_moves s.state may).0, begin_installer-sequence crypto memory w frame))
                (λ refused.
                  begin_failed-Follows s w' frame refused ((begin_moves s.state may).1)
                    (begin_installer-sequence crypto memory w frame))))

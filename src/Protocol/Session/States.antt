-- ===== src/Protocol/Session/States.antt =====
-- The states that a session of update_protocol.c goes through.
use stm32_security_lab.Common.{ℕ, not, List, ◌==◌, refl, none, some}
use stm32_security_lab.Image.Verify.{Crypto}
use stm32_security_lab.Protocol.{
  ProtocolStatus, ParseStatus, Frame, protocol_version, update_protocol_parser_push,
  update_protocol_parser_error_info,
}
use stm32_security_lab.Protocol.Encode.{Write}
use stm32_security_lab.Protocol.Session.{
  World, send_response, send_nack, advance_sequence, cmd_hello, cmd_get_info, cmd_begin_update,
  cmd_write_block, cmd_finish_update, cmd_get_status, cmd_abort_update, cmd_reset,
}
use stm32_security_lab.Protocol.Session.Handlers.{handle_get_info, execute_frame}
use stm32_security_lab.Protocol.Session.Process.{
  with_parser, parse_error_status, handle_frame, handle_parse_error, handle_parsed,
  update_protocol_session_process_byte,
}
use stm32_security_lab.Protocol.Session.Moves.{
  Move, stays, if-holds, Reached, Follows, send_nack-Follows,
}
use stm32_security_lab.Protocol.Session.Commands.{
  handle_hello-Follows, handle_get_status-Follows, handle_reset-Follows,
  handle_abort_update-Follows, handle_finish_update-Follows, handle_write_block-Follows,
  handle_begin_update-Follows,
}

module _ {D W : Type 0} (write : Write W) where
  pub execute_frame-Follows :
      (crypto : Crypto) (memory : D → ℕ → List ℕ) (w : World D W) (frame : Frame)
      → Follows w.session (execute_frame write crypto memory w frame)
  unfolding execute_frame handle_get_info Reached
  execute_frame-Follows crypto memory w frame =
      let P = Follows w.session in
      let c = frame.command in
      if-holds P (c == cmd_hello) (λ _. handle_hello-Follows write w frame)
        (λ _.
          if-holds P (c == cmd_get_info) (λ _. handle_hello-Follows write w frame)
            (λ _.
              if-holds P (c == cmd_begin_update)
                (λ _. handle_begin_update-Follows write crypto memory w frame)
                (λ _.
                  if-holds P (c == cmd_write_block) (λ _. handle_write_block-Follows write w frame)
                    (λ _.
                      if-holds P (c == cmd_finish_update)
                        (λ _. handle_finish_update-Follows write crypto memory w frame)
                        (λ _.
                          if-holds P (c == cmd_get_status)
                            (λ _. handle_get_status-Follows write w frame)
                            (λ _.
                              if-holds P (c == cmd_abort_update)
                                (λ _. handle_abort_update-Follows write w frame)
                                (λ _.
                                  if-holds P (c == cmd_reset)
                                    (λ _. handle_reset-Follows write w frame)
                                    (λ _.
                                      send_nack-Follows write w.session w frame.sequence c
                                        ProtocolStatus.unknown_command (stays, refl)))))))))

  handle_frame-Move :
      (crypto : Crypto) (memory : D → ℕ → List ℕ) (w : World D W) (frame : Frame)
      → Move w.session.state (handle_frame write crypto memory w frame).1.session.state
  unfolding handle_frame advance_sequence send_nack send_response Follows Reached
  handle_frame-Move crypto memory w frame =
      let P : ProtocolStatus × World D W → Type 0 = λ r. Move w.session.state r.1.session.state in
      if-holds P (not (frame.version == protocol_version)) (λ _. stays)
        (λ _.
          if-holds P (not (frame.sequence == w.session.expected_sequence)) (λ _. stays)
            (λ _. (execute_frame-Follows crypto memory w frame).0))

  handle_parse_error-Follows :
      (w : World D W) (status : ParseStatus) → Follows w.session (handle_parse_error write w status)
  unfolding handle_parse_error Reached
  handle_parse_error-Follows w status =
      elim (update_protocol_parser_error_info w.session.parser)
        as (λ e. Follows {D = D} {W = W} w.session (elim e [
          | none ↦ send_nack write w w.session.expected_sequence 0 (parse_error_status status)
          | some (command, sequence) ↦
              send_nack write w sequence command (parse_error_status status)
        ])) [
          | none ↦
              send_nack-Follows write w.session w w.session.expected_sequence 0
                (parse_error_status status) (stays, refl)
          | some (command, sequence) ↦
              send_nack-Follows write w.session w sequence command (parse_error_status status)
                (stays, refl)
        ]

  -- Whatever byte a session is given, and whatever the device and the writer report, its state stays or makes one of the moves: to updating only from idle or aborted, to finished only from updating, to aborted or failed from any state but finished, and to reset_requested from any.
  pub process_byte-Move :
      (crypto : Crypto) (memory : D → ℕ → List ℕ) (w : World D W) (byte : ℕ)
      → Move w.session.state
          (update_protocol_session_process_byte write crypto memory w byte).1.session.state
  unfolding update_protocol_session_process_byte handle_parsed Follows Reached
  process_byte-Move crypto memory w byte =
      let (parse_status, parser) = update_protocol_parser_push w.session.parser byte in
      let w' = with_parser parser w in
      elim parse_status
        as (λ t.
          Move w.session.state
            (elim t as (λ _. ProtocolStatus × World D W) [
              | ParseStatus.need_more ↦ (ProtocolStatus.ok, w')
              | parsed ↦ handle_parsed write crypto memory w' parsed
            ]).1.session.state) [
              | ParseStatus.need_more ↦ stays
              | ParseStatus.frame_ready ↦ handle_frame-Move crypto memory w' w'.session.parser.frame
              | refused ↦ (handle_parse_error-Follows w' refused).0
            ]

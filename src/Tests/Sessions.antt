-- ===== src/Tests/Sessions.antt =====
-- A session of the update protocol that is given a request for a reset.
use stm32_security_lab.Common.{ℕ, ◌≡◌, refl, List, [], ◌++◌, arith, take}
use stm32_security_lab.Common.{get_or}
use stm32_security_lab.Common.Crc.{crc32_update}
use stm32_security_lab.Protocol.{
  ProtocolStatus, Frame, protocol_version, parser_reset_state, update_protocol_parser_init,
  update_protocol_parser_push,
}
use stm32_security_lab.Protocol.Encode.{Write}
use stm32_security_lab.Protocol.RoundTrip.{push_all, frame_bytes}
use stm32_security_lab.Protocol.Session.{
  ProtocolState, World, cmd_reset, send_ack, send_response, advance_sequence,
  update_protocol_session_init,
}
use stm32_security_lab.Protocol.Session.Handlers.{handle_reset, execute_frame}
use stm32_security_lab.Protocol.Session.Process.{
  handle_parsed, handle_frame, update_protocol_session_process_byte,
}
use stm32_security_lab.Protocol.Session.States.{process_byte-Move}
use stm32_security_lab.Protocol.Session.Moves.{Move}
use stm32_security_lab.Protocol.Session.Replay.{Nacks, replay_refused}
use stm32_security_lab.Tests.{device, holding, confirmed_a}
use stm32_security_lab.Tests.Boot.{accepting, memory}
use stm32_security_lab.Tests.Updates.{options}

-- A writer that collects the bytes.
abbrev collect : Write (List ℕ)
collect part sent = (ProtocolStatus.ok, sent ++ part)

abbrev request : Frame
request = record {
  version = protocol_version;
  command = cmd_reset;
  sequence = 0;
  payload_length = 0;
  payload = [];
}

abbrev listening : World (ℕ → ℕ) (List ℕ)
listening = record {
  session = update_protocol_session_init device [] options;
  device = holding confirmed_a;
  sent = [];
}

-- The session behind all but the last byte of the request.
abbrev waiting : World (ℕ → ℕ) (List ℕ)
waiting = record listening {
  session = record listening.session {
    parser = (push_all update_protocol_parser_init (take 13 (frame_bytes cmd_reset 0 []))).1;
  };
}

abbrev last_byte : ℕ
last_byte = get_or (frame_bytes cmd_reset 0 []) 13 0

-- The last byte makes the session ask for the reset.
reset_is_requested :
    (update_protocol_session_process_byte collect accepting memory waiting
      last_byte).1.session.state
    ≡ ProtocolState.reset_requested
unfolding update_protocol_session_process_byte handle_parsed handle_frame execute_frame handle_reset
    send_ack send_response update_protocol_session_init update_protocol_parser_init
    parser_reset_state advance_sequence update_protocol_parser_push push_all crc32_update
reset_is_requested = refl

process_byte-Move_example :
    Move waiting.session.state
      (update_protocol_session_process_byte collect accepting memory waiting
        last_byte).1.session.state
process_byte-Move_example = process_byte-Move collect accepting memory waiting last_byte

replay_refused_example :
    let after = (handle_frame collect accepting memory listening request).1 in
    Nacks collect ProtocolStatus.sequence_error after request
      (handle_frame collect accepting memory after request)
unfolding update_protocol_session_init
replay_refused_example = replay_refused collect accepting memory listening request (omega arith)

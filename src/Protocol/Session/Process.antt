-- ===== src/Protocol/Session/Process.antt =====
-- The frames and the bytes that a session is given.
use stm32_security_lab.Common.{ℕ, zero, suc, not, none, some, ◌==◌, if◌then◌else◌, done, fail}
use stm32_security_lab.Image.Verify.{Crypto}
use stm32_security_lab.Common.{List}
use stm32_security_lab.ByteReader.{ReaderStatus, Getc, byte_reader_getc_timeout}
use stm32_security_lab.Protocol.{
  ProtocolStatus, ParseStatus, Parser, Frame, protocol_version, update_protocol_parser_init,
  update_protocol_parser_push, update_protocol_parser_has_partial,
  update_protocol_parser_error_info,
}
use stm32_security_lab.Protocol.Encode.{Write}
use stm32_security_lab.Protocol.Session.{
  World, advance_sequence, send_nack, send_hello_ack, with_last_status, cmd_hello,
}
use stm32_security_lab.Protocol.Session.Handlers.{nack, execute_frame}

-- Two frames of the largest size.
abbrev pub reader_max_bytes : ℕ
reader_max_bytes = 2076

unfoldable pub parse_error_status : ParseStatus → ProtocolStatus
parse_error_status ParseStatus.err_oversize = ProtocolStatus.oversize_error
parse_error_status ParseStatus.err_crc = ProtocolStatus.crc_error
parse_error_status ParseStatus.err_invalid_argument = ProtocolStatus.invalid_argument
parse_error_status _ = ProtocolStatus.parser_error

module _ {D W : Type 0} where
  abbrev pub with_parser : Parser → World D W → World D W
  with_parser parser w = record w { session = record w.session { parser = parser } }

  abbrev pub advanced : World D W → World D W
  advanced w = record w { session = advance_sequence w.session }

module _ {D W : Type 0} (write : Write W) where
  unfoldable pub update_protocol_session_accept_initial_hello :
      World D W → ProtocolStatus × World D W
  update_protocol_session_accept_initial_hello w =
      let (status, w') = send_hello_ack write w 0 cmd_hello in
      if not (w.session.expected_sequence == 0)
      then send_nack write w 0 cmd_hello ProtocolStatus.sequence_error
      else elim status [
        | ProtocolStatus.ok ↦ (ProtocolStatus.ok, advanced w')
        | failed ↦ (failed, w')
      ]

  unfoldable pub handle_frame :
      Crypto → (D → ℕ → List ℕ) → World D W → Frame → ProtocolStatus × World D W
  handle_frame crypto memory w frame =
      let (status, w') = execute_frame write crypto memory w frame in
      if not (frame.version == protocol_version)
      then nack write w frame ProtocolStatus.version_error
      else if not (frame.sequence == w.session.expected_sequence)
      then nack write w frame ProtocolStatus.sequence_error
      else (status, advanced w')

  -- Without error information the error is reported for command 0 and the expected sequence number.
  unfoldable pub handle_parse_error : World D W → ParseStatus → ProtocolStatus × World D W
  unfolding parse_error_status
  handle_parse_error w parse_status = elim (update_protocol_parser_error_info w.session.parser) [
    | none ↦ send_nack write w w.session.expected_sequence 0 (parse_error_status parse_status)
    | some (command, sequence) ↦
        send_nack write w sequence command (parse_error_status parse_status)
  ]

  -- What a parse status other than NEED_MORE leads to.
  unfoldable pub handle_parsed :
      Crypto → (D → ℕ → List ℕ) → World D W → ParseStatus → ProtocolStatus × World D W
  unfolding handle_frame handle_parse_error
  handle_parsed crypto memory w parse_status = elim parse_status [
    | ParseStatus.frame_ready ↦ handle_frame crypto memory w w.session.parser.frame
    | refused ↦ handle_parse_error w refused
  ]

  unfoldable pub update_protocol_session_process_byte :
      Crypto → (D → ℕ → List ℕ) → World D W → ℕ → ProtocolStatus × World D W
  unfolding handle_parsed
  update_protocol_session_process_byte crypto memory w byte =
      let (parse_status, parser) = update_protocol_parser_push w.session.parser byte in
      let w' = with_parser parser w in
      elim parse_status [
        | ParseStatus.need_more ↦ (ProtocolStatus.ok, w')
        | parsed ↦ handle_parsed crypto memory w' parsed
      ]

  -- A timeout drops a partial frame, and reports it where its header is known.
  unfoldable pub reader_timeout : World D W → ProtocolStatus × World D W
  reader_timeout w =
      let w1 =
        with_last_status ProtocolStatus.timeout (with_parser update_protocol_parser_init w) in
      if not (update_protocol_parser_has_partial w.session.parser)
      then (ProtocolStatus.timeout, w)
      else elim (update_protocol_parser_error_info w.session.parser) [
        | none ↦ (ProtocolStatus.timeout, w1)
        | some (command, sequence) ↦
            let (status, w2) = send_nack write w1 sequence command ProtocolStatus.timeout in
            elim status [ ProtocolStatus.ok ↦ (ProtocolStatus.timeout, w2) | failed ↦ (failed, w2) ]
      ]

  module _ {S : Type 0} (getc : Getc S) where
    -- The loop, which ends by itself with the byte count: the first argument is how many more bytes
    -- are accepted.
    unfoldable pub process_bytes :
        Crypto → (D → ℕ → List ℕ) → ℕ → ℕ → World D W → S → ProtocolStatus × World D W × S
    unfolding reader_timeout handle_parsed
    process_bytes crypto memory polls zero w s =
        let (read, s') = byte_reader_getc_timeout getc polls s in
        let (status, w') = reader_timeout w in
        elim read [
          | fail ReaderStatus.timeout ↦ (status, w', s')
          | fail _ ↦ (ProtocolStatus.io_error, with_last_status ProtocolStatus.io_error w, s')
          | done _ ↦ (
            ProtocolStatus.timeout,
            with_last_status ProtocolStatus.timeout (with_parser update_protocol_parser_init w),
            s',
          )
        ]
    process_bytes crypto memory polls (suc more) w s =
        let (read, s') = byte_reader_getc_timeout getc polls s in
        let (status, w') = reader_timeout w in
        elim read [
          | fail ReaderStatus.timeout ↦ (status, w', s')
          | fail _ ↦ (ProtocolStatus.io_error, with_last_status ProtocolStatus.io_error w, s')
          | done byte ↦
              let (parse_status, parser) = update_protocol_parser_push w.session.parser byte in
              let w1 = with_parser parser w in
              let (handled, w2) = handle_parsed crypto memory w1 parse_status in
              let rest = process_bytes crypto memory polls more w1 s' in
              elim parse_status [ ParseStatus.need_more ↦ rest | _ ↦ (handled, w2, s') ]
        ]

    unfoldable pub update_protocol_session_process_reader :
        Crypto → (D → ℕ → List ℕ) → ℕ → World D W → S → ProtocolStatus × World D W × S
    unfolding process_bytes
    update_protocol_session_process_reader crypto memory byte_timeout_polls w s =
        process_bytes crypto memory byte_timeout_polls reader_max_bytes w s

-- ===== src/Protocol/Session/Handlers.antt =====
-- The handler of each command.
use stm32_security_lab.Common.{
  ℕ, ◌+◌, ◌-◌, Bool, true, not, ◌||◌, ◌&&◌, List, [], take, drop, leb, ltb, ◌==◌, if◌then◌else◌,
  load_le32,
}
use stm32_security_lab.Layout.{signed_image_header_size}
use stm32_security_lab.Image.Verify.{Crypto}
use stm32_security_lab.Protocol.{ProtocolStatus, Frame, max_payload_size}
use stm32_security_lab.Protocol.Encode.{Write}
use stm32_security_lab.Installer.Session.{Session}
use stm32_security_lab.Installer.Run.{
  update_installer_session_init, update_installer_begin, update_installer_write,
  update_installer_finish, update_installer_abort,
}
use stm32_security_lab.Protocol.Session.{
  ProtocolState, World, protocol_state_code, map_installer_status, build_status_payload, send_nack,
  send_ack, send_hello_ack, cmd_hello, cmd_get_info, cmd_begin_update, cmd_write_block,
  cmd_finish_update, cmd_get_status, cmd_abort_update, cmd_reset,
}

abbrev pub write_block_prefix_size : ℕ
write_block_prefix_size = 4

abbrev pub payload_is_empty : Frame → Bool
payload_is_empty frame = frame.payload_length == 0

-- The bytes that arrived; the buffer behind them is older.
abbrev pub frame_payload : Frame → List ℕ
frame_payload frame = take frame.payload_length frame.payload

module _ {D W : Type 0} where
  -- The session in another state.
  abbrev pub in_state : ProtocolState → World D W → World D W
  in_state state w = record w { session = record w.session { state = state } }

  -- The session and the device after a call to the installer.
  abbrev pub with_installer : World D W → Session D → D → World D W
  with_installer w installer device = record w {
    session = record w.session { installer = installer };
    device = device;
  }

  abbrev pub state_is : World D W → ProtocolState → Bool
  state_is w state = protocol_state_code w.session.state == protocol_state_code state

  -- `installer_started` is set between the initialisation and the begin.
  unfoldable pub begin_installer :
      Crypto → (D → ℕ → List ℕ) → World D W → Frame → ProtocolStatus × World D W
  begin_installer crypto memory w frame =
      let s = w.session in
      let (initialised, installer, device) =
        update_installer_session_init s.flash s.public_key s.install_options w.device in
      let (begun, installer', device') =
        update_installer_begin crypto memory (frame_payload frame) frame.payload_length
          (installer, device) in
      let w1 = with_installer w installer device in
      let w2 = with_installer w1 installer' device' in
      elim (map_installer_status initialised) [
        | ProtocolStatus.ok ↦ (
          map_installer_status begun,
          record w2 { session = record w2.session { installer_started = true } },
        )
        | refused ↦ (refused, w1)
      ]

  abbrev pub may_update : World D W → Bool
  may_update w = state_is w ProtocolState.updating && w.session.installer_started

  unfoldable pub abort_installer : World D W → ProtocolStatus × World D W
  abort_installer w =
      let (status, installer, device) = update_installer_abort (w.session.installer, w.device) in
      if w.session.installer_started
      then (map_installer_status status, with_installer w installer device)
      else (ProtocolStatus.ok, w)

module _ {D W : Type 0} (write : Write W) where
  abbrev pub nack : World D W → Frame → ProtocolStatus → ProtocolStatus × World D W
  nack w frame status = send_nack write w frame.sequence frame.command status

  unfoldable pub handle_hello : World D W → Frame → ProtocolStatus × World D W
  handle_hello w frame =
      if not (payload_is_empty frame)
      then nack w frame ProtocolStatus.length_error
      else send_hello_ack write w frame.sequence frame.command

  unfoldable pub handle_get_info : World D W → Frame → ProtocolStatus × World D W
  unfolding handle_hello
  handle_get_info w frame = handle_hello w frame

  unfoldable pub handle_get_status : World D W → Frame → ProtocolStatus × World D W
  handle_get_status w frame =
      if not (payload_is_empty frame)
      then nack w frame ProtocolStatus.length_error
      else send_ack write w frame.sequence frame.command (build_status_payload w.session)

  -- A session that failed to begin is aborted once it was started.
  unfoldable pub begin_failed : World D W → Frame → ProtocolStatus → ProtocolStatus × World D W
  begin_failed w frame status =
      let (_, installer, device) = update_installer_abort (w.session.installer, w.device) in
      let w' = if w.session.installer_started then with_installer w installer device else w in
      nack (in_state ProtocolState.failed w') frame status

  unfoldable pub handle_begin_update :
      Crypto → (D → ℕ → List ℕ) → World D W → Frame → ProtocolStatus × World D W
  unfolding begin_failed begin_installer
  handle_begin_update crypto memory w frame =
      let (status, w') = begin_installer crypto memory w frame in
      if not (frame.payload_length == signed_image_header_size)
      then nack w frame ProtocolStatus.length_error
      else if not (state_is w ProtocolState.idle) && not (state_is w ProtocolState.aborted)
      then nack w frame ProtocolStatus.state_error
      else elim status [
        | ProtocolStatus.ok ↦
            send_ack write
              (record w' {
                session = record w'.session {
                  state = ProtocolState.updating;
                  update_payload_offset = 0;
                };
              })
              frame.sequence frame.command []
        | refused ↦ begin_failed w' frame refused
      ]

  unfoldable pub handle_write_block : World D W → Frame → ProtocolStatus × World D W
  handle_write_block w frame =
      let payload_offset = load_le32 (frame_payload frame) 0 in
      let block_length = frame.payload_length - write_block_prefix_size in
      let (written, installer, device) =
        update_installer_write payload_offset (drop write_block_prefix_size (frame_payload frame))
          (w.session.installer, w.device) in
      let w' = with_installer w installer device in
      if not (may_update w)
      then nack w frame ProtocolStatus.state_error
      else if leb frame.payload_length write_block_prefix_size
          || ltb max_payload_size frame.payload_length
      then nack w frame ProtocolStatus.length_error
      else if not (payload_offset == w.session.update_payload_offset)
      then nack (in_state ProtocolState.failed w) frame ProtocolStatus.sequence_error
      else elim (map_installer_status written) [
        | ProtocolStatus.ok ↦
            send_ack write
              (record w' {
                session = record w'.session {
                  update_payload_offset = w.session.update_payload_offset + block_length;
                };
              })
              frame.sequence frame.command []
        | refused ↦ nack (in_state ProtocolState.failed w') frame refused
      ]

  unfoldable pub handle_finish_update :
      Crypto → (D → ℕ → List ℕ) → World D W → Frame → ProtocolStatus × World D W
  handle_finish_update crypto memory w frame =
      let (done_with, installer, device) =
        update_installer_finish crypto memory (w.session.installer, w.device) in
      let w' = with_installer w installer device in
      let finished = in_state ProtocolState.finished w' in
      if not (payload_is_empty frame)
      then nack w frame ProtocolStatus.length_error
      else if not (may_update w)
      then nack w frame ProtocolStatus.state_error
      else elim (map_installer_status done_with) [
        | ProtocolStatus.ok ↦
            send_ack write finished frame.sequence frame.command
              (build_status_payload finished.session)
        | refused ↦ nack (in_state ProtocolState.failed w') frame refused
      ]

  unfoldable pub handle_abort_update : World D W → Frame → ProtocolStatus × World D W
  unfolding abort_installer
  handle_abort_update w frame =
      let (status, w') = abort_installer w in
      if not (payload_is_empty frame)
      then nack w frame ProtocolStatus.length_error
      else if state_is w ProtocolState.finished
      then nack w frame ProtocolStatus.state_error
      else elim status [
        | ProtocolStatus.ok ↦
            send_ack write (in_state ProtocolState.aborted w') frame.sequence frame.command []
        | refused ↦ nack (in_state ProtocolState.failed w') frame refused
      ]

  unfoldable pub handle_reset : World D W → Frame → ProtocolStatus × World D W
  handle_reset w frame =
      if not (payload_is_empty frame)
      then nack w frame ProtocolStatus.length_error
      else send_ack write (in_state ProtocolState.reset_requested w) frame.sequence frame.command []

  unfoldable pub execute_frame :
      Crypto → (D → ℕ → List ℕ) → World D W → Frame → ProtocolStatus × World D W
  unfolding handle_hello handle_get_info handle_get_status handle_begin_update handle_write_block
      handle_finish_update handle_abort_update handle_reset
  execute_frame crypto memory w frame =
      if frame.command == cmd_hello
      then handle_hello w frame
      else if frame.command == cmd_get_info
      then handle_get_info w frame
      else if frame.command == cmd_begin_update
      then handle_begin_update crypto memory w frame
      else if frame.command == cmd_write_block
      then handle_write_block w frame
      else if frame.command == cmd_finish_update
      then handle_finish_update crypto memory w frame
      else if frame.command == cmd_get_status
      then handle_get_status w frame
      else if frame.command == cmd_abort_update
      then handle_abort_update w frame
      else if frame.command == cmd_reset
      then handle_reset w frame
      else nack w frame ProtocolStatus.unknown_command

-- ===== src/Protocol/Session.antt =====
-- The session of the update protocol: its state and its answers. The state of the writer is W, that of
-- the flash device D; both are handed on.
pub mod Handlers
pub mod Process
pub mod Moves
pub mod Commands
pub mod Replay
pub mod States
use stm32_security_lab.Common.{
  ℕ, ◌+◌, ◌-◌, Bool, true, false, Option, none, some, List, [], ◌∷◌, ◌++◌, length, ltb, ◌==◌,
  if◌then◌else◌, u16,
}
use stm32_security_lab.Flash.{Flash}
use stm32_security_lab.Protocol.{
  ProtocolStatus, Parser, header_size, crc_size, max_payload_size, protocol_version,
  update_protocol_parser_init,
}
use stm32_security_lab.Protocol.Encode.{Write, le16_bytes, le32_bytes, update_protocol_write_frame}
use stm32_security_lab.Installer.{InstallStatus, InstallOptions, SessionState}
use stm32_security_lab.Installer.Session.{Session, cleared}

-- `update_protocol_session_state_t`.
pub data ProtocolState : Type 0 where
  idle updating finished aborted failed reset_requested : ProtocolState

-- UPDATE_PROTOCOL_CMD_*.
abbrev pub cmd_hello : ℕ
cmd_hello = 0x01

abbrev pub cmd_get_info : ℕ
cmd_get_info = 0x02

abbrev pub cmd_begin_update : ℕ
cmd_begin_update = 0x03

abbrev pub cmd_write_block : ℕ
cmd_write_block = 0x04

abbrev pub cmd_finish_update : ℕ
cmd_finish_update = 0x05

abbrev pub cmd_get_status : ℕ
cmd_get_status = 0x06

abbrev pub cmd_abort_update : ℕ
cmd_abort_update = 0x07

abbrev pub cmd_reset : ℕ
cmd_reset = 0x08

abbrev pub cmd_ack : ℕ
cmd_ack = 0x80

abbrev pub cmd_nack : ℕ
cmd_nack = 0x81

-- The numbers of the enumerations, as they go into a payload.
abbrev pub status_code : ProtocolStatus → ℕ
status_code ProtocolStatus.ok = 0
status_code ProtocolStatus.parser_error = 1
status_code ProtocolStatus.state_error = 2
status_code ProtocolStatus.flash_error = 3
status_code ProtocolStatus.verify_error = 4
status_code ProtocolStatus.rollback_error = 5
status_code ProtocolStatus.crc_error = 6
status_code ProtocolStatus.version_error = 7
status_code ProtocolStatus.length_error = 8
status_code ProtocolStatus.oversize_error = 9
status_code ProtocolStatus.sequence_error = 10
status_code ProtocolStatus.unknown_command = 11
status_code ProtocolStatus.timeout = 12
status_code ProtocolStatus.io_error = 13
status_code ProtocolStatus.invalid_argument = 14
status_code ProtocolStatus.installer_error = 15

abbrev pub protocol_state_code : ProtocolState → ℕ
protocol_state_code ProtocolState.idle = 0
protocol_state_code ProtocolState.updating = 1
protocol_state_code ProtocolState.finished = 2
protocol_state_code ProtocolState.aborted = 3
protocol_state_code ProtocolState.failed = 4
protocol_state_code ProtocolState.reset_requested = 5

abbrev pub installer_state_code : SessionState → ℕ
installer_state_code SessionState.empty = 0
installer_state_code SessionState.initialized = 1
installer_state_code SessionState.writing = 2
installer_state_code SessionState.payload_complete = 3
installer_state_code SessionState.finished = 4
installer_state_code SessionState.aborted = 5
installer_state_code SessionState.failed = 6

-- `install_result` is the result of `installer`.
pub record ProtocolSession (D : Type 0) : Type 0 where
  pub parser : Parser
  pub flash : Flash D
  pub public_key : List ℕ
  pub install_options : InstallOptions
  pub installer : Session D
  pub state : ProtocolState
  pub last_status : ProtocolStatus
  pub expected_sequence : ℕ
  pub update_payload_offset : ℕ
  pub installer_started : Bool

unfoldable pub map_installer_status : InstallStatus → ProtocolStatus
map_installer_status InstallStatus.ok = ProtocolStatus.ok
map_installer_status InstallStatus.err_rollback = ProtocolStatus.rollback_error
map_installer_status InstallStatus.err_package = ProtocolStatus.verify_error
map_installer_status InstallStatus.err_hash = ProtocolStatus.verify_error
map_installer_status InstallStatus.err_installed_verify = ProtocolStatus.verify_error
map_installer_status InstallStatus.err_metadata = ProtocolStatus.flash_error
map_installer_status InstallStatus.err_slot = ProtocolStatus.flash_error
map_installer_status InstallStatus.err_capacity = ProtocolStatus.flash_error
map_installer_status InstallStatus.err_erase = ProtocolStatus.flash_error
map_installer_status InstallStatus.err_program = ProtocolStatus.flash_error
map_installer_status InstallStatus.err_readback = ProtocolStatus.flash_error
map_installer_status InstallStatus.err_active_state = ProtocolStatus.state_error
map_installer_status InstallStatus.err_state = ProtocolStatus.state_error
map_installer_status InstallStatus.err_sequence = ProtocolStatus.sequence_error
map_installer_status InstallStatus.err_invalid_argument = ProtocolStatus.invalid_argument
map_installer_status InstallStatus.err_injected = ProtocolStatus.installer_error

-- What every response starts with.
abbrev pub response_common : ℕ → ProtocolStatus → List ℕ
response_common request_command status = request_command ∷ le16_bytes (status_code status)

module _ {D : Type 0} where
  unfoldable pub update_protocol_session_init :
      Flash D → List ℕ → InstallOptions → ProtocolSession D
  update_protocol_session_init flash public_key install_options = record {
    parser = update_protocol_parser_init;
    flash = flash;
    public_key = public_key;
    install_options = install_options;
    installer = cleared flash public_key install_options;
    state = ProtocolState.idle;
    last_status = ProtocolStatus.ok;
    expected_sequence = 0;
    update_payload_offset = 0;
    installer_started = false;
  }

  unfoldable pub build_status_payload : ProtocolSession D → List ℕ
  build_status_payload s =
      (protocol_state_code s.state ∷ [])
      ++ le16_bytes (status_code s.last_status)
      ++ le16_bytes s.expected_sequence
      ++ (installer_state_code s.installer.state ∷ [])
      ++ le32_bytes s.update_payload_offset
      ++ le32_bytes s.installer.result.image_version
      ++ le32_bytes s.installer.result.programmed_block_count

  unfoldable pub hello_payload : ProtocolSession D → List ℕ
  hello_payload s =
      (protocol_version ∷ [])
      ++ le16_bytes max_payload_size
      ++ le16_bytes (max_payload_size - 4)
      ++ le16_bytes header_size
      ++ le16_bytes crc_size
      ++ (protocol_state_code s.state ∷ [])

  unfoldable pub advance_sequence : ProtocolSession D → ProtocolSession D
  advance_sequence s = record s { expected_sequence = u16 (s.expected_sequence + 1) }

-- The session with the device and the writer.
pub record World (D W : Type 0) : Type 0 where
  pub session : ProtocolSession D
  pub device : D
  pub sent : W

module _ {D W : Type 0} where
  abbrev pub with_last_status : ProtocolStatus → World D W → World D W
  with_last_status status w = record w { session = record w.session { last_status = status } }

module _ {D W : Type 0} (write : Write W) where
  unfoldable pub send_response : World D W → ℕ → ℕ → List ℕ → ProtocolStatus × World D W
  send_response w response_command sequence payload =
      let (status, sent) =
        update_protocol_write_frame write response_command sequence payload (length payload)
          w.sent in
      (status, record w { sent = sent })

  unfoldable pub send_nack : World D W → ℕ → ℕ → ProtocolStatus → ProtocolStatus × World D W
  unfolding send_response
  send_nack w sequence request_command status =
      let reported : ProtocolStatus = elim status [
        | ProtocolStatus.ok ↦ ProtocolStatus.parser_error
        | other ↦ other
      ] in
      send_response (with_last_status reported w) cmd_nack sequence
        (response_common request_command reported)

  -- The payload has room for 18 extra bytes.
  unfoldable pub send_ack : World D W → ℕ → ℕ → List ℕ → ProtocolStatus × World D W
  unfolding send_response
  send_ack w sequence request_command extra =
      if ltb 18 (length extra)
      then (ProtocolStatus.invalid_argument, w)
      else send_response (with_last_status ProtocolStatus.ok w) cmd_ack sequence
          (response_common request_command ProtocolStatus.ok ++ extra)

  unfoldable pub send_hello_ack : World D W → ℕ → ℕ → ProtocolStatus × World D W
  unfolding hello_payload send_ack
  send_hello_ack w sequence command = send_ack w sequence command (hello_payload w.session)

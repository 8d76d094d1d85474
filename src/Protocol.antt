-- ===== src/Protocol.antt =====
-- firmware/exp045_bootloader_v2/src/update_protocol.c: the frames of the update protocol. A frame is a
-- 10-byte header (magic "SUPD", version, command, sequence number, length), the payload and a CRC-32.
-- This file has the parser, a state machine that is fed byte by byte; the child modules have the encoder,
-- the session that answers the frames, and what is proved of them.
pub mod Encode
pub mod RoundTrip
pub mod Bounds
pub mod Session
use stm32_security_lab.Common.{
  ℕ, zero, suc, ◌+◌, Bool, true, false, not, Option, none, some, List, [], ◌∷◌, take, set, get_or,
  replicate, ltb, ◌==◌, if◌then◌else◌, load_le16, load_le32, crc32_update,
}

abbrev pub magic_size : ℕ
magic_size = 4

abbrev pub header_size : ℕ
header_size = 10

abbrev pub crc_size : ℕ
crc_size = 4

abbrev pub max_payload_size : ℕ
max_payload_size = 1024

abbrev pub protocol_version : ℕ
protocol_version = 1

-- 'S', 'U', 'P', 'D'.
abbrev pub protocol_magic : List ℕ
protocol_magic = 0x53 ∷ 0x55 ∷ 0x50 ∷ 0x44 ∷ []

pub data ProtocolStatus : Type 0 where
  ok parser_error state_error flash_error verify_error rollback_error : ProtocolStatus
  crc_error version_error length_error oversize_error sequence_error : ProtocolStatus
  unknown_command timeout io_error invalid_argument installer_error : ProtocolStatus

pub data ParseStatus : Type 0 where
  need_more frame_ready err_oversize err_crc err_invalid_argument : ParseStatus

-- UPDATE_PROTOCOL_STATE_*; no function stores another number.
pub data ParserState : Type 0 where
  sync header payload crc : ParserState

pub record Frame : Type 0 where
  pub version : ℕ
  pub command : ℕ
  pub sequence : ℕ
  pub payload_length : ℕ
  pub payload : List ℕ

pub record Parser : Type 0 where
  pub state : ParserState
  pub magic_matched : ℕ
  pub header_decoded : Bool
  pub header_received : ℕ
  pub payload_received : ℕ
  pub crc_received : ℕ
  pub header : List ℕ
  pub crc_bytes : List ℕ
  pub frame : Frame
  pub error_info_valid : Bool
  pub error_command : ℕ
  pub error_sequence : ℕ

unfoldable pub parser_reset_state : Parser → Parser
parser_reset_state p = record p {
  state = ParserState.sync;
  magic_matched = 0;
  header_decoded = false;
  header_received = 0;
  payload_received = 0;
  crc_received = 0;
}

-- `memset` to 0, and the reset.
unfoldable pub update_protocol_parser_init : Parser
unfolding parser_reset_state
update_protocol_parser_init = parser_reset_state (record {
  state = ParserState.sync;
  magic_matched = 0;
  header_decoded = false;
  header_received = 0;
  payload_received = 0;
  crc_received = 0;
  header = replicate header_size 0;
  crc_bytes = replicate crc_size 0;
  frame = record {
    version = 0;
    command = 0;
    sequence = 0;
    payload_length = 0;
    payload = replicate max_payload_size 0;
  };
  error_info_valid = false;
  error_command = 0;
  error_sequence = 0;
})

-- The fields of the header, which also say whom an error is reported to.
unfoldable pub with_header_fields : Parser → Parser
with_header_fields p = record p {
  frame = record p.frame {
    version = get_or p.header 4 0;
    command = get_or p.header 5 0;
    sequence = load_le16 p.header 6;
    payload_length = load_le16 p.header 8;
  };
  error_command = get_or p.header 5 0;
  error_sequence = load_le16 p.header 6;
  error_info_valid = true;
  header_decoded = true;
}

-- The state after a header with this payload length.
unfoldable pub after_header : Parser → ParseStatus × Parser
unfolding parser_reset_state
after_header p =
    if ltb max_payload_size p.frame.payload_length
    then (ParseStatus.err_oversize, parser_reset_state p)
    else if p.frame.payload_length == 0
    then (ParseStatus.need_more, record p { state = ParserState.crc })
    else (ParseStatus.need_more, record p { state = ParserState.payload })

unfoldable pub parser_decode_header : Parser → ParseStatus × Parser
unfolding with_header_fields after_header
parser_decode_header p = after_header (with_header_fields p)

-- A byte of the magic that is expected.
unfoldable pub accept_expected : Parser → ℕ → Parser
accept_expected p byte =
    let matched = p.magic_matched + 1 in
    record p {
      error_info_valid = if p.magic_matched == 0 then false else p.error_info_valid;
      header = set p.header p.magic_matched byte;
      magic_matched = matched;
      header_received = matched;
      state = if matched == magic_size then ParserState.header else p.state;
    }

-- A byte that is not: it may be the magic's first.
unfoldable pub accept_unexpected : Parser → ℕ → Parser
accept_unexpected p byte =
    if byte == get_or protocol_magic 0 0
    then record p {
      error_info_valid = false;
      header = set p.header 0 byte;
      magic_matched = 1;
      header_received = 1;
    }
    else record p { magic_matched = 0; header_received = 0 }

unfoldable pub parser_accept_magic_byte : Parser → ℕ → ParseStatus × Parser
unfolding accept_expected accept_unexpected
parser_accept_magic_byte p byte = (
  ParseStatus.need_more,
  if byte == get_or protocol_magic p.magic_matched 0
      then accept_expected p byte
      else accept_unexpected p byte,
)

unfoldable pub parser_finish_frame : Parser → ParseStatus × Parser
unfolding parser_reset_state
parser_finish_frame p =
    let expected_crc = load_le32 p.crc_bytes 0 in
    let actual_crc =
      crc32_update (crc32_update 0 p.header) (take p.frame.payload_length p.frame.payload) in
    (
      if actual_crc == expected_crc then ParseStatus.frame_ready else ParseStatus.err_crc,
      parser_reset_state p,
    )

unfoldable pub push_header : Parser → ℕ → ParseStatus × Parser
unfolding parser_decode_header
push_header p byte =
    let q = record p {
      header = set p.header p.header_received byte;
      header_received = p.header_received + 1;
    } in
    if q.header_received == header_size then parser_decode_header q else (ParseStatus.need_more, q)

unfoldable pub push_payload : Parser → ℕ → ParseStatus × Parser
push_payload p byte =
    let received = p.payload_received + 1 in
    (
      ParseStatus.need_more,
      record p {
        frame = record p.frame { payload = set p.frame.payload p.payload_received byte };
        payload_received = received;
        state = if received == p.frame.payload_length then ParserState.crc else p.state;
      },
    )

unfoldable pub push_crc : Parser → ℕ → ParseStatus × Parser
unfolding parser_finish_frame
push_crc p byte =
    let q = record p {
      crc_bytes = set p.crc_bytes p.crc_received byte;
      crc_received = p.crc_received + 1;
    } in
    if q.crc_received == crc_size then parser_finish_frame q else (ParseStatus.need_more, q)

unfoldable pub update_protocol_parser_push : Parser → ℕ → ParseStatus × Parser
unfolding parser_accept_magic_byte push_header push_payload push_crc
update_protocol_parser_push p byte = elim p.state [
  | ParserState.sync ↦ parser_accept_magic_byte p byte
  | ParserState.header ↦ push_header p byte
  | ParserState.payload ↦ push_payload p byte
  | ParserState.crc ↦ push_crc p byte
]

unfoldable pub update_protocol_parser_has_partial : Parser → Bool
update_protocol_parser_has_partial p = elim p.state [ ParserState.sync ↦ false | _ ↦ true ]

-- The command and the sequence number, which the caller keeps its own for where there is none.
unfoldable pub update_protocol_parser_error_info : Parser → Option (ℕ × ℕ)
update_protocol_parser_error_info p =
    if p.error_info_valid then some (p.error_command, p.error_sequence) else none

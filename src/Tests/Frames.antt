-- ===== src/Tests/Frames.antt =====
-- A frame through the encoder and the parser.
use stm32_security_lab.Common.{ℕ, ◌≡◌, ◌++◌, refl, List, [], ◌∷◌, replicate, take, done, arith}
use stm32_security_lab.Common.Crc.{crc32_update}
use stm32_security_lab.Protocol.{
  ParseStatus, protocol_version, parser_reset_state, update_protocol_parser_init,
}
use stm32_security_lab.Protocol.Encode.{update_protocol_encode_frame, build_header}
use stm32_security_lab.Protocol.RoundTrip.{push_all, IsReady, frame_bytes, encode-push_all}
use stm32_security_lab.Protocol.Bounds.{HasBuffers, NextWriteFits, parser_in_bounds}

abbrev sent : List ℕ
sent = frame_bytes 4 7 (1 ∷ 2 ∷ 3 ∷ [])

sent_done : update_protocol_encode_frame 4 7 (1 ∷ 2 ∷ 3 ∷ []) 3 1038 ≡ done sent
unfolding update_protocol_encode_frame build_header crc32_update
sent_done = refl

ready : IsReady update_protocol_parser_init
unfolding update_protocol_parser_init parser_reset_state
ready = record {
  in_sync = refl;
  no_magic = refl;
  no_header = refl;
  no_payload = refl;
  no_crc = refl;
  header_buffer = refl;
  crc_buffer = refl;
  payload_buffer = refl;
}

encode-push_all_example :
    let (statuses, q) = push_all update_protocol_parser_init sent in
    (statuses
      ≡ replicate 13 ParseStatus.need_more
        ++ (replicate 3 ParseStatus.need_more ++ (ParseStatus.frame_ready ∷ [])))
    × (q.frame.version ≡ protocol_version)
    × (q.frame.command ≡ 4)
    × (q.frame.sequence ≡ 7)
    × (q.frame.payload_length ≡ 3)
    × (take 3 q.frame.payload ≡ 1 ∷ 2 ∷ 3 ∷ [])
    × IsReady q
encode-push_all_example =
    encode-push_all update_protocol_parser_init 4 7 (1 ∷ 2 ∷ 3 ∷ []) 1038 sent ready (omega arith)
      sent_done

parser_in_bounds_example :
    HasBuffers (push_all update_protocol_parser_init (0x53 ∷ 0x55 ∷ 0x53 ∷ [])).1
    × NextWriteFits (push_all update_protocol_parser_init (0x53 ∷ 0x55 ∷ 0x53 ∷ [])).1
parser_in_bounds_example = parser_in_bounds (0x53 ∷ 0x55 ∷ 0x53 ∷ [])

-- ===== src/Protocol/Bounds.antt =====
-- The counters of the parser against the sizes of its buffers.
use stm32_security_lab.Common.{
  ℕ, ◌≤◌, ◌<◌, ◌≡◌, refl, sym, ap, subst, ◌∙◌, ◌⊎◌, inl, inr, List, [], ◌∷◌, length, length-set,
  arith,
}
use stm32_security_lab.Protocol.{
  Parser, ParserState, ParseStatus, update_protocol_parser_init, update_protocol_parser_push,
  parser_accept_magic_byte, accept_expected, accept_unexpected, push_header, push_payload, push_crc,
  parser_decode_header, with_header_fields, after_header, parser_finish_frame, parser_reset_state,
}
use stm32_security_lab.Protocol.RoundTrip.{push_all}

-- The buffers have their declared sizes.
pub record HasBuffers (p : Parser) : Type 0 where
  pub header_buffer : length p.header ≡ 10
  pub crc_buffer : length p.crc_bytes ≡ 4
  pub payload_buffer : length p.frame.payload ≡ 1024

-- The counter of the buffer that the next byte is written to stays below the buffer's size, and the ones
-- that count later parts of the frame are still 0.
abbrev pub NextWriteFits : Parser → Type 0
NextWriteFits p =
    ((p.state ≡ ParserState.sync)
      × (p.magic_matched < 4)
      × (p.payload_received ≡ 0)
      × (p.crc_received ≡ 0))
    ⊎ ((p.state ≡ ParserState.header)
        × (p.header_received < 10)
        × (p.payload_received ≡ 0)
        × (p.crc_received ≡ 0))
    ⊎ ((p.state ≡ ParserState.payload)
        × (p.payload_received < p.frame.payload_length)
        × (p.frame.payload_length ≤ 1024)
        × (p.crc_received ≡ 0))
    ⊎ ((p.state ≡ ParserState.crc) × (p.crc_received < 4) × (p.frame.payload_length ≤ 1024))

reset_fits : (p : Parser) → NextWriteFits (parser_reset_state p)
unfolding parser_reset_state
reset_fits p = inl (refl, omega arith, refl, refl)

header_fits :
    (p : Parser) → p.payload_received ≡ 0 → p.crc_received ≡ 0 → NextWriteFits (after_header p).1
unfolding after_header parser_reset_state
header_fits p a b = ground arith

magic_fits :
    (p : Parser) (byte : ℕ)
    → p.state ≡ ParserState.sync
    → p.magic_matched < 4
    → p.payload_received ≡ 0
    → p.crc_received ≡ 0
    → NextWriteFits (parser_accept_magic_byte p byte).1
unfolding parser_accept_magic_byte accept_expected accept_unexpected
magic_fits p byte s m a b = ground arith

push_header_fits :
    (p : Parser) (byte : ℕ)
    → p.state ≡ ParserState.header
    → p.header_received < 10
    → p.payload_received ≡ 0
    → p.crc_received ≡ 0
    → NextWriteFits (push_header p byte).1
unfolding push_header parser_decode_header with_header_fields after_header parser_reset_state
push_header_fits p byte s m a b = ground arith

push_payload_fits :
    (p : Parser) (byte : ℕ)
    → p.state ≡ ParserState.payload
    → p.payload_received < p.frame.payload_length
    → p.frame.payload_length ≤ 1024
    → p.crc_received ≡ 0
    → NextWriteFits (push_payload p byte).1
unfolding push_payload
push_payload_fits p byte s m a b = ground arith

push_crc_fits :
    (p : Parser) (byte : ℕ)
    → p.state ≡ ParserState.crc
    → p.crc_received < 4
    → p.frame.payload_length ≤ 1024
    → NextWriteFits (push_crc p byte).1
unfolding push_crc parser_finish_frame parser_reset_state
push_crc_fits p byte s m a = ground arith

-- The handler of a byte in a state.
abbrev dispatch : Parser → ℕ → ParserState → ParseStatus × Parser
dispatch p byte state = elim state [
  | ParserState.sync ↦ parser_accept_magic_byte p byte
  | ParserState.header ↦ push_header p byte
  | ParserState.payload ↦ push_payload p byte
  | ParserState.crc ↦ push_crc p byte
]

push-dispatch :
    (p : Parser) (byte : ℕ) (s : ParserState)
    → p.state ≡ s
    → update_protocol_parser_push p byte ≡ dispatch p byte s
unfolding update_protocol_parser_push
push-dispatch p byte s h = ap (dispatch p byte) h

push_fits :
    (p : Parser) (byte : ℕ) → NextWriteFits p → NextWriteFits (update_protocol_parser_push p byte).1
push_fits p byte (inl (s, m, a, b)) =
    subst (λ x. NextWriteFits x.1) (sym (push-dispatch p byte _ s)) (magic_fits p byte s m a b)
push_fits p byte (inr (inl (s, m, a, b))) =
    subst (λ x. NextWriteFits x.1) (sym (push-dispatch p byte _ s))
      (push_header_fits p byte s m a b)
push_fits p byte (inr (inr (inl (s, m, a, b)))) =
    subst (λ x. NextWriteFits x.1) (sym (push-dispatch p byte _ s))
      (push_payload_fits p byte s m a b)
push_fits p byte (inr (inr (inr (s, m, a)))) =
    subst (λ x. NextWriteFits x.1) (sym (push-dispatch p byte _ s)) (push_crc_fits p byte s m a)

buffers_kept :
    (p : Parser) (byte : ℕ) (s : ParserState) → HasBuffers p → HasBuffers (dispatch p byte s).1
unfolding parser_accept_magic_byte accept_expected accept_unexpected push_header push_payload
    push_crc parser_finish_frame parser_decode_header with_header_fields after_header
    parser_reset_state
buffers_kept p byte ParserState.sync h = ground (
  arith,
  length-set p.header p.magic_matched byte,
  length-set p.header 0 byte,
  h.header_buffer,
  h.crc_buffer,
  h.payload_buffer,
)
buffers_kept p byte ParserState.header h = ground (
  arith,
  length-set p.header p.header_received byte,
  h.header_buffer,
  h.crc_buffer,
  h.payload_buffer,
)
buffers_kept p byte ParserState.payload h = record {
  header_buffer = h.header_buffer;
  crc_buffer = h.crc_buffer;
  payload_buffer = length-set p.frame.payload p.payload_received byte ∙ h.payload_buffer;
}
buffers_kept p byte ParserState.crc h = ground (
  arith,
  length-set p.crc_bytes p.crc_received byte,
  h.header_buffer,
  h.crc_buffer,
  h.payload_buffer,
)

push-HasBuffers :
    (p : Parser) (byte : ℕ) → HasBuffers p → HasBuffers (update_protocol_parser_push p byte).1
push-HasBuffers p byte h =
    subst (λ x. HasBuffers x.1) (sym (push-dispatch p byte p.state refl))
      (buffers_kept p byte p.state h)

stays_in_bounds :
    (p : Parser) (bytes : List ℕ)
    → HasBuffers p
    → NextWriteFits p
    → HasBuffers (push_all p bytes).1 × NextWriteFits (push_all p bytes).1
unfolding push_all
stays_in_bounds p [] h n = (h, n)
stays_in_bounds p (byte ∷ rest) h n =
    stays_in_bounds (update_protocol_parser_push p byte).1 rest (push-HasBuffers p byte h)
      (push_fits p byte n)

-- Whatever bytes arrive, the parser's buffers keep their sizes and the next byte is written inside the
-- buffer of the parser's state: no input makes a write out of bounds.
pub parser_in_bounds :
    (bytes : List ℕ)
    → HasBuffers (push_all update_protocol_parser_init bytes).1
      × NextWriteFits (push_all update_protocol_parser_init bytes).1
unfolding update_protocol_parser_init parser_reset_state
parser_in_bounds bytes =
    stays_in_bounds update_protocol_parser_init bytes
      (record { header_buffer = refl; crc_buffer = refl; payload_buffer = refl })
      (inl (refl, omega arith, refl, refl))

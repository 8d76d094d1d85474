-- ===== src/Protocol/RoundTrip.antt =====
-- What the parser makes of the bytes of an encoded frame.
use stm32_security_lab.Common.{
  ℕ, zero, suc, ◌+◌, ◌*◌, ◌/◌, ◌≤◌, ◌<◌, ◌≡◌, eq_refl, refl, sym, ap, ap₂, subst, ◌∙◌, Bool, true,
  false, List, [], ◌∷◌, ◌++◌, take, take_all, drop, set, length, length-append, length-drop,
  replicate, le→passes, ltb, ◌==◌, u8, arith, crc32_update, crc32_update-lt, load_le32, done,
}
use stm32_security_lab.Image.Sound.{guard-inv, bind-inv, done-inv}
use stm32_security_lab.Protocol.{
  Parser, ParserState, ParseStatus, Frame, update_protocol_parser_push, parser_accept_magic_byte,
  accept_expected, push_header, push_payload, push_crc, parser_decode_header, with_header_fields,
  after_header, parser_finish_frame, parser_reset_state, protocol_version,
}
use stm32_security_lab.Protocol.Encode.{
  header_bytes, le32_bytes, update_protocol_encode_frame, build_header,
}

-- The statuses of the bytes in turn, and the parser in the end.
unfoldable pub push_all : Parser → List ℕ → List ParseStatus × Parser
push_all p [] = ([], p)
push_all p (byte ∷ rest) =
    let (status, p') = update_protocol_parser_push p byte in
    let (statuses, p'') = push_all p' rest in (status ∷ statuses, p'')

push_all_nil : {p : Parser} → push_all p [] ≡ ([], p)
unfolding push_all
push_all_nil = refl

push_all-append :
    (p : Parser) (xs ys : List ℕ)
    → push_all p (xs ++ ys)
      ≡ ((push_all p xs).0 ++ (push_all (push_all p xs).1 ys).0, (push_all (push_all p xs).1 ys).1)
unfolding push_all
push_all-append p [] ys = refl
push_all-append p (x ∷ xs) ys =
    let rest = push_all-append (update_protocol_parser_push p x).1 xs ys in
    λ i. ((update_protocol_parser_push p x).0 ∷ (rest i).0, (rest i).1)

push_all-then :
    (p q r : Parser) (xs ys : List ℕ) (s t : List ParseStatus)
    → push_all p xs ≡ (s, q)
    → push_all q ys ≡ (t, r)
    → push_all p (xs ++ ys) ≡ (s ++ t, r)
push_all-then p q r xs ys s t h k =
    push_all-append p xs ys
    ∙ ap (λ x. (x.0 ++ (push_all x.1 ys).0, (push_all x.1 ys).1)) h
    ∙ ap (λ y. (s ++ y.0, y.1)) k

-- Bytes written one after another into a buffer.
abbrev fill : List ℕ → ℕ → List ℕ → List ℕ
fill buffer i [] = buffer
fill buffer i (b ∷ bs) = fill (set buffer i b) (suc i) bs

set-append :
    (xs : List ℕ) (y : ℕ) (ys : List ℕ) (v : ℕ) → set (xs ++ y ∷ ys) (length xs) v ≡ xs ++ v ∷ ys
set-append [] y ys v = refl
set-append (x ∷ xs) y ys v = ap (◌∷◌ x) (set-append xs y ys v)

append-snoc : (xs : List ℕ) (y : ℕ) (ys : List ℕ) → xs ++ y ∷ ys ≡ (xs ++ y ∷ []) ++ ys
append-snoc [] y ys = refl
append-snoc (x ∷ xs) y ys = ap (◌∷◌ x) (append-snoc xs y ys)

append_assoc : (xs ys zs : List ℕ) → (xs ++ ys) ++ zs ≡ xs ++ (ys ++ zs)
append_assoc [] ys zs = refl
append_assoc (x ∷ xs) ys zs = ap (◌∷◌ x) (append_assoc xs ys zs)

append-nil : (xs : List ℕ) → xs ++ [] ≡ xs
append-nil [] = refl
append-nil (x ∷ xs) = ap (◌∷◌ x) (append-nil xs)

length-snoc : (xs : List ℕ) (y : ℕ) → length (xs ++ y ∷ []) ≡ suc (length xs)
length-snoc [] y = refl
length-snoc (x ∷ xs) y = ap suc (length-snoc xs y)

fill-append :
    (xs old bs : List ℕ)
    → length bs ≤ length old
    → fill (xs ++ old) (length xs) bs ≡ xs ++ (bs ++ drop (length bs) old)
fill-append xs old [] h = refl
fill-append xs [] (b ∷ bs) h = elim h [ ]
fill-append xs (o ∷ old) (b ∷ bs) h =
    let rest = fill-append (xs ++ b ∷ []) old bs (omega arith) in
    ap (λ buffer. fill buffer (suc (length xs)) bs) (set-append xs o old b ∙ append-snoc xs b old)
    ∙ ap (λ i. fill ((xs ++ b ∷ []) ++ old) i bs) (sym (length-snoc xs b))
    ∙ rest
    ∙ sym (append-snoc xs b (bs ++ drop (length bs) old))

drop_all : (n : ℕ) (xs : List ℕ) → length xs ≤ n → drop n xs ≡ []
drop_all zero [] h = refl
drop_all zero (x ∷ xs) h = elim h [ ]
drop_all (suc n) [] h = refl
drop_all (suc n) (x ∷ xs) h = drop_all n xs (omega arith)

-- A buffer that is filled to its end holds the bytes.
fill_whole : (old bs : List ℕ) → length bs ≡ length old → fill old 0 bs ≡ bs
fill_whole old bs h =
    fill-append [] old bs (omega arith)
    ∙ ap (◌++◌ bs) (drop_all (length bs) old (omega arith))
    ∙ append-nil bs

take-append : (xs ys : List ℕ) → take (length xs) (xs ++ ys) ≡ xs
take-append [] ys = refl
take-append (x ∷ xs) ys = ap (◌∷◌ x) (take-append xs ys)

-- The parser in a state, with its counters and its buffers.
abbrev parser_at :
    ParserState → ℕ → Bool → ℕ → ℕ → ℕ → List ℕ → List ℕ → Frame → Bool → ℕ → ℕ → Parser
parser_at s m d h p c hb cb f v ec es = record {
  state = s;
  magic_matched = m;
  header_decoded = d;
  header_received = h;
  payload_received = p;
  crc_received = c;
  header = hb;
  crc_bytes = cb;
  frame = f;
  error_info_valid = v;
  error_command = ec;
  error_sequence = es;
}

abbrev frame_at : ℕ → ℕ → ℕ → List ℕ → Frame
frame_at command sequence n payload = record {
  version = protocol_version;
  command = command;
  sequence = sequence;
  payload_length = n;
  payload = payload;
}

push_all-cons :
    (p q : Parser) (byte : ℕ) (rest : List ℕ) (s : ParseStatus) (r : List ParseStatus × Parser)
    → update_protocol_parser_push p byte ≡ (s, q)
    → push_all q rest ≡ r
    → push_all p (byte ∷ rest) ≡ (s ∷ r.0, r.1)
unfolding push_all
push_all-cons p q byte rest s r h k =
    ap (λ x. (x.0 ∷ (push_all x.1 rest).0, (push_all x.1 rest).1)) h ∙ ap (λ y. (s ∷ y.0, y.1)) k

less_passes : (a b : ℕ) → a < b → (a == b) ≡ false
less_passes a b h = ground arith

module _ (d : Bool) (hb cb : List ℕ) (v : Bool) (command sequence ec es : ℕ) where
  abbrev in_payload : ParserState → ℕ → ℕ → List ℕ → Parser
  in_payload s n total buffer =
      parser_at s 4 d 10 n 0 hb cb (frame_at command sequence total buffer) v ec es

  push_payload_more :
      (before : List ℕ) (byte o : ℕ) (old : List ℕ) (n total : ℕ)
      → length before ≡ n
      → n + 1 < total
      → update_protocol_parser_push
          (in_payload ParserState.payload n total (before ++ o ∷ old))
          byte
        ≡ (
          ParseStatus.need_more,
          in_payload ParserState.payload (n + 1) total ((before ++ byte ∷ []) ++ old),
        )
  unfolding update_protocol_parser_push push_payload
  push_payload_more before byte o old n total e less = rw (
    less_passes (n + 1) total less,
    sym e,
    set-append before o old byte,
    append-snoc before byte old,
  )

  push_payload_last :
      (before : List ℕ) (byte o : ℕ) (old : List ℕ) (n total : ℕ)
      → length before ≡ n
      → n + 1 ≡ total
      → update_protocol_parser_push
          (in_payload ParserState.payload n total (before ++ o ∷ old))
          byte
        ≡ (ParseStatus.need_more, in_payload ParserState.crc total total (before ++ byte ∷ old))
  unfolding update_protocol_parser_push push_payload
  push_payload_last before byte o old n total e last =
      rw (sym last, eq_refl (n + 1), sym e, set-append before o old byte)

  -- The payload, into a buffer whose first bytes it has already filled.
  push_payload_bytes :
      (before : List ℕ) (byte : ℕ) (rest old : List ℕ) (n total : ℕ)
      → length before ≡ n
      → n + suc (length rest) ≡ total
      → suc (length rest) ≤ length old
      → push_all (in_payload ParserState.payload n total (before ++ old)) (byte ∷ rest) ≡ (
        replicate (suc (length rest)) ParseStatus.need_more,
        in_payload ParserState.crc total total
            (before ++ (byte ∷ (rest ++ drop (suc (length rest)) old))),
      )
  push_payload_bytes before byte rest [] n total e f room = elim room [ ]
  push_payload_bytes before byte [] (o ∷ old) n total e f room =
      push_all-cons _ _ byte [] _ _ (push_payload_last before byte o old n total e f) push_all_nil
  push_payload_bytes before byte (next ∷ rest) (o ∷ old) n total e f room =
      let less : n + 1 < total = omega arith in
      let longer : length (before ++ byte ∷ []) ≡ n + 1 = omega (arith, length-snoc before byte) in
      let ih =
        push_payload_bytes (before ++ byte ∷ []) next rest old (n + 1) total longer (omega arith)
          (omega arith) in
      push_all-cons _ _ byte (next ∷ rest) _ _ (push_payload_more before byte o old n total e less)
        ih
      ∙ ap
          (λ buffer. (
            replicate (suc (suc (length rest))) ParseStatus.need_more,
            in_payload ParserState.crc total total buffer,
          ))
          (sym (append-snoc before byte (next ∷ (rest ++ drop (suc (length rest)) old))))

module _ (d v : Bool) (hb cb : List ℕ) (f : Frame) (ec es command sequence n : ℕ) where
  abbrev in_header : ℕ → List ℕ → Parser
  in_header received buffer = parser_at ParserState.header 4 d received 0 0 buffer cb f false ec es

  abbrev first_nine : List ℕ
  first_nine =
      0x53 ∷ 0x55 ∷ 0x50 ∷ 0x44 ∷ 1 ∷ command ∷ u8 sequence ∷ u8 (sequence / 256) ∷ u8 n ∷ []

  push_first_nine :
      push_all (parser_at ParserState.sync 0 d 0 0 0 hb cb f v ec es) first_nine
      ≡ (replicate 9 ParseStatus.need_more, in_header 9 (fill hb 0 first_nine))
  unfolding push_all update_protocol_parser_push parser_accept_magic_byte accept_expected
      push_header
  push_first_nine = refl

  -- The parser behind the header of a frame.
  abbrev decoded : Parser
  decoded =
      parser_at ParserState.header 4 true 10 0 0 (header_bytes command sequence n) cb
        (frame_at command sequence n f.payload) true command sequence

  push_tenth :
      length hb ≡ 10
      → sequence < 65536
      → n < 65536
      → update_protocol_parser_push (in_header 9 (fill hb 0 first_nine)) (u8 (n / 256))
        ≡ after_header decoded
  unfolding update_protocol_parser_push push_header parser_decode_header with_header_fields
  push_tenth long s16 n16 =
      let buffer = fill_whole hb (header_bytes command sequence n) (sym long) in
      let low : u8 (u8 sequence) + u8 (u8 (sequence / 256)) * 256 ≡ sequence = omega arith in
      let size : u8 (u8 n) + u8 (u8 (n / 256)) * 256 ≡ n = omega arith in rw (buffer, low, size)

  push_header_bytes :
      (q : Parser)
      → length hb ≡ 10
      → sequence < 65536
      → n < 65536
      → after_header decoded ≡ (ParseStatus.need_more, q)
      → push_all
          (parser_at ParserState.sync 0 d 0 0 0 hb cb f v ec es)
          (header_bytes command sequence n)
        ≡ (replicate 10 ParseStatus.need_more, q)
  push_header_bytes q long s16 n16 h =
      push_all-then _ _ _ first_nine (u8 (n / 256) ∷ []) _ _ push_first_nine
        (push_all-cons _ _ (u8 (n / 256)) [] _ _ (push_tenth long s16 n16 ∙ h) push_all_nil)

-- The four bytes of the CRC.
module _ (cb hb : List ℕ) (f : Frame) (ec es received crc : ℕ) where
  abbrev in_crc : ℕ → List ℕ → Parser
  in_crc got buffer = parser_at ParserState.crc 4 true 10 received got hb buffer f true ec es

  push_crc_bytes :
      length cb ≡ 4
      → crc32_update (crc32_update 0 hb) (take f.payload_length f.payload) ≡ crc
      → crc < 4294967296
      → push_all (in_crc 0 cb) (le32_bytes crc) ≡ (
        ParseStatus.need_more ∷ ParseStatus.need_more ∷ ParseStatus.need_more
            ∷ ParseStatus.frame_ready ∷ [],
        parser_at ParserState.sync 0 false 0 0 0 hb (le32_bytes crc) f true ec es,
      )
  unfolding push_all update_protocol_parser_push push_crc parser_finish_frame parser_reset_state
  push_crc_bytes long same small =
      let word : load_le32 (le32_bytes crc) 0 ≡ crc = omega arith in
      rw (fill_whole cb (le32_bytes crc) (sym long), same, word, eq_refl crc)

-- A parser that waits for a frame, with its buffers in their full sizes.
pub record IsReady (p : Parser) : Type 0 where
  pub in_sync : p.state ≡ ParserState.sync
  pub no_magic : p.magic_matched ≡ 0
  pub no_header : p.header_received ≡ 0
  pub no_payload : p.payload_received ≡ 0
  pub no_crc : p.crc_received ≡ 0
  pub header_buffer : length p.header ≡ 10
  pub crc_buffer : length p.crc_bytes ≡ 4
  pub payload_buffer : length p.frame.payload ≡ 1024

ready_parser :
    (p : Parser)
    → IsReady p
    → p
      ≡ parser_at ParserState.sync 0 p.header_decoded 0 0 0 p.header p.crc_bytes p.frame
          p.error_info_valid p.error_command p.error_sequence
ready_parser p r = λ i. record p {
  state = r.in_sync i;
  magic_matched = r.no_magic i;
  header_received = r.no_header i;
  payload_received = r.no_payload i;
  crc_received = r.no_crc i;
}

-- The bytes of a frame.
abbrev pub frame_bytes : ℕ → ℕ → List ℕ → List ℕ
frame_bytes command sequence payload =
    let header = header_bytes command sequence (length payload) in
    let crc = crc32_update (crc32_update 0 header) payload in header ++ (payload ++ le32_bytes crc)

nonzero : (n : ℕ) → (suc n == 0) ≡ false
nonzero n = ground arith

passes-le : (a b : ℕ) → ltb b a ≡ false → a ≤ b
passes-le a b h = ground arith

-- The payload of the frame, after its header.
push_body :
    (d v : Bool) (hb cb : List ℕ) (f : Frame) (ec es command sequence : ℕ) (payload : List ℕ)
    → length f.payload ≡ 1024
    → length payload ≤ 1024
    → let after =
        frame_at command sequence (length payload) (payload ++ drop (length payload) f.payload) in
      (q : Parser) × (after_header (decoded d v hb cb f ec es command sequence (length payload))
        ≡ (ParseStatus.need_more, q))
      × (push_all q payload ≡ (
        replicate (length payload) ParseStatus.need_more,
        parser_at ParserState.crc 4 true 10
            (length payload)
            0
            (header_bytes command sequence (length payload))
            cb
            after
            true
            command
            sequence,
      ))
unfolding after_header
push_body d v hb cb f ec es command sequence [] full small = (_, refl, push_all_nil)
push_body d v hb cb f ec es command sequence (byte ∷ rest) full small = (
  _,
  rw (le→passes (suc (length rest)) 1024 small, nonzero (length rest)),
  push_payload_bytes true _ cb true command sequence command sequence [] byte rest f.payload 0
      (suc (length rest)) refl (omega arith) (omega arith),
)

replicate-snoc :
    {A : Type 0} (n : ℕ) (a : A) (ys : List A)
    → replicate n a ++ (a ∷ ys) ≡ a ∷ (replicate n a ++ ys)
replicate-snoc zero a ys = refl
replicate-snoc (suc n) a ys = ap (◌∷◌ a) (replicate-snoc n a ys)

three_more :
    {A : Type 0} (n : ℕ) (a b : A)
    → replicate n a ++ (a ∷ a ∷ a ∷ b ∷ []) ≡ a ∷ a ∷ a ∷ (replicate n a ++ (b ∷ []))
three_more n a b =
    replicate-snoc n a _ ∙ ap (◌∷◌ a) (replicate-snoc n a _ ∙ ap (◌∷◌ a) (replicate-snoc n a _))

push_frame :
    (d v : Bool) (hb cb : List ℕ) (f : Frame) (ec es command sequence : ℕ) (payload : List ℕ)
    → length hb ≡ 10
    → length cb ≡ 4
    → length f.payload ≡ 1024
    → sequence < 65536
    → length payload ≤ 1024
    → let header = header_bytes command sequence (length payload) in
      push_all
        (parser_at ParserState.sync 0 d 0 0 0 hb cb f v ec es)
        (frame_bytes command sequence payload)
      ≡ (
        replicate 13 ParseStatus.need_more
            ++ (replicate (length payload) ParseStatus.need_more ++ (ParseStatus.frame_ready ∷ [])),
        parser_at ParserState.sync 0 false 0 0 0 header
            (le32_bytes (crc32_update (crc32_update 0 header) payload))
            (frame_at command sequence
              (length payload)
              (payload ++ drop (length payload) f.payload))
            true
            command
            sequence,
      )
push_frame d v hb cb f ec es command sequence payload lh lc lp s16 small =
    let header = header_bytes command sequence (length payload) in
    let crc = crc32_update (crc32_update 0 header) payload in
    let (q, opened, body) = push_body d v hb cb f ec es command sequence payload lp small in
    let headed =
      push_header_bytes d v hb cb f ec es command sequence (length payload) q lh s16 (omega arith)
        opened in
    let closed =
      push_crc_bytes cb header _ command sequence (length payload) crc lc
        (ap (crc32_update (crc32_update 0 header)) (take-append payload _))
        (crc32_update-lt _ payload) in
    push_all-then _ _ _ header (payload ++ le32_bytes crc) _ _ headed
      (push_all-then _ _ _ payload (le32_bytes crc) _ _ body closed)
    ∙ ap
        (λ x. (
          replicate 10 ParseStatus.need_more ++ x,
          parser_at ParserState.sync 0 false 0 0 0 header (le32_bytes crc)
              (frame_at command sequence (length payload)
                (payload ++ drop (length payload) f.payload))
              true command sequence,
        ))
        (three_more (length payload) ParseStatus.need_more ParseStatus.frame_ready)

encode-inv :
    (command sequence : ℕ) (payload : List ℕ) (capacity : ℕ) (bytes : List ℕ)
    → update_protocol_encode_frame command sequence payload (length payload) capacity ≡ done bytes
    → (length payload ≤ 1024) × (bytes ≡ frame_bytes command sequence payload)
unfolding update_protocol_encode_frame build_header
encode-inv command sequence payload capacity bytes h =
    let n = length payload in
    let (room, h1) = guard-inv (ltb capacity (10 + n + 4)) _ _ _ h in
    let (header, h2, h3) = bind-inv (build_header command sequence payload n) _ _ h1 in
    let (small, h4) = guard-inv (ltb 1024 n) _ _ _ h2 in
    let built = done-inv _ _ h4 in
    let short = passes-le (length payload) 1024 small in
    (
      short,
      sym (done-inv _ _ h3)
          ∙ ap (λ x. x.0 ++ take n payload ++ le32_bytes x.1) (sym built)
          ∙ rw (
            take_all n payload (omega arith),
            append_assoc (header_bytes command sequence n) payload,
          ),
    )

-- The bytes that `update_protocol_encode_frame` writes, pushed into a parser that waits for a frame, give NEED_MORE for all bytes but the last and FRAME_READY for the last. The parser then
-- holds the version, the command, the sequence number, the length and the payload that were encoded, and waits for the next frame.
pub encode-push_all :
    (p : Parser) (command sequence : ℕ) (payload : List ℕ) (capacity : ℕ) (bytes : List ℕ)
    → IsReady p
    → sequence < 65536
    → update_protocol_encode_frame command sequence payload (length payload) capacity ≡ done bytes
    → let (statuses, q) = push_all p bytes in
      (statuses
        ≡ replicate 13 ParseStatus.need_more
          ++ (replicate (length payload) ParseStatus.need_more ++ (ParseStatus.frame_ready ∷ [])))
      × (q.frame.version ≡ protocol_version)
      × (q.frame.command ≡ command)
      × (q.frame.sequence ≡ sequence)
      × (q.frame.payload_length ≡ length payload)
      × (take (length payload) q.frame.payload ≡ payload)
      × IsReady q
encode-push_all p command sequence payload capacity bytes r s16 h =
    let (small, same) = encode-inv command sequence payload capacity bytes h in
    let run =
      ap₂ push_all (ready_parser p r) same
      ∙ push_frame p.header_decoded p.error_info_valid p.header p.crc_bytes p.frame p.error_command
          p.error_sequence command sequence payload r.header_buffer r.crc_buffer r.payload_buffer
          s16 small in
    let after : IsReady (
        parser_at ParserState.sync 0 false 0 0 0 (header_bytes command sequence (length payload))
          (le32_bytes (
            crc32_update (crc32_update 0 (header_bytes command sequence (length payload))) payload))
          (frame_at command sequence (length payload)
            (payload ++ drop (length payload) p.frame.payload))
          true command sequence) =
      record {
        in_sync = refl;
        no_magic = refl;
        no_header = refl;
        no_payload = refl;
        no_crc = refl;
        header_buffer = refl;
        crc_buffer = refl;
        payload_buffer = omega (
          arith,
          length-append payload (drop (length payload) p.frame.payload),
          length-drop (length payload) p.frame.payload,
          r.payload_buffer,
        );
      } in
    subst
      (λ x.
        (x.0
          ≡ replicate 13 ParseStatus.need_more
            ++ (replicate (length payload) ParseStatus.need_more ++ (ParseStatus.frame_ready ∷ [])))
        × (x.1.frame.version ≡ protocol_version)
        × (x.1.frame.command ≡ command)
        × (x.1.frame.sequence ≡ sequence)
        × (x.1.frame.payload_length ≡ length payload)
        × (take (length payload) x.1.frame.payload ≡ payload)
        × IsReady x.1)
      (sym run) (refl, refl, refl, refl, refl, take-append payload _, after)

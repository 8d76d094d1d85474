-- ===== src/Protocol/Encode.antt =====
-- The encoder of the update protocol's frames.
use stm32_security_lab.Common.{
  ℕ, ◌+◌, ◌/◌, List, [], ◌∷◌, ◌++◌, take, ltb, ◌==◌, if◌then◌else◌, u8, crc32_update, Result, done,
  fail, refuse_if, ◌>>=◌, ◌>>◌,
}
use stm32_security_lab.Protocol.{
  ProtocolStatus, header_size, crc_size, max_payload_size, protocol_version, protocol_magic,
}

-- The bytes that `store_le32` writes.
abbrev pub le32_bytes : ℕ → List ℕ
le32_bytes v = u8 v ∷ u8 (v / 256) ∷ u8 (v / 65536) ∷ u8 (v / 16777216) ∷ []

abbrev pub le16_bytes : ℕ → List ℕ
le16_bytes v = u8 v ∷ u8 (v / 256) ∷ []

abbrev pub header_bytes : ℕ → ℕ → ℕ → List ℕ
header_bytes command sequence payload_length =
    protocol_magic
    ++ (protocol_version ∷ command ∷ [])
    ++ le16_bytes sequence
    ++ le16_bytes payload_length

-- The outputs are the header and the CRC.
unfoldable pub build_header : ℕ → ℕ → List ℕ → ℕ → Result ProtocolStatus (List ℕ × ℕ)
build_header command sequence payload payload_length = do
  refuse_if (ltb max_payload_size payload_length) ProtocolStatus.invalid_argument
  let header = header_bytes command sequence payload_length
  done (header, crc32_update (crc32_update 0 header) (take payload_length payload))

-- The output is what stands in the first `total_size` bytes of `output`.
unfoldable pub update_protocol_encode_frame :
    ℕ → ℕ → List ℕ → ℕ → ℕ → Result ProtocolStatus (List ℕ)
unfolding build_header
update_protocol_encode_frame command sequence payload payload_length output_capacity = do
  let total_size = header_size + payload_length + crc_size
  refuse_if (ltb output_capacity total_size) ProtocolStatus.invalid_argument
  (header, crc) ← build_header command sequence payload payload_length
  done (header ++ take payload_length payload ++ le32_bytes crc)

-- The state W is what the writer sends to; `write` returns its status.
abbrev pub Write : Type 0 → Type 0
Write W = List ℕ → W → ProtocolStatus × W

module _ {W : Type 0} (write : Write W) where
  -- One write after another, up to the first that fails.
  unfoldable pub write_all : List (List ℕ) → W → ProtocolStatus × W
  write_all [] w = (ProtocolStatus.ok, w)
  write_all (part ∷ rest) w =
      let (status, w') = write part w in
      let next = write_all rest w' in
      elim status [ ProtocolStatus.ok ↦ next | refused ↦ (refused, w') ]

  unfoldable pub update_protocol_write_frame : ℕ → ℕ → List ℕ → ℕ → W → ProtocolStatus × W
  unfolding build_header write_all
  update_protocol_write_frame command sequence payload payload_length w =
      elim (build_header command sequence payload payload_length) [
        | fail refused ↦ (refused, w)
        | done (header, crc) ↦
            write_all
              (header
                ∷ ((if payload_length == 0 then [] else take payload_length payload ∷ [])
                    ++ (le32_bytes crc ∷ [])))
              w
      ]

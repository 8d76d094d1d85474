-- ===== src/Metadata/RoundTrip.antt =====
-- A canonical record survives its 128-byte image.
use stm32_security_lab.Common.{
  ℕ, ◌<◌, ◌≡◌, refl, sym, ap, ◌∙◌, inl, inr, true, some, List, length, take, drop, load_le32,
  load-store32, crc32_update, crc32_update-lt, done, fail, Bool-cases, Option-cases, if◌then◌else◌,
  subst, ==_iff, arith,
}
use stm32_security_lab.Metadata.{
  Record, State, MetadataStatus, state_code, state_of_u32, state_record_is_canonical,
}
use stm32_security_lab.Metadata.Codec.{
  encode_without_crc, seal, boot_metadata_encode, boot_metadata_decode, decode_fields, fields_at,
  all_zero, fixed_words_are_valid, commit_marker_is_present, crc_is_valid, body_size, crc_offset,
  padding_offset,
}

-- Every field is a 32-bit word.
pub record IsWords (r : Record) : Type 0 where
  pub sequence_lt : r.sequence < 4294967296
  pub active_lt : r.active_slot < 4294967296
  pub candidate_lt : r.candidate_slot < 4294967296
  pub version_lt : r.candidate_image_version < 4294967296
  pub attempts_lt : r.boot_attempt_count < 4294967296
  pub confirmation_lt : r.confirmation_state < 4294967296
  pub result_lt : r.result < 4294967296

abbrev sealed : Record → List ℕ
sealed r = seal (encode_without_crc r)

pub length-sealed : (r : Record) → length (sealed r) ≡ 128
unfolding seal encode_without_crc
length-sealed r = refl

sealed_padding : (r : Record) → all_zero (take 56 (drop padding_offset (sealed r))) ≡ true
unfolding seal encode_without_crc all_zero
sealed_padding r = refl

sealed_fixed : (r : Record) → fixed_words_are_valid (sealed r) ≡ true
unfolding seal encode_without_crc fixed_words_are_valid
sealed_fixed r = refl

sealed_commit : (r : Record) → commit_marker_is_present (sealed r) ≡ true
unfolding seal encode_without_crc commit_marker_is_present
sealed_commit r = refl

sealed_body : (r : Record) → take body_size (sealed r) ≡ take body_size (encode_without_crc r)
unfolding seal encode_without_crc
sealed_body r = refl

sealed_crc :
    (r : Record)
    → load_le32 (sealed r) crc_offset ≡ crc32_update 0 (take body_size (encode_without_crc r))
unfolding seal encode_without_crc
sealed_crc r =
    let crc = crc32_update 0 (take body_size (encode_without_crc r)) in
    load-store32 crc (crc32_update-lt 0 (take body_size (encode_without_crc r)))

sealed-crc_is_valid : (r : Record) → crc_is_valid (sealed r) ≡ true
unfolding crc_is_valid
sealed-crc_is_valid r = (==_iff _ _).1 (ap (crc32_update 0) (sealed_body r) ∙ sym (sealed_crc r))

state_of_code : (s : State) → state_of_u32 (state_code s) ≡ some s
unfolding state_of_u32
state_of_code State.empty = refl
state_of_code _ = refl

state_code-lt : (s : State) → state_code s < 4294967296
state_code-lt State.empty = omega arith
state_code-lt _ = omega arith

sealed_state : (r : Record) → load_le32 (sealed r) 16 ≡ state_code r.state
unfolding seal encode_without_crc
sealed_state r = load-store32 (state_code r.state) (state_code-lt r.state)

sealed_words :
    (r : Record)
    → IsWords r
    → (load_le32 (sealed r) 12 ≡ r.sequence)
      × (load_le32 (sealed r) 20 ≡ r.active_slot)
      × (load_le32 (sealed r) 24 ≡ r.candidate_slot)
      × (load_le32 (sealed r) 28 ≡ r.candidate_image_version)
      × (load_le32 (sealed r) 32 ≡ r.boot_attempt_count)
      × (load_le32 (sealed r) 36 ≡ r.confirmation_state)
      × (load_le32 (sealed r) 40 ≡ r.result)
unfolding seal encode_without_crc
sealed_words r w = (
  load-store32 r.sequence w.sequence_lt,
  load-store32 r.active_slot w.active_lt,
  load-store32 r.candidate_slot w.candidate_lt,
  load-store32 r.candidate_image_version w.version_lt,
  load-store32 r.boot_attempt_count w.attempts_lt,
  load-store32 r.confirmation_state w.confirmation_lt,
  load-store32 r.result w.result_lt,
)

-- The fields are those of `r`, whatever the rest of the buffer holds.
HoldsFields : List ℕ → Record → Type 0
HoldsFields input r =
    (state_of_u32 (load_le32 input 16) ≡ some r.state)
    × (load_le32 input 12 ≡ r.sequence)
    × (load_le32 input 20 ≡ r.active_slot)
    × (load_le32 input 24 ≡ r.candidate_slot)
    × (load_le32 input 28 ≡ r.candidate_image_version)
    × (load_le32 input 32 ≡ r.boot_attempt_count)
    × (load_le32 input 36 ≡ r.confirmation_state)
    × (load_le32 input 40 ≡ r.result)

decode_fields_lem :
    (input : List ℕ) (r : Record)
    → HoldsFields input r
    → state_record_is_canonical r ≡ true
    → decode_fields input ≡ done r
unfolding decode_fields HoldsFields fields_at
decode_fields_lem input r (state, e12, e20, e24, e28, e32, e36, e40) canonical =
    rw (state, e12, e20, e24, e28, e32, e36, e40, canonical, decode_fields) refl

sealed-HoldsFields : (r : Record) → IsWords r → HoldsFields (sealed r) r
unfolding HoldsFields
sealed-HoldsFields r w =
    let (e12, e20, e24, e28, e32, e36, e40) = sealed_words r w in
    (ap state_of_u32 (sealed_state r) ∙ state_of_code r.state, e12, e20, e24, e28, e32, e36, e40)

decode_passes :
    (input : List ℕ) (r : Record)
    → length input ≡ 128
    → commit_marker_is_present input ≡ true
    → all_zero (take 56 (drop padding_offset input)) ≡ true
    → fixed_words_are_valid input ≡ true
    → crc_is_valid input ≡ true
    → decode_fields input ≡ done r
    → boot_metadata_decode input ≡ done r
unfolding boot_metadata_decode
decode_passes input r size marker padding fixed crc fields =
    rw (size, marker, padding, fixed, crc, boot_metadata_decode) fields

-- A record of 32-bit words that is encoded decodes from its image to itself.
pub decode-encode :
    (r : Record) (bytes : List ℕ)
    → IsWords r
    → boot_metadata_encode r ≡ done bytes
    → boot_metadata_decode bytes ≡ done r
unfolding boot_metadata_encode
decode-encode r bytes w e = elim (Bool-cases (state_record_is_canonical r)) [
  | inl canonical ↦
      let same : bytes ≡ sealed r = ground arith in
      rw same (
        decode_passes (sealed r) r (length-sealed r) (sealed_commit r) (sealed_padding r)
          (sealed_fixed r) (sealed-crc_is_valid r)
          (decode_fields_lem (sealed r) r (sealed-HoldsFields r w) canonical))
  | inr refused ↦ absurd (ground arith)
]

fields_at-IsWords : (state : State) (input : List ℕ) → IsWords (fields_at state input)
unfolding fields_at
fields_at-IsWords state input = omega arith

decode_fields_sound :
    (input : List ℕ) (r : Record)
    → decode_fields input ≡ done r
    → (state_record_is_canonical r ≡ true) × IsWords r
unfolding decode_fields
decode_fields_sound input r h = elim (Option-cases (state_of_u32 (load_le32 input 16))) [
  | inl e ↦ absurd (cc (rw (e, decode_fields) at h))
  | inr (state, e) ↦ fields_sound state (rw (e, decode_fields) at h)
]
  where
    fields_sound :
        (state : State)
        → (if state_record_is_canonical (fields_at state input)
            then done (fields_at state input)
            else fail MetadataStatus.bad_format)
          ≡ done r
        → (state_record_is_canonical r ≡ true) × IsWords r
    fields_sound state k = elim (Bool-cases (state_record_is_canonical (fields_at state input))) [
      | inl good ↦
          let same : fields_at state input ≡ r = ground arith in
          (rw same at good, subst IsWords same (fields_at-IsWords state input))
      | inr bad ↦ absurd (ground arith)
    ]

-- What decodes is a canonical record of 32-bit words.
pub decode_sound :
    (input : List ℕ) (r : Record)
    → boot_metadata_decode input ≡ done r
    → (state_record_is_canonical r ≡ true) × IsWords r
unfolding boot_metadata_decode
decode_sound input r h = ground (arith, decode_fields_sound input r)

-- ===== src/Metadata/Codec.antt =====
-- boot_metadata.c: the 128-byte image of a record, and the choice between the two copies.
use stm32_security_lab.Common.{
  ℕ, ◌+◌, Bool, true, false, ◌&&◌, not, none, some, List, [], ◌∷◌, length, replicate, take, drop,
  ltb, ◌==◌, if◌then◌else◌, load_le32, store_le32, crc32_update, Result, done, fail,
}
use stm32_security_lab.Layout.{metadata_format_version, metadata_record_size}
use stm32_security_lab.Metadata.{
  Record, State, MetadataStatus, state_code, state_of_u32, state_record_is_canonical,
  boot_metadata_empty,
}

abbrev pub metadata_magic : ℕ
metadata_magic = 0x314D5442

abbrev pub commit0 : ℕ
commit0 = 0xC0DEF00D

abbrev pub commit1 : ℕ
commit1 = 0x3F210FF2

abbrev pub body_size : ℕ
body_size = 60

abbrev pub crc_offset : ℕ
crc_offset = 60

abbrev pub padding_offset : ℕ
padding_offset = 64

abbrev pub commit_offset : ℕ
commit_offset = 120

abbrev pub commit_size : ℕ
commit_size = 8

unfoldable pub encode_without_crc : Record → List ℕ
encode_without_crc r =
    let b0 = store_le32 (replicate metadata_record_size 0) 0 metadata_magic in
    let b4 = store_le32 b0 4 metadata_format_version in
    let b8 = store_le32 b4 8 metadata_record_size in
    let b12 = store_le32 b8 12 r.sequence in
    let b16 = store_le32 b12 16 (state_code r.state) in
    let b20 = store_le32 b16 20 r.active_slot in
    let b24 = store_le32 b20 24 r.candidate_slot in
    let b28 = store_le32 b24 28 r.candidate_image_version in
    let b32 = store_le32 b28 32 r.boot_attempt_count in
    let b36 = store_le32 b32 36 r.confirmation_state in store_le32 b36 40 r.result

-- The CRC of the body and the commit marker, behind the canonical check.
unfoldable pub seal : List ℕ → List ℕ
seal output =
    let crc = store_le32 output crc_offset (crc32_update 0 (take body_size output)) in
    store_le32 (store_le32 crc commit_offset commit0) (commit_offset + 4) commit1

unfoldable pub boot_metadata_encode : Record → Result MetadataStatus (List ℕ)
boot_metadata_encode r =
    if not (state_record_is_canonical r)
    then fail MetadataStatus.bad_format
    else done (seal (encode_without_crc r))

unfoldable pub all_zero : List ℕ → Bool
all_zero [] = true
all_zero (b ∷ rest) = b == 0 && all_zero rest

-- The checks of `boot_metadata_decode` on the words with one allowed value.
unfoldable pub fixed_words_are_valid : List ℕ → Bool
fixed_words_are_valid input =
    load_le32 input 0 == metadata_magic
    && load_le32 input 4 == metadata_format_version
    && load_le32 input 8 == metadata_record_size
    && load_le32 input 44 == 0
    && load_le32 input 48 == 0
    && load_le32 input 52 == 0
    && load_le32 input 56 == 0

unfoldable pub commit_marker_is_present : List ℕ → Bool
commit_marker_is_present input =
    load_le32 input commit_offset == commit0 && load_le32 input (commit_offset + 4) == commit1

unfoldable pub crc_is_valid : List ℕ → Bool
crc_is_valid input = crc32_update 0 (take body_size input) == load_le32 input crc_offset

unfoldable pub fields_at : State → List ℕ → Record
fields_at state input = record {
  sequence = load_le32 input 12;
  state = state;
  active_slot = load_le32 input 20;
  candidate_slot = load_le32 input 24;
  candidate_image_version = load_le32 input 28;
  boot_attempt_count = load_le32 input 32;
  confirmation_state = load_le32 input 36;
  result = load_le32 input 40;
}

-- The record behind all checks but that of its fields; an unknown state is not canonical.
unfoldable pub decode_fields : List ℕ → Result MetadataStatus Record
decode_fields input = elim (state_of_u32 (load_le32 input 16)) [
  | none ↦ fail MetadataStatus.bad_format
  | some state ↦
      if state_record_is_canonical (fields_at state input)
      then done (fields_at state input)
      else fail MetadataStatus.bad_format
]

unfoldable pub boot_metadata_decode : List ℕ → Result MetadataStatus Record
boot_metadata_decode input =
    if not (length input == metadata_record_size)
    then fail MetadataStatus.bad_format
    else if not (commit_marker_is_present input)
    then fail MetadataStatus.bad_format
    else if not (all_zero (take 56 (drop padding_offset input)))
    then fail MetadataStatus.bad_format
    else if not (fixed_words_are_valid input)
    then fail MetadataStatus.bad_format
    else if not (crc_is_valid input)
    then fail MetadataStatus.crc
    else decode_fields input

unfoldable pub records_are_equal : Record → Record → Bool
records_are_equal l r =
    l.sequence == r.sequence
    && state_code l.state == state_code r.state
    && l.active_slot == r.active_slot
    && l.candidate_slot == r.candidate_slot
    && l.candidate_image_version == r.candidate_image_version
    && l.boot_attempt_count == r.boot_attempt_count
    && l.confirmation_state == r.confirmation_state
    && l.result == r.result

pub data Copy : Type 0 where
  no_copy copy_a copy_b : Copy

pub record Recovery : Type 0 where
  pub copy_a_valid : Bool
  pub copy_b_valid : Bool
  pub selected_copy : Copy

abbrev pub recovery_of : Bool → Bool → Copy → Recovery
recovery_of a b c = record { copy_a_valid = a; copy_b_valid = b; selected_copy = c }

-- `boot_metadata_recover` once both copies are decoded; it fills both outputs whatever it returns.
unfoldable pub choose :
    Result MetadataStatus Record → Result MetadataStatus Record → MetadataStatus × Record × Recovery
choose (fail _) (fail _) =
    (MetadataStatus.no_valid_copy, boot_metadata_empty, recovery_of false false Copy.no_copy)
choose (done a) (fail _) = (MetadataStatus.ok, a, recovery_of true false Copy.copy_a)
choose (fail _) (done b) = (MetadataStatus.ok, b, recovery_of false true Copy.copy_b)
choose (done a) (done b) =
    if a.sequence == b.sequence
    then if not (records_are_equal a b)
      then (MetadataStatus.ambiguous, boot_metadata_empty, recovery_of true true Copy.no_copy)
      else (MetadataStatus.ok, a, recovery_of true true Copy.copy_a)
    else if ltb b.sequence a.sequence
    then (MetadataStatus.ok, a, recovery_of true true Copy.copy_a)
    else (MetadataStatus.ok, b, recovery_of true true Copy.copy_b)

unfoldable pub boot_metadata_recover : List ℕ → List ℕ → MetadataStatus × Record × Recovery
boot_metadata_recover a b = choose (boot_metadata_decode a) (boot_metadata_decode b)

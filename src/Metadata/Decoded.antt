-- ===== src/Metadata/Decoded.antt =====
-- What a 128-byte image that decodes holds.
use stm32_security_lab.Common.{
  ℕ, ◌≡◌, refl, sym, ap, ap₂, [], ◌∷◌, replicate, length-take, length-drop, ◌∙◌, inl, inr, some,
  List, length, take, drop, load_le32, crc32_update, done, fail, Option-cases, Bool-cases,
  if◌then◌else◌, ==_iff, Result, Bool, true, false, not, ◌==◌, arith,
}
use stm32_security_lab.Layout.{metadata_format_version, metadata_record_size}
use stm32_security_lab.Metadata.{
  Record, State, MetadataStatus, state_code, state_of_u32, state_record_is_canonical,
}
use stm32_security_lab.Metadata.Codec.{
  boot_metadata_decode, decode_fields, fields_at, all_zero, fixed_words_are_valid,
  commit_marker_is_present, crc_is_valid, metadata_magic, padding_offset, commit0, commit1,
}
use stm32_security_lab.Metadata.Canonical.{IsCanonical, state_record_is_canonical-IsCanonical}
use stm32_security_lab.Metadata.RoundTrip.{IsWords, decode_sound}

-- The layout of an image: where each field of the record stands, and the words around them.
pub record IsImageOf (input : List ℕ) (r : Record) : Type 0 where
  pub size : length input ≡ 128
  pub magic : load_le32 input 0 ≡ metadata_magic
  pub version : load_le32 input 4 ≡ metadata_format_version
  pub record_size : load_le32 input 8 ≡ 128
  pub sequence : load_le32 input 12 ≡ r.sequence
  pub state : load_le32 input 16 ≡ state_code r.state
  pub active : load_le32 input 20 ≡ r.active_slot
  pub candidate : load_le32 input 24 ≡ r.candidate_slot
  pub image_version : load_le32 input 28 ≡ r.candidate_image_version
  pub attempts : load_le32 input 32 ≡ r.boot_attempt_count
  pub confirmation : load_le32 input 36 ≡ r.confirmation_state
  pub result : load_le32 input 40 ≡ r.result
  pub reserved :
      (load_le32 input 44 ≡ 0)
      × (load_le32 input 48 ≡ 0)
      × (load_le32 input 52 ≡ 0)
      × (load_le32 input 56 ≡ 0)
  pub crc : crc32_update 0 (take 60 input) ≡ load_le32 input 60
  pub padding : take 56 (drop 64 input) ≡ replicate 56 0
  pub marker : (load_le32 input 120 ≡ commit0) × (load_le32 input 124 ≡ commit1)

code_of_state : (n : ℕ) (s : State) → state_of_u32 n ≡ some s → n ≡ state_code s
unfolding state_of_u32
code_of_state n s h = ground arith

fields_held :
    (input : List ℕ) (r : Record)
    → decode_fields input ≡ done r
    → (load_le32 input 16 ≡ state_code r.state) × (fields_at r.state input ≡ r)
unfolding decode_fields
fields_held input r h = elim (Option-cases (state_of_u32 (load_le32 input 16))) [
  | inl e ↦ absurd (cc (rw (e, decode_fields) at h))
  | inr (state, e) ↦
      let same = taken state (rw (e, decode_fields) at h) in
      let is : state ≡ r.state = state_at state ∙ ap (λ x. x.state) same in
      (code_of_state _ state e ∙ ap state_code is, ap (λ s. fields_at s input) (sym is) ∙ same)
]
  where
    state_at : (state : State) → state ≡ (fields_at state input).state
    state_at state = unfold fields_at in refl

    taken :
        (state : State)
        → (if state_record_is_canonical (fields_at state input)
            then done (fields_at state input)
            else fail MetadataStatus.bad_format)
          ≡ done r
        → fields_at state input ≡ r
    taken state k = elim (Bool-cases (state_record_is_canonical (fields_at state input))) [
      | inl good ↦ ground arith
      | inr bad ↦ absurd (ground arith)
    ]

passed :
    {A : Type 0} (b : Bool) (e : MetadataStatus) (k : Result MetadataStatus A) (x : A)
    → (if not b then fail e else k) ≡ done x
    → (b ≡ true) × (k ≡ done x)
passed true e k x h = (refl, h)
passed false e k x h = absurd (ground arith)

-- The checks in front of the fields.
frame_held :
    (input : List ℕ) (r : Record)
    → boot_metadata_decode input ≡ done r
    → (length input ≡ 128)
      × (commit_marker_is_present input ≡ true)
      × (all_zero (take 56 (drop padding_offset input)) ≡ true)
      × (fixed_words_are_valid input ≡ true)
      × (crc_is_valid input ≡ true)
      × (decode_fields input ≡ done r)
unfolding boot_metadata_decode
frame_held input r h =
    let (size, h1) = passed (length input == metadata_record_size) _ _ r h in
    let (marker, h2) = passed (commit_marker_is_present input) _ _ r h1 in
    let (zeros, h3) = passed (all_zero (take 56 (drop padding_offset input))) _ _ r h2 in
    let (fixed, h4) = passed (fixed_words_are_valid input) _ _ r h3 in
    let (crc, h5) = passed (crc_is_valid input) _ _ r h4 in
    ((==_iff _ _).0 size, marker, zeros, fixed, crc, h5)

fixed_held :
    (input : List ℕ)
    → fixed_words_are_valid input ≡ true
    → (load_le32 input 0 ≡ metadata_magic)
      × (load_le32 input 4 ≡ metadata_format_version)
      × (load_le32 input 8 ≡ 128)
      × (load_le32 input 44 ≡ 0)
      × (load_le32 input 48 ≡ 0)
      × (load_le32 input 52 ≡ 0)
      × (load_le32 input 56 ≡ 0)
unfolding fixed_words_are_valid
fixed_held input h = ground arith

marker_held :
    (input : List ℕ)
    → commit_marker_is_present input ≡ true
    → (load_le32 input 120 ≡ commit0) × (load_le32 input 124 ≡ commit1)
unfolding commit_marker_is_present
marker_held input h = ground arith

crc_held :
    (input : List ℕ)
    → crc_is_valid input ≡ true
    → crc32_update 0 (take 60 input) ≡ load_le32 input 60
unfolding crc_is_valid
crc_held input h = ground arith

zeros_held : (l : List ℕ) → all_zero l ≡ true → l ≡ replicate (length l) 0
unfolding all_zero
zeros_held [] h = refl
zeros_held (b ∷ rest) h = ap₂ ◌∷◌ (ground (arith, h)) (zeros_held rest (ground (arith, h)))

padding_held :
    (input : List ℕ)
    → length input ≡ 128
    → all_zero (take 56 (drop padding_offset input)) ≡ true
    → take 56 (drop 64 input) ≡ replicate 56 0
padding_held input size h =
    let whole : length (take 56 (drop 64 input)) ≡ 56 =
      length-take 56 (drop 64 input) (omega (arith, size, length-drop 64 input)) in
    zeros_held _ h ∙ ap (λ n. replicate n 0) whole

-- Bytes that decode are the image of the record: 128 bytes with the magic, the version and the size, each field at its offset, zeros in the reserved words and the padding, the CRC of the body and the commit marker; and the record is canonical, with fields of 32 bits.
pub decode-IsImageOf :
    (input : List ℕ) (r : Record)
    → boot_metadata_decode input ≡ done r
    → IsImageOf input r × IsCanonical r × IsWords r
unfolding fields_at
decode-IsImageOf input r h =
    let (size, committed, zeros, fixed, checked, fields) = frame_held input r h in
    let (canonical, words) = decode_sound input r h in
    let (magic, version, record_size, r44, r48, r52, r56) = fixed_held input fixed in
    let (state, same) = fields_held input r fields in
    (
      record {
        size = size;
        magic = magic;
        version = version;
        record_size = record_size;
        sequence = ap (λ x. x.sequence) same;
        state = state;
        active = ap (λ x. x.active_slot) same;
        candidate = ap (λ x. x.candidate_slot) same;
        image_version = ap (λ x. x.candidate_image_version) same;
        attempts = ap (λ x. x.boot_attempt_count) same;
        confirmation = ap (λ x. x.confirmation_state) same;
        result = ap (λ x. x.result) same;
        reserved = (r44, r48, r52, r56);
        padding = padding_held input size zeros;
        crc = crc_held input checked;
        marker = marker_held input committed;
      },
      state_record_is_canonical-IsCanonical r canonical,
      words,
    )

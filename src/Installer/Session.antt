-- ===== src/Installer/Session.antt =====
-- The state of an installer session, and how its steps follow one another. A step reads and changes
-- the session and the flash device and returns a status.
use stm32_security_lab.Common.{ℕ, Bool, false, Option, none, List, [], if◌then◌else◌}
use stm32_security_lab.Flash.{Flash}
use stm32_security_lab.Slot.{SlotDescriptor}
use stm32_security_lab.Image.Manifest.{VerifyStatus, decode_manifest_bytes}
use stm32_security_lab.Package.{Header}
use stm32_security_lab.Metadata.{Record, slot_none, boot_metadata_empty}
use stm32_security_lab.Metadata.Codec.{Recovery, Copy, recovery_of}
use stm32_security_lab.Installer.{InstallStatus, SessionState, InstallOptions, InstallResult}

-- `program_buffer` has the bytes that `program_fill` counts. The SHA-512 context stands as the bytes
-- that it was given, `crypto_sha512_final` as the digest of them.
pub record Session (D : Type 0) : Type 0 where
  pub state : SessionState
  pub restricted_flash : Flash D
  pub public_key : List ℕ
  pub options : InstallOptions
  pub result : InstallResult
  pub metadata_before : Record
  pub writing_metadata : Record
  pub metadata_recovery : Recovery
  pub active : Option SlotDescriptor
  pub candidate : SlotDescriptor
  pub active_slot_id : ℕ
  pub header : Header
  pub payload_hash_ctx : List ℕ
  pub program_buffer : List ℕ
  pub payload_received : ℕ
  pub payload_programmed : ℕ
  pub payload_program_size : ℕ
  pub programmed_block_count : ℕ
  pub metadata_writing_committed : Bool
  pub candidate_erased : Bool
  pub payload_hash_finalized : Bool

abbrev pub zero_header : Header
zero_header = record {
  manifest = decode_manifest_bytes [];
  manifest_bytes = [];
  signature_bytes = [];
  payload_size = 0;
  package_size = 0;
}

abbrev pub no_slot : SlotDescriptor
no_slot = record {
  id = 0;
  signed_image_base = 0;
  manifest_address = 0;
  signature_address = 0;
  payload_base = 0;
  slot_end = 0;
  maximum_payload_size = 0;
  first_sector = 0;
  last_sector = 0;
}

abbrev pub initial_result : InstallResult
initial_result = record {
  active_slot = slot_none;
  candidate_slot = slot_none;
  image_version = 0;
  erased_sector_count = 0;
  programmed_block_count = 0;
  package_verify_status = VerifyStatus.bad_payload_range;
  installed_verify_status = VerifyStatus.bad_payload_range;
  metadata_recovery = recovery_of false false Copy.no_copy;
}

abbrev pub Step : Type 0 → Type 0
Step D = Session D × D → InstallStatus × Session D × D

module _ {D : Type 0} where
  -- The session after its `memset`, with a flash that nothing may be written through.
  abbrev pub cleared : Flash D → List ℕ → InstallOptions → Session D
  cleared flash public_key options = record {
    state = SessionState.empty;
    restricted_flash = record flash { write_regions = [] };
    public_key = public_key;
    options = options;
    result = initial_result;
    metadata_before = boot_metadata_empty;
    writing_metadata = boot_metadata_empty;
    metadata_recovery = recovery_of false false Copy.no_copy;
    active = none;
    candidate = no_slot;
    active_slot_id = 0;
    header = zero_header;
    payload_hash_ctx = [];
    program_buffer = [];
    payload_received = 0;
    payload_programmed = 0;
    payload_program_size = 0;
    programmed_block_count = 0;
    metadata_writing_committed = false;
    candidate_erased = false;
    payload_hash_finalized = false;
  }

  -- `if (status != UPDATE_INSTALL_OK) { return status; }` between two steps.
  infixr 3 ◌|>◌
  unfoldable pub ◌|>◌ : Step D → Step D → Step D
  (first |> next) w =
      let (status, s, d) = first w in
      let after = next (s, d) in
      elim status [ InstallStatus.ok ↦ after | refused ↦ (refused, s, d) ]

  unfoldable pub refuse_when : (Session D → Bool) → InstallStatus → Step D
  refuse_when test refused w =
      if test w.0 then (refused, w.0, w.1) else (InstallStatus.ok, w.0, w.1)

  unfoldable pub update : (Session D → Session D) → Step D
  update change w = (InstallStatus.ok, change w.0, w.1)

  -- What a step of the device alone returns.
  unfoldable pub on_device : (Session D → D → InstallStatus × D) → Step D
  on_device action w = let (status, d) = action w.0 w.1 in (status, w.0, d)

  -- `return fail_session(session, status)` wherever a step of the sequence refuses.
  unfoldable pub fail_session : Step D → Step D
  fail_session steps w =
      let (status, s, d) = steps w in
      elim status [
        | InstallStatus.ok ↦ (InstallStatus.ok, s, d)
        | refused ↦ (refused, record s { state = SessionState.failed }, d)
      ]

-- ===== src/Installer/Run.antt =====
-- The operations of a session, and the installation of a whole package.
use stm32_security_lab.Common.{
  ℕ, zero, suc, ◌+◌, ◌-◌, Bool, true, false, not, ◌&&◌, Option, none, some, List, [], ◌++◌, length,
  take, drop, leb, ltb, ◌==◌, if◌then◌else◌, Result, done, fail,
}
use stm32_security_lab.Layout.{signed_image_header_size}
use stm32_security_lab.Flash.{Flash}
use stm32_security_lab.Slot.{SlotDescriptor}
use stm32_security_lab.Image.Manifest.{VerifyStatus}
use stm32_security_lab.Image.Verify.{Crypto}
use stm32_security_lab.Package.{
  Package, update_package_verify_header_for_slot, update_package_verify_for_slot,
}
use stm32_security_lab.Metadata.{
  State, Record, MetadataStatus, slot_none, state_code, boot_metadata_empty,
  boot_metadata_prepare_next,
}
use stm32_security_lab.Metadata.Codec.{Recovery, Copy, recovery_of}
use stm32_security_lab.Metadata.Journal.{
  boot_metadata_recover_from_flash, boot_metadata_commit, boot_metadata_reinitialize_for_recovery,
}
use stm32_security_lab.Installer.{
  InstallStatus, FaultPoint, SessionState, InstallOptions, options_are_valid, maybe_fault,
  select_inactive_slot, select_recovery_slot, metadata_matches_start, candidate_package_fits,
  confirmed_version_for_update, init_restricted_flash, commit_metadata_state,
}
use stm32_security_lab.Installer.Session.{
  Session, Step, cleared, ◌|>◌, refuse_when, update, on_device, fail_session,
}
use stm32_security_lab.Installer.Blocks.{
  erase_candidate_slot, program_source_range, flush_payload_program_buffer, at_most,
}
use stm32_security_lab.Installer.Verify.{
  verify_streaming_payload_hash, hash_installed_payload, verify_installed_package,
}

-- Whether a session may go on without a journal: the recovery bootstrap, over copies that are lost.
unfoldable pub may_bootstrap : InstallOptions → MetadataStatus → Bool
may_bootstrap options status = elim status [
  | MetadataStatus.no_valid_copy ↦ options.recovery_bootstrap
  | MetadataStatus.ambiguous ↦ options.recovery_bootstrap
  | _ ↦ false
]

-- What a session starts from: the record, its recovery, the active slot and the candidate.
pub record Start : Type 0 where
  pub current : Record
  pub recovery : Recovery
  pub active : Option SlotDescriptor
  pub candidate : SlotDescriptor

-- Without a journal: an empty record, no active slot, and slot A as the candidate.
unfoldable pub bootstrap_start : InstallOptions → MetadataStatus → Result InstallStatus Start
unfolding may_bootstrap select_recovery_slot
bootstrap_start options status =
    if not (may_bootstrap options status)
    then fail InstallStatus.err_metadata
    else elim select_recovery_slot [
      | fail refused ↦ fail refused
      | done candidate ↦ done (record {
        current = boot_metadata_empty;
        recovery = recovery_of false false Copy.no_copy;
        active = none;
        candidate = candidate;
      })
    ]

unfoldable pub normal_start : Record → Recovery → Result InstallStatus Start
normal_start current recovery = elim (select_inactive_slot current) [
  | fail refused ↦ fail refused
  | done (active, candidate) ↦ done (record {
    current = current;
    recovery = recovery;
    active = some active;
    candidate = candidate;
  })
]

unfoldable pub start_of :
    InstallOptions → MetadataStatus → Record → Recovery → Result InstallStatus Start
unfolding bootstrap_start normal_start
start_of options MetadataStatus.ok current recovery = normal_start current recovery
start_of options status current recovery = bootstrap_start options status

abbrev pub active_id : Option SlotDescriptor → ℕ
active_id none = slot_none
active_id (some slot) = slot.id

-- A record that is in state WRITING for the session's slots.
unfoldable pub is_writing_for : Record → ℕ → ℕ → Bool
is_writing_for r active candidate =
    state_code r.state == state_code State.writing
    && r.active_slot == active
    && r.candidate_slot == candidate

module _ {D : Type 0} where
  -- The session that `update_installer_session_init` leaves when it succeeds.
  unfoldable pub initialized_session :
      Flash D → Flash D → List ℕ → InstallOptions → Start → Session D
  initialized_session flash restricted public_key options start =
      record (cleared flash public_key options) {
        state = SessionState.initialized;
        restricted_flash = restricted;
        metadata_before = start.current;
        metadata_recovery = start.recovery;
        active = start.active;
        candidate = start.candidate;
        active_slot_id = active_id start.active;
        result = record (cleared flash public_key options).result {
          active_slot = active_id start.active;
          candidate_slot = start.candidate.id;
          metadata_recovery = start.recovery;
        };
      }

  unfoldable pub update_installer_session_init :
      Flash D → List ℕ → InstallOptions → D → InstallStatus × Session D × D
  unfolding start_of initialized_session init_restricted_flash options_are_valid
  update_installer_session_init flash public_key options d =
      let session = cleared flash public_key options in
      let (status, current, recovery, d') = boot_metadata_recover_from_flash flash d in
      if not (options_are_valid flash.program_alignment options)
      then (InstallStatus.err_invalid_argument, session, d)
      else elim (start_of options status current recovery) [
        | fail refused ↦ (refused, record session { state = SessionState.failed }, d')
        | done start ↦ elim (init_restricted_flash flash start.candidate) [
          | fail refused ↦ (refused, record session { state = SessionState.failed }, d')
          | done restricted ↦
              (InstallStatus.ok, initialized_session flash restricted public_key options start, d')
        ]
      ]

  -- The journal still holds the record that the session started from.
  unfoldable pub check_unchanged : Step D
  check_unchanged w =
      let (status, recovered, _, d) = boot_metadata_recover_from_flash w.0.restricted_flash w.1 in
      elim status [
        | MetadataStatus.ok ↦
            if metadata_matches_start recovered w.0.metadata_before
            then (InstallStatus.ok, w.0, d)
            else (InstallStatus.err_active_state, w.0, d)
        | failed ↦
            if not (may_bootstrap w.0.options failed)
            then (InstallStatus.err_metadata, w.0, d)
            else if metadata_matches_start boot_metadata_empty w.0.metadata_before
            then (InstallStatus.ok, w.0, d)
            else (InstallStatus.err_active_state, w.0, d)
      ]

  unfoldable pub check_header : Crypto → List ℕ → ℕ → Step D
  check_header crypto header_bytes header_size w =
      elim (update_package_verify_header_for_slot crypto header_bytes header_size w.0.public_key
        w.0.candidate) [
          | fail (_, verified) ↦ (
            InstallStatus.err_package,
            record w.0 { result = record w.0.result { package_verify_status = verified } },
            w.1,
          )
          | done header ↦ (
            InstallStatus.ok,
            record w.0 {
              header = header;
              result = record w.0.result { package_verify_status = VerifyStatus.ok };
            },
            w.1,
          )
        ]

  -- The version must exceed the confirmed one.
  unfoldable pub check_version : Crypto → (D → ℕ → List ℕ) → Step D
  check_version crypto memory w =
      elim (confirmed_version_for_update crypto (memory w.1) w.0.public_key w.0.metadata_before
        w.0.active) [
          | fail refused ↦ (refused, w.0, w.1)
          | done confirmed_version ↦
              if leb w.0.header.manifest.image_version confirmed_version
              then (InstallStatus.err_rollback, w.0, w.1)
              else (InstallStatus.ok, w.0, w.1)
        ]

  unfoldable pub check_size : Step D
  check_size w =
      elim (candidate_package_fits w.0.restricted_flash.program_alignment w.0.candidate
        w.0.header) [
          | fail refused ↦ (refused, w.0, w.1)
          | done size ↦ (
            InstallStatus.ok,
            record w.0 {
              payload_program_size = size;
              result = record w.0.result { image_version = w.0.header.manifest.image_version };
            },
            w.1,
          )
        ]

  -- The journal written anew, for the recovery bootstrap.
  unfoldable pub reinitialize_writing : Session D → D → InstallStatus × D
  reinitialize_writing s d =
      elim (boot_metadata_prepare_next s.metadata_before State.writing s.active_slot_id
        s.candidate.id s.header.manifest.image_version 0 0 0) [
          | fail _ ↦ (InstallStatus.err_metadata, d)
          | done writing ↦
              let (status, d') =
                boot_metadata_reinitialize_for_recovery s.restricted_flash d writing in
              elim (maybe_fault s.options FaultPoint.metadata_writing
                s.header.manifest.image_version) [
                  | InstallStatus.ok ↦ elim status [
                    | MetadataStatus.ok ↦ (InstallStatus.ok, d')
                    | _ ↦ (InstallStatus.err_metadata, d')
                  ]
                  | fault ↦ (fault, d)
                ]
        ]

  unfoldable pub commit_writing : Session D → D → InstallStatus × D
  unfolding reinitialize_writing commit_metadata_state
  commit_writing s d =
      if s.options.recovery_bootstrap
        && not s.metadata_recovery.copy_a_valid
        && not s.metadata_recovery.copy_b_valid
      then reinitialize_writing s d
      else commit_metadata_state s.restricted_flash s.metadata_before State.writing s.active_slot_id
          s.candidate.id s.header.manifest.image_version s.options FaultPoint.metadata_writing d

  -- The record is read back before anything is erased.
  unfoldable pub confirm_writing : Step D
  unfolding is_writing_for
  confirm_writing w =
      let (status, writing, _, d) = boot_metadata_recover_from_flash w.0.restricted_flash w.1 in
      let s = record w.0 { writing_metadata = writing } in
      elim status [
        | MetadataStatus.ok ↦
            if is_writing_for writing s.active_slot_id s.candidate.id
            then (InstallStatus.ok, s, d)
            else (InstallStatus.err_metadata, s, d)
        | _ ↦ (InstallStatus.err_metadata, s, d)
      ]

  unfoldable pub program_header : List ℕ → Step D
  program_header header_bytes w =
      program_source_range w.0.candidate.signed_image_base header_bytes signed_image_header_size
        signed_image_header_size w

  unfoldable pub begin_steps : Crypto → (D → ℕ → List ℕ) → List ℕ → ℕ → Step D
  unfolding check_unchanged check_header check_version check_size commit_writing confirm_writing
      program_header
  begin_steps crypto memory header_bytes header_size =
      check_unchanged
      |> check_header crypto header_bytes header_size
      |> check_version crypto memory
      |> check_size
      |> on_device commit_writing
      |> update (λ s. record s { metadata_writing_committed = true })
      |> confirm_writing
      |> erase_candidate_slot
      |> update (λ s. record s { candidate_erased = true })
      |> program_header header_bytes
      |> update (λ s. record s { payload_hash_ctx = []; state = SessionState.writing })

  unfoldable pub update_installer_begin : Crypto → (D → ℕ → List ℕ) → List ℕ → ℕ → Step D
  unfolding begin_steps
  update_installer_begin crypto memory header_bytes header_size w = elim w.0.state [
    | SessionState.initialized ↦ fail_session (begin_steps crypto memory header_bytes header_size) w
    | _ ↦ (InstallStatus.err_state, w.0, w.1)
  ]

  -- The bytes that one round of the loop of `update_installer_write` takes.
  unfoldable pub accept_bytes : List ℕ → Session D → Session D
  accept_bytes bytes s = record s {
    program_buffer = s.program_buffer ++ bytes;
    payload_hash_ctx = s.payload_hash_ctx ++ bytes;
    payload_received = s.payload_received + length bytes;
  }

  -- A full buffer is programmed.
  unfoldable pub flush_full : Step D
  flush_full w =
      if length w.0.program_buffer == w.0.options.program_buffer_size
      then flush_payload_program_buffer false w
      else (InstallStatus.ok, w.0, w.1)

  -- The loop, with fuel: the list is what remains of the input.
  unfoldable pub write_chunks : ℕ → List ℕ → Step D
  unfolding accept_bytes flush_full
  write_chunks zero input w = (InstallStatus.err_state, w.0, w.1)
  write_chunks (suc fuel) input w =
      let space = w.0.options.program_buffer_size - length w.0.program_buffer in
      let consumed = at_most space (length input) in
      let rest : Step D = write_chunks fuel (drop consumed input) in
      if length input == 0
      then (InstallStatus.ok, w.0, w.1)
      else (update (accept_bytes (take consumed input)) |> flush_full |> rest) w

  -- Each round takes at least one byte, because a full buffer is programmed at once: the length of the
  -- input is fuel enough.
  unfoldable pub write_steps : ℕ → List ℕ → Step D
  unfolding write_chunks
  write_steps payload_offset input =
      refuse_when (λ s. not (payload_offset == s.payload_received)) InstallStatus.err_sequence
      |> refuse_when (λ s. ltb (s.header.payload_size - s.payload_received) (length input))
          InstallStatus.err_sequence
      |> write_chunks (suc (length input)) input
      |> update (λ s.
        if s.payload_received == s.header.payload_size
        then record s { state = SessionState.payload_complete }
        else s)

  unfoldable pub update_installer_write : ℕ → List ℕ → Step D
  unfolding write_steps
  update_installer_write payload_offset input w = elim w.0.state [
    | SessionState.payload_complete ↦
        (InstallStatus.err_sequence, record w.0 { state = SessionState.failed }, w.1)
    | SessionState.writing ↦
        if length input == 0
        then (InstallStatus.err_invalid_argument, w.0, w.1)
        else fail_session (write_steps payload_offset input) w
    | _ ↦ (InstallStatus.err_state, w.0, w.1)
  ]

  unfoldable pub commit_ready : Session D → D → InstallStatus × D
  unfolding commit_metadata_state
  commit_ready s d =
      commit_metadata_state s.restricted_flash s.writing_metadata State.candidate_ready
        s.active_slot_id s.candidate.id s.header.manifest.image_version s.options
        FaultPoint.metadata_candidate_ready d

  unfoldable pub finish_steps : Crypto → (D → ℕ → List ℕ) → Step D
  unfolding commit_ready
  finish_steps crypto memory =
      flush_payload_program_buffer true
      |> refuse_when (λ s. not (s.payload_programmed == s.payload_program_size))
          InstallStatus.err_capacity
      |> verify_streaming_payload_hash crypto
      |> hash_installed_payload crypto
      |> verify_installed_package crypto memory
      |> on_device commit_ready
      |> update (λ s. record s { state = SessionState.finished })

  unfoldable pub update_installer_finish : Crypto → (D → ℕ → List ℕ) → Step D
  unfolding finish_steps
  update_installer_finish crypto memory w = elim w.0.state [
    | SessionState.writing ↦
        (InstallStatus.err_sequence, record w.0 { state = SessionState.failed }, w.1)
    | SessionState.payload_complete ↦ fail_session (finish_steps crypto memory) w
    | _ ↦ (InstallStatus.err_state, w.0, w.1)
  ]

  -- The candidate that an abort finds in the journal is rejected.
  unfoldable pub reject_writing : Record → Session D → D → InstallStatus × D
  reject_writing current s d =
      elim (boot_metadata_prepare_next current State.rejected_invalid s.active_slot_id
        s.candidate.id s.header.manifest.image_version 0 0 0) [
          | fail _ ↦ (InstallStatus.err_metadata, d)
          | done rejected ↦
              let (status, d') = boot_metadata_commit s.restricted_flash d rejected in
              elim status [
                | MetadataStatus.ok ↦ (InstallStatus.ok, d')
                | _ ↦ (InstallStatus.err_metadata, d')
              ]
        ]

  unfoldable pub undo_writing : Session D → D → InstallStatus × D
  unfolding reject_writing is_writing_for
  undo_writing s d =
      let (status, current, _, d') = boot_metadata_recover_from_flash s.restricted_flash d in
      elim status [
        | MetadataStatus.ok ↦
            if is_writing_for current s.active_slot_id s.candidate.id
              && current.candidate_image_version == s.header.manifest.image_version
            then reject_writing current s d'
            else if state_code current.state == state_code State.candidate_ready
            then (InstallStatus.err_state, d')
            else (InstallStatus.ok, d')
        | _ ↦ (InstallStatus.err_metadata, d')
      ]

  unfoldable pub abort_steps : Step D
  unfolding undo_writing
  abort_steps w =
      if w.0.metadata_writing_committed
      then on_device undo_writing w
      else (InstallStatus.ok, w.0, w.1)

  unfoldable pub update_installer_abort : Step D
  unfolding abort_steps
  update_installer_abort w = elim w.0.state [
    | SessionState.finished ↦ (InstallStatus.err_state, w.0, w.1)
    | SessionState.aborted ↦ (InstallStatus.ok, w.0, w.1)
    | _ ↦ fail_session (abort_steps |> update (λ s. record s { state = SessionState.aborted })) w
  ]

  -- The loop of `update_installer_install`, with fuel; the list is `&package.payload[payload_offset]`.
  unfoldable pub install_chunks : ℕ → ℕ → ℕ → List ℕ → Step D
  unfolding update_installer_write
  install_chunks zero size offset payload w = (InstallStatus.err_state, w.0, w.1)
  install_chunks (suc fuel) size offset payload w =
      let chunk = at_most w.0.options.program_buffer_size (size - offset) in
      let rest : Step D = install_chunks fuel size (offset + chunk) (drop chunk payload) in
      if not (ltb offset size)
      then (InstallStatus.ok, w.0, w.1)
      else (update_installer_write offset (take chunk payload) |> rest) w

  -- A write or a finish that fails is followed by an abort, whose status is dropped.
  unfoldable pub or_abort : Step D → Step D
  unfolding update_installer_abort
  or_abort steps w =
      let (status, s, d) = steps w in
      let (_, s', d') = update_installer_abort (s, d) in
      elim status [ InstallStatus.ok ↦ (InstallStatus.ok, s, d) | refused ↦ (refused, s', d') ]

  abbrev pub with_package_status : VerifyStatus → Session D → Session D
  with_package_status verified s = record s {
    result = record s.result { package_verify_status = verified };
  }

  -- What follows the verification of the whole package.
  unfoldable pub install_verified : Crypto → (D → ℕ → List ℕ) → List ℕ → Package → Step D
  unfolding update_installer_begin install_chunks or_abort update_installer_finish
  install_verified crypto memory package_bytes verified =
      update (with_package_status VerifyStatus.ok)
      |> update_installer_begin crypto memory package_bytes signed_image_header_size
      |> or_abort (
          install_chunks (suc verified.payload_size) verified.payload_size 0 verified.payload
          |> update_installer_finish crypto memory)

  unfoldable pub install_steps : Crypto → (D → ℕ → List ℕ) → List ℕ → ℕ → Step D
  unfolding install_verified
  install_steps crypto memory package_bytes package_size w =
      elim (update_package_verify_for_slot crypto package_bytes package_size w.0.public_key
        w.0.candidate) [
          | fail (_, status) ↦ (InstallStatus.err_package, with_package_status status w.0, w.1)
          | done verified ↦ install_verified crypto memory package_bytes verified w
        ]

  unfoldable pub update_installer_install :
      Crypto
      → (D → ℕ → List ℕ)
      → Flash D
      → List ℕ
      → ℕ
      → List ℕ
      → InstallOptions
      → D
      → InstallStatus × Session D × D
  unfolding update_installer_session_init install_steps
  update_installer_install crypto memory flash package_bytes package_size public_key options d =
      let (status, s, d') = update_installer_session_init flash public_key options d in
      elim status [
        | InstallStatus.ok ↦ install_steps crypto memory package_bytes package_size (s, d')
        | refused ↦ (refused, s, d')
      ]

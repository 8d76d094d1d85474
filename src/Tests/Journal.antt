-- ===== src/Tests/Journal.antt =====
-- The journal on concrete records.
use stm32_security_lab.Common.{inl, inr, ◌≢◌, ◌≤◌, ◌≡◌, ◌⊎◌, refl, ap, true, false, done, arith}
use stm32_security_lab.Flash.Nor.{nor, content, nor-Backed, nor-Healthy, write}
use stm32_security_lab.Flash.Device.{bytes_at}
use stm32_security_lab.Metadata.{
  Record, State, slot_none, boot_metadata_empty, MetadataStatus, state_of_u32,
  state_record_is_canonical, slot_value_is_valid, state_is_canonical, candidate_is_canonical,
  boot_metadata_validate_transition, transition_state_allowed, transition_fields_allowed,
  fields_allowed,
}
use stm32_security_lab.Metadata.Codec.{
  seal, encode_without_crc, boot_metadata_decode, boot_metadata_encode, boot_metadata_recover,
  choose, Copy, commit_marker_is_present, all_zero, fixed_words_are_valid, crc_is_valid,
  decode_fields, fields_at,
}
use stm32_security_lab.Metadata.Journal.{boot_metadata_commit, boot_metadata_recover_from_flash}
use stm32_security_lab.Metadata.RoundTrip.{IsWords, decode-encode}
use stm32_security_lab.Metadata.Canonical.{IsCanonical}
use stm32_security_lab.Metadata.Decoded.{IsImageOf, decode-IsImageOf}
use stm32_security_lab.Flash.{FlashStatus, boot_flash_read}
use stm32_security_lab.Layout.{metadata_record_size, metadata_a_base, metadata_b_base}
use stm32_security_lab.Metadata.PowerLoss.{commit_power_loss, commit_keeps_selected}
use stm32_security_lab.Metadata.Durable.{commit-journal}
use stm32_security_lab.Metadata.Passes.{commit_passes}
use stm32_security_lab.Metadata.Recovery.{
  journal, copy_bytes, recover_from_flash-journal, picked, AtMost, choose_newest,
}
use stm32_security_lab.Common.Crc.{crc32_update}
use stm32_security_lab.Tests.{confirmed_a, trial_b, writing_b, holding, device, blank, record_of}

decoded_a : boot_metadata_decode (seal (encode_without_crc confirmed_a)) ≡ done confirmed_a
unfolding boot_metadata_decode seal encode_without_crc state_of_u32 state_record_is_canonical
    slot_value_is_valid state_is_canonical commit_marker_is_present all_zero fixed_words_are_valid
    crc_is_valid decode_fields fields_at crc32_update
decoded_a = refl

pub journal_a : journal (holding confirmed_a) ≡ (
  MetadataStatus.ok,
  confirmed_a,
  record { copy_a_valid = true; copy_b_valid = false; selected_copy = Copy.copy_a },
)
unfolding journal copy_bytes bytes_at write boot_metadata_recover choose boot_metadata_decode seal
    encode_without_crc state_of_u32 state_record_is_canonical slot_value_is_valid state_is_canonical
    commit_marker_is_present all_zero fixed_words_are_valid crc_is_valid decode_fields fields_at
    crc32_update
journal_a = refl

pub journal_a_ok : (journal (content (holding confirmed_a))).0 ≡ MetadataStatus.ok
journal_a_ok = ap (λ j. j.0) journal_a

-- The journal before, and the record of the update that starts.
pub writing_allowed :
    boot_metadata_validate_transition (journal (content (holding confirmed_a))).1 writing_b
    ≡ MetadataStatus.ok
unfolding boot_metadata_validate_transition state_record_is_canonical slot_value_is_valid
    state_is_canonical candidate_is_canonical transition_state_allowed transition_fields_allowed
    fields_allowed
writing_allowed = rw (ap (λ j. j.1) journal_a) refl

-- The first record of a device whose journal is erased.
abbrev first : Record
first = record_of 1 State.confirmed 0 slot_none 5 0 1

journal-blank : (journal (content blank)).0 ≡ MetadataStatus.no_valid_copy
unfolding journal copy_bytes bytes_at boot_metadata_recover choose boot_metadata_decode
    commit_marker_is_present
journal-blank = refl

first_allowed : boot_metadata_validate_transition boot_metadata_empty first ≡ MetadataStatus.ok
unfolding boot_metadata_validate_transition state_record_is_canonical slot_value_is_valid
    state_is_canonical candidate_is_canonical transition_state_allowed transition_fields_allowed
    fields_allowed boot_metadata_empty
first_allowed = refl

commit_passes_example : (boot_metadata_commit device blank first).0 ≡ MetadataStatus.ok
commit_passes_example =
    commit_passes nor content nor-Healthy blank boot_metadata_empty first
      (inr (journal-blank, refl)) first_allowed

over_confirmed : (boot_metadata_commit device (holding confirmed_a) writing_b).0 ≡ MetadataStatus.ok
over_confirmed =
    commit_passes nor content nor-Healthy (holding confirmed_a)
      (journal (content (holding confirmed_a))).1 writing_b (inl (journal_a_ok, refl))
      writing_allowed

commit_power_loss_example :
    let after = journal (content (boot_metadata_commit device (holding confirmed_a) writing_b).1) in
    (after.0 ≡ MetadataStatus.ambiguous)
    ⊎ ((after.0 ≡ MetadataStatus.ok)
        × ((journal (content (holding confirmed_a))).1.sequence ≤ after.1.sequence))
commit_power_loss_example =
    commit_power_loss device content nor-Backed (holding confirmed_a) writing_b journal_a_ok

commit_keeps_selected_example :
    let m' = content (boot_metadata_commit device (holding confirmed_a) writing_b).1 in
    (boot_metadata_decode (copy_bytes m' Copy.copy_a)
      ≡ done (journal (content (holding confirmed_a))).1)
    ⊎ (boot_metadata_decode (copy_bytes m' Copy.copy_b)
        ≡ done (journal (content (holding confirmed_a))).1)
commit_keeps_selected_example =
    commit_keeps_selected device content nor-Backed (holding confirmed_a) writing_b journal_a_ok

writing-IsWords : IsWords writing_b
writing-IsWords = omega arith

commit-journal_example :
    let m' = content (boot_metadata_commit device (holding confirmed_a) writing_b).1 in
    ((journal m').0 ≡ MetadataStatus.ok) × ((journal m').1 ≡ writing_b)
commit-journal_example =
    commit-journal device content nor-Backed (holding confirmed_a) writing_b writing-IsWords
      over_confirmed

recover_from_flash-journal_example :
    let (status, selected, recovery, d') =
      boot_metadata_recover_from_flash device (holding trial_b) in
    let first_read =
      boot_flash_read device (holding trial_b) metadata_a_base metadata_record_size in
    let second_read = boot_flash_read device first_read.2 metadata_b_base metadata_record_size in
    ((first_read.0 ≡ FlashStatus.ok)
      × (second_read.0 ≡ FlashStatus.ok)
      × (status ≡ (journal (content (holding trial_b))).0)
      × (selected ≡ (journal (content (holding trial_b))).1)
      × (recovery ≡ (journal (content (holding trial_b))).2))
    ⊎ (((first_read.0 ≢ FlashStatus.ok) ⊎ (second_read.0 ≢ FlashStatus.ok))
        × (status ≡ MetadataStatus.flash))
recover_from_flash-journal_example =
    recover_from_flash-journal device content nor-Backed (holding trial_b)

encoded_b : boot_metadata_encode trial_b ≡ done (seal (encode_without_crc trial_b))
unfolding boot_metadata_encode state_record_is_canonical slot_value_is_valid state_is_canonical
    candidate_is_canonical
encoded_b = refl

trial-IsWords : IsWords trial_b
trial-IsWords = omega arith

decode-encode_example : boot_metadata_decode (seal (encode_without_crc trial_b)) ≡ done trial_b
decode-encode_example =
    decode-encode trial_b (seal (encode_without_crc trial_b)) trial-IsWords encoded_b

decode-IsImageOf_example :
    IsImageOf (seal (encode_without_crc confirmed_a)) confirmed_a
    × IsCanonical confirmed_a
    × IsWords confirmed_a
decode-IsImageOf_example =
    decode-IsImageOf (seal (encode_without_crc confirmed_a)) confirmed_a decoded_a

newer_found : (choose (done confirmed_a) (done trial_b)).0 ≡ MetadataStatus.ok
unfolding choose
newer_found = refl

choose_newest_example :
    (picked
        (choose (done confirmed_a) (done trial_b)).2.selected_copy
        (done confirmed_a)
        (done trial_b)
      ≡ done (choose (done confirmed_a) (done trial_b)).1)
    × AtMost (done confirmed_a) (choose (done confirmed_a) (done trial_b)).1.sequence
    × AtMost (done trial_b) (choose (done confirmed_a) (done trial_b)).1.sequence
choose_newest_example = choose_newest (done confirmed_a) (done trial_b) newer_found

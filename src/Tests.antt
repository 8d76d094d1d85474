-- ===== src/Tests.antt =====
-- Runs on concrete inputs, and for each result an instance at which its hypotheses hold.
-- The flash is the fault-free array of Flash/Nor, the journal holds one record in copy A.
pub mod Journal
pub mod Boot
pub mod Chains
pub mod Storage
pub mod Images
pub mod Confirm
pub mod Packages
pub mod Frames
pub mod Updates
pub mod Sessions
use stm32_security_lab.Common.{ℕ, ◌≡◌, refl, List, []}
use stm32_security_lab.Layout.{metadata_a_base, metadata_b_base}
use stm32_security_lab.Flash.{Flash}
use stm32_security_lab.Flash.Nor.{nor, content, nor-Backed, write}
use stm32_security_lab.Flash.Target.{metadata_flash}
use stm32_security_lab.Metadata.{State, Record, slot_none}
use stm32_security_lab.Metadata.Codec.{seal, encode_without_crc}

abbrev pub record_of : ℕ → State → ℕ → ℕ → ℕ → ℕ → ℕ → Record
record_of sequence state active candidate version attempts confirmation = record {
  sequence = sequence;
  state = state;
  active_slot = active;
  candidate_slot = candidate;
  candidate_image_version = version;
  boot_attempt_count = attempts;
  confirmation_state = confirmation;
  result = 0;
}

-- Slot A runs version 5.
abbrev pub confirmed_a : Record
confirmed_a = record_of 7 State.confirmed 0 slot_none 5 0 1

-- Slot B is on its second trial, over the confirmed slot A.
abbrev pub trial_b : Record
trial_b = record_of 9 State.pending_trial 0 1 6 2 0

abbrev pub writing_b : Record
writing_b = record_of 8 State.writing 0 1 6 0 0

abbrev pub blank : ℕ → ℕ
blank _ = 255

-- A flash whose copy A holds the record, and whose copy B is erased.
abbrev pub holding : Record → ℕ → ℕ
holding r = write blank metadata_a_base (seal (encode_without_crc r))

abbrev pub device : Flash (ℕ → ℕ)
device = metadata_flash nor

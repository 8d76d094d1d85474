-- ===== src/Lib.antt =====
-- A model of the secure boot path of the STM32 Security Lab firmware, with the theorems that make it
-- correct: from the flash driver over the redundant boot journal and the verification of signed images
-- to Stage 0's choice of a slot, the jump, and the confirmation by the running application, and the
-- update path: packages, the frames that carry them and the installer.
--
-- The parts, and the file that models each:
-- * Flash (firmware/exp045_bootloader_v2/src/boot_flash.c, boot_flash.h): range checks, write regions,
--   read, erase, and program with its verify loop. Flash.Ops stands for `boot_flash_ops_t`, the register
--   back end; Flash.Device says what is assumed of it (a successful read gives the bytes, an erase or a
--   program touches its own range only, whatever it returns), Flash.Healthy the same of a device without
--   faults, and Flash.Nor is such a device; Device.IsMapped is how a pointer shows the content of the
--   memory-mapped flash. Flash.Target is the handle for the metadata of boot_flash_target.c.
-- * Metadata (boot_metadata.c, boot_metadata.h): the record, when it is canonical and which may follow
--   which; Metadata.Codec the 128-byte image, its CRC and the choice between the two copies;
--   Metadata.Journal the recovery, the commit and the reinitialisation over the flash driver.
--   Metadata.Canonical and Metadata.Successor describe canonical records and their successors without
--   the Boolean checks.
-- * Slot (boot_slot.c): the two image slots.
-- * Image (signed_image.c): Image.Manifest the checks of the fields, Image.Verify the verification,
--   Image.Jump the jump context and the jump.
-- * Selection (boot_slot_selection.c): Stage 0's decision; Selection.Policy (boot_policy.c) instantiates
--   it with the verification of images; ResetCause (reset_cause.c) gives the word that a trial records.
-- * Confirmation (boot_confirmation.c) and Confirmation.Platform
--   (firmware/exp066_research_platform_core/src/platform_confirmation.c): the application confirms the
--   slot that it runs from.
-- * Package (firmware/exp045_bootloader_v2/src/update_package.c): the header of an update package and the
--   package as a whole.
-- * Installer (update_installer.c): Installer.Session the state of a session and how steps follow one
--   another, Installer.Blocks the erases and the programs, Installer.Verify the checks of what was
--   installed, Installer.Run the operations from `update_installer_session_init` to
--   `update_installer_install`. The other children prove what a session changes and what it leaves.
-- * Protocol (update_protocol.c): the parser of frames as a state machine, Protocol.Encode the encoder,
--   Protocol.Session the session and its answers, with Session.Handlers for the commands and
--   Session.Process for the bytes of the serial line; Session.Moves, Session.Commands, Session.States and
--   Session.Replay prove what the handlers do to the state and to the sequence number.
-- * ByteReader (byte_reader.c): the reads with a bounded number of polls that the update path makes from
--   the serial line.
-- Layout has the addresses of firmware/common/stm32f429_memory_layout.h, Common the shared helpers, and
-- Tests runs the model on concrete flashes and images.
--
-- How they interact: Selection recovers the journal, verifies a slot through Image and commits the next
-- record through Metadata.Journal, which reads, erases and programs through Flash. The running image
-- confirms itself with another commit. Power loss at any point of a commit is covered by what is assumed
-- of a failing erase or program: nothing about the bytes of its own range. An installer session writes the
-- candidate slot through a flash handle that is restricted to it and to the journal, and commits the
-- journal's records before the erase and after the verification.
--
-- Conventions. The flash is a state D that each operation takes and returns. A call that fills an output
-- and returns a status is a pair of both, or a Result: `done` with the output, `fail` with the status. An
-- output that the source leaves unwritten on an error stands as empty, and nothing reads it. Pointers are
-- values, so the guards against NULL have no counterpart; a hook that may be NULL is an Option. Words are
-- native numbers with their wrap-around written out. The loops are structural recursion over the bytes;
-- the verify loop of a program takes chunks off a list and runs on fuel, one more than the bytes, which
-- is enough since each chunk is not empty. So do the installer's loops over chunks, whose chunks are not
-- empty because the sizes of the buffers are checked.
--
-- Not modelled: the vendored Monocypher (its SHA-512 and Ed25519 are parameters), the register sequences
-- of the flash controller, barriers and interrupts of the jump, the watchdog refreshes, the texts and the
-- console, and the service that runs the protocol's session (update_service.c, update_mode.c).
pub mod Common
pub mod Layout
pub mod Flash
pub mod Metadata
pub mod Slot
pub mod Image
pub mod Selection
pub mod ResetCause
pub mod Confirmation
pub mod ByteReader
pub mod Package
pub mod Protocol
pub mod Installer
pub mod Tests

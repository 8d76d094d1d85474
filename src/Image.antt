-- ===== src/Image.antt =====
-- firmware/exp045_bootloader_v2/src/signed_image.c: the verification of a signed image and the jump
-- into it. A function that returns VERIFY_OK and fills an output is `done` with that output, and
-- `done tt` if it has none; every other status is `fail`.
-- SHA-512 and Ed25519 come from the vendored Monocypher and are parameters. The cycle counters that
-- bracket them are left out.
pub mod Manifest
pub mod Verify
pub mod Jump
pub mod Sound
pub mod Launch
pub mod Entry
pub mod Refusal

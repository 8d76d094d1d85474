-- ===== src/Package/Streaming.antt =====
-- A package checked as a whole and its header checked alone, as the installer's streaming session does.
use stm32_security_lab.Common.{ℕ, ◌+◌, ◌≡◌, true, eq→passes, le→passes, List, take-take, done}
use stm32_security_lab.Layout.{signed_image_header_size}
use stm32_security_lab.Slot.{SlotDescriptor}
use stm32_security_lab.Image.Manifest.{decode_manifest_bytes}
use stm32_security_lab.Image.Verify.{Crypto}
use stm32_security_lab.Package.{
  Package, padding_is_canonical, check_manifest, finish_header, parse_header_common, header_of,
  update_package_verify_header_for_slot, update_package_verify_for_slot,
}
use stm32_security_lab.Package.Sound.{manifest-inv, verify_package-IsBootable, sum-inv}

admitted-parse :
    (bytes : List ℕ)
    → check_manifest (decode_manifest_bytes bytes) ≡ done tt
    → padding_is_canonical bytes ≡ true
    → parse_header_common bytes signed_image_header_size
      ≡ done (header_of bytes (signed_image_header_size + (decode_manifest_bytes bytes).image_size))
unfolding parse_header_common finish_header
admitted-parse bytes c p =
    let m = decode_manifest_bytes bytes in
    let (c1, c2, c3, c4, c5, c6) = manifest-inv m c in rw (c, sum-inv m.image_size c6, p)

-- The header of a package that is verified as a whole is accepted alone as well, with the package's own fields and size: a package that passes the check of the
-- whole is never refused by a streaming session's check of its header.
pub verify_package-header :
    (crypto : Crypto) (bytes key : List ℕ) (size : ℕ) (slot : SlotDescriptor) (result : Package)
    → update_package_verify_for_slot crypto bytes size key slot ≡ done result
    → update_package_verify_header_for_slot crypto bytes signed_image_header_size key slot
      ≡ done (header_of bytes size)
unfolding update_package_verify_header_for_slot decode_manifest_bytes
verify_package-header crypto bytes key size slot result h =
    let (same, exact, fit, bootable, digest, signed) =
      verify_package-IsBootable crypto bytes key size slot result h in
    rw (
      admitted-parse bytes fit.admitted fit.padded,
      eq→passes _ _ fit.address,
      le→passes _ _ fit.fits,
      take-take 96 bytes,
      signed,
      exact,
    )

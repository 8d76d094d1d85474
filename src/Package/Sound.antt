-- ===== src/Package/Sound.antt =====
-- What an accepted update package is.
use stm32_security_lab.Common.{
  ℕ, some, ◌+◌, ◌≤◌, ◌≡◌, sym, ap, subst, ◌∙◌, true, false, not, List, take, drop, ltb, ◌==◌, arith,
  load_le32, Result, done, fail, ◌>>◌, ◌||◌,
}
use stm32_security_lab.Layout.{
  signed_manifest_size, signed_image_header_size, signed_signature_size,
}
use stm32_security_lab.Slot.{SlotDescriptor}
use stm32_security_lab.Image.Manifest.{
  VerifyStatus, Manifest, decode_manifest_bytes, signed_image_magic, update_package_format_version,
  update_package_target, update_package_image_type,
}
use stm32_security_lab.Image.Verify.{Crypto, signed_image_verify_update_slot_buffer}
use stm32_security_lab.Image.Sound.{
  IsBootable, verify_slot-IsBootable, then-inv, bind-inv, refuse-inv, not-inv, done-inv, guard-inv,
}
use stm32_security_lab.Package.{
  Status, Package, Header, checked_size_add, largest_slot_payload_size, padding_is_canonical,
  check_manifest, finish_header, parse_header_common, header_of, package_of, update_package_parse,
  with_verify_status, as_package_status, update_package_verify_header_for_slot,
  update_package_verify_for_slot,
}

pub with_verify_status-inv :
    {A : Type 0} (v : VerifyStatus) (r : Result Status A) (a : A)
    → with_verify_status v r ≡ done a
    → r ≡ done a
with_verify_status-inv v (done a) b h = ground arith
with_verify_status-inv v (fail e) b h = ground arith

-- The identity fields of a manifest that the header's parser admits.
pub manifest-inv :
    (m : Manifest)
    → check_manifest m ≡ done tt
    → (m.magic ≡ signed_image_magic)
      × (m.header_version ≡ update_package_format_version)
      × (m.reserved0 ≡ update_package_target)
      × (m.reserved1 ≡ update_package_image_type)
      × (8 ≤ m.image_size)
      × (m.image_size ≤ 0x5FE00)
unfolding check_manifest largest_slot_payload_size
manifest-inv m h = ground arith

pub sum-inv :
    (size : ℕ)
    → size ≤ 0x5FE00
    → checked_size_add signed_image_header_size size ≡ some (signed_image_header_size + size)
unfolding checked_size_add
sum-inv size h = ground arith

finish-inv :
    (bytes : List ℕ) (size : ℕ) (header : Header)
    → finish_header bytes (some size) ≡ done header
    → (padding_is_canonical bytes ≡ true) × (header ≡ header_of bytes size)
unfolding finish_header
finish-inv bytes size header h =
    let (r, d) = guard-inv (not (padding_is_canonical bytes)) _ _ _ h in
    (not-inv _ r, sym (done-inv _ _ d))

-- A header that is parsed has an admitted manifest and erased padding, and declares the size of the
-- whole package.
pub header-inv :
    (bytes : List ℕ) (size : ℕ) (header : Header)
    → parse_header_common bytes size ≡ done header
    → (signed_image_header_size ≤ size)
      × (check_manifest (decode_manifest_bytes bytes) ≡ done tt)
      × (padding_is_canonical bytes ≡ true)
      × (header
          ≡ header_of bytes (signed_image_header_size + (decode_manifest_bytes bytes).image_size))
unfolding parse_header_common
header-inv bytes size header h =
    let m = decode_manifest_bytes bytes in
    let rest = finish_header bytes (checked_size_add signed_image_header_size m.image_size) in
    let (enough, h1) = then-inv _ (check_manifest m >> rest) _ h in
    let (checked, h2) = then-inv (check_manifest m) rest _ h1 in
    let (c1, c2, c3, c4, c5, c6) = manifest-inv m checked in
    let long : ltb size signed_image_header_size ≡ false = refuse-inv _ _ enough in
    let (padding, same) =
      finish-inv bytes _ header (rw (sum-inv m.image_size c6, finish_header) at h2) in
    (ground arith, checked, padding, same)

-- What a header or package that is accepted for a slot satisfies: its sizes and address suit the slot.
pub record IsForSlot (bytes : List ℕ) (slot : SlotDescriptor) : Type 0 where
  pub admitted : check_manifest (decode_manifest_bytes bytes) ≡ done tt
  pub address : (decode_manifest_bytes bytes).vector_address ≡ slot.payload_base
  pub fits : (decode_manifest_bytes bytes).image_size ≤ slot.maximum_payload_size
  pub padded : padding_is_canonical bytes ≡ true

IsForSlot-of :
    (bytes : List ℕ) (slot : SlotDescriptor) (header : Header)
    → header ≡ header_of bytes (signed_image_header_size + (decode_manifest_bytes bytes).image_size)
    → check_manifest (decode_manifest_bytes bytes) ≡ done tt
    → padding_is_canonical bytes ≡ true
    → not (header.manifest.vector_address == slot.payload_base) ≡ false
    → ltb slot.maximum_payload_size header.manifest.image_size ≡ false
    → IsForSlot bytes slot
IsForSlot-of bytes slot header e c p a s =
    let address = ap (λ h. h.manifest.vector_address) e in
    let size = ap (λ h. h.manifest.image_size) e in
    record { admitted = c; address = ground arith; fits = ground arith; padded = p }

pub slot-inv :
    (crypto : Crypto) (bytes key : List ℕ) (size : ℕ) (slot : SlotDescriptor) (header : Header)
    → update_package_verify_header_for_slot crypto bytes size key slot ≡ done header
    → (size ≡ signed_image_header_size)
      × (header
          ≡ header_of bytes (signed_image_header_size + (decode_manifest_bytes bytes).image_size))
      × IsForSlot bytes slot
      × (crypto.ed25519_check header.signature_bytes key
            (take signed_manifest_size header.manifest_bytes)
          ≡ true)
unfolding update_package_verify_header_for_slot
slot-inv crypto bytes key size slot header h =
    let (short, h1) = guard-inv (ltb size signed_image_header_size) _ _ _ h in
    let (long, h2) = guard-inv (ltb signed_image_header_size size) _ _ _ h1 in
    let (parsed, h3, h4) =
      bind-inv (with_verify_status _ (parse_header_common bytes size)) _ _ h2 in
    let (r1, h5) = guard-inv (not (parsed.manifest.vector_address == slot.payload_base)) _ _ _ h4 in
    let (r2, h6) = guard-inv (ltb slot.maximum_payload_size parsed.manifest.image_size) _ _ _ h5 in
    let (r3, h7) =
      guard-inv
        (not (
          crypto.ed25519_check parsed.signature_bytes key
            (take signed_manifest_size parsed.manifest_bytes)))
        _ _ _ h6 in
    let same = done-inv parsed header h7 in
    let (q1, q2, q3, q4) = header-inv bytes size parsed (with_verify_status-inv _ _ _ h3) in
    (
      ground arith,
      sym same ∙ q4,
      IsForSlot-of bytes slot parsed q4 q2 q3 r1 r2,
      subst
          (λ x.
            crypto.ed25519_check x.signature_bytes key (take signed_manifest_size x.manifest_bytes)
            ≡ true)
          same (not-inv _ r3),
    )

as_package_status-inv :
    {A : Type 0} (r : Result VerifyStatus A) (a : A) → as_package_status r ≡ done a → r ≡ done a
as_package_status-inv (done a) b h = ground arith
as_package_status-inv (fail e) b h = ground arith

pub parse-inv :
    (bytes : List ℕ) (size : ℕ) (result : Package)
    → update_package_parse bytes size ≡ done result
    → (size ≡ signed_image_header_size + (decode_manifest_bytes bytes).image_size)
      × (check_manifest (decode_manifest_bytes bytes) ≡ done tt)
      × (padding_is_canonical bytes ≡ true)
      × (result ≡ package_of bytes size (header_of bytes size))
unfolding update_package_parse
parse-inv bytes size result h =
    let (header, h1, h2) = bind-inv (parse_header_common bytes size) _ _ h in
    let (q1, q2, q3, q4) = header-inv bytes size header h1 in
    let (r1, h3) = guard-inv (ltb size header.package_size) _ _ _ h2 in
    let (r2, h4) = guard-inv (ltb header.package_size size) _ _ _ h3 in
    let whole = ap (λ h. h.package_size) q4 in
    let exact : size ≡ signed_image_header_size + (decode_manifest_bytes bytes).image_size =
      ground arith in
    let same : header ≡ header_of bytes size = q4 ∙ ap (header_of bytes) (sym exact) in
    (exact, q2, q3, sym (done-inv _ _ h4) ∙ ap (package_of bytes size) same)

slot_guard-inv : (a b s m : ℕ) → not (a == b) || ltb m s ≡ false → (a ≡ b) × (s ≤ m)
slot_guard-inv a b s m h = ground arith

-- A package that is verified for a slot is exactly a header and the payload that its manifest declares; the manifest's fields are admitted, the padding is erased, the payload
-- fits the slot and is a bootable image with the declared SHA-512 digest, and the signature of the manifest is accepted.
pub verify_package-IsBootable :
    (crypto : Crypto) (bytes key : List ℕ) (size : ℕ) (slot : SlotDescriptor) (result : Package)
    → update_package_verify_for_slot crypto bytes size key slot ≡ done result
    → (result ≡ package_of bytes size (header_of bytes size))
      × (size ≡ signed_image_header_size + load_le32 bytes 16)
      × IsForSlot bytes slot
      × IsBootable bytes (drop signed_image_header_size bytes) slot
      × (crypto.sha512 (take (load_le32 bytes 16) (drop signed_image_header_size bytes))
          ≡ take 64 (drop 32 bytes))
      × (crypto.ed25519_check
            (take signed_signature_size (drop signed_manifest_size bytes))
            key
            (take signed_manifest_size bytes)
          ≡ true)
unfolding update_package_verify_for_slot decode_manifest_bytes
verify_package-IsBootable crypto bytes key size slot result h =
    let (p, h1, h2) = bind-inv (with_verify_status _ (update_package_parse bytes size)) _ _ h in
    let (exact, q2, q3, q4) = parse-inv bytes size p (with_verify_status-inv _ _ _ h1) in
    let (r1, h3) =
      guard-inv
        (not (p.manifest.vector_address == slot.payload_base)
          || ltb slot.maximum_payload_size p.manifest.image_size)
        _ _ _ h2 in
    let (h4, h5) =
      then-inv
        (as_package_status (
          signed_image_verify_update_slot_buffer crypto p.manifest_bytes p.signature_bytes p.payload
            p.payload_size key slot))
        _ _ h3 in
    let verified = as_package_status-inv _ _ h4 in
    let (bootable, digest, signed) =
      verify_slot-IsBootable crypto bytes
        (take signed_signature_size (drop signed_manifest_size bytes))
        (drop signed_image_header_size bytes) (decode_manifest_bytes bytes).image_size key slot
        (subst
          (λ x.
            signed_image_verify_update_slot_buffer crypto x.manifest_bytes x.signature_bytes
              x.payload x.payload_size key slot
            ≡ done tt)
          q4 verified) in
    let (address, room) = slot_guard-inv _ _ _ _ r1 in
    (
      sym (done-inv _ _ h5) ∙ q4,
      exact,
      record {
        admitted = q2;
        address = sym (ap (λ x. x.manifest.vector_address) q4) ∙ address;
        fits = subst (λ n. n ≤ slot.maximum_payload_size) (ap (λ x. x.manifest.image_size) q4) room;
        padded = q3;
      },
      bootable,
      digest,
      signed,
    )

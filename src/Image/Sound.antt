-- ===== src/Image/Sound.antt =====
-- What an accepted image is: the facts that `VERIFY_OK` establishes.
use stm32_security_lab.Common.{
  ℕ, ◌+◌, ◌-◌, bit_and, ◌%◌, ◌≤◌, ◌<◌, ◌≡◌, refl, ◌∙◌, Bool, true, false, not, List, take, drop,
  bytes_eq→eq, arith, bytes_eq, load_le32, Result, done, fail, refuse_if, ◌>>=◌, ◌>>◌, ltb,
}
use stm32_security_lab.Layout.{signed_manifest_size}
use stm32_security_lab.Slot.{SlotDescriptor}
use stm32_security_lab.Image.Manifest.{
  VerifyStatus, Manifest, Policy, decode_manifest_bytes, checked_u32_add, u32_equal_redundant,
  validate_manifest_header, validate_payload_range, validate_payload_range_independent,
  validate_reserved, validate_application_msp, validate_application_reset, clear_bit0,
  signed_image_magic, update_package_format_version, update_package_target,
  update_package_image_type, min_image_version, vector_min_size, allowed_flags, u32_max,
}
use stm32_security_lab.Image.Verify.{
  Crypto, JumpContext, read_application_vector, validate_vector_table, validate_image,
  update_policy, verify_buffer_with_policy, signed_image_verify_update_slot_buffer,
}

pub then-inv :
    {E B : Type 0} (m : Result E (Unit {0})) (k : Result E B) (b : B)
    → m >> k ≡ done b
    → (m ≡ done tt) × (k ≡ done b)
then-inv (done u) k b h = (refl, h)
then-inv (fail e) k b h = ground arith

pub bind-inv :
    {E A B : Type 0} (m : Result E A) (k : A → Result E B) (b : B)
    → m >>= k ≡ done b
    → (a : A) × (m ≡ done a) × (k a ≡ done b)
bind-inv (done a) k b h = (a, refl, h)
bind-inv (fail e) k b h = ground arith

pub done-inv : {E A : Type 0} (a b : A) → ◌≡◌ {A = Result E A} (done a) (done b) → a ≡ b
done-inv a b h = ground arith

pub refuse-inv : {E : Type 0} (b : Bool) (e : E) → refuse_if b e ≡ done tt → b ≡ false
refuse-inv true e h = ground arith
refuse-inv false e h = refl

pub guard-inv :
    {E B : Type 0} (b : Bool) (e : E) (k : Result E B) (x : B)
    → refuse_if b e >> k ≡ done x
    → (b ≡ false) × (k ≡ done x)
guard-inv true e k x h = ground arith
guard-inv false e k x h = (refl, h)

pub guard-intro :
    {E B : Type 0} (b : Bool) (e : E) (k : Result E B) (x : B)
    → b ≡ false
    → k ≡ done x
    → refuse_if b e >> k ≡ done x
guard-intro true e k x f h = ground arith
guard-intro false e k x f h = h

pub not-inv : (b : Bool) → not b ≡ false → b ≡ true
not-inv true h = refl
not-inv false h = ground arith

pub msp-inv :
    (msp : ℕ)
    → validate_application_msp msp ≡ done tt
    → (0x20000000 < msp) × (msp ≤ 0x20020000) × (msp % 8 ≡ 0)
unfolding validate_application_msp
msp-inv msp h = ground arith

pub reset-inv :
    (v a base e fe : ℕ)
    → validate_application_reset v a base e fe ≡ done tt
    → (v % 2 ≡ 1) × (v ≡ a + 1) × (base ≤ a) × (a < e) × (a < fe)
unfolding validate_application_reset
reset-inv v a base e fe h = ground arith

range-inv :
    (m : Manifest) (p : Policy) (e : ℕ)
    → validate_payload_range m p ≡ done e
    → (m.vector_address ≡ p.vector_address)
      × (m.image_size ≤ p.maximum_payload_size)
      × (e ≡ m.vector_address + m.image_size)
      × (e ≤ p.payload_flash_end)
unfolding validate_payload_range checked_u32_add u32_equal_redundant
range-inv m p e h = ground arith

header-inv :
    (m : Manifest) (p : Policy)
    → validate_manifest_header m p ≡ done tt
    → (m.magic ≡ signed_image_magic)
      × (m.header_version ≡ p.header_version)
      × (bit_and m.flags (u32_max - p.allowed_flags_mask) ≡ 0)
      × (min_image_version ≤ m.image_version)
      × (validate_reserved m p ≡ done tt)
unfolding validate_manifest_header u32_equal_redundant
header-inv m p h = ground arith

reserved-inv :
    (m : Manifest) (p : Policy)
    → p.require_update_fields ≡ true
    → validate_reserved m p ≡ done tt
    → (m.reserved0 ≡ p.target_compatibility) × (m.reserved1 ≡ p.image_type)
unfolding validate_reserved
reserved-inv m p u h = ground arith

table-inv :
    (m : Manifest) (p : Policy) (payload : List ℕ) (e : ℕ) (c : JumpContext)
    → validate_vector_table m p payload e ≡ done c
    → (c.vector_address ≡ m.vector_address)
      × (c.image_size ≡ m.image_size)
      × (c.payload_end ≡ e)
      × (c.initial_msp ≡ load_le32 payload 0)
      × (c.reset_vector ≡ load_le32 payload 4)
      × (c.reset_address ≡ clear_bit0 (load_le32 payload 4))
      × (validate_application_msp c.initial_msp ≡ done tt)
      × (validate_application_reset c.reset_vector c.reset_address m.vector_address e
            p.payload_flash_end
          ≡ done tt)
unfolding validate_vector_table read_application_vector
table-inv m p payload e c h = ground arith

size-inv :
    (m : Manifest) (p : Policy) (e : ℕ)
    → validate_payload_range_independent m p e ≡ done tt
    → (vector_min_size ≤ m.image_size)
unfolding validate_payload_range_independent u32_equal_redundant
size-inv m p e h = ground arith

-- What `IsBootable` says of a manifest, a payload and a slot: the manifest's identity fields, the
-- bounds of the payload, and a vector table that starts inside it.
pub record IsBootable (manifest payload : List ℕ) (slot : SlotDescriptor) : Type 0 where
  pub magic : load_le32 manifest 0 ≡ signed_image_magic
  pub version : load_le32 manifest 4 ≡ update_package_format_version
  pub no_flags : bit_and (load_le32 manifest 20) (u32_max - allowed_flags) ≡ 0
  pub no_rollback : min_image_version ≤ load_le32 manifest 8
  pub address : load_le32 manifest 12 ≡ slot.payload_base
  pub not_short : vector_min_size ≤ load_le32 manifest 16
  pub inside : slot.payload_base + load_le32 manifest 16 ≤ slot.slot_end
  pub target : load_le32 manifest 24 ≡ update_package_target
  pub kind : load_le32 manifest 28 ≡ update_package_image_type
  pub stack_aligned : load_le32 payload 0 % 8 ≡ 0
  pub stack_above : 0x20000000 < load_le32 payload 0
  pub stack_below : load_le32 payload 0 ≤ 0x20020000
  pub thumb : load_le32 payload 4 % 2 ≡ 1
  pub entry_above : slot.payload_base < load_le32 payload 4
  pub entry_below : load_le32 payload 4 ≤ slot.payload_base + load_le32 manifest 16

-- The context that the vector table of an accepted image gives.
abbrev pub context_of : List ℕ → List ℕ → JumpContext
context_of manifest payload = record {
  vector_address = load_le32 manifest 12;
  image_size = load_le32 manifest 16;
  payload_end = load_le32 manifest 12 + load_le32 manifest 16;
  initial_msp = load_le32 payload 0;
  reset_vector = load_le32 payload 4;
  reset_address = clear_bit0 (load_le32 payload 4);
}

image-inv :
    (m : Manifest) (p : Policy) (payload : List ℕ) (capacity : ℕ) (c : JumpContext)
    → validate_image m p payload capacity ≡ done c
    → (validate_manifest_header m p ≡ done tt)
      × (m.image_size ≤ capacity)
      × ((e : ℕ) × (validate_payload_range m p ≡ done e)
          × (validate_payload_range_independent m p e ≡ done tt)
          × (validate_vector_table m p payload e ≡ done c))
unfolding validate_image
image-inv m p payload capacity c h =
    let (header, h1) = then-inv _ _ _ h in
    let (e, range, h2) = bind-inv _ _ _ h1 in
    let (independent, h3) = then-inv _ _ _ h2 in
    let (room, table) = then-inv _ _ _ h3 in
    let fits : ltb capacity m.image_size ≡ false = refuse-inv _ _ room in
    (header, ground arith, (e, range, independent, table))

pub context_eq :
    (c d : JumpContext)
    → c.vector_address ≡ d.vector_address
    → c.image_size ≡ d.image_size
    → c.payload_end ≡ d.payload_end
    → c.initial_msp ≡ d.initial_msp
    → c.reset_vector ≡ d.reset_vector
    → c.reset_address ≡ d.reset_address
    → c ≡ d
context_eq c d va is pe im rv ra = λ i. record {
  vector_address = va i;
  image_size = is i;
  payload_end = pe i;
  initial_msp = im i;
  reset_vector = rv i;
  reset_address = ra i;
}

pub image-IsBootable :
    (manifest payload : List ℕ) (slot : SlotDescriptor) (capacity : ℕ) (c : JumpContext)
    → validate_image (decode_manifest_bytes manifest) (update_policy slot) payload capacity ≡ done c
    → IsBootable manifest payload slot × (c ≡ context_of manifest payload)
unfolding decode_manifest_bytes
image-IsBootable manifest payload slot capacity c h =
    let (header, fits, (e, range, independent, table)) = image-inv _ _ _ _ _ h in
    let (magic, version, flags, minimum, reserved) = header-inv _ _ header in
    let (t1, t2, t3, t4, t5, t6, stack, reset) = table-inv _ _ _ _ _ table in
    let (r1, r2, r3, r4) = range-inv _ _ _ range in
    let z = size-inv _ _ _ independent in
    let (q1, q2) = reserved-inv _ _ refl reserved in
    let (s1, s2, s3) = msp-inv _ stack in
    let (v1, v2, v3, v4, v5) = reset-inv _ _ _ _ _ reset in
    let bootable : IsBootable manifest payload slot = record {
      magic = magic;
      version = version;
      no_flags = flags;
      no_rollback = minimum;
      address = r1;
      not_short = z;
      inside = omega arith;
      target = q1;
      kind = q2;
      stack_aligned = ground (arith, s3, t4);
      stack_above = ground (arith, s1, t4);
      stack_below = ground (arith, s2, t4);
      thumb = ground (arith, v1, t5);
      entry_above = ground (arith, v2, v3, t5);
      entry_below = ground (arith, v2, v4, t5);
    } in
    (bootable, context_eq c (context_of manifest payload) t1 t2 (t3 ∙ r3) t4 t5 t6)

-- An update slot's image that the verification accepts is bootable, the payload has the SHA-512 digest that the manifest declares, and the signature of
-- the manifest is accepted.
pub verify_slot-IsBootable :
    (crypto : Crypto) (manifest signature payload : List ℕ) (capacity : ℕ) (key : List ℕ)
    (slot : SlotDescriptor)
    → signed_image_verify_update_slot_buffer crypto manifest signature payload capacity key slot
      ≡ done tt
    → IsBootable manifest payload slot
      × (crypto.sha512 (take (load_le32 manifest 16) payload) ≡ take 64 (drop 32 manifest))
      × (crypto.ed25519_check signature key (take signed_manifest_size manifest) ≡ true)
unfolding signed_image_verify_update_slot_buffer verify_buffer_with_policy decode_manifest_bytes
verify_slot-IsBootable crypto manifest signature payload capacity key slot h =
    let (consistent, h1) = then-inv _ _ _ h in
    let (c, image, h2) = bind-inv _ _ _ h1 in
    let (bootable, same) = image-IsBootable _ _ _ _ _ image in
    let (hash, sig) = then-inv _ _ _ h2 in
    let digest =
      refuse-inv
        (not (
          bytes_eq (crypto.sha512 (take (load_le32 manifest 16) payload))
            (decode_manifest_bytes manifest).payload_sha512))
        VerifyStatus.bad_payload_hash hash in
    let accepted =
      refuse-inv (not (crypto.ed25519_check signature key (take signed_manifest_size manifest)))
        VerifyStatus.bad_signature sig in
    (bootable, bytes_eq→eq _ _ (not-inv _ digest), not-inv _ accepted)

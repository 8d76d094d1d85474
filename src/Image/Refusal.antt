-- ===== src/Image/Refusal.antt =====
-- A verification that refuses an image says why: no refusal carries VERIFY_OK.
use stm32_security_lab.Common.{
  ℕ, ◌≢◌, Bool, true, false, List, arith, Result, done, fail, refuse_if, ◌>>=◌, ◌>>◌,
}
use stm32_security_lab.Slot.{SlotDescriptor}
use stm32_security_lab.Image.Manifest.{
  VerifyStatus, Manifest, Policy, validate_reserved, validate_manifest_header,
  validate_payload_range, validate_payload_range_independent, validate_application_msp,
  validate_application_reset,
}
use stm32_security_lab.Image.Verify.{
  Crypto, validate_vector_table, validate_image, verify_buffer_with_policy,
  signed_image_verify_update_slot_buffer,
}

-- The result is not the refusal with the status OK.
abbrev Says : {A : Type 0} → Result VerifyStatus A → Type 0
Says m = m ≢ fail VerifyStatus.ok

then-Says :
    {A : Type 0} (m : Result VerifyStatus (Unit {0})) (k : Result VerifyStatus A)
    → Says m
    → Says k
    → Says (m >> k)
then-Says (done u) k hm hk = hk
then-Says (fail e) k hm hk = ground (arith, hm)

bind-Says :
    {A B : Type 0} (m : Result VerifyStatus A) (k : A → Result VerifyStatus B)
    → Says m
    → ((a : A) → Says (k a))
    → Says (m >>= k)
bind-Says (done a) k hm hk = hk a
bind-Says (fail e) k hm hk = ground (arith, hm)

header-Says : (m : Manifest) (p : Policy) → Says (validate_manifest_header m p)
unfolding validate_manifest_header validate_reserved
header-Says m p = ground arith

range-Says : (m : Manifest) (p : Policy) → Says (validate_payload_range m p)
unfolding validate_payload_range
range-Says m p = ground arith

independent-Says :
    (m : Manifest) (p : Policy) (e : ℕ) → Says (validate_payload_range_independent m p e)
unfolding validate_payload_range_independent
independent-Says m p e = ground arith

done-Says : {A : Type 0} (a : A) → Says (done a)
done-Says a = ground arith

guard-Says : (b : Bool) (e : VerifyStatus) → e ≢ VerifyStatus.ok → Says (refuse_if b e)
guard-Says true e h = ground (arith, h)
guard-Says false e h = ground arith

table-Says :
    (m : Manifest) (p : Policy) (payload : List ℕ) (e : ℕ)
    → Says (validate_vector_table m p payload e)
unfolding validate_vector_table validate_application_msp validate_application_reset
table-Says m p payload e =
    then-Says _ _ (guard-Says _ VerifyStatus.bad_stack (λ q. cc))
      (then-Says _ _ (guard-Says _ VerifyStatus.bad_reset_vector (λ q. cc)) (done-Says _))

image-Says :
    (m : Manifest) (p : Policy) (payload : List ℕ) (capacity : ℕ)
    → Says (validate_image m p payload capacity)
unfolding validate_image
image-Says m p payload capacity = then-Says _ _ (header-Says m p) (
    bind-Says _ _ (range-Says m p) (λ e. then-Says _ _ (independent-Says m p e) (
      then-Says _ _ (guard-Says _ VerifyStatus.bad_payload_range (λ q. cc))
        (table-Says m p payload e))))

pub verify-refusal :
    (crypto : Crypto) (manifest signature payload : List ℕ) (capacity : ℕ) (key : List ℕ)
    (slot : SlotDescriptor)
    → signed_image_verify_update_slot_buffer crypto manifest signature payload capacity key slot
      ≢ fail VerifyStatus.ok
unfolding signed_image_verify_update_slot_buffer verify_buffer_with_policy
verify-refusal crypto manifest signature payload capacity key slot =
    then-Says _ _ (guard-Says _ VerifyStatus.bad_payload_range (λ q. cc)) (
      bind-Says _ _ (image-Says _ _ payload capacity) (λ c.
        then-Says _ _ (guard-Says _ VerifyStatus.bad_payload_hash (λ q. cc))
          (guard-Says _ VerifyStatus.bad_signature (λ q. cc))))

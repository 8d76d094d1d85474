-- ===== src/Flash/Nor.antt =====
-- A fault-free flash array, as the tests use it: erased bytes are 255, and a program that would have
-- to set a bit of a written byte is refused. It shows that the assumptions on the device can be met.
use stm32_security_lab.Common.{
  ℕ, zero, suc, ◌+◌, ◌≤◌, ◌<◌, ◌≡◌, refl, ap, ap₂, ◌∙◌, ◌⊎◌, inl, inr, Bool, true, ◌&&◌, none, some,
  List, [], ◌∷◌, length, leb, ltb, ◌==◌, if◌then◌else◌, arith,
}
use stm32_security_lab.Flash.{FlashStatus, Ops, boot_flash_sector_by_id}
use stm32_security_lab.Flash.Device.{Backed, bytes_at, bytes_at-ext}
use stm32_security_lab.Flash.Sectors.{Sector}
use stm32_security_lab.Flash.Healthy.{Healthy, IsBlank}

unfoldable pub write : (ℕ → ℕ) → ℕ → List ℕ → ℕ → ℕ
write m a [] x = m x
write m a (b ∷ rest) x = if x == a then b else write m (suc a) rest x

unfoldable pub is_blank : (ℕ → ℕ) → ℕ → ℕ → Bool
is_blank m a zero = true
is_blank m a (suc n) = m a == 255 && is_blank m (suc a) n

unfoldable pub erase : (ℕ → ℕ) → Sector → ℕ → ℕ
erase m s x = if leb s.base x && ltb x (s.base + s.size) then 255 else m x

unfoldable pub nor_erase : (ℕ → ℕ) → ℕ → FlashStatus × (ℕ → ℕ)
unfolding erase
nor_erase m id = elim (boot_flash_sector_by_id id) [
  | none ↦ (FlashStatus.backend, m)
  | some s ↦ (FlashStatus.ok, erase m s)
]

unfoldable pub nor_program : (ℕ → ℕ) → ℕ → List ℕ → FlashStatus × (ℕ → ℕ)
unfolding write is_blank
nor_program m a bytes =
    if is_blank m a (length bytes)
    then (FlashStatus.ok, write m a bytes)
    else (FlashStatus.backend, m)

unfoldable pub nor : Ops (ℕ → ℕ)
unfolding nor_erase nor_program bytes_at
nor = record {
  read = λ m a n. (FlashStatus.ok, bytes_at m a n, m);
  erase_sector = nor_erase;
  program = nor_program;
}

abbrev pub content : (ℕ → ℕ) → ℕ → ℕ
content m = m

write-frame :
    (m : ℕ → ℕ) (a x : ℕ) (bytes : List ℕ)
    → (x < a) ⊎ (a + length bytes ≤ x)
    → write m a bytes x ≡ m x
unfolding write
write-frame m a x [] out = refl
write-frame m a x (b ∷ rest) (inl h) =
    ground (arith, write-frame m (suc a) x rest (inl (omega arith)))
write-frame m a x (b ∷ rest) (inr h) =
    ground (arith, write-frame m (suc a) x rest (inr (omega arith)))

write-bytes :
    (m : ℕ → ℕ) (a : ℕ) (bytes : List ℕ) → bytes_at (write m a bytes) a (length bytes) ≡ bytes
unfolding write bytes_at
write-bytes m a [] = refl
write-bytes m a (b ∷ rest) = ap₂ ◌∷◌ (ground arith) (
    bytes_at-ext _ (write m (suc a) rest) (suc a) (length rest) (λ x l u. ground arith)
    ∙ write-bytes m (suc a) rest)

is_blank-IsBlank : (m : ℕ → ℕ) (a n : ℕ) → IsBlank m a n → is_blank m a n ≡ true
unfolding is_blank
is_blank-IsBlank m a zero h = refl
is_blank-IsBlank m a (suc n) h =
    let first : m a ≡ 255 = h a (omega arith) (omega arith) in
    let rest = is_blank-IsBlank m (suc a) n (λ x l u. h x (omega arith) (omega arith)) in
    ground arith

nor_erase-frame :
    (m : ℕ → ℕ) (id x : ℕ) (s : Sector)
    → boot_flash_sector_by_id id ≡ some s
    → (x < s.base) ⊎ (s.base + s.size ≤ x)
    → (nor_erase m id).1 x ≡ m x
unfolding nor_erase
nor_erase-frame m id x s known out = rw (known, nor_erase) (ground arith)

nor_program-frame :
    (m : ℕ → ℕ) (a x : ℕ) (bytes : List ℕ)
    → (x < a) ⊎ (a + length bytes ≤ x)
    → (nor_program m a bytes).1 x ≡ m x
unfolding nor_program
nor_program-frame m a x bytes out = ground (arith, write-frame m a x bytes)

nor_erase_ok :
    (m : ℕ → ℕ) (id : ℕ) (s : Sector)
    → boot_flash_sector_by_id id ≡ some s
    → ((nor_erase m id).0 ≡ FlashStatus.ok) × IsBlank (nor_erase m id).1 s.base s.size
unfolding nor_erase
nor_erase_ok m id s known = rw (known, nor_erase) (refl, λ x l u. ground arith)

nor_program_ok :
    (m : ℕ → ℕ) (a : ℕ) (bytes : List ℕ)
    → IsBlank m a (length bytes)
    → nor_program m a bytes ≡ (FlashStatus.ok, write m a bytes)
unfolding nor_program
nor_program_ok m a bytes blank = rw (is_blank-IsBlank m a (length bytes) blank) refl

pub nor-Backed : Backed nor content
unfolding nor
nor-Backed = record {
  read_bytes = λ d a n h. refl;
  read_keeps = λ d a n. refl;
  erase_frame = nor_erase-frame;
  program_frame = nor_program-frame;
}

pub nor-Healthy : Healthy nor content
unfolding nor
nor-Healthy = record {
  backed = nor-Backed;
  read_ok = λ d a n. refl;
  erase_ok = λ d id s known. (nor_erase_ok d id s known).0;
  erase_blanks = λ d id s known. (nor_erase_ok d id s known).1;
  program_ok = λ d a bytes blank. ap (λ r. r.0) (nor_program_ok d a bytes blank);
  program_writes = λ d a bytes blank. rw (nor_program_ok d a bytes blank) (write-bytes d a bytes);
}

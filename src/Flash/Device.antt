-- ===== src/Flash/Device.antt =====
-- What the boot loader relies on of the device behind `boot_flash_ops_t`, whichever backend it is.
-- `mem d` is the content of the flash, one byte for each address.
use stm32_security_lab.Common.{
  ℕ, zero, suc, ◌+◌, ◌≤◌, ◌<◌, ◌≡◌, refl, sym, ◌∙◌, ap, ap₂, ◌⊎◌, List, [], ◌∷◌, ◌++◌, some, length,
  arith,
}
use stm32_security_lab.Flash.{FlashStatus, Ops, boot_flash_sector_by_id}
use stm32_security_lab.Flash.Sectors.{Sector}

unfoldable pub bytes_at : (ℕ → ℕ) → ℕ → ℕ → List ℕ
bytes_at m a zero = []
bytes_at m a (suc n) = m a ∷ bytes_at m (suc a) n

-- A read that succeeds gives the bytes of its range and changes none. An erase changes no byte
-- outside its sector, and a program none outside its range, whatever status they return: this
-- covers an operation that fails or loses power half way.
pub record Backed {D : Type 0} (ops : Ops D) (mem : D → ℕ → ℕ) : Type 0 where
  pub read_bytes :
      (d : D) (a n : ℕ)
      → (ops.read d a n).0 ≡ FlashStatus.ok
      → (ops.read d a n).1 ≡ bytes_at (mem d) a n
  pub read_keeps : (d : D) (a n : ℕ) → mem (ops.read d a n).2 ≡ mem d
  pub erase_frame :
      (d : D) (id x : ℕ) (s : Sector)
      → boot_flash_sector_by_id id ≡ some s
      → (x < s.base) ⊎ (s.base + s.size ≤ x)
      → mem (ops.erase_sector d id).1 x ≡ mem d x
  pub program_frame :
      (d : D) (a x : ℕ) (bytes : List ℕ)
      → (x < a) ⊎ (a + length bytes ≤ x)
      → mem (ops.program d a bytes).1 x ≡ mem d x

pub length-bytes_at : (m : ℕ → ℕ) (a n : ℕ) → length (bytes_at m a n) ≡ n
unfolding bytes_at
length-bytes_at m a zero = refl
length-bytes_at m a (suc n) = ap suc (length-bytes_at m (suc a) n)

-- A range reads as its two parts.
pub bytes_at-add :
    (m : ℕ → ℕ) (a k n : ℕ) → bytes_at m a (k + n) ≡ bytes_at m a k ++ bytes_at m (a + k) n
unfolding bytes_at
bytes_at-add m a zero n = ap₂ (bytes_at m) (omega arith) (omega arith)
bytes_at-add m a (suc k) n =
    let split : suc k + n ≡ suc (k + n) = omega arith in
    let shift : a + suc k ≡ suc a + k = omega arith in
    rw (split, shift) (ap (◌∷◌ (m a)) (bytes_at-add m (suc a) k n))

-- Content that agrees on a range reads the same there.
pub bytes_at-ext :
    (m m' : ℕ → ℕ) (a n : ℕ)
    → ((x : ℕ) → a ≤ x → x < a + n → m x ≡ m' x)
    → bytes_at m a n ≡ bytes_at m' a n
unfolding bytes_at
bytes_at-ext m m' a zero h = refl
bytes_at-ext m m' a (suc n) h =
    ap₂ ◌∷◌ (h a (omega arith) (omega arith))
      (bytes_at-ext m m' (suc a) n (λ x l u. h x (omega arith) (omega arith)))

-- The memory-mapped flash: a pointer to an address shows the content from there on, up to a bound that depends on the address.
pub record IsMapped {D : Type 0} (memory : D → ℕ → List ℕ) (mem : D → ℕ → ℕ) : Type 0 where
  pub extent : ℕ → ℕ
  pub shows : (d : D) (a : ℕ) → memory d a ≡ bytes_at (mem d) a (extent a)

-- Content that agrees from an address on shows the same there.
pub mapped-ext :
    {D : Type 0} (memory : D → ℕ → List ℕ) (mem : D → ℕ → ℕ)
    → IsMapped memory mem
    → (d e : D) (a : ℕ) → ((x : ℕ) → a ≤ x → mem d x ≡ mem e x)
    → memory d a ≡ memory e a
mapped-ext memory mem mapped d e a same =
    mapped.shows d a
    ∙ bytes_at-ext (mem d) (mem e) a (mapped.extent a) (λ x l _. same x l)
    ∙ sym (mapped.shows e a)

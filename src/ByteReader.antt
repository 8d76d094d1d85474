-- ===== src/ByteReader.antt =====
-- firmware/exp045_bootloader_v2/src/byte_reader.c: reads with a bounded number of polls. The state S is
-- what `getc` and its context read from. A byte that a call delivers is `done`, any other status `fail`.
use stm32_security_lab.Common.{
  ℕ, zero, suc, ◌<◌, ◌≡◌, ◌≢◌, ◌⊎◌, inl, refl, List, [], ◌∷◌, length, arith, Result, done, fail,
}

pub data ReaderStatus : Type 0 where
  ok no_data timeout invalid_argument io : ReaderStatus

abbrev pub Getc : Type 0 → Type 0
Getc S = S → Result ReaderStatus ℕ × S

module _ {S : Type 0} (getc : Getc S) where
  -- One poll less for each answer that there is no data.
  unfoldable pub byte_reader_getc_timeout : ℕ → S → Result ReaderStatus ℕ × S
  byte_reader_getc_timeout zero s = (fail ReaderStatus.timeout, s)
  byte_reader_getc_timeout (suc polls) s =
      let (answer, s') = getc s in
      let rest = byte_reader_getc_timeout polls s' in
      elim answer [
        | fail ReaderStatus.no_data ↦ rest
        | fail refused ↦ (fail refused, s')
        | done byte ↦ (done byte, s')
      ]

  -- The status, and the bytes that are read, whose number is `bytes_read`.
  unfoldable pub byte_reader_read_timeout : ℕ → ℕ → S → ReaderStatus × List ℕ × S
  byte_reader_read_timeout zero polls s = (ReaderStatus.ok, [], s)
  byte_reader_read_timeout (suc length) polls s =
      let (answer, s') = byte_reader_getc_timeout polls s in
      let (status, bytes, s'') = byte_reader_read_timeout length polls s' in
      elim answer [ done byte ↦ (status, byte ∷ bytes, s'') | fail refused ↦ (refused, [], s') ]

  getc_timeout_decides :
      (polls : ℕ) (s : S) → (byte_reader_getc_timeout polls s).0 ≢ fail ReaderStatus.no_data
  unfolding byte_reader_getc_timeout
  getc_timeout_decides zero s = ground arith
  getc_timeout_decides (suc polls) s = ground (arith, getc_timeout_decides polls (getc s).1)

  getc_timeout_answers :
      (polls : ℕ) (s : S)
      → ((t : S) → (getc t).0 ≢ fail ReaderStatus.ok)
      → (byte_reader_getc_timeout polls s).0 ≢ fail ReaderStatus.ok
  unfolding byte_reader_getc_timeout
  getc_timeout_answers zero s h = ground arith
  getc_timeout_answers (suc polls) s h =
      ground (arith, h s, getc_timeout_answers polls (getc s).1 h)

  -- A read does not leave its caller with NO_DATA. With a `getc` that never answers the status OK without
  -- a byte, it reports OK exactly when it has all the bytes, and fewer bytes otherwise.
  pub read_timeout_cases :
      (n polls : ℕ) (s : S)
      → ((t : S) → (getc t).0 ≢ fail ReaderStatus.ok)
      → let (status, bytes, s') = byte_reader_read_timeout n polls s in
        ((status ≡ ReaderStatus.ok) × (length bytes ≡ n))
        ⊎ ((status ≢ ReaderStatus.ok) × (status ≢ ReaderStatus.no_data) × (length bytes < n))
  unfolding byte_reader_read_timeout
  read_timeout_cases zero polls s h = inl (refl, refl)
  read_timeout_cases (suc n) polls s h =
      let (answer, s') = byte_reader_getc_timeout polls s in
      ground (
        arith,
        getc_timeout_decides polls s,
        getc_timeout_answers polls s h,
        read_timeout_cases n polls s' h,
      )

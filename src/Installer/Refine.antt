-- ===== src/Installer/Refine.antt =====
-- The writes of a session against an abstract one, which appends what it is given to a byte string.
use stm32_security_lab.Common.{
  ℕ, zero, suc, ◌+◌, ◌-◌, ◌≤◌, ◌<◌, ◌≡◌, refl, sym, ap, ap₂, subst, ◌∙◌, ◌⊎◌, inl, inr, Bool, false,
  not, Bool-cases, Option-cases, ◌||◌, some, List, [], ◌∷◌, ◌++◌, length, length-append, take, drop,
  take-append-drop, replicate, ltb, ◌==◌, if◌then◌else◌, u32, arith,
}
use stm32_security_lab.Flash.{FlashStatus, boot_flash_program_aligned, boot_flash_read}
use stm32_security_lab.Flash.Device.{Backed, bytes_at, bytes_at-add, bytes_at-ext}
use stm32_security_lab.Flash.Program.{program-bytes, read-keeps}
use stm32_security_lab.Flash.Safety.{program-frame}
use stm32_security_lab.Image.Manifest.{u32_max}
use stm32_security_lab.Installer.{InstallStatus, FaultPoint, SessionState, checked_u32_add}
use stm32_security_lab.Installer.Session.{Session, Step, ◌|>◌, refuse_when, update}
use stm32_security_lab.Installer.Blocks.{
  fault_at, program_at, read_back, count_block, program_aligned_block, payload_block_done,
  flush_bytes, flush_payload_program_buffer, at_most,
}
use stm32_security_lab.Installer.Run.{
  accept_bytes, flush_full, write_chunks, write_steps, update_installer_write,
}
use stm32_security_lab.Installer.Steps.{then_ok, fail_session_ok}

nonempty : (n : ℕ) → (suc n == 0) ≡ false
nonempty n = ground arith

offset_is : (a b : ℕ) → not (a == b) ≡ false → a ≡ b
offset_is a b h = ground arith

module _ {D : Type 0} (mem : D → ℕ → ℕ) where
  -- A block that is programmed stands at its address, and nothing else has changed.
  program_at_ok :
      (address : ℕ) (bytes : List ℕ) (w : Session D × D)
      → Backed w.0.restricted_flash.ops mem
      → (program_at address bytes w).0 ≡ InstallStatus.ok
      → ((program_at address bytes w).1 ≡ w.0)
        × ((boot_flash_program_aligned w.0.restricted_flash w.1 address bytes).0 ≡ FlashStatus.ok)
        × ((program_at address bytes w).2
            ≡ (boot_flash_program_aligned w.0.restricted_flash w.1 address bytes).1)
  unfolding program_at
  program_at_ok address bytes w backed h = ground (arith, h)

  read_back_ok :
      (address : ℕ) (bytes : List ℕ) (w : Session D × D)
      → ((read_back address bytes w).1 ≡ w.0)
        × ((read_back address bytes w).2
            ≡ (boot_flash_read w.0.restricted_flash w.1 address (length bytes)).2)
  unfolding read_back
  read_back_ok address bytes w = ground arith

  refuse_keeps :
      (test : Session D → Bool) (refused : InstallStatus) (w : Session D × D)
      → ((refuse_when test refused w).1 ≡ w.0) × ((refuse_when test refused w).2 ≡ w.1)
  unfolding refuse_when
  refuse_keeps test refused w = ground arith

  counted : (w : Session D × D) → update count_block w ≡ (InstallStatus.ok, count_block w.0, w.1)
  unfolding update
  counted w = refl

  -- What a programmed block comes to: the content of the flash before and after.
  pub record IsProgrammed (address : ℕ) (bytes : List ℕ) (m m' : ℕ → ℕ) : Type 0 where
    pub written : bytes_at m' address (length bytes) ≡ bytes
    pub elsewhere : (y : ℕ) → (y < address) ⊎ (address + length bytes ≤ y) → m' y ≡ m y

  block-IsProgrammed :
      (address : ℕ) (bytes : List ℕ) (w : Session D × D) (d : D)
      → Backed w.0.restricted_flash.ops mem
      → (boot_flash_program_aligned w.0.restricted_flash w.1 address bytes).0 ≡ FlashStatus.ok
      → mem d ≡ mem (boot_flash_program_aligned w.0.restricted_flash w.1 address bytes).1
      → IsProgrammed address bytes (mem w.1) (mem d)
  block-IsProgrammed address bytes w d backed h same =
      let f = w.0.restricted_flash in
      record {
        written =
            ap (λ m. bytes_at m address (length bytes)) same
            ∙ program-bytes f mem backed w.1 address bytes h;
        elsewhere =
            λ y out. ap (λ m. m y) same ∙ program-frame f mem backed w.1 address y bytes out;
      }

  pub block_ok :
      (address : ℕ) (bytes : List ℕ) (w : Session D × D)
      → Backed w.0.restricted_flash.ops mem
      → (program_aligned_block address bytes w).0 ≡ InstallStatus.ok
      → ((program_aligned_block address bytes w).1 ≡ count_block w.0)
        × IsProgrammed address bytes (mem w.1) (mem (program_aligned_block address bytes w).2)
  unfolding program_aligned_block
  block_ok address bytes w backed h =
      let (_, h1, e1) =
        then_ok (fault_at FaultPoint.program_block (λ s. s.programmed_block_count)) _ w h in
      let (c2, h2, e2) = then_ok (program_at address bytes) _ w h1 in
      let (s2, p2, d2) = program_at_ok address bytes w backed c2 in
      let w2 : Session D × D = ((program_at address bytes w).1, (program_at address bytes w).2) in
      let (_, h3, e3) =
        then_ok (fault_at FaultPoint.readback (λ s. s.programmed_block_count)) _ w2 h2 in
      let (_, h4, e4) = then_ok (read_back address bytes) _ w2 h3 in
      let (s4, d4) = read_back_ok address bytes w2 in
      let w4 : Session D × D = ((read_back address bytes w2).1, (read_back address bytes w2).2) in
      let refuse : Step D =
        refuse_when (λ s. s.programmed_block_count == u32_max) InstallStatus.err_capacity in
      let (_, h5, e5) = then_ok refuse (update count_block) w4 h4 in
      let (s5, d5) =
        refuse_keeps (λ s. s.programmed_block_count == u32_max) InstallStatus.err_capacity w4 in
      let all = e1 ∙ e2 ∙ e3 ∙ e4 ∙ e5 ∙ counted ((refuse w4).1, (refuse w4).2) in
      let kept =
        subst
          (λ t. mem (boot_flash_read t.restricted_flash w2.1 address (length bytes)).2 ≡ mem w2.1)
          (sym s2) (read-keeps w.0.restricted_flash mem backed w2.1 address (length bytes)) in
      let device = ap (λ r. mem r.2) all ∙ ap mem d5 ∙ ap mem d4 ∙ kept ∙ ap mem d2 in
      (
        ap (λ r. r.1) all ∙ ap count_block (s5 ∙ s4 ∙ s2),
        block-IsProgrammed address bytes w _ backed p2 device,
      )

  -- The session has received the bytes: it has hashed them, counts them, and has them in the flash
  -- followed by the buffer.
  pub record HasReceived (s : Session D) (d : D) (bytes : List ℕ) : Type 0 where
    pub backed : Backed s.restricted_flash.ops mem
    pub base_lt : s.candidate.payload_base < 4294967296
    pub size_lt : s.payload_program_size < 4294967296
    pub hashed : s.payload_hash_ctx ≡ bytes
    pub counted : s.payload_received ≡ length bytes
    pub stored :
        bytes_at (mem d) s.candidate.payload_base s.payload_programmed ++ s.program_buffer ≡ bytes

  append_nil : (xs : List ℕ) → xs ++ [] ≡ xs
  append_nil [] = refl
  append_nil (x ∷ xs) = ap (◌∷◌ x) (append_nil xs)

  append_assoc : (xs ys zs : List ℕ) → (xs ++ ys) ++ zs ≡ xs ++ (ys ++ zs)
  append_assoc [] ys zs = refl
  append_assoc (x ∷ xs) ys zs = ap (◌∷◌ x) (append_assoc xs ys zs)

  -- One more block behind what is programmed.
  stored_block :
      (base n : ℕ) (block : List ℕ) (m m' : ℕ → ℕ)
      → IsProgrammed (base + n) block m m'
      → bytes_at m' base (n + length block) ≡ bytes_at m base n ++ block
  stored_block base n block m m' p =
      bytes_at-add m' base n (length block)
      ∙ ap₂ ◌++◌ (bytes_at-ext m' m base n (λ y low high. p.elsewhere y (inl high))) p.written

  address_of :
      (base p address : ℕ)
      → base < 4294967296
      → p < 4294967296
      → checked_u32_add base (u32 p) ≡ some address
      → address ≡ base + p
  unfolding checked_u32_add
  address_of base p address low small h = ground (arith, low, small, h)

  block_done :
      (n : ℕ) (w : Session D × D)
      → update (payload_block_done n) w ≡ (InstallStatus.ok, payload_block_done n w.0, w.1)
  unfolding update
  block_done n w = refl

  -- The block that a flush of `n` bytes programs.
  abbrev flush_block : ℕ → Session D → List ℕ
  flush_block n s = s.program_buffer ++ replicate (n - length s.program_buffer) 0xFF

  flush_checks : ℕ → Session D → Bool
  flush_checks n s =
      ltb s.payload_program_size s.payload_programmed
      || ltb (s.payload_program_size - s.payload_programmed) n

  flush_runs :
      (n : ℕ) (w : Session D × D)
      → w.0.candidate.payload_base < 4294967296
      → w.0.payload_program_size < 4294967296
      → (flush_bytes n w).0 ≡ InstallStatus.ok
      → flush_bytes n w
        ≡ (program_aligned_block
                (w.0.candidate.payload_base + w.0.payload_programmed)
                (flush_block n w.0)
              |> update (payload_block_done n))
            w
  unfolding flush_bytes flush_checks
  flush_runs n w low small h = elim (Bool-cases (flush_checks n w.0)) [
    | inl refused ↦ absurd (ground (arith, refused, h))
    | inr passed ↦
        elim (Option-cases
          (checked_u32_add w.0.candidate.payload_base (u32 w.0.payload_programmed))) [
            | inl e ↦ absurd (ground (arith, passed, e, h))
            | inr (address, e) ↦
                let fits : w.0.payload_programmed < 4294967296 = ground (arith, passed, small) in
                let at = address_of _ _ address low fits e in rw (passed, e, at) refl
          ]
  ]

  -- The checks of `flush_bytes` hold, and it has programmed the block at the end of the payload.
  flush_bytes_ok :
      (n : ℕ) (w : Session D × D)
      → Backed w.0.restricted_flash.ops mem
      → w.0.candidate.payload_base < 4294967296
      → w.0.payload_program_size < 4294967296
      → (flush_bytes n w).0 ≡ InstallStatus.ok
      → ((flush_bytes n w).1 ≡ payload_block_done n (count_block w.0))
        × IsProgrammed
            (w.0.candidate.payload_base + w.0.payload_programmed)
            (flush_block n w.0)
            (mem w.1)
            (mem (flush_bytes n w).2)
  flush_bytes_ok n w backed low small h =
      let same = flush_runs n w low small h in
      let address = w.0.candidate.payload_base + w.0.payload_programmed in
      let block = flush_block n w.0 in
      let (c, _, e) =
        then_ok (program_aligned_block address block) (update (payload_block_done n)) w
          (subst (λ r. r.0 ≡ InstallStatus.ok) same h) in
      let (s1, p1) = block_ok address block w backed c in
      let all =
        same
        ∙ e
        ∙ block_done n (
          (program_aligned_block address block w).1,
          (program_aligned_block address block w).2,
        ) in
      (
        ap (λ r. r.1) all ∙ ap (payload_block_done n) s1,
        subst (λ d. IsProgrammed address block (mem w.1) (mem d)) (sym (ap (λ r. r.2) all)) p1,
      )

  no_padding : (n : ℕ) (xs : List ℕ) → length xs ≡ n → xs ++ replicate (n - length xs) 0xFF ≡ xs
  no_padding n xs e =
      let zero_left : n - length xs ≡ 0 = omega arith in rw (zero_left) (append_nil xs)

  -- A flush of the whole buffer moves it into the flash.
  flushed :
      (n : ℕ) (w : Session D × D) (bytes : List ℕ)
      → length w.0.program_buffer ≡ n
      → HasReceived w.0 w.1 bytes
      → (flush_bytes n w).0 ≡ InstallStatus.ok
      → HasReceived (flush_bytes n w).1 (flush_bytes n w).2 bytes
  unfolding payload_block_done count_block
  flushed n w bytes full r h =
      let s = w.0 in
      let (same, programmed) = flush_bytes_ok n w r.backed r.base_lt r.size_lt h in
      let exact = no_padding n s.program_buffer full in
      let d' = (flush_bytes n w).2 in
      let base = s.candidate.payload_base in
      let grown = stored_block base s.payload_programmed s.program_buffer (mem w.1) (mem d') (
        subst (λ b. IsProgrammed (base + s.payload_programmed) b (mem w.1) (mem d')) exact
          programmed) in
      let here : HasReceived (payload_block_done n (count_block s)) d' bytes = record {
        backed = r.backed;
        base_lt = r.base_lt;
        size_lt = r.size_lt;
        hashed = r.hashed;
        counted = r.counted;
        stored =
            append_nil _
            ∙ ap (λ k. bytes_at (mem d') base (s.payload_programmed + k)) (sym full)
            ∙ grown
            ∙ r.stored;
      } in
      subst (λ t. HasReceived t d' bytes) (sym same) here

  flush_false_ok :
      (w : Session D × D) (bytes : List ℕ)
      → HasReceived w.0 w.1 bytes
      → (flush_payload_program_buffer false w).0 ≡ InstallStatus.ok
      → HasReceived
          (flush_payload_program_buffer false w).1
          (flush_payload_program_buffer false w).2
          bytes
  unfolding flush_payload_program_buffer
  flush_false_ok w bytes r h =
      ground (arith, h, r, flushed (length w.0.program_buffer) w bytes refl r)

  flush_full_ok :
      (w : Session D × D) (bytes : List ℕ)
      → HasReceived w.0 w.1 bytes
      → (flush_full w).0 ≡ InstallStatus.ok
      → HasReceived (flush_full w).1 (flush_full w).2 bytes
  unfolding flush_full
  flush_full_ok w bytes r h = ground (arith, h, r, flush_false_ok w bytes r)

  accepted :
      (w : Session D × D) (bytes more : List ℕ)
      → HasReceived w.0 w.1 bytes
      → HasReceived
          (update (accept_bytes more) w).1
          (update (accept_bytes more) w).2
          (bytes ++ more)
  unfolding update accept_bytes
  accepted w bytes more r = record {
    backed = r.backed;
    base_lt = r.base_lt;
    size_lt = r.size_lt;
    hashed = ap (λ b. b ++ more) r.hashed;
    counted = ap (λ n. n + length more) r.counted ∙ sym (length-append bytes more);
    stored = sym (append_assoc _ _ more) ∙ ap (λ b. b ++ more) r.stored;
  }

  write_round :
      (fuel b : ℕ) (input : List ℕ) (w : Session D × D)
      → let n =
          at_most
            (w.0.options.program_buffer_size - length w.0.program_buffer)
            (suc (length input)) in
        write_chunks (suc fuel) (b ∷ input) w
        ≡ (update (accept_bytes (take n (b ∷ input)))
              |> flush_full
              |> write_chunks fuel (drop n (b ∷ input)))
            w
  unfolding write_chunks
  write_round fuel b input w = rw (nonempty (length input)) refl

  write_chunks_ok :
      (fuel : ℕ) (input : List ℕ) (w : Session D × D) (bytes : List ℕ)
      → HasReceived w.0 w.1 bytes
      → (write_chunks fuel input w).0 ≡ InstallStatus.ok
      → HasReceived (write_chunks fuel input w).1 (write_chunks fuel input w).2 (bytes ++ input)
  unfolding write_chunks
  write_chunks_ok zero input w bytes r h = absurd (ground (arith, h))
  write_chunks_ok (suc fuel) [] w bytes r h =
      subst (λ b. HasReceived w.0 w.1 b) (sym (append_nil bytes)) r
  write_chunks_ok (suc fuel) (b ∷ input) w bytes r h =
      let n =
        at_most (w.0.options.program_buffer_size - length w.0.program_buffer)
          (suc (length input)) in
      let taken = take n (b ∷ input) in
      let left = drop n (b ∷ input) in
      let same = write_round fuel b input w in
      let (_, h1, e1) =
        then_ok (update (accept_bytes taken)) (flush_full |> write_chunks fuel left) w
          (subst (λ x. x.0 ≡ InstallStatus.ok) same h) in
      let w1 : Session D × D =
        ((update (accept_bytes taken) w).1, (update (accept_bytes taken) w).2) in
      let (c2, h2, e2) = then_ok flush_full (write_chunks fuel left) w1 h1 in
      let r2 = flush_full_ok w1 (bytes ++ taken) (accepted w bytes taken r) c2 in
      let r3 =
        write_chunks_ok fuel left ((flush_full w1).1, (flush_full w1).2) (bytes ++ taken) r2 h2 in
      let joined =
        append_assoc bytes taken left ∙ ap (◌++◌ bytes) (take-append-drop n (b ∷ input)) in
      subst (λ x. HasReceived x.1 x.2 (bytes ++ (b ∷ input))) (sym (same ∙ e1 ∙ e2))
        (subst
          (λ z.
            HasReceived (write_chunks fuel left ((flush_full w1).1, (flush_full w1).2)).1
              (write_chunks fuel left ((flush_full w1).1, (flush_full w1).2)).2 z)
          joined r3)

  write_ok :
      (payload_offset : ℕ) (input : List ℕ) (w : Session D × D)
      → (update_installer_write payload_offset input w).0 ≡ InstallStatus.ok
      → ((write_steps payload_offset input w).0 ≡ InstallStatus.ok)
        × (update_installer_write payload_offset input w ≡ write_steps payload_offset input w)
  unfolding update_installer_write
  write_ok payload_offset input w h =
      ground (arith, h, fail_session_ok (write_steps payload_offset input) w)

  sequence_ok :
      (test : Session D → Bool) (w : Session D × D)
      → (refuse_when test InstallStatus.err_sequence w).0 ≡ InstallStatus.ok
      → test w.0 ≡ false
  unfolding refuse_when
  sequence_ok test w h = ground (arith, h)

  completed :
      (w : Session D × D) (bytes : List ℕ)
      → HasReceived w.0 w.1 bytes
      → let mark : Session D → Session D = λ s.
        if s.payload_received == s.header.payload_size
        then record s { state = SessionState.payload_complete }
        else s in
        HasReceived (update mark w).1 (update mark w).2 bytes
  unfolding update
  completed w bytes r = elim (Bool-cases (w.0.payload_received == w.0.header.payload_size)) [
    | inr different ↦ rw (different) r
    | inl same ↦ rw (same) (record {
      backed = r.backed;
      base_lt = r.base_lt;
      size_lt = r.size_lt;
      hashed = r.hashed;
      counted = r.counted;
      stored = r.stored;
    })
  ]

  write_steps_ok :
      (payload_offset : ℕ) (input : List ℕ) (w : Session D × D) (bytes : List ℕ)
      → HasReceived w.0 w.1 bytes
      → (write_steps payload_offset input w).0 ≡ InstallStatus.ok
      → (payload_offset ≡ w.0.payload_received)
        × HasReceived
            (write_steps payload_offset input w).1
            (write_steps payload_offset input w).2
            (bytes ++ input)
  unfolding write_steps
  write_steps_ok payload_offset input w bytes r h =
      let at : Session D → Bool = λ s. not (payload_offset == s.payload_received) in
      let over : Session D → Bool =
        λ s. ltb (s.header.payload_size - s.payload_received) (length input) in
      let (c1, h1, e1) = then_ok (refuse_when at InstallStatus.err_sequence) _ w h in
      let (s1, d1) = refuse_keeps at InstallStatus.err_sequence w in
      let w1 : Session D × D = (
        (refuse_when at InstallStatus.err_sequence w).1,
        (refuse_when at InstallStatus.err_sequence w).2,
      ) in
      let (c2, h2, e2) = then_ok (refuse_when over InstallStatus.err_sequence) _ w1 h1 in
      let (s2, d2) = refuse_keeps over InstallStatus.err_sequence w1 in
      let w2 : Session D × D = (
        (refuse_when over InstallStatus.err_sequence w1).1,
        (refuse_when over InstallStatus.err_sequence w1).2,
      ) in
      let (c3, h3, e3) = then_ok (write_chunks (suc (length input)) input) _ w2 h2 in
      let r2 : HasReceived w2.0 w2.1 bytes =
        subst (λ z. HasReceived z w2.1 bytes) (sym (s2 ∙ s1))
          (subst (λ z. HasReceived w.0 z bytes) (sym (d2 ∙ d1)) r) in
      let r3 = write_chunks_ok (suc (length input)) input w2 bytes r2 c3 in
      let chunks = write_chunks (suc (length input)) input w2 in
      (
        offset_is payload_offset w.0.payload_received (sequence_ok at w c1),
        subst (λ x. HasReceived x.1 x.2 (bytes ++ input)) (sym (e1 ∙ e2 ∙ e3))
            (completed (chunks.1, chunks.2) (bytes ++ input) r3),
      )

  -- A write that succeeds while the session is written to appends its bytes to those received: afterwards the session has hashed, counted and stored the old bytes and then the new ones.
  pub write_appends :
      (s s' : Session D) (d d' : D) (bytes input : List ℕ) (payload_offset : ℕ)
      → HasReceived s d bytes
      → update_installer_write payload_offset input (s, d) ≡ (InstallStatus.ok, s', d')
      → (payload_offset ≡ length bytes) × HasReceived s' d' (bytes ++ input)
  write_appends s s' d d' bytes input payload_offset r h =
      let (run, same) = write_ok payload_offset input (s, d) (ap (λ x. x.0) h) in
      let (at, after) = write_steps_ok payload_offset input (s, d) bytes r run in
      (at ∙ r.counted, subst (λ x. HasReceived x.1 x.2 (bytes ++ input)) (sym same ∙ h) after)

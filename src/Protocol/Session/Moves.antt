-- ===== src/Protocol/Session/Moves.antt =====
-- How the state of a session of update_protocol.c may change, and its answers.
use stm32_security_lab.Common.{
  ℕ, Bool, true, false, not, ◌&&◌, List, length, ltb, ◌==◌, if◌then◌else◌, ◌≡◌, refl, arith,
}
use stm32_security_lab.Installer.Run.{update_installer_session_init}
use stm32_security_lab.Image.Verify.{Crypto}
use stm32_security_lab.Protocol.{ProtocolStatus, Frame}
use stm32_security_lab.Protocol.Encode.{Write}
use stm32_security_lab.Protocol.Session.{
  ProtocolSession, ProtocolState, World, protocol_state_code, send_response, send_nack, send_ack,
  map_installer_status,
}
use stm32_security_lab.Protocol.Session.Handlers.{with_installer, begin_installer, abort_installer}

-- How the state may change.
pub data Move : ProtocolState → ProtocolState → Type 0 where
  stays : {s : ProtocolState} → Move s s
  begins : Move ProtocolState.idle ProtocolState.updating
  begin_fails : Move ProtocolState.idle ProtocolState.failed
  begins_again : Move ProtocolState.aborted ProtocolState.updating
  begins_again_fails : Move ProtocolState.aborted ProtocolState.failed
  update_fails : Move ProtocolState.updating ProtocolState.failed
  finishes : Move ProtocolState.updating ProtocolState.finished
  aborts : {s : ProtocolState} → ¬ (protocol_state_code s ≡ 2) → Move s ProtocolState.aborted
  abort_fails : {s : ProtocolState} → ¬ (protocol_state_code s ≡ 2) → Move s ProtocolState.failed
  resets : {s : ProtocolState} → Move s ProtocolState.reset_requested

pub if-holds :
    {A : Type 0} {x y : A} (P : A → Type 0) (b : Bool)
    → (b ≡ true → P x)
    → (b ≡ false → P y)
    → P (if b then x else y)
if-holds P true holds _ = holds refl
if-holds P false _ holds = holds refl

pub begin_moves :
    (s : ProtocolState)
    → (not (protocol_state_code s == 0) && not (protocol_state_code s == 3)) ≡ false
    → Move s ProtocolState.updating × Move s ProtocolState.failed
begin_moves ProtocolState.idle _ = (begins, begin_fails)
begin_moves ProtocolState.updating h = absurd (ground (arith, h))
begin_moves ProtocolState.finished h = absurd (ground (arith, h))
begin_moves ProtocolState.aborted _ = (begins_again, begins_again_fails)
begin_moves ProtocolState.failed h = absurd (ground (arith, h))
begin_moves ProtocolState.reset_requested h = absurd (ground (arith, h))

pub update_moves :
    (s : ProtocolState) (started : Bool)
    → not ((protocol_state_code s == 1) && started) ≡ false
    → Move s ProtocolState.finished × Move s ProtocolState.failed
update_moves ProtocolState.idle _ h = absurd (ground (arith, h))
update_moves ProtocolState.updating _ _ = (finishes, update_fails)
update_moves ProtocolState.finished _ h = absurd (ground (arith, h))
update_moves ProtocolState.aborted _ h = absurd (ground (arith, h))
update_moves ProtocolState.failed _ h = absurd (ground (arith, h))
update_moves ProtocolState.reset_requested _ h = absurd (ground (arith, h))

pub status-holds :
    {A : Type 0} {x : A} {y : ProtocolStatus → A} (P : A → Type 0) (status : ProtocolStatus)
    → P x
    → ((refused : ProtocolStatus) → P (y refused))
    → P (elim status [ ProtocolStatus.ok ↦ x | refused ↦ y refused ])
status-holds {x = x} {y} P status accepted otherwise =
    elim status as (λ t. P (elim t [ ProtocolStatus.ok ↦ x | refused ↦ y refused ])) [
      | ProtocolStatus.ok ↦ accepted
      | refused ↦ otherwise refused
    ]

module _ {D : Type 0} where
  -- A session in a state that may follow, with the same expected sequence number.
  unfoldable pub Reached : ProtocolSession D → ProtocolSession D → Type 0
  Reached s t = Move s.state t.state × (t.expected_sequence ≡ s.expected_sequence)

module _ {D W : Type 0} where
  unfoldable pub Follows : ProtocolSession D → ProtocolStatus × World D W → Type 0
  unfolding Reached
  Follows s r = Reached s r.1.session

  pub abort_installer-sequence :
      (w : World D W)
      → (abort_installer w).1.session.expected_sequence ≡ w.session.expected_sequence
  unfolding abort_installer
  abort_installer-sequence w =
      if-holds
        (λ (r : ProtocolStatus × World D W).
          r.1.session.expected_sequence ≡ w.session.expected_sequence)
        w.session.installer_started (λ _. refl) (λ _. refl)

  pub begin_installer-sequence :
      (crypto : Crypto) (memory : D → ℕ → List ℕ) (w : World D W) (frame : Frame)
      → (begin_installer crypto memory w frame).1.session.expected_sequence
        ≡ w.session.expected_sequence
  unfolding begin_installer
  begin_installer-sequence crypto memory w frame =
      let s = w.session in
      let (initialised, installer, device) =
        update_installer_session_init s.flash s.public_key s.install_options w.device in
      status-holds {y = λ refused. (refused, with_installer w installer device)}
        (λ (r : ProtocolStatus × World D W).
          r.1.session.expected_sequence ≡ w.session.expected_sequence)
        (map_installer_status initialised) refl (λ _. refl)

module _ {D W : Type 0} (write : Write W) where
  pub send_ack-Follows :
      (s : ProtocolSession D) (w : World D W) (sequence command : ℕ) (extra : List ℕ)
      → Reached s w.session
      → Follows s (send_ack write w sequence command extra)
  unfolding send_ack send_response Follows Reached
  send_ack-Follows s w sequence command extra move =
      if-holds (Follows s) (ltb 18 (length extra)) (λ _. move) (λ _. move)

  pub send_nack-Follows :
      (s : ProtocolSession D) (w : World D W) (sequence command : ℕ) (status : ProtocolStatus)
      → Reached s w.session
      → Follows s (send_nack write w sequence command status)
  unfolding send_nack send_response Follows Reached
  send_nack-Follows s w sequence command status move = move

-- ===== src/Installer/Steps.antt =====
-- A sequence of steps that returns OK: each step did.
use stm32_security_lab.Common.{◌≡◌, arith}
use stm32_security_lab.Installer.{InstallStatus}
use stm32_security_lab.Installer.Session.{Session, Step, ◌|>◌, fail_session}

module _ {D : Type 0} where
  pub then_ok :
      (m k : Step D) (w : Session D × D)
      → ((m |> k) w).0 ≡ InstallStatus.ok
      → ((m w).0 ≡ InstallStatus.ok)
        × ((k ((m w).1, (m w).2)).0 ≡ InstallStatus.ok)
        × ((m |> k) w ≡ k ((m w).1, (m w).2))
  unfolding ◌|>◌
  then_ok m k w h = ground (arith, h)

  pub fail_session_ok :
      (m : Step D) (w : Session D × D)
      → (fail_session m w).0 ≡ InstallStatus.ok
      → ((m w).0 ≡ InstallStatus.ok) × (fail_session m w ≡ m w)
  unfolding fail_session
  fail_session_ok m w h = ground (arith, h)

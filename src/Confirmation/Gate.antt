-- ===== src/Confirmation/Gate.antt =====
-- The application's gate: nothing is confirmed by an unhealthy image, and a success is durable.
use stm32_security_lab.Common.{
  ℕ, ◌≡◌, ◌≢◌, inl, inr, Bool, true, false, ◌&&◌, not, arith, Bool-cases,
}
use stm32_security_lab.Flash.{Flash, Ops}
use stm32_security_lab.Flash.Device.{Backed}
use stm32_security_lab.Flash.Target.{metadata_flash, init_metadata_ok, init_metadata_refused}
use stm32_security_lab.Metadata.{MetadataStatus, Record}
use stm32_security_lab.Metadata.Recovery.{journal, recover_from_flash-keeps}
use stm32_security_lab.Metadata.Journal.{boot_metadata_recover_from_flash}
use stm32_security_lab.Confirmation.{
  boot_confirm_slot_from_vector_address, boot_confirm_current_slot, Confirmed,
}
use stm32_security_lab.Confirmation.Lasting.{IsConfirmed, confirm-Lasts}
use stm32_security_lab.Confirmation.Platform.{
  Status, Health, platform_confirmation_health_gate, metadata_allows_confirmation,
  map_confirm_status, closed_gate_status, service_on_record, service_on_flash,
  platform_confirmation_service,
}
use stm32_security_lab.Confirmation

-- The conditions that the caller of the service reports.
abbrev pub is_healthy : Health → Bool
is_healthy h =
    h.early_platform_init_done
    && h.core_self_checks_passed
    && not h.critical_initialization_failure
    && h.stable_execution_point_reached
    && h.uart_diagnostics_ready
    && h.runtime_monitor_ready
    && h.mpu_policy_ready
    && h.watchdog_active
    && h.application_health_ok

closed_gate_status-ne : (h : Health) → closed_gate_status h ≢ Status.ok
unfolding closed_gate_status
closed_gate_status-ne h = ground arith

gate-inv :
    (base : Health) (allowed : Bool)
    → platform_confirmation_health_gate
        (record base { running_slot_identified = true; metadata_allows_confirmation = allowed })
      ≡ true
    → is_healthy base ≡ true
unfolding platform_confirmation_health_gate
gate-inv base allowed h = ground arith

map-inv : (s : Confirmation.Status) → map_confirm_status s ≡ Status.ok → s ≡ Confirmation.Status.ok
unfolding map_confirm_status
map-inv s h = ground arith

module _ {D : Type 0} (fl : Flash D) (mem : D → ℕ → ℕ) (backed : Backed fl.ops mem) where
  -- What a successful service leaves in the flash.
  pub record Served (slot : ℕ) (base : Health) (d' : D) : Type 0 where
    pub healthy : is_healthy base ≡ true
    pub is_found : (journal (mem d')).0 ≡ MetadataStatus.ok
    pub confirmed : IsConfirmed slot (journal (mem d')).1

  record-Served :
      (d d' : D) (slot : ℕ) (r : Record) (base : Health)
      → service_on_record fl d slot r base ≡ (Status.ok, d')
      → Served slot base d'
  unfolding service_on_record
  record-Served d d' slot r base h =
      let health = record base {
        running_slot_identified = true;
        metadata_allows_confirmation = metadata_allows_confirmation r slot;
      } in
      elim (Bool-cases (platform_confirmation_health_gate health)) [
        | inr closed ↦ absurd (ground (arith, closed_gate_status-ne health))
        | inl opened ↦
            let (status, result, d1) = boot_confirm_current_slot fl d slot in
            let mapped : map_confirm_status status ≡ Status.ok = ground arith in
            let device : d1 ≡ d' = ground arith in
            let good = map-inv status mapped in
            let lasts =
              confirm-Lasts fl mem backed d d' slot result (λ i. (good i, result, device i)) in
            record {
              healthy = gate-inv base _ opened;
              is_found = lasts.is_found;
              confirmed = lasts.confirmed;
            }
      ]

  record-closed :
      (d : D) (slot : ℕ) (r : Record) (base : Health)
      → is_healthy base ≡ false
      → (service_on_record fl d slot r base).1 ≡ d
  unfolding service_on_record platform_confirmation_health_gate
  record-closed d slot r base h = ground arith

module _ {D : Type 0} (ops : Ops D) (mem : D → ℕ → ℕ) (backed : Backed ops mem) where
  -- An image that does not report every health condition leaves the metadata flash as it is.
  pub service-unhealthy :
      (bounds_valid : Bool) (d : D) (vector_address : ℕ) (base : Health)
      → is_healthy base ≡ false
      → mem (platform_confirmation_service bounds_valid ops d vector_address base).1 ≡ mem d
  unfolding platform_confirmation_service service_on_flash
  service-unhealthy false d vector_address base h = ground (arith, init_metadata_refused ops)
  service-unhealthy true d vector_address base h =
      let slot = (boot_confirm_slot_from_vector_address vector_address).1 in
      let fl = metadata_flash ops in
      let (status, r, recovery, d1) = boot_metadata_recover_from_flash fl d in
      ground (
        arith,
        init_metadata_ok ops,
        recover_from_flash-keeps fl mem backed d,
        record-closed fl mem backed d1 slot r base h,
      )

  -- A service that reports success was asked by a healthy image, and leaves a journal that names the
  -- slot of the image's vector address as the confirmed one.
  pub service-Served :
      (d d' : D) (vector_address : ℕ) (base : Health)
      → platform_confirmation_service true ops d vector_address base ≡ (Status.ok, d')
      → Served
          (metadata_flash ops)
          mem
          backed
          (boot_confirm_slot_from_vector_address vector_address).1
          base
          d'
  unfolding platform_confirmation_service service_on_flash
  service-Served d d' vector_address base h =
      let slot = (boot_confirm_slot_from_vector_address vector_address).1 in
      let fl = metadata_flash ops in
      let (status, r, recovery, d1) = boot_metadata_recover_from_flash fl d in
      let served : service_on_record fl d1 slot r base ≡ (Status.ok, d') =
        ground (arith, init_metadata_ok ops) in
      record-Served fl mem backed d1 d' slot r base served

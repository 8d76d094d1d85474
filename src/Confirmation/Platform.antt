-- ===== src/Confirmation/Platform.antt =====
-- firmware/exp066_research_platform_core/src/platform_confirmation.c: the application's gate in front of
-- the confirmation. `mpu_policy_suspend_for_metadata_commit` and its counterpart change the protection
-- of the journal, which the model of the flash has not, and are left out.
use stm32_security_lab.Common.{ℕ, Bool, true, ◌&&◌, ◌||◌, not, none, some, if◌then◌else◌}
use stm32_security_lab.Flash.{Flash, Ops}
use stm32_security_lab.Flash.Target.{boot_flash_target_init_metadata}
use stm32_security_lab.Metadata.{MetadataStatus, Record}
use stm32_security_lab.Metadata.Journal.{boot_metadata_recover_from_flash}
use stm32_security_lab.Confirmation.{
  Confirmed, is_confirmed_as, is_trial_of, boot_confirm_slot_from_vector_address,
  boot_confirm_current_slot,
}
use stm32_security_lab.Confirmation

pub data Status : Type 0 where
  ok not_healthy slot flash metadata ambiguous_metadata not_pending commit : Status

pub record Health : Type 0 where
  pub early_platform_init_done : Bool
  pub running_slot_identified : Bool
  pub core_self_checks_passed : Bool
  pub critical_initialization_failure : Bool
  pub stable_execution_point_reached : Bool
  pub metadata_allows_confirmation : Bool
  pub uart_diagnostics_ready : Bool
  pub runtime_monitor_ready : Bool
  pub mpu_policy_ready : Bool
  pub watchdog_active : Bool
  pub application_health_ok : Bool

unfoldable pub platform_confirmation_health_gate : Health → Bool
platform_confirmation_health_gate h =
    h.early_platform_init_done
    && h.running_slot_identified
    && h.core_self_checks_passed
    && not h.critical_initialization_failure
    && h.stable_execution_point_reached
    && h.uart_diagnostics_ready
    && h.runtime_monitor_ready
    && h.mpu_policy_ready
    && h.watchdog_active
    && h.application_health_ok
    && h.metadata_allows_confirmation

unfoldable pub metadata_allows_confirmation : Record → ℕ → Bool
metadata_allows_confirmation r running_slot =
    is_trial_of r running_slot || is_confirmed_as r running_slot

unfoldable pub map_confirm_status : Confirmation.Status → Status
map_confirm_status Confirmation.Status.ok = Status.ok
map_confirm_status Confirmation.Status.invalid_argument = Status.slot
map_confirm_status Confirmation.Status.slot = Status.slot
map_confirm_status Confirmation.Status.metadata = Status.metadata
map_confirm_status Confirmation.Status.ambiguous_metadata = Status.ambiguous_metadata
map_confirm_status Confirmation.Status.not_pending = Status.not_pending
map_confirm_status Confirmation.Status.commit = Status.commit

-- The status of a gate that is closed.
unfoldable pub closed_gate_status : Health → Status
closed_gate_status h =
    if h.early_platform_init_done
      && h.running_slot_identified
      && h.core_self_checks_passed
      && not h.critical_initialization_failure
      && h.stable_execution_point_reached
      && not h.metadata_allows_confirmation
    then Status.not_pending
    else Status.not_healthy

module _ {D : Type 0} where
  -- The service behind the recovery of the record `r`.
  unfoldable pub service_on_record : Flash D → D → ℕ → Record → Health → Status × D
  service_on_record fl d running_slot r base =
      let health = record base {
        running_slot_identified = true;
        metadata_allows_confirmation = metadata_allows_confirmation r running_slot;
      } in
      let (status, result, d') = boot_confirm_current_slot fl d running_slot in
      if not (platform_confirmation_health_gate health)
      then (closed_gate_status health, d)
      else (map_confirm_status status, d')

  unfoldable pub service_on_flash : Flash D → D → ℕ → Health → Status × D
  service_on_flash fl d running_slot base =
      let (status, r, recovery, d') = boot_metadata_recover_from_flash fl d in
      elim status [
        | MetadataStatus.ok ↦ service_on_record fl d' running_slot r base
        | MetadataStatus.ambiguous ↦ (Status.ambiguous_metadata, d')
        | _ ↦ (Status.metadata, d')
      ]

  -- The status of the snapshot and the flash; `bounds_valid` is the condition of the RAM functions.
  unfoldable pub platform_confirmation_service : Bool → Ops D → D → ℕ → Health → Status × D
  platform_confirmation_service bounds_valid ops d vector_address base =
      let (named, running_slot) = boot_confirm_slot_from_vector_address vector_address in
      let (opened, handle) = boot_flash_target_init_metadata bounds_valid ops in
      elim named [
        | Confirmation.Status.ok ↦ elim handle [
          | none ↦ (Status.flash, d)
          | some fl ↦ service_on_flash fl d running_slot base
        ]
        | _ ↦ (Status.slot, d)
      ]

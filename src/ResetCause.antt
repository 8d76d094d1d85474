-- ===== src/ResetCause.antt =====
-- firmware/exp045_bootloader_v2/src/reset_cause.c: which cause of a reset the boot loader reports, and
-- the word that the boot journal keeps of it. A flag of RCC_CSR is a bit of the raw word.
use stm32_security_lab.Common.{
  ℕ, ◌/◌, ◌%◌, ◌≡◌, ◌≢◌, ◌↔◌, Bool, true, false, not, ◌||◌, ◌==◌, if◌then◌else◌, arith,
}

pub data Kind : Type 0 where
  no_reset iwdg wwdg software brownout pin power_on low_power unknown : Kind

-- `flag_is_set` for the mask with the bit of weight `weight`.
abbrev pub flag_is_set : ℕ → ℕ → Bool
flag_is_set raw_csr weight = (raw_csr / weight) % 2 == 1

abbrev pub borrstf : ℕ
borrstf = 33554432

abbrev pub pinrstf : ℕ
pinrstf = 67108864

abbrev pub porrstf : ℕ
porrstf = 134217728

abbrev pub sftrstf : ℕ
sftrstf = 268435456

abbrev pub iwdgrstf : ℕ
iwdgrstf = 536870912

abbrev pub wwdgrstf : ℕ
wwdgrstf = 1073741824

abbrev pub lpwrrstf : ℕ
lpwrrstf = 2147483648

-- The last test of `reset_cause_primary_kind_from_raw`.
unfoldable pub any_known_flag : ℕ → Bool
any_known_flag raw =
    flag_is_set raw borrstf
    || flag_is_set raw pinrstf
    || flag_is_set raw porrstf
    || flag_is_set raw sftrstf
    || flag_is_set raw iwdgrstf
    || flag_is_set raw wwdgrstf
    || flag_is_set raw lpwrrstf

unfoldable pub reset_cause_primary_kind_from_raw : ℕ → Kind
unfolding any_known_flag
reset_cause_primary_kind_from_raw raw =
    if flag_is_set raw iwdgrstf
    then Kind.iwdg
    else if flag_is_set raw wwdgrstf
    then Kind.wwdg
    else if flag_is_set raw sftrstf
    then Kind.software
    else if flag_is_set raw borrstf
    then Kind.brownout
    else if flag_is_set raw pinrstf
    then Kind.pin
    else if flag_is_set raw porrstf
    then Kind.power_on
    else if flag_is_set raw lpwrrstf
    then Kind.low_power
    else if not (any_known_flag raw)
    then Kind.no_reset
    else Kind.unknown

abbrev pub result_of : Kind → ℕ
result_of Kind.no_reset = 0
result_of Kind.iwdg = 0x1001
result_of Kind.wwdg = 0x1002
result_of Kind.software = 0x1003
result_of Kind.brownout = 0x1004
result_of Kind.pin = 0x1005
result_of Kind.power_on = 0x1006
result_of Kind.low_power = 0x1007
result_of Kind.unknown = 0x10FF

unfoldable pub reset_cause_trial_result : ℕ → ℕ
reset_cause_trial_result raw = result_of (reset_cause_primary_kind_from_raw raw)

-- The raw word is never of an unknown kind; it is of no kind exactly when no known flag is set, and of
-- the independent watchdog's whenever that flag is set, whatever the others.
primary_kind_cases :
    (raw : ℕ)
    → (reset_cause_primary_kind_from_raw raw ≢ Kind.unknown)
      × ((reset_cause_primary_kind_from_raw raw ≡ Kind.no_reset) ↔ (any_known_flag raw ≡ false))
      × ((reset_cause_primary_kind_from_raw raw ≡ Kind.iwdg) ↔ (flag_is_set raw iwdgrstf ≡ true))
unfolding reset_cause_primary_kind_from_raw any_known_flag
primary_kind_cases raw = ground arith

-- The journal's word is zero exactly when no known flag of the raw word is set.
pub trial_result_zero :
    (raw : ℕ) → (reset_cause_trial_result raw ≡ 0) ↔ (any_known_flag raw ≡ false)
unfolding reset_cause_trial_result reset_cause_primary_kind_from_raw any_known_flag
trial_result_zero raw = ground arith

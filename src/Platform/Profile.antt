-- ===== src/Platform/Profile.antt =====
-- platform/profile.c: the firmware's platform profiles.
use acer_nitro_sense_linux.Client.Types.{entry}
use acer_nitro_sense_linux.Config.Find.{config_find_platform_profile}
use acer_nitro_sense_linux.Config.Types.{AnsConfig, PlatformProfileEntry}
use acer_nitro_sense_linux.Machine.{Machine}
use acer_nitro_sense_linux.Prelude.{
  Bool, Bytes, List, Option, [], codes, eqb_ℤ, false, if◌then◌else◌, leb_ℤ, none, pos, some, ℤ, ◌∷◌,
}

unfoldable pub profile_name_in : List PlatformProfileEntry → ℤ → Bytes
profile_name_in [] value = codes "unknown"
profile_name_in (entry ∷ entries) value =
    if eqb_ℤ entry.value value then entry.id else profile_name_in entries value

unfoldable pub platform_profile_value_name : AnsConfig → ℤ → Bytes
platform_profile_value_name cfg value = profile_name_in cfg.platform_profiles.profiles value

module _ (M : Machine) where
  open M use {World, ec_read_byte, ec_write_byte}

  unfoldable pub apply_platform_profile : AnsConfig → Bytes → World → Bool × World
  apply_platform_profile cfg profile w =
      if cfg.platform_profiles.available
      then (elim (config_find_platform_profile cfg profile) [
        | none ↦ (false, w)
        | some entry ↦
            let (written, w1) = ec_write_byte cfg.platform_profiles.reg entry.value w in
            (eqb_ℤ written (pos 0), w1)
      ])
      else (false, w)

  -- The result, and `*value`, which is written only if profiles are available.
  unfoldable pub read_platform_profile : AnsConfig → World → Option (Bool × ℤ) × World
  read_platform_profile cfg w =
      let (value, w1) = ec_read_byte cfg.platform_profiles.reg w in
      if cfg.platform_profiles.available then (some (leb_ℤ (pos 0) value, value), w1) else (none, w)

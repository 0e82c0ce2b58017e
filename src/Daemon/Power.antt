-- ===== src/Daemon/Power.antt =====
-- commands/daemon/profile.c, power_source.c and gpu_temp.c.
use acer_nitro_sense_linux.Client.Types.{entry}
use acer_nitro_sense_linux.Command.Parser.{
  parse_gpu_temp_command, parse_power_source_auto_command, parse_profile_command,
}
use acer_nitro_sense_linux.Command.Tokens.{command_parse_enum_action, command_second_token}
use acer_nitro_sense_linux.Config.Find.{config_find_platform_profile}
use acer_nitro_sense_linux.Config.Types.{AnsConfig}
use acer_nitro_sense_linux.Daemon.Types.{
  Answer, Service, accepted, bad_usage, changed_auto_apply, changed_gpu_policy, changed_profile,
  changed_source_profile, gpu_policy_failed, policy_unavailable, refused, reported, unavailable,
  unchanged, unknown_profile, write_failed,
}
use acer_nitro_sense_linux.Machine.{Machine}
use acer_nitro_sense_linux.Platform.Host.{Host}
use acer_nitro_sense_linux.Platform.PowerSource.{
  PowerSource, apply_power_source_profile, power_source_profile_for,
  power_source_profile_policy_available,
}
use acer_nitro_sense_linux.Platform.Profile.{apply_platform_profile}
use acer_nitro_sense_linux.Prelude.{
  Bool, Bytes, Option, [], codes, false, if◌then◌else◌, is_some, leb_ℤ, none, not, pos, some,
  str_eq, true, ◌&&◌, ◌∷◌,
}
use acer_nitro_sense_linux.Status.Feature.{or_unavailable}

unfoldable pub find_power_source_auto_value : Bytes → Option Bool
find_power_source_auto_value name =
    if str_eq name (codes "on")
    then some true
    else if str_eq name (codes "off")
    then some false
    else none

-- A policy for the GPU temperature: the text for sysfs, and the one for the reply.
unfoldable pub find_gpu_temp_action : Bytes → Option (Bytes × Bytes)
find_gpu_temp_action name =
    if str_eq name (codes "auto")
    then some (codes "auto", codes "auto")
    else if str_eq name (codes "live")
    then some (codes "on", codes "on")
    else none

module _ (M : Machine) where
  open M use {World}

  unfoldable pub profile_command : AnsConfig → Bytes → World → Answer × World
  profile_command cfg action w = elim (config_find_platform_profile cfg action) [
    | none ↦ (refused unknown_profile, w)
    | some entry ↦
        let (written, w1) = apply_platform_profile M cfg action w in
        if not written
        then (refused write_failed, w1)
        else (reported (changed_profile action entry.value), w1)
  ]

  unfoldable pub handle_profile_command : AnsConfig → Bytes → World → Answer × World
  handle_profile_command cfg cmd w = elim (parse_profile_command cmd 32) [
    | none ↦ (refused bad_usage, w)
    | some action ↦
        if not cfg.platform_profiles.available
        then (refused unavailable, w)
        else profile_command cfg action w
  ]

  -- Switching the automatic choice: the policy is set before the profile is written.
  unfoldable pub power_source_auto :
      AnsConfig → PowerSource → Bool → Service → World → Service × Answer × World
  power_source_auto cfg source enabled s w =
      let target = power_source_profile_for cfg source in
      let s1 = record s { power_source_auto_apply = enabled } in
      let done = accepted (changed_auto_apply source enabled (or_unavailable target)) in
      let (written, w1) = apply_power_source_profile M cfg source w in
      if enabled && is_some target
      then (if not written then (s1, refused write_failed, w1) else (s1, done, w1))
      else (s1, done, w)

  unfoldable pub handle_power_source_auto_command :
      AnsConfig → PowerSource → Bytes → Service → World → Service × Answer × World
  handle_power_source_auto_command cfg source cmd s w =
      elim (parse_power_source_auto_command cmd 16) [
        | none ↦ (s, refused bad_usage, w)
        | some value ↦
            if not (power_source_profile_policy_available cfg)
            then (s, refused (policy_unavailable source), w)
            else (elim (find_power_source_auto_value value) [
              | none ↦ (s, refused bad_usage, w)
              | some enabled ↦ power_source_auto cfg source enabled s w
            ])
      ]

  unfoldable pub handle_power_source_apply_command :
      AnsConfig → PowerSource → Bytes → World → Answer × World
  handle_power_source_apply_command cfg source cmd w =
      elim (command_parse_enum_action cmd (codes "power-source") (codes "apply" ∷ []) 16) [
        | none ↦ (refused bad_usage, w)
        | some _ ↦ elim (power_source_profile_for cfg source) [
          | none ↦ (refused (policy_unavailable source), w)
          | some profile ↦
              let (written, w1) = apply_power_source_profile M cfg source w in
              if not written
              then (refused write_failed, w1)
              else (reported (changed_source_profile source profile), w1)
        ]
      ]

  unfoldable pub handle_power_source_command :
      AnsConfig → PowerSource → Bytes → Service → World → Service × Answer × World
  handle_power_source_command cfg source cmd s w = elim (command_second_token cmd 16) [
    | none ↦ (s, refused bad_usage, w)
    | some action ↦
        if str_eq action (codes "apply")
        then unchanged s (handle_power_source_apply_command cfg source cmd w)
        else if str_eq action (codes "auto")
        then handle_power_source_auto_command cfg source cmd s w
        else (s, refused bad_usage, w)
  ]

module _ (M : Machine) (H : Host M) where
  open M use {World}

  unfoldable pub gpu_temp_command : Bytes → Bytes → World → Answer × World
  gpu_temp_command policy live w =
      let (changed, w1) = H.sensor_set_group_power_control (codes "gpu") policy w in
      if leb_ℤ changed (pos 0)
      then (refused (gpu_policy_failed policy), w1)
      else (reported (changed_gpu_policy policy live changed), w1)

  unfoldable pub handle_gpu_temp_command : Bytes → World → Answer × World
  handle_gpu_temp_command cmd w = elim (parse_gpu_temp_command cmd 16) [
    | none ↦ (refused bad_usage, w)
    | some action ↦ elim (find_gpu_temp_action action) [
      | none ↦ (refused bad_usage, w)
      | some entry ↦ gpu_temp_command entry.0 entry.1 w
    ]
  ]

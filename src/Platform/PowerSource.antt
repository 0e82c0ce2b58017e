-- ===== src/Platform/PowerSource.antt =====
-- platform/power_source.c: which power source is in use, and the profile that it asks for.
pub mod Laws
use acer_nitro_sense_linux.Config.Types.{AnsConfig}
use acer_nitro_sense_linux.Machine.{Machine}
use acer_nitro_sense_linux.Platform.Host.{Host, Supply}
use acer_nitro_sense_linux.Platform.Profile.{apply_platform_profile}
use acer_nitro_sense_linux.Prelude.{
  Bool, Bytes, List, Option, [], codes, false, if◌then◌else◌, none, not, some, str_eq,
  text_has_value, true, ℕ, ◌&&◌, ◌==◌, ◌||◌, ◌∷◌,
}
use acer_nitro_sense_linux.Util.Text.{string_copy, trim_ascii}

-- enum power_source_state
pub data PowerSource : Type 0 where
  power_source_unknown power_source_ac power_source_battery : PowerSource

unfoldable pub power_source_name : PowerSource → Bytes
power_source_name power_source_ac = codes "ac"
power_source_name power_source_battery = codes "battery"
power_source_name power_source_unknown = codes "unknown"

abbrev pub same_source : PowerSource → PowerSource → Bool
same_source power_source_unknown power_source_unknown = true
same_source power_source_ac power_source_ac = true
same_source power_source_battery power_source_battery = true
same_source _ _ = false

unfoldable pub fake_power_source : Option Bytes → PowerSource
fake_power_source none = power_source_unknown
fake_power_source (some fake_name) =
    if not (text_has_value fake_name)
    then power_source_unknown
    else if str_eq fake_name (codes "ac")
    then power_source_ac
    else if str_eq fake_name (codes "battery")
    then power_source_battery
    else power_source_unknown

-- The text of a file, if it can be read, in a buffer of `out_len` bytes.
unfoldable pub read_trimmed_file : Option Bytes → ℕ → Option Bytes
read_trimmed_file none out_len = none
read_trimmed_file (some text) out_len = some (string_copy [] out_len (some (trim_ascii text))).1

unfoldable pub power_supply_type_is_mains : Bytes → Bool
power_supply_type_is_mains kind =
    str_eq kind (codes "Mains")
    || str_eq kind (codes "USB")
    || str_eq kind (codes "USB-C")
    || str_eq kind (codes "USB_PD")

unfoldable pub power_supply_is_online : Supply → Bool
power_supply_is_online supply = elim (read_trimmed_file supply.online_text 16) [
  | none ↦ false
  | some online ↦ str_eq online (codes "1")
]

-- A name that starts with a dot.
abbrev pub hidden : Bytes → Bool
hidden [] = false
hidden (c ∷ s) = c == b'.'

-- `has_battery` and `has_mains` after one entry, or that it is mains and online.
abbrev pub see_kind : Supply → Bytes → Bool → Bool → Option (Bool × Bool)
see_kind supply kind has_battery has_mains =
    if str_eq kind (codes "Battery")
    then some (true, has_mains)
    else if not (power_supply_type_is_mains kind)
    then some (has_battery, has_mains)
    else if power_supply_is_online supply
    then none
    else some (has_battery, true)

unfoldable pub see_supply : Supply → Bool → Bool → Option (Bool × Bool)
see_supply supply has_battery has_mains =
    if hidden supply.name
    then some (has_battery, has_mains)
    else (elim (read_trimmed_file supply.type_text 64) [
      | none ↦ some (has_battery, has_mains)
      | some kind ↦ see_kind supply kind has_battery has_mains
    ])

unfoldable pub scan_supplies : List Supply → Bool → Bool → PowerSource
scan_supplies [] has_battery has_mains =
    if has_battery
    then power_source_battery
    else if has_mains
    then power_source_ac
    else power_source_unknown
scan_supplies (supply ∷ supplies) has_battery has_mains =
    elim (see_supply supply has_battery has_mains) [
      | none ↦ power_source_ac
      | some seen ↦ scan_supplies supplies seen.0 seen.1
    ]

unfoldable pub power_source_profile_policy_available : AnsConfig → Bool
power_source_profile_policy_available cfg =
    cfg.platform_profiles.available
    && text_has_value cfg.power_source_profiles.ac_profile
    && text_has_value cfg.power_source_profiles.battery_profile

unfoldable pub power_source_profile_for : AnsConfig → PowerSource → Option Bytes
power_source_profile_for cfg source =
    if not (power_source_profile_policy_available cfg) then none else (elim source [
      | power_source_ac ↦ some cfg.power_source_profiles.ac_profile
      | power_source_battery ↦ some cfg.power_source_profiles.battery_profile
      | power_source_unknown ↦ none
    ])

module _ (M : Machine) (H : Host M) where
  open M use {World}

  unfoldable pub read_power_source : World → PowerSource
  read_power_source w =
      let faked = fake_power_source (H.fake_source w) in
      if not (same_source faked power_source_unknown) then faked else (elim (H.power_supplies w) [
        | none ↦ power_source_unknown
        | some supplies ↦ scan_supplies supplies false false
      ])

module _ (M : Machine) where
  open M use {World}

  unfoldable pub apply_power_source_profile : AnsConfig → PowerSource → World → Bool × World
  apply_power_source_profile cfg source w = elim (power_source_profile_for cfg source) [
    | none ↦ (false, w)
    | some profile ↦ apply_platform_profile M cfg profile w
  ]

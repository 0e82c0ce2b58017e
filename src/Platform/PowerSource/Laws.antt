-- ===== src/Platform/PowerSource/Laws.antt =====
-- The power source as a question about all supplies at once.
use acer_nitro_sense_linux.Platform.Host.{Supply}
use acer_nitro_sense_linux.Platform.PowerSource.{
  PowerSource, hidden, power_source_ac, power_source_battery, power_source_unknown,
  power_supply_is_online, power_supply_type_is_mains, read_trimmed_file, scan_supplies, see_kind,
  see_supply,
}
use acer_nitro_sense_linux.Prelude.{
  Bool, Bool-cases, Bytes, List, Option, Option-cases, [], arith, codes, false, if◌then◌else◌, inl,
  inr, none, not, refl, some, str_eq, ◌&&◌, ◌||◌, ◌∷◌, ◌≡◌,
}

unfoldable pub any_of : {A : Type 0} → (A → Bool) → List A → Bool
any_of test [] = false
any_of test (x ∷ xs) = test x || any_of test xs

-- The kind of a supply that is listed and whose file `type` can be read.
abbrev supply_kind : Supply → Option Bytes
supply_kind supply = if hidden supply.name then none else read_trimmed_file supply.type_text 64

abbrev kind_test : (Bytes → Bool) → Option Bytes → Bool
kind_test test none = false
kind_test test (some kind) = test kind

unfoldable pub is_battery : Supply → Bool
is_battery supply = kind_test (λ kind. str_eq kind (codes "Battery")) (supply_kind supply)

unfoldable pub is_mains : Supply → Bool
is_mains supply =
    kind_test (λ kind. not (str_eq kind (codes "Battery")) && power_supply_type_is_mains kind)
      (supply_kind supply)

-- Mains that is online first, then any battery, then any mains.
unfoldable pub power_source_of : List Supply → PowerSource
power_source_of supplies =
    if any_of (λ s. is_mains s && power_supply_is_online s) supplies
    then power_source_ac
    else if any_of is_battery supplies
    then power_source_battery
    else if any_of is_mains supplies
    then power_source_ac
    else power_source_unknown

see_kind_lem :
    (supply : Supply) (kind : Bytes) (has_battery has_mains : Bool)
    → see_kind supply kind has_battery has_mains ≡ (
        if (not (str_eq kind (codes "Battery")) && power_supply_type_is_mains kind)
          && power_supply_is_online supply
        then none
        else some (
          has_battery || str_eq kind (codes "Battery"),
          has_mains || (not (str_eq kind (codes "Battery")) && power_supply_type_is_mains kind),
        ))
see_kind_lem supply kind has_battery has_mains = ground arith

or_false : (a : Bool) → a ≡ (a || false)
or_false a = ground arith

-- What an entry that is passed over leaves.
abbrev seen : Bool → Bool → Option (Bool × Bool)
seen has_battery has_mains = some (has_battery, has_mains)

not_seen :
    (has_battery has_mains : Bool)
    → seen has_battery has_mains ≡ seen (has_battery || false) (has_mains || false)
not_seen has_battery has_mains = λ i. seen (or_false has_battery i) (or_false has_mains i)

see_by_kind :
    (supply : Supply) (has_battery has_mains : Bool)
    → see_supply supply has_battery has_mains ≡ (
        if is_mains supply && power_supply_is_online supply
        then none
        else some (has_battery || is_battery supply, has_mains || is_mains supply))
unfolding see_supply is_battery is_mains
see_by_kind supply has_battery has_mains = elim (Bool-cases (hidden supply.name)) [
  | inl dotted ↦ rw dotted (not_seen has_battery has_mains)
  | inr listed ↦ elim (Option-cases (read_trimmed_file supply.type_text 64)) [
    | inl bad ↦ rw (listed, bad) (not_seen has_battery has_mains)
    | inr (kind, read) ↦ rw (listed, read) (see_kind_lem supply kind has_battery has_mains)
  ]
]

or_assoc : (a b c : Bool) → (a || b) || c ≡ a || (b || c)
or_assoc a b c = ground arith

scan_from :
    (supplies : List Supply) (has_battery has_mains : Bool)
    → scan_supplies supplies has_battery has_mains ≡ (
        if any_of (λ s. is_mains s && power_supply_is_online s) supplies
        then power_source_ac
        else if has_battery || any_of is_battery supplies
        then power_source_battery
        else if has_mains || any_of is_mains supplies
        then power_source_ac
        else power_source_unknown)
unfolding scan_supplies any_of
scan_from [] has_battery has_mains = ground arith
scan_from (s ∷ supplies) has_battery has_mains =
    elim (Bool-cases (is_mains s && power_supply_is_online s)) [
      | inl online ↦ rw (scan_supplies, see_by_kind s has_battery has_mains, online) refl
      | inr other ↦
          rw
            (
              scan_supplies,
              see_by_kind s has_battery has_mains,
              other,
              scan_from supplies (has_battery || is_battery s) (has_mains || is_mains s),
              or_assoc has_battery (is_battery s) (any_of is_battery supplies),
              or_assoc has_mains (is_mains s) (any_of is_mains supplies),
            )
            refl
    ]

-- The scan of the power supplies in the order of their directory answers mains if any visible
-- supply is mains that is online, else the battery if there is one, else mains if there is any,
-- else an unknown source.
pub scan_supplies-power_source_of :
    (supplies : List Supply) → scan_supplies supplies false false ≡ power_source_of supplies
unfolding power_source_of
scan_supplies-power_source_of supplies = scan_from supplies false false

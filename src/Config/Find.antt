-- ===== src/Config/Find.antt =====
-- config/config.c: lookups in the profile. `NULL` is `none`.
use acer_nitro_sense_linux.Config.Types.{AnsConfig, FanConfig, PlatformProfileEntry, PresetConfig}
use acer_nitro_sense_linux.Prelude.{
  Bool-cases, Bytes, List, Option, [], arith, if◌then◌else◌, inl, inr, none, some, str_eq,
  str_eq_iff, ◌∷◌, ◌≡◌,
}

-- The loop that the three lookups share: the first entry with this id.
unfoldable pub find_by_id : {A : Type 0} → (A → Bytes) → List A → Bytes → Option A
find_by_id id_of [] id = none
find_by_id id_of (x ∷ xs) id =
    let later = find_by_id id_of xs id in if str_eq (id_of x) id then some x else later

unfoldable pub config_find_preset : AnsConfig → Bytes → Option PresetConfig
unfolding find_by_id
config_find_preset cfg id = find_by_id (λ p. p.id) cfg.presets id

unfoldable pub config_find_platform_profile : AnsConfig → Bytes → Option PlatformProfileEntry
unfolding find_by_id
config_find_platform_profile cfg id = find_by_id (λ p. p.id) cfg.platform_profiles.profiles id

unfoldable pub config_find_fan : AnsConfig → Bytes → Option FanConfig
unfolding find_by_id
config_find_fan cfg id = find_by_id (λ f. f.id) cfg.fans id

-- A lookup finds an entry exactly when one has the id, and then the first such entry.
pub find_by_id-some :
    {A : Type 0} (id_of : A → Bytes) (xs : List A) (id : Bytes) {x : A}
    → find_by_id id_of xs id ≡ some x
    → id_of x ≡ id
unfolding find_by_id
find_by_id-some id_of [] id h = cc
find_by_id-some id_of (y ∷ ys) id {x} h = elim (Bool-cases (str_eq (id_of y) id)) [
  | inl same ↦ ground (arith, str_eq_iff (id_of y) id)
  | inr other ↦ find_by_id-some id_of ys id (rw other at h)
]

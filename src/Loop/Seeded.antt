-- ===== src/Loop/Seeded.antt =====
-- The states that the daemon starts with are sound, whatever the files of earlier runs hold.
use acer_nitro_sense_linux.Config.Types.{AnsConfig, FanConfig, SafetyConfig}
use acer_nitro_sense_linux.Config.Valid.{IsValidFan, IsValidSafety}
use acer_nitro_sense_linux.Fan.Invariant.{IsSound}
use acer_nitro_sense_linux.Fan.State.{FanState}
use acer_nitro_sense_linux.Loop.Startup.{initial_state}
use acer_nitro_sense_linux.Prelude.{
  +ℤ_parts, All, Bytes, List, Option, Option-cases, [], arith, inl, inr, map, none, pos, refl, some,
  ◌∷◌,
}
use acer_nitro_sense_linux.State.Cache.{
  seed_fan, seed_fans, seed_state, seed_temperatures_from_file,
}
use acer_nitro_sense_linux.Util.Json.Scan.{json_object_with_id}

seed_fan-IsSound :
    (safety : SafetyConfig) (json : Bytes) (fan : FanConfig) (s : FanState)
    → IsSound safety s
    → IsSound safety (seed_fan json fan s)
unfolding seed_fan seed_state
seed_fan-IsSound safety json fan s h = elim (Option-cases (json_object_with_id json fan.id)) [
  | inl bad ↦ rw (bad, seed_fan) h
  | inr (fan_obj, found) ↦
      rw (found, seed_fan)
        (record {
          samples_in = h.samples_in;
          read_failures_in = h.read_failures_in;
          write_failures_in = h.write_failures_in;
          percent_in = h.percent_in;
          requested_in = h.requested_in;
          reason_agrees = h.reason_agrees;
        })
]

seed_fans-IsSound :
    (safety : SafetyConfig) (json : Bytes) (fans : List FanConfig) (states : List FanState)
    → All (IsSound safety) states
    → All (IsSound safety) (seed_fans json fans states)
unfolding seed_fans
seed_fans-IsSound safety json [] states h = h
seed_fans-IsSound safety json (fan ∷ fans) [] h = h
seed_fans-IsSound safety json (fan ∷ fans) (s ∷ states) (h, hs) =
    (seed_fan-IsSound safety json fan s h, seed_fans-IsSound safety json fans states hs)

pub seed_file-IsSound :
    (file : Option Bytes) (cfg : AnsConfig) (states : List FanState)
    → All (IsSound cfg.safety) states
    → All (IsSound cfg.safety) (seed_temperatures_from_file file cfg states)
unfolding seed_temperatures_from_file
seed_file-IsSound none cfg states h = h
seed_file-IsSound (some json) cfg states h = seed_fans-IsSound cfg.safety json cfg.fans states h

pub initial-IsSound :
    (cfg : AnsConfig) (fans : List FanConfig)
    → IsValidSafety cfg.critical_temperature_c cfg.safety
    → All IsValidFan fans
    → All (IsSound cfg.safety) (map initial_state fans)
unfolding initial_state
initial-IsSound cfg [] v vf = tt
initial-IsSound cfg (fan ∷ fans) v (vf, vfs) = (
  record {
    samples_in = ground (arith, v.critical_samples_in);
    read_failures_in =
        ground (arith, v.read_failures_in, +ℤ_parts cfg.safety.max_ec_read_failures (pos 1));
    write_failures_in =
        ground (arith, v.write_failures_in, +ℤ_parts cfg.safety.max_ec_write_failures (pos 1));
    percent_in = ground (arith, vf.reset_in, vf.write_min_in, vf.write_max_in);
    requested_in = ground (arith, vf.reset_in, vf.write_min_in, vf.write_max_in);
    reason_agrees = refl;
  },
  initial-IsSound cfg fans v vfs,
)

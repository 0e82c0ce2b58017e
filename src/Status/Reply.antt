-- ===== src/Status/Reply.antt =====
-- daemon/status_reply.c: the status, the presets, and reads of the embedded controller.
pub mod Laws
use acer_nitro_sense_linux.Config.Types.{AnsConfig, FanConfig, PresetConfig}
use acer_nitro_sense_linux.Fan.State.{FanState}
use acer_nitro_sense_linux.Machine.{Machine}
use acer_nitro_sense_linux.Platform.FanMode.{control_mode, firmware_auto_mode}
use acer_nitro_sense_linux.Platform.PowerSource.{PowerSource}
use acer_nitro_sense_linux.Prelude.{
  Bool, Bytes, List, Option, [], codes, if◌then◌else◌, leb_ℤ, ltb_ℤ, none, pos, pos_part, some, suc,
  zero, ℕ, ℤ, ◌+ℤ◌, ◌-ℤ◌, ◌∷◌,
}
use acer_nitro_sense_linux.Status.Format.{
  on_off_text, status_active_percent_text, status_fan_control_source, status_requested_percent,
}

-- The line of one fan: the fields of its state, and what is computed from them.
pub record FanReport : Type 0 where
  pub fan_id : Bytes
  pub state : FanState
  pub control : Bytes
  pub active_percent : Option ℤ
  pub requested : ℤ

pub record StatusReport : Type 0 where
  pub model : Bytes
  pub mode : Bytes
  pub is_auto : Bool
  pub preset : Bytes
  pub coolboost : Bytes
  pub power_source : PowerSource
  pub fan_lines : List FanReport

unfoldable pub fan_report : Bool → FanConfig → FanState → FanReport
fan_report firmware_mode fan s = record {
  fan_id = fan.id;
  state = s;
  control = status_fan_control_source firmware_mode s.safety_active;
  active_percent = status_active_percent_text firmware_mode s.safety_active s.percent;
  requested = status_requested_percent s;
}

unfoldable pub fan_reports : Bool → List FanConfig → List FanState → List FanReport
fan_reports firmware_mode [] states = []
fan_reports firmware_mode (fan ∷ fans) [] = []
fan_reports firmware_mode (fan ∷ fans) (s ∷ states) =
    fan_report firmware_mode fan s ∷ fan_reports firmware_mode fans states

unfoldable pub reply_status :
    AnsConfig → List FanState → Bool → Bytes → Bool → PowerSource → StatusReport
reply_status cfg states auto_mode preset coolboost_enabled source = record {
  model = cfg.model;
  mode = control_mode auto_mode preset;
  is_auto = auto_mode;
  preset = preset;
  coolboost =
      if cfg.fan_modes.available then on_off_text coolboost_enabled else codes "unavailable";
  power_source = source;
  fan_lines = fan_reports (firmware_auto_mode auto_mode preset) cfg.fans states;
}

-- A line of `preset-show`: the id, the requested and the effective percentage.
unfoldable pub preset_show_lines : List FanConfig → List FanState → List (Bytes × ℤ × ℤ)
preset_show_lines [] states = []
preset_show_lines (fan ∷ fans) [] = []
preset_show_lines (fan ∷ fans) (s ∷ states) =
    (fan.id, status_requested_percent s, s.percent) ∷ preset_show_lines fans states

unfoldable pub reply_preset_show :
    AnsConfig → List FanState → Bool → Bytes → Bytes × Bytes × List (Bytes × ℤ × ℤ)
reply_preset_show cfg states auto_mode preset =
    (control_mode auto_mode preset, preset, preset_show_lines cfg.fans states)

unfoldable pub reply_presets : AnsConfig → List PresetConfig
reply_presets cfg = cfg.presets

-- A byte, if it can be read.
abbrev readable : ℤ → Option ℤ
readable value = if ltb_ℤ value (pos 0) then none else some value

-- The number of registers from `first` to `last`.
unfoldable pub row_length : ℤ → ℤ → ℕ
row_length first last = pos_part (last +ℤ pos 1 -ℤ first)

-- The last register of the row at `base`.
abbrev pub row_end : ℤ → ℤ → ℤ
row_end base last = if ltb_ℤ (base +ℤ pos 15) last then base +ℤ pos 15 else last

module _ (M : Machine) where
  open M use {World, ec_read_byte}

  unfoldable pub reply_ec_read : ℤ → World → Option ℤ × World
  reply_ec_read reg w = let (value, w1) = ec_read_byte reg w in (readable value, w1)

  -- `count` registers from `reg` on.
  unfoldable pub dump_row : ℕ → ℤ → World → List (Option ℤ) × World
  dump_row zero reg w = ([], w)
  dump_row (suc count) reg w =
      let (value, w1) = ec_read_byte reg w in
      let (rest, w2) = dump_row count (reg +ℤ pos 1) w1 in (readable value ∷ rest, w2)

  -- The rows from `base` on. The fuel bounds their number.
  unfoldable pub dump_rows : ℕ → ℤ → ℤ → World → List (ℤ × List (Option ℤ)) × World
  dump_rows zero base last w = ([], w)
  dump_rows (suc fuel) base last w =
      let (row, w1) = dump_row (row_length base (row_end base last)) base w in
      let (rows, w2) = dump_rows fuel (base +ℤ pos 16) last w1 in
      if leb_ℤ base last then ((base, row) ∷ rows, w2) else ([], w)

  unfoldable pub reply_ec_dump : ℤ → ℤ → World → List (ℤ × List (Option ℤ)) × World
  reply_ec_dump first last w = dump_rows (row_length first last) first last w

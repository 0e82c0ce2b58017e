-- ===== src/Keyboard/Backlight.antt =====
-- keyboard/backlight.c and keyboard/backlight_ec.c. The LED that Linux may offer under sysfs is a
-- parameter: what reading it answers, and the status that it fills in.
pub mod Laws
use acer_nitro_sense_linux.Config.Types.{AnsConfig, KeyboardBacklightConfig}
use acer_nitro_sense_linux.Machine.{Machine}
use acer_nitro_sense_linux.Prelude.{
  Bool, Bytes, Option, [], codes, false, if◌then◌else◌, leb_ℤ, ltb_ℤ, minus_one, none, not, pos,
  some, str_eq, text_has_value, true, ℤ, ◌*ℤ◌, ◌+ℤ◌, ◌-ℤ◌, ◌/ℤ◌, ◌||◌,
}

-- struct keyboard_backlight_status
pub record BacklightStatus : Type 0 where
  pub available : Bool
  pub name : Bytes
  pub path : Bytes
  pub backend : Bytes
  pub reg : ℤ
  pub brightness : ℤ
  pub max_brightness : ℤ
  pub percent : ℤ

unfoldable pub keyboard_backlight_init_status : BacklightStatus
keyboard_backlight_init_status = record {
  available = false;
  name = [];
  path = [];
  backend = codes "none";
  reg = minus_one;
  brightness = minus_one;
  max_brightness = minus_one;
  percent = minus_one;
}

unfoldable pub keyboard_backlight_percent_from_range : ℤ → ℤ → ℤ → ℤ
keyboard_backlight_percent_from_range value min_value max_value =
    let range = max_value -ℤ min_value in
    if leb_ℤ range (pos 0)
    then minus_one
    else ((value -ℤ min_value) *ℤ pos 100 +ℤ range /ℤ pos 2) /ℤ range

unfoldable pub keyboard_backlight_value_from_percent : KeyboardBacklightConfig → ℤ → ℤ
keyboard_backlight_value_from_percent cfg percent =
    let range = cfg.max_value -ℤ cfg.min_value in
    cfg.min_value +ℤ (percent *ℤ range +ℤ pos 50) /ℤ pos 100

unfoldable pub keyboard_backlight_reason : BacklightStatus → Bytes
keyboard_backlight_reason status =
    if status.available
    then codes "ok"
    else if str_eq status.backend (codes "ec")
    then codes "ec-read-failed"
    else if text_has_value status.name
    then codes "sysfs-led-read-failed"
    else codes "no-sysfs-led"

-- A status that the EC backend starts from, and the one that it completes.
abbrev pub ec_status : AnsConfig → BacklightStatus
ec_status cfg = record keyboard_backlight_init_status {
  backend = codes "ec";
  name = codes "acer-ec";
  reg = cfg.keyboard_backlight.reg;
  max_brightness = cfg.keyboard_backlight.max_value;
}

abbrev pub read_status : AnsConfig → ℤ → BacklightStatus
read_status cfg value = record (ec_status cfg) {
  available = true;
  brightness = value;
  percent =
      keyboard_backlight_percent_from_range value cfg.keyboard_backlight.min_value
        cfg.keyboard_backlight.max_value;
}

module _ (M : Machine) where
  open M use {World, ec_read_byte, ec_write_byte}

  unfoldable pub keyboard_backlight_read_ec : AnsConfig → World → Bool × BacklightStatus × World
  keyboard_backlight_read_ec cfg w =
      let kb = cfg.keyboard_backlight in
      let (value, w1) = ec_read_byte kb.reg w in
      if not kb.available
      then (false, ec_status cfg, w)
      else if ltb_ℤ value kb.min_value || ltb_ℤ kb.max_value value
      then (false, ec_status cfg, w1)
      else (true, read_status cfg value, w1)

  -- The status is `none` where the call leaves the caller's as it is.
  unfoldable pub keyboard_backlight_set_percent :
      AnsConfig → ℤ → World → Bool × Option BacklightStatus × World
  keyboard_backlight_set_percent cfg percent w =
      let kb = cfg.keyboard_backlight in
      let range = kb.max_value -ℤ kb.min_value in
      let value = keyboard_backlight_value_from_percent kb percent in
      let (written, w1) = ec_write_byte kb.reg value w in
      let (valid, status, w2) = keyboard_backlight_read_ec cfg w1 in
      if not kb.available || leb_ℤ range (pos 0)
      then (false, none, w)
      else if ltb_ℤ written (pos 0)
      then (false, none, w1)
      else (valid, some status, w2)

  unfoldable pub keyboard_backlight_read_any :
      (World → Bool × BacklightStatus) → AnsConfig → World → Bool × BacklightStatus × World
  keyboard_backlight_read_any read_sysfs cfg w =
      let (found, status) = read_sysfs w in
      if found
      then (true, status, w)
      else if cfg.keyboard_backlight.available
      then keyboard_backlight_read_ec cfg w
      else (false, status, w)

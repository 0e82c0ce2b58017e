-- ===== src/Config/Load/Valid.antt =====
-- `config_load` of src/config/config.c against the ranges of `Config.Valid`.
use acer_nitro_sense_linux.Config.Fans.{Limits}
use acer_nitro_sense_linux.Config.Valid.{IsWithin}
use acer_nitro_sense_linux.Prelude.{pos, ◌<ℤ◌, ◌≤ℤ◌}

abbrev IsChecked : Limits → Type 0
IsChecked l =
    (pos 0 ≤ℤ l.read_min)
    × (l.read_min <ℤ l.read_max)
    × (pos 0 ≤ℤ l.write_min)
    × (l.write_max ≤ℤ pos 100)
    × (l.write_min <ℤ l.write_max)
    × IsWithin l.write_min l.write_max l.reset_speed

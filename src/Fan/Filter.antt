-- ===== src/Fan/Filter.antt =====
-- fan/temperature_filter.c: the spike filter of a temperature sensor.
pub mod Laws
use acer_nitro_sense_linux.Prelude.{
  Bool, abs, if◌then◌else◌, leb_ℤ, ltb_ℤ, minus_one, not, pos, ℤ, ◌&&◌, ◌-ℤ◌,
}

abbrev pub temp_spike_filter_delta_c : ℤ
temp_spike_filter_delta_c = pos 15

abbrev pub temp_spike_accept_delta_c : ℤ
temp_spike_accept_delta_c = pos 3

-- What the filter returns, and the new value of `*pending_spike_temp`.
pub record Filtered : Type 0 where
  pub result : ℤ
  pub pending : ℤ

-- A jump: accepted if it confirms the pending sample, held back as `fallback` if not. Both jumps
-- of the source have this text, with -1 and `*current_temp` for the fallback.
unfoldable pub confirm_jump : ℤ → ℤ → ℤ → Filtered
confirm_jump pending sensor_temp fallback =
    if ltb_ℤ (pos 0) pending && leb_ℤ (abs (sensor_temp -ℤ pending)) temp_spike_accept_delta_c
    then record { result = sensor_temp; pending = pos 0 }
    else record { result = fallback; pending = sensor_temp }

unfoldable pub fan_filtered_sensor_temp : ℤ → ℤ → ℤ → Bool → ℤ → Filtered
fan_filtered_sensor_temp current_temp pending sensor_temp trusted_baseline critical_temperature_c =
    if ltb_ℤ sensor_temp (pos 0)
    then record { result = sensor_temp; pending = pos 0 }
    else if not trusted_baseline && leb_ℤ critical_temperature_c sensor_temp
    then confirm_jump pending sensor_temp minus_one
    else if ltb_ℤ (pos 0) current_temp
        && ltb_ℤ current_temp sensor_temp
        && leb_ℤ temp_spike_filter_delta_c (sensor_temp -ℤ current_temp)
    then confirm_jump pending sensor_temp current_temp
    else record { result = sensor_temp; pending = pos 0 }

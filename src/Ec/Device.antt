-- ===== src/Ec/Device.antt =====
-- ec/ec.c: the device behind `struct ec_device`, whose backend answers each access.
use acer_nitro_sense_linux.Ec.Fake.{ec_fake_read_byte, ec_fake_write_byte, ec_open_fake}
use acer_nitro_sense_linux.Ec.File.{
  ec_file_close, ec_file_read_byte, ec_file_write_byte, ec_open_file_backend,
}
use acer_nitro_sense_linux.Ec.Ports.{
  ec_io_close, ec_io_read_byte, ec_io_write_byte, ec_open_io_ports,
}
use acer_nitro_sense_linux.Ec.Types.{
  EcDevice, Os, acpi_ec, closed_device, ec_sys, fake, io_ports, no_backend,
}
use acer_nitro_sense_linux.Machine.{Machine}
use acer_nitro_sense_linux.Prelude.{
  Bytes, codes, eqb_ℤ, if◌then◌else◌, minus_one, pos, str_eq, ℤ, ◌||◌,
}

module _ (O : Os) where
  open O use {State}

  -- The two kernel files and the ports, in the order in which they are tried.
  unfoldable pub open_hardware : Bytes → EcDevice → State → ℤ × EcDevice × State
  open_hardware path ec s =
      let (by_path, ec1, s1) = ec_open_file_backend O path ec_sys (codes "ec-sys") ec s in
      let (by_acpi, ec2, s2) =
        ec_open_file_backend O (codes "/dev/ec") acpi_ec (codes "acpi-ec") ec1 s1 in
      if eqb_ℤ by_path (pos 0)
      then (pos 0, ec1, s1)
      else if eqb_ℤ by_acpi (pos 0)
      then (pos 0, ec2, s2)
      else ec_open_io_ports O ec2 s2

  unfoldable pub ec_open_rw : Bytes → State → ℤ × EcDevice × State
  ec_open_rw path s =
      if str_eq path (codes "fake") || str_eq path (codes "fake:")
      then (pos 0, ec_open_fake closed_device, s)
      else open_hardware path closed_device s

  unfoldable pub release_backend : EcDevice → State → State
  release_backend ec s = elim (ec.backend) [
    | ec_sys ↦ ec_file_close O ec s
    | acpi_ec ↦ ec_file_close O ec s
    | io_ports ↦ ec_io_close O s
    | _ ↦ s
  ]

  unfoldable pub ec_close : EcDevice → State → EcDevice × State
  ec_close ec s = (record ec { fd = minus_one; backend = no_backend }, release_backend ec s)

  unfoldable pub device_read_byte : EcDevice → ℤ → State → ℤ × State
  device_read_byte ec reg s = elim (ec.backend) [
    | ec_sys ↦ ec_file_read_byte O ec reg s
    | acpi_ec ↦ ec_file_read_byte O ec reg s
    | io_ports ↦ ec_io_read_byte O reg s
    | fake ↦ (ec_fake_read_byte ec reg, s)
    | no_backend ↦ (minus_one, s)
  ]

  unfoldable pub fake_write : EcDevice → ℤ → ℤ → State → ℤ × EcDevice × State
  fake_write ec reg value s = let (r, ec1) = ec_fake_write_byte O ec reg value in (r, ec1, s)

  -- The hardware backends leave the struct as it is.
  unfoldable pub device_write_byte : EcDevice → ℤ → ℤ → State → ℤ × EcDevice × State
  device_write_byte ec reg value s =
      let (by_file, s1) = ec_file_write_byte O ec reg value s in
      let (by_ports, s2) = ec_io_write_byte O reg value s in
      elim (ec.backend) [
        | ec_sys ↦ (by_file, ec, s1)
        | acpi_ec ↦ (by_file, ec, s1)
        | io_ports ↦ (by_ports, ec, s2)
        | fake ↦ fake_write ec reg value s
        | no_backend ↦ (minus_one, ec, s)
      ]

-- The machine of the control code: a device, the system behind it, and the sensors.
unfoldable pub device_machine :
    (O : Os) → (Bytes → EcDevice × O.State → ℤ × (EcDevice × O.State)) → Machine
device_machine O sensors = record {
  World = EcDevice × O.State;
  ec_read_byte = λ reg w. let (value, s) = device_read_byte O w.0 reg w.1 in (value, (w.0, s));
  ec_write_byte = λ reg value w.
      let (result, ec, s) = device_write_byte O w.0 reg value w.1 in (result, (ec, s));
  sensor_read_group_max_c = sensors;
}

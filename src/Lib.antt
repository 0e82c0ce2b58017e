-- ===== src/Lib.antt =====
-- The fan-control daemon for Acer Nitro laptops: a model of the parts of src/ that decide what is
-- written to the embedded controller (EC), and of the texts that reach them.
--
-- The daemon loads a model profile (src/config/), then runs rounds: it reads the sensors of each
-- fan through a spike filter (src/fan/temperature_filter.c, src/fan/observation.c), picks a target
-- speed from the fan's curve, a preset or a manual request (src/fan/control.c), lets the safety
-- policy raise it (src/fan/safety_policy.c), and writes it to the EC (src/fan/safety.c). Between
-- rounds it serves text commands, which src/commands/parser/ reads and src/commands/daemon/
-- carries out behind a check of permissions, follows the power source, and advances the idle
-- timeout of the keyboard backlight. It saves its control state to a file and restores it at the
-- next start. The command line client (src/client/, src/commands/client/) checks its arguments and
-- sends such a command over a socket.
--
-- Files and the source they model, with the names of the source:
--   Machine          the EC and the sensors as src/ec/ec.h and src/sensors/sensors.h offer them:
--                    a state of the outside world that each call takes and returns, with any
--                    answers
--   Util             src/util/number.c, src/util/string.c, src/util/json.c, src/util/json_scan.c;
--                    strtol and strstr of the C library as they are documented, with a `long` of
--                    64 bits
--   Ec               src/ec/: the backends (fake, files, I/O ports) over an operating system that
--                    is a parameter, their choice, and ec_read_word; device_machine makes the
--                    Machine of the control code from a device
--   Config           src/config/: the profile as records, and every parser from its text
--   Platform         src/platform/: fan_mode.c, profile.c, control.c, power_source.c and
--                    sensor_power.c; Platform.Host is what they read of Linux
--   Fan.Filter       src/fan/temperature_filter.c
--   Fan.Observation  src/fan/observation.c
--   Fan.Policy       src/fan/safety_policy.c
--   Fan.Safety       src/fan/safety.c, src/fan/safety_log.c
--   Fan.Control      the curve and the rounds of src/fan/control.c
--   Fan.Requests     the other writes of src/fan/control.c, and apply_coolboost of
--                    src/platform/fan_mode.c
--   Fan.Lifecycle    src/fan/lifecycle.c
--   Keyboard         src/keyboard/backlight.c, src/keyboard/backlight_ec.c,
--                    src/keyboard/backlight_timeout.c
--   Command          src/commands/parser/
--   Status           src/daemon/status_reply.c, feature_status.c, capabilities.c, status_format.h
--   Daemon           src/commands/daemon/: Daemon.Fan and Daemon.Modes the fan commands, Daemon.Power
--                    profile.c, power_source.c and gpu_temp.c, Daemon.Backlight
--                    keyboard_backlight.c, Daemon.Control control.c and ec.c, Daemon.Registry
--                    registry.c and daemon.c; Daemon.Protocol control_read_command of
--                    src/control/protocol.c
--   State            src/util/format.c, src/daemon/state_persist.c, src/daemon/state_restore.c,
--                    src/fan/temperature_cache.c
--   Loop             src/daemon/args.c, src/daemon/loop.c and the control state of src/daemon.c
--   Client           src/commands/client/ and of src/client/ parse.c and transport.c: each handler
--                    up to the call in which it ends, which is a value (ClientCall)
--   Tests            concrete runs
-- Modules named Laws, and Fan.Invariant, Fan.Forced, Fan.Permitted, Config.Load.Valid,
-- Command.Tokens.Grammar, Daemon.Sound, Daemon.Invariant, Daemon.Errors, Daemon.ReadOnly,
-- Daemon.Permission, Daemon.Dispatch, Daemon.Chosen, Fan.Ramp, Fan.Quiet, Ec.Nearest, Ec.Memory,
-- Ec.Refine, Ec.Stored, Ec.Wait, State.Saved, State.Sound, State.RoundTrip, Loop.Seeded,
-- Loop.Sound, Loop.Timing, Client.Capture, Client.Decimal, Client.Accepted, Client.Received,
-- Client.Dumped, Client.Known, Client.Groups, Client.Bounds and Client.Served hold the theorems
-- about the definitions beside them.
--
-- How state corresponds. A struct is a record with the fields of the source; a fixed array with
-- its length field is a list, and the parsers keep the limits of src/core/constants.h. A `char`
-- array is the list of the bytes of its text; a `NULL` and a failed parse are `none`. The safety
-- reasons are the constructors of `Reason`, one for each text. A function that changes a state
-- takes it and returns the new one; loops over the fans are recursion on the list of fans and that
-- of states. Most definitions recurse on a list or on a number that falls.
-- The loops around an interrupted transfer have no bound in the source: they recurse on the
-- accessibility of the interrupted transfers, a law of the operating system by which no transfer
-- is interrupted forever; the waits of the I/O ports count their 10,000 polls; the rows of `ec-
-- dump` take the number of registers, and the digits of a number take the number itself, which are
-- never too few.
--
-- Integers. An `int` is an unbounded integer here; only the cast of a `long` in the client cuts it.
-- Every `int` of a profile or a command that enters a sum is range-checked by the parsers, the
-- sensors answer temperatures and the EC bytes and words; each sum or product of the modelled code
-- is of a few such numbers, far below 2^31.
--
-- Not modelled: reading and replacing files, sockets, signals and the log; what the client prints,
-- and the JSON of the status file; the diagnostic modes of the daemon; hardware detection, the
-- sensor and GPU probes, the input devices, and the LED under sysfs, whose answers are parameters.
pub mod Prelude
pub mod Machine
pub mod Util
pub mod Ec
pub mod Config
pub mod Platform
pub mod Command
pub mod Fan
pub mod Keyboard
pub mod Status
pub mod Daemon
pub mod State
pub mod Loop
pub mod Client
pub mod Tests

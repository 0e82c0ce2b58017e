-- ===== src/Loop/Step.antt =====
-- daemon/loop.c: the rounds of the control loop. What the clock, the input devices and the socket
-- give in a round is an event.
use acer_nitro_sense_linux.Config.Types.{AnsConfig}
use acer_nitro_sense_linux.Daemon.Registry.{handle_client}
use acer_nitro_sense_linux.Daemon.Types.{Service}
use acer_nitro_sense_linux.Fan.Control.{update_fan_states}
use acer_nitro_sense_linux.Keyboard.Timeout.{keyboard_backlight_timeout_tick}
use acer_nitro_sense_linux.Machine.{Machine}
use acer_nitro_sense_linux.Platform.Host.{Host}
use acer_nitro_sense_linux.Platform.PowerSource.{
  PowerSource, apply_power_source_profile, power_source_profile_for, power_source_unknown,
  read_power_source, same_source,
}
use acer_nitro_sense_linux.Prelude.{
  Bool, List, Option, [], false, if◌then◌else◌, is_some, leb_ℤ, ltb_ℤ, none, not, pos, pos_part,
  some, true, ℕ, ℤ, ◌%◌, ◌*◌, ◌+ℤ◌, ◌/◌, ◌||◌, ◌∷◌,
}

unfoldable pub timeout_from_ms : ℤ → ℕ × ℕ
timeout_from_ms ms =
    let left = if ltb_ℤ ms (pos 0) then 0 else pos_part ms in (left / 1000, left % 1000 * 1000)

-- What `select` finds: the deadline or a signal, input or a client, or an error.
pub data Ready : Type 0 where
  nothing_ready select_failed : Ready
  something_ready : Ready

-- A connected client: what the reads from its connection give, and client_can_control.
pub record Client : Type 0 where
  pub incoming : List (Option ℕ)
  pub can_control : Bool

pub record Event : Type 0 where
  pub now_ms : ℤ
  pub updated_ms : ℤ
  pub handled_ms : ℤ
  pub has_inputs : Bool
  pub last_activity_ms : ℤ
  pub new_activity_ms : ℤ
  pub ready : Ready
  pub client : Option Client

pub record LoopState : Type 0 where
  pub service : Service
  pub last_power_source : PowerSource
  pub next_update_ms : ℤ

module _ (M : Machine) (H : Host M) (cfg : AnsConfig) where
  open M use {World}

  unfoldable pub maybe_apply_power_source_profile : PowerSource → Bool → World → PowerSource × World
  maybe_apply_power_source_profile last auto_apply w =
      let source = read_power_source M H w in
      let (_, w1) = apply_power_source_profile M cfg source w in
      if same_source source power_source_unknown || same_source source last
      then (last, w)
      else if not auto_apply
      then (source, w)
      else if not (is_some (power_source_profile_for cfg source))
      then (source, w)
      else (source, w1)

  -- `keyboard_backlight_timeout_tick`, if there are input devices.
  unfoldable pub tick_backlight : Bool → ℤ → ℤ → Service → World → Service × World
  tick_backlight has_inputs now_ms activity_ms s w =
      let (t, w1) =
        keyboard_backlight_timeout_tick M H.read_sysfs cfg s.timeout now_ms activity_ms w in
      if has_inputs then (record s { timeout = t }, w1) else (s, w)

  unfoldable pub update_fans : Service → World → Service × World
  update_fans s w =
      let d = s.daemon in
      let (states, w1) = update_fan_states M cfg d.states d.auto_mode d.preset w in
      (record s { daemon = record d { states = states } }, w1)

  -- The part of a round that waits for the deadline.
  unfoldable pub scheduled_update : Event → LoopState → World → LoopState × World
  scheduled_update e l w =
      let s = l.service in
      let (source, w1) =
        maybe_apply_power_source_profile l.last_power_source s.power_source_auto_apply w in
      let (s1, w2) = tick_backlight e.has_inputs e.now_ms e.last_activity_ms s w1 in
      let (s2, w3) = update_fans s1 w2 in
      if leb_ℤ l.next_update_ms e.now_ms
      then (
        record {
          service = s2;
          last_power_source = source;
          next_update_ms = e.updated_ms +ℤ cfg.poll_interval_ms;
        },
        w3,
      )
      else (l, w)

  unfoldable pub serve_client : Option Client → Service → World → Service × World
  serve_client none s w = (s, w)
  serve_client (some c) s w =
      let (s1, _, w1) = handle_client M H cfg c.incoming c.can_control s w in (s1, w1)

  -- The part of a round after `select`. The result says whether the loop goes on.
  unfoldable pub handle_ready : Event → Ready → Service → World → Bool × Service × World
  handle_ready e nothing_ready s w = (true, s, w)
  handle_ready e select_failed s w = (false, s, w)
  handle_ready e something_ready s w =
      let (s1, w1) = tick_backlight e.has_inputs e.handled_ms e.new_activity_ms s w in
      let (s2, w2) = serve_client e.client s1 w1 in (true, s2, w2)

  unfoldable pub loop_round : Event → LoopState → World → Bool × LoopState × World
  loop_round e l w =
      let (l1, w1) = scheduled_update e l w in
      let (goes_on, s, w2) = handle_ready e e.ready l1.service w1 in
      (goes_on, record l1 { service = s }, w2)

  -- The rounds of `run_daemon_loop`: it stops at a command or at an error, and at the last event
  -- here.
  unfoldable pub run_rounds : List Event → LoopState → World → LoopState × World
  run_rounds [] l w = (l, w)
  run_rounds (e ∷ events) l w =
      let (goes_on, l1, w1) = loop_round e l w in
      let rest = run_rounds events l1 w1 in
      if not l.service.running then (l, w) else if not goes_on then (l1, w1) else rest

-- ===== src/Desk/Controller/WakeCycle.antt =====
-- The runner while the sensor is being woken, and what it enters when a newer height has come.
use kdt_smaty.Prelude.{
  ℕ, suc, ◌+◌, String, Bool, true, false, not, ◌&&◌, ◌||◌, Option, none, some, str_eq, ltb, leb,
  dist, if◌then◌else◌,
}
use kdt_smaty.Desk.Models.{
  finite, Direction, HeightStatus, RelayState, RelaySnapshot, DeskState, DeskSettings,
}
use kdt_smaty.Desk.Controller.State.{
  MotionMode, TargetPhase, ControlState, Controller, Env, Reason, Detail, still,
  reset_motion_fields, initialize_relay_tracking,
}
use kdt_smaty.Desk.Controller.Task.{
  match_option, rejected, assertion_error, Task, pure, fail, lift, update, with_world, ◌>>=◌, ◌>>◌,
}
use kdt_smaty.Desk.Controller.Guards.{
  require_relay_available_for_wake, require_direction_allowed, is_online, is_state, direction_to,
}
use kdt_smaty.Desk.Controller.Motion.{is_manual}
use kdt_smaty.Desk.Controller.Stop.{stop_motion}
use kdt_smaty.Desk.Controller.Wake.{if_generation}
use kdt_smaty.Desk.Controller.Pulse.{expired}

-- `code == "ready"`
abbrev is_ready : Option String → Bool
is_ready none = false
is_ready (some code) = str_eq code "ready"

abbrev pub activate_manual : Direction → RelaySnapshot → ℕ → Env → Controller → Controller
activate_manual direction relay now env c = initialize_relay_tracking relay (record c {
  control = record (c.control) {
    public_state = DeskState.manual;
    detail = Detail.manual_moving direction;
    awaiting_fresh_height = false;
    wake_observed_at = none;
    wake_started_at = none;
    updated_at = env.now;
  };
  next_refresh_at = some now;
})

abbrev pub activate_target : ℕ → Direction → RelaySnapshot → ℕ → Env → Controller → Controller
activate_target target direction relay now env c = initialize_relay_tracking relay (record c {
  control = record (c.control) {
    public_state = DeskState.moving;
    target_phase = some TargetPhase.continuous;
    direction = some direction;
    detail = Detail.moving_to target;
    awaiting_fresh_height = false;
    wake_observed_at = none;
    wake_started_at = none;
    updated_at = env.now;
  };
  next_refresh_at = some now;
})

module _ (s : DeskSettings) where
  -- `_activate_after_wake`, by the mode of the WAKE
  unfoldable pub activate_after_wake :
      MotionMode → ControlState → ℕ → RelaySnapshot → ℕ → Task (Unit {0})
  activate_after_wake MotionMode.wake control height relay now = if_generation control.generation (
      update λ env c. reset_motion_fields (record c {
        control = still DeskState.idle Detail.sensor_confirmed env.now (suc control.generation);
      }))
  activate_after_wake MotionMode.manual control height relay now =
      match_option control.direction (fail assertion_error) λ direction. do
        lift (require_direction_allowed s height direction)
        if_generation control.generation (update (activate_manual direction relay now))
  activate_after_wake _ control height relay now =
      match_option control.target_height_cm (fail assertion_error) λ target.
        if leb (dist height target) s.target_tolerance_cm
        then stop_motion s (Detail.reached target) none
        else do
          lift (require_direction_allowed s height (direction_to height target))
          if_generation control.generation
              (update (activate_target target (direction_to height target) relay now))

  -- A live height that is newer than the one that the WAKE went by, or `none`. It may lack its
  -- number; a live number is finite, since the decoder gives no other.
  unfoldable pub newer_height : ControlState → Env → Option (Option ℕ)
  newer_height control env =
      if not (is_online env.height.status) then none else elim env.height.observed_at [
        | none ↦ none
        | some observed_at ↦ (elim control.wake_observed_at [
          | none ↦ none
          | some basis_at ↦
              (if leb observed_at basis_at then none else elim env.height.height_cm [
                | some (finite h) ↦ some (some h)
                | none ↦ some none
                | _ ↦ none
              ])
        ])
      ]

  -- `assert snapshot.height_cm is not None`, and what stands behind it.
  abbrev pub assert_height : ControlState → Option ℕ → RelaySnapshot → ℕ → Task (Unit {0})
  assert_height control none relay now = fail assertion_error
  assert_height control (some height) relay now =
      activate_after_wake control.mode control height relay now

  unfoldable pub after_newer_height : ControlState → Option (Option ℕ) → ℕ → Task (Unit {0})
  after_newer_height control none now = pure tt
  after_newer_height control (some height) now = do
    relay ← with_world λ w. lift (require_relay_available_for_wake s w.env)
    if not (is_state RelayState.stop relay.state) || not (is_ready relay.code)
        then pure tt
        else assert_height control height relay now

  abbrev is_error : HeightStatus → Bool
  is_error HeightStatus.error = true
  is_error _ = false

  abbrev wake_expired : Option ℕ → ℕ → Bool
  wake_expired none now = true
  wake_expired (some started_at) now = ltb (started_at + s.wake_timeout) now

  -- `_run_wake_cycle`
  unfoldable pub run_wake_cycle : ControlState → Task (Unit {0})
  run_wake_cycle control = with_world λ w.
      let now = w.env.monotonic in
      if wake_expired control.wake_started_at now
      then fail (rejected Reason.wake_timed_out)
      else if is_manual control.mode && expired w.controller.last_hold_at s.manual_watchdog now
      then stop_motion s Detail.wake_hold_lost none
      else if is_error w.env.height.status
      then fail (rejected Reason.sensor_transport_failed)
      else after_newer_height control (newer_height control w.env) now

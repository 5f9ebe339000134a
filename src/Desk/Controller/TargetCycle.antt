-- ===== src/Desk/Controller/TargetCycle.antt =====
-- The runner in a motion: the three phases of the approach to a target, and the manual hold.
use kdt_smaty.Prelude.{ℕ, Bool, true, not, ◌||◌, Option, none, some, leb, dist, if◌then◌else◌}
use kdt_smaty.Desk.Models.{Direction, RelayState, DeskSettings}
use kdt_smaty.Desk.Controller.State.{TargetPhase, ControlState, Controller, Env, Reason, Detail}
use kdt_smaty.Desk.Controller.Task.{
  match_option, rejected, assertion_error, Task, pure, fail, lift, update, with_world, ◌>>◌,
}
use kdt_smaty.Desk.Controller.Guards.{Measured, require_direction_allowed, is_state, direction_to}
use kdt_smaty.Desk.Controller.Motion.{is_direction}
use kdt_smaty.Desk.Controller.Stop.{stop_motion}
use kdt_smaty.Desk.Controller.Wake.{if_generation}
use kdt_smaty.Desk.Controller.Pulse.{not_after, publish_pulse, enter_settling}

-- `next_refresh_at is None or now >= next_refresh_at`
abbrev pub is_due : Option ℕ → ℕ → Bool
is_due none now = true
is_due (some at) now = leb at now

abbrev pub enter_fine : Direction → ℕ → Env → Controller → Controller
enter_fine needed now env c = record c {
  control = record (c.control) {
    target_phase = some TargetPhase.fine;
    direction = some needed;
    updated_at = env.now;
  };
  next_refresh_at = some now;
}

module _ (s : DeskSettings) where
  unfoldable pub fine_cycle : ℕ → Direction → Measured → Task (Unit {0})
  fine_cycle generation needed height = with_world λ w.
      if not_after height.observed_at w.controller.last_fine_observed_at
      then pure tt
      else publish_pulse s generation needed s.fine_hold_ms (some height.observed_at)

  unfoldable pub settling_cycle : ControlState → Direction → Measured → ℕ → Task (Unit {0})
  settling_cycle control needed height now = with_world λ w.
      if not (is_due w.controller.settle_until now)
      then pure tt
      else if not (is_state RelayState.stop w.env.relay.state)
      then fail (rejected Reason.settling_unconfirmed)
      else if_generation control.generation
          (do update (enter_fine needed now); fine_cycle control.generation needed height)

  unfoldable pub continuous_cycle : ControlState → Direction → Measured → ℕ → ℕ → Task (Unit {0})
  continuous_cycle control needed height target now = with_world λ w.
      if leb (dist height.height_cm target) s.fine_approach_distance_cm
        || not (is_direction control.direction needed)
      then enter_settling s control.generation
      else if is_due w.controller.next_refresh_at now
      then publish_pulse s control.generation needed s.continuous_hold_ms none
      else pure tt

  unfoldable pub phase_cycle :
      Option TargetPhase → ControlState → Direction → Measured → ℕ → ℕ → Task (Unit {0})
  phase_cycle none control needed height target now = pure tt
  phase_cycle (some TargetPhase.settling) control needed height target now =
      settling_cycle control needed height now
  phase_cycle (some TargetPhase.continuous) control needed height target now =
      continuous_cycle control needed height target now
  phase_cycle (some TargetPhase.fine) control needed height target now =
      fine_cycle control.generation needed height

  -- `_run_target_cycle`
  unfoldable pub run_target_cycle : ControlState → Measured → ℕ → Task (Unit {0})
  run_target_cycle control height now =
      match_option control.target_height_cm (fail assertion_error) λ target.
        if leb (dist height.height_cm target) s.target_tolerance_cm
        then stop_motion s (Detail.reached target) none
        else do
          let needed = direction_to height.height_cm target
          lift (require_direction_allowed s height.height_cm needed)
          phase_cycle control.target_phase control needed height target now

  unfoldable pub manual_cycle : ControlState → Measured → ℕ → Task (Unit {0})
  manual_cycle control height now =
      match_option control.direction (fail assertion_error) λ direction. do
        lift (require_direction_allowed s height.height_cm direction)
        with_world λ w.
            if is_due w.controller.next_refresh_at now
            then publish_pulse s control.generation direction s.manual_hold_ms none
            else pure tt

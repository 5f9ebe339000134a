-- ===== src/Desk/Controller/Hold.antt =====
-- The commands that hold UP or DOWN, and the user's STOP.
use kdt_smaty.Prelude.{String, not, ◌&&◌, ◌||◌, none, str_eq, if◌then◌else◌, strip}
use kdt_smaty.Desk.Models.{Direction, RelaySnapshot, DeskSettings}
use kdt_smaty.Desk.Controller.State.{MotionMode, Reason, Detail}
use kdt_smaty.Desk.Controller.Task.{
  rejected, Task, pure, fail, lift, update, with_intent_lock, with_world, ◌>>=◌, ◌>>◌,
}
use kdt_smaty.Desk.Controller.Guards.{
  require_running_locked, require_wake_basis, require_height, require_relay_ready,
  require_direction_allowed, admit_wake, admit_motion, is_online, is_moving,
}
use kdt_smaty.Desk.Controller.Stop.{stop_motion, stop_for_transition}
use kdt_smaty.Desk.Controller.Wake.{set_wake_event, cancel_startup_wake_pending_locked, begin_wake}
use kdt_smaty.Desk.Controller.Motion.{
  is_active, is_manual, is_direction, enter_manual, refresh_hold,
}

module _ (s : DeskSettings) where
  unfoldable pub wake_for_hold : Direction → Task (Unit {0})
  wake_for_hold direction = with_world λ w. do
    basis ← lift (require_wake_basis s w.env.height)
    relay ← lift (admit_wake s w.env w.controller)
    lift (require_direction_allowed s basis.height_cm direction)
    begin_wake s (record {
      mode = MotionMode.manual;
      direction = direction;
      target = none;
      basis = basis;
      relay = relay;
      detail = Detail.manual_wake direction;
    })

  -- A hold that another motion or a moving relay precedes stops that first, and checks again.
  unfoldable pub clear_way : Direction → RelaySnapshot → Task RelaySnapshot
  clear_way direction relay = with_world λ w.
      if is_active w.controller.control.mode || is_moving relay.state
      then (do
        stop_for_transition s Detail.manual_stop
        with_world λ v. do
          admitted ← lift (admit_motion s v.env v.controller)
          lift (require_direction_allowed s admitted.0.height_cm direction)
          pure admitted.1)
      else pure relay

  unfoldable pub begin_hold : Direction → RelaySnapshot → Task (Unit {0})
  begin_hold direction relay = do
    checked ← clear_way direction relay
    with_world λ w. lift (require_running_locked w.controller)
    update (enter_manual direction checked)
    set_wake_event

  unfoldable pub hold_online : Direction → Task (Unit {0})
  hold_online direction = with_world λ w. do
    height ← lift (require_height s w.env)
    relay ← lift (require_relay_ready s w.env)
    lift (require_direction_allowed s height.height_cm direction)
    lift (require_running_locked w.controller)
    if is_manual w.controller.control.mode
          && is_direction w.controller.control.direction direction
          && not w.controller.stop_in_progress
        then update (refresh_hold (Detail.manual_holding direction))
        else begin_hold direction relay

  -- `_hold`
  unfoldable pub hold : Direction → Task (Unit {0})
  hold direction = do
    with_world λ w. lift (require_running_locked w.controller)
    cancel_startup_wake_pending_locked
    with_world λ w.
        let control = w.controller.control in
        if control.awaiting_fresh_height
        then (if is_manual control.mode && is_direction control.direction direction
            then update (refresh_hold (Detail.manual_waking direction))
            else fail (rejected Reason.sensor_waking))
        else if is_online w.env.height.status
        then hold_online direction
        else wake_for_hold direction

  unfoldable pub hold_up : Task (Unit {0})
  hold_up = with_intent_lock (hold Direction.up)

  unfoldable pub hold_down : Task (Unit {0})
  hold_down = with_intent_lock (hold Direction.down)

  -- `reason.strip() or "…"`
  unfoldable pub stop_detail : String → Detail
  unfolding strip
  stop_detail reason =
      let text = strip reason in
      if str_eq text "" then Detail.stopped_by_user else Detail.stopped_because text

  -- the public `stop_motion`
  unfoldable pub user_stop_motion : String → Task (Unit {0})
  user_stop_motion reason = with_intent_lock (stop_motion s (stop_detail reason) none)

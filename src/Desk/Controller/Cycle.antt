-- ===== src/Desk/Controller/Cycle.antt =====
-- One round of the runner, and its loop.
use kdt_smaty.Prelude.{
  ℕ, zero, suc, Bool, false, not, ◌&&◌, ◌||◌, Option, none, some, ◌==◌, if◌then◌else◌,
}
use kdt_smaty.Desk.Models.{DeskSettings}
use kdt_smaty.Desk.Controller.State.{MotionMode, ControlState, Reason, call_failed, Detail}
use kdt_smaty.Desk.Controller.Task.{
  match_option, Error, rejected, runtime, Outcome, failed, Task, pure, fail, lift, update, suspend,
  with_world, catch_rejected, ◌>>=◌, ◌>>◌,
}
use kdt_smaty.Desk.Controller.Guards.{require_height, require_relay_ready, is_moving}
use kdt_smaty.Desk.Controller.Motion.{is_target, is_manual}
use kdt_smaty.Desk.Controller.Stop.{stop_motion}
use kdt_smaty.Desk.Controller.Wake.{run_startup_wake_cycle}
use kdt_smaty.Desk.Controller.Pulse.{expired, not_after, evaluate_relay_status}
use kdt_smaty.Desk.Controller.WakeCycle.{run_wake_cycle}
use kdt_smaty.Desk.Controller.TargetCycle.{run_target_cycle, manual_cycle}

abbrev same_time : ℕ → Option ℕ → Bool
same_time received none = false
same_time received (some other) = received == other

module _ (s : DeskSettings) where
  unfoldable pub moving_cycle : ControlState → Task (Unit {0})
  moving_cycle control = with_world λ w. do
    let now = w.env.monotonic
    height ← lift (require_height s w.env)
    relay ← lift (require_relay_ready s w.env)
    if is_target control.mode && expired w.controller.motion_started_at s.target_timeout now
        then fail (rejected Reason.target_timed_out)
        else if is_manual control.mode && expired w.controller.last_hold_at s.manual_watchdog now
        then stop_motion s Detail.hold_lost none
        else do
          evaluate_relay_status s control relay now
          if is_manual control.mode
              then manual_cycle s control height now
              else run_target_cycle s control height now

  -- `_watch_inactive_relay`; its call of `_require_relay_ready` can only raise what it drops
  unfoldable pub watch_inactive_relay : Task (Unit {0})
  watch_inactive_relay = with_world λ w.
      if w.controller.stop_in_progress || not (is_moving w.env.relay.state)
      then pure tt
      else match_option w.env.relay.received_at (pure tt) λ received_at.
        if not_after received_at w.controller.last_stop_baseline_received_at
          || same_time received_at w.controller.last_unexpected_relay_at
        then pure tt
        else do
          update λ _ c. record c { last_unexpected_relay_at = some received_at }
          stop_motion s Detail.outside_motion (some Reason.unexpected_relay_motion)

  unfoldable pub idle_cycle : Task (Unit {0})
  idle_cycle = do woke ← run_startup_wake_cycle s; if woke then pure tt else watch_inactive_relay

  unfoldable pub active_cycle : ControlState → Task (Unit {0})
  active_cycle control =
      catch_rejected
        (if control.awaiting_fresh_height then run_wake_cycle s control else moving_cycle control)
        (λ reason. stop_motion s Detail.unsafe (some reason))

  unfoldable pub cycle_in : MotionMode → ControlState → Task (Unit {0})
  cycle_in MotionMode.none control = idle_cycle
  cycle_in _ control = active_cycle control

  -- `_run_cycle`
  unfoldable pub run_cycle : Task (Unit {0})
  run_cycle = with_world λ w.
      if not w.controller.running || w.controller.closing || w.controller.stop_in_progress
      then pure tt
      else cycle_in w.controller.control.mode w.controller.control

  -- The first rounds of the loop of `_run`.
  unfoldable pub run_rounds : ℕ → Task (Unit {0})
  run_rounds zero = pure tt
  run_rounds (suc n) =
      let next = run_rounds n in
      with_world λ w.
        if not w.controller.running
        then pure tt
        else do run_cycle; _ ← suspend; update λ _ c. record c { wake_event = false }; next

  -- `str(error)`
  abbrev pub error_text : Error → Reason
  error_text (rejected reason) = reason
  error_text (runtime reason) = reason
  error_text _ = call_failed ""

  -- `except Exception` of `_run`: a runner that fails outside a shutdown stops the desk.
  unfoldable pub on_failure : Outcome (Unit {0}) → Task (Unit {0})
  on_failure (failed e) w =
      (if w.controller.closing
          then fail e
          else do stop_motion s Detail.runner_failed (some (error_text e)); fail e)
        w
  on_failure o w = (o, w)

  unfoldable pub run : ℕ → Task (Unit {0})
  run rounds w = let (o, w') = run_rounds rounds w in on_failure o w'

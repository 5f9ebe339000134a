-- ===== src/Desk/Controller/Sends/Commands.antt =====
-- What the runner and the commands of a user send.
use kdt_smaty.Prelude.{ℕ, Bool, Option, none, some}
use kdt_smaty.Desk.Models.{Direction, RelaySnapshot, DeskSettings}
use kdt_smaty.Desk.Controller.State.{MotionMode, ControlState, Reason, Detail}
use kdt_smaty.Desk.Controller.Task.{Error, Sent}
use kdt_smaty.Desk.Controller.Guards.{Measured, Value}
use kdt_smaty.Desk.Controller.Wake.{
  set_startup_sensor_check_needed, register_startup_wake, begin_startup_wake, retry_startup_wake,
  run_startup_wake_cycle,
}
use kdt_smaty.Desk.Controller.Motion.{Found, same, waking, free}
use kdt_smaty.Desk.Controller.Target.{
  reject_request, set_sensor_check_needed, wake_for_target, move_to_target, retarget, proceed,
  set_valid_target, set_target_unlocked, adjust_target,
}
use kdt_smaty.Desk.Controller.Hold.{wake_for_hold, clear_way, begin_hold, hold_online, hold}
use kdt_smaty.Desk.Controller.Pulse.{
  record_pulse_failure, after_pulse, after_settling_stop, enter_settling, judge_status,
  judge_received, evaluate_relay_status,
}
use kdt_smaty.Desk.Controller.WakeCycle.{
  activate_after_wake, assert_height, after_newer_height, run_wake_cycle,
}
use kdt_smaty.Desk.Controller.Cycle.{watch_inactive_relay, idle_cycle}
use kdt_smaty.Desk.Controller.Lifecycle.{after_start, start_created, end_runner}
use kdt_smaty.Desk.Controller.Rules.{Holds, Holds-pure, Holds-with_world, Holds-bind, holds_rules}
use kdt_smaty.Desk.Controller.Sends.{
  IsQuiet, AllSent, send_rules, send_publish, send_stop_bounded_lem, send_confirm_stop,
  send_stop_motion, send_stop_for_transition, send_if_generation, send_begin_wake, send_update,
  send_suspend, send_run_task, send_intent_lock, send_relay_io_lock,
}

module _ (Q : Sent → Type 0) (quiet : (x : Sent) → IsQuiet x.command → Q x) (s : DeskSettings) where
  pub ruleset stops = (
    holds_rules, send_update, send_suspend, send_run_task, send_intent_lock, send_relay_io_lock,
    send_stop_motion, send_stop_for_transition, send_if_generation, send_begin_wake,
  )

  send_set_startup_sensor_check_needed :
      (r : Reason) → Holds (AllSent Q) (set_startup_sensor_check_needed s r)
  unfolding set_startup_sensor_check_needed
  send_set_startup_sensor_check_needed r = search stops depth 30

  send_register_startup_wake : Holds (AllSent Q) (register_startup_wake s)
  unfolding register_startup_wake
  send_register_startup_wake = search (stops, send_set_startup_sensor_check_needed) depth 30

  send_begin_startup_wake :
      (b : Measured) (r : RelaySnapshot) → Holds (AllSent Q) (begin_startup_wake s b r)
  unfolding begin_startup_wake
  send_begin_startup_wake b r = search (stops, send_set_startup_sensor_check_needed) depth 30

  send_retry_startup_wake : (d : ℕ) → Holds (AllSent Q) (retry_startup_wake s d)
  unfolding retry_startup_wake
  send_retry_startup_wake d =
      search (stops, send_set_startup_sensor_check_needed, send_begin_startup_wake) depth 30

  pub send_run_startup_wake_cycle : Holds (AllSent Q) (run_startup_wake_cycle s)
  unfolding run_startup_wake_cycle
  send_run_startup_wake_cycle = search (stops, send_retry_startup_wake) depth 30

  send_reject_request : (d : Detail) (e : Error) → Holds (AllSent Q) (reject_request s d e)
  unfolding reject_request
  send_reject_request d e = search stops depth 30

  send_set_sensor_check_needed : (t : ℕ) → Holds (AllSent Q) (set_sensor_check_needed s t)
  unfolding set_sensor_check_needed
  send_set_sensor_check_needed t = search stops depth 30

  send_wake_for_target : (t : ℕ) → Holds (AllSent Q) (wake_for_target s t)
  unfolding wake_for_target
  send_wake_for_target t = search (stops, send_set_sensor_check_needed) depth 30

  send_move_to_target : (t : ℕ) → Holds (AllSent Q) (move_to_target s t)
  unfolding move_to_target
  send_move_to_target t = search stops depth 30

  send_retarget : (t : ℕ) → Holds (AllSent Q) (retarget s t)
  unfolding retarget
  send_retarget t = search (stops, send_wake_for_target, send_move_to_target) depth 30

  send_proceed : (t : ℕ) (f : Found) → Holds (AllSent Q) (proceed s t f)
  unfolding proceed
  send_proceed t same = search stops depth 30
  send_proceed t waking = search stops depth 30
  send_proceed t free = search (stops, send_retarget) depth 30

  send_set_valid_target : (t : ℕ) → Holds (AllSent Q) (set_valid_target s t)
  unfolding set_valid_target
  send_set_valid_target t = search (stops, send_proceed) depth 30

  pub send_set_target_unlocked : (v : Value) → Holds (AllSent Q) (set_target_unlocked s v)
  unfolding set_target_unlocked
  send_set_target_unlocked v = search (stops, send_set_valid_target, send_reject_request) depth 30

  pub send_adjust_target : (v : Value) (b : Bool) → Holds (AllSent Q) (adjust_target s v b)
  unfolding adjust_target
  send_adjust_target v b = search (stops, send_set_target_unlocked, send_reject_request) depth 30

  send_wake_for_hold : (d : Direction) → Holds (AllSent Q) (wake_for_hold s d)
  unfolding wake_for_hold
  send_wake_for_hold d = search stops depth 30

  send_clear_way : (d : Direction) (r : RelaySnapshot) → Holds (AllSent Q) (clear_way s d r)
  unfolding clear_way
  send_clear_way d r = search stops depth 30

  send_begin_hold : (d : Direction) (r : RelaySnapshot) → Holds (AllSent Q) (begin_hold s d r)
  unfolding begin_hold
  send_begin_hold d r = search (stops, send_clear_way) depth 30

  send_hold_online : (d : Direction) → Holds (AllSent Q) (hold_online s d)
  unfolding hold_online
  send_hold_online d = search (stops, send_begin_hold) depth 30

  pub send_hold : (d : Direction) → Holds (AllSent Q) (hold s d)
  unfolding hold
  send_hold d = search (stops, send_hold_online, send_wake_for_hold) depth 30

  send_after_settling_stop : (e : Option Reason) → Holds (AllSent Q) (after_settling_stop s e)
  unfolding after_settling_stop
  send_after_settling_stop none = search stops depth 30
  send_after_settling_stop (some e) = search stops depth 30

  pub send_enter_settling : (g : ℕ) → Holds (AllSent Q) (enter_settling s g)
  unfolding enter_settling
  send_enter_settling g = search (stops, send_stop_bounded_lem, send_after_settling_stop) depth 30

  send_judge_status :
      (d : Direction) (r : RelaySnapshot) (n : ℕ) → Holds (AllSent Q) (judge_status s d r n)
  unfolding judge_status
  send_judge_status d r n = search stops depth 30

  send_judge_received :
      (d : Direction) (r : RelaySnapshot) (t n : ℕ) → Holds (AllSent Q) (judge_received s d r t n)
  unfolding judge_received
  send_judge_received d r t n = search (stops, send_judge_status) depth 30

  pub send_evaluate_relay_status :
      (c : ControlState) (r : RelaySnapshot) (n : ℕ)
      → Holds (AllSent Q) (evaluate_relay_status s c r n)
  unfolding evaluate_relay_status
  send_evaluate_relay_status c r n = search (stops, send_judge_received) depth 30

  send_activate_after_wake :
      (m : MotionMode) (c : ControlState) (h : ℕ) (r : RelaySnapshot) (n : ℕ)
      → Holds (AllSent Q) (activate_after_wake s m c h r n)
  unfolding activate_after_wake
  send_activate_after_wake MotionMode.wake c h r n = search stops depth 30
  send_activate_after_wake MotionMode.manual c h r n = search stops depth 30
  send_activate_after_wake MotionMode.none c h r n = search stops depth 30
  send_activate_after_wake MotionMode.target c h r n = search stops depth 30

  send_assert_height :
      (c : ControlState) (o : Option ℕ) (r : RelaySnapshot) (n : ℕ)
      → Holds (AllSent Q) (assert_height s c o r n)
  send_assert_height c none r n = search stops depth 30
  send_assert_height c (some h) r n = search (stops, send_activate_after_wake) depth 30

  send_after_newer_height :
      (c : ControlState) (o : Option (Option ℕ)) (n : ℕ)
      → Holds (AllSent Q) (after_newer_height s c o n)
  unfolding after_newer_height
  send_after_newer_height c none n = search stops depth 30
  send_after_newer_height c (some h) n = search (stops, send_assert_height) depth 30

  pub send_run_wake_cycle : (c : ControlState) → Holds (AllSent Q) (run_wake_cycle s c)
  unfolding run_wake_cycle
  send_run_wake_cycle c = search (stops, send_after_newer_height) depth 30

  send_watch_inactive_relay : Holds (AllSent Q) (watch_inactive_relay s)
  unfolding watch_inactive_relay
  send_watch_inactive_relay = search stops depth 30

  pub send_idle_cycle : Holds (AllSent Q) (idle_cycle s)
  unfolding idle_cycle
  send_idle_cycle = search (stops, send_run_startup_wake_cycle, send_watch_inactive_relay) depth 30

  pub send_end_runner : Holds (AllSent Q) (end_runner)
  unfolding end_runner
  send_end_runner = search stops depth 30

  send_after_start : (e : Option Reason) → Holds (AllSent Q) (after_start s e)
  unfolding after_start
  send_after_start none = search (stops, send_register_startup_wake) depth 30
  send_after_start (some e) = search stops depth 30

  pub send_start_created : Holds (AllSent Q) (start_created s)
  unfolding start_created
  send_start_created =
      search (stops, send_after_start, send_confirm_stop, send_stop_bounded_lem) depth 30

  send_record_pulse_failure : (g : ℕ) (r : Reason) → Holds (AllSent Q) (record_pulse_failure s g r)
  unfolding record_pulse_failure
  send_record_pulse_failure g r = search (stops) depth 30

  pub send_after_pulse :
      (g ms : ℕ) (o : Option ℕ) (t : ℕ) (e : Option (Option Reason))
      → Holds (AllSent Q) (after_pulse s g ms o t e)
  unfolding after_pulse
  send_after_pulse g ms o t none = search stops depth 30
  send_after_pulse g ms o t (some none) = search stops depth 30
  send_after_pulse g ms o t (some (some e)) = search (stops, send_record_pulse_failure) depth 30

-- ===== src/Desk/Controller/Sends/Pulses.antt =====
-- What the runner sends in a motion, and what a whole session sends, if the property holds of each
-- pulse that passed the test under the relay lock.
use kdt_smaty.Prelude.{
  ℕ, zero, suc, ◌≤◌, true, not, ◌&&◌, ◌≡◌, refl, Option, none, some, inl, inr, Bool-cases, arith,
  leb,
}
use kdt_smaty.Desk.Models.{Direction, DeskSettings}
use kdt_smaty.Desk.Relay
use kdt_smaty.Desk.Relay.{pulse_message}
use kdt_smaty.Desk.Controller.State.{MotionMode, TargetPhase, ControlState, Reason, Detail}
use kdt_smaty.Desk.Controller.Task.{Outcome, returned, failed, pending, Sent, World, call_for, pure}
use kdt_smaty.Desk.Controller.Guards.{Measured}
use kdt_smaty.Desk.Controller.Target.{
  reject_request, set_sensor_check_needed, wake_for_target, move_to_target, retarget, proceed,
  set_valid_target, set_target_unlocked, adjust_target,
}
use kdt_smaty.Desk.Controller.Target
use kdt_smaty.Desk.Controller.Hold.{wake_for_hold, clear_way, begin_hold, hold_online, hold}
use kdt_smaty.Desk.Controller.Hold
use kdt_smaty.Desk.Controller.Pulse.{pulse_allowed, guarded_pulse, publish_pulse}
use kdt_smaty.Desk.Controller.TargetCycle.{
  fine_cycle, settling_cycle, continuous_cycle, phase_cycle, run_target_cycle, manual_cycle,
}
use kdt_smaty.Desk.Controller.Cycle
use kdt_smaty.Desk.Controller.Cycle.{
  moving_cycle, watch_inactive_relay, idle_cycle, active_cycle, cycle_in, run_rounds, on_failure,
  error_text,
}
use kdt_smaty.Desk.Controller.Lifecycle
use kdt_smaty.Desk.Controller.Lifecycle.{after_start, start_created, end_runner, raise_error}
use kdt_smaty.Desk.Controller.Session
use kdt_smaty.Desk.Controller.Session.{Operation, perform, session}
use kdt_smaty.Desk.Controller.Rules.{
  Holds, Holds-pure, Holds-fail, Holds-if, Holds-world, bind_from, Holds-with_world, Holds-bind,
}
use kdt_smaty.Desk.Controller.Sends.{
  IsQuiet, AllSent, send_publish, send_stop_bounded_lem, send_stop_motion, send_update,
  send_suspend,
}
use kdt_smaty.Desk.Controller.Sends.Commands.{
  stops, send_set_target_unlocked, send_adjust_target, send_hold, send_enter_settling,
  send_evaluate_relay_status, send_run_wake_cycle, send_idle_cycle, send_end_runner,
  send_start_created, send_after_pulse,
}

-- A pulse of 50 to 500 ms, asked for the motion of this generation, that has passed the test.
abbrev pub IsCurrent : ℕ → Sent → Type 0
IsCurrent generation x = elim x.command [
  | pulse_message direction hold_ms ↦
      (x.asked ≡ some generation)
      × (pulse_allowed generation direction x.controller ≡ true)
      × (50 ≤ hold_ms)
      × (hold_ms ≤ 500)
  | _ ↦ ⊥
]

module _ (Q : Sent → Type 0) (quiet : (x : Sent) → IsQuiet x.command → Q x)
    (current : (generation : ℕ) (x : Sent) → IsCurrent generation x → Q x) (s : DeskSettings) where
  send_pulse :
      (g : ℕ) (d : Direction) (ms : ℕ) (w : World)
      → pulse_allowed g d w.controller ≡ true
      → AllSent Q w
      → AllSent Q (call_for (some g) (Relay.pulse d ms) w).1
  unfolding Relay.pulse
  send_pulse g d ms w allowed h = elim (Bool-cases (leb 50 ms && leb ms 500)) [
    | inl fits ↦ rw fits (
        send_publish Q quiet (some g) (pulse_message d ms) w
          (current g _ (refl, allowed, ground arith, ground arith), h))
    | inr not_fits ↦ rw not_fits (unfold call_for pure in h)
  ]

  send_guarded_pulse : (g : ℕ) (d : Direction) (ms : ℕ) → Holds (AllSent Q) (guarded_pulse s g d ms)
  unfolding guarded_pulse
  send_guarded_pulse g d ms = Holds-world _ λ w h.
      elim (Bool-cases (pulse_allowed g d w.controller)) [
        | inl allowed ↦ rw allowed (
            bind_from {P = AllSent Q} (call_for (some g) (Relay.pulse d ms)) (λ e. pure (some e)) w
              (send_pulse g d ms w allowed h) (λ e. Holds-pure (some e)))
        | inr refused ↦ rw refused (unfold pure in h)
      ]

  send_publish_pulse :
      (g : ℕ) (d : Direction) (ms : ℕ) (o : Option ℕ) → Holds (AllSent Q) (publish_pulse s g d ms o)
  unfolding publish_pulse
  send_publish_pulse g d ms o = search (stops, send_guarded_pulse, send_after_pulse) depth 30

  send_fine_cycle : (g : ℕ) (d : Direction) (h : Measured) → Holds (AllSent Q) (fine_cycle s g d h)
  unfolding fine_cycle
  send_fine_cycle g d h = search (stops, send_publish_pulse) depth 30

  send_settling_cycle :
      (c : ControlState) (d : Direction) (h : Measured) (n : ℕ)
      → Holds (AllSent Q) (settling_cycle s c d h n)
  unfolding settling_cycle
  send_settling_cycle c d h n = search (stops, send_fine_cycle) depth 30

  send_continuous_cycle :
      (c : ControlState) (d : Direction) (h : Measured) (t n : ℕ)
      → Holds (AllSent Q) (continuous_cycle s c d h t n)
  unfolding continuous_cycle
  send_continuous_cycle c d h t n = search (stops, send_publish_pulse, send_enter_settling) depth 30

  send_phase_cycle :
      (p : Option TargetPhase) (c : ControlState) (d : Direction) (h : Measured) (t n : ℕ)
      → Holds (AllSent Q) (phase_cycle s p c d h t n)
  unfolding phase_cycle
  send_phase_cycle none c d h t n =
      search (stops, send_fine_cycle, send_settling_cycle, send_continuous_cycle) depth 30
  send_phase_cycle (some TargetPhase.settling) c d h t n =
      search (stops, send_fine_cycle, send_settling_cycle, send_continuous_cycle) depth 30
  send_phase_cycle (some TargetPhase.continuous) c d h t n =
      search (stops, send_fine_cycle, send_settling_cycle, send_continuous_cycle) depth 30
  send_phase_cycle (some TargetPhase.fine) c d h t n =
      search (stops, send_fine_cycle, send_settling_cycle, send_continuous_cycle) depth 30

  send_run_target_cycle :
      (c : ControlState) (h : Measured) (n : ℕ) → Holds (AllSent Q) (run_target_cycle s c h n)
  unfolding run_target_cycle
  send_run_target_cycle c h n = search (stops, send_phase_cycle) depth 30

  send_manual_cycle :
      (c : ControlState) (h : Measured) (n : ℕ) → Holds (AllSent Q) (manual_cycle s c h n)
  unfolding manual_cycle
  send_manual_cycle c h n = search (stops, send_publish_pulse) depth 30

  send_moving_cycle : (c : ControlState) → Holds (AllSent Q) (moving_cycle s c)
  unfolding moving_cycle
  send_moving_cycle c =
      search (stops, send_evaluate_relay_status, send_manual_cycle, send_run_target_cycle) depth 30

  send_active_cycle : (c : ControlState) → Holds (AllSent Q) (active_cycle s c)
  unfolding active_cycle
  send_active_cycle c = search (stops, send_run_wake_cycle, send_moving_cycle) depth 30

  pub send_cycle_in : (m : MotionMode) (c : ControlState) → Holds (AllSent Q) (cycle_in s m c)
  unfolding cycle_in
  send_cycle_in MotionMode.none c = search (stops, send_idle_cycle, send_active_cycle) depth 30
  send_cycle_in MotionMode.wake c = search (stops, send_idle_cycle, send_active_cycle) depth 30
  send_cycle_in MotionMode.target c = search (stops, send_idle_cycle, send_active_cycle) depth 30
  send_cycle_in MotionMode.manual c = search (stops, send_idle_cycle, send_active_cycle) depth 30

  send_run_cycle : Holds (AllSent Q) (Cycle.run_cycle s)
  unfolding Cycle.run_cycle
  send_run_cycle = search (stops, send_cycle_in) depth 30

  send_run_rounds : (n : ℕ) → Holds (AllSent Q) (run_rounds s n)
  unfolding run_rounds
  send_run_rounds zero = search (stops, send_run_cycle) depth 30
  send_run_rounds (suc n) = Holds-with_world _ λ w.
      Holds-if (not w.controller.running) _ _ (Holds-pure _) (
        Holds-bind _ _ send_run_cycle λ _.
          Holds-bind _ _ (send_suspend Q quiet)
            λ _. Holds-bind _ _ (send_update Q quiet _) λ _. send_run_rounds n)

  send_on_failure :
      (o : Outcome (Unit {0})) (w : World) → AllSent Q w → AllSent Q (on_failure s o w).1
  unfolding on_failure
  send_on_failure (failed e) w h =
      (let k : Holds (AllSent Q) _ = Holds-if w.controller.closing _ _ (Holds-fail e) (
            Holds-bind _ _ (send_stop_motion Q quiet s Detail.runner_failed (some (error_text s e)))
              (λ _. Holds-fail e)) in
          k).at
        w h
  send_on_failure (returned a) w h = h
  send_on_failure pending w h = h

  send_raise_error : (e : Option Reason) → Holds (AllSent Q) (raise_error e)
  send_raise_error none = search stops depth 30
  send_raise_error (some e) = search stops depth 30

  pub send_perform : (op : Operation) → Holds (AllSent Q) (perform s op)
  unfolding perform Target.set_target Target.increase_target Target.decrease_target Hold.hold_up
      Hold.hold_down Hold.user_stop_motion Lifecycle.start Lifecycle.stop Cycle.run
  send_perform (Session.set_target v) = search (stops, send_set_target_unlocked) depth 30
  send_perform (Session.increase_target v) = search (stops, send_adjust_target) depth 30
  send_perform (Session.decrease_target v) = search (stops, send_adjust_target) depth 30
  send_perform Session.hold_up = search (stops, send_hold) depth 30
  send_perform Session.hold_down = search (stops, send_hold) depth 30
  send_perform (Session.stop_motion r) = search stops depth 30
  send_perform (Session.start e) = search (stops, send_start_created) depth 30
  send_perform Session.stop =
      search (stops, send_end_runner, send_stop_bounded_lem, send_raise_error) depth 30
  send_perform Session.run_cycle = send_run_cycle
  send_perform (Session.run n) = record {
    at = λ w h.
        send_on_failure (run_rounds s n w).0 (run_rounds s n w).1 ((send_run_rounds n).at w h);
  }

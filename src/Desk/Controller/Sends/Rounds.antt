-- ===== src/Desk/Controller/Sends/Rounds.antt =====
-- The rounds of the runner, with the height that each has read.
use kdt_smaty.Prelude.{ℕ, false, ◌≡◌, Option, none, some, All, refl}
use kdt_smaty.Desk.Models.{Direction, DeskSettings}
use kdt_smaty.Desk.Controller.State.{MotionMode, TargetPhase, ControlState, Env, Detail}
use kdt_smaty.Desk.Controller.Task.{ok, World, pure, with_world, assertion_error}
use kdt_smaty.Desk.Controller.Guards.{
  direction_to, Measured, require_height, require_relay_ready, require_direction_allowed,
}
use kdt_smaty.Desk.Controller.Pulse.{publish_pulse}
use kdt_smaty.Desk.Controller.TargetCycle.{
  enter_fine, fine_cycle, settling_cycle, continuous_cycle, phase_cycle, run_target_cycle,
  manual_cycle,
}
use kdt_smaty.Desk.Controller.Guards.Facts.{require_height-ok, require_direction_allowed-ok}
use kdt_smaty.Desk.Controller.WakeCycle.{run_wake_cycle}
use kdt_smaty.Desk.Controller.Cycle.{run_cycle, moving_cycle, active_cycle, cycle_in}
use kdt_smaty.Desk.Controller.Rules.{Holds-pure, Holds-fail}
use kdt_smaty.Desk.Controller.Sends.{AllSent, send_stop_motion}
use kdt_smaty.Desk.Controller.Sends.Commands.{
  send_enter_settling, send_run_wake_cycle, send_idle_cycle,
}
use kdt_smaty.Desk.Controller.Leads.{
  Leads, Leads-Holds, Leads-bind, Leads-checked, Leads-option, Leads-if, Leads-world, Leads-catch,
  Leads-if_generation,
}
use kdt_smaty.Desk.Controller.Sends.Grounded.{
  Allows, IsGrounded, quiet_grounded, Unbroken, grounded_publish, weaken, Unbroken-update,
  Unbroken-evaluate, quiet-Holds,
}

module _ (s : DeskSettings) where
  module _ (env : Env) where
    module _ (d : Direction) (allows : Allows s env d) (height : Measured) where
      publishes :
          (g ms : ℕ) (o : Option ℕ)
          → Leads (Unbroken s env) (AllSent (IsGrounded s)) (publish_pulse s g d ms o)
      publishes g ms o = grounded_publish s env d allows g ms o

      nothing : Leads (Unbroken s env) (AllSent (IsGrounded s)) (pure tt)
      nothing = quiet-Holds s env _ (Holds-pure tt)

      grounded_fine :
          (g : ℕ) → Leads (Unbroken s env) (AllSent (IsGrounded s)) (fine_cycle s g d height)
      unfolding fine_cycle
      grounded_fine g = Leads-world _ λ w u.
          (Leads-if _ _ _ nothing (publishes g s.fine_hold_ms (some height.observed_at))).from w u

      grounded_settling :
          (c : ControlState) (n : ℕ)
          → Leads (Unbroken s env) (AllSent (IsGrounded s)) (settling_cycle s c d height n)
      unfolding settling_cycle
      grounded_settling c n = Leads-world _ λ w u.
          (Leads-if _ _ _ nothing (
              Leads-if _ _ _ (quiet-Holds s env _ (Holds-fail _)) (
                Leads-if_generation (weaken s env) c.generation _ (
                  Leads-bind (weaken s env) _ _ (Unbroken-update s env (enter_fine d n) (λ c. refl))
                    (λ x. grounded_fine c.generation))))).from
            w u

      grounded_continuous :
          (c : ControlState) (target n : ℕ)
          → Leads (Unbroken s env) (AllSent (IsGrounded s)) (continuous_cycle s c d height target n)
      unfolding continuous_cycle
      grounded_continuous c target n = Leads-world _ λ w u.
          (Leads-if _ _ _
              (quiet-Holds s env _
                (send_enter_settling (IsGrounded s) (quiet_grounded s) s c.generation))
              (Leads-if _ _ _ (publishes c.generation s.continuous_hold_ms none) nothing)).from
            w u

      grounded_phase :
          (p : Option TargetPhase) (c : ControlState) (target n : ℕ)
          → Leads (Unbroken s env) (AllSent (IsGrounded s)) (phase_cycle s p c d height target n)
      unfolding phase_cycle pure
      grounded_phase none c target n = nothing
      grounded_phase (some TargetPhase.settling) c target n = grounded_settling c n
      grounded_phase (some TargetPhase.continuous) c target n = grounded_continuous c target n
      grounded_phase (some TargetPhase.fine) c target n = grounded_fine c.generation

    allowed :
        (d : Direction) (height : Measured)
        → require_height s env ≡ ok height
        → require_direction_allowed s height.height_cm d ≡ ok tt
        → Allows s env d
    allowed d height read e =
        let f = require_height-ok s env height read in
        (height, f.0, f.1, require_direction_allowed-ok s height.height_cm d e)

    module _ (height : Measured) (read : require_height s env ≡ ok height) where
      grounded_target :
          (c : ControlState) (n : ℕ)
          → Leads (Unbroken s env) (AllSent (IsGrounded s)) (run_target_cycle s c height n)
      unfolding run_target_cycle
      grounded_target c n =
          Leads-option (weaken s env) c.target_height_cm assertion_error _ λ target.
            Leads-if _ _ _
              (quiet-Holds s env _
                (send_stop_motion (IsGrounded s) (quiet_grounded s) s (Detail.reached target) none))
              (let needed = direction_to height.height_cm target in
                Leads-checked (weaken s env) (require_direction_allowed s height.height_cm needed) _
                  λ x e.
                    grounded_phase needed (allowed needed height read e) height c.target_phase c
                      target n)

      grounded_manual :
          (c : ControlState) (n : ℕ)
          → Leads (Unbroken s env) (AllSent (IsGrounded s)) (manual_cycle s c height n)
      unfolding manual_cycle
      grounded_manual c n = Leads-option (weaken s env) c.direction assertion_error _ λ d.
          Leads-checked (weaken s env) (require_direction_allowed s height.height_cm d) _ λ x e.
            Leads-world _ λ w u.
              (Leads-if _ _ _
                  (publishes d (allowed d height read e) height c.generation s.manual_hold_ms none)
                  (quiet-Holds s env _ (Holds-pure tt))).from
                w u

  -- A round starts with the relay lock free.
  abbrev Ready : World → Type 0
  Ready w = (w.controller.relay_io_lock ≡ false) × AllSent (IsGrounded s) w

  grounded_moving :
      (c : ControlState) (w : World) → Ready w → AllSent (IsGrounded s) (moving_cycle s c w).1
  unfolding moving_cycle with_world
  grounded_moving c w ready =
      (Leads-checked (weaken s w.env) (require_height s w.env) _ λ height read.
          Leads-checked (weaken s w.env) (require_relay_ready s w.env) _ λ relay accepted.
            Leads-if _ _ _ (quiet-Holds s w.env _ (Holds-fail _)) (
              Leads-if _ _ _
                (quiet-Holds s w.env _
                  (send_stop_motion (IsGrounded s) (quiet_grounded s) s Detail.hold_lost none))
                (Leads-bind (weaken s w.env) _ _ (Unbroken-evaluate s w.env c relay w.env.monotonic)
                  λ x.
                    Leads-if _ _ _ (grounded_manual w.env height read c w.env.monotonic)
                      (grounded_target w.env height read c w.env.monotonic)))).from
        w (record { log = ready.1; same = refl; free = ready.0 })

  grounded_active : (c : ControlState) → Leads Ready (AllSent (IsGrounded s)) (active_cycle s c)
  unfolding active_cycle
  grounded_active c =
      Leads-catch _ _
        (Leads-if c.awaiting_fresh_height (run_wake_cycle s c) (moving_cycle s c)
          (Leads-Holds (λ w h. h.1) _ (send_run_wake_cycle (IsGrounded s) (quiet_grounded s) s c))
          (record { from = grounded_moving c }))
        (λ reason. send_stop_motion (IsGrounded s) (quiet_grounded s) s Detail.unsafe (some reason))

  grounded_cycle_in :
      (m : MotionMode) (c : ControlState) → Leads Ready (AllSent (IsGrounded s)) (cycle_in s m c)
  unfolding cycle_in
  grounded_cycle_in MotionMode.none c =
      Leads-Holds (λ w h. h.1) _ (send_idle_cycle (IsGrounded s) (quiet_grounded s) s)
  grounded_cycle_in MotionMode.target c = grounded_active c
  grounded_cycle_in MotionMode.manual c = grounded_active c
  grounded_cycle_in MotionMode.wake c = grounded_active c

  grounded_run_cycle : Leads Ready (AllSent (IsGrounded s)) (run_cycle s)
  unfolding run_cycle
  grounded_run_cycle = Leads-world _ λ w ready.
      (Leads-if _ _ _ (Leads-Holds (λ u h. h.1) _ (Holds-pure tt))
          (grounded_cycle_in w.controller.control.mode w.controller.control)).from
        w ready

-- If nobody holds the relay lock when a round of the runner begins and the pulses sent before were
-- grounded, so is each pulse that the round sends: when it goes out the height sensor is online, its
-- reading lies in the measuring range, and the desk is before the operating limit in its direction.
pub run_cycle-IsGrounded :
    (s : DeskSettings) (w : World)
    → w.controller.relay_io_lock ≡ false
    → All (IsGrounded s) w.sent
    → All (IsGrounded s) (run_cycle s w).1.sent
run_cycle-IsGrounded s w free log = (grounded_run_cycle s).from w (free, log)

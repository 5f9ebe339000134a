-- ===== src/Desk/Controller/Sends/Grounded.antt =====
-- On what ground the runner sends a pulse: the height that its round has read.
use kdt_smaty.Prelude.{
  ℕ, true, false, ◌≡◌, Option, some, inl, inr, Bool-cases, leb, ◌&&◌, sym, subst, ◌∙◌,
}
use kdt_smaty.Desk.Models.{HeightStatus, Direction, RelaySnapshot, DeskSettings}
use kdt_smaty.Desk.Relay
use kdt_smaty.Desk.Relay.{
  Command, pulse_message, wake_message, stop_message, Checked, publish, refuse,
}
use kdt_smaty.Desk.Controller.State.{ControlState, Controller, Env}
use kdt_smaty.Desk.Controller.Task.{
  Outcome, returned, failed, pending, Sent, World, Task, pure, gets, update, with_world, call_for,
  with_relay_io_lock, released, has_relay_io_lock, set_relay_io_lock, ◌>>=◌,
}
use kdt_smaty.Desk.Controller.Guards.{Measured}
use kdt_smaty.Desk.Controller.Pulse.{
  pulse_allowed, guarded_pulse, after_pulse, publish_pulse, judge_status, judge_received,
  evaluate_relay_status,
}
use kdt_smaty.Desk.Controller.Guards.Facts.{Measures, BeforeLimit}
use kdt_smaty.Desk.Controller.Rules.{
  Holds, Holds-pure, Holds-update, Holds-with_world, bind_from, holds_rules,
}
use kdt_smaty.Desk.Controller.Stop.Outcome.{with_relay_io_lock-free}
use kdt_smaty.Desk.Controller.Sends.{IsQuiet, AllSent, send_publish}
use kdt_smaty.Desk.Controller.Sends.Commands.{send_after_pulse}
use kdt_smaty.Desk.Controller.Leads.{Leads, Leads-Holds}

module _ (s : DeskSettings) where
  -- A height that was read, and from which the desk may move on in the direction.
  abbrev pub Allows : Env → Direction → Type 0
  Allows env direction =
      (height : Measured) × (env.height.status ≡ HeightStatus.online)
      × Measures s env.height height
      × BeforeLimit s direction height.height_cm

  abbrev pub IsGrounded : Sent → Type 0
  IsGrounded x = elim x.command [
    | pulse_message direction hold_ms ↦ Allows x.env direction
    | _ ↦ Unit
  ]

  pub quiet_grounded : (x : Sent) → IsQuiet x.command → IsGrounded x
  quiet_grounded x = of x.command
    where
      of : (c : Command) → IsQuiet c → elim c as (λ y. Type 0) [
        | pulse_message direction hold_ms ↦ Allows x.env direction
        | _ ↦ Unit
      ]
      of (pulse_message d ms) h = absurd h
      of (wake_message d ms b) h = tt
      of stop_message h = tt

  -- The round has not been suspended yet, and nobody holds the relay lock.
  pub record Unbroken (env : Env) (w : World) : Type 0 where
    pub log : AllSent IsGrounded w
    pub same : w.env ≡ env
    pub free : w.controller.relay_io_lock ≡ false

  released_log :
      {A : Type 0} (o : Outcome A) (w : World)
      → AllSent IsGrounded w
      → AllSent IsGrounded (released has_relay_io_lock set_relay_io_lock (o, w)).1
  unfolding released
  released_log (returned a) w h = h
  released_log (failed e) w h = h
  released_log pending w h = h

  module _ (env : Env) (d : Direction) (allows : Allows env d) where
    grounded_call :
        (asked : Option ℕ) (ms : ℕ) (w : World)
        → w.env ≡ env
        → AllSent IsGrounded w
        → AllSent IsGrounded (call_for asked (Relay.pulse d ms) w).1
    unfolding Relay.pulse
    grounded_call asked ms w same h = elim (Bool-cases (leb 50 ms && leb ms 500)) [
      | inl fits ↦ rw fits (
          send_publish IsGrounded quiet_grounded asked (pulse_message d ms) w
            (subst (λ e. Allows e d) (sym same) allows, h))
      | inr not_fits ↦ rw not_fits (unfold call_for pure in h)
    ]

    grounded_guarded :
        (g ms : ℕ) (w : World)
        → w.env ≡ env
        → AllSent IsGrounded w
        → AllSent IsGrounded (guarded_pulse s g d ms w).1
    unfolding guarded_pulse with_world
    grounded_guarded g ms w same h = elim (Bool-cases (pulse_allowed g d w.controller)) [
      | inl allowed ↦ rw allowed (
          bind_from {P = AllSent IsGrounded} (call_for (some g) (Relay.pulse d ms))
            (λ e. pure (some e)) w (grounded_call (some g) ms w same h) (λ e. Holds-pure (some e)))
      | inr refused ↦ rw refused (unfold pure in h)
    ]

    pub grounded_publish :
        (g ms : ℕ) (o : Option ℕ)
        → Leads (Unbroken env) (AllSent IsGrounded) (publish_pulse s g d ms o)
    unfolding publish_pulse gets ◌>>=◌
    grounded_publish g ms o = record {
      from = λ w u.
          let locked = record w { controller = set_relay_io_lock true w.controller } in
          bind_from {P = AllSent IsGrounded} (with_relay_io_lock (guarded_pulse s g d ms))
            (after_pulse s g ms o w.env.monotonic) w
            (subst (λ r. AllSent IsGrounded r.1)
              (sym (with_relay_io_lock-free (guarded_pulse s g d ms) w u.free))
              (released_log (guarded_pulse s g d ms locked).0 (guarded_pulse s g d ms locked).1
                (grounded_guarded g ms locked u.same u.log)))
            (λ e. send_after_pulse IsGrounded quiet_grounded s g ms o w.env.monotonic e);
    }

  module _ (env : Env) where
    pub weaken : (w : World) → Unbroken env w → AllSent IsGrounded w
    weaken w u = u.log

    pub Unbroken-update :
        (f : Env → Controller → Controller)
        → ((c : Controller) → (f env c).relay_io_lock ≡ c.relay_io_lock)
        → Holds (Unbroken env) (update f)
    Unbroken-update f keeps = Holds-update f λ w u. record {
      log = u.log;
      same = u.same;
      free =
          subst (λ e. (f e w.controller).relay_io_lock ≡ false) (sym u.same)
            (keeps w.controller ∙ u.free);
    }

    Unbroken-judge_status :
        (d : Direction) (r : RelaySnapshot) (n : ℕ) → Holds (Unbroken env) (judge_status s d r n)
    unfolding judge_status
    Unbroken-judge_status d r n =
        Holds-with_world _ λ w. search (holds_rules, Unbroken-update) depth 20

    Unbroken-judge_received :
        (d : Direction) (r : RelaySnapshot) (t n : ℕ)
        → Holds (Unbroken env) (judge_received s d r t n)
    unfolding judge_received
    Unbroken-judge_received d r t n =
        Holds-with_world _
          λ w. search (holds_rules, Unbroken-judge_status, Unbroken-update) depth 20

    pub Unbroken-evaluate :
        (c : ControlState) (r : RelaySnapshot) (n : ℕ)
        → Holds (Unbroken env) (evaluate_relay_status s c r n)
    unfolding evaluate_relay_status
    Unbroken-evaluate c r n = search (holds_rules, Unbroken-judge_received) depth 20

    pub quiet-Holds :
        {T : Type 0} (m : Task T)
        → Holds (AllSent IsGrounded) m
        → Leads (Unbroken env) (AllSent IsGrounded) m
    quiet-Holds = Leads-Holds weaken

-- ===== src/Desk/Controller/Sends/Safety.antt =====
-- Which commands a session can send.
use kdt_smaty.Prelude.{
  Option, ap, ◌∙◌, ℕ, ◌≤◌, true, false, ◌≡◌, ◌≢◌, some, List, [], ◌∷◌, All, arith,
}
use kdt_smaty.Desk.Models.{Float, finite, negative, infinite, nan, Direction, DeskSettings}
use kdt_smaty.Desk.Relay.{Command, pulse_message, wake_message, stop_message}
use kdt_smaty.Desk.Controller.State.{MotionMode, Controller}
use kdt_smaty.Desk.Controller.Task.{Sent, World, Outcome, returned, failed, pending}
use kdt_smaty.Desk.Controller.Pulse.{pulse_allowed}
use kdt_smaty.Desk.Controller.Session.{Operation, perform, session}
use kdt_smaty.Desk.Controller.Sends.{IsQuiet}
use kdt_smaty.Desk.Controller.Sends.Pulses.{IsCurrent, send_perform}

-- A WAKE of 100 ms that rests on a height between 73 and 118 cm.
abbrev IsCheckedWake : ℕ → Float → Type 0
IsCheckedWake hold_ms (finite height) = (hold_ms ≡ 100) × (73000 ≤ height) × (height ≤ 118000)
IsCheckedWake hold_ms basis = ⊥

-- A pulse was asked for the motion that is in force when it goes out: the generation is still the
-- one it was asked for, there is a motion, and it goes in the direction of the pulse. There is then
-- no STOP and no shutdown under way, and it lasts 50 to 500 ms. A WAKE is checked.
abbrev pub IsAllowed : Option ℕ → Command → Controller → Type 0
IsAllowed asked (pulse_message direction hold_ms) c =
    (asked ≡ some c.control.generation)
    × (c.control.mode ≢ MotionMode.none)
    × (c.control.direction ≡ some direction)
    × (c.closing ≡ false)
    × (c.stop_in_progress ≡ false)
    × (50 ≤ hold_ms)
    × (hold_ms ≤ 500)
IsAllowed asked (wake_message direction hold_ms basis) c = IsCheckedWake hold_ms basis
IsAllowed asked stop_message c = Unit

abbrev pub IsSafe : Sent → Type 0
IsSafe x = IsAllowed x.asked x.command x.controller

quiet-IsSafe : (x : Sent) → IsQuiet x.command → IsSafe x
quiet-IsSafe x = of x.command
  where
    of : (command : Command) → IsQuiet command → IsAllowed x.asked command x.controller
    of (pulse_message d ms) h = absurd h
    of (wake_message d ms (finite height)) h = h
    of (wake_message d ms (negative height)) h = absurd h
    of (wake_message d ms infinite) h = absurd h
    of (wake_message d ms nan) h = absurd h
    of stop_message h = tt

allowed_facts :
    (g : ℕ) (d : Direction) (c : Controller)
    → pulse_allowed g d c ≡ true
    → (g ≡ c.control.generation)
      × (c.control.mode ≢ MotionMode.none)
      × (c.control.direction ≡ some d)
      × (c.closing ≡ false)
      × (c.stop_in_progress ≡ false)
unfolding pulse_allowed
allowed_facts g d c h = ground arith

current-IsSafe : (g : ℕ) (x : Sent) → IsCurrent g x → IsSafe x
current-IsSafe g x = of x.command
  where
    of :
        (command : Command)
        → IsCurrent g (record x { command = command })
        → IsAllowed x.asked command x.controller
    of (pulse_message d ms) h =
        let (same, mode, direction, closing, stopping) = allowed_facts g d x.controller h.1 in
        (h.0 ∙ ap some same, mode, direction, closing, stopping, h.2, h.3)
    of (wake_message d ms b) h = absurd h
    of stop_message h = tt

-- Whatever the other tasks do between its suspensions, a session of commands, starts, stops and
-- rounds of the runner sends nothing but STOPs, checked WAKEs and pulses of the motion in force: each
-- pulse was asked for the generation that the controller still has when it goes out, in the direction
-- of that motion, with no STOP and no shutdown under way, and lasts 50 to 500 ms; each WAKE lasts
-- 100 ms and rests on a height between 73 and 118 cm. Condition: so it was of what was sent before.
pub session-IsSafe :
    (s : DeskSettings) (ops : List Operation) (w : World)
    → All IsSafe w.sent
    → All IsSafe (session s ops w).sent
unfolding session
session-IsSafe s [] w h = h
session-IsSafe s (op ∷ ops) w h =
    let h' = (send_perform IsSafe quiet-IsSafe current-IsSafe s op).at w h in
    go (perform s op w).0 h' (session-IsSafe s ops (perform s op w).1 h')
  where
    go :
        (o : Outcome (Unit {0}))
        → All IsSafe (perform s op w).1.sent
        → All IsSafe (session s ops (perform s op w).1).sent
        → All IsSafe
            (elim o as (λ x. World) [
              | pending ↦ (perform s op w).1
              | returned _ ↦ session s ops (perform s op w).1
              | failed _ ↦ session s ops (perform s op w).1
            ]).sent
    go pending h k = h
    go (returned _) h k = k
    go (failed _) h k = k

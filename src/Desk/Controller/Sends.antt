-- ===== src/Desk/Controller/Sends.antt =====
-- What the controller sends. A property of sent commands that a STOP and a checked WAKE always
-- have, and that every pulse has, holds of all that is sent.
pub mod Commands
pub mod Pulses
pub mod Safety
pub mod Grounded
pub mod Rounds
use kdt_smaty.Prelude.{
  Bool-cases, inl, inr, ℕ, ◌≤◌, Bool, true, false, ◌≡◌, Option, none, some, List, [], ◌∷◌, refl,
  All, arith, leb, ◌&&◌, if◌then◌else◌,
}
use kdt_smaty.Desk.Models.{Float, finite, Direction, RelaySnapshot, DeskSettings}
use kdt_smaty.Desk.Relay
use kdt_smaty.Desk.Relay.{
  Command, pulse_message, wake_message, stop_message, Checked, publish, refuse, desk_physical_min,
  desk_physical_max, wake_hold_ms,
}
use kdt_smaty.Desk.Controller.State.{Controller, Env, Reason, Detail}
use kdt_smaty.Desk.Controller.Task.{
  Error, Sent, World, Task, Turn, update, suspend, call_relay, call_for, record_sent,
  with_intent_lock, has_intent_lock, set_intent_lock, has_relay_io_lock, set_relay_io_lock,
  with_relay_io_lock, run_task, pure, ◌>>=◌,
}
use kdt_smaty.Desk.Controller.Stop.{
  send_stop_bounded, poll_stop, wait_loop, wait_for_fresh_stop, confirm_stop, stop_and_confirm,
  stop_motion, stop_for_transition, raise_stop_error, reject_stop_error,
}
use kdt_smaty.Desk.Controller.Wake.{Request, if_generation, after_wake_call, begin_wake}
use kdt_smaty.Desk.Controller.Rules.{
  Holds, Holds-update, Holds-suspend, Holds-run_task, Holds-with_lock, Holds-wait_for_fresh_stop,
  Holds-pure, Holds-bind, holds_rules,
}

-- A STOP, or a 100 ms WAKE on the ground of a height of the desk's physical range.
abbrev pub IsQuiet : Command → Type 0
IsQuiet (pulse_message direction hold_ms) = ⊥
IsQuiet (wake_message direction hold_ms (finite h)) =
    (hold_ms ≡ wake_hold_ms) × (desk_physical_min ≤ h) × (h ≤ desk_physical_max)
IsQuiet (wake_message direction hold_ms basis) = ⊥
IsQuiet stop_message = Unit

abbrev pub AllSent : (Sent → Type 0) → World → Type 0
AllSent Q w = All Q w.sent

module _ (Q : Sent → Type 0) (quiet : (x : Sent) → IsQuiet x.command → Q x) where
  pub send_update : (f : Env → Controller → Controller) → Holds (AllSent Q) (update f)
  send_update f = Holds-update f (λ w h. h)

  pub send_suspend : Holds (AllSent Q) suspend
  send_suspend = Holds-suspend (λ t ts w e h. h)

  pub send_run_task :
      {A : Type 0} (m : Task A) → Holds (AllSent Q) m → Holds (AllSent Q) (run_task m)
  send_run_task = Holds-run_task (λ t ts w e h. h)

  pub send_intent_lock :
      {A : Type 0} (m : Task A) → Holds (AllSent Q) m → Holds (AllSent Q) (with_intent_lock m)
  unfolding with_intent_lock
  send_intent_lock = Holds-with_lock (λ t ts w e h. h) has_intent_lock set_intent_lock (λ b w h. h)

  pub send_relay_io_lock :
      {A : Type 0} (m : Task A) → Holds (AllSent Q) m → Holds (AllSent Q) (with_relay_io_lock m)
  unfolding with_relay_io_lock
  send_relay_io_lock =
      Holds-with_lock (λ t ts w e h. h) has_relay_io_lock set_relay_io_lock (λ b w h. h)

  pub ruleset send_rules =
      (holds_rules, send_update, send_suspend, send_run_task, send_intent_lock, send_relay_io_lock)

  -- A command of which the property holds may be sent.
  pub send_publish :
      (asked : Option ℕ) (command : Command) (w : World)
      → AllSent Q (record_sent asked command w)
      → AllSent Q (call_for asked (publish command) w).1
  unfolding call_for ◌>>=◌
  send_publish asked command w h =
      (Holds-bind suspend _ send_suspend (λ _. Holds-pure _)).at (record_sent asked command w) h

  pub send_stop_bounded_lem : Holds (AllSent Q) send_stop_bounded
  unfolding send_stop_bounded
  send_stop_bounded_lem =
      send_relay_io_lock _ (record { at = λ w h. send_publish none stop_message w (quiet _ tt, h) })

  module _ (s : DeskSettings) where
    pub send_wait_for_fresh_stop : (b : Option ℕ) → Holds (AllSent Q) (wait_for_fresh_stop s b)
    send_wait_for_fresh_stop = Holds-wait_for_fresh_stop (λ t ts w e h. h) (λ w h. h) s

    pub send_confirm_stop :
        (b : Option ℕ) (e : Option Reason) → Holds (AllSent Q) (confirm_stop s b e)
    unfolding confirm_stop
    send_confirm_stop b none = send_wait_for_fresh_stop b
    send_confirm_stop b (some e) = Holds-pure _

    pub send_stop_and_confirm :
        (d : Detail) (e : Option Reason) (b : Bool) → Holds (AllSent Q) (stop_and_confirm s d e b)
    unfolding stop_and_confirm
    send_stop_and_confirm d e b =
        search (send_rules, send_stop_bounded_lem, send_confirm_stop) depth 20

    pub send_raise_stop_error : (e r : Option Reason) → Holds (AllSent Q) (raise_stop_error s e r)
    send_raise_stop_error none r = search send_rules depth 20
    send_raise_stop_error (some e) none = search send_rules depth 20
    send_raise_stop_error (some e) (some r) = search send_rules depth 20

    pub send_stop_motion : (d : Detail) (e : Option Reason) → Holds (AllSent Q) (stop_motion s d e)
    unfolding stop_motion
    send_stop_motion d e =
        search (send_rules, send_stop_and_confirm, send_raise_stop_error) depth 20

    pub send_reject_stop_error : (e : Option Reason) → Holds (AllSent Q) (reject_stop_error s e)
    send_reject_stop_error none = search send_rules depth 20
    send_reject_stop_error (some e) = search send_rules depth 20

    pub send_stop_for_transition : (d : Detail) → Holds (AllSent Q) (stop_for_transition s d)
    unfolding stop_for_transition
    send_stop_for_transition d =
        search (send_rules, send_stop_and_confirm, send_reject_stop_error) depth 20

    pub send_if_generation :
        (g : ℕ) (m : Task (Unit {0})) → Holds (AllSent Q) m → Holds (AllSent Q) (if_generation g m)
    unfolding if_generation
    send_if_generation g m h = search send_rules depth 20

    pub send_after_wake_call :
        (g : ℕ) (e : Option Reason) → Holds (AllSent Q) (after_wake_call s g e)
    unfolding after_wake_call
    send_after_wake_call g none = search send_rules depth 20
    send_after_wake_call g (some e) =
        search (send_rules, send_stop_motion, send_if_generation) depth 20

    -- A WAKE goes out only on the ground of a physical height.
    pub send_wake :
        (d : Direction) (h : ℕ) → Holds (AllSent Q) (call_relay (Relay.wake d (finite h)))
    unfolding Relay.wake
    send_wake d h = elim (Bool-cases (leb desk_physical_min h && leb h desk_physical_max)) [
      | inl fits ↦ rw fits (record {
        at = λ w k. send_publish none _ w (quiet _ (refl, ground arith, ground arith), k);
      })
      | inr not_fits ↦ rw not_fits (unfold call_for in Holds-pure _)
    ]

    pub send_begin_wake : (r : Request) → Holds (AllSent Q) (begin_wake s r)
    unfolding begin_wake
    send_begin_wake r = search (send_rules, send_wake, send_after_wake_call) depth 20

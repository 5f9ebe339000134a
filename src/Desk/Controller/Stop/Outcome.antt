-- ===== src/Desk/Controller/Stop/Outcome.antt =====
-- What `_stop_and_confirm` sends and what it leaves behind.
use text.Mathlib.TextEquality.{eq_iff}
use kdt_smaty.Prelude.{
  ◌∙◌, ap, subst, sym, ℕ, suc, ◌⊎◌, inl, inr, Bool-cases, if_false, if◌then◌else◌, arith, ◌+◌, Bool,
  true, false, ◌≡◌, Option, none, some, List, refl, if_false,
}
use kdt_smaty.Desk.Models.{DeskState, DeskSettings}
use kdt_smaty.Desk.Relay.{stop_message}
use kdt_smaty.Desk.Controller.State.{
  MotionMode, Reason, stop_failed_after, call_failed, relay_code, truthy, Detail,
}
use kdt_smaty.Desk.Controller.Task.{
  resume_with, Outcome, returned, failed, pending, ok, Sent, World, Task, pure, update,
  with_relay_io_lock, with_lock, acquire, released, set_relay_io_lock, has_relay_io_lock, ◌>>=◌,
  ◌>>◌,
}
use kdt_smaty.Desk.Controller.Stop.{
  stop_entry, begin_stop, end_stop, final_error, stop_state, send_stop_bounded, confirm_stop,
  wait_for_fresh_stop, stop_and_confirm,
}
use kdt_smaty.Desk.Controller.Stop.Confirm.{IsFreshStop, Answers, wait_for_fresh_stop_lem}
use kdt_smaty.Desk.Controller.Rules.{returned-bind}

-- An uncontended lock is taken, and given back behind the block.
pub with_relay_io_lock-free :
    {A : Type 0} (m : Task A) (w : World)
    → w.controller.relay_io_lock ≡ false
    → with_relay_io_lock m w
      ≡ released has_relay_io_lock set_relay_io_lock
          (m (record w { controller = set_relay_io_lock true w.controller }))
unfolding with_relay_io_lock with_lock acquire ◌>>=◌
with_relay_io_lock-free {A} m w free =
    let block : Unit {0} → Task A = λ _ v. released has_relay_io_lock set_relay_io_lock (m v) in
    ap (λ (acquired : Task (Unit {0})). resume_with (acquired w).0 block (acquired w).1)
      (if_false w.controller.relay_io_lock _ _ free)

abbrev Logs : List Sent → World → Type 0
Logs log w = w.sent ≡ log

abbrev begun : Detail → World → World
begun detail w = record w { controller = begin_stop detail w.env w.controller }

-- The STOP as it goes out with the lock free.
abbrev stop_sent : Detail → World → Sent
stop_sent detail w = record {
  asked = none;
  command = stop_message;
  controller = set_relay_io_lock true (begin_stop detail w.env w.controller);
  env = w.env;
}

-- A STOP with the motion cancelled.
pub record IsStop (w : World) (x : Sent) : Type 0 where
  pub command : x.command ≡ stop_message
  pub at_once : x.env ≡ w.env
  pub under_way : x.controller.stop_in_progress ≡ true
  pub baseline : x.controller.last_stop_baseline_received_at ≡ w.env.relay.received_at
  pub mode : x.controller.control.mode ≡ MotionMode.none
  pub phase : x.controller.control.target_phase ≡ none
  pub target : x.controller.control.target_height_cm ≡ none
  pub direction : x.controller.control.direction ≡ none
  pub wake : x.controller.control.wake_started_at ≡ none
  pub startup_wake : x.controller.startup_wake_pending ≡ none
  pub refresh : x.controller.next_refresh_at ≡ none
  pub advanced : x.controller.control.generation ≡ suc w.controller.control.generation

-- The reasons whose text is empty: those whose text comes from outside, when that one is.
abbrev pub IsBlank : Reason → Type 0
IsBlank reason = (reason ≡ Reason.call_failed "") ⊎ (reason ≡ Reason.relay_code "")

blank : (reason : Reason) → truthy reason ≡ false → IsBlank reason
blank (call_failed t) e = inl (ap call_failed ((eq_iff t "").0 (ground arith)))
blank (relay_code t) e = inr (ap relay_code ((eq_iff t "").0 (ground arith)))
blank _ e = cc

not-IsBlank : (reason : Reason) → truthy reason ≡ true → ¬ IsBlank reason
not-IsBlank reason e (inl empty) = let h = subst (λ r. truthy r ≡ true) empty e in cc
not-IsBlank reason e (inr empty) = let h = subst (λ r. truthy r ≡ true) empty e in cc

joined :
    (given failure : Reason)
    → ((IsBlank given)
        × (◌≡◌ {A = Option Reason}
            (some (if truthy given then stop_failed_after given failure else failure))
            (some failure)))
      ⊎ ((¬ IsBlank given)
          × (◌≡◌ {A = Option Reason}
              (some (if truthy given then stop_failed_after given failure else failure))
              (some (Reason.stop_failed_after given failure))))
joined given failure = elim (Bool-cases (truthy given)) [
  | inl said ↦ inr (not-IsBlank given said, rw said refl)
  | inr silent ↦ inl (blank given silent, rw silent refl)
]

module _ (s : DeskSettings) where
  -- The steps of a STOP that has begun.
  abbrev rest_of_stop : Detail → Option Reason → Option ℕ → Task (Option Reason)
  rest_of_stop detail error_detail baseline = do
    sent ← send_stop_bounded
    stop_error ← confirm_stop s baseline sent
    update (end_stop detail error_detail stop_error)
    pure stop_error

  begins :
      (detail : Detail) (error_detail : Option Reason) (reject : Bool) (w : World)
      → stop_entry reject w.controller ≡ ok true
      → stop_and_confirm s detail error_detail reject w
        ≡ rest_of_stop detail error_detail w.env.relay.received_at (begun detail w)
  unfolding stop_and_confirm ◌>>=◌
  begins detail error_detail reject w entry = rw entry

  -- The state that is shown and its error, by the error that the STOP was called for and the failure
  -- of the STOP itself. A text that is empty counts as no error when the two are joined.
  abbrev pub Shows : Option Reason → Option Reason → DeskState → Option Reason → Type 0
  Shows none none state error = (state ≡ DeskState.stopped) × (error ≡ none)
  Shows none (some failure) state error = (state ≡ DeskState.error) × (error ≡ some failure)
  Shows (some given) none state error = (state ≡ DeskState.error) × (error ≡ some given)
  Shows (some given) (some failure) state error =
      (state ≡ DeskState.error)
      × (((IsBlank given) × (error ≡ some failure))
          ⊎ ((¬ IsBlank given) × (error ≡ some (Reason.stop_failed_after given failure))))

  -- What a STOP that has answered leaves behind.
  pub record Settled (detail : Detail) (error_detail : Option Reason) (baseline : Option ℕ)
      (answer : Option Reason) (v : World) : Type 0 where
    pub over : v.controller.stop_in_progress ≡ false
    pub shown :
        Shows error_detail answer v.controller.control.public_state v.controller.control.last_error
    pub text : v.controller.control.detail ≡ detail
    pub confirmed : answer ≡ none → IsFreshStop baseline v.env.relay

  -- The same of the end of a call, if it returns.
  abbrev SettledBy : Detail → Option Reason → Option ℕ → Outcome (Option Reason) × World → Type 0
  SettledBy detail error_detail baseline (returned answer, v) =
      Settled detail error_detail baseline answer v
  SettledBy detail error_detail baseline (failed e, v) = ⊥
  SettledBy detail error_detail baseline (pending, v) = ⊥

  confirm_fresh :
      (baseline : Option ℕ) (e answer : Option Reason) (w : World)
      → (confirm_stop s baseline e w).0 ≡ returned answer
      → answer ≡ none
      → IsFreshStop baseline (confirm_stop s baseline e w).1.env.relay
  unfolding confirm_stop pure
  confirm_fresh baseline none none w e a =
      (subst
        (λ (o : Outcome (Option Reason)).
          Answers (w.env.monotonic + s.relay_ack_timeout) baseline w.env w.turns o
            (wait_for_fresh_stop s baseline w).1)
        e (wait_for_fresh_stop_lem s baseline w)).0
  confirm_fresh baseline none (some r) w e a = cc
  confirm_fresh baseline (some x) answer w e a = cc

  shows :
      (error_detail stop_error : Option Reason)
      → Shows error_detail stop_error
          (stop_state (final_error error_detail stop_error))
          (final_error error_detail stop_error)
  shows none none = (refl, refl)
  shows none (some failure) = (refl, refl)
  shows (some given) none = (refl, refl)
  shows (some given) (some failure) = (refl, joined given failure)

  ends :
      (detail : Detail) (error_detail : Option Reason) (baseline : Option ℕ) (r : Option Reason)
      (u : World)
      → (r ≡ none → IsFreshStop baseline u.env.relay)
      → SettledBy detail error_detail baseline
          ((do update (end_stop detail error_detail r); pure r) u)
  unfolding ◌>>=◌ end_stop
  ends detail error_detail baseline r u h = record {
    over = refl;
    shown = shows error_detail r;
    text = refl;
    confirmed = h;
  }

  -- A STOP that begins and returns leaves no STOP under way and shows the text it was called with. It
  -- shows STOPPED and no error if it was called for no error and reports none; otherwise ERROR, with
  -- the error it was called for, or its own failure, or the two joined if there are both and the first
  -- has a text. If it reports no failure, the relay shows a live STOP from after the baseline.
  pub stop_and_confirm-settles :
      (detail : Detail) (error_detail : Option Reason) (reject : Bool) (w v : World)
      (answer : Option Reason)
      → stop_entry reject w.controller ≡ ok true
      → stop_and_confirm s detail error_detail reject w ≡ (returned answer, v)
      → Settled detail error_detail w.env.relay.received_at answer v
  stop_and_confirm-settles detail error_detail reject w v answer entry e =
      let (sent, sends, e₁) =
        returned-bind send_stop_bounded _ (begun detail w)
          (sym (begins detail error_detail reject w entry) ∙ e) in
      let (r, confirms, e₂) = returned-bind (confirm_stop s _ sent) _ _ e₁ in
      subst (SettledBy detail error_detail w.env.relay.received_at) e₂ (
        ends detail error_detail w.env.relay.received_at r _
          (confirm_fresh w.env.relay.received_at sent r _ confirms))

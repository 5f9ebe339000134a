-- ===== src/Desk/Controller/Stop.antt =====
-- Stopping: `_send_stop_bounded`, `_wait_for_fresh_stop`, `_stop_and_confirm` and its callers.
pub mod Confirm
pub mod Outcome
use kdt_smaty.Prelude.{
  ℕ, ◌+◌, Bool, true, false, not, ◌&&◌, Option, none, some, List, [], ◌∷◌, ltb, leb, if◌then◌else◌,
}
use kdt_smaty.Desk.Models.{RelayState, RelayEvent, DeskSettings, DeskState}
use kdt_smaty.Desk.Relay.{send_stop}
use kdt_smaty.Desk.Controller.State.{
  Controller, Env, Reason, stop_failed_after, truthy, Detail, invalidate_motion_locked,
}
use kdt_smaty.Desk.Controller.Task.{
  match_option, rejected, runtime, Result, ok, raised, Turn, World, pending, Task, pure, fail, lift,
  gets, update, resume, call_relay, with_relay_io_lock, run_task, with_world, ◌>>=◌, ◌>>◌,
}
use kdt_smaty.Desk.Controller.Guards.{require_running_locked, is_state, is_refusal}

-- `_send_stop_bounded`
unfoldable pub send_stop_bounded : Task (Option Reason)
send_stop_bounded = with_relay_io_lock (call_relay send_stop)

abbrev is_newer : Option ℕ → Option ℕ → Bool
is_newer none received = false
is_newer (some received) none = true
is_newer (some received) (some baseline) = ltb baseline received

abbrev refuses : Option RelayEvent → Bool
refuses none = false
refuses (some event) = is_refusal event

-- A live STOP that came in after the baseline.
unfoldable pub is_fresh_stop : Option ℕ → Env → Bool
is_fresh_stop baseline env =
    is_state RelayState.stop env.relay.state
    && (is_newer env.relay.received_at baseline && not (refuses env.relay.event))

-- One round of the loop: the answer, if there is one before the next wait.
unfoldable pub poll_stop : ℕ → Option ℕ → Env → Option (Option Reason)
unfolding is_fresh_stop
poll_stop deadline baseline env =
    if leb env.monotonic deadline && is_fresh_stop baseline env
    then some none
    else if leb deadline env.monotonic
    then some (some Reason.stop_unconfirmed)
    else none

-- `_wait_for_wake`, which clears the event
abbrev pub resume_woken : Turn → List Turn → World → World
resume_woken t ts w =
    let v = resume t ts w in record v { controller = record (v.controller) { wake_event = false } }

unfoldable pub wait_loop : ℕ → Option ℕ → List Turn → Task (Option Reason)
wait_loop deadline baseline [] =
    with_world λ w. match_option (poll_stop deadline baseline w.env) (λ v. (pending, v)) pure
wait_loop deadline baseline (t ∷ ts) = with_world λ w.
    match_option (poll_stop deadline baseline w.env)
      (λ v. wait_loop deadline baseline ts (resume_woken t ts v)) pure

abbrev final_error : Option Reason → Option Reason → Option Reason
final_error error_detail none = error_detail
final_error none (some stop_error) = some stop_error
final_error (some error) (some stop_error) =
    some (if truthy error then stop_failed_after error stop_error else stop_error)

abbrev stop_state : Option Reason → DeskState
stop_state none = DeskState.stopped
stop_state (some error) = DeskState.error

-- Whether a STOP may begin: `false` if another one is under way and this caller joins it.
unfoldable pub stop_entry : Bool → Controller → Result Bool
unfolding require_running_locked
stop_entry true c = elim (require_running_locked c) [ ok _ ↦ ok true | raised e ↦ raised e ]
stop_entry false c =
    if not c.running && not c.closing
    then raised (runtime Reason.not_running)
    else ok (not c.stop_in_progress)

unfoldable pub begin_stop : Detail → Env → Controller → Controller
unfolding invalidate_motion_locked
begin_stop detail env c =
    record (invalidate_motion_locked detail env.now (record c { stop_in_progress = true })) {
      last_stop_baseline_received_at = env.relay.received_at;
      wake_event = true;
    }

unfoldable pub end_stop : Detail → Option Reason → Option Reason → Env → Controller → Controller
end_stop detail error_detail stop_error env c =
    let final = final_error error_detail stop_error in
    record c {
      stop_in_progress = false;
      control = record (c.control) {
        public_state = stop_state final;
        detail = detail;
        last_error = final;
        updated_at = env.now;
      };
    }

module _ (s : DeskSettings) where
  -- `_wait_for_fresh_stop`
  unfoldable pub wait_for_fresh_stop : Option ℕ → Task (Option Reason)
  wait_for_fresh_stop baseline w =
      wait_loop (w.env.monotonic + s.relay_ack_timeout) baseline w.turns w

  unfoldable pub confirm_stop : Option ℕ → Option Reason → Task (Option Reason)
  confirm_stop baseline none = wait_for_fresh_stop baseline
  confirm_stop baseline (some error) = pure (some error)

  -- `_stop_and_confirm`
  unfoldable pub stop_and_confirm : Detail → Option Reason → Bool → Task (Option Reason)
  stop_and_confirm detail error_detail reject_if_stopping = do
    begins ← with_world λ w. lift (stop_entry reject_if_stopping w.controller)
    if not begins then pure none else do
      baseline ← gets λ w. w.env.relay.received_at
      update (begin_stop detail)
      sent ← send_stop_bounded
      stop_error ← confirm_stop baseline sent
      update (end_stop detail error_detail stop_error)
      pure stop_error

  abbrev pub raise_stop_error : Option Reason → Option Reason → Task (Unit {0})
  raise_stop_error (some stop_error) none = fail (runtime stop_error)
  raise_stop_error _ _ = pure tt

  -- `_stop_motion`
  unfoldable pub stop_motion : Detail → Option Reason → Task (Unit {0})
  stop_motion detail error_detail = do
    stop_error ← run_task (stop_and_confirm detail error_detail false)
    raise_stop_error stop_error error_detail

  abbrev pub reject_stop_error : Option Reason → Task (Unit {0})
  reject_stop_error none = pure tt
  reject_stop_error (some error) = fail (rejected error)

  -- `_stop_for_transition`
  unfoldable pub stop_for_transition : Detail → Task (Unit {0})
  stop_for_transition detail = do error ← stop_and_confirm detail none true; reject_stop_error error

-- ===== src/Desk/Controller/Wake.antt =====
-- Waking a sleeping height sensor: one WAKE nudge, then no motion before a newer live height. The
-- WAKE comes from a user's command or, after the start of the application, from the controller.
pub mod Contended
use kdt_smaty.Prelude.{
  ℕ, suc, ◌+◌, ◌*◌, Bool, true, false, not, ◌||◌, Option, none, some, ltb, ◌==◌, if◌then◌else◌,
}
use kdt_smaty.Desk.Models.{finite, Direction, RelaySnapshot, DeskState, DeskSettings}
use kdt_smaty.Desk.Relay
use kdt_smaty.Desk.Controller.State.{
  MotionMode, TargetPhase, Controller, Env, Reason, Detail, initialize_relay_tracking,
}
use kdt_smaty.Desk.Controller.Task.{
  match_option, match_result, on_rejected, Task, Result, ok, raised, pure, lift, gets, update,
  call_relay, with_relay_io_lock, with_intent_lock, with_world, catch_rejected, ◌>>=◌, ◌>>◌,
}
use kdt_smaty.Desk.Controller.Guards.{
  Measured, reject_if, require_running_locked, require_wake_basis, require_direction_allowed,
  admit_wake, is_online,
}
use kdt_smaty.Desk.Controller.Stop.{stop_motion}

-- What differs between the WAKEs of a target, a hold and the start.
pub record Request : Type 0 where
  pub mode : MotionMode
  pub direction : Direction
  pub target : Option ℕ
  pub basis : Measured
  pub relay : RelaySnapshot
  pub detail : Detail

abbrev pub wake_phase : MotionMode → Option TargetPhase
wake_phase MotionMode.target = some TargetPhase.continuous
wake_phase _ = none

abbrev pub unless_startup : MotionMode → ℕ → Option ℕ
unless_startup MotionMode.wake now = none
unless_startup _ now = some now

abbrev pub if_manual : MotionMode → ℕ → Option ℕ
if_manual MotionMode.manual now = some now
if_manual _ now = none

unfoldable pub enter_waking : Request → Env → Controller → Controller
unfolding initialize_relay_tracking
enter_waking r env c = initialize_relay_tracking r.relay (record c {
  control = record {
    public_state = DeskState.waking;
    mode = r.mode;
    target_phase = wake_phase r.mode;
    target_height_cm = r.target;
    direction = some r.direction;
    detail = r.detail;
    last_error = none;
    updated_at = env.now;
    generation = suc c.control.generation;
    awaiting_fresh_height = true;
    wake_observed_at = some r.basis.observed_at;
    wake_started_at = some env.monotonic;
  };
  motion_started_at = unless_startup r.mode env.monotonic;
  last_hold_at = if_manual r.mode env.monotonic;
  next_refresh_at = none;
  settle_until = none;
  last_fine_observed_at = none;
})

abbrev pub set_wake_event : Task (Unit {0})
set_wake_event = update λ _ c. record c { wake_event = true }

abbrev pub cancel_startup_wake_pending_locked : Task (Unit {0})
cancel_startup_wake_pending_locked = update λ _ c. record c { startup_wake_pending = none }

-- `if self._control.generation != generation: return`
unfoldable pub if_generation : ℕ → Task (Unit {0}) → Task (Unit {0})
if_generation generation m =
    with_world λ w. if w.controller.control.generation == generation then m else pure tt

-- The checks under the lock with which `_begin_wake` begins.
unfoldable pub begin_wake_entry : Controller → Result (Unit {0})
unfolding require_running_locked
begin_wake_entry c = elim (require_running_locked c) [
  | ok _ ↦ reject_if c.control.awaiting_fresh_height Reason.sensor_already_waking
  | raised e ↦ raised e
]

module _ (s : DeskSettings) where
  unfoldable pub after_wake_call : ℕ → Option Reason → Task (Unit {0})
  after_wake_call generation none = set_wake_event
  after_wake_call generation (some error) =
      if_generation generation (stop_motion s Detail.wake_failed (some error))

  -- `_begin_wake`
  unfoldable pub begin_wake : Request → Task (Unit {0})
  begin_wake r = do
    with_world λ w. lift (begin_wake_entry w.controller)
    update (enter_waking r)
    generation ← gets λ w. w.controller.control.generation
    wake_error ← with_relay_io_lock (call_relay (Relay.wake r.direction (finite r.basis.height_cm)))
    after_wake_call generation wake_error

  -- basis < (min + max) / 2
  abbrev pub wake_direction : ℕ → Direction
  wake_direction basis =
      if ltb (2 * basis) (s.operation_min_cm + s.operation_max_cm)
      then Direction.up
      else Direction.down

  -- `_set_startup_sensor_check_needed`
  unfoldable pub set_startup_sensor_check_needed : Reason → Task (Unit {0})
  set_startup_sensor_check_needed error = update λ env c.
      let ended = record c { startup_wake_pending = none } in
      if not c.running || c.closing then ended else record ended {
        control = record (c.control) {
          public_state = DeskState.idle;
          detail = Detail.sensor_check_needed;
          last_error = some error;
          updated_at = env.now;
        };
      }

  abbrev startup_basis : Env → Result Measured
  startup_basis env = elim (require_wake_basis s env.height) [
    | raised e ↦ raised e
    | ok basis ↦
        elim (require_direction_allowed s basis.height_cm (wake_direction basis.height_cm)) [
          | raised e ↦ raised e
          | ok _ ↦ ok basis
        ]
  ]

  -- `_register_startup_wake`
  unfoldable pub register_startup_wake : Task (Unit {0})
  register_startup_wake = with_world λ w.
      if is_online w.env.height.status
      then pure tt
      else catch_rejected
          (do
            _ ← lift (startup_basis w.env)
            update λ env c.
                if not c.running || c.closing || c.stop_in_progress then c else record c {
                  startup_wake_pending = some (env.monotonic + s.wake_timeout);
                  control = record (c.control) {
                    public_state = DeskState.idle;
                    detail = Detail.startup_waiting;
                    last_error = none;
                    updated_at = env.now;
                  };
                })
          set_startup_sensor_check_needed

  unfoldable pub begin_startup_wake : Measured → RelaySnapshot → Task (Unit {0})
  begin_startup_wake basis relay =
      let direction = wake_direction basis.height_cm in
      catch_rejected
        (do
          lift (require_direction_allowed s basis.height_cm direction)
          cancel_startup_wake_pending_locked
          begin_wake (record {
            mode = MotionMode.wake;
            direction = direction;
            target = none;
            basis = basis;
            relay = relay;
            detail = Detail.startup_wake;
          }))
        set_startup_sensor_check_needed

  -- The pending startup WAKE of `_run_startup_wake_cycle`, past the test for `None`.
  unfoldable pub retry_startup_wake : ℕ → Task (Unit {0})
  retry_startup_wake deadline = with_world λ w.
      if not w.controller.running || w.controller.closing || w.controller.stop_in_progress
      then cancel_startup_wake_pending_locked
      else if is_online w.env.height.status
      then cancel_startup_wake_pending_locked
      else match_result (require_wake_basis s w.env.height)
          (on_rejected set_startup_sensor_check_needed)
          λ basis.
            if ltb deadline w.env.monotonic
            then set_startup_sensor_check_needed Reason.startup_wake_expired
            else match_result (admit_wake s w.env w.controller) (on_rejected λ _. pure tt)
                (begin_startup_wake basis)

  -- `_run_startup_wake_cycle`: whether a WAKE was pending.
  unfoldable pub run_startup_wake_cycle : Task Bool
  run_startup_wake_cycle = with_intent_lock (
      with_world λ w.
        match_option w.controller.startup_wake_pending (pure false)
          λ deadline. do retry_startup_wake deadline; pure true)

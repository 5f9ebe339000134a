-- ===== src/Desk/Controller/Examples.antt =====
-- Concrete settings, snapshots and schedules, and runs of the controller on them.
use kdt_smaty.Prelude.{◌↔◌, ◌≡◌, refl, false, All, ℕ, true, none, some, List, [], ◌∷◌}
use kdt_smaty.Desk.Models.{
  finite, Direction, DeskState, HeightStatus, HeightProvenance, HeightSnapshot, RelayEvent,
  RelayState, RelaySnapshot, DeskSettings,
}
use kdt_smaty.Desk.Controller.State.{MotionMode, TargetPhase, Detail, Controller, Env, init}
use kdt_smaty.Desk.Controller.Task.{
  ok, World, Turn, ◌>>=◌, with_relay_io_lock, with_lock, acquire, released, call_for, suspend,
  failure_reason,
}
use kdt_smaty.Desk.Controller.Guards.{number}
use kdt_smaty.Desk.Controller.Guards.{admit_motion, admit_wake}
use kdt_smaty.Desk.Controller.Guards.Admission.{
  MayMove, admit_motion-MayMove, MayWake, admit_wake-MayWake,
}
use kdt_smaty.Desk.Controller.Stop.{
  send_stop_bounded, begin_stop, confirm_stop, wait_loop, poll_stop, stop_entry, stop_and_confirm,
  wait_for_fresh_stop,
}
use kdt_smaty.Desk.Controller.Stop.Confirm.{Answers, wait_for_fresh_stop_lem}
use kdt_smaty.Desk.Controller.Stop.Outcome.{Settled, stop_and_confirm-settles}
use kdt_smaty.Desk.Controller.Wake.{Request, begin_wake_entry, begin_wake}
use kdt_smaty.Desk.Controller.Wake.Contended.{contended, woken, begin_wake-contended}
use kdt_smaty.Desk.Controller.Target.{check_target}
use kdt_smaty.Desk.Controller.Target.Checked.{IsTarget, check_target_lem}
use kdt_smaty.Desk.Controller.Cycle
use kdt_smaty.Desk.Controller.Sends.Grounded.{IsGrounded}
use kdt_smaty.Desk.Controller.Sends.Rounds.{run_cycle-IsGrounded}
use kdt_smaty.Desk.Controller.Session.{Operation, set_target, stop_motion, run_cycle, session}
use kdt_smaty.Desk.Controller.Sends.Safety.{IsSafe, session-IsSafe}

-- The defaults of `DeskSettings`.
abbrev pub defaults : DeskSettings
defaults = record {
  measurement_min_cm = 73000;
  measurement_max_cm = 118000;
  operation_min_cm = 75000;
  operation_max_cm = 115000;
  height_stale_after = 1000;
  continuous_hold_ms = 500;
  manual_hold_ms = 500;
  fine_hold_ms = 100;
  pulse_refresh_interval = 100;
  control_poll_interval = 50;
  manual_watchdog = 600;
  target_timeout = 120000;
  target_tolerance_cm = 200;
  fine_approach_distance_cm = 1500;
  fine_settle = 1000;
  relay_stale_after = 15000;
  relay_ack_timeout = 1000;
  wake_timeout = 3000;
}

abbrev pub at_height : ℕ → ℕ → HeightSnapshot
at_height height time = record {
  height_cm = some (finite height);
  observed_at = some time;
  status = HeightStatus.online;
  provenance = some HeightProvenance.live;
}

abbrev pub ready_relay : RelayState → ℕ → RelaySnapshot
ready_relay state time = record {
  event = some RelayEvent.heartbeat;
  state = some state;
  firmware = some "smartdesk-fin-relay-1.0.0";
  code = some "ready";
  detail = none;
  received_at = some time;
  last_error = none;
}

abbrev pub env_at : ℕ → ℕ → RelayState → Env
env_at time height state = record {
  monotonic = time;
  now = time;
  height = at_height height time;
  relay = ready_relay state time;
}

abbrev pub idle_desk : Controller
idle_desk = let c = init 0 in record c { running = true }

abbrev pub quiet_turn : ℕ → ℕ → RelayState → Turn
quiet_turn time height state = record {
  env = env_at time height state;
  failure = none;
  others = λ c. c;
}

abbrev pub quiet : List Turn
quiet =
    quiet_turn 110 90000 RelayState.stop
    ∷ quiet_turn 120 90010 RelayState.stop
    ∷ quiet_turn 130 90020 RelayState.stop
    ∷ quiet_turn 140 90030 RelayState.stop
    ∷ []

abbrev pub desk_at : Controller → World
desk_at c = record {
  controller = c;
  env = env_at 100 90000 RelayState.stop;
  turns = quiet;
  sent = [];
}

abbrev commands : List Operation
commands = set_target (number (finite 100000)) ∷ run_cycle ∷ stop_motion "" ∷ []

session-IsSafe_example : All IsSafe (session defaults commands (desk_at idle_desk)).sent
session-IsSafe_example = session-IsSafe defaults commands (desk_at idle_desk) tt

wait_for_fresh_stop_lem_example :
    Answers 1100 none
      (env_at 100 90000 RelayState.stop)
      quiet
      (wait_for_fresh_stop defaults none (desk_at idle_desk)).0
      (wait_for_fresh_stop defaults none (desk_at idle_desk)).1
wait_for_fresh_stop_lem_example = wait_for_fresh_stop_lem defaults none (desk_at idle_desk)

-- A desk at 90 cm on its way up to 100 cm, with a pulse due.
abbrev rising_desk : Controller
rising_desk = record idle_desk {
  control = record (idle_desk.control) {
    public_state = DeskState.moving;
    mode = MotionMode.target;
    target_phase = some TargetPhase.continuous;
    target_height_cm = some 100000;
    direction = some Direction.up;
  };
}

stop_and_confirm-settles_example :
    Settled defaults Detail.hold_lost none
      (some 100)
      none
      (stop_and_confirm defaults Detail.hold_lost none false (desk_at rising_desk)).1
unfolding stop_and_confirm stop_entry init ◌>>=◌ send_stop_bounded with_relay_io_lock with_lock
    acquire begin_stop released call_for suspend confirm_stop failure_reason wait_for_fresh_stop
    wait_loop poll_stop
stop_and_confirm-settles_example =
    stop_and_confirm-settles defaults Detail.hold_lost none false (desk_at rising_desk)
      (stop_and_confirm defaults Detail.hold_lost none false (desk_at rising_desk)).1 none refl refl

run_cycle-IsGrounded_example :
    All (IsGrounded defaults) (Cycle.run_cycle defaults (desk_at rising_desk)).1.sent
unfolding init
run_cycle-IsGrounded_example = run_cycle-IsGrounded defaults (desk_at rising_desk) refl tt

admit_motion-MayMove_example :
    MayMove defaults
      (env_at 100 90000 RelayState.stop)
      idle_desk
      (record { height_cm = 90000; observed_at = 100 })
      (ready_relay RelayState.stop 100)
unfolding admit_motion init
admit_motion-MayMove_example =
    admit_motion-MayMove defaults (env_at 100 90000 RelayState.stop) idle_desk
      (record { height_cm = 90000; observed_at = 100 }) (ready_relay RelayState.stop 100) refl

admit_wake-MayWake_example :
    MayWake defaults (env_at 100 90000 RelayState.stop) idle_desk (ready_relay RelayState.stop 100)
unfolding admit_wake init
admit_wake-MayWake_example =
    admit_wake-MayWake defaults (env_at 100 90000 RelayState.stop) idle_desk
      (ready_relay RelayState.stop 100) refl

-- A WAKE for a hold, while the relay lock is taken; the others then close the controller.
abbrev wake_request : Request
wake_request = record {
  mode = MotionMode.manual;
  direction = Direction.up;
  target = none;
  basis = record { height_cm = 90000; observed_at = 50 };
  relay = ready_relay RelayState.stop 90;
  detail = Detail.hold_lost;
}

abbrev closing_turn : Turn
closing_turn = record {
  env = env_at 110 90000 RelayState.stop;
  failure = none;
  others = λ c. record c { closing = true; relay_io_lock = false };
}

begin_wake-contended_example :
    (begin_wake defaults wake_request (
      contended defaults wake_request
        (env_at 100 90000 RelayState.stop)
        idle_desk
        closing_turn
        [])).1.sent
    ≡ woken defaults wake_request (env_at 100 90000 RelayState.stop) idle_desk closing_turn [] ∷ []
unfolding begin_wake_entry init
begin_wake-contended_example =
    begin_wake-contended defaults wake_request (env_at 100 90000 RelayState.stop) idle_desk
      closing_turn [] refl refl

check_target_lem_example :
    (check_target defaults (number (finite 90000)) ≡ ok 90000)
    ↔ IsTarget defaults (number (finite 90000)) 90000
check_target_lem_example = check_target_lem defaults (number (finite 90000)) 90000

-- ===== src/Desk/Controller/State.antt =====
-- The state of the desk controller: `_ControlState`, the fields of `DeskController`, and the
-- texts that it shows, one constructor for each. The f-strings keep what they interpolate.
use kdt_smaty.Prelude.{ℕ, suc, String, Bool, true, false, Option, not, str_eq}
use kdt_smaty.Desk.Relay.{CommandError}
use kdt_smaty.Desk.Models.{Direction, HeightSnapshot, RelaySnapshot, DeskState, idle}

pub data MotionMode : Type 0 where
  none wake target manual : MotionMode

pub data TargetPhase : Type 0 where
  continuous settling fine : TargetPhase

-- What a rejected command, a failed call or `last_error` says.
pub data Reason : Type 0 where
  not_running already_running stop_in_progress other_stop_in_progress : Reason
  waking_keeps_target sensor_waking sensor_already_waking no_active_target : Reason
  wake_timed_out sensor_transport_failed target_timed_out : Reason
  settling_unconfirmed relay_silent relay_opposite relay_stopped stop_unconfirmed : Reason
  relay_not_stopped wake_needs_stop no_wake_basis no_fresh_height lease_not_ready : Reason
  relay_payload_invalid relay_not_live relay_refuses firmware_unsupported relay_stale : Reason
  upper_limit lower_limit : Reason
  startup_wake_expired unexpected_relay_motion : Reason
  relay_code : String → Reason
  call_failed : String → Reason
  command_refused : CommandError → Reason
  stop_failed_after : Reason → Reason → Reason

-- The truth value of such a text in Python: only the empty text is false.
abbrev pub truthy : Reason → Bool
truthy (call_failed text) = not (str_eq text "")
truthy (relay_code text) = not (str_eq text "")
truthy _ = true

-- What `detail` says.
pub data Detail : Type 0 where
  not_started starting started start_stop_failed : Detail
  application_closing closed close_stop_failed : Detail
  stopped_by_user : Detail
  stopped_because : String → Detail
  bad_replacement bad_adjustment new_target_stop manual_stop : Detail
  moving_to reached check_needed_near target_wake : ℕ → Detail
  manual_waking manual_holding manual_moving manual_wake : Direction → Detail
  startup_waiting startup_wake sensor_check_needed sensor_confirmed : Detail
  wake_hold_lost hold_lost unsafe wake_failed pulse_failed settle_stop_failed : Detail
  settling_inertia fine_waiting outside_motion runner_failed : Detail

-- `_ControlState`; its `updated_at` is shown and never read by the controller.
pub record ControlState : Type 0 where
  pub public_state : DeskState
  pub mode : MotionMode
  pub target_phase : Option TargetPhase
  pub target_height_cm : Option ℕ
  pub direction : Option Direction
  pub detail : Detail
  pub last_error : Option Reason
  pub updated_at : ℕ
  pub generation : ℕ
  pub awaiting_fresh_height : Bool
  pub wake_observed_at : Option ℕ
  pub wake_started_at : Option ℕ

-- The runner task: none, running, or done.
pub data Runner : Type 0 where
  absent active finished : Runner

-- The fields of `DeskController`. A pending startup WAKE is its deadline, a lock its `locked()`.
pub record Controller : Type 0 where
  pub control : ControlState
  pub running : Bool
  pub closing : Bool
  pub stop_in_progress : Bool
  pub runner_task : Runner
  pub intent_lock : Bool
  pub relay_io_lock : Bool
  pub wake_event : Bool
  pub startup_wake_pending : Option ℕ
  pub motion_started_at : Option ℕ
  pub last_hold_at : Option ℕ
  pub next_refresh_at : Option ℕ
  pub settle_until : Option ℕ
  pub last_fine_observed_at : Option ℕ
  pub relay_baseline_received_at : Option ℕ
  pub relay_last_seen_at : Option ℕ
  pub first_pulse_sent_at : Option ℕ
  pub relay_direction_confirmed : Bool
  pub last_unexpected_relay_at : Option ℕ
  pub last_stop_baseline_received_at : Option ℕ

-- What the controller reads between two suspensions: the two clocks and the two snapshots.
pub record Env : Type 0 where
  pub monotonic : ℕ
  pub now : ℕ
  pub height : HeightSnapshot
  pub relay : RelaySnapshot

-- A `_ControlState` with no motion, as `__init__`, `start` and `_invalidate_motion_locked` build it.
unfoldable pub still : DeskState → Detail → ℕ → ℕ → ControlState
still state detail now generation = record {
  public_state = state;
  mode = MotionMode.none;
  target_phase = Option.none;
  target_height_cm = Option.none;
  direction = Option.none;
  detail = detail;
  last_error = Option.none;
  updated_at = now;
  generation = generation;
  awaiting_fresh_height = false;
  wake_observed_at = Option.none;
  wake_started_at = Option.none;
}

-- `__init__`
unfoldable pub init : ℕ → Controller
unfolding still
init now = record {
  control = still idle not_started now 0;
  running = false;
  closing = false;
  stop_in_progress = false;
  runner_task = absent;
  intent_lock = false;
  relay_io_lock = false;
  wake_event = false;
  startup_wake_pending = Option.none;
  motion_started_at = Option.none;
  last_hold_at = Option.none;
  next_refresh_at = Option.none;
  settle_until = Option.none;
  last_fine_observed_at = Option.none;
  relay_baseline_received_at = Option.none;
  relay_last_seen_at = Option.none;
  first_pulse_sent_at = Option.none;
  relay_direction_confirmed = false;
  last_unexpected_relay_at = Option.none;
  last_stop_baseline_received_at = Option.none;
}

-- `_reset_motion_fields`
unfoldable pub reset_motion_fields : Controller → Controller
reset_motion_fields c = record c {
  motion_started_at = Option.none;
  last_hold_at = Option.none;
  next_refresh_at = Option.none;
  settle_until = Option.none;
  last_fine_observed_at = Option.none;
  relay_baseline_received_at = Option.none;
  relay_last_seen_at = Option.none;
  first_pulse_sent_at = Option.none;
  relay_direction_confirmed = false;
}

-- `_invalidate_motion_locked`, which cancels a pending startup WAKE too
unfoldable pub invalidate_motion_locked : Detail → ℕ → Controller → Controller
unfolding still reset_motion_fields
invalidate_motion_locked detail now c = reset_motion_fields (record c {
  startup_wake_pending = Option.none;
  control = still DeskState.stopped detail now (suc c.control.generation);
})

-- `_initialize_relay_tracking`
unfoldable pub initialize_relay_tracking : RelaySnapshot → Controller → Controller
initialize_relay_tracking snapshot c = record c {
  relay_baseline_received_at = snapshot.received_at;
  relay_last_seen_at = snapshot.received_at;
  first_pulse_sent_at = Option.none;
  relay_direction_confirmed = false;
}

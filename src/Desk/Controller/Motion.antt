-- ===== src/Desk/Controller/Motion.antt =====
-- Entering a motion, and what a command finds of the motion that is under way.
use kdt_smaty.Prelude.{
  ℕ, suc, Bool, true, false, not, ◌&&◌, Option, none, some, ◌==◌, if◌then◌else◌,
}
use kdt_smaty.Desk.Models.{Direction, same_direction, RelaySnapshot, DeskState}
use kdt_smaty.Desk.Controller.State.{
  MotionMode, TargetPhase, Controller, Env, Detail, initialize_relay_tracking,
}

abbrev pub is_active : MotionMode → Bool
is_active MotionMode.none = false
is_active _ = true

abbrev pub is_target : MotionMode → Bool
is_target MotionMode.target = true
is_target _ = false

abbrev pub is_manual : MotionMode → Bool
is_manual MotionMode.manual = true
is_manual _ = false

-- `target_height_cm == target`
abbrev pub is_height : Option ℕ → ℕ → Bool
is_height none target = false
is_height (some height) target = height == target

-- `direction is wanted`
abbrev pub is_direction : Option Direction → Direction → Bool
is_direction none wanted = false
is_direction (some direction) wanted = same_direction direction wanted

-- What the commands find when they look at a motion that is under way.
pub data Found : Type 0 where
  same : Found  -- it is the motion that is asked for
  waking : Found  -- the sensor is being woken for another one
  free : Found

unfoldable pub find_target : ℕ → Controller → Found
find_target target c =
    let this = is_target c.control.mode && is_height c.control.target_height_cm target in
    if c.control.awaiting_fresh_height
    then (if this then same else waking)
    else if this && not c.stop_in_progress
    then same
    else free

unfoldable pub enter_target : ℕ → Direction → RelaySnapshot → Env → Controller → Controller
unfolding initialize_relay_tracking
enter_target target direction relay env c = initialize_relay_tracking relay (record c {
  control = record {
    public_state = DeskState.moving;
    mode = MotionMode.target;
    target_phase = some TargetPhase.continuous;
    target_height_cm = some target;
    direction = some direction;
    detail = Detail.moving_to target;
    last_error = none;
    updated_at = env.now;
    generation = suc c.control.generation;
    awaiting_fresh_height = false;
    wake_observed_at = none;
    wake_started_at = none;
  };
  motion_started_at = some env.monotonic;
  next_refresh_at = some env.monotonic;
  last_hold_at = none;
  settle_until = none;
  last_fine_observed_at = none;
})

unfoldable pub enter_manual : Direction → RelaySnapshot → Env → Controller → Controller
unfolding initialize_relay_tracking
enter_manual direction relay env c = initialize_relay_tracking relay (record c {
  control = record {
    public_state = DeskState.manual;
    mode = MotionMode.manual;
    target_phase = none;
    target_height_cm = none;
    direction = some direction;
    detail = Detail.manual_moving direction;
    last_error = none;
    updated_at = env.now;
    generation = suc c.control.generation;
    awaiting_fresh_height = false;
    wake_observed_at = none;
    wake_started_at = none;
  };
  motion_started_at = some env.monotonic;
  last_hold_at = some env.monotonic;
  next_refresh_at = some env.monotonic;
  settle_until = none;
  last_fine_observed_at = none;
})

-- A hold that goes on.
unfoldable pub refresh_hold : Detail → Env → Controller → Controller
refresh_hold detail env c = record c {
  last_hold_at = some env.monotonic;
  control = record (c.control) { detail = detail; updated_at = env.now };
  wake_event = true;
}

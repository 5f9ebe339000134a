-- ===== src/Desk/Controller/Guards.antt =====
-- The admission checks of the controller, in the order of the source: each reads the snapshots and
-- the flags, and gives the snapshot that it has checked or raises.
pub mod Facts
pub mod Admission
use kdt_smaty.Prelude.{
  ℕ, ◌+◌, String, Bool, true, false, not, ◌&&◌, ◌||◌, Option, none, some, str_eq, ltb, leb,
  if◌then◌else◌,
}
use kdt_smaty.Desk.Models.{
  Float, finite, negative, infinite, nan, Direction, HeightStatus, HeightSnapshot, RelayEvent,
  RelayState, RelaySnapshot, DeskSettings,
}
use kdt_smaty.Desk.Controller.State.{Controller, Env, Reason}
use kdt_smaty.Desk.Controller.Task.{Result, ok, raised, Error, rejected, runtime}

-- A height snapshot that has passed a check: its height is a number and it has a time.
pub record Measured : Type 0 where
  pub height_cm : ℕ
  pub observed_at : ℕ

-- Checks one behind the other: the first exception ends them.
infixl 5 ◌>>◌ ◌>>=◌
abbrev ◌>>=◌ : {S T : Type 0} → Result S → (S → Result T) → Result T
raised error >>= rest = raised error
ok given >>= rest = rest given

abbrev ◌>>◌ : {T : Type 0} → Result (Unit {0}) → Result T → Result T
first >> rest = first >>= (λ nothing. rest)

-- `if bad: raise DeskCommandRejectedError(reason)`
abbrev pub reject_if : Bool → Reason → Result (Unit {0})
reject_if true reason = raised (rejected reason)
reject_if false reason = ok tt

-- `_require_running_locked`, with which `_admit_motion` and `_admit_wake` begin too
unfoldable pub require_running_locked : Controller → Result (Unit {0})
require_running_locked c =
    if not c.running || c.closing
    then raised (runtime Reason.not_running)
    else reject_if c.stop_in_progress Reason.stop_in_progress

abbrev pub is_online : HeightStatus → Bool
is_online HeightStatus.online = true
is_online _ = false

abbrev pub is_wake_basis : HeightStatus → Bool
is_wake_basis HeightStatus.stale = true
is_wake_basis HeightStatus.sensor_sleeping = true
is_wake_basis _ = false

abbrev pub is_state : RelayState → Option RelayState → Bool
is_state RelayState.up (some RelayState.up) = true
is_state RelayState.down (some RelayState.down) = true
is_state RelayState.stop (some RelayState.stop) = true
is_state _ _ = false

-- `state in {UP, DOWN}`
abbrev pub is_moving : Option RelayState → Bool
is_moving state = is_state RelayState.up state || is_state RelayState.down state

-- `event in {OFFLINE, REJECTED}`
abbrev pub is_refusal : RelayEvent → Bool
is_refusal RelayEvent.offline = true
is_refusal RelayEvent.rejected = true
is_refusal _ = false

-- `snapshot.code or "…"`
abbrev refusal : Option String → Reason
refusal none = Reason.relay_refuses
refusal (some code) = if str_eq code "" then Reason.relay_refuses else Reason.relay_code code

abbrev pub supported_firmware : String
supported_firmware = "smartdesk-fin-relay-1.0.0"

is_supported : Option String → Bool
is_supported none = false
is_supported (some firmware) = str_eq firmware supported_firmware

-- `code in {"height_waiting", "height_not_ready", "height_stale"}`
is_lease_code : Option String → Bool
is_lease_code none = false
is_lease_code (some code) =
    str_eq code "height_waiting" || str_eq code "height_not_ready" || str_eq code "height_stale"

module _ (s : DeskSettings) where
  -- The finite heights of the measuring range: `isfinite` and the two bounds.
  in_range : Option Float → Option ℕ → Option Measured
  in_range (some (finite h)) (some at) =
      if leb s.measurement_min_cm h && leb h s.measurement_max_cm
      then some (record { height_cm = h; observed_at = at })
      else none
  in_range _ _ = none

  require_measured : Bool → Reason → HeightSnapshot → Result Measured
  unfolding in_range
  require_measured wanted reason snapshot =
      if wanted
      then elim (in_range snapshot.height_cm snapshot.observed_at) [
        | none ↦ raised (rejected reason)
        | some m ↦ ok m
      ]
      else raised (rejected reason)

  unfoldable pub require_wake_basis : HeightSnapshot → Result Measured
  unfolding require_measured
  require_wake_basis snapshot =
      require_measured (is_wake_basis snapshot.status) Reason.no_wake_basis snapshot

  unfoldable pub require_height : Env → Result Measured
  unfolding require_measured
  require_height env =
      require_measured (is_online env.height.status) Reason.no_fresh_height env.height

  -- The age of the last live status lies between 0 and the limit.
  is_recent : Option ℕ → ℕ → Result (Unit {0})
  is_recent none now = raised (rejected Reason.relay_not_live)
  is_recent (some received_at) now =
      reject_if (ltb now received_at || ltb (received_at + s.relay_stale_after) now)
        Reason.relay_stale

  accepts_event : Option RelayEvent → Option String → Result (Unit {0})
  accepts_event none code = raised (rejected Reason.relay_not_live)
  accepts_event (some event) code = reject_if (is_refusal event) (refusal code)

  abbrev is_invalid : Option String → Bool
  is_invalid none = false
  is_invalid (some error) = true

  unfoldable pub require_relay_available_for_wake : Env → Result RelaySnapshot
  unfolding accepts_event is_supported is_recent
  require_relay_available_for_wake env = do
    let snapshot = env.relay
    reject_if (is_invalid snapshot.last_error) Reason.relay_payload_invalid
    accepts_event snapshot.event snapshot.code
    reject_if (not (is_supported snapshot.firmware)) Reason.firmware_unsupported
    is_recent snapshot.received_at env.now
    ok snapshot

  unfoldable pub require_relay_ready : Env → Result RelaySnapshot
  unfolding require_relay_available_for_wake is_lease_code
  require_relay_ready env = do
    snapshot ← require_relay_available_for_wake env
    reject_if (is_lease_code snapshot.code) Reason.lease_not_ready
    ok snapshot

  unfoldable pub admit_motion : Env → Controller → Result (Measured × RelaySnapshot)
  unfolding require_running_locked require_height require_relay_ready
  admit_motion env c = do
    require_running_locked c
    height ← require_height env
    relay ← require_relay_ready env
    reject_if (not (is_state RelayState.stop relay.state)) Reason.relay_not_stopped
    ok (height, relay)

  unfoldable pub admit_wake : Env → Controller → Result RelaySnapshot
  unfolding require_running_locked require_relay_available_for_wake
  admit_wake env c = do
    require_running_locked c
    relay ← require_relay_available_for_wake env
    reject_if (not (is_state RelayState.stop relay.state)) Reason.wake_needs_stop
    ok relay

  unfoldable pub require_direction_allowed : ℕ → Direction → Result (Unit {0})
  require_direction_allowed height Direction.up =
      reject_if (leb s.operation_max_cm height) Reason.upper_limit
  require_direction_allowed height Direction.down =
      reject_if (leb height s.operation_min_cm) Reason.lower_limit

-- What a caller may pass for a number.
pub data Value : Type 0 where
  boolean : Bool → Value
  number : Float → Value
  oversized : Value  -- an `int` that no `float` can hold
  other : Value

-- `_validate_number`
unfoldable pub validate_number : Value → Result Float
validate_number (boolean b) = raised Error.type_error
validate_number (number (finite n)) = ok (finite n)
validate_number (number (negative n)) = ok (negative n)
validate_number (number infinite) = raised Error.value_error
validate_number (number nan) = raised Error.value_error
validate_number oversized = raised Error.overflow_error
validate_number other = raised Error.type_error

-- `Direction.UP if delta > 0 else Direction.DOWN`, where delta = target - height
abbrev pub direction_to : ℕ → ℕ → Direction
direction_to height target = if ltb height target then Direction.up else Direction.down

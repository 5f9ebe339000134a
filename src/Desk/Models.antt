-- ===== src/Desk/Models.antt =====
-- src/smart_desk/modules/desk/models.py, and the fields of `DeskSettings` of
-- src/smart_desk/config/settings.py that the desk package reads.
--
-- A height is a number of units of length, a time a number of milliseconds, on one scale for the
-- settings and for all readings. What a Python float can hold besides such a number is `Float`.
use kdt_smaty.Prelude.{ℕ, String, Bool, true, false, Option}

-- A Python float: a number of units, a number below zero by so many units, or not finite.
pub data Float : Type 0 where
  finite : ℕ → Float
  negative : ℕ → Float
  infinite : Float
  nan : Float

pub data Direction : Type 0 where
  up down : Direction

abbrev pub same_direction : Direction → Direction → Bool
same_direction up up = true
same_direction down down = true
same_direction _ _ = false

pub data HeightStatus : Type 0 where
  stopped waiting online stale error sensor_sleeping : HeightStatus

pub data HeightProvenance : Type 0 where
  live cached : HeightProvenance

pub record HeightSnapshot : Type 0 where
  pub height_cm : Option Float
  pub observed_at : Option ℕ
  pub status : HeightStatus
  pub provenance : Option HeightProvenance

pub data RelayEvent : Type 0 where
  online heartbeat moving stopped rejected offline : RelayEvent

pub data RelayState : Type 0 where
  up down stop : RelayState

pub record RelaySnapshot : Type 0 where
  pub event : Option RelayEvent
  pub state : Option RelayState
  pub firmware : Option String
  pub code : Option String
  pub detail : Option String
  pub received_at : Option ℕ
  pub last_error : Option String

pub data DeskState : Type 0 where
  idle moving manual stopped error waking : DeskState

-- Heights in units of length, times in milliseconds.
pub record DeskSettings : Type 0 where
  pub measurement_min_cm : ℕ
  pub measurement_max_cm : ℕ
  pub operation_min_cm : ℕ
  pub operation_max_cm : ℕ
  pub height_stale_after : ℕ
  pub continuous_hold_ms : ℕ
  pub manual_hold_ms : ℕ
  pub fine_hold_ms : ℕ
  pub pulse_refresh_interval : ℕ
  pub control_poll_interval : ℕ
  pub manual_watchdog : ℕ
  pub target_timeout : ℕ
  pub target_tolerance_cm : ℕ
  pub fine_approach_distance_cm : ℕ
  pub fine_settle : ℕ
  pub relay_stale_after : ℕ
  pub relay_ack_timeout : ℕ
  pub wake_timeout : ℕ

-- ===== src/Desk/HeightMonitor.antt =====
-- src/smart_desk/modules/desk/height_monitor.py: the owner of the latest height. What the serial
-- source, the cache and the MQTT client answer is an input of each operation.
pub mod Online
pub mod Observed
use kdt_smaty.Prelude.{
  ℕ, ◌+◌, Bool, true, false, not, ◌&&◌, ◌||◌, Option, none, some, List, [], ◌∷◌, String, ltb,
  is_some, if◌then◌else◌,
}
use kdt_smaty.Desk.Models.{
  Float, finite, HeightStatus, HeightProvenance, HeightSnapshot, DeskSettings,
}
use kdt_smaty.Desk.Segment
use kdt_smaty.Desk.Segment.{Json, bytes}

-- `SerialStatus` of src/smart_desk/modules/serial/source.py
pub data SerialStatus : Type 0 where
  stopped disconnected connected error : SerialStatus

-- The runner's task.
pub data Runner : Type 0 where
  absent active done : Runner

pub record Monitor : Type 0 where
  pub runner_task : Runner
  pub height_cm : Option Float
  pub observed_at : Option ℕ
  pub provenance : Option HeightProvenance
  pub running : Bool
  pub source_started : Bool

-- `__init__`
unfoldable pub new : Monitor
new = record {
  runner_task = absent;
  height_cm = none;
  observed_at = none;
  provenance = none;
  running = false;
  source_started = false;
}

-- What `cache.load` comes to: no cache is there, it fails, or it gives what it has.
pub data CacheLoad : Type 0 where
  no_cache load_failed empty : CacheLoad
  loaded : Float → ℕ → CacheLoad

-- What the monitor calls of the others.
pub data Call : Type 0 where
  start_source stop_source : Call
  save_height : ℕ → ℕ → Call
  publish_height : ℕ → ℕ → Call

-- An operation: the new state, the calls in order, and whether an exception leaves it.
pub record Done : Type 0 where
  pub monitor : Monitor
  pub calls : List Call
  pub raises : Bool

unfoldable pub load_cache : CacheLoad → Monitor → Monitor
load_cache (loaded height observed_at) m = record m {
  height_cm = some height;
  observed_at = some observed_at;
  provenance = some HeightProvenance.cached;
}
load_cache _ m = record m { height_cm = none; observed_at = none; provenance = none }

abbrev is_active : Runner → Bool
is_active active = true
is_active _ = false

-- The rest of `start` behind `source.start`.
unfoldable pub create_runner : Bool → Monitor → Done
create_runner true m = record {
  monitor = record m { running = true; source_started = true; runner_task = active };
  calls = start_source ∷ [];
  raises = false;
}
create_runner false m = record {
  monitor = record m { running = false; source_started = false };
  calls = start_source ∷ stop_source ∷ [];
  raises = true;
}

-- `start`, told whether the source starts and whether the task is created.
unfoldable pub start : CacheLoad → Bool → Bool → Monitor → Done
start cache source_starts task_starts m =
    if m.running || is_active m.runner_task
    then record { monitor = m; calls = []; raises = true }
    else if source_starts
    then create_runner task_starts (load_cache cache m)
    else record { monitor = load_cache cache m; calls = start_source ∷ []; raises = true }

-- `stop`, told whether `source.stop` returns.
unfoldable pub stop : Bool → Monitor → Done
stop source_stops m = record {
  monitor = record m { running = false; runner_task = absent; source_started = false };
  calls = if m.source_started then stop_source ∷ [] else [];
  raises = m.source_started && not source_stops;
}

abbrev pub is_error : SerialStatus → Bool
is_error SerialStatus.error = true
is_error _ = false

abbrev pub is_connected : SerialStatus → Bool
is_connected connected = true
is_connected _ = false

abbrev is_cached : Option HeightProvenance → Bool
is_cached (some HeightProvenance.cached) = true
is_cached _ = false

module _ (s : DeskSettings) where
  unfoldable pub aged_status : SerialStatus → ℕ → ℕ → HeightStatus
  aged_status serial now observed_at =
      if ltb (observed_at + s.height_stale_after) now
      then HeightStatus.stale
      else if is_connected serial
      then HeightStatus.online
      else HeightStatus.error

  unfoldable pub observed_status :
      SerialStatus → ℕ → Option HeightProvenance → Option Float → Option ℕ → HeightStatus
  observed_status serial now provenance (some height) (some observed_at) =
      if is_cached provenance
      then HeightStatus.sensor_sleeping
      else aged_status serial now observed_at
  observed_status serial now provenance _ _ = HeightStatus.waiting

  -- `get_snapshot`, with the status of the source and the clock
  unfoldable pub get_snapshot : SerialStatus → ℕ → Monitor → HeightSnapshot
  get_snapshot serial now m = record {
    height_cm = m.height_cm;
    observed_at = m.observed_at;
    provenance = m.provenance;
    status =
        if not m.running
        then HeightStatus.stopped
        else if is_error serial
        then HeightStatus.error
        else observed_status serial now m.provenance m.height_cm m.observed_at;
  }

-- What publishing comes to: `MqttUnavailableError` is logged, anything else ends the runner.
pub data Publishing : Type 0 where
  published unavailable failed : Publishing

abbrev is_failed : Publishing → Bool
is_failed failed = true
is_failed _ = false

-- The state when a round of the runner is left, and whether it was left by an exception.
abbrev end_round : Publishing → Monitor → Monitor
end_round failed m = record m { runner_task = done }
end_round _ m = m

module _ (utf_8 : List ℕ → Option String) (loads : String → Option Json) (s : DeskSettings) where
  unfoldable pub observe : Bool → Publishing → ℕ → ℕ → Monitor → Done
  observe has_cache publishing height now m = record {
    monitor = end_round publishing (record m {
      height_cm = some (finite height);
      observed_at = some now;
      provenance = some HeightProvenance.live;
    });
    calls =
        if has_cache
        then save_height height now ∷ publish_height height now ∷ []
        else publish_height height now ∷ [];
    raises = is_failed publishing;
  }

  unfoldable pub receive_decoded : Bool → Publishing → SerialStatus → ℕ → Option ℕ → Monitor → Done
  receive_decoded has_cache publishing serial now none m = record {
    monitor = m;
    calls = [];
    raises = false;
  }
  receive_decoded has_cache publishing serial now (some height) m =
      if is_connected serial
      then observe has_cache publishing height now m
      else record { monitor = m; calls = []; raises = false }

  -- A round of `_run` with the line that was read; an empty line decodes to nothing.
  unfoldable pub receive : Bool → Publishing → SerialStatus → ℕ → List ℕ → Monitor → Done
  receive has_cache publishing serial now [] m = record { monitor = m; calls = []; raises = false }
  receive has_cache publishing serial now (b ∷ line) m =
      receive_decoded has_cache publishing serial now
        (Segment.decode utf_8 loads s (bytes (b ∷ line))) m

-- What happens to a monitor, with the answers it gets.
pub data Event : Type 0 where
  starts : CacheLoad → Bool → Bool → Event
  stops : Bool → Event
  receives : Bool → Publishing → SerialStatus → ℕ → List ℕ → Event

module _ (utf_8 : List ℕ → Option String) (loads : String → Option Json) (s : DeskSettings) where
  -- The runner reads only while the monitor runs and its task is alive.
  unfoldable pub handle : Event → Monitor → Done
  handle (starts cache source_starts task_starts) m = start cache source_starts task_starts m
  handle (stops source_stops) m = stop source_stops m
  handle (receives has_cache publishing serial now line) m =
      if m.running && is_active m.runner_task
      then receive utf_8 loads s has_cache publishing serial now line m
      else record { monitor = m; calls = []; raises = false }

  unfoldable pub handle_all : List Event → Monitor → Monitor
  handle_all [] m = m
  handle_all (event ∷ rest) m = handle_all rest (handle event m).monitor

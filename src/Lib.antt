-- ===== src/Lib.antt =====
-- A verification library for the smart desk, a FastAPI process that moves a desk (src/smart_desk).
--
-- The program. A serial source reads lines of 7-segment masks, `SegmentDecoder` makes heights of
-- them, `DeskHeightMonitor` keeps the last height and says how far it can be trusted, `RelayClient`
-- publishes commands for the ESP32 relay over MQTT and keeps the last status that it sent, and
-- `DeskController` puts the two together: it takes the commands of a user, and its runner drives the
-- desk by short pulses, each of which the relay ends by itself. Beside the desk there are the lamp, a
-- WLED device that `WledClient` drives over HTTP, and the assistant, which answers a spoken text with
-- the help of a remote model and of tools. `build_container` registers all of them as resources, which
-- the lifecycle starts and stops, and the task manager supervises their tasks.
--
-- The files under Desk:
--   Models          modules/desk/models.py and the record of `DeskSettings`
--   Settings        `DeskSettings.validate_ranges` of config/settings.py
--   Relay           modules/desk/relay.py and messages.py; Relay/Status has its invariants
--   Segment         modules/desk/segment.py; Segment/Display has displays and their packets
--   HeightMonitor   modules/desk/height_monitor.py; HeightMonitor/Online and
--                   HeightMonitor/Observed have what online means and what a line does
--   Controller      modules/desk/controller.py, by its children:
--     State         `_ControlState`, the fields of `DeskController` and their resets
--     Task          coroutines: see below
--     Guards        `_admit_motion`, `_admit_wake` and the `_require_...` checks
--     Stop          `_send_stop_bounded`, `_wait_for_fresh_stop`, `_stop_and_confirm`, `_stop_motion`
--     Wake          `_begin_wake` and the startup wake; WakeCycle has `_run_wake_cycle`
--     Motion        what a command finds in force, and the states it enters
--     Target, Hold  `set_target`, `increase_target`, `hold_up` and their kin, and the user's stop
--     Pulse         `_publish_pulse`, `_enter_settling`, `_evaluate_relay_status`
--     TargetCycle   `_run_target_cycle` and the manual hold; Cycle has `_run_cycle` and `_run`
--     Lifecycle     `start` and `stop`
--     Snapshot      `get_snapshot`
--     Session       any sequence of these operations
--     Rules, Leads  proof rules for coroutines; Sends has what the operations send
--   Examples and Controller/Examples are concrete runs.
-- The files under Core:
--   Runtime         core/runtime.py
--   Container       the registrations of core/container.py
--   Lifecycle       core/lifecycle.py; Lifecycle/Calls and Lifecycle/Order have what is started and
--                   stopped, and when
--   TaskManager     core/task_manager.py; TaskManager/Creation, TaskManager/Notified and
--                   TaskManager/Failures have what a creation does, what is recorded and told to
--                   the callback over any events, and that a shutdown is final
--   Bootstrap       the registrations of bootstrap.py; Bootstrap/Sequence and Bootstrap/Session have
--                   their order, and a start and a shutdown of the assembled application
-- Serial models modules/serial/source.py: Serial/Handles and Serial/History have which connections
-- are open. Mqtt models modules/mqtt/client.py by the steps of its runner: Mqtt/History has what is
-- subscribed. The files under Assistant:
--   Tooling         modules/assistant/tooling.py; Tooling/Routes has where a call goes
--   Service         modules/assistant/service.py and the records of models.py; Service/Turns and
--                   Service/Session have the end of a turn and what is kept of it
-- The files under Wled:
--   Json, Color     JSON values, and the colours of modules/wled/client.py
--   State, Reading  `_valid_segments`, `_segment_values`, `_snapshot_from_state`, `_verify_response`
--   Catalog         `_parse_capabilities`
--   Client          `WledClient` and its requests; Client/Operations and Client/Effect have its
--                   methods, Client/Session their common outcome
--   Percent         the conversions of modules/assistant/wled_tools.py
-- Voice/Recorder models `RmsRecorder` of modules/voice/audio.py; Recorder/Bounds has its end.
-- Voice/State and Voice/Service model the rounds of modules/voice/service.py; Service/Recovery and
-- Service/Waiting have what a round leaves.
-- Each of these has Examples of its own. Prelude has the names that the modules share.
--
-- Coroutines. A method of the controller is a function on a `World`: the controller, what the
-- coroutine can read (the clocks, the height and the relay status), the commands sent so far with
-- the state in which each went out and, of a pulse, the generation that it was asked for, and a
-- schedule of turns. The code between two awaits runs in one
-- step. At an await (a call of the relay, a wait for the event, a lock that is taken, a task) the
-- coroutine takes the next turn of the schedule: what the other tasks make of the controller, an
-- arbitrary function, then the new readings, and whether the relay call failed. A schedule that is
-- used up leaves the coroutine pending. So there is no fuel: the loop that waits for a STOP goes on
-- as long as the schedule does, and `run` is given the number of its rounds. The clock stands still
-- between two awaits. `asyncio.timeout` around a call is a failure of that call.
--
-- The other components hold a lock or do not suspend, so that an operation is one step of theirs; what
-- can happen within a step of the serial source is an input of the step. The loop of a turn of the
-- assistant has fuel, one round more than the tool calls allowed, which is proved to be enough.
--
-- Units. Heights and distances are numbers of thousandths of a centimetre, times numbers of
-- milliseconds; the rounding of floats is not modelled. A height or a number from outside can also
-- be negative, infinite or not a number. Texts shown to the user are constructors of `Detail` and
-- `Reason`, and codes and versions that the program compares are strings.
--
-- Not modelled: the cancellation of tasks inside an await (but of the serial source's), `_require_utc`,
-- logging (but which stops of resources are logged as failed), the parsers of JSON and pydantic (parameters where their result matters), the HTTP and MQTT
-- libraries, the serial device and the remote model (inputs), the storage and the profiles, the devices of the voice service and its start and stop, the cameras and the HTTP routes, the firmware and the frontend.
pub mod Assistant
pub mod Core
pub mod Desk
pub mod Mqtt
pub mod Prelude
pub mod Serial
pub mod Voice
pub mod Wled

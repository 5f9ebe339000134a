-- ===== src/Core/Examples.antt =====
-- Concrete runs of the core.
use kdt_smaty.Prelude.{
  ℕ, ◌≡◌, refl, String, str_eq, Bool, true, false, Option, none, some, List, [], ◌∷◌, ◌++◌, map,
  if◌then◌else◌,
}
use kdt_smaty.Core.Container.{ResourceRegistration}
use kdt_smaty.Core.Runtime.{ApplicationStatus}
use kdt_smaty.Core.Lifecycle.{
  start_resource, stop_resource, start_application, shutdown_application, startup_sequence,
  shutdown_sequence, Application,
}
use kdt_smaty.Core.Lifecycle.Order.{Result, fresh, start_application_lem, shutdown_application_lem}
use kdt_smaty.Core.Lifecycle.Calls.{IsStopOrder, raising}
use kdt_smaty.Core.Bootstrap.{Assembly, catalogue, build_container, resource}
use kdt_smaty.Core.Bootstrap.Sequence.{chosen, backwards, build_container_lem}
use kdt_smaty.Core.Bootstrap.Session.{session-calls}
use kdt_smaty.Core.TaskManager.{
  Progress, cancelled, raised, no_tasks, create, active_task_names, shutdown,
}
use kdt_smaty.Core.TaskManager.Failures.{
  Event, creates, ends, calls_back, after_create, handle_all, shutdown-final,
}
use kdt_smaty.Core.TaskManager.Notified.{follow_all, nothing_yet, IsNotified, handle_all-IsNotified}
use kdt_smaty.Core.TaskManager.Creation.{Outcome, create-Outcome}

-- Three resources out of order, the last of which does not start.
abbrev three : List ResourceRegistration
three = resource "desk-controller" 30 ∷ resource "sqlite" 5 ∷ resource "mqtt" 10 ∷ []

abbrev no_desk : ResourceRegistration → Option String
no_desk r = if str_eq r.name "desk-controller" then some "no height" else none

-- One stop raises.
abbrev mqtt_fails : ResourceRegistration → Option String
mqtt_fails r = if str_eq r.name "mqtt" then some "connection lost" else none

start_application_lem_example :
    Result no_desk mqtt_fails three 7 (start_application no_desk mqtt_fails three 7 (fresh 7))
start_application_lem_example = start_application_lem no_desk mqtt_fails three 7

abbrev running : Application
running = record (fresh 7) { started_resources = three }

shutdown_application_lem_example :
    let after = shutdown_application mqtt_fails 9 running in
    (after.started_resources ≡ [])
    × (after.runtime.status ≡ ApplicationStatus.stopped)
    × ((stopped : List ResourceRegistration) × IsStopOrder three stopped
        × (after.calls ≡ [] ++ map stop_resource stopped)
        × (after.failed_stops ≡ [] ++ raising mqtt_fails stopped))
shutdown_application_lem_example = shutdown_application_lem mqtt_fails 9 running

-- One camera and the lamp, and a voice assistant that could not be built.
abbrev with_lamp : Assembly
with_lamp = record {
  publish_user = true;
  publish_posture = false;
  publish_workspace = false;
  receive_user = false;
  receive_posture = false;
  receive_workspace = false;
  wled_enabled = true;
  voice_enabled = true;
  voice_builds = false;
  voice_debug_enabled = true;
}

build_container_lem_example :
    let resources = chosen (catalogue with_lamp) in
    (build_container with_lamp ≡ some resources)
    × (startup_sequence resources ≡ resources)
    × (shutdown_sequence resources ≡ backwards resources)
build_container_lem_example = build_container_lem with_lamp

abbrev all_work : ResourceRegistration → Option String
all_work r = none

session-calls_example :
    let resources = chosen (catalogue with_lamp) in
    (shutdown_application mqtt_fails 9
      (start_application all_work mqtt_fails resources 7 (fresh 7)).1).calls
    ≡ map start_resource resources ++ map stop_resource (backwards resources)
unfolding chosen
session-calls_example =
    session-calls all_work mqtt_fails with_lamp 7 9
      (refl, (refl, (refl, (refl, (refl, (refl, tt))))))

-- A critical task ends with an error, and its name is used again.
abbrev day : List Event
day =
    creates "mqtt" true
    ∷ ends 0 (raised "lost")
    ∷ calls_back "mqtt" (raised "lost")
    ∷ creates "mqtt" true
    ∷ []

handle_all-IsNotified_example :
    IsNotified true (follow_all day (no_tasks true) nothing_yet) (handle_all day (no_tasks true))
handle_all-IsNotified_example = handle_all-IsNotified true day

abbrev cancels : ℕ → Progress
cancels task = cancelled

shutdown-final_example :
    let later = handle_all day (shutdown cancels (handle_all day (no_tasks true))) in
    (active_task_names later.tasks ≡ [])
    × (later.failures ≡ (handle_all day (no_tasks true)).failures)
    × (later.notified ≡ (handle_all day (no_tasks true)).notified)
    × ((name : String) (critical : Bool) → after_create (create name critical later) later ≡ later)
shutdown-final_example = shutdown-final cancels (handle_all day (no_tasks true)) day (λ task. refl)

create-Outcome_example :
    Outcome "mqtt" true
      (handle_all day (no_tasks true))
      (create "mqtt" true (handle_all day (no_tasks true)))
create-Outcome_example = create-Outcome "mqtt" true (handle_all day (no_tasks true))

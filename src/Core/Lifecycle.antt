-- ===== src/Core/Lifecycle.antt =====
-- src/smart_desk/core/lifecycle.py: starting and stopping the shared resources. What a
-- `start` and a `stop` of a resource come to is a parameter each: the text of its exception, if it
-- raises one. What `shutdown` of the task manager does is in TaskManager.
pub mod Calls
pub mod Order
use kdt_smaty.Prelude.{
  ℕ, String, Bool, true, false, Option, none, some, List, [], ◌∷◌, ◌++◌, ltb, sort_by,
}
use kdt_smaty.Core.Runtime.{
  ApplicationStatus, StatusDetail, is_starting, is_ready, is_stopping, has_stopped,
  resource_not_started, RuntimeSnapshot, mark, mark_failed,
}
use kdt_smaty.Core.Container.{ResourceRegistration}

-- The calls of the resources, in their order.
pub data ResourceCall : Type 0 where
  start_resource stop_resource : ResourceRegistration → ResourceCall

-- The part of `AppContainer` that the lifecycle changes, with the calls that it has made and the
-- registrations for which it has logged a failed stop.
pub record Application : Type 0 where
  pub runtime : RuntimeSnapshot
  pub started_resources : List ResourceRegistration
  pub calls : List ResourceCall
  pub failed_stops : List ResourceRegistration

-- The keys of the two sorts.
abbrev pub starts_before : ResourceRegistration → ResourceRegistration → Bool
starts_before a b = ltb a.startup_order b.startup_order

abbrev pub stops_before : ResourceRegistration → ResourceRegistration → Bool
stops_before a b = ltb b.shutdown_order a.shutdown_order

unfoldable pub startup_sequence : List ResourceRegistration → List ResourceRegistration
startup_sequence = sort_by starts_before

unfoldable pub shutdown_sequence : List ResourceRegistration → List ResourceRegistration
shutdown_sequence = sort_by stops_before

module _ (starts : ResourceRegistration → Option String) where
  -- The loop of `start_application`: the registration that fails, with its error, ends it.
  unfoldable pub start_all :
      List ResourceRegistration → Application → Option (ResourceRegistration × String) × Application
  start_all [] app = (none, app)
  start_all (registration ∷ rest) app =
      let called = record app { calls = app.calls ++ start_resource registration ∷ [] } in
      let others =
        start_all rest
          (record called { started_resources = called.started_resources ++ registration ∷ [] }) in
      elim (starts registration) [
        | some error ↦ (some (registration, error), called)
        | none ↦ others
      ]

module _ (stops : ResourceRegistration → Option String) where
  -- `except Exception: LOGGER.exception(…)` behind a stop that has ended in this way.
  unfoldable pub log_failure : ResourceRegistration → Option String → Application → Application
  log_failure registration none app = app
  log_failure registration (some error) app = record app {
    failed_stops = app.failed_stops ++ registration ∷ [];
  }

  -- The loop of `_stop_started_resources`
  unfoldable pub stop_all : List ResourceRegistration → Application → Application
  unfolding log_failure
  stop_all [] app = app
  stop_all (registration ∷ rest) app = stop_all rest (
      log_failure registration (stops registration)
        (record app { calls = app.calls ++ stop_resource registration ∷ [] }))

  -- `_stop_started_resources`
  unfoldable pub stop_started_resources : Application → Application
  unfolding stop_all shutdown_sequence
  stop_started_resources app = record (stop_all (shutdown_sequence app.started_resources) app) {
    started_resources = [];
  }

  -- Behind the loop: the state that an exception leaves, or READY. The Boolean says which.
  unfoldable pub finish_start :
      ℕ → Option (ResourceRegistration × String) × Application → Bool × Application
  unfolding stop_started_resources
  finish_start now (none, app) =
      (true, record app { runtime = mark ApplicationStatus.ready is_ready now app.runtime })
  finish_start now (some (registration, error), app) = (
    false,
    stop_started_resources (record app {
      runtime = mark_failed (resource_not_started registration.name error) now app.runtime;
    }),
  )

  -- `shutdown_application`, up to the shutdown of the task manager and the last mark.
  unfoldable pub shutdown_application : ℕ → Application → Application
  unfolding stop_started_resources
  shutdown_application now app =
      let stopping = record app {
        runtime = mark ApplicationStatus.stopping is_stopping now app.runtime;
      } in
      let stopped = stop_started_resources stopping in
      record stopped { runtime = mark ApplicationStatus.stopped has_stopped now stopped.runtime }

module _ (starts stops : ResourceRegistration → Option String) where
  -- `start_application`: whether it returns, and what it leaves.
  unfoldable pub start_application :
      List ResourceRegistration → ℕ → Application → Bool × Application
  unfolding start_all finish_start startup_sequence
  start_application resources now app = finish_start stops now (
      start_all starts (startup_sequence resources)
        (record app { runtime = mark ApplicationStatus.starting is_starting now app.runtime }))

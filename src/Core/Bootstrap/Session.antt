-- ===== src/Core/Bootstrap/Session.antt =====
-- The assembly and the lifecycle together: one start and one shutdown of the application.
use kdt_smaty.Prelude.{ℕ, ◌≡◌, ap, ◌∙◌, String, Option, List, ◌++◌, map}
use kdt_smaty.Core.Container.{ResourceRegistration}
use kdt_smaty.Core.Runtime.{ApplicationStatus, is_starting, is_ready, is_stopping, initial, mark}
use kdt_smaty.Core.Lifecycle.{
  start_resource, stop_resource, Application, start_all, finish_start, start_application,
  shutdown_application, shutdown_sequence,
}
use kdt_smaty.Core.Lifecycle.Calls.{AllStart, after_starts, start_all-AllStart, stop_started-calls}
use kdt_smaty.Core.Lifecycle.Order.{fresh}
use kdt_smaty.Core.Bootstrap.{Assembly, catalogue}
use kdt_smaty.Core.Bootstrap.Sequence.{chosen, backwards, build_container_lem}

abbrev marked : ℕ → Application
marked now = record (fresh now) {
  runtime = mark ApplicationStatus.starting is_starting now (initial now);
}

shutdown-calls :
    (stops : ResourceRegistration → Option String) (later : ℕ) (app : Application)
    → (shutdown_application stops later app).calls
      ≡ app.calls ++ map stop_resource (shutdown_sequence app.started_resources)
unfolding shutdown_application
shutdown-calls stops later app =
    ap (λ a. a.calls)
      (stop_started-calls stops
        (record app { runtime = mark ApplicationStatus.stopping is_stopping later app.runtime }))

module _ (starts stops : ResourceRegistration → Option String) (settings : Assembly)
    (now later : ℕ) where
  abbrev pub resources : List ResourceRegistration
  resources = chosen (catalogue settings)

  started_calls :
      AllStart starts resources
      → (start_application starts stops resources now (fresh now)).1
        ≡ record (after_starts starts resources resources (fresh now)) {
          runtime =
              mark ApplicationStatus.ready is_ready now
                (mark ApplicationStatus.starting is_starting now (initial now));
        }
  unfolding start_application finish_start
  started_calls all =
      let (_, order, _) = build_container_lem settings in
      ap (λ seq. (finish_start stops now (start_all starts seq (marked now))).1) order
      ∙ ap (λ r. (finish_start stops now r).1)
          (start_all-AllStart starts resources (marked now) all)

  -- When every resource starts, a session of the assembled application starts each of its resources
  -- once and in the order of their registration, and then stops each once, in the opposite order,
  -- whatever the stops raise.
  pub session-calls :
      AllStart starts resources
      → (shutdown_application stops later
          (start_application starts stops resources now (fresh now)).1).calls
        ≡ map start_resource resources ++ map stop_resource (backwards resources)
  session-calls all =
      let (_, _, back) = build_container_lem settings in
      ap (λ app. (shutdown_application stops later app).calls) (started_calls all)
      ∙ shutdown-calls stops later _
      ∙ ap (λ seq. map start_resource resources ++ map stop_resource seq) back

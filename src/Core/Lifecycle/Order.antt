-- ===== src/Core/Lifecycle/Order.antt =====
-- In which order the resources are started and stopped, and which.
use kdt_smaty.Prelude.{
  ℕ, ◌≡◌, refl, sym, ap, String, Bool, true, false, inl, inr, Option, some, List, [], ◌∷◌, ◌++◌,
  map, subst,
}
use kdt_smaty.Core.Runtime.{is_starting, is_stopping, mark, mark_failed, ApplicationStatus, initial}
use kdt_smaty.Core.Container.{ResourceRegistration}
use kdt_smaty.Core.Lifecycle.{
  start_resource, stop_resource, Application, startup_sequence, shutdown_sequence, start_all,
  finish_start, start_application, shutdown_application,
}
use kdt_smaty.Core.Lifecycle.Calls.{
  IsStartOrder, IsStopOrder, AllStart, raising, after_starts, Starting,
  startup_sequence-IsStartOrder, shutdown_sequence-IsStopOrder, start_all-Starting,
  finish_start-failed, stop_started-calls,
}

-- An application that was just built.
abbrev pub fresh : ℕ → Application
fresh now = record { runtime = initial now; started_resources = []; calls = []; failed_stops = [] }

-- What a start leaves that began with no resource running.
module _ (starts stops : ResourceRegistration → Option String)
    (resources : List ResourceRegistration) (now : ℕ) where
  -- All resources run, each started once and in order, and the application is ready.
  pub record IsReady (app : Application) : Type 0 where
    all_start : AllStart starts (startup_sequence resources)
    order : IsStartOrder resources (startup_sequence resources)
    status : app.runtime.status ≡ ApplicationStatus.ready
    started : app.started_resources ≡ startup_sequence resources
    calls : app.calls ≡ map start_resource (startup_sequence resources)

  -- One resource has failed. Those before it were started, and stopped again in their order; those
  -- behind it were not touched.
  pub record IsRolledBack (app : Application) : Type 0 where
    before : List ResourceRegistration
    failing : ResourceRegistration
    behind : List ResourceRegistration
    error : String
    split : startup_sequence resources ≡ before ++ failing ∷ behind
    all_start : AllStart starts before
    fails : starts failing ≡ some error
    order : IsStartOrder resources (startup_sequence resources)
    stop_order : IsStopOrder before (shutdown_sequence before)
    status : app.runtime.status ≡ ApplicationStatus.failed
    started : app.started_resources ≡ []
    calls :
        app.calls
        ≡ map start_resource (before ++ failing ∷ [])
          ++ map stop_resource (shutdown_sequence before)
    logged : app.failed_stops ≡ raising stops (shutdown_sequence before)

  abbrev pub Result : Bool × Application → Type 0
  Result (true, app) = IsReady app
  Result (false, app) = IsRolledBack app

  -- A start that begins with nothing running either returns with all resources started, once each
  -- and in the order of their numbers, and the application ready; or it raises, and then the
  -- resources before the first failing one were started and stopped again, none behind it was
  -- touched, no resource is left running, and the application has failed, whatever these stops raise.
  pub start_application_lem : Result (start_application starts stops resources now (fresh now))
  unfolding start_application finish_start mark mark_failed
  start_application_lem = of (start_all-Starting starts (startup_sequence resources) marked)
    where
      marked : Application
      marked = record (fresh now) {
        runtime = mark ApplicationStatus.starting is_starting now (initial now);
      }

      of :
          Starting starts (startup_sequence resources) marked
          → Result (finish_start stops now (start_all starts (startup_sequence resources) marked))
      of (inl (all, same)) =
          subst (λ r. Result (finish_start stops now r)) (sym same)
            (record {
              all_start = all;
              order = startup_sequence-IsStartOrder resources;
              status = refl;
              started = refl;
              calls = refl;
            })
      of (inr (before, failing, behind, error, split, all, fails, same)) =
          subst (λ r. Result (finish_start stops now r)) (sym same)
            (subst Result
              (sym (
                finish_start-failed stops now failing error
                  (after_starts starts before (before ++ failing ∷ []) marked)))
              (record {
                before = before;
                failing = failing;
                behind = behind;
                error = error;
                split = split;
                all_start = all;
                fails = fails;
                order = startup_sequence-IsStartOrder resources;
                stop_order = shutdown_sequence-IsStopOrder before;
                status = refl;
                started = refl;
                calls = refl;
                logged = refl;
              }))

-- A shutdown stops every resource that runs once, against the order of the shutdown numbers, whatever
-- these stops raise: a failure is logged for exactly those that raise, in this order. None is left, the
-- application has stopped, and no resource is started again.
pub shutdown_application_lem :
    (stops : ResourceRegistration → Option String) (now : ℕ) (app : Application)
    → let after = shutdown_application stops now app in
      (after.started_resources ≡ [])
      × (after.runtime.status ≡ ApplicationStatus.stopped)
      × ((stopped : List ResourceRegistration) × IsStopOrder app.started_resources stopped
          × (after.calls ≡ app.calls ++ map stop_resource stopped)
          × (after.failed_stops ≡ app.failed_stops ++ raising stops stopped))
unfolding shutdown_application mark
shutdown_application_lem stops now app =
    let stopping = record app {
      runtime = mark ApplicationStatus.stopping is_stopping now app.runtime;
    } in
    (
      ap (λ a. a.started_resources) (stop_started-calls stops stopping),
      refl,
      (
        shutdown_sequence app.started_resources,
        shutdown_sequence-IsStopOrder app.started_resources,
        ap (λ a. a.calls) (stop_started-calls stops stopping),
        ap (λ a. a.failed_stops) (stop_started-calls stops stopping),
      ),
    )

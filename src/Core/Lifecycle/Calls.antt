-- ===== src/Core/Lifecycle/Calls.antt =====
-- The loops of the lifecycle by the calls that they make.
use kdt_smaty.Prelude.{
  ℕ, ◌≤◌, ◌≡◌, refl, ap, ◌∙◌, String, false, ◌⊎◌, inl, inr, Option, none, some, List, [], ◌∷◌, ◌++◌,
  map, append_assoc, append-nil, All, Perm, Ordered, sort_by-perm, sort_by-Ordered, arith,
  Option-cases,
}
use kdt_smaty.Core.Runtime.{resource_not_started, mark_failed}
use kdt_smaty.Core.Container.{ResourceRegistration}
use kdt_smaty.Core.Lifecycle.{
  start_resource, stop_resource, Application, starts_before, stops_before, startup_sequence,
  shutdown_sequence, log_failure, stop_all, stop_started_resources, start_all, finish_start,
}

abbrev pub StartsFirst : ResourceRegistration → ResourceRegistration → Type 0
StartsFirst a b = a.startup_order ≤ b.startup_order

abbrev pub StopsFirst : ResourceRegistration → ResourceRegistration → Type 0
StopsFirst a b = b.shutdown_order ≤ a.shutdown_order

-- The same resources, in the order of their starts or against the order of their stops.
abbrev pub IsStartOrder : List ResourceRegistration → List ResourceRegistration → Type 0
IsStartOrder resources seq = Perm seq resources × Ordered StartsFirst seq

abbrev pub IsStopOrder : List ResourceRegistration → List ResourceRegistration → Type 0
IsStopOrder resources seq = Perm seq resources × Ordered StopsFirst seq

pub startup_sequence-IsStartOrder :
    (resources : List ResourceRegistration) → IsStartOrder resources (startup_sequence resources)
unfolding startup_sequence
startup_sequence-IsStartOrder resources = (
  sort_by-perm starts_before resources,
  sort_by-Ordered starts_before StartsFirst (λ x y h. ground arith) (λ x y h. ground arith)
      (λ x y z h k. omega arith) resources,
)

pub shutdown_sequence-IsStopOrder :
    (resources : List ResourceRegistration) → IsStopOrder resources (shutdown_sequence resources)
unfolding shutdown_sequence
shutdown_sequence-IsStopOrder resources = (
  sort_by-perm stops_before resources,
  sort_by-Ordered stops_before StopsFirst (λ x y h. ground arith) (λ x y h. ground arith)
      (λ x y z h k. omega arith) resources,
)

-- Those of a list whose stop raises.
abbrev raising_first :
    ResourceRegistration → Option String → List ResourceRegistration → List ResourceRegistration
raising_first r none rest = rest
raising_first r (some error) rest = r ∷ rest

unfoldable pub raising :
    (ResourceRegistration → Option String) → List ResourceRegistration → List ResourceRegistration
raising stops [] = []
raising stops (r ∷ rs) = raising_first r (stops r) (raising stops rs)

module _ (stops : ResourceRegistration → Option String) where
  -- After all of a list have been stopped.
  abbrev pub after_stops : List ResourceRegistration → Application → Application
  after_stops rs app = record app {
    calls = app.calls ++ map stop_resource rs;
    failed_stops = app.failed_stops ++ raising stops rs;
  }

  stop_all-calls :
      (rs : List ResourceRegistration) (app : Application)
      → stop_all stops rs app ≡ after_stops rs app
  unfolding stop_all raising log_failure
  stop_all-calls [] app = rw (append-nil app.calls, append-nil app.failed_stops) refl
  stop_all-calls (r ∷ rs) app = elim (Option-cases (stops r)) [
    | inl works ↦ rw works (stop_all-calls rs _ ∙ (rw (append_assoc app.calls) refl))
    | inr (error, fails) ↦
        rw fails
          (stop_all-calls rs _ ∙ (rw (append_assoc app.calls, append_assoc app.failed_stops) refl))
  ]

  pub stop_started-calls :
      (app : Application)
      → stop_started_resources stops app
        ≡ record (after_stops (shutdown_sequence app.started_resources) app) {
          started_resources = [];
        }
  unfolding stop_started_resources
  stop_started-calls app =
      ap {A = Application} (λ a. record a { started_resources = [] })
        (stop_all-calls (shutdown_sequence app.started_resources) app)

  -- What a failed start leaves.
  abbrev pub rolled_back : ℕ → ResourceRegistration → String → Application → Application
  rolled_back now registration error app =
      record (after_stops (shutdown_sequence app.started_resources) app) {
        runtime = mark_failed (resource_not_started registration.name error) now app.runtime;
        started_resources = [];
      }

  pub finish_start-failed :
      (now : ℕ) (r : ResourceRegistration) (error : String) (app : Application)
      → finish_start stops now (some (r, error), app) ≡ (false, rolled_back now r error app)
  unfolding finish_start
  finish_start-failed now r error app =
      ap {A = Application} (λ a. (false, a))
        (stop_started-calls (record app {
          runtime = mark_failed (resource_not_started r.name error) now app.runtime;
        }))

module _ (starts : ResourceRegistration → Option String) where
  abbrev pub AllStart : List ResourceRegistration → Type 0
  AllStart = All (λ r. starts r ≡ none)

  -- After the first resources of a sequence have been started.
  abbrev pub after_starts :
      List ResourceRegistration → List ResourceRegistration → Application → Application
  after_starts started called app = record app {
    started_resources = app.started_resources ++ started;
    calls = app.calls ++ map start_resource called;
  }

  -- The loop starts all, or stops at the first that fails.
  abbrev pub Starting : List ResourceRegistration → Application → Type 0
  Starting rs app =
      (AllStart rs × (start_all starts rs app ≡ (none, after_starts rs rs app)))
      ⊎ ((before : List ResourceRegistration) × (failing : ResourceRegistration) × (behind : List
            ResourceRegistration)
          × (error : String) × (rs ≡ before ++ failing ∷ behind)
          × AllStart before
          × (starts failing ≡ some error)
          × (start_all starts rs app
              ≡ (some (failing, error), after_starts before (before ++ failing ∷ []) app)))

  one_more :
      (r : ResourceRegistration) (before called : List ResourceRegistration) (app : Application)
      → after_starts before called (record app {
        started_resources = app.started_resources ++ r ∷ [];
        calls = app.calls ++ start_resource r ∷ [];
      })
        ≡ after_starts (r ∷ before) (r ∷ called) app
  one_more r before called app = simp append_assoc

  Starting-more :
      (r : ResourceRegistration) (rs : List ResourceRegistration) (app : Application)
      → starts r ≡ none
      → Starting rs (record app {
        started_resources = app.started_resources ++ r ∷ [];
        calls = app.calls ++ start_resource r ∷ [];
      })
      → Starting (r ∷ rs) app
  unfolding start_all
  Starting-more r rs app e (inl (all, same)) =
      inl ((e, all), rw (e, start_all) (same ∙ ap (λ a. (none, a)) (one_more r rs rs app)))
  Starting-more r rs app e (inr (before, failing, behind, error, split, all, fails, same)) = inr (
    r ∷ before,
    failing,
    behind,
    error,
    ap (λ l. r ∷ l) split,
    (e, all),
    fails,
    rw (e, start_all) (same ∙ ap (λ a. (some (failing, error), a)) (one_more r before _ app)),
  )

  pub start_all-AllStart :
      (rs : List ResourceRegistration) (app : Application)
      → AllStart rs
      → start_all starts rs app ≡ (none, after_starts rs rs app)
  unfolding start_all
  start_all-AllStart [] app all = simp append-nil
  start_all-AllStart (r ∷ rs) app (e, all) =
      rw (e, start_all) (start_all-AllStart rs _ all ∙ ap (λ a. (none, a)) (one_more r rs rs app))

  pub start_all-Starting : (rs : List ResourceRegistration) (app : Application) → Starting rs app
  unfolding start_all
  start_all-Starting [] app = inl (tt, simp append-nil)
  start_all-Starting (r ∷ rs) app = elim (Option-cases (starts r)) [
    | inl works ↦ Starting-more r rs app works (start_all-Starting rs _)
    | inr (error, fails) ↦
        inr ([], r, rs, error, refl, tt, fails, rw (fails, start_all) (simp append-nil))
  ]

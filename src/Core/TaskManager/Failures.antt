-- ===== src/Core/TaskManager/Failures.antt =====
-- What a manager keeps over any sequence of its events. The event loop runs a task's done callback
-- some time after the task has ended, so the two are events of their own.
use kdt_smaty.Prelude.{
  ℕ, ◌≡◌, refl, sym, ap, String, Bool, true, inl, inr, List, [], ◌∷◌, All, if_true, subst,
  Bool-cases, ◌==◌,
}
use kdt_smaty.Core.TaskManager.{
  Progress, active, returned, cancelled, raised, is_done, Entry, Manager, Created, created, refused,
  runs_task, create, active_task_names, settle, on_done, end_all, shutdown,
}

pub data Event : Type 0 where
  creates : String → Bool → Event
  ends : ℕ → Progress → Event
  calls_back : String → Progress → Event
  shuts_down : (ℕ → Progress) → Event

abbrev pub after_create : Created → Manager → Manager
after_create (created task m) before = m
after_create (refused error) before = before

unfoldable pub handle : Event → Manager → Manager
unfolding create settle on_done shutdown
handle (creates name critical) m = after_create (create name critical m) m
handle (ends task progress) m = record m { tasks = settle task progress m.tasks }
handle (calls_back name progress) m = on_done name progress m
handle (shuts_down outcome) m = shutdown outcome m

unfoldable pub handle_all : List Event → Manager → Manager
unfolding handle
handle_all [] m = m
handle_all (event ∷ rest) m = handle_all rest (handle event m)

-- A creation leaves the records alone.
pub create-keeps :
    (name : String) (critical : Bool) (m : Manager)
    → let m' = after_create (create name critical m) m in
      (m'.failures ≡ m.failures)
      × (m'.notified ≡ m.notified)
      × (m'.closing ≡ m.closing)
      × (m'.has_callback ≡ m.has_callback)
unfolding create
create-keeps name critical m = elim (Bool-cases (runs_task name m.tasks)) [
  | inl taken ↦ rw taken (refl, refl, refl, refl)
  | inr free ↦ elim (Bool-cases m.closing) [
    | inl closing ↦ rw (free, closing) (refl, refl, refl, refl)
    | inr going ↦ rw (free, going) (refl, refl, refl, refl)
  ]
]

-- A manager that has been shut down, with the records it had then.
abbrev AllDone : List Entry → Type 0
AllDone = All (λ entry. is_done entry.progress ≡ true)

pub record IsClosed (before m : Manager) : Type 0 where
  closing : m.closing ≡ true
  all_done : AllDone m.tasks
  failures : m.failures ≡ before.failures
  notified : m.notified ≡ before.notified

settle-AllDone :
    (task : ℕ) (progress : Progress) (tasks : List Entry)
    → AllDone tasks
    → settle task progress tasks ≡ tasks
unfolding settle
settle-AllDone task progress [] h = refl
settle-AllDone task progress (entry ∷ rest) h = elim (Bool-cases (entry.task == task)) [
  | inl same ↦ rw (same, h.0) (ap (λ l. entry ∷ l) (settle-AllDone task progress rest h.1))
  | inr other ↦ rw other (ap (λ l. entry ∷ l) (settle-AllDone task progress rest h.1))
]

end_all-AllDone :
    (outcome : ℕ → Progress) (tasks : List Entry)
    → ((task : ℕ) → is_done (outcome task) ≡ true)
    → AllDone (end_all outcome tasks)
unfolding end_all
end_all-AllDone outcome [] h = tt
end_all-AllDone outcome (entry ∷ rest) h = elim (Bool-cases (is_done entry.progress)) [
  | inl over ↦ (rw over over, end_all-AllDone outcome rest h)
  | inr runs ↦ (rw runs (h entry.task), end_all-AllDone outcome rest h)
]

AllDone-active_task_names : (tasks : List Entry) → AllDone tasks → active_task_names tasks ≡ []
unfolding active_task_names
AllDone-active_task_names [] h = refl
AllDone-active_task_names (entry ∷ rest) h = rw (h.0, AllDone-active_task_names rest h.1) refl

create-closing :
    (name : String) (critical : Bool) (m : Manager)
    → m.closing ≡ true
    → after_create (create name critical m) m ≡ m
unfolding create
create-closing name critical m closing = elim (Bool-cases (runs_task name m.tasks)) [
  | inl taken ↦ rw taken refl
  | inr free ↦ rw (free, closing) refl
]

end_all-again :
    (outcome : ℕ → Progress) (tasks : List Entry) → AllDone tasks → AllDone (end_all outcome tasks)
unfolding end_all
end_all-again outcome [] h = tt
end_all-again outcome (entry ∷ rest) h = (rw h.0 h.0, end_all-again outcome rest h.1)

handle-IsClosed :
    (event : Event) (before m : Manager) → IsClosed before m → IsClosed before (handle event m)
unfolding handle on_done shutdown
handle-IsClosed (creates name critical) before m h =
    subst (IsClosed before) (sym (create-closing name critical m h.closing)) h
handle-IsClosed (ends task progress) before m h = record {
  closing = h.closing;
  all_done = subst AllDone (sym (settle-AllDone task progress m.tasks h.all_done)) h.all_done;
  failures = h.failures;
  notified = h.notified;
}
handle-IsClosed (calls_back name (raised error)) before m h =
    subst (IsClosed before) (sym (if_true m.closing m _ h.closing)) h
handle-IsClosed (calls_back name active) before m h = h
handle-IsClosed (calls_back name returned) before m h = h
handle-IsClosed (calls_back name cancelled) before m h = h
handle-IsClosed (shuts_down outcome) before m h = record {
  closing = refl;
  all_done = end_all-again outcome m.tasks h.all_done;
  failures = h.failures;
  notified = h.notified;
}

handle_all-IsClosed :
    (events : List Event) (before m : Manager)
    → IsClosed before m
    → IsClosed before (handle_all events m)
unfolding handle_all
handle_all-IsClosed [] before m h = h
handle_all-IsClosed (event ∷ rest) before m h =
    handle_all-IsClosed rest before (handle event m) (handle-IsClosed event before m h)

-- A shutdown that every task survives only by ending leaves no active task, and it is final: whatever
-- comes behind it, no task is active, nothing is recorded or reported any more, and a creation leaves
-- the manager as it is.
pub shutdown-final :
    (outcome : ℕ → Progress) (m : Manager) (events : List Event)
    → ((task : ℕ) → is_done (outcome task) ≡ true)
    → let later = handle_all events (shutdown outcome m) in
      (active_task_names later.tasks ≡ [])
      × (later.failures ≡ m.failures)
      × (later.notified ≡ m.notified)
      × ((name : String) (critical : Bool)
          → after_create (create name critical later) later ≡ later)
unfolding shutdown
shutdown-final outcome m events finishing =
    let h = handle_all-IsClosed events m (shutdown outcome m) (record {
      closing = refl;
      all_done = end_all-AllDone outcome m.tasks finishing;
      failures = refl;
      notified = refl;
    }) in
    (
      AllDone-active_task_names (handle_all events (shutdown outcome m)).tasks h.all_done,
      h.failures,
      h.notified,
      λ name critical. create-closing name critical _ h.closing,
    )

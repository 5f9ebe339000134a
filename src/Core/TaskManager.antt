-- ===== src/Core/TaskManager.antt =====
-- src/smart_desk/core/task_manager.py: the tasks of the process by their names. A task is a number,
-- and what has become of it is told by the event loop: `Progress`.
pub mod Failures
pub mod Notified
pub mod Creation
use kdt_smaty.Prelude.{
  ℕ, suc, String, str_eq, Bool, true, false, not, ◌&&◌, ◌||◌, Option, none, some, List, [], ◌∷◌,
  ◌++◌, ◌==◌, if◌then◌else◌,
}

-- A task runs, or it has returned, was cancelled, or has ended with an exception.
pub data Progress : Type 0 where
  active returned cancelled : Progress
  raised : String → Progress

abbrev pub is_done : Progress → Bool
is_done active = false
is_done _ = true

pub record Entry : Type 0 where
  pub name : String
  pub task : ℕ
  pub progress : Progress

pub record TaskFailure : Type 0 where
  pub name : String
  pub critical : Bool
  pub error : String

-- `TaskManager`: whether it was given `on_critical_failure`, and the calls of it that it has made.
pub record Manager : Type 0 where
  pub tasks : List Entry
  pub critical : List (String × Bool)
  pub failures : List TaskFailure
  pub has_callback : Bool
  pub closing : Bool
  pub next_task : ℕ
  pub notified : List (String × String)

-- `__init__`
abbrev pub no_tasks : Bool → Manager
no_tasks has_callback = record {
  has_callback = has_callback;
  tasks = [];
  critical = [];
  failures = [];
  closing = false;
  next_task = 0;
  notified = [];
}

pub data CreateError : Type 0 where
  duplicate_task closing_down : CreateError

pub data Created : Type 0 where
  created : ℕ → Manager → Created
  refused : CreateError → Created

-- `name` runs under an entry of the dictionary.
unfoldable pub runs_task : String → List Entry → Bool
runs_task name [] = false
runs_task name (entry ∷ rest) =
    (str_eq entry.name name && not (is_done entry.progress)) || runs_task name rest

-- `self._tasks[name] = task`: the entry of that name is replaced where it stands.
unfoldable pub set_task : Entry → List Entry → List Entry
set_task new [] = new ∷ []
set_task new (entry ∷ rest) =
    if str_eq entry.name new.name then new ∷ rest else entry ∷ set_task new rest

unfoldable pub set_critical : String → Bool → List (String × Bool) → List (String × Bool)
set_critical name critical [] = (name, critical) ∷ []
set_critical name critical ((other, flag) ∷ rest) =
    if str_eq other name
    then (name, critical) ∷ rest
    else (other, flag) ∷ set_critical name critical rest

-- `self._critical.get(name, False)`
unfoldable pub is_critical : String → List (String × Bool) → Bool
is_critical name [] = false
is_critical name ((other, flag) ∷ rest) =
    let found = is_critical name rest in if str_eq other name then flag else found

-- `create`
unfoldable pub create : String → Bool → Manager → Created
unfolding runs_task set_task set_critical
create name critical m =
    if runs_task name m.tasks
    then refused duplicate_task
    else if m.closing
    then refused closing_down
    else created m.next_task (record m {
      tasks = set_task (record { name = name; task = m.next_task; progress = active }) m.tasks;
      critical = set_critical name critical m.critical;
      next_task = suc m.next_task;
    })

-- `active_task_names`
unfoldable pub active_task_names : List Entry → List String
active_task_names [] = []
active_task_names (entry ∷ rest) =
    if is_done entry.progress then active_task_names rest else entry.name ∷ active_task_names rest

-- A task that the event loop has seen to end.
unfoldable pub settle : ℕ → Progress → List Entry → List Entry
settle task progress [] = []
settle task progress (entry ∷ rest) =
    (if (entry.task == task) && not (is_done entry.progress)
      then record entry { progress = progress }
      else entry)
    ∷ settle task progress rest

unfoldable pub record_failure : String → String → Manager → Manager
unfolding is_critical
record_failure name error m =
    let critical = is_critical name m.critical in
    record m {
      failures = m.failures ++ record { name = name; critical = critical; error = error } ∷ [];
      notified =
          if critical && m.has_callback then m.notified ++ (name, error) ∷ [] else m.notified;
    }

-- `_on_done`, with the outcome of the task
unfoldable pub on_done : String → Progress → Manager → Manager
unfolding record_failure
on_done name (raised error) m = if m.closing then m else record_failure name error m
on_done name _ m = m

-- What cancelling and then gathering the tasks leaves: each has ended in some way.
unfoldable pub end_all : (ℕ → Progress) → List Entry → List Entry
end_all outcome [] = []
end_all outcome (entry ∷ rest) =
    (if is_done entry.progress then entry else record entry { progress = outcome entry.task })
    ∷ end_all outcome rest

-- `shutdown`, told how each task ends after it was cancelled
unfoldable pub shutdown : (ℕ → Progress) → Manager → Manager
unfolding end_all
shutdown outcome m = record m { closing = true; tasks = end_all outcome m.tasks }

-- ===== src/Core/TaskManager/Notified.antt =====
-- Which failures a manager records, and of which it has told the callback for critical failures.
use text.Mathlib.TextEquality.{eq_iff}
use kdt_smaty.Prelude.{
  arith, ◌≡◌, refl, sym, ap, ◌∙◌, subst, String, str_eq, Bool, true, false, ◌||◌, inl, inr, List,
  [], ◌∷◌, ◌++◌, append-nil, Bool-cases, if◌then◌else◌,
}
use kdt_smaty.Core.TaskManager.{
  active, returned, cancelled, raised, TaskFailure, Manager, no_tasks, runs_task, set_critical,
  is_critical, create, record_failure, on_done, shutdown,
}
use kdt_smaty.Core.TaskManager.Creation.{same_name}
use kdt_smaty.Core.TaskManager.Failures.{
  Event, creates, ends, calls_back, shuts_down, after_create, create-keeps, handle, handle_all,
}

-- What the events so far say: which names were last created as critical, whether there was a shutdown,
-- and which failures were reported before it.
pub record History : Type 0 where
  pub flags : String → Bool
  pub closed : Bool
  pub failures : List TaskFailure

abbrev pub nothing_yet : History
nothing_yet = record { flags = λ name. false; closed = false; failures = [] }

-- A creation that is not refused gives its name its criticality.
abbrev flags_after : Bool → String → Bool → (String → Bool) → String → Bool
flags_after refuses name critical flags other =
    if refuses then flags other else if str_eq name other then critical else flags other

abbrev pub follow : Event → Manager → History → History
follow (creates name critical) m h = record h {
  flags = flags_after (runs_task name m.tasks || h.closed) name critical h.flags;
}
follow (calls_back name (raised error)) m h = record h {
  failures =
      if h.closed
      then h.failures
      else h.failures ++ record { name = name; critical = h.flags name; error = error } ∷ [];
}
follow (shuts_down outcome) m h = record h { closed = true }
follow _ m h = h

-- The history of events that begin with this manager.
unfoldable pub follow_all : List Event → Manager → History → History
follow_all [] m h = h
follow_all (event ∷ rest) m h = follow_all rest (handle event m) (follow event m h)

-- The failures of critical tasks.
unfoldable pub critical_ones : List TaskFailure → List (String × String)
critical_ones [] = []
critical_ones (failure ∷ rest) =
    if failure.critical
    then (failure.name, failure.error) ∷ critical_ones rest
    else critical_ones rest

critical_ones-append :
    (l l' : List TaskFailure) → critical_ones (l ++ l') ≡ critical_ones l ++ critical_ones l'
unfolding critical_ones
critical_ones-append [] l' = refl
critical_ones-append (f ∷ l) l' = elim (Bool-cases f.critical) [
  | inl told ↦ rw told (ap (λ x. (f.name, f.error) ∷ x) (critical_ones-append l l'))
  | inr quiet ↦ rw quiet (critical_ones-append l l')
]

-- The calls of the callback, if there is one.
abbrev calls_for : Bool → List TaskFailure → List (String × String)
calls_for true failures = critical_ones failures
calls_for false failures = []

-- The manager has recorded the failures of the history, and has told the callback of those of critical
-- tasks, if it was given one.
abbrev pub IsNotified : Bool → History → Manager → Type 0
IsNotified has_callback h m =
    (m.failures ≡ h.failures) × (m.notified ≡ calls_for has_callback h.failures)

pub record Follows (has_callback : Bool) (h : History) (m : Manager) : Type 0 where
  flags : (name : String) → is_critical name m.critical ≡ h.flags name
  closed : m.closing ≡ h.closed
  callback : m.has_callback ≡ has_callback
  notified : IsNotified has_callback h m

is_critical-other :
    (name other : String) (critical : Bool) (flags : List (String × Bool))
    → is_critical other (set_critical name critical flags)
      ≡ (if str_eq name other then critical else is_critical other flags)
unfolding is_critical set_critical
is_critical-other name other critical [] = refl
is_critical-other name other critical ((first, flag) ∷ rest) =
    elim (Bool-cases (str_eq first name)) [
      | inl same ↦ rw (same, same_name first name other same) (ground arith)
      | inr differs ↦ rw differs (
          rw (is_critical-other name other critical rest) (elim (Bool-cases (str_eq name other)) [
            | inl here ↦
                rw (here, subst (λ x. str_eq first x ≡ false) ((eq_iff name other).0 here) differs)
                  refl
            | inr elsewhere ↦ rw elsewhere refl
          ]))
    ]

create-flags :
    (name : String) (critical : Bool) (m : Manager) (other : String)
    → is_critical other (after_create (create name critical m) m).critical
      ≡ flags_after
          (runs_task name m.tasks || m.closing)
          name
          critical
          (λ n. is_critical n m.critical)
          other
unfolding create
create-flags name critical m other = elim (Bool-cases (runs_task name m.tasks)) [
  | inl taken ↦ rw taken refl
  | inr free ↦ elim (Bool-cases m.closing) [
    | inl closing ↦ rw (free, closing) refl
    | inr going ↦ rw (free, going) (is_critical-other name other critical m.critical)
  ]
]

record_failure-calls :
    (name error : String) (b : Bool) (m : Manager)
    → m.has_callback ≡ b
    → m.notified ≡ calls_for b m.failures
    → (record_failure name error m).notified
      ≡ calls_for b (
          m.failures
          ++ record { name = name; critical = is_critical name m.critical; error = error } ∷ [])
unfolding record_failure critical_ones
record_failure-calls name error true m given h = elim (Bool-cases (is_critical name m.critical)) [
  | inl told ↦
      rw (told, given)
        (ap (λ l. l ++ (name, error) ∷ []) h ∙ sym (critical_ones-append m.failures _))
  | inr quiet ↦
      rw quiet
        (h ∙ sym (append-nil (critical_ones m.failures)) ∙ sym (critical_ones-append m.failures _))
]
record_failure-calls name error false m given h = elim (Bool-cases (is_critical name m.critical)) [
  | inl told ↦ rw (told, given) h
  | inr quiet ↦ rw quiet h
]

reported :
    (name error : String) (b : Bool) (h : History) (m : Manager)
    → Follows b h m
    → (closing : Bool)
    → Follows b
        (record h {
          failures =
              if closing
              then h.failures
              else h.failures
                ++ record { name = name; critical = h.flags name; error = error } ∷ [];
        })
        (if closing then m else record_failure name error m)
unfolding record_failure
reported name error b h m f true = f
reported name error b h m f false =
    let noted : m.failures
          ++ record { name = name; critical = is_critical name m.critical; error = error } ∷ []
        ≡ h.failures ++ record { name = name; critical = h.flags name; error = error } ∷ [] =
      λ i.
        f.notified.0 i ++ record { name = name; critical = f.flags name i; error = error } ∷ [] in
    record {
      flags = f.flags;
      closed = f.closed;
      callback = f.callback;
      notified = (
        noted,
        record_failure-calls name error b m f.callback
              (f.notified.1 ∙ ap (calls_for b) (sym f.notified.0))
            ∙ ap (calls_for b) noted,
      );
    }

handle-Follows :
    (has_callback : Bool) (event : Event) (h : History) (m : Manager)
    → Follows has_callback h m
    → Follows has_callback (follow event m h) (handle event m)
unfolding handle on_done shutdown
handle-Follows b (creates name critical) h m f =
    let (failures, notified, closing, callback) = create-keeps name critical m in
    record {
      flags = λ other. create-flags name critical m other ∙ (λ i.
          flags_after (runs_task name m.tasks || f.closed i) name critical (λ n. f.flags n i)
            other);
      closed = closing ∙ f.closed;
      callback = callback ∙ f.callback;
      notified = (failures ∙ f.notified.0, notified ∙ f.notified.1);
    }
handle-Follows b (ends task progress) h m f = record {
  flags = f.flags;
  closed = f.closed;
  callback = f.callback;
  notified = f.notified;
}
handle-Follows b (calls_back name (raised error)) h m f =
    subst
      (λ c.
        Follows b
          (record h {
            failures =
                if c
                then h.failures
                else h.failures
                  ++ record { name = name; critical = h.flags name; error = error } ∷ [];
          })
          (if m.closing then m else record_failure name error m))
      f.closed (reported name error b h m f m.closing)
handle-Follows b (calls_back name active) h m f = f
handle-Follows b (calls_back name returned) h m f = f
handle-Follows b (calls_back name cancelled) h m f = f
handle-Follows b (shuts_down outcome) h m f = record {
  flags = f.flags;
  closed = refl;
  callback = f.callback;
  notified = f.notified;
}

handle_all-Follows :
    (has_callback : Bool) (events : List Event) (h : History) (m : Manager)
    → Follows has_callback h m
    → Follows has_callback (follow_all events m h) (handle_all events m)
unfolding handle_all follow_all
handle_all-Follows b [] h m f = f
handle_all-Follows b (event ∷ rest) h m f =
    handle_all-Follows b rest (follow event m h) (handle event m) (handle-Follows b event h m f)

-- Over any events of a new manager, the failures recorded are those that were reported before the
-- first shutdown, each as critical exactly if the last creation of its name that was not refused was
-- critical. The callback for critical failures, if the manager was given one, was called for exactly
-- the critical ones, once each, in their order, with their names and errors; without one no call was
-- made.
pub handle_all-IsNotified :
    (has_callback : Bool) (events : List Event)
    → IsNotified has_callback
        (follow_all events (no_tasks has_callback) nothing_yet)
        (handle_all events (no_tasks has_callback))
unfolding is_critical critical_ones
handle_all-IsNotified true events =
    (handle_all-Follows true events nothing_yet (no_tasks true) (record {
      flags = λ name. refl;
      closed = refl;
      callback = refl;
      notified = (refl, refl);
    })).notified
handle_all-IsNotified false events =
    (handle_all-Follows false events nothing_yet (no_tasks false) (record {
      flags = λ name. refl;
      closed = refl;
      callback = refl;
      notified = (refl, refl);
    })).notified

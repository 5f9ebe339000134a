-- ===== src/Core/TaskManager/Creation.antt =====
-- When a task is created, and which tasks run then.
use kdt_smaty.Prelude.{
  neither, ℕ, ◌≡◌, refl, sym, ap, ◌∙◌, subst, String, str_eq, Bool, true, false, not, ◌&&◌, ◌||◌,
  inl, inr, List, [], ◌∷◌, Bool-cases, if_true, if_false,
}
use text.Mathlib.TextEquality.{eq_iff}
use kdt_smaty.Core.TaskManager.{
  active, is_done, Entry, Manager, duplicate_task, closing_down, Created, created, refused,
  runs_task, set_task, set_critical, create, is_critical,
}

abbrev started : String → ℕ → Entry
started name task = record { name = name; task = task; progress = active }

pub same_name : (a b c : String) → str_eq a b ≡ true → str_eq a c ≡ str_eq b c
same_name a b c h = ap (λ x. str_eq x c) ((eq_iff a b).0 h)

pub itself : (a : String) → str_eq a a ≡ true
itself a = (eq_iff a a).1 refl

swap_or : (a b c : Bool) → (a || (b || c)) ≡ (b || (a || c))
swap_or true true c = refl
swap_or true false c = refl
swap_or false b c = refl

and_true : (a b : Bool) → (a && true || b) ≡ (a || b)
and_true true b = refl
and_true false b = refl

absorbs : (a b c : Bool) → (a && true || c) ≡ (a || (a && b || c))
absorbs true b c = refl
absorbs false b c = refl

runs_task-set_task :
    (name other : String) (task : ℕ) (tasks : List Entry)
    → runs_task name tasks ≡ false
    → runs_task other (set_task (started name task) tasks)
      ≡ (str_eq name other || runs_task other tasks)
unfolding runs_task set_task
runs_task-set_task name other task [] h = and_true (str_eq name other) false
runs_task-set_task name other task (entry ∷ rest) h = elim (Bool-cases (str_eq entry.name name)) [
  | inl same ↦ rw (same, same_name entry.name name other same) (absorbs (str_eq name other) _ _)
  | inr differs ↦
      let (_, idle) = neither (str_eq entry.name name && not (is_done entry.progress)) _ h in
      rw differs (
        ap (λ b. str_eq entry.name other && not (is_done entry.progress) || b)
          (runs_task-set_task name other task rest idle)
        ∙ swap_or (str_eq entry.name other && not (is_done entry.progress)) _ _)
]

is_critical-set_critical :
    (name : String) (critical : Bool) (flags : List (String × Bool))
    → is_critical name (set_critical name critical flags) ≡ critical
unfolding is_critical set_critical
is_critical-set_critical name critical [] = if_true _ critical false (itself name)
is_critical-set_critical name critical ((other, flag) ∷ rest) =
    elim (Bool-cases (str_eq other name)) [
      | inl same ↦ rw same (if_true _ _ _ (itself name))
      | inr differs ↦ rw differs (rw differs (is_critical-set_critical name critical rest))
    ]

-- What a creation does, by what runs and whether the manager closes.
pub data Outcome (name : String) (critical : Bool) (m : Manager) : Created → Type 0 where
  is_duplicate : runs_task name m.tasks ≡ true → Outcome name critical m (refused duplicate_task)
  is_closing :
      runs_task name m.tasks ≡ false
      → m.closing ≡ true
      → Outcome name critical m (refused closing_down)
  is_created :
      (m' : Manager)
      → runs_task name m.tasks ≡ false
      → m.closing ≡ false
      → ((other : String)
          → runs_task other m'.tasks ≡ (str_eq name other || runs_task other m.tasks))
      → is_critical name m'.critical ≡ critical
      → m'.failures ≡ m.failures
      → Outcome name critical m (created m.next_task m')

-- A creation is refused if a task of that name runs, else if the manager is closing. Otherwise the new
-- task runs under its name with the criticality given, every other name runs exactly if it did, and
-- the failures recorded stay.
pub create-Outcome :
    (name : String) (critical : Bool) (m : Manager)
    → Outcome name critical m (create name critical m)
unfolding create
create-Outcome name critical m = elim (Bool-cases (runs_task name m.tasks)) [
  | inl runs ↦ subst (Outcome name critical m) (sym (if_true _ _ _ runs)) (is_duplicate runs)
  | inr idle ↦
      subst (Outcome name critical m) (sym (if_false _ _ _ idle)) (elim (Bool-cases m.closing) [
        | inl closing ↦
            subst (Outcome name critical m) (sym (if_true _ _ _ closing)) (is_closing idle closing)
        | inr going ↦ subst (Outcome name critical m) (sym (if_false _ _ _ going)) (
            is_created _ idle going
              (λ other. runs_task-set_task name other m.next_task m.tasks idle)
              (is_critical-set_critical name critical m.critical) refl)
      ])
]

-- ===== src/Core/Runtime.antt =====
-- src/smart_desk/core/runtime.py: the state of the application. Its lock is held for one assignment
-- only, so an operation is one step.
use kdt_smaty.Prelude.{ℕ, String, Bool, true, false}

pub data ApplicationStatus : Type 0 where
  created starting ready stopping stopped failed : ApplicationStatus

-- The texts that the program gives to a state.
pub data StatusDetail : Type 0 where
  was_created is_starting is_ready is_stopping has_stopped : StatusDetail
  resource_not_started : String → String → StatusDetail
  task_ended : String → String → StatusDetail

pub record RuntimeSnapshot : Type 0 where
  pub status : ApplicationStatus
  pub detail : StatusDetail
  pub updated_at : ℕ

-- `__init__`
abbrev pub initial : ℕ → RuntimeSnapshot
initial now = record { status = ApplicationStatus.created; detail = was_created; updated_at = now }

unfoldable pub mark : ApplicationStatus → StatusDetail → ℕ → RuntimeSnapshot → RuntimeSnapshot
mark status detail now before = record { status = status; detail = detail; updated_at = now }

unfoldable pub mark_failed : StatusDetail → ℕ → RuntimeSnapshot → RuntimeSnapshot
unfolding mark
mark_failed detail now before = mark ApplicationStatus.failed detail now before

-- `RuntimeSnapshot.ready`
unfoldable pub is_application_ready : RuntimeSnapshot → Bool
is_application_ready snapshot = elim snapshot.status [ ApplicationStatus.ready ↦ true | _ ↦ false ]

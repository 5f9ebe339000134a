-- ===== src/Desk/Controller/Target/Checked.antt =====
-- Which values are taken as targets.
use kdt_smaty.Prelude.{
  ℕ, ◌≤◌, ◌≡◌, ◌↔◌, refl, sym, subst, Bool, true, false, ◌&&◌, leb, arith, if◌then◌else◌, if_true,
}
use kdt_smaty.Desk.Models.{finite, negative, infinite, nan, DeskSettings}
use kdt_smaty.Desk.Controller.State.{MotionMode}
use kdt_smaty.Desk.Controller.Task.{Error, ok, raised, World, Task}
use kdt_smaty.Desk.Controller.Guards.{Value, boolean, number, oversized, other, validate_number}
use kdt_smaty.Desk.Controller.Motion.{is_active}
use kdt_smaty.Desk.Controller.Target.{check_target}

accepted :
    (b : Bool) (n target : ℕ)
    → (if b then ok n else raised Error.value_error) ≡ ok target
    → (b ≡ true) × (n ≡ target)
accepted true n target e = (refl, cc)
accepted false n target e = cc

idle_branch :
    {T : Type 0} (mode : MotionMode) (m n : Task T) (w : World)
    → mode ≡ MotionMode.none
    → (if is_active mode then m else n) w ≡ n w
idle_branch mode m n w idle = rw idle refl

module _ (s : DeskSettings) where
  -- A finite number of the operating range.
  abbrev pub IsTarget : Value → ℕ → Type 0
  IsTarget value target =
      (value ≡ number (finite target))
      × (s.operation_min_cm ≤ target)
      × (target ≤ s.operation_max_cm)

  taken : (value : Value) (target : ℕ) → check_target s value ≡ ok target → IsTarget value target
  unfolding check_target validate_number
  taken (number (finite n)) target e =
      let f = accepted (leb s.operation_min_cm n && leb n s.operation_max_cm) n target e in
      subst (IsTarget (number (finite n))) f.1 (refl, ground arith, ground arith)
  taken (number (negative n)) target e = cc
  taken (number infinite) target e = cc
  taken (number nan) target e = cc
  taken (boolean b) target e = cc
  taken oversized target e = cc
  taken other target e = cc

  takes : (value : Value) (target : ℕ) → IsTarget value target → check_target s value ≡ ok target
  unfolding check_target validate_number
  takes value target (e, low, high) =
      subst (λ v. check_target s v ≡ ok target) (sym e)
        (if_true (leb s.operation_min_cm target && leb target s.operation_max_cm) (ok target)
          (raised Error.value_error) (ground arith))

  -- A value is taken as a target exactly if it is a finite number of the operating range, and the
  -- target is that number.
  pub check_target_lem :
      (value : Value) (target : ℕ) → (check_target s value ≡ ok target) ↔ IsTarget value target
  check_target_lem value target = (taken value target, takes value target)

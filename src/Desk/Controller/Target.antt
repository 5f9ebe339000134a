-- ===== src/Desk/Controller/Target.antt =====
-- The commands that set, raise or lower the target.
pub mod Checked
use kdt_smaty.Prelude.{
  ℕ, suc, ◌+◌, ◌-◌, Bool, true, false, ◌&&◌, ◌||◌, none, some, ltb, leb, dist, if◌then◌else◌,
}
use kdt_smaty.Desk.Models.{Float, finite, negative, DeskState, DeskSettings}
use kdt_smaty.Desk.Controller.State.{
  MotionMode, Controller, Reason, Detail, still, reset_motion_fields,
}
use kdt_smaty.Desk.Controller.Task.{
  match_result, Error, rejected, Task, Result, ok, raised, pure, fail, lift, update,
  with_intent_lock, with_world, ◌>>=◌, ◌>>◌,
}
use kdt_smaty.Desk.Controller.Guards.{
  require_running_locked, require_wake_basis, require_direction_allowed, admit_wake, admit_motion,
  is_online, is_moving, direction_to, Value, number, validate_number,
}
use kdt_smaty.Desk.Controller.Stop.{stop_motion, stop_for_transition}
use kdt_smaty.Desk.Controller.Wake.{set_wake_event, cancel_startup_wake_pending_locked, begin_wake}
use kdt_smaty.Desk.Controller.Motion.{
  Found, is_active, is_target, same, waking, free, find_target, enter_target,
}

-- `target + amount if increase else target - amount`
abbrev pub adjusted : ℕ → ℕ → Bool → Float
adjusted target amount true = finite (target + amount)
adjusted target amount false =
    if leb amount target then finite (target - amount) else negative (amount - target)

-- The amount of an adjustment: a finite number above 0.
unfoldable pub check_amount : Value → Result ℕ
unfolding validate_number
check_amount value = elim (validate_number value) [
  | raised e ↦ raised e
  | ok (finite n) ↦ (if ltb 0 n then ok n else raised Error.value_error)
  | ok _ ↦ raised Error.value_error
]

module _ (s : DeskSettings) where
  -- A target is a finite number of the operating range.
  unfoldable pub check_target : Value → Result ℕ
  unfolding validate_number
  check_target value = elim (validate_number value) [
    | raised e ↦ raised e
    | ok (finite n) ↦
        (if leb s.operation_min_cm n && leb n s.operation_max_cm
          then ok n
          else raised Error.value_error)
    | ok _ ↦ raised Error.value_error
  ]

  -- `except (TypeError, ValueError)`
  abbrev is_caught : Error → Bool
  is_caught Error.type_error = true
  is_caught Error.value_error = true
  is_caught _ = false

  -- An invalid request stops the motion that is under way, and is raised again.
  unfoldable pub reject_request : Detail → Error → Task (Unit {0})
  reject_request detail e = with_world λ w.
      if is_caught e && is_active w.controller.control.mode
      then (do stop_motion s detail none; fail e)
      else fail e

  -- `_set_sensor_check_needed`
  unfoldable pub set_sensor_check_needed : ℕ → Task (Unit {0})
  set_sensor_check_needed target = do
    with_world λ w. lift (require_running_locked w.controller)
    update λ env c. reset_motion_fields (record c {
      control =
          still DeskState.idle (Detail.check_needed_near target) env.now (suc c.control.generation);
    })

  unfoldable pub wake_for_target : ℕ → Task (Unit {0})
  wake_for_target target = with_world λ w. do
    basis ← lift (require_wake_basis s w.env.height)
    relay ← lift (admit_wake s w.env w.controller)
    if leb (dist basis.height_cm target) s.target_tolerance_cm
        then set_sensor_check_needed target
        else do
          lift (require_direction_allowed s basis.height_cm (direction_to basis.height_cm target))
          begin_wake s (record {
            mode = MotionMode.target;
            direction = direction_to basis.height_cm target;
            target = some target;
            basis = basis;
            relay = relay;
            detail = Detail.target_wake target;
          })

  unfoldable pub move_to_target : ℕ → Task (Unit {0})
  move_to_target target = with_world λ w. do
    admitted ← lift (admit_motion s w.env w.controller)
    let height = admitted.0.height_cm
    if leb (dist height target) s.target_tolerance_cm
        then stop_motion s (Detail.reached target) none
        else do
          lift (require_direction_allowed s height (direction_to height target))
          lift (require_running_locked w.controller)
          update (enter_target target (direction_to height target) admitted.1)
          set_wake_event

  -- The part of `_set_target` behind the test for the same target.
  unfoldable pub retarget : ℕ → Task (Unit {0})
  retarget target = do
    with_world λ w.
        if is_active w.controller.control.mode || is_moving w.env.relay.state
        then stop_for_transition s Detail.new_target_stop
        else pure tt
    with_world
        λ w. if is_online w.env.height.status then move_to_target target else wake_for_target target

  unfoldable pub proceed : ℕ → Found → Task (Unit {0})
  proceed target same = pure tt
  proceed target waking = fail (rejected Reason.waking_keeps_target)
  proceed target free = retarget target

  unfoldable pub set_valid_target : ℕ → Task (Unit {0})
  set_valid_target target = do
    cancel_startup_wake_pending_locked
    with_world λ w. proceed target (find_target target w.controller)

  -- `_set_target`
  unfoldable pub set_target_unlocked : Value → Task (Unit {0})
  set_target_unlocked value =
      match_result (check_target value) (reject_request Detail.bad_replacement) set_valid_target

  unfoldable pub active_target : Controller → Result ℕ
  active_target c = elim c.control.target_height_cm [
    | none ↦ raised (rejected Reason.no_active_target)
    | some target ↦
        (if is_target c.control.mode then ok target else raised (rejected Reason.no_active_target))
  ]

  -- `_adjust_target`
  unfoldable pub adjust_target : Value → Bool → Task (Unit {0})
  adjust_target value increase =
      match_result (check_amount value) (reject_request Detail.bad_adjustment) λ amount. do
        cancel_startup_wake_pending_locked
        target ← with_world λ w. lift (active_target w.controller)
        set_target_unlocked (number (adjusted target amount increase))

  unfoldable pub set_target : Value → Task (Unit {0})
  set_target value = with_intent_lock (set_target_unlocked value)

  unfoldable pub increase_target : Value → Task (Unit {0})
  increase_target amount = with_intent_lock (adjust_target amount true)

  unfoldable pub decrease_target : Value → Task (Unit {0})
  decrease_target amount = with_intent_lock (adjust_target amount false)

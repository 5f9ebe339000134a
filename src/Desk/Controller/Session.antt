-- ===== src/Desk/Controller/Session.antt =====
-- The public operations of the controller and rounds of its runner, one after the other by one
-- caller; all other tasks act through the schedule.
use kdt_smaty.Prelude.{ℕ, String, Option, List, [], ◌∷◌}
use kdt_smaty.Desk.Models.{DeskSettings}
use kdt_smaty.Desk.Controller.Task.{Error, returned, failed, pending, World, Task}
use kdt_smaty.Desk.Controller.Guards.{Value}
use kdt_smaty.Desk.Controller.Target
use kdt_smaty.Desk.Controller.Hold
use kdt_smaty.Desk.Controller.Cycle
use kdt_smaty.Desk.Controller.Lifecycle

pub data Operation : Type 0 where
  set_target increase_target decrease_target : Value → Operation
  hold_up hold_down : Operation
  stop_motion : String → Operation
  start : Option Error → Operation
  stop : Operation
  run_cycle : Operation
  run : ℕ → Operation

module _ (s : DeskSettings) where
  unfoldable pub perform : Operation → Task (Unit {0})
  perform (set_target value) = Target.set_target s value
  perform (increase_target amount) = Target.increase_target s amount
  perform (decrease_target amount) = Target.decrease_target s amount
  perform hold_up = Hold.hold_up s
  perform hold_down = Hold.hold_down s
  perform (stop_motion reason) = Hold.user_stop_motion s reason
  perform (start refusal) = Lifecycle.start s refusal
  perform stop = Lifecycle.stop
  perform run_cycle = Cycle.run_cycle s
  perform (run rounds) = Cycle.run s rounds

  -- The caller goes on after an exception, and no further once the schedule has ended.
  unfoldable pub session : List Operation → World → World
  session [] w = w
  session (op ∷ ops) w =
      let next = session ops (perform op w).1 in
      elim (perform op w).0 [ pending ↦ (perform op w).1 | returned _ ↦ next | failed _ ↦ next ]

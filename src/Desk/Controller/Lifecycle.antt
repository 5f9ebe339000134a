-- ===== src/Desk/Controller/Lifecycle.antt =====
-- `start` and `stop` of the controller.
use kdt_smaty.Prelude.{suc, Bool, true, false, not, ◌&&◌, ◌||◌, Option, none, some, if◌then◌else◌}
use kdt_smaty.Desk.Models.{DeskState, DeskSettings}
use kdt_smaty.Desk.Controller.State.{
  Runner, absent, active, Controller, Env, Reason, Detail, still, reset_motion_fields,
  invalidate_motion_locked,
}
use kdt_smaty.Desk.Controller.Task.{
  match_option, Error, runtime, Task, pure, fail, gets, update, suspend, with_world, ◌>>=◌, ◌>>◌,
}
use kdt_smaty.Desk.Controller.Stop.{send_stop_bounded, confirm_stop}
use kdt_smaty.Desk.Controller.Wake.{register_startup_wake, set_wake_event}

abbrev is_running_task : Runner → Bool
is_running_task active = true
is_running_task _ = false

abbrev exists : Runner → Bool
exists absent = false
exists _ = true

unfoldable pub enter_start : Env → Controller → Controller
unfolding still reset_motion_fields
enter_start env c = reset_motion_fields (record c {
  running = true;
  closing = false;
  stop_in_progress = true;
  control = still DeskState.idle Detail.starting env.now (suc c.control.generation);
})

abbrev started_state : Option Reason → Env → Controller → Controller
started_state none env c = record c {
  stop_in_progress = false;
  control = record (c.control) {
    public_state = DeskState.idle;
    detail = Detail.started;
    updated_at = env.now;
  };
}
started_state (some error) env c = record c {
  stop_in_progress = false;
  control = record (c.control) {
    public_state = DeskState.error;
    detail = Detail.start_stop_failed;
    last_error = some error;
    updated_at = env.now;
  };
}

module _ (s : DeskSettings) where
  unfoldable pub after_start : Option Reason → Task (Unit {0})
  after_start none = register_startup_wake s
  after_start (some error) = pure tt

  -- The part of `start` behind the creation of the runner task.
  unfoldable pub start_created : Task (Unit {0})
  start_created = do
    update λ _ c. record c { runner_task = active }
    baseline ← gets λ w. w.env.relay.received_at
    sent ← send_stop_bounded
    error ← confirm_stop s baseline sent
    update (started_state error)
    after_start error
    set_wake_event

  -- `start`, where the task manager refuses to create the runner with an error or accepts it.
  unfoldable pub start : Option Error → Task (Unit {0})
  start refusal = with_world λ w.
      if w.controller.running || is_running_task w.controller.runner_task
      then fail (runtime Reason.already_running)
      else do
        update enter_start
        match_option refusal start_created
            λ e. do update λ _ c. record c { running = false; stop_in_progress = false }; fail e

unfoldable pub enter_stop : Env → Controller → Controller
unfolding invalidate_motion_locked
enter_stop env c =
    record (invalidate_motion_locked Detail.application_closing env.now
      (record c { closing = true; stop_in_progress = true })) { wake_event = true }

-- The runner is cancelled and awaited, if there is one.
unfoldable pub end_runner : Task (Unit {0})
end_runner = with_world λ w.
    if exists w.controller.runner_task
    then (do update λ _ c. record c { runner_task = absent }; _ ← suspend; pure tt)
    else pure tt

unfoldable pub stopped_state : Option Reason → Env → Controller → Controller
stopped_state none env c = record c {
  running = false;
  stop_in_progress = false;
  control = record (c.control) {
    public_state = DeskState.stopped;
    detail = Detail.closed;
    last_error = none;
    updated_at = env.now;
  };
}
stopped_state (some error) env c = record c {
  running = false;
  stop_in_progress = false;
  control = record (c.control) {
    public_state = DeskState.error;
    detail = Detail.close_stop_failed;
    last_error = some error;
    updated_at = env.now;
  };
}

abbrev pub raise_error : Option Reason → Task (Unit {0})
raise_error none = pure tt
raise_error (some error) = fail (runtime error)

-- `stop`
unfoldable pub stop : Task (Unit {0})
stop = with_world λ w.
    if not w.controller.running && not (exists w.controller.runner_task) then pure tt else do
      update enter_stop
      error ← send_stop_bounded
      end_runner
      update (stopped_state error)
      raise_error error

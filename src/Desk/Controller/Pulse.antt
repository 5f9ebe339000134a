-- ===== src/Desk/Controller/Pulse.antt =====
-- Pulses: publishing one, settling before the fine approach, and judging the relay's answer.
use kdt_smaty.Prelude.{
  ℕ, suc, ◌+◌, Bool, true, false, not, ◌&&◌, Option, none, some, ltb, leb, ◌==◌, if◌then◌else◌,
}
use kdt_smaty.Desk.Models.{Direction, RelayState, RelaySnapshot, DeskSettings}
use kdt_smaty.Desk.Relay
use kdt_smaty.Desk.Controller.State.{TargetPhase, ControlState, Controller, Env, Reason, Detail}
use kdt_smaty.Desk.Controller.Task.{
  match_option, rejected, Task, pure, fail, gets, update, call_for, with_relay_io_lock, with_world,
  ◌>>=◌, ◌>>◌,
}
use kdt_smaty.Desk.Controller.Guards.{is_state, is_moving}
use kdt_smaty.Desk.Controller.Motion.{is_active, is_direction}
use kdt_smaty.Desk.Controller.Stop.{stop_motion, send_stop_bounded}
use kdt_smaty.Desk.Controller.Wake.{if_generation}

-- Whether a time has passed by more than a limit, counted from an instant that may be unset.
unfoldable pub expired : Option ℕ → ℕ → ℕ → Bool
expired none limit now = false
expired (some since) limit now = ltb (since + limit) now

-- Whether a received time is set and no later than a mark that may be unset.
abbrev pub not_after : ℕ → Option ℕ → Bool
not_after received none = false
not_after received (some mark) = leb received mark

-- The test under both locks: the motion that asked for the pulse is still the current one.
unfoldable pub pulse_allowed : ℕ → Direction → Controller → Bool
pulse_allowed generation direction c =
    c.control.generation == generation
    && (is_active c.control.mode
        && (is_direction c.control.direction direction
            && (not c.closing && not c.stop_in_progress)))

abbrev or_else : Option ℕ → ℕ → Option ℕ
or_else none now = some now
or_else (some first) now = some first

abbrev pub relay_state : Direction → RelayState
relay_state Direction.up = RelayState.up
relay_state Direction.down = RelayState.down

unfoldable pub enter_settling_state : Env → Controller → Controller
enter_settling_state env c = record c {
  control = record (c.control) {
    target_phase = some TargetPhase.settling;
    direction = none;
    generation = suc c.control.generation;
    detail = Detail.settling_inertia;
    updated_at = env.now;
  };
  next_refresh_at = none;
  relay_direction_confirmed = false;
}

module _ (s : DeskSettings) where
  unfoldable pub pulse_done : ℕ → ℕ → Option ℕ → Env → Controller → Controller
  pulse_done started_at hold_ms none env c = record c {
    first_pulse_sent_at = or_else c.first_pulse_sent_at started_at;
    next_refresh_at = some (started_at + s.pulse_refresh_interval);
  }
  pulse_done started_at hold_ms (some observed_at) env c = record c {
    first_pulse_sent_at = or_else c.first_pulse_sent_at started_at;
    next_refresh_at = some (started_at + s.pulse_refresh_interval);
    last_fine_observed_at = some observed_at;
    control = record (c.control) {
      target_phase = some TargetPhase.settling;
      direction = none;
      detail = Detail.fine_waiting;
      updated_at = env.now;
    };
    settle_until = some (env.monotonic + hold_ms + s.fine_settle);
  }

  -- The block under the relay lock: `none` if the motion is no longer current.
  unfoldable pub guarded_pulse : ℕ → Direction → ℕ → Task (Option (Option Reason))
  guarded_pulse generation direction hold_ms = with_world λ w.
      if pulse_allowed generation direction w.controller
      then (do
        publish_error ← call_for (some generation) (Relay.pulse direction hold_ms)
        pure (some publish_error))
      else pure none

  -- `_record_pulse_failure`
  unfoldable pub record_pulse_failure : ℕ → Reason → Task (Unit {0})
  record_pulse_failure generation detail =
      if_generation generation (stop_motion s Detail.pulse_failed (some detail))

  unfoldable pub after_pulse : ℕ → ℕ → Option ℕ → ℕ → Option (Option Reason) → Task (Unit {0})
  after_pulse generation hold_ms fine started_at none = pure tt
  after_pulse generation hold_ms fine started_at (some (some error)) =
      record_pulse_failure generation error
  after_pulse generation hold_ms fine started_at (some none) =
      if_generation generation (update (pulse_done started_at hold_ms fine))

  -- `_publish_pulse`
  unfoldable pub publish_pulse : ℕ → Direction → ℕ → Option ℕ → Task (Unit {0})
  publish_pulse generation direction hold_ms fine_observed_at = do
    started_at ← gets λ w. w.env.monotonic
    published ← with_relay_io_lock (guarded_pulse generation direction hold_ms)
    after_pulse generation hold_ms fine_observed_at started_at published

  unfoldable pub after_settling_stop : Option Reason → Task (Unit {0})
  after_settling_stop (some error) = stop_motion s Detail.settle_stop_failed (some error)
  after_settling_stop none =
      update λ env c. record c { settle_until = some (env.monotonic + s.fine_settle) }

  -- `_enter_settling`
  unfoldable pub enter_settling : ℕ → Task (Unit {0})
  enter_settling generation =
      if_generation generation
        (do update enter_settling_state; error ← send_stop_bounded; after_settling_stop error)

  -- A status that is newer than any seen before.
  unfoldable pub judge_status : Direction → RelaySnapshot → ℕ → Task (Unit {0})
  judge_status direction snapshot now = with_world λ w.
      if is_state (relay_state direction) snapshot.state
      then update (λ _ c. record c { relay_direction_confirmed = true })
      else if is_moving snapshot.state
      then fail (rejected Reason.relay_opposite)
      else if is_state RelayState.stop snapshot.state && w.controller.relay_direction_confirmed
      then fail (rejected Reason.relay_stopped)
      else if is_state RelayState.stop snapshot.state
          && expired w.controller.first_pulse_sent_at s.relay_ack_timeout now
      then fail (rejected Reason.relay_silent)
      else pure tt

  unfoldable pub judge_received : Direction → RelaySnapshot → ℕ → ℕ → Task (Unit {0})
  judge_received direction snapshot received_at now = with_world λ w.
      if not_after received_at w.controller.relay_baseline_received_at
      then (if expired w.controller.first_pulse_sent_at s.relay_ack_timeout now
          then fail (rejected Reason.relay_silent)
          else pure tt)
      else if not_after received_at w.controller.relay_last_seen_at
      then pure tt
      else do
        update λ _ c. record c { relay_last_seen_at = some received_at }
        judge_status direction snapshot now

  -- `_evaluate_relay_status`
  unfoldable pub evaluate_relay_status : ControlState → RelaySnapshot → ℕ → Task (Unit {0})
  evaluate_relay_status control snapshot now = match_option control.direction (pure tt) λ direction.
      match_option snapshot.received_at (pure tt)
        λ received_at. judge_received direction snapshot received_at now

-- ===== src/Desk/Controller/Wake/Contended.antt =====
-- A WAKE that has to wait for the relay lock.
use kdt_smaty.Prelude.{none, ◌≡◌, refl, true, List, [], ◌∷◌, leb, ◌&&◌}
use kdt_smaty.Desk.Models.{finite, DeskSettings}
use kdt_smaty.Desk.Relay
use kdt_smaty.Desk.Relay.{wake_message, wake_hold_ms, desk_physical_min, desk_physical_max, publish}
use kdt_smaty.Desk.Controller.State.{Controller, Env}
use kdt_smaty.Desk.Controller.Task.{
  Sent, World, Turn, ok, suspend, call_for, with_relay_io_lock, with_lock, acquire, released,
  set_relay_io_lock, ◌>>=◌,
}
use kdt_smaty.Desk.Controller.Wake.{Request, enter_waking, begin_wake_entry, begin_wake}

module _ (s : DeskSettings) (r : Request) (env : Env) (c : Controller) (t : Turn)
    (log : List Sent) where
  -- Somebody holds the relay lock, and gives it up in the only turn that is left.
  abbrev pub contended : World
  contended = record {
    controller = set_relay_io_lock true c;
    env = env;
    turns = t ∷ [];
    sent = log;
  }

  -- What goes out in that turn, after the other tasks have done in it what they like.
  abbrev pub woken : Sent
  woken = record {
    asked = none;
    command = wake_message r.direction wake_hold_ms (finite r.basis.height_cm);
    controller = set_relay_io_lock true (t.others (enter_waking r env (set_relay_io_lock true c)));
    env = t.env;
  }

  -- If the relay lock is taken when a WAKE has been admitted, the WAKE goes out once the lock is
  -- free, whatever the other tasks have made of the controller in the meantime: cancelled the
  -- motion, begun a STOP or closed the controller.
  pub begin_wake-contended :
      begin_wake_entry (set_relay_io_lock true c) ≡ ok tt
      → (leb desk_physical_min r.basis.height_cm && leb r.basis.height_cm desk_physical_max) ≡ true
      → (begin_wake s r contended).1.sent ≡ woken ∷ log
  unfolding begin_wake enter_waking suspend call_for with_relay_io_lock with_lock acquire released
      ◌>>=◌ Relay.wake
  begin_wake-contended entry physical = rw entry (rw physical refl)

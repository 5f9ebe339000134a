-- ===== src/Desk/Controller/Snapshot.antt =====
-- `get_snapshot` of the controller: the state of the control with the latest height and relay.
use kdt_smaty.Prelude.{ℕ, Option}
use kdt_smaty.Desk.Models.{Direction, HeightSnapshot, RelaySnapshot, DeskState}
use kdt_smaty.Desk.Controller.State.{Controller, Env, Reason, Detail}

pub record DeskSnapshot : Type 0 where
  pub state : DeskState
  pub target_height_cm : Option ℕ
  pub direction : Option Direction
  pub height : HeightSnapshot
  pub relay : RelaySnapshot
  pub detail : Detail
  pub updated_at : ℕ
  pub last_error : Option Reason

unfoldable pub get_snapshot : Env → Controller → DeskSnapshot
get_snapshot env c = record {
  state = c.control.public_state;
  target_height_cm = c.control.target_height_cm;
  direction = c.control.direction;
  height = env.height;
  relay = env.relay;
  detail = c.control.detail;
  updated_at = c.control.updated_at;
  last_error = c.control.last_error;
}

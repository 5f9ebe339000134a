-- ===== src/Desk/Relay.antt =====
-- src/smart_desk/modules/desk/relay.py and messages.py: the commands for the ESP32 relay and the
-- last live status that it sent. A status payload is what the JSON parser makes of it: pydantic
-- is not part of the program, so a payload that it refuses arrives as the text of its complaint.
pub mod Status
use kdt_smaty.Prelude.{
  ℕ, String, str_eq, strip, Bool, true, false, not, ◌⊎◌, inl, inr, Option, none, some, is_some, leb,
  ◌&&◌, if◌then◌else◌,
}
use kdt_smaty.Desk.Models.{Float, finite, Direction, RelayEvent, RelayState, RelaySnapshot}

-- DESK_PHYSICAL_MIN_CM and DESK_PHYSICAL_MAX_CM, in thousandths of a centimetre.
abbrev pub desk_physical_min : ℕ
desk_physical_min = 73000

abbrev pub desk_physical_max : ℕ
desk_physical_max = 118000

-- The three messages for the relay's command topic.
pub data Command : Type 0 where
  pulse_message : Direction → ℕ → Command
  wake_message : Direction → ℕ → Float → Command
  stop_message : Command

-- Why a command is refused before anything is published.
pub data CommandError : Type 0 where
  hold_out_of_range basis_out_of_range : CommandError

pub data Checked : Type 0 where
  publish : Command → Checked
  refuse : CommandError → Checked

-- `pulse`: UP or DOWN for 50 to 500 ms.
unfoldable pub pulse : Direction → ℕ → Checked
pulse direction hold_ms =
    if leb 50 hold_ms && leb hold_ms 500
    then publish (pulse_message direction hold_ms)
    else refuse hold_out_of_range

abbrev pub wake_hold_ms : ℕ
wake_hold_ms = 100

is_physical : Float → Bool
is_physical (finite h) = leb desk_physical_min h && leb h desk_physical_max
is_physical _ = false

-- `wake`: one 100 ms nudge on the ground of a height within the desk's physical range.
unfoldable pub wake : Direction → Float → Checked
unfolding is_physical
wake direction basis =
    if is_physical basis
    then publish (wake_message direction wake_hold_ms basis)
    else refuse basis_out_of_range

-- The fields of a status that pydantic's types have accepted.
pub record RelayStatusMessage : Type 0 where
  pub event : RelayEvent
  pub state : RelayState
  pub firmware : Option String
  pub code : Option String
  pub detail : Option String

-- `send_stop`: nothing but the command.
abbrev pub send_stop : Checked
send_stop = publish stop_message

-- `RelayClient.__init__`
abbrev pub no_status : RelaySnapshot
no_status = record {
  event = none;
  state = none;
  firmware = none;
  code = none;
  detail = none;
  received_at = none;
  last_error = none;
}

-- The two complaints of the validators of RelayStatusMessage.
pub data StatusError : Type 0 where
  empty_text missing_firmware : StatusError

-- `normalize_optional_text`
unfoldable pub normalize_optional_text : Option String → StatusError ⊎ Option String
normalize_optional_text none = inr none
normalize_optional_text (some text) =
    let normalized = strip text in
    if str_eq normalized "" then inl empty_text else inr (some normalized)

abbrev is_offline : RelayEvent → Bool
is_offline RelayEvent.offline = true
is_offline _ = false

-- `require_live_firmware`
unfoldable pub require_live_firmware : RelayStatusMessage → StatusError ⊎ RelayStatusMessage
require_live_firmware status =
    if not (is_offline status.event) && not (is_some status.firmware)
    then inl missing_firmware
    else inr status

infixl 5 ◌>>=◌
abbrev ◌>>=◌ : {A B : Type 0} → StatusError ⊎ A → (A → StatusError ⊎ B) → StatusError ⊎ B
inl e >>= f = inl e
inr a >>= f = f a

-- The validators of RelayStatusMessage, in their order.
unfoldable pub validate_status : RelayStatusMessage → StatusError ⊎ RelayStatusMessage
validate_status status = do
  firmware ← normalize_optional_text status.firmware
  code ← normalize_optional_text status.code
  detail ← normalize_optional_text status.detail
  require_live_firmware (record status { firmware = firmware; code = code; detail = detail })

-- What reaches `handle_status`: whether it was retained, when it came, and its payload.
pub record StatusMessage (Payload : Type 0) : Type 0 where
  pub retained : Bool
  pub received_at : ℕ
  pub payload : Payload

abbrev with_error : String → RelaySnapshot → RelaySnapshot
with_error text snapshot = record snapshot { last_error = some text }

module _ {Payload : Type 0} (parse : Payload → String ⊎ RelayStatusMessage)
    (summarize : StatusError → String) where
  unfoldable pub accept_status :
      ℕ → StatusError ⊎ RelayStatusMessage → RelaySnapshot → RelaySnapshot
  accept_status received_at (inl error) snapshot = with_error (summarize error) snapshot
  accept_status received_at (inr status) snapshot = record {
    event = some status.event;
    state = some status.state;
    firmware = status.firmware;
    code = status.code;
    detail = status.detail;
    received_at = some received_at;
    last_error = none;
  }

  unfoldable pub judge_payload : ℕ → String ⊎ RelayStatusMessage → RelaySnapshot → RelaySnapshot
  judge_payload received_at (inl complaint) snapshot = with_error complaint snapshot
  judge_payload received_at (inr status) snapshot =
      accept_status received_at (validate_status status) snapshot

  -- `handle_status`
  unfoldable pub handle_status : StatusMessage Payload → RelaySnapshot → RelaySnapshot
  handle_status message snapshot =
      if message.retained
      then snapshot
      else judge_payload message.received_at (parse message.payload) snapshot

-- ===== src/Desk/Relay/Status.antt =====
-- The snapshot of the relay under the messages of its status topic.
use kdt_smaty.Prelude.{
  ℕ, ◌≡◌, ◌≢◌, refl, String, Bool, true, false, not, ◌⊎◌, inl, inr, Option, none, some, List, [],
  ◌∷◌, Bool-cases, is_some, ◌&&◌, if◌then◌else◌,
}
use kdt_smaty.Desk.Models.{RelayEvent, RelayState, RelaySnapshot}
use kdt_smaty.Desk.Relay.{
  ◌>>=◌, is_offline, RelayStatusMessage, StatusError, normalize_optional_text,
  require_live_firmware, validate_status, StatusMessage, accept_status, judge_payload,
  handle_status,
}

-- The messages in the order in which they come.
abbrev pub handle_all :
    {Payload : Type 0}
    → (Payload → String ⊎ RelayStatusMessage)
    → (StatusError → String)
    → List (StatusMessage Payload)
    → RelaySnapshot
    → RelaySnapshot
handle_all parse summarize [] snapshot = snapshot
handle_all parse summarize (message ∷ rest) snapshot =
    handle_all parse summarize rest (handle_status parse summarize message snapshot)

-- A status that names its firmware, unless it says `offline`.
abbrev pub IsLive : RelayEvent → Option String → Type 0
IsLive event firmware = (event ≡ RelayEvent.offline) ⊎ (firmware ≢ none)

-- Nothing was received yet.
abbrev pub IsBlank : RelaySnapshot → Type 0
IsBlank snapshot =
    (snapshot.event ≡ none)
    × (snapshot.state ≡ none)
    × (snapshot.firmware ≡ none)
    × (snapshot.received_at ≡ none)

-- A whole live status was received at some time.
abbrev pub IsReceived : RelaySnapshot → Type 0
IsReceived snapshot =
    (event : RelayEvent) × (state : RelayState) × (received_at : ℕ) × (snapshot.event ≡ some event)
    × (snapshot.state ≡ some state)
    × (snapshot.received_at ≡ some received_at)
    × IsLive event snapshot.firmware

abbrev pub IsWhole : RelaySnapshot → Type 0
IsWhole snapshot = IsBlank snapshot ⊎ IsReceived snapshot

-- An accepted status takes the place of the whole snapshot: its own event and state, its texts as
-- the validation has trimmed them, its own time, and no error.
abbrev pub IsAccepted : ℕ → RelayStatusMessage → RelaySnapshot → Type 0
IsAccepted at sent after =
    (status : RelayStatusMessage) × (validate_status sent ≡ inr status)
    × (after.event ≡ some sent.event)
    × (after.state ≡ some sent.state)
    × (after.firmware ≡ status.firmware)
    × (after.code ≡ status.code)
    × (after.detail ≡ status.detail)
    × (after.received_at ≡ some at)
    × (after.last_error ≡ none)

-- A rejected one leaves every field but the error, which says why.
abbrev pub IsNoted : String → RelaySnapshot → RelaySnapshot → Type 0
IsNoted complaint before after =
    (after.event ≡ before.event)
    × (after.state ≡ before.state)
    × (after.firmware ≡ before.firmware)
    × (after.code ≡ before.code)
    × (after.detail ≡ before.detail)
    × (after.received_at ≡ before.received_at)
    × (after.last_error ≡ some complaint)

-- What a message makes of a snapshot, by what its payload is read as.
abbrev pub Judged :
    (StatusError → String)
    → ℕ
    → RelaySnapshot
    → String ⊎ RelayStatusMessage
    → RelaySnapshot
    → Type 0
Judged summarize at before (inl complaint) after = IsNoted complaint before after
Judged summarize at before (inr sent) after =
    ((error : StatusError) × (validate_status sent ≡ inl error)
      × IsNoted (summarize error) before after)
    ⊎ IsAccepted at sent after

IsLive-firmware :
    (event : RelayEvent) (firmware : Option String)
    → (not (is_offline event) && not (is_some firmware)) ≡ false
    → IsLive event firmware
IsLive-firmware RelayEvent.offline firmware e = inl refl
IsLive-firmware event (some f) e = inr (λ same. cc)
IsLive-firmware RelayEvent.online none e = cc
IsLive-firmware RelayEvent.heartbeat none e = cc
IsLive-firmware RelayEvent.moving none e = cc
IsLive-firmware RelayEvent.stopped none e = cc
IsLive-firmware RelayEvent.rejected none e = cc

abbrev Valid : StatusError ⊎ RelayStatusMessage → Type 0
Valid (inl error) = Unit
Valid (inr status) = IsLive status.event status.firmware

Valid-require : (status : RelayStatusMessage) → Valid (require_live_firmware status)
unfolding require_live_firmware
Valid-require status =
    elim (Bool-cases (not (is_offline status.event) && not (is_some status.firmware))) [
      | inl bad ↦ rw bad tt
      | inr good ↦ rw good (IsLive-firmware status.event status.firmware good)
    ]

Valid-bind :
    {A : Type 0} (r : StatusError ⊎ A) (f : A → StatusError ⊎ RelayStatusMessage)
    → ((a : A) → Valid (f a))
    → Valid (r >>= f)
Valid-bind (inl e) f k = tt
Valid-bind (inr a) f k = k a

Valid-status : (status : RelayStatusMessage) → Valid (validate_status status)
unfolding validate_status
Valid-status status = Valid-bind (normalize_optional_text status.firmware) _ λ firmware.
    Valid-bind (normalize_optional_text status.code) _
      λ code. Valid-bind (normalize_optional_text status.detail) _ λ detail. Valid-require _

-- The validation leaves the event and the state of a status alone.
abbrev Keeps : RelayStatusMessage → StatusError ⊎ RelayStatusMessage → Type 0
Keeps sent (inl error) = Unit
Keeps sent (inr status) = (status.event ≡ sent.event) × (status.state ≡ sent.state)

module _ {Payload : Type 0} (parse : Payload → String ⊎ RelayStatusMessage)
    (summarize : StatusError → String) where
  IsWhole-accept :
      (at : ℕ) (r : StatusError ⊎ RelayStatusMessage) (snapshot : RelaySnapshot)
      → Valid r
      → IsWhole snapshot
      → IsWhole (accept_status parse summarize at r snapshot)
  unfolding accept_status
  IsWhole-accept at (inl e) snapshot v w = w
  IsWhole-accept at (inr status) snapshot v w =
      inr (status.event, status.state, at, refl, refl, refl, v)

  IsWhole-judge :
      (at : ℕ) (r : String ⊎ RelayStatusMessage) (snapshot : RelaySnapshot)
      → IsWhole snapshot
      → IsWhole (judge_payload parse summarize at r snapshot)
  unfolding judge_payload
  IsWhole-judge at (inl complaint) snapshot w = w
  IsWhole-judge at (inr status) snapshot w = IsWhole-accept at _ snapshot (Valid-status status) w

  IsWhole-handle :
      (m : StatusMessage Payload) (snapshot : RelaySnapshot)
      → IsWhole snapshot
      → IsWhole (handle_status parse summarize m snapshot)
  unfolding handle_status
  IsWhole-handle m snapshot w = of m.retained
    where
      of :
          (retained : Bool)
          → IsWhole (
              if retained
              then snapshot
              else judge_payload parse summarize m.received_at (parse m.payload) snapshot)
      of true = w
      of false = IsWhole-judge m.received_at (parse m.payload) snapshot w

  -- Whatever messages come, the snapshot is blank or holds a whole live status with its time, and
  -- only a status that says `offline` comes without a firmware version.
  pub handle_all-IsWhole :
      (messages : List (StatusMessage Payload)) (snapshot : RelaySnapshot)
      → IsWhole snapshot
      → IsWhole (handle_all parse summarize messages snapshot)
  handle_all-IsWhole [] snapshot w = w
  handle_all-IsWhole (m ∷ rest) snapshot w =
      handle_all-IsWhole rest (handle_status parse summarize m snapshot)
        (IsWhole-handle m snapshot w)

-- ===== src/Voice/State.antt =====
-- The states of `VoiceService` in src/smart_desk/modules/voice/service.py, and the transitions between
-- them. The calls of the audio objects are logged.
use kdt_smaty.Prelude.{
  ℕ, ◌+◌, String, Bool, true, Option, none, some, List, [], ◌∷◌, ◌++◌, if◌then◌else◌,
}

pub data VoiceState : Type 0 where
  disabled waiting_wake waiting_followup recording processing speaking error : VoiceState

-- The calls of the microphone, of the detector and of the speaker.
pub data Call : Type 0 where
  set_accepting : Bool → Call
  discard_pending reset_detector play_acknowledgement play_error play_speech : Call

-- The fields of the service that a round changes, with those of its snapshot.
pub record Voice : Type 0 where
  pub state : VoiceState
  pub snapshot_expires_at : Option ℕ
  pub last_error : Option String
  pub followup_deadline : Option ℕ
  pub followup_expires_at : Option ℕ
  pub accepting : Bool
  pub calls : List Call

abbrev pub call : Call → Voice → Voice
call c v = record v { calls = v.calls ++ c ∷ [] }

abbrev pub accept : Bool → Voice → Voice
accept enabled v = record v { accepting = enabled; calls = v.calls ++ set_accepting enabled ∷ [] }

abbrev pub or_option : {A : Type 0} → Option A → Option A → Option A
or_option (some a) b = some a
or_option none b = b

abbrev pub expires_in : VoiceState → Option ℕ → Option ℕ → Option ℕ
expires_in waiting_followup given kept = or_option given kept
expires_in _ given kept = none

-- `_transition`
unfoldable pub transition : VoiceState → Option ℕ → Option String → Bool → Voice → Voice
transition state expires last_error clear_error v = record v {
  state = state;
  snapshot_expires_at = expires_in state expires v.followup_expires_at;
  last_error = or_option last_error (if clear_error then none else v.last_error);
}

-- `_enter_waiting_wake`, which is always told to clear the follow-up.
unfoldable pub enter_waiting_wake : Option String → Bool → Voice → Voice
unfolding transition
enter_waiting_wake last_error clear_error v = transition waiting_wake none last_error clear_error (
    call reset_detector (
      accept true
        (call discard_pending (record v { followup_deadline = none; followup_expires_at = none }))))

-- `_open_followup_window`, on the two clocks.
unfoldable pub open_followup_window : ℕ → ℕ → ℕ → Voice → Voice
unfolding transition
open_followup_window timeout monotonic utc v =
    transition waiting_followup (some (utc + timeout)) none true (record v {
      followup_deadline = some (monotonic + timeout);
      followup_expires_at = some (utc + timeout);
    })

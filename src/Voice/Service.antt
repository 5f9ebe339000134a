-- ===== src/Voice/Service.antt =====
-- The state machine of `VoiceService` in src/smart_desk/modules/voice/service.py: a round of `_run` with
-- its turn. What the microphone, the recorder, the model and the speaker come to is an input of the
-- round; the calls of the audio objects are logged. Its start, its stop and the retry of its devices
-- are left out.
pub mod Recovery
pub mod Waiting
use kdt_smaty.Prelude.{
  ℕ, ◌+◌, String, str_eq, Bool, true, false, ltb, ◌&&◌, ◌⊎◌, inl, inr, Option, none, some, List, [],
  ◌∷◌, ◌++◌, if◌then◌else◌,
}
use kdt_smaty.Voice.State.{
  VoiceState, disabled, waiting_wake, waiting_followup, recording, processing, speaking, error,
  discard_pending, reset_detector, play_acknowledgement, play_error, play_speech, Voice, call,
  accept, transition, enter_waiting_wake, open_followup_window,
}
use kdt_smaty.Assistant.Service.{NextAction, wait_for_followup, return_to_wake_word}

pub data RecordingTrigger : Type 0 where
  wake_word followup : RecordingTrigger

-- An exception that the service does not catch in a turn: a `VoiceFatalError` of a device with its
-- code, or any other exception, such as the `KeyError` of a tool.
pub data Failure : Type 0 where
  device : String → Failure
  unexpected : Failure

-- What ends the loop: an exception of a call, or a `VoiceFatalError` of the service itself.
pub data FatalError : Type 0 where
  of_call : Failure → FatalError
  followup_deadline_missing voice_state_invalid : FatalError

-- How a part of a turn ends: as meant, with an `OpenAiTurnError`, or with another exception.
pub data Part (A : Type 0) : Type 0 where
  works : A → Part A
  turn_fails : String → Part A
  breaks_off : Failure → Part A

-- What a turn meets. A recording gives an utterance or nothing, or an exception ends it; the
-- transcript is the normalized text.
pub record Turn : Type 0 where
  pub acknowledgement : Option Failure
  pub microphone : Option Failure
  pub utterance : Bool
  pub after_recording : ℕ
  pub transcript : Part String
  pub reply : Part NextAction
  pub speech : Part (Unit {0})
  pub error_effect : Option Failure
  pub after_effect : ℕ
  pub after_speech : ℕ
  pub utc : ℕ

-- What a round of `_run` meets: nothing is heard, the microphone or the detector raises, or a turn begins.
pub data Heard : Type 0 where
  nothing : Heard
  input_fails : Failure → Heard
  begins : Turn → Heard

-- An exception ends the loop; the supervisor then cleans up, whatever the state was.
abbrev pub Result : Type 0
Result = FatalError ⊎ Voice

-- A deadline that is there and not yet reached.
abbrev pub is_open : Option ℕ → ℕ → Bool
is_open none now = false
is_open (some deadline) now = ltb now deadline

-- `_return_after_empty_recording`
unfoldable pub return_after_empty_recording : RecordingTrigger → Option ℕ → ℕ → Voice → Voice
unfolding transition enter_waiting_wake
return_after_empty_recording followup deadline now v =
    if is_open deadline now
    then transition waiting_followup none none false v
    else enter_waiting_wake none false v
return_after_empty_recording wake_word deadline now v = enter_waiting_wake none false v

abbrev pub error_played : Voice → Voice
error_played v = call discard_pending (call play_error (call discard_pending (accept false v)))

abbrev pub quiet : Voice → Voice
quiet v = call discard_pending (call discard_pending (accept false v))

-- `_play_error_effect`, and what goes on behind it.
abbrev pub play_error_effect : Option Failure → (Voice → Voice) → Voice → Result
play_error_effect (some failure) f v = inl (of_call failure)
play_error_effect none f v = inr (f (error_played v))

-- `_recover_turn_error`
unfoldable pub recover_turn_error : Option Failure → String → Voice → Result
unfolding enter_waiting_wake
recover_turn_error effect code v = play_error_effect effect (enter_waiting_wake (some code) false) v

-- Behind the error effect of `_recover_empty_transcript`.
unfoldable pub after_empty : Option ℕ → ℕ → Voice → Voice
unfolding transition enter_waiting_wake
after_empty deadline now v =
    let ready = accept true (call discard_pending v) in
    if is_open deadline now
    then transition waiting_followup none none false ready
    else enter_waiting_wake none false ready

unfoldable pub recover_empty_transcript : Option Failure → Option ℕ → ℕ → Voice → Result
unfolding after_empty
recover_empty_transcript effect deadline now v =
    play_error_effect effect (after_empty deadline now) v

module _ (followup_enabled : Bool) (followup_timeout : ℕ) where
  -- `_after_successful_playback`
  unfoldable pub after_successful_playback : NextAction → Turn → Voice → Voice
  unfolding open_followup_window enter_waiting_wake
  after_successful_playback wait_for_followup turn v =
      if followup_enabled
      then open_followup_window followup_timeout turn.after_speech turn.utc (accept true (quiet v))
      else enter_waiting_wake none true (quiet v)
  after_successful_playback return_to_wake_word turn v = enter_waiting_wake none true (quiet v)

  unfoldable pub after_speech : Part (Unit {0}) → NextAction → Turn → Voice → Result
  unfolding after_successful_playback recover_turn_error
  after_speech (works done) action turn v = inr (after_successful_playback action turn v)
  after_speech (turn_fails code) action turn v = recover_turn_error turn.error_effect code v
  after_speech (breaks_off failure) action turn v = inl (of_call failure)

  unfoldable pub after_reply : Part NextAction → Turn → Voice → Result
  unfolding after_speech transition recover_turn_error
  after_reply (works action) turn v =
      after_speech turn.speech action turn
        (call play_speech (transition speaking none none false v))
  after_reply (turn_fails code) turn v = recover_turn_error turn.error_effect code v
  after_reply (breaks_off failure) turn v = inl (of_call failure)

  unfoldable pub after_transcript : Part String → Option ℕ → Turn → Voice → Result
  unfolding after_reply recover_turn_error recover_empty_transcript
  after_transcript (works text) deadline turn v =
      if str_eq text ""
      then recover_empty_transcript turn.error_effect deadline turn.after_effect v
      else after_reply turn.reply turn v
  after_transcript (turn_fails code) deadline turn v = recover_turn_error turn.error_effect code v
  after_transcript (breaks_off failure) deadline turn v = inl (of_call failure)

  -- The recording, and what goes on behind it.
  unfoldable pub after_recording : Bool → RecordingTrigger → Option ℕ → Turn → Voice → Result
  unfolding return_after_empty_recording after_transcript transition
  after_recording false trigger deadline turn v =
      inr (return_after_empty_recording trigger deadline turn.after_recording v)
  after_recording true trigger deadline turn v =
      after_transcript turn.transcript deadline turn
        (transition processing none none false (call discard_pending (accept false v)))

  unfoldable pub record_turn : Option Failure → RecordingTrigger → Option ℕ → Turn → Voice → Result
  unfolding after_recording
  record_turn (some failure) trigger deadline turn v = inl (of_call failure)
  record_turn none trigger deadline turn v = after_recording turn.utterance trigger deadline turn v

  -- The turn behind the acknowledgement of the wake word.
  unfoldable pub acknowledged : Option Failure → Turn → Voice → Result
  unfolding record_turn
  acknowledged (some failure) turn v = inl (of_call failure)
  acknowledged none turn v =
      record_turn turn.microphone wake_word none turn
        (accept true (call discard_pending (call play_acknowledgement v)))

  -- `_run_turn`
  unfoldable pub run_turn : RecordingTrigger → Option ℕ → Turn → Voice → Result
  unfolding acknowledged record_turn transition
  run_turn wake_word deadline turn v =
      acknowledged turn.acknowledgement turn
        (call discard_pending (accept false (transition recording none none false v)))
  run_turn followup none turn v = inl followup_deadline_missing
  run_turn followup (some deadline) turn v =
      record_turn turn.microphone followup (some deadline) turn
        (transition recording none none false v)

  -- A round that waits for a follow-up, with its deadline.
  unfoldable pub await_followup : Option ℕ → Heard → Voice → Result
  unfolding run_turn enter_waiting_wake
  await_followup none heard v = inl followup_deadline_missing
  await_followup (some deadline) nothing v = inr (enter_waiting_wake none false v)
  await_followup (some deadline) (input_fails failure) v = inl (of_call failure)
  await_followup (some deadline) (begins turn) v = run_turn followup (some deadline) turn v

  unfoldable pub await_wake : Heard → Voice → Result
  unfolding run_turn
  await_wake nothing v = inr v
  await_wake (input_fails failure) v = inl (of_call failure)
  await_wake (begins turn) v = run_turn wake_word none turn v

  unfoldable pub run_state : VoiceState → Heard → Voice → Result
  unfolding await_wake await_followup
  run_state waiting_wake heard v = await_wake heard v
  run_state waiting_followup heard v = await_followup v.followup_deadline heard v
  run_state _ heard v = inl voice_state_invalid

  -- A round of `_run`
  unfoldable pub run_round : Heard → Voice → Result
  unfolding run_state
  run_round heard v = run_state v.state heard v

-- ===== src/Voice/Service/Waiting.antt =====
-- Between two rounds the service waits.
use kdt_smaty.Prelude.{
  ℕ, ◌+◌, ◌≡◌, refl, sym, subst, String, str_eq, Bool, true, false, inl, inr, Option, none, some,
  Bool-cases, if_true, if_false,
}
use kdt_smaty.Assistant.Service.{NextAction, wait_for_followup, return_to_wake_word}
use kdt_smaty.Voice.State.{
  Voice, transition, open_followup_window, call, accept, discard_pending, play_speech,
  play_acknowledgement, speaking, processing, recording,
}
use kdt_smaty.Voice.Service.{
  RecordingTrigger, wake_word, followup, Part, Failure, works, turn_fails, breaks_off, Turn, Heard,
  nothing, input_fails, begins, quiet, after_successful_playback, after_speech, after_reply,
  after_transcript, after_recording, record_turn, acknowledged, run_turn, await_followup,
  await_wake, run_state, run_round,
}
use kdt_smaty.Voice.Service.Recovery.{
  IsWaiting, for_wake_word, for_followup, GoesWell, HasWindow, enter_waiting_wake-IsWaiting,
  return_after_empty_recording-IsWaiting, recover_turn_error-GoesWell, carry,
  recover_empty_transcript-GoesWell,
}

module _ (followup_enabled : Bool) (timeout : ℕ) where
  after_successful_playback-IsWaiting :
      (action : NextAction) (turn : Turn) (v : Voice)
      → IsWaiting (after_successful_playback followup_enabled timeout action turn v)
  unfolding after_successful_playback open_followup_window transition
  after_successful_playback-IsWaiting return_to_wake_word turn v =
      enter_waiting_wake-IsWaiting none true (quiet v)
  after_successful_playback-IsWaiting wait_for_followup turn v =
      elim (Bool-cases followup_enabled) [
        | inl asked ↦ subst IsWaiting (sym (if_true followup_enabled _ _ asked)) (
            for_followup (turn.after_speech + timeout) (turn.utc + timeout) refl refl refl refl
              refl)
        | inr not_asked ↦
            subst IsWaiting (sym (if_false followup_enabled _ _ not_asked))
              (enter_waiting_wake-IsWaiting none true (quiet v))
      ]

  after_speech-GoesWell :
      (speech : Part (Unit {0})) (action : NextAction) (turn : Turn) (v : Voice)
      → GoesWell (after_speech followup_enabled timeout speech action turn v)
  unfolding after_speech
  after_speech-GoesWell (works done) action turn v =
      after_successful_playback-IsWaiting action turn v
  after_speech-GoesWell (turn_fails code) action turn v =
      recover_turn_error-GoesWell turn.error_effect code v
  after_speech-GoesWell (breaks_off code) action turn v = tt

  after_reply-GoesWell :
      (reply : Part NextAction) (turn : Turn) (v : Voice)
      → GoesWell (after_reply followup_enabled timeout reply turn v)
  unfolding after_reply
  after_reply-GoesWell (works action) turn v =
      after_speech-GoesWell turn.speech action turn
        (call play_speech (transition speaking none none false v))
  after_reply-GoesWell (turn_fails code) turn v =
      recover_turn_error-GoesWell turn.error_effect code v
  after_reply-GoesWell (breaks_off code) turn v = tt

  after_transcript-GoesWell :
      (transcript : Part String) (deadline : Option ℕ) (turn : Turn) (v : Voice)
      → HasWindow deadline v
      → GoesWell (after_transcript followup_enabled timeout transcript deadline turn v)
  unfolding after_transcript
  after_transcript-GoesWell (turn_fails code) deadline turn v window =
      recover_turn_error-GoesWell turn.error_effect code v
  after_transcript-GoesWell (breaks_off code) deadline turn v window = tt
  after_transcript-GoesWell (works text) deadline turn v window =
      elim (Bool-cases (str_eq text "")) [
        | inl blank ↦ subst GoesWell (sym (if_true _ _ _ blank)) (
            recover_empty_transcript-GoesWell turn.error_effect deadline turn.after_effect v window)
        | inr spoken ↦
            subst GoesWell (sym (if_false _ _ _ spoken)) (after_reply-GoesWell turn.reply turn v)
      ]

  after_recording-GoesWell :
      (utterance : Bool) (trigger : RecordingTrigger) (deadline : Option ℕ) (turn : Turn)
      (v : Voice)
      → v.accepting ≡ true
      → HasWindow deadline v
      → GoesWell (after_recording followup_enabled timeout utterance trigger deadline turn v)
  unfolding after_recording transition
  after_recording-GoesWell false trigger deadline turn v accepts window =
      return_after_empty_recording-IsWaiting trigger deadline turn.after_recording v accepts window
  after_recording-GoesWell true trigger deadline turn v accepts window =
      after_transcript-GoesWell turn.transcript deadline turn
        (transition processing none none false (call discard_pending (accept false v)))
        (carry deadline v _ refl refl window)

  record_turn-GoesWell :
      (microphone : Option Failure) (trigger : RecordingTrigger) (deadline : Option ℕ) (turn : Turn)
      (v : Voice)
      → v.accepting ≡ true
      → HasWindow deadline v
      → GoesWell (record_turn followup_enabled timeout microphone trigger deadline turn v)
  unfolding record_turn
  record_turn-GoesWell (some code) trigger deadline turn v accepts window = tt
  record_turn-GoesWell none trigger deadline turn v accepts window =
      after_recording-GoesWell turn.utterance trigger deadline turn v accepts window

  acknowledged-GoesWell :
      (effect : Option Failure) (turn : Turn) (v : Voice)
      → GoesWell (acknowledged followup_enabled timeout effect turn v)
  unfolding acknowledged
  acknowledged-GoesWell (some code) turn v = tt
  acknowledged-GoesWell none turn v =
      record_turn-GoesWell turn.microphone wake_word none turn
        (accept true (call discard_pending (call play_acknowledgement v))) refl tt

  await_wake-GoesWell :
      (heard : Heard) (v : Voice)
      → IsWaiting v
      → GoesWell (await_wake followup_enabled timeout heard v)
  unfolding await_wake run_turn
  await_wake-GoesWell nothing v waiting = waiting
  await_wake-GoesWell (input_fails code) v waiting = tt
  await_wake-GoesWell (begins turn) v waiting =
      acknowledged-GoesWell turn.acknowledgement turn
        (call discard_pending (accept false (transition recording none none false v)))

  await_followup-GoesWell :
      (deadline : ℕ) (heard : Heard) (v : Voice)
      → v.accepting ≡ true
      → HasWindow (some deadline) v
      → GoesWell (await_followup followup_enabled timeout (some deadline) heard v)
  unfolding await_followup run_turn transition
  await_followup-GoesWell deadline nothing v accepts window =
      enter_waiting_wake-IsWaiting none false v
  await_followup-GoesWell deadline (input_fails code) v accepts window = tt
  await_followup-GoesWell deadline (begins turn) v accepts window =
      record_turn-GoesWell turn.microphone followup (some deadline) turn
        (transition recording none none false v) accepts window

  -- A round that begins while the service waits with an open microphone is ended by an exception of
  -- one of its calls, of the audio devices, the detector, the recorder, the model, a tool or the
  -- speaker; or it leaves the service waiting with an open microphone again: for the wake word without
  -- a deadline, or for a follow-up with one. An error of the model that the service catches is no such
  -- exception. So the fatal errors of a missing deadline and of an invalid state never come.
  pub run_round-GoesWell :
      (heard : Heard) (v : Voice)
      → IsWaiting v
      → GoesWell (run_round followup_enabled timeout heard v)
  unfolding run_round run_state
  run_round-GoesWell heard v (for_wake_word state accepts deadline shown) =
      subst (λ s. GoesWell (run_state followup_enabled timeout s heard v)) (sym state)
        (await_wake-GoesWell heard v (for_wake_word state accepts deadline shown))
  run_round-GoesWell heard v (for_followup deadline expires state accepts kept stays shown) =
      subst (λ s. GoesWell (run_state followup_enabled timeout s heard v)) (sym state)
        (subst (λ d. GoesWell (await_followup followup_enabled timeout d heard v)) (sym kept)
          (await_followup-GoesWell deadline heard v accepts (kept, (expires, stays))))

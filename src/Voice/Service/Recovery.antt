-- ===== src/Voice/Service/Recovery.antt =====
-- The ways back to waiting that do not end in an answer.
use kdt_smaty.Prelude.{
  ℕ, ◌≡◌, refl, sym, ◌∙◌, subst, String, Bool, true, false, inl, inr, Option, none, some,
  Bool-cases, if_true, if_false, if◌then◌else◌,
}
use kdt_smaty.Voice.State.{
  waiting_wake, waiting_followup, Voice, transition, enter_waiting_wake, call, accept,
  discard_pending,
}
use kdt_smaty.Voice.Service.{
  RecordingTrigger, Failure, wake_word, followup, of_call, followup_deadline_missing,
  voice_state_invalid, Result, is_open, error_played, return_after_empty_recording,
  recover_turn_error, after_empty, recover_empty_transcript,
}

-- Waiting with an open microphone: for the wake word, without a deadline; or for a follow-up, with a
-- deadline and with a time at which it ends in the snapshot.
pub data IsWaiting (v : Voice) : Type 0 where
  for_wake_word :
      v.state ≡ waiting_wake
      → v.accepting ≡ true
      → v.followup_deadline ≡ none
      → v.snapshot_expires_at ≡ none
      → IsWaiting v
  for_followup :
      (deadline expires : ℕ)
      → v.state ≡ waiting_followup
      → v.accepting ≡ true
      → v.followup_deadline ≡ some deadline
      → v.followup_expires_at ≡ some expires
      → v.snapshot_expires_at ≡ some expires
      → IsWaiting v

-- A round that went well, or that an exception of a call has ended.
abbrev pub GoesWell : Result → Type 0
GoesWell (inl (of_call code)) = Unit
GoesWell (inl followup_deadline_missing) = ⊥
GoesWell (inl voice_state_invalid) = ⊥
GoesWell (inr v) = IsWaiting v

-- The deadline that a turn was given is still the service's.
abbrev pub HasWindow : Option ℕ → Voice → Type 0
HasWindow none v = Unit
HasWindow (some deadline) v =
    (v.followup_deadline ≡ some deadline) × ((expires : ℕ) × (v.followup_expires_at ≡ some expires))

pub enter_waiting_wake-IsWaiting :
    (last_error : Option String) (b : Bool) (v : Voice)
    → IsWaiting (enter_waiting_wake last_error b v)
unfolding enter_waiting_wake transition
enter_waiting_wake-IsWaiting last_error b v = for_wake_word refl refl refl refl

back_to_followup :
    (deadline : ℕ) (v : Voice)
    → v.accepting ≡ true
    → HasWindow (some deadline) v
    → IsWaiting (transition waiting_followup none none false v)
unfolding transition
back_to_followup deadline v accepts (kept, (expires, shown)) =
    for_followup deadline expires refl accepts kept shown shown

-- Back to the follow-up if there is time left, or else to the wake word.
either_way :
    (deadline : Option ℕ) (now : ℕ) (v : Voice)
    → v.accepting ≡ true
    → HasWindow deadline v
    → IsWaiting (
        if is_open deadline now
        then transition waiting_followup none none false v
        else enter_waiting_wake none false v)
either_way none now v accepts window = enter_waiting_wake-IsWaiting none false v
either_way (some deadline) now v accepts window = elim (Bool-cases (is_open (some deadline) now)) [
  | inl time_left ↦
      subst IsWaiting (sym (if_true (is_open (some deadline) now) _ _ time_left))
        (back_to_followup deadline v accepts window)
  | inr too_late ↦
      subst IsWaiting (sym (if_false (is_open (some deadline) now) _ _ too_late))
        (enter_waiting_wake-IsWaiting none false v)
]

pub return_after_empty_recording-IsWaiting :
    (trigger : RecordingTrigger) (deadline : Option ℕ) (now : ℕ) (v : Voice)
    → v.accepting ≡ true
    → HasWindow deadline v
    → IsWaiting (return_after_empty_recording trigger deadline now v)
unfolding return_after_empty_recording
return_after_empty_recording-IsWaiting wake_word deadline now v accepts window =
    enter_waiting_wake-IsWaiting none false v
return_after_empty_recording-IsWaiting followup deadline now v accepts window =
    either_way deadline now v accepts window

pub recover_turn_error-GoesWell :
    (effect : Option Failure) (code : String) (v : Voice)
    → GoesWell (recover_turn_error effect code v)
unfolding recover_turn_error
recover_turn_error-GoesWell none code v =
    enter_waiting_wake-IsWaiting (some code) false (error_played v)
recover_turn_error-GoesWell (some failure) code v = tt

pub carry :
    (deadline : Option ℕ) (v w : Voice)
    → w.followup_deadline ≡ v.followup_deadline
    → w.followup_expires_at ≡ v.followup_expires_at
    → HasWindow deadline v
    → HasWindow deadline w
carry none v w same same' window = tt
carry (some deadline) v w same same' (kept, (expires, shown)) =
    (same ∙ kept, (expires, same' ∙ shown))

pub recover_empty_transcript-GoesWell :
    (effect : Option Failure) (deadline : Option ℕ) (now : ℕ) (v : Voice)
    → HasWindow deadline v
    → GoesWell (recover_empty_transcript effect deadline now v)
unfolding recover_empty_transcript after_empty
recover_empty_transcript-GoesWell (some code) deadline now v window = tt
recover_empty_transcript-GoesWell none deadline now v window =
    either_way deadline now (accept true (call discard_pending (error_played v))) refl
      (carry deadline v _ refl refl window)

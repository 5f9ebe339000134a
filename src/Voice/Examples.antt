-- ===== src/Voice/Examples.antt =====
-- A short utterance.
use kdt_smaty.Prelude.{ℕ, true, none, refl, ◌+◌, ltb, Bool, some, [], ◌∷◌, ◌++◌, arith}
use kdt_smaty.Voice.Recorder.{AudioChunk, Recorder, Round, record_utterance}
use kdt_smaty.Voice.Recorder.Bounds.{Ended, record_utterance-Ended}
use kdt_smaty.Assistant.Service.{wait_for_followup}
use kdt_smaty.Voice.State.{Voice, waiting_wake}
use kdt_smaty.Voice.Service.{Turn, works, begins, run_round}
use kdt_smaty.Voice.Service.Recovery.{GoesWell, for_wake_word}
use kdt_smaty.Voice.Service.Waiting.{run_round-GoesWell}

abbrev recorder : Recorder
recorder = record {
  start_frames = 1;
  silence_time = 160;
  min_time = 80;
  max_frames = 3;
  preroll_frames = 2;
}

abbrev is_loud : AudioChunk → Bool
is_loud chunk = ltb 500 chunk.pcm

-- A round at a time in which the microphone gives a frame.
abbrev frame_at : ℕ → ℕ → Round
frame_at now pcm = record {
  now = now;
  read = λ timeout. some (record { pcm = pcm; captured_at = now });
  later = now + 1;
}

record_utterance-Ended_example : Ended is_loud recorder (
    record_utterance is_loud recorder 1000 [] 0 (
      (frame_at 80 900 ∷ [])
      ++ frame_at 1000 10 ∷ frame_at 1080 10 ∷ frame_at 1160 700 ∷ frame_at 1240 800 ∷ []))
record_utterance-Ended_example =
    record_utterance-Ended is_loud recorder 1000 [] 0 (frame_at 80 900 ∷ []) (frame_at 1000 10)
      (frame_at 1080 10 ∷ frame_at 1160 700 ∷ frame_at 1240 800 ∷ []) (omega arith) (omega arith)

-- A turn after the wake word, at the end of which the assistant asks back.
abbrev idle : Voice
idle = record {
  state = waiting_wake;
  snapshot_expires_at = none;
  last_error = none;
  followup_deadline = none;
  followup_expires_at = none;
  accepting = true;
  calls = [];
}

abbrev question : Turn
question = record {
  acknowledgement = none;
  microphone = none;
  utterance = true;
  after_recording = 500;
  transcript = works "불 켜 줘";
  reply = works wait_for_followup;
  speech = works tt;
  error_effect = none;
  after_effect = 600;
  after_speech = 700;
  utc = 90000;
}

run_round-GoesWell_example : GoesWell (run_round true 8000 (begins question) idle)
run_round-GoesWell_example =
    run_round-GoesWell true 8000 (begins question) idle (for_wake_word refl refl refl refl)

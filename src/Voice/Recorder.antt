-- ===== src/Voice/Recorder.antt =====
-- `RmsRecorder` of src/smart_desk/modules/voice/audio.py. Times are milliseconds, in which the 1e-9
-- seconds of the source vanish; a frame lasts 80. What the microphone and the clock give is a list of
-- turns, one for each round of the loop, and whether a frame is loud is a parameter.
pub mod Bounds
use kdt_smaty.Prelude.{
  ℕ, zero, suc, ◌+◌, ◌-◌, ◌*◌, ltb, leb, ◌==◌, Bool, true, false, not, ◌&&◌, Option, none, some,
  List, [], ◌∷◌, ◌++◌, map, length, if◌then◌else◌,
}

-- `AudioChunk`, with its samples named by a number.
pub record AudioChunk : Type 0 where
  pub pcm : ℕ
  pub captured_at : ℕ

pub data RecordingEnd : Type 0 where
  silence max_duration speech_start_timeout too_short : RecordingEnd

-- `RmsRecorder`
pub record Recorder : Type 0 where
  pub start_frames : ℕ
  pub silence_time : ℕ
  pub min_time : ℕ
  pub max_frames : ℕ
  pub preroll_frames : ℕ

-- A round: the clock, what `read` gives for a timeout, and the clock behind it.
pub record Round : Type 0 where
  pub now : ℕ
  pub read : ℕ → Option AudioChunk
  pub later : ℕ

-- What `record` comes to: nothing yet, no utterance, or the frames of one, with the reason.
pub data Recorded : Type 0 where
  pending : Recorded
  no_utterance : RecordingEnd → Recorded
  utterance : List ℕ → RecordingEnd → Recorded

-- The variables before speech has begun, and those behind it.
pub record Waiting : Type 0 where
  pub preroll : List AudioChunk
  pub streak : ℕ
  pub first_high_at : Option ℕ

pub record Speaking : Type 0 where
  pub frames : List ℕ
  pub speech_started_at : ℕ
  pub last_high_at : ℕ
  pub silence_started_at : Option ℕ
  pub utterance_deadline : ℕ

abbrev pub frame_time : ℕ
frame_time = 80

-- A list of which only the last items are kept: `deque(maxlen=…)`.
unfoldable pub keep_last : ℕ → List AudioChunk → List AudioChunk
keep_last n [] = []
keep_last n (chunk ∷ rest) =
    let kept = keep_last n rest in if leb (suc (length rest)) n then chunk ∷ rest else kept

-- `frames[: self._max_frames]`
unfoldable pub first_frames : ℕ → List ℕ → List ℕ
first_frames zero frames = []
first_frames (suc n) [] = []
first_frames (suc n) (frame ∷ rest) = frame ∷ first_frames n rest

-- `a or b`, where zero counts as false.
abbrev pub or_else : Option ℕ → ℕ → ℕ
or_else none b = b
or_else (some zero) b = b
or_else (some (suc a)) b = suc a

abbrev pub or_now : ℕ → ℕ → ℕ
or_now deadline now = or_else (some deadline) now

abbrev pub start_of : Option ℕ → ℕ → ℕ
start_of none now = now
start_of (some started) now = started

abbrev pub last_time : List AudioChunk → Option ℕ
last_time [] = none
last_time (chunk ∷ []) = some chunk.captured_at
last_time (chunk ∷ next ∷ rest) = last_time (next ∷ rest)

module _ (is_loud : AudioChunk → Bool) (r : Recorder) where
  -- `_finish`; an utterance has begun, so its two times are there.
  unfoldable pub finish : RecordingEnd → Speaking → Recorded
  unfolding first_frames
  finish end s =
      if ltb (s.last_high_at + frame_time) (r.min_time + s.speech_started_at)
      then no_utterance too_short
      else utterance (first_frames r.max_frames s.frames) end

  -- A frame within the utterance, and whether it has been silent for long enough.
  unfoldable pub hear : AudioChunk → Speaking → Speaking
  hear chunk s =
      if is_loud chunk
      then record s {
        frames = s.frames ++ chunk.pcm ∷ [];
        last_high_at = chunk.captured_at;
        silence_started_at = none;
      }
      else record s {
        frames = s.frames ++ chunk.pcm ∷ [];
        silence_started_at = some (start_of s.silence_started_at chunk.captured_at);
      }

  unfoldable pub is_silent : AudioChunk → Speaking → Bool
  is_silent chunk s =
      not (is_loud chunk)
      && leb (r.silence_time + start_of s.silence_started_at chunk.captured_at)
          (chunk.captured_at + frame_time)

  -- The rounds of the loop once speech has begun.
  unfoldable pub speak : List Round → Speaking → Recorded
  unfolding finish hear is_silent
  speak [] s = pending
  speak (round ∷ rest) s = elim (round.read (or_now s.utterance_deadline round.now - round.now)) [
    | none ↦ finish max_duration s
    | some chunk ↦
        if is_silent chunk s
        then finish silence (hear chunk s)
        else if leb r.max_frames (length (hear chunk s).frames)
        then finish max_duration (hear chunk s)
        else speak rest (hear chunk s)
  ]

  -- A frame before speech has begun.
  unfoldable pub listen : AudioChunk → Waiting → Waiting
  unfolding keep_last
  listen chunk w =
      if is_loud chunk
      then record {
        preroll = keep_last r.preroll_frames (w.preroll ++ chunk ∷ []);
        streak = suc w.streak;
        first_high_at = if w.streak == 0 then some chunk.captured_at else w.first_high_at;
      }
      else record {
        preroll = keep_last r.preroll_frames (w.preroll ++ chunk ∷ []);
        streak = 0;
        first_high_at = none;
      }

  -- Speech begins with the frames kept so far.
  abbrev pub begin_speech : AudioChunk → ℕ → Waiting → Speaking
  begin_speech chunk later w =
      let frames = map (λ c. c.pcm) w.preroll in
      record {
        frames = frames;
        speech_started_at = or_else w.first_high_at chunk.captured_at;
        last_high_at = chunk.captured_at;
        silence_started_at = none;
        utterance_deadline = later + (r.max_frames - length frames) * frame_time;
      }

  -- The end of the round in which it begins, and the rounds behind it.
  unfoldable pub go_on : List Round → Speaking → Recorded
  unfolding speak
  go_on rest s = if leb r.max_frames (length s.frames) then finish max_duration s else speak rest s

  -- The rounds of the loop before that.
  unfoldable pub wait : ℕ → List Round → Waiting → Recorded
  unfolding listen go_on
  wait speech_start_deadline [] w = pending
  wait speech_start_deadline (round ∷ rest) w =
      if leb speech_start_deadline round.now
      then no_utterance speech_start_timeout
      else elim (round.read (speech_start_deadline - round.now)) [
        | none ↦ no_utterance speech_start_timeout
        | some chunk ↦
            if ltb (listen chunk w).streak r.start_frames
            then wait speech_start_deadline rest (listen chunk w)
            else go_on rest (begin_speech chunk round.later (listen chunk w))
      ]

  -- `record`
  unfoldable pub record_utterance : ℕ → List AudioChunk → ℕ → List Round → Recorded
  unfolding wait keep_last
  record_utterance speech_start_deadline initial streak rounds =
      wait speech_start_deadline rounds (record {
        preroll = keep_last r.preroll_frames initial;
        streak = streak;
        first_high_at = if streak == 0 then none else last_time initial;
      })

-- ===== src/Voice/Recorder/Bounds.antt =====
-- A recording ends, and it is not longer than allowed.
use kdt_smaty.Prelude.{
  ℕ, zero, suc, ◌+◌, ◌-◌, ◌≤◌, ◌<◌, ◌≡◌, sym, subst, Bool, inl, inr, List, [], ◌∷◌, ◌++◌, length,
  length-snoc, leb, ltb, Bool-cases, Option-cases, if_true, arith,
}
use kdt_smaty.Voice.Recorder.{
  AudioChunk, RecordingEnd, silence, max_duration, Recorder, Round, Recorded, pending, no_utterance,
  utterance, Waiting, Speaking, or_now, first_frames, finish, hear, is_silent, speak, listen,
  begin_speech, go_on, wait, record_utterance,
}

first_frames-bounded : (n : ℕ) (frames : List ℕ) → length (first_frames n frames) ≤ n
unfolding first_frames
first_frames-bounded zero frames = omega arith
first_frames-bounded (suc n) [] = omega arith
first_frames-bounded (suc n) (frame ∷ rest) = let h = first_frames-bounded n rest in omega arith

module _ (is_loud : AudioChunk → Bool) (r : Recorder) where
  -- Over, and with no more frames than allowed.
  abbrev pub Ended : Recorded → Type 0
  Ended pending = ⊥
  Ended (no_utterance end) = Unit
  Ended (utterance frames end) = length frames ≤ r.max_frames

  finish-Ended : (end : RecordingEnd) (s : Speaking) → Ended (finish is_loud r end s)
  unfolding finish
  finish-Ended end s =
      elim (Bool-cases (ltb (s.last_high_at + 80) (r.min_time + s.speech_started_at))) [
        | inl short ↦ rw short tt
        | inr long ↦ rw long (first_frames-bounded r.max_frames s.frames)
      ]

  hear-longer :
      (chunk : AudioChunk) (s : Speaking)
      → length (hear is_loud r chunk s).frames ≡ suc (length s.frames)
  unfolding hear
  hear-longer chunk s = elim (Bool-cases (is_loud chunk)) [
    | inl loud ↦ rw loud (length-snoc s.frames chunk.pcm)
    | inr quiet ↦ rw quiet (length-snoc s.frames chunk.pcm)
  ]

  speak-Ended :
      (rounds : List Round) (s : Speaking)
      → length s.frames < r.max_frames
      → r.max_frames ≤ length s.frames + length rounds
      → Ended (speak is_loud r rounds s)
  unfolding speak
  speak-Ended [] s few enough = absurd (omega arith)
  speak-Ended (round ∷ rest) s few enough =
      elim (Option-cases (round.read (or_now s.utterance_deadline round.now - round.now))) [
        | inl nothing ↦ rw (nothing, speak) (finish-Ended max_duration s)
        | inr (chunk, heard) ↦
            let longer = hear-longer chunk s in
            elim (Bool-cases (is_silent is_loud r chunk s)) [
              | inl quiet ↦ rw (heard, quiet, speak) (finish-Ended silence (hear is_loud r chunk s))
              | inr goes_on ↦
                  elim (Bool-cases (leb r.max_frames (length (hear is_loud r chunk s).frames))) [
                    | inl full ↦
                        rw (heard, goes_on, full, speak)
                          (finish-Ended max_duration (hear is_loud r chunk s))
                    | inr room ↦
                        rw (heard, goes_on, room, speak)
                          (speak-Ended rest (hear is_loud r chunk s) (ground arith) (ground arith))
                  ]
            ]
      ]

  go_on-Ended :
      (rest : List Round) (s : Speaking)
      → r.max_frames ≤ length rest
      → Ended (go_on is_loud r rest s)
  unfolding go_on
  go_on-Ended rest s enough = elim (Bool-cases (leb r.max_frames (length s.frames))) [
    | inl full ↦ rw full (finish-Ended max_duration s)
    | inr room ↦ rw room (speak-Ended rest s (ground arith) (ground arith))
  ]

  longer :
      {n : ℕ} (early : List Round) (late : Round) (behind : List Round)
      → n ≤ length behind
      → n ≤ length (early ++ late ∷ behind)
  longer [] late behind h = omega arith
  longer (round ∷ early) late behind h = let h' = longer early late behind h in omega arith

  wait-Ended :
      (deadline : ℕ) (early : List Round) (late : Round) (behind : List Round) (w : Waiting)
      → deadline ≤ late.now
      → r.max_frames ≤ length behind
      → Ended (wait is_loud r deadline (early ++ late ∷ behind) w)
  unfolding wait
  wait-Ended deadline [] late behind w passed enough =
      subst Ended (sym (if_true (leb deadline late.now) _ _ (ground arith))) tt
  wait-Ended deadline (round ∷ early) late behind w passed enough =
      elim (Bool-cases (leb deadline round.now)) [
        | inl over ↦ rw (over, wait) tt
        | inr on_time ↦ elim (Option-cases (round.read (deadline - round.now))) [
          | inl nothing ↦ rw (on_time, nothing, wait) tt
          | inr (chunk, heard) ↦
              elim (Bool-cases (ltb (listen is_loud r chunk w).streak r.start_frames)) [
                | inl not_yet ↦
                    rw (on_time, heard, not_yet, wait)
                      (wait-Ended deadline early late behind (listen is_loud r chunk w) passed
                        enough)
                | inr begins ↦
                    rw (on_time, heard, begins, wait)
                      (go_on-Ended (early ++ late ∷ behind)
                        (begin_speech is_loud r chunk round.later (listen is_loud r chunk w))
                        (longer early late behind enough))
              ]
        ]
      ]

  -- A recording always ends: when the clock reaches the deadline for the start of speech in some round,
  -- behind which the microphone is asked as often as an utterance may have frames, there is a result,
  -- whatever was heard; and an utterance never has more frames than allowed.
  pub record_utterance-Ended :
      (deadline : ℕ) (initial : List AudioChunk) (streak : ℕ) (early : List Round) (late : Round)
      (behind : List Round)
      → deadline ≤ late.now
      → r.max_frames ≤ length behind
      → Ended (record_utterance is_loud r deadline initial streak (early ++ late ∷ behind))
  unfolding record_utterance
  record_utterance-Ended deadline initial streak early late behind passed enough =
      wait-Ended deadline early late behind _ passed enough

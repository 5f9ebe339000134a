-- ===== src/Serial/History.antt =====
-- A source over its whole life.
use kdt_smaty.Prelude.{
  neither, ℕ, ◌≡◌, refl, sym, ap, ◌∙◌, subst, Bool, true, false, ◌||◌, inl, inr, none, List, [],
  ◌∷◌, ◌⊎◌, Bool-cases, if_true, if_false, arith,
}
use kdt_smaty.Serial.{
  Source, new_source, SerialError, Weather, start, request_stop, Closing, stop, read_line,
  read_connected, stopped_meanwhile,
}
use kdt_smaty.Serial.Handles.{IsOwned, IsShut, stop-IsShut, read_line-Left, stop_comes, held}

pub data Event : Type 0 where
  starts requests_stop : Event
  stops : Closing → Event
  reads : Weather → Event

abbrev pub after_start : SerialError ⊎ Source → Source → Source
after_start (inl error) before = before
after_start (inr after) before = after

module _ (reconnect_interval : ℕ) where
  unfoldable pub handle : Event → Source → Source
  unfolding start request_stop stop read_line
  handle starts s = after_start (start s) s
  handle requests_stop s = request_stop s
  handle (stops closing) s = (stop closing s).1
  handle (reads weather) s = (read_line reconnect_interval weather s).1

  unfoldable pub handle_all : List Event → Source → Source
  unfolding handle
  handle_all [] s = s
  handle_all (event ∷ rest) s = handle_all rest (handle event s)

  -- Whether a call of `stop` waits for the lock, after an event.
  unfoldable pub still_stopping : Bool → Event → Bool
  still_stopping stopping starts = stopping
  still_stopping stopping requests_stop = true
  still_stopping stopping (stops closing) = false
  still_stopping stopping (reads weather) = stopping || stop_comes reconnect_interval weather

  -- No start gets the lock between the first line of a stop and the rest of it.
  abbrev pub IsOrderly : Bool → List Event → Type 0
  IsOrderly stopping [] = Unit
  IsOrderly stopping (starts ∷ rest) = (stopping ≡ false) × IsOrderly stopping rest
  IsOrderly stopping (event ∷ rest) = IsOrderly (still_stopping stopping event) rest

  pub record IsSound (stopping : Bool) (s : Source) : Type 0 where
    owned : IsOwned s
    idle : stopping ≡ false → s.started ≡ false → s.connection ≡ none

  start-IsSound : (s : Source) → IsSound false s → IsSound false (handle starts s)
  unfolding handle start
  start-IsSound s sound = elim (Bool-cases s.started) [
    | inl running ↦
        subst (λ r. IsSound false (after_start r s)) (sym (if_true s.started _ _ running)) sound
    | inr rests ↦
        subst (λ r. IsSound false (after_start r s)) (sym (if_false s.started _ _ rests))
          (record { owned = sound.owned ∙ ap held (sound.idle refl rests); idle = λ h h'. refl })
  ]

  read-IsSound :
      (stopping : Bool) (weather : Weather) (s : Source)
      → IsSound stopping s
      → IsSound (still_stopping stopping (reads weather)) (handle (reads weather) s)
  unfolding handle still_stopping read_line
  read-IsSound stopping weather s sound =
      let (owned, keeps) = read_line-Left reconnect_interval weather s sound.owned in
      record {
        owned = owned;
        idle = λ h rests.
            let (other, quiet) = neither stopping _ h in
            let still = sym (keeps quiet) ∙ rests in
            ap (λ r. r.1.connection)
              (if_false s.started (read_connected reconnect_interval s.connection weather s)
                (inl stopped_meanwhile, s) still)
            ∙ sound.idle other still;
      }

  request-IsSound : (s : Source) → IsOwned s → IsSound true (handle requests_stop s)
  unfolding handle request_stop
  request-IsSound s owned = record { owned = owned; idle = λ h. absurd (ground arith) }

  stop-IsSound :
      (closing : Closing) (s : Source) → IsOwned s → IsSound false (handle (stops closing) s)
  unfolding handle
  stop-IsSound closing s owned =
      let (nothing, closed) = stop-IsShut closing s owned in
      record { owned = closed ∙ sym (ap held nothing); idle = λ h h'. nothing }

  handle_all-IsSound :
      (events : List Event) (stopping : Bool) (s : Source)
      → IsOrderly stopping events
      → IsSound stopping s
      → IsOwned (handle_all events s)
  unfolding handle_all still_stopping
  handle_all-IsSound [] stopping s orderly sound = sound.owned
  handle_all-IsSound (starts ∷ rest) stopping s (free, orderly) sound =
      handle_all-IsSound rest stopping _ orderly (
        subst (λ b. IsSound b (handle starts s)) (sym free)
          (start-IsSound s (subst (λ b. IsSound b s) free sound)))
  handle_all-IsSound (requests_stop ∷ rest) stopping s orderly sound =
      handle_all-IsSound rest true _ orderly (request-IsSound s sound.owned)
  handle_all-IsSound (stops closing ∷ rest) stopping s orderly sound =
      handle_all-IsSound rest false _ orderly (stop-IsSound closing s sound.owned)
  handle_all-IsSound (reads weather ∷ rest) stopping s orderly sound =
      handle_all-IsSound rest _ _ orderly (read-IsSound stopping weather s sound)

  -- A source on which no start comes between the first line of a stop and the rest of it never loses a
  -- connection: after any openings that fail or are cancelled, any reads that fail, and any stops that
  -- come while a read is under way, exactly the connection that it holds was not closed.
  pub handle_all-IsOwned :
      (events : List Event) → IsOrderly false events → IsOwned (handle_all events new_source)
  handle_all-IsOwned events orderly =
      handle_all-IsSound events false new_source orderly
        (record { owned = refl; idle = λ h rests. refl })

  -- A stop at the end of a life in which no start comes between the first line of a stop and the rest
  -- of it leaves the source with no connection and none unclosed, also when the close fails or the
  -- stopping task is cancelled in it.
  pub stop-handle_all :
      (events : List Event) (closing : Closing)
      → IsOrderly false events
      → IsShut (stop closing (request_stop (handle_all events new_source))).1
  unfolding request_stop
  stop-handle_all events closing orderly =
      stop-IsShut closing (request_stop (handle_all events new_source))
        (handle_all-IsOwned events orderly)

-- ===== src/Serial/Handles.antt =====
-- Which connections are open, over any sequence of the steps of a source.
use kdt_smaty.Prelude.{
  ℕ, ◌≡◌, refl, sym, ap, ◌∙◌, subst, Bool, true, false, ◌||◌, ◌==◌, ◌⊎◌, inl, inr, Option, none,
  some, List, [], ◌∷◌, Bool-cases, if_true, if_false, arith,
}
use kdt_smaty.Serial.{
  Source, SerialError, DeviceError, Opening, opens, open_fails, open_cancelled, Reading, gives,
  gives_no_bytes, read_cancelled, read_fails, Weather, request_stop, without, close, Closing,
  closes, close_cancelled_by_caller, close_fails, stop, open_connection, release, after_opening,
  meanwhile, open_port, record_error, mark_disconnected, read_from, read_line, after_reading,
  read_opened, read_connected,
}

-- The connection held, as a list.
abbrev pub held : Option ℕ → List ℕ
held none = []
held (some handle) = handle ∷ []

-- The connections that were not closed are the one that the source holds.
abbrev pub IsOwned : Source → Type 0
IsOwned s = s.unclosed ≡ held s.connection

without-itself : (handle : ℕ) → without handle (handle ∷ []) ≡ []
unfolding without
without-itself handle = ground arith

abbrev pub IsShut : Source → Type 0
IsShut s = (s.connection ≡ none) × (s.unclosed ≡ [])

itself : (handle : ℕ) → (handle == handle) ≡ true
itself handle = ground arith

emptied :
    (handle : ℕ) (open_ones : List ℕ) → open_ones ≡ handle ∷ [] → without handle open_ones ≡ []
emptied handle open_ones same = ap (without handle) same ∙ without-itself handle

release-IsShut :
    (connection : Option ℕ) (closing : Closing) (s : Source)
    → s.connection ≡ none
    → s.unclosed ≡ held connection
    → IsShut (release connection closing s).1
unfolding release close
release-IsShut none closing s nothing owned = (nothing, owned)
release-IsShut (some handle) closes s nothing owned = (nothing, emptied handle s.unclosed owned)
release-IsShut (some handle) close_cancelled_by_caller s nothing owned =
    (nothing, emptied handle s.unclosed owned)
release-IsShut (some handle) (close_fails error) s nothing owned =
    (nothing, emptied handle s.unclosed owned)

-- `stop` leaves nothing open.
pub stop-IsShut : (closing : Closing) (s : Source) → IsOwned s → IsShut (stop closing s).1
unfolding stop
stop-IsShut closing s owned =
    release-IsShut s.connection closing (record s { connection = none }) refl owned

-- A step that the first line of `stop` may have interrupted.
abbrev pub Keeps : Bool → Source → Source → Type 0
Keeps interrupted before after = interrupted ≡ false → after.started ≡ before.started

-- What `_open_connection` leaves of a source, when nothing was open.
abbrev Opened : Bool → Source → (SerialError ⊎ Bool) × Source → Type 0
Opened interrupted s (inr true, after) =
    (after.connection ≡ some s.openings)
    × (after.unclosed ≡ s.openings ∷ [])
    × Keeps interrupted s after
Opened interrupted s (inr false, after) = IsShut after × Keeps interrupted s after
Opened interrupted s (inl error, after) = IsShut after × Keeps interrupted s after

module _ (reconnect_interval : ℕ) where
  meanwhile-same :
      (b : Bool) (s : Source)
      → let after = meanwhile reconnect_interval b s in
        (after.connection ≡ s.connection) × (after.unclosed ≡ s.unclosed) × Keeps b s after
  unfolding request_stop
  meanwhile-same true s = (refl, refl, λ h. absurd (ground arith))
  meanwhile-same false s = (refl, refl, λ h. refl)

  closed_again :
      (b : Bool) (s : Source)
      → IsShut s
      → IsShut (close s.openings (meanwhile reconnect_interval b (open_port reconnect_interval s)))
  unfolding close request_stop
  closed_again true s (nothing, closed) =
      (nothing, emptied s.openings _ (ap (λ l. s.openings ∷ l) closed))
  closed_again false s (nothing, closed) =
      (nothing, emptied s.openings _ (ap (λ l. s.openings ∷ l) closed))

  after_opening-Opened :
      (opening : Opening) (weather : Weather) (s : Source)
      → IsShut s
      → Opened weather.stop_while_opening s (after_opening reconnect_interval opening weather s)
  unfolding after_opening close record_error
  after_opening-Opened (open_fails error) weather s (nothing, closed) =
      let (c, u, k) = meanwhile-same weather.stop_while_opening s in ((c ∙ nothing, u ∙ closed), k)
  after_opening-Opened (open_cancelled false) weather s (nothing, closed) =
      let (c, u, k) = meanwhile-same weather.stop_while_opening s in ((c ∙ nothing, u ∙ closed), k)
  after_opening-Opened (open_cancelled true) weather s shut =
      let (_, _, k) = meanwhile-same weather.stop_while_opening (open_port reconnect_interval s) in
      (closed_again weather.stop_while_opening s shut, k)
  after_opening-Opened opens weather s shut =
      let interrupted = weather.stop_while_opening in
      let opened = meanwhile reconnect_interval interrupted (open_port reconnect_interval s) in
      let (_, u, k) = meanwhile-same interrupted (open_port reconnect_interval s) in
      elim (Bool-cases opened.started) [
        | inl going ↦
            subst (Opened interrupted s) (sym (if_true opened.started _ _ going))
              (refl, u ∙ ap (λ l. s.openings ∷ l) shut.1, k)
        | inr stops ↦
            subst (Opened interrupted s) (sym (if_false opened.started _ _ stops))
              (elim (Bool-cases weather.close_cancelled) [
                | inl ends ↦
                    subst (λ r. Opened interrupted s (r, close s.openings opened))
                      (sym (if_true weather.close_cancelled _ _ ends))
                      (closed_again interrupted s shut, k)
                | inr goes_on ↦
                    subst (λ r. Opened interrupted s (r, close s.openings opened))
                      (sym (if_false weather.close_cancelled _ _ goes_on))
                      (closed_again interrupted s shut, k)
              ])
      ]

  -- What a read leaves of a source that holds what is open.
  abbrev pub Left : Bool → Source → (SerialError ⊎ List ℕ) × Source → Type 0
  Left interrupted s (result, after) = IsOwned after × Keeps interrupted s after

  mark_disconnected-Left :
      (handle : ℕ) (error : DeviceError) (weather : Weather) (s : Source)
      → s.connection ≡ some handle
      → s.unclosed ≡ handle ∷ []
      → Left false s (mark_disconnected reconnect_interval handle error weather s)
  unfolding mark_disconnected close record_error
  mark_disconnected-Left handle error weather s holds open_one =
      let shut = emptied handle s.unclosed open_one in
      elim (Bool-cases weather.close_cancelled) [
        | inl ends ↦ rw (holds, itself handle, ends) (shut, λ h. refl)
        | inr goes_on ↦ rw (holds, itself handle, goes_on) (shut, λ h. refl)
      ]

  after_reading-Left :
      (reading : Reading) (handle : ℕ) (weather : Weather) (s : Source)
      → s.connection ≡ some handle
      → s.unclosed ≡ handle ∷ []
      → Left false s (after_reading reconnect_interval reading handle weather s)
  unfolding after_reading
  after_reading-Left (gives line) handle weather s holds open_one =
      (open_one ∙ sym (ap held holds), λ h. refl)
  after_reading-Left gives_no_bytes handle weather s holds open_one =
      (open_one ∙ sym (ap held holds), λ h. refl)
  after_reading-Left read_cancelled handle weather s holds open_one =
      (open_one ∙ sym (ap held holds), λ h. refl)
  after_reading-Left (read_fails error) handle weather s holds open_one =
      mark_disconnected-Left handle error weather s holds open_one

  read_from-Left :
      (handle : ℕ) (weather : Weather) (s : Source)
      → s.connection ≡ some handle
      → s.unclosed ≡ handle ∷ []
      → Left weather.stop_while_reading s (read_from reconnect_interval handle weather s)
  unfolding read_from
  read_from-Left handle weather s holds open_one =
      let (c, u, k) = meanwhile-same weather.stop_while_reading s in
      let (owned, same) =
        after_reading-Left weather.reading handle weather
          (meanwhile reconnect_interval weather.stop_while_reading s) (c ∙ holds) (u ∙ open_one) in
      (owned, λ h. same refl ∙ k h)

  abbrev pub stop_comes : Weather → Bool
  stop_comes weather = weather.stop_while_opening || weather.stop_while_reading

  read_opened-Left :
      (weather : Weather) (s : Source) (opening : (SerialError ⊎ Bool) × Source)
      → Opened weather.stop_while_opening s opening
      → Left (stop_comes weather) s (read_opened reconnect_interval s.openings weather opening)
  unfolding read_opened
  read_opened-Left weather s (inl error, after) ((nothing, closed), k) =
      (closed ∙ sym (ap held nothing), λ h. k (ground arith))
  read_opened-Left weather s (inr false, after) ((nothing, closed), k) =
      (closed ∙ sym (ap held nothing), λ h. k (ground arith))
  read_opened-Left weather s (inr true, after) (holds, open_one, k) =
      let (owned, same) = read_from-Left s.openings weather after holds open_one in
      (owned, λ h. same (ground arith) ∙ k (ground arith))

  read_connected-Left :
      (connection : Option ℕ) (weather : Weather) (s : Source)
      → s.connection ≡ connection
      → IsOwned s
      → Left (stop_comes weather) s (read_connected reconnect_interval connection weather s)
  unfolding read_connected open_connection
  read_connected-Left none weather s same owned =
      read_opened-Left weather s _
        (after_opening-Opened weather.opening weather s (same, owned ∙ ap held same))
  read_connected-Left (some handle) weather s same owned =
      let (owned, k) = read_from-Left handle weather s same (owned ∙ ap held same) in
      (owned, λ h. k (ground arith))

  pub read_line-Left :
      (weather : Weather) (s : Source)
      → IsOwned s
      → Left (stop_comes weather) s (read_line reconnect_interval weather s)
  unfolding read_line
  read_line-Left weather s owned = elim (Bool-cases s.started) [
    | inl going ↦
        subst (Left (stop_comes weather) s) (sym (if_true s.started _ _ going))
          (read_connected-Left s.connection weather s refl owned)
    | inr stopped ↦
        subst (Left (stop_comes weather) s) (sym (if_false s.started _ _ stopped))
          (owned, λ h. refl)
  ]

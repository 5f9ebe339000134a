-- ===== src/Serial.antt =====
-- src/smart_desk/modules/serial/source.py: the owner of the serial port. pyserial and the event loop
-- answer through `Weather`. The I/O lock is held by `start`, by `stop` behind its first line and by
-- `read_line` behind the wait for the reconnection, so these parts are the steps; what another task
-- can do within such a step is to run the first line of `stop`.
pub mod Handles
pub mod History
mod Examples
use kdt_smaty.Prelude.{
  ℕ, suc, ◌+◌, ◌-◌, String, str_eq, strip, Bool, true, false, not, ◌&&◌, ltb, leb, ◌==◌, ◌⊎◌, inl,
  inr, Option, none, some, List, [], ◌∷◌, if◌then◌else◌,
}
use kdt_smaty.Desk.Models.{Float, finite}
use kdt_smaty.Desk.HeightMonitor.{SerialStatus}

-- `SerialLineSource`. A connection is the number of its opening, and `unclosed` are the connections on
-- which `close` was not called.
pub record Source : Type 0 where
  pub connection : Option ℕ
  pub status : SerialStatus
  pub last_error : Option String
  pub started : Bool
  pub next_connect_at : ℕ
  pub openings : ℕ
  pub unclosed : List ℕ

-- `__init__`
abbrev pub new_source : Source
new_source = record {
  connection = none;
  status = SerialStatus.stopped;
  last_error = none;
  started = false;
  next_connect_at = 0;
  openings = 0;
  unclosed = [];
}

pub data SerialError : Type 0 where
  already_running not_started stopped_meanwhile not_bytes cancelled : SerialError
  timeout_not_a_number timeout_not_positive : SerialError

-- An expected exception: its text and the name of its type.
pub record DeviceError : Type 0 where
  pub text : String
  pub kind : String

-- How `_open_port` ends. When it is cancelled, its thread may still have opened the port.
pub data Opening : Type 0 where
  opens : Opening
  open_fails : DeviceError → Opening
  open_cancelled : Bool → Opening

pub data Reading : Type 0 where
  gives : List ℕ → Reading
  gives_no_bytes read_cancelled : Reading
  read_fails : DeviceError → Reading

-- What a `read_line` meets: the two answers, whether `stop` is called meanwhile, and whether the task
-- is cancelled while it closes a connection.
pub record Weather : Type 0 where
  pub opening : Opening
  pub stop_while_opening : Bool
  pub reading : Reading
  pub stop_while_reading : Bool
  pub close_cancelled : Bool
  pub now : ℕ

-- `_format_error`
unfoldable pub format_error : DeviceError → String
format_error error =
    let detail = strip error.text in if str_eq detail "" then error.kind else detail

-- `start`
unfoldable pub start : Source → SerialError ⊎ Source
start s =
    if s.started
    then inl already_running
    else inr (record s {
      started = true;
      connection = none;
      status = SerialStatus.disconnected;
      last_error = none;
      next_connect_at = 0;
    })

-- The first line of `stop`, ahead of the lock.
unfoldable pub request_stop : Source → Source
request_stop s = record s { started = false }

unfoldable pub without : ℕ → List ℕ → List ℕ
without handle [] = []
without handle (other ∷ rest) =
    if other == handle then without handle rest else other ∷ without handle rest

-- `connection.close`
unfoldable pub close : ℕ → Source → Source
unfolding without
close handle s = record s { unclosed = without handle s.unclosed }

-- How the close within `stop` ends.
pub data Closing : Type 0 where
  closes close_cancelled_by_caller : Closing
  close_fails : DeviceError → Closing

abbrev pub at_rest : Source → Source
at_rest s = record s { status = SerialStatus.stopped; next_connect_at = 0 }

-- The close and what comes behind it, with the connection that was held.
unfoldable pub release : Option ℕ → Closing → Source → Option SerialError × Source
unfolding close format_error
release none closing s = (none, at_rest s)
release (some handle) closes s = (none, at_rest (close handle s))
release (some handle) close_cancelled_by_caller s = (some cancelled, close handle s)
release (some handle) (close_fails error) s =
    (none, record (at_rest (close handle s)) { last_error = some (format_error error) })

-- `stop` under the lock; the error is a cancellation.
unfoldable pub stop : Closing → Source → Option SerialError × Source
unfolding release
stop closing s = release s.connection closing (record s { connection = none })

-- The argument of `read_line`.
pub data Timeout : Type 0 where
  default_timeout other_type : Timeout
  number : Float → Timeout

-- `_validate_timeout`, in milliseconds.
unfoldable pub validate_timeout : ℕ → Timeout → SerialError ⊎ ℕ
validate_timeout read_timeout default_timeout = inr read_timeout
validate_timeout read_timeout other_type = inl timeout_not_a_number
validate_timeout read_timeout (number (finite t)) =
    if ltb 0 t then inr t else inl timeout_not_positive
validate_timeout read_timeout (number _) = inl timeout_not_positive

-- `read_line` ahead of the lock: how long it waits for the reconnection.
unfoldable pub begin_read : ℕ → Timeout → ℕ → Source → SerialError ⊎ ℕ
unfolding validate_timeout
begin_read read_timeout timeout now s = elim (validate_timeout read_timeout timeout) [
  | inl error ↦ inl error
  | inr valid ↦ if s.started then inr (s.next_connect_at - now) else inl not_started
]

module _ (reconnect_interval : ℕ) where
  -- `_record_error`
  unfoldable pub record_error : ℕ → DeviceError → Source → Source
  unfolding format_error
  record_error now error s = record s {
    status = SerialStatus.error;
    last_error = some (format_error error);
    next_connect_at = now + reconnect_interval;
  }

  abbrev pub meanwhile : Bool → Source → Source
  meanwhile stop_is_called s = if stop_is_called then request_stop s else s

  -- The thread has opened the port.
  abbrev pub open_port : Source → Source
  open_port s = record s { openings = suc s.openings; unclosed = s.openings ∷ s.unclosed }

  -- `_open_connection`: its Boolean, or a cancellation.
  unfoldable pub after_opening : Opening → Weather → Source → (SerialError ⊎ Bool) × Source
  unfolding record_error request_stop close
  after_opening (open_fails error) weather s =
      (inr false, record_error weather.now error (meanwhile weather.stop_while_opening s))
  after_opening (open_cancelled false) weather s =
      (inl cancelled, meanwhile weather.stop_while_opening s)
  after_opening (open_cancelled true) weather s =
      (inl cancelled, close s.openings (meanwhile weather.stop_while_opening (open_port s)))
  after_opening opens weather s =
      let opened = meanwhile weather.stop_while_opening (open_port s) in
      if opened.started
      then (
        inr true,
        record opened {
          connection = some s.openings;
          status = SerialStatus.connected;
          last_error = none;
          next_connect_at = 0;
        },
      )
      else (if weather.close_cancelled then inl cancelled else inr false, close s.openings opened)

  unfoldable pub open_connection : Weather → Source → (SerialError ⊎ Bool) × Source
  unfolding after_opening
  open_connection weather s = after_opening weather.opening weather s

  -- `self._connection is connection`
  abbrev pub is_current : ℕ → Option ℕ → Bool
  is_current handle none = false
  is_current handle (some other) = other == handle

  -- `_mark_disconnected`, and what `read_line` answers then.
  unfoldable pub mark_disconnected :
      ℕ → DeviceError → Weather → Source → (SerialError ⊎ List ℕ) × Source
  unfolding record_error close
  mark_disconnected handle error weather s =
      let left = if is_current handle s.connection then record s { connection = none } else s in
      if weather.close_cancelled
      then (inl cancelled, close handle left)
      else (inr [], record_error weather.now error (close handle left))

  -- The read from an open connection.
  unfoldable pub after_reading : Reading → ℕ → Weather → Source → (SerialError ⊎ List ℕ) × Source
  unfolding mark_disconnected
  after_reading (gives line) handle weather s = (inr line, s)
  after_reading gives_no_bytes handle weather s = (inl not_bytes, s)
  after_reading read_cancelled handle weather s = (inl cancelled, s)
  after_reading (read_fails error) handle weather s = mark_disconnected handle error weather s

  unfoldable pub read_from : ℕ → Weather → Source → (SerialError ⊎ List ℕ) × Source
  unfolding request_stop after_reading
  read_from handle weather s =
      after_reading weather.reading handle weather (meanwhile weather.stop_while_reading s)

  -- Behind the attempt to open the port.
  unfoldable pub read_opened :
      ℕ → Weather → (SerialError ⊎ Bool) × Source → (SerialError ⊎ List ℕ) × Source
  unfolding read_from
  read_opened handle weather (inl error, s) = (inl error, s)
  read_opened handle weather (inr false, s) = (inr [], s)
  read_opened handle weather (inr true, s) = read_from handle weather s

  unfoldable pub read_connected : Option ℕ → Weather → Source → (SerialError ⊎ List ℕ) × Source
  unfolding open_connection read_from read_opened
  read_connected (some handle) weather s = read_from handle weather s
  read_connected none weather s = read_opened s.openings weather (open_connection weather s)

  -- `read_line` under the lock.
  unfoldable pub read_line : Weather → Source → (SerialError ⊎ List ℕ) × Source
  unfolding read_connected
  read_line weather s =
      if s.started then read_connected s.connection weather s else (inl stopped_meanwhile, s)

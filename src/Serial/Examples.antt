-- ===== src/Serial/Examples.antt =====
-- Concrete lives of a source.
use kdt_smaty.Prelude.{◌≡◌, refl, true, false, List, [], ◌∷◌}
use kdt_smaty.Serial
use kdt_smaty.Serial.History
use kdt_smaty.Serial.{
  Source, new_source, Weather, opens, gives, read_fails, closes, close_fails, start, request_stop,
  stop, read_line, Closing,
}
use kdt_smaty.Serial.Handles.{IsOwned, IsShut}
use kdt_smaty.Serial.History.{
  Event, starts, requests_stop, stops, reads, handle_all, handle_all-IsOwned, stop-handle_all,
}

-- A line is read, and then the cable is pulled while a stop comes.
abbrev line : Weather
line = record {
  opening = opens;
  stop_while_opening = false;
  reading = gives (123 ∷ 125 ∷ []);
  stop_while_reading = false;
  close_cancelled = false;
  now = 100;
}

abbrev pulled : Weather
pulled = record line {
  reading = read_fails (record { text = " gone "; kind = "SerialException" });
  stop_while_reading = true;
  now = 200;
}

abbrev life : List Event
life = starts ∷ reads line ∷ reads pulled ∷ stops closes ∷ starts ∷ reads line ∷ []

handle_all-IsOwned_example : IsOwned (handle_all 1000 life new_source)
unfolding History.still_stopping
handle_all-IsOwned_example = handle_all-IsOwned 1000 life (refl, (refl, tt))

stop-handle_all_example : IsShut (stop closes (request_stop (handle_all 1000 life new_source))).1
unfolding History.still_stopping
stop-handle_all_example = stop-handle_all 1000 life closes (refl, (refl, tt))

-- A start that gets the lock between the two parts of a stop loses the connection: it stays open.
lost_connection :
    (handle_all 1000
      (starts ∷ reads line ∷ requests_stop ∷ starts ∷ stops closes ∷ [])
      new_source).unclosed
    ≡ 0 ∷ []
unfolding History.handle_all History.handle start request_stop stop Serial.release read_line
    Serial.read_connected Serial.read_opened Serial.read_from Serial.after_reading
    Serial.open_connection Serial.after_opening
lost_connection = refl

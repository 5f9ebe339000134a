-- ===== src/Desk/Examples.antt =====
-- Concrete displays, messages and histories, and the theorems on them.
use kdt_smaty.Prelude.{
  ℕ, ◌≡◌, ◌⊎◌, inl, inr, refl, String, true, false, Option, none, some, List, [], ◌∷◌, ◌↔◌,
}
use kdt_smaty.Desk.Models
use kdt_smaty.Desk.Models.{RelayEvent, RelayState, HeightStatus, DeskSettings}
use kdt_smaty.Desk.Relay.{RelayStatusMessage, StatusError, StatusMessage, no_status}
use kdt_smaty.Desk.Relay.Status.{IsWhole, handle_all, handle_all-IsWhole}
use kdt_smaty.Desk.Settings.{validate_ranges, IsNested, IsTimely, validate_ranges_lem}
use kdt_smaty.Desk.Segment
use kdt_smaty.Desk.Segment.{
  d0, d5, d9, Json, dictionary, Raw, bytes, decode_packet, mask_to_digit, get, has_fields,
  read_digits, read_position, parse_float, decimals, decode_json, decode_text,
}
use kdt_smaty.Desk.Segment.Display.{
  behind_second, packet_of, shown, IsRead, decode_packet-packet_of, InRange, decode-InRange,
}
use kdt_smaty.Desk.HeightMonitor
use kdt_smaty.Desk.HeightMonitor.{
  SerialStatus, connected, Event, starts, receives, CacheLoad, Publishing, new, get_snapshot,
}
use kdt_smaty.Desk.HeightMonitor.Observed.{Ignored, Observes, receive_lem}
use kdt_smaty.Desk.HeightMonitor.Online.{IsFresh, get_snapshot-IsFresh}
use kdt_smaty.Desk.Controller.Examples.{defaults}

decode_packet-packet_of_example :
    IsRead defaults
      (shown d9 d0 d5 behind_second)
      (decode_packet defaults (packet_of d9 d0 d5 behind_second))
decode_packet-packet_of_example = decode_packet-packet_of defaults d9 d0 d5 behind_second

-- A decoder and a parser that know one message: the display of 90.5 cm.
abbrev utf_8 : List ℕ → Option String
utf_8 raw = some "the line"

abbrev loads : String → Option Json
loads message = some (dictionary (packet_of d9 d0 d5 behind_second))

decode-InRange_example : InRange defaults 90500
unfolding Segment.decode decode_json decode_packet mask_to_digit get has_fields read_digits
    read_position parse_float decimals decode_text
decode-InRange_example = decode-InRange defaults utf_8 loads (bytes (123 ∷ [])) 90500 refl

-- The monitor starts with a cached height and then reads a line.
abbrev history : List Event
history =
    starts (CacheLoad.loaded (Models.finite 80000) 10) true true
    ∷ receives true Publishing.published connected 100 (123 ∷ [])
    ∷ []

get_snapshot-IsFresh_example :
    let m = HeightMonitor.handle_all utf_8 loads defaults history new in
    IsFresh utf_8 loads defaults 900 (get_snapshot defaults connected 900 m)
    × (connected ≡ connected)
    × (m.running ≡ true)
unfolding get_snapshot HeightMonitor.handle_all HeightMonitor.handle HeightMonitor.start new
    HeightMonitor.create_runner HeightMonitor.receive HeightMonitor.receive_decoded Segment.decode
    decode_text decode_json decode_packet has_fields get read_digits read_position mask_to_digit
    parse_float decimals HeightMonitor.observe HeightMonitor.aged_status HeightMonitor.load_cache
    HeightMonitor.observed_status HeightMonitor.stop
get_snapshot-IsFresh_example = get_snapshot-IsFresh utf_8 loads defaults history connected 900 refl

-- A payload here is the status itself, or the complaint of the parser.
abbrev parse : String ⊎ RelayStatusMessage → String ⊎ RelayStatusMessage
parse payload = payload

abbrev summarize : StatusError → String
summarize StatusError.empty_text = "firmware: empty"
summarize StatusError.missing_firmware = "no firmware"

abbrev heartbeat : StatusMessage (String ⊎ RelayStatusMessage)
heartbeat = record {
  retained = false;
  received_at = 40;
  payload = inr (record {
    event = RelayEvent.heartbeat;
    state = RelayState.stop;
    firmware = some " smartdesk-fin-relay-1.0.0 ";
    code = none;
    detail = none;
  });
}

abbrev broken : StatusMessage (String ⊎ RelayStatusMessage)
broken = record { retained = false; received_at = 50; payload = inl "event: missing" }

handle_all-IsWhole_example :
    IsWhole (handle_all parse summarize (heartbeat ∷ broken ∷ []) no_status)
handle_all-IsWhole_example =
    handle_all-IsWhole parse summarize (heartbeat ∷ broken ∷ []) no_status
      (inl (refl, refl, refl, refl))

validate_ranges_lem_example :
    (validate_ranges defaults ≡ true) ↔ (IsNested defaults × IsTimely defaults)
validate_ranges_lem_example = validate_ranges_lem defaults

receive_lem_example :
    let d =
      HeightMonitor.receive utf_8 loads defaults true Publishing.published connected 100
        (123 ∷ [])
        new in
    Ignored new d
    ⊎ ((height : ℕ) × (Segment.decode utf_8 loads defaults (bytes (123 ∷ [])) ≡ some height)
        × (connected ≡ connected)
        × Observes true height 100 d)
receive_lem_example =
    receive_lem utf_8 loads defaults true Publishing.published connected 100 (123 ∷ []) new

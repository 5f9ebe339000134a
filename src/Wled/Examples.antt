-- ===== src/Wled/Examples.antt =====
-- A lamp with one segment.
use kdt_smaty.Prelude.{ℕ, ◌+◌, ◌≤◌, ◌≡◌, true, none, some, List, [], ◌∷◌, arith}
use kdt_smaty.Wled.Json.{boolean, array, object, no_items, item, Fields, no_fields, field}
use kdt_smaty.Wled.Color.{Color, normalize_color, as_items}
use kdt_smaty.Wled.Color.Codes.{IsReadBack, normalize_color-IsReadBack}
use kdt_smaty.Wled.State.{WledStatus, Snapshot}
use kdt_smaty.Wled.Reading.{snapshot_from_state}
use kdt_smaty.Wled.Reading.Facts.{IsFaithful, snapshot_from_state-IsFaithful}
use kdt_smaty.Wled.Client.{Request, Response, answers, Client}
use kdt_smaty.Wled.Client.Operations.{number}
use kdt_smaty.Wled.Percent.{
  percent_to_wled_brightness, wled_brightness_to_percent, percent-roundtrip,
}

-- `FF8000`, as it is typed and as the lamp shows it.
abbrev orange : Color
orange = 70 ∷ 70 ∷ 56 ∷ 48 ∷ 48 ∷ 48 ∷ []

abbrev as_typed : Color → Color
as_typed color = color

normalize_color-IsReadBack_example : IsReadBack (normalize_color as_typed orange)
normalize_color-IsReadBack_example = normalize_color-IsReadBack as_typed orange

abbrev segment : Fields
segment = field "id" (number 0) (
    field "start" (number 0) (
      field "stop" (number 30) (
        field "fx" (number 0) (
          field "pal" (number 0) (
            field "col" (array (item (array (as_items (255 ∷ 128 ∷ 0 ∷ []))) no_items))
              no_fields)))))

abbrev state : Fields
state =
    field "on" (boolean true)
      (field "bri" (number 128) (field "seg" (array (item (object segment) no_items)) no_fields))

snapshot_from_state-IsFaithful_example : IsFaithful state (snapshot_from_state none 10 state)
snapshot_from_state-IsFaithful_example = snapshot_from_state-IsFaithful none 10 state

abbrev lamp : List Request → Request → Response
lamp before request = answers 200 (some (object state))

abbrev clock : ℕ → ℕ
clock n = 100 + n

abbrev unseen : Snapshot
unseen = record {
  status = WledStatus.unknown;
  on = none;
  brightness = none;
  mode = none;
  color = none;
  effect_id = none;
  effect_name = none;
  palette_id = none;
  speed = none;
  intensity = none;
  observed_at = none;
  last_error = none;
}

abbrev client : Client
client = record { is_started = true; snapshot = unseen; capabilities = none; requests = [] }

percent-roundtrip_example :
    (percent_to_wled_brightness 50 ≤ 255)
    × (wled_brightness_to_percent (percent_to_wled_brightness 50) ≡ 50)
percent-roundtrip_example = percent-roundtrip 50 (omega arith)

-- ===== src/Wled/Client/Operations.antt =====
-- The public operations of `WledClient`, each the whole method.
pub mod Settled
pub mod Confirmed
use kdt_smaty.Prelude.{
  ℕ, String, Bool, true, false, not, ◌&&◌, ◌||◌, ◌⊎◌, inl, inr, Option, none, some, List, [], ◌∷◌,
  ◌++◌, map, leb, ltb, ◌==◌, length, if◌then◌else◌,
}
use kdt_smaty.Wled.Json.{
  Json, boolean, integer, array, Items, no_items, item, object, Fields, no_fields, field, get,
  as_bool, equals_int, Whole, nat,
}
use kdt_smaty.Wled.Color.{Color, normalize_color, rgb, hex, as_items}
use kdt_smaty.Wled.State.{
  CatalogItem, Capabilities, Snapshot, not_started, protocol, unsupported_value, key_error, Segment,
  valid_segments,
}
use kdt_smaty.Wled.Reading.{snapshot_from_state, Wanted, verify_response}
use kdt_smaty.Wled.Catalog.{parse_capabilities}
use kdt_smaty.Wled.Client.{
  Request, get_path, post_state, Response, response_object, Client, Action, ◌>>=◌, ◌>>◌, return,
  raise, lift, read, write, attempt,
}

-- The ids of the segments, as the keys of a dictionary. An id that is a Boolean is sent as its number.
unfoldable pub without : ℕ → List ℕ → List ℕ
without id [] = []
without id (other ∷ rest) = if other == id then without id rest else other ∷ without id rest

unfoldable pub keys : List Segment → List ℕ
unfolding without
keys [] = []
keys (segment ∷ rest) = segment.0 ∷ without segment.0 (keys rest)

abbrev pub number : ℕ → Json
number n = integer (nat n)

-- `{**({"col": [rgb]} if rgb else {})}`
abbrev pub color_fields : Option (List ℕ) → Fields
color_fields none = no_fields
color_fields (some values) = field "col" (array (item (array (as_items values)) no_items)) no_fields

abbrev pub commands : (ℕ → Fields) → List ℕ → Items
commands command [] = no_items
commands command (id ∷ rest) =
    item (object (field "id" (number id) (command id))) (commands command rest)

abbrev pub verbose : Fields
verbose = field "v" (boolean true) no_fields

abbrev pub color_of : Option (List ℕ) → Option Color
color_of none = none
color_of (some values) = hex (as_items values)

-- The values that `set_solid` wants of each segment.
abbrev pub solid_of : List ℕ → Wanted
solid_of values = record {
  fx = nat 0;
  pal = nat 0;
  sx = none;
  ix = none;
  col = hex (as_items values);
}

-- Its argument, where it is an `int` of a byte and no Boolean.
abbrev pub requested : Json → Option ℕ
requested (integer (nat n)) = if leb n 255 then some n else none
requested _ = none

abbrev pub has_id : ℕ → List CatalogItem → Bool
has_id id [] = false
has_id id (entry ∷ rest) = (entry.id == id) || has_id id rest

abbrev pub offers : ℕ → ℕ → Capabilities → Bool
offers effect_id palette_id capabilities =
    has_id effect_id capabilities.effects && has_id palette_id capabilities.palettes

module _ (strip_upper : Color → Color) (http : List Request → Request → Response)
    (clock : ℕ → ℕ) where
  -- `_get_json` and `_post_state`
  unfoldable pub send : Request → Action Fields
  unfolding response_object
  send request client =
      if client.is_started
      then (
        response_object (http client.requests request),
        record client { requests = client.requests ++ request ∷ [] },
      )
      else raise not_started "WLED client가 시작되지 않았습니다." client

  abbrev pub now : Client → ℕ
  now client = clock (length client.requests)

  -- `self._snapshot = self._snapshot_from_state(response); return self._snapshot`
  unfoldable pub take_state : Fields → Action Snapshot
  unfolding snapshot_from_state ◌>>=◌
  take_state response = do
    snapshot ← λ client. lift (snapshot_from_state client.capabilities (now client) response) client
    write (λ client. record client { snapshot = snapshot })
    return snapshot

  -- `self._capabilities = self._parse_capabilities(await self._get_json("/json"))`
  unfoldable pub load_capabilities : Action Capabilities
  unfolding send parse_capabilities ◌>>=◌
  load_capabilities = do
    payload ← send (get_path "/json")
    capabilities ← λ client. lift (parse_capabilities (now client) payload) client
    write (λ client. record client { capabilities = some capabilities })
    return capabilities

  unfoldable pub refresh_capabilities : Action Capabilities
  unfolding load_capabilities
  refresh_capabilities = attempt load_capabilities

  unfoldable pub refresh_state : Action Snapshot
  unfolding send take_state ◌>>=◌
  refresh_state = attempt (do state ← send (get_path "/json/state"); take_state state)

  -- `response.get("on") is on`
  abbrev pub says : Bool → Option Bool → Bool
  says on none = false
  says true (some answer) = answer
  says false (some answer) = not answer

  -- A response that a test confirms becomes the state; another one is an error.
  unfoldable pub take_if : Bool → String → Fields → Action Snapshot
  unfolding take_state
  take_if is_confirmed message response =
      if is_confirmed then take_state response else raise protocol message

  unfoldable pub turn_off : Action Snapshot
  unfolding send take_if as_bool get ◌>>=◌
  turn_off = attempt (do
    response ← send (post_state (field "on" (boolean false) verbose))
    take_if (says false (as_bool (get "on" response))) "WLED가 전원 끄기를 확인하지 못했습니다." response)

  unfoldable pub turn_on : Action Snapshot
  unfolding send take_if as_bool get ◌>>=◌
  turn_on = attempt (do
    response ← send (post_state (field "on" (boolean true) verbose))
    take_if (says true (as_bool (get "on" response))) "WLED가 전원 켜기를 확인하지 못했습니다." response)

  -- Behind the check of its argument.
  unfoldable pub set_byte : Option ℕ → Action Snapshot
  unfolding send take_if equals_int get ◌>>=◌
  set_byte none = raise protocol "밝기는 0에서 255 사이의 정수여야 합니다."
  set_byte (some brightness) = attempt (do
    response ← send (post_state (field "bri" (number brightness) verbose))
    take_if (equals_int (nat brightness) (get "bri" response)) "WLED가 요청한 밝기를 확인하지 못했습니다." response)

  unfoldable pub set_brightness : Json → Action Snapshot
  unfolding set_byte
  set_brightness brightness = set_byte (requested brightness)

  -- `if state["on"] is False: await self._post_state(…)`
  unfoldable pub power_on : Option Json → Action (Unit {0})
  unfolding send ◌>>=◌
  power_on none = raise key_error "'on'"
  power_on (some (boolean false)) =
      send (post_state (field "on" (boolean true) verbose)) >>= (λ response. return tt)
  power_on (some _) = return tt

  -- The state of the lamp, which is turned on if it is off, and the ids of its segments.
  unfoldable pub find_segments : Action (List ℕ)
  unfolding send power_on valid_segments keys get ◌>>=◌
  find_segments = do
    state ← send (get_path "/json/state")
    segments ← lift (valid_segments state)
    power_on (get "on" state)
    return (keys segments)

  -- The command to all segments, the check of the answer, and the new state.
  unfoldable pub apply : (ℕ → Fields) → Wanted → List ℕ → Action Snapshot
  unfolding send take_state verify_response ◌>>=◌
  apply command wanted ids = do
    response ← send (post_state (field "seg" (array (commands command ids)) verbose))
    lift (verify_response response wanted ids)
    take_state response

  -- `set_solid` on the normalized colour.
  unfoldable pub set_normalized : Option Color → Action Snapshot
  unfolding find_segments apply ◌>>=◌
  set_normalized none = raise protocol "색상 형식이 올바르지 않습니다."
  set_normalized (some color) = attempt (do
    ids ← find_segments
    apply (λ id. field "fx" (number 0) (field "pal" (number 0) (color_fields (some (rgb color)))))
        (solid_of (rgb color)) ids)

  unfoldable pub set_solid : Color → Action Snapshot
  unfolding set_normalized normalize_color
  set_solid color = set_normalized (normalize_color strip_upper color)

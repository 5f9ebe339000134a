-- ===== src/Wled/Catalog.antt =====
-- `_parse_capabilities` of src/smart_desk/modules/wled/client.py.
use kdt_smaty.Prelude.{
  ℕ, suc, String, str_eq, strip, Bool, false, not, ◌&&◌, ◌||◌, ◌⊎◌, inr, Option, none, some, List,
  [], ◌∷◌, if◌then◌else◌,
}
use kdt_smaty.Wled.Json.{Json, text, object, Items, no_items, item, Fields, get, as_list}
use kdt_smaty.Wled.State.{CatalogItem, Capabilities, WledError, ◌>>=◌}
use kdt_smaty.Wled.Reading.{or_protocol}

-- `item.strip() and item.strip() not in {…}` on a name of a catalogue.
abbrev pub no_names : List String → String → Bool
no_names [] name = false
no_names (other ∷ rest) name = str_eq other name || no_names rest name

abbrev pub add_name : List String → ℕ → Json → List CatalogItem → List CatalogItem
add_name excluded i (text name) rest =
    if not (str_eq (strip name) "") && not (no_names excluded (strip name))
    then record { id = i; name = strip name } ∷ rest
    else rest
add_name excluded i _ rest = rest

-- `enumerate` over a catalogue, with the names that are kept.
unfoldable pub catalog : List String → ℕ → Items → List CatalogItem
catalog excluded i no_items = []
catalog excluded i (item value rest) = add_name excluded i value (catalog excluded (suc i) rest)

abbrev pub as_object : Option Json → Option Fields
as_object (some (object fields)) = some fields
as_object _ = none

abbrev pub as_text : Option Json → Option String
as_text (some (text s)) = some s
as_text _ = none

abbrev pub malformed : String
malformed = "WLED capabilities 응답 형식이 올바르지 않습니다."

abbrev pub no_device : String
no_device = "WLED 장치 정보가 올바르지 않습니다."

-- `_parse_capabilities`
unfoldable pub parse_capabilities : ℕ → Fields → WledError ⊎ Capabilities
unfolding catalog get as_list
parse_capabilities now payload = do
  info ← or_protocol malformed (as_object (get "info" payload))
  effects ← or_protocol malformed (as_list (get "effects" payload))
  palettes ← or_protocol malformed (as_list (get "palettes" payload))
  state ← or_protocol malformed (as_object (get "state" payload))
  name ← or_protocol no_device (as_text (get "name" info))
  version ← or_protocol no_device (as_text (get "ver" info))
  inr (record {
    device_name = name;
    firmware_version = version;
    effects = catalog ("RSVD" ∷ "-" ∷ []) 0 effects;
    palettes = catalog [] 0 palettes;
    observed_at = now;
  })

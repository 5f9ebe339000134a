-- ===== src/Wled/State.antt =====
-- What src/smart_desk/modules/wled/client.py reads from a state of the lamp: the snapshot of models.py,
-- the valid segments and the check of a response. Times are numbers.
use kdt_smaty.Prelude.{
  ℕ, String, Bool, false, ◌||◌, ◌⊎◌, inl, inr, Option, none, some, List, [], ◌∷◌, if◌then◌else◌,
}
use kdt_smaty.Wled.Json.{
  Json, object, Items, no_items, item, Fields, get, Whole, nat, whole_lt, as_int, as_list,
}
use kdt_smaty.Wled.Color.{Color, segment_color}

pub data WledStatus : Type 0 where
  disabled unknown online error : WledStatus

pub data WledMode : Type 0 where
  off solid effect mixed : WledMode

pub record CatalogItem : Type 0 where
  pub id : ℕ
  pub name : String

pub record Capabilities : Type 0 where
  pub device_name : String
  pub firmware_version : String
  pub effects : List CatalogItem
  pub palettes : List CatalogItem
  pub observed_at : ℕ

pub record Snapshot : Type 0 where
  pub status : WledStatus
  pub on : Option Bool
  pub brightness : Option ℕ
  pub mode : Option WledMode
  pub color : Option Color
  pub effect_id : Option Whole
  pub effect_name : Option String
  pub palette_id : Option Whole
  pub speed : Option Whole
  pub intensity : Option Whole
  pub observed_at : Option ℕ
  pub last_error : Option String

-- The errors of the client; `key_error` is Python's own and no `WledError`.
pub data ErrorKind : Type 0 where
  not_started unavailable protocol unsupported_value key_error : ErrorKind

pub record WledError : Type 0 where
  pub kind : ErrorKind
  pub message : String

abbrev pub protocol_error : {A : Type 0} → String → WledError ⊎ A
protocol_error message = inl (record { kind = protocol; message = message })

infixl 5 ◌>>=◌
abbrev pub ◌>>=◌ : {A B : Type 0} → WledError ⊎ A → (A → WledError ⊎ B) → WledError ⊎ B
inl e >>= f = inl e
inr x >>= f = f x

abbrev pub if_some : Option ℕ → (ℕ → Bool) → Bool
if_some none test = false
if_some (some n) test = test n

-- `isinstance(item.get("id"), int) and item["id"] >= 0`
abbrev pub id_of : Option Whole → Option ℕ
id_of (some (nat n)) = some n
id_of _ = none

-- `isinstance(a, int) and isinstance(b, int) and b > a`
abbrev pub both_before : Option Whole → Option Whole → Bool
both_before (some a) (some b) = whole_lt a b
both_before _ _ = false

abbrev pub is_positive : Option Whole → Bool
is_positive (some n) = whole_lt (nat 0) n
is_positive none = false

-- A segment with the number that is its id.
abbrev pub Segment : Type 0
Segment = ℕ × Fields

-- The test of `_valid_segments` on an item that is an object.
unfoldable pub valid_segment : Fields → Option Segment
unfolding get as_int whole_lt
valid_segment fields = elim (id_of (as_int (get "id" fields))) [
  | none ↦ none
  | some id ↦
      if both_before (as_int (get "start" fields)) (as_int (get "stop" fields))
        || is_positive (as_int (get "len" fields))
      then some (id, fields)
      else none
]

abbrev pub add_valid : Option Segment → List Segment → List Segment
add_valid none rest = rest
add_valid (some segment) rest = segment ∷ rest

unfoldable pub valid_items : Items → List Segment
unfolding valid_segment
valid_items no_items = []
valid_items (item (object fields) rest) = add_valid (valid_segment fields) (valid_items rest)
valid_items (item _ rest) = valid_items rest

unfoldable pub some_segments : List Segment → WledError ⊎ List Segment
some_segments [] = protocol_error "WLED에 유효한 segment가 없습니다."
some_segments segments = inr segments

unfoldable pub listed_segments : Option Items → WledError ⊎ List Segment
unfolding valid_items some_segments
listed_segments none = protocol_error "WLED segment 목록이 올바르지 않습니다."
listed_segments (some items) = some_segments (valid_items items)

-- `_valid_segments`
unfoldable pub valid_segments : Fields → WledError ⊎ List Segment
unfolding listed_segments as_list
valid_segments state = listed_segments (as_list (get "seg" state))

-- The tuple of `_segment_values`.
pub record SegmentValues : Type 0 where
  pub fx : Whole
  pub pal : Whole
  pub sx : Option Whole
  pub ix : Option Whole
  pub col : Option Color

-- A value that may be missing or null, but else is an `int`.
unfoldable pub optional_int : Option Json → WledError ⊎ Option Whole
unfolding as_int
optional_int none = inr none
optional_int (some Json.null) = inr none
optional_int value = elim (as_int value) [
  | some n ↦ inr (some n)
  | none ↦ protocol_error "WLED effect 설정이 올바르지 않습니다."
]

abbrev pub required_int : Option Whole → WledError ⊎ Whole
required_int (some n) = inr n
required_int none = protocol_error "WLED segment 설정이 올바르지 않습니다."

-- `_segment_values`
unfoldable pub segment_values : Fields → WledError ⊎ SegmentValues
unfolding optional_int segment_color
segment_values segment = do
  fx ← required_int (as_int (get "fx" segment))
  pal ← required_int (as_int (get "pal" segment))
  sx ← optional_int (get "sx" segment)
  ix ← optional_int (get "ix" segment)
  inr (record { fx = fx; pal = pal; sx = sx; ix = ix; col = segment_color segment })

unfoldable pub all_values : List Segment → WledError ⊎ List SegmentValues
unfolding segment_values
all_values [] = inr []
all_values (segment ∷ rest) = do
  values ← segment_values segment.1
  others ← all_values rest
  inr (values ∷ others)

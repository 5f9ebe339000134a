-- ===== src/Wled/Reading.antt =====
-- `_snapshot_from_state` and `_verify_response` of
-- src/smart_desk/modules/wled/client.py.
pub mod Facts
use kdt_smaty.Prelude.{
  ℕ, suc, String, str_eq, strip, Bool, true, false, not, ◌&&◌, ◌||◌, ◌⊎◌, inl, inr, Option, none,
  some, List, [], ◌∷◌, ◌==◌, if◌then◌else◌,
}
use kdt_smaty.Wled.Json.{
  Json, text, object, Items, no_items, item, Fields, get, Whole, nat, whole_eq, as_int, as_bool,
  as_list, as_byte,
}
use kdt_smaty.Wled.Color.{Color}
use kdt_smaty.Wled.State.{
  WledStatus, WledMode, CatalogItem, Capabilities, Snapshot, WledError, protocol_error, ◌>>=◌,
  Segment, valid_segments, SegmentValues, segment_values, all_values,
}

unfoldable pub color_eq : Color → Color → Bool
color_eq [] [] = true
color_eq (a ∷ rest) (b ∷ other) = (a == b) && color_eq rest other
color_eq _ _ = false

abbrev pub option_eq : {A : Type 0} → (A → A → Bool) → Option A → Option A → Bool
option_eq eq none none = true
option_eq eq (some a) (some b) = eq a b
option_eq eq _ _ = false

-- `a[:4] == b[:4]`
unfoldable pub same_effect : SegmentValues → SegmentValues → Bool
unfolding whole_eq
same_effect a b =
    whole_eq a.fx b.fx
    && (whole_eq a.pal b.pal && (option_eq whole_eq a.sx b.sx && option_eq whole_eq a.ix b.ix))

unfoldable pub same_color : SegmentValues → SegmentValues → Bool
unfolding color_eq
same_color a b = option_eq color_eq a.col b.col

-- Whether a test holds of all values.
unfoldable pub all_of : (SegmentValues → Bool) → List SegmentValues → Bool
all_of test [] = true
all_of test (values ∷ rest) = test values && all_of test rest

abbrev pub is_zero : SegmentValues → Bool
is_zero values = whole_eq values.fx (nat 0)

-- `next((item.name for item in effects if item.id == fx), None)`
unfoldable pub name_in : Whole → List CatalogItem → Option String
unfolding whole_eq
name_in fx [] = none
name_in fx (entry ∷ rest) =
    let later = name_in fx rest in if whole_eq (nat entry.id) fx then some entry.name else later

abbrev pub known_effects : Option Capabilities → List CatalogItem
known_effects none = []
known_effects (some capabilities) = capabilities.effects

-- A snapshot of a lamp that answered.
abbrev pub answered : ℕ → ℕ → Bool → WledMode → Snapshot
answered now brightness on mode = record {
  status = WledStatus.online;
  on = some on;
  brightness = some brightness;
  mode = some mode;
  color = none;
  effect_id = none;
  effect_name = none;
  palette_id = none;
  speed = none;
  intensity = none;
  observed_at = some now;
  last_error = none;
}

module _ (capabilities : Option Capabilities) (now brightness : ℕ) where
  -- The snapshot of a lamp that is on, by the values of its segments, the first of them apart.
  unfoldable pub snapshot_of : SegmentValues → List SegmentValues → Snapshot
  unfolding all_of same_effect same_color name_in
  snapshot_of first others =
      let one_color = all_of (same_color first) others in
      if (is_zero first && all_of is_zero others) && one_color
      then record (answered now brightness true WledMode.solid) {
        color = first.col;
        effect_id = some (nat 0);
        effect_name = some "Solid";
        palette_id = some first.pal;
        speed = first.sx;
        intensity = first.ix;
      }
      else if all_of (same_effect first) others && not (is_zero first)
      then record (answered now brightness true WledMode.effect) {
        color = if one_color then first.col else none;
        effect_id = some first.fx;
        effect_name = name_in first.fx (known_effects capabilities);
        palette_id = some first.pal;
        speed = first.sx;
        intensity = first.ix;
      }
      else answered now brightness true WledMode.mixed

  -- Behind the checks of power and brightness; there is at least one valid segment.
  unfoldable pub snapshot_of_values : List SegmentValues → WledError ⊎ Snapshot
  unfolding snapshot_of
  snapshot_of_values [] = protocol_error "WLED에 유효한 segment가 없습니다."
  snapshot_of_values (first ∷ others) = inr (snapshot_of first others)

  unfoldable pub snapshot_when : Bool → List Segment → WledError ⊎ Snapshot
  unfolding snapshot_of_values all_values
  snapshot_when false segments = inr (answered now brightness false WledMode.off)
  snapshot_when true segments = all_values segments >>= snapshot_of_values

abbrev pub or_protocol : {A : Type 0} → String → Option A → WledError ⊎ A
or_protocol message none = protocol_error message
or_protocol message (some a) = inr a

-- `_snapshot_from_state`
unfoldable pub snapshot_from_state : Option Capabilities → ℕ → Fields → WledError ⊎ Snapshot
unfolding as_bool as_byte as_int get valid_segments snapshot_when
snapshot_from_state capabilities now state = do
  on ← or_protocol "WLED 전원 상태가 올바르지 않습니다." (as_bool (get "on" state))
  brightness ← or_protocol "WLED 밝기 상태가 올바르지 않습니다." (as_byte (as_int (get "bri" state)))
  segments ← valid_segments state
  snapshot_when capabilities now brightness on segments

-- What is expected of a segment: the wanted values, where something is wanted.
pub record Wanted : Type 0 where
  pub fx : Whole
  pub pal : Whole
  pub sx : Option Whole
  pub ix : Option Whole
  pub col : Option Color

-- `"sx" in wanted and actual[2] != wanted["sx"]`, negated.
abbrev pub as_wanted : {A : Type 0} → (A → A → Bool) → Option A → Option A → Bool
as_wanted eq none actual = true
as_wanted eq (some wanted) none = false
as_wanted eq (some wanted) (some actual) = eq actual wanted

unfoldable pub is_confirmed : Wanted → SegmentValues → Bool
unfolding whole_eq color_eq
is_confirmed wanted actual =
    whole_eq actual.fx wanted.fx
    && (whole_eq actual.pal wanted.pal
        && (as_wanted whole_eq wanted.sx actual.sx
            && (as_wanted whole_eq wanted.ix actual.ix
                && as_wanted color_eq wanted.col actual.col)))

-- `found.get(item_id)`: of segments with one id, the last counts.
unfoldable pub find_segment : ℕ → List Segment → Option Fields
find_segment id [] = none
find_segment id (segment ∷ rest) = elim (find_segment id rest) [
  | some later ↦ some later
  | none ↦ if segment.0 == id then some segment.1 else none
]

-- A round of the loop of `_verify_response`.
unfoldable pub confirm : List Segment → Wanted → ℕ → WledError ⊎ SegmentValues
unfolding find_segment segment_values is_confirmed
confirm found wanted id = do
  segment ← or_protocol "WLED 응답에 적용한 segment가 없습니다." (find_segment id found)
  actual ← segment_values segment
  if is_confirmed wanted actual then inr actual else protocol_error "WLED가 요청한 설정을 확인하지 못했습니다."

unfoldable pub verify_segments : List Segment → Wanted → List ℕ → WledError ⊎ Unit {0}
unfolding confirm
verify_segments found wanted [] = inr tt
verify_segments found wanted (id ∷ rest) =
    confirm found wanted id >>= (λ actual. verify_segments found wanted rest)

abbrev pub is_on : Option Bool → Bool
is_on (some true) = true
is_on _ = false

-- `_verify_response`
unfoldable pub verify_response : Fields → Wanted → List ℕ → WledError ⊎ Unit {0}
unfolding verify_segments valid_segments as_bool get
verify_response response wanted ids =
    if is_on (as_bool (get "on" response))
    then (valid_segments response >>= (λ found. verify_segments found wanted ids))
    else protocol_error "WLED가 조명을 켜지 못했습니다."

-- ===== src/Wled/Client/Effect.antt =====
-- `set_effect` and `_validate_effect` of `WledClient`.
use kdt_smaty.Prelude.{ℕ, Bool, true, false, Option, none, some, List}
use kdt_smaty.Wled.Json.{Fields, field, nat}
use kdt_smaty.Wled.Color.{Color, normalize_color, rgb}
use kdt_smaty.Wled.State.{Capabilities, Snapshot, protocol, unsupported_value}
use kdt_smaty.Wled.Reading.{Wanted}
use kdt_smaty.Wled.Client.{Request, Response, Action, ◌>>=◌, ◌>>◌, return, raise, read, attempt}
use kdt_smaty.Wled.Client.Operations.{
  number, color_fields, color_of, offers, load_capabilities, find_segments, apply,
}

-- The arguments of `set_effect`.
pub record Effect : Type 0 where
  pub effect_id : ℕ
  pub palette_id : ℕ
  pub speed : ℕ
  pub intensity : ℕ
  pub color : Option Color

abbrev pub wanted_of : Effect → Option (List ℕ) → Wanted
wanted_of effect values = record {
  fx = nat effect.effect_id;
  pal = nat effect.palette_id;
  sx = some (nat effect.speed);
  ix = some (nat effect.intensity);
  col = color_of values;
}

abbrev pub command_of : Effect → Option (List ℕ) → ℕ → Fields
command_of effect values id = field "fx" (number effect.effect_id) (
    field "pal" (number effect.palette_id) (
      field "sx" (number effect.speed)
        (field "ix" (number effect.intensity) (color_fields values))))

module _ (strip_upper : Color → Color) (http : List Request → Request → Response)
    (clock : ℕ → ℕ) where
  -- `self._capabilities or self._parse_capabilities(…)`
  unfoldable pub known_capabilities : Option Capabilities → Action Capabilities
  known_capabilities (some capabilities) = return capabilities
  known_capabilities none = load_capabilities strip_upper http clock

  unfoldable pub check_again : Bool → Action (Unit {0})
  check_again true = return tt
  check_again false = raise unsupported_value "WLED가 요청한 effect 또는 palette를 지원하지 않습니다."

  -- Behind the first look at the capabilities.
  unfoldable pub check_offer : Effect → Bool → Action (Unit {0})
  unfolding check_again
  check_offer effect true = return tt
  check_offer effect false = do
    capabilities ← load_capabilities strip_upper http clock
    check_again (offers effect.effect_id effect.palette_id capabilities)

  -- `_validate_effect`
  unfoldable pub validate_effect : Effect → Action (Unit {0})
  unfolding known_capabilities check_offer
  validate_effect effect = do
    known ← read (λ client. client.capabilities)
    capabilities ← known_capabilities known
    check_offer effect (offers effect.effect_id effect.palette_id capabilities)

  unfoldable pub numbers_of : Option Color → Action (Option (List ℕ))
  numbers_of none = raise protocol "색상 형식이 올바르지 않습니다."
  numbers_of (some color) = return (some (rgb color))

  -- `self._normalize_color(color) if color is not None else None`, and its numbers.
  unfoldable pub optional_numbers : Option Color → Action (Option (List ℕ))
  unfolding numbers_of normalize_color
  optional_numbers none = return none
  optional_numbers (some color) = numbers_of (normalize_color strip_upper color)

  unfoldable pub set_effect : Effect → Action Snapshot
  unfolding validate_effect find_segments optional_numbers apply
  set_effect effect = attempt (do
    validate_effect effect
    ids ← find_segments strip_upper http clock
    values ← optional_numbers effect.color
    apply strip_upper http clock (command_of effect values) (wanted_of effect values) ids)

-- ===== src/Desk/Segment.antt =====
-- src/smart_desk/modules/desk/segment.py: from one line of the Arduino, the masks of a 7-segment
-- display, to a height. The UTF-8 decoder and the JSON parser are parameters.
pub mod Display
use kdt_smaty.Prelude.{
  ℕ, suc, ◌+◌, ◌*◌, String, str_eq, Bool, true, false, not, ◌&&◌, ◌||◌, Option, none, some, List,
  [], ◌∷◌, leb, ltb, ◌==◌, if◌then◌else◌,
}
use kdt_smaty.Desk.Models.{DeskSettings}

pub data Digit : Type 0 where
  d0 d1 d2 d3 d4 d5 d6 d7 d8 d9 : Digit

-- The values of `MASK_TO_DIGIT`.
unfoldable pub mask_to_digit : ℕ → Option Digit
mask_to_digit mask =
    if mask == 126
    then some d0
    else if mask == 48
    then some d1
    else if mask == 109
    then some d2
    else if mask == 121
    then some d3
    else if mask == 51
    then some d4
    else if mask == 91
    then some d5
    else if mask == 95
    then some d6
    else if mask == 112
    then some d7
    else if mask == 127
    then some d8
    else if mask == 123
    then some d9
    else none

-- A value in a JSON object, as far as the decoder tells values apart.
pub data Value : Type 0 where
  integer : ℕ → Value
  negative_integer : ℕ → Value
  boolean : Bool → Value
  other : Value

-- What `json.loads` gives: a dictionary, whose keys differ, or something else.
pub data Json : Type 0 where
  dictionary : List (String × Value) → Json
  not_dictionary : Json

-- `packet.get(key)`
unfoldable pub get : String → List (String × Value) → Option Value
get key [] = none
get key ((name, value) ∷ rest) =
    let found = get key rest in if str_eq name key then some value else found

-- `_is_plain_int`, and the number
abbrev pub plain_int : Option Value → Option ℕ
plain_int (some (integer n)) = some n
plain_int _ = none

-- A number of `DIGIT_NUMBERS` with the keys of its mask and its point.
pub record Position : Type 0 where
  pub number : ℕ
  pub mask : String
  pub point : String

abbrev pub first_digit : Position
first_digit = record { number = 8; mask = "m8"; point = "p8" }

abbrev pub second_digit : Position
second_digit = record { number = 9; mask = "m9"; point = "p9" }

abbrev pub third_digit : Position
third_digit = record { number = 10; mask = "m10"; point = "p10" }

abbrev pub digit_numbers : List Position
digit_numbers = first_digit ∷ second_digit ∷ third_digit ∷ []

abbrev pub required_fields : List String
required_fields = "fresh" ∷ "m8" ∷ "m9" ∷ "m10" ∷ "p8" ∷ "p9" ∷ "p10" ∷ []

abbrev is_present : Option Value → Bool
is_present none = false
is_present (some value) = true

-- `REQUIRED_FIELDS.issubset(packet)`
unfoldable pub has_fields : List String → List (String × Value) → Bool
has_fields [] packet = true
has_fields (key ∷ keys) packet = is_present (get key packet) && has_fields keys packet

-- What the text of a height is made of.
pub data Symbol : Type 0 where
  digit : Digit → Symbol
  point : Symbol

infixl 5 ◌>>=◌
abbrev ◌>>=◌ : {A B : Type 0} → Option A → (A → Option B) → Option B
none >>= f = none
some a >>= f = f a

-- `point not in (0, 1)`
abbrev is_point : ℕ → Option Bool
is_point p = if p == 0 then some false else if p == 1 then some true else none

-- The two fields of one digit: what it shows, and whether its point is lit.
unfoldable pub read_position : List (String × Value) → Position → Option (Digit × Bool)
read_position packet position = do
  mask ← plain_int (get position.mask packet)
  shown ← mask_to_digit mask
  lit ← plain_int (get position.point packet)
  has_point ← is_point lit
  some (shown, has_point)

-- The loop over the digits, with the points seen so far: one at most, and none behind the last.
unfoldable pub read_digits : List (String × Value) → ℕ → List Position → Option (List Symbol)
read_digits packet point_count [] = some []
read_digits packet point_count (position ∷ rest) = do
  (shown, has_point) ← read_position packet position
  if has_point
      then (if ltb 1 (suc point_count) || position.number == 10 then none else (do
        symbols ← read_digits packet (suc point_count) rest
        some (digit shown ∷ point ∷ symbols)))
      else (do symbols ← read_digits packet point_count rest; some (digit shown ∷ symbols))

abbrev pub value : Digit → ℕ
value d0 = 0
value d1 = 1
value d2 = 2
value d3 = 3
value d4 = 4
value d5 = 5
value d6 = 6
value d7 = 7
value d8 = 8
value d9 = 9

-- The decimals of the text, up to thousandths.
unfoldable pub decimals : ℕ → ℕ → List Symbol → Option ℕ
decimals unit smaller [] = some 0
decimals unit smaller (point ∷ rest) = none
decimals unit smaller (digit d ∷ rest) = do
  behind ← decimals smaller 1 rest
  some (value d * unit + behind)

-- `float(text)` in thousandths; a second point is a ValueError.
unfoldable pub parse_float : ℕ → List Symbol → Option ℕ
parse_float whole [] = some (whole * 1000)
parse_float whole (digit d ∷ rest) = parse_float (whole * 10 + value d) rest
parse_float whole (point ∷ rest) = do behind ← decimals 100 10 rest; some (whole * 1000 + behind)

abbrev pub is_seven : Option ℕ → Bool
is_seven none = false
is_seven (some n) = n == 7

module _ (s : DeskSettings) where
  abbrev pub within : ℕ → Option ℕ
  within height =
      if leb s.measurement_min_cm height && leb height s.measurement_max_cm
      then some height
      else none

  unfoldable pub decode_packet : List (String × Value) → Option ℕ
  decode_packet packet =
      if not (has_fields required_fields packet)
      then none
      else if not (is_seven (plain_int (get "fresh" packet)))
      then none
      else do
        symbols ← read_digits packet 0 digit_numbers
        height ← parse_float 0 symbols
        within height

  unfoldable pub decode_json : Json → Option ℕ
  decode_json not_dictionary = none
  decode_json (dictionary packet) = decode_packet packet

-- A message of the serial source.
pub data Raw : Type 0 where
  bytes : List ℕ → Raw
  text : String → Raw

module _ (utf_8 : List ℕ → Option String) (loads : String → Option Json) where
  -- `_decode_text`
  unfoldable pub decode_text : Raw → Option String
  decode_text (bytes raw) = utf_8 raw
  decode_text (text raw) = some raw

  unfoldable pub decode : DeskSettings → Raw → Option ℕ
  decode s raw_message = do
    message ← decode_text raw_message
    packet ← loads message
    decode_json s packet

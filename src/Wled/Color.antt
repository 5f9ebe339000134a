-- ===== src/Wled/Color.antt =====
-- The colours of src/smart_desk/modules/wled/client.py and models.py: texts of six hexadecimal digits,
-- as lists of code points, and lists of three numbers. `strip` and `upper` of a text are a parameter.
pub mod Codes
use kdt_smaty.Prelude.{
  ℕ, ◌+◌, ◌*◌, ◌-◌, ◌/◌, ◌%◌, Bool, true, false, ◌&&◌, leb, ltb, Option, none, some, List, [], ◌∷◌,
  length, ◌==◌, is_some, if◌then◌else◌,
}
use kdt_smaty.Wled.Json.{
  Json, array, integer, nat, Items, no_items, item, Fields, get, as_list, as_int, as_byte,
}

abbrev pub Color : Type 0
Color = List ℕ

-- The value of a digit of `0-9A-F`.
unfoldable pub digit_value : ℕ → Option ℕ
digit_value c =
    if leb 48 c && leb c 57
    then some (c - 48)
    else if leb 65 c && leb c 70
    then some (c - 55)
    else none

-- A digit of `f"{value:02X}"`
unfoldable pub digit_code : ℕ → ℕ
digit_code n = if ltb n 10 then 48 + n else 55 + n

unfoldable pub all_digits : Color → Bool
unfolding digit_value
all_digits [] = true
all_digits (c ∷ rest) = is_some (digit_value c) && all_digits rest

-- `_normalize_color`, and the validators of the requests; `none` is the refusal.
unfoldable pub normalize_color : (Color → Color) → Color → Option Color
unfolding all_digits
normalize_color strip_upper color =
    let normalized = strip_upper color in
    if (length normalized == 6) && all_digits normalized then some normalized else none

abbrev pub value_or_zero : Option ℕ → ℕ
value_or_zero none = 0
value_or_zero (some n) = n

-- `int(text, 16)` for two digits.
unfoldable pub pair_value : ℕ → ℕ → ℕ
unfolding digit_value
pair_value a b = 16 * value_or_zero (digit_value a) + value_or_zero (digit_value b)

-- `_rgb`
unfoldable pub rgb : Color → List ℕ
unfolding pair_value
rgb (a ∷ b ∷ rest) = pair_value a b ∷ rgb rest
rgb _ = []

abbrev pub as_items : List ℕ → Items
as_items [] = no_items
as_items (n ∷ rest) = item (integer (nat n)) (as_items rest)

abbrev pub byte_of : Json → Option ℕ
byte_of value = as_byte (as_int (some value))

infixl 5 ◌>>=◌
abbrev pub ◌>>=◌ : {A B : Type 0} → Option A → (A → Option B) → Option B
some x >>= f = f x
none >>= f = none

-- `_hex` on a list; `none` stands for None.
unfoldable pub hex : Items → Option Color
unfolding as_byte as_int digit_code
hex (item r (item g (item b rest))) = do
  x ← byte_of r
  y ← byte_of g
  z ← byte_of b
  some (
      digit_code (x / 16)
      ∷ digit_code (x % 16)
      ∷ digit_code (y / 16)
      ∷ digit_code (y % 16)
      ∷ digit_code (z / 16)
      ∷ digit_code (z % 16)
      ∷ [])
hex _ = none

-- `_segment_color`
unfoldable pub first_color : Option Items → Option Color
unfolding hex as_list
first_color (some (item first rest)) = as_list (some first) >>= hex
first_color _ = none

unfoldable pub segment_color : Fields → Option Color
unfolding first_color
segment_color segment = first_color (as_list (get "col" segment))

-- ===== src/Wled/Json.antt =====
-- The values that `response.json()` can give, and the tests that the client makes on them. In Python a
-- Boolean is an `int`, and a float can equal one.
use kdt_smaty.Prelude.{
  ℕ, String, str_eq, Bool, true, false, ltb, leb, ◌==◌, Option, none, some, if◌then◌else◌,
}

-- An `int`: a natural number, or one below zero by its distance.
pub data Whole : Type 0 where
  nat below : ℕ → Whole

unfoldable pub whole_eq : Whole → Whole → Bool
whole_eq (nat a) (nat b) = a == b
whole_eq (below a) (below b) = a == b
whole_eq _ _ = false

unfoldable pub whole_lt : Whole → Whole → Bool
whole_lt (nat a) (nat b) = ltb a b
whole_lt (below a) (below b) = ltb b a
whole_lt (nat a) (below b) = false
whole_lt (below a) (nat b) = true

mutual
  -- A float carries the `int` that it equals, if there is one.
  pub data Json : Type 0 where
    null : Json
    boolean : Bool → Json
    integer : Whole → Json
    float : Option Whole → Json
    text : String → Json
    array : Items → Json
    object : Fields → Json

  pub data Items : Type 0 where
    no_items : Items
    item : Json → Items → Items

  pub data Fields : Type 0 where
    no_fields : Fields
    field : String → Json → Fields → Fields

-- `data.get(key)`, with None for a missing key; a parsed object has each key once.
unfoldable pub get : String → Fields → Option Json
get key no_fields = none
get key (field name value rest) =
    let later = get key rest in if str_eq name key then some value else later

-- `isinstance(value, int)` with its value.
unfoldable pub as_int : Option Json → Option Whole
as_int (some (integer n)) = some n
as_int (some (boolean true)) = some (nat 1)
as_int (some (boolean false)) = some (nat 0)
as_int _ = none

-- `isinstance(value, bool)` with its value.
unfoldable pub as_bool : Option Json → Option Bool
as_bool (some (boolean b)) = some b
as_bool _ = none

-- `isinstance(value, list)` with its items.
unfoldable pub as_list : Option Json → Option Items
as_list (some (array items)) = some items
as_list _ = none

-- `value == n`
unfoldable pub equals_int : Whole → Option Json → Bool
unfolding as_int whole_eq
equals_int n (some (float (some m))) = whole_eq m n
equals_int n value = elim (as_int value) [ some m ↦ whole_eq m n | none ↦ false ]

-- `0 <= n <= 255`
unfoldable pub as_byte : Option Whole → Option ℕ
as_byte (some (nat n)) = if leb n 255 then some n else none
as_byte _ = none

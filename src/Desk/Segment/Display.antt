-- ===== src/Desk/Segment/Display.antt =====
-- What the decoder makes of a display, and of anything else.
use mathlib.Core.Path.{fun_ext}
use kdt_smaty.Prelude.{
  ℕ, ◌+◌, ◌*◌, ◌≤◌, ◌<◌, ◌≡◌, ◌⊎◌, sym, refl, ap, ◌∙◌, subst, String, Bool, true, false, not,
  Option, none, some, List, [], ◌∷◌, leb, ◌&&◌, Bool-cases, inl, inr, arith, if◌then◌else◌,
}
use kdt_smaty.Desk.Models.{DeskSettings}
use kdt_smaty.Desk.Segment.{
  Digit, d0, d1, d2, d3, d4, d5, d6, d7, d8, d9, mask_to_digit, Value, integer, Json, dictionary,
  value, within, decode_packet, digit_numbers, required_fields, is_seven, plain_int, decode_json,
  not_dictionary, get, has_fields, read_position, read_digits, decimals, parse_float, decode,
  decode_text, Raw, ◌>>=◌,
}

-- The segments a digit lights.
abbrev mask_of : Digit → ℕ
mask_of d0 = 126
mask_of d1 = 48
mask_of d2 = 109
mask_of d3 = 121
mask_of d4 = 51
mask_of d5 = 91
mask_of d6 = 95
mask_of d7 = 112
mask_of d8 = 127
mask_of d9 = 123

mask_to_digit-mask_of : (d : Digit) → mask_to_digit (mask_of d) ≡ some d
unfolding mask_to_digit
mask_to_digit-mask_of d0 = refl
mask_to_digit-mask_of d1 = refl
mask_to_digit-mask_of d2 = refl
mask_to_digit-mask_of d3 = refl
mask_to_digit-mask_of d4 = refl
mask_to_digit-mask_of d5 = refl
mask_to_digit-mask_of d6 = refl
mask_to_digit-mask_of d7 = refl
mask_to_digit-mask_of d8 = refl
mask_to_digit-mask_of d9 = refl

-- Where the display shows its point.
pub data PointAt : Type 0 where
  nowhere behind_first behind_second : PointAt

abbrev bit : Bool → Value
bit true = integer 1
bit false = integer 0

abbrev lit_first : PointAt → Bool
lit_first behind_first = true
lit_first _ = false

abbrev lit_second : PointAt → Bool
lit_second behind_second = true
lit_second _ = false

-- The packet that the Arduino sends for a display.
abbrev pub packet_of : Digit → Digit → Digit → PointAt → List (String × Value)
packet_of a b c p =
    ("fresh", integer 7)
    ∷ ("m8", integer (mask_of a))
    ∷ ("m9", integer (mask_of b))
    ∷ ("m10", integer (mask_of c))
    ∷ ("p8", bit (lit_first p))
    ∷ ("p9", bit (lit_second p))
    ∷ ("p10", integer 0)
    ∷ []

abbrev figure : Digit → ℕ
figure d0 = 0
figure d1 = 1
figure d2 = 2
figure d3 = 3
figure d4 = 4
figure d5 = 5
figure d6 = 6
figure d7 = 7
figure d8 = 8
figure d9 = 9

value-figure : (d : Digit) → value d ≡ figure d
value-figure d0 = refl
value-figure d1 = refl
value-figure d2 = refl
value-figure d3 = refl
value-figure d4 = refl
value-figure d5 = refl
value-figure d6 = refl
value-figure d7 = refl
value-figure d8 = refl
value-figure d9 = refl

abbrev number_by : (Digit → ℕ) → Digit → Digit → Digit → PointAt → ℕ
number_by f a b c nowhere = f a * 100000 + f b * 10000 + f c * 1000
number_by f a b c behind_first = f a * 1000 + f b * 100 + f c * 10
number_by f a b c behind_second = f a * 10000 + f b * 1000 + f c * 100

-- The number shown, in thousandths.
abbrev pub shown : Digit → Digit → Digit → PointAt → ℕ
shown = number_by figure

module _ (s : DeskSettings) where
  abbrev pub InRange : ℕ → Type 0
  InRange height = (s.measurement_min_cm ≤ height) × (height ≤ s.measurement_max_cm)

  -- A number of the measuring range is read, any other is refused.
  abbrev pub IsRead : ℕ → Option ℕ → Type 0
  IsRead height result =
      (InRange height × (result ≡ some height))
      ⊎ (((height < s.measurement_min_cm) ⊎ (s.measurement_max_cm < height)) × (result ≡ none))

  within-IsRead : (height : ℕ) → IsRead height (within s height)
  within-IsRead height = elim (Bool-cases (leb s.measurement_min_cm height)) [
    | inl low ↦ elim (Bool-cases (leb height s.measurement_max_cm)) [
      | inl high ↦ inl ((ground arith, ground arith), rw (low, high) refl)
      | inr above ↦ inr (inr (ground arith), rw (low, above) refl)
    ]
    | inr below ↦ inr (inl (ground arith), rw below refl)
  ]

  number_of :
      (a b c : Digit) (p : PointAt)
      → decode_packet s (packet_of a b c p) ≡ within s (number_by value a b c p)
  unfolding decode_packet get has_fields read_digits read_position parse_float decimals
  number_of a b c nowhere =
      rw (mask_to_digit-mask_of a)
        (rw (mask_to_digit-mask_of b) (rw (mask_to_digit-mask_of c) (ap (within s) (omega arith))))
  number_of a b c behind_first =
      rw (mask_to_digit-mask_of a)
        (rw (mask_to_digit-mask_of b) (rw (mask_to_digit-mask_of c) (ap (within s) (omega arith))))
  number_of a b c behind_second =
      rw (mask_to_digit-mask_of a)
        (rw (mask_to_digit-mask_of b) (rw (mask_to_digit-mask_of c) (ap (within s) (omega arith))))

  -- Every display of three digits, with its point behind the first, behind the second or nowhere, is
  -- read as the number that it shows if that lies in the measuring range, bounds included, and is
  -- refused if it lies below or above.
  pub decode_packet-packet_of :
      (a b c : Digit) (p : PointAt) → IsRead (shown a b c p) (decode_packet s (packet_of a b c p))
  decode_packet-packet_of a b c p =
      subst (IsRead (shown a b c p))
        (sym (
          number_of a b c p
          ∙ ap (λ (f : Digit → ℕ). within s (number_by f a b c p)) (fun_ext value-figure)))
        (within-IsRead (shown a b c p))

  -- A result, if there is one, lies in the measuring range.
  abbrev Decoded : Option ℕ → Type 0
  Decoded none = Unit
  Decoded (some height) = InRange height

  Decoded-bind :
      {A : Type 0} (o : Option A) (f : A → Option ℕ) → ((a : A) → Decoded (f a)) → Decoded (o >>= f)
  Decoded-bind none f k = tt
  Decoded-bind (some a) f k = k a

  Decoded-if : (b : Bool) (o : Option ℕ) → Decoded o → Decoded (if b then none else o)
  Decoded-if true o h = tt
  Decoded-if false o h = h

  Decoded-within : (height : ℕ) → Decoded (within s height)
  Decoded-within height =
      elim (Bool-cases (leb s.measurement_min_cm height && leb height s.measurement_max_cm)) [
        | inl fits ↦ rw fits (ground arith, ground arith)
        | inr not_fits ↦ rw not_fits tt
      ]

  Decoded-packet : (packet : List (String × Value)) → Decoded (decode_packet s packet)
  unfolding decode_packet
  Decoded-packet packet = Decoded-if (not (has_fields required_fields packet)) _ (
      Decoded-if (not (is_seven (plain_int (get "fresh" packet)))) _ (
        Decoded-bind (read_digits packet 0 digit_numbers) _
          λ symbols. Decoded-bind (parse_float 0 symbols) _ Decoded-within))

  Decoded-json : (j : Json) → Decoded (decode_json s j)
  unfolding decode_json
  Decoded-json not_dictionary = tt
  Decoded-json (dictionary packet) = Decoded-packet packet

  -- Whatever comes in, and however text and JSON are read, a decoded height lies in the measuring
  -- range.
  pub decode-InRange :
      (utf_8 : List ℕ → Option String) (loads : String → Option Json) (raw : Raw) (height : ℕ)
      → decode utf_8 loads s raw ≡ some height
      → InRange height
  unfolding decode
  decode-InRange utf_8 loads raw height e = subst Decoded e (
      Decoded-bind (decode_text utf_8 loads raw) _
        λ message. Decoded-bind (loads message) _ Decoded-json)

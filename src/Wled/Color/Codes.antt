-- ===== src/Wled/Color/Codes.antt =====
-- A colour that was sent is read back as the same text.
use kdt_smaty.Prelude.{
  both, ℕ, ◌+◌, ◌*◌, ◌/◌, ◌%◌, ◌<◌, ◌≡◌, refl, ap, ◌∙◌, true, ◌&&◌, Option, none, some, [], ◌∷◌,
  length, inl, inr, Bool-cases, is_some, arith, ◌==◌, leb,
}
use kdt_smaty.Wled.Json.{as_byte, as_int}
use kdt_smaty.Wled.Color.{
  Color, digit_value, digit_code, all_digits, normalize_color, value_or_zero, pair_value, rgb,
  as_items, hex,
}

abbrev value : ℕ → ℕ
value c = value_or_zero (digit_value c)

digit_code-value :
    (c : ℕ) → is_some (digit_value c) ≡ true → (digit_code (value c) ≡ c) × (value c < 16)
unfolding digit_value digit_code
digit_code-value c h = (ground arith, ground arith)

-- Two digits, as they are read and written again.
abbrev Rewrites : ℕ → ℕ → Type 0
Rewrites a b =
    (leb (pair_value a b) 255 ≡ true)
    × (digit_code (pair_value a b / 16) ≡ a)
    × (digit_code (pair_value a b % 16) ≡ b)

pair_value-Rewrites :
    (a b : ℕ) → is_some (digit_value a) ≡ true → is_some (digit_value b) ≡ true → Rewrites a b
unfolding pair_value
pair_value-Rewrites a b ha hb =
    let (ea, la) = digit_code-value a ha in
    let (eb, lb) = digit_code-value b hb in
    let q : (16 * value a + value b) / 16 ≡ value a = omega arith in
    let r : (16 * value a + value b) % 16 ≡ value b = omega arith in
    (ground arith, ap digit_code q ∙ ea, ap digit_code r ∙ eb)

hex-pairs :
    (a b c d e f : ℕ)
    → Rewrites a b
    → Rewrites c d
    → Rewrites e f
    → hex (as_items (rgb (a ∷ b ∷ c ∷ d ∷ e ∷ f ∷ []))) ≡ some (a ∷ b ∷ c ∷ d ∷ e ∷ f ∷ [])
unfolding hex rgb as_byte as_int
hex-pairs a b c d e f (x, x1, x2) (y, y1, y2) (z, z1, z2) =
    rw (x, y, z, x1, x2, y1, y2, z1, z2) refl

six_digits :
    (color : Color)
    → (length color == 6) ≡ true
    → all_digits color ≡ true
    → hex (as_items (rgb color)) ≡ some color
unfolding all_digits
six_digits (a ∷ b ∷ c ∷ d ∷ e ∷ f ∷ []) h digits =
    let (da, more_a) = both (is_some (digit_value a)) _ digits in
    let (db, more_b) = both (is_some (digit_value b)) _ more_a in
    let (dc, more_c) = both (is_some (digit_value c)) _ more_b in
    let (dd, more_d) = both (is_some (digit_value d)) _ more_c in
    let (de, more_e) = both (is_some (digit_value e)) _ more_d in
    let (df, _) = both (is_some (digit_value f)) _ more_e in
    hex-pairs a b c d e f (pair_value-Rewrites a b da db) (pair_value-Rewrites c d dc dd)
      (pair_value-Rewrites e f de df)
six_digits _ h digits = absurd (ground arith)

-- Refused, or read back from its three numbers as it is.
abbrev pub IsReadBack : Option Color → Type 0
IsReadBack none = Unit
IsReadBack (some color) = hex (as_items (rgb color)) ≡ some color

-- Every colour that the client accepts, whatever was typed, is read back from the numbers that it sends
-- for it as exactly the text that it was normalized to.
pub normalize_color-IsReadBack :
    (strip_upper : Color → Color) (color : Color) → IsReadBack (normalize_color strip_upper color)
unfolding normalize_color
normalize_color-IsReadBack strip_upper color =
    let normalized = strip_upper color in
    elim (Bool-cases ((length normalized == 6) && all_digits normalized)) [
      | inl fits ↦
          let (six, digits) = both (length normalized == 6) _ fits in
          rw fits (six_digits normalized six digits)
      | inr not_a_color ↦ rw not_a_color tt
    ]

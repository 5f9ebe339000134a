-- ===== src/Wled/Percent.antt =====
-- src/smart_desk/modules/assistant/wled_tools.py: brightness in per cent, as the assistant speaks of it.
-- `round` takes the nearest whole number, and of two the even one; the floats of the source are exact
-- enough that this is the rounding of the quotient.
use kdt_smaty.Prelude.{ℕ, suc, ◌+◌, ◌*◌, ◌/◌, ◌%◌, ◌≤◌, ◌≡◌, ltb, ◌==◌, if◌then◌else◌, arith}

-- `round(n / d)`
unfoldable pub round_quotient : ℕ → ℕ → ℕ
round_quotient n d =
    if ltb (2 * (n % d)) d
    then n / d
    else if ltb d (2 * (n % d))
    then suc (n / d)
    else if (n / d) % 2 == 0
    then n / d
    else suc (n / d)

unfoldable pub percent_to_wled_brightness : ℕ → ℕ
unfolding round_quotient
percent_to_wled_brightness percent = round_quotient (percent * 255) 100

unfoldable pub wled_brightness_to_percent : ℕ → ℕ
unfolding round_quotient
wled_brightness_to_percent brightness = round_quotient (brightness * 100) 255

-- Within half a unit of the exact quotient.
round_quotient-100 :
    (n : ℕ)
    → (200 * round_quotient (n * 255) 100 ≤ 510 * n + 100)
      × (510 * n ≤ 200 * round_quotient (n * 255) 100 + 100)
unfolding round_quotient
round_quotient-100 n = (ground arith, ground arith)

round_quotient-255 :
    (b p : ℕ) → 200 * b ≤ 510 * p + 100 → 510 * p ≤ 200 * b + 100 → round_quotient (b * 100) 255 ≡ p
unfolding round_quotient
round_quotient-255 b p above below = ground arith

-- A brightness in per cent that the assistant accepts is sent as a byte, and the brightness that is read
-- back is spoken of as the same per cent.
pub percent-roundtrip :
    (percent : ℕ)
    → percent ≤ 100
    → (percent_to_wled_brightness percent ≤ 255)
      × (wled_brightness_to_percent (percent_to_wled_brightness percent) ≡ percent)
unfolding percent_to_wled_brightness wled_brightness_to_percent
percent-roundtrip percent h =
    let (above, below) = round_quotient-100 percent in
    (ground arith, round_quotient-255 (round_quotient (percent * 255) 100) percent above below)

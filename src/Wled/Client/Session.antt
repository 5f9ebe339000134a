-- ===== src/Wled/Client/Session.antt =====
-- The operations of the client as one family, and what each of them leaves.
use kdt_smaty.Prelude.{ℕ, ◌≡◌, ◌≤◌, ◌⊎◌, inl, inr, List, All, length}
use kdt_smaty.Wled.Json.{Json, integer, nat}
use kdt_smaty.Wled.Color.{Color}
use kdt_smaty.Wled.State.{Snapshot, WledError, protocol}
use kdt_smaty.Wled.Client.{Request, Response, Client, Action}
use kdt_smaty.Wled.Client.Operations.{refresh_state, turn_off, turn_on, set_brightness, set_solid}
use kdt_smaty.Wled.Client.Effect.{Effect, set_effect}
use kdt_smaty.Wled.Client.Operations.Settled.{Settled}

pub data Operation : Type 0 where
  refreshes turns_off turns_on : Operation
  sets_brightness : Json → Operation
  sets_solid : Color → Operation
  sets_effect : Effect → Operation

-- A refusal of an argument: the client is as before, so that no request was made either.
abbrev pub Refused : Client → (WledError ⊎ Snapshot) × Client → Type 0
Refused before (inl error, after) = (error.kind ≡ protocol) × (after ≡ before)
Refused before (inr s, after) = ⊥

-- A brightness: an integer from 0 to 255.
abbrev pub IsByte : Json → Type 0
IsByte value = (n : ℕ) × (value ≡ integer (nat n)) × (n ≤ 255)

-- A colour: six characters from 0 to 9 or A to F.
abbrev IsHexDigit : ℕ → Type 0
IsHexDigit c = ((48 ≤ c) × (c ≤ 57)) ⊎ ((65 ≤ c) × (c ≤ 70))

abbrev pub IsColor : Color → Type 0
IsColor color = (length color ≡ 6) × All IsHexDigit color

module _ (strip_upper : Color → Color) (http : List Request → Request → Response)
    (clock : ℕ → ℕ) where
  unfoldable pub perform : Operation → Action Snapshot
  unfolding refresh_state turn_off turn_on set_brightness set_solid set_effect
  perform refreshes = refresh_state strip_upper http clock
  perform turns_off = turn_off strip_upper http clock
  perform turns_on = turn_on strip_upper http clock
  perform (sets_brightness value) = set_brightness strip_upper http clock value
  perform (sets_solid color) = set_solid strip_upper http clock color
  perform (sets_effect effect) = set_effect strip_upper http clock effect

  -- What each operation may come to.
  abbrev pub Performed : Operation → Client → (WledError ⊎ Snapshot) × Client → Type 0
  Performed (sets_brightness value) before result =
      (IsByte value × Settled before result) ⊎ ((¬ IsByte value) × Refused before result)
  Performed (sets_solid color) before result =
      (IsColor (strip_upper color) × Settled before result)
      ⊎ ((¬ IsColor (strip_upper color)) × Refused before result)
  Performed _ before result = Settled before result

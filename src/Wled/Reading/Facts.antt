-- ===== src/Wled/Reading/Facts.antt =====
-- What a snapshot that was read says of the lamp.
use kdt_smaty.Prelude.{
  both, not-true, ℕ, ◌≡◌, refl, sym, subst, Bool, true, false, not, ◌&&◌, ◌⊎◌, inl, inr, Option,
  none, some, List, [], ◌∷◌, Bool-cases, Option-cases, Sum-cases, if_true, if_false,
}
use kdt_smaty.Wled.Json.{Fields, get, Whole, nat, whole_eq, as_int, as_bool, as_byte}
use kdt_smaty.Wled.State.{
  WledStatus, WledMode, Capabilities, Snapshot, WledError, Segment, SegmentValues, valid_segments,
  all_values,
}
use kdt_smaty.Wled.Reading.{
  snapshot_of, snapshot_of_values, snapshot_when, snapshot_from_state, all_of, is_zero, same_effect,
  same_color,
}

-- The mode that goes with the power and the effect.
pub data ModeOf (s : Snapshot) : Type 0 where
  when_off : s.on ≡ some false → s.mode ≡ some WledMode.off → ModeOf s
  when_solid :
      s.on ≡ some true → s.mode ≡ some WledMode.solid → s.effect_id ≡ some (nat 0) → ModeOf s
  when_effect :
      (fx : Whole)
      → s.on ≡ some true
      → s.mode ≡ some WledMode.effect
      → s.effect_id ≡ some fx
      → whole_eq fx (nat 0) ≡ false
      → ModeOf s
  when_mixed : s.on ≡ some true → s.mode ≡ some WledMode.mixed → s.effect_id ≡ none → ModeOf s

-- An online snapshot without an error, with these values of power and brightness.
pub record IsReading (on : Bool) (brightness : ℕ) (s : Snapshot) : Type 0 where
  pub online : s.status ≡ WledStatus.online
  pub flawless : s.last_error ≡ none
  pub power : s.on ≡ some on
  pub level : s.brightness ≡ some brightness
  pub mode_of : ModeOf s

module _ (capabilities : Option Capabilities) (now brightness : ℕ) where
  snapshot_of-IsReading :
      (first : SegmentValues) (others : List SegmentValues)
      → IsReading true brightness (snapshot_of capabilities now brightness first others)
  unfolding snapshot_of
  snapshot_of-IsReading first others =
      let uniform = (is_zero first && all_of is_zero others) && all_of (same_color first) others in
      let alike = all_of (same_effect first) others && not (is_zero first) in
      elim (Bool-cases uniform) [
        | inl is_solid ↦
            subst (IsReading true brightness) (sym (if_true uniform _ _ is_solid)) (record {
              online = refl;
              flawless = refl;
              power = refl;
              level = refl;
              mode_of = when_solid refl refl refl;
            })
        | inr not_solid ↦
            subst (IsReading true brightness) (sym (if_false uniform _ _ not_solid))
              (elim (Bool-cases alike) [
                | inl is_effect ↦
                    subst (IsReading true brightness) (sym (if_true alike _ _ is_effect)) (record {
                      online = refl;
                      flawless = refl;
                      power = refl;
                      level = refl;
                      mode_of =
                          when_effect first.fx refl refl refl
                            (not-true (is_zero first) (both _ _ is_effect).1);
                    })
                | inr is_mixed ↦
                    subst (IsReading true brightness) (sym (if_false alike _ _ is_mixed)) (record {
                      online = refl;
                      flawless = refl;
                      power = refl;
                      level = refl;
                      mode_of = when_mixed refl refl refl;
                    })
              ])
      ]

  -- An error, or a snapshot with this power and the brightness that was read.
  abbrev pub IsRead : Bool → WledError ⊎ Snapshot → Type 0
  IsRead on (inl error) = Unit
  IsRead on (inr s) = IsReading on brightness s

  snapshot_of_values-IsRead :
      (values : List SegmentValues)
      → IsRead true (snapshot_of_values capabilities now brightness values)
  unfolding snapshot_of_values
  snapshot_of_values-IsRead [] = tt
  snapshot_of_values-IsRead (first ∷ others) = snapshot_of-IsReading first others

  snapshot_when-IsRead :
      (on : Bool) (segments : List Segment)
      → IsRead on (snapshot_when capabilities now brightness on segments)
  unfolding snapshot_when
  snapshot_when-IsRead false segments = record {
    online = refl;
    flawless = refl;
    power = refl;
    level = refl;
    mode_of = when_off refl refl;
  }
  snapshot_when-IsRead true segments = elim (Sum-cases (all_values segments)) [
    | inl (error, refused) ↦ rw refused tt
    | inr (values, known) ↦ rw known (snapshot_of_values-IsRead values)
  ]

-- What a state is read to: nothing, or its own power and its own brightness, a byte.
abbrev pub IsFaithful : Fields → WledError ⊎ Snapshot → Type 0
IsFaithful state (inl error) = Unit
IsFaithful state (inr s) =
    (on : Bool) × (brightness : ℕ) × (as_bool (get "on" state) ≡ some on)
    × (as_byte (as_int (get "bri" state)) ≡ some brightness)
    × IsReading on brightness s

weaken :
    (state : Fields) (on : Bool) (brightness : ℕ) (result : WledError ⊎ Snapshot)
    (capabilities : Option Capabilities) (now : ℕ)
    → as_bool (get "on" state) ≡ some on
    → as_byte (as_int (get "bri" state)) ≡ some brightness
    → IsRead capabilities now brightness on result
    → IsFaithful state result
weaken state on brightness (inl error) capabilities now h h' read = tt
weaken state on brightness (inr s) capabilities now h h' read = (on, brightness, h, h', read)

-- A state of the lamp is refused, or read to an online snapshot without an error that has the power and
-- the brightness of the state; its mode is OFF exactly when it is off, a solid colour is effect 0, and
-- an effect is not.
pub snapshot_from_state-IsFaithful :
    (capabilities : Option Capabilities) (now : ℕ) (state : Fields)
    → IsFaithful state (snapshot_from_state capabilities now state)
unfolding snapshot_from_state
snapshot_from_state-IsFaithful capabilities now state =
    elim (Option-cases (as_bool (get "on" state))) [
      | inl no_power ↦ rw no_power tt
      | inr (on, power) ↦ elim (Option-cases (as_byte (as_int (get "bri" state)))) [
        | inl no_level ↦ rw (power, no_level) tt
        | inr (brightness, level) ↦ elim (Sum-cases (valid_segments state)) [
          | inl (error, refused) ↦ rw (power, level, refused) tt
          | inr (segments, valid) ↦
              rw (power, level, valid)
                (weaken state on brightness _ capabilities now power level
                  (snapshot_when-IsRead capabilities now brightness on segments))
        ]
      ]
    ]

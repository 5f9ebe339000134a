-- ===== src/Desk/HeightMonitor/Observed.antt =====
-- What a line of the serial source makes of the monitor, and what is passed on.
use kdt_smaty.Prelude.{
  ℕ, ◌≡◌, refl, String, Bool, true, false, ◌⊎◌, inl, inr, Option, none, some, List, [], ◌∷◌,
}
use kdt_smaty.Desk.Models.{finite, HeightProvenance, DeskSettings}
use kdt_smaty.Desk.Segment
use kdt_smaty.Desk.Segment.{Json, bytes}
use kdt_smaty.Desk.HeightMonitor.{
  SerialStatus, connected, stopped, disconnected, error, Monitor, Call, save_height, publish_height,
  Done, Publishing, published, unavailable, observe, receive_decoded, receive,
}

-- The calls for an observed height: it is saved if there is a cache, and then published.
abbrev pub passed_on : Bool → ℕ → ℕ → List Call
passed_on true height now = save_height height now ∷ publish_height height now ∷ []
passed_on false height now = publish_height height now ∷ []

-- The height is kept, as live and of now, and passed on.
abbrev pub Observes : Bool → ℕ → ℕ → Done → Type 0
Observes has_cache height now d =
    (d.monitor.height_cm ≡ some (finite height))
    × (d.monitor.observed_at ≡ some now)
    × (d.monitor.provenance ≡ some HeightProvenance.live)
    × (d.calls ≡ passed_on has_cache height now)

-- Nothing is kept and nothing passed on.
abbrev pub Ignored : Monitor → Done → Type 0
Ignored m d = (d.monitor ≡ m) × (d.calls ≡ [])

module _ (utf_8 : List ℕ → Option String) (loads : String → Option Json) (s : DeskSettings) where
  observes :
      (has_cache : Bool) (p : Publishing) (height now : ℕ) (m : Monitor)
      → Observes has_cache height now (observe utf_8 loads s has_cache p height now m)
  unfolding observe
  observes true published height now m = (refl, refl, refl, refl)
  observes true unavailable height now m = (refl, refl, refl, refl)
  observes true Publishing.failed height now m = (refl, refl, refl, refl)
  observes false published height now m = (refl, refl, refl, refl)
  observes false unavailable height now m = (refl, refl, refl, refl)
  observes false Publishing.failed height now m = (refl, refl, refl, refl)

  -- What a line that decodes to this, or to nothing, does.
  abbrev Received : Bool → SerialStatus → ℕ → Option ℕ → Monitor → Done → Type 0
  Received has_cache serial now found m d =
      Ignored m d
      ⊎ ((height : ℕ) × (found ≡ some height)
          × (serial ≡ connected)
          × Observes has_cache height now d)

  received :
      (has_cache : Bool) (p : Publishing) (serial : SerialStatus) (now : ℕ) (found : Option ℕ)
      (m : Monitor)
      → Received has_cache serial now found m
          (receive_decoded utf_8 loads s has_cache p serial now found m)
  unfolding receive_decoded
  received has_cache p serial now none m = inl (refl, refl)
  received has_cache p connected now (some height) m =
      inr (height, refl, refl, observes has_cache p height now m)
  received has_cache p stopped now (some height) m = inl (refl, refl)
  received has_cache p disconnected now (some height) m = inl (refl, refl)
  received has_cache p error now (some height) m = inl (refl, refl)

  -- A line either changes nothing and nothing is called, or it decodes to a height while the source
  -- is connected, and this height is kept as live and of now, saved if there is a cache, and
  -- published, whatever publishing comes to.
  pub receive_lem :
      (has_cache : Bool) (p : Publishing) (serial : SerialStatus) (now : ℕ) (line : List ℕ)
      (m : Monitor)
      → let d = receive utf_8 loads s has_cache p serial now line m in
        Ignored m d
        ⊎ ((height : ℕ) × (Segment.decode utf_8 loads s (bytes line) ≡ some height)
            × (serial ≡ connected)
            × Observes has_cache height now d)
  unfolding receive
  receive_lem has_cache p serial now [] m = inl (refl, refl)
  receive_lem has_cache p serial now (b ∷ line) m =
      received has_cache p serial now (Segment.decode utf_8 loads s (bytes (b ∷ line))) m

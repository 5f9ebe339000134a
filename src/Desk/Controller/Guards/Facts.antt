-- ===== src/Desk/Controller/Guards/Facts.antt =====
-- What the admission checks of the controller have established when they pass.
use kdt_smaty.Prelude.{ℕ, ◌≤◌, ◌<◌, ◌≡◌, refl, Bool, true, false, Option, none, some, leb, arith}
use kdt_smaty.Desk.Models.{
  Float, finite, negative, infinite, nan, Direction, HeightStatus, HeightSnapshot, DeskSettings,
}
use kdt_smaty.Desk.Controller.State.{Env, Reason}
use kdt_smaty.Desk.Controller.Task.{Result, ok, raised, rejected}
use kdt_smaty.Desk.Controller.Guards.{
  is_online, reject_if, Measured, in_range, require_measured, require_height,
  require_direction_allowed,
}

pub reject_if-ok : (b : Bool) (r : Reason) → reject_if b r ≡ ok tt → b ≡ false
reject_if-ok true r e = cc
reject_if-ok false r e = refl

module _ (s : DeskSettings) where
  -- A snapshot with this height and time, which lies in the measuring range.
  abbrev pub Measures : HeightSnapshot → Measured → Type 0
  Measures snapshot m =
      (snapshot.height_cm ≡ some (finite m.height_cm))
      × (snapshot.observed_at ≡ some m.observed_at)
      × (s.measurement_min_cm ≤ m.height_cm)
      × (m.height_cm ≤ s.measurement_max_cm)

  InRange : Option Float → Option ℕ → Measured → Type 0
  InRange h o m =
      (h ≡ some (finite m.height_cm))
      × (o ≡ some m.observed_at)
      × (s.measurement_min_cm ≤ m.height_cm)
      × (m.height_cm ≤ s.measurement_max_cm)

  in_range-some :
      (h : Option Float) (o : Option ℕ) (m : Measured) → in_range s h o ≡ some m → InRange h o m
  unfolding in_range InRange
  in_range-some (some (finite h)) (some t) m e = grind arith
  in_range-some (some (finite h)) none m e = cc
  in_range-some (some (negative h)) o m e = cc
  in_range-some (some infinite) o m e = cc
  in_range-some (some nan) o m e = cc
  in_range-some none o m e = cc

  found_ok :
      (found : Option Measured) (r : Reason) (m : Measured)
      → elim found as (λ o. Result Measured) [ none ↦ raised (rejected r) | some n ↦ ok n ] ≡ ok m
      → found ≡ some m
  found_ok none r m e = cc
  found_ok (some n) r m e = cc

  require_measured-ok :
      (wanted : Bool) (r : Reason) (snapshot : HeightSnapshot) (m : Measured)
      → require_measured s wanted r snapshot ≡ ok m
      → (wanted ≡ true) × Measures snapshot m
  unfolding require_measured InRange
  require_measured-ok true r snapshot m e =
      (refl, in_range-some snapshot.height_cm snapshot.observed_at m (found_ok _ r m e))
  require_measured-ok false r snapshot m e = cc

  is_online-true : (status : HeightStatus) → is_online status ≡ true → status ≡ HeightStatus.online
  is_online-true HeightStatus.online e = refl
  is_online-true HeightStatus.stopped e = cc
  is_online-true HeightStatus.waiting e = cc
  is_online-true HeightStatus.stale e = cc
  is_online-true HeightStatus.error e = cc
  is_online-true HeightStatus.sensor_sleeping e = cc

  -- A height that passes is online and lies in the measuring range.
  pub require_height-ok :
      (env : Env) (m : Measured)
      → require_height s env ≡ ok m
      → (env.height.status ≡ HeightStatus.online) × Measures env.height m
  unfolding require_height
  require_height-ok env m e =
      let f = require_measured-ok (is_online env.height.status) _ env.height m e in
      (is_online-true env.height.status f.0, f.1)

  -- Before the limit of operation in this direction.
  abbrev pub BeforeLimit : Direction → ℕ → Type 0
  BeforeLimit Direction.up height = height < s.operation_max_cm
  BeforeLimit Direction.down height = s.operation_min_cm < height

  pub require_direction_allowed-ok :
      (height : ℕ) (d : Direction)
      → require_direction_allowed s height d ≡ ok tt
      → BeforeLimit d height
  unfolding require_direction_allowed
  require_direction_allowed-ok height Direction.up e =
      let f = reject_if-ok (leb s.operation_max_cm height) _ e in ground arith
  require_direction_allowed-ok height Direction.down e =
      let f = reject_if-ok (leb height s.operation_min_cm) _ e in ground arith

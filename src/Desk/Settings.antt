-- ===== src/Desk/Settings.antt =====
-- `DeskSettings.validate_ranges` of src/smart_desk/config/settings.py and the ranges of its fields:
-- which settings the controller can meet.
use kdt_smaty.Prelude.{
  ℕ, ◌≤◌, ◌<◌, ◌≡◌, refl, Bool, true, false, ◌&&◌, ltb, leb, arith, if◌then◌else◌, ◌↔◌,
}
use kdt_smaty.Desk.Models.{DeskSettings}
use kdt_smaty.Desk.Relay.{desk_physical_min, desk_physical_max}

-- DESK_CONTROL_MIN_CM and DESK_CONTROL_MAX_CM, in thousandths of a centimetre.
abbrev pub desk_control_min : ℕ
desk_control_min = 75000

abbrev pub desk_control_max : ℕ
desk_control_max = 115000

-- `Field(ge=50, le=500)`, and `Field(gt=0, le=most)` in milliseconds or thousandths.
abbrev is_hold : ℕ → Bool
is_hold ms = leb 50 ms && leb ms 500

abbrev is_positive : ℕ → ℕ → Bool
is_positive n most = ltb 0 n && leb n most

-- The constraints of the fields.
unfoldable pub validate_fields : DeskSettings → Bool
validate_fields s =
    is_positive s.height_stale_after 30000
    && is_hold s.continuous_hold_ms
    && is_hold s.manual_hold_ms
    && is_hold s.fine_hold_ms
    && is_positive s.pulse_refresh_interval 500
    && is_positive s.control_poll_interval 500
    && is_positive s.manual_watchdog 5000
    && is_positive s.target_timeout 300000
    && is_positive s.target_tolerance_cm 2000
    && is_positive s.fine_approach_distance_cm 10000
    && is_positive s.fine_settle 10000
    && is_positive s.relay_stale_after 60000
    && is_positive s.relay_ack_timeout 10000
    && is_positive s.wake_timeout 30000

-- `validate_ranges`: whether no ValueError is raised.
unfoldable pub validate_ranges : DeskSettings → Bool
validate_ranges s =
    if leb s.measurement_max_cm s.measurement_min_cm
    then false
    else if ltb s.measurement_min_cm desk_physical_min
    then false
    else if ltb desk_physical_max s.measurement_max_cm
    then false
    else if leb s.operation_max_cm s.operation_min_cm
    then false
    else if ltb s.operation_min_cm desk_control_min
    then false
    else if ltb desk_control_max s.operation_max_cm
    then false
    else if ltb s.operation_min_cm s.measurement_min_cm
    then false
    else if ltb s.measurement_max_cm s.operation_max_cm
    then false
    else if leb s.continuous_hold_ms s.pulse_refresh_interval
    then false
    else if leb s.manual_hold_ms s.pulse_refresh_interval
    then false
    else if ltb s.pulse_refresh_interval s.control_poll_interval
    then false
    else if leb s.manual_watchdog s.control_poll_interval
    then false
    else if leb s.fine_approach_distance_cm s.target_tolerance_cm
    then false
    else if leb s.relay_stale_after s.relay_ack_timeout
    then false
    else if leb s.wake_timeout s.control_poll_interval
    then false
    else true

-- A check of `validate_ranges` that is passed, and the rest of them.
passed : (b x : Bool) → (if b then false else x) ≡ true → (b ≡ false) × (x ≡ true)
passed true x e = cc
passed false x e = (refl, e)

pass : (b x : Bool) → b ≡ false → x ≡ true → (if b then false else x) ≡ true
pass true x e k = cc
pass false x e k = k

at_least : (a b : ℕ) → ltb a b ≡ false → b ≤ a
at_least a b e = ground arith

more : (a b : ℕ) → leb a b ≡ false → b < a
more a b e = ground arith

not_less : (a b : ℕ) → b ≤ a → ltb a b ≡ false
not_less a b h = ground arith

not_at_most : (a b : ℕ) → b < a → leb a b ≡ false
not_at_most a b h = ground arith

module _ (s : DeskSettings) where
  -- The ranges lie in each other as the desk does in its room.
  pub record IsNested : Type 0 where
    physical_min : desk_physical_min ≤ s.measurement_min_cm
    measured_min : s.measurement_min_cm ≤ s.operation_min_cm
    control_min : desk_control_min ≤ s.operation_min_cm
    operation : s.operation_min_cm < s.operation_max_cm
    control_max : s.operation_max_cm ≤ desk_control_max
    measured_max : s.operation_max_cm ≤ s.measurement_max_cm
    physical_max : s.measurement_max_cm ≤ desk_physical_max

  -- A pulse is renewed before it ends, the runner looks in time for each of its deadlines, and the
  -- fine approach begins outside the tolerance.
  pub record IsTimely : Type 0 where
    continuous : s.pulse_refresh_interval < s.continuous_hold_ms
    manual : s.pulse_refresh_interval < s.manual_hold_ms
    poll : s.control_poll_interval ≤ s.pulse_refresh_interval
    watchdog : s.control_poll_interval < s.manual_watchdog
    approach : s.target_tolerance_cm < s.fine_approach_distance_cm
    acknowledged : s.relay_ack_timeout < s.relay_stale_after
    wake : s.control_poll_interval < s.wake_timeout

  accepted-IsNested : validate_ranges s ≡ true → IsNested × IsTimely
  unfolding validate_ranges
  accepted-IsNested e =
      let c1 = passed (leb s.measurement_max_cm s.measurement_min_cm) _ e in
      let c2 = passed (ltb s.measurement_min_cm desk_physical_min) _ c1.1 in
      let c3 = passed (ltb desk_physical_max s.measurement_max_cm) _ c2.1 in
      let c4 = passed (leb s.operation_max_cm s.operation_min_cm) _ c3.1 in
      let c5 = passed (ltb s.operation_min_cm desk_control_min) _ c4.1 in
      let c6 = passed (ltb desk_control_max s.operation_max_cm) _ c5.1 in
      let c7 = passed (ltb s.operation_min_cm s.measurement_min_cm) _ c6.1 in
      let c8 = passed (ltb s.measurement_max_cm s.operation_max_cm) _ c7.1 in
      let c9 = passed (leb s.continuous_hold_ms s.pulse_refresh_interval) _ c8.1 in
      let c10 = passed (leb s.manual_hold_ms s.pulse_refresh_interval) _ c9.1 in
      let c11 = passed (ltb s.pulse_refresh_interval s.control_poll_interval) _ c10.1 in
      let c12 = passed (leb s.manual_watchdog s.control_poll_interval) _ c11.1 in
      let c13 = passed (leb s.fine_approach_distance_cm s.target_tolerance_cm) _ c12.1 in
      let c14 = passed (leb s.relay_stale_after s.relay_ack_timeout) _ c13.1 in
      let c15 = passed (leb s.wake_timeout s.control_poll_interval) _ c14.1 in
      (
        record {
          physical_min = at_least _ _ c2.0;
          measured_min = at_least _ _ c7.0;
          control_min = at_least _ _ c5.0;
          operation = more _ _ c4.0;
          control_max = at_least _ _ c6.0;
          measured_max = at_least _ _ c8.0;
          physical_max = at_least _ _ c3.0;
        },
        record {
          continuous = more _ _ c9.0;
          manual = more _ _ c10.0;
          poll = at_least _ _ c11.0;
          watchdog = more _ _ c12.0;
          approach = more _ _ c13.0;
          acknowledged = more _ _ c14.0;
          wake = more _ _ c15.0;
        },
      )

  measured : IsNested → s.measurement_min_cm < s.measurement_max_cm
  measured n =
      let low = n.measured_min in let mid = n.operation in let high = n.measured_max in omega arith

  nested-accepted : IsNested → IsTimely → validate_ranges s ≡ true
  unfolding validate_ranges
  nested-accepted n t =
      pass (leb s.measurement_max_cm s.measurement_min_cm) _ (not_at_most _ _ (measured n)) (
        pass (ltb s.measurement_min_cm desk_physical_min) _ (not_less _ _ (n.physical_min)) (
          pass (ltb desk_physical_max s.measurement_max_cm) _ (not_less _ _ (n.physical_max)) (
            pass (leb s.operation_max_cm s.operation_min_cm) _ (not_at_most _ _ (n.operation)) (
              pass (ltb s.operation_min_cm desk_control_min) _ (not_less _ _ (n.control_min)) (
                pass (ltb desk_control_max s.operation_max_cm) _ (not_less _ _ (n.control_max)) (
                  pass (ltb s.operation_min_cm s.measurement_min_cm) _
                    (not_less _ _ (n.measured_min))
                    (pass (ltb s.measurement_max_cm s.operation_max_cm) _
                      (not_less _ _ (n.measured_max))
                      (pass (leb s.continuous_hold_ms s.pulse_refresh_interval) _
                        (not_at_most _ _ (t.continuous))
                        (pass (leb s.manual_hold_ms s.pulse_refresh_interval) _
                          (not_at_most _ _ (t.manual))
                          (pass (ltb s.pulse_refresh_interval s.control_poll_interval) _
                            (not_less _ _ (t.poll))
                            (pass (leb s.manual_watchdog s.control_poll_interval) _
                              (not_at_most _ _ (t.watchdog))
                              (pass (leb s.fine_approach_distance_cm s.target_tolerance_cm) _
                                (not_at_most _ _ (t.approach))
                                (pass (leb s.relay_stale_after s.relay_ack_timeout) _
                                  (not_at_most _ _ (t.acknowledged))
                                  (pass (leb s.wake_timeout s.control_poll_interval) _
                                    (not_at_most _ _ (t.wake)) refl))))))))))))))

  -- The ranges of the settings are accepted exactly when the range of operation lies in the measuring
  -- range, that in the physical range, the range of operation also in the control range, and the
  -- intervals are in the order that the runner needs.
  pub validate_ranges_lem : (validate_ranges s ≡ true) ↔ (IsNested × IsTimely)
  validate_ranges_lem = (accepted-IsNested, λ h. nested-accepted h.0 h.1)

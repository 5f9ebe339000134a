-- ===== src/Desk/Controller/Guards/Admission.antt =====
-- The states in which a motion or a WAKE is admitted.
use kdt_smaty.Prelude.{
  ℕ, ◌+◌, ◌≤◌, ◌≡◌, ap, subst, ◌∙◌, refl, String, Bool, true, false, not, ◌||◌, Option, none, some,
  arith, if◌then◌else◌,
}
use text.Mathlib.TextEquality.{eq_iff}
use kdt_smaty.Desk.Models.{HeightStatus, RelayEvent, RelayState, RelaySnapshot, DeskSettings}
use kdt_smaty.Desk.Controller.State.{Controller, Env, Reason}
use kdt_smaty.Desk.Controller.Task.{Result, ok, raised, runtime}
use kdt_smaty.Desk.Controller.Guards.{
  ◌>>=◌, reject_if, Measured, is_state, is_refusal, is_lease_code, is_recent, accepts_event,
  is_supported, supported_firmware, is_invalid, require_running_locked,
  require_relay_available_for_wake, require_relay_ready, admit_motion, admit_wake,
}
use kdt_smaty.Desk.Controller.Guards.Facts.{Measures, require_height-ok, reject_if-ok}

-- The controller runs, and no shutdown and no STOP is under way.
pub record IsFree (c : Controller) : Type 0 where
  running : c.running ≡ true
  open_for : c.closing ≡ false
  no_stop : c.stop_in_progress ≡ false

-- The last status of the relay is valid, live, recent, and of the supported firmware.
pub record IsLive (s : DeskSettings) (env : Env) : Type 0 where
  valid : env.relay.last_error ≡ none
  event : RelayEvent
  seen : env.relay.event ≡ some event
  accepted : is_refusal event ≡ false
  firmware : env.relay.firmware ≡ some supported_firmware
  received : ℕ
  received_at : env.relay.received_at ≡ some received
  not_future : received ≤ env.now
  recent : env.now ≤ received + s.relay_stale_after

-- A chain of checks passes only if its first check does and the rest does with what that gives.
then_ok :
    {S T : Type 0} (first : Result S) (rest : S → Result T) {outcome : T}
    → (first >>= rest) ≡ ok outcome
    → (given : S) × (rest given ≡ ok outcome) × (first ≡ ok given)
then_ok (raised reason) rest e = cc
then_ok (ok given) rest e = (given, e, refl)

flags :
    (running closing stopping : Bool)
    → (if not running || closing
        then raised (runtime Reason.not_running)
        else reject_if stopping Reason.stop_in_progress)
      ≡ ok tt
    → (running ≡ true) × (closing ≡ false) × (stopping ≡ false)
flags true false false e = (refl, refl, refl)
flags true false true e = cc
flags true true stopping e = cc
flags false closing stopping e = cc

running-IsFree : (c : Controller) → require_running_locked c ≡ ok tt → IsFree c
unfolding require_running_locked
running-IsFree c e =
    let f = flags c.running c.closing c.stop_in_progress e in
    record { running = f.0; open_for = f.1; no_stop = f.2 }

is_invalid-false : (s : DeskSettings) (o : Option String) → is_invalid s o ≡ false → o ≡ none
is_invalid-false s none e = refl
is_invalid-false s (some x) e = cc

accepts_event-ok :
    (s : DeskSettings) (o : Option RelayEvent) (code : Option String)
    → accepts_event s o code ≡ ok tt
    → (event : RelayEvent) × (o ≡ some event) × (is_refusal event ≡ false)
unfolding accepts_event
accepts_event-ok s none code e = cc
accepts_event-ok s (some x) code e = (x, refl, reject_if-ok _ _ e)

is_recent-ok :
    (s : DeskSettings) (o : Option ℕ) (now : ℕ)
    → is_recent s o now ≡ ok tt
    → (t : ℕ) × (o ≡ some t) × (t ≤ now) × (now ≤ t + s.relay_stale_after)
unfolding is_recent
is_recent-ok s none now e = cc
is_recent-ok s (some t) now e = let f = reject_if-ok _ _ e in (t, refl, ground arith, ground arith)

is_state-stop :
    (o : Option RelayState) → is_state RelayState.stop o ≡ true → o ≡ some RelayState.stop
is_state-stop (some RelayState.stop) e = refl
is_state-stop (some RelayState.up) e = cc
is_state-stop (some RelayState.down) e = cc
is_state-stop none e = cc

is_supported-true : (o : Option String) → is_supported o ≡ true → o ≡ some supported_firmware
unfolding is_supported
is_supported-true none e = cc
is_supported-true (some f) e = ap some ((eq_iff f supported_firmware).0 e)

not-false : (b : Bool) → not b ≡ false → b ≡ true
not-false true e = refl
not-false false e = cc

ok_equal : {A : Type 0} {x y : A} → ok x ≡ ok y → x ≡ y
ok_equal e = cc

module _ (s : DeskSettings) where
  available-IsLive :
      (env : Env) (relay : RelaySnapshot)
      → require_relay_available_for_wake s env ≡ ok relay
      → IsLive s env × (env.relay ≡ relay)
  unfolding require_relay_available_for_wake
  available-IsLive env relay e =
      let valid = then_ok _ _ e in
      let event = then_ok _ _ valid.1 in
      let firmware = then_ok _ _ event.1 in
      let recent = then_ok _ _ firmware.1 in
      let seen = accepts_event-ok s _ _ event.2 in
      let at = is_recent-ok s _ _ recent.2 in
      (
        record {
          valid = is_invalid-false s _ (reject_if-ok _ _ valid.2);
          event = seen.0;
          seen = seen.1;
          accepted = seen.2;
          firmware = is_supported-true _ (not-false _ (reject_if-ok _ _ firmware.2));
          received = at.0;
          received_at = at.1;
          not_future = at.2;
          recent = at.3;
        },
        ok_equal recent.1,
      )

  ready_facts :
      (env : Env) (relay : RelaySnapshot)
      → require_relay_ready s env ≡ ok relay
      → IsLive s env × (is_lease_code relay.code ≡ false) × (env.relay ≡ relay)
  unfolding require_relay_ready
  ready_facts env relay e =
      let available = then_ok _ _ e in
      let live = available-IsLive env available.0 available.2 in
      let lease = then_ok _ _ available.1 in
      let same = ok_equal lease.1 in
      (
        live.0,
        subst (λ r. is_lease_code r.code ≡ false) same (reject_if-ok _ _ lease.2),
        live.1 ∙ same,
      )

  -- The desk may be moved: the height is fresh, and the relay is live, ready and stopped.
  pub record MayMove (env : Env) (c : Controller) (m : Measured) (relay : RelaySnapshot)
      : Type 0 where
    free : IsFree c
    online : env.height.status ≡ HeightStatus.online
    measured : Measures s env.height m
    live : IsLive s env
    ready : is_lease_code relay.code ≡ false
    stopped : relay.state ≡ some RelayState.stop
    current : env.relay ≡ relay

  -- A motion is admitted only if the controller runs with no shutdown and no STOP under way, the
  -- height is online and in the measuring range, and the relay's last status is valid, of a live
  -- event, of the supported firmware, not stale, without a lease code, and says that it is stopped.
  pub admit_motion-MayMove :
      (env : Env) (c : Controller) (m : Measured) (relay : RelaySnapshot)
      → admit_motion s env c ≡ ok (m, relay)
      → MayMove env c m relay
  unfolding admit_motion
  admit_motion-MayMove env c m relay e =
      let free = then_ok _ _ e in
      let height = then_ok _ _ free.1 in
      let ready = then_ok _ _ height.1 in
      let stop = then_ok _ _ ready.1 in
      let same = ok_equal stop.1 in
      let facts = ready_facts env ready.0 ready.2 in
      let measured = require_height-ok s env height.0 height.2 in
      record {
        free = running-IsFree c free.2;
        online = measured.0;
        measured = subst (Measures s env.height) (ap (λ p. p.0) same) measured.1;
        live = facts.0;
        ready = subst (λ r. is_lease_code r.code ≡ false) (ap (λ p. p.1) same) facts.1;
        stopped =
            subst (λ r. r.state ≡ some RelayState.stop) (ap (λ p. p.1) same)
              (is_state-stop _ (not-false _ (reject_if-ok _ _ stop.2)));
        current = facts.2 ∙ ap (λ p. p.1) same;
      }

  -- The relay may be asked for a WAKE.
  pub record MayWake (env : Env) (c : Controller) (relay : RelaySnapshot) : Type 0 where
    free : IsFree c
    live : IsLive s env
    stopped : relay.state ≡ some RelayState.stop
    current : env.relay ≡ relay

  -- A WAKE is admitted only if the controller runs with no shutdown and no STOP under way, and the
  -- relay's last status is valid, of a live event, of the supported firmware, not stale, and says
  -- that the relay is stopped.
  pub admit_wake-MayWake :
      (env : Env) (c : Controller) (relay : RelaySnapshot)
      → admit_wake s env c ≡ ok relay
      → MayWake env c relay
  unfolding admit_wake
  admit_wake-MayWake env c relay e =
      let free = then_ok _ _ e in
      let available = then_ok _ _ free.1 in
      let stop = then_ok _ _ available.1 in
      let same = ok_equal stop.1 in
      let live = available-IsLive env available.0 available.2 in
      record {
        free = running-IsFree c free.2;
        live = live.0;
        stopped =
            subst (λ r. r.state ≡ some RelayState.stop) same
              (is_state-stop _ (not-false _ (reject_if-ok _ _ stop.2)));
        current = live.1 ∙ same;
      }

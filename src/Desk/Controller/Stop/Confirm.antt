-- ===== src/Desk/Controller/Stop/Confirm.antt =====
-- What `_wait_for_fresh_stop` and `_stop_and_confirm` promise.
use kdt_smaty.Prelude.{
  Option-cases, inl, inr, ℕ, ◌+◌, ◌≤◌, true, ◌≡◌, Option, none, some, List, [], ◌∷◌, arith, ◌<◌,
  All, ◌≢◌, refl, subst, Bool, false, not, ◌&&◌,
}
use kdt_smaty.Desk.Models.{RelayEvent, RelayState, RelaySnapshot, DeskSettings}
use kdt_smaty.Desk.Controller.Guards.{is_state}
use kdt_smaty.Desk.Controller.State.{Env, Reason}
use kdt_smaty.Desk.Controller.Task.{
  Outcome, returned, failed, pending, Turn, World, pure, with_world,
}
use kdt_smaty.Desk.Controller.Stop.{
  is_newer, refuses, is_fresh_stop, poll_stop, resume_woken, wait_loop, wait_for_fresh_stop,
}

-- Later than a mark that may be unset.
abbrev After : Option ℕ → ℕ → Type 0
After none received = Unit
After (some baseline) received = baseline < received

-- The relay says that it stands still, in a status from after the baseline that is no refusal.
abbrev pub IsFreshStop : Option ℕ → RelaySnapshot → Type 0
IsFreshStop baseline relay =
    (relay.state ≡ some RelayState.stop)
    × (relay.event ≢ some RelayEvent.offline)
    × (relay.event ≢ some RelayEvent.rejected)
    × ((received : ℕ) × (relay.received_at ≡ some received) × After baseline received)

state_stop : (o : Option RelayState) → is_state RelayState.stop o ≡ true → o ≡ some RelayState.stop
state_stop (some RelayState.stop) e = refl
state_stop (some RelayState.up) e = cc
state_stop (some RelayState.down) e = cc
state_stop none e = cc

newer-After :
    (o baseline : Option ℕ)
    → is_newer o baseline ≡ true
    → (received : ℕ) × (o ≡ some received) × After baseline received
newer-After none baseline e = cc
newer-After (some received) none e = (received, refl, tt)
newer-After (some received) (some baseline) e = (received, refl, ground arith)

no_refusal :
    (o : Option RelayEvent)
    → refuses o ≡ false
    → (o ≢ some RelayEvent.offline) × (o ≢ some RelayEvent.rejected)
no_refusal o e = (
  λ offline. contradicts (subst (λ x. refuses x ≡ false) offline e),
  λ rejected. contradicts (subst (λ x. refuses x ≡ false) rejected e),
)
  where
    contradicts : true ≡ false → ⊥
    contradicts h = cc

three : (a b c : Bool) → (a && (b && not c)) ≡ true → (a ≡ true) × (b ≡ true) × (c ≡ false)
three true true false e = (refl, refl, refl)
three true true true e = cc
three true false c e = cc
three false b c e = cc

is_fresh_stop-IsFreshStop :
    (baseline : Option ℕ) (env : Env)
    → is_fresh_stop baseline env ≡ true
    → IsFreshStop baseline env.relay
unfolding is_fresh_stop
is_fresh_stop-IsFreshStop baseline env e =
    let f =
      three (is_state RelayState.stop env.relay.state) (is_newer env.relay.received_at baseline)
        (refuses env.relay.event) e in
    let live = no_refusal env.relay.event f.2 in
    (state_stop env.relay.state f.0, live.0, live.1, newer-After env.relay.received_at baseline f.1)

-- What the end of the wait says: a STOP after the baseline was seen by the deadline, or the deadline
-- has come, or the schedule ends before it comes.
abbrev pub Answers : ℕ → Option ℕ → Env → List Turn → Outcome (Option Reason) → World → Type 0
Answers deadline baseline start ts (returned none) v =
    IsFreshStop baseline v.env.relay × (v.env.monotonic ≤ deadline)
Answers deadline baseline start ts (returned (some reason)) v =
    (reason ≡ Reason.stop_unconfirmed) × (deadline ≤ v.env.monotonic)
Answers deadline baseline start ts (failed e) v = ⊥
Answers deadline baseline start ts pending v =
    (start.monotonic < deadline) × All (λ t. t.env.monotonic < deadline) ts

poll-Answers :
    (deadline : ℕ) (baseline : Option ℕ) (start : Env) (ts : List Turn) (w : World)
    (answer : Option Reason)
    → poll_stop deadline baseline w.env ≡ some answer
    → Answers deadline baseline start ts (returned answer) w
unfolding poll_stop
poll-Answers deadline baseline start ts w none e =
    (is_fresh_stop-IsFreshStop baseline w.env (ground arith), ground arith)
poll-Answers deadline baseline start ts w (some r) e = ground arith

-- The end of a later wait is one of the whole wait.
later :
    (deadline : ℕ) (baseline : Option ℕ) (start : Env) (t : Turn) (ts : List Turn)
    (o : Outcome (Option Reason)) (v : World)
    → start.monotonic < deadline
    → Answers deadline baseline t.env ts o v
    → Answers deadline baseline start (t ∷ ts) o v
later d b start t ts (returned none) v early h = h
later d b start t ts (returned (some r)) v early h = h
later d b start t ts (failed e) v early h = h
later d b start t ts pending v early h = (early, h)

-- A round that waits has not come to the deadline.
poll_waits :
    (deadline : ℕ) (baseline : Option ℕ) (env : Env)
    → poll_stop deadline baseline env ≡ none
    → env.monotonic < deadline
unfolding poll_stop
poll_waits deadline baseline env e = ground arith

loop-Answers :
    (deadline : ℕ) (baseline : Option ℕ) (ts : List Turn) (w : World)
    → let (o, v) = wait_loop deadline baseline ts w in Answers deadline baseline w.env ts o v
unfolding wait_loop with_world pure
loop-Answers d b [] w = elim (Option-cases (poll_stop d b w.env)) [
  | inl waits ↦ rw waits (poll_waits d b w.env waits, tt)
  | inr (answer, e) ↦ rw e (poll-Answers d b w.env [] w answer e)
]
loop-Answers d b (t ∷ ts) w = elim (Option-cases (poll_stop d b w.env)) [
  | inl waits ↦ rw waits (
      later d b w.env t ts _ _ (poll_waits d b w.env waits)
        (loop-Answers d b ts (resume_woken t ts w)))
  | inr (answer, e) ↦ rw e (poll-Answers d b w.env (t ∷ ts) w answer e)
]

-- The wait for a STOP ends in one of three ways: with success in a state whose relay status is a
-- live STOP from after the baseline, seen within the acknowledgement time; with the error
-- "unconfirmed" at or after the deadline; or not at all, and then no reading of the clock that the
-- schedule has left comes to the deadline.
pub wait_for_fresh_stop_lem :
    (s : DeskSettings) (baseline : Option ℕ) (w : World)
    → let (o, v) = wait_for_fresh_stop s baseline w in
      Answers (w.env.monotonic + s.relay_ack_timeout) baseline w.env w.turns o v
unfolding wait_for_fresh_stop
wait_for_fresh_stop_lem s baseline w = loop-Answers _ baseline w.turns w

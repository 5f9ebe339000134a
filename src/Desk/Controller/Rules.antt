-- ===== src/Desk/Controller/Rules.antt =====
-- Invariants of coroutines, one rule for each way in which they are built. `Holds P m` says that
-- `m` keeps `P`, whether it returns, raises or is left suspended.
use kdt_smaty.Desk.Models.{DeskSettings}
use kdt_smaty.Desk.Controller.Stop.{poll_stop, resume_woken, wait_loop, wait_for_fresh_stop}
use kdt_smaty.Prelude.{
  ℕ, ◌≡◌, Bool, true, false, Option, none, some, List, [], ◌∷◌, refl, if◌then◌else◌,
}
use kdt_smaty.Desk.Controller.State.{Controller, Env, Reason}
use kdt_smaty.Desk.Controller.Task.{
  Error, rejected, runtime, value_error, type_error, overflow_error, assertion_error, Result, ok,
  raised, Outcome, returned, failed, pending, World, Turn, Task, pure, fail, lift, gets, update,
  resume, next_turn, suspend, with_lock, run_task, with_world, match_option, match_result,
  on_rejected, catch_rejected, ◌>>=◌, handle_rejected, resume_with, acquire, released, after_task,
}

pub record Holds (P : World → Type 0) {A : Type 0} (m : Task A) : Type 0 where
  pub at : (w : World) → P w → P (m w).1

module _ {P : World → Type 0} where
  pub Holds-pure : {A : Type 0} (a : A) → Holds P (pure a)
  unfolding pure
  Holds-pure a = record { at = λ w h. h }

  pub Holds-fail : {A : Type 0} (e : Error) → Holds P (fail {A = A} e)
  unfolding fail
  Holds-fail e = record { at = λ w h. h }

  pub Holds-lift : {A : Type 0} (r : Result A) → Holds P (lift r)
  unfolding lift pure fail
  Holds-lift (ok a) = record { at = λ w h. h }
  Holds-lift (raised e) = record { at = λ w h. h }

  pub Holds-gets : {A : Type 0} (f : World → A) → Holds P (gets f)
  unfolding gets
  Holds-gets f = record { at = λ w h. h }

  pub Holds-with_world :
      {A : Type 0} (f : World → Task A) → ((w : World) → Holds P (f w)) → Holds P (with_world f)
  unfolding with_world
  Holds-with_world f k = record { at = λ w h. (k w).at w h }

  pub Holds-if :
      {A : Type 0} (b : Bool) (m n : Task A) → Holds P m → Holds P n → Holds P (if b then m else n)
  Holds-if true m n hm hn = hm
  Holds-if false m n hm hn = hn

  pub Holds-match_option :
      {A B : Type 0} (o : Option A) (m : Task B) (f : A → Task B)
      → Holds P m
      → ((a : A) → Holds P (f a))
      → Holds P (match_option o m f)
  Holds-match_option none m f hm hf = hm
  Holds-match_option (some a) m f hm hf = hf a

  pub Holds-match_result :
      {A B : Type 0} (r : Result A) (m : Error → Task B) (f : A → Task B)
      → ((e : Error) → Holds P (m e))
      → ((a : A) → Holds P (f a))
      → Holds P (match_result r m f)
  Holds-match_result (raised e) m f hm hf = hm e
  Holds-match_result (ok a) m f hm hf = hf a

  pub Holds-on_rejected :
      {A : Type 0} (f : Reason → Task A) (e : Error)
      → ((r : Reason) → Holds P (f r))
      → Holds P (on_rejected f e)
  Holds-on_rejected f (rejected r) hf = hf r
  Holds-on_rejected f (runtime r) hf = Holds-fail _
  Holds-on_rejected f value_error hf = Holds-fail _
  Holds-on_rejected f type_error hf = Holds-fail _
  Holds-on_rejected f overflow_error hf = Holds-fail _
  Holds-on_rejected f assertion_error hf = Holds-fail _

  continue :
      {A B : Type 0} (o : Outcome A) (f : A → Task B)
      → ((a : A) → Holds P (f a))
      → (w : World) → P w
      → P (resume_with o f w).1
  continue (returned a) f hf w h = (hf a).at w h
  continue (failed e) f hf w h = h
  continue pending f hf w h = h

  pub Holds-bind :
      {A B : Type 0} (m : Task A) (f : A → Task B)
      → Holds P m
      → ((a : A) → Holds P (f a))
      → Holds P (m >>= f)
  unfolding ◌>>=◌
  Holds-bind m f hm hf = record { at = λ w h. continue (m w).0 f hf (m w).1 (hm.at w h) }

  -- The same from one world on.
  pub bind_from :
      {A B : Type 0} (m : Task A) (f : A → Task B) (w : World)
      → P (m w).1
      → ((a : A) → Holds P (f a))
      → P ((m >>= f) w).1
  unfolding ◌>>=◌
  bind_from m f w h hf = continue (m w).0 f hf (m w).1 h

  pub Holds-world :
      {A : Type 0} (f : World → Task A) → ((w : World) → P w → P (f w w).1) → Holds P (with_world f)
  unfolding with_world
  Holds-world f k = record { at = k }

  pub handle :
      {A : Type 0} (o : Outcome A) (f : Reason → Task A)
      → ((r : Reason) → Holds P (f r))
      → (w : World) → P w
      → P (handle_rejected o f w).1
  handle (failed (rejected r)) f hf w h = (hf r).at w h
  handle (failed (runtime r)) f hf w h = h
  handle (failed value_error) f hf w h = h
  handle (failed type_error) f hf w h = h
  handle (failed overflow_error) f hf w h = h
  handle (failed assertion_error) f hf w h = h
  handle (returned a) f hf w h = h
  handle pending f hf w h = h

  pub Holds-catch_rejected :
      {A : Type 0} (m : Task A) (f : Reason → Task A)
      → Holds P m
      → ((r : Reason) → Holds P (f r))
      → Holds P (catch_rejected m f)
  unfolding catch_rejected
  Holds-catch_rejected m f hm hf = record { at = λ w h. handle (m w).0 f hf (m w).1 (hm.at w h) }

  pub Holds-update :
      (f : Env → Controller → Controller)
      → ((w : World) → P w → P (record w { controller = f w.env w.controller }))
      → Holds P (update f)
  unfolding update
  Holds-update f k = record { at = k }

-- What a bind that returns has done.
resumed :
    {A B : Type 0} (o : Outcome A) (f : A → Task B) (u : World) {b : B} {v : World}
    → resume_with o f u ≡ (returned b, v)
    → (a : A) × (o ≡ returned a) × (f a u ≡ (returned b, v))
resumed (returned a) f u e = (a, refl, e)
resumed (failed x) f u e = cc
resumed pending f u e = cc

pub returned-bind :
    {A B : Type 0} (m : Task A) (f : A → Task B) (w : World) {b : B} {v : World}
    → (m >>= f) w ≡ (returned b, v)
    → (a : A) × ((m w).0 ≡ returned a) × (f a (m w).1 ≡ (returned b, v))
unfolding ◌>>=◌
returned-bind m f w e = resumed (m w).0 f (m w).1 e

-- An invariant that the turns of the schedule keep.
abbrev pub SurvivesTurns : (World → Type 0) → Type 0
SurvivesTurns P =
    (t : Turn) (ts : List Turn) (w : World) → w.turns ≡ t ∷ ts → P w → P (resume t ts w)

-- An invariant to which a flag of the controller is nothing.
abbrev pub Ignores : (World → Type 0) → (Bool → Controller → Controller) → Type 0
Ignores P set = (b : Bool) (w : World) → P w → P (record w { controller = set b w.controller })

module _ {P : World → Type 0} (turn : SurvivesTurns P) where
  taken : (ts : List Turn) (w : World) → w.turns ≡ ts → P w → P (next_turn ts w).1
  taken [] w e h = h
  taken (t ∷ ts) w e h = turn t ts w e h

  pub Holds-suspend : Holds P suspend
  unfolding suspend
  Holds-suspend = record { at = λ w h. taken w.turns w refl h }

  ended : {A : Type 0} (o : Outcome A) (w : World) → P w → P (after_task (o, w)).1
  unfolding after_task
  ended (returned a) w h =
      (Holds-bind suspend (λ _. pure a) Holds-suspend (λ _. Holds-pure a)).at w h
  ended (failed e) w h = (Holds-bind suspend (λ _. fail e) Holds-suspend (λ _. Holds-fail e)).at w h
  ended pending w h = h

  pub Holds-run_task : {A : Type 0} (m : Task A) → Holds P m → Holds P (run_task m)
  unfolding run_task
  Holds-run_task m hm =
      Holds-bind suspend (λ _ w. after_task (m w)) Holds-suspend
        λ _. record { at = λ w h. ended (m w).0 (m w).1 (hm.at w h) }

  module _ (locked : Controller → Bool) (set : Bool → Controller → Controller)
      (ignores : Ignores P set) where
    Holds-acquire : Holds P (acquire locked set)
    unfolding acquire
    Holds-acquire = Holds-with_world _ λ w.
        Holds-if (locked w.controller) _ _
          (Holds-bind suspend _ Holds-suspend (λ _. Holds-update _ (ignores true)))
          (Holds-update _ (ignores true))

    freed : {A : Type 0} (o : Outcome A) (w : World) → P w → P (released locked set (o, w)).1
    unfolding released
    freed (returned a) w h = ignores false w h
    freed (failed e) w h = ignores false w h
    freed pending w h = h

    pub Holds-with_lock : {A : Type 0} (m : Task A) → Holds P m → Holds P (with_lock locked set m)
    unfolding with_lock
    Holds-with_lock m hm =
        Holds-bind (acquire locked set) (λ _ w. released locked set (m w)) Holds-acquire
          λ _. record { at = λ w h. freed (m w).0 (m w).1 (hm.at w h) }

-- The wait for a fresh STOP: each round ends in an answer or in a turn that clears the wake event.
module _ {P : World → Type 0} (turn : SurvivesTurns P)
    (clear : (w : World)
      → P w
      → P (record w { controller = record (w.controller) { wake_event = false } })) where
  answered :
      (o : Option (Option Reason)) (m : Task (Option Reason)) (w : World)
      → P w
      → P (m w).1
      → P (match_option o m pure w).1
  unfolding pure
  answered none m w h hm = hm
  answered (some r) m w h hm = h

  waited :
      (deadline : ℕ) (baseline : Option ℕ) (ts : List Turn) (w : World)
      → w.turns ≡ ts
      → P w
      → P (wait_loop deadline baseline ts w).1
  unfolding wait_loop with_world
  waited deadline baseline [] w e h = answered (poll_stop deadline baseline w.env) _ w h h
  waited deadline baseline (t ∷ ts) w e h =
      answered (poll_stop deadline baseline w.env) _ w h
        (waited deadline baseline ts (resume_woken t ts w) refl (clear _ (turn t ts w e h)))

  pub Holds-wait_for_fresh_stop :
      (s : DeskSettings) (baseline : Option ℕ) → Holds P (wait_for_fresh_stop s baseline)
  unfolding wait_for_fresh_stop
  Holds-wait_for_fresh_stop s baseline = record { at = λ w h. waited _ baseline w.turns w refl h }

pub ruleset holds_rules = (
  Holds-pure, Holds-fail, Holds-lift, Holds-gets, Holds-with_world, Holds-if, Holds-match_option,
  Holds-match_result, Holds-on_rejected, Holds-bind, Holds-catch_rejected,
)

-- ===== src/Desk/Controller/Task.antt =====
-- Coroutines of the controller. asyncio switches tasks only where a coroutine suspends, and an
-- uncontended lock does not suspend; `_command_lock` is never held across a suspension, so a block
-- under it is one step. What happens while a coroutine is suspended is a `Turn` of the schedule:
-- what the environment shows afterwards, how the awaited call ended, and what the other tasks have
-- done to the controller's fields. The two clocks stand still between suspensions.
use kdt_smaty.Prelude.{
  ℕ, String, Bool, true, false, Option, none, some, List, [], ◌∷◌, if◌then◌else◌,
}
use kdt_smaty.Desk.Relay.{Command, Checked, publish, refuse}
use kdt_smaty.Desk.Controller.State.{Controller, Env, Reason}

pub data Error : Type 0 where
  rejected : Reason → Error  -- DeskCommandRejectedError
  runtime : Reason → Error  -- RuntimeError
  value_error type_error overflow_error assertion_error : Error

pub data Result (A : Type 0) : Type 0 where
  ok : A → Result A
  raised : Error → Result A

pub record Turn : Type 0 where
  pub env : Env
  pub failure : Option String
  pub others : Controller → Controller

-- A command handed to the relay client, with the state at that moment; of a pulse also the
-- generation of the motion that `_publish_pulse` was called for.
pub record Sent : Type 0 where
  pub asked : Option ℕ
  pub command : Command
  pub controller : Controller
  pub env : Env

pub record World : Type 0 where
  pub controller : Controller
  pub env : Env
  pub turns : List Turn
  pub sent : List Sent

-- `pending`: the schedule has ended while the coroutine was suspended.
pub data Outcome (A : Type 0) : Type 0 where
  returned : A → Outcome A
  failed : Error → Outcome A
  pending : Outcome A

abbrev pub Task : Type 0 → Type 0
Task A = World → Outcome A × World

module _ {A : Type 0} where
  unfoldable pub pure : A → Task A
  pure a w = (returned a, w)

  unfoldable pub fail : Error → Task A
  fail e w = (failed e, w)

  unfoldable pub lift : Result A → Task A
  lift (ok a) = pure a
  lift (raised e) = fail e

  unfoldable pub with_world : (World → Task A) → Task A
  with_world f w = f w w

-- An assignment to fields of the controller.
unfoldable pub update : (Env → Controller → Controller) → Task (Unit {0})
update f w = (returned tt, record w { controller = f w.env w.controller })

unfoldable pub gets : {A : Type 0} → (World → A) → Task A
gets f w = (returned (f w), w)

module _ {A B : Type 0} where
  -- `if value is None: … else: …`
  abbrev pub match_option : Option A → Task B → (A → Task B) → Task B
  match_option none m f = m
  match_option (some a) m f = f a

  -- A checked value, or what is done with the exception of its check.
  abbrev pub match_result : Result A → (Error → Task B) → (A → Task B) → Task B
  match_result (raised e) m f = m e
  match_result (ok a) m f = f a

  abbrev pub resume_with : Outcome A → (A → Task B) → Task B
  resume_with (returned a) f w = f a w
  resume_with (failed e) f w = (failed e, w)
  resume_with pending f w = (pending, w)

  infixl 5 ◌>>=◌ ◌>>◌
  unfoldable pub ◌>>=◌ : Task A → (A → Task B) → Task B
  unfolding pure fail lift with_world gets update
  ◌>>=◌ m f w = let (o, w') = m w in resume_with o f w'

  abbrev pub ◌>>◌ : Task A → Task B → Task B
  m >> k = m >>= λ _. k

-- `except DeskCommandRejectedError as error`
abbrev pub on_rejected : {A : Type 0} → (Reason → Task A) → Error → Task A
on_rejected f (rejected r) = f r
on_rejected f e = fail e

abbrev pub handle_rejected : {A : Type 0} → Outcome A → (Reason → Task A) → Task A
handle_rejected (failed (rejected r)) f w = f r w
handle_rejected o f w = (o, w)

unfoldable pub catch_rejected : {A : Type 0} → Task A → (Reason → Task A) → Task A
catch_rejected m f w = let (o, w') = m w in handle_rejected o f w'

-- The state in which a suspended coroutine goes on.
abbrev pub resume : Turn → List Turn → World → World
resume t ts w = record w { env = t.env; turns = ts; controller = t.others w.controller }

abbrev pub next_turn : List Turn → Task (Option String)
next_turn [] w = (pending, w)
next_turn (t ∷ ts) w = (returned t.failure, resume t ts w)

-- A suspension: the next turn, and how the awaited call ended.
unfoldable pub suspend : Task (Option String)
suspend w = next_turn w.turns w

abbrev pub record_sent : Option ℕ → Command → World → World
record_sent asked command w = record w {
  sent =
      record { asked = asked; command = command; controller = w.controller; env = w.env } ∷ w.sent;
}

unfoldable pub failure_reason : Option String → Option Reason
failure_reason none = none
failure_reason (some text) = some (Reason.call_failed text)

-- A call of the relay client under `except Exception as error: str(error)`. A command that the
-- client accepts goes out with the state of this moment, and the coroutine waits for its call;
-- `asyncio.timeout` ends the call with the empty text of `TimeoutError`.
unfoldable pub call_for : Option ℕ → Checked → Task (Option Reason)
call_for asked (publish command) = do
  failure ← λ w. suspend (record_sent asked command w)
  pure (failure_reason failure)
call_for asked (refuse error) = pure (some (Reason.command_refused error))

abbrev pub call_relay : Checked → Task (Option Reason)
call_relay = call_for none

-- `async with lock`: an uncontended lock is taken at once, a taken one is awaited, and it is given
-- back however the block ends.
module _ (locked : Controller → Bool) (set : Bool → Controller → Controller) where
  unfoldable pub acquire : Task (Unit {0})
  acquire = with_world λ w.
      if locked w.controller
      then (do _ ← suspend; update (λ _. set true))
      else update (λ _. set true)

  unfoldable pub unlocked : World → World
  unlocked w = record w { controller = set false w.controller }

  unfoldable pub released : {A : Type 0} → Outcome A × World → Outcome A × World
  unfolding unlocked
  released (returned a, w) = (returned a, unlocked w)
  released (failed e, w) = (failed e, unlocked w)
  released (pending, w) = (pending, w)

  unfoldable pub with_lock : {A : Type 0} → Task A → Task A
  with_lock m = do _ ← acquire; λ w. released (m w)

abbrev pub has_intent_lock : Controller → Bool
has_intent_lock c = c.intent_lock

abbrev pub set_intent_lock : Bool → Controller → Controller
set_intent_lock b c = record c { intent_lock = b }

abbrev pub has_relay_io_lock : Controller → Bool
has_relay_io_lock c = c.relay_io_lock

abbrev pub set_relay_io_lock : Bool → Controller → Controller
set_relay_io_lock b c = record c { relay_io_lock = b }

unfoldable pub with_intent_lock : {A : Type 0} → Task A → Task A
with_intent_lock = with_lock has_intent_lock set_intent_lock

unfoldable pub with_relay_io_lock : {A : Type 0} → Task A → Task A
with_relay_io_lock = with_lock has_relay_io_lock set_relay_io_lock

-- A task of its own that is awaited: other tasks run before it begins and after it has ended.
unfoldable pub after_task : {A : Type 0} → Outcome A × World → Outcome A × World
after_task (returned a, w) = (suspend >>= λ _. pure a) w
after_task (failed e, w) = (suspend >>= λ _. fail e) w
after_task (pending, w) = (pending, w)

unfoldable pub run_task : {A : Type 0} → Task A → Task A
run_task m = do _ ← suspend; λ w. after_task (m w)

-- ===== src/Mqtt.antt =====
-- src/smart_desk/modules/mqtt/client.py: the one connection of the process. The runner is told by the
-- event loop and by `aiomqtt` what happens to it; its phase is the place in `_run` at which it waits.
pub mod Subscriptions
pub mod History
mod Examples
use Prim.Native.Char.{code}
use kdt_smaty.Prelude.{
  ℕ, ◌≤◌, String, str_eq, strip, Bool, true, false, not, ◌&&◌, ◌||◌, ◌==◌, leb, ◌⊎◌, inl, inr,
  Option, none, some, List, [], ◌∷◌, ◌++◌, is_some, if◌then◌else◌,
}

-- In `_subscribe_all` with the handlers whose `subscribe` has not returned yet.
pub data Phase : Type 0 where
  opening receiving sleeping : Phase
  subscribing : List (String × (ℕ × ℕ)) → Phase

-- The runner's task.
pub data Runner : Type 0 where
  absent ended : Runner
  running : Phase → Runner

-- `MqttClient`, with the local `connected_once` of `_run`, the topics subscribed on the present
-- connection with their QoS, and the messages handed to a handler. A handler is a number.
pub record Mqtt : Type 0 where
  pub handlers : List (String × (ℕ × ℕ))
  pub has_client : Bool
  pub runner : Runner
  pub startup_set : Bool
  pub connected : Bool
  pub last_error : Option String
  pub connected_once : Bool
  pub subscribed : List (String × ℕ)
  pub delivered : List (String × ℕ)

-- `__init__`
abbrev pub new_mqtt : Mqtt
new_mqtt = record {
  handlers = [];
  has_client = false;
  runner = absent;
  startup_set = false;
  connected = false;
  last_error = none;
  connected_once = false;
  subscribed = [];
  delivered = [];
}

pub data MqttError : Type 0 where
  empty_topic wildcard_topic invalid_qos already_started duplicate_topic : MqttError
  startup_timeout startup_failed unavailable : MqttError

-- `character in text`
unfoldable pub has_character : ℕ → String → Bool
has_character c String.[] = false
has_character c (String.◌∷◌ d rest) = (code d == c) || has_character c rest

-- `_validate_topic`; a plus sign is 43, a number sign 35.
unfoldable pub validate_topic : String → MqttError ⊎ String
unfolding has_character
validate_topic topic =
    if str_eq (strip topic) ""
    then inl empty_topic
    else if has_character 43 topic || has_character 35 topic
    then inl wildcard_topic
    else inr topic

-- `_validate_qos` on an `int`.
unfoldable pub validate_qos : ℕ → MqttError ⊎ ℕ
validate_qos qos = if leb qos 2 then inr qos else inl invalid_qos

infixl 5 ◌>>=◌
abbrev pub ◌>>=◌ : {A B : Type 0} → MqttError ⊎ A → (A → MqttError ⊎ B) → MqttError ⊎ B
inr a >>= f = f a
inl error >>= f = inl error

-- `self._runner_task is not None and not self._runner_task.done()`
abbrev pub is_running : Runner → Bool
is_running (running phase) = true
is_running _ = false

unfoldable pub find_handler : String → List (String × (ℕ × ℕ)) → Option (ℕ × ℕ)
find_handler topic [] = none
find_handler topic ((other, entry) ∷ rest) =
    let later = find_handler topic rest in if str_eq other topic then some entry else later

abbrev pub add_handler : String → ℕ → ℕ → Mqtt → MqttError ⊎ Mqtt
add_handler topic qos handler s =
    if is_running s.runner
    then inl already_started
    else if is_some (find_handler topic s.handlers)
    then inl duplicate_topic
    else inr (record s { handlers = s.handlers ++ (topic, (qos, handler)) ∷ [] })

-- `register_handler`
unfoldable pub register_handler : String → ℕ → ℕ → Mqtt → MqttError ⊎ Mqtt
unfolding validate_topic validate_qos find_handler
register_handler topic qos handler s = do
  valid_topic ← validate_topic topic
  valid_qos ← validate_qos qos
  add_handler valid_topic valid_qos handler s

-- `start` up to its wait.
unfoldable pub begin_start : Mqtt → MqttError ⊎ Mqtt
begin_start s =
    if is_running s.runner
    then inl already_started
    else inr (record s {
      startup_set = false;
      connected = false;
      last_error = none;
      runner = running opening;
      connected_once = false;
    })

-- The `finally` of a round of `_run`.
unfoldable pub disconnect : Mqtt → Mqtt
disconnect s = record s { connected = false; has_client = false; subscribed = [] }

-- `_cancel_runner`: the `finally` of the runner runs, if it is under way.
unfoldable pub cancel_runner : Mqtt → Mqtt
unfolding disconnect
cancel_runner s =
    if is_running s.runner
    then record (disconnect s) { runner = absent }
    else record s { runner = absent }

-- `start` behind its wait, told whether the wait has timed out.
unfoldable pub end_start : Bool → Mqtt → Option MqttError × Mqtt
unfolding cancel_runner
end_start true s = (some startup_timeout, cancel_runner s)
end_start false s = if s.connected then (none, s) else (some startup_failed, cancel_runner s)

-- `stop`
unfoldable pub stop : Mqtt → Mqtt
unfolding cancel_runner
stop s = record (cancel_runner s) { connected = false; has_client = false; subscribed = [] }

-- `publish` up to the call of `aiomqtt`, which it makes when nothing is refused.
unfoldable pub check_publish : String → ℕ → Mqtt → MqttError ⊎ (String × ℕ)
unfolding validate_topic validate_qos
check_publish topic qos s = do
  valid_topic ← validate_topic topic
  valid_qos ← validate_qos qos
  if s.connected && s.has_client then inr (valid_topic, valid_qos) else inl unavailable

-- Behind `_subscribe_all`
unfoldable pub connect : Mqtt → Mqtt
connect s = record s {
  connected = true;
  last_error = none;
  connected_once = true;
  startup_set = s.startup_set || not s.connected_once;
  runner = running receiving;
}

-- The loop of `_subscribe_all`: it waits in the `subscribe` of its next handler, or it is over.
unfoldable pub subscribe_all : List (String × (ℕ × ℕ)) → Mqtt → Mqtt
unfolding connect
subscribe_all [] s = connect s
subscribe_all (next ∷ rest) s = record s { runner = running (subscribing (next ∷ rest)) }

-- The connection is open, with a clean session: `self._client = client`.
unfoldable pub opened : Runner → Mqtt → Mqtt
unfolding subscribe_all
opened (running opening) s =
    subscribe_all s.handlers (record s { has_client = true; subscribed = [] })
opened _ s = s

-- The `subscribe` that the loop waits in has returned.
unfoldable pub subscribed_one : Runner → Mqtt → Mqtt
unfolding subscribe_all
subscribed_one (running (subscribing ((topic, (qos, handler)) ∷ rest))) s =
    subscribe_all rest (record s { subscribed = s.subscribed ++ (topic, qos) ∷ [] })
subscribed_one _ s = s

abbrev pub next_runner : Bool → Runner
next_runner true = running sleeping
next_runner false = ended

-- An `MqttError` within the round: it ends the runner only before the first success.
unfoldable pub broken : Runner → String → Mqtt → Mqtt
unfolding disconnect
broken (running sleeping) error s = s
broken (running phase) error s = record (disconnect s) {
  last_error = some error;
  startup_set = s.startup_set || not s.connected_once;
  runner = next_runner s.connected_once;
}
broken _ error s = s

-- Another exception within the round: it ends the runner.
unfoldable pub failed : Runner → String → Mqtt → Mqtt
unfolding disconnect
failed (running sleeping) error s = s
failed (running phase) error s = record (disconnect s) {
  last_error = some error;
  startup_set = s.startup_set || not s.connected_once;
  runner = ended;
}
failed _ error s = s

abbrev pub woken : Runner → Mqtt → Mqtt
woken (running sleeping) s = record s { runner = running opening }
woken _ s = s

abbrev pub hand_over : String → Option (ℕ × ℕ) → Mqtt → Mqtt
hand_over topic none s = s
hand_over topic (some (qos, handler)) s = record s {
  delivered = s.delivered ++ (topic, handler) ∷ [];
}

-- `_dispatch`, whose handler may raise what it likes.
unfoldable pub dispatch : Runner → String → Mqtt → Mqtt
unfolding find_handler
dispatch (running receiving) topic s = hand_over topic (find_handler topic s.handlers) s
dispatch _ topic s = s

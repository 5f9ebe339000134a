-- ===== src/Mqtt/Subscriptions.antt =====
-- What a connected client has subscribed to, over any events.
use kdt_smaty.Prelude.{
  ℕ, ◌≡◌, refl, sym, ap, ◌∙◌, subst, String, Bool, true, false, ◌⊎◌, inl, inr, Option, none, some,
  List, [], ◌∷◌, ◌++◌, map, append-nil, append_assoc, Bool-cases, if_true, if_false, arith,
}
use kdt_smaty.Mqtt.{
  opening, subscribing, connect, subscribe_all, receiving, sleeping, Runner, absent, ended, running,
  Mqtt, MqttError, is_running, register_handler, begin_start, disconnect, cancel_runner, end_start,
  stop, opened, subscribed_one, broken, failed, woken, next_runner, hand_over, dispatch,
}

-- What happens to a client: calls of its methods, and steps of its runner.
pub data Event : Type 0 where
  registers : String → ℕ → ℕ → Event
  begins_start opens subscribes wakes stops : Event
  ends_start : Bool → Event
  breaks fails receives : String → Event

abbrev pub or_before : MqttError ⊎ Mqtt → Mqtt → Mqtt
or_before (inl error) before = before
or_before (inr after) before = after

unfoldable pub handle : Event → Mqtt → Mqtt
unfolding register_handler begin_start end_start stop opened subscribed_one broken failed dispatch
handle (registers topic qos handler) s = or_before (register_handler topic qos handler s) s
handle begins_start s = or_before (begin_start s) s
handle opens s = opened s.runner s
handle subscribes s = subscribed_one s.runner s
handle wakes s = woken s.runner s
handle stops s = stop s
handle (ends_start timed_out) s = (end_start timed_out s).1
handle (breaks error) s = broken s.runner error s
handle (fails error) s = failed s.runner error s
handle (receives topic) s = dispatch s.runner topic s

unfoldable pub handle_all : List Event → Mqtt → Mqtt
unfolding handle
handle_all [] s = s
handle_all (event ∷ rest) s = handle_all rest (handle event s)

-- The phases in which the runner has a connection.
abbrev pub holds_client : Runner → Bool
holds_client (running (subscribing rest)) = true
holds_client (running receiving) = true
holds_client _ = false

-- What the loop has subscribed and what it has still to subscribe are all registered topics.
abbrev pub Progresses : Runner → Mqtt → Type 0
Progresses (running (subscribing rest)) s =
    s.subscribed ++ map (λ entry. (entry.0, entry.1.0)) rest
    ≡ map (λ entry. (entry.0, entry.1.0)) s.handlers
Progresses _ s = Unit

-- A connected client has its connection, its runner receives, and every registered topic is subscribed
-- on this connection with its QoS, in the order of registration.
pub record IsSubscribed (s : Mqtt) : Type 0 where
  pub link : holds_client s.runner ≡ true → s.has_client ≡ true
  pub receives_now : s.connected ≡ true → s.runner ≡ running receiving
  pub complete : s.connected ≡ true → s.subscribed ≡ map (λ entry. (entry.0, entry.1.0)) s.handlers
  pub under_way : Progresses s.runner s

pub no_yes : {P : Type 0} → false ≡ true → P
no_yes h = ground arith

-- Not connected, and without a connection to lose.
pub off :
    (s : Mqtt)
    → (holds_client s.runner ≡ true → s.has_client ≡ true)
    → s.connected ≡ false
    → Progresses s.runner s
    → IsSubscribed s
off s link h under_way = record {
  under_way = under_way;
  link = link;
  receives_now = λ on. no_yes (sym h ∙ on);
  complete = λ on. no_yes (sym h ∙ on);
}

-- A runner that does not receive belongs to a client that is not connected.
pub not_connected :
    (s : Mqtt) (runner : Runner)
    → s.runner ≡ runner
    → (runner ≡ running receiving → ⊥)
    → IsSubscribed s
    → s.connected ≡ false
not_connected s runner same other sound = elim (Bool-cases s.connected) [
  | inl on ↦ absurd (other (sym same ∙ sound.receives_now on))
  | inr not_on ↦ not_on
]

pub idle-Progresses : (runner : Runner) (s : Mqtt) → is_running runner ≡ false → Progresses runner s
idle-Progresses absent s h = tt
idle-Progresses ended s h = tt
idle-Progresses (running phase) s h = no_yes (sym h)

pub cancel_runner-absent : (s : Mqtt) → (cancel_runner s).runner ≡ absent
unfolding cancel_runner disconnect
cancel_runner-absent s = elim (Bool-cases (is_running s.runner)) [
  | inl runs ↦ ap {A = Mqtt} (λ r. r.runner) (if_true (is_running s.runner) _ _ runs)
  | inr rests ↦ ap {A = Mqtt} (λ r. r.runner) (if_false (is_running s.runner) _ _ rests)
]

pub cancel_runner-IsSubscribed : (s : Mqtt) → IsSubscribed s → IsSubscribed (cancel_runner s)
unfolding cancel_runner disconnect
cancel_runner-IsSubscribed s sound = elim (Bool-cases (is_running s.runner)) [
  | inl runs ↦ rw (runs, cancel_runner) (off _ no_yes refl tt)
  | inr rests ↦
      rw (rests, cancel_runner)
        (off _ no_yes
          (not_connected s s.runner refl (λ h. no_yes (sym rests ∙ ap is_running h)) sound) tt)
]

is_receiving : Runner → Bool
is_receiving (running receiving) = true
is_receiving _ = false

-- The loop goes on, or ends with all subscribed.
subscribe_all-IsSubscribed :
    (rest : List (String × (ℕ × ℕ))) (s : Mqtt)
    → s.has_client ≡ true
    → s.connected ≡ false
    → s.subscribed ++ map (λ entry. (entry.0, entry.1.0)) rest
      ≡ map (λ entry. (entry.0, entry.1.0)) s.handlers
    → IsSubscribed (subscribe_all rest s)
unfolding subscribe_all connect
subscribe_all-IsSubscribed [] s link h whole = record {
  link = λ holds. link;
  receives_now = λ on. refl;
  complete = λ on. sym (append-nil s.subscribed) ∙ whole;
  under_way = tt;
}
subscribe_all-IsSubscribed (next ∷ rest) s link h whole = off _ (λ holds. link) h whole

pub opened-IsSubscribed :
    (runner : Runner) (s : Mqtt)
    → s.runner ≡ runner
    → IsSubscribed s
    → IsSubscribed (opened runner s)
unfolding is_receiving opened
opened-IsSubscribed absent s same sound = sound
opened-IsSubscribed ended s same sound = sound
opened-IsSubscribed (running opening) s same sound =
    subscribe_all-IsSubscribed s.handlers (record s { has_client = true; subscribed = [] }) refl
      (not_connected s _ same (λ h. no_yes (ap is_receiving h)) sound) refl
opened-IsSubscribed (running (subscribing rest)) s same sound = sound
opened-IsSubscribed (running receiving) s same sound = sound
opened-IsSubscribed (running sleeping) s same sound = sound

pub subscribed_one-IsSubscribed :
    (runner : Runner) (s : Mqtt)
    → s.runner ≡ runner
    → IsSubscribed s
    → IsSubscribed (subscribed_one runner s)
unfolding is_receiving subscribed_one
subscribed_one-IsSubscribed absent s same sound = sound
subscribed_one-IsSubscribed ended s same sound = sound
subscribed_one-IsSubscribed (running opening) s same sound = sound
subscribed_one-IsSubscribed (running (subscribing [])) s same sound = sound
subscribed_one-IsSubscribed (running (subscribing ((topic, (qos, handler)) ∷ rest))) s same sound =
    subscribe_all-IsSubscribed rest (record s { subscribed = s.subscribed ++ (topic, qos) ∷ [] })
      (sound.link (ap holds_client same))
      (not_connected s _ same (λ h. no_yes (ap is_receiving h)) sound)
      (append_assoc s.subscribed _ _ ∙ subst (λ runner. Progresses runner s) same sound.under_way)
subscribed_one-IsSubscribed (running receiving) s same sound = sound
subscribed_one-IsSubscribed (running sleeping) s same sound = sound

pub woken-IsSubscribed :
    (runner : Runner) (s : Mqtt)
    → s.runner ≡ runner
    → IsSubscribed s
    → IsSubscribed (woken runner s)
unfolding is_receiving
woken-IsSubscribed absent s same sound = sound
woken-IsSubscribed ended s same sound = sound
woken-IsSubscribed (running opening) s same sound = sound
woken-IsSubscribed (running (subscribing rest)) s same sound = sound
woken-IsSubscribed (running receiving) s same sound = sound
woken-IsSubscribed (running sleeping) s same sound =
    off _ no_yes (not_connected s _ same (λ h. no_yes (ap is_receiving h)) sound) tt

next_runner-Progresses : (b : Bool) (s : Mqtt) → Progresses (next_runner b) s
next_runner-Progresses true s = tt
next_runner-Progresses false s = tt

-- Behind a failed round the runner has no connection.
next_runner-free : {P : Type 0} (b : Bool) → holds_client (next_runner b) ≡ true → P
next_runner-free true h = no_yes h
next_runner-free false h = no_yes h

pub broken-IsSubscribed :
    (runner : Runner) (error : String) (s : Mqtt)
    → IsSubscribed s
    → IsSubscribed (broken runner error s)
unfolding broken disconnect
broken-IsSubscribed absent error s sound = sound
broken-IsSubscribed ended error s sound = sound
broken-IsSubscribed (running sleeping) error s sound = sound
broken-IsSubscribed (running opening) error s sound =
    off _ (next_runner-free s.connected_once) refl (next_runner-Progresses s.connected_once _)
broken-IsSubscribed (running (subscribing rest)) error s sound =
    off _ (next_runner-free s.connected_once) refl (next_runner-Progresses s.connected_once _)
broken-IsSubscribed (running receiving) error s sound =
    off _ (next_runner-free s.connected_once) refl (next_runner-Progresses s.connected_once _)

pub failed-IsSubscribed :
    (runner : Runner) (error : String) (s : Mqtt)
    → IsSubscribed s
    → IsSubscribed (failed runner error s)
unfolding failed disconnect
failed-IsSubscribed absent error s sound = sound
failed-IsSubscribed ended error s sound = sound
failed-IsSubscribed (running sleeping) error s sound = sound
failed-IsSubscribed (running opening) error s sound = off _ no_yes refl tt
failed-IsSubscribed (running (subscribing rest)) error s sound = off _ no_yes refl tt
failed-IsSubscribed (running receiving) error s sound = off _ no_yes refl tt

delivered-Progresses :
    (runner : Runner) (s : Mqtt) (delivered : List (String × ℕ))
    → Progresses runner s
    → Progresses runner (record s { delivered = delivered })
delivered-Progresses absent s l h = tt
delivered-Progresses ended s l h = tt
delivered-Progresses (running opening) s l h = tt
delivered-Progresses (running (subscribing rest)) s l h = h
delivered-Progresses (running receiving) s l h = tt
delivered-Progresses (running sleeping) s l h = tt

hand_over-IsSubscribed :
    (topic : String) (entry : Option (ℕ × ℕ)) (s : Mqtt)
    → IsSubscribed s
    → IsSubscribed (hand_over topic entry s)
hand_over-IsSubscribed topic none s sound = sound
hand_over-IsSubscribed topic (some (qos, handler)) s sound = record {
  link = sound.link;
  receives_now = sound.receives_now;
  complete = sound.complete;
  under_way = delivered-Progresses s.runner s _ sound.under_way;
}

pub dispatch-IsSubscribed :
    (runner : Runner) (topic : String) (s : Mqtt)
    → IsSubscribed s
    → IsSubscribed (dispatch runner topic s)
unfolding dispatch
dispatch-IsSubscribed absent topic s sound = sound
dispatch-IsSubscribed ended topic s sound = sound
dispatch-IsSubscribed (running opening) topic s sound = sound
dispatch-IsSubscribed (running (subscribing rest)) topic s sound = sound
dispatch-IsSubscribed (running sleeping) topic s sound = sound
dispatch-IsSubscribed (running receiving) topic s sound = hand_over-IsSubscribed topic _ s sound

pub begin_start-IsSubscribed :
    (s : Mqtt) → IsSubscribed s → IsSubscribed (or_before (begin_start s) s)
unfolding begin_start
begin_start-IsSubscribed s sound = elim (Bool-cases (is_running s.runner)) [
  | inl runs ↦ rw (runs, begin_start) sound
  | inr rests ↦ rw (rests, begin_start) (off _ no_yes refl tt)
]

pub end_start-IsSubscribed :
    (timed_out : Bool) (s : Mqtt) → IsSubscribed s → IsSubscribed (end_start timed_out s).1
unfolding end_start
end_start-IsSubscribed true s sound = cancel_runner-IsSubscribed s sound
end_start-IsSubscribed false s sound = elim (Bool-cases s.connected) [
  | inl on ↦
      subst {A = Option MqttError × Mqtt} (λ r. IsSubscribed r.1) (sym (if_true s.connected _ _ on))
        sound
  | inr not_on ↦
      subst {A = Option MqttError × Mqtt} (λ r. IsSubscribed r.1)
        (sym (if_false s.connected _ _ not_on)) (cancel_runner-IsSubscribed s sound)
]

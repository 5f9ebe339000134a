-- ===== src/Mqtt/History.antt =====
-- A client over any sequence of calls and of steps of its runner.
use kdt_smaty.Prelude.{
  ℕ, refl, sym, ap, ◌∙◌, String, inl, inr, List, [], ◌∷◌, subst, is_some, Bool-cases, Sum-cases,
}
use kdt_smaty.Mqtt.{
  Mqtt, is_running, register_handler, add_handler, find_handler, stop, validate_topic, validate_qos,
}
use kdt_smaty.Mqtt.Subscriptions.{
  Event, registers, begins_start, opens, subscribes, wakes, stops, ends_start, breaks, fails,
  receives, or_before, handle, handle_all, holds_client, Progresses, idle-Progresses,
  cancel_runner-absent, IsSubscribed, no_yes, off, not_connected, opened-IsSubscribed,
  subscribed_one-IsSubscribed, woken-IsSubscribed, broken-IsSubscribed, failed-IsSubscribed,
  dispatch-IsSubscribed, begin_start-IsSubscribed, end_start-IsSubscribed,
}

stop-IsSubscribed : (s : Mqtt) → IsSubscribed (stop s)
unfolding stop
stop-IsSubscribed s =
    off _ (λ h. no_yes (ap holds_client (sym (cancel_runner-absent s)) ∙ h)) refl
      (subst (λ runner. Progresses runner (stop s)) (sym (cancel_runner-absent s)) tt)

add_handler-IsSubscribed :
    (topic : String) (qos handler : ℕ) (s : Mqtt)
    → IsSubscribed s
    → IsSubscribed (or_before (add_handler topic qos handler s) s)
add_handler-IsSubscribed topic qos handler s sound = elim (Bool-cases (is_running s.runner)) [
  | inl runs ↦ rw runs sound
  | inr rests ↦ elim (Bool-cases (is_some (find_handler topic s.handlers))) [
    | inl taken ↦ rw (rests, taken) sound
    | inr free ↦
        rw (rests, free)
          (off _ sound.link
            (not_connected s s.runner refl (λ h. no_yes (sym rests ∙ ap is_running h)) sound)
            (idle-Progresses s.runner _ rests))
  ]
]

register_handler-IsSubscribed :
    (topic : String) (qos handler : ℕ) (s : Mqtt)
    → IsSubscribed s
    → IsSubscribed (or_before (register_handler topic qos handler s) s)
unfolding register_handler
register_handler-IsSubscribed topic qos handler s sound = elim (Sum-cases (validate_topic topic)) [
  | inl (error, refused) ↦ rw refused sound
  | inr (name, named) ↦ elim (Sum-cases (validate_qos qos)) [
    | inl (error, refused) ↦ rw (named, refused) sound
    | inr (level, fits) ↦ rw (named, fits) (add_handler-IsSubscribed name level handler s sound)
  ]
]

handle-IsSubscribed : (event : Event) (s : Mqtt) → IsSubscribed s → IsSubscribed (handle event s)
unfolding handle
handle-IsSubscribed (registers topic qos handler) s sound =
    register_handler-IsSubscribed topic qos handler s sound
handle-IsSubscribed begins_start s sound = begin_start-IsSubscribed s sound
handle-IsSubscribed opens s sound = opened-IsSubscribed s.runner s refl sound
handle-IsSubscribed subscribes s sound = subscribed_one-IsSubscribed s.runner s refl sound
handle-IsSubscribed wakes s sound = woken-IsSubscribed s.runner s refl sound
handle-IsSubscribed stops s sound = stop-IsSubscribed s
handle-IsSubscribed (ends_start timed_out) s sound = end_start-IsSubscribed timed_out s sound
handle-IsSubscribed (breaks error) s sound = broken-IsSubscribed s.runner error s sound
handle-IsSubscribed (fails error) s sound = failed-IsSubscribed s.runner error s sound
handle-IsSubscribed (receives topic) s sound = dispatch-IsSubscribed s.runner topic s sound

-- Over any calls, connections, subscriptions, losses and reconnections, from any state in which it
-- holds: a client that says that it is connected has its connection, its runner receives, and every
-- registered topic is subscribed on the present connection with its QoS, also behind a reconnection.
pub handle_all-IsSubscribed :
    (events : List Event) (s : Mqtt) → IsSubscribed s → IsSubscribed (handle_all events s)
unfolding handle_all
handle_all-IsSubscribed [] s sound = sound
handle_all-IsSubscribed (event ∷ rest) s sound =
    handle_all-IsSubscribed rest (handle event s) (handle-IsSubscribed event s sound)

-- ===== src/Mqtt/Examples.antt =====
-- A client that loses its connection and gets it back.
use kdt_smaty.Prelude.{false, List, [], ◌∷◌}
use kdt_smaty.Mqtt.{new_mqtt}
use kdt_smaty.Mqtt.Subscriptions.{
  Event, registers, begins_start, opens, subscribes, wakes, ends_start, breaks, handle_all,
  IsSubscribed, no_yes,
}
use kdt_smaty.Mqtt.History.{handle_all-IsSubscribed}

abbrev day : List Event
day =
    registers "smart-desk/relay/status" 0 1
    ∷ begins_start
    ∷ opens
    ∷ subscribes
    ∷ ends_start false
    ∷ breaks "lost"
    ∷ wakes
    ∷ opens
    ∷ subscribes
    ∷ []

handle_all-IsSubscribed_example : IsSubscribed (handle_all day new_mqtt)
handle_all-IsSubscribed_example =
    handle_all-IsSubscribed day new_mqtt
      (record { link = no_yes; receives_now = no_yes; complete = no_yes; under_way = tt })

-- ===== src/Broadcaster/Examples.antt =====
-- A broadcaster with two subscribers, one of them scoped to a tenant.
use mock_agents.Prelude.{◌≡◌, refl, some, List, [], ◌∷◌, arith, ℤ}
use mock_agents.Broadcaster.{
  InteractionLog, LogBroadcaster, Call, subscribes, cancels, release, publishes, closes,
  new_subscription, zero_value, run,
}
use mock_agents.Broadcaster.Safety.{Inv, Safe, zero_value-Inv, run-Safe}
use mock_agents.Broadcaster.Delivery.{publish_all, publish_all-delivers}
use mock_agents.Broadcaster.Snapshot.{snapshot, snapshot_lem}

abbrev history : List Call
history =
    subscribes (ℤ.pos 0) ""
    ∷ subscribes (ℤ.pos 1) "acme"
    ∷ publishes (record { id = 1; tenant_id = "acme" })
    ∷ publishes (record { id = 2; tenant_id = "other" })
    ∷ publishes (record { id = 3; tenant_id = "acme" })
    ∷ cancels (release 0)
    ∷ cancels (release 0)
    ∷ closes
    ∷ subscribes (ℤ.negsuc 4) ""
    ∷ []

run-Safe_example : Safe (run history zero_value)
run-Safe_example = run-Safe history zero_value zero_value-Inv

-- One subscriber with room for two entries of its tenant.
abbrev one_subscriber : LogBroadcaster
unfolding zero_value new_subscription
one_subscriber = record zero_value {
  next = 1;
  heap = λ _. record (zero_value.heap 0) { buffer_cap = 2; tenant_id = "acme" };
  subscribers = 0 ∷ [];
}

one_subscriber-Inv : Inv one_subscriber
unfolding one_subscriber
one_subscriber-Inv = record {
  are_open = (refl, tt);
  are_distinct = (refl, tt);
  are_below = (omega arith, tt);
  none_if_closed = λ c. cc;
}

abbrev entries : List InteractionLog
entries =
    record { id = 1; tenant_id = "acme" }
    ∷ record { id = 2; tenant_id = "other" }
    ∷ record { id = 3; tenant_id = "acme" }
    ∷ record { id = 4; tenant_id = "acme" }
    ∷ []

publish_all-delivers_example :
    (c : LogBroadcaster) × (publish_all entries one_subscriber ≡ some c)
    × ((c.heap 0).ch
        ≡ record { id = 1; tenant_id = "acme" } ∷ record { id = 3; tenant_id = "acme" } ∷ [])
    × ((c.heap 0).dropped ≡ 1)
unfolding one_subscriber
publish_all-delivers_example =
    publish_all-delivers entries one_subscriber 0 one_subscriber-Inv refl (omega arith)

snapshot_lem_example : (snapshot one_subscriber).max_dropped ≡ 0
unfolding one_subscriber
snapshot_lem_example = (snapshot_lem one_subscriber).2

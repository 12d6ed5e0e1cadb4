-- ===== src/Tests/Feed.antt =====
-- A subscriber with room for one event.
use venuewire.Prelude.{
  ℕ, ◌≤◌, ◌≡◌, ◌≢◌, refl, false, some, [], ◌∷◌, length, codes, is_empty, nat_eq, arith,
}
use venuewire.Prelude.Map.{lookup}
use venuewire.Events.Broker.{
  Event, Channel, Broker, resync, try_send, deliver, publish, subscribe_from,
}
use venuewire.Events.Delivery.{IsSynced, from_cursor, publish-IsSynced, subscribe_from-IsSynced}

abbrev event : ℕ → Event
event n = record {
  sequence = n;
  kind = codes "trade.updated";
  venue = codes "bybit";
  intent_id = [];
  at = some 1;
}

abbrev slow : Channel
slow = record { capacity = 1; queue = event 1 ∷ [] }

abbrev busy : Broker
busy = record { subscribers = (1, slow) ∷ []; next_id = 1; sequence = 1 }

slow_there : lookup 1 busy.subscribers ≡ some slow
unfolding lookup
slow_there = refl

typed : is_empty (event 0).kind ≡ false
unfolding is_empty
typed = refl

publish-IsSynced_example :
    (c' : Channel) × (lookup 1 (publish 5 (event 0) busy).subscribers ≡ some c')
    × (length c'.queue ≤ 1)
    × (c'.capacity ≡ 1)
    × ((publish 5 (event 0) busy).sequence ≡ 2)
    × IsSynced 0 (publish 5 (event 0) busy).sequence c'.queue
publish-IsSynced_example =
    publish-IsSynced 5 0 (event 0) busy 1 slow typed (omega arith) slow_there (omega arith)
      (omega arith) (from_cursor (refl, tt) refl)

-- The event that did not fit is replaced by the marker.
overflow :
    (publish 5 (event 0) busy).subscribers
    ≡ (1, record { capacity = 1; queue = resync (record (event 2) { at = some 1 }) ∷ [] }) ∷ []
unfolding publish is_empty deliver try_send
overflow = refl

subscribe_from-IsSynced_example :
    (c : Channel) × ((lookup 2 (subscribe_from 0 busy).0.subscribers ≡ some c)
      × (c.queue ≡ [])
      × (1 ≤ c.capacity)
      × (0 ≤ c.capacity)
      × (1 ≡ busy.sequence)
      × (busy.sequence ≡ 1)
      × IsSynced 1 1 c.queue
      × ((k : ℕ)
          → 2 ≢ k
          → lookup k (subscribe_from 0 busy).0.subscribers ≡ lookup k busy.subscribers))
unfolding subscribe_from
subscribe_from-IsSynced_example = subscribe_from-IsSynced 0 busy

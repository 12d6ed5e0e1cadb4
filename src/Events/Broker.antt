-- ===== src/Events/Broker.antt =====
-- The broker. A channel is the list of the events that wait in it, with its capacity; a receive by
-- the subscriber takes the first one. A `time.Time` that is zero is `none`.
use venuewire.Prelude.{
  ℕ, ◌+◌, ◌%◌, ◌^◌, Option, none, some, List, [], ◌∷◌, ◌++◌, ltb, length, if◌then◌else◌, Text,
  is_empty, codes, nat_eq,
}
use venuewire.Prelude.Map.{Map, insert, erase}

pub record Event : Type 0 where
  pub sequence : ℕ
  pub kind : Text
  pub venue : Text
  pub intent_id : Text
  pub at : Option ℕ

pub record Channel : Type 0 where
  pub capacity : ℕ
  pub queue : List Event

pub record Broker : Type 0 where
  pub subscribers : Map ℕ Channel
  pub next_id : ℕ
  pub sequence : ℕ

unfoldable pub new_broker : Broker
new_broker = record { subscribers = []; next_id = 0; sequence = 0 }

-- A counter of type `uint64`.
abbrev pub increment : ℕ → ℕ
increment n = (n + 1) % 2 ^ 64

abbrev pub resync_kind : Text
resync_kind = codes "resync.required"

-- The marker that takes the place of what a slow subscriber has not read.
unfoldable pub resync : Event → Event
resync e = record {
  sequence = e.sequence;
  kind = resync_kind;
  venue = [];
  intent_id = [];
  at = e.at;
}

-- `case ch <- e:`, where it does not block.
unfoldable pub try_send : Event → Channel → Option Channel
try_send e c =
    if ltb (length c.queue) c.capacity then some (record c { queue = c.queue ++ e ∷ [] }) else none

abbrev sent_or : Channel → Option Channel → Channel
sent_or c none = c
sent_or c (some c') = c'

-- One round of the loop in `Publish`.
unfoldable pub deliver : Event → Channel → Channel
unfolding try_send resync
deliver e c = elim (try_send e c) [
  | some c' ↦ c'
  | none ↦ let drained = record c { queue = [] } in sent_or drained (try_send (resync e) drained)
]

unfoldable pub deliver_all : Event → Map ℕ Channel → Map ℕ Channel
unfolding deliver
deliver_all e [] = []
deliver_all e ((id, c) ∷ m) = (id, deliver e c) ∷ deliver_all e m

abbrev pub or_now : ℕ → Option ℕ → Option ℕ
or_now now none = some now
or_now now at = at

-- `Publish`, on a broker that is not nil.
unfoldable pub publish : ℕ → Event → Broker → Broker
unfolding deliver_all
publish now e b =
    if is_empty e.kind
    then b
    else (let n = increment b.sequence in
        record b {
          sequence = n;
          subscribers = deliver_all (record e { at = or_now now e.at; sequence = n }) b.subscribers;
        })

-- `SubscribeFrom`: the broker, the identifier and the cursor. A buffer below 1 is made 1.
unfoldable pub subscribe_from : ℕ → Broker → Broker × (ℕ × ℕ)
subscribe_from buffer b =
    let id = increment b.next_id in
    let capacity = if ltb buffer 1 then 1 else buffer in
    (
      record b {
        next_id = id;
        subscribers = insert id (record { capacity = capacity; queue = [] }) b.subscribers;
      },
      (id, b.sequence),
    )

-- `unsubscribe`; a second call finds nothing to delete.
unfoldable pub unsubscribe : ℕ → Broker → Broker
unsubscribe id b = record b { subscribers = erase id b.subscribers }

-- The subscriber's receive, by which a queue shrinks.
unfoldable pub receive : Channel → Option Event × Channel
receive c = elim c.queue [ [] ↦ (none, c) | e ∷ rest ↦ (some e, record c { queue = rest }) ]

-- ===== src/Events/Delivery.antt =====
-- What a subscriber can rely on.
use venuewire.Prelude.{
  ℕ, ◌+◌, ◌^◌, ◌<◌, ◌≤◌, ◌≡◌, ◌≢◌, refl, ap, sym, ◌∙◌, inl, inr, ◌⊎◌, true, false, some, List, [],
  ◌∷◌, ◌++◌, ltb, length, length-append, is_empty, Bool-cases, nat_eq, ◌==◌, if◌then◌else◌, arith,
}
use venuewire.Prelude.Map.{Map, lookup, lookup-insert_self, lookup-insert_ne}
use venuewire.Events.Broker.{
  Event, Channel, Broker, resync_kind, resync, try_send, deliver, deliver_all, or_now, increment,
  publish, subscribe_from, receive,
}

-- One event behind the other: each carries the number after the one before it, or is the marker
-- that stands first.
abbrev pub Chain : ℕ → List Event → Type 0
Chain n [] = Unit
Chain n (e ∷ es) = (e.sequence ≡ n + 1) × Chain e.sequence es

-- The number of the last event in the queue; `n` where there is none.
abbrev pub last_number : ℕ → List Event → ℕ
last_number n [] = n
last_number n (e ∷ es) = last_number e.sequence es

-- A queue whose numbers rise without a gap up to the broker's, in front of which there is the
-- cursor, or a resync marker that stands for everything before it.
pub data IsSynced (cursor : ℕ) (now : ℕ) : List Event → Type 0 where
  from_cursor :
      {q : List Event} → Chain cursor q → last_number cursor q ≡ now → IsSynced cursor now q
  from_marker :
      {e : Event} {q : List Event}
      → e.kind ≡ resync_kind
      → Chain e.sequence q
      → last_number e.sequence q ≡ now
      → IsSynced cursor now (e ∷ q)

Chain-append :
    (n : ℕ) (q : List Event) (e : Event)
    → Chain n q
    → e.sequence ≡ last_number n q + 1
    → Chain n (q ++ e ∷ [])
Chain-append n [] e h s = (s, tt)
Chain-append n (x ∷ q) e h s = (h.0, Chain-append x.sequence q e h.1 s)

last_number-append : (n : ℕ) (q : List Event) (e : Event) → last_number n (q ++ e ∷ []) ≡ e.sequence
last_number-append n [] e = refl
last_number-append n (x ∷ q) e = last_number-append x.sequence q e

deliver_room :
    (e : Event) (c : Channel)
    → ltb (length c.queue) c.capacity ≡ true
    → deliver e c ≡ record c { queue = c.queue ++ e ∷ [] }
unfolding deliver try_send
deliver_room e c h = rw (h, deliver) refl

deliver_full :
    (e : Event) (c : Channel)
    → ltb (length c.queue) c.capacity ≡ false
    → 1 ≤ c.capacity
    → deliver e c ≡ record c { queue = resync e ∷ [] }
unfolding deliver try_send
deliver_full e c h room =
    let fits : ltb 0 c.capacity ≡ true = ground arith in rw (h, fits, deliver) refl

marker-IsSynced : (cursor : ℕ) (e : Event) → IsSynced cursor e.sequence (resync e ∷ [])
unfolding resync
marker-IsSynced cursor e = from_marker refl tt refl

-- The broker's next event, on one queue.
deliver-IsSynced :
    (cursor now : ℕ) (e : Event) (c : Channel)
    → 1 ≤ c.capacity
    → length c.queue ≤ c.capacity
    → e.sequence ≡ now + 1
    → IsSynced cursor now c.queue
    → (length (deliver e c).queue ≤ c.capacity)
      × ((deliver e c).capacity ≡ c.capacity)
      × IsSynced cursor e.sequence (deliver e c).queue
deliver-IsSynced cursor now e c room within next synced =
    elim (Bool-cases (ltb (length c.queue) c.capacity)) [
      | inl fits ↦
          rw (deliver_room e c fits)
            (ground (arith, length-append c.queue (e ∷ [])), refl, appended c.queue synced)
      | inr full ↦ rw (deliver_full e c full room) (room, refl, marker-IsSynced cursor e)
    ]
  where
    appended : (q : List Event) → IsSynced cursor now q → IsSynced cursor e.sequence (q ++ e ∷ [])
    appended q (from_cursor chain last) =
        from_cursor (Chain-append cursor q e chain (next ∙ ap (λ n. n + 1) (sym last)))
          (last_number-append cursor q e)
    appended _ (from_marker {e = m} {q = q} kind chain last) =
        from_marker kind (Chain-append m.sequence q e chain (next ∙ ap (λ n. n + 1) (sym last)))
          (last_number-append m.sequence q e)

lookup-deliver_all :
    (e : Event) (id : ℕ) (m : Map ℕ Channel) {c : Channel}
    → lookup id m ≡ some c
    → lookup id (deliver_all e m) ≡ some (deliver e c)
unfolding lookup deliver_all
lookup-deliver_all e id [] h = cc h
lookup-deliver_all e id ((j, d) ∷ m) {c} h = elim (Bool-cases (j == id)) [
  | inl here ↦ let eq : d ≡ c = ground arith in rw (here, eq) refl
  | inr other ↦ rw other (lookup-deliver_all e id m (rw other at h))
]

-- What `Publish` does to a broker, for an event with a type and below the last number.
publish_eq :
    (now : ℕ) (e : Event) (b : Broker)
    → is_empty e.kind ≡ false
    → b.sequence + 1 < 2 ^ 64
    → (e' : Event) × (e'.sequence ≡ b.sequence + 1)
      × ((publish now e b).sequence ≡ b.sequence + 1)
      × ((publish now e b).subscribers ≡ deliver_all e' b.subscribers)
unfolding publish
publish_eq now e b given small =
    let next : increment b.sequence ≡ b.sequence + 1 = ground arith in
    (
      record e { at = or_now now e.at; sequence = increment b.sequence },
      next,
      rw (given, publish) next,
      rw (given, publish) refl,
    )

-- For a subscriber whose queue follows its cursor without a gap, or begins with a resync marker and
-- has no gap behind it, publishing an event with a type, below the last number, keeps this up to the
-- new event, and keeps the queue within its capacity.
pub publish-IsSynced :
    (now cursor : ℕ) (e : Event) (b : Broker) (id : ℕ) (c : Channel)
    → is_empty e.kind ≡ false
    → b.sequence + 1 < 2 ^ 64
    → lookup id b.subscribers ≡ some c
    → 1 ≤ c.capacity
    → length c.queue ≤ c.capacity
    → IsSynced cursor b.sequence c.queue
    → (c' : Channel) × (lookup id (publish now e b).subscribers ≡ some c')
      × (length c'.queue ≤ c.capacity)
      × (c'.capacity ≡ c.capacity)
      × ((publish now e b).sequence ≡ b.sequence + 1)
      × IsSynced cursor (publish now e b).sequence c'.queue
publish-IsSynced now cursor e b id c given small there room within synced =
    let (e', next, sequence, subscribers) = publish_eq now e b given small in
    let (fits, capacity, synced') =
      deliver-IsSynced cursor b.sequence e' c room within next synced in
    (
      deliver e' c,
      rw subscribers (lookup-deliver_all e' id b.subscribers there),
      fits,
      capacity,
      sequence,
      rw (sequence, ← next) synced',
    )

-- A new subscriber has an empty queue with room for an event, which
-- follows the cursor that it is given, the last number; every other subscriber stays as it is.
pub subscribe_from-IsSynced :
    (buffer : ℕ) (b : Broker)
    → (c : Channel) × (let (b', (id, cursor)) = subscribe_from buffer b in
        (lookup id b'.subscribers ≡ some c)
        × (c.queue ≡ [])
        × (1 ≤ c.capacity)
        × (buffer ≤ c.capacity)
        × (cursor ≡ b.sequence)
        × (b'.sequence ≡ b.sequence)
        × IsSynced cursor b'.sequence c.queue
        × ((k : ℕ) → id ≢ k → lookup k b'.subscribers ≡ lookup k b.subscribers))
unfolding subscribe_from
subscribe_from-IsSynced buffer b =
    let c : Channel = record { capacity = if ltb buffer 1 then 1 else buffer; queue = [] } in
    (
      c,
      (
        lookup-insert_self (increment b.next_id) c b.subscribers,
        refl,
        ground arith,
        ground arith,
        refl,
        refl,
        from_cursor tt refl,
        λ k ne. lookup-insert_ne (increment b.next_id) k c b.subscribers ne,
      ),
    )

-- What a subscriber reads from such a queue is the event behind its cursor or a resync marker, and
-- the rest of the queue follows the number that it has read.
pub receive-IsSynced :
    (cursor now capacity : ℕ) (e : Event) (q : List Event)
    → IsSynced cursor now (e ∷ q)
    → (receive (record { capacity = capacity; queue = e ∷ q })
        ≡ (some e, record { capacity = capacity; queue = q }))
      × ((e.sequence ≡ cursor + 1) ⊎ (e.kind ≡ resync_kind))
      × IsSynced e.sequence now q
unfolding receive
receive-IsSynced cursor now capacity e q (from_cursor chain last) =
    (refl, inl chain.0, from_cursor chain.1 last)
receive-IsSynced cursor now capacity e q (from_marker kind chain last) =
    (refl, inr kind, from_cursor chain last)

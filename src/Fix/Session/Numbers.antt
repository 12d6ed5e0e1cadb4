-- ===== src/Fix/Session/Numbers.antt =====
-- The numbers of what a session sends.
use venuewire.Prelude.{
  All, inl, inr, Bool, not, ◌&&◌, ◌||◌, List, [], ◌∷◌, Text, codes, same, ◌==◌, Bool-cases,
  Result-cases, arith,
}
use venuewire.Fix.Codec.{Message}
use venuewire.Fix.Codec.Fields.{HasIntTag}
use venuewire.Fix.Session.Types.{
  Settings, Conn, Around, Event, cancel, broken_read, message, ticker, application, running,
}
use venuewire.Fix.Session.Sending.{field, send}
use venuewire.Fix.Session.Handling.{
  count_test_request, contains, value_of, message_sequence, handle_logon, handle_test_request,
  deliver, handle_logout, handle_accepted, handle_message, handle, run_events,
}
use venuewire.Fix.Session.Talks.{
  field-HasIntTag, IsNumbered, Talks, Talks-refl, conn_of, Outcome-cases, go_on-Talks, send-OkTalks,
  behind-Talks, handle_tick-Talks, AreTagged,
}

pub handle_test_request-Talks :
    (s : Settings) (a : Around) (m : Message) (c : Conn)
    → Talks c (conn_of (handle_test_request s a m c))
unfolding handle_test_request
handle_test_request-Talks s a m c =
    let c' = record c { stats = count_test_request c.stats } in
    let body = field 112 (value_of 112 m) ∷ [] in
    go_on-Talks a.cancelled c' (send s a.write (codes "0") body c') running
      (send-OkTalks s a.write (codes "0") body c'
        (field-HasIntTag 112 (value_of 112 m) (omega arith), tt))
      Talks-refl

handle_logon-IsNumbered :
    (again : Bool) (a : Around) (c : Conn)
    → IsNumbered c
    → IsNumbered (conn_of (handle_logon again a c))
unfolding handle_logon
handle_logon-IsNumbered again a c h = elim (Bool-cases (c.logged_on || not again)) [
  | inl plain ↦ rw plain h
  | inr hooked ↦ elim (Bool-cases a.hook_ok) [
    | inl fine ↦ rw (hooked, fine) h
    | inr failed ↦ rw (hooked, failed) h
  ]
]

deliver-IsNumbered :
    (a : Around) (m : Message) (c : Conn) → IsNumbered c → IsNumbered (conn_of (deliver a m c))
unfolding deliver
deliver-IsNumbered a m c h = elim (Bool-cases a.hook_ok) [
  | inl fine ↦ rw fine h
  | inr failed ↦ rw failed h
]

-- The tags that `SendApplication` is given are Go's 64-bit `int`.
abbrev pub HasIntTags : Event → Type 0
HasIntTags (application kind fields w) = All HasIntTag fields
HasIntTags (ticker t) = AreTagged t.between
HasIntTags _ = Unit

module _ (to_lower : Text → Text) where
  handle_logout-IsNumbered :
      (s : Settings) (a : Around) (m : Message) (c : Conn)
      → IsNumbered c
      → IsNumbered (conn_of (handle_logout to_lower s a m c))
  unfolding handle_logout
  handle_logout-IsNumbered s a m c h =
      elim (Bool-cases (contains (codes "access denied") (to_lower (value_of 58 m)))) [
        | inl denied ↦ rw denied h
        | inr done ↦ rw done ((behind-Talks s a.write (codes "5") [] c tt).0 h)
      ]

  handle_accepted-IsNumbered :
      (s : Settings) (again : Bool) (a : Around) (m : Message) (c : Conn)
      → IsNumbered c
      → IsNumbered (conn_of (handle_accepted to_lower s again a m c))
  unfolding handle_accepted
  handle_accepted-IsNumbered s again a m c h =
      let t = value_of 35 m in
      elim (Bool-cases (not c.logged_on && not (same t (codes "A")) && not (same t (codes "5")))) [
        | inl early ↦ rw early h
        | inr fine ↦ elim (Bool-cases (same t (codes "A"))) [
          | inl logon ↦ rw (fine, logon) (handle_logon-IsNumbered again a c h)
          | inr not_logon ↦ elim (Bool-cases (same t (codes "0"))) [
            | inl beat ↦ rw (fine, not_logon, beat) h
            | inr not_beat ↦ elim (Bool-cases (same t (codes "1"))) [
              | inl test ↦
                  rw (fine, not_logon, not_beat, test) ((handle_test_request-Talks s a m c).0 h)
              | inr not_test ↦ elim (Bool-cases (same t (codes "5"))) [
                | inl logout ↦
                    rw (fine, not_logon, not_beat, not_test, logout)
                      (handle_logout-IsNumbered s a m c h)
                | inr other ↦
                    rw (fine, not_logon, not_beat, not_test, other) (deliver-IsNumbered a m c h)
              ]
            ]
          ]
        ]
      ]

  handle_message-IsNumbered :
      (s : Settings) (again : Bool) (a : Around) (m : Message) (c : Conn)
      → IsNumbered c
      → IsNumbered (conn_of (handle_message to_lower s again a m c))
  unfolding handle_message
  handle_message-IsNumbered s again a m c h = elim (Result-cases (message_sequence m)) [
    | inl (e, bad) ↦ rw (bad, handle_message, conn_of) h
    | inr (seq, read) ↦ elim (Bool-cases (seq == c.inbound_seq)) [
      | inr gap ↦ rw (read, gap, handle_message, conn_of) h
      | inl next ↦
          rw (read, next, handle_message, conn_of) (handle_accepted-IsNumbered s again a m _ h)
    ]
  ]

  pub handle-IsNumbered :
      (s : Settings) (again : Bool) (e : Event) (c : Conn)
      → HasIntTags e
      → IsNumbered c
      → IsNumbered (conn_of (handle to_lower s again e c))
  unfolding handle
  handle-IsNumbered s again (cancel w) c tags h = (behind-Talks s w (codes "5") [] c tt).0 h
  handle-IsNumbered s again (broken_read cancelled at_end) c tags h = h
  handle-IsNumbered s again (message a m) c tags h = handle_message-IsNumbered s again a m c h
  handle-IsNumbered s again (ticker t) c tags h = (handle_tick-Talks s t c).0 tags h
  handle-IsNumbered s again (application kind fields w) c tags h =
      (behind-Talks s w kind fields c tags).0 h

  pub run_events-IsNumbered :
      (s : Settings) (again : Bool) (es : List Event) (c : Conn)
      → All HasIntTags es
      → IsNumbered c
      → IsNumbered (conn_of (run_events to_lower s again es c))
  unfolding run_events
  run_events-IsNumbered s again [] c tags h = h
  run_events-IsNumbered s again (e ∷ es) c tags h =
      let step = handle-IsNumbered s again e c tags.0 h in
      elim (Outcome-cases (handle to_lower s again e c)) [
        | inl (c', on) ↦
            rw (on, run_events, conn_of)
              (run_events-IsNumbered s again es c' tags.1 (rw (on, conn_of) at step))
        | inr (why, c', stops) ↦ rw (stops, run_events, conn_of) (rw (stops, conn_of) at step)
      ]

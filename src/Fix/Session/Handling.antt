-- ===== src/Fix/Session/Handling.antt =====
-- The loop of `runOnce` in internal/fix/session.go: one function for each case of its `select`.
use venuewire.Prelude.{
  ℕ, suc, ◌+◌, ◌*◌, ◌/◌, ◌^◌, Bool, true, false, not, ◌&&◌, ◌||◌, Option, none, some, List, [], ◌∷◌,
  ◌++◌, leb, ◌==◌, if◌then◌else◌, Text, codes, same, is_empty, Result, ok, err, ◌>>=◌,
}
use venuewire.Prelude.Int.{ℤ, pos}
use venuewire.Fix.Decimal.{atoi, print_nat}
use venuewire.Fix.Bytes.{has_prefix}
use venuewire.Fix.Codec.{Field, Message, get}
use venuewire.Fix.Session.Types.{
  Settings, SessionStats, End, finished, missing_sequence, invalid_sequence, sequence_error,
  expected_logon, access_denied, end_of_stream, read_failed, reconnect_failed, message_failed,
  stale, Write, Conn, Around, Sending, Tick, Event, cancel, broken_read, message, ticker,
  application, Outcome, running, ended,
}
use venuewire.Fix.Session.Sending.{field, send}

-- What is returned: nil once the context is cancelled.
abbrev pub unless_cancelled : Bool → End → End
unless_cancelled true e = finished
unless_cancelled false e = e

-- Go on behind a message that was written, or return the error.
abbrev pub go_on : Bool → Conn → Result End Conn → (Conn → Outcome) → Outcome
go_on cancelled c (ok c') k = k c'
go_on cancelled c (err e) k = ended (unless_cancelled cancelled e) c

abbrev sequence_of : Option ℤ → Result End ℕ
sequence_of (some (pos (suc n))) = ok (suc n)
sequence_of _ = err invalid_sequence

abbrev sequence_text : Option Text → Result End ℕ
sequence_text none = err missing_sequence
sequence_text (some t) = sequence_of (atoi t)

-- `messageSequence`.
unfoldable pub message_sequence : Message → Result End ℕ
message_sequence m = sequence_text (get (pos 34) m.fields)

abbrev text_or_empty : Option Text → Text
text_or_empty none = []
text_or_empty (some t) = t

-- `value, _ := message.Get(tag)`.
unfoldable pub value_of : ℕ → Message → Text
value_of tag m = text_or_empty (get (pos tag) m.fields)

-- `strings.Contains`.
unfoldable pub contains : Text → Text → Bool
contains part [] = is_empty part
contains part (c ∷ s) = has_prefix part (c ∷ s) || contains part s

abbrev pub count_inbound : SessionStats → SessionStats
count_inbound st = record st { inbound = suc st.inbound }

abbrev pub count_sequence_error : SessionStats → SessionStats
count_sequence_error st = record st { sequence_errors = suc st.sequence_errors }

abbrev pub count_reconnect : SessionStats → SessionStats
count_reconnect st = record st { reconnects = suc st.reconnects }

abbrev pub count_heartbeat : SessionStats → SessionStats
count_heartbeat st = record st { heartbeats = suc st.heartbeats }

abbrev pub count_test_request : SessionStats → SessionStats
count_test_request st = record st { test_requests = suc st.test_requests }

-- Whether a message goes to the application.
abbrev pub is_application : Message → Bool
is_application m =
    let t = value_of 35 m in
    not (same t (codes "A") || same t (codes "0") || same t (codes "1") || same t (codes "5"))

-- A Logon, on a first connection or `again`: the callback of `Run` is for the second.
unfoldable pub handle_logon : Bool → Around → Conn → Outcome
handle_logon again a c =
    if c.logged_on || not again
    then running (record c { logged_on = true })
    else if a.hook_ok
    then running (record c { logged_on = true; stats = count_reconnect c.stats })
    else ended (unless_cancelled a.cancelled reconnect_failed)
        (record c { stats = count_reconnect c.stats })

-- A TestRequest is answered by a Heartbeat.
unfoldable pub handle_test_request : Settings → Around → Message → Conn → Outcome
handle_test_request s a m c =
    let c' = record c { stats = count_test_request c.stats } in
    go_on a.cancelled c' (send s a.write (codes "0") (field 112 (value_of 112 m) ∷ []) c') running

abbrev pub behind : Conn → Result End Conn → Conn
behind c (ok c') = c'
behind c (err e) = c

-- `SendApplication` on an active connection: an error is for its caller, and the session goes on.
abbrev pub send_application : Settings → Text → List Field → Write → Conn → Conn
send_application s msg_type fields w c = behind c (send s w msg_type fields c)

unfoldable pub deliver : Around → Message → Conn → Outcome
deliver a m c =
    let c' = record c { delivered = c.delivered ++ (m ∷ []) } in
    if a.hook_ok then running c' else ended (unless_cancelled a.cancelled message_failed) c'

-- The ticker's three parts.
unfoldable pub is_due : Bool → ℕ → ℕ → ℕ → Bool
is_due logged_on last wait now = logged_on && leb (last + wait) now

unfoldable pub send_heartbeat : Settings → Tick → Conn → Result End Conn
unfolding is_due
send_heartbeat s t c =
    if is_due c.logged_on c.last_outbound s.heartbeat t.now
    then (do
      c' ← send s t.heartbeat_write (codes "0") [] c
      ok (record c' { stats = count_heartbeat c'.stats }))
    else ok c

unfoldable pub send_test_request : Settings → Tick → Conn → Result End Conn
unfolding is_due
send_test_request s t c =
    if is_due c.logged_on c.last_inbound (2 * s.heartbeat) t.now && not c.test_outstanding
    then (do
      c' ←
          send s t.test_write (codes "1")
            (field 112 (codes "test-" ++ print_nat (t.now / 10 ^ 6)) ∷ []) c
      ok (record c' { test_outstanding = true; stats = count_test_request c'.stats }))
    else ok c

unfoldable pub check_stale : Settings → Tick → Conn → Outcome
unfolding is_due
check_stale s t c =
    if is_due c.logged_on c.last_inbound (3 * s.heartbeat) t.now
    then ended (unless_cancelled t.cancelled stale) c
    else running c

-- What other goroutines send, one after the other.
unfoldable pub send_each : Settings → List Sending → Conn → Conn
send_each s [] c = c
send_each s (x ∷ xs) c = send_each s xs (send_application s x.kind x.fields x.write c)

-- What is left of a tick behind the heartbeat and what others sent meanwhile.
abbrev pub after_heartbeat : Settings → Tick → Conn → Outcome
after_heartbeat s t c = go_on t.cancelled c (send_test_request s t c) (λ c'. check_stale s t c')

unfoldable pub handle_tick : Settings → Tick → Conn → Outcome
unfolding send_heartbeat send_test_request check_stale send_each
handle_tick s t c =
    go_on t.cancelled c (send_heartbeat s t c)
      (λ c1. after_heartbeat s t (send_each s t.between c1))

module _ (to_lower : Text → Text) where
  -- A Logout ends the connection.
  unfoldable pub handle_logout : Settings → Around → Message → Conn → Outcome
  unfolding contains
  handle_logout s a m c =
      let text = value_of 58 m in
      if contains (codes "access denied") (to_lower text)
      then ended (access_denied text) c
      else ended finished (behind c (send s a.write (codes "5") [] c))

  -- A message in its turn.
  unfoldable pub handle_accepted : Settings → Bool → Around → Message → Conn → Outcome
  unfolding handle_logon handle_test_request handle_logout deliver
  handle_accepted s again a m c =
      let t = value_of 35 m in
      if not c.logged_on && not (same t (codes "A")) && not (same t (codes "5"))
      then ended (expected_logon t) c
      else if same t (codes "A")
      then handle_logon again a c
      else if same t (codes "0")
      then running (record c { test_outstanding = false })
      else if same t (codes "1")
      then handle_test_request s a m c
      else if same t (codes "5")
      then handle_logout s a m c
      else deliver a m c

  unfoldable pub handle_message : Settings → Bool → Around → Message → Conn → Outcome
  unfolding handle_accepted message_sequence
  handle_message s again a m c =
      let c1 = record c { last_inbound = a.now; stats = count_inbound c.stats } in
      elim (message_sequence m) [
        | err e ↦ ended (unless_cancelled a.cancelled e) c1
        | ok seq ↦
            if not (seq == c1.inbound_seq)
            then ended (sequence_error c1.inbound_seq seq)
                (record c1 { stats = count_sequence_error c1.stats })
            else handle_accepted s again a m (record c1 { inbound_seq = suc c1.inbound_seq })
      ]

  unfoldable pub handle : Settings → Bool → Event → Conn → Outcome
  unfolding handle_message handle_tick
  handle s again (cancel w) c = ended finished (behind c (send s w (codes "5") [] c))
  handle s again (broken_read cancelled at_end) c =
      ended (unless_cancelled cancelled (if at_end then end_of_stream else read_failed)) c
  handle s again (message a m) c = handle_message s again a m c
  handle s again (ticker t) c = handle_tick s t c
  handle s again (application msg_type fields w) c =
      running (send_application s msg_type fields w c)

  -- The loop of `runOnce`, over what happens.
  unfoldable pub run_events : Settings → Bool → List Event → Conn → Outcome
  unfolding handle
  run_events s again [] c = running c
  run_events s again (e ∷ es) c = elim (handle s again e c) [
    | running c' ↦ run_events s again es c'
    | ended why c' ↦ ended why c'
  ]

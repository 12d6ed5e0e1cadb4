-- ===== src/Tests/Sessions.antt =====
-- A FIX session that logs on, receives a report, and falls silent.
use venuewire.Prelude.{
  ℕ, ◌≡◌, refl, true, false, some, List, [], ◌∷◌, ◌++◌, Text, codes, same, is_empty, inl, inr,
  arith,
}
use venuewire.Prelude.Int.{pos}
use venuewire.Fix.Decimal.{atoi, print_nat, print_int, digits, digits_value, scan}
use venuewire.Fix.Bytes.{index_byte, has_prefix}
use venuewire.Fix.Codec.{
  Message, sum_from, check_sum, encode, encode_field, encode_body, frame, pad3, header, trailer,
  get,
}
use venuewire.Tests.Wire.{wire}
use venuewire.Fix.Session.Types.{
  Settings, SessionStats, took, Write, Conn, Around, Event, message, ticker, running,
}
use venuewire.Fix.Session.Sending.{field, write_all, envelope, logon_fields, send, send_logon}
use venuewire.Fix.Session.Handling.{
  value_of, message_sequence, contains, handle_logon, handle_test_request, deliver, is_due,
  send_heartbeat, send_test_request, check_stale, handle_tick, handle_logout, handle_accepted,
  handle_message, handle, run_events,
}
use venuewire.Fix.Session.Reconnect.{Session, Attempt, fresh, run_once, run}
use venuewire.Fix.Session.Talks.{conn_of}
use venuewire.Fix.Session.Read.{Reads, run_once-Reads}
use venuewire.Fix.Session.Stale.{has_ended, run_events-ends}
use venuewire.Fix.Session.Inbound.{Follows, run_events-Follows}
use venuewire.Fix.Session.Backoff.{ArePaced, run-ArePaced}

abbrev pub lower : Text → Text
lower t = t

abbrev pub settings : Settings
settings = record {
  sender_comp_id = codes "ME";
  target_comp_id = codes "YOU";
  api_key = codes "key";
  signer = some (λ t. some (codes "sig"));
  heartbeat = 1000000000;
  initial_backoff = 4;
  max_backoff = 10;
}

-- The transport takes five bytes, and then the others.
abbrev pub written : ℕ → Write
written at = record { stamp = codes "t"; answers = took 5 ∷ took 1000 ∷ []; at = at }

abbrev none_yet : SessionStats
none_yet = record {
  inbound = 0;
  outbound = 0;
  reconnects = 0;
  sequence_errors = 0;
  heartbeats = 0;
  test_requests = 0;
}

abbrev session : Session
session = record { stats = none_yet; last_outbound = 0 }

abbrev around : ℕ → Around
around now = record { cancelled = false; now = now; write = written now; hook_ok = true }

abbrev incoming : Text → Text → Message
incoming kind number = record {
  begin_string = codes "FIX.4.4";
  body_length = pos 0;
  check_sum = pos 0;
  fields = field 35 kind ∷ field 34 number ∷ [];
  raw = [];
}

abbrev tick : ℕ → Event
tick now = ticker (record {
  cancelled = false;
  now = now;
  heartbeat_write = written now;
  between = record { kind = codes "D"; fields = []; write = written now } ∷ [];
  test_write = written now;
})

abbrev talk : List Event
talk =
    message (around 5) (incoming (codes "A") (codes "1"))
    ∷ message (around 6) (incoming (codes "8") (codes "2"))
    ∷ []

abbrev attempt : List Event → Attempt
attempt es = record {
  dialled = true;
  logon = written 1;
  now = 1;
  events = es;
  cancelled = false;
  interrupted = false;
  random = 3;
}

abbrev logon_raw : Text
logon_raw = wire (
    codes
      "8=FIX.4.4|9=76|35=A|49=ME|56=YOU|34=1|52=t|98=0|108=1|553=key|95=3|96=sig|141=Y|30023=5000|10=192|")

logs_on :
    (conn_of (run_once lower settings false (attempt talk) session)).sent ≡ [] ++ (logon_raw ∷ [])
unfolding run_once run_events handle handle_message handle_accepted handle_logon handle_test_request
    handle_logout deliver handle_tick send_heartbeat send_test_request check_stale is_due
    message_sequence value_of contains has_prefix get fresh send_logon logon_fields send write_all
    envelope encode encode_body encode_field index_byte print_int print_nat digits frame header
    trailer check_sum sum_from pad3 is_empty same atoi digits_value scan
logs_on = refl

run_once-Reads_example : Reads logon_raw 1
run_once-Reads_example =
    run_once-Reads lower settings false (attempt talk) session [] logon_raw [] (tt, (tt, tt))
      logs_on (omega arith) (omega arith)

abbrev pub start : Conn
unfolding fresh
start = fresh session 1

abbrev after_talk : Conn
after_talk = record {
  outbound_seq = 1;
  inbound_seq = 3;
  logged_on = true;
  test_outstanding = false;
  last_inbound = 6;
  last_outbound = 0;
  stats = record (none_yet) { inbound = 2 };
  sent = [];
  delivered = incoming (codes "8") (codes "2") ∷ [];
}

goes_on : run_events lower settings false talk start ≡ running after_talk
unfolding run_once run_events handle handle_message handle_accepted handle_logon handle_test_request
    handle_logout deliver handle_tick send_heartbeat send_test_request check_stale is_due
    message_sequence value_of contains has_prefix get fresh send_logon logon_fields send write_all
    envelope encode encode_body encode_field index_byte print_int print_nat digits frame header
    trailer check_sum sum_from pad3 is_empty same atoi digits_value scan
goes_on = refl

run_events-Follows_example :
    Follows lower
      (incoming (codes "A") (codes "1") ∷ incoming (codes "8") (codes "2") ∷ [])
      start
      after_talk
run_events-Follows_example = run_events-Follows lower settings false talk start goes_on

run_events-ends_example :
    has_ended (run_events lower settings false (tick 1500000000 ∷ tick 4000000000 ∷ []) after_talk)
    ≡ true
run_events-ends_example =
    run_events-ends lower settings false (tick 1500000000 ∷ tick 4000000000 ∷ []) after_talk refl tt
      (inr (inl (omega arith)))

abbrev unreachable : Attempt
unreachable = record (attempt []) { dialled = false }

-- Two connections fail, the third goes on.
abbrev attempts : List Attempt
attempts = unreachable ∷ unreachable ∷ attempt talk ∷ []

run-ArePaced_example : ArePaced settings 0 (run lower settings attempts session).0
run-ArePaced_example = run-ArePaced lower settings attempts session (omega arith)

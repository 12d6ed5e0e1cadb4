-- ===== src/Fix/Session/Stale.antt =====
-- A silent peer: a connection on which nothing comes in any more ends.
use venuewire.Prelude.{
  ℕ, ◌+◌, ◌*◌, ◌≤◌, ◌≡◌, refl, sym, ◌∙◌, subst, inl, inr, ◌⊎◌, Bool, true, false, List, [], ◌∷◌,
  Text, Result, ok, err, arith,
}
use venuewire.Fix.Session.Types.{
  Settings, End, Conn, Tick, Event, cancel, broken_read, message, ticker, application, Outcome,
  running, ended,
}
use venuewire.Fix.Session.Sending.{send}
use venuewire.Fix.Session.Handling.{
  go_on, behind, is_due, send_heartbeat, send_test_request, check_stale, send_each, handle_tick,
  handle, run_events,
}
use venuewire.Fix.Session.Talks.{
  SameInbound, send_each-SameInbound, Talks, conn_of, Outcome-cases, behind-SameInbound,
  handle_tick-Talks, send_heartbeat-OkTalks, send_test_request-OkTalks,
}

-- No message among the events.
abbrev pub IsSilent : List Event → Type 0
IsSilent [] = Unit
IsSilent (message a m ∷ es) = ⊥
IsSilent (_ ∷ es) = IsSilent es

-- A tick at a time or later among the events.
abbrev pub TicksAt : ℕ → List Event → Type 0
TicksAt t [] = ⊥
TicksAt t (ticker k ∷ es) = (t ≤ k.now) ⊎ TicksAt t es
TicksAt t (_ ∷ es) = TicksAt t es

abbrev pub has_ended : Outcome → Bool
has_ended (running c) = false
has_ended (ended why c) = true

-- The ticker ends a connection that has been silent for three heartbeats.
check_stale-ends :
    (s : Settings) (k : Tick) (c : Conn)
    → c.logged_on ≡ true
    → c.last_inbound + 3 * s.heartbeat ≤ k.now
    → has_ended (check_stale s k c) ≡ true
unfolding check_stale is_due
check_stale-ends s k c on late = ground arith

go_on-ends :
    (cancelled : Bool) (c : Conn) (r : Result End Conn) (f : Conn → Outcome)
    → ((c' : Conn) → r ≡ ok c' → has_ended (f c') ≡ true)
    → has_ended (go_on cancelled c r f) ≡ true
go_on-ends cancelled c (ok c') f h = h c' refl
go_on-ends cancelled c (err e) f h = refl

handle_tick-ends :
    (s : Settings) (k : Tick) (c : Conn)
    → c.logged_on ≡ true
    → c.last_inbound + 3 * s.heartbeat ≤ k.now
    → has_ended (handle_tick s k c) ≡ true
unfolding handle_tick
handle_tick-ends s k c on late = go_on-ends k.cancelled c (send_heartbeat s k c) _ (λ c1 e1.
    let c' = send_each s k.between c1 in
    go_on-ends k.cancelled c' (send_test_request s k c') _ (λ c2 e2.
      let first : Talks c c1 = rw e1 at (send_heartbeat-OkTalks s k c) in
      let second : Talks c' c2 = rw e2 at (send_test_request-OkTalks s k c') in
      let (n', o', l', d') = send_each-SameInbound s k.between c1 in
      let (n1, o1, l1, d1) = first.1 in
      let (n2, o2, l2, d2) = second.1 in
      check_stale-ends s k c2 (o2 ∙ (o' ∙ (o1 ∙ on))) (omega (arith, l2, l', l1, late))))

module _ (to_lower : Text → Text) where
  -- A connection that is logged on and hears no message ends, at the latest at a tick three
  -- heartbeats after the last message, whatever else happens.
  pub run_events-ends :
      (s : Settings) (again : Bool) (es : List Event) (c : Conn)
      → c.logged_on ≡ true
      → IsSilent es
      → TicksAt (c.last_inbound + 3 * s.heartbeat) es
      → has_ended (run_events to_lower s again es c) ≡ true
  unfolding run_events handle
  run_events-ends s again [] c on silent ticks = absurd ticks
  run_events-ends s again (cancel w ∷ es) c on silent ticks = refl
  run_events-ends s again (broken_read cancelled at_end ∷ es) c on silent ticks = refl
  run_events-ends s again (message a m ∷ es) c on silent ticks = absurd silent
  run_events-ends s again (application kind fields w ∷ es) c on silent ticks =
      let (n, o, l, d) = behind-SameInbound s w kind fields c in
      run_events-ends s again es (behind c (send s w kind fields c)) (o ∙ on) silent
        (subst (λ (t : ℕ). TicksAt (t + 3 * s.heartbeat) es) (sym l) ticks)
  run_events-ends s again (ticker k ∷ es) c on silent ticks =
      elim (Outcome-cases (handle_tick s k c)) [
        | inr (why, c', stops) ↦ rw (stops, run_events) refl
        | inl (c', goes) ↦
            let same_inbound : SameInbound c c' =
              rw (goes, conn_of) at (handle_tick-Talks s k c).1 in
            let (n, o, l, d) = same_inbound in
            elim ticks [
              | inl late ↦
                  let ends : false ≡ true =
                    rw (goes, has_ended) at (handle_tick-ends s k c on late) in
                  absurd (ground arith)
              | inr later ↦
                  rw (goes, run_events)
                    (run_events-ends s again es c' (o ∙ on) silent
                      (subst (λ (t : ℕ). TicksAt (t + 3 * s.heartbeat) es) (sym l) later))
            ]
      ]

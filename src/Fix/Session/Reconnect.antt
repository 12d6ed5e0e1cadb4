-- ===== src/Fix/Session/Reconnect.antt =====
-- `runOnce`, `Run` and `sessionJitter` of internal/fix/session.go.
use venuewire.Prelude.{
  ℕ, ◌+◌, ◌*◌, ◌/◌, ◌%◌, Bool, true, false, not, Option, none, some, List, [], ◌∷◌, leb, ltb,
  if◌then◌else◌, Text, ok, err,
}
use venuewire.Fix.Session.Types.{
  Settings, SessionStats, End, finished, dial_failed, access_denied, Write, Conn, Event, Outcome,
  running, ended,
}
use venuewire.Fix.Session.Sending.{send_logon}
use venuewire.Fix.Session.Handling.{run_events}

-- What a session keeps between connections.
pub record Session : Type 0 where
  pub stats : SessionStats
  pub last_outbound : ℕ

-- One connection: whether the dialer succeeds, the Logon and the time at which it is made, and what
-- happens then.
pub record Attempt : Type 0 where
  pub dialled : Bool
  pub logon : Write
  pub now : ℕ
  pub events : List Event
  -- Whether the context is cancelled behind it, and while the next attempt is waited for.
  pub cancelled : Bool
  pub interrupted : Bool
  -- What the random number generator draws.
  pub random : ℕ

unfoldable pub fresh : Session → ℕ → Conn
fresh st now = record {
  outbound_seq = 1;
  inbound_seq = 1;
  logged_on = false;
  test_outstanding = false;
  last_inbound = now;
  last_outbound = st.last_outbound;
  stats = st.stats;
  sent = [];
  delivered = [];
}

abbrev pub kept : Conn → Session
kept c = record { stats = c.stats; last_outbound = c.last_outbound }

-- How a run of the session ends; `trying` where it still goes on.
pub data RunEnd : Type 0 where
  stopped trying : RunEnd
  denied : Text → RunEnd

-- `sessionJitter`.
unfoldable pub jitter : ℕ → ℕ → ℕ
jitter base random = if leb base 1 then base else base / 2 + random % (base / 2)

-- The next wait.
unfoldable pub next_backoff : Settings → ℕ → ℕ
next_backoff s backoff = if ltb s.max_backoff (2 * backoff) then s.max_backoff else 2 * backoff

-- What `Run` does about an error: nothing more, or another attempt.
unfoldable pub gives_up : End → Option RunEnd
gives_up finished = some stopped
gives_up (access_denied t) = some (denied t)
gives_up _ = none

module _ (to_lower : Text → Text) where
  -- `runOnce`; `again` is for a connection behind the first.
  unfoldable pub run_once : Settings → Bool → Attempt → Session → Outcome
  unfolding run_events fresh
  run_once s again a st =
      let c = fresh st a.now in
      if not a.dialled then ended dial_failed c else elim (send_logon s a.now a.logon c) [
        | err e ↦ ended e c
        | ok c' ↦ run_events to_lower s again a.events c'
      ]

  -- `Run`: the waits between the connections, and how it ends.
  unfoldable pub run_from : Settings → ℕ → Bool → List Attempt → Session → List ℕ × RunEnd
  unfolding run_once jitter next_backoff gives_up
  run_from s backoff again [] st = ([], trying)
  run_from s backoff again (a ∷ rest) st = elim (run_once s again a st) [
    | running c ↦ ([], trying)
    | ended e c ↦ elim a.cancelled [
      | true ↦ ([], stopped)
      | false ↦ elim (gives_up e) [
        | some how ↦ ([], how)
        | none ↦ elim a.interrupted [
          | true ↦ (jitter backoff a.random ∷ [], stopped)
          | false ↦
              let (waits, how) = run_from s (next_backoff s backoff) true rest (kept c) in
              (jitter backoff a.random ∷ waits, how)
        ]
      ]
    ]
  ]

  unfoldable pub run : Settings → List Attempt → Session → List ℕ × RunEnd
  unfolding run_from
  run s attempts st = run_from s s.initial_backoff false attempts st

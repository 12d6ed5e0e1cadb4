-- ===== src/Fix/Session/Inbound.antt =====
-- What a session accepts: the messages of the peer in their order, from a Logon on.
use venuewire.Prelude.{
  ℕ, suc, ◌+◌, ◌≡◌, ◌⊎◌, ap, sym, ◌∙◌, subst, inl, inr, Bool, true, List, [], ◌∷◌, ◌++◌, length,
  append_assoc, append-nil, Text, codes, same, ok, Bool-cases, arith,
}
use venuewire.Fix.Codec.{Message}
use venuewire.Fix.Session.Types.{
  Settings, Conn, Event, cancel, broken_read, message, ticker, application, running,
}
use venuewire.Fix.Session.Sending.{send}
use venuewire.Fix.Session.Handling.{
  behind, value_of, message_sequence, is_application, handle_tick, handle_message, handle,
  run_events,
}
use venuewire.Fix.Session.Talks.{
  SameInbound, conn_of, Outcome-cases, behind-SameInbound, handle_tick-Talks,
}
use venuewire.Fix.Session.Accepting.{applications, IsAccepted, message-running}

-- The messages among the events.
abbrev pub received : List Event → List Message
received [] = []
received (message a m ∷ es) = m ∷ received es
received (_ ∷ es) = received es

-- What a session may accept: numbers one after the other, and a Logon first.
abbrev pub IsConversation : Bool → ℕ → List Message → Type 0
IsConversation logged_on n [] = Unit
IsConversation logged_on n (m ∷ ms) =
    (message_sequence m ≡ ok n)
    × ((logged_on ≡ true) ⊎ (same (value_of 35 m) (codes "A") ≡ true))
    × IsConversation true (suc n) ms

handed_over :
    (before : List Message) (m : Message) (ms : List Message)
    → (before ++ applications (m ∷ [])) ++ applications ms ≡ before ++ applications (m ∷ ms)
handed_over before m ms = elim (Bool-cases (is_application m)) [
  | inl given ↦ rw (given, applications) (append_assoc before (m ∷ []) (applications ms))
  | inr kept ↦
      rw (kept, applications) (ap (λ (l : List Message). l ++ applications ms) (append-nil before))
]

module _ (to_lower : Text → Text) where
  rest-IsConversation :
      (ms : List Message) {m : Message} (c c1 c2 : Conn)
      → IsAccepted m c1 c2
      → c1.inbound_seq ≡ suc c.inbound_seq
      → IsConversation c2.logged_on c2.inbound_seq ms
      → IsConversation true (suc c.inbound_seq) ms
  rest-IsConversation ms c c1 c2 step next h =
      subst (λ (b : Bool). IsConversation b (suc c.inbound_seq) ms) step.logged_on
        (subst (λ (k : ℕ). IsConversation c2.logged_on k ms) (step.next ∙ next) h)

  -- What the messages among the events leave of the connection.
  pub record Follows (ms : List Message) (c c' : Conn) : Type 0 where
    pub conversation : IsConversation c.logged_on c.inbound_seq ms
    pub next : c'.inbound_seq ≡ c.inbound_seq + length ms
    pub delivered : c'.delivered ≡ c.delivered ++ applications ms

  quiet-Follows :
      (ms : List Message) (c c1 c' : Conn) → SameInbound c c1 → Follows ms c1 c' → Follows ms c c'
  quiet-Follows ms c c1 c' (n, o, l, d) f = record {
    conversation =
        subst (λ (b : Bool). IsConversation b c.inbound_seq ms) o
          (subst (λ (k : ℕ). IsConversation c1.logged_on k ms) n f.conversation);
    next = f.next ∙ ap (λ (k : ℕ). k + length ms) n;
    delivered = f.delivered ∙ ap (λ (l : List Message). l ++ applications ms) d;
  }

  -- While a connection goes on, the messages that came in on it are numbered one after the other from
  -- the number that it expected, the first is a Logon where it was not logged on, and exactly those
  -- for the application were handed over, in their order.
  pub run_events-Follows :
      (s : Settings) (again : Bool) (es : List Event) (c : Conn) {c' : Conn}
      → run_events to_lower s again es c ≡ running c'
      → Follows (received es) c c'
  unfolding run_events handle
  run_events-Follows s again [] c {c'} h =
      let same_conn : c ≡ c' = ground arith in
      let stays : Follows [] c c = record {
        conversation = tt;
        next = omega arith;
        delivered = sym (append-nil c.delivered);
      } in
      subst (λ (x : Conn). Follows [] c x) same_conn stays
  run_events-Follows s again (cancel w ∷ es) c {c'} h = absurd (ground arith)
  run_events-Follows s again (broken_read cancelled at_end ∷ es) c {c'} h = absurd (ground arith)
  run_events-Follows s again (application kind fields w ∷ es) c {c'} h =
      quiet-Follows (received es) c (behind c (send s w kind fields c)) c'
        (behind-SameInbound s w kind fields c)
        (run_events-Follows s again es (behind c (send s w kind fields c)) h)
  run_events-Follows s again (ticker k ∷ es) c {c'} h = elim (Outcome-cases (handle_tick s k c)) [
    | inr (why, c1, stops) ↦ absurd (ground arith)
    | inl (c1, goes) ↦
        let same_inbound : SameInbound c c1 = rw (goes, conn_of) at (handle_tick-Talks s k c).1 in
        quiet-Follows (received es) c c1 c' same_inbound
          (run_events-Follows s again es c1 (rw (goes, run_events) at h))
  ]
  run_events-Follows s again (message a m ∷ es) c {c'} h =
      elim (Outcome-cases (handle_message to_lower s again a m c)) [
        | inr (why, c1, stops) ↦ absurd (ground arith)
        | inl (c2, goes) ↦
            let (number, c1, step, next, on, kept) = message-running to_lower s again a m c goes in
            let f = run_events-Follows s again es c2 (rw (goes, run_events) at h) in
            record {
              conversation = (
                number,
                subst (λ (b : Bool). (b ≡ true) ⊎ (same (value_of 35 m) (codes "A") ≡ true)) on
                    step.introduced,
                rest-IsConversation (received es) c c1 c2 step next f.conversation,
              );
              next = f.next ∙ omega (arith, step.next, next);
              delivered =
                  f.delivered
                  ∙ (ap (λ (l : List Message). l ++ applications (received es))
                        (step.delivered
                          ∙ ap (λ (l : List Message). l ++ applications (m ∷ [])) kept)
                      ∙ handed_over c.delivered m (received es));
            }
      ]

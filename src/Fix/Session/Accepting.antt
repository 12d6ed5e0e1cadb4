-- ===== src/Fix/Session/Accepting.antt =====
-- One message that a session accepts.
use venuewire.Prelude.{
  suc, ◌≡◌, ◌⊎◌, refl, ap, sym, ◌∙◌, subst, inl, inr, Bool, true, false, List, [], ◌∷◌, ◌++◌,
  append-nil, if◌then◌else◌, Text, codes, same, same_iff, ◌==◌, ==_iff, ok, Bool-cases,
  Result-cases, arith,
}
use venuewire.Fix.Codec.{Message}
use venuewire.Fix.Session.Types.{Settings, Conn, Around, running}
use venuewire.Fix.Session.Handling.{
  count_inbound, value_of, message_sequence, is_application, handle_logon, handle_test_request,
  deliver, handle_logout, handle_accepted, handle_message,
}
use venuewire.Fix.Session.Talks.{SameInbound, Talks, conn_of}
use venuewire.Fix.Session.Numbers.{handle_test_request-Talks}

-- Those for the application.
abbrev pub applications : List Message → List Message
applications [] = []
applications (m ∷ ms) = if is_application m then m ∷ applications ms else applications ms

-- One accepted message.
pub record IsAccepted (m : Message) (c c' : Conn) : Type 0 where
  pub introduced : (c.logged_on ≡ true) ⊎ (same (value_of 35 m) (codes "A") ≡ true)
  pub logged_on : c'.logged_on ≡ true
  pub next : c'.inbound_seq ≡ c.inbound_seq
  pub delivered : c'.delivered ≡ c.delivered ++ applications (m ∷ [])

test_request-running :
    (s : Settings) (a : Around) (m : Message) (c : Conn) {c' : Conn}
    → handle_test_request s a m c ≡ running c'
    → SameInbound c c'
test_request-running s a m c {c'} h =
    let talks : Talks c c' = rw (h, conn_of) at (handle_test_request-Talks s a m c) in talks.1

logon-running :
    (again : Bool) (a : Around) (c : Conn) {c' : Conn}
    → handle_logon again a c ≡ running c'
    → (c'.logged_on ≡ true) × (c'.inbound_seq ≡ c.inbound_seq) × (c'.delivered ≡ c.delivered)
unfolding handle_logon
logon-running again a c {c'} h = ground arith

deliver-running :
    (a : Around) (m : Message) (c : Conn) {c' : Conn}
    → deliver a m c ≡ running c'
    → (c'.logged_on ≡ c.logged_on)
      × (c'.inbound_seq ≡ c.inbound_seq)
      × (c'.delivered ≡ c.delivered ++ (m ∷ []))
unfolding deliver
deliver-running a m c {c'} h = ground arith

differs : (t a b : Text) → same t a ≡ true → same a b ≡ false → same t b ≡ false
differs t a b h d = subst (λ (x : Text). same x b ≡ false) (sym ((same_iff t a).0 h)) d

logout_differs : (same (codes "5") (codes "0") ≡ false) × (same (codes "5") (codes "1") ≡ false)
unfolding same
logout_differs = (refl, refl)

module _ (to_lower : Text → Text) where
  logout-running :
      (s : Settings) (a : Around) (m : Message) (c : Conn) {c' : Conn}
      → handle_logout to_lower s a m c ≡ running c'
      → ⊥
  unfolding handle_logout
  logout-running s a m c {c'} h = ground arith

  handle_accepted-IsAccepted :
      (s : Settings) (again : Bool) (a : Around) (m : Message) (c : Conn) {c' : Conn}
      → handle_accepted to_lower s again a m c ≡ running c'
      → IsAccepted m c c'
  unfolding handle_accepted
  handle_accepted-IsAccepted s again a m c {c'} h =
      let t = value_of 35 m in
      elim (Bool-cases (same t (codes "A"))) [
        | inl logon ↦
            let made : handle_logon again a c ≡ running c' = ground arith in
            let (on, next, kept) = logon-running again a c made in
            record {
              introduced = inr logon;
              logged_on = on;
              next = next;
              delivered = rw logon (kept ∙ sym (append-nil c.delivered));
            }
        | inr not_logon ↦ elim (Bool-cases c.logged_on) [
          | inr off ↦ elim (Bool-cases (same t (codes "5"))) [
            | inr other ↦ absurd (ground arith)
            | inl logout ↦
                let not_beat : same t (codes "0") ≡ false =
                  differs t (codes "5") (codes "0") logout logout_differs.0 in
                let not_test : same t (codes "1") ≡ false =
                  differs t (codes "5") (codes "1") logout logout_differs.1 in
                let made : handle_logout to_lower s a m c ≡ running c' = ground arith in
                absurd (logout-running s a m c made)
          ]
          | inl on ↦ elim (Bool-cases (same t (codes "0"))) [
            | inl beat ↦
                let eq : running (record c { test_outstanding = false }) ≡ running c' =
                  ground arith in
                record {
                  introduced = inl on;
                  logged_on = ground arith;
                  next = ground arith;
                  delivered = rw (not_logon, beat) (ground (arith, append-nil c.delivered));
                }
            | inr not_beat ↦ elim (Bool-cases (same t (codes "1"))) [
              | inl test ↦
                  let made : handle_test_request s a m c ≡ running c' = ground arith in
                  let (next, on', last, kept) = test_request-running s a m c made in
                  record {
                    introduced = inl on;
                    logged_on = on' ∙ on;
                    next = next;
                    delivered =
                        rw (not_logon, not_beat, test) (kept ∙ sym (append-nil c.delivered));
                  }
              | inr not_test ↦ elim (Bool-cases (same t (codes "5"))) [
                | inl logout ↦
                    let made : handle_logout to_lower s a m c ≡ running c' = ground arith in
                    absurd (logout-running s a m c made)
                | inr other ↦
                    let made : deliver a m c ≡ running c' = ground arith in
                    let (on', next, more) = deliver-running a m c made in
                    record {
                      introduced = inl on;
                      logged_on = on' ∙ on;
                      next = next;
                      delivered = rw (not_logon, not_beat, not_test, other) more;
                    }
              ]
            ]
          ]
        ]
      ]

  pub message-running :
      (s : Settings) (again : Bool) (a : Around) (m : Message) (c : Conn) {c' : Conn}
      → handle_message to_lower s again a m c ≡ running c'
      → (message_sequence m ≡ ok c.inbound_seq)
        × (c1 : Conn) × IsAccepted m c1 c'
        × (c1.inbound_seq ≡ suc c.inbound_seq)
        × (c1.logged_on ≡ c.logged_on)
        × (c1.delivered ≡ c.delivered)
  unfolding handle_message
  message-running s again a m c {c'} h = elim (Result-cases (message_sequence m)) [
    | inl (e, bad) ↦ absurd (ground arith)
    | inr (seq, read) ↦ elim (Bool-cases (seq == c.inbound_seq)) [
      | inr gap ↦ absurd (ground arith)
      | inl next ↦
          let c1 = record c {
            last_inbound = a.now;
            stats = count_inbound c.stats;
            inbound_seq = suc c.inbound_seq;
          } in
          let made : handle_accepted to_lower s again a m c1 ≡ running c' =
            rw (read, next, handle_message) at h in
          (
            read ∙ ap ok ((==_iff seq c.inbound_seq).0 next),
            c1,
            handle_accepted-IsAccepted s again a m c1 made,
            refl,
            refl,
            refl,
          )
    ]
  ]

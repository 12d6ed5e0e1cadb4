-- ===== src/Fix/Session/Talks.antt =====
-- What sending leaves as it is, and the numbers of what was sent.
use venuewire.Prelude.{
  ℕ, suc, ◌+◌, ◌*◌, ◌/◌, ◌^◌, ◌≤◌, ◌≡◌, ◌⊎◌, All, refl, ap, sym, ◌∙◌, subst, inl, inr, Bool, not,
  ◌&&◌, List, [], ◌∷◌, ◌++◌, length, Text, codes, Result, ok, err, Bool-cases, Result-cases, arith,
}
use venuewire.Fix.Decimal.{print_nat, max_int}
use venuewire.Fix.Codec.{Field, encode}
use venuewire.Fix.Codec.Fields.{HasIntTag}
use venuewire.Fix.Session.Types.{Settings, End, Write, Conn, Sending, Tick, Outcome, running, ended}
use venuewire.Fix.Session.Sending.{field, envelope, wrote, send}
use venuewire.Fix.Session.Sent.{send-ok}
use venuewire.Fix.Session.Handling.{
  go_on, behind, is_due, send_heartbeat, send_test_request, check_stale, send_each, after_heartbeat,
  handle_tick,
}

pub field-HasIntTag : (tag : ℕ) (value : Text) → tag ≤ max_int → HasIntTag (field tag value)
field-HasIntTag tag value h = λ n e. ground arith

-- An encoded message with a sequence number.
pub record IsStamped (n : ℕ) (raw : Text) : Type 0 where
  pub settings : Settings
  pub write : Write
  pub kind : Text
  pub body : List Field
  pub int_tags : All HasIntTag body
  pub encoded : encode (codes "FIX.4.4") (envelope settings write kind n ++ body) ≡ ok raw

-- Encoded messages with the numbers from `n` on.
abbrev pub AreNumbered : ℕ → List Text → Type 0
AreNumbered n [] = Unit
AreNumbered n (raw ∷ rest) = IsStamped n raw × AreNumbered (suc n) rest

pub AreNumbered-snoc :
    (n : ℕ) (raws : List Text) (raw : Text)
    → AreNumbered n raws
    → IsStamped (n + length raws) raw
    → AreNumbered n (raws ++ (raw ∷ []))
AreNumbered-snoc n [] raw h l = (subst (λ (k : ℕ). IsStamped k raw) (omega arith) l, tt)
AreNumbered-snoc n (x ∷ raws) raw h l = (
  h.0,
  AreNumbered-snoc (suc n) raws raw h.1 (subst (λ (k : ℕ). IsStamped k raw) (omega arith) l),
)

length-snoc : (raws : List Text) (raw : Text) → length (raws ++ (raw ∷ [])) ≡ suc (length raws)
length-snoc [] raw = refl
length-snoc (x ∷ raws) raw = ap suc (length-snoc raws raw)

-- The messages sent on a connection are numbered from one, and the next number follows.
abbrev pub IsNumbered : Conn → Type 0
IsNumbered c = AreNumbered 1 c.sent × (c.outbound_seq ≡ suc (length c.sent))

abbrev pub SameInbound : Conn → Conn → Type 0
SameInbound c c' =
    (c'.inbound_seq ≡ c.inbound_seq)
    × (c'.logged_on ≡ c.logged_on)
    × (c'.last_inbound ≡ c.last_inbound)
    × (c'.delivered ≡ c.delivered)

-- From one state to another nothing but sending was done.
abbrev pub Talks : Conn → Conn → Type 0
Talks c c' = (IsNumbered c → IsNumbered c') × SameInbound c c'

pub Talks-refl : (c : Conn) → Talks c c
Talks-refl c = ((λ h. h), (refl, refl, refl, refl))

pub Talks-trans : (a b c : Conn) → Talks a b → Talks b c → Talks a c
Talks-trans a b c (f, (p, q, r, u)) (g, (p', q', r', u')) =
    ((λ h. g (f h)), (p' ∙ p, q' ∙ q, r' ∙ r, u' ∙ u))

wrote-IsNumbered :
    (s : Settings) (w : Write) (kind : Text) (body : List Field) (c : Conn) (raw : Text)
    → All HasIntTag body
    → encode (codes "FIX.4.4") (envelope s w kind c.outbound_seq ++ body) ≡ ok raw
    → IsNumbered c
    → IsNumbered (wrote w raw c)
wrote-IsNumbered s w kind body c raw tags e (all, next) =
    let stamped : IsStamped c.outbound_seq raw = record {
      settings = s;
      write = w;
      kind = kind;
      body = body;
      int_tags = tags;
      encoded = e;
    } in
    (
      AreNumbered-snoc 1 c.sent raw all
          (subst (λ (k : ℕ). IsStamped k raw) (next ∙ omega arith) stamped),
      ap suc (next ∙ sym (length-snoc c.sent raw)),
    )

pub send-Talks :
    (s : Settings) (w : Write) (kind : Text) (body : List Field) (c : Conn) {c' : Conn}
    → All HasIntTag body
    → send s w kind body c ≡ ok c'
    → Talks c c'
send-Talks s w kind body c {c'} tags h =
    let (raw, encoded, eq) = send-ok s w kind body c h in
    let step : Talks c (wrote w raw c) =
      ((λ i. wrote-IsNumbered s w kind body c raw tags encoded i), (refl, refl, refl, refl)) in
    subst (λ (x : Conn). Talks c x) (sym eq) step

pub behind-Talks :
    (s : Settings) (w : Write) (kind : Text) (body : List Field) (c : Conn)
    → All HasIntTag body
    → Talks c (behind c (send s w kind body c))
behind-Talks s w kind body c tags = elim (Result-cases (send s w kind body c)) [
  | inl (e, failed) ↦ rw failed (Talks-refl c)
  | inr (c', sent) ↦ rw sent (send-Talks s w kind body c tags sent)
]

-- Whatever the fields are.
pub behind-SameInbound :
    (s : Settings) (w : Write) (kind : Text) (body : List Field) (c : Conn)
    → SameInbound c (behind c (send s w kind body c))
behind-SameInbound s w kind body c = elim (Result-cases (send s w kind body c)) [
  | inl (e, failed) ↦ rw failed (refl, refl, refl, refl)
  | inr (c', sent) ↦
      let (raw, encoded, eq) = send-ok s w kind body c sent in
      let step : SameInbound c (wrote w raw c) = (refl, refl, refl, refl) in rw (sent, eq) step
]

abbrev pub conn_of : Outcome → Conn
conn_of (running c) = c
conn_of (ended e c) = c

-- To split on how an event was handled and keep the equation.
pub Outcome-cases :
    (o : Outcome) → ((c : Conn) × (o ≡ running c)) ⊎ ((e : End) × (c : Conn) × (o ≡ ended e c))
Outcome-cases (running c) = inl (c, refl)
Outcome-cases (ended e c) = inr (e, c, refl)

-- The state of a result that is one.
abbrev pub OkTalks : Conn → Result End Conn → Type 0
OkTalks c (ok c') = Talks c c'
OkTalks c (err e) = Unit

-- What goes on behind a message that was written.
pub go_on-Talks :
    (cancelled : Bool) (c : Conn) (r : Result End Conn) (k : Conn → Outcome)
    → OkTalks c r
    → ((c' : Conn) → Talks c' (conn_of (k c')))
    → Talks c (conn_of (go_on cancelled c r k))
go_on-Talks cancelled c (ok c') k h rest = Talks-trans c c' (conn_of (k c')) h (rest c')
go_on-Talks cancelled c (err e) k h rest = Talks-refl c

pub send-OkTalks :
    (s : Settings) (w : Write) (kind : Text) (body : List Field) (c : Conn)
    → All HasIntTag body
    → OkTalks c (send s w kind body c)
send-OkTalks s w kind body c tags = elim (Result-cases (send s w kind body c)) [
  | inl (e, failed) ↦ rw failed tt
  | inr (c', sent) ↦ rw sent (send-Talks s w kind body c tags sent)
]

pub send_heartbeat-OkTalks : (s : Settings) (t : Tick) (c : Conn) → OkTalks c (send_heartbeat s t c)
unfolding send_heartbeat
send_heartbeat-OkTalks s t c =
    elim (Bool-cases (is_due c.logged_on c.last_outbound s.heartbeat t.now)) [
      | inr early ↦ rw early (Talks-refl c)
      | inl due ↦ elim (Result-cases (send s t.heartbeat_write (codes "0") [] c)) [
        | inl (why, failed) ↦ rw (due, failed) tt
        | inr (c1, written) ↦
            rw (due, written) (send-Talks s t.heartbeat_write (codes "0") [] c tt written)
      ]
    ]

pub send_test_request-OkTalks :
    (s : Settings) (t : Tick) (c : Conn) → OkTalks c (send_test_request s t c)
unfolding send_test_request
send_test_request-OkTalks s t c =
    let body = field 112 (codes "test-" ++ print_nat (t.now / 10 ^ 6)) ∷ [] in
    elim (Bool-cases
      (is_due c.logged_on c.last_inbound (2 * s.heartbeat) t.now && not c.test_outstanding)) [
        | inr early ↦ rw early (Talks-refl c)
        | inl due ↦ elim (Result-cases (send s t.test_write (codes "1") body c)) [
          | inl (why, failed) ↦ rw (due, failed) tt
          | inr (c1, written) ↦
              rw (due, written)
                (send-Talks s t.test_write (codes "1") body c
                  (
                    field-HasIntTag 112 (codes "test-" ++ print_nat (t.now / 10 ^ 6)) (omega arith),
                    tt,
                  )
                  written)
        ]
      ]

check_stale-Talks : (s : Settings) (t : Tick) (c : Conn) → Talks c (conn_of (check_stale s t c))
unfolding check_stale
check_stale-Talks s t c =
    elim (Bool-cases (is_due c.logged_on c.last_inbound (3 * s.heartbeat) t.now)) [
      | inl late ↦ rw late (Talks-refl c)
      | inr fresh ↦ rw fresh (Talks-refl c)
    ]

SameInbound-trans : (a b c : Conn) → SameInbound a b → SameInbound b c → SameInbound a c
SameInbound-trans a b c (p, q, r, u) (p', q', r', u') = (p' ∙ p, q' ∙ q, r' ∙ r, u' ∙ u)

pub send_each-SameInbound :
    (s : Settings) (xs : List Sending) (c : Conn) → SameInbound c (send_each s xs c)
unfolding send_each
send_each-SameInbound s [] c = (refl, refl, refl, refl)
send_each-SameInbound s (x ∷ xs) c =
    let c1 = behind c (send s x.write x.kind x.fields c) in
    SameInbound-trans c c1 (send_each s xs c1) (behind-SameInbound s x.write x.kind x.fields c)
      (send_each-SameInbound s xs c1)

-- The tags of what is sent are integers.
abbrev pub AreTagged : List Sending → Type 0
AreTagged xs = All (λ x. All HasIntTag x.fields) xs

send_each-IsNumbered :
    (s : Settings) (xs : List Sending) (c : Conn)
    → AreTagged xs
    → IsNumbered c
    → IsNumbered (send_each s xs c)
unfolding send_each
send_each-IsNumbered s [] c tags h = h
send_each-IsNumbered s (x ∷ xs) c tags h =
    send_each-IsNumbered s xs (behind c (send s x.write x.kind x.fields c)) tags.1
      ((behind-Talks s x.write x.kind x.fields c tags.0).0 h)

after_heartbeat-Talks :
    (s : Settings) (t : Tick) (c : Conn) → Talks c (conn_of (after_heartbeat s t c))
after_heartbeat-Talks s t c =
    go_on-Talks t.cancelled c (send_test_request s t c) _ (send_test_request-OkTalks s t c)
      (λ c1. check_stale-Talks s t c1)

-- A tick only sends, and numbers what it sends where the tags of the others are integers.
pub handle_tick-Talks :
    (s : Settings) (t : Tick) (c : Conn)
    → (AreTagged t.between → IsNumbered c → IsNumbered (conn_of (handle_tick s t c)))
      × SameInbound c (conn_of (handle_tick s t c))
unfolding handle_tick
handle_tick-Talks s t c = elim (Result-cases (send_heartbeat s t c)) [
  | inl (e, failed) ↦ rw (failed, conn_of) (λ tags h. h, (refl, refl, refl, refl))
  | inr (c1, beat) ↦
      let first : Talks c c1 = rw beat at (send_heartbeat-OkTalks s t c) in
      let c2 = send_each s t.between c1 in
      let rest = after_heartbeat-Talks s t c2 in
      let end = conn_of (after_heartbeat s t c2) in
      rw beat (
        λ tags h. rest.0 (send_each-IsNumbered s t.between c1 tags (first.0 h)),
        SameInbound-trans c c1 end first.1
            (SameInbound-trans c1 c2 end (send_each-SameInbound s t.between c1) rest.1),
      )
]

-- ===== src/Fix/Session/Read.antt =====
-- What the peer of a session reads: the messages of a connection, numbered one after the other.
use venuewire.Prelude.{
  ℕ, suc, ◌+◌, ◌≤◌, ◌≡◌, refl, All, ap, ◌∙◌, subst, inl, inr, Bool, List, [], ◌∷◌, ◌++◌, length,
  ◌/◌, ◌^◌, is_empty, some, Text, codes, ok, Bool-cases, Result-cases, arith,
}
use venuewire.Prelude.Int.{pos}
use venuewire.Fix.Decimal.{print_nat, max_int}
use venuewire.Fix.Decimal.RoundTrip.{atoi-print_nat}
use venuewire.Fix.Bytes.{soh}
use venuewire.Fix.Bytes.Search.{Lacks}
use venuewire.Fix.Codec.{Field, Message, get, parse_strict}
use venuewire.Fix.Codec.Fields.{HasIntTag}
use venuewire.Fix.Codec.RoundTrip.{parse_strict-encode}
use venuewire.Fix.Session.Types.{Settings, Write, Conn}
use venuewire.Fix.Session.Sending.{envelope, logon_fields, signed, send_logon}
use venuewire.Fix.Session.Handling.{message_sequence}
use venuewire.Fix.Session.Reconnect.{Session, Attempt, fresh, run_once}
use venuewire.Fix.Session.Talks.{
  field-HasIntTag, IsStamped, AreNumbered, IsNumbered, conn_of, OkTalks, send-OkTalks, Talks,
}
use venuewire.Fix.Session.Numbers.{HasIntTags, run_events-IsNumbered}

begin_Lacks : Lacks soh (codes "FIX.4.4")
begin_Lacks = ground arith

-- A text that reads as a message with a number.
pub record Reads (raw : Text) (n : ℕ) : Type 0 where
  pub message : Message
  pub parsed : parse_strict raw ≡ ok message
  pub numbered : message_sequence message ≡ ok n

get-envelope :
    (s : Settings) (w : Write) (kind : Text) (n : ℕ) (body : List Field)
    → get (pos 34) (envelope s w kind n ++ body) ≡ some (print_nat n)
unfolding get envelope
get-envelope s w kind n body = refl

numbered_of :
    (m : Message) (n : ℕ)
    → get (pos 34) m.fields ≡ some (print_nat (suc n))
    → suc n ≤ max_int
    → message_sequence m ≡ ok (suc n)
unfolding message_sequence
numbered_of m n h fits = rw (h, atoi-print_nat (suc n) fits, message_sequence) refl

envelope_tags :
    (s : Settings) (w : Write) (kind : Text) (n : ℕ) (body : List Field)
    → All HasIntTag body
    → All HasIntTag (envelope s w kind n ++ body)
unfolding envelope
envelope_tags s w kind n body h = (
  field-HasIntTag 35 kind (omega arith),
  (
    field-HasIntTag 49 s.sender_comp_id (omega arith),
    (
      field-HasIntTag 56 s.target_comp_id (omega arith),
      (
        field-HasIntTag 34 (print_nat n) (omega arith),
        (field-HasIntTag 52 w.stamp (omega arith), h),
      ),
    ),
  ),
)

stamped-Reads :
    (n : ℕ) (raw : Text)
    → IsStamped (suc n) raw
    → suc n ≤ max_int
    → length raw ≤ max_int
    → Reads raw (suc n)
stamped-Reads n raw h fits size =
    let (m, parsed, begins, fields, raws) =
      parse_strict-encode (codes "FIX.4.4") (envelope h.settings h.write h.kind (suc n) ++ h.body)
        h.encoded begin_Lacks (envelope_tags h.settings h.write h.kind (suc n) h.body h.int_tags)
        size in
    record {
      message = m;
      parsed = parsed;
      numbered =
          numbered_of m n
            (ap (λ (fs : List Field). get (pos 34) fs) fields
              ∙ get-envelope h.settings h.write h.kind (suc n) h.body)
            fits;
    }

at_split :
    (n : ℕ) (before : List Text) (raw : Text) (after : List Text)
    → AreNumbered n (before ++ (raw ∷ after))
    → IsStamped (n + length before) raw
at_split n [] raw after h = subst (λ (k : ℕ). IsStamped k raw) (omega arith) h.0
at_split n (x ∷ before) raw after h =
    subst (λ (k : ℕ). IsStamped k raw) (omega arith) (at_split (suc n) before raw after h.1)

logon_tags :
    (s : Settings) (now : ℕ) (signature : Text) → All HasIntTag (logon_fields s now signature)
unfolding logon_fields
logon_tags s now signature = (
  (λ n e. ground arith),
  (
    (λ n e. ground arith),
    (
      (λ n e. ground arith),
      (
        (λ n e. ground arith),
        ((λ n e. ground arith), ((λ n e. ground arith), ((λ n e. ground arith), tt))),
      ),
    ),
  ),
)

send_logon-OkTalks :
    (s : Settings) (now : ℕ) (w : Write) (c : Conn) → OkTalks c (send_logon s now w c)
unfolding send_logon
send_logon-OkTalks s now w c = elim (Bool-cases (is_empty s.api_key)) [
  | inl missing ↦ rw (missing, send_logon) tt
  | inr given ↦
      elim (Result-cases
        (signed s.signer (codes "GET/realtime" ++ print_nat (now / 10 ^ 6 + 5000)))) [
          | inl (e, failed) ↦ rw (given, failed, send_logon) tt
          | inr (signature, made) ↦
              rw (given, made, send_logon)
                (send-OkTalks s w (codes "A") (logon_fields s now signature) c
                  (logon_tags s now signature))
        ]
]

fresh-IsNumbered : (st : Session) (now : ℕ) → IsNumbered (fresh st now)
unfolding fresh
fresh-IsNumbered st now = (tt, refl)

module _ (to_lower : Text → Text) where
  run_once-IsNumbered :
      (s : Settings) (again : Bool) (a : Attempt) (st : Session)
      → All HasIntTags a.events
      → IsNumbered (conn_of (run_once to_lower s again a st))
  unfolding run_once
  run_once-IsNumbered s again a st tags =
      let c = fresh st a.now in
      let start = fresh-IsNumbered st a.now in
      elim (Bool-cases a.dialled) [
        | inr failed ↦ rw (failed, run_once, conn_of) start
        | inl dialled ↦ elim (Result-cases (send_logon s a.now a.logon c)) [
          | inl (e, failed) ↦ rw (dialled, failed, run_once, conn_of) start
          | inr (c', sent) ↦
              let talks : Talks c c' = rw (sent) at (send_logon-OkTalks s a.now a.logon c) in
              rw (dialled, sent, run_once, conn_of)
                (run_events-IsNumbered to_lower s again a.events c' tags (talks.0 start))
        ]
      ]

  -- Whatever happens on a connection, the message behind `before` among those that were sent in full
  -- is one that `ParseStrict` accepts, and its sequence number is one more than the messages before
  -- it. Tags, lengths and numbers are those of Go's 64-bit integers.
  pub run_once-Reads :
      (s : Settings) (again : Bool) (a : Attempt) (st : Session) (before : List Text) (raw : Text)
      (after : List Text)
      → All HasIntTags a.events
      → (conn_of (run_once to_lower s again a st)).sent ≡ before ++ (raw ∷ after)
      → suc (length before) ≤ max_int
      → length raw ≤ max_int
      → Reads raw (suc (length before))
  run_once-Reads s again a st before raw after tags there fits size =
      let all = (run_once-IsNumbered s again a st tags).0 in
      stamped-Reads (length before) raw
        (subst (λ (k : ℕ). IsStamped k raw) (omega arith)
          (at_split 1 before raw after (subst (λ (l : List Text). AreNumbered 1 l) there all)))
        fits size

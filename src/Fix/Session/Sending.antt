-- ===== src/Fix/Session/Sending.antt =====
-- `NewSession`, `send`, `writeAll` and `sendLogon` of internal/fix/session.go.
use venuewire.Prelude.{
  ℕ, zero, suc, ◌+◌, ◌*◌, ◌/◌, ◌^◌, Bool, true, false, not, Option, none, some, List, [], ◌∷◌, ◌++◌,
  length, take, drop, if◌then◌else◌, Text, codes, is_empty, Result, ok, err, ◌>>=◌, ◌>>◌, refuse_if,
  or_err,
}
use venuewire.Prelude.Int.{ℤ, pos}
use venuewire.Fix.Decimal.{print_nat}
use venuewire.Fix.Codec.{Field, CodecError, encode}
use venuewire.Fix.Session.Types.{
  SessionConfig, Settings, End, no_credentials, not_signed, write_failed, encode_failed, Answer,
  took, broken, Write, Conn,
}

-- A duration, or its default where it is not positive.
abbrev pub or_default : ℤ → ℕ → ℕ
or_default (pos (suc n)) d = suc n
or_default _ d = d

-- `NewSession`: `none` where there is no dialer.
unfoldable pub new_session : SessionConfig → Option Settings
new_session c =
    if not c.has_dial
    then none
    else some (record {
      sender_comp_id = c.sender_comp_id;
      target_comp_id =
          if is_empty c.target_comp_id then codes "BYBIT_FIX_SERVER" else c.target_comp_id;
      api_key = c.api_key;
      signer = c.signer;
      heartbeat = or_default c.heartbeat (10 * 10 ^ 9);
      initial_backoff = or_default c.initial_backoff (250 * 10 ^ 6);
      max_backoff = or_default c.max_backoff (15 * 10 ^ 9);
    })

-- `writeAll`: the bytes that were written, and whether they are all. Where no answer is left, the
-- write never returned.
unfoldable pub write_all : List Answer → Text → Text × Bool
write_all answers [] = ([], true)
write_all [] (x ∷ data_left) = ([], false)
write_all (broken ∷ answers) (x ∷ data_left) = ([], false)
write_all (took zero ∷ answers) (x ∷ data_left) = ([], false)
write_all (took (suc n) ∷ answers) (x ∷ data_left) =
    let (written, complete) = write_all answers (drop n data_left) in
    (x ∷ (take n data_left ++ written), complete)

abbrev pub field : ℕ → Text → Field
field tag value = record { tag = pos tag; value = value }

-- The fields in front of a message's own.
unfoldable pub envelope : Settings → Write → Text → ℕ → List Field
envelope s w msg_type seq =
    field 35 msg_type
    ∷ field 49 s.sender_comp_id
    ∷ field 56 s.target_comp_id
    ∷ field 34 (print_nat seq)
    ∷ field 52 w.stamp
    ∷ []

abbrev pub or_codec : Result CodecError Text → Result End Text
or_codec (ok t) = ok t
or_codec (err e) = err (encode_failed e)

-- The connection behind a message that was written.
abbrev pub wrote : Write → Text → Conn → Conn
wrote w raw c = record c {
  outbound_seq = suc c.outbound_seq;
  last_outbound = w.at;
  stats = record (c.stats) { outbound = suc c.stats.outbound };
  sent = c.sent ++ (raw ∷ []);
}

-- `send`.
unfoldable pub send : Settings → Write → Text → List Field → Conn → Result End Conn
unfolding write_all envelope
send s w msg_type body c = do
  encoded ← or_codec (encode (codes "FIX.4.4") (envelope s w msg_type c.outbound_seq ++ body))
  let (written, complete) = write_all w.answers encoded
  refuse_if (not complete) write_failed
  ok (wrote w written c)

abbrev pub at_least_one : ℕ → ℕ
at_least_one zero = 1
at_least_one (suc n) = suc n

abbrev pub signed : Option (Text → Option Text) → Text → Result End Text
signed none text = err no_credentials
signed (some sign) text = or_err (sign text) not_signed

-- The fields of a Logon.
unfoldable pub logon_fields : Settings → ℕ → Text → List Field
logon_fields s now signature =
    field 98 (codes "0")
    ∷ field 108 (print_nat (at_least_one (s.heartbeat / 10 ^ 9)))
    ∷ field 553 s.api_key
    ∷ field 95 (print_nat (length signature))
    ∷ field 96 signature
    ∷ field 141 (codes "Y")
    ∷ field 30023 (print_nat (now / 10 ^ 6 + 5000))
    ∷ []

-- `sendLogon`, at a time.
unfoldable pub send_logon : Settings → ℕ → Write → Conn → Result End Conn
unfolding send
send_logon s now w c = do
  refuse_if (is_empty s.api_key) no_credentials
  signature ← signed s.signer (codes "GET/realtime" ++ print_nat (now / 10 ^ 6 + 5000))
  send s w (codes "A") (logon_fields s now signature) c

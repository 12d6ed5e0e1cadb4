-- ===== src/Fix/Session/Types.antt =====
-- The data of internal/fix/session.go. Times and durations are nanoseconds. What the world does is
-- data: how the transport takes the bytes, what the clock and the callbacks answer, and whether the
-- context is cancelled.
use venuewire.Prelude.{ℕ, Bool, Option, List, Text}
use venuewire.Prelude.Int.{ℤ}
use venuewire.Fix.Codec.{Field, Message, CodecError}

-- `SessionConfig`, with the durations before their defaults.
pub record SessionConfig : Type 0 where
  pub has_dial : Bool
  pub sender_comp_id : Text
  pub target_comp_id : Text
  pub api_key : Text
  pub signer : Option (Text → Option Text)
  pub heartbeat : ℤ
  pub initial_backoff : ℤ
  pub max_backoff : ℤ

-- The configuration that `NewSession` keeps.
pub record Settings : Type 0 where
  pub sender_comp_id : Text
  pub target_comp_id : Text
  pub api_key : Text
  pub signer : Option (Text → Option Text)
  pub heartbeat : ℕ
  pub initial_backoff : ℕ
  pub max_backoff : ℕ

pub record SessionStats : Type 0 where
  pub inbound : ℕ
  pub outbound : ℕ
  pub reconnects : ℕ
  pub sequence_errors : ℕ
  pub heartbeats : ℕ
  pub test_requests : ℕ

-- Why a connection ends. `finished` is a nil error.
pub data End : Type 0 where
  finished dial_failed no_credentials not_signed write_failed : End
  encode_failed : CodecError → End
  end_of_stream read_failed missing_sequence invalid_sequence : End
  sequence_error : ℕ → ℕ → End
  expected_logon : Text → End
  access_denied : Text → End
  reconnect_failed message_failed stale : End

-- One call of `Write`: so many bytes, or an error.
pub data Answer : Type 0 where
  took : ℕ → Answer
  broken : Answer

-- One call of `send`: the formatted time, the transport's answers, and the time behind it.
pub record Write : Type 0 where
  pub stamp : Text
  pub answers : List Answer
  pub at : ℕ

-- A session on one connection. `sent` holds what was written in full, and `delivered` what was handed
-- to the application, from the beginning of the connection.
pub record Conn : Type 0 where
  pub outbound_seq : ℕ
  pub inbound_seq : ℕ
  pub logged_on : Bool
  pub test_outstanding : Bool
  pub last_inbound : ℕ
  pub last_outbound : ℕ
  pub stats : SessionStats
  pub sent : List Text
  pub delivered : List Message

-- While a message is handled.
pub record Around : Type 0 where
  pub cancelled : Bool
  pub now : ℕ
  pub write : Write
  pub hook_ok : Bool

-- A call of `SendApplication`.
pub record Sending : Type 0 where
  pub kind : Text
  pub fields : List Field
  pub write : Write

-- While the ticker is served, with what other goroutines send between the heartbeat and the test
-- request.
pub record Tick : Type 0 where
  pub cancelled : Bool
  pub now : ℕ
  pub heartbeat_write : Write
  pub between : List Sending
  pub test_write : Write

-- What the loop of `runOnce` waits for, and `SendApplication` from another goroutine, which the write
-- lock puts between two steps of the loop.
pub data Event : Type 0 where
  cancel : Write → Event
  broken_read : Bool → Bool → Event
  message : Around → Message → Event
  ticker : Tick → Event
  application : Text → List Field → Write → Event

pub data Outcome : Type 0 where
  running : Conn → Outcome
  ended : End → Conn → Outcome

-- ===== src/Intent/Disk.antt =====
-- `Store.Load` and `Store.update` of internal/intent/store.go: the snapshot file, its lock and the
-- atomic replacement of the file. What the operating system answers is an `Env`.
pub mod Atomic
use venuewire.Prelude.{
  ℕ, Bool, true, false, not, Option, none, some, List, [], ◌∷◌, if◌then◌else◌, Result, ok, err,
  ◌>>=◌, ◌>>◌, refuse_if,
}
use venuewire.Prelude.Int.{pos, eqb_ℤ}
use venuewire.Intent.Types.{
  Snapshot, Fault, path_required, mkdir_failed, lock_open_failed, lock_failed, still_waiting,
  cancelled_context, read_failed, decode_failed, write_failed, rename_failed, unsupported_version,
}

-- The file at `Store.Path`: what `os.ReadFile` and `json.Unmarshal` make of it.
pub data File : Type 0 where
  absent unreadable malformed : File
  stored : Snapshot → File

-- One round of the `Flock` loop: the lock is taken, the call fails for good, or another process
-- holds it and then the timer fires or the context ends.
pub data Attempt : Type 0 where
  acquired broken busy_timer busy_done : Attempt

pub record Env : Type 0 where
  pub path_given : Bool
  pub mkdir_ok : Bool
  pub lock_opens : Bool
  pub attempts : List Attempt
  pub cancelled : Bool
  pub write_ok : Bool
  pub rename_ok : Bool
  pub clock : ℕ

-- How an update ends: the file, what the mutation handed out, and the error.
pub record Outcome (A : Type 0) : Type 0 where
  pub file : File
  pub value : Option A
  pub fault : Option Fault

abbrev pub empty_snapshot : Snapshot
empty_snapshot = record {
  version = pos 1;
  updated_at = 0;
  plans = [];
  cursors = [];
  quick_trades = [];
  quick_requests = [];
  consumed_quotes = [];
}

-- A map that the file leaves out is decoded as nil and made empty, which is one value here.
decode : File → Result Fault Snapshot
decode absent = ok empty_snapshot
decode unreadable = err read_failed
decode malformed = err decode_failed
decode (stored s) = if eqb_ℤ s.version (pos 1) then ok s else err (unsupported_version s.version)

unfoldable pub load : Bool → File → Result Fault Snapshot
unfolding decode
load cancelled file = do refuse_if cancelled cancelled_context; decode file

-- The `for` loop around `Flock`; no further attempt leaves the call waiting.
acquire_lock : List Attempt → Result Fault (Unit {0})
acquire_lock [] = err still_waiting
acquire_lock (acquired ∷ _) = ok tt
acquire_lock (broken ∷ _) = err lock_failed
acquire_lock (busy_done ∷ _) = err cancelled_context
acquire_lock (busy_timer ∷ rest) = acquire_lock rest

open_locked : Env → File → Result Fault Snapshot
unfolding acquire_lock load
open_locked env file = do
  refuse_if (not env.path_given) path_required
  refuse_if (not env.mkdir_ok) mkdir_failed
  refuse_if (not env.lock_opens) lock_open_failed
  acquire_lock env.attempts
  load env.cancelled file

-- The temporary file is written, synced and closed, and then renamed over the old one.
replace_file : {A : Type 0} → Env → File → Snapshot × A → Outcome A
replace_file env file (s, a) =
    if not env.write_ok
    then record { file = file; value = some a; fault = some write_failed }
    else if not env.rename_ok
    then record { file = file; value = some a; fault = some rename_failed }
    else record {
      file = stored (record s { updated_at = env.clock });
      value = some a;
      fault = none;
    }

abbrev finish : {A : Type 0} → Env → File → Result Fault (Snapshot × A) → Outcome A
finish env file (err e) = record { file = file; value = none; fault = some e }
finish env file (ok sa) = replace_file env file sa

unfoldable pub update :
    {A : Type 0} → Env → File → (Snapshot → Result Fault (Snapshot × A)) → Outcome A
unfolding open_locked replace_file
update env file mutate = finish env file (open_locked env file >>= mutate)

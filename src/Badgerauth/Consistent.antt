-- ===== src/Badgerauth/Consistent.antt =====
-- When a database is consistent: its replication log, its clocks and its records agree.
pub mod Insert
pub mod Delete
use gateway_mt.Prelude.{ℕ, ◌≤◌, ◌≡◌, true}
use gateway_mt.Prelude.Bytes.{Bytes, is_prefix}
use gateway_mt.Errs.{ok, is_ok}
use gateway_mt.Badger.{Badger}
use gateway_mt.Badgerauth.Clock.{make_clock_key, current_clock}
use gateway_mt.Badgerauth.LogEntry.{LogEntry, IsSized, log_prefix, entry_bytes}
use gateway_mt.Badgerauth.Proto.{PbRecord, Proto}
use gateway_mt.Badgerauth.Records.{lookup_record}

-- the log holds an entry
abbrev pub IsLogged : (b : Badger) → b.State → LogEntry → Type 0
IsLogged b s e = is_ok (b.get (entry_bytes e) s) ≡ true

pub record IsConsistent (b : Badger) (p : Proto) (s : b.State) : Type 0 where
  -- What has the prefix of the log is a log entry.
  pub entries :
      (k : Bytes)
      → is_prefix log_prefix k ≡ true
      → is_ok (b.get k s) ≡ true
      → (e : LogEntry) × IsSized e × (k ≡ entry_bytes e)
  -- The record that a log entry names is there.
  pub has_record :
      (e : LogEntry)
      → IsSized e
      → IsLogged b s e
      → (r : PbRecord) × (lookup_record b p e.key_hash s ≡ ok r)
  -- No log entry is ahead of its node's clock.
  pub dominated :
      (e : LogEntry)
      → IsSized e
      → IsLogged b s e
      → (c : ℕ) × (current_clock b (b.get (make_clock_key e.id) s) ≡ ok c) × (e.clock ≤ c)

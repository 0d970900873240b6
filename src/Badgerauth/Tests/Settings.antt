-- ===== src/Badgerauth/Tests/Settings.antt =====
-- A configuration, a grant, and attempts of a transaction.
use gateway_mt.Prelude.{true, false, none, some, List, [], ◌∷◌, arith}
use gateway_mt.Errs.{badger}
use gateway_mt.Badger.Memory.{Table}
use gateway_mt.Badgerauth.Clock.{}
use gateway_mt.Badgerauth.LogEntry.{}
use gateway_mt.Badgerauth.Records.{}
use gateway_mt.Badgerauth.Tests.Changes.{}
use gateway_mt.Badgerauth.Tests.Grants.{node_a}
use gateway_mt.Errs.{conflict}
use gateway_mt.Backoff.{ExponentialBackoff}
use gateway_mt.Backoff.Bound.{IsInRange}
use gateway_mt.Authdb.Record.{Time, AccessRecord}
use gateway_mt.Badgerauth.Txn.{Attempt}
use gateway_mt.Badgerauth.Txn.Retry.{}
use gateway_mt.Badgerauth.Db.{Config}
use gateway_mt.Badgerauth.Db.Clocks.{}
use gateway_mt.Badgerauth.Admin.{}
use gateway_mt.Badgerauth.Admin.Effects.{}

-- delays from 5 to 40, not waited yet
abbrev pub fresh_backoff : ExponentialBackoff
fresh_backoff = record { delay = 0; max = 40; min = 5 }

pub fresh_backoff-IsInRange : IsInRange fresh_backoff
fresh_backoff-IsInRange = record {
  max_range = omega arith;
  min_pos = omega arith;
  min_le = omega arith;
  delay_le = omega arith;
}

abbrev pub config : Config
config = record {
  id = node_a;
  first_start = false;
  replication_limit = 10;
  conflict_backoff = fresh_backoff;
}

-- a conflict, and then a commit
abbrev pub lost_then_kept : Table → List (Attempt Table)
lost_then_kept t =
    record { snapshot = t; commit_error = some (badger conflict); context_ended = none }
    ∷ record { snapshot = t; commit_error = none; context_ended = none }
    ∷ []

abbrev pub access : AccessRecord
access = record {
  satellite_address = 5 ∷ [];
  macaroon_head = 6 ∷ 7 ∷ [];
  encrypted_secret_key = 8 ∷ [];
  encrypted_access_grant = 9 ∷ [];
  expires_at = some (record { unix = 2000; nanosecond = 0 });
  is_public = true;
}

abbrev pub now : Time
now = record { unix = 900; nanosecond = 17 }

-- ===== src/Badgerauth/Tests/Operations.antt =====
-- Runs of the operations of the database, of the administration and of the log.
use gateway_mt.Prelude.{
  Bool-cases, inl, inr, ◌≡◌, refl, sym, none, some, List, [], ◌∷◌, if◌then◌else◌, arith,
}
use gateway_mt.Prelude.Bytes.{Bytes, eq_bytes, put_be}
use gateway_mt.Errs.{Result, ok, badger, is}
use gateway_mt.Badger.Memory.{memory-IsEngine, Table, read, write, passed}
use gateway_mt.Badgerauth.Clock.{
  make_clock_key, clock_bytes, clock_of, read_clock, current_clock, advance_clock,
  clock_of-clock_bytes,
}
use gateway_mt.Badgerauth.LogEntry.{LogEntry, IsSized, entry_bytes, log_entry_of}
use gateway_mt.Badgerauth.Records.{insert_record, insert_expiry, both, check_duplicate}
use gateway_mt.Badgerauth.Tests.Codec.{codec, codec-IsCodec, encode, decode}
use gateway_mt.Badgerauth.Tests.Changes.{clock_left}
use gateway_mt.Badgerauth.Tests.Grants.{
  engine, node_a, node_b, hash_1, hash_2, grant_1, empty, one_grant, one_grant_inserted,
}
use gateway_mt.Prelude.Bytes.Order.{eq_bytes_sound}
use gateway_mt.Prelude.Int64.{lt_i64}
use gateway_mt.Errs.{conflict}
use gateway_mt.Backoff.{init, next_delay, wait, maxed}
use gateway_mt.Backoff.Bound.{wait_delay}
use gateway_mt.Authdb.Record.{AccessRecord}
use gateway_mt.Badgerauth.LogEntry.{log_entry_of-entry_bytes}
use gateway_mt.Badgerauth.Proto.{time_to_timestamp}
use gateway_mt.Badgerauth.Txn.{Attempt, update, after_attempt, txn_with_backoff}
use gateway_mt.Badgerauth.Txn.Retry.{
  txn_with_backoff_returns, CommittedAfterConflicts, txn_with_backoff-CommittedAfterConflicts,
}
use gateway_mt.Badgerauth.Db.{
  Config, RequestEntry, pb_record, check_absent, put_at_time, get_record, build_request_entries,
}
use gateway_mt.Badgerauth.Db.RoundTrip.{get_record-put_at_time, put_at_time_unexpiring}
use gateway_mt.Badgerauth.Db.Clocks.{HasClockKeys, item_clock, requested, build_request_entries_lem}
use gateway_mt.Badgerauth.Admin.{}
use gateway_mt.Badgerauth.Admin.Effects.{}
use gateway_mt.Badgerauth.Tests.Settings.{
  fresh_backoff, fresh_backoff-IsInRange, config, lost_then_kept, access, now,
}

abbrev entry_9 : LogEntry
entry_9 = record { id = node_b; clock = 300; key_hash = hash_2; state = 0 }

entry_9-IsSized : IsSized entry_9
entry_9-IsSized = record {
  id_size = refl;
  key_size = refl;
  clock_size = omega arith;
  state_size = omega arith;
}

log_entry_of-entry_bytes_example : log_entry_of (entry_bytes entry_9) ≡ ok entry_9
log_entry_of-entry_bytes_example = log_entry_of-entry_bytes entry_9 entry_9-IsSized

wait_delay_example : (wait fresh_backoff none).0.delay ≡ 5
wait_delay_example = wait_delay fresh_backoff none fresh_backoff-IsInRange

-- the transaction that adds the first grant
abbrev add_grant : Table → Result Table
add_grant t = insert_record engine codec node_a hash_1 grant_1 t

retried : txn_with_backoff add_grant fresh_backoff (lost_then_kept empty) ≡ some (ok one_grant)
unfolding txn_with_backoff update after_attempt wait maxed init next_delay is insert_record
    entry_bytes encode make_clock_key clock_bytes check_duplicate put_be
    gateway_mt.Badgerauth.Tests.Codec.flag gateway_mt.Badgerauth.Tests.Codec.put_field read codec
    advance_clock current_clock write both
retried = rw one_grant_inserted refl

txn_with_backoff-CommittedAfterConflicts_example :
    CommittedAfterConflicts add_grant one_grant (lost_then_kept empty)
txn_with_backoff-CommittedAfterConflicts_example =
    txn_with_backoff-CommittedAfterConflicts add_grant fresh_backoff (lost_then_kept empty)
      one_grant retried

abbrev lost : Attempt Table
lost = record { snapshot = empty; commit_error = some (badger conflict); context_ended = none }

txn_with_backoff_returns_example :
    (r : Result Table) × (txn_with_backoff add_grant fresh_backoff
        (lost ∷ lost ∷ lost ∷ lost ∷ lost ∷ [])
      ≡ some r)
txn_with_backoff_returns_example =
    txn_with_backoff_returns add_grant 3 fresh_backoff (lost ∷ lost ∷ lost ∷ lost ∷ lost ∷ [])
      fresh_backoff-IsInRange refl (omega arith) (omega arith)

put_done :
    put_at_time engine codec config hash_1 access now empty (lost_then_kept empty)
    ≡ some (ok one_grant)
unfolding put_at_time check_absent read pb_record time_to_timestamp is
put_done = rw retried refl

get_record-put_at_time_example : get_record engine codec hash_1 one_grant ≡ ok (some access)
unfolding insert_expiry passed pb_record time_to_timestamp lt_i64
get_record-put_at_time_example =
    get_record-put_at_time engine codec (memory-IsEngine 1000) codec-IsCodec config hash_1 access
      now empty one_grant (lost_then_kept empty) refl refl (refl, refl) refl put_done

-- the grant with an expiry at the epoch
abbrev epoch_access : AccessRecord
epoch_access = record access { expires_at = some (record { unix = 0; nanosecond = 5 }) }

abbrev unexpiring_grant : Table
unexpiring_grant =
    record {
      key = entry_bytes (record { id = node_a; clock = 1; key_hash = hash_1; state = 0 });
      value = [];
      expires_at = 0;
    }
    ∷ record { key = hash_1; value = encode (pb_record epoch_access now); expires_at = 0 }
    ∷ record { key = make_clock_key node_a; value = clock_bytes 1; expires_at = 0 }
    ∷ []

epoch_put_done :
    put_at_time engine codec config hash_1 epoch_access now empty (lost_then_kept empty)
    ≡ some (ok unexpiring_grant)
unfolding put_at_time check_absent read pb_record time_to_timestamp txn_with_backoff update
    after_attempt wait maxed init next_delay insert_record both advance_clock current_clock
    check_duplicate codec insert_expiry read_clock clock_of write passed
epoch_put_done = refl

put_at_time_unexpiring_example :
    get_record engine codec hash_1 unexpiring_grant
    ≡ ok (some (record access { expires_at = none }))
put_at_time_unexpiring_example =
    put_at_time_unexpiring engine codec (memory-IsEngine 1000) codec-IsCodec config hash_1
      epoch_access (record { unix = 0; nanosecond = 5 }) now empty unexpiring_grant
      (lost_then_kept empty) refl refl refl refl epoch_put_done

-- the settings of the other node
abbrev config_b : Config
config_b = record config { id = node_b }

clock_left-HasClockKeys : HasClockKeys engine clock_left
unfolding read passed
clock_left-HasClockKeys k pre there = elim (Bool-cases (eq_bytes (make_clock_key node_a) k)) [
  | inl same ↦ record {
    id = node_a;
    size = refl;
    key = sym (eq_bytes_sound (make_clock_key node_a) k same);
    item = ok (clock_bytes 1);
    there = rw same refl;
    clock = 1;
    value = clock_of-clock_bytes 1 (omega arith);
  }
  | inr other ↦ absurd (let h = rw other at there in cc)
]

build_request_entries_lem_example :
    (out : List RequestEntry) × (build_request_entries engine config_b clock_left ≡ ok out)
    × ((id : Bytes)
        → requested id out ≡ (
            if eq_bytes node_b id
            then none
            else item_clock (engine.get (make_clock_key id) clock_left)))
build_request_entries_lem_example =
    build_request_entries_lem engine (memory-IsEngine 1000) config_b clock_left
      clock_left-HasClockKeys

-- ===== src/Badgerauth/Tests/Administration.antt =====
-- Runs of the administration.
use gateway_mt.Prelude.{◌≡◌, refl, false, none, some, List, [], ◌∷◌, All}
use gateway_mt.Prelude.Bytes.{Bytes, eq_bytes, is_prefix, put_be, get_be, leb_bytes}
use gateway_mt.Errs.{Class, ok, err, is_ok, wrap}
use gateway_mt.Badger.Memory.{
  memory-IsEngine, Table, read, write, passed, scan, keys, insert_key, erase, without,
}
use gateway_mt.Authdb.KeyHash
use gateway_mt.Badgerauth.NodeId
use gateway_mt.Badgerauth.Clock.{make_clock_key, clock_bytes, clock_of}
use gateway_mt.Badgerauth.LogEntry.{LogEntry, IsSized, entry_bytes, log_entry_of}
use gateway_mt.Badgerauth.Records.{
  both, lookup_record, update_record, delete_record, delete_entries, delete_replication_log_entries,
}
use gateway_mt.Badgerauth.Tests.Codec.{codec, codec-IsCodec, encode, decode}
use gateway_mt.Badgerauth.Tests.Changes.{clock_left, hidden_grant, one_grant_live}
use gateway_mt.Badgerauth.Tests.Grants.{engine, hash_1, grant_1, one_grant}
use gateway_mt.Errs.{message}
use gateway_mt.Backoff.{init, next_delay, wait, maxed}
use gateway_mt.Badgerauth.Txn.{Attempt, update, after_attempt, txn_with_backoff}
use gateway_mt.Badgerauth.Txn.Retry.{}
use gateway_mt.Badgerauth.Db
use gateway_mt.Badgerauth.Db.{
  Config, RequestEntry, pb_record, check_absent, put_at_time, get_record, build_request_entries,
}
use gateway_mt.Badgerauth.Db.Clocks.{}
use gateway_mt.Badgerauth.Rpc.{answer, reply_of}
use gateway_mt.Badgerauth.Admin.{
  invalidate, unpublish, with_key, invalidate_record, unpublish_record,
}
use gateway_mt.Badgerauth.Admin
use gateway_mt.Badgerauth.Admin.Effects.{
  IsUnexpired, IsUpdate, invalidate_record-IsUpdate, delete_record-gone,
}
use gateway_mt.Badgerauth.Node.Invalidated.{IsPassedOn, invalidate_record-IsPassedOn}
use gateway_mt.Badgerauth.Tests.Settings.{config, lost_then_kept, now}

abbrev attempts : List (Attempt Table)
attempts = lost_then_kept one_grant

attempts-IsUnexpired :
    All (λ (a : Attempt Table). IsUnexpired engine codec config hash_1 a.snapshot) attempts
attempts-IsUnexpired = (one_grant_live, (one_grant_live, tt))

abbrev reason : Bytes
reason = 65 ∷ []

abbrev invalid_grant : Table
invalid_grant =
    record { key = hash_1; value = encode (invalidate reason now grant_1); expires_at = 2000 }
    ∷ one_grant

invalidated :
    invalidate_record engine codec config hash_1 reason now attempts ≡ some (answer invalid_grant)
unfolding invalidate_record with_key KeyHash.set_bytes Db.update_record txn_with_backoff update
    after_attempt wait maxed init next_delay update_record lookup_record codec read invalidate
    reply_of write eq_bytes entry_bytes passed gateway_mt.Badgerauth.Tests.Codec.flag
    gateway_mt.Badgerauth.Tests.Codec.first_field gateway_mt.Badgerauth.Tests.Codec.put_field
    gateway_mt.Badgerauth.Tests.Codec.after_field
invalidated = refl

invalidate_record-IsUpdate_example :
    IsUpdate engine codec config hash_1
      (λ r. record r { invalidated_at_unix = now.unix; invalidation_reason = 65 ∷ [] })
      attempts
      invalid_grant
    × (get_record engine codec hash_1 invalid_grant
        ≡ err (wrap Class.badgerauth (wrap Class.invalid message)))
unfolding KeyHash.set_bytes
invalidate_record-IsUpdate_example =
    invalidate_record-IsUpdate engine codec config (memory-IsEngine 1000) codec-IsCodec hash_1
      hash_1 65 [] now attempts invalid_grant refl attempts-IsUnexpired invalidated

missing : get_record engine codec hash_1 [] ≡ ok none
unfolding get_record lookup_record read
missing = refl

invalidate_record-IsPassedOn_example :
    IsPassedOn engine codec hash_1 hash_1 now (65 ∷ []) [] invalid_grant (err message ∷ []) []
    × (get_record engine codec hash_1 invalid_grant
        ≡ err (wrap Class.badgerauth (wrap Class.invalid message)))
unfolding KeyHash.set_bytes
invalidate_record-IsPassedOn_example =
    invalidate_record-IsPassedOn engine codec config (memory-IsEngine 1000) codec-IsCodec hash_1
      hash_1 65 [] now attempts [] invalid_grant (err message ∷ []) [] refl attempts-IsUnexpired
      invalidated missing ((message, refl), tt)

unpublished : unpublish_record engine codec config hash_1 attempts ≡ some (answer hidden_grant)
unfolding unpublish_record with_key KeyHash.set_bytes Db.update_record txn_with_backoff update
    after_attempt wait maxed init next_delay update_record lookup_record codec read unpublish
    reply_of write eq_bytes entry_bytes passed gateway_mt.Badgerauth.Tests.Codec.first_field
    gateway_mt.Badgerauth.Tests.Codec.put_field gateway_mt.Badgerauth.Tests.Codec.after_field
unpublished = refl

deleted : Admin.delete_record engine codec config hash_1 attempts ≡ some (answer clock_left)
unfolding Admin.delete_record with_key KeyHash.set_bytes Db.delete_record txn_with_backoff update
    after_attempt wait maxed init next_delay reply_of delete_record make_clock_key clock_bytes read
    put_be eq_bytes entry_bytes passed both erase delete_replication_log_entries delete_entries scan
    keys without is_prefix leb_bytes insert_key log_entry_of clock_of KeyHash.fill_32
    NodeId.set_bytes get_be
deleted = refl

delete_record-gone_example :
    (get_record engine codec hash_1 clock_left ≡ ok none)
    × ((e : LogEntry)
        → IsSized e
        → e.key_hash ≡ hash_1
        → is_ok (engine.get (entry_bytes e) clock_left) ≡ false)
unfolding KeyHash.set_bytes
delete_record-gone_example =
    delete_record-gone engine codec config (memory-IsEngine 1000) codec-IsCodec hash_1 hash_1
      attempts clock_left refl deleted

-- ===== src/Badgerauth/Tests/Store.antt =====
-- Runs of the transactions on records.
use gateway_mt.Prelude.{
  ℕ, ◌+◌, ◌<◌, ◌≡◌, refl, false, List, [], ◌∷◌, length, if◌then◌else◌, arith, All,
}
use mathlib.Core.Path.{subst}
use gateway_mt.Prelude.Bytes.{Bytes, eq_bytes, is_prefix, put_be, leb_bytes, ltb_bytes}
use gateway_mt.Errs.{ok, err, badger, key_not_found}
use gateway_mt.Badger.Memory.{memory-IsEngine, read, passed, scan, keys, insert_key}
use gateway_mt.Authdb.KeyHash
use gateway_mt.Badgerauth.NodeId
use gateway_mt.Badgerauth.Clock.{
  u64_mod, make_clock_key, clock_bytes, clock_of, current_clock, clock_of-clock_bytes,
}
use gateway_mt.Badgerauth.LogEntry.{
  LogEntry, IsSized, log_prefix, entry_bytes, log_entry_of, make_iteration_start_key,
}
use gateway_mt.Badgerauth.Records.{
  ResponseEntry, insert_expiry, lookup_record, find_response_entries, collect_entries,
  insert_response_entries,
}
use gateway_mt.Badgerauth.Records.Insert.{IsInserted, insert_record-IsInserted}
use gateway_mt.Badgerauth.Consistent.{IsConsistent}
use gateway_mt.Badgerauth.Consistent.Insert.{insert_record-IsConsistent}
use gateway_mt.Badgerauth.Consistent.Delete.{delete_record-IsConsistent, update_record-IsConsistent}
use gateway_mt.Badgerauth.Delta.{IsMissing, IsDelta, find_response_entries-IsDelta}
use gateway_mt.Badgerauth.Response.{
  HasClock, IsFresh, IsReplicated, insert_response_entries-IsReplicated,
}
use gateway_mt.Badgerauth.CatchUp.{pull_catches_up}
use gateway_mt.Badgerauth.Tests.Codec.{codec, codec-IsCodec, encode, decode}
use gateway_mt.Badgerauth.Tests.Changes.{
  clock_left, one_grant_deleted, hide, hidden_grant, one_grant_hidden, one_grant_live,
}
use gateway_mt.Badgerauth.Tests.Grants.{
  engine, node_a, node_b, hash_1, grant_1, one_grant, other_grant, two_grants, two_grants_inserted,
  other_grant-IsConsistent, one_grant-IsConsistent,
}

abbrev entry_1 : LogEntry
entry_1 = record { id = node_a; clock = 1; key_hash = hash_1; state = 0 }

entry_1-IsSized : IsSized entry_1
entry_1-IsSized = record {
  id_size = refl;
  key_size = refl;
  clock_size = omega arith;
  state_size = omega arith;
}

abbrev answer_1 : List ResponseEntry
answer_1 = record { node_id = node_a; encryption_key_hash = hash_1; entry_record = grant_1 } ∷ []

answer_1_found : find_response_entries engine codec 10 node_a 0 one_grant ≡ ok answer_1
unfolding find_response_entries collect_entries make_iteration_start_key log_entry_of lookup_record
    codec scan keys insert_key read passed is_prefix leb_bytes ltb_bytes entry_bytes make_clock_key
    clock_bytes clock_of encode decode NodeId.set_bytes put_be eq_bytes
    gateway_mt.Badgerauth.Tests.Codec.flag gateway_mt.Badgerauth.Tests.Codec.first_field
    gateway_mt.Badgerauth.Tests.Codec.put_field gateway_mt.Badgerauth.Tests.Codec.after_field
answer_1_found = refl

answer_1_inserted : insert_response_entries engine codec answer_1 other_grant ≡ ok two_grants
unfolding insert_response_entries NodeId.set_bytes KeyHash.set_bytes
answer_1_inserted = rw two_grants_inserted refl

plain_hash : (k : Bytes) → KeyHash.set_bytes hash_1 ≡ ok k → is_prefix log_prefix k ≡ false
unfolding KeyHash.set_bytes is_prefix
plain_hash k h =
    let same : hash_1 ≡ k = ground (arith, h) in
    subst (λ j. is_prefix log_prefix j ≡ false) same refl

other_grant_clock :
    (id : Bytes)
    → engine.get (make_clock_key id) other_grant
      ≡ (if eq_bytes node_b id then ok (ok (clock_bytes 1)) else err (badger key_not_found))
unfolding read passed eq_bytes entry_bytes make_clock_key
other_grant_clock id = refl

other_grant_below :
    (id : Bytes) (c : ℕ) → length id ≡ 32 → HasClock engine other_grant id c → c + 1 < u64_mod
unfolding current_clock
other_grant_below id c hl h =
    let one = clock_of-clock_bytes 1 (omega arith) in
    let g = other_grant_clock id in ground (arith, h)

answer_1-IsFresh : All (IsFresh engine codec) answer_1
unfolding insert_expiry passed
answer_1-IsFresh = ((refl, plain_hash), tt)

entry_1-IsMissing : IsMissing engine codec one_grant node_a 0 entry_1
unfolding read passed entry_bytes make_clock_key clock_bytes eq_bytes put_be
entry_1-IsMissing = record {
  sized = entry_1-IsSized;
  is_logged = refl;
  of_node = refl;
  later = omega arith;
}

find_response_entries-IsDelta_example :
    (out : List ResponseEntry) × (find_response_entries engine codec 10 node_a 0 one_grant ≡ ok out)
    × IsDelta engine codec one_grant 10 node_a 0 out
find_response_entries-IsDelta_example =
    find_response_entries-IsDelta engine codec (memory-IsEngine 1000) one_grant
      one_grant-IsConsistent 10 node_a 0 refl (omega arith)

insert_response_entries-IsReplicated_example :
    IsReplicated engine codec answer_1 other_grant two_grants
insert_response_entries-IsReplicated_example =
    insert_response_entries-IsReplicated engine codec (memory-IsEngine 1000) codec-IsCodec answer_1
      other_grant two_grants other_grant-IsConsistent answer_1-IsFresh other_grant_below
      answer_1_inserted

pull_catches_up_example :
    lookup_record engine codec hash_1 two_grants ≡ lookup_record engine codec hash_1 one_grant
pull_catches_up_example =
    pull_catches_up engine codec (memory-IsEngine 1000) codec-IsCodec one_grant other_grant
      two_grants 10 node_a 0 one_grant-IsConsistent other_grant-IsConsistent refl (omega arith)
      answer_1 answer_1_found (omega arith) answer_1-IsFresh other_grant_below answer_1_inserted
      entry_1 entry_1-IsMissing

insert_record-IsInserted_example :
    IsInserted engine codec node_a hash_1 grant_1 other_grant two_grants
unfolding insert_expiry passed
insert_record-IsInserted_example =
    insert_record-IsInserted engine codec (memory-IsEngine 1000) codec-IsCodec node_a hash_1 grant_1
      other_grant two_grants refl refl refl two_grants_inserted

insert_record-IsConsistent_example : IsConsistent engine codec two_grants
unfolding insert_expiry passed is_prefix
insert_record-IsConsistent_example =
    insert_record-IsConsistent engine codec (memory-IsEngine 1000) codec-IsCodec node_a hash_1
      grant_1 other_grant two_grants refl refl refl refl (λ c h. other_grant_below node_a c refl h)
      other_grant-IsConsistent two_grants_inserted

delete_record-IsConsistent_example : IsConsistent engine codec clock_left
delete_record-IsConsistent_example =
    delete_record-IsConsistent engine codec (memory-IsEngine 1000) hash_1 one_grant clock_left refl
      one_grant-IsConsistent one_grant_deleted

update_record-IsConsistent_example : IsConsistent engine codec hidden_grant
unfolding is_prefix
update_record-IsConsistent_example =
    update_record-IsConsistent engine codec (memory-IsEngine 1000) codec-IsCodec hash_1 hide
      one_grant hidden_grant refl (λ r. refl) one_grant_live refl one_grant-IsConsistent
      one_grant_hidden

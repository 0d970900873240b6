-- ===== src/Badgerauth/Records.antt =====
-- pkg/auth/badgerauth/db.go: the functions that work on one transaction, on records and on the
-- replication log. A transaction is a function of the state that it sees; one that returns an error
-- is discarded whole, so an error carries no state.
pub mod Steps
pub mod Insert
pub mod Delete
pub mod Update
use gateway_mt.Prelude.{
  ℕ, ◌+◌, ◌%◌, ◌++◌, Bool, true, false, not, List, [], ◌∷◌, ◌==◌, if◌then◌else◌,
}
use gateway_mt.Prelude.Bytes.{Bytes, eq_bytes}
use gateway_mt.Prelude.Int64.{lt_i64}
use gateway_mt.Errs.{
  Class, operation_not_supported, key_already_exists_records_not_equal, combine, wrap, Result, ok,
  err, ◌>>=◌, wrapped, is, key_not_found,
}
use gateway_mt.Badger.{Entry, Item, Badger}
use gateway_mt.Authdb.KeyHash
use gateway_mt.Badgerauth.NodeId
use gateway_mt.Badgerauth.Clock.{u64_mod, advance_clock}
use gateway_mt.Badgerauth.LogEntry.{
  LogEntry, log_prefix, entry_bytes, log_entry_of, make_iteration_start_key,
}
use gateway_mt.Badgerauth.Proto.{PbRecord, Proto, created}

-- pb.ReplicationResponseEntry
pub record ResponseEntry : Type 0 where
  pub node_id : Bytes
  pub encryption_key_hash : Bytes
  pub entry_record : PbRecord

-- errs.Combine of two writes: the second is tried also when the first has failed.
unfoldable pub both {ℓ} : {S : Type ℓ} → (S → Result S) → (S → Result S) → S → Result S
both m n s = elim (m s) [
  | ok t ↦ n t
  | err e ↦ elim (n s) [ ok t ↦ err e | err f ↦ err (combine e f) ]
]

-- the expiry that is set on both entries of a record: none unless ExpiresAtUnix > 0
unfoldable pub insert_expiry : PbRecord → ℕ
insert_expiry r = if lt_i64 0 r.expires_at_unix then r.expires_at_unix else 0

-- the two entries that InsertRecord writes: the record, and its place in the log
abbrev pub main_entry : Bytes → Bytes → PbRecord → Entry
main_entry key_hash marshaled r = record {
  key = key_hash;
  value = marshaled;
  expires_at = insert_expiry r;
}

abbrev pub rlog_entry : Bytes → ℕ → Bytes → PbRecord → Entry
rlog_entry node clock key_hash r = record {
  key = entry_bytes (record { id = node; clock = clock; key_hash = key_hash; state = r.state });
  value = [];
  expires_at = insert_expiry r;
}

module _ (b : Badger) (p : Proto) where
  open b use {State, get, set_entry, delete, seek}

  -- the sanity check of InsertRecord on what the key holds already
  unfoldable pub check_duplicate : PbRecord → Result Item → Result (Unit {0})
  check_duplicate r (ok item) = do
    loaded ← wrapped Class.badgerauth (wrapped Class.proto (item >>= p.unmarshal))
    if p.equal r loaded then ok tt else err key_already_exists_records_not_equal
  check_duplicate r (err e) = if is key_not_found e then ok tt else err (wrap Class.badgerauth e)

  -- InsertRecord
  unfoldable pub insert_record : Bytes → Bytes → PbRecord → State → Result State
  insert_record node key_hash r s =
      if not (r.state == created) then err operation_not_supported else do
        _ ← check_duplicate r (get key_hash s)
        marshaled ← wrapped Class.badgerauth (wrapped Class.proto (p.marshal r))
        (clock, t) ← wrapped Class.badgerauth (advance_clock b node s)
        wrapped Class.badgerauth (
            both (set_entry (main_entry key_hash marshaled r))
              (set_entry (rlog_entry node clock key_hash r)) t)

  -- lookupRecordWithTxn
  unfoldable pub lookup_record : Bytes → State → Result PbRecord
  lookup_record key_hash s = do item ← get key_hash s; v ← item; wrapped Class.proto (p.unmarshal v)

  -- the loop of findResponseEntries over the keys that the iterator yields
  unfoldable pub collect_entries : State → ℕ → ℕ → List Bytes → Result (List ResponseEntry)
  collect_entries s limit count [] = ok []
  collect_entries s limit count (k ∷ ks) = if count == limit then ok [] else do
    entry ← log_entry_of k
    r ← lookup_record entry.key_hash s
    rest ← collect_entries s limit (count + 1) ks
    ok (
        record { node_id = entry.id; encryption_key_hash = entry.key_hash; entry_record = r }
        ∷ rest)

  -- findResponseEntries; `clock + 1` wraps around at 2^64
  unfoldable pub find_response_entries : ℕ → Bytes → ℕ → State → Result (List ResponseEntry)
  find_response_entries limit node clock s =
      collect_entries s limit 0
        (seek (log_prefix ++ node) (make_iteration_start_key node ((clock + 1) % u64_mod)) s)

  -- the transaction of insertResponseEntries
  unfoldable pub insert_response_entries : List ResponseEntry → State → Result State
  insert_response_entries [] s = ok s
  insert_response_entries (entry ∷ entries) s = do
    id ← NodeId.set_bytes entry.node_id
    key_hash ← KeyHash.set_bytes entry.encryption_key_hash
    t ← insert_record id key_hash entry.entry_record s
    insert_response_entries entries t

  -- the transaction of updateRecord
  unfoldable pub update_record : Bytes → (PbRecord → PbRecord) → State → Result State
  update_record key_hash fn s = do
    r ← lookup_record key_hash s
    marshaled ← wrapped Class.proto (p.marshal (fn r))
    set_entry (record { key = key_hash; value = marshaled; expires_at = (fn r).expires_at_unix }) s

module _ (b : Badger) where
  open b use {State, get, set_entry, delete, seek}

  -- the loop of deleteReplicationLogEntries over the keys that the iterator yields
  unfoldable pub delete_entries : Bytes → List Bytes → State → Result State
  delete_entries sought [] s = ok s
  delete_entries sought (k ∷ ks) s = do
    entry ← log_entry_of k
    t ← if eq_bytes entry.key_hash sought then delete k s else ok s
    delete_entries sought ks t

  unfoldable pub delete_replication_log_entries : Bytes → State → Result State
  delete_replication_log_entries sought s = delete_entries sought (seek log_prefix [] s) s

  -- the transaction of deleteRecord
  unfoldable pub delete_record : Bytes → State → Result State
  delete_record key_hash s = do
    _ ← get key_hash s
    both (delete key_hash) (delete_replication_log_entries key_hash) s

-- ===== src/Badgerauth/Db.antt =====
-- pkg/auth/badgerauth/db.go: the operations of DB, each a view or a transaction with retries.
pub mod RoundTrip
pub mod Clocks
use gateway_mt.Prelude.{
  ℕ, Bool, true, false, Option, none, some, List, [], ◌∷◌, drop, length, if◌then◌else◌,
}
use mathlib.Core.Option
use gateway_mt.Prelude.Bytes.{Bytes, eq_bytes}
use gateway_mt.Prelude.Text.{codes}
use gateway_mt.Prelude.Dict
use gateway_mt.Prelude.Dict.{Dict}
use gateway_mt.Errs.{
  Error, Class, message, panic, wrap, key_already_exists, Result, ok, err, ◌>>=◌, wrapped, is,
  key_not_found,
}
use gateway_mt.Backoff.{ExponentialBackoff}
use gateway_mt.Badger.{Item, Badger}
use gateway_mt.Authdb.Record.{Time, AccessRecord}
use gateway_mt.Badgerauth.NodeId
use gateway_mt.Badgerauth.Clock.{clock_prefix, clock_of}
use gateway_mt.Badgerauth.Clock
use gateway_mt.Badgerauth.Proto.{PbRecord, Proto, created, timestamp_to_time, time_to_timestamp}
use gateway_mt.Badgerauth.Records
use gateway_mt.Badgerauth.Records.{ResponseEntry, lookup_record, insert_record}
use gateway_mt.Badgerauth.Txn.{Attempt, txn_with_backoff}

-- the fields of Config that DB reads
pub record Config : Type 0 where
  pub id : Bytes
  pub first_start : Bool
  pub replication_limit : ℕ
  pub conflict_backoff : ExponentialBackoff

abbrev pub node_id_key : Bytes
node_id_key = codes "node_id"

-- pb.ReplicationRequestEntry
pub record RequestEntry : Type 0 where
  pub node_id : Bytes
  pub clock : ℕ

-- a transaction with retries whose error is wrapped by Error.Wrap
abbrev pub run : {S : Type 0} → Config → (S → Result S) → List (Attempt S) → Option (Result S)
run cfg f attempts =
    Option.map (wrapped Class.badgerauth) (txn_with_backoff f cfg.conflict_backoff attempts)

-- the record that PutAtTime stores
unfoldable pub pb_record : AccessRecord → Time → PbRecord
pb_record r now = record {
  created_at_unix = now.unix;
  is_public = r.is_public;
  satellite_address = r.satellite_address;
  macaroon_head = r.macaroon_head;
  expires_at_unix = time_to_timestamp r.expires_at;
  encrypted_secret_key = r.encrypted_secret_key;
  encrypted_access_grant = r.encrypted_access_grant;
  invalidation_reason = [];
  invalidated_at_unix = 0;
  state = created;
}

-- the record that Get and Node.Get return
unfoldable pub access_record : PbRecord → AccessRecord
access_record r = record {
  satellite_address = r.satellite_address;
  macaroon_head = r.macaroon_head;
  encrypted_secret_key = r.encrypted_secret_key;
  encrypted_access_grant = r.encrypted_access_grant;
  expires_at = timestamp_to_time r.expires_at_unix;
  is_public = r.is_public;
}

-- the view with which PutAtTime looks for the key
unfoldable pub check_absent : Result Item → Result (Unit {0})
check_absent (ok item) = err key_already_exists
check_absent (err e) = if is key_not_found e then ok tt else err e

-- what Get makes of the record that it found
unfoldable pub readable : PbRecord → Result (Option AccessRecord)
readable r = elim r.invalidation_reason [
  | [] ↦ ok (some (access_record r))
  | c ∷ reason ↦ err (wrap Class.invalid message)
]

-- one request entry for each pair of the map, in some order
unfoldable pub request_entries : Dict ℕ → List RequestEntry
request_entries [] = []
request_entries ((id, clock) ∷ m) = record { node_id = id; clock = clock } ∷ request_entries m

module _ (b : Badger) where
  open b use {State, get, seek}

  -- the loop of readAvailableClocks over the keys that the iterator yields
  unfoldable pub read_clocks : State → List Bytes → Dict ℕ → Result (Dict ℕ)
  read_clocks s [] found = ok found
  read_clocks s (k ∷ ks) found = do
    id ← wrapped Class.clock (NodeId.set_bytes (drop (length clock_prefix) k))
    item ← get k s
    clock ← wrapped Class.clock (item >>= clock_of)
    read_clocks s ks (Dict.insert id clock found)

  unfoldable pub read_available_clocks : State → Result (Dict ℕ)
  read_available_clocks s = read_clocks s (seek clock_prefix [] s) []

module _ (b : Badger) (cfg : Config) where
  open b use {State, get, set_entry}

  -- checkFirstStart
  unfoldable pub check_first_start : State → Result (Unit {0})
  check_first_start s = if cfg.first_start then ok tt else elim (get node_id_key s) [
    | ok item ↦ ok tt
    | err e ↦ if is key_not_found e then err message else err e
  ]

  -- The function of `prepare`. An error other than ErrKeyNotFound is not returned: the code goes on
  -- with the nil item, which panics.
  unfoldable pub prepare : State → Result State
  prepare s = elim (get node_id_key s) [
    | err e ↦
        if is key_not_found e
        then wrapped Class.badgerauth
            (set_entry (record { key = node_id_key; value = cfg.id; expires_at = 0 }) s)
        else err panic
    | ok item ↦ wrapped Class.badgerauth (do
      val ← item
      if eq_bytes val cfg.id then ok s else err (wrap Class.wrong_node_id message))
  ]

  -- OpenDB after the engine is open; `prepare` runs in one transaction, which commits
  unfoldable pub open_db : State → Result State
  unfolding check_first_start prepare
  open_db s = do
    _ ← wrapped Class.badgerauth (check_first_start s)
    wrapped Class.badgerauth (prepare s)

  -- PingDB
  unfoldable pub ping_db : State → Result (Unit {0})
  ping_db s = wrapped Class.badgerauth (get node_id_key s >>= λ item. ok tt)

  -- ensureClock
  unfoldable pub ensure_clock : Bytes → List (Attempt State) → Option (Result State)
  ensure_clock id attempts = run cfg (Clock.ensure_clock b id) attempts

  -- buildRequestEntries
  unfoldable pub build_request_entries : State → Result (List RequestEntry)
  build_request_entries s = wrapped Class.badgerauth (do
    available ← read_available_clocks b s
    ok (request_entries (Dict.remove cfg.id available)))

  -- deleteRecord
  unfoldable pub delete_record : Bytes → List (Attempt State) → Option (Result State)
  delete_record key_hash attempts = run cfg (Records.delete_record b key_hash) attempts

module _ (b : Badger) (p : Proto) (cfg : Config) where
  open b use {State, get}

  -- PutAtTime, whose check sees the state `seen`
  unfoldable pub put_at_time :
      Bytes → AccessRecord → Time → State → List (Attempt State) → Option (Result State)
  unfolding check_absent
  put_at_time key_hash r now seen attempts = elim (check_absent (get key_hash seen)) [
    | err e ↦ some (err (wrap Class.badgerauth e))
    | ok _ ↦ run cfg (insert_record b p cfg.id key_hash (pb_record r now)) attempts
  ]

  -- insertResponseEntries
  unfoldable pub insert_response_entries :
      List ResponseEntry → List (Attempt State) → Option (Result State)
  insert_response_entries entries attempts =
      run cfg (Records.insert_response_entries b p entries) attempts

  -- updateRecord
  unfoldable pub update_record :
      Bytes → (PbRecord → PbRecord) → List (Attempt State) → Option (Result State)
  update_record key_hash fn attempts = run cfg (Records.update_record b p key_hash fn) attempts

module _ (b : Badger) (p : Proto) where
  -- Get; `none` is the nil record
  unfoldable pub get_record : Bytes → b.State → Result (Option AccessRecord)
  unfolding readable
  get_record key_hash s = elim (lookup_record b p key_hash s) [
    | err e ↦ if is key_not_found e then ok none else err (wrap Class.badgerauth e)
    | ok r ↦ wrapped Class.badgerauth (readable r)
  ]

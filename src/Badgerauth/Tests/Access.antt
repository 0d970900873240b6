-- ===== src/Badgerauth/Tests/Access.antt =====
-- Runs of the database of access grants on a node, with a toy cipher.
use gateway_mt.Prelude.{
  ℕ, ◌≡◌, refl, ap, sym, ◌∙◌, Bool, true, false, Option, none, some, List, [], ◌∷◌, ◌⊎◌, inl, inr,
  length, replicate, arith, All,
}
use mathlib.Core.Path.{subst}
use gateway_mt.Prelude.Bytes.{Bytes}
use gateway_mt.Prelude.Text.{to_lower}
use gateway_mt.Errs.{ok, err, message}
use gateway_mt.Badger.Memory.{memory-IsEngine, Table, read, write, passed}
use gateway_mt.Authdb.Record.{Time, AccessRecord}
use gateway_mt.Authdb.EncryptionKey.{to_storj_key}
use gateway_mt.Authdb.Expiration.{Macaroons, after, earlier, earliest, api_key_expiration}
use gateway_mt.Authdb.Kv.{IsStore}
use gateway_mt.Authdb.Database
use gateway_mt.Authdb.Database.{
  Access, NodeUrl, Libraries, parse_node_url, is_allowed, access_record, new_record,
}
use gateway_mt.Authdb.Database.RoundTrip.{IsCrypto, IsMade, get-put}
use gateway_mt.Badgerauth.Clock.{
  make_clock_key, clock_bytes, clock_of, read_clock, current_clock, advance_clock,
}
use gateway_mt.Badgerauth.LogEntry.{entry_bytes}
use gateway_mt.Badgerauth.Proto.{time_to_timestamp}
use gateway_mt.Badgerauth.Records.{insert_record, insert_expiry, both, check_duplicate}
use gateway_mt.Badgerauth.Txn.{update, after_attempt, txn_with_backoff}
use gateway_mt.Backoff.{init, next_delay, wait, maxed}
use gateway_mt.Badgerauth.Db.{pb_record, check_absent, put_at_time}
use gateway_mt.Badgerauth.Node.Store.{PutRun, IsKept, node_kv, node_kv-IsStore}
use gateway_mt.Badgerauth.Tests.Codec.{codec, codec-IsCodec, encode}
use gateway_mt.Badgerauth.Tests.Grants.{engine, node_a, hash_1, empty}
use gateway_mt.Badgerauth.Tests.Settings.{config, lost_then_kept, now}

abbrev pub expiry : Option Time
expiry = some (record { unix = 2000; nanosecond = 0 })

-- two caveats, with the expiries 3000 and 2000
abbrev macaroons : Macaroons
macaroons = record {
  caveats = λ v. ok ((3000 ∷ []) ∷ (2000 ∷ []) ∷ []);
  not_after =
      λ v. elim v [ [] ↦ ok none | n ∷ rest ↦ ok (some (record { unix = n; nanosecond = 0 })) ];
}

-- a cipher that puts the nonce before the value
abbrev pub libraries : Libraries
libraries = record {
  parse_access = λ v. ok (record { satellite_address = 1 ∷ []; api_key = v; head = [] });
  parse_node_url = λ v. ok (record { id = v; address = [] });
  is_zero = λ v. false;
  known_node_id = λ v. none;
  macaroons = macaroons;
  sum256 = λ v. hash_1;
  to_lower = to_lower;
  encrypt = λ v k n. ok (n ∷ v);
  decrypt = λ v k n. elim v [ [] ↦ err message | m ∷ rest ↦ ok rest ];
}

pub libraries-IsCrypto : IsCrypto libraries
libraries-IsCrypto = record {
  decrypt-encrypt = λ v k c n h.
      let same : ok (n ∷ v) ≡ ok c = h in
      let cut : n ∷ v ≡ c = ground (arith, same) in
      subst (λ w. libraries.decrypt w k n ≡ ok v) cut refl;
  length-sum256 = λ v. refl;
}

abbrev pub secret : Bytes
secret = replicate 32 4

abbrev pub allowed : List NodeUrl
allowed = record { id = 1 ∷ []; address = [] } ∷ []

abbrev pub run : PutRun Table
run = record { now = now; seen = empty; attempts = lost_then_kept empty }

abbrev made_record : AccessRecord
made_record =
    access_record (record { satellite_address = 1 ∷ []; api_key = 9 ∷ []; head = [] }) (0 ∷ secret)
      (1 ∷ 9 ∷ []) (some (record { unix = 2000; nanosecond = 0 })) true

abbrev pub stored : Table
stored =
    record {
      key = entry_bytes (record { id = node_a; clock = 1; key_hash = hash_1; state = 0 });
      value = [];
      expires_at = 2000;
    }
    ∷ record { key = hash_1; value = encode (pb_record made_record now); expires_at = 2000 }
    ∷ record { key = make_clock_key node_a; value = clock_bytes 1; expires_at = 0 }
    ∷ []

put_ran :
    Database.put libraries
      (node_kv engine codec config [])
      allowed
      (5 ∷ [])
      (9 ∷ [])
      true
      (ok secret)
      run
    ≡ some (ok (secret, stored))
unfolding Database.put new_record parse_node_url is_allowed to_storj_key api_key_expiration earliest
    earlier after put_at_time check_absent read pb_record time_to_timestamp txn_with_backoff update
    after_attempt wait maxed init next_delay insert_record both advance_clock current_clock
    check_duplicate codec insert_expiry read_clock clock_of write passed
    gateway_mt.Prelude.Bytes.eq_bytes
put_ran = refl

node_kv-IsStore_example : IsStore (node_kv engine codec config []) (IsKept engine codec config [])
node_kv-IsStore_example =
    node_kv-IsStore engine codec config [] (memory-IsEngine 1000) codec-IsCodec refl

storable :
    (r : AccessRecord)
    → IsMade libraries allowed (5 ∷ []) (9 ∷ []) true (ok secret) secret r
    → IsKept engine codec config [] run r
unfolding api_key_expiration earliest earlier after insert_expiry pb_record time_to_timestamp passed
storable r made =
    let same : ok expiry ≡ ok r.expires_at = made.expiration in
    let is : expiry ≡ r.expires_at = cc in
    subst (λ (o : Option Time). IsKept engine codec config [] run (record r { expires_at = o })) is
      ((refl, refl), refl)

get-put_example :
    Database.get libraries (node_kv engine codec config []) (5 ∷ []) stored
    ≡ ok (9 ∷ [], true, secret)
get-put_example =
    get-put libraries (node_kv engine codec config []) (IsKept engine codec config [])
      libraries-IsCrypto
      (node_kv-IsStore engine codec config [] (memory-IsEngine 1000) codec-IsCodec refl) allowed
      (5 ∷ []) (9 ∷ []) true (ok secret) run secret stored refl storable put_ran

abbrev bucket : AccessRecord
bucket = access_record (record { satellite_address = []; api_key = []; head = [] }) [] [] none false

abbrev pub with_bucket : Table
with_bucket =
    record {
      key = entry_bytes (record { id = node_a; clock = 1; key_hash = hash_1; state = 0 });
      value = [];
      expires_at = 0;
    }
    ∷ record { key = hash_1; value = encode (pb_record bucket now); expires_at = 0 }
    ∷ record { key = make_clock_key node_a; value = clock_bytes 1; expires_at = 0 }
    ∷ []

pub bucket_put :
    Database.put_bucket (node_kv engine codec config []) hash_1 run ≡ some (ok with_bucket)
unfolding Database.put_bucket put_at_time check_absent read pb_record time_to_timestamp
    txn_with_backoff update after_attempt wait maxed init next_delay insert_record both
    advance_clock current_clock check_duplicate codec insert_expiry read_clock clock_of write passed
bucket_put = refl

pub bucket-IsKept : (r : AccessRecord) → r.expires_at ≡ none → IsKept engine codec config [] run r
unfolding insert_expiry pb_record time_to_timestamp passed
bucket-IsKept r h =
    subst (λ (o : Option Time). IsKept engine codec config [] run (record r { expires_at = o }))
      (sym h) (tt, refl)

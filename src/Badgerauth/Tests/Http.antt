-- ===== src/Badgerauth/Tests/Http.antt =====
-- Requests to the HTTP and DRPC servers of the auth service over the store of one node.
use gateway_mt.Prelude.{
  ℕ, zero, suc, ◌≡◌, refl, ap, sym, ◌∙◌, Bool, true, false, Option, none, some, List, [], ◌∷◌, ◌++◌,
  ◌⊎◌, inl, inr, length, replicate, arith, All,
}
use mathlib.Core.Path.{subst}
use gateway_mt.Prelude.Bytes.{Bytes}
use gateway_mt.Prelude.Text.{codes}
use gateway_mt.Errs.{ok}
use gateway_mt.Badger.Memory.{memory-IsEngine, read, write, passed}
use gateway_mt.Authdb.Record.{Time, AccessRecord}
use gateway_mt.Authdb.Base32.RoundTrip.{IsByte}
use gateway_mt.Authdb.EncryptionKey.{
  to_storj_key, to_base32, secret_to_base32, from_base32, from_base32-to_base32,
}
use gateway_mt.Authdb.Expiration.{after, earlier, earliest, api_key_expiration}
use gateway_mt.Authdb.Kv.{Kv}
use gateway_mt.Authdb.Database
use gateway_mt.Authdb.Database.{parse_node_url, is_allowed, new_record}
use gateway_mt.Authdb.Database.RoundTrip.{IsMade}
use gateway_mt.Badgerauth.Clock.{clock_of, read_clock, current_clock, advance_clock}
use gateway_mt.Badgerauth.Proto.{time_to_timestamp}
use gateway_mt.Badgerauth.Records.{insert_record, insert_expiry, both, check_duplicate}
use gateway_mt.Badgerauth.Txn.{update, after_attempt, txn_with_backoff}
use gateway_mt.Backoff.{init, next_delay, wait, maxed}
use gateway_mt.Badgerauth.Db.{get_record, pb_record, check_absent, put_at_time}
use gateway_mt.Badgerauth.Node.Store.{IsKept, node_kv, node_kv-IsStore}
use gateway_mt.Badgerauth.Tests.Codec.{codec, codec-IsCodec}
use gateway_mt.Badgerauth.Tests.Grants.{engine, empty, hash_1}
use gateway_mt.Badgerauth.Tests.Settings.{config}
use gateway_mt.Badgerauth.Tests.Access.{
  libraries, libraries-IsCrypto, secret, allowed, run, stored, expiry, with_bucket, bucket_put,
  bucket-IsKept,
}
use gateway_mt.HttpAuth.Resources.{
  Status, Body, Response, Decoded, Settings, Request, State, answer, cors, request_authorized,
  new_access, after_put, serve_http, get_bucket, after_put_bucket, bucket_hash,
}
use gateway_mt.HttpAuth.Routes.{handler-new_access, handler-get_bucket}
use gateway_mt.HttpAuth.Registration.{serve_http-registered}
use gateway_mt.HttpAuth.Buckets.{serve_http-bucket_taken}
use gateway_mt.DrpcAuth.{register_access, Agrees, register_access-new_access}

abbrev store : Kv
store = node_kv engine codec config []

abbrev key : Bytes
key = replicate 16 5

abbrev settings : Settings
settings = record {
  endpoint = 1 ∷ [];
  auth_token = codes "t" ∷ [];
  post_size_limit = 4096;
  allowed = allowed;
}

abbrev post : Request store
post = record {
  target = record { method = codes "POST"; path = codes "/v1/access"; argument = [] };
  content_length = 20;
  authorization = [];
  bucket = [];
  decoded = Decoded.new_access_request (9 ∷ []) true;
  random_key = ok key;
  random_secret = ok secret;
  run = run;
}

abbrev fetch : Request store
fetch = record post {
  target = record {
    method = codes "GET";
    path = codes "/v1/access/" ++ to_base32 key;
    argument = [];
  };
  content_length = 0;
  authorization = codes "Bearer t";
}

abbrev started : State store
started = record { store = empty; startup = true; in_shutdown = false }

abbrev registered : State store
registered = record started { store = stored }

abbrev created : Response
created =
    cors Status.ok_200 (Body.access_created (to_base32 key) (secret_to_base32 secret) (1 ∷ []))

put_key :
    Database.put libraries store allowed key (9 ∷ []) true (ok secret) run
    ≡ some (ok (secret, stored))
unfolding Database.put new_record parse_node_url is_allowed to_storj_key api_key_expiration earliest
    earlier after put_at_time check_absent read pb_record time_to_timestamp txn_with_backoff update
    after_attempt wait maxed init next_delay insert_record both advance_clock current_clock
    check_duplicate codec insert_expiry read_clock clock_of write passed
    gateway_mt.Prelude.Bytes.eq_bytes
put_key = refl

posted : serve_http libraries store settings post started ≡ some (created, registered)
unfolding serve_http new_access after_put
posted = handler-new_access libraries store settings post started [] ∙ rw (new_access, put_key) refl

storable :
    (r : AccessRecord)
    → IsMade libraries allowed key (9 ∷ []) true (ok secret) secret r
    → IsKept engine codec config [] run r
unfolding api_key_expiration earliest earlier after insert_expiry pb_record time_to_timestamp passed
storable r made =
    let same : ok expiry ≡ ok r.expires_at = made.expiration in
    let is : expiry ≡ r.expires_at = cc in
    subst (λ (o : Option Time). IsKept engine codec config [] run (record r { expires_at = o })) is
      ((refl, refl), refl)

fives-bytes : (n : ℕ) → All IsByte (replicate n 5)
fives-bytes zero = tt
fives-bytes (suc n) = (omega arith, fives-bytes n)

serve_http-registered_example :
    (created.body ≡ Body.access_created (to_base32 key) (secret_to_base32 secret) (1 ∷ []))
    × (serve_http libraries store settings fetch registered
        ≡ some (
          answer Status.ok_200 (Body.access (9 ∷ []) (secret_to_base32 secret) true),
          registered,
        ))
unfolding request_authorized gateway_mt.Prelude.Bytes.eq_bytes
serve_http-registered_example =
    serve_http-registered libraries store settings (IsKept engine codec config [])
      libraries-IsCrypto
      (node_kv-IsStore engine codec config [] (memory-IsEngine 1000) codec-IsCodec refl) key
      (9 ∷ []) secret true post fetch started registered created refl refl refl refl
      (fives-bytes 16) refl refl storable posted refl (refl, refl, refl)

from_base32-to_base32_example : from_base32 (replicate 16 0) (to_base32 key) ≡ ok key
from_base32-to_base32_example =
    from_base32-to_base32 (replicate 16 0) key refl refl (fives-bytes 16)

register_access-new_access_example :
    Agrees libraries store settings started
      (register_access libraries store settings 4096 (9 ∷ []) true (ok key) (ok secret) run)
      (new_access libraries store settings post started)
register_access-new_access_example =
    register_access-new_access libraries store settings 4096 (9 ∷ []) true post started refl refl

abbrev claim : Request store
claim = record fetch {
  target = record { method = codes "GET"; path = codes "/v1/bucket"; argument = [] };
  bucket = codes "Photos";
}

abbrev claimed : State store
claimed = record started { store = with_bucket }

claim_authorized : request_authorized settings.auth_token claim.authorization ≡ true
unfolding request_authorized gateway_mt.Prelude.Bytes.eq_bytes
claim_authorized = refl

nothing_claimed : Database.get_bucket store hash_1 empty ≡ ok false
unfolding Database.get_bucket read gateway_mt.Badgerauth.Node.node_get get_record passed
    gateway_mt.Prelude.Bytes.eq_bytes gateway_mt.Badgerauth.Records.lookup_record
nothing_claimed = refl

claimed_first :
    serve_http libraries store settings claim started
    ≡ some (answer Status.ok_200 Body.bucket_available, claimed)
unfolding serve_http get_bucket bucket_hash after_put_bucket gateway_mt.Authdb.KeyHash.set_bytes
claimed_first =
    handler-get_bucket libraries store settings claim started []
    ∙ rw (get_bucket, claim_authorized, bucket_hash, nothing_claimed, bucket_put) refl

serve_http-bucket_taken_example :
    serve_http libraries store settings (record claim { bucket = codes "PHOTOS" }) claimed
    ≡ some (answer Status.ok_200 Body.bucket_taken, claimed)
unfolding request_authorized gateway_mt.Prelude.Text.to_lower gateway_mt.Prelude.Bytes.eq_bytes
serve_http-bucket_taken_example =
    serve_http-bucket_taken libraries store settings libraries-IsCrypto
      (IsKept engine codec config [])
      (node_kv-IsStore engine codec config [] (memory-IsEngine 1000) codec-IsCodec refl) claim
      (record claim { bucket = codes "PHOTOS" }) started claimed
      (answer Status.ok_200 Body.bucket_available) bucket-IsKept (refl, refl, refl)
      (refl, refl, refl) refl claimed_first refl

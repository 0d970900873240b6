-- ===== src/Authdb/Database.antt =====
-- pkg/auth/authdb/db.go: Database, which stores access grants encrypted under a hash of the access key.
-- The encryption, the hash and the parsing of grants (storj.io/common and crypto/sha256) are
-- parameters; pkg/nodelist/nodelist.go: ParseNodeURL.
pub mod RoundTrip
use gateway_mt.Prelude.{
  ℕ, Bool, true, false, Option, none, some, List, [], ◌∷◌, ◌++◌, take, replicate, if◌then◌else◌,
}
use mathlib.Core.Option
use gateway_mt.Prelude.Bytes.{Bytes, eq_bytes}
use gateway_mt.Prelude.Dict
use gateway_mt.Prelude.Dict.{Dict}
use gateway_mt.Errs.{Class, message, wrap, Result, ok, err, ◌>>=◌, wrapped}
use gateway_mt.Authdb.Record.{Time, AccessRecord}
use gateway_mt.Authdb.EncryptionKey.{to_storj_key, copy_into}
use gateway_mt.Authdb.Expiration.{Macaroons, api_key_expiration}
use gateway_mt.Authdb.Kv.{Kv}

-- what grant.ParseAccess finds in an access grant
pub record Access : Type 0 where
  pub satellite_address : Bytes
  pub api_key : Bytes
  pub head : Bytes

-- storj.NodeURL
pub record NodeUrl : Type 0 where
  pub id : Bytes
  pub address : Bytes

-- the libraries, with strings.ToLower; a nonce is the first byte of a storj.Nonce whose other bytes are zeros
pub record Libraries : Type 0 where
  pub parse_access : Bytes → Result Access
  pub parse_node_url : Bytes → Result NodeUrl
  pub is_zero : Bytes → Bool
  pub known_node_id : Bytes → Option Bytes
  pub macaroons : Macaroons
  pub sum256 : Bytes → Bytes
  pub to_lower : Bytes → Bytes
  pub encrypt : Bytes → Bytes → ℕ → Result Bytes
  pub decrypt : Bytes → Bytes → ℕ → Result Bytes

-- nodelist.ParseNodeURL: the id of a known node is filled in
unfoldable pub parse_node_url : Libraries → Bytes → Result NodeUrl
parse_node_url l s = do
  url ← wrapped Class.node_list (l.parse_node_url s)
  (if l.is_zero url.id
      then (elim (l.known_node_id url.address) [
        | none ↦ err (wrap Class.node_list message)
        | some id ↦ ok (record url { id = id })
      ])
      else ok url)

-- whether the map allowedSatelliteURLs has a URL
unfoldable pub is_allowed : List NodeUrl → NodeUrl → Bool
is_allowed [] url = false
is_allowed (a ∷ allowed) url =
    if eq_bytes a.id url.id
    then (if eq_bytes a.address url.address then true else is_allowed allowed url)
    else is_allowed allowed url

abbrev pub access_record : Access → Bytes → Bytes → Option Time → Bool → AccessRecord
access_record access secret grant expiration public = record {
  satellite_address = access.satellite_address;
  macaroon_head = access.head;
  encrypted_secret_key = secret;
  encrypted_access_grant = grant;
  expires_at = expiration;
  is_public = public;
}

-- the part of Put before the store is asked; `random` is what rand.Read gives, and the new secret key
unfoldable pub new_record :
    Libraries → List NodeUrl → Bytes → Bytes → Bool → Result Bytes → Result (Bytes × AccessRecord)
unfolding parse_node_url is_allowed to_storj_key api_key_expiration
new_record l allowed key access_grant public random = do
  access ← wrapped Class.access_grant (l.parse_access access_grant)
  url ← wrapped Class.access_grant (parse_node_url l access.satellite_address)
  secret_key ← if is_allowed allowed url then random else err (wrap Class.access_grant message)
  encrypted_secret_key ← l.encrypt secret_key (to_storj_key key) 0
  encrypted_access_grant ← l.encrypt access_grant (to_storj_key key) 1
  expiration ← api_key_expiration l.macaroons access.api_key
  ok (
    secret_key,
    access_record access encrypted_secret_key encrypted_access_grant expiration public,
  )

-- the answer of Put: the secret key with the new state
abbrev pub with_secret : {S : Type 0} → Bytes → Result S → Result (Bytes × S)
with_secret secret_key (ok s) = ok (secret_key, s)
with_secret secret_key (err e) = err e

module _ (l : Libraries) (kv : Kv) where
  -- Put
  unfoldable pub put :
      List NodeUrl
      → Bytes
      → Bytes
      → Bool
      → Result Bytes
      → kv.Run
      → Option (Result (Bytes × kv.State))
  unfolding new_record
  put allowed key access_grant public random run =
      elim (new_record l allowed key access_grant public random) [
        | err e ↦ some (err e)
        | ok (secret_key, r) ↦ Option.map (with_secret secret_key) (kv.put run (l.sum256 key) r)
      ]

  -- Get: the access grant, whether it is public, and the secret key
  unfoldable pub get : Bytes → kv.State → Result (Bytes × Bool × Bytes)
  unfolding to_storj_key copy_into
  get key s = do
    found ← kv.get (l.sum256 key) s
    elim found [
      | none ↦ err (wrap Class.not_found message)
      | some r ↦ do
        sk ← l.decrypt r.encrypted_secret_key (to_storj_key key) 0
        ag ← l.decrypt r.encrypted_access_grant (to_storj_key key) 1
        ok (ag, r.is_public, copy_into (replicate 32 0) sk)
    ]

module _ (kv : Kv) where
  -- GetBucket: whether there is a record
  unfoldable pub get_bucket : Bytes → kv.State → Result Bool
  get_bucket key_hash s = do
    found ← kv.get key_hash s
    elim found [ none ↦ ok false | some r ↦ ok true ]

  -- PutBucket, which puts an empty record
  unfoldable pub put_bucket : Bytes → kv.Run → Option (Result kv.State)
  put_bucket key_hash run =
      kv.put run key_hash (
        access_record (record { satellite_address = []; api_key = []; head = [] }) [] [] none false)

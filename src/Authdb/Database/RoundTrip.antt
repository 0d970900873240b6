-- ===== src/Authdb/Database/RoundTrip.antt =====
-- What Database stores it gives back, and it stores grants of allowed satellites only (db.go).
use gateway_mt.Prelude.{
  ℕ, ◌≡◌, refl, sym, ap, ◌∙◌, Bool, true, false, Option, none, some, List, length, replicate,
  if◌then◌else◌, arith, inl, inr,
}
use mathlib.Core.Path.{subst}
use mathlib.Core.Option
use gateway_mt.Prelude.Bytes.{Bytes}
use gateway_mt.Errs.{
  Class, message, wrap, Result, ok, err, wrapped, >>=-eq-ok, wrapped-eq-ok, Result-cases,
}
use gateway_mt.Authdb.Record.{Time, AccessRecord}
use gateway_mt.Authdb.EncryptionKey.{to_storj_key, copy_into_all}
use gateway_mt.Authdb.Expiration.{api_key_expiration}
use gateway_mt.Authdb.Kv.{Kv, IsStore}
use gateway_mt.Authdb.Database.{
  Access, NodeUrl, Libraries, parse_node_url, is_allowed, access_record, new_record, with_secret,
  put, get, get_bucket, put_bucket,
}

-- A value is decrypted with the key and the nonce that it was encrypted with, and a hash has 32 bytes.
pub record IsCrypto (l : Libraries) : Type 0 where
  pub decrypt-encrypt : (v k c : Bytes) (n : ℕ) → l.encrypt v k n ≡ ok c → l.decrypt c k n ≡ ok v
  pub length-sum256 : (v : Bytes) → length (l.sum256 v) ≡ 32

-- how a record for the store was made
pub record IsMade (l : Libraries) (allowed : List NodeUrl) (key grant : Bytes) (public : Bool)
    (random : Result Bytes) (secret : Bytes) (r : AccessRecord) : Type 0 where
  pub access : Access
  pub parsed : l.parse_access grant ≡ ok access
  pub url : NodeUrl
  pub satellite : parse_node_url l access.satellite_address ≡ ok url
  pub is_member : is_allowed allowed url ≡ true
  pub drawn : random ≡ ok secret
  pub encrypted_secret : l.encrypt secret (to_storj_key key) 0 ≡ ok r.encrypted_secret_key
  pub encrypted_grant : l.encrypt grant (to_storj_key key) 1 ≡ ok r.encrypted_access_grant
  pub expiration : api_key_expiration l.macaroons access.api_key ≡ ok r.expires_at
  pub published : r.is_public ≡ public

when_true :
    {A : Type 0} (x : Bool) (m : Result A) (e : _) {a : A}
    → (if x then m else err e) ≡ ok a
    → (x ≡ true) × (m ≡ ok a)
when_true true m e h = (refl, h)
when_true false m e h = absurd (let g = h in cc)

new_record-IsMade :
    (l : Libraries) (allowed : List NodeUrl) (key grant : Bytes) (public : Bool)
    (random : Result Bytes) (secret : Bytes) (r : AccessRecord)
    → new_record l allowed key grant public random ≡ ok (secret, r)
    → IsMade l allowed key grant public random secret r
unfolding new_record
new_record-IsMade l allowed key grant public random secret r h =
    let (access, p0, h1) = >>=-eq-ok (wrapped Class.access_grant (l.parse_access grant)) _ h in
    let (url, p1, h2) =
      >>=-eq-ok (wrapped Class.access_grant (parse_node_url l access.satellite_address)) _ h1 in
    let (sk, p2, h3) =
      >>=-eq-ok (if is_allowed allowed url then random else err (wrap Class.access_grant message)) _
        h2 in
    let (es, p3, h4) = >>=-eq-ok (l.encrypt sk (to_storj_key key) 0) _ h3 in
    let (eg, p4, h5) = >>=-eq-ok (l.encrypt grant (to_storj_key key) 1) _ h4 in
    let (x, p5, h6) = >>=-eq-ok (api_key_expiration l.macaroons access.api_key) _ h5 in
    made access url sk es eg x (wrapped-eq-ok _ _ p0) (wrapped-eq-ok _ _ p1) (when_true _ _ _ p2) p3
      p4 p5 (ground (arith, h6)) (ground (arith, h6))
  where
    made :
        (access : Access) (url : NodeUrl) (sk es eg : Bytes) (x : Option Time)
        → l.parse_access grant ≡ ok access
        → parse_node_url l access.satellite_address ≡ ok url
        → (is_allowed allowed url ≡ true) × (random ≡ ok sk)
        → l.encrypt sk (to_storj_key key) 0 ≡ ok es
        → l.encrypt grant (to_storj_key key) 1 ≡ ok eg
        → api_key_expiration l.macaroons access.api_key ≡ ok x
        → sk ≡ secret
        → access_record access es eg x public ≡ r
        → IsMade l allowed key grant public random secret r
    made access url sk es eg x q0 q1 (q2, q2') q3 q4 q5 s t = record {
      access = access;
      parsed = q0;
      url = url;
      satellite = q1;
      is_member = q2;
      drawn = q2' ∙ ap ok s;
      encrypted_secret =
          subst (λ v. l.encrypt v (to_storj_key key) 0 ≡ ok es) s q3
          ∙ ap (λ (q : AccessRecord). ok q.encrypted_secret_key) t;
      encrypted_grant = q4 ∙ ap (λ (q : AccessRecord). ok q.encrypted_access_grant) t;
      expiration = q5 ∙ ap (λ (q : AccessRecord). ok q.expires_at) t;
      published = sym (ap (λ (q : AccessRecord). q.is_public) t);
    }

module _ (l : Libraries) (kv : Kv) where
  map_bind :
      (secret sk : Bytes) (o : Option (Result kv.State)) {t : kv.State}
      → Option.map (with_secret sk) o ≡ some (ok (secret, t))
      → (sk ≡ secret) × (o ≡ some (ok t))
  map_bind secret sk none h = absurd (let g = h in cc)
  map_bind secret sk (some (ok s)) h = (ground arith, ground arith)
  map_bind secret sk (some (err e)) h = absurd (let g = h in cc)

  -- If Put succeeds, then it has put a record in the store under the hash of the access key, and
  -- the record was made from the access grant: its satellite is allowed, the secret key and the
  -- grant are encrypted with the access key, the expiry is that of the API key, and its publicity
  -- is the given one.
  pub put-IsMade :
      (allowed : List NodeUrl) (key grant : Bytes) (public : Bool) (random : Result Bytes)
      (run : kv.Run) (secret : Bytes) (t : kv.State)
      → put l kv allowed key grant public random run ≡ some (ok (secret, t))
      → (r : AccessRecord) × IsMade l allowed key grant public random secret r
        × (kv.put run (l.sum256 key) r ≡ some (ok t))
  unfolding put
  put-IsMade allowed key grant public random run secret t h =
      elim (Result-cases (new_record l allowed key grant public random)) [
        | inl ((sk, r), made) ↦
            let (same, done) =
              map_bind secret sk (kv.put run (l.sum256 key) r) (rw (made, put) at h) in
            (
              r,
              new_record-IsMade l allowed key grant public random secret r
                  (made ∙ ap (λ (x : Bytes). ok (x, r)) same),
              done,
            )
        | inr (e, failed) ↦ absurd (let g = rw (failed, put) at h in cc)
      ]

  -- On a store that gives back the records it can keep, with an encryption that decrypts and a
  -- hash of 32 bytes: if Put succeeds with a secret key of 32 bytes and the record it makes is one
  -- that the store can keep, then Get with the same access key returns the access grant and the
  -- publicity that Put was given and the secret key that it returned.
  pub get-put :
      (IsStorable : kv.Run → AccessRecord → Type 0) (crypto : IsCrypto l)
      (store : IsStore kv IsStorable) (allowed : List NodeUrl) (key grant : Bytes) (public : Bool)
      (random : Result Bytes) (run : kv.Run) (secret : Bytes) (t : kv.State)
      → length secret ≡ 32
      → ((r : AccessRecord) → IsMade l allowed key grant public random secret r → IsStorable run r)
      → put l kv allowed key grant public random run ≡ some (ok (secret, t))
      → get l kv key t ≡ ok (grant, public, secret)
  unfolding get
  get-put IsStorable crypto store allowed key grant public random run secret t size storable h =
      let (r, made, done) = put-IsMade allowed key grant public random run secret t h in
      let found =
        store.get-put run (l.sum256 key) r t (crypto.length-sum256 key) (storable r made) done in
      let s = crypto.decrypt-encrypt _ _ _ 0 made.encrypted_secret in
      let g = crypto.decrypt-encrypt _ _ _ 1 made.encrypted_grant in
      rw (found, s, g, made.published, copy_into_all (replicate 32 0) secret (sym size)) refl

-- On a store that gives back the records it can keep and can keep those without an expiry: if
-- PutBucket succeeds for a key hash of 32 bytes, then GetBucket finds it.
pub get_bucket-put_bucket :
    (kv : Kv) (IsStorable : kv.Run → AccessRecord → Type 0)
    → IsStore kv IsStorable
    → (key_hash : Bytes) (run : kv.Run) (t : kv.State) → length key_hash ≡ 32
    → ((r : AccessRecord) → r.expires_at ≡ none → IsStorable run r)
    → put_bucket kv key_hash run ≡ some (ok t)
    → get_bucket kv key_hash t ≡ ok true
unfolding put_bucket get_bucket
get_bucket-put_bucket kv IsStorable store key_hash run t hk keeps h =
    rw (store.get-put run key_hash _ t hk (keeps _ refl) h) refl

-- ===== src/HttpAuth/Buckets.antt =====
-- A bucket's name is given away once (resources.go: getBucket).
use gateway_mt.Prelude.{
  ◌≡◌, refl, sym, ◌∙◌, ◌++◌, true, false, Option, none, some, [], ltb, arith, inl, inr,
}
use mathlib.Core.Path.{subst}
use mathlib.Core.Option
use gateway_mt.Prelude.Bytes.{Bytes}
use gateway_mt.Prelude.Text.{codes}
use gateway_mt.Errs.{Result, ok, err, Result-cases}
use gateway_mt.Errs.{Class}
use gateway_mt.Authdb.KeyHash
use gateway_mt.Authdb.Record.{AccessRecord}
use gateway_mt.Authdb.Kv.{Kv, IsStore}
use gateway_mt.Authdb.Database
use gateway_mt.Authdb.Database.{Libraries}
use gateway_mt.Authdb.Database.RoundTrip.{IsCrypto, get_bucket-put_bucket}
use gateway_mt.Badgerauth.NodeId.{fill_32_exact}
use gateway_mt.HttpAuth.Resources.{
  Status, Body, Response, Settings, Request, State, answer, request_authorized, little_salt,
  bucket_hash, after_put_bucket, get_bucket, serve_http,
}
use gateway_mt.HttpAuth.Routes.{handler-get_bucket}

module _ (l : Libraries) (kv : Kv) (settings : Settings) where
  -- a request for a bucket's name that is authorized and not too long
  abbrev pub IsBucketRequest : Request kv → Type 0
  IsBucketRequest r =
      (r.target ≡ record { method = codes "GET"; path = codes "/v1/bucket"; argument = [] })
      × (ltb settings.post_size_limit r.content_length ≡ false)
      × (request_authorized settings.auth_token r.authorization ≡ true)

  serve_http-get_bucket :
      (r : Request kv) (s : State kv)
      → IsBucketRequest r
      → serve_http l kv settings r s ≡ get_bucket l kv settings r s
  unfolding serve_http
  serve_http-get_bucket r s (target, small, _) =
      rw (small, target) (handler-get_bucket l kv settings r s [])

  after_put_bucket-available :
      (s t : State kv) (resp : Response) (o : Option (Result kv.State))
      → Option.map (after_put_bucket l kv settings s) o ≡ some (resp, t)
      → resp.body ≡ Body.bucket_available
      → o ≡ some (ok t.store)
  unfolding after_put_bucket
  after_put_bucket-available s t resp none h given = absurd (let g = h in cc)
  after_put_bucket-available s t resp (some (ok u)) h given = ground (arith, h)
  after_put_bucket-available s t resp (some (err e)) h given = absurd (ground (arith, h, given))

  module _ (crypto : IsCrypto l) where
    -- the key hash of a bucket
    hash_of : Bytes → Bytes
    hash_of name = l.sum256 (little_salt ++ l.to_lower name)

    bucket_hash-hash_of : (name : Bytes) → bucket_hash l kv settings name ≡ ok (hash_of name)
    unfolding bucket_hash hash_of KeyHash.set_bytes
    bucket_hash-hash_of name =
        fill_32_exact Class.key_hash (l.sum256 (little_salt ++ l.to_lower name))
          (crypto.length-sum256 _)

    get_bucket-available :
        (r : Request kv) (s t : State kv) (resp : Response)
        → request_authorized settings.auth_token r.authorization ≡ true
        → get_bucket l kv settings r s ≡ some (resp, t)
        → resp.body ≡ Body.bucket_available
        → Database.put_bucket kv (hash_of r.bucket) r.run ≡ some (ok t.store)
    unfolding get_bucket
    get_bucket-available r s t resp authorized h given =
        let hash = bucket_hash-hash_of r.bucket in
        elim (Result-cases (Database.get_bucket kv (hash_of r.bucket) s.store)) [
          | inl (true, found) ↦
              let g : some (answer Status.ok_200 Body.bucket_taken, s) ≡ some (resp, t) =
                rw (authorized, hash, found, get_bucket) at h in
              absurd (ground (arith, g, given))
          | inl (false, found) ↦
              after_put_bucket-available s t resp _ (rw (authorized, hash, found, get_bucket) at h)
                given
          | inr (e, failed) ↦
              let g : some (answer Status.internal_server_error Body.message, s) ≡ some (resp, t) =
                rw (authorized, hash, failed, get_bucket) at h in
              absurd (ground (arith, g, given))
        ]

    -- On a store that gives back the records it can keep and can keep those without an expiry,
    -- with a hash of 32 bytes: if an authorized GET of /v1/bucket, whose length is within the
    -- limit, was answered that the bucket is available, then in the state that it left such a
    -- request for a name that strings.ToLower lowers to the same text is answered that the bucket
    -- is taken, and leaves that state.
    pub serve_http-bucket_taken :
        (IsStorable : kv.Run → AccessRecord → Type 0) (store : IsStore kv IsStorable)
        (r q : Request kv) (s t : State kv) (resp : Response)
        → ((x : AccessRecord) → x.expires_at ≡ none → IsStorable r.run x)
        → IsBucketRequest r
        → IsBucketRequest q
        → l.to_lower r.bucket ≡ l.to_lower q.bucket
        → serve_http l kv settings r s ≡ some (resp, t)
        → resp.body ≡ Body.bucket_available
        → serve_http l kv settings q t ≡ some (answer Status.ok_200 Body.bucket_taken, t)
    unfolding get_bucket hash_of
    serve_http-bucket_taken IsStorable store r q s t resp keeps first second same h given =
        let (_, _, authorized) = first in
        let (_, _, allowed) = second in
        let put =
          get_bucket-available r s t resp authorized (sym (serve_http-get_bucket r s first) ∙ h)
            given in
        let found : Database.get_bucket kv (hash_of r.bucket) t.store ≡ ok true =
          get_bucket-put_bucket kv IsStorable store (hash_of r.bucket) r.run t.store
            (crypto.length-sum256 _) keeps put in
        let there : Database.get_bucket kv (hash_of q.bucket) t.store ≡ ok true =
          subst (λ n. Database.get_bucket kv (l.sum256 (little_salt ++ n)) t.store ≡ ok true) same
            found in
        serve_http-get_bucket q t second
        ∙ rw (get_bucket, allowed, bucket_hash-hash_of q.bucket, there) refl

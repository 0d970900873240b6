-- ===== src/HttpAuth/Registration.antt =====
-- Registration, end to end (resources.go with authdb/db.go): what is registered can be fetched, and a
-- bucket's name is given away once.
use gateway_mt.Prelude.{
  ℕ, ◌≡◌, refl, sym, ap, ◌∙◌, ◌++◌, Bool, true, false, Option, none, some, List, [], ◌∷◌, ltb,
  length, replicate, All, arith, Bool-cases, inl, inr,
}
use mathlib.Core.Path.{subst}
use mathlib.Core.Option
use gateway_mt.Prelude.Bytes.{Bytes}
use gateway_mt.Prelude.Text.{codes}
use gateway_mt.Errs.{Result, ok, err}
use gateway_mt.Authdb.Record.{AccessRecord}
use gateway_mt.Authdb.Kv.{Kv, IsStore}
use gateway_mt.Authdb.Base32.{symbols, encode_lower, fives, all_bits, bits_8}
use gateway_mt.Authdb.Base32.RoundTrip.{IsByte}
use gateway_mt.Authdb.EncryptionKey.{to_binary, to_base32, secret_to_base32, from_base32-to_base32}
use gateway_mt.Authdb.Database
use gateway_mt.Authdb.Database.{Libraries}
use gateway_mt.Authdb.Database.RoundTrip.{IsCrypto, IsMade, put-IsMade, get-put}
use gateway_mt.HttpAuth.Mux.{Target, index_byte, slash}
use gateway_mt.HttpAuth.Resources.{
  Status, Body, Response, Decoded, Settings, Request, State, answer, cors, request_authorized,
  after_put, new_access, after_get, get_access, handler, serve_http,
}
use gateway_mt.HttpAuth.Routes.{handler-get_access, handler-new_access}

-- A printed key has no slash.
index_byte-symbols : (vs : List ℕ) → index_byte slash (symbols vs) ≡ none
unfolding index_byte symbols
index_byte-symbols [] = refl
index_byte-symbols (v ∷ vs) = ground (arith, index_byte-symbols vs)

index_byte-to_base32 : (k : Bytes) → index_byte slash (to_base32 k) ≡ none
unfolding to_base32 encode_lower
index_byte-to_base32 k = index_byte-symbols (fives (all_bits bits_8 (to_binary k)))

module _ (l : Libraries) (kv : Kv) (settings : Settings) where
  -- the requests of a client
  abbrev pub IsPost : Request kv → Type 0
  IsPost r = r.target ≡ record { method = codes "POST"; path = codes "/v1/access"; argument = [] }

  abbrev pub IsGet : Bytes → Request kv → Type 0
  IsGet id r =
      (r.target ≡ record { method = codes "GET"; path = codes "/v1/access/" ++ id; argument = [] })
      × (ltb settings.post_size_limit r.content_length ≡ false)
      × (request_authorized settings.auth_token r.authorization ≡ true)

  serve_http-post :
      (r : Request kv) (s t : State kv) (resp : Response)
      → IsPost r
      → serve_http l kv settings r s ≡ some (resp, t)
      → resp.status ≡ Status.ok_200
      → new_access l kv settings r s ≡ some (resp, t)
  unfolding serve_http
  serve_http-post r s t resp post h good =
      elim (Bool-cases (ltb settings.post_size_limit r.content_length)) [
        | inl large ↦
            let refused : some (answer Status.request_entity_too_large Body.message, s)
                ≡ some (resp, t) =
              rw (large, serve_http) at h in
            absurd (ground (arith, refused, good))
        | inr small ↦
            let served : handler l kv settings r s r.target ≡ some (resp, t) =
              rw (small, serve_http) at h in
            sym (handler-new_access l kv settings r s [])
            ∙ subst (λ (x : Target). handler l kv settings r s x ≡ some (resp, t)) post served
      ]

  -- what a registration that succeeded has done
  record IsRegistered (key grant : Bytes) (is_public : Bool) (r : Request kv) (s t : State kv)
      (resp : Response) : Type 0 where
    secret : Bytes
    new_store : kv.State
    stored :
        Database.put l kv settings.allowed key grant is_public r.random_secret r.run
        ≡ some (ok (secret, new_store))
    answered :
        resp
        ≡ cors Status.ok_200
            (Body.access_created (to_base32 key) (secret_to_base32 secret) settings.endpoint)
    left : t ≡ record s { store = new_store }

  after_put-IsRegistered :
      (key grant : Bytes) (is_public : Bool) (r : Request kv) (s t : State kv) (resp : Response)
      (o : Option (Result (Bytes × kv.State)))
      → Database.put l kv settings.allowed key grant is_public r.random_secret r.run ≡ o
      → Option.map (after_put l kv settings key s) o ≡ some (resp, t)
      → resp.status ≡ Status.ok_200
      → IsRegistered key grant is_public r s t resp
  unfolding after_put
  after_put-IsRegistered key grant is_public r s t resp none p h good = absurd (let g = h in cc)
  after_put-IsRegistered key grant is_public r s t resp (some (err e)) p h good =
      absurd (ground (arith, h, good))
  after_put-IsRegistered key grant is_public r s t resp (some (ok (secret, u))) p h good = record {
    secret = secret;
    new_store = u;
    stored = p;
    answered = ground (arith, h);
    left = ground (arith, h);
  }

  new_access-IsRegistered :
      (key grant : Bytes) (is_public : Bool) (r : Request kv) (s t : State kv) (resp : Response)
      → r.decoded ≡ Decoded.new_access_request grant is_public
      → r.random_key ≡ ok key
      → new_access l kv settings r s ≡ some (resp, t)
      → resp.status ≡ Status.ok_200
      → IsRegistered key grant is_public r s t resp
  unfolding new_access
  new_access-IsRegistered key grant is_public r s t resp asked drawn h good =
      after_put-IsRegistered key grant is_public r s t resp _ refl
        (rw (asked, drawn, new_access) at h) good

  module _ (IsStorable : kv.Run → AccessRecord → Type 0) (crypto : IsCrypto l)
      (store : IsStore kv IsStorable) where
    -- On a store that gives back the records it can keep, with an encryption that decrypts and a
    -- hash of 32 bytes: if a POST to /v1/access is answered with status 200, with an access grant
    -- decoded from its body and random bytes for a key of 16 bytes and a secret of 32, where the
    -- record made of them can be kept, then the answer names the base32 forms of the key and the
    -- secret, and an authorized GET of /v1/access/ with that key, whose length is within the
    -- limit, is answered with the grant, the secret and the flag that were registered, and the
    -- state stays as it is.
    pub serve_http-registered :
        (key grant secret : Bytes) (is_public : Bool) (r q : Request kv) (s t : State kv)
        (resp : Response)
        → IsPost r
        → r.decoded ≡ Decoded.new_access_request grant is_public
        → r.random_key ≡ ok key
        → length key ≡ 16
        → All IsByte key
        → r.random_secret ≡ ok secret
        → length secret ≡ 32
        → ((x : AccessRecord)
            → IsMade l settings.allowed key grant is_public r.random_secret secret x
            → IsStorable r.run x)
        → serve_http l kv settings r s ≡ some (resp, t)
        → resp.status ≡ Status.ok_200
        → IsGet (to_base32 key) q
        → (resp.body
            ≡ Body.access_created (to_base32 key) (secret_to_base32 secret) settings.endpoint)
          × (serve_http l kv settings q t
              ≡ some
                  (answer Status.ok_200 (Body.access grant (secret_to_base32 secret) is_public), t))
    unfolding serve_http get_access after_get
    serve_http-registered key grant secret is_public r q s t resp post asked drawn kl kb sdrawn sl
          storable h good (target, small, authorized) =
        let made = serve_http-post r s t resp post h good in
        let reg = new_access-IsRegistered key grant is_public r s t resp asked drawn made good in
        let (x, m, _) =
          put-IsMade l kv settings.allowed key grant is_public r.random_secret r.run reg.secret
            reg.new_store reg.stored in
        let twice : ok secret ≡ ok reg.secret = sym sdrawn ∙ m.drawn in
        let same : secret ≡ reg.secret = cc in
        let stored : Database.put l kv settings.allowed key grant is_public r.random_secret r.run
            ≡ some (ok (secret, reg.new_store)) =
          rw same reg.stored in
        let got =
          get-put l kv IsStorable crypto store settings.allowed key grant is_public r.random_secret
            r.run secret reg.new_store sl storable stored in
        let parsed = from_base32-to_base32 (replicate 16 0) key refl kl kb in
        let routed =
          handler-get_access l kv settings q t (to_base32 key) [] (index_byte-to_base32 key) in
        let fetched : Database.get l kv key t.store ≡ ok (grant, is_public, secret) =
          rw (reg.left) got in
        (
          ap (λ (y : Response). y.body) reg.answered ∙ rw same refl,
          rw (small, target, routed, get_access, authorized, parsed, fetched) refl,
        )

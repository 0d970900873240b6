-- ===== src/AuthClient/Cache.antt =====
-- pkg/authclient/cache.go and ResolveWithCache of pkg/authclient/authclient.go. The LRU cache
-- (storj.io/common/lrucache) and the encryption (storj.io/common/encryption) are parameters.
use gateway_mt.Prelude.{
  ℕ, ◌≡◌, ◌⊎◌, inl, inr, Bool, false, ◌||◌, Option, none, some, [], ◌==◌, if◌then◌else◌,
}
use gateway_mt.Prelude.Bytes.{Bytes}
use gateway_mt.AuthClient.{
  AuthServiceResponse, ClientError, with_status, cache_encrypt, cache_decrypt, Resolved, answers,
  fails, panics,
}

-- storj.NewKey, Encrypt and Decrypt of bytes, under a key and a nonce, which is given by its first byte
pub record Encryption : Type 0 where
  pub new_key : Bytes → Option Bytes
  pub encrypt : Bytes → Bytes → ℕ → Option Bytes
  pub decrypt : Bytes → Bytes → ℕ → Option Bytes

-- What is encrypted is decrypted with the same key and nonce.
pub record IsEncryption (l : Encryption) : Type 0 where
  pub decrypt_encrypt :
      (k text sealed : Bytes) (n : ℕ)
      → l.encrypt text k n ≡ some sealed
      → l.decrypt sealed k n ≡ some text

-- cachedAuthServiceResponse, whose `err` is that of Resolve
pub record CachedAuthServiceResponse : Type 0 where
  pub access_grant : Bytes
  pub secret_key : Bytes
  pub public : Bool
  pub err : Option ClientError

abbrev pub empty_response : AuthServiceResponse
empty_response = record { access_grant = []; secret_key = []; public = false }

module _ (l : Encryption) where
  -- encryptResponse, after its key is made
  unfoldable pub encrypt_with :
      Bytes → AuthServiceResponse → Option ClientError → CachedAuthServiceResponse ⊎ ClientError
  encrypt_with key resp e = elim (l.encrypt resp.secret_key key 0) [
    | none ↦ inr cache_encrypt
    | some secret_key ↦ elim (l.encrypt resp.access_grant key 1) [
      | none ↦ inr cache_encrypt
      | some access_grant ↦ inl (record {
        access_grant = access_grant;
        secret_key = secret_key;
        public = resp.public;
        err = e;
      })
    ]
  ]

  -- encryptResponse
  unfoldable pub encrypt_response :
      Bytes → AuthServiceResponse → Option ClientError → CachedAuthServiceResponse ⊎ ClientError
  unfolding encrypt_with
  encrypt_response id resp e = elim (l.new_key id) [
    | none ↦ inr cache_encrypt
    | some key ↦ encrypt_with key resp e
  ]

  -- decrypt, after its key is made
  unfoldable pub decrypt_with :
      Bytes → CachedAuthServiceResponse → AuthServiceResponse ⊎ ClientError
  decrypt_with key resp = elim (l.decrypt resp.secret_key key 0) [
    | none ↦ inr cache_decrypt
    | some secret_key ↦ elim (l.decrypt resp.access_grant key 1) [
      | none ↦ inr cache_decrypt
      | some access_grant ↦
          inl
            (record { access_grant = access_grant; secret_key = secret_key; public = resp.public })
    ]
  ]

  -- cachedAuthServiceResponse.decrypt
  unfoldable pub decrypt : Bytes → CachedAuthServiceResponse → AuthServiceResponse ⊎ ClientError
  unfolding decrypt_with
  decrypt id resp = elim (l.new_key id) [
    | none ↦ inr cache_decrypt
    | some key ↦ decrypt_with key resp
  ]

  -- errdata.GetStatus(err, http.StatusOK) on the errors of this package
  abbrev pub get_status : ClientError → ℕ
  get_status (with_status s) = s
  get_status cache_encrypt = 200
  get_status cache_decrypt = 200

  -- the function that ResolveWithCache gives the cache, on what Resolve returned; `none` is a panic
  unfoldable pub to_cache : Bytes → Resolved → Option (CachedAuthServiceResponse ⊎ ClientError)
  unfolding encrypt_response
  to_cache id (answers response) = some (encrypt_response id response none)
  to_cache id (fails e) =
      if get_status e == 200 || get_status e == 404
      then some (encrypt_response id empty_response (some e))
      else some (inr e)
  to_cache id panics = none

  -- what ResolveWithCache does with what the cache gives
  unfoldable pub from_cache : Bytes → CachedAuthServiceResponse ⊎ ClientError → Resolved
  unfolding decrypt
  from_cache id (inr e) = fails e
  from_cache id (inl cached) = elim (decrypt id cached) [
    | inr e ↦ fails e
    | inl response ↦ elim cached.err [ some e ↦ fails e | none ↦ answers response ]
  ]

-- The LRU cache, whose Get looks for a value, and stores the one that it is given a function for.
pub record Lru : Type 1 where
  pub State : Type 0
  pub holds : State → Bytes → CachedAuthServiceResponse → Type 0
  pub find : State → Bytes → Option CachedAuthServiceResponse × State
  pub store : State → Bytes → CachedAuthServiceResponse → State

-- What it finds was stored under the key; it may forget values at any time.
pub record IsLru (c : Lru) : Type 0 where
  pub find_holds :
      (s : c.State) (k : Bytes) (v : CachedAuthServiceResponse)
      → (c.find s k).0 ≡ some v
      → c.holds s k v
  pub find_keeps :
      (s : c.State) (k j : Bytes) (v : CachedAuthServiceResponse)
      → c.holds (c.find s k).1 j v
      → c.holds s j v
  pub store_keeps :
      (s : c.State) (k j : Bytes) (v u : CachedAuthServiceResponse)
      → c.holds (c.store s k v) j u
      → c.holds s j u ⊎ ((j ≡ k) × (u ≡ v))

module _ (l : Encryption) (c : Lru) where
  -- Get of the cache after a miss, on what the function gives
  unfoldable pub after_miss :
      c.State → Bytes → Option (CachedAuthServiceResponse ⊎ ClientError) → Resolved × c.State
  unfolding from_cache
  after_miss s id none = (panics, s)
  after_miss s id (some (inr e)) = (from_cache l id (inr e), s)
  after_miss s id (some (inl v)) = (from_cache l id (inl v), c.store s id v)

  -- ResolveWithCache with a cache; `resolved` is what Resolve returns if it is asked
  unfoldable pub resolve_with_cache : c.State → Bytes → Resolved → Resolved × c.State
  unfolding to_cache from_cache after_miss
  resolve_with_cache s id resolved =
      let found = c.find s id in
      elim found.0 [
        | some v ↦ (from_cache l id (inl v), found.1)
        | none ↦ after_miss found.1 id (to_cache l id resolved)
      ]

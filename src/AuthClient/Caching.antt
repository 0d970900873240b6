-- ===== src/AuthClient/Caching.antt =====
-- What ResolveWithCache (pkg/authclient/authclient.go) returns is what Resolve returned for the same access key,
-- now or at an earlier time.
use gateway_mt.Prelude.{
  ◌≡◌, refl, sym, ap, ◌⊎◌, inl, inr, ◌||◌, Option, none, some, ◌==◌, Bool-cases, Option-cases,
  arith,
}
use mathlib.Core.Path.{subst}
use gateway_mt.Prelude.Bytes.{Bytes}
use gateway_mt.AuthClient.{
  AuthServiceResponse, ClientError, cache_encrypt, Resolved, answers, fails, panics,
}
use gateway_mt.AuthClient.Cache.{
  Encryption, IsEncryption, CachedAuthServiceResponse, empty_response, encrypt_with,
  encrypt_response, decrypt_with, decrypt, get_status, to_cache, from_cache, Lru, IsLru, after_miss,
  resolve_with_cache,
}

sum-cases : {A B : Type 0} (s : A ⊎ B) → ((a : A) × (s ≡ inl a)) ⊎ ((b : B) × (s ≡ inr b))
sum-cases (inl a) = inl (a, refl)
sum-cases (inr b) = inr (b, refl)

module _ (l : Encryption) (law : IsEncryption l) where
  decrypt_with-encrypt_with :
      (key : Bytes) (resp : AuthServiceResponse) (e : Option ClientError)
      (v : CachedAuthServiceResponse)
      → encrypt_with l key resp e ≡ inl v
      → (decrypt_with l key v ≡ inl resp) × (v.err ≡ e)
  unfolding encrypt_with decrypt_with
  decrypt_with-encrypt_with key resp e v h = elim (Option-cases (l.encrypt resp.secret_key key 0)) [
    | inl bad ↦ absurd (let g = rw (encrypt_with, bad) at h in cc)
    | inr (sk, es) ↦ elim (Option-cases (l.encrypt resp.access_grant key 1)) [
      | inl bad ↦ absurd (let g = rw (encrypt_with, es, bad) at h in cc)
      | inr (ag, ea) ↦
          let made = rw (encrypt_with, es, ea) at h in
          let same : record { access_grant = ag; secret_key = sk; public = resp.public; err = e }
              ≡ v =
            (let g = made in cc) in
          let ds = law.decrypt_encrypt key resp.secret_key sk 0 es in
          let da = law.decrypt_encrypt key resp.access_grant ag 1 ea in
          subst (λ x. (decrypt_with l key x ≡ inl resp) × (x.err ≡ e)) same
            (rw (decrypt_with, ds, da) refl, refl)
    ]
  ]

  decrypt-encrypt_response :
      (id : Bytes) (resp : AuthServiceResponse) (e : Option ClientError)
      (v : CachedAuthServiceResponse)
      → encrypt_response l id resp e ≡ inl v
      → (decrypt l id v ≡ inl resp) × (v.err ≡ e)
  unfolding encrypt_response decrypt
  decrypt-encrypt_response id resp e v h = elim (Option-cases (l.new_key id)) [
    | inl bad ↦ absurd (let g = rw (encrypt_response, bad) at h in cc)
    | inr (key, k) ↦
        let (d, same) = decrypt_with-encrypt_with key resp e v (rw (encrypt_response, k) at h) in
        (rw (decrypt, k) d, same)
  ]

  -- What was cached of a result gives the result back.
  pub from_cache-to_cache :
      (id : Bytes) (r : Resolved) (v : CachedAuthServiceResponse)
      → to_cache l id r ≡ some (inl v)
      → from_cache l id (inl v) ≡ r
  unfolding to_cache from_cache
  from_cache-to_cache id panics v h = absurd (let g = h in cc)
  from_cache-to_cache id (answers a) v h =
      let (d, same) = decrypt-encrypt_response id a none v (let g = h in cc) in
      rw (from_cache, d, same) refl
  from_cache-to_cache id (fails e) v h =
      elim (Bool-cases (get_status l e == 200 || get_status l e == 404)) [
        | inr other ↦ absurd (let g = rw (to_cache, other) at h in cc)
        | inl kept ↦
            let g = rw (to_cache, kept) at h in
            let (d, same) =
              decrypt-encrypt_response id empty_response (some e) v (let f = g in cc) in
            rw (from_cache, d, same) refl
      ]

module _ (l : Encryption) where
  to_cache-none : (id : Bytes) (r : Resolved) → to_cache l id r ≡ none → r ≡ panics
  unfolding to_cache
  to_cache-none id panics h = refl
  to_cache-none id (answers a) h = absurd (let g = h in cc)
  to_cache-none id (fails e) h = absurd (ground (arith, h))

  encrypt_response-inr :
      (id : Bytes) (resp : AuthServiceResponse) (e : Option ClientError) (f : ClientError)
      → encrypt_response l id resp e ≡ inr f
      → f ≡ cache_encrypt
  unfolding encrypt_response encrypt_with
  encrypt_response-inr id resp e f h = ground (arith, h)

  to_cache-inr :
      (id : Bytes) (r : Resolved) (e : ClientError)
      → to_cache l id r ≡ some (inr e)
      → (r ≡ fails e) ⊎ (e ≡ cache_encrypt)
  unfolding to_cache
  to_cache-inr id panics e h = absurd (let g = h in cc)
  to_cache-inr id (answers a) e h = inr (encrypt_response-inr id a none e (let g = h in cc))
  to_cache-inr id (fails d) e h =
      elim (Bool-cases (get_status l d == 200 || get_status l d == 404)) [
        | inr other ↦ let g = rw (to_cache, other) at h in inl (ap fails (let f = g in cc))
        | inl kept ↦
            let g = rw (to_cache, kept) at h in
            inr (encrypt_response-inr id empty_response (some d) e (let f = g in cc))
      ]

-- Every value that the cache holds was made of a result that is remembered for its key.
abbrev pub IsRemembered :
    (l : Encryption) (c : Lru) → (Bytes → Resolved → Type 0) → c.State → Type 0
IsRemembered l c Past s =
    (k : Bytes) (v : CachedAuthServiceResponse)
    → c.holds s k v
    → (r : Resolved) × Past k r × (to_cache l k r ≡ some (inl v))

module _ (l : Encryption) (law : IsEncryption l) (c : Lru) (cached : IsLru c) where
  -- With an encryption that decrypts and a cache that gives only what was stored under a key: if
  -- every value that the cache holds was made of a result that is remembered for its key, and the
  -- result of Resolve is to be remembered for the access key, then ResolveWithCache returns a
  -- result that is remembered for the access key or fails to encrypt, and what the cache holds
  -- afterwards was made of remembered results too.
  pub resolve_with_cache-IsRemembered :
      (Past : Bytes → Resolved → Type 0) (s : c.State) (id : Bytes) (r : Resolved)
      → IsRemembered l c Past s
      → Past id r
      → ((Past id (resolve_with_cache l c s id r).0)
          ⊎ ((resolve_with_cache l c s id r).0 ≡ fails cache_encrypt))
        × IsRemembered l c Past (resolve_with_cache l c s id r).1
  unfolding resolve_with_cache after_miss
  resolve_with_cache-IsRemembered Past s id r old now = elim (Option-cases (c.find s id).0) [
    | inr (v, hit) ↦
        let (q, was, made) = old id v (cached.find_holds s id v hit) in
        rw (resolve_with_cache, hit)
          (
            inl (subst (Past id) (sym (from_cache-to_cache l law id q v made)) was),
            λ j u held. old j u (cached.find_keeps s id j u held),
          )
    | inl miss ↦ elim (Option-cases (to_cache l id r)) [
      | inl crash ↦
          rw (resolve_with_cache, miss, crash, after_miss)
            (
              inl (subst (Past id) (to_cache-none l id r crash) now),
              λ j u held. old j u (cached.find_keeps s id j u held),
            )
      | inr (inl v, made) ↦
          rw (resolve_with_cache, miss, made, after_miss)
            (
              inl (subst (Past id) (sym (from_cache-to_cache l law id r v made)) now),
              λ j u held. elim (cached.store_keeps (c.find s id).1 id j v u held) [
                | inl before ↦ old j u (cached.find_keeps s id j u before)
                | inr (at, same) ↦ (r, rw at now, rw (at, same) made)
              ],
            )
      | inr (inr e, made) ↦
          rw (resolve_with_cache, miss, made, after_miss)
            (
              elim (to_cache-inr l id r e made) [
                | inl same ↦ inl (subst (Past id) same now)
                | inr same ↦ inr (ap fails same)
              ],
              λ j u held. old j u (cached.find_keeps s id j u held),
            )
    ]
  ]

-- ===== src/AuthClient/Tests.antt =====
-- Runs of the client of the auth service, with a toy cipher and a cache of one value.
use gateway_mt.Prelude.{
  ℕ, zero, suc, ◌≡◌, refl, ap, ◌⊎◌, inl, inr, true, false, Option, none, some, [], ◌∷◌, replicate,
  arith, All, Bool-cases,
}
use mathlib.Core.Path.{subst}
use gateway_mt.Prelude.Bytes.{Bytes, eq_bytes}
use gateway_mt.Prelude.Bytes.Order.{eq_bytes_sound}
use gateway_mt.Backoff.{ExponentialBackoff}
use gateway_mt.AuthClient.{
  AuthServiceResponse, with_status, cache_encrypt, responded, not_sent, Round, answers, fails,
  attempts,
}
use gateway_mt.AuthClient.Retries.{IsNotSent, attempts-IsUnexpected, attempts-IsNotSent}
use gateway_mt.AuthClient.Cache.{
  Encryption, IsEncryption, CachedAuthServiceResponse, Lru, IsLru, resolve_with_cache,
}
use gateway_mt.AuthClient.Caching.{IsRemembered, resolve_with_cache-IsRemembered}

abbrev backoff : ExponentialBackoff
backoff = record { delay = 0; max = 1000; min = 5 }

abbrev response : AuthServiceResponse
response = record { access_grant = 1 ∷ []; secret_key = 2 ∷ []; public = true }

abbrev unexpected : Round
unexpected = record { attempt = responded 500 none; context_ended = none }

abbrev good : Round
good = record { attempt = responded 200 (some response); context_ended = none }

attempts-IsUnexpected_example :
    (attempts backoff (unexpected ∷ unexpected ∷ []) ≡ none)
    × (attempts backoff (unexpected ∷ unexpected ∷ good ∷ []) ≡ some (answers response))
attempts-IsUnexpected_example =
    attempts-IsUnexpected backoff (unexpected ∷ unexpected ∷ []) [] response good
      (((none, refl), refl), (((none, refl), refl), tt)) refl

abbrev lost : Round
lost = record { attempt = not_sent; context_ended = none }

all_lost : (n : ℕ) → All IsNotSent (replicate n lost)
all_lost zero = tt
all_lost (suc n) = ((refl, refl), all_lost n)

attempts-IsNotSent_example : attempts backoff (replicate 64 lost) ≡ some (fails (with_status 500))
attempts-IsNotSent_example =
    attempts-IsNotSent backoff (replicate 64 lost)
      (record {
        max_range = omega arith;
        min_pos = omega arith;
        min_le = omega arith;
        delay_le = omega arith;
      })
      (omega arith) (all_lost 64)

-- the nonce is put before the value
abbrev toy : Encryption
toy = record {
  new_key = λ id. some id;
  encrypt = λ v k n. some (n ∷ v);
  decrypt = λ v k n. elim v [ [] ↦ none | m ∷ rest ↦ some rest ];
}

toy-IsEncryption : IsEncryption toy
toy-IsEncryption = record {
  decrypt_encrypt = λ k text sealed n h.
      let same : some (n ∷ text) ≡ some sealed = h in
      let cut : n ∷ text ≡ sealed = ground (arith, same) in
      subst (λ w. toy.decrypt w k n ≡ some text) cut refl;
}

-- a cache that keeps the last value
abbrev Last : Type 0
Last = Option (Bytes × CachedAuthServiceResponse)

abbrev find : Last → Bytes → Option CachedAuthServiceResponse
find none k = none
find (some (j, v)) k = elim (eq_bytes j k) [ true ↦ some v | false ↦ none ]

abbrev last : Lru
last = record {
  State = Last;
  holds = λ s k v. s ≡ some (k, v);
  find = λ s k. (find s k, s);
  store = λ s k v. some (k, v);
}

find-holds :
    (s : Last) (k : Bytes) (v : CachedAuthServiceResponse) → find s k ≡ some v → s ≡ some (k, v)
find-holds none k v h = absurd (let g = h in cc)
find-holds (some (j, u)) k v h = elim (Bool-cases (eq_bytes j k)) [
  | inl same ↦
      let at : j ≡ k = eq_bytes_sound j k same in
      let got : some u ≡ some v = rw (find, same) at h in
      rw at (ap (λ o. elim o [ none ↦ none | some w ↦ some (k, w) ]) got)
  | inr other ↦ absurd (let g = rw (find, other) at h in cc)
]

last-IsLru : IsLru last
last-IsLru = record {
  find_holds = find-holds;
  find_keeps = λ s k j v h. h;
  store_keeps = λ s k j v u h. inr (ground (arith, h), ground (arith, h));
}

resolve_with_cache-IsRemembered_example :
    ((resolve_with_cache toy last none (7 ∷ []) (answers response)).0 ≡ answers response
      ⊎ (resolve_with_cache toy last none (7 ∷ []) (answers response)).0 ≡ fails cache_encrypt)
    × IsRemembered toy last
        (λ k r. r ≡ answers response)
        (resolve_with_cache toy last none (7 ∷ []) (answers response)).1
resolve_with_cache-IsRemembered_example =
    resolve_with_cache-IsRemembered toy toy-IsEncryption last last-IsLru
      (λ k r. r ≡ answers response) none (7 ∷ []) (answers response)
      (λ k v held. absurd (let h = held in cc)) refl

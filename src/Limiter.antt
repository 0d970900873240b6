-- ===== src/Limiter.antt =====
-- pkg/server/middleware/limiter.go: the number of concurrent requests per key. A request goes through
-- the lock's sections in its own order; the sections of different requests interleave.
pub mod Counts
mod Tests
use gateway_mt.Prelude.{
  ℕ, ◌+◌, ◌-◌, ◌^◌, ◌%◌, ◌<◌, ◌≤◌, ◌≡◌, Bool, true, false, Option, none, some, List, [], ◌∷◌, ◌==◌,
  ltb, length, if◌then◌else◌,
}
use gateway_mt.Prelude.Bytes.{Bytes, eq_bytes}
use gateway_mt.Prelude.Dict
use gateway_mt.Prelude.Dict.{Dict}
use gateway_mt.Errs.{Result, ok, err}

-- the count of a key in the map `limits`; a missing key counts 0
unfoldable pub count : Bytes → Dict ℕ → ℕ
count key limits = elim (Dict.lookup key limits) [ none ↦ 0 | some n ↦ n ]

-- what the middleware does with a key whose function may fail: such requests share the empty key
unfoldable pub key_of : Result Bytes → Bytes
key_of (ok key) = key
key_of (err e) = []

-- `l.limits[key]++`, on a uint of 64 bits
unfoldable pub enter : Bytes → Dict ℕ → Dict ℕ
unfolding count
enter key limits = Dict.insert key ((count key limits + 1) % 2 ^ 64) limits

-- whether a request is limited: the test of the section under the read lock
unfoldable pub is_limited : ℕ → Bytes → Dict ℕ → Bool
unfolding count
is_limited allowed key limits = ltb allowed (count key limits)

-- `l.limits[key]--`, which wraps around below 0, and the removal of a key that counts 0
unfoldable pub leave : Bytes → Dict ℕ → Dict ℕ
unfolding count
leave key limits =
    let n = (count key limits + (2 ^ 64 - 1)) % 2 ^ 64 in
    if n == 0 then Dict.remove key limits else Dict.insert key n limits

-- where a request stands: in `checking` it has entered, `serving` and `refused` come after the test
pub data Phase : Type 0 where
  checking serving refused : Phase

pub record Request : Type 0 where
  pub key : Bytes
  pub phase : Phase

-- the map and the requests between their first and last section
pub record State : Type 0 where
  pub limits : Dict ℕ
  pub requests : List Request

-- a request in some place of a list, and the list without it
pub data Picks (r : Request) : List Request → List Request → Type 0 where
  here : {rs : List Request} → Picks r (r ∷ rs) rs
  there : {q : Request} {rs qs : List Request} → Picks r rs qs → Picks r (q ∷ rs) (q ∷ qs)

-- One section of one request. `next.ServeHTTP` and the limit function run between the second section
-- and the third.
pub data Step (allowed : ℕ) : State → State → Type 0 where
  arrives :
      {limits : Dict ℕ} {rs : List Request} (key : Result Bytes)
      → Step allowed
          (record { limits = limits; requests = rs })
          (record {
            limits = enter (key_of key) limits;
            requests = record { key = key_of key; phase = Phase.checking } ∷ rs;
          })
  is_checked :
      {limits : Dict ℕ} {rs qs : List Request} (key : Bytes)
      → Picks (record { key = key; phase = Phase.checking }) rs qs
      → Step allowed
          (record { limits = limits; requests = rs })
          (record {
            limits = limits;
            requests =
                record {
                  key = key;
                  phase = if is_limited allowed key limits then Phase.refused else Phase.serving;
                }
                ∷ qs;
          })
  finishes :
      {limits : Dict ℕ} {rs qs : List Request} (r : Request) (is_serving : Bool)
      → r.phase ≡ (if is_serving then Phase.serving else Phase.refused)
      → Picks r rs qs
      → Step allowed
          (record { limits = limits; requests = rs })
          (record { limits = leave r.key limits; requests = qs })

-- the states that a new Limiter reaches while fewer than 2^64 requests are under way
pub data Reachable (allowed : ℕ) : State → Type 0 where
  starts : Reachable allowed (record { limits = []; requests = [] })
  steps :
      {s t : State}
      → Reachable allowed s
      → Step allowed s t
      → length t.requests < 2 ^ 64
      → Reachable allowed t

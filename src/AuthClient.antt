-- ===== src/AuthClient.antt =====
-- pkg/authclient/authclient.go, Resolve: the requests to the auth service for one access key. Each attempt comes
-- with what it yields and with whether the context ends during the wait after it.
pub mod Retries
pub mod Cache
pub mod Caching
mod Tests
use gateway_mt.Prelude.{
  ℕ, Bool, true, false, not, Option, none, some, List, [], ◌∷◌, ◌==◌, length, replicate,
  if◌then◌else◌,
}
use gateway_mt.Prelude.Bytes.{Bytes}
use gateway_mt.Errs.{Error, Result, ok, err, panic}
use gateway_mt.Backoff.{ExponentialBackoff, wait, maxed}
use gateway_mt.Authdb.EncryptionKey.{from_base32}

pub record AuthServiceResponse : Type 0 where
  pub access_grant : Bytes
  pub secret_key : Bytes
  pub public : Bool

-- the errors, with the status that errdata.WithStatus gives those of Resolve
pub data ClientError : Type 0 where
  with_status : ℕ → ClientError
  cache_encrypt cache_decrypt : ClientError

-- what client.Do yields: an error, or a status and the decoded body, `none` if it cannot be decoded
pub data Attempt : Type 0 where
  not_sent : Attempt
  responded : ℕ → Option AuthServiceResponse → Attempt

pub record Round : Type 0 where
  pub attempt : Attempt
  pub context_ended : Option Error

-- what Resolve returns, unless it panics
pub data Resolved : Type 0 where
  answers : AuthServiceResponse → Resolved
  fails : ClientError → Resolved
  panics : Resolved

-- what follows a wait
abbrev pub after_wait : Option Error → Option Resolved → Option Resolved
after_wait none rest = rest
after_wait (some e) rest = some (fails (with_status 499))

-- the branches of an attempt: `again` is what comes of one more wait and the rounds after it
unfoldable pub after_attempt : Attempt → Bool → Option Resolved → Option Resolved
after_attempt not_sent is_maxed again = if is_maxed then some (fails (with_status 500)) else again
after_attempt (responded status body) is_maxed again =
    if status == 500
    then again
    else if status == 200
    then elim body [
      | some response ↦ some (answers response)
      | none ↦ if is_maxed then some (fails (with_status 500)) else again
    ]
    else some (fails (with_status status))

-- the loop of Resolve; `none` says that the rounds listed are used up and the loop goes on
unfoldable pub attempts : ExponentialBackoff → List Round → Option Resolved
unfolding after_attempt
attempts delay [] = none
attempts delay (r ∷ rounds) =
    let (asked, is_maxed) = maxed delay in
    let rest = attempts (wait asked r.context_ended).0 rounds in
    after_attempt r.attempt is_maxed (after_wait r.context_ended rest)

-- what net/url and net/http make of the base URL of the configuration
pub record Urls : Type 0 where
  pub parses : Bool
  pub makes_request : Bool

-- the key that FromBase32 fills
abbrev zero_key : Bytes
zero_key = replicate 16 0

unfoldable pub is_empty_key : Bytes → Bool
is_empty_key [] = true
is_empty_key (c ∷ s) = false

-- Resolve
unfoldable pub resolve : Urls → ExponentialBackoff → Bytes → List Round → Option Resolved
unfolding attempts is_empty_key
resolve urls backoff id rounds =
    if is_empty_key id then some (fails (with_status 400)) else elim (from_base32 zero_key id) [
      | err panic ↦ some panics
      | err e ↦ some (fails (with_status 400))
      | ok k ↦
          if not urls.parses
          then some (fails (with_status 500))
          else if urls.makes_request
          then attempts backoff rounds
          else some (fails (with_status 500))
    ]

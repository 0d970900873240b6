-- ===== src/Badgerauth/Txn.antt =====
-- pkg/auth/badgerauth/db.go: txnWithBackoff. Other transactions may commit between two attempts, so
-- each attempt comes with the snapshot that it sees, what the engine answers to its commit, and
-- whether the context ends while it waits.
pub mod Retry
use gateway_mt.Prelude.{
  Bool, true, false, not, ◌&&◌, Option, none, some, List, [], ◌∷◌, if◌then◌else◌,
}
use gateway_mt.Errs.{Error, Result, ok, err, is, conflict}
use gateway_mt.Backoff.{ExponentialBackoff, wait, maxed}

pub record Attempt (S : Type 0) : Type 0 where
  pub snapshot : S
  pub commit_error : Option Error
  pub context_ended : Option Error

-- badger's DB.Update: the function's error discards the transaction; else the commit decides
unfoldable pub update : {S : Type 0} → (S → Result S) → Attempt S → Result S
update f a = elim (f a.snapshot) [
  | err e ↦ err e
  | ok t ↦ elim a.commit_error [ none ↦ ok t | some e ↦ err e ]
]

-- what the loop does after an attempt: it returns, or waits and goes on unless the context has ended
unfoldable pub after_attempt :
    {S : Type 0} → Result S → Bool → Option Error → Option (Result S) → Option (Result S)
after_attempt (ok t) full ended rest = some (ok t)
after_attempt (err e) full none rest = if is conflict e && not full then rest else some (err e)
after_attempt (err e) full (some q) rest =
    if is conflict e && not full then some (err q) else some (err e)

-- txnWithBackoff; `none` says that the attempts listed are used up and the loop goes on
unfoldable pub txn_with_backoff :
    {S : Type 0} → (S → Result S) → ExponentialBackoff → List (Attempt S) → Option (Result S)
unfolding after_attempt
txn_with_backoff f backoff [] = none
txn_with_backoff f backoff (a ∷ attempts) =
    let rest = txn_with_backoff f (wait (maxed backoff).0 a.context_ended).0 attempts in
    after_attempt (update f a) (maxed backoff).1 a.context_ended rest

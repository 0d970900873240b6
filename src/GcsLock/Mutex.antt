-- ===== src/GcsLock/Mutex.antt =====
-- pkg/gcslock/gcslock.go: Mutex. Each round of the loop of Lock comes with what the service answers in it
-- and with whether the context ends while it waits.
use gateway_mt.Prelude.{
  ℕ, inl, inr, Bool, true, false, not, Option, none, some, List, [], ◌∷◌, ◌==◌, ltb, if◌then◌else◌,
}
use gateway_mt.Errs.{Error, Result, ok, err}
use gateway_mt.Backoff.{ExponentialBackoff, wait}
use gateway_mt.GcsLock.Ops.{
  OpsError, not_found, precondition_failed, Answer, delete_result, upload_result, stat_result,
}

-- the headers that Stat returns: the parsed expiration, in seconds since 1970, and the metageneration
pub record Headers : Type 0 where
  pub expiration : Option ℕ
  pub metageneration : ℕ

-- one round: the answers to the upload, to Stat and to Delete, the time, and the end of the context
pub record Round : Type 0 where
  pub uploaded : Answer
  pub stated : Result (ℕ × Headers)
  pub now : ℕ
  pub deleted : Answer
  pub context_ended : Option Error

-- the tests on a result of an operation
abbrev pub failed : Option OpsError → Bool
failed none = false
failed (some e) = true

abbrev pub is_not_found : OpsError → Bool
is_not_found not_found = true
is_not_found _ = false

abbrev pub is_precondition_failed : OpsError → Bool
is_precondition_failed precondition_failed = true
is_precondition_failed _ = false

-- shouldWait after Stat: an expired lock is deleted
unfoldable pub wait_for : ℕ → Answer → Headers → Bool
wait_for now deleted headers = elim headers.expiration [
  | none ↦ true
  | some expiration ↦ if ltb expiration now then failed (delete_result deleted) else true
]

-- shouldWait
unfoldable pub should_wait : Round → Bool
unfolding wait_for
should_wait r = elim (stat_result r.stated) [
  | inr e ↦ not (is_not_found e)
  | inl headers ↦ wait_for r.now r.deleted headers
]

-- whether a round whose upload failed waits before the next one
unfoldable pub waits : Round → OpsError → Bool
unfolding should_wait
waits r e = if is_precondition_failed e then should_wait r else true

-- what Lock does after a round that waits
unfoldable pub after_wait : Option Error → Option (Result (Unit {0})) → Option (Result (Unit {0}))
after_wait none rest = rest
after_wait (some e) rest = some (err e)

-- what Lock does after an upload
unfoldable pub after_upload :
    Round
    → Option OpsError
    → Option (Result (Unit {0}))
    → Option (Result (Unit {0}))
    → Option (Result (Unit {0}))
unfolding waits after_wait
after_upload r none waited rest = some (ok tt)
after_upload r (some e) waited rest = if waits r e then after_wait r.context_ended waited else rest

-- Lock; `none` says that the rounds listed are used up and the loop goes on
unfoldable pub lock : ExponentialBackoff → List Round → Option (Result (Unit {0}))
unfolding after_upload
lock backoff [] = none
lock backoff (r ∷ rounds) =
    let waited = lock (wait backoff r.context_ended).0 rounds in
    let rest = lock backoff rounds in after_upload r (upload_result r.uploaded) waited rest

-- Unlock: the answer to the deletion of the lock; a failed precondition is ignored
unfoldable pub unlock : Answer → Option OpsError
unlock deleted = elim (delete_result deleted) [
  | none ↦ none
  | some e ↦ if is_precondition_failed e then none else some e
]

-- Mutex, as NewMutex sets it: a zero ttl or refresh interval is replaced by the default
pub record Options : Type 0 where
  pub ttl : ℕ
  pub refresh_interval : ℕ

unfoldable pub new_mutex : Options → Options
new_mutex o = record {
  ttl = if o.ttl == 0 then 300000000000 else o.ttl;
  refresh_interval = if o.refresh_interval == 0 then 37000000000 else o.refresh_interval;
}

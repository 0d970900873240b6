-- ===== src/GcsLock/Tests.antt =====
-- Runs of the lock and of its client library.
use gateway_mt.Prelude.{ℕ, ◌≡◌, ◌≢◌, refl, sym, ap, ◌↔◌, ◌⊎◌, none, some, List, [], ◌∷◌, arith}
use gateway_mt.Errs.{ok}
use gateway_mt.Backoff.{ExponentialBackoff}
use gateway_mt.GcsLock.Ops.{upload_result}
use gateway_mt.GcsLock.Mutex.{Round, lock}
use gateway_mt.GcsLock.Locking.{LockedAfter, lock-LockedAfter}
use gateway_mt.GcsLock.Clients.{Object, Phase, Clients, set, Step, Reachable, TimelyReachable}
use gateway_mt.GcsLock.Exclusion.{made, TimelyReachable-unique}
use gateway_mt.GcsLock.Deletions.{IsThere, Removal, Reachable-Removal}
use gateway_mt.GcsLock.Theft.{simple, simple-IsBucket, lock_of, free, put_new, cut, theft}

abbrev backoff : ExponentialBackoff
backoff = record { delay = 0; max = 100; min = 5 }

-- the lock is held, then expired, then free
abbrev held : Round
held = record {
  uploaded = ok 412;
  stated = ok (200, record { expiration = some 50; metageneration = 1 });
  now = 10;
  deleted = ok 204;
  context_ended = none;
}

abbrev rounds : List Round
rounds = held ∷ record held { now = 60 } ∷ record held { uploaded = ok 200 } ∷ []

lock-LockedAfter_example : (lock backoff rounds ≡ some (ok tt)) ↔ LockedAfter rounds
lock-LockedAfter_example = lock-LockedAfter backoff rounds

-- client 1 finds an expired lock, deletes it, and takes the lock
abbrev expired_lock : Object
expired_lock = record { generation = 0; metageneration = 1; expiration = 5 }

abbrev calling : Clients
calling = set 1 Phase.uploading (λ i. Phase.idle)

abbrev stating : Clients
stating = set 1 Phase.stating calling

abbrev deleting : Clients
deleting = set 1 (Phase.deleting expired_lock 6) stating

abbrev uploading : Clients
uploading = set 1 Phase.uploading deleting

abbrev locked : Clients
locked = set 1 (Phase.locked 1 1) uploading

none_locked : (j held m : ℕ) → stating j ≢ Phase.locked held m
none_locked j held m h = ground (arith, h)

only_expired : (o : Object) → some expired_lock ≡ some o → o.generation ≡ 0
only_expired o h =
    let is : expired_lock ≡ o = (let g = h in cc) in ap (λ (x : Object). x.generation) (sym is)

locked-TimelyReachable : TimelyReachable simple (lock_of 0 5) (lock_of 1 90) locked
unfolding put_new cut upload_result
locked-TimelyReachable =
    let called = TimelyReachable.steps TimelyReachable.starts (Step.calls_lock 1 refl) tt in
    let found =
      TimelyReachable.steps {t = lock_of 0 5} called (Step.finds_taken 1 90 (ok 412) refl refl refl)
        tt in
    let saw =
      TimelyReachable.steps found (Step.sees_expired 1 6 _ refl refl refl)
        (λ j held m h same. absurd (none_locked j held m h)) in
    let removed =
      TimelyReachable.steps {t = free 1} {ds = uploading} saw
        (Step.deletes_expired 1 _ 6 (ok 204) refl refl) (λ o h same. only_expired o h) in
    TimelyReachable.steps {t = lock_of 1 90} removed (Step.locks 1 90 (ok 200) refl refl refl) tt

TimelyReachable-unique_example :
    (◌≡◌ {A = ℕ} 1 1) × (o : Object) × ((lock_of 1 90).0.object ≡ some o) × (o.generation ≡ 1)
TimelyReachable-unique_example =
    TimelyReachable-unique simple simple-IsBucket (lock_of 0 5) (lock_of 1 90) locked
      locked-TimelyReachable 1 1 1 1 1 1 refl refl

deleting-Reachable : Reachable simple (lock_of 0 5) (lock_of 0 5) deleting
unfolding put_new upload_result
deleting-Reachable =
    let called = Reachable.steps Reachable.starts (Step.calls_lock 1 refl) in
    let found =
      Reachable.steps {t = lock_of 0 5} called (Step.finds_taken 1 90 (ok 412) refl refl refl) in
    Reachable.steps found (Step.sees_expired 1 6 _ refl refl refl)

Reachable-Removal_example :
    IsThere simple (lock_of 0 5) 0 (free 1)
    ⊎ Removal simple (lock_of 0 5) (lock_of 0 5) deleting (free 1) expired_lock
unfolding cut
Reachable-Removal_example =
    Reachable-Removal simple (lock_of 0 5) simple-IsBucket (lock_of 0 5) (free 1) deleting uploading
      deleting-Reachable (Step.deletes_expired 1 _ 6 (ok 204) refl refl) expired_lock refl

theft_example :
    (cs : Clients) × Reachable simple (lock_of 0 5) (lock_of 2 90) cs
    × (made (cs 1) ≡ some 1)
    × (made (cs 2) ≡ some 2)
theft_example = theft 1 2 (λ h. omega (arith, h)) 5 6 90 (omega arith)

-- ===== src/GcsLock/Locking.antt =====
-- When Lock of gcslock.go takes the lock, by the answers of the service alone.
use gateway_mt.Prelude.{
  ℕ, ◌<◌, ◌≡◌, ◌≢◌, ◌⊎◌, inl, inr, refl, true, false, Option, none, some, List, [], ◌∷◌, ◌==◌, ltb,
  ◌↔◌, not, Bool-cases, Option-cases, ==_iff, arith, ap, ◌∙◌, sym,
}
use gateway_mt.Errs.{Error, message, Result, ok, err}
use gateway_mt.Backoff.{ExponentialBackoff, wait}
use gateway_mt.GcsLock.Ops.{
  OpsError, precondition_failed, Answer, delete_result, upload_result, stat_result,
}
use gateway_mt.GcsLock.Mutex.{
  Headers, Round, failed, is_not_found, is_precondition_failed, wait_for, should_wait, waits,
  after_wait, after_upload, lock,
}

-- The lock that was taken when the upload came is gone: Stat finds no object, or one whose expiration has
-- passed, which the deletion removes.
pub data IsFreed (r : Round) : Type 0 where
  unlocked : (h : Headers) → r.stated ≡ ok (404, h) → IsFreed r
  removed :
      (h : Headers) (expiration : ℕ)
      → r.stated ≡ ok (200, h)
      → h.expiration ≡ some expiration
      → expiration < r.now
      → r.deleted ≡ ok 204
      → IsFreed r

-- One round takes the lock. In those before it the upload was answered otherwise, and either it was refused
-- for a lock that is gone, so that the next round follows at once, or the context did not end in the wait.
abbrev pub LockedAfter : List Round → Type 0
LockedAfter [] = ⊥
LockedAfter (r ∷ rounds) =
    (r.uploaded ≡ ok 200)
    ⊎ ((r.uploaded ≢ ok 200)
        × (((r.uploaded ≡ ok 412) × IsFreed r) ⊎ (r.context_ended ≡ none))
        × LockedAfter rounds)

upload_result_iff : (a : Answer) → (upload_result a ≡ none) ↔ (a ≡ ok 200)
unfolding upload_result
upload_result_iff (err e) = ((λ h. absurd (let g = h in cc)), λ h. absurd (let g = h in cc))
upload_result_iff (ok n) = ((λ h. ground (arith, h)), λ h. ground (arith, h))

delete_result_iff : (a : Answer) → (delete_result a ≡ none) ↔ (a ≡ ok 204)
unfolding delete_result
delete_result_iff (err e) = ((λ h. absurd (let g = h in cc)), λ h. absurd (let g = h in cc))
delete_result_iff (ok n) = ((λ h. ground (arith, h)), λ h. ground (arith, h))

failed_iff : (o : Option OpsError) → (failed o ≡ false) ↔ (o ≡ none)
failed_iff none = ((λ h. refl), λ h. refl)
failed_iff (some e) = ((λ h. absurd (let g = h in cc)), λ h. absurd (let g = h in cc))

wait_for_to :
    (now : ℕ) (deleted : Answer) (h : Headers)
    → wait_for now deleted h ≡ false
    → (e : ℕ) × (h.expiration ≡ some e) × (e < now) × (deleted ≡ ok 204)
unfolding wait_for
wait_for_to now deleted h quick = elim (Option-cases h.expiration) [
  | inl empty ↦ absurd (let q = rw (wait_for, empty) at quick in cc)
  | inr (e, expires) ↦ elim (Bool-cases (ltb e now)) [
    | inl late ↦
        let cut : failed (delete_result deleted) ≡ false = rw (wait_for, expires, late) at quick in
        (e, expires, ground (arith, late), (delete_result_iff deleted).0 ((failed_iff _).0 cut))
    | inr early ↦ absurd (let q = rw (wait_for, expires, early) at quick in cc)
  ]
]

should_wait_to : (r : Round) → should_wait r ≡ false → IsFreed r
unfolding should_wait stat_result
should_wait_to r h = freed r.stated refl h
  where
    freed :
        (x : Result (ℕ × Headers))
        → r.stated ≡ x
        → elim (stat_result x) [
          | inr e ↦ not (is_not_found e)
          | inl headers ↦ wait_for r.now r.deleted headers
        ]
          ≡ false
        → IsFreed r
    freed (err e) is q = absurd (let g = q in cc)
    freed (ok (status, headers)) is q = elim (Bool-cases (status == 200)) [
      | inl found ↦
          let there : status ≡ 200 = ground (arith, found) in
          let (e, expires, late, cut) = wait_for_to r.now r.deleted headers (rw found at q) in
          IsFreed.removed headers e (is ∙ ap (λ n. ok (n, headers)) there) expires late cut
      | inr missing ↦ elim (Bool-cases (status == 404)) [
        | inl gone ↦
            IsFreed.unlocked headers (is ∙ ap (λ n. ok (n, headers)) ((==_iff status 404).0 gone))
        | inr other ↦ absurd (let g = rw (missing, other) at q in cc)
      ]
    ]

should_wait_from : (r : Round) → IsFreed r → should_wait r ≡ false
unfolding should_wait wait_for stat_result delete_result
should_wait_from r (IsFreed.unlocked headers gone) = rw gone refl
should_wait_from r (IsFreed.removed headers e there expires late cut) =
    let passed : ltb e r.now ≡ true = ground (arith, late) in
    rw (should_wait, there, wait_for, expires, passed, cut) refl

refused_iff :
    (a : Answer) (e : OpsError)
    → upload_result a ≡ some e
    → (is_precondition_failed e ≡ true) ↔ (a ≡ ok 412)
unfolding upload_result
refused_iff (err f) e h =
    let same : OpsError.other f ≡ e = (let g = h in cc) in
    ((λ q. absurd (let g = rw (sym same) at q in cc)), λ q. absurd (let g = q in cc))
refused_iff (ok n) e h = elim (Bool-cases (n == 412)) [
  | inl taken ↦
      let is : n ≡ 412 = (==_iff n 412).0 taken in
      let same : precondition_failed ≡ e = (let g = rw (upload_result, is) at h in cc) in
      ((λ q. ap ok is), λ q. rw (sym same) refl)
  | inr free ↦ elim (Bool-cases (n == 200)) [
    | inl found ↦ absurd (let g = rw (upload_result, found) at h in cc)
    | inr failure ↦
        let same : OpsError.other message ≡ e =
          (let g = rw (upload_result, failure, free) at h in cc) in
        ((λ q. absurd (let g = rw (sym same) at q in cc)), λ q. absurd (ground (arith, q)))
  ]
]

waits_iff :
    (r : Round) (e : OpsError)
    → upload_result r.uploaded ≡ some e
    → (waits r e ≡ false) ↔ ((r.uploaded ≡ ok 412) × IsFreed r)
unfolding waits upload_result
waits_iff r e refused = elim (Bool-cases (is_precondition_failed e)) [
  | inl taken ↦ (
    (λ q. ((refused_iff r.uploaded e refused).0 taken, should_wait_to r (rw (waits, taken) at q))),
    λ q. rw (waits, taken) (should_wait_from r q.1),
  )
  | inr other ↦ (
    (λ q. absurd (let g = rw (waits, other) at q in cc)),
    λ q. absurd (let g = sym other ∙ (refused_iff r.uploaded e refused).1 q.0 in cc),
  )
]

abbrev Locked : Option (Result (Unit {0})) → Type 0
Locked o = o ≡ some (ok tt)

after_wait-Locked :
    (ended : Option Error) (o : Option (Result (Unit {0})))
    → Locked (after_wait ended o)
    → (ended ≡ none) × Locked o
unfolding after_wait
after_wait-Locked none o h = (refl, h)
after_wait-Locked (some e) o h = absurd (let g = h in cc)

-- a round that does not take the lock, and after which the loop goes on
abbrev GoesOn : Round → Option OpsError → Type 0
GoesOn r u = (e : OpsError) × (u ≡ some e) × ((waits r e ≡ false) ⊎ (r.context_ended ≡ none))

after_upload-Locked :
    (r : Round) (u : Option OpsError) (waited rest : Option (Result (Unit {0}))) (P : Type 0)
    → (Locked waited → P)
    → (Locked rest → P)
    → Locked (after_upload r u waited rest)
    → (u ≡ none) ⊎ (GoesOn r u × P)
unfolding after_upload
after_upload-Locked r none waited rest P hw hr h = inl refl
after_upload-Locked r (some e) waited rest P hw hr h = elim (Bool-cases (waits r e)) [
  | inl slow ↦
      let (ended, done) = after_wait-Locked r.context_ended waited (rw (slow, after_upload) at h) in
      inr ((e, refl, inr ended), hw done)
  | inr fast ↦ inr ((e, refl, inl fast), hr (rw (fast, after_upload) at h))
]

Locked-after_upload :
    (r : Round) (u : Option OpsError) (waited rest : Option (Result (Unit {0}))) (P : Type 0)
    → (P → Locked waited)
    → (P → Locked rest)
    → (u ≡ none) ⊎ (GoesOn r u × P)
    → Locked (after_upload r u waited rest)
unfolding after_upload after_wait
Locked-after_upload r u waited rest P hw hr (inl free) = rw free refl
Locked-after_upload r u waited rest P hw hr (inr ((e, taken, inl fast), p)) =
    rw (taken, after_upload, fast) (hr p)
Locked-after_upload r u waited rest P hw hr (inr ((e, taken, inr ended), p)) =
    rw (taken, after_upload, ended)
      (elim (Bool-cases (waits r e)) [ inl slow ↦ rw slow (hw p) | inr fast ↦ rw fast (hr p) ])

round_to :
    (r : Round) (rounds : List Round)
    → (upload_result r.uploaded ≡ none) ⊎ (GoesOn r (upload_result r.uploaded) × LockedAfter rounds)
    → LockedAfter (r ∷ rounds)
round_to r rounds (inl free) = inl ((upload_result_iff r.uploaded).0 free)
round_to r rounds (inr ((e, refused, on), later)) = inr (
  (λ q. absurd (let g = sym ((upload_result_iff r.uploaded).1 q) ∙ refused in cc)),
  elim on [ inl quick ↦ inl ((waits_iff r e refused).0 quick) | inr going ↦ inr going ],
  later,
)

round_from :
    (r : Round) (rounds : List Round)
    → LockedAfter (r ∷ rounds)
    → (upload_result r.uploaded ≡ none) ⊎ (GoesOn r (upload_result r.uploaded) × LockedAfter rounds)
round_from r rounds (inl got) = inl ((upload_result_iff r.uploaded).1 got)
round_from r rounds (inr (other, how, later)) = elim (Option-cases (upload_result r.uploaded)) [
  | inl free ↦ absurd (other ((upload_result_iff r.uploaded).0 free))
  | inr (e, refused) ↦ inr (
    (
      e,
      refused,
      elim how [ inl quick ↦ inl ((waits_iff r e refused).1 quick) | inr going ↦ inr going ],
    ),
    later,
  )
]

-- Lock succeeds within the rounds that are listed exactly if in one of them the upload is answered
-- with status 200, and in each round before it the upload was answered otherwise and one of two
-- things holds: the upload was answered with status 412, and Stat with 404, or with 200 and an
-- expiration that has passed and the deletion with 204; or the context did not end in the wait of
-- the round.
pub lock-LockedAfter :
    (backoff : ExponentialBackoff) (rounds : List Round)
    → (lock backoff rounds ≡ some (ok tt)) ↔ LockedAfter rounds
unfolding lock
lock-LockedAfter backoff [] = ((λ h. absurd (let g = h in cc)), λ h. absurd h)
lock-LockedAfter backoff (r ∷ rounds) =
    let (wait_to, wait_from) = lock-LockedAfter (wait backoff r.context_ended).0 rounds in
    let (rest_to, rest_from) = lock-LockedAfter backoff rounds in
    (
      (λ h. round_to r rounds (
          after_upload-Locked r (upload_result r.uploaded) _ _ (LockedAfter rounds) wait_to rest_to
            h)),
      λ h.
          Locked-after_upload r (upload_result r.uploaded) _ _ (LockedAfter rounds) wait_from
            rest_from (round_from r rounds h),
    )

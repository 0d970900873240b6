-- ===== src/Badgerauth/Txn/Retry.antt =====
-- txnWithBackoff (db.go) stops after a number of attempts that the backoff's bounds give, and what it
-- returns comes from one attempt.
use gateway_mt.Prelude.{
  ℕ, zero, suc, ◌+◌, ◌*◌, ◌^◌, ◌<◌, ◌≤◌, ◌≡◌, ◌⊎◌, inl, inr, refl, Bool, true, not, ◌&&◌, Option,
  none, some, List, [], ◌∷◌, length, All, arith, leb, Bool-cases,
}
use native.Mathlib.Nat.{pow-suc}
use gateway_mt.Errs.{Error, Result, ok, err, is, conflict}
use gateway_mt.Backoff.{ExponentialBackoff, wait, maxed}
use gateway_mt.Backoff.Bound.{
  IsInRange, wait_delay, wait-IsInRange, wait-max, maxed_iff, maxed_same,
}
use gateway_mt.Badgerauth.Txn.{Attempt, update, after_attempt, txn_with_backoff}

pow_pos : (n : ℕ) → 0 < 2 ^ n
pow_pos zero = omega arith
pow_pos (suc n) = omega (arith, pow-suc 2 n, pow_pos n)

-- One wait halves what is left to the maximum.
wait_reach :
    (e : ExponentialBackoff) (ended : Option Error) (n : ℕ)
    → IsInRange e
    → 0 < e.delay
    → e.max ≤ e.delay * 2 ^ suc n
    → (0 < (wait e ended).0.delay) × ((wait e ended).0.max ≤ (wait e ended).0.delay * 2 ^ n)
wait_reach e ended n h pos reach =
    let d = wait_delay e ended h in
    let m = wait-max e ended h in
    let p = pow_pos n in
    let q : e.max * 1 ≤ e.max * 2 ^ n = grind arith in
    let r = pow-suc 2 n in
    let reach2 : e.max ≤ e.delay * (2 ^ n * 2) = rw r at reach in
    elim (Bool-cases (leb (e.delay * 2) e.max)) [
      | inl small ↦
          let de : (wait e ended).0.delay ≡ e.delay * 2 = ground arith in
          rw (de, m.0) (omega arith, omega arith)
      | inr large ↦
          let de : (wait e ended).0.delay ≡ e.max = ground arith in
          rw (de, m.0) (omega arith, omega arith)
    ]

module _ {S : Type 0} (f : S → Result S) where
  after-last :
      (u : Result S) (ended : Option Error) (rest : Option (Result S))
      → (r : Result S) × (after_attempt u true ended rest ≡ some r)
  unfolding after_attempt
  after-last (ok t) ended rest = (ok t, refl)
  after-last (err q) none rest = (err q, ground arith)
  after-last (err q) (some w) rest = (err q, ground arith)

  after-returns :
      (u : Result S) (full : Bool) (ended : Option Error) {rest : Option (Result S)} {r : Result S}
      → rest ≡ some r
      → (v : Result S) × (after_attempt u full ended rest ≡ some v)
  unfolding after_attempt
  after-returns (ok t) full ended h = (ok t, refl)
  after-returns (err q) full none {r} h = elim (Bool-cases (is conflict q && not full)) [
    | inl again ↦ (r, rw again h)
    | inr final ↦ (err q, rw final)
  ]
  after-returns (err q) full (some w) h = elim (Bool-cases (is conflict q && not full)) [
    | inl again ↦ (err w, rw again)
    | inr final ↦ (err q, rw final)
  ]

  -- An attempt that finds the backoff maxed is the last one.
  last_attempt :
      (e : ExponentialBackoff) (a : Attempt S) (attempts : List (Attempt S))
      → (maxed e).1 ≡ true
      → (r : Result S) × (txn_with_backoff f e (a ∷ attempts) ≡ some r)
  last_attempt e a attempts full =
      let rest = txn_with_backoff f (wait (maxed e).0 a.context_ended).0 attempts in
      let (r, h) = after-last (update f a) a.context_ended rest in
      (r, unfold txn_with_backoff in rw full h)

  -- Any attempt returns, or the loop goes on after one wait.
  one_attempt :
      (e : ExponentialBackoff) (a : Attempt S) (attempts : List (Attempt S))
      → IsInRange e
      → ((r : Result S) × (txn_with_backoff f (wait e a.context_ended).0 attempts ≡ some r))
      → (r : Result S) × (txn_with_backoff f e (a ∷ attempts) ≡ some r)
  one_attempt e a attempts h (r, later) =
      let later' : txn_with_backoff f (wait (maxed e).0 a.context_ended).0 attempts ≡ some r =
        rw (maxed_same e h) later in
      let (v, done) = after-returns (update f a) (maxed e).1 a.context_ended later' in
      (v, unfold txn_with_backoff in done)

  -- Once the delay is positive and `n` doublings reach the maximum, n + 1 attempts are enough.
  returns_from :
      (n : ℕ) (e : ExponentialBackoff) (attempts : List (Attempt S))
      → IsInRange e
      → 0 < e.delay
      → e.max ≤ e.delay * 2 ^ n
      → suc n ≤ length attempts
      → (r : Result S) × (txn_with_backoff f e attempts ≡ some r)
  returns_from n e [] h pos reach long = absurd (omega arith)
  returns_from zero e (a ∷ attempts) h pos reach long =
      let d = h.delay_le in last_attempt e a attempts ((maxed_iff e h).1 (omega arith))
  returns_from (suc n) e (a ∷ attempts) h pos reach long =
      let (pos', reach') = wait_reach e a.context_ended n h pos reach in
      one_attempt e a attempts h (
        returns_from n (wait e a.context_ended).0 attempts (wait-IsInRange e a.context_ended h) pos'
          reach' (omega arith))

  -- From a backoff that has not waited, with a positive minimum that is at most the maximum, a
  -- maximum below 2^62 that is at most 2^n times the minimum, txnWithBackoff returns within n + 2
  -- attempts, whatever the other transactions and the engine do.
  pub txn_with_backoff_returns :
      (n : ℕ) (e : ExponentialBackoff) (attempts : List (Attempt S))
      → IsInRange e
      → e.delay ≡ 0
      → e.max ≤ e.min * 2 ^ n
      → n + 2 ≤ length attempts
      → (r : Result S) × (txn_with_backoff f e attempts ≡ some r)
  txn_with_backoff_returns n e [] h fresh reach long = absurd (omega arith)
  txn_with_backoff_returns n e (a ∷ attempts) h fresh reach long =
      let d : (wait e a.context_ended).0.delay ≡ e.min =
        ground (arith, wait_delay e a.context_ended h) in
      let (m, _, _) = wait-max e a.context_ended h in
      one_attempt e a attempts h (
        returns_from n (wait e a.context_ended).0 attempts (wait-IsInRange e a.context_ended h)
          (rw d h.min_pos) (rw (d, m) reach) (omega arith))

  -- how a successful run went: conflicts, and then one attempt whose commit went through
  abbrev pub CommittedAfterConflicts : S → List (Attempt S) → Type 0
  CommittedAfterConflicts t [] = ⊥
  CommittedAfterConflicts t (a ∷ attempts) =
      ((f a.snapshot ≡ ok t) × (a.commit_error ≡ none))
      ⊎ (((q : Error) × (update f a ≡ err q) × (is conflict q ≡ true))
          × CommittedAfterConflicts t attempts)

  after-ok :
      (u : Result S) (full : Bool) (ended : Option Error) (rest : Option (Result S)) (t : S)
      → after_attempt u full ended rest ≡ some (ok t)
      → (u ≡ ok t) ⊎ (((q : Error) × (u ≡ err q) × (is conflict q ≡ true)) × (rest ≡ some (ok t)))
  unfolding after_attempt
  after-ok (ok v) full ended rest t h = inl (ground arith)
  after-ok (err q) full none rest t h = inr ((q, refl, ground arith), ground arith)
  after-ok (err q) full (some w) rest t h = absurd (ground arith)

  update-eq-ok :
      (a : Attempt S) (t : S) → update f a ≡ ok t → (f a.snapshot ≡ ok t) × (a.commit_error ≡ none)
  unfolding update
  update-eq-ok a t h = ground arith

  -- If txnWithBackoff succeeds with a state, then after some attempts that each ended in a
  -- conflict there is one whose function gave that state on its own snapshot and whose commit went
  -- through.
  pub txn_with_backoff-CommittedAfterConflicts :
      (e : ExponentialBackoff) (attempts : List (Attempt S)) (t : S)
      → txn_with_backoff f e attempts ≡ some (ok t)
      → CommittedAfterConflicts t attempts
  unfolding txn_with_backoff
  txn_with_backoff-CommittedAfterConflicts e [] t h = absurd (let g = h in cc)
  txn_with_backoff-CommittedAfterConflicts e (a ∷ attempts) t h =
      elim (after-ok (update f a) (maxed e).1 a.context_ended _ t h) [
        | inl done ↦ inl (update-eq-ok a t done)
        | inr (lost, later) ↦ inr (
          lost,
          txn_with_backoff-CommittedAfterConflicts (wait (maxed e).0 a.context_ended).0 attempts t
              later,
        )
      ]

  -- A success was computed from one of the snapshots, with what all of them share.
  pub committed_from :
      (P : S → Type 0) (attempts : List (Attempt S)) (t : S)
      → All (λ (a : Attempt S). P a.snapshot) attempts
      → CommittedAfterConflicts t attempts
      → (s : S) × P s × (f s ≡ ok t)
  committed_from P [] t h c = absurd c
  committed_from P (a ∷ attempts) t (h, hs) c = elim c [
    | inl (done, _) ↦ (a.snapshot, h, done)
    | inr (_, later) ↦ committed_from P attempts t hs later
  ]

  -- The same, with the snapshot of the attempt whose commit went through.
  abbrev pub CommittedOn : S → S → List (Attempt S) → Type 0
  CommittedOn s t [] = ⊥
  CommittedOn s t (a ∷ attempts) =
      ((a.snapshot ≡ s) × (f s ≡ ok t) × (a.commit_error ≡ none))
      ⊎ (((q : Error) × (update f a ≡ err q) × (is conflict q ≡ true)) × CommittedOn s t attempts)

  pub committed_on :
      (P : S → Type 0) (attempts : List (Attempt S)) (t : S)
      → All (λ (a : Attempt S). P a.snapshot) attempts
      → CommittedAfterConflicts t attempts
      → (s : S) × P s × (f s ≡ ok t) × CommittedOn s t attempts
  committed_on P [] t h c = absurd c
  committed_on P (a ∷ attempts) t (h, hs) c = elim c [
    | inl (done, through) ↦ (a.snapshot, h, done, inl (refl, done, through))
    | inr (lost, later) ↦
        let (s, q, done, on) = committed_on P attempts t hs later in (s, q, done, inr (lost, on))
  ]

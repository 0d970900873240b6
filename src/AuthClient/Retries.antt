-- ===== src/AuthClient/Retries.antt =====
-- How the loop of Resolve (pkg/authclient/authclient.go) ends: it gives up requests that cannot be sent, and asks
-- again as long as the auth service answers with an internal error.
use native.Mathlib.Nat.{pow-suc}
use gateway_mt.Prelude.{
  ℕ, zero, suc, ◌*◌, ◌^◌, ◌<◌, ◌≤◌, ◌≡◌, refl, ◌∙◌, inl, inr, true, false, Bool-cases, Option, none,
  some, List, [], ◌∷◌, ◌++◌, ◌==◌, leb, length, All, arith,
}
use gateway_mt.Backoff.{ExponentialBackoff, wait, maxed}
use gateway_mt.Backoff.Bound.{
  IsInRange, wait_delay, wait-IsInRange, maxed_iff, maxed_same, wait-max,
}
use gateway_mt.AuthClient.{
  AuthServiceResponse, not_sent, responded, Round, answers, fails, with_status, attempts,
  after_attempt,
}

-- the service answers with an internal error, and the context goes on
abbrev pub IsUnexpected : Round → Type 0
IsUnexpected r =
    ((body : Option AuthServiceResponse) × (r.attempt ≡ responded 500 body))
    × (r.context_ended ≡ none)

-- the request cannot be sent, and the context goes on
abbrev pub IsNotSent : Round → Type 0
IsNotSent r = (r.attempt ≡ not_sent) × (r.context_ended ≡ none)

-- While the auth service answers with status 500 and the context does not end, the loop of Resolve
-- goes on, however many answers there are, and it returns the response of the first answer after
-- them that has status 200 and can be decoded.
pub attempts-IsUnexpected :
    (delay : ExponentialBackoff) (rounds rest : List Round) (a : AuthServiceResponse) (r : Round)
    → All IsUnexpected rounds
    → r.attempt ≡ responded 200 (some a)
    → (attempts delay rounds ≡ none) × (attempts delay (rounds ++ (r ∷ rest)) ≡ some (answers a))
unfolding attempts after_attempt
attempts-IsUnexpected delay [] rest a r h good = (refl, rw good refl)
attempts-IsUnexpected delay (q ∷ rounds) rest a r (((body, failed), goes_on), hs) good =
    let (stuck, done) =
      attempts-IsUnexpected (wait (maxed delay).0 none).0 rounds rest a r hs good in
    (rw (attempts, failed, goes_on) stuck, rw (attempts, failed, goes_on) done)

-- A product with a factor of at least one.
mul_le : (a q : ℕ) → 0 < q → a ≤ a * q
mul_le a zero h = absurd (omega arith)
mul_le a (suc q) h = grind arith

pow_pos : (n : ℕ) → 0 < 2 ^ n
pow_pos zero = omega arith
pow_pos (suc n) = omega (arith, pow_pos n, pow-suc 2 n)

regroup : (d q m : ℕ) → m ≤ d * (q * 2) → m ≤ d * 2 * q
regroup d q m h = grind arith

no_delay : (d q m : ℕ) → d ≡ 0 → m ≤ d * q → m ≡ 0
no_delay d q m z h = grind arith

-- One wait brings the delay nearer to the maximum.
near_next :
    (n : ℕ) (e : ExponentialBackoff)
    → IsInRange e
    → e.max ≤ e.delay * 2 ^ suc n
    → e.max ≤ (wait e none).0.delay * 2 ^ n
near_next n e fits near =
    let w = wait_delay e none fits in
    let low = fits.min_pos in
    let le = fits.min_le in
    let p = pow-suc 2 n in
    let l = mul_le e.max (2 ^ n) (pow_pos n) in
    let q : e.max ≤ e.delay * 2 * 2 ^ n = regroup e.delay (2 ^ n) e.max (rw p at near) in
    elim (Bool-cases (e.delay == 0)) [
      | inl start ↦
          absurd (let z = no_delay e.delay (2 ^ suc n) e.max (ground arith) near in omega arith)
      | inr started ↦ elim (Bool-cases (leb (e.delay * 2) e.max)) [
        | inl below ↦ rw (w, started, below) q
        | inr above ↦ rw (w, started, above) l
      ]
    ]

-- What a request that cannot be sent leads to.
ends :
    (e : ExponentialBackoff) (r : Round) (rounds : List Round)
    → IsNotSent r
    → (maxed e).1 ≡ true
    → attempts e (r ∷ rounds) ≡ some (fails (with_status 500))
unfolding attempts after_attempt
ends e r rounds (lost, goes_on) last = rw (attempts, lost, after_attempt, last) refl

goes_on :
    (e : ExponentialBackoff) (r : Round) (rounds : List Round)
    → IsInRange e
    → IsNotSent r
    → (maxed e).1 ≡ false
    → attempts e (r ∷ rounds) ≡ attempts (wait e none).0 rounds
unfolding attempts after_attempt
goes_on e r rounds fits (lost, lasts) early =
    let same = maxed_same e fits in rw (attempts, lost, lasts, after_attempt, early, same) refl

gives_up_from :
    (n : ℕ) (e : ExponentialBackoff) (rounds : List Round)
    → IsInRange e
    → e.max ≤ e.delay * 2 ^ n
    → n < length rounds
    → All IsNotSent rounds
    → attempts e rounds ≡ some (fails (with_status 500))
gives_up_from n e [] fits near long h = absurd (omega arith)
gives_up_from zero e (r ∷ rounds) fits near long (h, hs) =
    let le = fits.delay_le in ends e r rounds h ((maxed_iff e fits).1 (omega arith))
gives_up_from (suc n) e (r ∷ rounds) fits near long (h, hs) = elim (Bool-cases (maxed e).1) [
  | inl last ↦ ends e r rounds h last
  | inr early ↦
      let (max_kept, min_kept, ended) = wait-max e none fits in
      goes_on e r rounds fits h early
      ∙ gives_up_from n (wait e none).0 rounds (wait-IsInRange e none fits)
          (rw max_kept (near_next n e fits near)) (omega arith) hs
]

-- From delays with a positive minimum that is at most the maximum, a maximum below 2^62 and a last
-- delay that is at most the maximum: the loop of Resolve ends with status 500 if at least 64
-- requests cannot be sent and the context does not end.
pub attempts-IsNotSent :
    (e : ExponentialBackoff) (rounds : List Round)
    → IsInRange e
    → 64 ≤ length rounds
    → All IsNotSent rounds
    → attempts e rounds ≡ some (fails (with_status 500))
attempts-IsNotSent e [] fits long h = absurd (omega arith)
attempts-IsNotSent e (r ∷ rounds) fits long (h, hs) =
    let small = fits.max_range in
    let low = fits.min_pos in
    let le = fits.min_le in
    elim (Bool-cases (e.delay == 0)) [
      | inr started ↦
          gives_up_from 62 e (r ∷ rounds) fits (let d : 0 < e.delay = ground arith in omega arith)
            (omega arith) (h, hs)
      | inl start ↦ elim (Bool-cases (maxed e).1) [
        | inl last ↦ ends e r rounds h last
        | inr early ↦
            let (max_kept, min_kept, ended) = wait-max e none fits in
            let w : (wait e none).0.delay ≡ e.min =
              (let d = wait_delay e none fits in rw start at d) in
            goes_on e r rounds fits h early
            ∙ gives_up_from 62 (wait e none).0 rounds (wait-IsInRange e none fits)
                (rw (max_kept, w) (omega arith)) (omega arith) hs
      ]
    ]

-- ===== src/Backoff.antt =====
-- pkg/backoff/backoff.go: exponentially growing delays between attempts, in nanoseconds (int64).
pub mod Bound
use gateway_mt.Prelude.{ℕ, Bool, Option, none, some, ◌==◌, if◌then◌else◌}
use gateway_mt.Prelude.Int64.{lt_i64, double_i64}
use gateway_mt.Errs.{Error}

pub record ExponentialBackoff : Type 0 where
  pub delay : ℕ
  pub max : ℕ
  pub min : ℕ

abbrev pub second : ℕ
second = 1000000000

-- `init`: a zero bound is set to its default, 1s and 5ms.
unfoldable pub init : ExponentialBackoff → ExponentialBackoff
init e = record e {
  max = if e.max == 0 then second else e.max;
  min = if e.min == 0 then 5000000 else e.min;
}

-- the delay that Wait sleeps: the minimum at first, then twice the last one, at most the maximum
unfoldable pub next_delay : ExponentialBackoff → ℕ
next_delay e =
    let d = if e.delay == 0 then e.min else double_i64 e.delay in
    if lt_i64 e.max d then e.max else d

-- Wait. `ended` is the error of the context, if it is done before the timer fires; the delay has
-- grown all the same.
unfoldable pub wait : ExponentialBackoff → Option Error → ExponentialBackoff × Option Error
unfolding init next_delay
wait e ended = let e' = init e in (record e' { delay = next_delay e' }, ended)

-- Maxed, which initialises the bounds too
unfoldable pub maxed : ExponentialBackoff → ExponentialBackoff × Bool
unfolding init
maxed e = let e' = init e in (e', e'.delay == e'.max)

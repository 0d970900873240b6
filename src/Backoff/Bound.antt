-- ===== src/Backoff/Bound.antt =====
-- The delays of the exponential backoff double up to the maximum, so they reach it soon.
use gateway_mt.Prelude.{◌*◌, ◌^◌, ◌<◌, ◌≤◌, ◌≡◌, true, Option, arith, ◌==◌, if◌then◌else◌}
use gateway_mt.Errs.{Error}
use gateway_mt.Prelude.{leb, ◌↔◌}
use gateway_mt.Backoff.{ExponentialBackoff, wait, maxed}

-- Bounds within which the doubling of an int64 does not overflow, that are set, and in order.
pub record IsInRange (e : ExponentialBackoff) : Type 0 where
  pub max_range : e.max < 2 ^ 62
  pub min_pos : 0 < e.min
  pub min_le : e.min ≤ e.max
  pub delay_le : e.delay ≤ e.max

-- With a positive minimum that is at most the maximum, a maximum below 2^62 and a delay that is at
-- most the maximum, the delay of Wait is the minimum at first and then twice the last one, at most
-- the maximum: nothing overflows.
pub wait_delay :
    (e : ExponentialBackoff) (ended : Option Error)
    → IsInRange e
    → (wait e ended).0.delay
      ≡ (if e.delay == 0 then e.min else if leb (e.delay * 2) e.max then e.delay * 2 else e.max)
unfolding wait
wait_delay e ended h = ground arith

pub wait-IsInRange :
    (e : ExponentialBackoff) (ended : Option Error) → IsInRange e → IsInRange (wait e ended).0
unfolding wait
wait-IsInRange e ended h = ground arith

pub maxed_iff : (e : ExponentialBackoff) → IsInRange e → ((maxed e).1 ≡ true) ↔ (e.delay ≡ e.max)
unfolding maxed
maxed_iff e h = ground arith

pub maxed_same : (e : ExponentialBackoff) → IsInRange e → (maxed e).0 ≡ e
unfolding maxed
maxed_same e h = ground arith

pub wait-max :
    (e : ExponentialBackoff) (ended : Option Error)
    → IsInRange e
    → ((wait e ended).0.max ≡ e.max) × ((wait e ended).0.min ≡ e.min) × ((wait e ended).1 ≡ ended)
unfolding wait
wait-max e ended h = ground arith

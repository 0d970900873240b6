-- ===== src/Limiter/Tests.antt =====
-- Two requests of one key at a limit of one: the second one is refused (limiter.go).
use gateway_mt.Prelude.{ℕ, ◌^◌, ◌<◌, ◌≡◌, refl, Bool, true, false, List, [], ◌∷◌, length, arith}
use gateway_mt.Prelude.Bytes.{Bytes}
use gateway_mt.Prelude.Dict
use gateway_mt.Errs.{ok}
use gateway_mt.Limiter.{
  Phase, Request, State, Picks, Step, Reachable, count, enter, is_limited, key_of,
}
use gateway_mt.Limiter.Counts.{IsExact, Reachable-IsExact}

abbrev key : Bytes
key = 7 ∷ []

abbrev waiting : Request
waiting = record { key = key; phase = Phase.checking }

abbrev two_arrived : State
two_arrived = record { limits = (key, 2) ∷ []; requests = waiting ∷ waiting ∷ [] }

two_arrived-Reachable : Reachable 1 two_arrived
unfolding enter count Dict.lookup Dict.insert key_of gateway_mt.Prelude.Bytes.eq_bytes
two_arrived-Reachable =
    Reachable.steps (Reachable.steps Reachable.starts (Step.arrives (ok key)) (omega arith))
      (Step.arrives (ok key)) (omega arith)

abbrev one_refused : State
one_refused = record {
  limits = (key, 2) ∷ [];
  requests = record { key = key; phase = Phase.refused } ∷ waiting ∷ [];
}

Reachable-IsExact_example : IsExact 1 one_refused
unfolding is_limited count Dict.lookup gateway_mt.Prelude.Bytes.eq_bytes
Reachable-IsExact_example =
    Reachable-IsExact 1 one_refused
      (Reachable.steps two_arrived-Reachable (Step.is_checked key Picks.here) (omega arith))

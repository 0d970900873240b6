-- ===== src/MutexGroup/Tests.antt =====
-- Two callers of one name: the second waits while the first holds the lock.
use gateway_mt.Prelude.{◌≤◌, ◌≡◌, ◌≢◌, refl, none, true, false, List, [], ◌∷◌}
use gateway_mt.Prelude.Bytes.{Bytes, eq_bytes}
use gateway_mt.Prelude.Dict
use gateway_mt.MutexGroup.{
  Phase, Caller, Group, count, init, enter, set_taken, leave, Picks, Step, Reachable,
}
use gateway_mt.MutexGroup.Counts.{callers, holders_of}
use gateway_mt.MutexGroup.Exclusion.{Reachable-holders_of}

abbrev name : Bytes
name = 104 ∷ []

abbrev fresh : Group
fresh = record { names = []; waiters = []; taken = λ m. false; made = 0 }

abbrev group : Group
group = record {
  names = (name, 0) ∷ [];
  waiters = (name, 2) ∷ [];
  taken = set_taken 0 true (λ m. false);
  made = 1;
}

abbrev both : List Caller
both =
    record { name = name; phase = Phase.waiting 0 }
    ∷ record { name = name; phase = Phase.holding 0 }
    ∷ []

both_called : Reachable group both
unfolding enter init count Dict.lookup Dict.insert eq_bytes
both_called =
    Reachable.steps
      (Reachable.steps (Reachable.steps Reachable.starts (Step.enters name))
        (Step.locks name 0 Picks.here refl))
      (Step.enters name)

Reachable-holders_of_example :
    (holders_of name both ≤ 1)
    × (callers name both ≡ 0 → Dict.lookup name group.names ≡ none)
    × ((ds : List Caller)
        → Picks (record { name = name; phase = Phase.unlocked }) both ds
        → leave name group ≢ none)
Reachable-holders_of_example = Reachable-holders_of group both name both_called

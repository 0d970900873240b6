-- ===== src/Limiter/Counts.antt =====
-- The counts of the limiter (limiter.go) under every interleaving.
use gateway_mt.Prelude.{
  ℕ, suc, ◌+◌, ◌-◌, ◌^◌, ◌%◌, ◌<◌, ◌≤◌, ◌≡◌, refl, ap, ◌∙◌, Bool, true, false, none, List, [], ◌∷◌,
  length, if◌then◌else◌, arith,
}
use gateway_mt.Prelude.Bytes.{Bytes, eq_bytes}
use gateway_mt.Prelude.Bytes.Order.{eq_bytes_refl, eq_bytes_sound}
use gateway_mt.Prelude.Dict
use gateway_mt.Prelude.Dict.{Dict, lookup-insert, lookup-remove}
use gateway_mt.Limiter.{
  Phase, Request, State, Picks, Step, Reachable, count, enter, leave, is_limited, key_of,
}

-- how many of the requests have a key
unfoldable pub in_flight : Bytes → List Request → ℕ
in_flight key [] = 0
in_flight key (r ∷ rs) = (if eq_bytes r.key key then 1 else 0) + in_flight key rs

abbrev is_serving : Phase → Bool
is_serving Phase.serving = true
is_serving _ = false

-- how many of the requests with a key are being served
unfoldable pub served : Bytes → List Request → ℕ
served key [] = 0
served key (r ∷ rs) =
    let rest = served key rs in
    if eq_bytes r.key key then (if is_serving r.phase then suc rest else rest) else rest

count-enter :
    (key k : Bytes) (limits : Dict ℕ)
    → count k (enter key limits)
      ≡ (if eq_bytes key k then (count key limits + 1) % 2 ^ 64 else count k limits)
unfolding count enter
count-enter key k limits =
    ground (arith, lookup-insert key k ((count key limits + 1) % 2 ^ 64) limits)

count-leave :
    (key k : Bytes) (limits : Dict ℕ)
    → 0 < count key limits
    → count key limits < 2 ^ 64
    → count k (leave key limits) ≡ (if eq_bytes key k then count key limits - 1 else count k limits)
unfolding count leave
count-leave key k limits pos fits = ground (
  arith,
  lookup-insert key k ((count key limits + (2 ^ 64 - 1)) % 2 ^ 64) limits,
  lookup-remove key k limits,
)

lookup-leave :
    (key k : Bytes) (limits : Dict ℕ)
    → (count k limits ≡ 0 → Dict.lookup k limits ≡ none)
    → 0 < count key limits
    → count key limits < 2 ^ 64
    → count k (leave key limits) ≡ 0
    → Dict.lookup k (leave key limits) ≡ none
unfolding count leave
lookup-leave key k limits old pos fits h = ground (
  arith,
  lookup-insert key k ((count key limits + (2 ^ 64 - 1)) % 2 ^ 64) limits,
  lookup-remove key k limits,
)

lookup-enter :
    (key k : Bytes) (limits : Dict ℕ)
    → (count k limits ≡ 0 → Dict.lookup k limits ≡ none)
    → count key limits + 1 < 2 ^ 64
    → count k (enter key limits) ≡ 0
    → Dict.lookup k (enter key limits) ≡ none
unfolding count enter
lookup-enter key k limits old fits h =
    ground (arith, lookup-insert key k ((count key limits + 1) % 2 ^ 64) limits)

-- What picking a request takes from the sums over the requests.
in_flight-pick :
    {r : Request} {rs qs : List Request} (k : Bytes)
    → Picks r rs qs
    → in_flight k rs ≡ (if eq_bytes r.key k then 1 else 0) + in_flight k qs
unfolding in_flight
in_flight-pick k Picks.here = refl
in_flight-pick k (Picks.there {q = q} pick) = omega (arith, in_flight-pick k pick)

served-pick :
    {r : Request} {rs qs : List Request} (k : Bytes) → Picks r rs qs → served k qs ≤ served k rs
unfolding served
served-pick k Picks.here = ground arith
served-pick k (Picks.there {q = q} pick) = ground (arith, served-pick k pick)

served_le_in_flight : (k : Bytes) (rs : List Request) → served k rs ≤ in_flight k rs
unfolding served in_flight
served_le_in_flight k [] = omega arith
served_le_in_flight k (r ∷ rs) = ground (arith, served_le_in_flight k rs)

in_flight_le : (k : Bytes) (rs : List Request) → in_flight k rs ≤ length rs
unfolding in_flight
in_flight_le k [] = omega arith
in_flight_le k (r ∷ rs) = ground (arith, in_flight_le k rs)

-- The counts are those of the requests under way, a key without requests is not in the map, and no
-- more requests of a key are served than allowed.
pub record IsExact (allowed : ℕ) (s : State) : Type 0 where
  pub counts : (k : Bytes) → count k s.limits ≡ in_flight k s.requests
  pub forgotten : (k : Bytes) → count k s.limits ≡ 0 → Dict.lookup k s.limits ≡ none
  pub bounded : (k : Bytes) → served k s.requests ≤ allowed

arrives-IsExact :
    (allowed : ℕ) (key : Bytes) (limits : Dict ℕ) (rs : List Request)
    → IsExact allowed (record { limits = limits; requests = rs })
    → suc (length rs) < 2 ^ 64
    → IsExact allowed (record {
      limits = enter key limits;
      requests = record { key = key; phase = Phase.checking } ∷ rs;
    })
unfolding in_flight served
arrives-IsExact allowed key limits rs old fits =
    let c = old.counts key in
    let l = in_flight_le key rs in
    record {
      counts = λ k. ground (arith, count-enter key k limits, old.counts k, eq_bytes_sound key k);
      forgotten = λ k h. lookup-enter key k limits (old.forgotten k) (omega arith) h;
      bounded = λ k. ground (arith, old.bounded k);
    }

is_checked-IsExact :
    (allowed : ℕ) (key : Bytes) (limits : Dict ℕ) (rs qs : List Request)
    → Picks (record { key = key; phase = Phase.checking }) rs qs
    → IsExact allowed (record { limits = limits; requests = rs })
    → IsExact allowed (record {
      limits = limits;
      requests =
          record {
            key = key;
            phase = if is_limited allowed key limits then Phase.refused else Phase.serving;
          }
          ∷ qs;
    })
unfolding in_flight served is_limited
is_checked-IsExact allowed key limits rs qs pick old = record {
  counts = λ k. old.counts k ∙ in_flight-pick k pick;
  forgotten = old.forgotten;
  bounded = λ k. ground (
    arith,
    old.bounded k,
    old.counts k,
    in_flight-pick k pick,
    served-pick k pick,
    served_le_in_flight k qs,
    eq_bytes_sound key k,
  );
}

finishes-IsExact :
    (allowed : ℕ) (r : Request) (limits : Dict ℕ) (rs qs : List Request)
    → Picks r rs qs
    → length rs < 2 ^ 64
    → IsExact allowed (record { limits = limits; requests = rs })
    → IsExact allowed (record { limits = leave r.key limits; requests = qs })
finishes-IsExact allowed r limits rs qs pick fits old =
    let c = old.counts r.key in
    let p = in_flight-pick r.key pick in
    let e = eq_bytes_refl r.key in
    let l = in_flight_le r.key rs in
    let pos : 0 < count r.key limits = ground arith in
    let small : count r.key limits < 2 ^ 64 = omega arith in
    record {
      counts = λ k. ground (
        arith,
        count-leave r.key k limits pos small,
        old.counts k,
        in_flight-pick k pick,
        eq_bytes_sound r.key k,
      );
      forgotten = λ k h. lookup-leave r.key k limits (old.forgotten k) pos small h;
      bounded = λ k. omega (arith, old.bounded k, served-pick k pick);
    }

length-pick : {r : Request} {rs qs : List Request} → Picks r rs qs → length rs ≡ suc (length qs)
length-pick Picks.here = refl
length-pick (Picks.there pick) = ap suc (length-pick pick)

fits : (allowed : ℕ) (s : State) → Reachable allowed s → length s.requests < 2 ^ 64
fits allowed s Reachable.starts = omega arith
fits allowed s (Reachable.steps before step small) = small

-- In every state that the limiter reaches, whatever the interleaving of the requests, with fewer
-- than 2^64 requests under way at a time: the count of a key is the number of its requests under
-- way, a key that counts 0 is not in the map, and at most `allowed` requests of a key are being
-- served.
pub Reachable-IsExact : (allowed : ℕ) (s : State) → Reachable allowed s → IsExact allowed s
unfolding count in_flight served Dict.lookup
Reachable-IsExact allowed s Reachable.starts = record {
  counts = λ k. refl;
  forgotten = λ k h. refl;
  bounded = λ k. omega arith;
}
Reachable-IsExact allowed s (Reachable.steps before (Step.arrives {limits} {rs} key) small) =
    arrives-IsExact allowed (key_of key) limits rs (Reachable-IsExact allowed _ before) small
Reachable-IsExact allowed s
      (Reachable.steps before (Step.is_checked {limits} {rs} {qs} key pick) small) =
    is_checked-IsExact allowed key limits rs qs pick (Reachable-IsExact allowed _ before)
Reachable-IsExact allowed s
      (Reachable.steps before (Step.finishes {limits} {rs} {qs} r serving phase pick) small) =
    finishes-IsExact allowed r limits rs qs pick (fits allowed _ before)
      (Reachable-IsExact allowed _ before)

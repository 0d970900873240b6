-- ===== src/MutexGroup/Exclusion.antt =====
-- The promises of MutexGroup (utils.go) under every interleaving: one holder of a name at a time, no panic, and
-- only the names of callers are kept.
use gateway_mt.Prelude.{
  ℕ, ◌+◌, ◌-◌, ◌≤◌, ◌≡◌, ◌≢◌, refl, sym, ◌∙◌, true, false, none, some, List, ◌∷◌, ◌==◌, ==_iff,
  if◌then◌else◌, Bool-cases, Option-cases, inl, inr, arith,
}
use mathlib.Core.Path.{subst}
use gateway_mt.Prelude.Bytes.{Bytes, eq_bytes}
use gateway_mt.Prelude.Bytes.Order.{eq_bytes_refl, eq_bytes_sound}
use gateway_mt.Prelude.Dict
use gateway_mt.Prelude.Dict.{Dict, lookup-insert, lookup-remove}
use gateway_mt.MutexGroup.{
  Phase, Caller, Group, count, init, enter, set_taken, leave, Picks, Step, Reachable,
}
use gateway_mt.MutexGroup.Counts.{
  callers, holders, holders_of, IsNamed, IsGroup, callers-pick, holders-pick, All-pick,
  holders_of-some, holders_of-none, IsNamed-insert, IsNamed-remove,
}

count-insert :
    (name k : Bytes) (n : ℕ) (waiters : Dict ℕ)
    → count k (Dict.insert name n waiters) ≡ (if eq_bytes name k then n else count k waiters)
unfolding count
count-insert name k n waiters = ground (arith, lookup-insert name k n waiters)

count-remove :
    (name k : Bytes) (waiters : Dict ℕ)
    → count k (Dict.remove name waiters) ≡ (if eq_bytes name k then 0 else count k waiters)
unfolding count
count-remove name k waiters = ground (arith, lookup-remove name k waiters)

-- the count of a name after one more caller of a name, or one less
more_counts :
    (g : Group) (cs : List Caller) (name k : Bytes)
    → ((j : Bytes) → count j g.waiters ≡ callers j cs)
    → count k (Dict.insert name (count name g.waiters + 1) g.waiters)
      ≡ (if eq_bytes name k then 1 else 0) + callers k cs
more_counts g cs name k old = ground (
  arith,
  count-insert name k (count name g.waiters + 1) g.waiters,
  old k,
  old name,
  eq_bytes_sound name k,
)

enters-IsGroup :
    (g : Group) (cs : List Caller) (name : Bytes)
    → IsGroup g cs
    → IsGroup (enter name g).1 (record { name = name; phase = Phase.waiting (enter name g).0 } ∷ cs)
unfolding enter init callers holders
enters-IsGroup g cs name old = elim (Option-cases (Dict.lookup name g.names)) [
  | inr (m, found) ↦
      rw (enter, init, found)
        (record {
          counts = λ k. more_counts g cs name k old.counts;
          named = (found, old.named);
          fresh = old.fresh;
          exact = λ m. ground (arith, old.exact m);
          free = old.free;
          gone = λ k h. old.gone k (ground (arith, h));
        })
  | inl absent ↦
      rw (enter, init, absent)
        (record {
          counts = λ k. more_counts g cs name k old.counts;
          named = (
            lookup-insert name name g.made g.names ∙ rw (eq_bytes_refl name) refl,
            IsNamed-insert name g.made g.names cs absent old.named,
          );
          fresh = λ k m h. elim (Bool-cases (eq_bytes name k)) [
            | inl same ↦
                let g1 = sym (lookup-insert name k g.made g.names) ∙ h in
                let at : some g.made ≡ some m = rw same at g1 in ground (arith, at)
            | inr other ↦
                let g1 = sym (lookup-insert name k g.made g.names) ∙ h in
                let was = old.fresh k m (rw other at g1) in omega arith
          ];
          exact = λ m. ground (arith, old.exact m);
          free = λ m h. old.free m (omega arith);
          gone = λ k h. elim (Bool-cases (eq_bytes name k)) [
            | inl same ↦ absurd (ground (arith, h, same))
            | inr other ↦
                lookup-insert name k g.made g.names
                ∙ rw other (old.gone k (ground (arith, h, other)))
          ];
        })
]

locks-IsGroup :
    (g : Group) (cs ds : List Caller) (name : Bytes) (m : ℕ)
    → Picks (record { name = name; phase = Phase.waiting m }) cs ds
    → g.taken m ≡ false
    → IsGroup g cs
    → IsGroup
        (record g { taken = set_taken m true g.taken })
        (record { name = name; phase = Phase.holding m } ∷ ds)
unfolding callers holders
locks-IsGroup g cs ds name m pick is_free old =
    let (here, rest) = All-pick (IsNamed g.names) pick old.named in
    record {
      counts = λ k. omega (arith, old.counts k, callers-pick k pick);
      named = (here, rest);
      fresh = old.fresh;
      exact = λ n. ground (
        arith,
        old.exact n,
        old.exact m,
        holders-pick n pick,
        holders-pick m pick,
        ==_iff m n,
        is_free,
      );
      free = λ n h. ground (arith, old.free n h, old.fresh name m here, ==_iff m n);
      gone = λ k h. old.gone k (callers-pick k pick ∙ h);
    }

unlocks-IsGroup :
    (g : Group) (cs ds : List Caller) (name : Bytes) (m : ℕ)
    → Picks (record { name = name; phase = Phase.holding m }) cs ds
    → IsGroup g cs
    → IsGroup
        (record g { taken = set_taken m false g.taken })
        (record { name = name; phase = Phase.unlocked } ∷ ds)
unfolding callers holders
unlocks-IsGroup g cs ds name m pick old =
    let (here, rest) = All-pick (IsNamed g.names) pick old.named in
    record {
      counts = λ k. omega (arith, old.counts k, callers-pick k pick);
      named = (tt, rest);
      fresh = old.fresh;
      exact = λ n.
          ground
            (arith, old.exact n, old.exact m, holders-pick n pick, holders-pick m pick, ==_iff m n);
      free = λ n h. ground (arith, old.free n h, old.fresh name m here, ==_iff m n);
      gone = λ k h. old.gone k (callers-pick k pick ∙ h);
    }

last_leaves-IsGroup :
    (g : Group) (cs ds : List Caller) (name : Bytes)
    → Picks (record { name = name; phase = Phase.unlocked }) cs ds
    → callers name ds ≡ 0
    → IsGroup g cs
    → IsGroup
        (record g { names = Dict.remove name g.names; waiters = Dict.remove name g.waiters })
        ds
last_leaves-IsGroup g cs ds name pick alone old =
    let (here, rest) = All-pick (IsNamed g.names) pick old.named in
    record {
      counts = λ k. ground (
        arith,
        count-remove name k g.waiters,
        old.counts k,
        callers-pick k pick,
        alone,
        eq_bytes_sound name k,
      );
      named = IsNamed-remove name g.names ds alone rest;
      fresh = λ k m f.
          let e = sym (lookup-remove name k g.names) ∙ f in
          elim (Bool-cases (eq_bytes name k)) [
            | inl at ↦ absurd (let e' = rw at at e in cc)
            | inr other ↦ old.fresh k m (rw other at e)
          ];
      exact = λ m. ground (arith, old.exact m, holders-pick m pick);
      free = old.free;
      gone = λ k f. elim (Bool-cases (eq_bytes name k)) [
        | inl at ↦ lookup-remove name k g.names ∙ rw at refl
        | inr other ↦
            lookup-remove name k g.names
            ∙ rw other (old.gone k (ground (arith, f, callers-pick k pick, other)))
      ];
    }

one_leaves-IsGroup :
    (g : Group) (cs ds : List Caller) (name : Bytes)
    → Picks (record { name = name; phase = Phase.unlocked }) cs ds
    → callers name cs ≡ 1 + callers name ds
    → callers name ds ≢ 0
    → IsGroup g cs
    → IsGroup (record g { waiters = Dict.insert name (count name g.waiters - 1) g.waiters }) ds
one_leaves-IsGroup g cs ds name pick at_name more old =
    let (here, rest) = All-pick (IsNamed g.names) pick old.named in
    record {
      counts = λ k. ground (
        arith,
        count-insert name k (count name g.waiters - 1) g.waiters,
        old.counts k,
        old.counts name,
        callers-pick k pick,
        at_name,
        eq_bytes_sound name k,
      );
      named = rest;
      fresh = old.fresh;
      exact = λ m. ground (arith, old.exact m, holders-pick m pick);
      free = old.free;
      gone = λ k f. elim (Bool-cases (eq_bytes name k)) [
        | inl at ↦
            let e : name ≡ k = eq_bytes_sound name k at in
            absurd (more (subst (λ y. callers y ds ≡ 0) (sym e) f))
        | inr other ↦ old.gone k (ground (arith, f, callers-pick k pick, other))
      ];
    }

-- The caller that leaves is counted.
leaving-counted :
    (g : Group) (cs ds : List Caller) (name : Bytes)
    → Picks (record { name = name; phase = Phase.unlocked }) cs ds
    → IsGroup g cs
    → (callers name cs ≡ 1 + callers name ds) × (count name g.waiters ≡ 1 + callers name ds)
leaving-counted g cs ds name pick old =
    let at_name : callers name cs ≡ 1 + callers name ds =
      callers-pick name pick ∙ rw (eq_bytes_refl name) refl in
    (at_name, old.counts name ∙ at_name)

leaves-IsGroup :
    (g h : Group) (cs ds : List Caller) (name : Bytes)
    → Picks (record { name = name; phase = Phase.unlocked }) cs ds
    → leave name g ≡ some h
    → IsGroup g cs
    → IsGroup h ds
unfolding leave
leaves-IsGroup g h cs ds name pick left old =
    let (at_name, c) = leaving-counted g cs ds name pick old in
    elim (Bool-cases (count name g.waiters == 0)) [
      | inl nobody ↦ absurd (let z = (==_iff (count name g.waiters) 0).0 nobody in omega arith)
      | inr somebody ↦ elim (Bool-cases (count name g.waiters == 1)) [
        | inl last ↦
            let one = (==_iff (count name g.waiters) 1).0 last in
            let made = rw (leave, somebody, last) at left in
            subst (λ x. IsGroup x ds) (let e = made in cc)
              (last_leaves-IsGroup g cs ds name pick (omega arith) old)
        | inr more ↦
            let made = rw (leave, somebody, more) at left in
            subst (λ x. IsGroup x ds) (let e = made in cc)
              (one_leaves-IsGroup g cs ds name pick at_name (λ z. ground (arith, more, z, c)) old)
      ]
    ]

Step-IsGroup : {g h : Group} {cs ds : List Caller} → Step g cs h ds → IsGroup g cs → IsGroup h ds
Step-IsGroup {g} {h} {cs} (Step.enters name) old = enters-IsGroup g cs name old
Step-IsGroup {g} {h} {cs} (Step.locks {ds = ds} name m pick is_free) old =
    locks-IsGroup g cs ds name m pick is_free old
Step-IsGroup {g} {h} {cs} (Step.unlocks {ds = ds} name m pick) old =
    unlocks-IsGroup g cs ds name m pick old
Step-IsGroup {g} {h} {cs} {ds} (Step.leaves name pick left) old =
    leaves-IsGroup g h cs ds name pick left old

Reachable-IsGroup : {g : Group} {cs : List Caller} → Reachable g cs → IsGroup g cs
unfolding callers holders count Dict.lookup
Reachable-IsGroup Reachable.starts = record {
  counts = λ k. refl;
  named = tt;
  fresh = λ k m h. absurd (let g = h in cc);
  exact = λ m. refl;
  free = λ m h. refl;
  gone = λ k h. refl;
}
Reachable-IsGroup (Reachable.steps r step) = Step-IsGroup step (Reachable-IsGroup r)

-- In every state that a new group reaches, whatever the interleaving of its callers: at most one
-- caller holds the lock of a name, a name without callers is not kept, and no caller that has
-- unlocked its mutex makes the group panic.
pub Reachable-holders_of :
    (g : Group) (cs : List Caller) (name : Bytes)
    → Reachable g cs
    → (holders_of name cs ≤ 1)
      × (callers name cs ≡ 0 → Dict.lookup name g.names ≡ none)
      × ((ds : List Caller)
          → Picks (record { name = name; phase = Phase.unlocked }) cs ds
          → leave name g ≢ none)
unfolding leave
Reachable-holders_of g cs name r =
    let ok = Reachable-IsGroup r in
    (
      elim (Option-cases (Dict.lookup name g.names)) [
        | inl absent ↦ let z = holders_of-none name g.names cs absent ok.named in omega arith
        | inr (m, found) ↦
            let le = holders_of-some name m g.names cs found ok.named in
            ground (arith, le, ok.exact m)
      ],
      ok.gone name,
      λ ds pick bad.
          let (at_name, c) = leaving-counted g cs ds name pick ok in ground (arith, bad, c),
    )

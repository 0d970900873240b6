-- ===== src/MutexGroup.antt =====
-- pkg/linksharing/sharing/utils.go: MutexGroup. Each caller goes through the sections of Lock and of the
-- function that it returns; the sections of different callers interleave.
pub mod Counts
pub mod Exclusion
mod Tests
use gateway_mt.Prelude.{
  ℕ, zero, suc, ◌+◌, ◌-◌, ◌<◌, ◌≤◌, ◌≡◌, Bool, true, false, Option, none, some, List, [], ◌∷◌, ◌==◌,
  if◌then◌else◌,
}
use gateway_mt.Prelude.Bytes.{Bytes, eq_bytes}
use gateway_mt.Prelude.Dict
use gateway_mt.Prelude.Dict.{Dict}

-- Where a caller stands: before `namedMu.Lock`, between it and `namedMu.Unlock`, or after that; a mutex is
-- known by a number.
pub data Phase : Type 0 where
  waiting holding : ℕ → Phase
  unlocked : Phase

pub record Caller : Type 0 where
  pub name : Bytes
  pub phase : Phase

-- the two maps, the mutexes that are locked, and the number of mutexes made so far
pub record Group : Type 0 where
  pub names : Dict ℕ
  pub waiters : Dict ℕ
  pub taken : ℕ → Bool
  pub made : ℕ

unfoldable pub count : Bytes → Dict ℕ → ℕ
count name waiters = elim (Dict.lookup name waiters) [ none ↦ 0 | some n ↦ n ]

-- init, with the mutex that is then found under the name
unfoldable pub init : Bytes → Group → ℕ × Group
init name g = elim (Dict.lookup name g.names) [
  | some m ↦ (m, g)
  | none ↦ (g.made, record g { names = Dict.insert name g.made g.names; made = suc g.made })
]

-- the section of Lock under the lock of the group
unfoldable pub enter : Bytes → Group → ℕ × Group
unfolding init count
enter name g =
    let (m, h) = init name g in
    (m, record h { waiters = Dict.insert name (count name h.waiters + 1) h.waiters })

abbrev pub set_taken : ℕ → Bool → (ℕ → Bool) → ℕ → Bool
set_taken m b taken n = if m == n then b else taken n

-- the section of the unlocking function under the lock of the group; `none` is its panic
unfoldable pub leave : Bytes → Group → Option Group
unfolding count
leave name g =
    if count name g.waiters == 0
    then none
    else if count name g.waiters == 1
    then some (record g { names = Dict.remove name g.names; waiters = Dict.remove name g.waiters })
    else some (record g { waiters = Dict.insert name (count name g.waiters - 1) g.waiters })

-- a caller in some place of a list, and the list without it
pub data Picks (c : Caller) : List Caller → List Caller → Type 0 where
  here : {cs : List Caller} → Picks c (c ∷ cs) cs
  there : {d : Caller} {cs ds : List Caller} → Picks c cs ds → Picks c (d ∷ cs) (d ∷ ds)

-- One section of one caller.
pub data Step : Group → List Caller → Group → List Caller → Type 0 where
  enters :
      {g : Group} {cs : List Caller} (name : Bytes)
      → Step g cs
          (enter name g).1
          (record { name = name; phase = Phase.waiting (enter name g).0 } ∷ cs)
  locks :
      {g : Group} {cs ds : List Caller} (name : Bytes) (m : ℕ)
      → Picks (record { name = name; phase = Phase.waiting m }) cs ds
      → g.taken m ≡ false
      → Step g cs
          (record g { taken = set_taken m true g.taken })
          (record { name = name; phase = Phase.holding m } ∷ ds)
  unlocks :
      {g : Group} {cs ds : List Caller} (name : Bytes) (m : ℕ)
      → Picks (record { name = name; phase = Phase.holding m }) cs ds
      → Step g cs
          (record g { taken = set_taken m false g.taken })
          (record { name = name; phase = Phase.unlocked } ∷ ds)
  leaves :
      {g h : Group} {cs ds : List Caller} (name : Bytes)
      → Picks (record { name = name; phase = Phase.unlocked }) cs ds
      → leave name g ≡ some h
      → Step g cs h ds

-- the states that the zero value of a group reaches
pub data Reachable : Group → List Caller → Type 0 where
  starts : Reachable (record { names = []; waiters = []; taken = λ m. false; made = 0 }) []
  steps : {g h : Group} {cs ds : List Caller} → Reachable g cs → Step g cs h ds → Reachable h ds

-- ===== src/MutexGroup/Counts.antt =====
-- The callers of a MutexGroup (utils.go), counted by name and by mutex.
use gateway_mt.Prelude.{
  ℕ, suc, ◌+◌, ◌<◌, ◌≤◌, ◌≡◌, refl, sym, ◌∙◌, Bool, true, false, none, some, List, [], ◌∷◌, ◌==◌,
  ==_iff, if◌then◌else◌, All, All-map, Bool-cases, inl, inr, arith,
}
use mathlib.Core.Path.{subst}
use gateway_mt.Prelude.Bytes.{Bytes, eq_bytes}
use gateway_mt.Prelude.Bytes.Order.{eq_bytes_refl, eq_bytes_sound}
use gateway_mt.Prelude.Dict
use gateway_mt.Prelude.Dict.{Dict, lookup-insert, lookup-remove}
use gateway_mt.MutexGroup.{Phase, Caller, Group, count, Picks}

-- how many callers have a name, hold a mutex, and hold a mutex under a name
unfoldable pub callers : Bytes → List Caller → ℕ
callers name [] = 0
callers name (c ∷ cs) = (if eq_bytes c.name name then 1 else 0) + callers name cs

abbrev pub is_holding : ℕ → Phase → Bool
is_holding m (Phase.holding n) = n == m
is_holding m _ = false

unfoldable pub holders : ℕ → List Caller → ℕ
holders m [] = 0
holders m (c ∷ cs) = (if is_holding m c.phase then 1 else 0) + holders m cs

abbrev pub holds : Phase → Bool
holds (Phase.holding n) = true
holds _ = false

unfoldable pub holders_of : Bytes → List Caller → ℕ
holders_of name [] = 0
holders_of name (c ∷ cs) =
    let rest = holders_of name cs in
    if eq_bytes c.name name then (if holds c.phase then suc rest else rest) else rest

-- a caller has the mutex that its name stands for
abbrev pub HasMutex : Dict ℕ → Bytes → Phase → Type 0
HasMutex names name (Phase.waiting m) = Dict.lookup name names ≡ some m
HasMutex names name (Phase.holding m) = Dict.lookup name names ≡ some m
HasMutex names name Phase.unlocked = Unit {0}

abbrev pub IsNamed : Dict ℕ → Caller → Type 0
IsNamed names c = HasMutex names c.name c.phase

pub record IsGroup (g : Group) (cs : List Caller) : Type 0 where
  pub counts : (k : Bytes) → count k g.waiters ≡ callers k cs
  pub named : All (IsNamed g.names) cs
  pub fresh : (k : Bytes) (m : ℕ) → Dict.lookup k g.names ≡ some m → m < g.made
  pub exact : (m : ℕ) → holders m cs ≡ (if g.taken m then 1 else 0)
  pub free : (m : ℕ) → g.made ≤ m → g.taken m ≡ false
  pub gone : (k : Bytes) → callers k cs ≡ 0 → Dict.lookup k g.names ≡ none

-- What picking a caller takes from the counts.
pub callers-pick :
    {c : Caller} {cs ds : List Caller} (k : Bytes)
    → Picks c cs ds
    → callers k cs ≡ (if eq_bytes c.name k then 1 else 0) + callers k ds
unfolding callers
callers-pick k Picks.here = refl
callers-pick k (Picks.there {d = d} pick) = omega (arith, callers-pick k pick)

pub holders-pick :
    {c : Caller} {cs ds : List Caller} (m : ℕ)
    → Picks c cs ds
    → holders m cs ≡ (if is_holding m c.phase then 1 else 0) + holders m ds
unfolding holders
holders-pick m Picks.here = refl
holders-pick m (Picks.there {d = d} pick) = omega (arith, holders-pick m pick)

pub All-pick :
    (P : Caller → Type 0) {c : Caller} {cs ds : List Caller}
    → Picks c cs ds
    → All P cs
    → P c × All P ds
All-pick P Picks.here (h, hs) = (h, hs)
All-pick P (Picks.there pick) (h, hs) = let (p, ps) = All-pick P pick hs in (p, (h, ps))

-- A name with a mutex has one holder of that mutex at most, and a name without has none.
some_more :
    (k : Bytes) (m : ℕ) (names : Dict ℕ) (x : Bytes) (p : Phase) (a b : ℕ)
    → Dict.lookup k names ≡ some m
    → HasMutex names x p
    → a ≤ b
    → (if eq_bytes x k then (if holds p then suc a else a) else a)
      ≤ (if is_holding m p then 1 else 0) + b
some_more k m names x (Phase.waiting n) a b found h le = ground (arith, le)
some_more k m names x Phase.unlocked a b found h le = ground (arith, le)
some_more k m names x (Phase.holding n) a b found h le = elim (Bool-cases (eq_bytes x k)) [
  | inr other ↦ rw other (ground (arith, le))
  | inl same ↦
      let at : x ≡ k = eq_bytes_sound x k same in
      let both : some n ≡ some m = sym (subst (λ y. Dict.lookup y names ≡ some n) at h) ∙ found in
      rw same (ground (arith, le, both, ==_iff n m))
]

pub holders_of-some :
    (k : Bytes) (m : ℕ) (names : Dict ℕ) (cs : List Caller)
    → Dict.lookup k names ≡ some m
    → All (IsNamed names) cs
    → holders_of k cs ≤ holders m cs
unfolding holders_of holders
holders_of-some k m names [] found h = omega arith
holders_of-some k m names (c ∷ cs) found (h, hs) =
    some_more k m names c.name c.phase (holders_of k cs) (holders m cs) found h
      (holders_of-some k m names cs found hs)

none_more :
    (k : Bytes) (names : Dict ℕ) (x : Bytes) (p : Phase) (a : ℕ)
    → Dict.lookup k names ≡ none
    → HasMutex names x p
    → (if eq_bytes x k then (if holds p then suc a else a) else a) ≡ a
none_more k names x (Phase.waiting n) a absent h = ground arith
none_more k names x Phase.unlocked a absent h = ground arith
none_more k names x (Phase.holding n) a absent h = elim (Bool-cases (eq_bytes x k)) [
  | inr other ↦ rw other refl
  | inl same ↦
      let at : x ≡ k = eq_bytes_sound x k same in
      let both : some n ≡ none = sym (subst (λ y. Dict.lookup y names ≡ some n) at h) ∙ absent in
      absurd (let g = both in cc)
]

pub holders_of-none :
    (k : Bytes) (names : Dict ℕ) (cs : List Caller)
    → Dict.lookup k names ≡ none
    → All (IsNamed names) cs
    → holders_of k cs ≡ 0
unfolding holders_of
holders_of-none k names [] absent h = refl
holders_of-none k names (c ∷ cs) absent (h, hs) =
    none_more k names c.name c.phase (holders_of k cs) absent h
    ∙ holders_of-none k names cs absent hs

-- The mutexes of the callers stay those of their names when a new name is added, and when one without
-- callers is removed.
pub IsNamed-insert :
    (k : Bytes) (m : ℕ) (names : Dict ℕ) (cs : List Caller)
    → Dict.lookup k names ≡ none
    → All (IsNamed names) cs
    → All (IsNamed (Dict.insert k m names)) cs
IsNamed-insert k m names cs absent = All-map (λ c. keep c.name c.phase) cs
  where
    moved :
        (x : Bytes) (n : ℕ)
        → Dict.lookup x names ≡ some n
        → Dict.lookup x (Dict.insert k m names) ≡ some n
    moved x n found = elim (Bool-cases (eq_bytes k x)) [
      | inl same ↦
          let at : k ≡ x = eq_bytes_sound k x same in
          let both : some n ≡ none =
            sym found ∙ subst (λ y. Dict.lookup y names ≡ none) at absent in
          absurd (let g = both in cc)
      | inr other ↦ lookup-insert k x m names ∙ rw other found
    ]

    keep : (x : Bytes) (p : Phase) → HasMutex names x p → HasMutex (Dict.insert k m names) x p
    keep x (Phase.holding n) h = moved x n h
    keep x (Phase.waiting n) h = moved x n h
    keep x Phase.unlocked h = tt

pub IsNamed-remove :
    (k : Bytes) (names : Dict ℕ) (cs : List Caller)
    → callers k cs ≡ 0
    → All (IsNamed names) cs
    → All (IsNamed (Dict.remove k names)) cs
unfolding callers
IsNamed-remove k names [] none_left h = tt
IsNamed-remove k names (c ∷ cs) none_left (h, hs) =
    let other : eq_bytes c.name k ≡ false = ground (arith, none_left) in
    (keep c.name c.phase other h, IsNamed-remove k names cs (ground (arith, none_left)) hs)
  where
    moved :
        (x : Bytes) (n : ℕ)
        → eq_bytes x k ≡ false
        → Dict.lookup x names ≡ some n
        → Dict.lookup x (Dict.remove k names) ≡ some n
    moved x n other found = elim (Bool-cases (eq_bytes k x)) [
      | inl same ↦
          let at : k ≡ x = eq_bytes_sound k x same in
          let both : eq_bytes x x ≡ false = subst (λ y. eq_bytes x y ≡ false) at other in
          absurd (let g = sym (eq_bytes_refl x) ∙ both in cc)
      | inr differ ↦ lookup-remove k x names ∙ rw differ found
    ]

    keep :
        (x : Bytes) (p : Phase)
        → eq_bytes x k ≡ false
        → HasMutex names x p
        → HasMutex (Dict.remove k names) x p
    keep x (Phase.holding n) other h = moved x n other h
    keep x (Phase.waiting n) other h = moved x n other h
    keep x Phase.unlocked other h = tt

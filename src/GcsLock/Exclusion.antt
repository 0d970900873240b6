-- ===== src/GcsLock/Exclusion.antt =====
-- Mutual exclusion of the clients of gcslock.go, by an invariant on the states that they reach.
use gateway_mt.Prelude.{
  ℕ, suc, ◌<◌, ◌≤◌, ◌≡◌, ◌≢◌, refl, sym, ap, ◌∙◌, ◌⊎◌, inl, inr, Option, none, some, ◌==◌, ==_iff,
  arith, Bool-cases, Option-cases,
}
use gateway_mt.Errs.{ok, err}
use gateway_mt.GcsLock.Ops.{Answer}
use gateway_mt.GcsLock.Clients.{
  Object, Bucket, IsBucket, Phase, Clients, set, Step, IsTimely, TimelyReachable,
}

-- the generation of the object that a client made and holds the lock by, and of the one that it saw expired
abbrev pub made : Phase → Option ℕ
made (Phase.locked held last_known) = some held
made _ = none

abbrev seen_by : Phase → Option ℕ
seen_by (Phase.deleting seen now) = some seen.generation
seen_by _ = none

abbrev generation_of : Option Object → Option ℕ
generation_of none = none
generation_of (some o) = some o.generation

of_same : (m n : ℕ) → some m ≡ some n → m ≡ n
of_same m n h = ground (arith, h)

module _ (b : Bucket) where
  -- A holder's object is in the bucket, no client deletes it for another one, and there is one holder.
  record IsExclusive (s : b.State) (cs : Clients) : Type 0 where
    holder : (i g : ℕ) → made (cs i) ≡ some g → generation_of (b.object s) ≡ some g
    below : (i g : ℕ) → seen_by (cs i) ≡ some g → g < b.next s
    apart : (i j g : ℕ) → seen_by (cs i) ≡ some g → made (cs j) ≢ some g
    unique : (i j g h : ℕ) → made (cs i) ≡ some g → made (cs j) ≡ some h → i ≡ j

  -- the object that is in the bucket stays, though its metadata may change
  abbrev Stays : b.State → b.State → Type 0
  Stays s t = (g : ℕ) → generation_of (b.object s) ≡ some g → generation_of (b.object t) ≡ some g

  -- A client moves on without the lock, or keeps it.
  passes :
      (s t : b.State) (cs : Clients) (i : ℕ) (p : Phase)
      → b.next s ≤ b.next t
      → Stays s t
      → seen_by p ≡ none
      → (made p ≡ none) ⊎ (made p ≡ made (cs i))
      → IsExclusive s cs
      → IsExclusive t (set i p cs)
  passes s t cs i p le stays blind same old = record {
    holder = λ j g h. stays g (ground (arith, h, same, old.holder j g, old.holder i g, ==_iff i j));
    below = λ j g h. ground (arith, h, blind, old.below j g, ==_iff i j);
    apart = λ j k g h q.
        ground (arith, h, q, blind, same, old.apart j k g, old.apart j i g, ==_iff i j, ==_iff i k);
    unique = λ j k g h q r. ground (
      arith,
      q,
      r,
      same,
      old.unique j k g h,
      old.unique i k g h,
      old.unique j i g h,
      ==_iff i j,
      ==_iff i k,
    );
  }

  same_clients :
      (s t : b.State) (cs : Clients)
      → b.next s ≤ b.next t
      → Stays s t
      → IsExclusive s cs
      → IsExclusive t cs
  same_clients s t cs le stays old = record {
    holder = λ i g h. stays g (old.holder i g h);
    below = λ i g h. omega (arith, old.below i g h);
    apart = old.apart;
    unique = old.unique;
  }

  -- After a step of the one client that can hold the lock, which gives it up, no client holds it.
  vacates :
      (s t : b.State) (cs : Clients) (i : ℕ) (p : Phase)
      → b.next s ≤ b.next t
      → seen_by p ≡ none
      → made p ≡ none
      → ((j g : ℕ) → made (cs j) ≡ some g → j ≡ i)
      → IsExclusive s cs
      → IsExclusive t (set i p cs)
  vacates s t cs i p le blind empty alone old = record {
    holder = λ j g h. absurd (ground (arith, h, empty, alone j g, ==_iff i j));
    below = λ j g h. ground (arith, h, blind, old.below j g, ==_iff i j);
    apart = λ j k g h q. ground (arith, q, empty, alone k g, ==_iff i k);
    unique = λ j k g h q r. absurd (ground (arith, q, empty, alone j g, ==_iff i j));
  }

  takes :
      (s t : b.State) (cs : Clients) (i : ℕ)
      → b.object s ≡ none
      → generation_of (b.object t) ≡ some (b.next s)
      → b.next t ≡ suc (b.next s)
      → IsExclusive s cs
      → IsExclusive t (set i (Phase.locked (b.next s) 1) cs)
  takes s t cs i empty there up old =
      let nobody : (j g : ℕ) → made (cs j) ≢ some g =
        λ j g h. let q = sym (ap generation_of empty) ∙ old.holder j g h in (let r = q in cc) in
      record {
        holder = λ j g h. ground (arith, h, there, nobody j g);
        below = λ j g h. ground (arith, h, old.below j g);
        apart = λ j k g h q. ground (arith, h, q, old.below j g, nobody k g);
        unique =
            λ j k g h q r. ground (arith, q, r, nobody j g, nobody k h, ==_iff i j, ==_iff i k);
      }

  sees :
      (s : b.State) (cs : Clients) (i now : ℕ) (o : Object)
      → o.generation < b.next s
      → ((j : ℕ) → made (cs j) ≢ some o.generation)
      → IsExclusive s cs
      → IsExclusive s (set i (Phase.deleting o now) cs)
  sees s cs i now o low nobody old = record {
    holder = λ j g h. ground (arith, h, old.holder j g, ==_iff i j);
    below = λ j g h. ground (arith, h, old.below j g, low, ==_iff i j);
    apart = λ j k g h q. ground (arith, h, q, old.apart j k g, nobody k, ==_iff i j, ==_iff i k);
    unique = λ j k g h q r. ground (arith, q, r, old.unique j k g h, ==_iff i j, ==_iff i k);
  }

  keeps_object :
      IsBucket b
      → (s t : b.State)
      → ((o : Object)
          → b.object s ≡ some o
          → (p : Object) × (b.object t ≡ some p) × (p.generation ≡ o.generation))
      → Stays s t
  keeps_object law s t known g h = elim (Option-cases (b.object s)) [
    | inl empty ↦ absurd (let q = sym (ap generation_of empty) ∙ h in cc)
    | inr (o, there) ↦
        let (p, after, same) = known o there in
        ap generation_of after ∙ ap some same ∙ sym (ap generation_of there) ∙ h
  ]

  keeps_uploaded : IsBucket b → (s t : b.State) (e : ℕ) (a : Answer) → b.uploads e s a t → Stays s t
  keeps_uploaded law s t e a up =
      keeps_object law s t (λ o there. (o, law.uploads_taken e a s t o up there, refl))

  locked_of : (p : Phase) (g : ℕ) → made p ≡ some g → (m : ℕ) × (p ≡ Phase.locked g m)
  locked_of Phase.idle g h = absurd (let q = h in cc)
  locked_of Phase.uploading g h = absurd (let q = h in cc)
  locked_of Phase.stating g h = absurd (let q = h in cc)
  locked_of (Phase.deleting o now) g h = absurd (let q = h in cc)
  locked_of (Phase.locked held m) g h = (m, ap (λ n. Phase.locked n m) (of_same held g h))

  -- a deletion of an object that a client saw expired
  cuts :
      IsBucket b
      → (s t : b.State) (cs : Clients) (i : ℕ) (seen : Object) (now : ℕ) (a : Answer)
      → cs i ≡ Phase.deleting seen now
      → b.deletes seen.metageneration s a t
      → ((o : Object)
          → b.object s ≡ some o
          → o.metageneration ≡ seen.metageneration
          → o.generation ≡ seen.generation)
      → IsExclusive s cs
      → IsExclusive t (set i Phase.uploading cs)
  cuts law s t cs i seen now a h cut timely old = elim (Option-cases (b.object s)) [
    | inl empty ↦
        vacates s t cs i Phase.uploading le refl refl
          (λ j g q. absurd (let r = sym (ap generation_of empty) ∙ old.holder j g q in cc)) old
    | inr (o, there) ↦ elim (Bool-cases (o.metageneration == seen.metageneration)) [
      | inl same ↦
          vacates s t cs i Phase.uploading le refl refl
            (λ j g q.
              let here = of_same o.generation g (sym (ap generation_of there) ∙ old.holder j g q) in
              let known = timely o there ((==_iff o.metageneration seen.metageneration).0 same) in
              absurd (old.apart i j g (ap seen_by h ∙ ap some (sym known ∙ here)) q))
            old
      | inr other ↦
          passes s t cs i Phase.uploading le
            (keeps_object law s t (λ p at.
              let is : o ≡ p = (let q = sym there ∙ at in cc) in
              (
                o,
                law.deletes_other seen.metageneration a s t o cut there (λ q. ground arith),
                ap (λ x. x.generation) is,
              )))
            refl (inl refl) old
    ]
  ]
    where
      le : b.next s ≤ b.next t
      le = law.deletes_next seen.metageneration a s t cut

  Step-IsExclusive :
      IsBucket b
      → {s t : b.State} {cs ds : Clients} (step : Step b s cs t ds) → IsTimely b s cs t ds step
      → IsExclusive s cs
      → IsExclusive t ds
  Step-IsExclusive law {s} {t} {cs} (Step.calls_lock i h) timely old =
      passes s s cs i Phase.uploading (omega arith) (λ g q. q) refl (inl refl) old
  Step-IsExclusive law {s} {t} {cs} (Step.locks i e a h up got) timely old =
      let (empty, there, up') = law.uploads_ok e a s t up got in
      takes s t cs i empty (ap generation_of there) up' old
  Step-IsExclusive law {s} {t} {cs} (Step.finds_taken i e a h up got) timely old =
      passes s t cs i Phase.stating (law.uploads_next e a s t up) (keeps_uploaded law s t e a up)
        refl (inl refl) old
  Step-IsExclusive law {s} {t} {cs} (Step.fails i e a f h up got) timely old =
      same_clients s t cs (law.uploads_next e a s t up) (keeps_uploaded law s t e a up) old
  Step-IsExclusive law {s} {t} {cs} (Step.gives_up i h) timely old =
      passes s s cs i Phase.idle (omega arith) (λ g q. q) refl (inl refl) old
  Step-IsExclusive law {s} {t} {cs} (Step.sees_expired i now o h there late) timely old =
      sees s cs i now o (law.next_le s o there)
        (λ j q.
          let (m, is) = locked_of (cs j) o.generation q in
          let bound : now ≤ o.expiration = timely j o.generation m is refl in
          ground (arith, late, bound))
        old
  Step-IsExclusive law {s} {t} {cs} (Step.sees_no_expired i h) timely old =
      passes s s cs i Phase.uploading (omega arith) (λ g q. q) refl (inl refl) old
  Step-IsExclusive law {s} {t} {cs} (Step.deletes_expired i seen now a h cut) timely old =
      cuts law s t cs i seen now a h cut timely old
  Step-IsExclusive law {s} {t} {cs} (Step.refreshes i held m n e h up) timely old =
      passes s t cs i (Phase.locked held n) (law.updates_next m e (ok n) s t up)
        (keeps_object law s t (λ o there. law.updates_generation m e (ok n) s t o up there)) refl
        (inr (rw h refl)) old
  Step-IsExclusive law {s} {t} {cs} (Step.fails_to_refresh i held m e f h up) timely old =
      same_clients s t cs (law.updates_next m e (err f) s t up)
        (keeps_object law s t (λ o there. law.updates_generation m e (err f) s t o up there)) old
  Step-IsExclusive law {s} {t} {cs} (Step.unlocks i held m a h cut) timely old =
      vacates s t cs i Phase.idle (law.deletes_next m a s t cut) refl refl
        (λ j g q. old.unique j i g held q (ap made h)) old

  TimelyReachable-IsExclusive :
      IsBucket b
      → (start s : b.State) (cs : Clients) → TimelyReachable b start s cs
      → IsExclusive s cs
  TimelyReachable-IsExclusive law start s cs TimelyReachable.starts = record {
    holder = λ i g h. absurd (let q = h in cc);
    below = λ i g h. absurd (let q = h in cc);
    apart = λ i j g h. absurd (let q = h in cc);
    unique = λ i j g h k. absurd (let q = k in cc);
  }
  TimelyReachable-IsExclusive law start s cs (TimelyReachable.steps r step timely) =
      Step-IsExclusive law step timely (TimelyReachable-IsExclusive law start _ _ r)

  -- On a bucket that keeps its promises, in every state that clients reach that had not called
  -- Lock at the start, whatever the interleaving of their requests: if a client holds the lock,
  -- then the object in the bucket is the one that it made, and if two clients hold the lock, they
  -- are the same. This is under two conditions on the steps: a client that finds the object of a
  -- lock that is held looks at it by its expiration, and when a client sends its deletion of an
  -- expired lock, an object that has the metageneration that it saw is the one that it saw.
  pub TimelyReachable-unique :
      IsBucket b
      → (start s : b.State) (cs : Clients) → TimelyReachable b start s cs
      → (i j held held' m m' : ℕ) → cs i ≡ Phase.locked held m
      → cs j ≡ Phase.locked held' m'
      → (i ≡ j) × (o : Object) × (b.object s ≡ some o) × (o.generation ≡ held)
  TimelyReachable-unique law start s cs r i j held held' m m' hi hj =
      let all = TimelyReachable-IsExclusive law start s cs r in
      let here = all.holder i held (ap made hi) in
      let same = all.unique i j held held' (ap made hi) (ap made hj) in
      elim (Option-cases (b.object s)) [
        | inl empty ↦ absurd (let q = sym (ap generation_of empty) ∙ here in cc)
        | inr (o, there) ↦
            (same, o, there, of_same o.generation held (sym (ap generation_of there) ∙ here))
      ]

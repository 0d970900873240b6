-- ===== src/GcsLock/Deletions.antt =====
-- What it takes to remove the object of the lock of gcslock.go from the bucket.
use gateway_mt.Prelude.{
  true, ltb, sym, ◌∙◌, ℕ, ◌<◌, ◌≡◌, refl, ap, ◌⊎◌, inl, inr, some, ◌==◌, ==_iff, arith, Bool-cases,
}
use gateway_mt.Errs.{ok, err}
use gateway_mt.GcsLock.Ops.{Answer}
use gateway_mt.GcsLock.Clients.{Object, Bucket, IsBucket, Phase, Clients, set, Step, Reachable}

module _ (b : Bucket) (start : b.State) where
  -- an object that was in the bucket in a state that the clients reached
  abbrev pub WasThere : Object → Type 0
  WasThere o = (s : b.State) × (cs : Clients) × Reachable b start s cs × (b.object s ≡ some o)

  -- what a client knows that is about to delete
  record IsExpired (o : Object) (now : ℕ) : Type 0 where
    late : o.expiration < now
    was_there : WasThere o

  -- a phase that remembers no object but an expired one
  abbrev IsInformed : Phase → Type 0
  IsInformed p = (o : Object) (now : ℕ) → p ≡ Phase.deleting o now → IsExpired o now

  informs :
      (cs : Clients) (i : ℕ) (p : Phase)
      → IsInformed p
      → ((j : ℕ) → IsInformed (cs j))
      → (j : ℕ) → IsInformed (set i p cs j)
  informs cs i p new old j = elim (Bool-cases (i == j)) [
    | inl same ↦ rw same new
    | inr other ↦ rw other (old j)
  ]

  expired :
      (s : b.State) (cs : Clients) (o p : Object) (now later : ℕ)
      → Reachable b start s cs
      → b.object s ≡ some o
      → ltb o.expiration now ≡ true
      → Phase.deleting o now ≡ Phase.deleting p later
      → IsExpired p later
  expired s cs o p now later r there late q =
      let same : o ≡ p = (let g = q in cc) in
      let time : now ≡ later = (let g = q in cc) in
      record {
        late = rw (sym same, sym time) (ground (arith, late));
        was_there = (s, cs, r, there ∙ ap some same);
      }

  Step-IsInformed :
      (s : b.State) (cs : Clients) (t : b.State) (ds : Clients)
      → Reachable b start s cs
      → Step b s cs t ds
      → ((j : ℕ) → IsInformed (cs j))
      → (j : ℕ) → IsInformed (ds j)
  Step-IsInformed s cs t ds r (Step.calls_lock i h) old =
      informs cs i Phase.uploading (λ o now q. absurd (let g = q in cc)) old
  Step-IsInformed s cs t ds r (Step.locks i e a h up got) old =
      informs cs i (Phase.locked (b.next s) 1) (λ o now q. absurd (let g = q in cc)) old
  Step-IsInformed s cs t ds r (Step.finds_taken i e a h up got) old =
      informs cs i Phase.stating (λ o now q. absurd (let g = q in cc)) old
  Step-IsInformed s cs t ds r (Step.fails i e a f h up got) old = old
  Step-IsInformed s cs t ds r (Step.gives_up i h) old =
      informs cs i Phase.idle (λ o now q. absurd (let g = q in cc)) old
  Step-IsInformed s cs t ds r (Step.sees_expired i now o h there late) old =
      informs cs i (Phase.deleting o now) (λ p later q. expired s cs o p now later r there late q)
        old
  Step-IsInformed s cs t ds r (Step.sees_no_expired i h) old =
      informs cs i Phase.uploading (λ o now q. absurd (let g = q in cc)) old
  Step-IsInformed s cs t ds r (Step.deletes_expired i seen now a h cut) old =
      informs cs i Phase.uploading (λ o now q. absurd (let g = q in cc)) old
  Step-IsInformed s cs t ds r (Step.refreshes i held m n e h up) old =
      informs cs i (Phase.locked held n) (λ o now q. absurd (let g = q in cc)) old
  Step-IsInformed s cs t ds r (Step.fails_to_refresh i held m e f h up) old = old
  Step-IsInformed s cs t ds r (Step.unlocks i held m a h cut) old =
      informs cs i Phase.idle (λ o now q. absurd (let g = q in cc)) old

  Reachable-IsInformed :
      (s : b.State) (cs : Clients) → Reachable b start s cs → (j : ℕ) → IsInformed (cs j)
  Reachable-IsInformed s cs Reachable.starts = λ j o now h. absurd (let q = h in cc)
  Reachable-IsInformed t ds (Reachable.steps {s} r step) =
      Step-IsInformed s _ t ds r step (Reachable-IsInformed s _ r)

  -- the object of a generation is in the bucket
  abbrev pub IsThere : ℕ → b.State → Type 0
  IsThere g s = (o : Object) × (b.object s ≡ some o) × (o.generation ≡ g)

  -- how the object of a state was removed: by a deletion that names its metageneration, of a client that
  -- remembers an expired object of that metageneration, or that holds the lock and last heard of it
  abbrev pub Removal : b.State → Clients → b.State → Object → Type 0
  Removal s cs t p =
      (i : ℕ) × (a : Answer) × b.deletes p.metageneration s a t
      × (((o : Object) × (now : ℕ) × (cs i ≡ Phase.deleting o now)
            × (o.metageneration ≡ p.metageneration)
            × (o.expiration < now)
            × WasThere o)
          ⊎ ((held : ℕ) × (cs i ≡ Phase.locked held p.metageneration)))

  -- On a bucket that keeps its promises, after a step from a state that clients reach that had not
  -- called Lock at the start, the object that was in the bucket is still there, with its
  -- generation, or the step is a deletion that names its metageneration, of a client that holds
  -- the lock and last heard of that metageneration, or of one that saw, in an earlier state that
  -- the clients reached, an object with that metageneration whose expiration had passed.
  pub Reachable-Removal :
      IsBucket b
      → (s t : b.State) (cs ds : Clients) → Reachable b start s cs
      → Step b s cs t ds
      → (p : Object) → b.object s ≡ some p
      → IsThere p.generation t ⊎ Removal s cs t p
  Reachable-Removal law s t cs ds r (Step.calls_lock i h) p there = inl (p, there, refl)
  Reachable-Removal law s t cs ds r (Step.locks i e a h up got) p there =
      inl (p, law.uploads_taken e a s t p up there, refl)
  Reachable-Removal law s t cs ds r (Step.finds_taken i e a h up got) p there =
      inl (p, law.uploads_taken e a s t p up there, refl)
  Reachable-Removal law s t cs ds r (Step.fails i e a f h up got) p there =
      inl (p, law.uploads_taken e a s t p up there, refl)
  Reachable-Removal law s t cs ds r (Step.gives_up i h) p there = inl (p, there, refl)
  Reachable-Removal law s t cs ds r (Step.sees_expired i now o h seen late) p there =
      inl (p, there, refl)
  Reachable-Removal law s t cs ds r (Step.sees_no_expired i h) p there = inl (p, there, refl)
  Reachable-Removal law s t cs ds r (Step.deletes_expired i o now a h cut) p there =
      elim (Bool-cases (p.metageneration == o.metageneration)) [
        | inl same ↦
            let m = (==_iff p.metageneration o.metageneration).0 same in
            let known = Reachable-IsInformed s cs r i o now h in
            inr (i, a, rw m cut, inl (o, now, h, (let q = m in cc), known.late, known.was_there))
        | inr other ↦
            inl (p, law.deletes_other o.metageneration a s t p cut there (λ q. ground arith), refl)
      ]
  Reachable-Removal law s t cs ds r (Step.refreshes i held m n e h up) p there =
      inl (law.updates_generation m e (ok n) s t p up there)
  Reachable-Removal law s t cs ds r (Step.fails_to_refresh i held m e f h up) p there =
      inl (law.updates_generation m e (err f) s t p up there)
  Reachable-Removal law s t cs ds r (Step.unlocks i held m a h cut) p there =
      elim (Bool-cases (p.metageneration == m)) [
        | inl same ↦
            let e = (==_iff p.metageneration m).0 same in inr (i, a, rw e cut, inr (held, rw e h))
        | inr other ↦ inl (p, law.deletes_other m a s t p cut there (λ q. ground arith), refl)
      ]

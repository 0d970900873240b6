-- ===== src/GcsLock/Theft.antt =====
-- What the metageneration does not tell apart: the object of an expired lock and that of the lock which
-- took its place. A bucket that keeps its promises lets a client delete the latter for the former.
use gateway_mt.Prelude.{
  ℕ, suc, ◌<◌, ◌≤◌, ◌≡◌, ◌≢◌, refl, ap, ◌∙◌, inl, inr, Option, none, some, ◌==◌, ==_iff,
  if◌then◌else◌, arith, Bool-cases,
}
use gateway_mt.Errs.{Result, ok, err, message}
use gateway_mt.GcsLock.Ops.{Answer, upload_result}
use gateway_mt.GcsLock.Clients.{Object, Bucket, IsBucket, Phase, Clients, set, Step, Reachable}
use gateway_mt.GcsLock.Exclusion.{made}

-- a bucket that serves each request at once
pub record Shelf : Type 0 where
  pub object : Option Object
  pub next : ℕ

unfoldable pub put_new : ℕ → Shelf → Answer × Shelf
put_new e s = elim s.object [
  | some o ↦ (ok 412, s)
  | none ↦ (
    ok 200,
    record {
      object = some (record { generation = s.next; metageneration = 1; expiration = e });
      next = suc s.next;
    },
  )
]

unfoldable pub cut : ℕ → Shelf → Answer × Shelf
cut m s = elim s.object [
  | none ↦ (ok 404, s)
  | some o ↦
      if o.metageneration == m
      then (ok 204, record { object = none; next = s.next })
      else (ok 412, s)
]

unfoldable pub change : ℕ → ℕ → Shelf → Result ℕ × Shelf
change m e s = elim s.object [
  | none ↦ (err message, s)
  | some o ↦
      if o.metageneration == m
      then (
        ok (suc m),
        record {
          object =
              some (record { generation = o.generation; metageneration = suc m; expiration = e });
          next = s.next;
        },
      )
      else (err message, s)
]

-- a shelf whose object has a generation that was given
abbrev pub IsKept : Shelf → Type 0
IsKept s = (o : Object) → s.object ≡ some o → o.generation < s.next

abbrev pub Kept : Type 0
Kept = (s : Shelf) × IsKept s

abbrev pub simple : Bucket
simple = record {
  State = Kept;
  object = λ s. s.0.object;
  next = λ s. s.0.next;
  uploads = λ e s a t. (a, t.0) ≡ put_new e s.0;
  deletes = λ m s a t. (a, t.0) ≡ cut m s.0;
  updates = λ m e s a t. (a, t.0) ≡ change m e s.0;
}

put_new-ok :
    (e n : ℕ) (q : Option Object) (a : Answer) (t : Shelf)
    → (a, t) ≡ put_new e (record { object = q; next = n })
    → upload_result a ≡ none
    → (q ≡ none)
      × (t.object ≡ some (record { generation = n; metageneration = 1; expiration = e }))
      × (t.next ≡ suc n)
unfolding put_new upload_result
put_new-ok e n none a t h got = (refl, ap (λ p. p.1.object) h, ap (λ p. p.1.next) h)
put_new-ok e n (some o) a t h got =
    let taken : a ≡ ok 412 = ap (λ p. p.0) h in let g = rw taken at got in absurd (let g' = g in cc)

put_new-next :
    (e n : ℕ) (q : Option Object) (a : Answer) (t : Shelf)
    → (a, t) ≡ put_new e (record { object = q; next = n })
    → n ≤ t.next
unfolding put_new
put_new-next e n none a t h = rw (ap (λ p. p.1.next) h) (omega arith)
put_new-next e n (some o) a t h = rw (ap (λ p. p.1.next) h) (omega arith)

put_new-some :
    (e : ℕ) (s : Shelf) (o : Object) (a : Answer) (t : Shelf)
    → (a, t) ≡ put_new e s
    → s.object ≡ some o
    → t.object ≡ some o
unfolding put_new
put_new-some e s o a t h there =
    let same = rw (put_new, there) at h in ap (λ p. p.1.object) same ∙ there

cut-next : (m : ℕ) (s : Shelf) (a : Answer) (t : Shelf) → (a, t) ≡ cut m s → t.next ≡ s.next
unfolding cut
cut-next m s a t h = ap (λ p. p.1.next) h ∙ ground (arith)

cut-other :
    (m : ℕ) (s : Shelf) (o : Object) (a : Answer) (t : Shelf)
    → (a, t) ≡ cut m s
    → s.object ≡ some o
    → o.metageneration ≢ m
    → t.object ≡ some o
unfolding cut
cut-other m s o a t h there differs = elim (Bool-cases (o.metageneration == m)) [
  | inl same ↦ absurd (differs ((==_iff o.metageneration m).0 same))
  | inr other ↦ let left = rw (cut, there, other) at h in ap (λ p. p.1.object) left ∙ there
]

change-next :
    (m e : ℕ) (s : Shelf) (a : Result ℕ) (t : Shelf) → (a, t) ≡ change m e s → t.next ≡ s.next
unfolding change
change-next m e s a t h = ap (λ p. p.1.next) h ∙ ground (arith)

change-generation :
    (m e : ℕ) (s : Shelf) (o : Object) (a : Result ℕ) (t : Shelf)
    → (a, t) ≡ change m e s
    → s.object ≡ some o
    → (p : Object) × (t.object ≡ some p) × (p.generation ≡ o.generation)
unfolding change
change-generation m e s o a t h there = elim (Bool-cases (o.metageneration == m)) [
  | inl same ↦ let done = rw (change, there, same) at h in (_, ap (λ p. p.1.object) done, refl)
  | inr other ↦
      let left = rw (change, there, other) at h in (o, ap (λ p. p.1.object) left ∙ there, refl)
]

pub simple-IsBucket : IsBucket simple
simple-IsBucket = record {
  next_le = λ s. s.1;
  uploads_ok = λ e a s t. put_new-ok e s.0.next s.0.object a t.0;
  uploads_next = λ e a s t. put_new-next e s.0.next s.0.object a t.0;
  uploads_taken = λ e a s t o h. put_new-some e s.0 o a t.0 h;
  deletes_next = λ m a s t h. rw (cut-next m s.0 a t.0 h) (omega arith);
  deletes_other = λ m a s t o. cut-other m s.0 o a t.0;
  updates_next = λ m e a s t h. rw (change-next m e s.0 a t.0 h) (omega arith);
  updates_generation = λ m e a s t o. change-generation m e s.0 o a t.0;
}

-- the buckets of the theft: the object of an expired lock, none, that of a new lock, and none again
abbrev pub lock_on : ℕ → ℕ → Shelf
lock_on g e = record {
  object = some (record { generation = g; metageneration = 1; expiration = e });
  next = suc g;
}

pub lock_on-IsKept : (g e : ℕ) → IsKept (lock_on g e)
lock_on-IsKept g e o h =
    let same : g ≡ o.generation = ap (λ q. elim q [ none ↦ g | some o ↦ o.generation ]) h in
    omega arith

pub none-IsKept : (g : ℕ) → IsKept (record { object = none; next = g })
none-IsKept g o h = absurd (let g = h in cc)

abbrev pub lock_of : ℕ → ℕ → Kept
lock_of g e = (lock_on g e, lock_on-IsKept g e)

abbrev pub free : ℕ → Kept
free g = (record { object = none; next = g }, none-IsKept g)

module _ (i j : ℕ) (differ : i ≢ j) (start : Kept) where
  -- a bucket that is reached with the two clients in these phases
  abbrev Both : Kept → Phase → Phase → Type 0
  Both s p q = (cs : Clients) × Reachable simple start s cs × (cs i ≡ p) × (cs j ≡ q)

  moves_first :
      (s t : Kept) (p p' q : Phase)
      → Both s p q
      → ((cs : Clients) → cs i ≡ p → Step simple s cs t (set i p' cs))
      → Both t p' q
  moves_first s t p p' q (cs, r, hi, hj) step = (
    set i p' cs,
    Reachable.steps r (step cs hi),
    ground (arith, ==_iff i i),
    ground (arith, ==_iff i j),
  )

  moves_second :
      (s t : Kept) (p q q' : Phase)
      → Both s p q
      → ((cs : Clients) → cs j ≡ q → Step simple s cs t (set j q' cs))
      → Both t p q'
  moves_second s t p q q' (cs, r, hi, hj) step = (
    set j q' cs,
    Reachable.steps r (step cs hj),
    ground (arith, ==_iff j i),
    ground (arith, ==_iff j j),
  )

-- Two clients that find the object of an expired lock can both come to hold the lock on a bucket
-- that keeps its promises: the deletion of the second removes the object that the first made in
-- the meantime, which has the same metageneration.
pub theft :
    (i j : ℕ)
    → i ≢ j
    → (expired now later : ℕ) → expired < now
    → (cs : Clients) × Reachable simple (lock_of 0 expired) (lock_of 2 later) cs
      × (made (cs i) ≡ some 1)
      × (made (cs j) ≡ some 2)
unfolding put_new cut upload_result
theft i j differ expired now later late =
    let first = moves_first i j differ start in
    let second = moves_second i j differ start in
    let b1 = first start start Phase.idle _ Phase.idle begin (λ cs h. Step.calls_lock i h) in
    let b2 = first start start _ _ _ b1 (λ cs h. Step.finds_taken i later (ok 412) h refl refl) in
    let b3 = first start start _ _ _ b2 (λ cs h. Step.sees_expired i now _ h refl (ground arith)) in
    let c1 = second start start _ _ _ b3 (λ cs h. Step.calls_lock j h) in
    let c2 = second start start _ _ _ c1 (λ cs h. Step.finds_taken j later (ok 412) h refl refl) in
    let c3 =
      second start start _ _ _ c2 (λ cs h. Step.sees_expired j now _ h refl (ground arith)) in
    let b4 = first start (free 1) _ _ _ c3 (λ cs h. Step.deletes_expired i _ now (ok 204) h refl) in
    let b5 =
      first (free 1) (lock_of 1 later) _ _ _ b4 (λ cs h. Step.locks i later (ok 200) h refl refl) in
    let c4 =
      second (lock_of 1 later) (free 2) _ _ _ b5
        (λ cs h. Step.deletes_expired j _ now (ok 204) h refl) in
    let c5 =
      second (free 2) (lock_of 2 later) _ _ _ c4
        (λ cs h. Step.locks j later (ok 200) h refl refl) in
    let (cs, r, hi, hj) = c5 in (cs, r, rw hi refl, rw hj refl)
  where
    start : Kept
    start = lock_of 0 expired

    begin : Both i j differ start start Phase.idle Phase.idle
    begin = (_, Reachable.starts, refl, refl)

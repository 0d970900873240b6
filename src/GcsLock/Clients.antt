-- ===== src/GcsLock/Clients.antt =====
-- Several clients of one lock (gcslock.go), interleaved at their requests. The bucket is a parameter with
-- what the documentation of Cloud Storage says of preconditions.
use gateway_mt.Prelude.{
  ℕ, suc, ◌<◌, ◌≤◌, ◌≡◌, ◌≢◌, true, Option, none, some, ◌==◌, ltb, if◌then◌else◌,
}
use gateway_mt.Errs.{Result, ok, err}
use gateway_mt.GcsLock.Ops.{OpsError, precondition_failed, Answer, upload_result}

-- the object of the lock: its generation tells it from the objects of that name before and after it,
-- and its metageneration counts the updates of its metadata
pub record Object : Type 0 where
  pub generation : ℕ
  pub metageneration : ℕ
  pub expiration : ℕ

-- The requests that the clients send, each with its answer and the bucket that it leaves: an upload with
-- `x-goog-if-generation-match: 0`, a deletion that names a metageneration, and an update of the metadata
-- that names one and answers the new one. `next` is above all generations so far.
pub record Bucket : Type 1 where
  pub State : Type 0
  pub object : State → Option Object
  pub next : State → ℕ
  pub uploads : ℕ → State → Answer → State → Type 0
  pub deletes : ℕ → State → Answer → State → Type 0
  pub updates : ℕ → ℕ → State → Result ℕ → State → Type 0

-- What the documentation promises. A request whose answer is an error may or may not have been served.
pub record IsBucket (b : Bucket) : Type 0 where
  pub next_le : (s : b.State) (o : Object) → b.object s ≡ some o → o.generation < b.next s
  pub uploads_ok :
      (e : ℕ) (a : Answer) (s t : b.State)
      → b.uploads e s a t
      → upload_result a ≡ none
      → (b.object s ≡ none)
        × (b.object t ≡ some (record { generation = b.next s; metageneration = 1; expiration = e }))
        × (b.next t ≡ suc (b.next s))
  pub uploads_next : (e : ℕ) (a : Answer) (s t : b.State) → b.uploads e s a t → b.next s ≤ b.next t
  pub deletes_next : (m : ℕ) (a : Answer) (s t : b.State) → b.deletes m s a t → b.next s ≤ b.next t
  pub updates_next :
      (m e : ℕ) (a : Result ℕ) (s t : b.State) → b.updates m e s a t → b.next s ≤ b.next t
  -- An upload that is not served for an object that exists leaves it alone.
  pub uploads_taken :
      (e : ℕ) (a : Answer) (s t : b.State) (o : Object)
      → b.uploads e s a t
      → b.object s ≡ some o
      → b.object t ≡ some o
  -- Only an object with the metageneration that is named is deleted.
  pub deletes_other :
      (m : ℕ) (a : Answer) (s t : b.State) (o : Object)
      → b.deletes m s a t
      → b.object s ≡ some o
      → o.metageneration ≢ m
      → b.object t ≡ some o
  -- An update changes neither whether there is an object nor its generation.
  pub updates_generation :
      (m e : ℕ) (a : Result ℕ) (s t : b.State) (o : Object)
      → b.updates m e s a t
      → b.object s ≡ some o
      → (p : Object) × (b.object t ≡ some p) × (p.generation ≡ o.generation)

-- Where a client stands: before or between calls, before the upload of a round, before Stat, before the
-- deletion of a lock that it saw expired, and in the possession of the lock. A client that deletes remembers
-- the metageneration of what it saw; the rest of the object, the time and the generation that an upload made
-- are there to be spoken of.
pub data Phase : Type 0 where
  idle uploading stating : Phase
  deleting : (seen : Object) (now : ℕ) → Phase
  locked : (held last_known : ℕ) → Phase

-- the clients
abbrev pub Clients : Type 0
Clients = ℕ → Phase

abbrev pub set : ℕ → Phase → Clients → Clients
set i p clients j = if i == j then p else clients j

-- One request of one client, or a call of Lock. The time is that of the client's clock.
pub data Step (b : Bucket) : b.State → Clients → b.State → Clients → Type 0 where
  calls_lock :
      {s : b.State} {cs : Clients} (i : ℕ)
      → cs i ≡ Phase.idle
      → Step b s cs s (set i Phase.uploading cs)
  locks :
      {s t : b.State} {cs : Clients} (i expiration : ℕ) (a : Answer)
      → cs i ≡ Phase.uploading
      → b.uploads expiration s a t
      → upload_result a ≡ none
      → Step b s cs t (set i (Phase.locked (b.next s) 1) cs)
  finds_taken :
      {s t : b.State} {cs : Clients} (i expiration : ℕ) (a : Answer)
      → cs i ≡ Phase.uploading
      → b.uploads expiration s a t
      → upload_result a ≡ some precondition_failed
      → Step b s cs t (set i Phase.stating cs)
  fails :
      {s t : b.State} {cs : Clients} (i expiration : ℕ) (a : Answer) (e : OpsError)
      → cs i ≡ Phase.uploading
      → b.uploads expiration s a t
      → upload_result a ≡ some e
      → Step b s cs t cs
  gives_up :
      {s : b.State} {cs : Clients} (i : ℕ)
      → cs i ≡ Phase.uploading
      → Step b s cs s (set i Phase.idle cs)
  sees_expired :
      {s : b.State} {cs : Clients} (i now : ℕ) (o : Object)
      → cs i ≡ Phase.stating
      → b.object s ≡ some o
      → ltb o.expiration now ≡ true
      → Step b s cs s (set i (Phase.deleting o now) cs)
  sees_no_expired :
      {s : b.State} {cs : Clients} (i : ℕ)
      → cs i ≡ Phase.stating
      → Step b s cs s (set i Phase.uploading cs)
  deletes_expired :
      {s t : b.State} {cs : Clients} (i : ℕ) (seen : Object) (now : ℕ) (a : Answer)
      → cs i ≡ Phase.deleting seen now
      → b.deletes seen.metageneration s a t
      → Step b s cs t (set i Phase.uploading cs)
  refreshes :
      {s t : b.State} {cs : Clients} (i held m n expiration : ℕ)
      → cs i ≡ Phase.locked held m
      → b.updates m expiration s (ok n) t
      → Step b s cs t (set i (Phase.locked held n) cs)
  fails_to_refresh :
      {s t : b.State} {cs : Clients} (i held m expiration : ℕ) (e : _)
      → cs i ≡ Phase.locked held m
      → b.updates m expiration s (err e) t
      → Step b s cs t cs
  unlocks :
      {s t : b.State} {cs : Clients} (i held m : ℕ) (a : Answer)
      → cs i ≡ Phase.locked held m
      → b.deletes m s a t
      → Step b s cs t (set i Phase.idle cs)

-- the states reached from a bucket by clients that have not called yet
pub data Reachable (b : Bucket) (start : b.State) : b.State → Clients → Type 0 where
  starts : Reachable b start start (λ i. Phase.idle)
  steps :
      {s t : b.State} {cs ds : Clients}
      → Reachable b start s cs
      → Step b s cs t ds
      → Reachable b start t ds

-- What goes well in a step: a client that looks at the object of a lock that is held does so by its
-- expiration, and when a client sends its deletion of an expired lock, an object with the metageneration
-- that it saw is the one that it saw.
abbrev pub IsTimely :
    (b : Bucket) (s : b.State) (cs : Clients) (t : b.State) (ds : Clients)
    → Step b s cs t ds
    → Type 0
IsTimely b s cs t ds (Step.sees_expired i now o h there late) =
    (j held m : ℕ) → cs j ≡ Phase.locked held m → held ≡ o.generation → now ≤ o.expiration
IsTimely b s cs t ds (Step.deletes_expired i seen now a h cut) =
    (o : Object)
    → b.object s ≡ some o
    → o.metageneration ≡ seen.metageneration
    → o.generation ≡ seen.generation
IsTimely b s cs t ds _ = Unit {0}

-- the states reached by such steps alone
pub data TimelyReachable (b : Bucket) (start : b.State) : b.State → Clients → Type 0 where
  starts : TimelyReachable b start start (λ i. Phase.idle)
  steps :
      {s t : b.State} {cs ds : Clients}
      → TimelyReachable b start s cs
      → (step : Step b s cs t ds) → IsTimely b s cs t ds step
      → TimelyReachable b start t ds

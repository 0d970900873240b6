-- ===== src/Badgerauth/Db/RoundTrip.antt =====
-- What is put is got back (db.go: PutAtTime and Get).
use gateway_mt.Prelude.{
  ◌≡◌, refl, ap, ◌∙◌, true, false, Option, none, some, List, [], ◌∷◌, length, All, arith,
}
use mathlib.Core.Option
use gateway_mt.Prelude.Bytes.{Bytes}
use gateway_mt.Prelude.Int64.{lt_i64}
use gateway_mt.Errs.{Class, Result, ok, err, wrapped}
use gateway_mt.Badger.{Badger, IsEngine}
use gateway_mt.Authdb.Record.{Time, AccessRecord}
use gateway_mt.Badgerauth.Proto.{Proto, IsCodec, timestamp_to_time, time_to_timestamp}
use gateway_mt.Badgerauth.Records.{insert_expiry, insert_record}
use gateway_mt.Badgerauth.Records.Insert.{insert_record-IsInserted}
use gateway_mt.Badgerauth.Txn.{Attempt}
use gateway_mt.Badgerauth.Txn.Retry.{
  txn_with_backoff-CommittedAfterConflicts, committed_from, committed_on, CommittedOn,
}
use gateway_mt.Badgerauth.Db.{Config, run, pb_record, access_record, put_at_time, get_record}

map-wrapped :
    {S : Type 0} (c : Class) (o : Option (Result S)) {t : S}
    → Option.map (wrapped c) o ≡ some (ok t)
    → o ≡ some (ok t)
map-wrapped c none h = absurd (let g = h in cc)
map-wrapped c (some (ok t)) h = h
map-wrapped c (some (err e)) h = absurd (let g = h in cc)

module _ {S : Type 0} (cfg : Config) (f : S → Result S) (P : S → Type 0) where
  -- A transaction that succeeds was run on one of the snapshots.
  pub run-from :
      (attempts : List (Attempt S)) (t : S)
      → All (λ (a : Attempt S). P a.snapshot) attempts
      → run cfg f attempts ≡ some (ok t)
      → (s : S) × P s × (f s ≡ ok t)
  run-from attempts t h done = committed_from f P attempts t h (
      txn_with_backoff-CommittedAfterConflicts f cfg.conflict_backoff attempts t
        (map-wrapped Class.badgerauth _ done))

  pub run-on :
      (attempts : List (Attempt S)) (t : S)
      → All (λ (a : Attempt S). P a.snapshot) attempts
      → run cfg f attempts ≡ some (ok t)
      → (s : S) × P s × (f s ≡ ok t) × CommittedOn f s t attempts
  run-on attempts t h done = committed_on f P attempts t h (
      txn_with_backoff-CommittedAfterConflicts f cfg.conflict_backoff attempts t
        (map-wrapped Class.badgerauth _ done))

pub any_snapshot :
    {S : Type 0} (attempts : List (Attempt S)) → All (λ (a : Attempt S). Unit {0}) attempts
any_snapshot [] = tt
any_snapshot (a ∷ attempts) = (tt, any_snapshot attempts)

-- An expiry that PutAtTime can store: none, or a whole number of seconds after 1970.
abbrev pub IsWhole : Option Time → Type 0
IsWhole none = Unit
IsWhole (some t) = (t.nanosecond ≡ 0) × (lt_i64 0 t.unix ≡ true)

timestamp_whole : (o : Option Time) → IsWhole o → timestamp_to_time (time_to_timestamp o) ≡ o
unfolding timestamp_to_time time_to_timestamp
timestamp_whole none h = ground arith
timestamp_whole (some t) (h, q) = ground arith

module _ (b : Badger) (p : Proto) (engine : IsEngine b) (codec : IsCodec p) (cfg : Config) where
  get_record-put :
      (key_hash : Bytes) (r : AccessRecord) (now : Time) (seen t : b.State)
      (attempts : List (Attempt b.State))
      → length cfg.id ≡ 32
      → length key_hash ≡ 32
      → b.is_expired (insert_expiry (pb_record r now)) ≡ false
      → put_at_time b p cfg key_hash r now seen attempts ≡ some (ok t)
      → get_record b p key_hash t ≡ ok (some (access_record (pb_record r now)))
  unfolding put_at_time get_record
  get_record-put key_hash r now seen t attempts hn hk live h =
      let done : run cfg (insert_record b p cfg.id key_hash (pb_record r now)) attempts
          ≡ some (ok t) =
        ground arith in
      let (s, _, ins) =
        run-from cfg (insert_record b p cfg.id key_hash (pb_record r now)) (λ s. Unit {0}) attempts
          t (any_snapshot attempts) done in
      let w =
        insert_record-IsInserted b p engine codec cfg.id key_hash (pb_record r now) s t hn hk live
          ins in
      rw (w.stored, get_record) (unfold pb_record in refl)

  -- If PutAtTime succeeds, whatever its retries, with an id and a key hash of 32 bytes and a
  -- record whose expiry is none or a whole number of seconds after 1970 that has not passed, then
  -- Get returns that record.
  pub get_record-put_at_time :
      (key_hash : Bytes) (r : AccessRecord) (now : Time) (seen t : b.State)
      (attempts : List (Attempt b.State))
      → length cfg.id ≡ 32
      → length key_hash ≡ 32
      → IsWhole r.expires_at
      → b.is_expired (insert_expiry (pb_record r now)) ≡ false
      → put_at_time b p cfg key_hash r now seen attempts ≡ some (ok t)
      → get_record b p key_hash t ≡ ok (some r)
  get_record-put_at_time key_hash r now seen t attempts hn hk whole live h =
      get_record-put key_hash r now seen t attempts hn hk live h
      ∙ unfold access_record pb_record in
        ap (λ (o : Option Time). ok (some (record r { expires_at = o })))
          (timestamp_whole r.expires_at whole)

  -- If PutAtTime succeeds, with an id and a key hash of 32 bytes and a record whose expiry is at
  -- or before the start of 1970, then Get returns the record without an expiry, whatever the time
  -- is.
  pub put_at_time_unexpiring :
      (key_hash : Bytes) (r : AccessRecord) (e now : Time) (seen t : b.State)
      (attempts : List (Attempt b.State))
      → length cfg.id ≡ 32
      → length key_hash ≡ 32
      → r.expires_at ≡ some e
      → lt_i64 0 e.unix ≡ false
      → put_at_time b p cfg key_hash r now seen attempts ≡ some (ok t)
      → get_record b p key_hash t ≡ ok (some (record r { expires_at = none }))
  unfolding insert_expiry
  put_at_time_unexpiring key_hash r e now seen t attempts hn hk at early h =
      let live : b.is_expired (insert_expiry (pb_record r now)) ≡ false =
        let never : insert_expiry (pb_record r now) ≡ 0 =
          unfold pb_record time_to_timestamp in rw (at, early) in
        rw never engine.is_expired-zero in
      get_record-put key_hash r now seen t attempts hn hk live h
      ∙ unfold access_record pb_record timestamp_to_time time_to_timestamp in rw at (rw early)

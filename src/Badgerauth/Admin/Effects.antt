-- ===== src/Badgerauth/Admin/Effects.antt =====
-- What the operations of admin.go leave behind, as Get shows it.
use gateway_mt.Prelude.{ℕ, ◌≡◌, refl, ap, false, Option, none, some, List, ◌∷◌, All, arith}
use mathlib.Core.Option
use gateway_mt.Prelude.Bytes.{Bytes, eq_bytes}
use gateway_mt.Errs.{Class, message, wrap, Result, ok, err, is_ok}
use gateway_mt.Badger.{Badger, IsEngine}
use gateway_mt.Authdb.KeyHash
use gateway_mt.Authdb.Record.{Time}
use gateway_mt.Badgerauth.LogEntry.{LogEntry, IsSized, entry_bytes}
use gateway_mt.Badgerauth.Proto.{PbRecord, Proto, IsCodec}
use gateway_mt.Badgerauth.Records
use gateway_mt.Badgerauth.Records.{lookup_record}
use gateway_mt.Badgerauth.Records.Update.{update_record_lem}
use gateway_mt.Badgerauth.Records.Delete.{get-delete_record}
use gateway_mt.Badgerauth.Txn.{Attempt}
use gateway_mt.Badgerauth.Txn.Retry.{CommittedOn}
use gateway_mt.Badgerauth.Db
use gateway_mt.Badgerauth.Db.{Config, get_record, access_record, readable}
use gateway_mt.Badgerauth.Db.RoundTrip.{run-from, run-on, any_snapshot}
use gateway_mt.Badgerauth.Rpc.{answer, reply_of}
use gateway_mt.Badgerauth.Admin.{
  invalidate, unpublish, with_key, invalidate_record, unpublish_record, delete_record,
}

map-reply_of :
    {S : Type 0} (o : Option (Result S)) {t : S}
    → Option.map reply_of o ≡ some (answer t)
    → o ≡ some (ok t)
unfolding reply_of
map-reply_of none h = absurd (let g = h in cc)
map-reply_of (some (ok t)) h = ground arith
map-reply_of (some (err e)) h = absurd (ground arith)

module _ (b : Badger) (p : Proto) (cfg : Config) where
  with_key-answer :
      (key key_hash : Bytes) (act : Bytes → Option (Result b.State)) (t : b.State)
      → KeyHash.set_bytes key ≡ ok key_hash
      → with_key b p cfg key act ≡ some (answer t)
      → act key_hash ≡ some (ok t)
  unfolding with_key
  with_key-answer key key_hash act t same h = map-reply_of (act key_hash) (rw (same, with_key) at h)

  -- the record under a key hash has not expired
  abbrev pub IsUnexpired : Bytes → b.State → Type 0
  IsUnexpired key_hash s =
      (r : PbRecord) → lookup_record b p key_hash s ≡ ok r → b.is_expired r.expires_at_unix ≡ false

  -- how an update shows: on the snapshot of the attempt that committed, after conflicts only, it replaced
  -- the record by its image, and it changed no other key
  pub record IsUpdate (key_hash : Bytes) (fn : PbRecord → PbRecord)
      (attempts : List (Attempt b.State)) (t : b.State) : Type 0 where
    pub before : b.State
    pub committed : CommittedOn (Records.update_record b p key_hash fn) before t attempts
    pub old : PbRecord
    pub found : lookup_record b p key_hash before ≡ ok old
    pub stored : lookup_record b p key_hash t ≡ ok (fn old)
    pub others : (k : Bytes) → eq_bytes key_hash k ≡ false → b.get k t ≡ b.get k before

  module _ (engine : IsEngine b) (codec : IsCodec p) where
    update_record-IsUpdate :
        (key_hash : Bytes) (fn : PbRecord → PbRecord) (attempts : List (Attempt b.State))
        (t : b.State)
        → ((r : PbRecord) → (fn r).expires_at_unix ≡ r.expires_at_unix)
        → All (λ (a : Attempt b.State). IsUnexpired key_hash a.snapshot) attempts
        → Db.update_record b p cfg key_hash fn attempts ≡ some (ok t)
        → IsUpdate key_hash fn attempts t
    unfolding Db.update_record
    update_record-IsUpdate key_hash fn attempts t same live h =
        let (s, unexpired, done, committed) =
          run-on cfg (Records.update_record b p key_hash fn) (IsUnexpired key_hash) attempts t live
            h in
        let (r, found, after, others) =
          update_record_lem b p engine codec key_hash fn s t (λ r. ap b.is_expired (same r)) done in
        record {
          before = s;
          committed = committed;
          old = r;
          found = found;
          stored = after (unexpired r found);
          others = others;
        }

    -- After InvalidateRecord was answered, for a key that reads as a key hash, a reason that is
    -- not empty, and attempts that saw no expired record, Get returns the error of an invalid
    -- record. Some attempt committed after others that each ended in a conflict, and since its
    -- snapshot the record has got the reason and the time of the invalidation and kept all other
    -- fields, and no other key has changed.
    pub invalidate_record-IsUpdate :
        (key key_hash : Bytes) (c : ℕ) (reason : Bytes) (now : Time)
        (attempts : List (Attempt b.State)) (t : b.State)
        → KeyHash.set_bytes key ≡ ok key_hash
        → All (λ (a : Attempt b.State). IsUnexpired key_hash a.snapshot) attempts
        → invalidate_record b p cfg key (c ∷ reason) now attempts ≡ some (answer t)
        → IsUpdate key_hash
            (λ r. record r { invalidated_at_unix = now.unix; invalidation_reason = c ∷ reason })
            attempts
            t
          × (get_record b p key_hash t ≡ err (wrap Class.badgerauth (wrap Class.invalid message)))
    unfolding invalidate_record invalidate
    invalidate_record-IsUpdate key key_hash c reason now attempts t same live h =
        let done = with_key-answer key key_hash _ t same h in
        let u =
          update_record-IsUpdate key_hash (invalidate (c ∷ reason) now) attempts t (λ r. refl) live
            done in
        (u, unfold get_record in rw (u.stored, get_record))

    -- After UnpublishRecord was answered, for a key that reads as a key hash and attempts that saw
    -- no expired record, the record was replaced by itself, not public, and no other key has
    -- changed since the snapshot of the attempt that committed.
    pub unpublish_record-IsUpdate :
        (key key_hash : Bytes) (attempts : List (Attempt b.State)) (t : b.State)
        → KeyHash.set_bytes key ≡ ok key_hash
        → All (λ (a : Attempt b.State). IsUnexpired key_hash a.snapshot) attempts
        → unpublish_record b p cfg key attempts ≡ some (answer t)
        → IsUpdate key_hash (λ r. record r { is_public = false }) attempts t
    unfolding unpublish_record unpublish
    unpublish_record-IsUpdate key key_hash attempts t same live h =
        update_record-IsUpdate key_hash unpublish attempts t (λ r. refl) live
          (with_key-answer key key_hash _ t same h)

    -- After DeleteRecord was answered for a key that reads as a key hash, Get of that key hash
    -- returns no record, and the log has no entry that names it.
    pub delete_record-gone :
        (key key_hash : Bytes) (attempts : List (Attempt b.State)) (t : b.State)
        → KeyHash.set_bytes key ≡ ok key_hash
        → delete_record b p cfg key attempts ≡ some (answer t)
        → (get_record b p key_hash t ≡ ok none)
          × ((e : LogEntry)
              → IsSized e
              → e.key_hash ≡ key_hash
              → is_ok (b.get (entry_bytes e) t) ≡ false)
    unfolding delete_record Db.delete_record
    delete_record-gone key key_hash attempts t same h =
        let done = with_key-answer key key_hash _ t same h in
        let (s, _, cut) =
          run-from cfg (Records.delete_record b key_hash) (λ s. Unit {0}) attempts t
            (any_snapshot attempts) done in
        let (gone, entries, _) = get-delete_record b engine key_hash s t cut in
        (unfold get_record lookup_record in rw (gone, get_record), entries)

-- ===== src/Badgerauth/Consistent/Delete.antt =====
-- deleteRecord and updateRecord keep a database consistent.
use gateway_mt.Prelude.{◌≡◌, sym, ap, ◌∙◌, true, false, length, arith, Bool-cases, inl, inr}
use mathlib.Core.Path.{subst}
use gateway_mt.Prelude.Bytes.{Bytes, eq_bytes, is_prefix}
use gateway_mt.Prelude.Bytes.Order.{eq_bytes_sound, eq_bytes_lengths}
use gateway_mt.Errs.{ok, is_ok}
use gateway_mt.Badger.{Badger, IsEngine}
use gateway_mt.Badgerauth.Clock.{make_clock_key, length-make_clock_key, current_clock}
use gateway_mt.Badgerauth.LogEntry.{LogEntry, IsSized, entry_bytes, length-entry_bytes, log_prefix}
use gateway_mt.Badgerauth.Proto.{PbRecord, Proto, IsCodec}
use gateway_mt.Badgerauth.Records.{lookup_record, delete_record, update_record}
use gateway_mt.Badgerauth.Records.Delete.{get-delete_record, kept-delete_record, concerns_of_length}
use gateway_mt.Badgerauth.Records.Update.{update_record_lem}
use gateway_mt.Badgerauth.Consistent.{IsLogged, IsConsistent}

-- If the transaction of deleteRecord succeeds on a consistent database, with a key hash of 32
-- bytes, then the database it leaves is consistent.
pub delete_record-IsConsistent :
    (b : Badger) (p : Proto)
    → IsEngine b
    → (key_hash : Bytes) (s t : b.State) → length key_hash ≡ 32
    → IsConsistent b p s
    → delete_record b key_hash s ≡ ok t
    → IsConsistent b p t
unfolding lookup_record
delete_record-IsConsistent b p engine key_hash s t hk old h =
    let (_, entries_gone, others) = get-delete_record b engine key_hash s t h in
    let was_logged : (e : LogEntry) → IsLogged b t e → IsLogged b s e = λ e there.
      subst (λ g. is_ok g ≡ true) (kept-delete_record b engine key_hash s t h (entry_bytes e) there)
        there in
    let clock_same : (e : LogEntry)
        → IsSized e
        → b.get (make_clock_key e.id) t ≡ b.get (make_clock_key e.id) s =
      λ e z.
        let len = length-make_clock_key e.id z.id_size in
        others (make_clock_key e.id) (eq_bytes_lengths _ _ (omega arith))
          (concerns_of_length key_hash _ (omega arith)) in
    record {
      entries = λ k pre there.
          old.entries k pre (
            subst (λ g. is_ok g ≡ true) (kept-delete_record b engine key_hash s t h k there) there);
      has_record = λ e z there.
          let (r, found) = old.has_record e z (was_logged e there) in
          elim (Bool-cases (eq_bytes key_hash e.key_hash)) [
            | inl same ↦
                let no_entry = entries_gone e z (sym (eq_bytes_sound key_hash e.key_hash same)) in
                absurd (let q : true ≡ false = sym there ∙ no_entry in cc)
            | inr other ↦ (
              r,
              rw
                  (others e.key_hash other
                    (concerns_of_length key_hash _ (omega (arith, z.key_size))))
                  found,
            )
          ];
      dominated = λ e z there.
          let (c, read, le) = old.dominated e z (was_logged e there) in
          (c, ap (current_clock b) (clock_same e z) ∙ read, le);
    }

-- If the transaction of updateRecord succeeds on a consistent database, with a key hash of 32
-- bytes that does not look like a key of the log, a record that has not expired, and a function
-- that keeps whether records have expired, then the database it leaves is consistent.
pub update_record-IsConsistent :
    (b : Badger) (p : Proto)
    → IsEngine b
    → IsCodec p
    → (key_hash : Bytes) (fn : PbRecord → PbRecord) (s t : b.State) → length key_hash ≡ 32
    → ((r : PbRecord) → b.is_expired (fn r).expires_at_unix ≡ b.is_expired r.expires_at_unix)
    → ((r : PbRecord)
        → lookup_record b p key_hash s ≡ ok r
        → b.is_expired r.expires_at_unix ≡ false)
    → is_prefix log_prefix key_hash ≡ false
    → IsConsistent b p s
    → update_record b p key_hash fn s ≡ ok t
    → IsConsistent b p t
update_record-IsConsistent b p engine codec key_hash fn s t hk same live plain old h =
    let (r, found, after, others) = update_record_lem b p engine codec key_hash fn s t same h in
    let stored = after (live r found) in
    let entry_same : (e : LogEntry)
        → IsSized e
        → b.get (entry_bytes e) t ≡ b.get (entry_bytes e) s =
      λ e z.
        let len = length-entry_bytes e z in
        others (entry_bytes e) (eq_bytes_lengths _ _ (omega arith)) in
    record {
      entries = λ k pre there.
          let n : eq_bytes key_hash k ≡ false = ground (arith, eq_bytes_sound key_hash k) in
          old.entries k pre (subst (λ g. is_ok g ≡ true) (others k n) there);
      has_record = λ e z there. elim (Bool-cases (eq_bytes key_hash e.key_hash)) [
        | inl hit ↦
            (fn r, subst (λ k. lookup_record b p k t ≡ ok (fn r)) (eq_bytes_sound _ _ hit) stored)
        | inr other ↦
            let (q, was) =
              old.has_record e z (subst (λ g. is_ok g ≡ true) (entry_same e z) there) in
            (q, unfold lookup_record in rw (others e.key_hash other) was)
      ];
      dominated = λ e z there.
          let (c, read, le) =
            old.dominated e z (subst (λ g. is_ok g ≡ true) (entry_same e z) there) in
          let len = length-make_clock_key e.id z.id_size in
          (
            c,
            ap (current_clock b) (others (make_clock_key e.id) (eq_bytes_lengths _ _ (omega arith)))
                ∙ read,
            le,
          );
    }

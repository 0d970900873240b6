-- ===== src/Badgerauth/Records/Update.antt =====
-- What updateRecord leaves behind (db.go).
use gateway_mt.Prelude.{◌≡◌, false}
use gateway_mt.Prelude.Bytes.{Bytes, eq_bytes}
use gateway_mt.Prelude.Bytes.Order.{eq_bytes_refl}
use gateway_mt.Errs.{Class, ok, wrapped, >>=-eq-ok, wrapped-eq-ok}
use gateway_mt.Badger.{Badger, IsEngine}
use gateway_mt.Badgerauth.Proto.{PbRecord, Proto, IsCodec}
use gateway_mt.Badgerauth.Records.{lookup_record, update_record}

-- If the transaction of updateRecord succeeds, with a function that keeps whether records have
-- expired, then it found a record, its image under the function is stored if the record had not
-- expired, and no other key has changed.
pub update_record_lem :
    (b : Badger) (p : Proto)
    → IsEngine b
    → IsCodec p
    → (key_hash : Bytes) (fn : PbRecord → PbRecord) (s t : b.State)
    → ((r : PbRecord) → b.is_expired (fn r).expires_at_unix ≡ b.is_expired r.expires_at_unix)
    → update_record b p key_hash fn s ≡ ok t
    → (r : PbRecord) × (lookup_record b p key_hash s ≡ ok r)
      × (b.is_expired r.expires_at_unix ≡ false → lookup_record b p key_hash t ≡ ok (fn r))
      × ((k : Bytes) → eq_bytes key_hash k ≡ false → b.get k t ≡ b.get k s)
unfolding update_record
update_record_lem b p engine codec key_hash fn s t same h =
    let (r, found, h1) = >>=-eq-ok (lookup_record b p key_hash s) _ h in
    let (v, enc, h2) = >>=-eq-ok (wrapped Class.proto (p.marshal (fn r))) _ h1 in
    let enc' = wrapped-eq-ok Class.proto (p.marshal (fn r)) enc in
    let g = λ (k : Bytes).
      engine.get-set_entry
        (record { key = key_hash; value = v; expires_at = (fn r).expires_at_unix }) k s t h2 in
    (
      r,
      found,
      (λ live.
          unfold lookup_record in
          rw (
            g key_hash,
            eq_bytes_refl key_hash,
            same r,
            live,
            codec.unmarshal-marshal (fn r) v enc',
          )),
      (λ k n. rw (g k, n)),
    )

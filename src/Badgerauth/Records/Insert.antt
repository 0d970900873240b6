-- ===== src/Badgerauth/Records/Insert.antt =====
-- What InsertRecord leaves behind (db.go).
use gateway_mt.Prelude.{ℕ, ◌+◌, ◌%◌, ◌≡◌, false, length, if◌then◌else◌, arith, []}
use gateway_mt.Prelude.Bytes.{Bytes, eq_bytes}
use gateway_mt.Prelude.Bytes.Order.{eq_bytes_refl, eq_bytes_lengths}
use gateway_mt.Errs.{ok}
use gateway_mt.Badger.{Badger, IsEngine}
use gateway_mt.Badgerauth.Clock.{
  u64_mod, make_clock_key, clock_bytes, current_clock, clock_of-clock_bytes, length-make_clock_key,
}
use gateway_mt.Badgerauth.LogEntry.{LogEntry, IsSized, entry_bytes, length-entry_bytes}
use gateway_mt.Badgerauth.Proto.{PbRecord, Proto, IsCodec}
use gateway_mt.Badgerauth.Records.{
  insert_expiry, main_entry, rlog_entry, lookup_record, insert_record,
}
use gateway_mt.Badgerauth.Records.Steps.{Steps, clock_entry, insert_record-Steps}

-- the log entry that InsertRecord adds where the node's clock stands at `clock`
abbrev pub new_entry : Bytes → ℕ → Bytes → LogEntry
new_entry node clock key_hash = record {
  id = node;
  clock = (clock + 1) % u64_mod;
  key_hash = key_hash;
  state = 0;
}

abbrev pub next_clock : ℕ → ℕ
next_clock c = (c + 1) % u64_mod

pub new_entry-IsSized :
    (node : Bytes) (c : ℕ) (key_hash : Bytes)
    → length node ≡ 32
    → length key_hash ≡ 32
    → IsSized (new_entry node c key_hash)
new_entry-IsSized node c key_hash hn hk = record {
  id_size = hn;
  key_size = hk;
  clock_size = omega arith;
  state_size = omega arith;
}

-- From `s` to `t` the record was stored, the node's clock went up by one, a log entry with the new
-- clock was added, and nothing else changed.
pub record IsInserted (b : Badger) (p : Proto) (node key_hash : Bytes) (r : PbRecord)
    (s t : b.State) : Type 0 where
  pub clock : ℕ
  pub clock_before : current_clock b (b.get (make_clock_key node) s) ≡ ok clock
  pub clock_after : current_clock b (b.get (make_clock_key node) t) ≡ ok (next_clock clock)
  pub logged : b.get (entry_bytes (new_entry node clock key_hash)) t ≡ ok (ok [])
  pub stored : lookup_record b p key_hash t ≡ ok r
  pub others :
      (k : Bytes)
      → eq_bytes key_hash k ≡ false
      → eq_bytes (make_clock_key node) k ≡ false
      → eq_bytes (entry_bytes (new_entry node clock key_hash)) k ≡ false
      → b.get k t ≡ b.get k s

module _ (b : Badger) (p : Proto) (engine : IsEngine b) (codec : IsCodec p) where
  -- every key after the three writes
  get-Steps :
      (node key_hash : Bytes) (r : PbRecord) (s t : b.State) (w : Steps b p node key_hash r s t)
      → b.is_expired (insert_expiry r) ≡ false
      → (k : Bytes)
      → b.get k t ≡ (
          if eq_bytes (entry_bytes (new_entry node w.clock key_hash)) k
          then ok (ok [])
          else if eq_bytes key_hash k
          then ok (ok w.marshaled)
          else if eq_bytes (make_clock_key node) k
          then ok (ok (clock_bytes (next_clock w.clock)))
          else b.get k s)
  get-Steps node key_hash r s t w live k =
      let e1 =
        engine.get-set_entry (clock_entry node (next_clock w.clock)) k s w.after_clock
          w.clock_written in
      let e2 =
        engine.get-set_entry (main_entry key_hash w.marshaled r) k w.after_clock w.after_main
          w.main_written in
      let e3 =
        engine.get-set_entry (rlog_entry node (next_clock w.clock) key_hash r) k w.after_main t
          w.log_written in
      let z = engine.is_expired-zero in let c = w.state_created in ground arith

  -- If InsertRecord succeeds with an id and a key hash of 32 bytes and a record that has not
  -- expired, then the record is stored under the key hash, the node's clock is one up (modulo
  -- 2^64), the log has an entry with that clock, and no other key has changed.
  pub insert_record-IsInserted :
      (node key_hash : Bytes) (r : PbRecord) (s t : b.State)
      → length node ≡ 32
      → length key_hash ≡ 32
      → b.is_expired (insert_expiry r) ≡ false
      → insert_record b p node key_hash r s ≡ ok t
      → IsInserted b p node key_hash r s t
  unfolding lookup_record current_clock
  insert_record-IsInserted node key_hash r s t hn hk live h =
      let w = insert_record-Steps b p node key_hash r s t h in
      let e = new_entry node w.clock key_hash in
      let sized = new_entry-IsSized node w.clock key_hash hn hk in
      let g = get-Steps node key_hash r s t w live in
      let ek = entry_bytes e in
      let ck = make_clock_key node in
      let len1 = length-entry_bytes e sized in
      let len2 = length-make_clock_key node hn in
      record {
        clock = w.clock;
        clock_before = w.clock_read;
        clock_after = rw (
          g ck,
          eq_bytes_lengths ek ck (omega arith),
          eq_bytes_lengths key_hash ck (omega arith),
          eq_bytes_refl ck,
          clock_of-clock_bytes (next_clock w.clock) (omega arith),
        );
        logged = rw (g ek, eq_bytes_refl ek);
        stored = rw (
          g key_hash,
          eq_bytes_lengths ek key_hash (omega arith),
          eq_bytes_refl key_hash,
          codec.unmarshal-marshal r w.marshaled w.encoded,
        );
        others = λ k n1 n2 n3. rw (g k, n3, n1, n2);
      }

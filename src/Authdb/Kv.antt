-- ===== src/Authdb/Kv.antt =====
-- pkg/auth/authdb/kv.go: the interface KV of a key/value store of access records, with what the
-- database of access grants relies on. A run stands for what a call of Put meets: the time, the
-- states it sees and the answers of the engine.
use gateway_mt.Prelude.{◌≡◌, Option, some, length}
use gateway_mt.Prelude.Bytes.{Bytes}
use gateway_mt.Errs.{Result, ok}
use gateway_mt.Authdb.Record.{AccessRecord}

pub record Kv : Type 1 where
  pub State : Type 0
  pub Run : Type 0
  pub put : Run → Bytes → AccessRecord → Option (Result State)
  pub get : Bytes → State → Result (Option AccessRecord)
  pub ping : State → Result (Unit {0})

-- The store returns a record that was put, if it is one that the store can keep as it is.
pub record IsStore (kv : Kv) (IsStorable : kv.Run → AccessRecord → Type 0) : Type 0 where
  pub get-put :
      (run : kv.Run) (key_hash : Bytes) (r : AccessRecord) (t : kv.State)
      → length key_hash ≡ 32
      → IsStorable run r
      → kv.put run key_hash r ≡ some (ok t)
      → kv.get key_hash t ≡ ok (some r)

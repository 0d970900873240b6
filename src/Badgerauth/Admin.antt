-- ===== src/Badgerauth/Admin.antt =====
-- pkg/auth/badgerauth/admin.go: the operations on single records that operators call.
pub mod Effects
use gateway_mt.Prelude.{ℕ, Bool, false, Option, none, some, List, [], ◌∷◌}
use mathlib.Core.Option
use gateway_mt.Prelude.Bytes.{Bytes}
use gateway_mt.Errs.{Result, ok, err}
use gateway_mt.Badger.{Badger}
use gateway_mt.Authdb.KeyHash
use gateway_mt.Authdb.Record.{Time}
use gateway_mt.Badgerauth.Proto.{PbRecord, Proto}
use gateway_mt.Badgerauth.Txn.{Attempt}
use gateway_mt.Badgerauth.Db
use gateway_mt.Badgerauth.Db.{Config}
use gateway_mt.Badgerauth.Rpc.{RpcStatus, Reply, answer, failure, reply_of, err_to_rpc_status}

-- the changes that InvalidateRecord and UnpublishRecord make to a record
unfoldable pub invalidate : Bytes → Time → PbRecord → PbRecord
invalidate reason now r = record r { invalidated_at_unix = now.unix; invalidation_reason = reason }

unfoldable pub unpublish : PbRecord → PbRecord
unpublish r = record r { is_public = false }

module _ (b : Badger) (p : Proto) (cfg : Config) where
  -- The key of a request is read first; its error is answered at once.
  unfoldable pub with_key : Bytes → (Bytes → Option (Result b.State)) → Option (Reply b.State)
  with_key key act = elim (KeyHash.set_bytes key) [
    | err e ↦ some (failure (err_to_rpc_status e))
    | ok key_hash ↦ Option.map reply_of (act key_hash)
  ]

  -- InvalidateRecord, at the time `now`
  unfoldable pub invalidate_record :
      Bytes → Bytes → Time → List (Attempt b.State) → Option (Reply b.State)
  unfolding with_key
  invalidate_record key [] now attempts = some (failure RpcStatus.invalid_argument)
  invalidate_record key (c ∷ reason) now attempts =
      with_key key
        λ key_hash. Db.update_record b p cfg key_hash (invalidate (c ∷ reason) now) attempts

  -- UnpublishRecord
  unfoldable pub unpublish_record : Bytes → List (Attempt b.State) → Option (Reply b.State)
  unfolding with_key
  unpublish_record key attempts =
      with_key key λ key_hash. Db.update_record b p cfg key_hash unpublish attempts

  -- DeleteRecord
  unfoldable pub delete_record : Bytes → List (Attempt b.State) → Option (Reply b.State)
  unfolding with_key
  delete_record key attempts = with_key key λ key_hash. Db.delete_record b cfg key_hash attempts

-- ===== src/Badgerauth/Rpc.antt =====
-- pkg/auth/badgerauth/node.go: the status that an error is answered with over RPC.
use gateway_mt.Prelude.{◌||◌, if◌then◌else◌}
use gateway_mt.Errs.{
  Error, Class, has, is, invalid_key, banned_key, empty_key, key_not_found, Result, ok, err,
}

-- the codes of storj.io/common/rpc/rpcstatus that are used
pub data RpcStatus : Type 0 where
  invalid_argument not_found internal canceled : RpcStatus

pub data Reply {ℓ} (A : Type ℓ) : Type ℓ where
  answer : A → Reply A
  failure : RpcStatus → Reply A

-- errToRPCStatusErr, for an error that is not nil
unfoldable pub err_to_rpc_status : Error → RpcStatus
err_to_rpc_status e =
    if has Class.proto e
      || (has Class.key_hash e || (is invalid_key e || (is banned_key e || is empty_key e)))
    then RpcStatus.invalid_argument
    else if is key_not_found e
    then RpcStatus.not_found
    else RpcStatus.internal

-- an answer, or the status of the error
unfoldable pub reply_of {ℓ} : {A : Type ℓ} → Result A → Reply A
reply_of (ok a) = answer a
reply_of (err e) = failure (err_to_rpc_status e)

-- ===== src/Badgerauth/NodeId.antt =====
-- pkg/auth/badgerauth/nodeid.go: a node's id, 32 bytes.
use gateway_mt.Prelude.{
  ℕ, ◌-◌, ◌≡◌, length, replicate, length-append, length-replicate, arith, append-nil,
}
use gateway_mt.Prelude.Bytes.{Bytes}
use gateway_mt.Errs.{Class, Result, ok}
use gateway_mt.Authdb.KeyHash.{fill_32}

unfoldable pub set_bytes : Bytes → Result Bytes
unfolding fill_32
set_bytes v = fill_32 Class.node_id v

-- An accepted id or key hash has 32 bytes.
pub length-fill_32 : (c : Class) (v w : Bytes) → fill_32 c v ≡ ok w → length w ≡ 32
unfolding fill_32
length-fill_32 c v w h = ground (
  arith,
  length-append v (replicate (32 - length v) 0),
  length-replicate {A = ℕ} (32 - length v) 0,
  h,
)

-- An id of 32 bytes is taken as it is.
pub fill_32_exact : (c : Class) (v : Bytes) → length v ≡ 32 → fill_32 c v ≡ ok v
unfolding fill_32
fill_32_exact c v h = let e : 32 - length v ≡ 0 = omega arith in rw (e, append-nil) (ground arith)

-- ===== src/Authdb/KeyHash.antt =====
-- pkg/auth/authdb/kv.go: KeyHash, the 32 bytes under which a record is stored.
use gateway_mt.Prelude.{◌-◌, ◌++◌, length, replicate, ltb, if◌then◌else◌}
use gateway_mt.Prelude.Bytes.{Bytes}
use gateway_mt.Errs.{Class, message, wrap, Result, ok, err}

-- SetBytes of KeyHash and of NodeID alike: shorter input is padded with zeros to 32 bytes, longer
-- input is an error of the class.
unfoldable pub fill_32 : Class → Bytes → Result Bytes
fill_32 c v =
    if ltb 32 (length v) then err (wrap c message) else ok (v ++ replicate (32 - length v) 0)

unfoldable pub set_bytes : Bytes → Result Bytes
unfolding fill_32
set_bytes v = fill_32 Class.key_hash v

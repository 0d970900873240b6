-- ===== src/Authdb/Record.antt =====
-- pkg/auth/authdb/kv.go: the record of an access grant as the KV interface passes it.
use gateway_mt.Prelude.{ℕ, Bool, Option}
use gateway_mt.Prelude.Bytes.{Bytes}

-- time.Time: seconds since 1970 as an int64, and the nanoseconds within the second
pub record Time : Type 0 where
  pub unix : ℕ
  pub nanosecond : ℕ

-- authdb.Record
pub record AccessRecord : Type 0 where
  pub satellite_address : Bytes
  pub macaroon_head : Bytes
  pub encrypted_secret_key : Bytes
  pub encrypted_access_grant : Bytes
  pub expires_at : Option Time
  pub is_public : Bool

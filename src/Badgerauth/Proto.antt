-- ===== src/Badgerauth/Proto.antt =====
-- pkg/auth/badgerauth/pb: the stored record, and its encoding by generated code over the protobuf
-- runtime, which is a parameter. util.go: the conversions of expiry times.
use gateway_mt.Prelude.{ℕ, ◌≡◌, ◌↔◌, Bool, true, Option, none, some, if◌then◌else◌}
use gateway_mt.Prelude.Bytes.{Bytes}
use gateway_mt.Prelude.Int64.{lt_i64}
use gateway_mt.Errs.{Result, ok}
use gateway_mt.Authdb.Record.{Time}

-- pb.Record: times are int64 (in bits), `state` is the number of the enum, 0 for CREATED
pub record PbRecord : Type 0 where
  pub created_at_unix : ℕ
  pub is_public : Bool
  pub satellite_address : Bytes
  pub macaroon_head : Bytes
  pub expires_at_unix : ℕ
  pub encrypted_secret_key : Bytes
  pub encrypted_access_grant : Bytes
  pub invalidation_reason : Bytes
  pub invalidated_at_unix : ℕ
  pub state : ℕ

abbrev pub created : ℕ
created = 0

-- pb.Marshal, pb.Unmarshal and pb.Equal
pub record Proto : Type 0 where
  pub marshal : PbRecord → Result Bytes
  pub unmarshal : Bytes → Result PbRecord
  pub equal : PbRecord → PbRecord → Bool

-- What is marshalled is unmarshalled to the same record, and equality is that of the fields.
pub record IsCodec (p : Proto) : Type 0 where
  pub unmarshal-marshal : (r : PbRecord) (v : Bytes) → p.marshal r ≡ ok v → p.unmarshal v ≡ ok r
  pub equal_iff : (r q : PbRecord) → (p.equal r q ≡ true) ↔ (r ≡ q)

-- timestampToTime
unfoldable pub timestamp_to_time : ℕ → Option Time
timestamp_to_time sec = if lt_i64 0 sec then some (record { unix = sec; nanosecond = 0 }) else none

-- timeToTimestamp
unfoldable pub time_to_timestamp : Option Time → ℕ
time_to_timestamp (some t) = t.unix
time_to_timestamp none = 0

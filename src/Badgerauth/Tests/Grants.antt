-- ===== src/Badgerauth/Tests/Grants.antt =====
-- Concrete states of the store of pkg/auth/badgerauth, on the engine in memory.
use gateway_mt.Prelude.{◌≡◌, refl, true, [], ◌∷◌, replicate, arith}
use gateway_mt.Prelude.Bytes.{Bytes, eq_bytes, is_prefix}
use gateway_mt.Errs.{ok}
use gateway_mt.Badger.{Badger}
use gateway_mt.Badger.Memory.{memory, memory-IsEngine, Table, read, write, passed}
use gateway_mt.Badgerauth.Clock.{
  make_clock_key, clock_bytes, clock_of, read_clock, current_clock, advance_clock,
}
use gateway_mt.Badgerauth.LogEntry.{entry_bytes}
use gateway_mt.Badgerauth.Proto.{PbRecord}
use gateway_mt.Badgerauth.Records.{insert_record, insert_expiry, both, check_duplicate}
use gateway_mt.Badgerauth.Consistent.{IsConsistent}
use gateway_mt.Badgerauth.Consistent.Insert.{insert_record-IsConsistent}
use gateway_mt.Badgerauth.Tests.Codec.{codec, codec-IsCodec, encode}

abbrev pub engine : Badger
engine = memory 1000

abbrev pub node_a : Bytes
node_a = replicate 32 1

abbrev pub node_b : Bytes
node_b = replicate 32 2

abbrev pub hash_1 : Bytes
hash_1 = replicate 32 7

abbrev pub hash_2 : Bytes
hash_2 = replicate 32 8

abbrev pub grant_1 : PbRecord
grant_1 = record {
  created_at_unix = 900;
  is_public = true;
  satellite_address = 5 ∷ [];
  macaroon_head = 6 ∷ 7 ∷ [];
  expires_at_unix = 2000;
  encrypted_secret_key = 8 ∷ [];
  encrypted_access_grant = 9 ∷ [];
  invalidation_reason = [];
  invalidated_at_unix = 0;
  state = 0;
}

abbrev pub empty : Table
empty = []

-- the table after a node's first insertion, of the grant under a hash
abbrev pub first_insertion : Bytes → Bytes → Table → Table
first_insertion node key_hash t =
    record {
      key = entry_bytes (record { id = node; clock = 1; key_hash = key_hash; state = 0 });
      value = [];
      expires_at = 2000;
    }
    ∷ record { key = key_hash; value = encode grant_1; expires_at = 2000 }
    ∷ record { key = make_clock_key node; value = clock_bytes 1; expires_at = 0 }
    ∷ t

abbrev pub one_grant : Table
one_grant = first_insertion node_a hash_1 empty

-- what the other node has
abbrev pub other_grant : Table
other_grant = first_insertion node_b hash_2 empty

abbrev pub two_grants : Table
two_grants = first_insertion node_a hash_1 other_grant

pub one_grant_inserted : insert_record engine codec node_a hash_1 grant_1 empty ≡ ok one_grant
unfolding insert_record both advance_clock current_clock check_duplicate entry_bytes codec
    insert_expiry make_clock_key clock_bytes read write passed read_clock clock_of
one_grant_inserted = refl

pub other_grant_inserted : insert_record engine codec node_b hash_2 grant_1 empty ≡ ok other_grant
unfolding insert_record both advance_clock current_clock check_duplicate entry_bytes codec
    insert_expiry make_clock_key clock_bytes read write passed read_clock clock_of
other_grant_inserted = refl

pub two_grants_inserted :
    insert_record engine codec node_a hash_1 grant_1 other_grant ≡ ok two_grants
unfolding insert_record both advance_clock current_clock check_duplicate entry_bytes codec
    insert_expiry make_clock_key clock_bytes read write passed read_clock clock_of eq_bytes
two_grants_inserted = refl

pub empty-IsConsistent : IsConsistent engine codec empty
unfolding read
empty-IsConsistent = record {
  entries = λ k pre there. absurd (let h = there in cc);
  has_record = λ e z there. absurd (let h = there in cc);
  dominated = λ e z there. absurd (let h = there in cc);
}

pub one_grant-IsConsistent : IsConsistent engine codec one_grant
unfolding insert_expiry passed current_clock read is_prefix
one_grant-IsConsistent =
    insert_record-IsConsistent engine codec (memory-IsEngine 1000) codec-IsCodec node_a hash_1
      grant_1 empty one_grant refl refl refl refl (λ c h. ground (arith, h)) empty-IsConsistent
      one_grant_inserted

pub other_grant-IsConsistent : IsConsistent engine codec other_grant
unfolding insert_expiry passed current_clock read is_prefix
other_grant-IsConsistent =
    insert_record-IsConsistent engine codec (memory-IsEngine 1000) codec-IsCodec node_b hash_2
      grant_1 empty other_grant refl refl refl refl (λ c h. ground (arith, h)) empty-IsConsistent
      other_grant_inserted

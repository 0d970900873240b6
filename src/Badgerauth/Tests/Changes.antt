-- ===== src/Badgerauth/Tests/Changes.antt =====
-- States in which the grant was deleted or changed.
use gateway_mt.Prelude.{◌≡◌, refl, sym, ◌∙◌, false, [], ◌∷◌}
use mathlib.Core.Path.{subst}
use gateway_mt.Prelude.Bytes.{eq_bytes, is_prefix, put_be, get_be, leb_bytes}
use gateway_mt.Errs.{ok}
use gateway_mt.Badger.Memory.{Table, read, write, passed, scan, keys, insert_key, erase, without}
use gateway_mt.Authdb.KeyHash
use gateway_mt.Badgerauth.NodeId
use gateway_mt.Badgerauth.Clock.{make_clock_key, clock_bytes, clock_of}
use gateway_mt.Badgerauth.LogEntry.{entry_bytes, log_entry_of}
use gateway_mt.Badgerauth.Proto.{PbRecord}
use gateway_mt.Badgerauth.Records.{
  both, lookup_record, update_record, delete_record, delete_entries, delete_replication_log_entries,
}
use gateway_mt.Badgerauth.Tests.Codec.{codec, codec-IsCodec, encode, decode}
use gateway_mt.Badgerauth.Tests.Grants.{engine, node_a, hash_1, grant_1, one_grant}

-- the clock of a node outlives its records
abbrev pub clock_left : Table
clock_left = record { key = make_clock_key node_a; value = clock_bytes 1; expires_at = 0 } ∷ []

pub one_grant_deleted : delete_record engine hash_1 one_grant ≡ ok clock_left
unfolding delete_record delete_replication_log_entries both read eq_bytes entry_bytes passed erase
    delete_entries scan keys without is_prefix leb_bytes put_be insert_key make_clock_key
    log_entry_of clock_of NodeId.set_bytes KeyHash.fill_32 clock_bytes get_be
one_grant_deleted = refl

-- the update that unpublishes
abbrev pub hide : PbRecord → PbRecord
hide r = record r { is_public = false }

abbrev pub hidden_grant : Table
hidden_grant = record { key = hash_1; value = encode (hide grant_1); expires_at = 2000 } ∷ one_grant

pub one_grant_hidden : update_record engine codec hash_1 hide one_grant ≡ ok hidden_grant
unfolding update_record lookup_record codec read eq_bytes entry_bytes passed write
    gateway_mt.Badgerauth.Tests.Codec.first_field gateway_mt.Badgerauth.Tests.Codec.put_field
    gateway_mt.Badgerauth.Tests.Codec.after_field
one_grant_hidden = refl

pub grant_1_found : lookup_record engine codec hash_1 one_grant ≡ ok grant_1
unfolding lookup_record codec read passed encode decode eq_bytes entry_bytes
    gateway_mt.Badgerauth.Tests.Codec.flag gateway_mt.Badgerauth.Tests.Codec.first_field
    gateway_mt.Badgerauth.Tests.Codec.put_field gateway_mt.Badgerauth.Tests.Codec.after_field
grant_1_found = refl

pub one_grant_live :
    (r : PbRecord)
    → lookup_record engine codec hash_1 one_grant ≡ ok r
    → engine.is_expired r.expires_at_unix ≡ false
unfolding passed
one_grant_live r h =
    let found : ok grant_1 ≡ ok r = sym grant_1_found ∙ h in
    let same : grant_1 ≡ r = cc in
    subst (λ (q : PbRecord). engine.is_expired q.expires_at_unix ≡ false) same refl

-- ===== src/Badgerauth/Node/Invalidated.antt =====
-- An invalidated record that a node gets from a peer (node.go: Get and Peek, admin.go: InvalidateRecord).
use gateway_mt.Prelude.{ℕ, ◌≡◌, refl, none, some, List, [], ◌∷◌, ◌++◌, All}
use gateway_mt.Prelude.Bytes.{Bytes}
use gateway_mt.Errs.{Class, message, wrap, Result, ok, err}
use gateway_mt.Badger.{Badger, IsEngine}
use gateway_mt.Authdb.KeyHash
use gateway_mt.Authdb.Record.{Time}
use gateway_mt.Badgerauth.Proto.{PbRecord, Proto, IsCodec}
use gateway_mt.Badgerauth.Txn.{Attempt}
use gateway_mt.Badgerauth.Db.{Config, get_record, access_record}
use gateway_mt.Badgerauth.Rpc.{answer, reply_of}
use gateway_mt.Badgerauth.Admin.{invalidate_record}
use gateway_mt.Badgerauth.Admin.Effects.{IsUnexpired, invalidate_record-IsUpdate}
use gateway_mt.Badgerauth.Node.{first_record, local_or_peers, node_get, peek}
use gateway_mt.Badgerauth.Node.Store.{IsRefused}

first_record-refused :
    (refused : List (Result PbRecord)) (r : PbRecord) (later : List (Result PbRecord))
    → IsRefused refused
    → first_record (refused ++ ok r ∷ later) ≡ some (access_record r)
unfolding first_record
first_record-refused [] r later h = refl
first_record-refused (a ∷ refused) r later ((e, failed), h) =
    rw failed (first_record-refused refused r later h)

module _ (b : Badger) (p : Proto) where
  -- what a node that lacks a record makes of the invalidated one of a peer with the database `t`
  pub record IsPassedOn (key key_hash : Bytes) (now : Time) (reason : Bytes) (s t : b.State)
      (refused later : List (Result PbRecord)) : Type 0 where
    pub found : PbRecord
    pub peeked : peek b p key t ≡ answer found
    pub time : found.invalidated_at_unix ≡ now.unix
    pub because : found.invalidation_reason ≡ reason
    pub returned :
        node_get b p key_hash s (refused ++ ok found ∷ later) ≡ ok (some (access_record found))

module _ (b : Badger) (p : Proto) (cfg : Config) (engine : IsEngine b) (codec : IsCodec p) where
  -- After InvalidateRecord was answered on a node, for a key that reads as a key hash, a reason
  -- that is not empty, and attempts that saw no expired record, Get there returns the error of an
  -- invalid record; but Peek there answers with a record that has the time and the reason of the
  -- invalidation, and Node.Get of a node that lacks the record returns that record without an
  -- error if this is the first success among the answers of its peers.
  pub invalidate_record-IsPassedOn :
      (key key_hash : Bytes) (c : ℕ) (reason : Bytes) (now : Time)
      (attempts : List (Attempt b.State)) (s t : b.State) (refused later : List (Result PbRecord))
      → KeyHash.set_bytes key ≡ ok key_hash
      → All (λ (a : Attempt b.State). IsUnexpired b p cfg key_hash a.snapshot) attempts
      → invalidate_record b p cfg key (c ∷ reason) now attempts ≡ some (answer t)
      → get_record b p key_hash s ≡ ok none
      → IsRefused refused
      → IsPassedOn b p key key_hash now (c ∷ reason) s t refused later
        × (get_record b p key_hash t ≡ err (wrap Class.badgerauth (wrap Class.invalid message)))
  unfolding peek node_get local_or_peers reply_of
  invalidate_record-IsPassedOn key key_hash c reason now attempts s t refused later same live h
        missing failed =
      let (u, own) =
        invalidate_record-IsUpdate b p cfg engine codec key key_hash c reason now attempts t same
          live h in
      (
        record {
          found = record u.old { invalidated_at_unix = now.unix; invalidation_reason = c ∷ reason };
          peeked = rw (peek, same, u.stored) refl;
          time = refl;
          because = refl;
          returned = rw (missing, first_record-refused refused _ later failed) refl;
        },
        own,
      )

-- ===== src/Badgerauth/Node/Store.antt =====
-- The node as the key/value store of the database of access grants (node.go: Put and Get).
use gateway_mt.Prelude.{◌≡◌, refl, false, List, length, All}
use gateway_mt.Errs.{Result, err, Error}
use gateway_mt.Badger.{Badger, IsEngine}
use gateway_mt.Authdb.Record.{Time, AccessRecord}
use gateway_mt.Authdb.Kv.{Kv, IsStore}
use gateway_mt.Badgerauth.Proto.{PbRecord, Proto, IsCodec}
use gateway_mt.Badgerauth.Records.{insert_expiry}
use gateway_mt.Badgerauth.Txn.{Attempt}
use gateway_mt.Badgerauth.Db.{Config, pb_record, put_at_time, ping_db}
use gateway_mt.Badgerauth.Db.RoundTrip.{IsWhole, get_record-put_at_time}
use gateway_mt.Badgerauth.Node.{local_or_peers, node_get}

-- what a call of Put meets: the time, the state that its check sees, and the attempts of its
-- transaction
pub record PutRun (S : Type 0) : Type 0 where
  pub now : Time
  pub seen : S
  pub attempts : List (Attempt S)

-- the answers of peers that do not have the record
abbrev pub IsRefused : List (Result PbRecord) → Type 0
IsRefused peeks = All (λ (a : Result PbRecord). (e : Error) × (a ≡ err e)) peeks

module _ (b : Badger) (p : Proto) (cfg : Config) (peeks : List (Result PbRecord)) where
  -- Node.Put and Node.Get, where the peers answer `peeks`
  abbrev pub node_kv : Kv
  node_kv = record {
    State = b.State;
    Run = PutRun b.State;
    put = λ run key_hash r. put_at_time b p cfg key_hash r run.now run.seen run.attempts;
    get = λ key_hash s. node_get b p key_hash s peeks;
    ping = λ s. ping_db b cfg s;
  }

  -- the expiry of a record is none or a whole second after 1970, and has not passed
  abbrev pub IsKept : PutRun b.State → AccessRecord → Type 0
  IsKept run r = IsWhole r.expires_at × (b.is_expired (insert_expiry (pb_record r run.now)) ≡ false)

  -- A node with an id of 32 bytes, on an engine and an encoding that keep their promises, is a
  -- store for the database of access grants whatever its peers answer: Node.Get returns every
  -- record that Node.Put has stored, if its expiry is none or a whole number of seconds after 1970
  -- that has not passed.
  pub node_kv-IsStore : IsEngine b → IsCodec p → length cfg.id ≡ 32 → IsStore node_kv IsKept
  unfolding node_get local_or_peers
  node_kv-IsStore engine codec hn = record {
    get-put = λ run key_hash r t hk (whole, live) h.
        rw
          (get_record-put_at_time b p engine codec cfg key_hash r run.now run.seen t run.attempts hn
            hk whole live h)
          refl;
  }

-- ===== src/Badgerauth/Node.antt =====
-- pkg/auth/badgerauth/node.go: the node that serves records, answers replication requests, and pulls
-- records from its peers. What a peer answers over the network is a parameter.
pub mod Store
pub mod Invalidated
use gateway_mt.Prelude.{
  ℕ, Bool, true, false, Option, none, some, List, [], ◌∷◌, ◌++◌, if◌then◌else◌,
}
use gateway_mt.Prelude.Bytes.{Bytes, eq_bytes}
use gateway_mt.Errs.{Error, Class, message, wrap, has, Result, ok, err, wrapped}
use gateway_mt.Badger.{Badger}
use gateway_mt.Authdb.KeyHash
use gateway_mt.Authdb.Record.{AccessRecord}
use gateway_mt.Badgerauth.NodeId
use gateway_mt.Badgerauth.Clock
use gateway_mt.Badgerauth.Proto.{PbRecord, Proto}
use gateway_mt.Badgerauth.Records
use gateway_mt.Badgerauth.Records.{ResponseEntry, lookup_record, find_response_entries}
use gateway_mt.Badgerauth.Db.{
  Config, RequestEntry, get_record, access_record, build_request_entries,
}
use gateway_mt.Badgerauth.Rpc.{RpcStatus, Reply, answer, failure, reply_of}

-- the first success among the answers to Peek, in the order in which they arrive
unfoldable pub first_record : List (Result PbRecord) → Option AccessRecord
first_record [] = none
first_record (ok r ∷ peeks) = some (access_record r)
first_record (err e ∷ peeks) = first_record peeks

-- what Node.Get makes of the local answer: the peers are asked only if the record is not there
unfoldable pub local_or_peers :
    List (Result PbRecord) → Result (Option AccessRecord) → Result (Option AccessRecord)
unfolding first_record
local_or_peers peeks (err e) = err e
local_or_peers peeks (ok (some r)) = ok (some r)
local_or_peers peeks (ok none) = ok (first_record peeks)

module _ (b : Badger) (p : Proto) where
  -- Node.Get; `peeks` is what the peers answer within the time limit
  unfoldable pub node_get : Bytes → b.State → List (Result PbRecord) → Result (Option AccessRecord)
  unfolding local_or_peers
  node_get key_hash s peeks = local_or_peers peeks (get_record b p key_hash s)

  -- Node.Peek
  unfoldable pub peek : Bytes → b.State → Reply PbRecord
  peek key s = elim (KeyHash.set_bytes key) [
    | err e ↦ reply_of (err e)
    | ok key_hash ↦ reply_of (wrapped Class.badgerauth (lookup_record b p key_hash s))
  ]

  -- one request entry, the state of the database when it is answered, and whether the request has
  -- been canceled by then
  pub record Turn : Type 0 where
    pub entry : RequestEntry
    pub snapshot : b.State
    pub is_canceled : Bool

  -- the loop of Node.Replicate
  unfoldable pub replicate : ℕ → List Turn → Reply (List ResponseEntry)
  replicate limit [] = answer []
  replicate limit (t ∷ turns) =
      let rest = replicate limit turns in
      if t.is_canceled
      then failure RpcStatus.canceled
      else (elim (NodeId.set_bytes t.entry.node_id) [
        | err e ↦ failure RpcStatus.invalid_argument
        | ok id ↦ elim (find_response_entries b p limit id t.entry.clock t.snapshot) [
          | err e ↦ failure RpcStatus.internal
          | ok entries ↦ elim rest [
            | answer more ↦ answer (entries ++ more)
            | failure status ↦ failure status
          ]
        ]
      ])

-- what a peer's connection does: the error of dialing, and the answers to Ping and Replicate
pub record Remote : Type 0 where
  pub dial_error : Option Error
  pub ping : Result Bytes
  pub replicate : List RequestEntry → Result (List ResponseEntry)

-- what Sync changes: the database, and the peer's fields ensuredClock and status.LastWasUp
pub record PeerState (S : Type 0) : Type 0 where
  pub db : S
  pub ensured_clock : Bool
  pub last_was_up : Bool

-- IgnoreDialFailures
unfoldable pub ignore_dial_failures : Option Error → Option Error
ignore_dial_failures none = none
ignore_dial_failures (some e) = if has Class.dial e then none else some e

-- `txn` runs a transaction with its retries on the database.
module _ (b : Badger) (p : Proto) (cfg : Config)
    (txn : (b.State → Result b.State) → b.State → Result b.State) where
  -- the part of pingClient behind the check of the id: the clock of the peer is ensured once
  unfoldable pub ensure_peer_clock : Bytes → PeerState b.State → Result Bool × PeerState b.State
  ensure_peer_clock id peer =
      if peer.ensured_clock
      then (ok true, peer)
      else (elim (wrapped Class.badgerauth (txn (Clock.ensure_clock b id) peer.db)) [
        | err e ↦ (err (wrap Class.badgerauth e), peer)
        | ok s ↦ (ok true, record peer { db = s; ensured_clock = true })
      ])

  -- pingClient
  unfoldable pub ping_client : Remote → PeerState b.State → Result Bool × PeerState b.State
  unfolding ensure_peer_clock
  ping_client remote peer = elim remote.ping [
    | err e ↦ (ok false, record peer { last_was_up = false })
    | ok answered ↦ elim (NodeId.set_bytes answered) [
      | err e ↦ (ok false, record peer { last_was_up = false })
      | ok id ↦
          if eq_bytes id cfg.id
          then (err (wrap Class.badgerauth message), record peer { last_was_up = true })
          else ensure_peer_clock id (record peer { last_was_up = true })
    ]
  ]

  -- syncRecords, which logs every error and returns none
  unfoldable pub sync_records : Remote → b.State → b.State
  sync_records remote s = elim (build_request_entries b cfg s) [
    | err e ↦ s
    | ok request ↦ elim (remote.replicate request) [
      | err e ↦ s
      | ok response ↦
          elim (wrapped Class.badgerauth (txn (Records.insert_response_entries b p response) s)) [
            | err e ↦ s
            | ok t ↦ t
          ]
    ]
  ]

  -- what Sync does with the answer of pingClient
  unfoldable pub after_ping :
      Remote → Result Bool × PeerState b.State → Option Error × PeerState b.State
  after_ping remote (err e, peer) = (some e, peer)
  after_ping remote (ok false, peer) = (none, peer)
  after_ping remote (ok true, peer) = (none, record peer { db = sync_records remote peer.db })

  -- Sync; an error of dialing marks the peer as down
  unfoldable pub sync : Remote → PeerState b.State → Option Error × PeerState b.State
  unfolding ping_client sync_records after_ping
  sync remote peer = elim remote.dial_error [
    | some e ↦ (some (wrap Class.dial e), record peer { last_was_up = false })
    | none ↦ after_ping remote (ping_client remote peer)
  ]

  -- a peer and its own fields, beside the database that all peers share
  pub record Link : Type 0 where
    pub remote : Remote
    pub ensured_clock : Bool
    pub last_was_up : Bool

  -- the link after a round of Sync
  abbrev pub linked : Remote → PeerState b.State → Link
  linked remote peer = record {
    remote = remote;
    ensured_clock = peer.ensured_clock;
    last_was_up = peer.last_was_up;
  }

  -- syncAll, which stops at the first error that is not one of dialing
  unfoldable pub sync_all : List Link → b.State → Option Error × b.State × List Link
  unfolding sync ignore_dial_failures
  sync_all [] s = (none, s, [])
  sync_all (l ∷ links) s =
      let round =
        sync l.remote
          (record { db = s; ensured_clock = l.ensured_clock; last_was_up = l.last_was_up }) in
      let rest = sync_all links round.1.db in
      elim (ignore_dial_failures round.0) [
        | some e ↦ (some (wrap Class.badgerauth e), round.1.db, linked l.remote round.1 ∷ links)
        | none ↦ (rest.0, rest.1, linked l.remote round.1 ∷ rest.2)
      ]

  -- Ping
  abbrev pub ping : Bytes
  ping = cfg.id

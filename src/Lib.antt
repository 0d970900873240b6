-- ===== src/Lib.antt =====
-- The authentication service of gateway-mt with its HTTP and DRPC servers, its client, the reading of
-- the access key from S3 requests, a lock on an object store, the TXT records of linksharing, and the
-- limiter and the trusted addresses that the servers share.
--
-- The auth service keeps access grants, encrypted, in a database that several nodes replicate. A
-- request to store a grant goes to authdb.Database, which encrypts it and puts a record under a hash
-- of the access key into a KV. It comes from the HTTP server (httpauth) or the DRPC server (drpcauth),
-- and the gateway asks for it with authclient, under the access key that the middleware finds in an S3
-- request. The KV is a badgerauth.Node, which stores the record in its BadgerDB with an entry in a
-- replication log, and pulls the records of its peers by their clocks.
--
-- Parts, with paths from the root of the repository:
--
--   pkg/auth/badgerauth, in Badgerauth:
--   NodeId (nodeid.go), Clock (clock.go), LogEntry (replication_log.go: ReplicationLogEntry), Proto
--   (util.go and the stored record of pb/badgerauth.proto): the keys and values of the database.
--   Records (db.go): the transactions InsertRecord, lookupRecordWithTxn, findResponseEntries,
--   insertResponseEntries, updateRecord, deleteRecord. A transaction is a function from the state
--   that it sees to an error or the state with its writes.
--   Txn (db.go: txnWithBackoff): the attempts of a transaction, each with its snapshot and the
--   answers of the engine and of the context, over the delays of Backoff (pkg/backoff/backoff.go).
--   Db (db.go: OpenDB, prepare, PutAtTime, Get, PingDB, buildRequestEntries and the operations that
--   run the transactions).
--   Rpc and Node (node.go: Get, Peek, Replicate, pingClient, syncRecords, Sync), Node.Store (the node
--   as a KV), Node.Invalidated, Admin (admin.go).
--   Consistent says when a database is consistent; Records.Steps, Records.Insert, Records.Delete,
--   Records.Update, Consistent, Delta, Response, CatchUp, Txn.Retry, Db.RoundTrip, Db.Clocks and
--   Admin.Effects hold the proofs. Tests holds concrete runs.
--
--   pkg/auth/authdb, in Authdb: KeyHash, Record and Kv (kv.go), EncryptionKey, Expiration and Database
--   (db.go). Kv is the interface that Database takes and that Badgerauth.Node.Store fills. Base32
--   is the encoding that EncryptionKey prints keys in.
--
--   pkg/auth/httpauth, in HttpAuth: Mux (mux.go: Method, Dir, Arg, shift), Resources (resources.go:
--   the resources, each a function from a request and the state to an answer and a state), Routes
--   (where the routes lead), Registration and Buckets (whole requests, one after the other).
--
--   pkg/auth/drpcauth/server.go, in DrpcAuth: RegisterAccess.
--
--   pkg/authclient, in AuthClient: Resolve (authclient.go), Retries (its loop), Cache (cache.go and
--   ResolveWithCache), Caching.
--
--   pkg/server/middleware/credentials.go, in Middleware: Splitting (what it uses of regular
--   expressions and of package strings), Errors, Credentials (the parsers), AccessKey (GetAccessKeyID
--   and the middleware), RoundTrip, Header, Failures.
--
--   pkg/server/middleware/body_cache.go, in BodyCache; Rereading says what is read of it.
--
--   pkg/gcslock, in GcsLock: Ops (gcsops/gcsops.go: the answers of the service, combineLists), Lists,
--   Mutex (gcslock.go: Lock as a loop over rounds), Locking, Clients (the requests of several clients
--   as steps), Exclusion, Deletions, Theft.
--
--   pkg/server/middleware/limiter.go, in Limiter: the sections of Limit under its lock as steps.
--
--   pkg/trustedip/trustedip.go, in TrustedIp: the list of trusted addresses, GetClientIP and stripPort.
--
--   pkg/linksharing/sharing, in Sharing: queryFlagLookup (utils.go); in MutexGroup: the group of named
--   mutexes (utils.go) as steps, Counts, Exclusion; in TxtRecords: the set of TXT records
--   (txtrecordset.go, dns.go), Numbered, Cache (txtrecords.go), Fetching.
--
-- Prelude and Errs hold shared types, helpers and lemmas; Errs models errors as values with their
-- classes and without their texts.
--
-- Parameters: BadgerDB (Badger, with its promises in IsEngine, which the engine of Badger.Memory
-- meets), the encoding of stored records (Proto.Proto), what peers answer over the network, the
-- parsing, hashing and encryption that Authdb.Database takes from libraries, the parsing of times and
-- of forms in Middleware, the DNS server and the parsing of grants in TxtRecords.Cache,
-- strings.ToLower, the encryption and the LRU cache of AuthClient.Cache, and the bucket of
-- GcsLock.Clients with what the documentation of Cloud Storage says of preconditions (IsBucket, which
-- the bucket of GcsLock.Theft meets).
--
-- Bounds: a clock is a 64-bit number and wraps around; the theorems that need it say that it does
-- not overflow. Delays are 64-bit integers as the numbers that their bits spell, and they do not
-- overflow while the maximum is below 2^62 ns, which is 146 years. The loop of txnWithBackoff runs
-- over the list of its attempts instead of on fuel: `none` says that it goes on after them, and
-- Txn.Retry shows how many attempts are enough. The loops of Resolve and of Lock run over lists of
-- rounds in the same way. The loop over the fields of a V4 header runs on fuel, the length of the
-- header, which Middleware.Header.put_fields-enough shows to be enough. The digits of a number and
-- the loop of Lookup over numbered fields run on fuel too, the number and the count of the fields,
-- which TxtRecords.Numbered shows to be enough. All other loops run over lists.
--
-- Not modelled: the text of errors, logging and metrics; the collection of the value log, backups,
-- the start and the end of processes; the connections of the HTTP and DRPC servers; the S3 gateway
-- and linksharing except for the parts above. The engine's clock stands still within an operation.
pub mod Prelude
pub mod Errs
pub mod Backoff
pub mod Badger
pub mod Authdb
pub mod Badgerauth
pub mod Limiter
pub mod GcsLock
pub mod HttpAuth
pub mod DrpcAuth
pub mod TrustedIp
pub mod Sharing
pub mod Middleware
pub mod AuthClient
pub mod TxtRecords
pub mod MutexGroup
pub mod BodyCache

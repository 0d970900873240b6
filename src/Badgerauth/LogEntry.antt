-- ===== src/Badgerauth/LogEntry.antt =====
-- pkg/auth/badgerauth/replication_log.go: the key of a replication log entry.
pub mod Order
use gateway_mt.Prelude.{
  ℕ, ◌+◌, ◌*◌, ◌^◌, ◌<◌, ◌++◌, [], ◌≡◌, refl, true, false, sym, ap, ◌∙◌, Bool, length,
  length-append, take, drop, take-append, drop-append, arith, ◌==◌, if◌then◌else◌, append-nil,
}
use gateway_mt.Prelude.Bytes.{Bytes, put_be, get_be, length-put_be, get_be-put_be, is_prefix}
use gateway_mt.Prelude.Text.{codes}
use gateway_mt.Errs.{Class, message, wrap, Result, ok, err, ◌>>=◌, wrapped}
use gateway_mt.Badgerauth.NodeId
use gateway_mt.Badgerauth.NodeId.{fill_32_exact}
use gateway_mt.Badgerauth.Clock.{
  u64_mod, make_clock_key, clock_of, clock_bytes, clock_of-clock_bytes,
}

abbrev pub separator : Bytes
separator = codes "/"

abbrev pub log_prefix : Bytes
log_prefix = codes "replication_log" ++ separator

-- lenReplicationLogEntry
abbrev pub len_log_entry : ℕ
len_log_entry = length log_prefix + 3 * length separator + 32 + 32 + 8 + 4

-- ReplicationLogEntry; the state is an int32, kept as its 32 bits
pub record LogEntry : Type 0 where
  pub id : Bytes
  pub clock : ℕ
  pub key_hash : Bytes
  pub state : ℕ

-- the sizes of the fields of the source's arrays and machine integers
pub record IsSized (e : LogEntry) : Type 0 where
  pub id_size : length e.id ≡ 32
  pub key_size : length e.key_hash ≡ 32
  pub clock_size : e.clock < u64_mod
  pub state_size : e.state < 2 ^ 32

-- ReplicationLogEntry.Bytes
unfoldable pub entry_bytes : LogEntry → Bytes
unfolding clock_bytes
entry_bytes e =
    log_prefix
    ++ (e.id
        ++ (separator
            ++ (clock_bytes e.clock
                ++ (separator ++ (e.key_hash ++ (separator ++ put_be 4 e.state))))))

-- ReplicationLogEntry.SetBytes
unfoldable pub log_entry_of : Bytes → Result LogEntry
log_entry_of entry =
    if length entry == len_log_entry
    then (let entry1 = drop (length log_prefix) entry in
        let id_bytes = take 32 entry1 in
        let entry2 = drop (length separator) (drop 32 entry1) in
        let clock_part = take 8 entry2 in
        let entry3 = drop (length separator) (drop 8 entry2) in
        let key_hash = take 32 entry3 in
        let state_bytes = drop (length separator) (drop 32 entry3) in
        do
          clock ← wrapped Class.replication_log (clock_of clock_part)
          id ← wrapped Class.replication_log (NodeId.set_bytes id_bytes)
          ok (record { id = id; clock = clock; key_hash = key_hash; state = get_be state_bytes }))
    else err (wrap Class.replication_log message)

-- makeIterationStartKey
unfoldable pub make_iteration_start_key : Bytes → ℕ → Bytes
unfolding clock_bytes
make_iteration_start_key id clock = log_prefix ++ (id ++ (separator ++ clock_bytes clock))

pub length-entry_bytes : (e : LogEntry) → IsSized e → length (entry_bytes e) ≡ 95
unfolding entry_bytes
length-entry_bytes e z =
    let l1 = length-put_be 4 e.state in
    let l2 = length-append e.key_hash (separator ++ put_be 4 e.state) in
    let l3 = length-put_be 8 e.clock in
    let l4 =
      length-append (put_be 8 e.clock)
        (separator ++ (e.key_hash ++ (separator ++ put_be 4 e.state))) in
    let l5 = length-append e.id (
      separator
      ++ (put_be 8 e.clock ++ (separator ++ (e.key_hash ++ (separator ++ put_be 4 e.state))))) in
    omega (arith, z.id_size, z.key_size)

-- A replication log entry whose fields have the sizes of their types is read back by SetBytes from
-- what Bytes makes of it.
pub log_entry_of-entry_bytes : (e : LogEntry) → IsSized e → log_entry_of (entry_bytes e) ≡ ok e
unfolding log_entry_of entry_bytes NodeId.set_bytes
log_entry_of-entry_bytes e z =
    let sized : length (entry_bytes e) ≡ 95 = length-entry_bytes e z in
    let z2 : Bytes = separator ++ put_be 4 e.state in
    let z1 : Bytes = separator ++ (e.key_hash ++ z2) in
    let z0 : Bytes = separator ++ (put_be 8 e.clock ++ z1) in
    let ti : take 32 (e.id ++ z0) ≡ e.id = take-append 32 e.id z0 z.id_size in
    let di : drop 32 (e.id ++ z0) ≡ z0 = drop-append 32 e.id z0 z.id_size in
    let tc : take 8 (put_be 8 e.clock ++ z1) ≡ put_be 8 e.clock =
      take-append 8 (put_be 8 e.clock) z1 (length-put_be 8 e.clock) in
    let dc : drop 8 (put_be 8 e.clock ++ z1) ≡ z1 =
      drop-append 8 (put_be 8 e.clock) z1 (length-put_be 8 e.clock) in
    let tk : take 32 (e.key_hash ++ z2) ≡ e.key_hash = take-append 32 e.key_hash z2 z.key_size in
    let dk : drop 32 (e.key_hash ++ z2) ≡ z2 = drop-append 32 e.key_hash z2 z.key_size in
    let c : clock_of (put_be 8 e.clock) ≡ ok e.clock = clock_of-clock_bytes e.clock z.clock_size in
    let i : NodeId.set_bytes e.id ≡ ok e.id = fill_32_exact Class.node_id e.id z.id_size in
    let st : get_be (put_be 4 e.state) ≡ e.state = get_be-put_be 4 e.state z.state_size in
    rw sized (simp (ti, di, tc, dc, tk, dk, c, i, st))

pub entry_bytes_injective :
    (e f : LogEntry) → IsSized e → IsSized f → entry_bytes e ≡ entry_bytes f → e ≡ f
entry_bytes_injective e f ze zf h =
    cc (log_entry_of-entry_bytes e ze, log_entry_of-entry_bytes f zf, ap log_entry_of h)

-- Neither a clock's key nor one of another length is taken for a log entry.
pub is_prefix-log_prefix_clock : (id : Bytes) → is_prefix log_prefix (make_clock_key id) ≡ false
unfolding is_prefix make_clock_key
is_prefix-log_prefix_clock id = refl

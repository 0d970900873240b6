-- ===== src/Badgerauth/Response.antt =====
-- What insertResponseEntries of db.go leaves behind: the replication step of the requesting node.
use gateway_mt.Prelude.{
  ℕ, suc, ◌+◌, ◌<◌, ◌≡◌, refl, sym, ap, ◌∙◌, Bool, false, List, [], ◌∷◌, length, All, arith,
  Bool-cases, inl, inr, if◌then◌else◌,
}
use mathlib.Core.Path.{subst}
use gateway_mt.Prelude.Bytes.{Bytes, eq_bytes, is_prefix}
use gateway_mt.Prelude.Bytes.Order.{eq_bytes_sound}
use gateway_mt.Errs.{Class, Result, ok, err, >>=-eq-ok}
use gateway_mt.Badger.{Badger, IsEngine}
use gateway_mt.Authdb.KeyHash
use gateway_mt.Badgerauth.NodeId
use gateway_mt.Badgerauth.NodeId.{length-fill_32}
use native.Mathlib.Nat.{add_assoc}
use gateway_mt.Badgerauth.Clock.{u64_mod, make_clock_key, current_clock}
use gateway_mt.Badgerauth.LogEntry.{log_prefix}
use gateway_mt.Badgerauth.Proto.{PbRecord, Proto, IsCodec}
use gateway_mt.Badgerauth.Records.{
  ResponseEntry, insert_expiry, check_duplicate, lookup_record, insert_record,
  insert_response_entries,
}
use gateway_mt.Badgerauth.Records.Steps.{insert_record-Steps}
use gateway_mt.Badgerauth.Records.Insert.{IsInserted, next_clock, insert_record-IsInserted}
use gateway_mt.Badgerauth.Consistent.{IsConsistent}
use gateway_mt.Badgerauth.Consistent.Insert.{lookup-other, clock-other, kept}

-- whether a result is a given id
abbrev is_id : Result Bytes → Bytes → Bool
is_id (ok i) id = eq_bytes i id
is_id (err e) id = false

-- how many entries of a response come from a node
abbrev pub count_from : Bytes → List ResponseEntry → ℕ
count_from id [] = 0
count_from id (a ∷ entries) =
    (if is_id (NodeId.set_bytes a.node_id) id then 1 else 0) + count_from id entries

-- the clock of a node, as advanceClock reads it
abbrev pub HasClock : (b : Badger) → b.State → Bytes → ℕ → Type 0
HasClock b s id c = current_clock b (b.get (make_clock_key id) s) ≡ ok c

module _ (b : Badger) (p : Proto) where
  -- what a response entry has to meet: it has not expired, and its key hash is not taken for a key
  -- of the log
  abbrev pub IsFresh : ResponseEntry → Type 0
  IsFresh a =
      (b.is_expired (insert_expiry a.entry_record) ≡ false)
      × ((k : Bytes)
          → KeyHash.set_bytes a.encryption_key_hash ≡ ok k
          → is_prefix log_prefix k ≡ false)

  pub record IsReplicated (entries : List ResponseEntry) (s t : b.State) : Type 0 where
    pub consistent : IsConsistent b p t
    -- Every clock goes up by the number of the node's entries.
    pub clocks :
        (id : Bytes) (c : ℕ)
        → length id ≡ 32
        → HasClock b s id c
        → HasClock b t id (c + count_from id entries)
    -- Every record of the response is there.
    pub stored :
        All
          (λ a.
            (k : Bytes)
            → KeyHash.set_bytes a.encryption_key_hash ≡ ok k
            → lookup_record b p k t ≡ ok a.entry_record)
          entries
    -- What was stored before is as it was.
    pub kept_records :
        (k : Bytes) (q : PbRecord)
        → length k ≡ 32
        → lookup_record b p k s ≡ ok q
        → lookup_record b p k t ≡ ok q

module _ (b : Badger) (p : Proto) (engine : IsEngine b) (codec : IsCodec p) where
  -- The sanity check lets a stored record be replaced by an equal one only.
  check_duplicate-eq :
      (k : Bytes) (r q : PbRecord) (s : b.State)
      → lookup_record b p k s ≡ ok q
      → check_duplicate b p r (b.get k s) ≡ ok tt
      → r ≡ q
  unfolding lookup_record check_duplicate
  check_duplicate-eq k r q s found checked = ground (arith, codec.equal_iff r q)

  module _ (node key_hash : Bytes) (r : PbRecord) (s t : b.State) (hn : length node ≡ 32)
      (hk : length key_hash ≡ 32) (live : b.is_expired (insert_expiry r) ≡ false)
      (below : (c : ℕ) → HasClock b s node c → c + 1 < u64_mod) (old : IsConsistent b p s)
      (done : insert_record b p node key_hash r s ≡ ok t) where
    abbrev inserted : IsInserted b p node key_hash r s t
    inserted = insert_record-IsInserted b p engine codec node key_hash r s t hn hk live done

    -- InsertRecord changes no stored record.
    pub lookup-insert_record :
        (k : Bytes) (q : PbRecord)
        → length k ≡ 32
        → lookup_record b p k s ≡ ok q
        → lookup_record b p k t ≡ ok q
    lookup-insert_record k q hl found = elim (Bool-cases (eq_bytes key_hash k)) [
      | inl same ↦
          let here = eq_bytes_sound key_hash k same in
          let w = insert_record-Steps b p node key_hash r s t done in
          let equal =
            check_duplicate-eq key_hash r q s
              (subst (λ j. lookup_record b p j s ≡ ok q) (sym here) found) w.checked in
          subst (λ j. lookup_record b p j t ≡ ok q) here (inserted.stored ∙ ap ok equal)
      | inr other ↦
          lookup-other b p node key_hash r s t hn hk inserted
            (below inserted.clock inserted.clock_before) old k hl other
          ∙ found
    ]

    pub clock-insert_record :
        (id : Bytes) (c : ℕ)
        → length id ≡ 32
        → HasClock b s id c
        → HasClock b t id (c + (if eq_bytes node id then 1 else 0))
    clock-insert_record id c hl read = elim (Bool-cases (eq_bytes node id)) [
      | inl same ↦
          let here = eq_bytes_sound node id same in
          let mine : HasClock b s node c = subst (λ i. HasClock b s i c) (sym here) read in
          let agree : inserted.clock ≡ c = cc (inserted.clock_before, mine) in
          let up : next_clock inserted.clock ≡ c + 1 =
            omega (arith, below inserted.clock inserted.clock_before) in
          rw same (subst (λ i. HasClock b t i (c + 1)) here (inserted.clock_after ∙ ap ok up))
      | inr other ↦
          let g =
            clock-other b p node key_hash r s t hn hk inserted
              (below inserted.clock inserted.clock_before) old id hl other in
          rw other (ap (current_clock b) g ∙ read ∙ ap ok (omega arith))
    ]

    -- Clocks stay away from the wrap-around by one less.
    bound_after :
        (n : ℕ)
        → ((id : Bytes) (c : ℕ) → length id ≡ 32 → HasClock b s id c → c + suc n < u64_mod)
        → (id : Bytes) (c : ℕ) → length id ≡ 32
        → HasClock b t id c
        → c + n < u64_mod
    bound_after n bound id c hl read = elim (Bool-cases (eq_bytes node id)) [
      | inl same ↦
          let here = eq_bytes_sound node id same in
          let mine : HasClock b t node c = subst (λ i. HasClock b t i c) (sym here) read in
          let agree : next_clock inserted.clock ≡ c = cc (inserted.clock_after, mine) in
          let far = bound node inserted.clock hn inserted.clock_before in omega arith
      | inr other ↦
          let g =
            clock-other b p node key_hash r s t hn hk inserted
              (below inserted.clock inserted.clock_before) old id hl other in
          omega (arith, bound id c hl (sym (ap (current_clock b) g) ∙ read))
    ]

    IsConsistent-after : is_prefix log_prefix key_hash ≡ false → IsConsistent b p t
    IsConsistent-after plain =
        kept b p node key_hash r s t hn hk inserted (below inserted.clock inserted.clock_before) old
          plain

    -- one inserted entry, and then the others
    IsReplicated-cons :
        (a : ResponseEntry) (entries : List ResponseEntry) (v : b.State)
        → a.entry_record ≡ r
        → NodeId.set_bytes a.node_id ≡ ok node
        → KeyHash.set_bytes a.encryption_key_hash ≡ ok key_hash
        → IsReplicated b p entries t v
        → IsReplicated b p (a ∷ entries) s v
    IsReplicated-cons a entries v same origin hash rest = record {
      consistent = rest.consistent;
      clocks = λ id c hl read. rw origin (
          rest.clocks id (c + (if eq_bytes node id then 1 else 0)) hl
            (clock-insert_record id c hl read)
          ∙ ap ok (add_assoc c (if eq_bytes node id then 1 else 0) (count_from id entries)));
      stored = (
        (λ k e.
            let agree : key_hash ≡ k = cc (hash, e) in
            subst (λ j. lookup_record b p j v ≡ ok a.entry_record) agree
              (rest.kept_records key_hash a.entry_record hk (inserted.stored ∙ ap ok (sym same)))),
        rest.stored,
      );
      kept_records = λ k q hl found. rest.kept_records k q hl (lookup-insert_record k q hl found);
    }

  -- If insertResponseEntries succeeds on a consistent database whose clocks leave room for the
  -- entries, with entries that have not expired and whose key hashes do not look like keys of the
  -- log, then it leaves a consistent database with every record of the response and every record
  -- that was there, and each node's clock is up by the number of its entries.
  pub insert_response_entries-IsReplicated :
      (entries : List ResponseEntry) (s t : b.State)
      → IsConsistent b p s
      → All (IsFresh b p) entries
      → ((id : Bytes) (c : ℕ) → length id ≡ 32 → HasClock b s id c → c + length entries < u64_mod)
      → insert_response_entries b p entries s ≡ ok t
      → IsReplicated b p entries s t
  unfolding insert_response_entries NodeId.set_bytes KeyHash.set_bytes
  insert_response_entries-IsReplicated [] s t old fresh bound h =
      let same : s ≡ t = cc in
      record {
        consistent = subst (IsConsistent b p) same old;
        clocks =
            λ id c hl read. subst (λ u. HasClock b u id (c + 0)) same (read ∙ ap ok (omega arith));
        stored = tt;
        kept_records = λ k q hl found. subst (λ u. lookup_record b p k u ≡ ok q) same found;
      }
  insert_response_entries-IsReplicated (a ∷ entries) s t old ((live, plain), fresh) bound h =
      let (node, origin, h1) = >>=-eq-ok (NodeId.set_bytes a.node_id) _ h in
      let (key_hash, hash, h2) = >>=-eq-ok (KeyHash.set_bytes a.encryption_key_hash) _ h1 in
      let (u, done, h3) = >>=-eq-ok (insert_record b p node key_hash a.entry_record s) _ h2 in
      let hn = length-fill_32 Class.node_id a.node_id node origin in
      let hk = length-fill_32 Class.key_hash a.encryption_key_hash key_hash hash in
      let below : (c : ℕ) → HasClock b s node c → c + 1 < u64_mod =
        λ c read. omega (arith, bound node c hn read) in
      IsReplicated-cons node key_hash a.entry_record s u hn hk live below old done a entries t refl
        origin hash
        (insert_response_entries-IsReplicated entries u t
          (IsConsistent-after node key_hash a.entry_record s u hn hk live below old done
            (plain key_hash hash))
          fresh
          (bound_after node key_hash a.entry_record s u hn hk live below old done (length entries)
            bound)
          h3)

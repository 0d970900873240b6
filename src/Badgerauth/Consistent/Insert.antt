-- ===== src/Badgerauth/Consistent/Insert.antt =====
-- InsertRecord keeps a database consistent.
use gateway_mt.Prelude.{
  ℕ, ◌+◌, ◌<◌, ◌≤◌, ◌≡◌, sym, ap, ◌∙◌, true, false, length, arith, Bool-cases, inl, inr,
}
use mathlib.Core.Path.{subst}
use gateway_mt.Prelude.Bytes.{Bytes, eq_bytes, is_prefix}
use gateway_mt.Prelude.Bytes.Order.{eq_bytes_refl, eq_bytes_sound, eq_bytes_lengths, eq_bytes_ne}
use gateway_mt.Errs.{ok, is_ok}
use gateway_mt.Badger.{Badger, IsEngine}
use gateway_mt.Badgerauth.Clock.{
  u64_mod, make_clock_key, current_clock, length-make_clock_key, make_clock_key_injective,
}
use gateway_mt.Badgerauth.LogEntry.{
  LogEntry, IsSized, log_prefix, entry_bytes, length-entry_bytes, entry_bytes_injective,
  is_prefix-log_prefix_clock,
}
use gateway_mt.Badgerauth.Proto.{PbRecord, Proto, IsCodec}
use gateway_mt.Badgerauth.Records.{insert_expiry, lookup_record, insert_record}
use gateway_mt.Badgerauth.Records.Insert.{
  new_entry, new_entry-IsSized, next_clock, IsInserted, insert_record-IsInserted,
}
use gateway_mt.Badgerauth.Consistent.{IsLogged, IsConsistent}

module _ (b : Badger) (p : Proto) (node key_hash : Bytes) (r : PbRecord) (s t : b.State)
    (hn : length node ≡ 32) (hk : length key_hash ≡ 32) (ins : IsInserted b p node key_hash r s t)
    (below : ins.clock + 1 < u64_mod) (old : IsConsistent b p s) where
  abbrev fresh : LogEntry
  fresh = new_entry node ins.clock key_hash

  fresh-IsSized : IsSized fresh
  fresh-IsSized = new_entry-IsSized node ins.clock key_hash hn hk

  -- a log entry other than the new one is as it was
  get-other_entry :
      (e : LogEntry)
      → IsSized e
      → eq_bytes (entry_bytes fresh) (entry_bytes e) ≡ false
      → b.get (entry_bytes e) t ≡ b.get (entry_bytes e) s
  get-other_entry e z other =
      let len = length-entry_bytes e z in
      let lc = length-make_clock_key node hn in
      ins.others (entry_bytes e) (eq_bytes_lengths _ _ (omega arith))
        (eq_bytes_lengths _ _ (omega arith)) other

  -- and so is a record under another key hash
  pub lookup-other :
      (k : Bytes)
      → length k ≡ 32
      → eq_bytes key_hash k ≡ false
      → lookup_record b p k t ≡ lookup_record b p k s
  unfolding lookup_record
  lookup-other k hl other =
      let len = length-entry_bytes fresh fresh-IsSized in
      let lc = length-make_clock_key node hn in
      rw (
        ins.others k other (eq_bytes_lengths _ _ (omega arith))
          (eq_bytes_lengths _ _ (omega arith)))

  -- and the clock of another node
  pub clock-other :
      (id : Bytes)
      → length id ≡ 32
      → eq_bytes node id ≡ false
      → b.get (make_clock_key id) t ≡ b.get (make_clock_key id) s
  clock-other id hl other =
      let len = length-entry_bytes fresh fresh-IsSized in
      let li = length-make_clock_key id hl in
      ins.others (make_clock_key id) (eq_bytes_lengths _ _ (omega arith))
        (eq_bytes_ne _ _
          λ same. ground (arith, make_clock_key_injective node id same, eq_bytes_refl id))
        (eq_bytes_lengths _ _ (omega arith))

  entries_kept :
      is_prefix log_prefix key_hash ≡ false
      → (k : Bytes) → is_prefix log_prefix k ≡ true
      → is_ok (b.get k t) ≡ true
      → (e : LogEntry) × IsSized e × (k ≡ entry_bytes e)
  entries_kept plain k pre there = elim (Bool-cases (eq_bytes (entry_bytes fresh) k)) [
    | inl new ↦ (fresh, fresh-IsSized, sym (eq_bytes_sound _ _ new))
    | inr other ↦
        let nk : eq_bytes key_hash k ≡ false = ground (arith, eq_bytes_sound key_hash k) in
        let nc : eq_bytes (make_clock_key node) k ≡ false =
          ground (arith, eq_bytes_sound (make_clock_key node) k, is_prefix-log_prefix_clock node) in
        old.entries k pre (subst (λ g. is_ok g ≡ true) (ins.others k nk nc other) there)
  ]

  record_kept :
      (e : LogEntry)
      → IsSized e
      → IsLogged b t e
      → (q : PbRecord) × (lookup_record b p e.key_hash t ≡ ok q)
  record_kept e z there = elim (Bool-cases (eq_bytes key_hash e.key_hash)) [
    | inl same ↦ (r, subst (λ k. lookup_record b p k t ≡ ok r) (eq_bytes_sound _ _ same) ins.stored)
    | inr other ↦
        let ne : eq_bytes (entry_bytes fresh) (entry_bytes e) ≡ false = eq_bytes_ne _ _ λ q.
          let same = entry_bytes_injective fresh e fresh-IsSized z q in
          ground (arith, ap (λ (f : LogEntry). f.key_hash) same, eq_bytes_refl e.key_hash) in
        let (q, found) =
          old.has_record e z (subst (λ g. is_ok g ≡ true) (get-other_entry e z ne) there) in
        (q, lookup-other e.key_hash z.key_size other ∙ found)
  ]

  dominated_kept :
      (e : LogEntry)
      → IsSized e
      → IsLogged b t e
      → (c : ℕ) × (current_clock b (b.get (make_clock_key e.id) t) ≡ ok c) × (e.clock ≤ c)
  dominated_kept e z there = elim (Bool-cases (eq_bytes (entry_bytes fresh) (entry_bytes e))) [
    | inl new ↦
        let same = entry_bytes_injective fresh e fresh-IsSized z (eq_bytes_sound _ _ new) in
        subst
          (λ (f : LogEntry).
            (c : ℕ) × (current_clock b (b.get (make_clock_key f.id) t) ≡ ok c) × (f.clock ≤ c))
          same (next_clock ins.clock, ins.clock_after, omega arith)
    | inr other ↦
        let (c, read, le) =
          old.dominated e z (subst (λ g. is_ok g ≡ true) (get-other_entry e z other) there) in
        elim (Bool-cases (eq_bytes node e.id)) [
          | inl mine ↦
              let same : node ≡ e.id = eq_bytes_sound _ _ mine in
              let agree : c ≡ ins.clock = cc (
                ins.clock_before,
                read,
                ap (λ k. current_clock b (b.get (make_clock_key k) s)) same,
              ) in
              (
                next_clock ins.clock,
                subst
                    (λ k. current_clock b (b.get (make_clock_key k) t) ≡ ok (next_clock ins.clock))
                    same ins.clock_after,
                omega arith,
              )
          | inr foreign ↦ (c, ap (current_clock b) (clock-other e.id z.id_size foreign) ∙ read, le)
        ]
  ]

  pub kept : is_prefix log_prefix key_hash ≡ false → IsConsistent b p t
  kept plain = record {
    entries = entries_kept plain;
    has_record = record_kept;
    dominated = dominated_kept;
  }

-- If InsertRecord succeeds on a consistent database, with an id and a key hash of 32 bytes, a key
-- hash that does not look like a key of the log, a record that has not expired and a clock of the
-- node that does not overflow, then the database it leaves is consistent: every key of the log
-- parses, names a record that is there, and is not later than its node's clock.
pub insert_record-IsConsistent :
    (b : Badger) (p : Proto)
    → IsEngine b
    → IsCodec p
    → (node key_hash : Bytes) (r : PbRecord) (s t : b.State) → length node ≡ 32
    → length key_hash ≡ 32
    → is_prefix log_prefix key_hash ≡ false
    → b.is_expired (insert_expiry r) ≡ false
    → ((c : ℕ) → current_clock b (b.get (make_clock_key node) s) ≡ ok c → c + 1 < u64_mod)
    → IsConsistent b p s
    → insert_record b p node key_hash r s ≡ ok t
    → IsConsistent b p t
insert_record-IsConsistent b p engine codec node key_hash r s t hn hk plain live below old h =
    let ins = insert_record-IsInserted b p engine codec node key_hash r s t hn hk live h in
    kept b p node key_hash r s t hn hk ins (below ins.clock ins.clock_before) old plain

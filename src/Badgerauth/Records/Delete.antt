-- ===== src/Badgerauth/Records/Delete.antt =====
-- What deleteRecord and deleteReplicationLogEntries leave behind (db.go).
use gateway_mt.Prelude.{
  ◌≡◌, ◌≢◌, sym, ap, ◌∙◌, Bool, true, false, ◌&&◌, List, [], ◌∷◌, length, if◌then◌else◌, arith,
  Bool-cases, inl, inr,
}
use gateway_mt.Prelude.Bytes.{Bytes, eq_bytes, leb_bytes, is_prefix}
use gateway_mt.Prelude.Bytes.Order.{eq_bytes_refl, eq_bytes_sound}
use gateway_mt.Errs.{Result, ok, err, is_ok, badger, key_not_found, >>=-eq-ok}
use gateway_mt.Badger.{Item, Badger, IsEngine, contains}
use gateway_mt.Badgerauth.LogEntry.{
  LogEntry, IsSized, log_prefix, entry_bytes, log_entry_of, log_entry_of-entry_bytes,
}
use gateway_mt.Badgerauth.LogEntry.Order.{is_prefix-log_entry}
use gateway_mt.Badgerauth.Records.{delete_entries, delete_replication_log_entries, delete_record}
use gateway_mt.Badgerauth.Records.Steps.{both-eq-ok}

-- whether a parsed key belongs to a record
abbrev pub names_hash : Result LogEntry → Bytes → Bool
names_hash (ok e) key_hash = eq_bytes e.key_hash key_hash
names_hash (err e) key_hash = false

-- whether a key is that of a log entry of a record
pub concerns : Bytes → Bytes → Bool
concerns key_hash k = names_hash (log_entry_of k) key_hash

pub concerns_of_length : (key_hash k : Bytes) → length k ≢ 95 → concerns key_hash k ≡ false
unfolding concerns log_entry_of
concerns_of_length key_hash k h = ground arith

abbrev pub gone : Result Item
gone = err (badger key_not_found)

pub concerns-entry_bytes :
    (key_hash : Bytes) (e : LogEntry)
    → IsSized e
    → concerns key_hash (entry_bytes e) ≡ eq_bytes e.key_hash key_hash
unfolding concerns
concerns-entry_bytes key_hash e z = rw (log_entry_of-entry_bytes e z)

module _ (b : Badger) (engine : IsEngine b) where
  -- one round of the loop
  get-delete_round :
      (sought j : Bytes) (e : LogEntry) (s u : b.State)
      → log_entry_of j ≡ ok e
      → (if eq_bytes e.key_hash sought then b.delete j s else ok s) ≡ ok u
      → (k : Bytes) → b.get k u ≡ (if eq_bytes j k && concerns sought k then gone else b.get k s)
  unfolding concerns
  get-delete_round sought j e s u parsed cut k = elim (Bool-cases (eq_bytes j k)) [
    | inl same ↦
        let parsed' : log_entry_of k ≡ ok e =
          sym (ap log_entry_of (eq_bytes_sound j k same)) ∙ parsed in
        rw (same, parsed') (ground (arith, engine.get-delete j k s u, same))
    | inr other ↦ rw other (ground (arith, engine.get-delete j k s u, other))
  ]

  get-delete_entries :
      (sought : Bytes) (ks : List Bytes) (s t : b.State)
      → delete_entries b sought ks s ≡ ok t
      → (k : Bytes) → b.get k t ≡ (if contains ks k && concerns sought k then gone else b.get k s)
  unfolding delete_entries
  get-delete_entries sought [] s t h k = ground arith
  get-delete_entries sought (j ∷ ks) s t h k =
      let (e, parsed, h1) = >>=-eq-ok (log_entry_of j) _ h in
      let (u, cut, h2) =
        >>=-eq-ok (if eq_bytes e.key_hash sought then b.delete j s else ok s) _ h1 in
      let round : b.get k u ≡ (if eq_bytes j k && concerns sought k then gone else b.get k s) =
        get-delete_round sought j e s u parsed cut k in
      let rest : b.get k t ≡ (if contains ks k && concerns sought k then gone else b.get k u) =
        get-delete_entries sought ks u t h2 k in
      rest ∙ rw round (join (eq_bytes j k) (contains ks k) (concerns sought k) (b.get k s))
    where
      join :
          (x y z : Bool) (o : Result Item)
          → (if y && z then gone else (if x && z then gone else o))
            ≡ (if (if x then true else y) && z then gone else o)
      join x y z o = ground arith

  get_gone :
      {key_hash : Bytes} (ks : List Bytes) (u t : b.State) (e : LogEntry)
      → IsSized e
      → e.key_hash ≡ key_hash
      → b.get (entry_bytes e) t ≡ (
          if contains ks (entry_bytes e) && concerns key_hash (entry_bytes e)
          then gone
          else b.get (entry_bytes e) u)
      → contains ks (entry_bytes e) ≡ (
          is_prefix log_prefix (entry_bytes e)
          && (leb_bytes [] (entry_bytes e) && is_ok (b.get (entry_bytes e) u)))
      → is_ok (b.get (entry_bytes e) t) ≡ false
  unfolding leb_bytes
  get_gone {key_hash} ks u t e z same after listed = ground (
    arith,
    concerns-entry_bytes key_hash e z,
    is_prefix-log_entry e,
    same,
    eq_bytes_refl e.key_hash,
  )

  -- If the transaction of deleteRecord succeeds, the key hash is not found, no log entry that
  -- names it is left, and every key that is neither the key hash nor that of such an entry is as
  -- it was.
  pub get-delete_record :
      (key_hash : Bytes) (s t : b.State)
      → delete_record b key_hash s ≡ ok t
      → (b.get key_hash t ≡ gone)
        × ((e : LogEntry)
            → IsSized e
            → e.key_hash ≡ key_hash
            → is_ok (b.get (entry_bytes e) t) ≡ false)
        × ((k : Bytes)
            → eq_bytes key_hash k ≡ false
            → concerns key_hash k ≡ false
            → b.get k t ≡ b.get k s)
  unfolding delete_record delete_replication_log_entries
  get-delete_record key_hash s t h =
      let (_, found, h1) = >>=-eq-ok (b.get key_hash s) _ h in
      let (u, cut, h2) =
        both-eq-ok (b.delete key_hash) (delete_replication_log_entries b key_hash) s h1 in
      let g = get-delete_entries key_hash (b.seek log_prefix [] u) u t h2 in
      let d = λ (k : Bytes). engine.get-delete key_hash k s u cut in
      let seek = λ (k : Bytes). engine.contains-seek log_prefix [] k u in
      (
        ground (arith, g key_hash, d key_hash, eq_bytes_refl key_hash),
        (λ e z same.
            get_gone (b.seek log_prefix [] u) u t e z same (g (entry_bytes e))
              (seek (entry_bytes e))),
        (λ k n c. rw (g k, c, d k, n) (ground arith)),
      )

  -- What can be read after deleteRecord is what was there before.
  pub kept-delete_record :
      (key_hash : Bytes) (s t : b.State)
      → delete_record b key_hash s ≡ ok t
      → (k : Bytes) → is_ok (b.get k t) ≡ true
      → b.get k t ≡ b.get k s
  unfolding delete_record delete_replication_log_entries
  kept-delete_record key_hash s t h k there =
      let (_, found, h1) = >>=-eq-ok (b.get key_hash s) _ h in
      let (u, cut, h2) =
        both-eq-ok (b.delete key_hash) (delete_replication_log_entries b key_hash) s h1 in
      let g = get-delete_entries key_hash (b.seek log_prefix [] u) u t h2 k in
      let d = engine.get-delete key_hash k s u cut in
      two_steps (contains (b.seek log_prefix [] u) k && concerns key_hash k) (eq_bytes key_hash k) g
        d there
    where
      two_steps :
          (x y : Bool) {a m o : Result Item}
          → a ≡ (if x then gone else m)
          → m ≡ (if y then gone else o)
          → is_ok a ≡ true
          → a ≡ o
      two_steps x y g d there = ground arith

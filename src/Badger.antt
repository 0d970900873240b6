-- ===== src/Badger.antt =====
-- The key-value engine github.com/outcaste-io/badger/v3, which the repository does not hold: its
-- operations as badgerauth calls them, and what its documentation promises of them.
pub mod Memory
use gateway_mt.Prelude.{ℕ, ◌≡◌, Bool, true, false, ◌&&◌, List, [], ◌∷◌, if◌then◌else◌}
use gateway_mt.Prelude.Bytes.{Bytes, eq_bytes, leb_bytes, ltb_bytes, is_prefix}
use gateway_mt.Errs.{Result, ok, err, badger, key_not_found, is_ok}

-- badger.Entry: an `expires_at` of 0 means that the entry never expires
pub record Entry : Type 0 where
  pub key : Bytes
  pub value : Bytes
  pub expires_at : ℕ

-- A badger.Item is what reading its value gives.
abbrev pub Item : Type 0
Item = Result Bytes

-- The state that a transaction sees: its snapshot with its own pending writes. A write returns the
-- new state or fails. `seek prefix start` lists the keys that an iterator with `opt.Prefix = prefix`
-- yields from `it.Seek(start)` on (`it.Rewind()` seeks the empty key). The engine's clock stands
-- still during one operation: `is_expired` says which expiry times have passed.
pub record Badger : Type 1 where
  pub State : Type 0
  pub get : Bytes → State → Result Item
  pub set_entry : Entry → State → Result State
  pub delete : Bytes → State → Result State
  pub seek : Bytes → Bytes → State → List Bytes
  pub is_expired : ℕ → Bool

abbrev pub contains : List Bytes → Bytes → Bool
contains [] k = false
contains (x ∷ xs) k = if eq_bytes x k then true else contains xs k

-- keys in strictly ascending byte order, each before all that follow
abbrev pub IsAscending : List Bytes → Type 0
IsAscending [] = Unit
IsAscending (x ∷ xs) = ((y : Bytes) → contains xs y ≡ true → ltb_bytes x y ≡ true) × IsAscending xs

-- What badgerauth relies on.
pub record IsEngine (b : Badger) : Type 0 where
  -- A written entry is read back, unless it has expired; no other key changes.
  pub get-set_entry :
      (e : Entry) (k : Bytes) (s t : b.State)
      → b.set_entry e s ≡ ok t
      → b.get k t ≡ (
          if eq_bytes e.key k
          then (if b.is_expired e.expires_at then err (badger key_not_found) else ok (ok e.value))
          else b.get k s)
  -- A deleted key is not found; no other key changes.
  pub get-delete :
      (j k : Bytes) (s t : b.State)
      → b.delete j s ≡ ok t
      → b.get k t ≡ (if eq_bytes j k then err (badger key_not_found) else b.get k s)
  -- An iterator yields the keys that can be read, carry its prefix and do not lie before its start.
  pub contains-seek :
      (p q k : Bytes) (s : b.State)
      → contains (b.seek p q s) k ≡ (is_prefix p k && (leb_bytes q k && is_ok (b.get k s)))
  pub seek-IsAscending : (p q : Bytes) (s : b.State) → IsAscending (b.seek p q s)
  pub is_expired-zero : b.is_expired 0 ≡ false

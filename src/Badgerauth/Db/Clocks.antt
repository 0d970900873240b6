-- ===== src/Badgerauth/Db/Clocks.antt =====
-- buildRequestEntries (db.go) against its specification: one entry for each other node whose clock is
-- stored, with that clock.
use gateway_mt.Prelude.{
  ℕ, ◌≡◌, refl, sym, ap, ◌∙◌, Bool, true, false, Option, none, some, List, [], ◌∷◌, length, drop,
  arith, if◌then◌else◌,
}
use mathlib.Core.Path.{subst}
use gateway_mt.Prelude.Bytes.{Bytes, eq_bytes, leb_bytes, is_prefix}
use gateway_mt.Prelude.Bytes.Order.{eq_bytes_sound, eq_bytes_refl}
use gateway_mt.Prelude.Dict
use gateway_mt.Prelude.Dict.{Dict, lookup-insert, lookup-remove}
use gateway_mt.Errs.{Class, Result, ok, err, ◌>>=◌, is_ok}
use gateway_mt.Badger.{Item, Badger, IsEngine, contains}
use gateway_mt.Badgerauth.NodeId
use gateway_mt.Badgerauth.NodeId.{fill_32_exact}
use gateway_mt.Badgerauth.Clock.{clock_prefix, make_clock_key, clock_of}
use gateway_mt.Badgerauth.Db.{
  Config, RequestEntry, read_clocks, read_available_clocks, request_entries, build_request_entries,
}

-- the clock that a stored item holds
abbrev value_clock : Result ℕ → Option ℕ
value_clock (ok c) = some c
value_clock (err e) = none

abbrev pub item_clock : Result Item → Option ℕ
item_clock (ok item) = value_clock (item >>= clock_of)
item_clock (err e) = none

-- the clock that a request asks a node's records from
abbrev pub requested : Bytes → List RequestEntry → Option ℕ
requested id [] = none
requested id (r ∷ request) = if eq_bytes r.node_id id then some r.clock else requested id request

-- the two ways to look up a clock agree
pick :
    (x o : Option ℕ) {c : ℕ} (same later : Bool)
    → (same ≡ true → x ≡ some c)
    → (if later then x else (if same then some c else o))
      ≡ (if (if same then true else later) then x else o)
pick x o true true h = refl
pick x o true false h = sym (h refl)
pick x o false later h = refl

unseen :
    (o : Result Item) (listed : Bool)
    → listed ≡ is_ok o
    → (if listed then item_clock o else none) ≡ item_clock o
unseen (ok item) listed h = rw h
unseen (err e) listed h = rw h

requested-request_entries :
    (id : Bytes) (m : Dict ℕ) → requested id (request_entries m) ≡ Dict.lookup id m
unfolding request_entries Dict.lookup
requested-request_entries id [] = refl
requested-request_entries id ((j, c) ∷ m) = rw (requested-request_entries id m)

module _ (b : Badger) (s : b.State) where
  -- a key of a clock, with the clock that is stored there
  pub record IsClockKey (k : Bytes) : Type 0 where
    pub id : Bytes
    pub size : length id ≡ 32
    pub key : k ≡ make_clock_key id
    pub item : Item
    pub there : b.get k s ≡ ok item
    pub clock : ℕ
    pub value : (item >>= clock_of) ≡ ok clock

  -- What has the prefix of the clocks is the clock of a node.
  abbrev pub HasClockKeys : Type 0
  HasClockKeys =
      (k : Bytes) → is_prefix clock_prefix k ≡ true → is_ok (b.get k s) ≡ true → IsClockKey k

  eq_bytes-make_clock_key :
      (i j : Bytes) → eq_bytes (make_clock_key i) (make_clock_key j) ≡ eq_bytes i j
  unfolding make_clock_key eq_bytes
  eq_bytes-make_clock_key i j = refl

  read_clocks_round :
      (k : Bytes) (ks : List Bytes) (found : Dict ℕ) (h : IsClockKey k)
      → read_clocks b s (k ∷ ks) found ≡ read_clocks b s ks (Dict.insert h.id h.clock found)
  unfolding read_clocks NodeId.set_bytes
  read_clocks_round k ks found h =
      let cut : drop (length clock_prefix) k ≡ h.id =
        unfold make_clock_key in ap (drop (length clock_prefix)) h.key in
      rw (cut, fill_32_exact Class.node_id h.id h.size, h.there, h.value)

  clock_of_key :
      (k : Bytes) (h : IsClockKey k) → item_clock (b.get (make_clock_key h.id) s) ≡ some h.clock
  clock_of_key k h = rw (← h.key, h.there, h.value)

  read_clocks_lem :
      (ks : List Bytes) (found : Dict ℕ)
      → ((k : Bytes) → contains ks k ≡ true → IsClockKey k)
      → (m : Dict ℕ) × (read_clocks b s ks found ≡ ok m)
        × ((id : Bytes)
            → Dict.lookup id m ≡ (
                if contains ks (make_clock_key id)
                then item_clock (b.get (make_clock_key id) s)
                else Dict.lookup id found))
  read_clocks_lem [] found keys = (found, unfold read_clocks in refl, λ id. refl)
  read_clocks_lem (k ∷ ks) found keys =
      let h = keys k (ground (arith, eq_bytes_refl k)) in
      let (m, read, law) =
        read_clocks_lem ks (Dict.insert h.id h.clock found) (λ j c. keys j (ground arith)) in
      (
        m,
        read_clocks_round k ks found h ∙ read,
        λ id.
            let stored = clock_of_key k h in
            let same : eq_bytes k (make_clock_key id) ≡ eq_bytes h.id id =
              ap (λ j. eq_bytes j (make_clock_key id)) h.key ∙ eq_bytes-make_clock_key h.id id in
            rw (law id, lookup-insert h.id id h.clock found, same)
              (pick (item_clock (b.get (make_clock_key id) s)) (Dict.lookup id found)
                (eq_bytes h.id id) (contains ks (make_clock_key id))
                λ q.
                  subst (λ i. item_clock (b.get (make_clock_key i) s) ≡ some h.clock)
                    (eq_bytes_sound h.id id q) stored),
      )

-- From a database in which every key with the prefix of the clocks holds a node's clock,
-- buildRequestEntries answers, and the request names every node with a stored clock but the local
-- one, with that clock, and no other node.
pub build_request_entries_lem :
    (b : Badger)
    → IsEngine b
    → (cfg : Config) (s : b.State) → HasClockKeys b s
    → (out : List RequestEntry) × (build_request_entries b cfg s ≡ ok out)
      × ((id : Bytes)
          → requested id out
            ≡ (if eq_bytes cfg.id id then none else item_clock (b.get (make_clock_key id) s)))
unfolding build_request_entries read_available_clocks
build_request_entries_lem b engine cfg s keys =
    let scanned = b.seek clock_prefix [] s in
    let (m, read, law) = read_clocks_lem b s scanned [] λ k c.
      let g = engine.contains-seek clock_prefix [] k s in keys k (ground arith) (ground arith) in
    (
      request_entries (Dict.remove cfg.id m),
      rw read,
      λ id.
          let listed : contains scanned (make_clock_key id) ≡ is_ok (b.get (make_clock_key id) s) =
            unfold make_clock_key is_prefix leb_bytes in
            engine.contains-seek clock_prefix [] (make_clock_key id) s in
          rw
            (requested-request_entries id (Dict.remove cfg.id m), lookup-remove cfg.id id m, law id)
            (unfold Dict.lookup in rw (unseen (b.get (make_clock_key id) s) _ listed)),
    )

-- ===== src/Badgerauth/Delta.antt =====
-- findResponseEntries of db.go against its specification: from a consistent database it returns the
-- log entries of one node that are later than a clock, with their records, oldest first, and as many
-- of them as the limit allows.
use gateway_mt.Prelude.{
  ℕ, ◌+◌, ◌<◌, ◌≤◌, ◌++◌, ◌%◌, ◌⊎◌, inl, inr, ◌≡◌, refl, sym, ap, ◌∙◌, true, false, List, [], ◌∷◌,
  length, All, All-map, arith, Bool-cases, ◌==◌, leb→le, le→leb, and-true,
}
use mathlib.Core.Path.{subst}
use gateway_mt.Prelude.Bytes.{Bytes, eq_bytes, leb_bytes, ltb_bytes, is_prefix}
use gateway_mt.Prelude.Bytes.Order.{eq_bytes_refl, eq_bytes_sound, is_prefix_left}
use gateway_mt.Errs.{ok, is_ok}
use gateway_mt.Badger.{Badger, IsEngine, contains, IsAscending}
use gateway_mt.Badgerauth.Clock.{u64_mod}
use gateway_mt.Badgerauth.LogEntry.{
  LogEntry, IsSized, log_prefix, entry_bytes, log_entry_of, make_iteration_start_key,
  log_entry_of-entry_bytes, entry_bytes_injective,
}
use gateway_mt.Badgerauth.LogEntry.Order.{
  leb_bytes-start_key, clock_le_of_leb_bytes, id_of_prefix, is_prefix-entry_bytes,
}
use gateway_mt.Badgerauth.Proto.{Proto}
use gateway_mt.Badgerauth.Records.{
  ResponseEntry, lookup_record, collect_entries, find_response_entries,
}
use gateway_mt.Badgerauth.Consistent.{IsLogged, IsConsistent}

-- an entry is one of a list
abbrev pub Among : LogEntry → List LogEntry → Type 0
Among e [] = ⊥
Among e (x ∷ xs) = (x ≡ e) ⊎ Among e xs

-- clocks never fall along the list, and no entry is there twice
abbrev pub IsOrdered : List LogEntry → Type 0
IsOrdered [] = Unit
IsOrdered (x ∷ xs) =
    All (λ y. (x.clock ≤ y.clock) × (ltb_bytes (entry_bytes x) (entry_bytes y) ≡ true)) xs
    × IsOrdered xs

module _ (b : Badger) (p : Proto) (s : b.State) where
  -- the answers to a list of log entries, each with the record that its key hash names
  abbrev pub Answers : List LogEntry → List ResponseEntry → Type 0
  Answers [] [] = Unit
  Answers [] (a ∷ out) = ⊥
  Answers (e ∷ es) [] = ⊥
  Answers (e ∷ es) (a ∷ out) =
      (a.node_id ≡ e.id)
      × (a.encryption_key_hash ≡ e.key_hash)
      × (lookup_record b p e.key_hash s ≡ ok a.entry_record)
      × Answers es out

  -- what a requester is missing of a node after `clock`
  pub record IsMissing (node : Bytes) (clock : ℕ) (e : LogEntry) : Type 0 where
    pub sized : IsSized e
    pub is_logged : IsLogged b s e
    pub of_node : e.id ≡ node
    pub later : clock < e.clock

  pub record IsDelta (limit : ℕ) (node : Bytes) (clock : ℕ) (out : List ResponseEntry)
      : Type 0 where
    pub entries : List LogEntry
    pub answers : Answers entries out
    pub missing : All (IsMissing node clock) entries
    pub ordered : IsOrdered entries
    pub within : length entries ≤ limit
    -- Whatever else is missing is not older than what was returned, and the limit was reached.
    pub complete :
        (e : LogEntry)
        → IsMissing node clock e
        → Among e entries ⊎ ((length entries ≡ limit) × All (λ x. x.clock ≤ e.clock) entries)

-- The loop over the keys of one node's entries, after `count` answers.
module _ (b : Badger) (p : Proto) (s : b.State) (good : IsConsistent b p s) (node : Bytes)
    (limit : ℕ) where
  -- a key that the loop meets
  record IsKey (k : Bytes) : Type 0 where
    entry : LogEntry
    sized : IsSized entry
    key : k ≡ entry_bytes entry
    is_logged : IsLogged b s entry
    of_node : entry.id ≡ node

  record IsCollected (count : ℕ) (ks : List Bytes) : Type 0 where
    out : List ResponseEntry
    entries : List LogEntry
    returned : collect_entries b p s limit count ks ≡ ok out
    answers : Answers b p s entries out
    each : All (λ e. IsSized e × (contains ks (entry_bytes e) ≡ true)) entries
    ordered : IsOrdered entries
    within : count + length entries ≤ limit
    complete :
        (e : LogEntry)
        → IsSized e
        → e.id ≡ node
        → contains ks (entry_bytes e) ≡ true
        → Among e entries
          ⊎ ((count + length entries ≡ limit) × All (λ x. x.clock ≤ e.clock) entries)

  id_of_key : (e : LogEntry) → IsSized e → IsKey (entry_bytes e) → e.id ≡ node
  id_of_key e z found =
      ap (λ (x : LogEntry). x.id) (entry_bytes_injective e found.entry z found.sized found.key)
      ∙ found.of_node

  module _ (count : ℕ) (k : Bytes) (ks : List Bytes) (more : (count == limit) ≡ false)
      (first : (y : Bytes) → contains ks y ≡ true → ltb_bytes k y ≡ true) (here : IsKey k)
      (keys : (j : Bytes) → contains ks j ≡ true → IsKey j) where
    -- the entry of the first key is not later than those of the keys behind it
    first-le :
        (e : LogEntry)
        → IsSized e × (contains ks (entry_bytes e) ≡ true)
        → (here.entry.clock ≤ e.clock) × (ltb_bytes (entry_bytes here.entry) (entry_bytes e) ≡ true)
    first-le e (z, c) =
        let before : ltb_bytes (entry_bytes here.entry) (entry_bytes e) ≡ true =
          subst (λ x. ltb_bytes x (entry_bytes e) ≡ true) here.key (first (entry_bytes e) c) in
        let ids = here.of_node ∙ sym (id_of_key e z (keys (entry_bytes e) c)) in
        (clock_le_of_leb_bytes here.entry e here.sized z ids (and-true _ _ before).0, before)

    IsCollected-more : IsCollected (count + 1) ks → IsCollected count (k ∷ ks)
    unfolding collect_entries
    IsCollected-more rest =
        let e = here.entry in
        let (r, found) = good.has_record e here.sized here.is_logged in
        let parsed : log_entry_of k ≡ ok e =
          ap log_entry_of here.key ∙ log_entry_of-entry_bytes e here.sized in
        record {
          out =
              record { node_id = e.id; encryption_key_hash = e.key_hash; entry_record = r }
              ∷ rest.out;
          entries = e ∷ rest.entries;
          returned = rw (more, parsed, found, rest.returned);
          answers = (refl, refl, found, rest.answers);
          each = (
            (here.sized, ground (arith, here.key, eq_bytes_refl k)),
            All-map (λ f (z, c). (z, ground arith)) rest.entries rest.each,
          );
          ordered = (All-map first-le rest.entries rest.each, rest.ordered);
          within = omega (arith, rest.within);
          complete = λ f z i c. elim (Bool-cases (eq_bytes k (entry_bytes f))) [
            | inl same ↦ inl (
                inl (
                  entry_bytes_injective e f here.sized z
                    (sym here.key ∙ eq_bytes_sound k (entry_bytes f) same)))
            | inr other ↦
                let behind : contains ks (entry_bytes f) ≡ true = rw other at c in
                elim (rest.complete f z i behind) [
                  | inl among ↦ inl (inr among)
                  | inr (full, older) ↦ inr (omega arith, ((first-le f (z, behind)).0, older))
                ]
          ];
        }

  collected :
      (count : ℕ) (ks : List Bytes)
      → count ≤ limit
      → IsAscending ks
      → ((k : Bytes) → contains ks k ≡ true → IsKey k)
      → IsCollected count ks
  unfolding collect_entries
  collected count [] le asc keys = record {
    out = [];
    entries = [];
    returned = refl;
    answers = tt;
    each = tt;
    ordered = tt;
    within = omega arith;
    complete = λ e z i c. absurd (let f : false ≡ true = c in cc);
  }
  collected count (k ∷ ks) le (first, asc) keys = elim (Bool-cases (count == limit)) [
    | inl full ↦ record {
      out = [];
      entries = [];
      returned = rw full;
      answers = tt;
      each = tt;
      ordered = tt;
      within = omega arith;
      complete = λ e z i c. inr (ground arith, tt);
    }
    | inr more ↦
        IsCollected-more count k ks more first (keys k (ground (arith, eq_bytes_refl k)))
          (λ j c. keys j (ground arith))
          (collected (count + 1) ks (ground arith) asc (λ j c. keys j (ground arith)))
  ]

module _ (b : Badger) (p : Proto) (engine : IsEngine b) (s : b.State) (good : IsConsistent b p s)
    (node : Bytes) (clock : ℕ) (hn : length node ≡ 32) (below : clock + 1 < u64_mod) where
  abbrev scanned : List Bytes
  scanned = b.seek (log_prefix ++ node) (make_iteration_start_key node (clock + 1)) s

  scanned_parts :
      (k : Bytes)
      → contains scanned k ≡ true
      → (is_prefix (log_prefix ++ node) k ≡ true)
        × (leb_bytes (make_iteration_start_key node (clock + 1)) k ≡ true)
        × (is_ok (b.get k s) ≡ true)
  scanned_parts k h = ground (
    arith,
    engine.contains-seek (log_prefix ++ node) (make_iteration_start_key node (clock + 1)) k s,
  )

  scanned-IsKey :
      (limit : ℕ) (k : Bytes) → contains scanned k ≡ true → IsKey b p s good node limit k
  scanned-IsKey limit k h =
      let (pre, _, there) = scanned_parts k h in
      let (e, z, key) = good.entries k (is_prefix_left log_prefix node k pre) there in
      record {
        entry = e;
        sized = z;
        key = key;
        is_logged = subst (λ x. is_ok (b.get x s) ≡ true) key there;
        of_node =
            id_of_prefix node e hn z (subst (λ x. is_prefix (log_prefix ++ node) x ≡ true) key pre);
      }

  -- what the iterator yields is missing, and what is missing it yields
  scanned-IsMissing :
      (e : LogEntry)
      → IsSized e × (contains scanned (entry_bytes e) ≡ true)
      → IsMissing b p s node clock e
  scanned-IsMissing e (z, h) =
      let (pre, start, there) = scanned_parts (entry_bytes e) h in
      let same = id_of_prefix node e hn z pre in
      let start' : leb_bytes (make_iteration_start_key e.id (clock + 1)) (entry_bytes e) ≡ true =
        subst (λ i. leb_bytes (make_iteration_start_key i (clock + 1)) (entry_bytes e) ≡ true)
          (sym same) start in
      let later =
        leb→le (clock + 1) e.clock (sym (leb_bytes-start_key e (clock + 1) z below) ∙ start') in
      record { sized = z; is_logged = there; of_node = same; later = omega (arith, later) }

  missing-scanned :
      (e : LogEntry) → IsMissing b p s node clock e → contains scanned (entry_bytes e) ≡ true
  missing-scanned e m =
      let pre : is_prefix (log_prefix ++ node) (entry_bytes e) ≡ true =
        subst (λ i. is_prefix (log_prefix ++ i) (entry_bytes e) ≡ true) m.of_node
          (is_prefix-entry_bytes e) in
      let start : leb_bytes (make_iteration_start_key node (clock + 1)) (entry_bytes e) ≡ true =
        subst (λ i. leb_bytes (make_iteration_start_key i (clock + 1)) (entry_bytes e) ≡ true)
          m.of_node
          (leb_bytes-start_key e (clock + 1) m.sized below
            ∙ le→leb (clock + 1) e.clock (omega (arith, m.later))) in
      ground (
        arith,
        engine.contains-seek (log_prefix ++ node) (make_iteration_start_key node (clock + 1))
            (entry_bytes e) s,
        m.is_logged,
      )

-- From a consistent database and for a clock below 2^64 - 1, findResponseEntries answers, and its
-- answer is the delta: entries of the node's log after the clock, each with its record, in the
-- order of their clocks, none twice, and at most `limit` of them; an entry of the node after the
-- clock is left out only if the limit is reached and no returned entry is later than it.
pub find_response_entries-IsDelta :
    (b : Badger) (p : Proto)
    → IsEngine b
    → (s : b.State) → IsConsistent b p s
    → (limit : ℕ) (node : Bytes) (clock : ℕ) → length node ≡ 32
    → clock + 1 < u64_mod
    → (out : List ResponseEntry) × (find_response_entries b p limit node clock s ≡ ok out)
      × IsDelta b p s limit node clock out
unfolding find_response_entries
find_response_entries-IsDelta b p engine s good limit node clock hn below =
    let ks = scanned b p engine s good node clock hn below in
    let c =
      collected b p s good node limit 0 ks (omega arith) (engine.seek-IsAscending _ _ s)
        (scanned-IsKey b p engine s good node clock hn below limit) in
    let wrap : (clock + 1) % u64_mod ≡ clock + 1 = omega arith in
    (
      c.out,
      rw wrap c.returned,
      record {
        entries = c.entries;
        answers = c.answers;
        missing =
            All-map (scanned-IsMissing b p engine s good node clock hn below) c.entries c.each;
        ordered = c.ordered;
        within = omega (arith, c.within);
        complete = λ e m.
            elim (c.complete e m.sized m.of_node
              (missing-scanned b p engine s good node clock hn below e m)) [
                | inl among ↦ inl among
                | inr (full, older) ↦ inr (omega arith, older)
              ];
      },
    )
